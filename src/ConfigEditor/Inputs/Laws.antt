-- ===== src/ConfigEditor/Inputs/Laws.antt =====
-- Which addresses `validateHostPort` accepts.
use mathlib.Core.Path.{subst}
use mathlib.Core.Bool.{false≢true}
use offckb.Base.{
  ℕ, zero, suc, ◌<◌, ◌≤◌, ◌≡◌, refl, ◌≢◌, ◌↔◌, inl, inr, sym, ap, true, ◌||◌, Option, none, some,
  [], ◌∷◌, ◌++◌, eqb, length, length-append, length-drop, take, drop, All, Bool-cases, Option-cases,
  arith,
}
use offckb.Base.Text.{Text, trim}
use offckb.Value.{pos, negsuc, Number, nan, infinity, integer, fraction}
use offckb.ConfigEditor.{Platform}
use offckb.ConfigEditor.Inputs.{last_index_of, is_tcp_port, valid_separator, validate_host_port}

abbrev Lacks : ℕ → Text → Type 0
Lacks c = All (λ d. d ≢ c)

last_index_of-none : (c : ℕ) (s : Text) → last_index_of c s ≡ none → Lacks c s
unfolding last_index_of
last_index_of-none c [] h = tt
last_index_of-none c (d ∷ s) h = ground (arith, last_index_of-none c s)

last_index_of_of_Lacks : (c : ℕ) (s : Text) → Lacks c s → last_index_of c s ≡ none
unfolding last_index_of
last_index_of_of_Lacks c [] h = refl
last_index_of_of_Lacks c (d ∷ s) (e, h) = rw (last_index_of_of_Lacks c s h) (ground arith)

-- A unit at a place of a text, with no more of it behind.
abbrev IsLastAt : ℕ → Text → ℕ → Type 0
IsLastAt c s i = (s ≡ take i s ++ c ∷ drop (suc i) s) × Lacks c (drop (suc i) s) × (i < length s)

IsLastAt-suc : (c d : ℕ) (s : Text) (i : ℕ) → IsLastAt c s i → IsLastAt c (d ∷ s) (suc i)
IsLastAt-suc c d s i (split, lacks, lt) = (ap (λ t. d ∷ t) split, lacks, omega arith)

last_index_of-some : (c : ℕ) (s : Text) (i : ℕ) → last_index_of c s ≡ some i → IsLastAt c s i
unfolding last_index_of
last_index_of-some c [] i h = cc
last_index_of-some c (d ∷ s) i h = elim (Option-cases (last_index_of c s)) [
  | inl missing ↦
      let first : (i ≡ 0) × (d ≡ c) = ground arith in
      subst (IsLastAt c (d ∷ s)) (sym first.0)
        (ap (λ x. x ∷ s) first.1, last_index_of-none c s missing, omega arith)
  | inr (j, found) ↦
      let next : suc j ≡ i = ground arith in
      subst (IsLastAt c (d ∷ s)) next (IsLastAt-suc c d s j (last_index_of-some c s j found))
]

last_index_of-append :
    (c : ℕ) (h t : Text) → Lacks c t → last_index_of c (h ++ c ∷ t) ≡ some (length h)
unfolding last_index_of
last_index_of-append c [] t l = rw (last_index_of_of_Lacks c t l) (ground arith)
last_index_of-append c (d ∷ h) t l = rw (last_index_of-append c h t l)

is_tcp_port_iff :
    (n : Number)
    → (is_tcp_port n ≡ true) ↔ ((k : ℕ) × (n ≡ integer (pos k)) × (0 < k) × (k ≤ 65535))
is_tcp_port_iff (integer (pos k)) =
    (λ h. (k, refl, ground arith, ground arith), λ (j, e, lo, hi). ground arith)
is_tcp_port_iff (integer (negsuc k)) = (λ h. cc, λ (j, e, lo, hi). cc)
is_tcp_port_iff nan = (λ h. cc, λ (j, e, lo, hi). cc)
is_tcp_port_iff (infinity s) = (λ h. cc, λ (j, e, lo, hi). cc)
is_tcp_port_iff (fraction b) = (λ h. cc, λ (j, e, lo, hi). cc)

drop-length-append : (h t : Text) (c : ℕ) → drop (suc (length h)) (h ++ c ∷ t) ≡ t
drop-length-append [] t c = refl
drop-length-append (d ∷ h) t c = drop-length-append h t c

length_pos : (s : Text) → (0 < length s) ↔ (s ≢ [])
length_pos [] = (λ h. absurd (omega arith), λ h. absurd (h refl))
length_pos (c ∷ s) = (λ h. cc, λ h. omega arith)

-- A host that is not empty, a colon, and a port that reads as a number from 1 to 65535.
abbrev pub IsHostPort : Platform → Text → Type 0
IsHostPort p t =
    (host : Text) × (port : Text) × (n : ℕ) × (t ≡ host ++ b':' ∷ port)
    × (host ≢ [])
    × (port ≢ [])
    × Lacks b':' port
    × (p.to_number port ≡ integer (pos n))
    × (0 < n)
    × (n ≤ 65535)

valid_separator-some :
    (p : Platform) (t : Text) (i : ℕ)
    → valid_separator p t (some i) ≡ true
    → (i ≢ 0) × (suc i ≢ length t) × (is_tcp_port (p.to_number (drop (suc i) t)) ≡ true)
unfolding valid_separator
valid_separator-some p t i h = elim (Bool-cases (eqb i 0 || eqb (suc i) (length t))) [
  | inl refused ↦ absurd (false≢true (rw refused at h))
  | inr allowed ↦ (ground arith, ground arith, rw allowed at h)
]

take-ne-nil : (i : ℕ) (t : Text) → i ≢ 0 → i < length t → take i t ≢ []
take-ne-nil zero t h lt = absurd (h refl)
take-ne-nil (suc i) [] h lt = absurd (omega arith)
take-ne-nil (suc i) (c ∷ t) h lt = cc

drop-ne-nil : (i : ℕ) (t : Text) → suc i ≢ length t → i < length t → drop (suc i) t ≢ []
drop-ne-nil i t h lt = (length_pos (drop (suc i) t)).0 (omega (arith, length-drop (suc i) t))

IsHostPort-sound :
    (p : Platform) (t : Text) (o : Option ℕ)
    → last_index_of b':' t ≡ o
    → valid_separator p t o ≡ true
    → IsHostPort p t
IsHostPort-sound p t none found h = absurd (false≢true (unfold valid_separator in h))
IsHostPort-sound p t (some i) found h =
    let (split, lacks, lt) = last_index_of-some b':' t i found in
    let (start, end, port) = valid_separator-some p t i h in
    let (n, reads, lo, hi) = (is_tcp_port_iff (p.to_number (drop (suc i) t))).0 port in
    (
      take i t,
      drop (suc i) t,
      n,
      split,
      take-ne-nil i t start lt,
      drop-ne-nil i t end lt,
      lacks,
      reads,
      lo,
      hi,
    )

valid_separator-host_port :
    (p : Platform) (host port : Text) (n : ℕ)
    → host ≢ []
    → port ≢ []
    → is_tcp_port (p.to_number port) ≡ true
    → valid_separator p (host ++ b':' ∷ port) (some (length host)) ≡ true
unfolding valid_separator
valid_separator-host_port p host port n h q ok =
    rw (drop-length-append host port b':') (
      ground
        (arith, (length_pos host).1 h, (length_pos port).1 q, length-append host (b':' ∷ port)))

-- A text passes as a host and a port exactly when, trimmed, it is a host that is not empty, a colon and
-- a port after the last colon that reads as an integer from 1 to 65535.
pub validate_host_port_iff :
    (p : Platform) (value : Text) → (validate_host_port p value ≡ true) ↔ IsHostPort p (trim value)
unfolding validate_host_port
validate_host_port_iff p value = (
  IsHostPort-sound p (trim value) (last_index_of b':' (trim value)) refl,
  λ (host, port, n, split, h, q, lacks, reads, lo, hi).
      let passes : valid_separator p (host ++ b':' ∷ port)
            (last_index_of b':' (host ++ b':' ∷ port))
          ≡ true =
        rw (last_index_of-append b':' host port lacks) (
          valid_separator-host_port p host port n h q
            ((is_tcp_port_iff (p.to_number port)).1 (n, reads, lo, hi))) in
      subst (λ t. valid_separator p t (last_index_of b':' t) ≡ true) (sym split) passes,
)
