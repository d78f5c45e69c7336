-- ===== src/Logs/Following.antt =====
-- A log that grows while it is followed.
use mathlib.Core.Path.{subst}
use mathlib.Core.List.{append-nil, append_assoc}
use offckb.Base.{
  ℕ, zero, suc, ◌-◌, ◌≤◌, ◌≡◌, inl, inr, refl, sym, ap, ◌∙◌, true, false, Option, none, some, List,
  [], ◌∷◌, ◌++◌, eqb, nat_eq, length, take, drop, filter, length-append, Bool-cases, arith,
}
use offckb.Base.Text.{Text}
use offckb.Logs.Parts.{
  with_lines, split_lines-append, filter-append, take_taken, take-drop, take-add, drop-append,
}
use offckb.Logs.{
  split_lines, Decoder, Follower, Change, is_replaced, restarted, non_empty, read_bytes, received,
  on_read, on_current, on_change, follow,
}

-- A decoder that streams: what it gives for a text in parts is what it gives for the whole.
pub record IsStreaming {S : Type 0} (d : Decoder S) : Type 0 where
  pub decode_empty : (s : S) → d.decode s [] ≡ (s, [])
  pub decode_append :
      (s : S) (xs ys : List ℕ)
      → d.decode s (xs ++ ys) ≡ (
        (d.decode (d.decode s xs).0 ys).0,
        (d.decode s xs).1 ++ (d.decode (d.decode s xs).0 ys).1,
      )

-- The follower has read the bytes of a file from `start` to its offset, and has handed over the
-- lines of their text that are complete and not empty.
pub record HasFollowed {S : Type 0} (d : Decoder S) (start : ℕ) (bytes : List ℕ) (f : Follower S)
    (out : List Text) : Type 0 where
  pub decoded : Text
  pub lines : List Text
  pub decodes : d.decode d.fresh (drop start (take f.offset bytes)) ≡ (f.decoder, decoded)
  pub splits : split_lines decoded ≡ (lines, f.partial)
  pub handed_over : out ≡ filter non_empty lines
  pub within : length (take f.offset bytes) ≡ f.offset
  pub from_start : start ≤ f.offset

-- What is read at one change is the next part of the file.
read_bytes-next :
    (offset size n : ℕ) (found bytes : List ℕ)
    → take size found ≡ take size bytes
    → take (length (read_bytes offset size (found, n))) (drop offset bytes)
      ≡ read_bytes offset size (found, n)
read_bytes-next offset size n found bytes h =
    let same =
      take-drop offset size found ∙ ap (drop offset) h ∙ sym (take-drop offset size bytes) in
    ap (λ t. take (length (take n t)) (drop offset bytes)) same
    ∙ take_taken n (size - offset) (drop offset bytes)
    ∙ ap (take n) (sym same)

-- Bytes that come next, decoded and cut into lines, are followed too.
received-HasFollowed :
    {S : Type 0} (d : Decoder S) (start : ℕ) (bytes b : List ℕ) (f : Follower S) (out : List Text)
    → IsStreaming d
    → take (length b) (drop f.offset bytes) ≡ b
    → HasFollowed d start bytes f out
    → HasFollowed d start bytes
        (received f b (d.decode f.decoder b)).0
        (out ++ (received f b (d.decode f.decoder b)).1)
unfolding with_lines
received-HasFollowed d start bytes b f out h next inv =
    let (s', t') = d.decode f.decoder b in
    let (more, rest) = split_lines (f.partial ++ t') in
    let grown = take-add f.offset b bytes next in
    record {
      decoded = inv.decoded ++ t';
      lines = inv.lines ++ more;
      decodes =
          ap (λ xs. d.decode d.fresh (drop start xs)) grown
          ∙ ap (d.decode d.fresh) (
              drop-append start (take f.offset bytes) b (omega (arith, inv.within, inv.from_start)))
          ∙ h.decode_append d.fresh (drop start (take f.offset bytes)) b
          ∙ ap (λ r. ((d.decode r.0 b).0, r.1 ++ (d.decode r.0 b).1)) inv.decodes;
      splits =
          split_lines-append inv.decoded t'
          ∙ ap (λ r. with_lines r.0 (split_lines (r.1 ++ t'))) inv.splits;
      handed_over =
          ap (λ xs. xs ++ filter non_empty more) inv.handed_over
          ∙ sym (filter-append non_empty inv.lines more);
      within = ap length grown ∙ length-append (take f.offset bytes) b ∙ omega (arith, inv.within);
      from_start = omega (arith, inv.from_start);
    }

-- A change of a file that is still the same and has not shrunk, when what can be read up to the
-- size that is seen is the start of the whole log.
abbrev HasStart : List ℕ → ℕ → Option (List ℕ × ℕ) → Type 0
HasStart bytes size none = Unit
HasStart bytes size (some (found, n)) = take size found ≡ take size bytes

abbrev pub IsGrowth : List ℕ → Change → Type 0
IsGrowth bytes x = HasStart bytes x.curr.size x.read

on_read-HasFollowed :
    {S : Type 0} (d : Decoder S) (start : ℕ) (bytes : List ℕ) (f : Follower S) (out : List Text)
    (size : ℕ) (read : Option (List ℕ × ℕ))
    → IsStreaming d
    → HasStart bytes size read
    → HasFollowed d start bytes f out
    → HasFollowed d start bytes (on_read d f size read).0 (out ++ (on_read d f size read).1)
on_read-HasFollowed d start bytes f out size none h hs inv =
    subst (HasFollowed d start bytes f) (sym (append-nil out)) inv
on_read-HasFollowed d start bytes f out size (some (found, n)) h hs inv =
    received-HasFollowed d start bytes (read_bytes f.offset size (found, n)) f out h
      (read_bytes-next f.offset size n found bytes hs) inv

on_current-HasFollowed :
    {S : Type 0} (d : Decoder S) (start : ℕ) (bytes : List ℕ) (x : Change) (f : Follower S)
    (out : List Text)
    → IsStreaming d
    → IsGrowth bytes x
    → HasFollowed d start bytes f out
    → HasFollowed d start bytes (on_current d x f).0 (out ++ (on_current d x f).1)
on_current-HasFollowed d start bytes x f out h g inv =
    elim (Bool-cases (eqb x.curr.size f.offset)) [
      | inl b ↦ rw b (subst (HasFollowed d start bytes f) (sym (append-nil out)) inv)
      | inr b ↦ rw b (on_read-HasFollowed d start bytes f out x.curr.size x.read h g inv)
    ]

-- Each change finds the file grown: not replaced by another, and with the bytes of the log.
unfoldable pub IsGrowing : {S : Type 0} → Decoder S → List ℕ → List Change → Follower S → Type 0
IsGrowing d bytes [] f = Unit
IsGrowing d bytes (x ∷ xs) f =
    (is_replaced x f.offset ≡ false) × IsGrowth bytes x × IsGrowing d bytes xs (on_change d x f).0

follow-HasFollowed :
    {S : Type 0} (d : Decoder S) (start : ℕ) (bytes : List ℕ) (xs : List Change) (f : Follower S)
    (out : List Text)
    → IsStreaming d
    → IsGrowing d bytes xs f
    → HasFollowed d start bytes f out
    → HasFollowed d start bytes (follow d xs f).0 (out ++ (follow d xs f).1)
unfolding follow IsGrowing on_change
follow-HasFollowed d start bytes [] f out h g inv =
    subst (HasFollowed d start bytes f) (sym (append-nil out)) inv
follow-HasFollowed d start bytes (x ∷ xs) f out h (same, g, gs) inv =
    let step = on_change d x f in
    subst (HasFollowed d start bytes (follow d xs step.0).0)
      (append_assoc out step.1 (follow d xs step.0).1)
      (follow-HasFollowed d start bytes xs step.0 (out ++ step.1) h gs
        (rw same (on_current-HasFollowed d start bytes x f out h g inv)))

drop_taken : (n : ℕ) (xs : List ℕ) → ◌≡◌ {A = List ℕ} (drop n (take n xs)) []
drop_taken zero xs = refl
drop_taken (suc n) [] = refl
drop_taken (suc n) (x ∷ xs) = drop_taken n xs

length_taken : (n : ℕ) (xs : List ℕ) → n ≤ length xs → length (take n xs) ≡ n
length_taken zero xs h = refl
length_taken (suc n) [] h = absurd (omega arith)
length_taken (suc n) (x ∷ xs) h = ap suc (length_taken n xs (omega (arith, h)))

started-HasFollowed :
    {S : Type 0} (d : Decoder S) (start : ℕ) (bytes : List ℕ)
    → IsStreaming d
    → start ≤ length bytes
    → HasFollowed d start bytes (record { offset = start; partial = []; decoder = d.fresh }) []
unfolding split_lines
started-HasFollowed d start bytes h le = record {
  decoded = [];
  lines = [];
  decodes = ap (d.decode d.fresh) (drop_taken start bytes) ∙ h.decode_empty d.fresh;
  splits = refl;
  handed_over = refl;
  within = length_taken start bytes le;
  from_start = omega arith;
}

-- A log is followed from its end while it grows, over any number of changes, however the bytes are
-- cut by short reads, within a line or within a character. The lines handed over are the complete
-- and not empty lines of the text from where the following started to what has been read, in
-- order, and the rest of that text is kept for later. The decoder streams.
pub follow-growing :
    {S : Type 0} (d : Decoder S) (start : ℕ) (bytes : List ℕ) (xs : List Change)
    → IsStreaming d
    → start ≤ length bytes
    → IsGrowing d bytes xs (record { offset = start; partial = []; decoder = d.fresh })
    → HasFollowed d start bytes
        (follow d xs (record { offset = start; partial = []; decoder = d.fresh })).0
        (follow d xs (record { offset = start; partial = []; decoder = d.fresh })).1
follow-growing d start bytes xs h le gs =
    follow-HasFollowed d start bytes xs (record { offset = start; partial = []; decoder = d.fresh })
      [] h gs (started-HasFollowed d start bytes h le)

-- A file that has been replaced or cut is followed from its first byte on, whatever the follower
-- had kept of the old one.
pub follow-replaced :
    {S : Type 0} (d : Decoder S) (bytes : List ℕ) (x : Change) (xs : List Change) (f : Follower S)
    → IsStreaming d
    → is_replaced x f.offset ≡ true
    → IsGrowth bytes x
    → IsGrowing d bytes xs (on_change d x f).0
    → HasFollowed d 0 bytes (follow d (x ∷ xs) f).0 (follow d (x ∷ xs) f).1
unfolding follow on_change
follow-replaced d bytes x xs f h replaced g gs =
    follow-HasFollowed d 0 bytes xs (on_change d x f).0 (on_change d x f).1 h gs (
      rw replaced (
        on_current-HasFollowed d 0 bytes x (restarted d) [] h g
          (started-HasFollowed d 0 bytes h (omega arith))))
