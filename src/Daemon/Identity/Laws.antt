-- ===== src/Daemon/Identity/Laws.antt =====
-- When a process passes for a daemon of this installation.
use offckb.Base.{
  ℕ, zero, suc, ◌<◌, ◌||◌, ◌+◌, ◌*◌, ◌≤◌, ◌≡◌, ◌↔◌, ◌⊎◌, inl, inr, refl, sym, ◌∙◌, ap, Bool, true,
  ◌&&◌, Option, none, some, List, [], ◌∷◌, text_eq, arith, Option-cases, list_eqb_iff,
}
use mathlib.Core.Path.{subst}
use offckb.Base.Text.{Text, text, lower, contains}
use offckb.Value.{pos, negsuc, Number, integer}
use offckb.Daemon.PidFiles.{Platform, PidMetadata, positive, resolve_cli_entry}
use offckb.Daemon.Processes.{Instant, ProcessInfo}
use offckb.Daemon.Identity.{
  normalize_path_for_compare, node_executable_names, executable_looks_like_node, within_tolerance,
  start_matches, tokens_of, tokens_match, matches_info, recorded_ms, verify_daemon_identity,
}

-- The executable of this program, links resolved, or one that has a name of Node.
abbrev pub IsNode : Platform → Text → Type 0
IsNode p executable =
    (normalize_path_for_compare p executable ≡ normalize_path_for_compare p p.exec_path)
    ⊎ ((name : Text) × (name ≡ lower (p.basename executable))
        × ((text "node" ≡ name) ⊎ (text "nodejs" ≡ name) ⊎ (text "node.exe" ≡ name)))

or_iff : (a b : Bool) → (a || b ≡ true) ↔ ((a ≡ true) ⊎ (b ≡ true))
or_iff a b = ground arith

contains-three :
    (a b c s : Text) → (contains (a ∷ b ∷ c ∷ []) s ≡ true) ↔ ((a ≡ s) ⊎ (b ≡ s) ⊎ (c ≡ s))
contains-three a b c s = ground (arith, list_eqb_iff a s, list_eqb_iff b s, list_eqb_iff c s)

executable_looks_like_node_iff :
    (p : Platform) (executable : Text)
    → (executable_looks_like_node p executable ≡ true) ↔ IsNode p executable
unfolding executable_looks_like_node node_executable_names
executable_looks_like_node_iff p executable =
    let name = lower (p.basename executable) in
    let (there, back) = contains-three (text "node") (text "nodejs") (text "node.exe") name in
    (
      λ h. elim ((or_iff _ _).0 h) [
        | inl same ↦ inl ((list_eqb_iff _ _).0 same)
        | inr named ↦ inr (name, refl, there named)
      ],
      λ h. elim h [
        | inl same ↦ (or_iff _ _).1 (inl ((list_eqb_iff _ _).1 same))
        | inr (other, same, named) ↦ (or_iff _ _).1 (
            inr (
              back (
                subst (λ x. (text "node" ≡ x) ⊎ (text "nodejs" ≡ x) ⊎ (text "node.exe" ≡ x)) same
                  named)))
      ],
    )

-- The first two words run this installation's script by the runtime of Node.
abbrev pub RunsScript : Platform → Text → List Text → Type 0
RunsScript p entry words =
    (executable : Text) × (script : Text) × (rest : List Text) × (words
      ≡ executable ∷ script ∷ rest)
    × IsNode p executable
    × (normalize_path_for_compare p script ≡ normalize_path_for_compare p entry)

-- A recorded start is one that the process started at, up to thirty seconds either way.
abbrev pub StartedThen : Option ℕ → Option Instant → Type 0
StartedThen recorded start =
    (recorded ≡ none)
    ⊎ ((ms : ℕ) × (t : Instant) × (recorded ≡ some ms)
        × (start ≡ some t)
        × (t.numerator ≤ ms * t.denominator + 30_000 * t.denominator)
        × (ms * t.denominator ≤ t.numerator + 30_000 * t.denominator))

-- The time that the PID file records, in milliseconds.
abbrev pub IsRecorded : Platform → PidMetadata → ℕ → Type 0
IsRecorded p m ms = (p.date_parse m.started_at ≡ integer (pos ms)) × (0 < ms)

abbrev pub IsStart : Platform → PidMetadata → Option Instant → Type 0
IsStart p m start =
    ((ms : ℕ) → ¬ (IsRecorded p m ms))
    ⊎ ((ms : ℕ) × (t : Instant) × IsRecorded p m ms
        × (start ≡ some t)
        × (t.numerator ≤ ms * t.denominator + 30_000 * t.denominator)
        × (ms * t.denominator ≤ t.numerator + 30_000 * t.denominator))

positive_iff : (x : Number) (n : ℕ) → (positive x ≡ some n) ↔ ((x ≡ integer (pos n)) × (0 < n))
positive_iff x n =
    (positive_there x n, λ (e, lt). subst (λ y. positive y ≡ some n) (sym e) (back n lt))
  where
    positive_there : (x : Number) (n : ℕ) → positive x ≡ some n → (x ≡ integer (pos n)) × (0 < n)
    positive_there (integer (pos (suc k))) n h =
        let same : suc k ≡ n = cc in (ap (λ i. integer (pos i)) same, omega (arith, same))
    positive_there (integer (pos zero)) n h = cc
    positive_there (integer (negsuc k)) n h = cc
    positive_there y n h = cc

    back : (n : ℕ) → 0 < n → positive (integer (pos n)) ≡ some n
    back zero lt = absurd (omega (arith, lt))
    back (suc n) lt = refl

recorded_ms_iff :
    (p : Platform) (m : PidMetadata) (start : Option Instant)
    → StartedThen (recorded_ms p m) start ↔ IsStart p m start
unfolding recorded_ms
recorded_ms_iff p m start = (
  λ h. elim h [
    | inl unknown ↦ inl (λ ms r. none≢some (sym unknown ∙ (positive_iff _ ms).1 r))
    | inr (ms, t, known, begun, hi, lo) ↦ inr (ms, t, (positive_iff _ ms).0 known, begun, hi, lo)
  ],
  λ h. elim h [
    | inl unknown ↦ elim (Option-cases (positive (p.date_parse m.started_at))) [
      | inl nothing ↦ inl nothing
      | inr (ms, known) ↦ absurd (unknown ms ((positive_iff _ ms).0 known))
    ]
    | inr (ms, t, r, begun, hi, lo) ↦ inr (ms, t, (positive_iff _ ms).1 r, begun, hi, lo)
  ],
)
  where
    none≢some : {x : ℕ} → ◌≡◌ {A = Option ℕ} none (some x) → ⊥
    none≢some h = cc

abbrev pub IsDaemon : Platform → Option ProcessInfo → PidMetadata → Type 0
IsDaemon p info m =
    (entry : Text) × (found : ProcessInfo) × (words : List Text) × (resolve_cli_entry p
      ≡ some entry)
    × (info ≡ some found)
    × (tokens_of found.argv found.cmdline ≡ some words)
    × RunsScript p entry words
    × IsStart p m found.start_time

within_tolerance_iff :
    (ms : ℕ) (t : Instant)
    → (within_tolerance ms t ≡ true) ↔ (
        (t.numerator ≤ ms * t.denominator + 30_000 * t.denominator)
        × (ms * t.denominator ≤ t.numerator + 30_000 * t.denominator))
within_tolerance_iff ms t = ground arith

start_matches_iff :
    (recorded : Option ℕ) (start : Option Instant)
    → (start_matches recorded start ≡ true) ↔ StartedThen recorded start
start_matches_iff none start = (λ h. inl refl, λ h. refl)
start_matches_iff (some ms) none =
    (λ h. cc, λ h. elim h [ inl e ↦ cc | inr (k, t, e, e', b, b') ↦ cc ])
start_matches_iff (some ms) (some t) = (
  λ h. let (hi, lo) = (within_tolerance_iff ms t).0 h in inr (ms, t, refl, refl, hi, lo),
  λ h. elim h [
    | inl e ↦ cc
    | inr (k, u, e, e', hi, lo) ↦
        let same : k ≡ ms = cc in
        let same' : u ≡ t = cc in
        (within_tolerance_iff ms t).1 (
          subst (λ x. t.numerator ≤ x * t.denominator + 30_000 * t.denominator) same
              (subst (λ (x : Instant). x.numerator ≤ k * x.denominator + 30_000 * x.denominator)
                same' hi),
          subst (λ x. x * t.denominator ≤ t.numerator + 30_000 * t.denominator) same
              (subst (λ (x : Instant). k * x.denominator ≤ x.numerator + 30_000 * x.denominator)
                same' lo),
        )
  ],
)

and_iff : (a b : Bool) → ((a && b) ≡ true) ↔ ((a ≡ true) × (b ≡ true))
and_iff a b = ground arith

tokens_match_iff :
    (p : Platform) (entry : Text) (found : Option (List Text))
    → (tokens_match p (normalize_path_for_compare p entry) found ≡ true)
      ↔ ((words : List Text) × (found ≡ some words) × RunsScript p entry words)
tokens_match_iff p entry none = (λ h. cc, λ (w, e, r). cc)
tokens_match_iff p entry (some []) = (λ h. cc, λ (w, e, (x, s, rest, e', r, r')). cc)
tokens_match_iff p entry (some (x ∷ [])) = (λ h. cc, λ (w, e, (y, s, rest, e', r, r')). cc)
tokens_match_iff p entry (some (x ∷ s ∷ rest)) = (
  λ h.
      let (node, script) = (and_iff _ _).0 h in
      (
        x ∷ s ∷ rest,
        refl,
        (
          x,
          s,
          rest,
          refl,
          (executable_looks_like_node_iff p x).0 node,
          (list_eqb_iff _ _).0 script,
        ),
      ),
  λ (w, e, (y, t, more, e', node, script)).
      let first : y ≡ x = cc in
      let second : t ≡ s = cc in
      (and_iff _ _).1 (
        (executable_looks_like_node_iff p x).1 (subst (IsNode p) first node),
        (list_eqb_iff _ _).1 (ap (normalize_path_for_compare p) (sym second) ∙ script),
      ),
)

matches_info_iff :
    (p : Platform) (entry : Text) (recorded : Option ℕ) (info : Option ProcessInfo)
    → (matches_info p (normalize_path_for_compare p entry) recorded info ≡ true) ↔ (
        (found : ProcessInfo) × (words : List Text) × (info ≡ some found)
        × (tokens_of found.argv found.cmdline ≡ some words)
        × RunsScript p entry words
        × StartedThen recorded found.start_time)
matches_info_iff p entry recorded none = (λ h. cc, λ (f, w, e, e', r, r'). cc)
matches_info_iff p entry recorded (some info) = (
  λ h.
      let (words, start) = (and_iff _ _).0 h in
      let (w, e, runs) = (tokens_match_iff p entry (tokens_of info.argv info.cmdline)).0 words in
      (info, w, refl, e, runs, (start_matches_iff recorded info.start_time).0 start),
  λ (found, w, same, e, runs, start).
      let same' : found ≡ info = cc in
      (and_iff _ _).1 (
        (tokens_match_iff p entry (tokens_of info.argv info.cmdline)).1
            (w, subst (λ (x : ProcessInfo). tokens_of x.argv x.cmdline ≡ some w) same' e, runs),
        (start_matches_iff recorded info.start_time).1
            (subst (λ (x : ProcessInfo). StartedThen recorded x.start_time) same' start),
      ),
)

-- A process passes for the daemon of a PID file exactly when the program knows its own script, the
-- system shows the process, the first two words of its command line are the runtime of Node and
-- that script, links resolved, and, if the file records a time, the process is known to have
-- started within thirty seconds of it. The script that the PID file names plays no part.
pub verify_daemon_identity_iff :
    (p : Platform) (info : Option ProcessInfo) (m : PidMetadata)
    → (verify_daemon_identity p info m ≡ true) ↔ IsDaemon p info m
unfolding verify_daemon_identity
verify_daemon_identity_iff p info m = elim (Option-cases (resolve_cli_entry p)) [
  | inl missing ↦ (λ h. cc, λ (entry, found, w, e, e', e'', r, r'). cc)
  | inr (entry, is_entry) ↦ rw is_entry (
    λ h.
        let (found, w, e, e', runs, start) =
          (matches_info_iff p entry (recorded_ms p m) info).0 h in
        (entry, found, w, refl, e, e', runs, (recorded_ms_iff p m found.start_time).0 start),
    λ (entry', found, w, same, e, e', runs, start).
        let same' : entry' ≡ entry = cc in
        (matches_info_iff p entry (recorded_ms p m) info).1 (
          found,
          w,
          e,
          e',
          subst (λ x. RunsScript p x w) same' runs,
          (recorded_ms_iff p m found.start_time).1 start,
        ),
  )
]
