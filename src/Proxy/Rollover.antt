-- ===== src/Proxy/Rollover.antt =====
-- What an event keeps of the log and its archive, and how large the log grows.
use mathlib.Core.Path.{subst}
use offckb.Base.{
  ℕ, ◌+◌, ◌≤◌, ◌<◌, ◌≡◌, ◌⊎◌, inl, inr, refl, ap, sym, Bool, true, false, ◌||◌, Option, none, some,
  List, [], ◌∷◌, if◌then◌else◌, All, ltb, length, length-append, Bool-cases, if-both, arith,
}
use offckb.Base.Text.{Text}
use offckb.Proxy.EventLog.{
  is_control, sanitize_event_text, Files, Calls, Log, byte_length, backed_up, moved, restored,
  moves_log, with_archive, without_archive, by_archive, without_backup, roll_over, appended,
  append_event, after_roll, must_roll, with_size, measured, event,
}

-- One event.
sanitized_unit : (c : ℕ) → is_control (if is_control c then 32 else c) ≡ false
unfolding is_control
sanitized_unit c = ground arith

-- What is written for the text of an event holds no control character, so that an event is one line
-- and forges no other.
pub sanitize_event_text-All : (s : Text) → All (λ c. is_control c ≡ false) (sanitize_event_text s)
unfolding sanitize_event_text
sanitize_event_text-All [] = tt
sanitize_event_text-All (c ∷ s) = (sanitized_unit c, sanitize_event_text-All s)

-- The archive stays, where the backup of an earlier event stays too or is removed; or the archive is
-- the backup.
abbrev pub KeepsArchive : Files → Files → Type 0
KeepsArchive f g =
    ((g.archive ≡ f.archive) × ((g.backup ≡ f.backup) ⊎ (g.backup ≡ none)))
    ⊎ ((g.archive ≡ none) × (g.backup ≡ f.archive))

abbrev pub Rolls : Files → Files × Bool → Type 0
Rolls f (g, true) = (g.log ≡ none) × (g.archive ≡ f.log)
Rolls f (g, false) = ((g.log ≡ f.log) × KeepsArchive f g) ⊎ ((g.log ≡ none) × (g.archive ≡ f.log))

moved-Rolls : (c : Calls) (f g : Files) → g.log ≡ f.log → Rolls f (moved c g)
moved-Rolls c f g e = if-rolls c.remove_backup_last
  where
    if-rolls :
        (b : Bool)
        → Rolls f (record { log = none; archive = g.log; backup = if b then none else g.backup }, b)
    if-rolls true = (refl, e)
    if-rolls false = inr (refl, e)

restored-Rolls : (c : Calls) (f : Files) → Rolls f (restored c (backed_up f), false)
restored-Rolls c f =
    if-both (λ (g : Files). Rolls f (g, false)) c.restore _ _ (inl (refl, inl (refl, inr refl)))
      (inl (refl, inr (refl, refl)))

with_archive-Rolls : (c : Calls) (f : Files) → Rolls f (with_archive c f)
with_archive-Rolls c f =
    if-both (Rolls f) c.move_archive _ _
      (if-both (Rolls f) (moves_log c f.log) _ _ (moved-Rolls c f (backed_up f) refl)
        (restored-Rolls c f))
      (inl (refl, inl (refl, inl refl)))

without_archive-Rolls : (c : Calls) (f : Files) → Rolls f (without_archive c f)
without_archive-Rolls c f =
    if-both (Rolls f) (moves_log c f.log) _ _ (moved-Rolls c f f refl)
      (inl (refl, inl (refl, inl refl)))

by_archive-Rolls : (c : Calls) (f : Files) (o : Option (List ℕ)) → Rolls f (by_archive c f o)
by_archive-Rolls c f none = without_archive-Rolls c f
by_archive-Rolls c f (some bytes) = with_archive-Rolls c f

-- What `rmSync` of the old backup leaves has the same log and archive.
Rolls-without_backup : (f : Files) (r : Files × Bool) → Rolls (without_backup f) r → Rolls f r
Rolls-without_backup f (g, true) h = h
Rolls-without_backup f (g, false) (inr moved) = inr moved
Rolls-without_backup f (g, false) (inl (log, inr backup)) = inl (log, inr backup)
Rolls-without_backup f (g, false) (inl (log, inl (archive, inl removed))) =
    inl (log, inl (archive, inr removed))
Rolls-without_backup f (g, false) (inl (log, inl (archive, inr removed))) =
    inl (log, inl (archive, inr removed))

roll_over-Rolls : (c : Calls) (f : Files) → Rolls f (roll_over c f)
unfolding roll_over
roll_over-Rolls c f =
    if-both (Rolls f) c.remove_backup _ _
      (Rolls-without_backup f (by_archive c (without_backup f) f.archive)
        (by_archive-Rolls c (without_backup f) f.archive))
      (inl (refl, inl (refl, inl refl)))

-- The files after an event: the log with the line or without, and the archive or its backup; or the
-- log as the archive, and a new log with the line or none.
abbrev pub Keeps : List ℕ → Files → Files → Type 0
Keeps line f g =
    (((g.log ≡ f.log) ⊎ (g.log ≡ some (appended line f.log))) × KeepsArchive f g)
    ⊎ (((g.log ≡ none) ⊎ (g.log ≡ some line)) × (g.archive ≡ f.log))

append_event-Keeps :
    (c : Calls) (line : List ℕ) (f g : Files) (size : ℕ)
    → ((g.log ≡ f.log) × KeepsArchive f g) ⊎ ((g.log ≡ none) × (g.archive ≡ f.log))
    → Keeps line f (append_event c line g size).0
append_event-Keeps c line f g size (inl (log, archive)) =
    if-both (λ (r : Files × Log). Keeps line f r.0) c.append _ _
      (inl (inr (ap (λ l. some (appended line l)) log), archive)) (inl (inl log, archive))
append_event-Keeps c line f g size (inr (log, archive)) =
    if-both (λ (r : Files × Log). Keeps line f r.0) c.append _ _
      (inr (inr (ap (λ l. some (appended line l)) log), archive)) (inr (inl log, archive))

after_roll-Keeps :
    (c : Calls) (max : ℕ) (line : List ℕ) (f : Files) (r : Files × Bool)
    → Rolls f r
    → Keeps line f (after_roll c max line r).0
after_roll-Keeps c max line f (g, true) h = append_event-Keeps c line f g 0 (inr h)
after_roll-Keeps c max line f (g, false) h = append_event-Keeps c line f g max h

with_size-Keeps :
    (c : Calls) (max : ℕ) (line : List ℕ) (f : Files) (size : Option ℕ)
    → Keeps line f (with_size c max line f size).0
with_size-Keeps c max line f none = inl (inl refl, inl (refl, inl refl))
with_size-Keeps c max line f (some size) =
    if-both (λ (r : Files × Log). Keeps line f r.0) (must_roll max size line) _ _
      (after_roll-Keeps c max line f (roll_over c f) (roll_over-Rolls c f))
      (append_event-Keeps c line f f size (inl (refl, inl (refl, inl refl))))

-- Whichever calls of the file system fail during an event, either the log stays, with the line added
-- or not, and the archive stays or stands in the backup; or the log has become the archive, and a
-- new log holds the line or is not there. Where the log and the archive stay, a backup that an
-- earlier event left stays too or is removed.
pub event-Keeps :
    (c : Calls) (max : ℕ) (line : List ℕ) (f : Files) (g : Log)
    → Keeps line f (event c max line (f, g)).0
unfolding event
event-Keeps c max line f g =
    if-both (λ (r : Files × Log). Keeps line f r.0) (g.dir_ready || c.mkdir) _ _
      (with_size-Keeps c max line f (measured c f g.size)) (inl (inl refl, inl (refl, inl refl)))

-- No call of the event fails.
abbrev pub all_succeed : Calls
all_succeed = record {
  mkdir = true;
  stat = true;
  remove_backup = true;
  move_archive = true;
  move_log = true;
  restore = true;
  remove_backup_last = true;
  append = true;
}

-- The estimate is the size of the log, if there is one.
abbrev pub IsMeasured : Files → Log → Type 0
IsMeasured f g = (g.size ≡ none) ⊎ (g.size ≡ some (byte_length f.log))

-- The log is within the cap, or is the one line.
abbrev pub IsCapped : ℕ → List ℕ → Files × Log → Type 0
IsCapped max line (f, g) =
    (g.size ≡ some (byte_length f.log))
    × ((byte_length f.log ≤ max) ⊎ (byte_length f.log ≡ length line))

roll_over-all :
    (f : Files)
    → 0 < byte_length f.log
    → (g : Files) × (roll_over all_succeed f ≡ (g, true)) × (g.log ≡ none)
unfolding roll_over
roll_over-all f h = roll_files f.log f.archive f.backup h
  where
    roll_files :
        (log archive backup : Option (List ℕ))
        → 0 < byte_length log
        → (g : Files) × (roll_over all_succeed
              (record { log = log; archive = archive; backup = backup })
            ≡ (g, true))
          × (g.log ≡ none)
    roll_files none archive backup lt = absurd (omega arith)
    roll_files (some bytes) none backup lt = (_, refl, refl)
    roll_files (some bytes) (some old) backup lt = (_, refl, refl)

length-appended :
    (line : List ℕ) (log : Option (List ℕ))
    → length (appended line log) ≡ byte_length log + length line
length-appended line none = omega arith
length-appended line (some bytes) = length-append bytes line

append_event-IsCapped :
    (max : ℕ) (line : List ℕ) (f : Files) (size : ℕ)
    → size ≡ byte_length f.log
    → (size + length line ≤ max) ⊎ (size ≡ 0)
    → IsCapped max line (append_event all_succeed line f size)
append_event-IsCapped max line f size same fits = (
  ap some (omega (arith, same, length-appended line f.log)),
  elim fits [
    | inl within ↦ inl (omega (arith, within, same, length-appended line f.log))
    | inr empty ↦ inr (omega (arith, empty, same, length-appended line f.log))
  ],
)

with_size-IsCapped :
    (max : ℕ) (line : List ℕ) (f : Files)
    → IsCapped max line (with_size all_succeed max line f (some (byte_length f.log)))
with_size-IsCapped max line f = elim (Bool-cases (must_roll max (byte_length f.log) line)) [
  | inl rolls ↦
      let (g, e, fresh) = roll_over-all f (ground (arith, rolls)) in
      rw rolls (
        subst (λ r. IsCapped max line (after_roll all_succeed max line r)) (sym e)
          (append_event-IsCapped max line g 0 (sym (ap byte_length fresh)) (inr refl)))
  | inr stays ↦
      rw stays
        (append_event-IsCapped max line f (byte_length f.log) refl (fits (byte_length f.log) stays))
]
  where
    fits : (size : ℕ) → must_roll max size line ≡ false → (size + length line ≤ max) ⊎ (size ≡ 0)
    fits size h = elim (Bool-cases (ltb 0 size)) [
      | inl some' ↦ inl (ground (arith, h, some'))
      | inr empty ↦ inr (ground (arith, empty))
    ]

-- An event of which no call fails leaves the log measured, and within the cap or as the one line of
-- the event, provided that the size was not yet known or was that of the log.
pub event-IsCapped :
    (max : ℕ) (line : List ℕ) (f : Files) (g : Log)
    → IsMeasured f g
    → IsCapped max line (event all_succeed max line (f, g))
unfolding event
event-IsCapped max line f g h =
    rw (or_true g.dir_ready, size_known h) (with_size-IsCapped max line f)
  where
    or_true : (b : Bool) → b || true ≡ true
    or_true true = refl
    or_true false = refl

    size_known : IsMeasured f g → measured all_succeed f g.size ≡ some (byte_length f.log)
    size_known (inl unknown) = ap (measured all_succeed f) unknown
    size_known (inr known) = ap (measured all_succeed f) known
