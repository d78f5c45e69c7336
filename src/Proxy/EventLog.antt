-- ===== src/Proxy/EventLog.antt =====
-- `createProxyEventLog` of src/tools/proxy-events.ts: the events that are appended to proxy.log, and
-- the rollover to an archive. A call of the file system that fails changes nothing, and each call
-- of an event may fail on its own. Sizes are in bytes, so a line is its bytes in UTF-8.
use offckb.Base.{
  ℕ, ◌+◌, Bool, true, false, ◌&&◌, ◌||◌, Option, none, some, List, [], ◌∷◌, ◌++◌, if◌then◌else◌,
  map, leb, ltb, length, nat_eq,
}
use offckb.Base.Text.{Text}

-- `[\u0000-\u001f\u007f-\u009f]`
unfoldable pub is_control : ℕ → Bool
is_control c = leb c 0x1f || (leb 0x7f c && leb c 0x9f)

-- `sanitizeEventText`
unfoldable pub sanitize_event_text : Text → Text
unfolding is_control
sanitize_event_text s = map (λ c. if is_control c then 32 else c) s

-- The line of an event; the time is in ISO form.
unfoldable pub event_line : Text → Text → Text
unfolding sanitize_event_text
event_line time s = time ++ (32 ∷ sanitize_event_text s ++ (10 ∷ []))

-- The files beside proxy.log, as bytes.
pub record Files : Type 0 where
  pub log : Option (List ℕ)
  pub archive : Option (List ℕ)
  pub backup : Option (List ℕ)

-- The calls of one event, each of which may fail.
pub record Calls : Type 0 where
  pub mkdir : Bool
  pub stat : Bool
  pub remove_backup : Bool
  pub move_archive : Bool
  pub move_log : Bool
  pub restore : Bool
  pub remove_backup_last : Bool
  pub append : Bool

-- `dirReady`, and `size`, where `none` is -1.
pub record Log : Type 0 where
  pub dir_ready : Bool
  pub size : Option ℕ

abbrev pub byte_length : Option (List ℕ) → ℕ
byte_length none = 0
byte_length (some bytes) = length bytes

-- The inner `try`: the files, and whether it came to its end. A restore that fails keeps the
-- archive in the backup.
abbrev pub backed_up : Files → Files
backed_up f = record { log = f.log; archive = none; backup = f.archive }

abbrev pub moved : Calls → Files → Files × Bool
moved c f = (
  record { log = none; archive = f.log; backup = if c.remove_backup_last then none else f.backup },
  c.remove_backup_last,
)

abbrev pub restored : Calls → Files → Files
restored c f = if c.restore then record { log = f.log; archive = f.backup; backup = none } else f

-- A rename of a file that is missing fails.
abbrev pub moves_log : Calls → Option (List ℕ) → Bool
moves_log c none = false
moves_log c (some bytes) = c.move_log

abbrev pub with_archive : Calls → Files → Files × Bool
with_archive c f =
    if c.move_archive
    then (if moves_log c f.log then moved c (backed_up f) else (restored c (backed_up f), false))
    else (f, false)

abbrev pub without_archive : Calls → Files → Files × Bool
without_archive c f = if moves_log c f.log then moved c f else (f, false)

abbrev pub by_archive : Calls → Files → Option (List ℕ) → Files × Bool
by_archive c f none = without_archive c f
by_archive c f (some bytes) = with_archive c f

abbrev pub without_backup : Files → Files
without_backup f = record { log = f.log; archive = f.archive; backup = none }

unfoldable pub roll_over : Calls → Files → Files × Bool
roll_over c f = if c.remove_backup then by_archive c (without_backup f) f.archive else (f, false)

abbrev pub appended : List ℕ → Option (List ℕ) → List ℕ
appended line none = line
appended line (some bytes) = bytes ++ line

-- The last two calls.
abbrev pub append_event : Calls → List ℕ → Files → ℕ → Files × Log
append_event c line f size =
    if c.append
    then (
      record { log = some (appended line f.log); archive = f.archive; backup = f.backup },
      record { dir_ready = true; size = some (size + length line) },
    )
    else (f, record { dir_ready = false; size = none })

abbrev pub after_roll : Calls → ℕ → List ℕ → Files × Bool → Files × Log
after_roll c max line (f, true) = append_event c line f 0
after_roll c max line (f, false) = append_event c line f max

abbrev pub must_roll : ℕ → ℕ → List ℕ → Bool
must_roll max size line = ltb 0 size && ltb max (size + length line)

abbrev pub with_size : Calls → ℕ → List ℕ → Files → Option ℕ → Files × Log
with_size c max line f none = (f, record { dir_ready = false; size = none })
with_size c max line f (some size) =
    if must_roll max size line
    then after_roll c max line (roll_over c f)
    else append_event c line f size

-- `if (size < 0) size = ...`, where `none` is a `stat` that fails.
abbrev pub measured : Calls → Files → Option ℕ → Option ℕ
measured c f (some size) = some size
measured c f none = if c.stat then some (byte_length f.log) else none

-- `event(text)`, on the bytes of its line.
unfoldable pub event : Calls → ℕ → List ℕ → Files × Log → Files × Log
unfolding roll_over
event c max line (f, g) =
    if g.dir_ready || c.mkdir
    then with_size c max line f (measured c f g.size)
    else (f, record { dir_ready = false; size = none })
