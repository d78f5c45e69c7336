-- ===== src/Daemon/Processes.antt =====
-- What the system says of a live process: `getProcessInfo` and its sources in src/util/daemon.ts.
-- The files of /proc and the output of `ps` and PowerShell are inputs; `none` is a failure.
pub mod Tokens
use offckb.Base.{
  ℕ, zero, suc, ◌+◌, ◌-◌, ◌*◌, Bool, true, false, not, ◌&&◌, ◌||◌, Option, none, some, List, [],
  ◌∷◌, if◌then◌else◌, eqb, ltb, leb, ◌==◌, nat_eq, text_eq, length, get_elem?, drop, filter, Result,
  ok, err, ◌>>=◌,
}
use offckb.Base.Text.{
  Text, text, trim, is_empty, is_space, is_digit, starts_with, split_on, after_last, digits_value,
  digits_number, join,
}
use offckb.Value.{ℤ, pos, Number, integer, Value, str, null, lookup}
use offckb.Value.Paths.{get_key}
use offckb.Logs.{Matched, unit_of, unit_if, span, some_of}
use offckb.Daemon.PidFiles.{Platform, positive}

-- A time in milliseconds, as a fraction: the ticks of /proc need not be whole milliseconds.
pub record Instant : Type 0 where
  pub numerator : ℕ
  pub denominator : ℕ

abbrev pub millis : ℕ → Instant
millis n = record { numerator = n; denominator = 1 }

pub record ProcessInfo : Type 0 where
  pub argv : Option (List Text)
  pub cmdline : Option Text
  pub start_time : Option Instant

abbrev pub no_info : ProcessInfo
no_info = record { argv = none; cmdline = none; start_time = none }

-- `stat.match(/^btime (\d+)$/m)`: the first line that matches.
abbrev pub btime_of : Text → Option ℕ
btime_of line = if starts_with line (text "btime ") then digits_number (drop 6 line) else none

unfoldable pub first_btime : List Text → Option ℕ
first_btime [] = none
first_btime (line ∷ lines) =
    let rest = first_btime lines in elim (btime_of line) [ some n ↦ some n | none ↦ rest ]

-- `readBootTimeMs`, without its cache.
unfoldable pub read_boot_time_ms : Option Text → Option ℕ
unfolding first_btime split_on starts_with text digits_number
read_boot_time_ms none = none
read_boot_time_ms (some stat) = elim (first_btime (split_on 10 stat)) [
  | none ↦ none
  | some seconds ↦ some (seconds * 1000)
]

-- `clockTicksPerSecond`, on what `getconf` prints.
abbrev pub or_hundred : Option ℕ → ℕ
or_hundred none = 100
or_hundred (some n) = n

unfoldable pub clock_ticks_per_second : Platform → Option Text → ℕ
clock_ticks_per_second p none = 100
clock_ticks_per_second p (some out) = or_hundred (positive (p.to_number (trim out)))

-- `Number(fields[19])`, finite and not negative; the kernel prints no fraction.
abbrev pub start_ticks : Platform → Option Text → Option ℕ
start_ticks p none = none
start_ticks p (some s) = elim (p.to_number s) [ integer (pos n) ↦ some n | _ ↦ none ]

-- `bootTimeMs + (startTicks / clockTicksPerSecond()) * 1000`
abbrev pub started : ℕ → Option ℕ → Option ℕ → Option Instant
started hertz (some ticks) (some boot) =
    some (record { numerator = boot * hertz + ticks * 1000; denominator = hertz })
started hertz _ _ = none

-- What the platform gives of one process.
pub record Sources : Type 0 where
  pub proc_stat : Option Text
  pub proc_cmdline : Option Text
  pub boot_stat : Option Text
  pub getconf : Option Text
  pub ps_args : Option Text
  pub ps_lstart : Option Text
  pub powershell : Option Text

-- `readProcStartTimeMs`
unfoldable pub read_proc_start_time_ms : Platform → Sources → Option Instant
unfolding after_last split_on read_boot_time_ms clock_ticks_per_second
read_proc_start_time_ms p s = elim s.proc_stat [
  | none ↦ none
  | some raw ↦ elim (after_last b')' raw) [
    | none ↦ none
    | some rest ↦
        started (clock_ticks_per_second p s.getconf)
          (start_ticks p (get_elem? (split_on 32 (drop 1 rest)) 19)) (read_boot_time_ms s.boot_stat)
  ]
]

abbrev pub is_some_text : Text → Bool
is_some_text s = not (is_empty s)

abbrev pub with_argv : Option Instant → List Text → Option ProcessInfo
with_argv start argv =
    if ltb (length argv) 2
    then none
    else some (record { argv = some argv; cmdline = none; start_time = start })

-- `readProcProcessInfo`
unfoldable pub read_proc_process_info : Platform → Sources → Option ProcessInfo
unfolding read_proc_start_time_ms split_on
read_proc_process_info p s = elim s.proc_cmdline [
  | none ↦ none
  | some raw ↦ with_argv (read_proc_start_time_ms p s) (filter is_some_text (split_on 0 raw))
]

-- `LSTART_MONTHS[name]`
unfoldable pub month_index : ℕ → Text → List Text → Option ℕ
month_index i name [] = none
month_index i name (m ∷ ms) =
    let rest = month_index (suc i) name ms in if m == name then some i else rest

unfoldable pub lstart_months : List Text
unfolding text
lstart_months =
    text "Jan"
    ∷ text "Feb"
    ∷ text "Mar"
    ∷ text "Apr"
    ∷ text "May"
    ∷ text "Jun"
    ∷ text "Jul"
    ∷ text "Aug"
    ∷ text "Sep"
    ∷ text "Oct"
    ∷ text "Nov"
    ∷ text "Dec"
    ∷ []

-- `\w`
abbrev pub is_word : ℕ → Bool
is_word c = is_digit c || (leb b'a' c && leb c b'z') || (leb b'A' c && leb c b'Z') || c == b'_'

-- A part of exactly `n` units that pass, and the rest.
unfoldable pub exactly : (ℕ → Bool) → ℕ → Text → Matched (Text × Text)
exactly q zero s = ok ([], s)
exactly q (suc n) [] = err tt
exactly q (suc n) (c ∷ s) = if q c then (exactly q n s >>= λ r. ok (c ∷ r.0, r.1)) else err tt

-- `\d{1,2}` with the blank that follows: what comes next is no digit.
abbrev pub one_or_two : Text × Text → Matched (Text × Text)
one_or_two (digits, rest) = if leb (length digits) 2 then ok (digits, rest) else err tt

pub record Lstart : Type 0 where
  pub month : Text
  pub day : ℕ
  pub hours : ℕ
  pub minutes : ℕ
  pub seconds : ℕ
  pub year : ℕ

unfoldable pub match_lstart : Text → Matched Lstart
unfolding exactly is_digit digits_value
match_lstart s = do
  weekday ← exactly is_word 3 s
  s ← unit_of 32 weekday.1
  month ← exactly is_word 3 s
  blanks ← some_of (λ c. c == 32) month.1
  day ← some_of is_digit blanks.1 >>= one_or_two
  s ← unit_of 32 day.1
  hours ← exactly is_digit 2 s
  s ← unit_of b':' hours.1
  minutes ← exactly is_digit 2 s
  s ← unit_of b':' minutes.1
  seconds ← exactly is_digit 2 s
  s ← unit_of 32 seconds.1
  year ← exactly is_digit 4 s
  if is_empty year.1
      then ok (record {
        month = month.0;
        day = digits_value 0 day.0;
        hours = digits_value 0 hours.0;
        minutes = digits_value 0 minutes.0;
        seconds = digits_value 0 seconds.0;
        year = digits_value 0 year.0;
      })
      else err tt

-- `new Date(year, month, ...).getTime()` in the local time zone, where `none` is not finite.
abbrev pub LocalTime : Type 0
LocalTime = ℕ → Lstart → Option ℕ

abbrev pub lstart_time : LocalTime → Matched Lstart → Option ℕ
lstart_time local (err _) = none
lstart_time local (ok l) = elim (month_index 0 l.month lstart_months) [
  | none ↦ none
  | some month ↦ local month l
]

-- `parsePsLstart`
unfoldable pub parse_ps_lstart : LocalTime → Text → Option ℕ
unfolding match_lstart month_index lstart_months
parse_ps_lstart local s = lstart_time local (match_lstart (trim s))

-- `execFileText` trims what is printed, and gives nothing for an empty text.
unfoldable pub exec_file_text : Option Text → Option Text
exec_file_text none = none
exec_file_text (some out) = if is_empty (trim out) then none else some (trim out)

abbrev pub lstart_instant : LocalTime → Option Text → Option Instant
lstart_instant local none = none
lstart_instant local (some s) = elim (parse_ps_lstart local s) [
  | none ↦ none
  | some n ↦ some (millis n)
]

-- `readPosixProcessInfo`
unfoldable pub read_posix_process_info : LocalTime → Sources → ProcessInfo
unfolding exec_file_text parse_ps_lstart
read_posix_process_info local s = record {
  argv = none;
  cmdline = exec_file_text s.ps_args;
  start_time = lstart_instant local (exec_file_text s.ps_lstart);
}

-- A member that is a text with more than blanks.
abbrev pub shown_text : Option Value → Option Text
shown_text (some (str s)) = if is_empty (trim s) then none else some s
shown_text _ = none

abbrev pub windows_info : Platform → Option Value → ProcessInfo
windows_info p none = no_info
windows_info p (some null) = no_info
windows_info p (some v) = record {
  argv = none;
  cmdline = shown_text (get_key (text "cmdline") v);
  start_time = elim (positive (p.number_of (get_key (text "startMs") v))) [
    | none ↦ none
    | some n ↦ some (millis n)
  ];
}

-- `readWindowsProcessInfo`; PowerShell prints whole milliseconds.
unfoldable pub read_windows_process_info : Platform → Sources → ProcessInfo
unfolding exec_file_text get_key lookup
read_windows_process_info p s = elim (exec_file_text s.powershell) [
  | none ↦ no_info
  | some out ↦ windows_info p (p.parse out)
]

pub data Os : Type 0 where
  win32 linux other_os : Os

abbrev pub or_posix : LocalTime → Sources → Option ProcessInfo → ProcessInfo
or_posix local s none = read_posix_process_info local s
or_posix local s (some info) = info

-- `getProcessInfo` of a number that is positive or not.
unfoldable pub get_process_info :
    Platform → LocalTime → Os → Sources → Option ℕ → Option ProcessInfo
unfolding read_windows_process_info read_proc_process_info read_posix_process_info
get_process_info p local os s none = none
get_process_info p local win32 s (some pid) = some (read_windows_process_info p s)
get_process_info p local linux s (some pid) = some (or_posix local s (read_proc_process_info p s))
get_process_info p local other_os s (some pid) = some (read_posix_process_info local s)

abbrev pub command_line : ProcessInfo → Option Text
command_line info = elim info.argv [ some argv ↦ some (join (text " ") argv) | none ↦ info.cmdline ]

-- `getProcessCommandLine`
unfoldable pub get_process_command_line : Option ProcessInfo → Option Text
unfolding join text
get_process_command_line none = none
get_process_command_line (some info) = command_line info
