-- ===== src/Fiber/Start/Records.antt =====
-- What becomes of the PID file when a daemon is started.
use mathlib.Core.Path.{subst}
use offckb.Base.{
  ℕ, ◌≡◌, ◌≢◌, ◌⊎◌, inl, inr, refl, ap, ◌∙◌, Bool, true, false, Option, none, some, List, All,
  if-both, Bool-cases, Option-cases,
}
use offckb.Base.Text.{Text, text}
use offckb.Daemon.PidFiles.{
  Platform, PidMetadata, Opening, opened, file_exists, open_failed, resolve_cli_entry,
  is_alive_number, or_empty,
}
use offckb.Fiber.Start.{
  FailAnswers, Sent, recheck, kill_round, after_term, fail_steps, fail_fiber_daemon_startup, Ready,
  ready, child_exited, timed_out, check_threw, Spawn, spawned, spawn_failed, no_pid, StartError,
  Outcome, started, failed, Inputs, Start, stop_here, no_child_pid, no_cli_entry, reserve_failed,
  spawn_threw, startup_in_progress, exited_before_ready, ready_timeout, metadata_failed, log_failed,
  initialize_failed, claim, after_failure, fail_startup, after_wait, optional_wait, after_spawn,
  after_reserve, reserve, with_entry, with_existing, start_from, start_fiber_daemon,
}

-- The system said that the child is gone.
abbrev pub IsGone : FailAnswers → Type 0
IsGone a =
    (a.alive_first ≡ some false)
    ⊎ ((a.exited_term ≡ some true) ⊎ ((a.exited_kill ≡ some true) ⊎ (a.alive_last ≡ some false)))

recheck-IsGone :
    (a : FailAnswers) (x : Option Bool) → a.alive_last ≡ x → recheck x ≡ true → IsGone a
recheck-IsGone a none e h = cc
recheck-IsGone a (some true) e h = cc
recheck-IsGone a (some false) e h = inr (inr (inr e))

kill_round-IsGone : (a : FailAnswers) (child : ℕ) → (kill_round a child).1 ≡ true → IsGone a
kill_round-IsGone a child h = elim (Bool-cases a.kill_sent) [
  | inl sent ↦ elim (Option-cases a.exited_kill) [
    | inl threw ↦ recheck-IsGone a a.alive_last refl (rw (sent, threw) at h)
    | inr (b, e) ↦ let b' : b ≡ true = rw (sent, e) at h in inr (inr (inl (e ∙ ap some b')))
  ]
  | inr unsent ↦ recheck-IsGone a a.alive_last refl (rw unsent at h)
]

after_term-IsGone :
    (a : FailAnswers) (child : ℕ) (x : Option Bool)
    → a.exited_term ≡ x
    → (after_term a child x).1 ≡ true
    → IsGone a
after_term-IsGone a child none e h = recheck-IsGone a a.alive_last refl h
after_term-IsGone a child (some true) e h = inr (inl e)
after_term-IsGone a child (some false) e h = kill_round-IsGone a child h

fail_steps-IsGone :
    (a : FailAnswers) (child : ℕ) (x : Option Bool)
    → a.alive_first ≡ x
    → (fail_steps a child x).1 ≡ true
    → IsGone a
fail_steps-IsGone a child none e h = recheck-IsGone a a.alive_last refl h
fail_steps-IsGone a child (some false) e h = inl e
fail_steps-IsGone a child (some true) e h = elim (Bool-cases a.term_sent) [
  | inl sent ↦ after_term-IsGone a child a.exited_term refl (rw sent at h)
  | inr unsent ↦ recheck-IsGone a a.alive_last refl (rw unsent at h)
]

fail_fiber_daemon_startup-IsGone :
    (a : FailAnswers) (child : ℕ) → (fail_fiber_daemon_startup a child).1 ≡ true → IsGone a
unfolding fail_fiber_daemon_startup
fail_fiber_daemon_startup-IsGone a child h = fail_steps-IsGone a child a.alive_first refl h

-- A signal goes to the child that was spawned, and to no other process.
abbrev pub ToChild : Option ℕ → Sent → Type 0
ToChild child s = child ≡ some s.target

-- No child is stranded: a PID file is there, or the system said that the child is gone.
abbrev pub IsTracked : Inputs → Start → Type 0
IsTracked n r = (r.child ≡ none) ⊎ ((r.file ≢ none) ⊎ IsGone n.fail_answers)

-- A start that succeeds leaves a file that names the child as running.
abbrev pub NamesStarted : Inputs → Text → Start → Outcome → Type 0
NamesStarted n script r (started pid) =
    (r.child ≡ some pid) × (r.file ≡ some (claim pid script n.spawned_at (text "running")))
NamesStarted n script r (failed e) = Unit

abbrev pub Keeps : Inputs → Text → Start → Type 0
Keeps n script r = All (ToChild r.child) r.sent × IsTracked n r × NamesStarted n script r r.outcome

-- No child was spawned.
stop_here-Keeps :
    (n : Inputs) (script : Text) (file : Option PidMetadata) (e : StartError)
    → Keeps n script (stop_here file e)
stop_here-Keeps n script file e = (tt, inl refl, tt)

after_term-ToChild :
    (a : FailAnswers) (child : ℕ) (x : Option Bool)
    → All (ToChild (some child)) (after_term a child x).0
after_term-ToChild a child none = tt
after_term-ToChild a child (some true) = tt
after_term-ToChild a child (some false) = (refl, tt)

fail_steps-ToChild :
    (a : FailAnswers) (child : ℕ) (x : Option Bool)
    → All (ToChild (some child)) (fail_steps a child x).0
fail_steps-ToChild a child none = tt
fail_steps-ToChild a child (some false) = tt
fail_steps-ToChild a child (some true) = elim (Bool-cases a.term_sent) [
  | inl sent ↦ rw sent (refl, after_term-ToChild a child a.exited_term)
  | inr unsent ↦ rw unsent (refl, tt)
]

sent-ToChild :
    (a : FailAnswers) (child : ℕ) → All (ToChild (some child)) (fail_fiber_daemon_startup a child).0
unfolding fail_fiber_daemon_startup
sent-ToChild a child = fail_steps-ToChild a child a.alive_first

after_failure-Keeps :
    (n : Inputs) (script : Text) (m : PidMetadata) (child : ℕ) (e : StartError)
    (result : List Sent × Bool)
    → All (ToChild (some child)) result.0
    → (result.1 ≡ true → IsGone n.fail_answers)
    → Keeps n script (after_failure n m child e result)
after_failure-Keeps n script m child e (sent, true) to gone = (to, inr (inr (gone refl)), tt)
after_failure-Keeps n script m child e (sent, false) to gone = (to, inr (inl (λ x. cc)), tt)

fail_startup-Keeps :
    (n : Inputs) (script : Text) (m : PidMetadata) (child : ℕ) (e : StartError)
    → Keeps n script (fail_startup n m child e)
fail_startup-Keeps n script m child e =
    after_failure-Keeps n script m child e (fail_fiber_daemon_startup n.fail_answers child)
      (sent-ToChild n.fail_answers child) (fail_fiber_daemon_startup-IsGone n.fail_answers child)

after_wait-Keeps :
    (n : Inputs) (script : Text) (child : ℕ) (r : Ready)
    → Keeps n script (after_wait n script child r)
after_wait-Keeps n script child ready =
    if-both (Keeps n script) n.running_written _ _ (tt, inr (inl (λ x. cc)), (refl, refl))
      (tt, inr (inl (λ x. cc)), tt)
after_wait-Keeps n script child child_exited =
    fail_startup-Keeps n script _ child exited_before_ready
after_wait-Keeps n script child timed_out = fail_startup-Keeps n script _ child ready_timeout
after_wait-Keeps n script child check_threw = (tt, inr (inl (λ x. cc)), tt)

-- What is kept, when the start comes to an end.
abbrev pub KeepsIfEnds : Inputs → Text → Option Start → Type 0
KeepsIfEnds n script none = Unit
KeepsIfEnds n script (some r) = Keeps n script r

optional_wait-Keeps :
    (n : Inputs) (script : Text) (child : ℕ) (r : Option Ready)
    → KeepsIfEnds n script (optional_wait n script child r)
optional_wait-Keeps n script child none = tt
optional_wait-Keeps n script child (some r) = after_wait-Keeps n script child r

after_spawn-Keeps :
    (n : Inputs) (script : Text) (wait : ℕ → Option Ready) (s : Spawn)
    → KeepsIfEnds n script (after_spawn n script wait s)
after_spawn-Keeps n script wait spawn_failed = stop_here-Keeps n script _ spawn_threw
after_spawn-Keeps n script wait no_pid = stop_here-Keeps n script _ no_child_pid
after_spawn-Keeps n script wait (spawned child) =
    if-both (KeepsIfEnds n script) n.metadata_written _ _
      (optional_wait-Keeps n script child (wait child))
      (fail_startup-Keeps n script n.left_by_failed_write child metadata_failed)

after_reserve-Keeps :
    (n : Inputs) (script : Text) (wait : ℕ → Option Ready)
    → KeepsIfEnds n script (after_reserve n script wait)
after_reserve-Keeps n script wait =
    if-both (KeepsIfEnds n script) n.logs_opened _ _ (after_spawn-Keeps n script wait n.spawn)
      (stop_here-Keeps n script _ log_failed)

reserve-Keeps :
    (n : Inputs) (file : Option PidMetadata) (script : Text) (wait : ℕ → Option Ready)
    (opening : Opening)
    → KeepsIfEnds n script (reserve n file script wait opening)
reserve-Keeps n (some m) script wait opening = stop_here-Keeps n script _ startup_in_progress
reserve-Keeps n none script wait file_exists = stop_here-Keeps n script _ startup_in_progress
reserve-Keeps n none script wait open_failed = stop_here-Keeps n script _ reserve_failed
reserve-Keeps n none script wait opened =
    if-both (KeepsIfEnds n script) n.reservation_written _ _ (after_reserve-Keeps n script wait)
      (stop_here-Keeps n script _ initialize_failed)

with_entry-Keeps :
    (n : Inputs) (file : Option PidMetadata) (wait : ℕ → Option Ready) (entry : Option Text)
    → KeepsIfEnds n (or_empty entry) (with_entry n file wait entry)
with_entry-Keeps n file wait none = stop_here-Keeps n (text "") _ no_cli_entry
with_entry-Keeps n file wait (some script) = reserve-Keeps n file script wait n.opening

with_existing-Keeps :
    (p : Platform) (n : Inputs) (wait : ℕ → Option Ready) (m : PidMetadata) (alive : Option Bool)
    → KeepsIfEnds n (or_empty (resolve_cli_entry p)) (with_existing p n wait m alive)
with_existing-Keeps p n wait m none = stop_here-Keeps n (text "") _ no_cli_entry
with_existing-Keeps p n wait m (some true) = stop_here-Keeps n (text "") _ no_cli_entry
with_existing-Keeps p n wait m (some false) = with_entry-Keeps n _ wait (resolve_cli_entry p)

start_from-Keeps :
    (p : Platform) (n : Inputs) (wait : ℕ → Option Ready) (file : Option PidMetadata)
    → KeepsIfEnds n (or_empty (resolve_cli_entry p)) (start_from p n wait file)
start_from-Keeps p n wait none = with_entry-Keeps n none wait (resolve_cli_entry p)
start_from-Keeps p n wait (some m) =
    with_existing-Keeps p n wait m (is_alive_number n.signals m.pid)

-- However the start of a Fiber daemon ends, it signals only the child that it spawned. Once a child
-- was spawned, a PID file is left, or the system said that the child is gone. A start that
-- succeeds leaves the file that names the child, this program's script and the status running.
pub start_fiber_daemon-Keeps :
    (p : Platform) (n : Inputs) (wait : ℕ → Option Ready) (r : Start)
    → start_fiber_daemon p n wait ≡ some r
    → Keeps n (or_empty (resolve_cli_entry p)) r
unfolding start_fiber_daemon
start_fiber_daemon-Keeps p n wait r ends =
    subst (KeepsIfEnds n (or_empty (resolve_cli_entry p))) ends
      (start_from-Keeps p n wait n.existing)
