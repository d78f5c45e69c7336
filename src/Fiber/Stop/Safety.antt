-- ===== src/Fiber/Stop/Safety.antt =====
-- Which processes a stop signals, and which records it removes.
use offckb.Base.{
  ℕ, ◌≡◌, ◌⊎◌, inl, inr, refl, Bool, true, false, ◌&&◌, Option, none, some, List, [], ◌∷◌, nat_eq,
  ap, ◌∙◌, Bool-cases, arith,
}
use offckb.Fiber.Stop.{
  Record, Effect, Outcome, sigterm, sigkill, Answers, PidMetadata, Environment, fiber_pid_file,
  node_pid_file, signal, remove, is_gone, live_runtime, cleaned_up, after_kill, after_wait,
  stop_manager_and_cleanup, stop_identified, without_runtime, stop_node_daemon, is_manager,
  stop_managed, stop_runtime, stop_fiber_daemon, stop_recorded, stop_found, stop_fiber,
}

-- A daemon PID file that names a process.
abbrev pub Names : Option PidMetadata → ℕ → Type 0
Names daemon pid = (m : PidMetadata) × (daemon ≡ some m) × (m.pid ≡ some pid)

-- A process that may be signalled: alive, identified, and in the PID file of the fiber daemon, or
-- in that of the node daemon as the manager of the nodes.
abbrev pub MayStop : Environment → ℕ → Type 0
MayStop e pid =
    (e.is_alive pid ≡ some true)
    × (e.is_identified pid ≡ true)
    × (Names e.fiber_daemon pid ⊎ (Names e.node_daemon pid × (e.manager ≡ some pid)))

-- The wait after the SIGTERM ended without an exit, or with one while a store lock was still held.
abbrev pub IsUnfinished : Answers → Type 0
IsUnfinished a =
    (a.term_sent ≡ true)
    × ((a.exited ≡ some false) ⊎ ((a.exited ≡ some true) × (a.locks_released ≡ false)))

pub data Progress : Type 0 where
  nothing_sent : Progress
  term_sent_to : ℕ → Progress
  kill_sent : Progress

-- One SIGTERM at most, to a process that may be stopped, and after it one SIGKILL at most, to the
-- same process, when the stop is unfinished.
pub MaySignal : Environment → Progress → List Effect → Type 0
MaySignal e progress [] = Unit
MaySignal e progress (signal sigterm pid ∷ effects) =
    (progress ≡ nothing_sent) × MayStop e pid × MaySignal e (term_sent_to pid) effects
MaySignal e progress (signal sigkill pid ∷ effects) =
    (progress ≡ term_sent_to pid) × IsUnfinished e.answers × MaySignal e kill_sent effects
MaySignal e progress (remove _ ∷ effects) = MaySignal e progress effects

Signals : Environment → List Effect × Outcome → Type 0
Signals e result = MaySignal e nothing_sent result.0

cleaned_up-MaySignal :
    (e : Environment) (progress : Progress) (pid : ℕ) (file : Record) (alive : Option Bool)
    → MaySignal e progress (cleaned_up pid file alive).0
unfolding MaySignal
cleaned_up-MaySignal e progress pid file alive = elim (Bool-cases (is_gone alive)) [
  | inl b ↦ rw b tt
  | inr b ↦ rw b tt
]

after_kill-MaySignal :
    (e : Environment) (pid : ℕ) (file : Record) (exited : Option Bool)
    → MaySignal e kill_sent (after_kill e.answers pid file exited).0
unfolding MaySignal
after_kill-MaySignal e pid file none = tt
after_kill-MaySignal e pid file (some x) =
    cleaned_up-MaySignal e kill_sent pid file e.answers.alive_at_last

not_both : (x y : Bool) → x && y ≡ false → (x ≡ false) ⊎ ((x ≡ true) × (y ≡ false))
not_both false y h = inl refl
not_both true y h = inr (refl, h)

after_wait-MaySignal :
    (e : Environment) (pid : ℕ) (file : Record) (exited : Option Bool)
    → e.answers.term_sent ≡ true
    → e.answers.exited ≡ exited
    → MaySignal e (term_sent_to pid) (after_wait e.answers pid file exited).0
unfolding MaySignal
after_wait-MaySignal e pid file none sent h = tt
after_wait-MaySignal e pid file (some x) sent h =
    elim (Bool-cases (x && e.answers.locks_released)) [
      | inl b ↦ rw b (cleaned_up-MaySignal e (term_sent_to pid) pid file e.answers.alive_at_last)
      | inr b ↦
          rw b (
            refl,
            (sent, unfinished b),
            after_kill-MaySignal e pid file e.answers.exited_after_kill,
          )
    ]
  where
    unfinished :
        x && e.answers.locks_released ≡ false
        → (e.answers.exited ≡ some false)
          ⊎ ((e.answers.exited ≡ some true) × (e.answers.locks_released ≡ false))
    unfinished b = elim (not_both x e.answers.locks_released b) [
      | inl alive ↦ inl (h ∙ ap some alive)
      | inr (gone, held) ↦ inr (h ∙ ap some gone, held)
    ]

stop_manager-Signals :
    (e : Environment) (pid : ℕ) (file : Record)
    → MayStop e pid
    → Signals e (stop_manager_and_cleanup e.answers pid file)
unfolding stop_manager_and_cleanup Signals MaySignal
stop_manager-Signals e pid file h = elim (Bool-cases e.answers.term_sent) [
  | inl b ↦ rw b (refl, h, after_wait-MaySignal e pid file e.answers.exited b refl)
  | inr b ↦ rw b (refl, h, tt)
]

abbrev IsOurs : Environment → ℕ → Type 0
IsOurs e pid = Names e.fiber_daemon pid ⊎ (Names e.node_daemon pid × (e.manager ≡ some pid))

stop_identified-Signals :
    (e : Environment) (pid : ℕ) (file : Record)
    → e.is_alive pid ≡ some true
    → IsOurs e pid
    → Signals e (stop_identified e pid file)
unfolding Signals MaySignal
stop_identified-Signals e pid file alive ours = elim (Bool-cases (e.is_identified pid)) [
  | inl b ↦ rw b (stop_manager-Signals e pid file (alive, b, ours))
  | inr b ↦ rw b tt
]

stop_node_daemon-Signals :
    (e : Environment) (manager : ℕ) (alive : Option Bool)
    → e.is_alive manager ≡ alive
    → IsOurs e manager
    → Signals e (stop_node_daemon e manager alive)
unfolding Signals MaySignal
stop_node_daemon-Signals e manager none h ours = tt
stop_node_daemon-Signals e manager (some true) h ours =
    stop_identified-Signals e manager node_pid_file h ours
stop_node_daemon-Signals e manager (some false) h ours = tt

is_manager-Names :
    (manager : ℕ) (daemon : Option PidMetadata)
    → is_manager manager daemon ≡ true
    → Names daemon manager
is_manager-Names manager none h = absurd (ground arith)
is_manager-Names manager (some m) h = (m, refl, ground (arith, h))

without_runtime-Signals :
    (e : Environment) (manager : Option ℕ) → Signals e (without_runtime e manager)
unfolding Signals MaySignal
without_runtime-Signals e none = tt
without_runtime-Signals e (some pid) = elim (Bool-cases (is_gone (e.is_alive pid))) [
  | inl b ↦ rw b tt
  | inr b ↦ rw b tt
]

stop_managed-Signals :
    (e : Environment) (live : Option ℕ)
    → ((manager : ℕ) → live ≡ some manager → e.manager ≡ some manager)
    → Signals e (stop_managed e live)
unfolding Signals MaySignal
stop_managed-Signals e none h = without_runtime-Signals e e.manager
stop_managed-Signals e (some manager) h = elim (Bool-cases (is_manager manager e.node_daemon)) [
  | inl b ↦ rw b (
      stop_node_daemon-Signals e manager (e.is_alive manager) refl
        (inr (is_manager-Names manager e.node_daemon b, h manager refl)))
  | inr b ↦ rw b tt
]

live_runtime-some :
    (e : Environment) (manager : Option ℕ) (pid : ℕ)
    → live_runtime e manager ≡ some pid
    → manager ≡ some pid
live_runtime-some e none pid h = absurd (ground arith)
live_runtime-some e (some m) pid h = ground (arith, h)

stop_runtime-Signals : (e : Environment) → Signals e (stop_runtime e)
unfolding stop_runtime
stop_runtime-Signals e =
    stop_managed-Signals e (live_runtime e e.manager) (λ pid. live_runtime-some e e.manager pid)

stop_fiber_daemon-Signals :
    (e : Environment) (daemon : PidMetadata) (pid : ℕ) (alive : Option Bool)
    → e.is_alive pid ≡ alive
    → IsOurs e pid
    → Signals e (stop_fiber_daemon e daemon pid alive)
unfolding Signals MaySignal
stop_fiber_daemon-Signals e daemon pid none h ours = tt
stop_fiber_daemon-Signals e daemon pid (some true) h ours =
    elim (Bool-cases (daemon.is_starting && daemon.within_startup_window)) [
      | inl b ↦ rw b tt
      | inr b ↦ rw b (stop_identified-Signals e pid fiber_pid_file h ours)
    ]
stop_fiber_daemon-Signals e daemon pid (some false) h ours = stop_runtime-Signals e

stop_recorded-Signals :
    (e : Environment) (daemon : PidMetadata) (pid : Option ℕ)
    → e.fiber_daemon ≡ some daemon
    → daemon.pid ≡ pid
    → Signals e (stop_recorded e daemon pid)
unfolding Signals MaySignal
stop_recorded-Signals e daemon none found named = stop_runtime-Signals e
stop_recorded-Signals e daemon (some pid) found named =
    stop_fiber_daemon-Signals e daemon pid (e.is_alive pid) refl (inl (daemon, found, named))

stop_found-Signals :
    (e : Environment) (daemon : Option PidMetadata)
    → e.fiber_daemon ≡ daemon
    → Signals e (stop_found e daemon)
stop_found-Signals e none found = stop_runtime-Signals e
stop_found-Signals e (some daemon) found = stop_recorded-Signals e daemon daemon.pid found refl

-- Whatever is recorded and whatever the system answers, `stopFiber` sends one SIGTERM at most, to a
-- process that the check before it found alive, that is identified as a daemon of the program, and
-- that the PID file of the fiber daemon names, or that of the node daemon with the runtime record
-- naming it as the manager. It sends one SIGKILL at most, after the SIGTERM and to the same process,
-- when the wait in between saw no exit, or saw it while a store lock was still held.
pub stop_fiber-MaySignal : (e : Environment) → MaySignal e nothing_sent (stop_fiber e).0
unfolding stop_fiber Signals
stop_fiber-MaySignal e = stop_found-Signals e e.fiber_daemon refl
