-- ===== src/Fiber/Start/Readiness.antt =====
-- The wait of a launcher for the environment that its child starts.
use offckb.Base.{
  Bool, ◌&&◌, ◌==◌, nat_eq, eqb_iff, ℕ, zero, suc, ◌-◌, ◌≤◌, ◌<◌, ◌≡◌, refl, inl, inr, true, false,
  Option, none, some, leb, leb→le, Bool-cases, Option-cases, arith,
}
use offckb.Fiber.Start.{
  Runtime, Poll, Ready, ready, child_exited, timed_out, check_threw, reports, await_ready,
}

module _ (polls : ℕ → Poll) (elapsed : ℕ → ℕ) (timeout : ℕ) (child : ℕ) where
  -- What a result says of the last round.
  abbrev pub Tells : Ready → ℕ → Type 0
  Tells ready n =
      (elapsed n < timeout)
      × ((polls n).alive ≡ some true)
      × ((r : Runtime) × ((polls n).runtime ≡ some r)
          × (r.manager_pid ≡ child)
          × (r.is_running ≡ true))
  Tells child_exited n = (polls n).alive ≡ some false
  Tells timed_out n = timeout ≤ elapsed n
  Tells check_threw n = (polls n).alive ≡ none

  abbrev pub Ends : Option Ready → Type 0
  Ends result = (r : Ready) × (n : ℕ) × (result ≡ some r) × Tells r n

  reports-running :
      (found : Option Runtime)
      → reports child found ≡ true
      → (r : Runtime) × (found ≡ some r) × (r.manager_pid ≡ child) × (r.is_running ≡ true)
  reports-running none h = cc
  reports-running (some r) h =
      let (same, is_running) = both_true (r.manager_pid == child) r.is_running h in
      (r, refl, (eqb_iff r.manager_pid child).0 same, is_running)
    where
      both_true : (a b : Bool) → a && b ≡ true → (a ≡ true) × (b ≡ true)
      both_true a b e = ground (arith, e)

  await-Ends :
      ((j : ℕ) → elapsed j < elapsed (suc j))
      → (fuel i : ℕ) → timeout - elapsed i < fuel
      → Ends (await_ready polls elapsed timeout child fuel i)
  unfolding await_ready
  await-Ends grows zero i h = absurd (omega arith)
  await-Ends grows (suc fuel) i h = elim (Bool-cases (leb timeout (elapsed i))) [
    | inl late ↦ rw (late, await_ready) (timed_out, i, refl, leb→le timeout (elapsed i) late)
    | inr early ↦ elim (Option-cases (polls i).alive) [
      | inl threw ↦ rw (early, threw, await_ready) (check_threw, i, refl, threw)
      | inr (false, gone) ↦ rw (early, gone, await_ready) (child_exited, i, refl, gone)
      | inr (true, seen) ↦ elim (Bool-cases (reports child (polls i).runtime)) [
        | inl yes' ↦
            rw (early, seen, yes', await_ready)
              (ready, i, refl, (ground arith, seen, reports-running (polls i).runtime yes'))
        | inr not_yet ↦
            rw (early, seen, not_yet, await_ready)
              (await-Ends grows fuel (suc i) (ground (arith, grows i)))
      ]
    ]
  ]

  -- When time passes between two rounds, the wait for the child ends in at most one round more than
  -- the milliseconds of its timeout. It finds the environment ready only when the child lives and
  -- the runtime record names it as the manager of a running environment, before the time is over.
  pub await_ready-Ends :
      ((j : ℕ) → elapsed j < elapsed (suc j))
      → Ends (await_ready polls elapsed timeout child (suc timeout) 0)
  await_ready-Ends grows = await-Ends grows (suc timeout) 0 (omega arith)
