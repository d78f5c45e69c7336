-- ===== src/Daemon/Waiting.antt =====
-- `waitForProcessExit` of src/util/daemon.ts. The liveness of the process and the time since the
-- start are given for each poll; `none` is a check that throws.
use offckb.Base.{
  ℕ, zero, suc, ◌≤◌, ◌<◌, ◌≡◌, refl, Bool, true, false, Option, none, some, leb, arith, inl, inr,
  Bool-cases, leb→le, eqb, eqb_iff, ◌-◌, Option-cases,
}

pub data Wait : Type 0 where
  rejected : Wait
  resolved : Bool → Wait

module _ (alive : ℕ → Option Bool) (elapsed : ℕ → ℕ) (timeout : ℕ) where
  -- `check`, at the poll `i`; the fuel is the polls that may follow, and `none` is fuel that ran out.
  unfoldable pub check : ℕ → ℕ → Option Wait
  check zero i = none
  check (suc fuel) i = elim (alive i) [
    | none ↦ some rejected
    | some false ↦ some (resolved true)
    | some true ↦ elim (leb timeout (elapsed i)) [
      | true ↦ some (resolved false)
      | false ↦ check fuel (suc i)
    ]
  ]

  unfoldable pub wait_for_process_exit : ℕ → Option Wait
  unfolding check
  wait_for_process_exit fuel = check fuel 0

  -- The process was seen alive at each poll from one to another.
  abbrev pub SeenAlive : ℕ → ℕ → Type 0
  SeenAlive i n = (j : ℕ) → i ≤ j → j < n → alive j ≡ some true

  -- What a result says of the last poll.
  abbrev pub Tells : Wait → ℕ → Type 0
  Tells rejected n = alive n ≡ none
  Tells (resolved true) n = alive n ≡ some false
  Tells (resolved false) n = (alive n ≡ some true) × (timeout ≤ elapsed n)

  abbrev pub Ends : ℕ → Option Wait → Type 0
  Ends i result = (w : Wait) × (n : ℕ) × (result ≡ some w) × (i ≤ n) × SeenAlive i n × Tells w n

  Ends-here : (i : ℕ) (w : Wait) → Tells w i → Ends i (some w)
  Ends-here i w t = (w, i, refl, omega arith, λ j lo hi. absurd (omega arith), t)

  Ends-later :
      (i : ℕ) (result : Option Wait) → alive i ≡ some true → Ends (suc i) result → Ends i result
  Ends-later i result seen (w, n, e, le, all, tells) = (
    w,
    n,
    e,
    omega arith,
    λ j lo hi. elim (Bool-cases (eqb j i)) [
      | inl same ↦ rw ((eqb_iff j i).0 same) seen
      | inr other ↦ all j (ground arith) hi
    ],
    tells,
  )

  check-Ends :
      ((j : ℕ) → elapsed j < elapsed (suc j))
      → (fuel i : ℕ) → timeout - elapsed i < fuel
      → Ends i (check fuel i)
  unfolding check
  check-Ends grows zero i h = absurd (omega arith)
  check-Ends grows (suc fuel) i h = elim (Option-cases (alive i)) [
    | inl failed ↦ rw (failed, check) (Ends-here i rejected failed)
    | inr (false, gone) ↦ rw (gone, check) (Ends-here i (resolved true) gone)
    | inr (true, seen) ↦ elim (Bool-cases (leb timeout (elapsed i))) [
      | inl late ↦
          rw (seen, late, check)
            (Ends-here i (resolved false) (seen, leb→le timeout (elapsed i) late))
      | inr early ↦
          rw (seen, early, check)
            (Ends-later i (check fuel (suc i)) seen
              (check-Ends grows fuel (suc i) (ground (arith, grows i))))
    ]
  ]

  -- When time passes between two polls, a wait of at most one poll more than the milliseconds of its
  -- timeout comes to its end: it resolves to true at the first poll that finds the process gone, to
  -- false at a poll at which the time is over and the process is there, and it rejects at a
  -- check that throws. At each poll before, the process was seen alive.
  pub wait_for_process_exit-Ends :
      ((j : ℕ) → elapsed j < elapsed (suc j)) → Ends 0 (wait_for_process_exit (suc timeout))
  unfolding wait_for_process_exit
  wait_for_process_exit-Ends grows = check-Ends grows (suc timeout) 0 (omega arith)
