-- ===== src/Fork/Guards.antt =====
-- The check that the devnet has stopped, and the guard before signing.
use mathlib.Core.Option.{some-injective}
use offckb.Base.{
  [], ◌∷◌, map, false, ◌==◌, text_eq, list_eqb_iff, Option-cases, ok-injective, zero, suc, ap, sym,
  ◌∙◌, guard, guard-eq-ok, >>=-eq-ok, Bool-cases, ℕ, ◌≡◌, ◌≢◌, ◌↔◌, ◌⊎◌, inl, inr, refl, Bool, true,
  false, ◌||◌, Option, none, some, List, ok, arith,
}
use offckb.Base.Text.{Text, lower, trim, contains}
use offckb.Value.{ℤ, pos, negsuc}
use offckb.Fiber.EnvLock.{Signal, delivered, denied, is_process_alive}
use offckb.Fork.{
  ForkSource, mainnet, testnet, custom, PidReader, pid_in, assert_offckb_devnet_stopped,
  daemon_check, ForkState, fork_boundary, boundary, external_key, kill_succeeds, mainnet_fork,
  is_built_in, signing_check, validate_mainnet_fork_signing,
}

daemon_check_iff :
    (signals : ℕ → Signal) (found : Option ℕ)
    → (daemon_check signals found ≡ ok tt)
      ↔ ((pid : ℕ) → found ≡ some pid → signals pid ≢ delivered)
daemon_check_iff signals none = (λ h pid e. cc, λ h. refl)
daemon_check_iff signals (some n) = (
  λ h pid e d. absurd (ground (arith, h, ap signals (some-injective n pid e), d)),
  λ h. elim (Bool-cases (kill_succeeds (signals n))) [
    | inl b ↦ absurd (h n refl (ground (arith, b)))
    | inr b ↦ rw b refl
  ],
)

-- The check passes exactly when no node is seen on the devnet and a signal to the process that the
-- PID file names, if there is one, is not delivered.
pub assert_offckb_devnet_stopped_iff :
    (p : PidReader) (signals : ℕ → Signal) (running : Option Bool) (pid_file : Option Text)
    → (assert_offckb_devnet_stopped p signals running pid_file ≡ ok tt)
      ↔ (running ≢ some true) × ((pid : ℕ) → pid_in p pid_file ≡ some pid → signals pid ≢ delivered)
unfolding assert_offckb_devnet_stopped
assert_offckb_devnet_stopped_iff p signals none pid_file =
    let (there, back) = daemon_check_iff signals (pid_in p pid_file) in
    (λ h. (λ e. absurd (ground (arith, e)), there h), λ (_, h). back h)
assert_offckb_devnet_stopped_iff p signals (some false) pid_file =
    let (there, back) = daemon_check_iff signals (pid_in p pid_file) in
    (λ h. (λ e. absurd (ground (arith, e)), there h), λ (_, h). back h)
assert_offckb_devnet_stopped_iff p signals (some true) pid_file =
    (λ h. absurd (ground (arith, h)), λ (r, _). absurd (r refl))

denied-is_process_alive :
    (signals : ℕ → Signal) (n : ℕ) → n ≢ 0 → signals n ≡ denied → is_process_alive signals n ≡ none
unfolding is_process_alive
denied-is_process_alive signals zero nz d = absurd (nz refl)
denied-is_process_alive signals (suc n) nz d = ground (arith, d)

-- A daemon of another user answers a signal with a refused permission, which the liveness check of
-- the other commands does not take for an answer. Here the daemon passes for one that has stopped,
-- so a fork goes on while it runs.
pub assert_offckb_devnet_stopped-denied :
    (p : PidReader) (signals : ℕ → Signal) (running : Option Bool) (pid_file : Option Text) (n : ℕ)
    → running ≢ some true
    → pid_in p pid_file ≡ some n
    → n ≢ 0
    → signals n ≡ denied
    → (assert_offckb_devnet_stopped p signals running pid_file ≡ ok tt)
      × (is_process_alive signals n ≡ none)
assert_offckb_devnet_stopped-denied p signals running pid_file n r h nz d = (
  (assert_offckb_devnet_stopped_iff p signals running pid_file).1 (
    r,
    λ pid e is_delivered.
        absurd (ground (arith, d, is_delivered, ap signals (some-injective n pid (sym h ∙ e)))),
  ),
  denied-is_process_alive signals n nz d,
)

boundary_sound :
    (t : Text) (o : Option ℤ) (result : Option ℕ)
    → boundary t o ≡ ok result
    → (n : ℕ) × (o ≡ some (pos n)) × (result ≡ some n)
boundary_sound t none result h = absurd (ground (arith, h))
boundary_sound t (some (negsuc n)) result h = absurd (ground (arith, h))
boundary_sound t (some (pos n)) result h = (n, refl, ground (arith, h))

or_iff : (a b : Bool) → (a || b ≡ true) ↔ ((a ≡ true) ⊎ (b ≡ true))
or_iff a b = ground arith

fork_boundary_iff :
    (big_int : Text → Option ℤ) (o : Option Text) (result : Option ℕ)
    → (fork_boundary big_int o ≡ ok result)
      ↔ ((t : Text) × (n : ℕ) × (o ≡ some t) × (big_int t ≡ some (pos n)) × (result ≡ some n))
fork_boundary_iff big_int none result = ground arith
fork_boundary_iff big_int (some t) result = (
  λ h. let (n, b, r) = boundary_sound t (big_int t) result h in (t, n, refl, b, r),
  λ (x, n, e, b, r). ap (boundary t) (ap big_int (some-injective t x e) ∙ b) ∙ ap ok (sym r),
)

-- What signing needs of a fork of Mainnet.
abbrev MayUse : (Text → Option ℤ) → List Text → Text → Bool → ForkState → Option ℕ → Type 0
MayUse big_int dev_keys key allowed state result =
    (t : Text) × (n : ℕ) × ((is_built_in dev_keys key ≡ true) ⊎ (allowed ≡ true))
    × (state.fork_block_number ≡ some t)
    × (big_int t ≡ some (pos n))
    × (result ≡ some n)

signing_check_iff :
    (big_int : Text → Option ℤ) (dev_keys : List Text) (key : Text) (allowed : Bool)
    (state : ForkState) (result : Option ℕ)
    → (signing_check big_int dev_keys key allowed (some state) ≡ ok result)
      ↔ MayUse big_int dev_keys key allowed state result
signing_check_iff big_int dev_keys key allowed state result = (
  λ h.
      let allowed_ = is_built_in dev_keys key || allowed in
      let (_, permitted, rest) = >>=-eq-ok (guard allowed_ external_key) _ h in
      let (t, n, f, b, r) = (fork_boundary_iff big_int state.fork_block_number result).0 rest in
      let key_may =
        (or_iff (is_built_in dev_keys key) allowed).0
          (guard-eq-ok allowed_ external_key permitted) in
      (t, n, key_may, f, b, r),
  λ (t, n, may, f, b, r).
      rw ((or_iff (is_built_in dev_keys key) allowed).1 may)
        ((fork_boundary_iff big_int state.fork_block_number result).1 (t, n, f, b, r)),
)

-- The network is the devnet, which was forked from Mainnet.
abbrev pub IsMainnetFork : Bool → Option ForkState → ForkState → Type 0
IsMainnetFork is_devnet fork state =
    (is_devnet ≡ true) × (fork ≡ some state) × (state.source ≡ mainnet)

abbrev fork_of : ForkSource → Option Text → ForkState
fork_of source number = record { source = source; fork_block_number = number }

mainnet_fork-source :
    (is_devnet : Bool) (source : ForkSource) (number : Option Text) (s : ForkState)
    → (mainnet_fork is_devnet (some (fork_of source number)) ≡ some s)
      ↔ IsMainnetFork is_devnet (some (fork_of source number)) s
mainnet_fork-source true mainnet number s =
    (λ h. (refl, h, ap (λ (x : ForkState). x.source) (sym (some-injective _ s h))), λ (d, h, m). h)
mainnet_fork-source false mainnet number s = ((λ h. cc), λ (d, h, m). cc)
mainnet_fork-source is_devnet testnet number s =
    ((λ h. cc), λ (d, h, m). cc (ap (λ (x : ForkState). x.source) (some-injective _ s h) ∙ m))
mainnet_fork-source is_devnet custom number s =
    ((λ h. cc), λ (d, h, m). cc (ap (λ (x : ForkState). x.source) (some-injective _ s h) ∙ m))

mainnet_fork_iff :
    (is_devnet : Bool) (fork : Option ForkState) (s : ForkState)
    → (mainnet_fork is_devnet fork ≡ some s) ↔ IsMainnetFork is_devnet fork s
mainnet_fork_iff is_devnet none s = ((λ h. cc), λ (d, h, m). cc)
mainnet_fork_iff is_devnet (some f) s = mainnet_fork-source is_devnet f.source f.fork_block_number s

-- The key is that of one of the built-in accounts, letter case and blanks around it aside.
abbrev pub IsBuiltIn : List Text → Text → Type 0
IsBuiltIn [] key = ⊥
IsBuiltIn (k ∷ ks) key = (lower k ≡ lower (trim key)) ⊎ IsBuiltIn ks key

is_built_in_iff :
    (dev_keys : List Text) (key : Text) → (is_built_in dev_keys key ≡ true) ↔ IsBuiltIn dev_keys key
unfolding is_built_in
is_built_in_iff [] key = ((λ h. cc), λ h. absurd h)
is_built_in_iff (k ∷ ks) key = (
  λ h.
      elim ((or_iff (lower k == lower (trim key)) (contains (map lower ks) (lower (trim key)))).0
        h) [
          | inl here ↦ inl ((list_eqb_iff _ _).0 here)
          | inr later ↦ inr ((is_built_in_iff ks key).0 later)
        ],
  λ h.
      (or_iff (lower k == lower (trim key)) (contains (map lower ks) (lower (trim key)))).1
        (elim h [
          | inl here ↦ inl ((list_eqb_iff _ _).1 here)
          | inr later ↦ inr ((is_built_in_iff ks key).1 later)
        ]),
)

abbrev pub MaySign :
    (Text → Option ℤ) → List Text → Bool → Option ForkState → Text → Bool → Option ℕ → Type 0
MaySign big_int dev_keys is_devnet fork key allowed result =
    (((state : ForkState) → IsMainnetFork is_devnet fork state → ⊥) × (result ≡ none))
    ⊎ ((state : ForkState) × (t : Text) × (n : ℕ) × IsMainnetFork is_devnet fork state
        × (IsBuiltIn dev_keys key ⊎ (allowed ≡ true))
        × (state.fork_block_number ≡ some t)
        × (big_int t ≡ some (pos n))
        × (result ≡ some n))

-- A transaction is signed with a boundary, or with none, exactly in these cases: the network is
-- not the devnet or no fork of Mainnet, and there is no boundary; or it is one, the key is that of a
-- built-in account, letter case and blanks aside, or an external key is allowed, and the boundary is
-- the recorded number, which is not negative.
pub validate_mainnet_fork_signing_iff :
    (big_int : Text → Option ℤ) (dev_keys : List Text) (is_devnet : Bool) (fork : Option ForkState)
    (key : Text) (allowed : Bool) (result : Option ℕ)
    → (validate_mainnet_fork_signing big_int dev_keys is_devnet fork key allowed ≡ ok result)
      ↔ MaySign big_int dev_keys is_devnet fork key allowed result
unfolding validate_mainnet_fork_signing
validate_mainnet_fork_signing_iff big_int dev_keys is_devnet fork key allowed result =
    elim (Option-cases (mainnet_fork is_devnet fork)) [
      | inl other ↦
          let no_fork : (state : ForkState) → IsMainnetFork is_devnet fork state → ⊥ =
            λ state is_fork.
              none≢some (sym other ∙ (mainnet_fork_iff is_devnet fork state).1 is_fork) in
          rw other (
            (λ h. inl (no_fork, sym (ok-injective none result h))),
            λ h. elim h [
              | inl (_, e) ↦ ap ok (sym e)
              | inr (state, t, n, is_fork, may, f, b, r) ↦ absurd (no_fork state is_fork)
            ],
          )
      | inr (s, found) ↦
          let is_fork = (mainnet_fork_iff is_devnet fork s).0 found in
          rw found (
            (λ h.
                let (t, n, may, f, b, r) =
                  (signing_check_iff big_int dev_keys key allowed s result).0 h in
                inr (
                  s,
                  t,
                  n,
                  is_fork,
                  elim may [
                    | inl built_in ↦ inl ((is_built_in_iff dev_keys key).0 built_in)
                    | inr a ↦ inr a
                  ],
                  f,
                  b,
                  r,
                )),
            λ h. elim h [
              | inl (no_fork, e) ↦ absurd (no_fork s is_fork)
              | inr (state, t, n, (d, same, m), may, f, b, r) ↦
                  let same' : state ≡ s = some-injective state s (sym same ∙ is_fork.1) in
                  (signing_check_iff big_int dev_keys key allowed s result).1 (
                    t,
                    n,
                    elim may [
                      | inl built_in ↦ inl ((is_built_in_iff dev_keys key).1 built_in)
                      | inr a ↦ inr a
                    ],
                    ap (λ (x : ForkState). x.fork_block_number) (sym same') ∙ f,
                    b,
                    r,
                  )
            ],
          )
    ]
  where
    none≢some : {x : ForkState} → ◌≡◌ {A = Option ForkState} none (some x) → ⊥
    none≢some h = cc
