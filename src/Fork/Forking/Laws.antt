-- ===== src/Fork/Forking/Laws.antt =====
-- What a fork leaves at the path of the devnet.
use mathlib.Core.Path.{subst}
use offckb.Base.{
  ◌≡◌, ◌⊎◌, inl, inr, refl, ap, sym, ◌∙◌, Bool, true, false, not, ◌&&◌, ◌||◌, Option, none, some,
  ◌==◌, text_eq, list_eqb_iff, if-cases, Result, ok, err, guard, >>=-eq-ok, guard-eq-ok,
  ok-injective,
}
use offckb.Base.Text.{Text}
use offckb.Value.{Fields}
use offckb.Fork.{ForkSource, StoppedError, assert_offckb_devnet_stopped, patch_dev_spec_for_fork}
use offckb.Fork.Genesis.{expected_genesis_hash}
use offckb.Fork.Forking.{
  ForkOptions, ForkError, copy_failed, spec_changed, spec_failed, align_failed, migrate_failed,
  state_failed, Answers, agrees, source_genesis, genesis_of_init, spec_of, genesis_mismatch,
  different_chain, is_database_migration_needed, validate_fork_spec, chosen, declared_source,
  resolve_spec_file, Preflight, preflight, Devnet, forked, new_state, build, preflight_passed,
  devnet_forked, Forked, rolled_back, replace, when_stopped, after_preflight, fork_devnet, no_from,
  no_source_dir, no_source_db, source_running, unknown_source, install_failed, is_running, is_known,
}

-- What holds before anything is changed.
abbrev pub MayChange : ForkOptions → Answers → Option Devnet → Preflight → Type 0
MayChange o a before p =
    (preflight o a ≡ ok p)
    × (o.dry_run ≡ false)
    × (assert_offckb_devnet_stopped a.pid_reader a.signals a.devnet_running a.pid_file ≡ ok tt)
    × ((p.migration_needed ≡ false) ⊎ (o.migrate ≡ true))
    × ((before ≡ none) ⊎ (o.force ≡ true))

-- A fork that is complete: its chain specification is the imported one, patched for the chain that
-- it comes from, and its genesis is that of the preflight.
abbrev pub IsForked : Answers → Preflight → Option Devnet → Type 0
IsForked a p target =
    (spec : Fields) × (a.dev_spec ≡ some spec)
    × (target ≡ some (forked (patch_dev_spec_for_fork spec p.source) (new_state p p.genesis_hash)))
    × ((p.migration_needed ≡ false) ⊎ (a.migrated ≡ true))

-- The genesis is the one of the chain that the fork comes from, if that is a public one, and the one
-- of the source's own configuration, if that can be read; no node is seen to run on the source.
abbrev pub IsGenuine : Answers → Preflight → Type 0
IsGenuine a p =
    (agrees (expected_genesis_hash p.source) p.genesis_hash ≡ true)
    × (agrees (source_genesis a.source_hashes) p.genesis_hash ≡ true)
    × (is_running a.source_running ≡ false)

abbrev pub Leaves : ForkOptions → Answers → Option Devnet → Forked → Type 0
Leaves o a before (target, ok preflight_passed) = (target ≡ before) × (o.dry_run ≡ true)
Leaves o a before (target, ok devnet_forked) =
    (p : Preflight) × MayChange o a before p × IsGenuine a p × IsForked a p target
Leaves o a before (target, err e) =
    (target ≡ before)
    ⊎ ((p : Preflight) × MayChange o a before p
        × ((target ≡ none) ⊎ ((a.removes_existing ≡ false) ⊎ (a.rolls_back ≡ false))))

spec_of-eq-ok : (o : Option Fields) (spec : Fields) → spec_of o ≡ ok spec → o ≡ some spec
spec_of-eq-ok none spec h = cc
spec_of-eq-ok (some s) spec h = ap some (ok-injective s spec h)

build-IsForked :
    (a : Answers) (p : Preflight) (d : Devnet) → build a p ≡ ok d → IsForked a p (some d)
unfolding build
build-IsForked a p d h =
    let (_, copied, h1) = >>=-eq-ok (guard a.copies copy_failed) _ h in
    let (hash, parsed, h2) = >>=-eq-ok (genesis_of_init a.init_output) _ h1 in
    let (_, same, h3) = >>=-eq-ok (guard (hash == p.genesis_hash) spec_changed) _ h2 in
    let (spec, read, h4) = >>=-eq-ok (spec_of a.dev_spec) _ h3 in
    let (_, written, h5) = >>=-eq-ok (guard a.spec_written spec_failed) _ h4 in
    let (_, aligned, h6) = >>=-eq-ok (guard a.aligned align_failed) _ h5 in
    let (_, migrated, h7) =
      >>=-eq-ok (guard (not p.migration_needed || a.migrated) migrate_failed) _ h6 in
    let (_, state, last) = >>=-eq-ok (guard a.state_written state_failed) _ h7 in
    let hash' : hash ≡ p.genesis_hash =
      (list_eqb_iff hash p.genesis_hash).0 (guard-eq-ok _ _ same) in
    (
      spec,
      spec_of-eq-ok a.dev_spec spec read,
      ap some (
          sym (ok-injective _ d last)
          ∙ ap (λ x. forked (patch_dev_spec_for_fork spec p.source) (new_state p x)) hash'),
      implies p.migration_needed a.migrated (guard-eq-ok _ _ migrated),
    )
  where
    implies : (x y : Bool) → not x || y ≡ true → (x ≡ false) ⊎ (y ≡ true)
    implies true y h' = inr h'
    implies false y h' = inl refl

not-eq-true : (b : Bool) → not b ≡ true → b ≡ false
not-eq-true true h = cc
not-eq-true false h = refl

validate_fork_spec-agrees :
    (a : Answers) (declared : Option ForkSource) (found : ForkSource × Text)
    → validate_fork_spec a declared ≡ ok found
    → (agrees (expected_genesis_hash found.0) found.1 ≡ true)
      × (agrees (source_genesis a.source_hashes) found.1 ≡ true)
unfolding validate_fork_spec
validate_fork_spec-agrees a declared found h =
    let (hash, parsed, h1) = >>=-eq-ok (genesis_of_init a.preflight_output) _ h in
    let (_, expected, h2) =
      >>=-eq-ok
        (guard (agrees (expected_genesis_hash (chosen declared hash)) hash) genesis_mismatch) _
        h1 in
    let (_, same, last) =
      >>=-eq-ok (guard (agrees (source_genesis a.source_hashes) hash) different_chain) _ h2 in
    subst
      (λ (r : ForkSource × Text).
        (agrees (expected_genesis_hash r.0) r.1 ≡ true)
        × (agrees (source_genesis a.source_hashes) r.1 ≡ true))
      (ok-injective _ found last) (guard-eq-ok _ _ expected, guard-eq-ok _ _ same)

preflight-IsGenuine :
    (o : ForkOptions) (a : Answers) (p : Preflight) → preflight o a ≡ ok p → IsGenuine a p
unfolding preflight
preflight-IsGenuine o a p h =
    let (_, from, h1) = >>=-eq-ok (guard o.has_from no_from) _ h in
    let (_, exists', h2) = >>=-eq-ok (guard a.source_exists no_source_dir) _ h1 in
    let (_, db, h3) = >>=-eq-ok (guard a.source_has_db no_source_db) _ h2 in
    let (_, idle, h4) = >>=-eq-ok (guard (not (is_running a.source_running)) source_running) _ h3 in
    let (_, known, h5) =
      >>=-eq-ok (guard (is_known (declared_source o a) || o.has_spec_file) unknown_source) _ h4 in
    let (_, installed, h6) = >>=-eq-ok (guard a.installed install_failed) _ h5 in
    let (needed, checked, h7) = >>=-eq-ok (is_database_migration_needed a.migration_check) _ h6 in
    let (_, spec, h8) = >>=-eq-ok (resolve_spec_file o a) _ h7 in
    let (found, valid, last) = >>=-eq-ok (validate_fork_spec a (declared_source o a)) _ h8 in
    let (expected, same) = validate_fork_spec-agrees a (declared_source o a) found valid in
    subst (IsGenuine a) (ok-injective _ p last)
      (expected, same, not-eq-true _ (guard-eq-ok _ _ idle))

rolled_back-Leaves :
    (o : ForkOptions) (a : Answers) (before : Option Devnet) (p : Preflight)
    (r : Result ForkError Devnet)
    → build a p ≡ r
    → MayChange o a before p
    → Leaves o a before (rolled_back a r)
rolled_back-Leaves o a before p (ok d) built may =
    (p, may, preflight-IsGenuine o a p may.0, build-IsForked a p d built)
rolled_back-Leaves o a before p (err e) built may =
    if-cases (Leaves o a before) a.rolls_back _ _ (λ rolls. inr (p, may, inl refl))
      (λ fails. inr (p, may, inr (inr fails)))

replace-Leaves :
    (o : ForkOptions) (a : Answers) (before : Option Devnet) (p : Preflight)
    → preflight o a ≡ ok p
    → o.dry_run ≡ false
    → assert_offckb_devnet_stopped a.pid_reader a.signals a.devnet_running a.pid_file ≡ ok tt
    → (p.migration_needed ≡ false) ⊎ (o.migrate ≡ true)
    → Leaves o a before (replace o a p before)
replace-Leaves o a none p passed wet stopped migrates =
    rolled_back-Leaves o a none p (build a p) refl (passed, wet, stopped, migrates, inl refl)
replace-Leaves o a (some devnet) p passed wet stopped migrates =
    if-cases (Leaves o a (some devnet)) o.force _ _
      (λ forced.
        let may : MayChange o a (some devnet) p = (passed, wet, stopped, migrates, inr forced) in
        if-cases (Leaves o a (some devnet)) a.removes_existing _ _
          (λ removes. rolled_back-Leaves o a (some devnet) p (build a p) refl may)
          (λ stays. inr (p, may, inr (inl stays))))
      (λ unforced. inl refl)

when_stopped-Leaves :
    (o : ForkOptions) (a : Answers) (before : Option Devnet) (p : Preflight)
    (r : Result StoppedError (Unit {0}))
    → assert_offckb_devnet_stopped a.pid_reader a.signals a.devnet_running a.pid_file ≡ r
    → preflight o a ≡ ok p
    → o.dry_run ≡ false
    → Leaves o a before (when_stopped o a p before r)
when_stopped-Leaves o a before p (err e) stopped passed wet = inl refl
when_stopped-Leaves o a before p (ok tt) stopped passed wet =
    if-cases (Leaves o a before) (p.migration_needed && not o.migrate) _ _ (λ needs. inl refl)
      (λ fine.
        replace-Leaves o a before p passed wet stopped (migrates p.migration_needed o.migrate fine))
  where
    migrates : (x y : Bool) → x && not y ≡ false → (x ≡ false) ⊎ (y ≡ true)
    migrates true true h = inr refl
    migrates true false h = cc
    migrates false y h = inl refl

after_preflight-Leaves :
    (o : ForkOptions) (a : Answers) (before : Option Devnet) (r : Result ForkError Preflight)
    → preflight o a ≡ r
    → Leaves o a before (after_preflight o a before r)
after_preflight-Leaves o a before (err e) failed = inl refl
after_preflight-Leaves o a before (ok p) passed =
    if-cases (Leaves o a before) o.dry_run _ _ (λ dry. (refl, dry))
      (λ wet.
        when_stopped-Leaves o a before p
          (assert_offckb_devnet_stopped a.pid_reader a.signals a.devnet_running a.pid_file) refl
          passed wet)

-- A fork that fails leaves the devnet as it was, or, once all checks before have passed, nothing,
-- unless a removal itself fails. A dry run changes nothing. A fork that succeeds leaves the whole
-- fork, with the specification patched for its chain and the genesis that was checked. A devnet
-- that was there is replaced only with --force, and a database is migrated only with --migrate.
pub fork_devnet-Leaves :
    (o : ForkOptions) (a : Answers) (before : Option Devnet)
    → Leaves o a before (fork_devnet o a before)
unfolding fork_devnet
fork_devnet-Leaves o a before = after_preflight-Leaves o a before (preflight o a) refl
