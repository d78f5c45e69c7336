-- ===== src/Chain/Migrating/Laws.antt =====
-- What the migration may change, and what stays of a user's files.
use mathlib.Core.Path.{subst}
use offckb.Base.{
  ◌≡◌, ◌⊎◌, inl, inr, refl, ap, sym, Bool, true, false, ◌&&◌, Option, none, some, List, [], ◌∷◌,
  if-cases, arith,
}
use offckb.Base.Text.{Text, text, split_on, join}
use offckb.Value.{Value}
use offckb.Value.Paths.{get_key}
use offckb.Chain.Lines.{Section, find_rpc_section}
use offckb.Chain.Listening.{
  enable_tcp_listen_address, IsEnabled, enable_tcp_listen_address-IsEnabled,
}
use offckb.Chain.Migrating.{
  Platform, supports_terminal_rpc_module, rpc_object, Needs, needs, needs_in, needs_parsed,
  in_section, joined_lines, by_needs, migrate_lines, migrate_legacy_devnet_rpc_config, ConfigFiles,
  Templates, laid_ckb_toml, laid_down, is_there, rewritten, or_template, migrated,
  init_chain_if_needed,
}

-- The new text has the lines of the old one, but for the edit of the address.
abbrev pub OnlyListens : Text → Option Text → Type 0
OnlyListens source none = Unit
OnlyListens source (some new) =
    (s : Section) × (lines : List Text) × (find_rpc_section (split_on 10 source) ≡ some s)
    × (new ≡ join (10 ∷ []) lines)
    × IsEnabled (split_on 10 source) s lines

in_section-old :
    (lines : List Text) (s : Option Section) (result : List Text)
    → find_rpc_section lines ≡ s
    → in_section false true lines s ≡ some result
    → (s' : Section) × (find_rpc_section lines ≡ some s') × IsEnabled lines s' result
in_section-old lines none result e h = cc
in_section-old lines (some s) result e h =
    let same : enable_tcp_listen_address lines s ≡ result = cc (rw e at h) in
    (s, e, subst (IsEnabled lines s) same (enable_tcp_listen_address-IsEnabled lines s))

joined_lines-OnlyListens :
    (source : Text) (o : Option (List Text))
    → ((lines : List Text)
        → o ≡ some lines
        → (s : Section) × (find_rpc_section (split_on 10 source) ≡ some s)
          × IsEnabled (split_on 10 source) s lines)
    → OnlyListens source (joined_lines o)
joined_lines-OnlyListens source none h = tt
joined_lines-OnlyListens source (some lines) h =
    let (s, found, enabled) = h lines refl in (s, lines, found, refl, enabled)

migrate_lines-OnlyListens :
    (source : Text) (terminal tcp : Bool)
    → terminal ≡ false
    → OnlyListens source (joined_lines (migrate_lines terminal tcp (split_on 10 source)))
migrate_lines-OnlyListens source true tcp old = cc
migrate_lines-OnlyListens source false false old = tt
migrate_lines-OnlyListens source false true old =
    joined_lines-OnlyListens source
      (in_section false true (split_on 10 source) (find_rpc_section (split_on 10 source)))
      (λ lines.
        in_section-old (split_on 10 source) (find_rpc_section (split_on 10 source)) lines refl)

NeedsNoTerminal : Option Needs → Type 0
NeedsNoTerminal none = Unit
NeedsNoTerminal (some n) = n.terminal ≡ false

by_needs-OnlyListens :
    (source : Text) (n : Option Needs) → NeedsNoTerminal n → OnlyListens source (by_needs source n)
unfolding NeedsNoTerminal
by_needs-OnlyListens source none h = tt
by_needs-OnlyListens source (some n) h = migrate_lines-OnlyListens source n.terminal n.tcp h

needs_in-NeedsNoTerminal : (o : Option Value) → NeedsNoTerminal (needs_in false o)
unfolding NeedsNoTerminal
needs_in-NeedsNoTerminal none = tt
needs_in-NeedsNoTerminal (some rpc) = refl

needs_parsed-NeedsNoTerminal : (o : Option Value) → NeedsNoTerminal (needs_parsed false o)
unfolding NeedsNoTerminal
needs_parsed-NeedsNoTerminal none = tt
needs_parsed-NeedsNoTerminal (some v) =
    needs_in-NeedsNoTerminal (rpc_object (get_key (text "rpc") v))

-- For a version of CKB that is known to be too old for the Terminal module, the migration never adds
-- it: a file that changes is the old one with the edit of the listen address, and no other.
pub migrate-OnlyListens :
    (p : Platform) (version : Option Text) (source : Text)
    → supports_terminal_rpc_module p version ≡ false
    → OnlyListens source (migrate_legacy_devnet_rpc_config p version (some source))
unfolding migrate_legacy_devnet_rpc_config needs
migrate-OnlyListens p version source old =
    by_needs-OnlyListens source
      (needs_parsed (supports_terminal_rpc_module p version) (p.parse_toml source))
      (subst (λ b. NeedsNoTerminal (needs_parsed b (p.parse_toml source))) (sym old)
        (needs_parsed-NeedsNoTerminal (p.parse_toml source)))

-- A user's ckb.toml stays or is migrated; one that is missing is laid down.
abbrev pub KeepsUser : Platform → Option Text → Option Text → Option Text → Type 0
KeepsUser p version none new = (s : Text) × (new ≡ some s)
KeepsUser p version (some s) new =
    (new ≡ some s)
    ⊎ ((t : Text) × (migrate_legacy_devnet_rpc_config p version (some s) ≡ some t) × (new ≡ some t))

abbrev pub KeepsFile : Option Text → Option Text → Type 0
KeepsFile none new = (s : Text) × (new ≡ some s)
KeepsFile (some s) new = new ≡ some s

abbrev pub IsInitialized : Platform → Option Text → ConfigFiles → ConfigFiles → Type 0
IsInitialized p version f g =
    KeepsUser p version f.ckb_toml g.ckb_toml
    × KeepsFile f.miner_toml g.miner_toml
    × KeepsFile f.dev_toml g.dev_toml

rewritten-some :
    (f : ConfigFiles) (c : Text) (o : Option Text)
    → f.ckb_toml ≡ some c
    → (s : Text) × ((rewritten f o).ckb_toml ≡ some s)
rewritten-some f c none e = (c, e)
rewritten-some f c (some s) e = (s, refl)

rewritten-user :
    (p : Platform) (version : Option Text) (f : ConfigFiles) (c : Text) (o : Option Text)
    → f.ckb_toml ≡ some c
    → migrate_legacy_devnet_rpc_config p version (some c) ≡ o
    → KeepsUser p version (some c) (rewritten f o).ckb_toml
rewritten-user p version f c none e m = inl e
rewritten-user p version f c (some s) e m = inr (s, m, refl)

rewritten-others :
    (f : ConfigFiles) (o : Option Text)
    → ((rewritten f o).miner_toml ≡ f.miner_toml) × ((rewritten f o).dev_toml ≡ f.dev_toml)
rewritten-others f none = (refl, refl)
rewritten-others f (some s) = (refl, refl)

migrated-user :
    (p : Platform) (version : Option Text) (f : ConfigFiles) (before : Option Text) (c : Text)
    → f.ckb_toml ≡ some c
    → (before ≡ none) ⊎ (before ≡ some c)
    → KeepsUser p version before (migrated p version f).ckb_toml
migrated-user p version f none c e h =
    rewritten-some f c (migrate_legacy_devnet_rpc_config p version f.ckb_toml) e
migrated-user p version f (some s) c e (inl h) = cc
migrated-user p version f (some s) c e (inr h) =
    let same : s ≡ c = cc in
    subst (λ x. KeepsUser p version (some x) (migrated p version f).ckb_toml) (sym same)
      (rewritten-user p version f c (migrate_legacy_devnet_rpc_config p version f.ckb_toml) e
        (ap (migrate_legacy_devnet_rpc_config p version) (sym e)))

KeepsFile-template :
    (template : Text) (o : Option Text) → KeepsFile o (some (or_template template o))
KeepsFile-template template none = (template, refl)
KeepsFile-template template (some s) = refl

laid_ckb-before :
    (p : Platform) (version : Option Text) (t : Templates) (o : Option Text)
    → (o ≡ none) ⊎ (o ≡ some (laid_ckb_toml p version t o))
laid_ckb-before p version t none = inl refl
laid_ckb-before p version t (some s) = inr refl

laid_down-IsInitialized :
    (p : Platform) (version : Option Text) (t : Templates) (f : ConfigFiles)
    → IsInitialized p version f (migrated p version (laid_down p version t f))
laid_down-IsInitialized p version t f =
    let new = laid_down p version t f in
    let others = rewritten-others new (migrate_legacy_devnet_rpc_config p version new.ckb_toml) in
    (
      migrated-user p version new f.ckb_toml (laid_ckb_toml p version t f.ckb_toml) refl
          (laid_ckb-before p version t f.ckb_toml),
      subst (KeepsFile f.miner_toml) (sym others.0)
          (KeepsFile-template t.miner_for_devnet f.miner_toml),
      subst (KeepsFile f.dev_toml) (sym others.1) (KeepsFile-template t.dev_toml f.dev_toml),
    )

is_there-some : (o : Option Text) → is_there o ≡ true → (s : Text) × (o ≡ some s)
is_there-some none h = cc
is_there-some (some s) h = (s, refl)

KeepsFile-same : (o : Option Text) → is_there o ≡ true → KeepsFile o o
KeepsFile-same none h = cc
KeepsFile-same (some s) h = refl

present-IsInitialized :
    (p : Platform) (version : Option Text) (f : ConfigFiles)
    → is_there f.ckb_toml ≡ true
    → is_there f.miner_toml ≡ true
    → is_there f.dev_toml ≡ true
    → IsInitialized p version f (migrated p version f)
present-IsInitialized p version f ckb miner dev =
    let (c, e) = is_there-some f.ckb_toml ckb in
    let others = rewritten-others f (migrate_legacy_devnet_rpc_config p version f.ckb_toml) in
    (
      migrated-user p version f f.ckb_toml c e (inr e),
      subst (KeepsFile f.miner_toml) (sym others.0) (KeepsFile-same f.miner_toml miner),
      subst (KeepsFile f.dev_toml) (sym others.1) (KeepsFile-same f.dev_toml dev),
    )

-- After a start all three configuration files are there. A miner or chain file that was there stays
-- as it was, and a ckb.toml that was there stays too, or is what the migration makes of it.
pub init_chain_if_needed-IsInitialized :
    (p : Platform) (version : Option Text) (t : Templates) (f : ConfigFiles)
    → IsInitialized p version f (init_chain_if_needed p version t f)
unfolding init_chain_if_needed
init_chain_if_needed-IsInitialized p version t f =
    if-cases (λ x. IsInitialized p version f (migrated p version x))
      (is_there f.ckb_toml && is_there f.miner_toml && is_there f.dev_toml) _ _
      (λ there.
        present-IsInitialized p version f (ground (arith, there)) (ground (arith, there))
          (ground (arith, there)))
      (λ missing. laid_down-IsInitialized p version t f)
