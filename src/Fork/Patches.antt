-- ===== src/Fork/Patches.antt =====
-- What the patches of a fork set, and what they leave.
use offckb.Base.{
  ◌≡◌, ◌≢◌, refl, ap, ◌∙◌, true, false, Option, none, some, if◌then◌else◌, ◌==◌, text_eq, list_eqb,
  list_eqb_iff, list_eqb_refl, arith,
}
use offckb.Base.Text.{Text, text}
use offckb.Value.{pos, integer, Value, bool, num, str, obj, Fields, lookup, insert}
use offckb.Value.Paths.Laws.{lookup-insert, lookup-remove}
use offckb.Fork.{
  ForkSource, mainnet, testnet, custom, spread, mainnet_genesis_epoch_length, patch_params,
  patch_dev_spec_for_fork,
}

-- The epoch length of the genesis block that each source wants.
epoch_of : ForkSource → Option Value → Option Value
epoch_of mainnet old = some (num (integer (pos mainnet_genesis_epoch_length)))
epoch_of testnet old = none
epoch_of custom old = old

-- The two parameters that each fork gets, at a key.
dummy_params : Text → Option Value → Option Value
dummy_params j old =
    if text "permanent_difficulty_in_dummy" == j
    then some (bool true)
    else if text "cellbase_maturity" == j
    then some (num (integer (pos 0)))
    else old

maturity : Value
maturity = num (integer (pos 0))

with_dummy : Fields → Fields
with_dummy params =
    insert (text "permanent_difficulty_in_dummy") (bool true)
      (insert (text "cellbase_maturity") maturity params)

lookup-with_dummy :
    (j : Text) (params : Fields) → lookup j (with_dummy params) ≡ dummy_params j (lookup j params)
unfolding with_dummy dummy_params maturity
lookup-with_dummy j params =
    lookup-insert j (text "permanent_difficulty_in_dummy") (bool true)
      (insert (text "cellbase_maturity") maturity params)
    ∙ ap (λ o. if text "permanent_difficulty_in_dummy" == j then some (bool true) else o)
        (lookup-insert j (text "cellbase_maturity") maturity params)

-- What a patch of the parameters leaves at a key.
patched : ForkSource → Text → Option Value → Option Value
patched mainnet j old =
    if text "genesis_epoch_length" == j
    then some (num (integer (pos mainnet_genesis_epoch_length)))
    else dummy_params j old
patched testnet j old = if text "genesis_epoch_length" == j then none else dummy_params j old
patched custom j old = dummy_params j old

lookup-patch_params :
    (source : ForkSource) (j : Text) (params : Fields)
    → lookup j (patch_params source params) ≡ patched source j (lookup j params)
unfolding patch_params patched with_dummy maturity
lookup-patch_params mainnet j params =
    lookup-insert j (text "genesis_epoch_length") (num (integer (pos mainnet_genesis_epoch_length)))
      (with_dummy params)
    ∙ ap
        (λ o.
          if text "genesis_epoch_length" == j
          then some (num (integer (pos mainnet_genesis_epoch_length)))
          else o)
        (lookup-with_dummy j params)
lookup-patch_params testnet j params =
    lookup-remove j (text "genesis_epoch_length") (with_dummy params)
    ∙ ap (λ o. if text "genesis_epoch_length" == j then none else o) (lookup-with_dummy j params)
lookup-patch_params custom j params = lookup-with_dummy j params

IsOtherParam : Text → Type 0
IsOtherParam j =
    (text "cellbase_maturity" ≢ j)
    × (text "permanent_difficulty_in_dummy" ≢ j)
    × (text "genesis_epoch_length" ≢ j)

-- The parameters of a fork: blocks mature at once and stay at the dummy difficulty, and the epoch
-- length of the genesis block is the one of the source. The others stay.
pub HasParams : ForkSource → Fields → Fields → Type 0
HasParams source old new =
    (lookup (text "cellbase_maturity") new ≡ some (num (integer (pos 0))))
    × (lookup (text "permanent_difficulty_in_dummy") new ≡ some (bool true))
    × (lookup (text "genesis_epoch_length") new
        ≡ epoch_of source (lookup (text "genesis_epoch_length") old))
    × ((j : Text) → IsOtherParam j → lookup j new ≡ lookup j old)

patched-other :
    (source : ForkSource) (j : Text) (old : Option Value)
    → IsOtherParam j
    → patched source j old ≡ old
unfolding patched dummy_params IsOtherParam
patched-other mainnet j old (a, b, c) = ground (
  arith,
  list_eqb_iff (text "cellbase_maturity") j,
  list_eqb_iff (text "permanent_difficulty_in_dummy") j,
  list_eqb_iff (text "genesis_epoch_length") j,
)
patched-other testnet j old (a, b, c) = ground (
  arith,
  list_eqb_iff (text "cellbase_maturity") j,
  list_eqb_iff (text "permanent_difficulty_in_dummy") j,
  list_eqb_iff (text "genesis_epoch_length") j,
)
patched-other custom j old (a, b, c) = ground (
  arith,
  list_eqb_iff (text "cellbase_maturity") j,
  list_eqb_iff (text "permanent_difficulty_in_dummy") j,
)

patch_params-HasParams :
    (source : ForkSource) (params : Fields) → HasParams source params (patch_params source params)
unfolding HasParams patched dummy_params epoch_of text list_eqb
patch_params-HasParams mainnet params = (
  lookup-patch_params mainnet (text "cellbase_maturity") params,
  lookup-patch_params mainnet (text "permanent_difficulty_in_dummy") params,
  lookup-patch_params mainnet (text "genesis_epoch_length") params,
  λ j other. lookup-patch_params mainnet j params ∙ patched-other mainnet j (lookup j params) other,
)
patch_params-HasParams testnet params = (
  lookup-patch_params testnet (text "cellbase_maturity") params,
  lookup-patch_params testnet (text "permanent_difficulty_in_dummy") params,
  lookup-patch_params testnet (text "genesis_epoch_length") params,
  λ j other. lookup-patch_params testnet j params ∙ patched-other testnet j (lookup j params) other,
)
patch_params-HasParams custom params = (
  lookup-patch_params custom (text "cellbase_maturity") params,
  lookup-patch_params custom (text "permanent_difficulty_in_dummy") params,
  lookup-patch_params custom (text "genesis_epoch_length") params,
  λ j other. lookup-patch_params custom j params ∙ patched-other custom j (lookup j params) other,
)

-- Two sections are set, and the other keys stay.
lookup-two :
    (j k k' : Text) (v v' : Value) (fs : Fields)
    → lookup j (insert k v (insert k' v' fs))
      ≡ (if k == j then some v else (if k' == j then some v' else lookup j fs))
lookup-two j k k' v v' fs =
    lookup-insert j k v (insert k' v' fs)
    ∙ ap (λ o. if k == j then some v else o) (lookup-insert j k' v' fs)

params-ne-pow : list_eqb (text "params") (text "pow") ≡ false
unfolding text list_eqb
params-ne-pow = refl

-- A specification and what it becomes for a source, at a key.
abbrev pub IsPatched : Fields → ForkSource → Text → Fields → Type 0
IsPatched spec source j new =
    ((pow : Fields) × (lookup (text "pow") new ≡ some (obj pow))
      × (lookup j pow ≡ (
          if text "func" == j
          then some (str (text "Dummy"))
          else lookup j (spread (lookup (text "pow") spec)))))
    × ((params : Fields) × (lookup (text "params") new ≡ some (obj params))
        × HasParams source (spread (lookup (text "params") spec)) params)
    × (text "pow" ≢ j → text "params" ≢ j → lookup j new ≡ lookup j spec)

-- A specification that is patched mines with the dummy engine and keeps the other settings of `pow`.
-- In its parameters blocks mature at once and stay at the dummy difficulty, the epoch length of the
-- genesis block is that of mainnet, removed for testnet and as it was for a custom source, and the
-- other ones are as they were. Each other key of the specification stays.
pub patch_dev_spec_for_fork_lem :
    (spec : Fields) (source : ForkSource) (j : Text)
    → IsPatched spec source j (patch_dev_spec_for_fork spec source)
unfolding patch_dev_spec_for_fork
patch_dev_spec_for_fork_lem spec source j =
    let params = patch_params source (spread (lookup (text "params") spec)) in
    let old_pow = spread (lookup (text "pow") spec) in
    let pow = insert (text "func") (str (text "Dummy")) old_pow in
    let at : (k : Text)
        → lookup k (patch_dev_spec_for_fork spec source) ≡ (
            if text "params" == k
            then some (obj params)
            else (if text "pow" == k then some (obj pow) else lookup k spec)) =
      λ k. lookup-two k (text "params") (text "pow") (obj params) (obj pow) spec in
    (
      (
        pow,
        at (text "pow") ∙ rw (params-ne-pow, list_eqb_refl (text "pow")) refl,
        lookup-insert j (text "func") (str (text "Dummy")) old_pow,
      ),
      (
        params,
        at (text "params") ∙ rw (list_eqb_refl (text "params")) refl,
        patch_params-HasParams source (spread (lookup (text "params") spec)),
      ),
      λ n n'.
          at j ∙ ground (arith, n, n', list_eqb_iff (text "pow") j, list_eqb_iff (text "params") j),
    )
