-- ===== src/Value/Paths.antt =====
-- `getByPath` and `setByPath` of src/devnet/config-editor.ts.
pub mod Laws
use offckb.Base.{ℕ, ◌≡◌, Bool, true, false, Option, none, some, List, [], ◌∷◌, if◌then◌else◌, arith}
use offckb.Base.Text.{Text}
use offckb.Value.{
  Value, null, bool, num, str, arr, obj, Items, nil, cons, Fields, end, field, lookup, insert,
  get_item, set_item,
}

-- `current[key]`, where `none` is `undefined`: also what a `null` or a primitive gives.
unfoldable pub get_key : Text → Value → Option Value
unfolding lookup get_item
get_key k (obj fs) = lookup k fs
get_key k (arr vs) = get_item 0 k vs
get_key k _ = none

-- The loop of `getByPath`; the root is the document, and `none` is `undefined`.
unfoldable pub get_by_path : Value → List Text → Option Value
unfolding get_key
get_by_path v [] = some v
get_by_path v (k ∷ ks) = elim (get_key k v) [ none ↦ none | some w ↦ get_by_path w ks ]

-- `current[key] = v`. A write to an array past its end or at a key that is no index leaves the
-- items alone, a write to a primitive too.
unfoldable pub set_key : Text → Value → Value → Value
unfolding insert set_item
set_key k v (obj fs) = obj (insert k v fs)
set_key k v (arr vs) = arr (set_item 0 k v vs)
set_key k v w = w

-- `next == null || typeof next !== 'object'` turns the member into `{}` before the loop goes on.
unfoldable pub container : Option Value → Value
container (some (obj fs)) = obj fs
container (some (arr vs)) = arr vs
container _ = obj end

unfoldable pub set_by_path : Value → List Text → Value → Value
unfolding get_key set_key container
set_by_path target [] v = target
set_by_path target (k ∷ []) v = set_key k v target
set_by_path target (k ∷ j ∷ ks) v =
    set_key k (set_by_path (container (get_key k target)) (j ∷ ks) v) target
