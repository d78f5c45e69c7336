-- ===== src/Value.antt =====
-- The values of parsed configuration documents (TOML, YAML and JSON), and the path access of
-- src/devnet/config-editor.ts. The parsers and printers of the documents are third-party code.
-- An object is the list of its own properties; an inherited member of `Object.prototype` is not
-- reached by a path, and neither is the property `length` of an array.
pub mod Paths
use offckb.Base.{
  ℕ, zero, suc, ◌+◌, ◌-◌, ◌*◌, ◌≡◌, refl, Bool, true, false, ◌&&◌, Option, none, some, List, [],
  ◌∷◌, ◌++◌, eqb, if◌then◌else◌, ◌==◌, text_eq, arith, length, ap,
}
use offckb.Base.Text.{Text, decimal}

pub data ℤ : Type 0 where
  pos : ℕ → ℤ
  negsuc : ℕ → ℤ

-- A number of the language: a double is not a number, infinite, integral or a finite fraction,
-- whose bits the program never looks at.
pub data Number : Type 0 where
  nan : Number
  infinity : Bool → Number
  integer : ℤ → Number
  fraction : ℕ → Number

mutual
  pub data Value : Type 0 where
    null : Value
    bool : Bool → Value
    num : Number → Value
    str : Text → Value
    arr : Items → Value
    obj : Fields → Value

  pub data Items : Type 0 where
    nil : Items
    cons : Value → Items → Items

  pub data Fields : Type 0 where
    end : Fields
    field : Text → Value → Fields → Fields

-- Arrays as lists, both ways.
unfoldable pub items : Items → List Value
items nil = []
items (cons v vs) = v ∷ items vs

unfoldable pub of_list : List Value → Items
of_list [] = nil
of_list (v ∷ vs) = cons v (of_list vs)

pub items-of_list : (vs : List Value) → items (of_list vs) ≡ vs
unfolding items of_list
items-of_list [] = refl
items-of_list (v ∷ vs) = ap (λ t. v ∷ t) (items-of_list vs)

-- `fields[key]`
unfoldable pub lookup : Text → Fields → Option Value
lookup k end = none
lookup k (field j v fs) = if j == k then some v else lookup k fs

-- `fields[key] = v`: an assignment to a present key keeps its place, a new key goes last.
unfoldable pub insert : Text → Value → Fields → Fields
insert k v end = field k v end
insert k v (field j w fs) = if j == k then field j v fs else field j w (insert k v fs)

-- `delete fields[key]`
unfoldable pub remove : Text → Fields → Fields
remove k end = end
remove k (field j w fs) = let rest = remove k fs in if j == k then rest else field j w rest

-- `items[key]`: the own property `String(i)` of an array is its item `i`.
unfoldable pub get_item : ℕ → Text → Items → Option Value
get_item i k nil = none
get_item i k (cons v vs) = if decimal i == k then some v else get_item (suc i) k vs

-- `items[key] = v`, for the key of an item that is there.
unfoldable pub set_item : ℕ → Text → Value → Items → Items
set_item i k v nil = nil
set_item i k v (cons w vs) = if decimal i == k then cons v vs else cons w (set_item (suc i) k v vs)

-- `value != null && typeof value === 'object' && !Array.isArray(value)`
abbrev pub is_plain_object : Value → Bool
is_plain_object (obj _) = true
is_plain_object _ = false
