-- ===== src/ConfigEditor/FieldEdits/Table.antt =====
-- Any two rows of the table of fields are kept in different places.
use offckb.Base.{
  ◌≡◌, refl, ◌≢◌, ◌⊎◌, inl, inr, Bool, true, false, not, ◌&&◌, ◌||◌, List, [], ◌∷◌, every, All,
  if◌then◌else◌, ◌==◌, text_eq, list_eqb, list_eqb_iff, Bool-cases, arith,
}
use offckb.Base.Text.{Text}
use offckb.Value.{Value}
use offckb.Value.Paths.Laws.{Diverges, IsPath}
use offckb.ConfigEditor.{
  DocumentId, ckb, miner, FieldType, FieldDefinition, Editor, document, with_document, string_type,
  number_type, boolean_type,
}
use offckb.ConfigEditor.FieldEdits.{editable_field_definitions}

-- Paths compared key by key.
pub parts_from : List Text → List Text → Bool
parts_from (k ∷ ks) (j ∷ js) = if k == j then parts_from ks js else true
parts_from _ _ = false

pub parts_from-Diverges : (ks js : List Text) → parts_from ks js ≡ true → Diverges ks js
unfolding parts_from
parts_from-Diverges (k ∷ ks) (j ∷ js) h = elim (Bool-cases (k == j)) [
  | inl same ↦ inr ((list_eqb_iff k j).0 same, parts_from-Diverges ks js (rw same at h))
  | inr other ↦ inl (ground (arith, list_eqb_iff k j))
]
parts_from-Diverges [] js h = cc
parts_from-Diverges (k ∷ ks) [] h = cc

pub same_file : DocumentId → DocumentId → Bool
same_file ckb ckb = true
same_file miner miner = true
same_file _ _ = false

pub other_document :
    (i j : DocumentId) (v : Value) (e : Editor)
    → same_file i j ≡ false
    → document j (with_document i v e) ≡ document j e
unfolding same_file
other_document ckb ckb v e h = cc
other_document ckb miner v e h = refl
other_document miner ckb v e h = refl
other_document miner miner v e h = cc

pub same_type : FieldType → FieldType → Bool
same_type string_type string_type = true
same_type number_type number_type = true
same_type boolean_type boolean_type = true
same_type _ _ = false

pub same_path : List Text → List Text → Bool
same_path [] [] = true
same_path (k ∷ ks) (j ∷ js) = k == j && same_path ks js
same_path _ _ = false

pub same_path→eq : (ks js : List Text) → same_path ks js ≡ true → ks ≡ js
unfolding same_path
same_path→eq [] [] h = refl
same_path→eq (k ∷ ks) (j ∷ js) h = ground (arith, list_eqb_iff k j, same_path→eq ks js)
same_path→eq [] (j ∷ js) h = cc
same_path→eq (k ∷ ks) [] h = cc

pub has_path : List Text → Bool
has_path [] = false
has_path (_ ∷ _) = true

pub has_path-IsPath : (ks : List Text) → has_path ks ≡ true → IsPath ks
unfolding has_path
has_path-IsPath [] h = cc
has_path-IsPath (k ∷ ks) h = tt

-- Two rows of the table are one row, or differ in their ids and in where they are kept.
pub separate : FieldDefinition → FieldDefinition → Bool
separate d c =
    if d.id == c.id
    then has_path d.path
      && same_file d.file c.file
      && same_type d.type c.type
      && same_path d.path c.path
    else not (same_file d.file c.file) || parts_from d.path c.path

abbrev pub Apart : FieldDefinition → FieldDefinition → Type 0
Apart d c =
    ((d ≡ c) × IsPath d.path)
    ⊎ ((d.id ≢ c.id) × ((same_file d.file c.file ≡ false) ⊎ Diverges d.path c.path))

pub separate-Apart : (d c : FieldDefinition) → separate d c ≡ true → Apart d c
unfolding separate same_file same_type
separate-Apart d c h = ground (
  arith,
  list_eqb_iff d.id c.id,
  same_path→eq d.path c.path,
  has_path-IsPath d.path,
  parts_from-Diverges d.path c.path,
)

pub every→All :
    {A : Type 0} (P : A → Type 0) (p : A → Bool)
    → ((a : A) → p a ≡ true → P a)
    → (xs : List A) → every p xs ≡ true
    → All P xs
every→All P p sound [] h = tt
every→All P p sound (x ∷ xs) h = (sound x (ground arith), every→All P p sound xs (ground arith))

pub table_separate :
    every (λ d. every (separate d) editable_field_definitions) editable_field_definitions ≡ true
unfolding separate same_file same_type same_path has_path parts_from list_eqb
    editable_field_definitions
table_separate = refl

-- Any two rows of the table.
pub table_Apart : All (λ d. All (Apart d) editable_field_definitions) editable_field_definitions
table_Apart =
    every→All _ _ (λ d. every→All _ _ (separate-Apart d) editable_field_definitions)
      editable_field_definitions table_separate

-- Each row is apart from the rows below it, whichever of the two is stored.
abbrev pub Rows : List FieldDefinition → Type 0
Rows [] = Unit
Rows (c ∷ ds) = All (λ d. Apart d c) ds × Rows ds

rows : List FieldDefinition → Bool
rows [] = true
rows (c ∷ ds) = every (λ d. separate d c) ds && rows ds

rows→Rows : (ds : List FieldDefinition) → rows ds ≡ true → Rows ds
unfolding rows
rows→Rows [] h = tt
rows→Rows (c ∷ ds) h = (
  every→All (λ d. Apart d c) (λ d. separate d c) (λ d. separate-Apart d c) ds (ground arith),
  rows→Rows ds (ground arith),
)

table_rows : rows editable_field_definitions ≡ true
unfolding rows separate same_file same_type same_path has_path parts_from list_eqb
    editable_field_definitions
table_rows = refl

pub table_Rows : Rows editable_field_definitions
table_Rows = rows→Rows editable_field_definitions table_rows
