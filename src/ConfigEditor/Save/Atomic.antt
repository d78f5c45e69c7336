-- ===== src/ConfigEditor/Save/Atomic.antt =====
-- A save that is interrupted.
use mathlib.Core.Option.{some-injective}
use offckb.Base.{
  ◌≡◌, refl, ◌≢◌, ◌⊎◌, inl, inr, ◌∙◌, sym, ap, Option, none, some, List, [], ◌∷◌, ◌++◌, text_eq,
  list_eqb_iff, list_eqb_refl, length, length-append, Result, ok, err, Option-cases, arith,
}
use offckb.Base.Text.{Text, text}
use offckb.Value.{Value}
use offckb.ConfigEditor.{Platform, Editor, EditError, unprintable}
use offckb.ConfigEditor.Save.{
  Entry, file, Disk, update, Effect, write, rename, apply, rename_to, temp_path,
  write_toml_file_atomic, write_both, if_valid, validate_before_save, save,
}

-- The disks that a run of the effects may leave: it stops before an effect, by an error or the end
-- of the process, or within a write, which then leaves any content.
pub data Runs : List Effect → Disk → Disk → Type 0 where
  stop : {es : List Effect} {d : Disk} → Runs es d d
  torn :
      {path content : Text} {es : List Effect} {d : Disk} (part : Text)
      → Runs (write path content ∷ es) d (update path (some (file part)) d)
  step :
      {x : Effect} {es : List Effect} {d d' d'' : Disk}
      → apply x d ≡ some d'
      → Runs es d' d''
      → Runs (x ∷ es) d d''

update_ne : (path q : Text) (x : Option Entry) (d : Disk) → path ≢ q → update path x d q ≡ d q
update_ne path q x d h = ground (arith, list_eqb_iff path q)

update_self : (path : Text) (x : Option Entry) (d : Disk) → update path x d path ≡ x
update_self path x d = rw (list_eqb_refl path)

temp_path-ne : (path : Text) → temp_path path ≢ path
unfolding temp_path text
temp_path-ne path h = absurd (omega (arith, ap length h, length-append path (text ".tmp")))

-- What one replaced file leaves: a run that ends within it changed only the temporary path, and
-- a longer one goes on from the disk where the file is complete and the temporary path is free.
replaced : Text → Text → Disk → Disk
replaced path content d =
    update path (some (file content))
      (update (temp_path path) none (update (temp_path path) (some (file content)) d))

Keeps : Text → Disk → Disk → Type 0
Keeps path d d' = (q : Text) → temp_path path ≢ q → d' q ≡ d q

apply-rename :
    (path content : Text) (d : Disk)
    → apply (rename (temp_path path) path) (update (temp_path path) (some (file content)) d)
      ≡ some (replaced path content d)
unfolding replaced apply
apply-rename path content d =
    ap (rename_to (temp_path path) path (update (temp_path path) (some (file content)) d))
      (update_self (temp_path path) (some (file content)) d)

replaced-Runs :
    {path content : Text} {rest : List Effect} {d d' : Disk}
    → Runs (write (temp_path path) content ∷ rename (temp_path path) path ∷ rest) d d'
    → Keeps path d d' ⊎ Runs rest (replaced path content d) d'
unfolding Keeps apply
replaced-Runs stop = inl (λ q h. refl)
replaced-Runs {path} {content} {rest} {d} (torn part) =
    inl (λ q h. update_ne (temp_path path) q (some (file part)) d h)
replaced-Runs {path} {content} {rest} {d} (step h stop) = inl (λ q n.
    ap (λ t. t q) (sym (some-injective _ _ h))
    ∙ update_ne (temp_path path) q (some (file content)) d n)
replaced-Runs {path} {content} {rest} {d} (step h (step k r)) = inr (
    rw
      (some-injective _ _ (
        sym (apply-rename path content d)
        ∙ ap (apply (rename (temp_path path) path)) (some-injective _ _ h)
        ∙ k))
      r)

replaced_self :
    (path content : Text) (d : Disk) → replaced path content d path ≡ some (file content)
unfolding replaced
replaced_self path content d = rw (list_eqb_refl path)

replaced_ne :
    (path content q : Text) (d : Disk)
    → path ≢ q
    → temp_path path ≢ q
    → replaced path content d q ≡ d q
unfolding replaced
replaced_ne path content q d h k =
    update_ne path q (some (file content))
      (update (temp_path path) none (update (temp_path path) (some (file content)) d)) h
    ∙ update_ne (temp_path path) q none (update (temp_path path) (some (file content)) d) k
    ∙ update_ne (temp_path path) q (some (file content)) d k

-- A run of a list of effects to its end.
abbrev apply_next : (Disk → Option Disk) → Option Disk → Option Disk
apply_next f none = none
apply_next f (some d) = f d

unfoldable pub apply_all : List Effect → Disk → Option Disk
unfolding apply
apply_all [] d = some d
apply_all (x ∷ es) d = apply_next (apply_all es) (apply x d)

-- The file is as it was, or holds the document as printed.
abbrev pub IsAsBefore : Text → Disk → Disk → Type 0
IsAsBefore path d d' = d' path ≡ d path

abbrev pub IsPrinted : Platform → Value → Text → Disk → Type 0
IsPrinted p v path d' =
    (content : Text) × (p.stringify_toml v ≡ some content) × (d' path ≡ some (file content))

-- The ways to leave the two files.
pub Left : Platform → Editor → Disk → Disk → Type 0
Left p e d d' =
    (IsAsBefore e.ckb_toml_path d d' × IsAsBefore e.miner_toml_path d d')
    ⊎ (IsPrinted p e.ckb_config e.ckb_toml_path d'
        × (IsAsBefore e.miner_toml_path d d' ⊎ IsPrinted p e.miner_config e.miner_toml_path d'))

-- What a save that is not interrupted leaves, by the error that it ends with.
pub Ends : Platform → Editor → Disk → Disk → Option EditError → Type 0
Ends p e d d' none =
    IsPrinted p e.ckb_config e.ckb_toml_path d' × IsPrinted p e.miner_config e.miner_toml_path d'
Ends p e d d' (some error) =
    ((IsAsBefore e.ckb_toml_path d d' × IsAsBefore e.miner_toml_path d d')
      × ((validate_before_save p e ≡ err error)
          ⊎ ((p.stringify_toml e.ckb_config ≡ none) × (error ≡ unprintable e.ckb_toml_path))))
    ⊎ ((IsPrinted p e.ckb_config e.ckb_toml_path d' × IsAsBefore e.miner_toml_path d d')
        × ((p.stringify_toml e.miner_config ≡ none) × (error ≡ unprintable e.miner_toml_path)))

pub record IsApart (e : Editor) : Type 0 where
  pub files : e.ckb_toml_path ≢ e.miner_toml_path
  pub ckb_temp : temp_path e.ckb_toml_path ≢ e.miner_toml_path
  pub miner_temp : temp_path e.miner_toml_path ≢ e.ckb_toml_path

pub Saves : Platform → Editor → Disk → List Effect × Option EditError → Type 0
Saves p e d (effects, error) =
    ((d' : Disk) → Runs effects d d' → Left p e d d')
    × (d' : Disk) × (apply_all effects d ≡ some d')
    × Ends p e d d' error

ended : {d d' : Disk} (q : Text) → Runs [] d d' → d' q ≡ d q
ended q stop = refl

apply_all-replaced :
    (path content : Text) (rest : List Effect) (d : Disk)
    → apply_all (write (temp_path path) content ∷ rename (temp_path path) path ∷ rest) d
      ≡ apply_all rest (replaced path content d)
unfolding apply_all apply
apply_all-replaced path content rest d =
    ap (apply_next (apply_all rest)) (apply-rename path content d)

nothing-Saves :
    (p : Platform) (e : Editor) (d : Disk) (error : EditError)
    → (validate_before_save p e ≡ err error)
      ⊎ ((p.stringify_toml e.ckb_config ≡ none) × (error ≡ unprintable e.ckb_toml_path))
    → Saves p e d ([], some error)
unfolding Saves Left Ends apply_all
nothing-Saves p e d error why = (
  λ d' r. inl (ended e.ckb_toml_path r, ended e.miner_toml_path r),
  d,
  refl,
  inl ((refl, refl), why),
)

-- The effects that replace one file.
abbrev replacing : Text → Text → List Effect
replacing path content = write (temp_path path) content ∷ rename (temp_path path) path ∷ []

first_only-Saves :
    (p : Platform) (e : Editor) (d : Disk) (c : Text)
    → IsApart e
    → p.stringify_toml e.ckb_config ≡ some c
    → p.stringify_toml e.miner_config ≡ none
    → Saves p e d (replacing e.ckb_toml_path c, some (unprintable e.miner_toml_path))
unfolding Saves Left Ends Keeps apply_all
first_only-Saves p e d c a h k =
    let d1 = replaced e.ckb_toml_path c d in
    let miner = replaced_ne e.ckb_toml_path c e.miner_toml_path d a.files a.ckb_temp in
    let ckb = replaced_self e.ckb_toml_path c d in
    (
      λ d' r. elim (replaced-Runs r) [
        | inl same ↦
            inl (
              same e.ckb_toml_path (temp_path-ne e.ckb_toml_path),
              same e.miner_toml_path a.ckb_temp,
            )
        | inr s ↦
            inr ((c, h, ended e.ckb_toml_path s ∙ ckb), inl (ended e.miner_toml_path s ∙ miner))
      ],
      d1,
      apply_all-replaced e.ckb_toml_path c [] d,
      inr (((c, h, ckb), miner), (k, refl)),
    )

both-Saves :
    (p : Platform) (e : Editor) (d : Disk) (c m : Text)
    → IsApart e
    → p.stringify_toml e.ckb_config ≡ some c
    → p.stringify_toml e.miner_config ≡ some m
    → Saves p e d (replacing e.ckb_toml_path c ++ replacing e.miner_toml_path m, none)
unfolding Saves Left Ends Keeps apply_all
both-Saves p e d c m a h k =
    let d1 = replaced e.ckb_toml_path c d in
    let miner = replaced_ne e.ckb_toml_path c e.miner_toml_path d a.files a.ckb_temp in
    let ckb = replaced_self e.ckb_toml_path c d in
    let last =
      replaced_ne e.miner_toml_path m e.ckb_toml_path d1 (λ t. a.files (sym t)) a.miner_temp
      ∙ ckb in
    (
      λ d' r. elim (replaced-Runs r) [
        | inl same ↦
            inl (
              same e.ckb_toml_path (temp_path-ne e.ckb_toml_path),
              same e.miner_toml_path a.ckb_temp,
            )
        | inr s ↦ elim (replaced-Runs s) [
          | inl same ↦ inr (
            (c, h, same e.ckb_toml_path a.miner_temp ∙ ckb),
            inl (same e.miner_toml_path (temp_path-ne e.miner_toml_path) ∙ miner),
          )
          | inr t ↦ inr (
            (c, h, ended e.ckb_toml_path t ∙ last),
            inr (m, k, ended e.miner_toml_path t ∙ replaced_self e.miner_toml_path m d1),
          )
        ]
      ],
      replaced e.miner_toml_path m d1,
      apply_all-replaced e.ckb_toml_path c (replacing e.miner_toml_path m) d
          ∙ apply_all-replaced e.miner_toml_path m [] d1,
      ((c, h, last), (m, k, replaced_self e.miner_toml_path m d1)),
    )

write_toml_file_atomic-some :
    (p : Platform) (path content : Text) (v : Value)
    → p.stringify_toml v ≡ some content
    → write_toml_file_atomic p path v ≡ some (replacing path content)
unfolding write_toml_file_atomic
write_toml_file_atomic-some p path content v h = rw (h, write_toml_file_atomic)

write_toml_file_atomic-none :
    (p : Platform) (path : Text) (v : Value)
    → p.stringify_toml v ≡ none
    → write_toml_file_atomic p path v ≡ none
unfolding write_toml_file_atomic
write_toml_file_atomic-none p path v h = rw (h, write_toml_file_atomic)

write_both-Saves :
    (p : Platform) (e : Editor) (d : Disk)
    → IsApart e
    → Saves p e d (
        write_both e
          (write_toml_file_atomic p e.ckb_toml_path e.ckb_config)
          (write_toml_file_atomic p e.miner_toml_path e.miner_config))
write_both-Saves p e d a = elim (Option-cases (p.stringify_toml e.ckb_config)) [
  | inl h ↦
      rw (write_toml_file_atomic-none p e.ckb_toml_path e.ckb_config h)
        (nothing-Saves p e d (unprintable e.ckb_toml_path) (inr (h, refl)))
  | inr (c, h) ↦ elim (Option-cases (p.stringify_toml e.miner_config)) [
    | inl k ↦
        rw
          (
            write_toml_file_atomic-some p e.ckb_toml_path c e.ckb_config h,
            write_toml_file_atomic-none p e.miner_toml_path e.miner_config k,
          )
          (first_only-Saves p e d c a h k)
    | inr (m, k) ↦
        rw
          (
            write_toml_file_atomic-some p e.ckb_toml_path c e.ckb_config h,
            write_toml_file_atomic-some p e.miner_toml_path m e.miner_config k,
          )
          (both-Saves p e d c m a h k)
  ]
]

if_valid-Saves :
    (p : Platform) (e : Editor) (d : Disk) (written : List Effect × Option EditError)
    (r : Result EditError (Unit {0}))
    → validate_before_save p e ≡ r
    → Saves p e d written
    → Saves p e d (if_valid written r)
if_valid-Saves p e d written (err error) h w = nothing-Saves p e d error (inl h)
if_valid-Saves p e d written (ok _) h w = w

-- A save that is interrupted at any point, also within a write, leaves both files as they were, or
-- the first one printed in full and the second one as it was or printed in full. One that goes on
-- to its end and throws nothing leaves both documents as printed. One that throws leaves both files
-- as they were, where the checks refused the configuration or the first document cannot be printed,
-- or the first one printed and the second one as it was, where the second document cannot be
-- printed. The two files, and each of them and the temporary file of the other, are at different
-- paths.
pub save_atomic : (p : Platform) (e : Editor) (d : Disk) → IsApart e → Saves p e d (save p e)
unfolding save
save_atomic p e d a =
    if_valid-Saves p e d
      (write_both e (write_toml_file_atomic p e.ckb_toml_path e.ckb_config)
        (write_toml_file_atomic p e.miner_toml_path e.miner_config))
      (validate_before_save p e) refl (write_both-Saves p e d a)
