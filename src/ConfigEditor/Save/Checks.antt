-- ===== src/ConfigEditor/Save/Checks.antt =====
-- What `validateBeforeSave` accepts, described apart from the order of its checks.
use offckb.Base.{
  ◌≡◌, ◌≢◌, ◌↔◌, ◌⊎◌, inl, inr, refl, ap, sym, ◌∙◌, Bool, true, false, not, ◌&&◌, ◌||◌, none, some,
  Option-cases, list_eqb_iff, ◌==◌, text_eq, List, [], ◌∷◌, map, every, any, All, ok, arith,
}
use offckb.Base.Text.{Text, text, trim, contains}
use offckb.Value.{Value, Items, null, bool, num, str, arr, obj, items}
use offckb.Value.Paths.{get_by_path}
use offckb.ConfigEditor.{Platform, Editor}
use offckb.ConfigEditor.Inputs.{is_non_empty_string, is_string, is_string_array, validate_http_url}
use offckb.ConfigEditor.Inputs.Laws.{IsHostPort}
use offckb.ConfigEditor.Save.{
  require_path, string_of, strings_of, is_blank, no_items, listen_address_path, modules_path,
  protocols_path, rpc_url_path,
}

-- At a path stands a text, or an array of texts.
abbrev pub HasText : Value → List Text → Text → Type 0
HasText t path s = get_by_path t path ≡ some (str s)

abbrev pub HasTexts : Value → List Text → List Text → Type 0
HasTexts t path names =
    (vs : Items) × (get_by_path t path ≡ some (arr vs)) × (items vs ≡ map str names)

abbrev pub IsNamed : Text → Type 0
IsNamed name = trim name ≢ []

abbrev pub IsHttpUrl : Platform → Text → Type 0
IsHttpUrl p url =
    (protocol : Text) × (p.url_protocol url ≡ some protocol)
    × ((protocol ≡ text "http:") ⊎ (protocol ≡ text "https:"))

or_iff : (a b : Bool) → (a || b ≡ true) ↔ ((a ≡ true) ⊎ (b ≡ true))
or_iff a b = ground arith

validate_http_url-some :
    (p : Platform) (url protocol : Text)
    → p.url_protocol url ≡ some protocol
    → validate_http_url p url ≡ (protocol == text "http:" || protocol == text "https:")
unfolding validate_http_url
validate_http_url-some p url protocol h = rw (h, validate_http_url)

validate_http_url-none :
    (p : Platform) (url : Text) → p.url_protocol url ≡ none → validate_http_url p url ≡ false
unfolding validate_http_url
validate_http_url-none p url h = rw (h, validate_http_url)

pub validate_http_url_iff :
    (p : Platform) (url : Text) → (validate_http_url p url ≡ true) ↔ IsHttpUrl p url
validate_http_url_iff p url = elim (Option-cases (p.url_protocol url)) [
  | inl missing ↦
      let refused = validate_http_url-none p url missing in (λ h. cc, λ (protocol, e, which). cc)
  | inr (protocol, found) ↦
      let is = validate_http_url-some p url protocol found in
      (
        λ h. (
          protocol,
          found,
          elim ((or_iff _ _).0 (sym is ∙ h)) [
            | inl http ↦ inl ((list_eqb_iff _ _).0 http)
            | inr https ↦ inr ((list_eqb_iff _ _).0 https)
          ],
        ),
        λ (other, e, which).
            let same : other ≡ protocol = cc in
            is
            ∙ (or_iff _ _).1 (elim which [
              | inl http ↦ inl ((list_eqb_iff _ _).1 (sym same ∙ http))
              | inr https ↦ inr ((list_eqb_iff _ _).1 (sym same ∙ https))
            ]),
      )
]

-- A configuration that can be saved.
pub record IsSavable (p : Platform) (e : Editor) : Type 0 where
  pub listen_address : Text
  pub modules : List Text
  pub protocols : List Text
  pub rpc_url : Text
  pub has_listen_address : HasText e.ckb_config listen_address_path listen_address
  pub is_host_port : IsHostPort p (trim listen_address)
  pub has_modules : HasTexts e.ckb_config modules_path modules
  pub some_module : modules ≢ []
  pub modules_named : All IsNamed modules
  pub has_protocols : HasTexts e.ckb_config protocols_path protocols
  pub has_sync : contains protocols (text "Sync") ≡ true
  pub has_identify : contains protocols (text "Identify") ≡ true
  pub protocols_named : All IsNamed protocols
  pub has_rpc_url : HasText e.miner_config rpc_url_path rpc_url
  pub url_named : IsNamed rpc_url
  pub is_http : IsHttpUrl p rpc_url

pub require_path_iff :
    (t : Value) (path : List Text) (test : Value → Bool) (m : Text) (v : Value)
    → (require_path t path test m ≡ ok v) ↔ (get_by_path t path ≡ some v) × (test v ≡ true)
unfolding require_path
require_path_iff t path test m v = ground arith

is_blank_iff : (s : Text) → (is_blank s ≡ false) ↔ IsNamed s
is_blank_iff s = ground arith

is_non_empty_string_sound :
    (v : Value) → is_non_empty_string v ≡ true → (v ≡ str (string_of v)) × IsNamed (string_of v)
is_non_empty_string_sound (str s) h = (refl, (is_blank_iff s).0 (ground arith))
is_non_empty_string_sound null h = absurd (ground arith)
is_non_empty_string_sound (bool b) h = absurd (ground arith)
is_non_empty_string_sound (num n) h = absurd (ground arith)
is_non_empty_string_sound (arr vs) h = absurd (ground arith)
is_non_empty_string_sound (obj fs) h = absurd (ground arith)

pub is_non_empty_string_complete : (s : Text) → IsNamed s → is_non_empty_string (str s) ≡ true
is_non_empty_string_complete s h = ground (arith, is_blank_iff s)

pub any-is_blank_iff : (names : List Text) → (not (any is_blank names) ≡ true) ↔ All IsNamed names
any-is_blank_iff [] = (λ h. tt, λ h. refl)
any-is_blank_iff (n ∷ ns) = ground (arith, is_blank_iff n, any-is_blank_iff ns)

strings_sound : (vs : List Value) → every is_string vs ≡ true → vs ≡ map str (map string_of vs)
strings_sound [] h = refl
strings_sound (str s ∷ vs) h = ap (λ t. str s ∷ t) (strings_sound vs h)
strings_sound (null ∷ vs) h = absurd (ground arith)
strings_sound (bool b ∷ vs) h = absurd (ground arith)
strings_sound (num n ∷ vs) h = absurd (ground arith)
strings_sound (arr ws ∷ vs) h = absurd (ground arith)
strings_sound (obj fs ∷ vs) h = absurd (ground arith)

strings_complete :
    (ns : List Text) → (every is_string (map str ns) ≡ true) × (map string_of (map str ns) ≡ ns)
strings_complete [] = (refl, refl)
strings_complete (n ∷ ns) = ((strings_complete ns).0, ap (λ t. n ∷ t) ((strings_complete ns).1))

is_string_array_sound :
    (v : Value)
    → is_string_array v ≡ true
    → (vs : Items) × (v ≡ arr vs) × (items vs ≡ map str (strings_of v))
is_string_array_sound (arr vs) h = (vs, refl, strings_sound (items vs) h)
is_string_array_sound null h = absurd (ground arith)
is_string_array_sound (bool b) h = absurd (ground arith)
is_string_array_sound (num n) h = absurd (ground arith)
is_string_array_sound (str s) h = absurd (ground arith)
is_string_array_sound (obj fs) h = absurd (ground arith)

pub is_string_array_complete :
    (vs : Items) (ns : List Text)
    → items vs ≡ map str ns
    → (is_string_array (arr vs) ≡ true) × (strings_of (arr vs) ≡ ns)
is_string_array_complete vs ns h = (
  ap (every is_string) h ∙ (strings_complete ns).0,
  ap (map string_of) h ∙ (strings_complete ns).1,
)

pub no_items_iff : (ns : List Text) → (not (no_items ns) ≡ true) ↔ (ns ≢ [])
no_items_iff [] = ground arith
no_items_iff (n ∷ ns) = ground arith

pub and_iff : (a b : Bool) → (a && b ≡ true) ↔ (a ≡ true) × (b ≡ true)
and_iff a b = ground arith

pub has_text :
    (t : Value) (path : List Text) (m : Text) (v : Value)
    → require_path t path is_non_empty_string m ≡ ok v
    → HasText t path (string_of v) × IsNamed (string_of v)
has_text t path m v h =
    let (found, passes) = (require_path_iff t path is_non_empty_string m v).0 h in
    let (is_str, named) = is_non_empty_string_sound v passes in (found ∙ ap some is_str, named)

pub has_texts :
    (t : Value) (path : List Text) (m : Text) (v : Value)
    → require_path t path is_string_array m ≡ ok v
    → HasTexts t path (strings_of v)
has_texts t path m v h =
    let (found, passes) = (require_path_iff t path is_string_array m v).0 h in
    let (vs, is_arr, texts) = is_string_array_sound v passes in (vs, found ∙ ap some is_arr, texts)
