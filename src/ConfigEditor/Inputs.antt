-- ===== src/ConfigEditor/Inputs.antt =====
-- The functions of src/devnet/config-editor.ts that check and read typed text.
pub mod Laws
use offckb.Base.{
  ℕ, zero, suc, ◌+◌, Bool, true, false, ◌&&◌, Option, none, some, List, [], ◌∷◌, map, ◌||◌, leb,
  ltb, eqb, if◌then◌else◌, ◌==◌, text_eq, length, drop, every, Result, ok, err,
}
use offckb.Base.Text.{Text, text, trim, lower, contains, is_empty}
use offckb.Value.{
  pos, negsuc, Number, nan, infinity, integer, fraction, Value, null, bool, num, str, arr, obj,
  items,
}
use offckb.ConfigEditor.{Platform, EditError, empty_value, bad_boolean, not_finite}

-- `s.lastIndexOf(c)`, where `none` is -1.
unfoldable pub last_index_of : ℕ → Text → Option ℕ
last_index_of c [] = none
last_index_of c (d ∷ s) = elim (last_index_of c s) [
  | some i ↦ some (suc i)
  | none ↦ if eqb d c then some 0 else none
]

abbrev pub is_tcp_port : Number → Bool
is_tcp_port (integer (pos n)) = ltb 0 n && leb n 65535
is_tcp_port _ = false

abbrev pub is_positive_integer : Number → Bool
is_positive_integer (integer (pos n)) = ltb 0 n
is_positive_integer _ = false

abbrev pub is_finite : Number → Bool
is_finite nan = false
is_finite (infinity _) = false
is_finite _ = true

unfoldable pub normalize_boolean_input : Text → Option Bool
normalize_boolean_input value =
    let normalized = lower (trim value) in
    if contains (map text ("true" ∷ "1" ∷ "yes" ∷ "y" ∷ "on" ∷ [])) normalized
    then some true
    else if contains (map text ("false" ∷ "0" ∷ "no" ∷ "n" ∷ "off" ∷ [])) normalized
    then some false
    else none

-- `isTomlPrimitive`
abbrev pub is_primitive : Value → Bool
is_primitive (str _) = true
is_primitive (num _) = true
is_primitive (bool _) = true
is_primitive _ = false

abbrev pub is_non_empty_string : Value → Bool
is_non_empty_string (str s) = if is_empty (trim s) then false else true
is_non_empty_string _ = false

abbrev pub is_string : Value → Bool
is_string (str _) = true
is_string _ = false

abbrev pub is_string_array : Value → Bool
is_string_array (arr vs) = every is_string (items vs)
is_string_array _ = false

module _ (p : Platform) where
  -- `separator <= 0 || separator === trimmed.length - 1` refuses, then the port is read.
  unfoldable pub valid_separator : Text → Option ℕ → Bool
  valid_separator trimmed none = false
  valid_separator trimmed (some separator) =
      if eqb separator 0 || eqb (suc separator) (length trimmed)
      then false
      else is_tcp_port (p.to_number (drop (suc separator) trimmed))

  unfoldable pub validate_host_port : Text → Bool
  unfolding last_index_of valid_separator
  validate_host_port value =
      let trimmed = trim value in valid_separator trimmed (last_index_of b':' trimmed)

  unfoldable pub validate_http_url : Text → Bool
  validate_http_url value = elim (p.url_protocol value) [
    | none ↦ false
    | some protocol ↦ protocol == text "http:" || protocol == text "https:"
  ]

  unfoldable pub parse_value_by_existing_type : Text → Value → Result EditError Value
  unfolding normalize_boolean_input
  parse_value_by_existing_type raw (bool _) = elim (normalize_boolean_input raw) [
    | none ↦ err bad_boolean
    | some b ↦ ok (bool b)
  ]
  parse_value_by_existing_type raw (num _) =
      let parsed = p.to_number (trim raw) in
      if is_finite parsed then ok (num parsed) else err not_finite
  parse_value_by_existing_type raw _ =
      let trimmed = trim raw in if is_empty trimmed then err empty_value else ok (str trimmed)

  unfoldable pub parse_input_as_toml_primitive : Text → Result EditError Value
  unfolding normalize_boolean_input
  parse_input_as_toml_primitive raw =
      let trimmed = trim raw in
      let number = p.to_number trimmed in
      if is_empty trimmed then err empty_value else elim (normalize_boolean_input trimmed) [
        | some b ↦ ok (bool b)
        | none ↦ if is_finite number then ok (num number) else ok (str trimmed)
      ]
