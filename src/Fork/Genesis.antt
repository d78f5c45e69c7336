-- ===== src/Fork/Genesis.antt =====
-- The genesis hashes that src/devnet/fork.ts reads in what ckb prints, and the public chains of
-- src/scripts/const.ts.
use offckb.Base.{
  ℕ, zero, suc, Bool, true, ◌&&◌, ◌||◌, Option, none, some, [], ◌∷◌, ◌++◌, if◌then◌else◌, ◌==◌,
  text_eq,
}
use offckb.Base.Text.{Text, text, trim_start, is_space, lower}
use offckb.Logs.{is_terminator}
use offckb.Validators.{is_hex}
use offckb.Chain.Lines.{after_prefix, after_unit, after_blanks}
use offckb.Fork.{ForkSource, mainnet, testnet, custom}

-- That many hexadecimal digits at the front, and the rest.
unfoldable pub hex_digits : ℕ → Text → Option (Text × Text)
unfolding is_hex
hex_digits zero s = some ([], s)
hex_digits (suc n) [] = none
hex_digits (suc n) (c ∷ s) = elim (hex_digits n s) [
  | none ↦ none
  | some (digits, rest) ↦ if is_hex c then some (c ∷ digits, rest) else none
]

-- `0x[0-9a-fA-F]{64}` at the front, in lower case, and the rest.
abbrev pub hash_digits : Option Text → Option (Text × Text)
hash_digits none = none
hash_digits (some s) = elim (hex_digits 64 s) [
  | none ↦ none
  | some (digits, rest) ↦ some (text "0x" ++ lower digits, rest)
]

abbrev pub hash_at : Option Text → Option (Text × Text)
hash_at none = none
hash_at (some s) = hash_digits (after_prefix (text "0x") s)

abbrev pub or_rest : Option (Text × Text) → Option Text → Option Text
or_rest none rest = rest
or_rest (some (hash, after)) rest = some hash

-- `/Genesis Hash:\s*(0x[0-9a-fA-F]{64})/`
unfoldable pub parse_genesis_hash_from_init_output : Text → Option Text
unfolding hex_digits after_prefix trim_start lower text
parse_genesis_hash_from_init_output [] = none
parse_genesis_hash_from_init_output (c ∷ s) =
    or_rest (hash_at (after_blanks (after_prefix (text "Genesis Hash:") (c ∷ s))))
      (parse_genesis_hash_from_init_output s)

-- `\s*$`, where a line may end.
unfoldable pub ends_line : Text → Bool
unfolding is_space
ends_line [] = true
ends_line (c ∷ s) = is_terminator c || is_space c && ends_line s

abbrev pub closed_hash : Option (Text × Text) → Option Text
closed_hash none = none
closed_hash (some (hash, rest)) = elim (after_unit b'"' (some rest)) [
  | none ↦ none
  | some after ↦ if ends_line after then some hash else none
]

-- `\s*genesis\s*=\s*"(0x[0-9a-fA-F]{64})"\s*$` at the front.
abbrev pub genesis_line : Text → Option Text
genesis_line s = closed_hash (
    hash_at (
      after_unit b'"' (
        after_blanks
          (after_unit b'=' (after_blanks (after_prefix (text "genesis") (trim_start s)))))))

abbrev pub or_later : Option Text → Option Text → Option Text
or_later none later = later
or_later (some hash) later = some hash

-- The starts of lines, from the one given.
unfoldable pub line_starts : Text → Option Text
unfolding hex_digits after_prefix trim_start lower text ends_line
line_starts [] = none
line_starts (c ∷ s) =
    let later = line_starts s in if is_terminator c then or_later (genesis_line s) later else later

unfoldable pub parse_genesis_hash_from_list_hashes : Text → Option Text
unfolding line_starts
parse_genesis_hash_from_list_hashes output = or_later (genesis_line output) (line_starts output)

unfoldable pub mainnet_genesis_hash : Text
unfolding text
mainnet_genesis_hash = text "0x92b197aa1fba0f63633922c61c92375c9c074a93e85963554f5499fe1450d0e5"

unfoldable pub testnet_genesis_hash : Text
unfolding text
testnet_genesis_hash = text "0x10639e0895502b5688a6be8cf69460d76541bfa4821629d86d62ba0aae3f9606"

-- `expectedGenesisHash`, where a custom chain has none.
unfoldable pub expected_genesis_hash : ForkSource → Option Text
unfolding mainnet_genesis_hash testnet_genesis_hash
expected_genesis_hash mainnet = some mainnet_genesis_hash
expected_genesis_hash testnet = some testnet_genesis_hash
expected_genesis_hash custom = none

-- `identifyPublicChainByGenesisHash(hash) ?? 'custom'`
unfoldable pub identified_chain : Text → ForkSource
unfolding mainnet_genesis_hash testnet_genesis_hash
identified_chain hash =
    if hash == mainnet_genesis_hash
    then mainnet
    else if hash == testnet_genesis_hash
    then testnet
    else custom
