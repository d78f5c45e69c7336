-- ===== src/Chain/Tests.antt =====
-- Small files of a devnet.
use offckb.Base.{◌≡◌, list_eqb, refl, false, none, some, List, [], ◌∷◌}
use offckb.Base.Text.{Text, text}
use offckb.Value.{obj, field, end}
use offckb.Chain.Lines.{Section}
use offckb.Chain.Migrating.{
  Platform, ConfigFiles, Templates, supports_terminal_rpc_module, migrate_legacy_devnet_rpc_config,
  init_chain_if_needed,
}
use offckb.Chain.Migrating.Laws.{
  OnlyListens, migrate-OnlyListens, IsInitialized, init_chain_if_needed-IsInitialized,
}

abbrev small_lines : List Text
small_lines = text "[rpc]" ∷ text "modules = []" ∷ []

abbrev small_section : Section
small_section = record { start = 0; end' = 2 }

abbrev old_platform : Platform
old_platform = record {
  parse_toml = λ s. some (obj (field (text "rpc") (obj end) end));
  satisfies_terminal = λ v. some false;
}

is_old : supports_terminal_rpc_module old_platform (some (text "0.200.0")) ≡ false
unfolding supports_terminal_rpc_module
is_old = refl

migrate-OnlyListens_example :
    OnlyListens
      (text "[rpc]")
      (migrate_legacy_devnet_rpc_config old_platform (some (text "0.200.0")) (some (text "[rpc]")))
migrate-OnlyListens_example =
    migrate-OnlyListens old_platform (some (text "0.200.0")) (text "[rpc]") is_old

-- The witness above is of a file that changes.
migration_succeeds :
    migrate_legacy_devnet_rpc_config old_platform (some (text "0.200.0")) (some (text "[rpc]"))
    ≡ some (text "[rpc]\ntcp_listen_address = \"127.0.0.1:18114\"")
unfolding migrate_legacy_devnet_rpc_config list_eqb
migration_succeeds = refl

abbrev small_templates : Templates
small_templates = record {
  ckb_toml = text "[rpc]";
  miner_for_devnet = text "m";
  dev_toml = text "d";
}

abbrev no_files : ConfigFiles
no_files = record { ckb_toml = none; miner_toml = some (text "mine"); dev_toml = none }

init_chain_if_needed-IsInitialized_example :
    IsInitialized old_platform none no_files
      (init_chain_if_needed old_platform none small_templates no_files)
init_chain_if_needed-IsInitialized_example =
    init_chain_if_needed-IsInitialized old_platform none small_templates no_files
