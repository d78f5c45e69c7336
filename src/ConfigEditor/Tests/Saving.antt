-- ===== src/ConfigEditor/Tests/Saving.antt =====
-- Runs of the checks and of the save.
use offckb.Base.{◌≡◌, ◌↔◌, refl, true, none, list_eqb, ok}
use offckb.Base.Text.{text, is_digit, starts_with, trim}
use offckb.Value.{lookup, items}
use offckb.Value.Paths.{get_key, get_by_path}
use offckb.Base.{length}
use offckb.ConfigEditor.Inputs.{validate_host_port, last_index_of, valid_separator}
use offckb.ConfigEditor.Save.{validate_before_save}
use offckb.ConfigEditor.Save.Checks.{IsSavable}
use offckb.ConfigEditor.Save.Accepted.{validate_before_save_iff}
use offckb.ConfigEditor.Save.{
  require_path, listen_address_path, modules_path, protocols_path, rpc_url_path, Disk, temp_path,
  write_toml_file_atomic, save,
}
use offckb.ConfigEditor.Inputs.{validate_http_url}
use offckb.ConfigEditor.Inputs.Laws.{IsHostPort, validate_host_port_iff}
use offckb.Base.{arith, ap}
use offckb.ConfigEditor.Save.Atomic.{IsApart, Saves, save_atomic}
use offckb.ConfigEditor.Tests.{small_platform, small_editor}

validate_before_save_iff_example :
    (validate_before_save small_platform small_editor ≡ ok tt)
    ↔ IsSavable small_platform small_editor
validate_before_save_iff_example = validate_before_save_iff small_platform small_editor

small_editor-IsApart : IsApart small_editor
unfolding temp_path text
small_editor-IsApart = record {
  files = λ h. absurd (omega (arith, ap length h));
  ckb_temp = λ h. absurd (omega (arith, ap length h));
  miner_temp = λ h. absurd (omega (arith, ap length h));
}

abbrev empty_disk : Disk
empty_disk = λ _. none

save_small : (save small_platform small_editor).1 ≡ none
unfolding save validate_before_save require_path listen_address_path modules_path protocols_path
    rpc_url_path get_by_path get_key lookup text list_eqb trim validate_host_port validate_http_url
    last_index_of valid_separator is_digit starts_with items write_toml_file_atomic
save_small = refl

save_atomic_example :
    Saves small_platform small_editor empty_disk (save small_platform small_editor)
save_atomic_example = save_atomic small_platform small_editor empty_disk small_editor-IsApart

validate_host_port_iff_example :
    (validate_host_port small_platform (text " a:80 ") ≡ true)
    ↔ IsHostPort small_platform (trim (text " a:80 "))
validate_host_port_iff_example = validate_host_port_iff small_platform (text " a:80 ")
