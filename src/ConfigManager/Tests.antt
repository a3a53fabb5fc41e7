-- ===== src/ConfigManager/Tests.antt =====
-- Runs of the configuration manager, and its theorems at concrete configurations.
use ocpp_go.Base.{
  ◌<◌, ◌≡◌, ◌≢◌, refl, true, false, none, some, [], ◌∷◌, arith, text_discrete, length,
}
use ocpp_go.Base.Int.{pos}
use ocpp_go.Dict.{lookup}
use ocpp_go.ConfigManager.Memory.{Memory, deref, write, ptr}
use ocpp_go.ConfigManager.Config.{
  Config, ConfigurationKey, key_not_found, wrapped, is_key_not_found, ok, find_key_index, find_from,
  deep_copy_config, deep_copy_keys,
}
use ocpp_go.ConfigManager.Config.Methods.{validate, missing_keys}
use ocpp_go.ConfigManager.Config.Lookup.{find}
use ocpp_go.ConfigManager.Config.Copies.{view, AllWithin}
use ocpp_go.ConfigManager.Manager.{
  ManagerV16, OnUpdateHandler, KeyValidator, returns, new_with, get_configuration, update_key,
  validate_key_locked,
}
use ocpp_go.ConfigManager.Manager.Update.{Atomic, update_key-Atomic}
use ocpp_go.ConfigManager.Manager.Isolation.{
  IsAllocated, get_configuration_isolated, new_with_isolated, update_key-shares,
}
use ocpp_go.ConfigManager.Manager.Mandatory.{IsComplete, here, next, updates, new_with-IsComplete}
use ocpp_go.ConfigManager.Wiring.{
  ChangeConfigurationRequest, confirmed, not_supported, rejected, on_change_configuration,
  on_get_configuration,
}
use ocpp_go.ConfigManager.Wiring.Partition.{known_of, unknown_of, on_get_configuration-partition}
use ocpp_go.ConfigManager.Wiring.Status.{
  Tells, on_change_configuration-Tells, handler_not_found-not_supported, unknown_refused-rejected,
}
use ocpp_go.ConfigManager.Defaults.{
  defaults_of_all, default_configuration_from_profiles, new_manager_v16,
  default_firmware_configuration,
}
use ocpp_go.ConfigManager.Defaults.Complete.{default_configuration-accepted}

abbrev cells : Memory
cells = record { cells = "60" ∷ "1" ∷ [] }

abbrev interval : ConfigurationKey
interval = record { key = "HeartbeatInterval"; readonly = false; value = some 0 }

abbrev connectors : ConfigurationKey
connectors = record { key = "NumberOfConnectors"; readonly = true; value = some 1 }

abbrev config : Config
config = record { version = pos 1; keys = interval ∷ connectors ∷ [] }

-- It writes to its cell and then fails.
abbrev failing : OnUpdateHandler
failing none m = (m, returns none)
failing (some a) m = (write a "9" m, returns (some (wrapped "lookup" key_not_found)))

abbrev refusing : KeyValidator
refusing key value m = false

abbrev manager : ManagerV16
manager = record {
  ocpp_config = config;
  mandatory_keys = "HeartbeatInterval" ∷ [];
  reboot_required_keys = "HeartbeatInterval" ∷ [];
  key_validator = none;
  on_update_handlers = [];
}

abbrev handled : ManagerV16
handled = record manager { on_update_handlers = ("HeartbeatInterval", failing) ∷ [] }

abbrev guarded : ManagerV16
guarded = record manager { key_validator = some refusing }

abbrev request : ChangeConfigurationRequest
request = record { key = "HeartbeatInterval"; value = "30" }

abbrev unknown_request : ChangeConfigurationRequest
unknown_request = record { key = "Unknown"; value = "30" }

request_named : request.key ≢ ""
request_named e = cc

unknown_named : unknown_request.key ≢ ""
unknown_named e = cc

config-valid : validate config manager.mandatory_keys ≡ none
unfolding validate missing_keys find_key_index find_from text_discrete
config-valid = refl

config-IsAllocated : IsAllocated cells config.keys
config-IsAllocated = ((omega arith, omega arith), ((omega arith, omega arith), tt))

update_key-Atomic_example :
    Atomic handled "HeartbeatInterval"
      (some 1)
      cells
      (update_key handled "HeartbeatInterval" (some 1) cells)
update_key-Atomic_example = update_key-Atomic handled "HeartbeatInterval" (some 1) cells

get_configuration_isolated_example :
    let (m', keys) = get_configuration manager cells in
    (view m' keys ≡ view cells config.keys)
    × AllWithin 2 (length m'.cells) keys
    × (view (write 2 "5" m') config.keys ≡ view cells config.keys)
get_configuration_isolated_example =
    get_configuration_isolated manager cells 2 "5" config-IsAllocated (omega arith)

new_with_isolated_example :
    let (m', r) = new_with config manager.mandatory_keys cells in
    (g : ManagerV16) × (r ≡ ok g)
    × (view (write 0 "5" m') g.ocpp_config.keys ≡ view cells config.keys)
new_with_isolated_example =
    new_with_isolated config manager.mandatory_keys cells 0 "5" config-valid config-IsAllocated
      (omega arith)

updated : (update_key manager "HeartbeatInterval" (some 1) cells).2 ≡ returns none
unfolding update_key text_discrete validate_key_locked find_key_index lookup
updated = refl

updated_cells : 1 < length (update_key manager "HeartbeatInterval" (some 1) cells).0.cells
unfolding update_key text_discrete validate_key_locked find_key_index lookup
updated_cells = omega arith

update_key-shares_example :
    let (m', g', _) = update_key manager "HeartbeatInterval" (some 1) cells in
    (k : ConfigurationKey) × (find g'.ocpp_config.keys "HeartbeatInterval" ≡ some k)
    × (deref (write 1 "5" m') k.value ≡ some "5")
update_key-shares_example =
    update_key-shares manager "HeartbeatInterval" 1 "5" cells updated updated_cells

abbrev made : ManagerV16
unfolding deep_copy_config
made = record {
  ocpp_config = (deep_copy_config config cells).1;
  mandatory_keys = manager.mandatory_keys;
  reboot_required_keys = [];
  key_validator = none;
  on_update_handlers = [];
}

made_with : (new_with config manager.mandatory_keys cells).1 ≡ ok made
unfolding new_with validate find_key_index text_discrete made
made_with = refl

new_with-IsComplete_example : IsComplete (update_key made "NumberOfConnectors" none cells).1
new_with-IsComplete_example =
    new_with-IsComplete config manager.mandatory_keys cells made
      (update_key made "NumberOfConnectors" none cells).1 made_with
      (next here (updates made "NumberOfConnectors" none cells))

on_change_configuration-Tells_example :
    let (m', g', a) = on_change_configuration manager (some request) cells in
    Tells manager "HeartbeatInterval" (some (ptr "30" cells).1) g' a
on_change_configuration-Tells_example = on_change_configuration-Tells manager request cells

interval_found : find_key_index handled.ocpp_config.keys request.key ≡ some (interval, 0)
unfolding find_key_index text_discrete
interval_found = refl

failing_there : lookup request.key handled.on_update_handlers ≡ some failing
unfolding lookup text_discrete
failing_there = refl

failing_fails :
    (failing (some (ptr request.value cells).1) (ptr request.value cells).0).1
    ≡ returns (some (wrapped "lookup" key_not_found))
failing_fails = refl

wrapped_is : is_key_not_found (wrapped "lookup" key_not_found) ≡ true
unfolding is_key_not_found
wrapped_is = refl

handler_not_found-not_supported_example :
    (on_change_configuration handled (some request) cells).2 ≡ confirmed not_supported
handler_not_found-not_supported_example =
    handler_not_found-not_supported handled request cells interval 0 failing
      (wrapped "lookup" key_not_found) request_named refl interval_found refl failing_there
      failing_fails wrapped_is

unknown_not_there : find guarded.ocpp_config.keys unknown_request.key ≡ none
unfolding find text_discrete
unknown_not_there = refl

unknown_refused-rejected_example :
    (on_change_configuration guarded (some unknown_request) cells).2 ≡ confirmed rejected
unknown_refused-rejected_example =
    unknown_refused-rejected guarded unknown_request cells refusing unknown_named refl refl
      unknown_not_there

firmware_defaults : defaults_of_all ("FirmwareManagement" ∷ []) ≡ ok default_firmware_configuration
unfolding defaults_of_all text_discrete
firmware_defaults = refl

default_configuration-accepted_example :
    let (m', r) = default_configuration_from_profiles ("FirmwareManagement" ∷ []) cells in
    (c : Config) × (r ≡ ok c)
    × ((g : ManagerV16) × ((new_manager_v16 c ("FirmwareManagement" ∷ []) m').1 ≡ ok g))
default_configuration-accepted_example =
    default_configuration-accepted "FirmwareManagement" [] cells default_firmware_configuration
      firmware_defaults

on_get_configuration-partition_example :
    on_get_configuration manager (some ("Unknown" ∷ "NumberOfConnectors" ∷ [])) cells
    ≡ let (m', known) =
        deep_copy_keys (known_of config.keys ("Unknown" ∷ "NumberOfConnectors" ∷ [])) cells in
      (
        m',
        record {
          configuration_key = known;
          unknown_key = unknown_of config.keys ("Unknown" ∷ "NumberOfConnectors" ∷ []);
        },
      )
on_get_configuration-partition_example =
    on_get_configuration-partition manager "Unknown" ("NumberOfConnectors" ∷ []) cells
