-- ===== src/ConfigManager/Manager.antt =====
-- ocpp1.6/configmanager/manager.go and wiring.go: the manager and the two handlers of requests.
pub mod Update
pub mod Isolation
pub mod Mandatory
use ocpp_go.Base.{
  ℕ, String, ite, Bool, true, false, Option, none, some, List, [], ◌∷◌, ◌++◌, text_discrete,
  if◌then◌else◌,
}
use ocpp_go.Dict.{Dict, lookup, insert}
use ocpp_go.ConfigManager.Memory.{Memory, Pointer, deref, ptr}
use ocpp_go.ConfigManager.Config.{
  Config, ConfigurationKey, Key, Error, key_not_found, read_only, key_cannot_be_empty, nil_handler,
  key_validation_failed, is_key_not_found, Result, ok, err, contains_key, find_key_index, set_value,
  deep_copy_value, deep_copy_key, deep_copy_keys, deep_copy_config,
}
use ocpp_go.ConfigManager.Config.Methods.{validate, get_configuration_value as value_of}

abbrev pub KeyValidator : Type 0
KeyValidator = Key → Pointer → Memory → Bool

-- How a handler ends: with its error or nil, or by a panic.
pub data Ending : Type 0 where
  returns : Option Error → Ending
  panics : String → Ending

-- A handler may write through the pointer that it is given.
abbrev pub OnUpdateHandler : Type 0
OnUpdateHandler = Pointer → Memory → Memory × Ending

pub record ManagerV16 : Type 0 where
  pub ocpp_config : Config
  pub mandatory_keys : List Key
  pub reboot_required_keys : List Key
  pub key_validator : Option KeyValidator
  pub on_update_handlers : Dict OnUpdateHandler

-- `NewManagerV16`, given the mandatory keys of its profiles.
unfoldable pub new_with : Config → List Key → Memory → Memory × Result ManagerV16
new_with default_configuration mandatory m = elim (validate default_configuration mandatory) [
  | some e ↦ (m, err e)
  | none ↦
      let (m', c) = deep_copy_config default_configuration m in
      (
        m',
        ok (record {
          ocpp_config = c;
          mandatory_keys = mandatory;
          reboot_required_keys = [];
          key_validator = none;
          on_update_handlers = [];
        }),
      )
]

unfoldable pub set_configuration : ManagerV16 → Config → Memory → Memory × ManagerV16 × Option Error
set_configuration g configuration m = elim (validate configuration g.mandatory_keys) [
  | some e ↦ (m, g, some e)
  | none ↦
      let (m', c) = deep_copy_config configuration m in (m', record g { ocpp_config = c }, none)
]

unfoldable pub register_custom_key_validator : ManagerV16 → Option KeyValidator → ManagerV16
register_custom_key_validator g validator = record g { key_validator = validator }

-- A copy of a slice of strings is the list again.
unfoldable pub get_mandatory_keys : ManagerV16 → List Key
get_mandatory_keys g = g.mandatory_keys

-- The loop of `SetMandatoryKeys`.
unfoldable pub add_keys : List Key → List Key → List Key
add_keys present [] = present
add_keys present (key ∷ keys) =
    add_keys (if contains_key present key then present else (present ++ key ∷ [])) keys

unfoldable pub set_mandatory_keys : ManagerV16 → List Key → ManagerV16
unfolding add_keys
set_mandatory_keys g keys = record g { mandatory_keys = add_keys g.mandatory_keys keys }

unfoldable pub set_reboot_required_keys : ManagerV16 → List Key → ManagerV16
set_reboot_required_keys g keys = record g { reboot_required_keys = keys }

unfoldable pub validate_with : Option KeyValidator → Key → Pointer → Memory → Option Error
validate_with none key value m = none
validate_with (some validator) key value m =
    if validator key value m then none else some (key_validation_failed key)

unfoldable pub validate_key_locked : ManagerV16 → Key → Pointer → Memory → Option Error
unfolding validate_with
validate_key_locked g key value m = validate_with g.key_validator key value m

unfoldable pub validate_key : ManagerV16 → Key → Pointer → Memory → Option Error
unfolding validate_key_locked
validate_key g key value m = validate_key_locked g key value m

unfoldable pub store_value : ManagerV16 → ℕ → Pointer → ManagerV16
store_value g index value = record g {
  ocpp_config = record (g.ocpp_config) { keys = set_value g.ocpp_config.keys index value };
}

-- Nil keeps the new value; an error or a panic puts the old one back and goes on.
unfoldable pub settle : Ending → ManagerV16 → ℕ → Pointer → ManagerV16
unfolding store_value
settle (returns none) g index orig_value = g
settle (returns (some e)) g index orig_value = store_value g index orig_value
settle (panics v) g index orig_value = store_value g index orig_value

unfoldable pub run_handler_locked :
    ManagerV16 → OnUpdateHandler → Pointer → ℕ → Pointer → Memory → Memory × ManagerV16 × Ending
unfolding settle
run_handler_locked g handler value index orig_value m =
    let (m', ending) = handler value m in (m', settle ending g index orig_value, ending)

-- After the value is in place: the handler of the key, if there is one.
unfoldable pub notify :
    Option OnUpdateHandler
    → ManagerV16
    → Pointer
    → ℕ
    → Pointer
    → Memory
    → Memory × ManagerV16 × Ending
unfolding run_handler_locked
notify none g value index orig_value m = (m, g, returns none)
notify (some handler) g value index orig_value m =
    run_handler_locked g handler value index orig_value m

unfoldable pub apply_value :
    Option (ConfigurationKey × ℕ)
    → ManagerV16
    → Key
    → Pointer
    → Memory
    → Memory × ManagerV16 × Ending
unfolding notify store_value
apply_value none g key value m = (m, g, returns (some key_not_found))
apply_value (some (original, index)) g key value m =
    if original.readonly
    then (m, g, returns (some read_only))
    else notify (lookup key g.on_update_handlers) (store_value g index value) value index
        original.value m

unfoldable pub after_validation :
    Option Error → ManagerV16 → Key → Pointer → Memory → Memory × ManagerV16 × Ending
unfolding apply_value
after_validation (some e) g key value m = (m, g, returns (some e))
after_validation none g key value m =
    apply_value (find_key_index g.ocpp_config.keys key) g key value m

unfoldable pub update_key_locked :
    ManagerV16 → Key → Pointer → Memory → Memory × ManagerV16 × Ending
unfolding after_validation
update_key_locked g key value m =
    ite (text_discrete key "") (m, g, returns (some key_cannot_be_empty))
      (after_validation (validate_key_locked g key value m) g key value m)

unfoldable pub update_key : ManagerV16 → Key → Pointer → Memory → Memory × ManagerV16 × Ending
unfolding update_key_locked
update_key g key value m = update_key_locked g key value m

unfoldable pub get_configuration : ManagerV16 → Memory → Memory × List ConfigurationKey
unfolding deep_copy_keys
get_configuration g m = deep_copy_keys g.ocpp_config.keys m

abbrev copied : Memory × Pointer → Memory × Result Pointer
copied (m, v) = (m, ok v)

unfoldable pub get_configuration_value : ManagerV16 → Key → Memory → Memory × Result Pointer
unfolding deep_copy_value value_of
get_configuration_value g key m = elim (value_of g.ocpp_config key) [
  | err e ↦ (m, err e)
  | ok value ↦ copied (deep_copy_value (deref m value) m)
]

-- After the lookup of the key.
unfoldable pub register_handler :
    Result Pointer → ManagerV16 → Key → OnUpdateHandler → ManagerV16 × Option Error
register_handler (err e) g key handler = (g, some e)
register_handler (ok _) g key handler =
    (record g { on_update_handlers = insert key handler g.on_update_handlers }, none)

unfoldable pub on_update_key : ManagerV16 → Key → Option OnUpdateHandler → ManagerV16 × Option Error
unfolding value_of register_handler
on_update_key g key none =
    ite (text_discrete key "") (g, some key_cannot_be_empty) (g, some nil_handler)
on_update_key g key (some handler) =
    ite (text_discrete key "") (g, some key_cannot_be_empty)
      (register_handler (value_of g.ocpp_config key) g key handler)
