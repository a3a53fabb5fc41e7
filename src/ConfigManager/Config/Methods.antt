-- ===== src/ConfigManager/Config/Methods.antt =====
-- The methods of `Config`, ocpp1.6/configmanager/configuration.go.
use ocpp_go.Base.{String, Bool, Option, none, some, List, [], ◌∷◌, if◌then◌else◌}
use ocpp_go.Base.Int.{ℤ}
use ocpp_go.ConfigManager.Memory.{Pointer}
use ocpp_go.ConfigManager.Config.{
  Config, ConfigurationKey, Key, Error, key_not_found, read_only, missing_mandatory_keys, Result,
  ok, err, find_key_index, set_value, set_readonly,
}

unfoldable pub update_key : Config → String → Pointer → Config × Option Error
update_key c key value = elim (find_key_index c.keys key) [
  | none ↦ (c, some key_not_found)
  | some (item, index) ↦
      if item.readonly
      then (c, some read_only)
      else (record c { keys = set_value c.keys index value }, none)
]

unfoldable pub update_key_readability : Config → String → Bool → Config × Option Error
update_key_readability c key readonly = elim (find_key_index c.keys key) [
  | none ↦ (c, some key_not_found)
  | some (item, index) ↦ (record c { keys = set_readonly c.keys index readonly }, none)
]

unfoldable pub get_configuration_value : Config → String → Result Pointer
get_configuration_value c key = elim (find_key_index c.keys key) [
  | none ↦ err key_not_found
  | some (item, _) ↦ ok item.value
]

unfoldable pub get_config : Config → List ConfigurationKey
get_config c = c.keys

unfoldable pub get_version : Config → ℤ
get_version c = c.version

unfoldable pub set_version : Config → ℤ → Config
set_version c version = record c { version = version }

-- The loop of `Validate`: the mandatory keys that are not there, in their order.
unfoldable pub missing_keys : List ConfigurationKey → List Key → List String
missing_keys keys [] = []
missing_keys keys (key ∷ mandatory) =
    let missing = missing_keys keys mandatory in
    elim (find_key_index keys key) [ none ↦ key ∷ missing | some _ ↦ missing ]

abbrev pub complain : List String → Option Error
complain [] = none
complain (key ∷ missing) = some (missing_mandatory_keys (key ∷ missing))

unfoldable pub validate : Config → List Key → Option Error
unfolding missing_keys
validate c mandatory = complain (missing_keys c.keys mandatory)
