-- ===== src/ConfigManager/Wiring.antt =====
-- ocpp1.6/configmanager/wiring.go: the answers to GetConfiguration and ChangeConfiguration. A request
-- or confirmation pointer that may be nil is an `Option`; the statuses are those of
-- ocpp1.6/core/change_configuration.go.
pub mod Status
pub mod Partition
use ocpp_go.Base.{String, Bool, true, false, Option, none, some, List, [], ◌∷◌, if◌then◌else◌}
use ocpp_go.ConfigManager.Memory.{Memory, Pointer, ptr}
use ocpp_go.ConfigManager.Config.{
  ConfigurationKey, Key, Error, is_key_not_found, contains_key, find_key_index, deep_copy_key,
  deep_copy_keys,
}
use ocpp_go.ConfigManager.Manager.{ManagerV16, Ending, returns, panics, update_key_locked}

pub record GetConfigurationConfirmation : Type 0 where
  pub configuration_key : List ConfigurationKey
  pub unknown_key : List String

-- The loop of `OnGetConfiguration` over the requested keys.
unfoldable pub split_keys :
    List ConfigurationKey → List String → Memory → Memory × List ConfigurationKey × List String
split_keys keys [] m = (m, [], [])
split_keys keys (k ∷ requested) m = elim (find_key_index keys k) [
  | none ↦ let (m', known, unknown) = split_keys keys requested m in (m', known, k ∷ unknown)
  | some (item, _) ↦
      let (m', item') = deep_copy_key item m in
      let (m'', known, unknown) = split_keys keys requested m' in (m'', item' ∷ known, unknown)
]

unfoldable pub on_get_configuration :
    ManagerV16 → Option (List String) → Memory → Memory × GetConfigurationConfirmation
unfolding deep_copy_keys split_keys
on_get_configuration g none m = (m, record { configuration_key = []; unknown_key = [] })
on_get_configuration g (some []) m =
    let (m', keys) = deep_copy_keys g.ocpp_config.keys m in
    (m', record { configuration_key = keys; unknown_key = [] })
on_get_configuration g (some (k ∷ requested)) m =
    let (m', known, unknown) = split_keys g.ocpp_config.keys (k ∷ requested) m in
    (m', record { configuration_key = known; unknown_key = unknown })

pub data ConfigurationStatus : Type 0 where
  accepted rejected reboot_required not_supported : ConfigurationStatus

-- The confirmation's status, or the panic that goes on through the method.
pub data Answer : Type 0 where
  confirmed : ConfigurationStatus → Answer
  panicked : String → Answer

pub record ChangeConfigurationRequest : Type 0 where
  pub key : String
  pub value : String

unfoldable pub answer : ManagerV16 → Key → Ending → Answer
answer g key (returns none) =
    confirmed (if contains_key g.reboot_required_keys key then reboot_required else accepted)
answer g key (returns (some e)) = confirmed (if is_key_not_found e then not_supported else rejected)
answer g key (panics v) = panicked v

unfoldable pub on_change_configuration :
    ManagerV16 → Option ChangeConfigurationRequest → Memory → Memory × ManagerV16 × Answer
unfolding answer ptr
on_change_configuration g none m = (m, g, confirmed rejected)
on_change_configuration g (some req) m =
    let (m', value) = ptr req.value m in
    let (m'', g', ending) = update_key_locked g req.key (some value) m' in
    (m'', g', answer g' req.key ending)
