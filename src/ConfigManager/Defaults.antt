-- ===== src/ConfigManager/Defaults.antt =====
-- ocpp1.6/configmanager/defaults.go: the default configurations. Each value is put into a new cell.
pub mod Complete
use ocpp_go.Base.{
  String, ite, Bool, true, false, none, some, List, [], ◌∷◌, ◌++◌, map, text_discrete,
}
use ocpp_go.Base.Int.{pos}
use ocpp_go.ConfigManager.Memory.{Memory, ptr}
use ocpp_go.ConfigManager.Config.{
  Config, ConfigurationKey, Key, Result, ok, err, no_profiles_provided, unknown_profile,
}
use ocpp_go.ConfigManager.Keys.{
  authorize_remote_tx_requests, central_contract_validation_allowed, cert_signing_repeat_times,
  cert_signing_wait_minimum, certificate_signed_max_chain_size, certificate_store_max_length,
  charge_profile_max_stack_level, charging_schedule_allowed_charging_rate_unit,
  charging_schedule_max_periods, clock_aligned_data_interval, connection_time_out,
  connector_phase_rotation, contract_validation_offline, core_profile_name, firmware_profile_name,
  get_configuration_max_keys, get_mandatory_keys_for_profile, heartbeat_interval,
  iso15118_pnc_enabled, iso15118_profile_name, local_auth_list_enabled, local_auth_list_max_length,
  local_auth_profile_name, local_pre_authorize, max_charging_profiles_installed,
  meter_value_sample_interval, meter_values_aligned_data, meter_values_sampled_data,
  number_of_connectors, reset_retries, send_local_list_max_length, smart_charging_profile_name,
  stop_transaction_on_ev_side_disconnect, stop_transaction_on_invalid_id, stop_txn_aligned_data,
  stop_txn_sampled_data, supported_feature_profiles, supported_file_transfer_protocols,
  transaction_message_attempts, transaction_message_retry_interval,
  unlock_connector_on_ev_side_disconnect,
}
use ocpp_go.ConfigManager.Manager.{ManagerV16, new_with}

unfoldable pub new_empty_configuration : Config
new_empty_configuration = record { version = pos 1; keys = [] }

-- One line of a default table: the key, whether it is read-only, and its text.
pub record Default : Type 0 where
  pub key : Key
  pub readonly : Bool
  pub text : String

abbrev row : Key → Bool → String → Default
row key readonly text = record { key = key; readonly = readonly; text = text }

-- `{Key: …, Readonly: …, Value: ptr(…)}` for each line, in order.
unfoldable pub build : List Default → Memory → Memory × List ConfigurationKey
unfolding ptr
build [] m = (m, [])
build (d ∷ ds) m =
    let (m', a) = ptr d.text m in
    let (m'', keys) = build ds m' in
    (m'', record { key = d.key; readonly = d.readonly; value = some a } ∷ keys)

abbrev pub standard_measurands : String
standard_measurands = "Voltage,Current.Import,Power.Active.Import,Energy.Active.Import.Interval,SoC"

abbrev pub default_core_configuration : List Default
default_core_configuration =
    row authorize_remote_tx_requests false "true"
    ∷ row clock_aligned_data_interval false "0"
    ∷ row connection_time_out false "60"
    ∷ row get_configuration_max_keys false "100"
    ∷ row heartbeat_interval false "60"
    ∷ row local_pre_authorize false "false"
    ∷ row meter_values_aligned_data false "true"
    ∷ row meter_values_sampled_data false standard_measurands
    ∷ row meter_value_sample_interval false "20"
    ∷ row number_of_connectors true "1"
    ∷ row reset_retries false "3"
    ∷ row connector_phase_rotation true "Unknown"
    ∷ row stop_transaction_on_ev_side_disconnect false "true"
    ∷ row stop_transaction_on_invalid_id false "true"
    ∷ row stop_txn_aligned_data false standard_measurands
    ∷ row stop_txn_sampled_data false standard_measurands
    ∷ row supported_feature_profiles true "Core"
    ∷ row transaction_message_attempts false "3"
    ∷ row transaction_message_retry_interval false "30"
    ∷ row unlock_connector_on_ev_side_disconnect false "true"
    ∷ []

abbrev pub default_local_auth_configuration : List Default
default_local_auth_configuration =
    row local_auth_list_enabled false "true"
    ∷ row local_auth_list_max_length true "100"
    ∷ row send_local_list_max_length true "100"
    ∷ []

abbrev pub default_smart_charging_configuration : List Default
default_smart_charging_configuration =
    row charge_profile_max_stack_level true "5"
    ∷ row charging_schedule_allowed_charging_rate_unit true "Current,Power"
    ∷ row charging_schedule_max_periods true "6"
    ∷ row max_charging_profiles_installed true "5"
    ∷ []

abbrev pub default_firmware_configuration : List Default
default_firmware_configuration =
    row supported_file_transfer_protocols true "HTTP,HTTPS,FTP,FTPS,SFTP" ∷ []

abbrev pub default_iso15118_configuration : List Default
default_iso15118_configuration =
    row central_contract_validation_allowed false "true"
    ∷ row certificate_signed_max_chain_size true "5"
    ∷ row cert_signing_wait_minimum false "300"
    ∷ row cert_signing_repeat_times false "3"
    ∷ row certificate_store_max_length true "10"
    ∷ row contract_validation_offline false "true"
    ∷ row iso15118_pnc_enabled false "false"
    ∷ []

-- The `switch` on a profile's name.
unfoldable pub defaults_of : String → Result (List Default)
defaults_of profile =
    ite (text_discrete profile core_profile_name) (ok default_core_configuration) (
      ite (text_discrete profile local_auth_profile_name) (ok default_local_auth_configuration) (
        ite (text_discrete profile smart_charging_profile_name)
          (ok default_smart_charging_configuration)
          (ite (text_discrete profile firmware_profile_name) (ok default_firmware_configuration) (
            ite (text_discrete profile iso15118_profile_name) (ok default_iso15118_configuration)
              (err (unknown_profile profile))))))

-- The loop over the profiles; the first unknown one ends it.
unfoldable pub defaults_of_all : List String → Result (List Default)
unfolding defaults_of
defaults_of_all [] = ok []
defaults_of_all (profile ∷ profiles) = elim (defaults_of profile) [
  | err e ↦ err e
  | ok ds ↦ elim (defaults_of_all profiles) [ err e ↦ err e | ok rest ↦ ok (ds ++ rest) ]
]

-- The cells of an earlier profile that a later unknown one leaves behind are garbage: the tables are
-- put together before they are given cells.
unfoldable pub configuration_of : Result (List Default) → Memory → Memory × Result Config
unfolding build
configuration_of (err e) m = (m, err e)
configuration_of (ok ds) m =
    let (m', keys) = build ds m in (m', ok (record { version = pos 1; keys = keys }))

unfoldable pub default_configuration_from_profiles : List String → Memory → Memory × Result Config
unfolding configuration_of
default_configuration_from_profiles [] m = (m, err no_profiles_provided)
default_configuration_from_profiles (profile ∷ profiles) m =
    configuration_of (defaults_of_all (profile ∷ profiles)) m

-- `NewManagerV16`
unfoldable pub new_manager_v16 : Config → List String → Memory → Memory × Result ManagerV16
unfolding new_with
new_manager_v16 default_configuration profiles m =
    new_with default_configuration (get_mandatory_keys_for_profile profiles) m
