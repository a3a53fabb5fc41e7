-- ===== src/ConfigManager/Keys.antt =====
-- ocpp1.6/configmanager/keys.go: the key names, and the mandatory keys of each profile. The names of
-- the profiles are those of ocpp1.6/core, smartcharging, localauth and firmware.
use ocpp_go.Base.{String, ite, List, [], ◌∷◌, ◌++◌, text_discrete}
use ocpp_go.ConfigManager.Config.{Key}

abbrev pub core_profile_name : String
core_profile_name = "Core"

abbrev pub smart_charging_profile_name : String
smart_charging_profile_name = "SmartCharging"

abbrev pub local_auth_profile_name : String
local_auth_profile_name = "LocalAuthListManagement"

abbrev pub firmware_profile_name : String
firmware_profile_name = "FirmwareManagement"

abbrev pub iso15118_profile_name : String
iso15118_profile_name = "ISO15118"

abbrev pub allow_offline_tx_for_unknown_id : Key
allow_offline_tx_for_unknown_id = "AllowOfflineTxForUnknownId"

abbrev pub authorization_cache_enabled : Key
authorization_cache_enabled = "AuthorizationCacheEnabled"

abbrev pub authorize_remote_tx_requests : Key
authorize_remote_tx_requests = "AuthorizeRemoteTxRequests"

abbrev pub blink_repeat : Key
blink_repeat = "BlinkRepeat"

abbrev pub clock_aligned_data_interval : Key
clock_aligned_data_interval = "ClockAlignedDataInterval"

abbrev pub connection_time_out : Key
connection_time_out = "ConnectionTimeOut"

abbrev pub get_configuration_max_keys : Key
get_configuration_max_keys = "GetConfigurationMaxKeys"

abbrev pub heartbeat_interval : Key
heartbeat_interval = "HeartbeatInterval"

abbrev pub light_intensity : Key
light_intensity = "LightIntensity"

abbrev pub local_authorize_offline : Key
local_authorize_offline = "LocalAuthorizeOffline"

abbrev pub local_pre_authorize : Key
local_pre_authorize = "LocalPreAuthorize"

abbrev pub max_energy_on_invalid_id : Key
max_energy_on_invalid_id = "MaxEnergyOnInvalidId"

abbrev pub meter_values_aligned_data : Key
meter_values_aligned_data = "MeterValuesAlignedData"

abbrev pub meter_values_aligned_data_max_length : Key
meter_values_aligned_data_max_length = "MeterValuesAlignedDataMaxLength"

abbrev pub meter_values_sampled_data : Key
meter_values_sampled_data = "MeterValuesSampledData"

abbrev pub meter_values_sampled_data_max_length : Key
meter_values_sampled_data_max_length = "MeterValuesSampledDataMaxLength"

abbrev pub meter_value_sample_interval : Key
meter_value_sample_interval = "MeterValueSampleInterval"

abbrev pub minimum_status_duration : Key
minimum_status_duration = "MinimumStatusDuration"

abbrev pub number_of_connectors : Key
number_of_connectors = "NumberOfConnectors"

abbrev pub reset_retries : Key
reset_retries = "ResetRetries"

abbrev pub connector_phase_rotation : Key
connector_phase_rotation = "ConnectorPhaseRotation"

abbrev pub connector_phase_rotation_max_length : Key
connector_phase_rotation_max_length = "ConnectorPhaseRotationMaxLength"

abbrev pub stop_transaction_on_ev_side_disconnect : Key
stop_transaction_on_ev_side_disconnect = "StopTransactionOnEVSideDisconnect"

abbrev pub stop_transaction_on_invalid_id : Key
stop_transaction_on_invalid_id = "StopTransactionOnInvalidId"

abbrev pub stop_txn_aligned_data : Key
stop_txn_aligned_data = "StopTxnAlignedData"

abbrev pub stop_txn_aligned_data_max_length : Key
stop_txn_aligned_data_max_length = "StopTxnAlignedDataMaxLength"

abbrev pub stop_txn_sampled_data : Key
stop_txn_sampled_data = "StopTxnSampledData"

abbrev pub stop_txn_sampled_data_max_length : Key
stop_txn_sampled_data_max_length = "StopTxnSampledDataMaxLength"

abbrev pub supported_feature_profiles : Key
supported_feature_profiles = "SupportedFeatureProfiles"

abbrev pub supported_feature_profiles_max_length : Key
supported_feature_profiles_max_length = "SupportedFeatureProfilesMaxLength"

abbrev pub transaction_message_attempts : Key
transaction_message_attempts = "TransactionMessageAttempts"

abbrev pub transaction_message_retry_interval : Key
transaction_message_retry_interval = "TransactionMessageRetryInterval"

abbrev pub unlock_connector_on_ev_side_disconnect : Key
unlock_connector_on_ev_side_disconnect = "UnlockConnectorOnEVSideDisconnect"

abbrev pub web_socket_ping_interval : Key
web_socket_ping_interval = "WebSocketPingInterval"

abbrev pub local_auth_list_enabled : Key
local_auth_list_enabled = "LocalAuthListEnabled"

abbrev pub local_auth_list_max_length : Key
local_auth_list_max_length = "LocalAuthListMaxLength"

abbrev pub send_local_list_max_length : Key
send_local_list_max_length = "SendLocalListMaxLength"

abbrev pub reserve_connector_zero_supported : Key
reserve_connector_zero_supported = "ReserveConnectorZeroSupported"

abbrev pub supported_file_transfer_protocols : Key
supported_file_transfer_protocols = "SupportedFileTransferProtocols"

abbrev pub charge_profile_max_stack_level : Key
charge_profile_max_stack_level = "ChargeProfileMaxStackLevel"

abbrev pub charging_schedule_allowed_charging_rate_unit : Key
charging_schedule_allowed_charging_rate_unit = "ChargingScheduleAllowedChargingRateUnit"

abbrev pub charging_schedule_max_periods : Key
charging_schedule_max_periods = "ChargingScheduleMaxPeriods"

abbrev pub max_charging_profiles_installed : Key
max_charging_profiles_installed = "MaxChargingProfilesInstalled"

abbrev pub connector_switch_3_to_1_phase_supported : Key
connector_switch_3_to_1_phase_supported = "ConnectorSwitch3to1PhaseSupported"

abbrev pub central_contract_validation_allowed : Key
central_contract_validation_allowed = "CentralContractValidationAllowed"

abbrev pub certificate_signed_max_chain_size : Key
certificate_signed_max_chain_size = "CertificateSignedMaxChainSize"

abbrev pub cert_signing_wait_minimum : Key
cert_signing_wait_minimum = "CertSigningWaitMinimum"

abbrev pub cert_signing_repeat_times : Key
cert_signing_repeat_times = "CertSigningRepeatTimes"

abbrev pub certificate_store_max_length : Key
certificate_store_max_length = "CertificateStoreMaxLength"

abbrev pub contract_validation_offline : Key
contract_validation_offline = "ContractValidationOffline"

abbrev pub iso15118_pnc_enabled : Key
iso15118_pnc_enabled = "ISO15118PnCEnabled"

abbrev pub authorization_data : Key
authorization_data = "AuthorizationData"

abbrev pub additional_root_certificate_check : Key
additional_root_certificate_check = "AdditionalRootCertificateCheck"

abbrev pub cpo_name : Key
cpo_name = "CpoName"

abbrev pub security_profile : Key
security_profile = "SecurityProfile"

abbrev pub mandatory_core_keys : List Key
mandatory_core_keys =
    authorize_remote_tx_requests ∷ clock_aligned_data_interval ∷ connection_time_out
    ∷ get_configuration_max_keys ∷ heartbeat_interval ∷ local_pre_authorize
    ∷ meter_values_aligned_data ∷ meter_values_sampled_data ∷ meter_value_sample_interval
    ∷ number_of_connectors ∷ reset_retries ∷ connector_phase_rotation
    ∷ stop_transaction_on_ev_side_disconnect ∷ stop_transaction_on_invalid_id
    ∷ stop_txn_aligned_data ∷ stop_txn_sampled_data ∷ supported_feature_profiles
    ∷ transaction_message_attempts ∷ transaction_message_retry_interval
    ∷ unlock_connector_on_ev_side_disconnect ∷ []

abbrev pub mandatory_local_auth_keys : List Key
mandatory_local_auth_keys =
    local_auth_list_enabled ∷ local_auth_list_max_length ∷ send_local_list_max_length ∷ []

abbrev pub mandatory_smart_charging_keys : List Key
mandatory_smart_charging_keys =
    max_charging_profiles_installed ∷ charging_schedule_max_periods
    ∷ charging_schedule_allowed_charging_rate_unit ∷ charge_profile_max_stack_level ∷ []

abbrev pub mandatory_firmware_keys : List Key
mandatory_firmware_keys = supported_file_transfer_protocols ∷ []

abbrev pub mandatory_iso15118_keys : List Key
mandatory_iso15118_keys = iso15118_pnc_enabled ∷ contract_validation_offline ∷ []

-- The `switch` on a profile's name; an unknown name adds nothing.
unfoldable pub mandatory_keys_of : String → List Key
mandatory_keys_of profile = ite (text_discrete profile core_profile_name) mandatory_core_keys (
    ite (text_discrete profile smart_charging_profile_name) mandatory_smart_charging_keys (
      ite (text_discrete profile local_auth_profile_name) mandatory_local_auth_keys (
        ite (text_discrete profile firmware_profile_name) mandatory_firmware_keys
          (ite (text_discrete profile iso15118_profile_name) mandatory_iso15118_keys []))))

unfoldable pub get_mandatory_keys_for_profile : List String → List Key
get_mandatory_keys_for_profile [] = []
get_mandatory_keys_for_profile (profile ∷ profiles) =
    mandatory_keys_of profile ++ get_mandatory_keys_for_profile profiles
