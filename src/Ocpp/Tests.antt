-- ===== src/Ocpp/Tests.antt =====
-- The theorems on errors and profiles at concrete values, ocpp/ocpp.go.
use ocpp_go.Base.{ℕ, ◌+◌, ◌≡◌, true, false, none, some, [], ◌∷◌, is_some}
use ocpp_go.Ocpp.{
  new_error, new_request_timeout_error, new_request_canceled_error, new_dispatcher_stopped_error,
  new_local_transport_error, mark_local_transport_error,
}
use ocpp_go.Ocpp.Profile.{
  Feature, new_profile, get_feature, supports_feature, parse_request, parse_response,
}
use ocpp_go.Ocpp.Profile.Lookup.{last_named, expected_parse, new_profile_lem}
use ocpp_go.Ocpp.Markers.{classify, class_of, markers_apart}

markers_apart_example :
    (classify (new_request_timeout_error "7") ≡ class_of true false false false)
    × (classify (new_request_canceled_error "7" (some "deadline"))
        ≡ class_of false true false false)
    × (classify (new_dispatcher_stopped_error "7") ≡ class_of false false true false)
    × (classify (new_local_transport_error "InternalError" "closed" "7")
        ≡ class_of false false false true)
    × (classify (new_error "InternalError" "closed" "7") ≡ class_of false false false false)
    × (classify (mark_local_transport_error (new_error "InternalError" "closed" "7"))
        ≡ class_of false false false true)
    × (mark_local_transport_error (new_request_timeout_error "7") ≡ new_request_timeout_error "7")
    × (mark_local_transport_error (new_request_canceled_error "7" (some "deadline"))
        ≡ new_request_canceled_error "7" (some "deadline"))
    × (mark_local_transport_error (new_dispatcher_stopped_error "7")
        ≡ new_dispatcher_stopped_error "7")
markers_apart_example = markers_apart "7" "closed" (some "deadline") "InternalError"

abbrev heartbeat : Feature ℕ
heartbeat = record { feature_name = "Heartbeat"; request_type = 1; response_type = 2 }

new_profile_lem_example :
    let p = new_profile "Core" (heartbeat ∷ []) in
    let found = last_named (heartbeat ∷ []) "Heartbeat" none in
    (get_feature p "Heartbeat" ≡ found)
    × (supports_feature p "Heartbeat" ≡ is_some found)
    × (parse_request p "Heartbeat" 8 (λ raw type. raw + type)
        ≡ expected_parse "Heartbeat" 8 (λ raw type. raw + type) (λ f. f.request_type) found)
    × (parse_response p "Heartbeat" 8 (λ raw type. raw + type)
        ≡ expected_parse "Heartbeat" 8 (λ raw type. raw + type) (λ f. f.response_type) found)
new_profile_lem_example =
    new_profile_lem "Core" (heartbeat ∷ []) "Heartbeat" 8 (λ raw type. raw + type)
