-- ===== src/Ocppj/Message/Tests.antt =====
-- The theorems on messages at concrete values, with numbers as requests and as responses.
use ocpp_go.Base.{ℕ, ◌≡◌, refl, ◌⊎◌, true, false, some, List, [], ◌∷◌}
use ocpp_go.Base.Int.{ℤ}
use ocpp_go.Base.Results.{ok}
use ocpp_go.Ocppj.Bundle.{Call}
use ocpp_go.Ocppj.State.{new_client_state}
use ocpp_go.Ocppj.Endpoint.{Element, nil, number, text, empty_object, other, CallResult, CallError}
use ocpp_go.Ocppj.Message.{
  create_call, create_call_result, create_call_error, marshal_call, marshal_call_result,
  marshal_call_error, call_error_fields, call_type, call_result_type,
}
use ocpp_go.Ocppj.Message.Parse.{
  call_message, call_result_message, call_error_message, no_message, parse_message,
}
use ocpp_go.Ocppj.Message.RoundTrip.{
  parse_message-marshal_call, parse_message-marshal_call_result, parse_message-marshal_call_error,
}
use ocpp_go.Ocppj.Message.Stray.{is_stray}
use ocpp_go.Ocppj.Message.Sound.{IsSound, parse_message-IsSound}
use ocpp_go.Ocppj.Message.Sample.{
  library, heartbeat, core, endpoint, waiting, core_supports, core_finds, a_waits, a_named,
}

parse_message-marshal_call_example :
    let call : Call ℕ = record { unique_id = "a"; action = "Heartbeat"; payload = some 7 } in
    let fields : List (Element ℤ ℕ) =
      number call_type ∷ text "a" ∷ text "Heartbeat" ∷ other 7 ∷ [] in
    (create_call library endpoint true 7 "a" ≡ ok call)
    × (marshal_call library call ≡ ok fields)
    × (parse_message library endpoint fields new_client_state ≡ call_message call)
parse_message-marshal_call_example =
    parse_message-marshal_call library endpoint true 7 "a" new_client_state core heartbeat (other 7)
      core_supports core_finds refl refl refl a_named refl

parse_message-marshal_call_result_example :
    let result : CallResult ℕ = record { unique_id = "a"; payload = 8 } in
    let fields : List (Element ℤ ℕ) = number call_result_type ∷ text "a" ∷ other 8 ∷ [] in
    (create_call_result library endpoint true 8 "a" ≡ ok result)
    × (marshal_call_result library result ≡ ok fields)
    × (parse_message library endpoint fields waiting ≡ call_result_message result)
parse_message-marshal_call_result_example =
    parse_message-marshal_call_result library endpoint true 7 8 "a" waiting core heartbeat (other 8)
      a_waits refl core_supports core_finds refl refl refl a_named refl

parse_message-marshal_call_error_example :
    let call_error : CallError ℤ ℕ = record {
      unique_id = "a";
      error_code = "GenericError";
      error_description = "no";
      error_details = nil;
    } in
    (create_call_error library true "a" "GenericError" "no" nil ≡ ok call_error)
    × (marshal_call_error library call_error ≡ ok (call_error_fields library call_error))
    × (parse_message library endpoint (call_error_fields library call_error) waiting
        ≡ call_error_message (record call_error { error_details = empty_object }))
parse_message-marshal_call_error_example =
    parse_message-marshal_call_error library endpoint true "a" "GenericError" "no" nil waiting
      (some 7) a_waits refl refl refl a_named refl

parse_message-IsSound_example :
    let fields : List (Element ℤ ℕ) = number call_result_type ∷ text "a" ∷ other 8 ∷ [] in
    IsSound library endpoint waiting "a" (parse_message library endpoint fields waiting)
    × ((is_stray library waiting fields ≡ false)
        ⊎ (parse_message library endpoint fields waiting ≡ no_message))
parse_message-IsSound_example =
    parse_message-IsSound library endpoint waiting
      (number call_result_type ∷ text "a" ∷ other 8 ∷ [])
