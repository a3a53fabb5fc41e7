-- ===== src/Ocppj/Message/Parse.antt =====
-- `ParseMessage` of ocppj/ocppj.go, on the decoded array.
use ocpp_go.Base.{String, ◌<>◌, ite, Option, none, some, List, [], ◌∷◌, text_discrete}
use ocpp_go.Base.Int.{ℤ, ℤ_discrete}
use ocpp_go.Base.Results.{Result, ok, err}
use ocpp_go.Ocpp.{Error, new_error, internal_error}
use ocpp_go.Ocpp.Profile.{Parsed, feature_not_found, parsed_by, parse_request, parse_response}
use ocpp_go.Ocppj.Bundle.{Call}
use ocpp_go.Ocppj.State.{ClientState, get_pending_request}
use ocpp_go.Ocppj.Endpoint.{
  Element, nil, number, text, empty_object, other, Endpoint, FieldError, CallResult, CallError,
  Library, not_supported, message_type_not_supported, format_error_type, get_profile_for_feature,
}
use ocpp_go.Ocppj.Message.{call_type, call_result_type, call_error_type, error_from_validation}

-- A message, Go's nil message, an error, or a panic: of an invalid dialect or a nil request.
pub data Message (Number Value Request Response : Type 0) : Type 0 where
  call_message : Call Request → Message Number Value Request Response
  call_result_message : CallResult Response → Message Number Value Request Response
  call_error_message : CallError Number Value → Message Number Value Request Response
  no_message : Message Number Value Request Response
  invalid : Error → Message Number Value Request Response
  panicked : Message Number Value Request Response

module _ {Number Value : Type 0} where
  -- A nil payload is parsed as an empty object.
  abbrev pub raw_payload : Element Number Value → Element Number Value
  raw_payload nil = empty_object
  raw_payload (number n) = number n
  raw_payload (text t) = text t
  raw_payload empty_object = empty_object
  raw_payload (other v) = other v

  -- `arr[3].(string)`, or the empty description.
  abbrev pub description_of : Element Number Value → String
  description_of (text t) = t
  description_of _ = ""

  abbrev pub details_of : List (Element Number Value) → Element Number Value
  details_of [] = nil
  details_of (details ∷ rest) = details

module _ {Number Value T Request Response : Type 0}
    (library : Library Number Value T Request Response) (endpoint : Endpoint T) where
  abbrev pub Outcome : Type 0
  Outcome = Message Number Value Request Response

  unfoldable pub format_error : String → String → Outcome
  unfolding new_error format_error_type
  format_error description message_id = elim (format_error_type endpoint.dialect) [
    | none ↦ panicked
    | some code ↦ invalid (new_error code description message_id)
  ]

  -- What the validator found ends the parse.
  unfoldable pub after_validation : List FieldError → String → String → Outcome → Outcome
  unfolding error_from_validation
  after_validation [] unique_id feature outcome = outcome
  after_validation (e ∷ es) unique_id feature outcome =
      elim (error_from_validation library endpoint (e ∷ es) unique_id feature) [
        | none ↦ panicked
        | some error ↦ invalid error
      ]

  unfoldable pub parse_raw_json_request : Element Number Value → T → Result String Request
  parse_raw_json_request raw request_type = library.unmarshal_request (raw_payload raw) request_type

  unfoldable pub parse_raw_json_confirmation : Element Number Value → T → Result String Response
  parse_raw_json_confirmation raw confirmation_type =
      library.unmarshal_response (raw_payload raw) confirmation_type

  -- The payload of a call, once it is decoded.
  unfoldable pub decoded_call : Parsed (Result String Request) → String → String → Outcome
  unfolding format_error after_validation
  decoded_call (feature_not_found name) unique_id action =
      format_error (("Feature " <> name) <> " not found") unique_id
  decoded_call (parsed_by (err e)) unique_id action = format_error e unique_id
  decoded_call (parsed_by (ok request)) unique_id action =
      let call : Call Request = record {
        unique_id = unique_id;
        action = action;
        payload = some request;
      } in
      after_validation (library.validate_call call) unique_id action (call_message call)

  unfoldable pub parse_action : String → Element Number Value → Element Number Value → Outcome
  unfolding decoded_call parse_request parse_raw_json_request get_profile_for_feature
  parse_action unique_id (text action) payload = elim (get_profile_for_feature endpoint action) [
    | none ↦ invalid (new_error not_supported ("Unsupported feature " <> action) unique_id)
    | some p ↦ decoded_call (parse_request p action payload parse_raw_json_request) unique_id action
  ]
  parse_action unique_id action payload =
      format_error
        (("Invalid element " <> library.show action) <> " at 2, expected action (string)") unique_id

  unfoldable pub parse_call : String → Element Number Value → List (Element Number Value) → Outcome
  unfolding parse_action
  parse_call unique_id action (payload ∷ []) = parse_action unique_id action payload
  parse_call unique_id action rest =
      format_error "Invalid Call message. Expected array length 4" unique_id

  unfoldable pub decoded_result : Parsed (Result String Response) → String → String → Outcome
  unfolding format_error after_validation
  decoded_result (feature_not_found name) unique_id feature =
      format_error (("Feature " <> name) <> " not found") unique_id
  decoded_result (parsed_by (err e)) unique_id feature = format_error e unique_id
  decoded_result (parsed_by (ok confirmation)) unique_id feature =
      let result : CallResult Response = record { unique_id = unique_id; payload = confirmation } in
      after_validation (library.validate_call_result result) unique_id feature
        (call_result_message result)

  -- With what `GetPendingRequest` returned; the method call on a nil request panics.
  unfoldable pub parse_call_result :
      Option (Option Request) → String → Element Number Value → Outcome
  unfolding decoded_result parse_response parse_raw_json_confirmation get_profile_for_feature
  parse_call_result none unique_id payload = no_message
  parse_call_result (some none) unique_id payload = panicked
  parse_call_result (some (some request)) unique_id payload =
      let feature = library.request_feature request in
      elim (get_profile_for_feature endpoint feature) [
        | none ↦
            invalid
              (new_error internal_error ("no profile found for feature " <> feature) unique_id)
        | some p ↦
            decoded_result (parse_response p feature payload parse_raw_json_confirmation) unique_id
              feature
      ]

  unfoldable pub parse_error_fields :
      String → Element Number Value → Element Number Value → Element Number Value → Outcome
  unfolding format_error after_validation
  parse_error_fields unique_id (text code) description details =
      let call_error : CallError Number Value = record {
        unique_id = unique_id;
        error_code = code;
        error_description = description_of description;
        error_details = details;
      } in
      after_validation (library.validate_call_error call_error) unique_id ""
        (call_error_message call_error)
  parse_error_fields unique_id code description details =
      format_error
        (("Invalid element " <> library.show code) <> " at 2, expected rawErrorCode (string)") ""

  unfoldable pub parse_call_error :
      Option (Option Request)
      → String
      → Element Number Value
      → List (Element Number Value)
      → Outcome
  unfolding parse_error_fields
  parse_call_error none unique_id code rest = no_message
  parse_call_error (some pending) unique_id code [] =
      format_error "Invalid Call Error message. Expected array length >= 4" unique_id
  parse_call_error (some pending) unique_id code (description ∷ rest) =
      parse_error_fields unique_id code description (details_of rest)

  -- Past the header: by the type.
  unfoldable pub parse_body :
      ℤ
      → String
      → Element Number Value
      → List (Element Number Value)
      → ClientState Request
      → Outcome
  unfolding parse_call parse_call_result parse_call_error get_pending_request ℤ_discrete
  parse_body type_id unique_id third rest pending =
      ite (ℤ_discrete type_id call_type) (parse_call unique_id third rest) (
        ite (ℤ_discrete type_id call_result_type)
          (parse_call_result (get_pending_request pending unique_id) unique_id third)
          (ite (ℤ_discrete type_id call_error_type)
            (parse_call_error (get_pending_request pending unique_id) unique_id third rest)
            (invalid (
              new_error message_type_not_supported
                ("Invalid message type ID " <> library.show_int type_id) unique_id))))

  unfoldable pub parse_id :
      ℤ
      → Element Number Value
      → Element Number Value
      → List (Element Number Value)
      → ClientState Request
      → Outcome
  unfolding parse_body
  parse_id type_id (text unique_id) third rest pending =
      ite (text_discrete unique_id "") (format_error "Invalid unique ID, cannot be empty" unique_id)
        (parse_body type_id unique_id third rest pending)
  parse_id type_id id third rest pending =
      format_error (("Invalid element " <> library.show id) <> " at 1, expected unique ID (string)")
        ""

  unfoldable pub parse_type :
      Element Number Value
      → Element Number Value
      → Element Number Value
      → List (Element Number Value)
      → ClientState Request
      → Outcome
  unfolding parse_id
  parse_type (number n) id third rest pending = parse_id (library.truncate n) id third rest pending
  parse_type type id third rest pending =
      format_error
        (("Invalid element " <> library.show type) <> " at 0, expected message type (int)") ""

  unfoldable pub parse_message : List (Element Number Value) → ClientState Request → Outcome
  unfolding parse_type
  parse_message (type ∷ id ∷ third ∷ rest) pending = parse_type type id third rest pending
  parse_message arr pending = format_error "Invalid message. Expected array length >= 3" ""
