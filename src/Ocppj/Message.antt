-- ===== src/Ocppj/Message.antt =====
-- Creating and encoding the messages of ocppj/ocppj.go. `MarshalJSON` is modelled by the array of fields
-- that it encodes.
pub mod Parse
pub mod RoundTrip
pub mod Stray
pub mod Sound
pub mod Sample
mod Tests
use ocpp_go.Base.{String, ◌<>◌, Bool, true, false, Option, none, some, List, [], ◌∷◌, if◌then◌else◌}
use ocpp_go.Base.Int.{ℤ, pos}
use ocpp_go.Base.Results.{Result, ok, err}
use ocpp_go.Ocpp.{Error, ErrorCode, new_error, generic_error}
use ocpp_go.Ocppj.Bundle.{Call}
use ocpp_go.Ocppj.Endpoint.{
  Element, nil, number, text, empty_object, Dialect, Endpoint, FieldError, Failure,
  validation_errors, ocpp_error, other_error, other, CallResult, CallError, Library, not_supported,
  get_profile_for_feature, error_of_fields,
}

-- `CALL`, `CALL_RESULT` and `CALL_ERROR`.
abbrev pub call_type : ℤ
call_type = pos 2

abbrev pub call_result_type : ℤ
call_result_type = pos 3

abbrev pub call_error_type : ℤ
call_error_type = pos 4

-- What the validator found is the error, where it is asked.
abbrev pub when_valid : {A : Type 0} → Bool → List FieldError → A → Result Failure A
when_valid false es a = ok a
when_valid true [] a = ok a
when_valid true (e ∷ es) a = err (validation_errors (e ∷ es))

module _ {Number Value : Type 0} where
  -- Nil details are sent as an empty object.
  abbrev pub sent_details : Element Number Value → Element Number Value
  sent_details nil = empty_object
  sent_details (number n) = number n
  sent_details (text t) = text t
  sent_details empty_object = empty_object
  sent_details (other v) = other v

module _ {Number Value T Request Response : Type 0}
    (library : Library Number Value T Request Response) where
  -- `validation` is the setting of ocppj/validation.go; `unique_id` is what the generator returns.
  unfoldable pub create_call : Endpoint T → Bool → Request → String → Result Failure (Call Request)
  unfolding get_profile_for_feature
  create_call e validation request unique_id =
      let action = library.request_feature request in
      elim (get_profile_for_feature e action) [
        | none ↦ err (other_error ("Couldn't create Call for unsupported action " <> action))
        | some p ↦
            let call : Call Request = record {
              unique_id = unique_id;
              action = action;
              payload = some request;
            } in
            when_valid validation (library.validate_call call) call
      ]

  unfoldable pub create_call_result :
      Endpoint T → Bool → Response → String → Result Failure (CallResult Response)
  unfolding get_profile_for_feature new_error
  create_call_result e validation confirmation unique_id =
      let action = library.response_feature confirmation in
      elim (get_profile_for_feature e action) [
        | none ↦ err (
            ocpp_error (
              new_error not_supported
                ("couldn't create Call Result for unsupported action " <> action) unique_id))
        | some p ↦
            let result : CallResult Response = record {
              unique_id = unique_id;
              payload = confirmation;
            } in
            when_valid validation (library.validate_call_result result) result
      ]

  unfoldable pub create_call_error :
      Bool
      → String
      → ErrorCode
      → String
      → Element Number Value
      → Result Failure (CallError Number Value)
  create_call_error validation unique_id code description details =
      let call_error : CallError Number Value = record {
        unique_id = unique_id;
        error_code = code;
        error_description = description;
        error_details = details;
      } in
      when_valid validation (library.validate_call_error call_error) call_error

  -- A nil payload is encoded as null.
  unfoldable pub marshal_payload : Option Request → Result String (Element Number Value)
  marshal_payload none = ok nil
  marshal_payload (some request) = library.marshal_request request

  unfoldable pub marshal_call : Call Request → Result String (List (Element Number Value))
  unfolding marshal_payload
  marshal_call call = elim (marshal_payload call.payload) [
    | err e ↦ err e
    | ok payload ↦ ok (
        number (library.number_of call_type)
        ∷ text call.unique_id
        ∷ text call.action
        ∷ payload
        ∷ [])
  ]

  unfoldable pub marshal_call_result :
      CallResult Response → Result String (List (Element Number Value))
  marshal_call_result result = elim (library.marshal_response result.payload) [
    | err e ↦ err e
    | ok payload ↦
        ok (number (library.number_of call_result_type) ∷ text result.unique_id ∷ payload ∷ [])
  ]

  abbrev pub call_error_fields : CallError Number Value → List (Element Number Value)
  call_error_fields e =
      number (library.number_of call_error_type)
      ∷ text e.unique_id
      ∷ text e.error_code
      ∷ text e.error_description
      ∷ sent_details e.error_details
      ∷ []

  -- Why the details cannot be encoded; the empty object in place of nil can.
  abbrev pub details_failure : Element Number Value → Option String
  details_failure nil = none
  details_failure (number n) = library.details_error (number n)
  details_failure (text t) = library.details_error (text t)
  details_failure empty_object = library.details_error empty_object
  details_failure (other v) = library.details_error (other v)

  unfoldable pub marshal_call_error :
      CallError Number Value → Result String (List (Element Number Value))
  marshal_call_error e = elim (details_failure e.error_details) [
    | some failure ↦ err failure
    | none ↦ ok (call_error_fields e)
  ]

  unfoldable pub error_from_validation :
      Endpoint T → List FieldError → String → String → Option Error
  unfolding error_of_fields new_error
  error_from_validation e es message_id feature =
      error_of_fields e.dialect library.show_int es
        (new_error generic_error (library.show_errors es) message_id) message_id feature
