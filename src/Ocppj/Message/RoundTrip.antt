-- ===== src/Ocppj/Message/RoundTrip.antt =====
-- ocppj/ocppj.go: what one endpoint creates and encodes, the other parses back.
use ocpp_go.Base.{
  ℕ_discrete, String, ◌≡◌, ◌≢◌, refl, ◌∙◌, ap, if_neg, Bool, true, false, Option, none, some, List,
  [], ◌∷◌, text_discrete,
}
use ocpp_go.Base.Int.{ℤ, ℤ_discrete}
use ocpp_go.Base.Results.{ok}
use ocpp_go.Ocpp.{ErrorCode}
use ocpp_go.Ocpp.Profile.{Profile, Feature, get_feature, parse_request, parse_response}
use ocpp_go.Ocppj.Bundle.{Call}
use ocpp_go.Ocppj.State.{ClientState, get_pending_request}
use ocpp_go.Ocppj.Endpoint.{
  Element, number, text, Endpoint, CallResult, CallError, Library, FieldError,
  get_profile_for_feature,
}
use ocpp_go.Ocppj.Message.{
  call_type, call_result_type, call_error_type, create_call, create_call_result, create_call_error,
  when_valid, marshal_call, marshal_payload, marshal_call_result, marshal_call_error,
  call_error_fields, details_failure, sent_details,
}
use ocpp_go.Ocppj.Message.Parse.{
  Message, call_message, call_result_message, call_error_message, raw_payload, parse_message,
  parse_body, parse_call, parse_action, parse_call_result, parse_call_error, parse_error_fields,
  decoded_call, decoded_result, after_validation, parse_raw_json_request,
  parse_raw_json_confirmation,
}

module _ {Number Value T Request Response : Type 0}
    (library : Library Number Value T Request Response) where
  -- The header of a message is read as it was written.
  pub parse_message-body :
      (e : Endpoint T) (type_id : ℤ) (unique_id : String) (third : Element Number Value)
      → (rest : List (Element Number Value)) (pending : ClientState Request) → unique_id ≢ ""
      → library.truncate (library.number_of type_id) ≡ type_id
      → parse_message library e
          (number (library.number_of type_id) ∷ text unique_id ∷ third ∷ rest)
          pending
        ≡ parse_body library e type_id unique_id third rest pending
  unfolding parse_message
  parse_message-body e type_id unique_id third rest pending named reads =
      if_neg (text_discrete unique_id "") named _ _
      ∙ ap (λ t. parse_body library e t unique_id third rest pending) reads

  pub when_valid-ok :
      {A : Type 0} (validation : Bool) (es : List FieldError) (a : A)
      → es ≡ []
      → when_valid validation es a ≡ ok a
  when_valid-ok false es a valid = refl
  when_valid-ok true [] a valid = refl
  when_valid-ok true (e ∷ es) a valid = cc

  after_validation-ok :
      (e : Endpoint T) (es : List FieldError) (unique_id feature : String)
      → (outcome : Message Number Value Request Response) → es ≡ []
      → after_validation library e es unique_id feature outcome ≡ outcome
  unfolding after_validation
  after_validation-ok e [] unique_id feature outcome valid = refl
  after_validation-ok e (x ∷ es) unique_id feature outcome valid = cc

  -- A request of a supported feature, whose payload decodes to it and whose call the validator
  -- accepts, under an ID that is not empty, is created, encoded, and parsed back as the same call,
  -- whether validation is on or off.
  pub parse_message-marshal_call :
      (e : Endpoint T) (validation : Bool) (request : Request) (unique_id : String)
      → (pending : ClientState Request) (p : Profile T) (f : Feature T)
      → (payload : Element Number Value)
      → get_profile_for_feature e (library.request_feature request) ≡ some p
      → get_feature p (library.request_feature request) ≡ some f
      → library.marshal_request request ≡ ok payload
      → library.unmarshal_request (raw_payload payload) f.request_type ≡ ok request
      → library.validate_call (record {
        unique_id = unique_id;
        action = library.request_feature request;
        payload = some request;
      })
        ≡ []
      → unique_id ≢ ""
      → library.truncate (library.number_of call_type) ≡ call_type
      → let action = library.request_feature request in
        let call : Call Request = record {
          unique_id = unique_id;
          action = action;
          payload = some request;
        } in
        let fields =
          number (library.number_of call_type) ∷ text unique_id ∷ text action ∷ payload ∷ [] in
        (create_call library e validation request unique_id ≡ ok call)
        × (marshal_call library call ≡ ok fields)
        × (parse_message library e fields pending ≡ call_message call)
  unfolding create_call marshal_call marshal_payload parse_body parse_call parse_action get_feature
      parse_request decoded_call parse_raw_json_request ℤ_discrete ℕ_discrete
  parse_message-marshal_call e validation request unique_id pending p f payload supported found
        encodes decodes valid named reads =
      (
        rw (supported, create_call) (when_valid-ok validation _ _ valid),
        rw (encodes, marshal_call) refl,
        parse_message-body e call_type unique_id _ _ pending named reads
            ∙ rw (supported, parse_action)
                (rw (found, parse_request)
                  (rw (decodes, decoded_call) (after_validation-ok e _ unique_id _ _ valid))),
      )

  -- A response to the pending request, of a supported feature, whose payload decodes to it and
  -- whose result the validator accepts, is created, encoded, and parsed back as the same result.
  pub parse_message-marshal_call_result :
      (e : Endpoint T) (validation : Bool) (request : Request) (response : Response)
      → (unique_id : String) (pending : ClientState Request) (p : Profile T) (f : Feature T)
      → (payload : Element Number Value)
      → get_pending_request pending unique_id ≡ some (some request)
      → library.request_feature request ≡ library.response_feature response
      → get_profile_for_feature e (library.response_feature response) ≡ some p
      → get_feature p (library.response_feature response) ≡ some f
      → library.marshal_response response ≡ ok payload
      → library.unmarshal_response (raw_payload payload) f.response_type ≡ ok response
      → library.validate_call_result (record { unique_id = unique_id; payload = response }) ≡ []
      → unique_id ≢ ""
      → library.truncate (library.number_of call_result_type) ≡ call_result_type
      → let result : CallResult Response = record { unique_id = unique_id; payload = response } in
        let fields = number (library.number_of call_result_type) ∷ text unique_id ∷ payload ∷ [] in
        (create_call_result library e validation response unique_id ≡ ok result)
        × (marshal_call_result library result ≡ ok fields)
        × (parse_message library e fields pending ≡ call_result_message result)
  unfolding create_call_result marshal_call_result parse_body parse_call_result get_feature
      parse_response decoded_result parse_raw_json_confirmation ℤ_discrete ℕ_discrete
  parse_message-marshal_call_result e validation request response unique_id pending p f payload
        waits same supported found encodes decodes valid named reads =
      (
        rw (supported, create_call_result) (when_valid-ok validation _ _ valid),
        rw (encodes, marshal_call_result) refl,
        parse_message-body e call_result_type unique_id _ _ pending named reads
            ∙ rw (waits, parse_call_result)
                (rw (ap (get_profile_for_feature e) same ∙ supported, parse_call_result)
                  (rw (ap (get_feature p) same ∙ found, parse_response)
                    (rw (decodes, decoded_result) (after_validation-ok e _ unique_id _ _ valid)))),
      )

  -- An error for a pending request, whose details can be encoded and which the validator accepts
  -- with its details and with those sent, is created, encoded, and parsed back as the same error,
  -- nil details as an empty object.
  pub parse_message-marshal_call_error :
      (e : Endpoint T) (validation : Bool) (unique_id : String) (code : ErrorCode)
      → (description : String) (details : Element Number Value) (pending : ClientState Request)
      → (waiting : Option Request) → get_pending_request pending unique_id ≡ some waiting
      → details_failure library details ≡ none
      → library.validate_call_error (record {
        unique_id = unique_id;
        error_code = code;
        error_description = description;
        error_details = details;
      })
        ≡ []
      → library.validate_call_error (record {
        unique_id = unique_id;
        error_code = code;
        error_description = description;
        error_details = sent_details details;
      })
        ≡ []
      → unique_id ≢ ""
      → library.truncate (library.number_of call_error_type) ≡ call_error_type
      → let call_error : CallError Number Value = record {
        unique_id = unique_id;
        error_code = code;
        error_description = description;
        error_details = details;
      } in
        (create_call_error library validation unique_id code description details ≡ ok call_error)
        × (marshal_call_error library call_error ≡ ok (call_error_fields library call_error))
        × (parse_message library e (call_error_fields library call_error) pending
            ≡ call_error_message (record call_error { error_details = sent_details details }))
  unfolding create_call_error marshal_call_error parse_body parse_call_error parse_error_fields
      ℤ_discrete ℕ_discrete
  parse_message-marshal_call_error e validation unique_id code description details pending waiting
        waits encodes valid valid' named reads =
      (
        when_valid-ok validation _ _ valid,
        rw (encodes, marshal_call_error) refl,
        parse_message-body e call_error_type unique_id _ _ pending named reads
            ∙ rw (waits, parse_call_error) (after_validation-ok e _ unique_id _ _ valid'),
      )
