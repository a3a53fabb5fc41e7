-- ===== src/Ocppj/Message/Sound.antt =====
-- ocppj/ocppj.go: what holds of everything that `ParseMessage` returns.
use ocpp_go.Base.{
  String, ◌<>◌, ◌≡◌, ◌≢◌, refl, ◌⊎◌, inl, inr, Option, none, some, List, [], ◌∷◌, text_discrete,
  Dec-rule, false,
}
use ocpp_go.Base.Int.{ℤ, ℤ_discrete}
use ocpp_go.Base.Results.{Result, ok, err}
use ocpp_go.Ocpp.{Error, new_error}
use ocpp_go.Ocpp.Profile.{
  Profile, Parsed, feature_not_found, parsed_by, parse_request, parse_response,
}
use ocpp_go.Ocppj.Bundle.{Call}
use ocpp_go.Ocppj.State.{ClientState, get_pending_request}
use ocpp_go.Ocppj.Endpoint.{
  Element, nil, number, text, empty_object, other, Dialect, invalid_dialect, v16, v2, Endpoint,
  FieldError, CallResult, CallError, Library, get_profile_for_feature, format_error_type,
}
use ocpp_go.Ocppj.Message.{call_type, call_result_type, call_error_type, error_from_validation}
use ocpp_go.Ocppj.Message.Parse.{
  Message, call_message, call_result_message, call_error_message, no_message, invalid, panicked,
  format_error, after_validation, decoded_call, decoded_result, parse_call, parse_action,
  parse_call_result, parse_call_error, parse_error_fields, parse_body, parse_id, parse_type,
  parse_message, description_of, parse_raw_json_request, parse_raw_json_confirmation, details_of,
}
use ocpp_go.Ocppj.Message.Stray.{is_stray, stray_discarded}
use ocpp_go.Ocppj.Endpoint.Violations.{IsFieldError, error_of_fields-IsFieldError}

module _ {Number Value : Type 0} where
  abbrev pub text_of : Element Number Value → String
  text_of (text t) = t
  text_of _ = ""

  -- The ID that an array carries, or the empty one.
  abbrev pub carried_id : List (Element Number Value) → String
  carried_id [] = ""
  carried_id (type ∷ []) = ""
  carried_id (type ∷ id ∷ rest) = text_of id

module _ {Number Value T Request Response : Type 0}
    (library : Library Number Value T Request Response) (endpoint : Endpoint T)
    (pending : ClientState Request) where
  -- What each outcome says of an array with that ID.
  abbrev pub IsSound : String → Message Number Value Request Response → Type 0
  IsSound id (call_message c) =
      (c.unique_id ≡ id)
      × (id ≢ "")
      × ((p : Profile T) × (get_profile_for_feature endpoint c.action ≡ some p))
      × (library.validate_call c ≡ [])
  IsSound id (call_result_message r) =
      (r.unique_id ≡ id)
      × (id ≢ "")
      × ((request : Request) × (get_pending_request pending id ≡ some (some request)))
      × (library.validate_call_result r ≡ [])
  IsSound id (call_error_message e) =
      (e.unique_id ≡ id)
      × (id ≢ "")
      × ((request : Option Request) × (get_pending_request pending id ≡ some request))
      × (library.validate_call_error e ≡ [])
  IsSound id no_message = (id ≢ "") × (get_pending_request pending id ≡ none)
  IsSound id (invalid e) = (e.message_id ≡ id) ⊎ (e.message_id ≡ "")
  IsSound id panicked =
      (endpoint.dialect ≡ invalid_dialect) ⊎ (get_pending_request pending id ≡ some none)

  format-IsSound :
      (description id' id : String)
      → (id' ≡ id) ⊎ (id' ≡ "")
      → IsSound id (format_error library endpoint description id')
  unfolding format_error format_error_type new_error
  format-IsSound description id' id h = by_dialect endpoint.dialect refl
    where
      by_dialect :
          (d : Dialect)
          → endpoint.dialect ≡ d
          → IsSound id (elim (format_error_type d) [
            | none ↦ panicked
            | some code ↦ invalid (new_error code description id')
          ])
      by_dialect invalid_dialect e = inl e
      by_dialect v16 e = h
      by_dialect v2 e = h

  validated-IsSound :
      (es : List FieldError) (id feature : String)
      → (outcome : Message Number Value Request Response) → (es ≡ [] → IsSound id outcome)
      → IsSound id (after_validation library endpoint es id feature outcome)
  unfolding after_validation
  validated-IsSound [] id feature outcome h = h refl
  validated-IsSound (e ∷ es) id feature outcome h =
      found (error_from_validation library endpoint (e ∷ es) id feature)
        (error_of_fields-IsFieldError endpoint.dialect library.show_int (e ∷ es) _ id feature refl)
    where
      found :
          (o : Option Error)
          → IsFieldError endpoint.dialect id o
          → IsSound id (elim o [ none ↦ panicked | some error ↦ invalid error ])
      found none k = inl k
      found (some error) k = inl k

  call-IsSound :
      (r : Parsed (Result String Request)) (id action : String) (p : Profile T)
      → id ≢ ""
      → get_profile_for_feature endpoint action ≡ some p
      → IsSound id (decoded_call library endpoint r id action)
  unfolding decoded_call
  call-IsSound (feature_not_found name) id action p n s = format-IsSound _ id id (inl refl)
  call-IsSound (parsed_by (err e)) id action p n s = format-IsSound e id id (inl refl)
  call-IsSound (parsed_by (ok request)) id action p n s =
      let call : Call Request = record {
        unique_id = id;
        action = action;
        payload = some request;
      } in
      validated-IsSound (library.validate_call call) id action (call_message call)
        (λ valid. (refl, n, (p, s), valid))

  parse_action-IsSound :
      (id : String) (third payload : Element Number Value)
      → id ≢ ""
      → IsSound id (parse_action library endpoint id third payload)
  unfolding parse_action new_error
  parse_action-IsSound id (text action) payload n =
      supported (get_profile_for_feature endpoint action) refl
    where
      supported :
          (o : Option (Profile T))
          → get_profile_for_feature endpoint action ≡ o
          → IsSound id (elim o [
            | none ↦ invalid (new_error "NotSupported" ("Unsupported feature " <> action) id)
            | some p ↦
                decoded_call library endpoint
                  (parse_request p action payload (parse_raw_json_request library endpoint))
                  id
                  action
          ])
      supported none e = inl refl
      supported (some p) e = call-IsSound _ id action p n e
  parse_action-IsSound id nil payload n = format-IsSound _ id id (inl refl)
  parse_action-IsSound id (number m) payload n = format-IsSound _ id id (inl refl)
  parse_action-IsSound id empty_object payload n = format-IsSound _ id id (inl refl)
  parse_action-IsSound id (other v) payload n = format-IsSound _ id id (inl refl)

  parse_call-IsSound :
      (id : String) (third : Element Number Value) (rest : List (Element Number Value))
      → id ≢ ""
      → IsSound id (parse_call library endpoint id third rest)
  unfolding parse_call
  parse_call-IsSound id third (payload ∷ []) n = parse_action-IsSound id third payload n
  parse_call-IsSound id third [] n = format-IsSound _ id id (inl refl)
  parse_call-IsSound id third (payload ∷ more ∷ rest) n = format-IsSound _ id id (inl refl)

  result-IsSound :
      (r : Parsed (Result String Response)) (id feature : String) (request : Request)
      → id ≢ ""
      → get_pending_request pending id ≡ some (some request)
      → IsSound id (decoded_result library endpoint r id feature)
  unfolding decoded_result
  result-IsSound (feature_not_found name) id feature request n s = format-IsSound _ id id (inl refl)
  result-IsSound (parsed_by (err e)) id feature request n s = format-IsSound e id id (inl refl)
  result-IsSound (parsed_by (ok response)) id feature request n s =
      let result : CallResult Response = record { unique_id = id; payload = response } in
      validated-IsSound (library.validate_call_result result) id feature
        (call_result_message result) (λ valid. (refl, n, (request, s), valid))

  parse_call_result-IsSound :
      (o : Option (Option Request)) (id : String) (payload : Element Number Value)
      → id ≢ ""
      → get_pending_request pending id ≡ o
      → IsSound id (parse_call_result library endpoint o id payload)
  unfolding parse_call_result new_error
  parse_call_result-IsSound none id payload n s = (n, s)
  parse_call_result-IsSound (some none) id payload n s = inr s
  parse_call_result-IsSound (some (some request)) id payload n s =
      supported (get_profile_for_feature endpoint (library.request_feature request))
    where
      supported :
          (o : Option (Profile T))
          → IsSound id (elim o [
            | none ↦ invalid (
                new_error "InternalError"
                  ("no profile found for feature " <> library.request_feature request)
                  id)
            | some p ↦
                decoded_result library endpoint
                  (parse_response p
                    (library.request_feature request)
                    payload
                    (parse_raw_json_confirmation library endpoint))
                  id
                  (library.request_feature request)
          ])
      supported none = inl refl
      supported (some p) = result-IsSound _ id _ request n s

  error_fields-IsSound :
      (id : String) (code description details : Element Number Value) (w : Option Request)
      → id ≢ ""
      → get_pending_request pending id ≡ some w
      → IsSound id (parse_error_fields library endpoint id code description details)
  unfolding parse_error_fields
  error_fields-IsSound id (text code) description details w n s =
      let call_error : CallError Number Value = record {
        unique_id = id;
        error_code = code;
        error_description = description_of description;
        error_details = details;
      } in
      validated-IsSound (library.validate_call_error call_error) id ""
        (call_error_message call_error) (λ valid. (refl, n, (w, s), valid))
  error_fields-IsSound id nil description details w n s = format-IsSound _ "" id (inr refl)
  error_fields-IsSound id (number m) description details w n s = format-IsSound _ "" id (inr refl)
  error_fields-IsSound id empty_object description details w n s = format-IsSound _ "" id (inr refl)
  error_fields-IsSound id (other v) description details w n s = format-IsSound _ "" id (inr refl)

  parse_call_error-IsSound :
      (o : Option (Option Request)) (id : String) (code : Element Number Value)
      → (rest : List (Element Number Value)) → id ≢ ""
      → get_pending_request pending id ≡ o
      → IsSound id (parse_call_error library endpoint o id code rest)
  unfolding parse_call_error
  parse_call_error-IsSound none id code rest n s = (n, s)
  parse_call_error-IsSound (some w) id code [] n s = format-IsSound _ id id (inl refl)
  parse_call_error-IsSound (some w) id code (description ∷ rest) n s =
      error_fields-IsSound id code description (details_of rest) w n s

  parse_body-IsSound :
      (type_id : ℤ) (id : String) (third : Element Number Value)
      → (rest : List (Element Number Value)) → id ≢ ""
      → IsSound id (parse_body library endpoint type_id id third rest pending)
  unfolding parse_body new_error
  parse_body-IsSound type_id id third rest n =
      let o = get_pending_request pending id in
      Dec-rule (IsSound id) (ℤ_discrete type_id call_type) (λ _. parse_call-IsSound id third rest n)
        λ _.
          Dec-rule (IsSound id) (ℤ_discrete type_id call_result_type)
            (λ _. parse_call_result-IsSound o id third n refl)
            λ _.
              Dec-rule (IsSound id) (ℤ_discrete type_id call_error_type)
                (λ _. parse_call_error-IsSound o id third rest n refl) λ _. inl refl

  parse_id-IsSound :
      (type_id : ℤ) (id third : Element Number Value) (rest : List (Element Number Value))
      → IsSound (text_of id) (parse_id library endpoint type_id id third rest pending)
  unfolding parse_id
  parse_id-IsSound type_id (text id) third rest =
      Dec-rule (IsSound id) (text_discrete id "") (λ _. format-IsSound _ id id (inl refl))
        λ n. parse_body-IsSound type_id id third rest n
  parse_id-IsSound type_id nil third rest = format-IsSound _ "" "" (inl refl)
  parse_id-IsSound type_id (number m) third rest = format-IsSound _ "" "" (inl refl)
  parse_id-IsSound type_id empty_object third rest = format-IsSound _ "" "" (inl refl)
  parse_id-IsSound type_id (other v) third rest = format-IsSound _ "" "" (inl refl)

  parse_type-IsSound :
      (type id third : Element Number Value) (rest : List (Element Number Value))
      → IsSound (text_of id) (parse_type library endpoint type id third rest pending)
  unfolding parse_type
  parse_type-IsSound (number m) id third rest = parse_id-IsSound (library.truncate m) id third rest
  parse_type-IsSound nil id third rest = format-IsSound _ "" _ (inr refl)
  parse_type-IsSound (text t) id third rest = format-IsSound _ "" _ (inr refl)
  parse_type-IsSound empty_object id third rest = format-IsSound _ "" _ (inr refl)
  parse_type-IsSound (other v) id third rest = format-IsSound _ "" _ (inr refl)

  array-IsSound :
      (arr : List (Element Number Value))
      → IsSound (carried_id arr) (parse_message library endpoint arr pending)
  unfolding parse_message
  array-IsSound (type ∷ id ∷ third ∷ rest) = parse_type-IsSound type id third rest
  array-IsSound [] = format-IsSound _ "" "" (inl refl)
  array-IsSound (type ∷ []) = format-IsSound _ "" "" (inl refl)
  array-IsSound (type ∷ id ∷ []) = format-IsSound _ "" _ (inr refl)

  -- What ParseMessage returns of any array: a call carries the array's ID, not empty, its feature
  -- is in a profile and the validator accepts it; a result or an error has the ID of a pending
  -- request and is valid; nothing is returned only when no request with that ID is pending, and
  -- always for a result or an error with an ID, not empty, that no request is pending under; an
  -- error names the array's ID or none; and a panic comes of an invalid dialect or of a pending
  -- request that is nil.
  pub parse_message-IsSound :
      (arr : List (Element Number Value))
      → IsSound (carried_id arr) (parse_message library endpoint arr pending)
        × ((is_stray library pending arr ≡ false)
            ⊎ (parse_message library endpoint arr pending ≡ no_message))
  parse_message-IsSound arr = (array-IsSound arr, stray_discarded library endpoint pending arr)
