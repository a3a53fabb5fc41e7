-- ===== src/Ocppj/Endpoint.antt =====
-- `Endpoint` of ocppj/ocppj.go, the codes of its errors, and the libraries that it calls: encoding/json
-- with fmt, reflected types, and the validator. `T` is `reflect.Type`; `Number` and `Value` are JSON numbers
-- and the JSON values that the code passes on unread.
pub mod Violations
use ocpp_go.Base.{
  ℕ, String, ◌<>◌, ite, Bool, true, false, Option, none, some, List, [], ◌∷◌, ◌++◌, text_discrete,
  if◌then◌else◌,
}
use ocpp_go.Base.Int.{ℤ}
use ocpp_go.Base.Results.{Result}
use ocpp_go.Ocpp.{Error, ErrorCode, new_error, generic_error}
use ocpp_go.Ocpp.Profile.{Profile, supports_feature}
use ocpp_go.Ocppj.Bundle.{Call}

-- What encoding/json decodes into an `interface{}`.
pub data Element (Number Value : Type 0) : Type 0 where
  nil : Element Number Value
  number : Number → Element Number Value
  text : String → Element Number Value
  empty_object : Element Number Value
  other : Value → Element Number Value

-- `ocpp.Dialect`; its zero value and any other number is `invalid_dialect`.
pub data Dialect : Type 0 where
  invalid_dialect v16 v2 : Dialect

pub record Endpoint (T : Type 0) : Type 0 where
  pub dialect : Dialect
  pub profiles : List (Profile T)

-- `validator.FieldError`, with the length that `getValueLength` reads from its value.
pub record FieldError : Type 0 where
  pub actual_tag : String
  pub namespace : String
  pub param : String
  pub value_length : ℤ

-- The error values that `HandleFailedResponseError` tells apart.
pub data Failure : Type 0 where
  validation_errors : List FieldError → Failure
  ocpp_error : Error → Failure
  other_error : String → Failure

pub record CallResult (Response : Type 0) : Type 0 where
  pub unique_id : String
  pub payload : Response

pub record CallError (Number Value : Type 0) : Type 0 where
  pub unique_id : String
  pub error_code : ErrorCode
  pub error_description : String
  pub error_details : Element Number Value

-- The calls into libraries and into the message types. Marshaling gives the element that decoding its
-- bytes gives; an empty list of field errors is the validator's nil.
pub record Library (Number Value T Request Response : Type 0) : Type 0 where
  pub truncate : Number → ℤ
  pub number_of : ℤ → Number
  pub show : Element Number Value → String
  pub show_int : ℤ → String
  pub show_errors : List FieldError → String
  pub request_feature : Request → String
  pub response_feature : Response → String
  pub marshal_request : Request → Result String (Element Number Value)
  pub marshal_response : Response → Result String (Element Number Value)
  -- the encoder's error, if any, on details that are not nil; they encode as themselves
  pub details_error : Element Number Value → Option String
  pub unmarshal_request : Element Number Value → T → Result String Request
  pub unmarshal_response : Element Number Value → T → Result String Response
  pub validate_call : Call Request → List FieldError
  pub validate_call_result : CallResult Response → List FieldError
  pub validate_call_error : CallError Number Value → List FieldError

abbrev pub format_violation_v2 : ErrorCode
format_violation_v2 = "FormatViolation"

abbrev pub format_violation_v16 : ErrorCode
format_violation_v16 = "FormationViolation"

abbrev pub occurrence_constraint_violation_v2 : ErrorCode
occurrence_constraint_violation_v2 = "OccurrenceConstraintViolation"

abbrev pub occurrence_constraint_violation_v16 : ErrorCode
occurrence_constraint_violation_v16 = "OccurenceConstraintViolation"

abbrev pub property_constraint_violation : ErrorCode
property_constraint_violation = "PropertyConstraintViolation"

abbrev pub not_supported : ErrorCode
not_supported = "NotSupported"

abbrev pub message_type_not_supported : ErrorCode
message_type_not_supported = "MessageTypeNotSupported"

-- `none` is the panic on an invalid dialect.
unfoldable pub format_error_type : Dialect → Option ErrorCode
format_error_type invalid_dialect = none
format_error_type v16 = some format_violation_v16
format_error_type v2 = some format_violation_v2

unfoldable pub occurrence_constraint_error_type : Dialect → Option ErrorCode
occurrence_constraint_error_type invalid_dialect = none
occurrence_constraint_error_type v16 = some occurrence_constraint_violation_v16
occurrence_constraint_error_type v2 = some occurrence_constraint_violation_v2

abbrev for_feature : String → String → String
for_feature description feature =
    ite (text_discrete feature "") description ((description <> " for feature ") <> feature)

unfoldable pub occurrence_violation : Dialect → FieldError → String → String → Option Error
unfolding occurrence_constraint_error_type new_error
occurrence_violation d e message_id feature = elim (occurrence_constraint_error_type d) [
  | none ↦ none
  | some code ↦ some (
      new_error code (for_feature (("Field " <> e.namespace) <> " required but not found") feature)
        message_id)
]

unfoldable pub property_constraint : (ℤ → String) → FieldError → String → String → String → Error
unfolding new_error
property_constraint show_int e details message_id feature =
    new_error property_constraint_violation
      (for_feature
        ((((((("Field " <> e.namespace) <> " must be ") <> details) <> " ") <> e.param)
            <> ", but was ")
          <> show_int e.value_length)
        feature)
      message_id

-- How the error of a field with that tag is worded, for the tags of the `switch` but "required".
unfoldable pub wording_of : String → Option String
wording_of tag = ite (text_discrete tag "max") (some "maximum") (
    ite (text_discrete tag "min") (some "minimum") (
      ite (text_discrete tag "gte") (some ">=") (
        ite (text_discrete tag "gt") (some ">") (
          ite (text_discrete tag "lte") (some "<=")
            (ite (text_discrete tag "lt") (some "<") none)))))

-- The loop of `errorFromValidation`: the first field error with a known tag; `none` is a panic.
unfoldable pub error_of_fields :
    Dialect → (ℤ → String) → List FieldError → Error → String → String → Option Error
unfolding occurrence_violation property_constraint wording_of
error_of_fields d show_int [] fallback message_id feature = some fallback
error_of_fields d show_int (e ∷ es) fallback message_id feature =
    let rest = error_of_fields d show_int es fallback message_id feature in
    ite (text_discrete e.actual_tag "required") (occurrence_violation d e message_id feature)
      (elim (wording_of e.actual_tag) [
        | some details ↦ some (property_constraint show_int e details message_id feature)
        | none ↦ rest
      ])

module _ {T : Type 0} where
  unfoldable pub set_dialect : Endpoint T → Dialect → Endpoint T
  set_dialect e d = record e { dialect = d }

  unfoldable pub add_profile : Endpoint T → Profile T → Endpoint T
  add_profile e p = record e { profiles = e.profiles ++ p ∷ [] }

  -- The loops of `GetProfile` and `GetProfileForFeature`.
  unfoldable pub profile_named : List (Profile T) → String → Option (Profile T)
  profile_named [] name = none
  profile_named (p ∷ ps) name = ite (text_discrete p.name name) (some p) (profile_named ps name)

  unfoldable pub profile_with : List (Profile T) → String → Option (Profile T)
  unfolding supports_feature
  profile_with [] feature_name = none
  profile_with (p ∷ ps) feature_name =
      if supports_feature p feature_name then some p else profile_with ps feature_name

  unfoldable pub get_profile : Endpoint T → String → Option (Profile T)
  unfolding profile_named
  get_profile e name = profile_named e.profiles name

  unfoldable pub get_profile_for_feature : Endpoint T → String → Option (Profile T)
  unfolding profile_with
  get_profile_for_feature e feature_name = profile_with e.profiles feature_name
