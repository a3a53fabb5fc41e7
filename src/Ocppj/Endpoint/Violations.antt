-- ===== src/Ocppj/Endpoint/Violations.antt =====
-- `errorFromValidation`, ocppj/ocppj.go: the ID of its errors.
use ocpp_go.Base.{String, ◌≡◌, refl, Option, none, some, List, [], ◌∷◌, text_discrete, Dec-rule}
use ocpp_go.Base.Int.{ℤ}
use ocpp_go.Ocpp.{Error, new_error}
use ocpp_go.Ocppj.Endpoint.{
  Dialect, invalid_dialect, v16, v2, FieldError, occurrence_constraint_error_type, error_of_fields,
  occurrence_violation, property_constraint, wording_of,
}

-- The error of a validation: with that ID, or a panic of the dialect.
abbrev pub IsFieldError : Dialect → String → Option Error → Type 0
IsFieldError d id none = d ≡ invalid_dialect
IsFieldError d id (some e) = e.message_id ≡ id

occurrence_violation-IsFieldError :
    (d : Dialect) (e : FieldError) (id feature : String)
    → IsFieldError d id (occurrence_violation d e id feature)
unfolding occurrence_violation occurrence_constraint_error_type new_error
occurrence_violation-IsFieldError invalid_dialect e id feature = refl
occurrence_violation-IsFieldError v16 e id feature = refl
occurrence_violation-IsFieldError v2 e id feature = refl

pub error_of_fields-IsFieldError :
    (d : Dialect) (show_int : ℤ → String) (es : List FieldError) (fallback : Error)
    → (id feature : String) → fallback.message_id ≡ id
    → IsFieldError d id (error_of_fields d show_int es fallback id feature)
unfolding error_of_fields property_constraint new_error
error_of_fields-IsFieldError d show_int [] fallback id feature h = h
error_of_fields-IsFieldError d show_int (e ∷ es) fallback id feature h =
    Dec-rule (IsFieldError d id) (text_discrete e.actual_tag "required")
      (λ _. occurrence_violation-IsFieldError d e id feature)
      λ _.
        worded (wording_of e.actual_tag)
          (error_of_fields-IsFieldError d show_int es fallback id feature h)
  where
    worded :
        (o : Option String)
        → IsFieldError d id (error_of_fields d show_int es fallback id feature)
        → IsFieldError d id (elim o [
          | some details ↦ some (property_constraint show_int e details id feature)
          | none ↦ error_of_fields d show_int es fallback id feature
        ])
    worded (some details) k = refl
    worded none k = k
