-- ===== src/Ocppj/Message/Stray.antt =====
-- ocppj/ocppj.go: `ParseMessage` on a result or an error that no request waits for.
use ocpp_go.Base.{
  String, ◌≡◌, refl, ◌⊎◌, inl, inr, Bool, false, not, ◌&&◌, ◌||◌, test, is_some, arith, ap, sym,
  subst, ℕ_discrete, Option, none, some, List, ◌∷◌, text_discrete,
}
use ocpp_go.Base.Int.{ℤ, ℤ_discrete}
use ocpp_go.Ocppj.State.{ClientState, get_pending_request}
use ocpp_go.Ocppj.Endpoint.{Element, number, text, Endpoint, Library}
use ocpp_go.Ocppj.Message.{call_result_type, call_error_type}
use ocpp_go.Ocppj.Message.Parse.{
  no_message, parse_call_result, parse_call_error, parse_body, parse_id, parse_type, parse_message,
}

-- Whether an ID that nothing waits for makes a stray.
abbrev is_stray_answer : ℤ → String → Bool
is_stray_answer type_id id =
    not (test (text_discrete id ""))
    && (test (ℤ_discrete type_id call_result_type) || test (ℤ_discrete type_id call_error_type))

module _ {Number Value T Request Response : Type 0}
    (library : Library Number Value T Request Response) (pending : ClientState Request) where
  -- A result or an error whose ID is not empty and that no request waits for.
  abbrev pub is_stray : List (Element Number Value) → Bool
  is_stray (number n ∷ text id ∷ third ∷ rest) =
      is_stray_answer (library.truncate n) id && not (is_some (get_pending_request pending id))
  is_stray _ = false

module _ {Number Value T Request Response : Type 0}
    (library : Library Number Value T Request Response) (endpoint : Endpoint T)
    (pending : ClientState Request) where
  result_discarded :
      (type_id : ℤ) (id : String) (third : Element Number Value)
      → (rest : List (Element Number Value)) → get_pending_request pending id ≡ none
      → type_id ≡ call_result_type
      → parse_body library endpoint type_id id third rest pending ≡ no_message
  unfolding parse_body parse_call_result ℤ_discrete ℕ_discrete text_discrete
  result_discarded type_id id third rest e p =
      subst (λ t. parse_body library endpoint t id third rest pending ≡ no_message) (sym p)
        (ap (λ o. parse_call_result library endpoint o id third) e)

  error_discarded :
      (type_id : ℤ) (id : String) (third : Element Number Value)
      → (rest : List (Element Number Value)) → get_pending_request pending id ≡ none
      → type_id ≡ call_error_type
      → parse_body library endpoint type_id id third rest pending ≡ no_message
  unfolding parse_body parse_call_error ℤ_discrete ℕ_discrete text_discrete
  error_discarded type_id id third rest e p =
      subst (λ t. parse_body library endpoint t id third rest pending ≡ no_message) (sym p)
        (ap (λ o. parse_call_error library endpoint o id third rest) e)

  answer_discarded :
      (type_id : ℤ) (id : String) (third : Element Number Value)
      → (rest : List (Element Number Value)) → get_pending_request pending id ≡ none
      → (is_stray_answer type_id id ≡ false)
        ⊎ (parse_id library endpoint type_id (text id) third rest pending ≡ no_message)
  unfolding parse_id
  answer_discarded type_id id third rest e =
      ground
        (arith, result_discarded type_id id third rest e, error_discarded type_id id third rest e)

  by_pending :
      (o : Option (Option Request)) (type_id : ℤ) (id : String) (third : Element Number Value)
      → (rest : List (Element Number Value)) → get_pending_request pending id ≡ o
      → ((is_stray_answer type_id id && not (is_some o)) ≡ false)
        ⊎ (parse_id library endpoint type_id (text id) third rest pending ≡ no_message)
  by_pending (some r) type_id id third rest e = inl (ground arith)
  by_pending none type_id id third rest e = elim (answer_discarded type_id id third rest e) [
    | inl p ↦ inl (rw p refl)
    | inr p ↦ inr p
  ]

  pub stray_discarded :
      (arr : List (Element Number Value))
      → (is_stray library pending arr ≡ false)
        ⊎ (parse_message library endpoint arr pending ≡ no_message)
  unfolding parse_message parse_type
  stray_discarded (number n ∷ text id ∷ third ∷ rest) =
      by_pending (get_pending_request pending id) (library.truncate n) id third rest refl
  stray_discarded _ = inl refl
