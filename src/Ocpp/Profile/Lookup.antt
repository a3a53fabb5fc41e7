-- ===== src/Ocpp/Profile/Lookup.antt =====
-- ocpp/ocpp.go: which feature of a profile answers to a name.
use ocpp_go.Base.{
  String, ◌≡◌, refl, ◌∙◌, ap, ite, Option, none, some, List, [], ◌∷◌, text_discrete, is_some,
}
use ocpp_go.Dict.{lookup, lookup-insert}
use ocpp_go.Ocpp.Profile.{
  Feature, Profile, Parsed, feature_not_found, parsed_by, add_feature, add_features, new_profile,
  supports_feature, get_feature, parse_request, parse_response,
}

module _ {T : Type 0} where
  -- The last feature of that name, or the given one.
  abbrev pub last_named : List (Feature T) → String → Option (Feature T) → Option (Feature T)
  last_named [] name found = found
  last_named (f ∷ fs) name found =
      last_named fs name (ite (text_discrete f.feature_name name) (some f) found)

  add_features-get :
      (p : Profile T) (fs : List (Feature T)) (name : String)
      → lookup name (add_features p fs).features ≡ last_named fs name (lookup name p.features)
  unfolding add_features add_feature
  add_features-get p [] name = refl
  add_features-get p (f ∷ fs) name =
      add_features-get (add_feature p f) fs name
      ∙ ap (last_named fs name) (lookup-insert f.feature_name name f p.features)

  -- How a name is answered, by the feature found for it.
  abbrev pub expected_parse :
      {A : Type 0} {R : Type 0}
      → String
      → A
      → (A → T → R)
      → (Feature T → T)
      → Option (Feature T)
      → Parsed R
  expected_parse name raw parser type_of none = feature_not_found name
  expected_parse name raw parser type_of (some f) = parsed_by (parser raw (type_of f))

  -- In a new profile a name is answered by the last of the given features with that name:
  -- GetFeature, SupportsFeature, ParseRequest and ParseResponse agree on it, the parser gets that
  -- feature's type, and without such a feature the parsing returns the error that it was not
  -- found.
  pub new_profile_lem :
      {A : Type 0} {R : Type 0} (title : String) (fs : List (Feature T)) (name : String) (raw : A)
      → (parser : A → T → R)
      → let p = new_profile title fs in
        let found = last_named fs name none in
        (get_feature p name ≡ found)
        × (supports_feature p name ≡ is_some found)
        × (parse_request p name raw parser
            ≡ expected_parse name raw parser (λ f. f.request_type) found)
        × (parse_response p name raw parser
            ≡ expected_parse name raw parser (λ f. f.response_type) found)
  unfolding new_profile get_feature supports_feature parse_request parse_response lookup
  new_profile_lem {R} title fs name raw parser =
      let e = add_features-get (record { name = title; features = [] }) fs name in
      (
        e,
        ap (λ o. is_some o) e,
        ap (expected_parse name raw parser (λ f. f.request_type)) e,
        ap (expected_parse name raw parser (λ f. f.response_type)) e,
      )
