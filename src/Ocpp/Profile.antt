-- ===== src/Ocpp/Profile.antt =====
-- ocpp/ocpp.go: profiles, sets of features by name. A feature's request and response types are values
-- of any type; the parser that `ParseRequest` and `ParseResponse` call is a parameter.
pub mod Lookup
use ocpp_go.Base.{String, Bool, true, false, Option, none, some, List, [], ◌∷◌}
use ocpp_go.Dict.{Dict, lookup, insert}

-- What the methods of a `Feature` return.
pub record Feature (T : Type 0) : Type 0 where
  pub feature_name : String
  pub request_type : T
  pub response_type : T

pub record Profile (T : Type 0) : Type 0 where
  pub name : String
  pub features : Dict (Feature T)

-- What parsing returns: the error "Feature … not found", or the parser's own result.
pub data Parsed (R : Type 0) : Type 0 where
  feature_not_found : String → Parsed R
  parsed_by : R → Parsed R

module _ {T : Type 0} where
  unfoldable pub add_feature : Profile T → Feature T → Profile T
  add_feature p feature = record p { features = insert feature.feature_name feature p.features }

  -- The loop of `NewProfile`.
  unfoldable pub add_features : Profile T → List (Feature T) → Profile T
  unfolding add_feature
  add_features p [] = p
  add_features p (feature ∷ features) = add_features (add_feature p feature) features

  unfoldable pub new_profile : String → List (Feature T) → Profile T
  unfolding add_features
  new_profile name features = add_features (record { name = name; features = [] }) features

  unfoldable pub supports_feature : Profile T → String → Bool
  supports_feature p name = elim (lookup name p.features) [ none ↦ false | some _ ↦ true ]

  unfoldable pub get_feature : Profile T → String → Option (Feature T)
  get_feature p name = lookup name p.features

  unfoldable pub parse_request :
      {A : Type 0} {R : Type 0} → Profile T → String → A → (A → T → R) → Parsed R
  parse_request p feature_name raw_request request_parser = elim (lookup feature_name p.features) [
    | none ↦ feature_not_found feature_name
    | some feature ↦ parsed_by (request_parser raw_request feature.request_type)
  ]

  unfoldable pub parse_response :
      {A : Type 0} {R : Type 0} → Profile T → String → A → (A → T → R) → Parsed R
  parse_response p feature_name raw_response response_parser =
      elim (lookup feature_name p.features) [
        | none ↦ feature_not_found feature_name
        | some feature ↦ parsed_by (response_parser raw_response feature.response_type)
      ]
