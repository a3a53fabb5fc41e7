-- ===== src/Ocppj/Message/Sample.antt =====
-- A library, an endpoint and a pending request for runs of ocppj/ocppj.go, with numbers as requests and as
-- responses.
use ocpp_go.Base.{ℕ, String, ◌≡◌, ◌≢◌, refl, none, some, [], ◌∷◌, text_discrete}
use ocpp_go.Base.Int.{ℤ}
use ocpp_go.Base.Results.{Result, ok, err}
use ocpp_go.Ocpp.Profile.{Feature, Profile, get_feature, new_profile}
use ocpp_go.Dict.{lookup, insert}
use ocpp_go.Ocppj.State.{ClientState, new_client_state, add_pending_request, get_pending_request}
use ocpp_go.Ocppj.Endpoint.{Element, other, v16, Endpoint, Library, get_profile_for_feature}

-- Only the payloads that are numbers decode.
abbrev pub decode : Element ℤ ℕ → ℕ → Result String ℕ
decode (other n) type = ok n
decode _ type = err "invalid"

abbrev pub library : Library ℤ ℕ ℕ ℕ ℕ
library = record {
  truncate = λ n. n;
  number_of = λ n. n;
  show = λ e. "element";
  show_int = λ n. "number";
  show_errors = λ es. "errors";
  request_feature = λ r. "Heartbeat";
  response_feature = λ r. "Heartbeat";
  marshal_request = λ r. ok (other r);
  marshal_response = λ r. ok (other r);
  details_error = λ d. none;
  unmarshal_request = decode;
  unmarshal_response = decode;
  validate_call = λ c. [];
  validate_call_result = λ r. [];
  validate_call_error = λ e. [];
}

abbrev pub heartbeat : Feature ℕ
heartbeat = record { feature_name = "Heartbeat"; request_type = 1; response_type = 2 }

abbrev pub core : Profile ℕ
core = new_profile "Core" (heartbeat ∷ [])

abbrev pub endpoint : Endpoint ℕ
endpoint = record { dialect = v16; profiles = core ∷ [] }

abbrev pub waiting : ClientState ℕ
waiting = add_pending_request new_client_state "a" (some 7)

pub core_supports : get_profile_for_feature endpoint "Heartbeat" ≡ some core
unfolding get_profile_for_feature new_profile text_discrete lookup insert
core_supports = refl

pub core_finds : get_feature core "Heartbeat" ≡ some heartbeat
unfolding get_feature new_profile text_discrete lookup insert
core_finds = refl

pub a_waits : get_pending_request waiting "a" ≡ some (some 7)
unfolding get_pending_request add_pending_request new_client_state text_discrete
a_waits = refl

pub a_named : ◌≢◌ {A = String} "a" ""
a_named e = cc
