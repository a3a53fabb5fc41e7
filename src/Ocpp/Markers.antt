-- ===== src/Ocpp/Markers.antt =====
-- The markers of ocppj/ocppj.go tell the local errors apart, ocpp/ocpp.go.
use ocpp_go.Base.{String, ◌≡◌, refl, Bool, true, false, Option, text_discrete}
use ocpp_go.Ocpp.{
  Error, ErrorCode, new_error, is, err_request_timeout, err_request_canceled,
  err_dispatcher_stopped, err_local_transport, new_request_timeout_error,
  new_request_canceled_error, new_dispatcher_stopped_error, new_local_transport_error,
  mark_local_transport_error,
}

-- Which of the four sentinels an error matches.
pub record Class : Type 0 where
  pub timeout : Bool
  pub canceled : Bool
  pub stopped : Bool
  pub transport : Bool

abbrev pub classify : Error → Class
classify err = record {
  timeout = is err err_request_timeout;
  canceled = is err err_request_canceled;
  stopped = is err err_dispatcher_stopped;
  transport = is err err_local_transport;
}

abbrev pub class_of : Bool → Bool → Bool → Bool → Class
class_of a b c d = record { timeout = a; canceled = b; stopped = c; transport = d }

-- Each local error matches its own sentinel and no other, whatever its texts are; an error as it
-- comes from the peer matches none, whatever its code; marking it makes it a transport error, and
-- does not change an error that has a marker.
pub markers_apart :
    (id text : String) (cause : Option String) (code : ErrorCode)
    → (classify (new_request_timeout_error id) ≡ class_of true false false false)
      × (classify (new_request_canceled_error id cause) ≡ class_of false true false false)
      × (classify (new_dispatcher_stopped_error id) ≡ class_of false false true false)
      × (classify (new_local_transport_error code text id) ≡ class_of false false false true)
      × (classify (new_error code text id) ≡ class_of false false false false)
      × (classify (mark_local_transport_error (new_error code text id))
          ≡ class_of false false false true)
      × (mark_local_transport_error (new_request_timeout_error id) ≡ new_request_timeout_error id)
      × (mark_local_transport_error (new_request_canceled_error id cause)
          ≡ new_request_canceled_error id cause)
      × (mark_local_transport_error (new_dispatcher_stopped_error id)
          ≡ new_dispatcher_stopped_error id)
unfolding is new_request_timeout_error new_request_canceled_error new_dispatcher_stopped_error
    new_local_transport_error mark_local_transport_error text_discrete
markers_apart id text cause code = (refl, refl, refl, refl, refl, refl, refl, refl, refl)
