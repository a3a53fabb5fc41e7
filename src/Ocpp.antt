-- ===== src/Ocpp.antt =====
-- ocpp/ocpp.go: the error that the endpoints exchange, and how `errors.Is` matches it; with the local
-- errors that ocppj/ocppj.go makes from it. The cause of an error is given by its text.
pub mod Markers
pub mod Profile
mod Tests
use ocpp_go.Base.{
  String, ite, Bool, true, false, not, ◌&&◌, Option, none, some, text_discrete, test,
}

abbrev pub ErrorCode : Type 0
ErrorCode = String

pub record Error : Type 0 where
  pub code : ErrorCode
  pub description : String
  pub message_id : String
  pub marker : String
  pub cause : Option String

unfoldable pub new_error : ErrorCode → String → String → Error
new_error code description message_id = record {
  code = code;
  description = description;
  message_id = message_id;
  marker = "";
  cause = none;
}

-- `NewHandlerError`: the message ID is added by the handler's parent.
unfoldable pub new_handler_error : ErrorCode → String → Error
new_handler_error code description = record {
  code = code;
  description = description;
  message_id = "";
  marker = "";
  cause = none;
}

-- `err.Is(target)`, for a target that is an `*Error`.
unfoldable pub is : Error → Error → Bool
is err target =
    not (test (text_discrete target.marker "")) && test (text_discrete err.marker target.marker)

unfoldable pub unwrap : Error → Option String
unwrap err = err.cause

abbrev pub generic_error : ErrorCode
generic_error = "GenericError"

abbrev pub internal_error : ErrorCode
internal_error = "InternalError"

abbrev pub request_timeout_marker : String
request_timeout_marker = "ocppj/request-timeout"

abbrev pub request_canceled_marker : String
request_canceled_marker = "ocppj/request-canceled"

abbrev pub dispatcher_stopped_marker : String
dispatcher_stopped_marker = "ocppj/dispatcher-stopped"

abbrev pub local_transport_marker : String
local_transport_marker = "ocppj/local-transport"

abbrev sentinel : String → Error
sentinel marker = record {
  code = "";
  description = "";
  message_id = "";
  marker = marker;
  cause = none;
}

abbrev pub err_request_timeout : Error
err_request_timeout = sentinel request_timeout_marker

abbrev pub err_request_canceled : Error
err_request_canceled = sentinel request_canceled_marker

abbrev pub err_dispatcher_stopped : Error
err_dispatcher_stopped = sentinel dispatcher_stopped_marker

abbrev pub err_local_transport : Error
err_local_transport = sentinel local_transport_marker

unfoldable pub new_request_timeout_error : String → Error
unfolding new_error
new_request_timeout_error message_id =
    record (new_error generic_error "Request timed out" message_id) {
      marker = request_timeout_marker;
    }

abbrev description_of : Option String → String
description_of none = "request canceled"
description_of (some text) = text

unfoldable pub new_request_canceled_error : String → Option String → Error
new_request_canceled_error message_id cause = record {
  code = generic_error;
  description = description_of cause;
  message_id = message_id;
  marker = request_canceled_marker;
  cause = cause;
}

unfoldable pub new_dispatcher_stopped_error : String → Error
unfolding new_error
new_dispatcher_stopped_error message_id =
    record (new_error generic_error "Dispatcher stopped" message_id) {
      marker = dispatcher_stopped_marker;
    }

unfoldable pub new_local_transport_error : ErrorCode → String → String → Error
unfolding new_error
new_local_transport_error code description message_id =
    record (new_error code description message_id) { marker = local_transport_marker }

-- `markLocalTransportError`, ocppj/dispatcher.go: an error without a marker gets one.
unfoldable pub mark_local_transport_error : Error → Error
mark_local_transport_error err =
    ite (text_discrete err.marker "") (record err { marker = local_transport_marker }) err
