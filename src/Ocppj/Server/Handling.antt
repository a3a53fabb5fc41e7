-- ===== src/Ocppj/Server/Handling.antt =====
-- `ocppMessageHandler` of ocppj/server.go: what a server endpoint does with a message of a client.
pub mod Locality
pub mod Apart
mod Tests
use ocpp_go.Base.{
  String, Bool, true, false, Option, none, some, List, [], ◌∷◌, ◌++◌, text_discrete, test,
  if◌then◌else◌,
}
use ocpp_go.Base.Results.{Result, ok, err}
use ocpp_go.Ocpp.{Error, new_error, internal_error}
use ocpp_go.Ocppj.State.{get_client_state}
use ocpp_go.Ocppj.Bundle.{Call}
use ocpp_go.Ocppj.ServerDispatcher.{complete_request, receive}
use ocpp_go.Ocppj.Endpoint.{
  Element, nil, Failure, ocpp_error, other_error, CallResult, CallError, Library,
}
use ocpp_go.Ocppj.Message.Parse.{
  Message, call_message, call_result_message, call_error_message, no_message, invalid, panicked,
  parse_message,
}
use ocpp_go.Ocppj.Client.{
  Around, request_handled, response_handled, error_handled, hook_asked, request_handler_kind,
  response_handler_kind, error_handler_kind, invalid_message_handler_kind,
}
use ocpp_go.Ocppj.Client.Handling.{error_to_send}
use ocpp_go.Ocppj.Server.{Server, called, report_handler_panic, send_error, run_handler}

-- The handler returns with an error or without, or the parsing panicked.
pub data Handled (Number Value T Request Response : Type 0) : Type 0 where
  returned :
      Server Number Value T Request Response
      → Option Failure
      → Handled Number Value T Request Response
  crashed : Handled Number Value T Request Response

module _ {Number Value T Request Response : Type 0}
    (library : Library Number Value T Request Response)
    (around : String → Around Number Value Request Response) where
  -- The request handler; if it panics the client gets an InternalError.
  unfoldable pub on_call :
      Server Number Value T Request Response
      → String
      → Call Request
      → Server Number Value T Request Response
  unfolding report_handler_panic send_error
  on_call s client_id call =
      let h = request_handled call.payload call.unique_id call.action in
      if s.request_handler
      then if (around client_id).panics h
        then (send_error library around
            (report_handler_panic (called s client_id h) request_handler_kind client_id call.action
              call.unique_id)
            client_id call.unique_id internal_error "internal error while handling request" nil).0
        else called s client_id h
      else s

  -- A handler only for the call of `CompleteRequest` that completed the request.
  unfoldable pub on_call_result :
      Server Number Value T Request Response
      → String
      → CallResult Response
      → Server Number Value T Request Response
  unfolding complete_request receive run_handler
  on_call_result s client_id result =
      let s' = record s { dispatcher = receive s.dispatcher client_id result.unique_id } in
      if (complete_request s.dispatcher client_id result.unique_id).1
      then run_handler library around s.response_handler s' client_id
          (response_handled result.payload result.unique_id) response_handler_kind result.unique_id
      else s'

  unfoldable pub on_call_error :
      Server Number Value T Request Response
      → String
      → CallError Number Value
      → Server Number Value T Request Response
  unfolding complete_request receive run_handler new_error
  on_call_error s client_id e =
      let s' = record s { dispatcher = receive s.dispatcher client_id e.unique_id } in
      let ocpp_err = new_error e.error_code e.error_description e.unique_id in
      if (complete_request s.dispatcher client_id e.unique_id).1
      then run_handler library around s.error_handler s' client_id
          (error_handled ocpp_err e.error_details) error_handler_kind e.unique_id
      else s'

  -- The hook's call: how it leaves the error, and the error it returns. A panic restores the error.
  unfoldable pub ask_hook :
      Server Number Value T Request Response
      → String
      → Error
      → List (Element Number Value)
      → Server Number Value T Request Response × Error × Option Error
  unfolding report_handler_panic
  ask_hook s client_id e fields =
      let h = hook_asked e fields in
      let (left, result) = (around client_id).hook e in
      if s.invalid_message_hook
      then if (around client_id).panics h
        then (
          report_handler_panic (called s client_id h) invalid_message_handler_kind client_id ""
              e.message_id,
          e,
          none,
        )
        else (called s client_id h, left, result)
      else (s, e, none)

  unfoldable pub on_invalid :
      Server Number Value T Request Response
      → String
      → Error
      → List (Element Number Value)
      → Handled Number Value T Request Response
  unfolding ask_hook error_to_send send_error
  on_invalid s client_id e fields =
      let (s', left, result) = ask_hook s client_id e fields in
      let out = error_to_send e.message_id left result in
      if test (text_discrete out.message_id "")
      then returned s' (some (ocpp_error out))
      else let (s'', failed) =
          send_error library around s' client_id out.message_id out.code out.description nil in
        elim failed [
          | none ↦ returned s'' (some (ocpp_error out))
          | some e2 ↦ returned s'' (some e2)
        ]

  unfoldable pub on_parsed :
      Message Number Value Request Response
      → Server Number Value T Request Response
      → String
      → List (Element Number Value)
      → Handled Number Value T Request Response
  unfolding on_call on_call_result on_call_error on_invalid
  on_parsed (call_message call) s client_id fields = returned (on_call s client_id call) none
  on_parsed (call_result_message result) s client_id fields =
      returned (on_call_result s client_id result) none
  on_parsed (call_error_message e) s client_id fields = returned (on_call_error s client_id e) none
  on_parsed no_message s client_id fields = returned s none
  on_parsed (invalid e) s client_id fields = on_invalid s client_id e fields
  on_parsed panicked s client_id fields = crashed

  -- Of the decoded array, or the decoder's error; looking up the client's state may make it.
  unfoldable pub ocpp_message_handler :
      Server Number Value T Request Response
      → String
      → Result String (List (Element Number Value))
      → Handled Number Value T Request Response
  unfolding parse_message on_parsed get_client_state
  ocpp_message_handler s client_id (err e) = returned s (some (other_error e))
  ocpp_message_handler s client_id (ok fields) =
      let (states, pending) = get_client_state s.dispatcher.pending_request_state client_id in
      on_parsed (parse_message library s.endpoint fields pending)
        (record s { dispatcher = record (s.dispatcher) { pending_request_state = states } })
        client_id fields
