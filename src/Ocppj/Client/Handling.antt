-- ===== src/Ocppj/Client/Handling.antt =====
-- `ocppMessageHandler` of ocppj/client.go: what a client endpoint does with a message.
pub mod Answers
pub mod Replies
mod Tests
use ocpp_go.Base.{
  String, Bool, true, false, not, Option, none, some, List, [], ◌∷◌, ◌++◌, text_discrete, test,
  if◌then◌else◌,
}
use ocpp_go.Base.Results.{Result, ok, err}
use ocpp_go.Ocpp.{Error, new_error, internal_error}
use ocpp_go.Ocppj.Bundle.{Call}
use ocpp_go.Ocppj.Dispatcher.{Dispatcher, complete_request, receive}
use ocpp_go.Ocppj.Endpoint.{
  Element, nil, Failure, ocpp_error, other_error, CallResult, CallError, Library,
}
use ocpp_go.Ocppj.Message.Parse.{
  Message, call_message, call_result_message, call_error_message, no_message, invalid, panicked,
  parse_message,
}
use ocpp_go.Ocppj.Client.{
  Client, Around, request_handled, response_handled, error_handled, hook_asked,
  request_handler_kind, response_handler_kind, error_handler_kind, invalid_message_handler_kind,
  called, report_handler_panic, send_error, run_handler,
}

-- The handler returns with an error or without, or the parsing panicked.
pub data Handled (Number Value T Request Response : Type 0) : Type 0 where
  returned :
      Client Number Value T Request Response
      → Option Failure
      → Handled Number Value T Request Response
  crashed : Handled Number Value T Request Response

-- The error that is answered and returned.
unfoldable pub error_to_send : String → Error → Option Error → Error
error_to_send message_id left none = left
error_to_send message_id left (some e) = record e { message_id = message_id }

module _ {Number Value T Request Response : Type 0}
    (library : Library Number Value T Request Response)
    (around : Around Number Value Request Response) where
  -- The request handler; if it panics the peer gets an InternalError.
  unfoldable pub on_call :
      Client Number Value T Request Response → Call Request → Client Number Value T Request Response
  unfolding report_handler_panic send_error
  on_call c call =
      let h = request_handled call.payload call.unique_id call.action in
      if c.request_handler
      then if around.panics h
        then (send_error library around
            (report_handler_panic (called c h) request_handler_kind call.action call.unique_id)
            call.unique_id internal_error "internal error while handling request" nil).0
        else called c h
      else c

  -- A handler only for the call of `CompleteRequest` that completed the request.
  unfoldable pub on_call_result :
      Client Number Value T Request Response
      → CallResult Response
      → Client Number Value T Request Response
  unfolding complete_request receive run_handler
  on_call_result c result =
      let c' = record c { dispatcher = receive c.dispatcher result.unique_id } in
      if (complete_request c.dispatcher result.unique_id).1
      then run_handler library around c.response_handler c'
          (response_handled result.payload result.unique_id) response_handler_kind ""
          result.unique_id
      else c'

  unfoldable pub on_call_error :
      Client Number Value T Request Response
      → CallError Number Value
      → Client Number Value T Request Response
  unfolding complete_request receive run_handler new_error
  on_call_error c e =
      let c' = record c { dispatcher = receive c.dispatcher e.unique_id } in
      let ocpp_err = new_error e.error_code e.error_description e.unique_id in
      if (complete_request c.dispatcher e.unique_id).1
      then run_handler library around c.error_handler c' (error_handled ocpp_err e.error_details)
          error_handler_kind "" e.unique_id
      else c'

  -- The hook's call: how it leaves the error, and the error it returns. A panic restores the error.
  unfoldable pub ask_hook :
      Client Number Value T Request Response
      → Error
      → List (Element Number Value)
      → Client Number Value T Request Response × Error × Option Error
  unfolding report_handler_panic
  ask_hook c e fields =
      let h = hook_asked e fields in
      let (left, result) = around.hook e in
      if c.invalid_message_hook
      then if around.panics h
        then (
          report_handler_panic (called c h) invalid_message_handler_kind "" e.message_id,
          e,
          none,
        )
        else (called c h, left, result)
      else (c, e, none)

  unfoldable pub on_invalid :
      Client Number Value T Request Response
      → Error
      → List (Element Number Value)
      → Handled Number Value T Request Response
  unfolding ask_hook error_to_send send_error
  on_invalid c e fields =
      let (c', left, result) = ask_hook c e fields in
      let out = error_to_send e.message_id left result in
      if test (text_discrete out.message_id "")
      then returned c' (some (ocpp_error out))
      else let (c'', failed) =
          send_error library around c' out.message_id out.code out.description nil in
        elim failed [
          | none ↦ returned c'' (some (ocpp_error out))
          | some e2 ↦ returned c'' (some e2)
        ]

  unfoldable pub on_parsed :
      Message Number Value Request Response
      → Client Number Value T Request Response
      → List (Element Number Value)
      → Handled Number Value T Request Response
  unfolding on_call on_call_result on_call_error on_invalid
  on_parsed (call_message call) c fields = returned (on_call c call) none
  on_parsed (call_result_message result) c fields = returned (on_call_result c result) none
  on_parsed (call_error_message e) c fields = returned (on_call_error c e) none
  on_parsed no_message c fields = returned c none
  on_parsed (invalid e) c fields = on_invalid c e fields
  on_parsed panicked c fields = crashed

  -- Of the decoded array, or the decoder's error.
  unfoldable pub ocpp_message_handler :
      Client Number Value T Request Response
      → Result String (List (Element Number Value))
      → Handled Number Value T Request Response
  unfolding parse_message on_parsed
  ocpp_message_handler c (err e) = returned c (some (other_error e))
  ocpp_message_handler c (ok fields) =
      on_parsed (parse_message library c.endpoint fields c.dispatcher.pending_request_state) c
        fields
