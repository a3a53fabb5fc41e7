-- ===== src/Ocppj/Server.antt =====
-- ocppj/server.go and ocppj/panic.go: the server endpoint, over its dispatcher and the codec. Its `RequestState` is
-- the dispatcher's, which `NewServer` hands the same pointer. As for the client endpoint, a method or the
-- handling of one message is a function on its state, and two lists keep what goes out, by client.
pub mod Handling
use ocpp_go.Base.{
  ℕ, String, Bool, true, false, Option, none, some, List, [], ◌∷◌, ◌++◌, if◌then◌else◌,
}
use ocpp_go.Base.Results.{Result, ok, err}
use ocpp_go.Ocpp.{Error, ErrorCode, new_error, generic_error}
use ocpp_go.Ocpp.Profile.{Profile}
use ocpp_go.Ocppj.QueueMap.{new_fifo_queue_map}
use ocpp_go.Ocppj.State.{ServerState, clear_client_pending_request}
use ocpp_go.Ocppj.Bundle.{Call, RequestBundle}
use ocpp_go.Ocppj.ServerDispatcher.{
  ServerDispatcher, new_default_server_dispatcher, set_network_server, set_pending_request_state,
  is_running, send_request, create_client, delete_client_and_wait,
}
use ocpp_go.Ocppj.Endpoint.{
  Element, nil, invalid_dialect, Endpoint, Failure, validation_errors, ocpp_error, other_error,
  Library,
}
use ocpp_go.Ocppj.Message.{
  create_call, create_call_result, create_call_error, marshal_call, marshal_call_result,
  marshal_call_error, error_from_validation,
}
use ocpp_go.Ocppj.Client.{
  Around, HandlerKind, HandlerPanic, HandlerCall, connected, closed, panic_reported,
  connect_handler_kind, disconnect_handler_kind, add_profiles,
}

-- Each handler is there or not.
pub record Server (Number Value T Request Response : Type 0) : Type 0 where
  pub endpoint : Endpoint T
  pub dispatcher : ServerDispatcher Request
  pub new_client_handler : Bool
  pub disconnected_client_handler : Bool
  pub request_handler : Bool
  pub response_handler : Bool
  pub error_handler : Bool
  pub on_handler_panic : Bool
  pub invalid_message_hook : Bool
  pub sent : List (String × List (Element Number Value))
  pub calls : List (String × HandlerCall Number Value Request Response)

module _ {Number Value T Request Response : Type 0} where
  -- Without a state handler the dispatcher's own state is taken.
  unfoldable pub new_server :
      Option (ServerDispatcher Request)
      → Option (ServerState Request)
      → List (Profile T)
      → Server Number Value T Request Response
  unfolding new_default_server_dispatcher new_fifo_queue_map set_network_server
      set_pending_request_state add_profiles
  new_server dispatcher state_handler profiles =
      let d : ServerDispatcher Request = elim dispatcher [
        | none ↦ new_default_server_dispatcher (new_fifo_queue_map 0)
        | some d ↦ d
      ] in
      let state : ServerState Request = elim state_handler [
        | none ↦ d.pending_request_state
        | some s ↦ s
      ] in
      record {
        endpoint = add_profiles (record { dialect = invalid_dialect; profiles = [] }) profiles;
        dispatcher = set_pending_request_state (set_network_server d true) state;
        new_client_handler = false;
        disconnected_client_handler = false;
        request_handler = false;
        response_handler = false;
        error_handler = false;
        on_handler_panic = false;
        invalid_message_hook = false;
        sent = [];
        calls = [];
      }

  abbrev pub called :
      Server Number Value T Request Response
      → String
      → HandlerCall Number Value Request Response
      → Server Number Value T Request Response
  called s client_id h = record s { calls = s.calls ++ (client_id, h) ∷ [] }

  -- `reportHandlerPanic`, up to what runs after it.
  unfoldable pub report_handler_panic :
      Server Number Value T Request Response
      → HandlerKind
      → String
      → String
      → String
      → Server Number Value T Request Response
  report_handler_panic s kind client_id action request_id =
      if s.on_handler_panic
      then called s client_id
          (panic_reported (record { kind = kind; action = action; request_id = request_id }))
      else s

module _ {Number Value T Request Response : Type 0}
    (library : Library Number Value T Request Response)
    (around : String → Around Number Value Request Response) where
  -- The write of a message; a failure is a GenericError for that ID.
  unfoldable pub write_message :
      Server Number Value T Request Response
      → String
      → String
      → List (Element Number Value)
      → Server Number Value T Request Response × Option Failure
  unfolding new_error
  write_message s client_id request_id fields = elim ((around client_id).write fields) [
    | some e ↦ (s, some (ocpp_error (new_error generic_error e request_id)))
    | none ↦ (record s { sent = s.sent ++ (client_id, fields) ∷ [] }, none)
  ]

  unfoldable pub send_response :
      Server Number Value T Request Response
      → String
      → String
      → Response
      → Server Number Value T Request Response × Option Failure
  unfolding create_call_result marshal_call_result write_message new_error
  send_response s client_id request_id response =
      elim (create_call_result library s.endpoint (around client_id).validation response
        request_id) [
          | err e ↦ (s, some e)
          | ok result ↦ elim (marshal_call_result library result) [
            | err e ↦ (s, some (ocpp_error (new_error generic_error e request_id)))
            | ok fields ↦ write_message s client_id request_id fields
          ]
        ]

  unfoldable pub send_error :
      Server Number Value T Request Response
      → String
      → String
      → ErrorCode
      → String
      → Element Number Value
      → Server Number Value T Request Response × Option Failure
  unfolding create_call_error marshal_call_error write_message new_error
  send_error s client_id request_id error_code description details =
      elim (create_call_error library (around client_id).validation request_id error_code
        description details) [
          | err e ↦ (s, some e)
          | ok call_error ↦ elim (marshal_call_error library call_error) [
            | err e ↦ (s, some (ocpp_error (new_error generic_error e request_id)))
            | ok fields ↦ write_message s client_id request_id fields
          ]
        ]

  -- `SendRequestCtx`; `encode` and `unique_id` as for the client.
  unfoldable pub send_request_ctx :
      Server Number Value T Request Response
      → (List (Element Number Value) → String)
      → Option ℕ
      → String
      → Request
      → String
      → Server Number Value T Request Response × Result Failure String
  unfolding is_running create_call marshal_call send_request
  send_request_ctx s encode ctx client_id request unique_id =
      if is_running s.dispatcher
      then elim (create_call library s.endpoint (around client_id).validation request unique_id) [
        | err e ↦ (s, err e)
        | ok call ↦ elim (marshal_call library call) [
          | err e ↦ (s, err (other_error e))
          | ok fields ↦
              let (d, taken) =
                send_request s.dispatcher client_id
                  (record { call = some call; bytes = some (encode fields); ctx = ctx }) in
              (
                record s { dispatcher = d },
                if taken then ok call.unique_id else err (other_error "error dispatching request"),
              )
        ]
      ]
      else (s, err (other_error "ocppj server is not started, couldn't send request"))

  -- `HandleFailedResponseError`; `none` is a panic.
  unfoldable pub handle_failed_response_error :
      Server Number Value T Request Response
      → String
      → String
      → Failure
      → String
      → Option (Server Number Value T Request Response)
  unfolding error_from_validation send_error new_error
  handle_failed_response_error s client_id request_id (validation_errors es) feature_name =
      elim (error_from_validation library s.endpoint es request_id feature_name) [
        | none ↦ none
        | some e ↦ some (send_error s client_id request_id e.code e.description nil).0
      ]
  handle_failed_response_error s client_id request_id (ocpp_error e) feature_name =
      some (send_error s client_id request_id e.code e.description nil).0
  handle_failed_response_error s client_id request_id (other_error text) feature_name =
      some (send_error s client_id request_id generic_error text nil).0

  -- A handler, if it is there; a panic of it is recovered and reported.
  unfoldable pub run_handler :
      Bool
      → Server Number Value T Request Response
      → String
      → HandlerCall Number Value Request Response
      → HandlerKind
      → String
      → Server Number Value T Request Response
  unfolding report_handler_panic
  run_handler there s client_id h kind request_id =
      if there
      then if (around client_id).panics h
        then report_handler_panic (called s client_id h) kind client_id "" request_id
        else called s client_id h
      else s

  unfoldable pub on_client_connected :
      Server Number Value T Request Response → String → Server Number Value T Request Response
  unfolding create_client run_handler
  on_client_connected s client_id =
      run_handler s.new_client_handler
        (record s { dispatcher = create_client s.dispatcher client_id }) client_id connected
        connect_handler_kind ""

  unfoldable pub on_client_disconnected :
      Server Number Value T Request Response → String → Server Number Value T Request Response
  unfolding delete_client_and_wait clear_client_pending_request run_handler
  on_client_disconnected s client_id =
      let d = delete_client_and_wait s.dispatcher client_id in
      run_handler s.disconnected_client_handler
        (record s {
          dispatcher = record d {
            pending_request_state = clear_client_pending_request d.pending_request_state client_id;
          };
        })
        client_id closed disconnect_handler_kind ""
