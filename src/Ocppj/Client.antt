-- ===== src/Ocppj/Client.antt =====
-- ocppj/client.go and ocppj/panic.go: the client endpoint, over its dispatcher and the codec. Its `RequestState` is
-- the dispatcher's, which `NewClient` hands the same pointer. A method or the handling of one message is
-- a function on its state; what goes out is kept in two lists, messages and calls of the consumer's
-- functions. What these functions do in turn are steps of their own.
pub mod Handling
use ocpp_go.Base.{
  ℕ, String, ◌<>◌, ite, Bool, true, false, not, ◌&&◌, Option, none, some, List, [], ◌∷◌, ◌++◌,
  text_discrete, test, if◌then◌else◌,
}
use ocpp_go.Base.Results.{Result, ok, err}
use ocpp_go.Ocpp.{Error, ErrorCode, new_error, generic_error, internal_error}
use ocpp_go.Ocpp.Profile.{Profile}
use ocpp_go.Ocppj.Queue.{new_fifo_client_queue}
use ocpp_go.Ocppj.State.{ClientState, new_client_state}
use ocpp_go.Ocppj.Bundle.{Call, RequestBundle}
use ocpp_go.Ocppj.Dispatcher.{
  Dispatcher, new_default_client_dispatcher, set_network_client, set_pending_request_state,
  set_on_request_canceled, is_running, send_request, start, stop, pause, resume,
}
use ocpp_go.Ocppj.Endpoint.{
  Element, nil, invalid_dialect, Endpoint, Failure, validation_errors, ocpp_error, other_error,
  CallResult, CallError, Library, add_profile,
}
use ocpp_go.Ocppj.Message.{
  create_call, create_call_result, create_call_error, marshal_call, marshal_call_result,
  marshal_call_error, error_from_validation,
}

-- `HandlerKind`, but for the dispatchers' cancel handler.
pub data HandlerKind : Type 0 where
  request_handler_kind response_handler_kind error_handler_kind connect_handler_kind : HandlerKind
  disconnect_handler_kind : HandlerKind
  reconnect_handler_kind invalid_message_handler_kind : HandlerKind

-- `HandlerPanic`, but for the value and the stack.
pub record HandlerPanic : Type 0 where
  pub kind : HandlerKind
  pub action : String
  pub request_id : String

-- A call of a function of the consumer; a server's handlers of connections are the last but one and two.
pub data HandlerCall (Number Value Request Response : Type 0) : Type 0 where
  request_handled : Option Request → String → String → HandlerCall Number Value Request Response
  response_handled : Response → String → HandlerCall Number Value Request Response
  error_handled : Error → Element Number Value → HandlerCall Number Value Request Response
  hook_asked : Error → List (Element Number Value) → HandlerCall Number Value Request Response
  disconnected_handled : String → HandlerCall Number Value Request Response
  reconnected_handled : HandlerCall Number Value Request Response
  connected closed : HandlerCall Number Value Request Response
  panic_reported : HandlerPanic → HandlerCall Number Value Request Response

-- Each handler is there or not.
pub record Client (Number Value T Request Response : Type 0) : Type 0 where
  pub endpoint : Endpoint T
  pub id : String
  pub dispatcher : Dispatcher Request
  pub request_handler : Bool
  pub response_handler : Bool
  pub error_handler : Bool
  pub on_handler_panic : Bool
  pub on_disconnected_handler : Bool
  pub on_reconnected_handler : Bool
  pub invalid_message_hook : Bool
  pub sent : List (List (Element Number Value))
  pub calls : List (HandlerCall Number Value Request Response)

-- What the consumer's functions and the network do: whether a call panics, how the hook leaves the error
-- and what it returns, the error of a write; and the setting of ocppj/validation.go.
pub record Around (Number Value Request Response : Type 0) : Type 0 where
  pub panics : HandlerCall Number Value Request Response → Bool
  pub hook : Error → Error × Option Error
  pub write : List (Element Number Value) → Option String
  pub validation : Bool

module _ {T : Type 0} where
  -- The loop of `NewClient`.
  unfoldable pub add_profiles : Endpoint T → List (Profile T) → Endpoint T
  unfolding add_profile
  add_profiles e [] = e
  add_profiles e (p ∷ profiles) = add_profiles (add_profile e p) profiles

module _ {Number Value T Request Response : Type 0} where
  -- A dispatcher or a state that is not given is made. The websocket client is given: nil panics.
  unfoldable pub new_client :
      String
      → Option (Dispatcher Request)
      → Option (ClientState Request)
      → List (Profile T)
      → Client Number Value T Request Response
  unfolding add_profiles new_default_client_dispatcher set_network_client set_pending_request_state
      new_fifo_client_queue new_client_state
  new_client id dispatcher state_handler profiles =
      let d : Dispatcher Request = elim dispatcher [
        | none ↦ new_default_client_dispatcher (new_fifo_client_queue 10)
        | some d ↦ d
      ] in
      let state : ClientState Request = elim state_handler [
        | none ↦ new_client_state
        | some s ↦ s
      ] in
      record {
        endpoint = add_profiles (record { dialect = invalid_dialect; profiles = [] }) profiles;
        id = id;
        dispatcher = set_pending_request_state (set_network_client d true) state;
        request_handler = false;
        response_handler = false;
        error_handler = false;
        on_handler_panic = false;
        on_disconnected_handler = false;
        on_reconnected_handler = false;
        invalid_message_hook = false;
        sent = [];
        calls = [];
      }

  abbrev pub called :
      Client Number Value T Request Response
      → HandlerCall Number Value Request Response
      → Client Number Value T Request Response
  called c h = record c { calls = c.calls ++ h ∷ [] }

  -- `reportHandlerPanic`, up to what runs after it.
  unfoldable pub report_handler_panic :
      Client Number Value T Request Response
      → HandlerKind
      → String
      → String
      → Client Number Value T Request Response
  report_handler_panic c kind action request_id =
      if c.on_handler_panic
      then called c
          (panic_reported (record { kind = kind; action = action; request_id = request_id }))
      else c

module _ {Number Value T Request Response : Type 0}
    (library : Library Number Value T Request Response)
    (around : Around Number Value Request Response) where
  -- The write of a message; a failure is a GenericError for that ID.
  unfoldable pub write_message :
      Client Number Value T Request Response
      → String
      → List (Element Number Value)
      → Client Number Value T Request Response × Option Failure
  unfolding new_error
  write_message c request_id fields = elim (around.write fields) [
    | some e ↦ (c, some (ocpp_error (new_error generic_error e request_id)))
    | none ↦ (record c { sent = c.sent ++ fields ∷ [] }, none)
  ]

  unfoldable pub send_response :
      Client Number Value T Request Response
      → String
      → Response
      → Client Number Value T Request Response × Option Failure
  unfolding create_call_result marshal_call_result write_message new_error
  send_response c request_id response =
      elim (create_call_result library c.endpoint around.validation response request_id) [
        | err e ↦ (c, some e)
        | ok result ↦ elim (marshal_call_result library result) [
          | err e ↦ (c, some (ocpp_error (new_error generic_error e request_id)))
          | ok fields ↦ write_message c request_id fields
        ]
      ]

  unfoldable pub send_error :
      Client Number Value T Request Response
      → String
      → ErrorCode
      → String
      → Element Number Value
      → Client Number Value T Request Response × Option Failure
  unfolding create_call_error marshal_call_error write_message new_error
  send_error c request_id error_code description details =
      elim (create_call_error library around.validation request_id error_code description details) [
        | err e ↦ (c, some e)
        | ok call_error ↦ elim (marshal_call_error library call_error) [
          | err e ↦ (c, some (ocpp_error (new_error generic_error e request_id)))
          | ok fields ↦ write_message c request_id fields
        ]
      ]

  -- `SendRequestCtx`: the ID of the call, or its error. `encode` is what the encoder makes of the fields,
  -- and `unique_id` what the generator returns.
  unfoldable pub send_request_ctx :
      Client Number Value T Request Response
      → (List (Element Number Value) → String)
      → Option ℕ
      → Request
      → String
      → Client Number Value T Request Response × Result Failure String
  unfolding is_running create_call marshal_call send_request
  send_request_ctx c encode ctx request unique_id =
      if is_running c.dispatcher
      then elim (create_call library c.endpoint around.validation request unique_id) [
        | err e ↦ (c, err e)
        | ok call ↦ elim (marshal_call library call) [
          | err e ↦ (c, err (other_error e))
          | ok fields ↦
              let (d, taken) =
                send_request c.dispatcher
                  (record { call = some call; bytes = some (encode fields); ctx = ctx }) in
              (
                record c { dispatcher = d },
                if taken then ok call.unique_id else err (other_error "error dispatching request"),
              )
        ]
      ]
      else (c, err (other_error "ocppj client is not started, couldn't send request"))

  -- `HandleFailedResponseError`; `none` is a panic.
  unfoldable pub handle_failed_response_error :
      Client Number Value T Request Response
      → String
      → Failure
      → String
      → Option (Client Number Value T Request Response)
  unfolding error_from_validation send_error new_error
  handle_failed_response_error c request_id (validation_errors es) feature_name =
      elim (error_from_validation library c.endpoint es request_id feature_name) [
        | none ↦ none
        | some e ↦ some (send_error c request_id e.code e.description nil).0
      ]
  handle_failed_response_error c request_id (ocpp_error e) feature_name =
      some (send_error c request_id e.code e.description nil).0
  handle_failed_response_error c request_id (other_error text) feature_name =
      some (send_error c request_id generic_error text nil).0

  -- A handler without a message, if it is there; a panic of it is recovered and reported.
  unfoldable pub run_handler :
      Bool
      → Client Number Value T Request Response
      → HandlerCall Number Value Request Response
      → HandlerKind
      → String
      → String
      → Client Number Value T Request Response
  unfolding report_handler_panic
  run_handler there c h kind action request_id =
      if there
      then if around.panics h
        then report_handler_panic (called c h) kind action request_id
        else called c h
      else c

  unfoldable pub on_disconnected :
      Client Number Value T Request Response → String → Client Number Value T Request Response
  unfolding pause run_handler
  on_disconnected c cause =
      run_handler c.on_disconnected_handler (record c { dispatcher = pause c.dispatcher })
        (disconnected_handled cause) disconnect_handler_kind "" ""

  unfoldable pub on_reconnected :
      Client Number Value T Request Response → Client Number Value T Request Response
  unfolding resume run_handler
  on_reconnected c =
      let c' =
        run_handler c.on_reconnected_handler c reconnected_handled reconnect_handler_kind "" "" in
      record c' { dispatcher = resume c'.dispatcher }
