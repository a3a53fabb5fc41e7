-- ===== src/Ocppj/Client/Handling/Tests.antt =====
-- The theorems on a client endpoint at concrete messages.
use ocpp_go.Base.{
  ℕ, ℕ_discrete, ◌≡◌, refl, true, false, none, some, List, [], ◌∷◌, ◌++◌, text_discrete,
}
use ocpp_go.Base.Int.{ℤ, pos, ℤ_discrete}
use ocpp_go.Base.Results.{ok}
use ocpp_go.Ocpp.{Error, new_error, internal_error}
use ocpp_go.Ocppj.Queue.{new_fifo_client_queue, pop_if}
use ocpp_go.Ocppj.Bundle.{Call}
use ocpp_go.Ocppj.Dispatcher.{
  Dispatcher, new_default_client_dispatcher, complete_request, completed,
}
use ocpp_go.Ocppj.Endpoint.{Element, nil, number, text, empty_object, other, ocpp_error, CallResult}
use ocpp_go.Ocppj.Message.{call_type, call_result_type, marshal_call_error, call_error_fields}
use ocpp_go.Ocppj.Message.Parse.{
  call_message, call_result_message, call_error_message, invalid, parse_message,
}
use ocpp_go.Ocppj.Message.RoundTrip.{parse_message-marshal_call, parse_message-marshal_call_result}
use ocpp_go.Ocppj.Message.Sample.{
  library, endpoint, heartbeat, core, waiting, core_supports, core_finds, a_waits, a_named,
}
use ocpp_go.Ocppj.Client.{Client, Around, request_handled, response_handled, response_handler_kind}
use ocpp_go.Ocppj.Client.Handling.{returned, on_call, on_call_result, ocpp_message_handler}
use ocpp_go.Ocppj.Client.Handling.Answers.{calls_of, duplicate_result_discarded}
use ocpp_go.Ocppj.Client.Handling.Replies.{reply, handler_panic_answered, invalid_answered}

-- The request handler panics, nothing else does; the network takes every message.
abbrev around : Around ℤ ℕ ℕ ℕ
around = record {
  panics = λ h. elim h [ request_handled r id a ↦ true | _ ↦ false ];
  hook = λ e. (e, none);
  write = λ fields. none;
  validation = true;
}

-- A dispatcher whose request "a" waits for its answer.
abbrev dispatcher : Dispatcher ℕ
dispatcher = record (new_default_client_dispatcher (new_fifo_client_queue 2)) {
  request_queue = record {
    elements =
        record {
          call = some (record { unique_id = "a"; action = "Heartbeat"; payload = some 7 });
          bytes = some "a";
          ctx = none;
        }
        ∷ [];
    capacity = 2;
  };
  pending_request_state = waiting;
}

abbrev client : Client ℤ ℕ ℕ ℕ ℕ
client = record {
  endpoint = endpoint;
  id = "cp";
  dispatcher = dispatcher;
  request_handler = true;
  response_handler = true;
  error_handler = true;
  on_handler_panic = true;
  on_disconnected_handler = false;
  on_reconnected_handler = false;
  invalid_message_hook = false;
  sent = [];
  calls = [];
}

abbrev result : CallResult ℕ
result = record { unique_id = "a"; payload = 8 }

abbrev result_fields : List (Element ℤ ℕ)
result_fields = number call_result_type ∷ text "a" ∷ other 8 ∷ []

result_parsed : parse_message library endpoint result_fields waiting ≡ call_result_message result
result_parsed =
    let (_, _, parsed) =
      parse_message-marshal_call_result library endpoint true 7 8 "a" waiting core heartbeat
        (other 8) a_waits refl core_supports core_finds refl refl refl a_named refl in
    parsed

a_completed : (complete_request dispatcher "a").1 ≡ true
unfolding complete_request completed pop_if text_discrete
a_completed = refl

duplicate_result_discarded_example :
    let c' = on_call_result library around client result in
    (ocpp_message_handler library around client (ok result_fields) ≡ returned c' none)
    × (c'.calls
        ≡ []
          ++ calls_of library around true true
              (response_handled 8 "a")
              (record { kind = response_handler_kind; action = ""; request_id = "a" }))
    × (ocpp_message_handler library around c' (ok result_fields) ≡ returned c' none)
duplicate_result_discarded_example =
    duplicate_result_discarded library around client result_fields result (other 8) result_parsed
      a_completed refl

abbrev call : Call ℕ
call = record { unique_id = "a"; action = "Heartbeat"; payload = some 7 }

abbrev call_fields : List (Element ℤ ℕ)
call_fields = number call_type ∷ text "a" ∷ text "Heartbeat" ∷ other 7 ∷ []

call_parsed : parse_message library endpoint call_fields waiting ≡ call_message call
call_parsed =
    let (_, _, parsed) =
      parse_message-marshal_call library endpoint true 7 "a" waiting core heartbeat (other 7)
        core_supports core_finds refl refl refl a_named refl in
    parsed

handler_panic_answered_example :
    let e = reply library around "a" internal_error "internal error while handling request" nil in
    let c' = on_call library around client call in
    (ocpp_message_handler library around client (ok call_fields) ≡ returned c' none)
    × (c'.sent ≡ [] ++ call_error_fields library e ∷ [])
    × (marshal_call_error library e ≡ ok (call_error_fields library e))
    × (parse_message library endpoint (call_error_fields library e) waiting
        ≡ call_error_message (record e { error_details = empty_object }))
handler_panic_answered_example =
    handler_panic_answered library around client call_fields call endpoint waiting (some 7)
      call_parsed refl refl refl refl a_named a_waits refl refl

-- A message of a type that there is not.
abbrev odd_fields : List (Element ℤ ℕ)
odd_fields = number (pos 7) ∷ text "a" ∷ nil ∷ []

abbrev odd_error : Error
odd_error = new_error "MessageTypeNotSupported" "Invalid message type ID number" "a"

odd_parsed : parse_message library endpoint odd_fields waiting ≡ invalid odd_error
unfolding parse_message text_discrete ℤ_discrete ℕ_discrete
odd_parsed = refl

invalid_answered_example :
    let answer =
      call_error_fields library
        (reply library around odd_error.message_id odd_error.code odd_error.description nil) in
    ocpp_message_handler library around client (ok odd_fields)
    ≡ returned (record client { sent = [] ++ answer ∷ [] }) (some (ocpp_error odd_error))
unfolding new_error
invalid_answered_example =
    invalid_answered library around client odd_fields odd_error odd_parsed refl a_named refl refl
