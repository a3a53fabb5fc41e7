-- ===== src/Ocppj/Server/Handling/Tests.antt =====
-- The theorem on a server endpoint at a concrete message.
use ocpp_go.Base.{ℕ, String, true, false, none, List, [], ◌∷◌}
use ocpp_go.Base.Int.{ℤ}
use ocpp_go.Base.Results.{ok}
use ocpp_go.Ocppj.QueueMap.{new_fifo_queue_map}
use ocpp_go.Ocppj.ServerDispatcher.{new_default_server_dispatcher}
use ocpp_go.Ocppj.Endpoint.{Element, number, text, other}
use ocpp_go.Ocppj.Message.{call_type}
use ocpp_go.Ocppj.Message.Sample.{library, endpoint}
use ocpp_go.Ocppj.Client.{Around, request_handled}
use ocpp_go.Ocppj.Server.{Server}
use ocpp_go.Ocppj.Server.Handling.{ocpp_message_handler}
use ocpp_go.Ocppj.Server.Handling.Apart.{IsApart, ocpp_message_handler-IsApart}

-- The request handler panics for every client; the network takes every message.
abbrev around : String → Around ℤ ℕ ℕ ℕ
around client_id = record {
  panics = λ h. elim h [ request_handled r id a ↦ true | _ ↦ false ];
  hook = λ e. (e, none);
  write = λ fields. none;
  validation = true;
}

abbrev server : Server ℤ ℕ ℕ ℕ ℕ
server = record {
  endpoint = endpoint;
  dispatcher = new_default_server_dispatcher (new_fifo_queue_map 2);
  new_client_handler = false;
  disconnected_client_handler = false;
  request_handler = true;
  response_handler = true;
  error_handler = true;
  on_handler_panic = true;
  invalid_message_hook = false;
  sent = [];
  calls = [];
}

abbrev call_fields : List (Element ℤ ℕ)
call_fields = number call_type ∷ text "a" ∷ text "Heartbeat" ∷ other 7 ∷ []

ocpp_message_handler-IsApart_example :
    IsApart library around server "cp"
      (ocpp_message_handler library around server "cp" (ok call_fields))
ocpp_message_handler-IsApart_example =
    ocpp_message_handler-IsApart library around server "cp" (ok call_fields)
