-- ===== src/Ocppj/Server/Handling/Apart.antt =====
-- ocppj/server.go: a message of one client is that client's own affair.
use ocpp_go.Base.{
  String, ◌≡◌, refl, Bool, true, false, Option, none, some, List, text_discrete, test, ap, sym,
  subst, if◌then◌else◌,
}
use ocpp_go.Base.Results.{Result, ok, err}
use ocpp_go.Ocpp.{Error}
use ocpp_go.Ocppj.State.{get_client_state}
use ocpp_go.Ocppj.State.Clients.{create-state_of}
use ocpp_go.Ocppj.ServerDispatcher.{ServerDispatcher}
use ocpp_go.Ocppj.ServerDispatcher.Line.{Evolves, stays}
use ocpp_go.Ocppj.ServerDispatcher.Clients.{line_of, line_eq, Acts}
use ocpp_go.Ocppj.Endpoint.{Element, nil, Failure, ocpp_error, Library}
use ocpp_go.Ocppj.Message.Parse.{
  Message, call_message, call_result_message, call_error_message, no_message, invalid, panicked,
  parse_message,
}
use ocpp_go.Ocppj.Client.{Around, HandlerCall, hook_asked, invalid_message_handler_kind}
use ocpp_go.Ocppj.Client.Handling.{error_to_send}
use ocpp_go.Ocppj.Server.{Server, called, report_handler_panic, send_error}
use ocpp_go.Ocppj.Server.Handling.{
  Handled, returned, crashed, ask_hook, on_invalid, on_parsed, ocpp_message_handler,
}
use ocpp_go.Ocppj.Server.Handling.Locality.{
  Local, Local-refl, Local-trans, called-Local, report-Local, dispatcher-Local, send_error-Local,
  on_call-Local, on_call_result-Local, on_call_error-Local,
}

module _ {Number Value T Request Response : Type 0}
    (library : Library Number Value T Request Response)
    (around : String → Around Number Value Request Response) where
  ask_hook-Local :
      (s : Server Number Value T Request Response) (client_id : String) (e : Error)
      → (fields : List (Element Number Value))
      → Local s client_id (ask_hook library around s client_id e fields).0
  unfolding ask_hook
  ask_hook-Local s client_id e fields = cases s.invalid_message_hook ((around client_id).panics h)
    where
      h : HandlerCall Number Value Request Response
      h = hook_asked e fields

      c : Server Number Value T Request Response
      c = called s client_id h

      r : Server Number Value T Request Response
      r = report_handler_panic c invalid_message_handler_kind client_id "" e.message_id

      asked : Bool → Bool → Server Number Value T Request Response × Error × Option Error
      asked t q =
          if t
          then if q
            then (r, e, none)
            else (c, ((around client_id).hook e).0, ((around client_id).hook e).1)
          else (s, e, none)

      cases : (t q : Bool) → Local s client_id (asked t q).0
      cases true true =
          Local-trans s c r client_id (called-Local s client_id h)
            (report-Local c invalid_message_handler_kind client_id "" e.message_id)
      cases true false = called-Local s client_id h
      cases false q = Local-refl s client_id

  -- What handling a message of the client may leave.
  abbrev pub IsApart :
      Server Number Value T Request Response
      → String
      → Handled Number Value T Request Response
      → Type 0
  IsApart s client_id (returned s' failure) = Local s client_id s'
  IsApart s client_id crashed = Unit

  on_invalid-IsApart :
      (s : Server Number Value T Request Response) (client_id : String) (e : Error)
      → (fields : List (Element Number Value))
      → IsApart s client_id (on_invalid library around s client_id e fields)
  unfolding on_invalid
  on_invalid-IsApart s client_id e fields =
      let (s', left, result) = ask_hook library around s client_id e fields in
      settled s' (error_to_send e.message_id left result) (ask_hook-Local s client_id e fields)
    where
      failed_or_not :
          (s'' : Server Number Value T Request Response) (out : Error) (failed : Option Failure)
          → Local s client_id s''
          → IsApart s client_id (elim failed as (λ x. Handled Number Value T Request Response) [
            | none ↦ returned s'' (some (ocpp_error out))
            | some e2 ↦ returned s'' (some e2)
          ])
      failed_or_not s'' out none a = a
      failed_or_not s'' out (some e2) a = a

      settled :
          (s' : Server Number Value T Request Response) (out : Error)
          → Local s client_id s'
          → IsApart s client_id (
              if test (text_discrete out.message_id "")
              then returned s' (some (ocpp_error out))
              else let (s'', failed) =
                  send_error library around s' client_id out.message_id out.code out.description
                    nil in
                elim failed [
                  | none ↦ returned s'' (some (ocpp_error out))
                  | some e2 ↦ returned s'' (some e2)
                ])
      settled s' out a = named (test (text_discrete out.message_id ""))
        where
          answered : Server Number Value T Request Response × Option Failure
          answered =
              send_error library around s' client_id out.message_id out.code out.description nil

          named :
              (t : Bool)
              → IsApart s client_id (
                  if t
                  then returned s' (some (ocpp_error out))
                  else elim answered.1 as (λ x. Handled Number Value T Request Response) [
                    | none ↦ returned answered.0 (some (ocpp_error out))
                    | some e2 ↦ returned answered.0 (some e2)
                  ])
          named true = a
          named false = failed_or_not answered.0 out answered.1 (
              Local-trans s s' answered.0 client_id a (
                send_error-Local library around s' client_id out.message_id out.code out.description
                  nil))

  on_parsed-IsApart :
      (m : Message Number Value Request Response) (s : Server Number Value T Request Response)
      → (client_id : String) (fields : List (Element Number Value))
      → IsApart s client_id (on_parsed library around m s client_id fields)
  unfolding on_parsed
  on_parsed-IsApart (call_message call) s client_id fields =
      on_call-Local library around s client_id call
  on_parsed-IsApart (call_result_message result) s client_id fields =
      on_call_result-Local library around s client_id result
  on_parsed-IsApart (call_error_message e) s client_id fields =
      on_call_error-Local library around s client_id e
  on_parsed-IsApart no_message s client_id fields = Local-refl s client_id
  on_parsed-IsApart (invalid e) s client_id fields = on_invalid-IsApart s client_id e fields
  on_parsed-IsApart panicked s client_id fields = tt

  -- Looking up the state of a client changes no line.
  looked_up-Acts :
      (d : ServerDispatcher Request) (client_id : String)
      → Acts d client_id (record d {
        pending_request_state = (get_client_state d.pending_request_state client_id).0;
      })
  unfolding get_client_state
  looked_up-Acts d client_id = record {
    own = subst (Evolves (line_of d client_id)) (sym (same client_id)) stays;
    others = λ c n. same c;
    map_kept = λ h. h;
  }
    where
      looked_up : ServerDispatcher Request
      looked_up = record d {
        pending_request_state = (get_client_state d.pending_request_state client_id).0;
      }

      same : (c : String) → line_of looked_up c ≡ line_of d c
      same c =
          line_eq refl
            (ap (λ t. t.request_id) (create-state_of d.pending_request_state client_id c).1) refl
            refl refl

  IsApart-after :
      (s s' : Server Number Value T Request Response) (client_id : String)
      → (r : Handled Number Value T Request Response) → Local s client_id s'
      → IsApart s' client_id r
      → IsApart s client_id r
  IsApart-after s s' client_id (returned t failure) a b = Local-trans s s' t client_id a b
  IsApart-after s s' client_id crashed a b = tt

  -- Whatever a server endpoint gets from a client, unless the parsing panics: the client's line in
  -- the dispatcher changes only in the ways that a line allows, the lines of all other clients
  -- stay as they were, and every message sent and every handler called on the way is for that
  -- client.
  pub ocpp_message_handler-IsApart :
      (s : Server Number Value T Request Response) (client_id : String)
      → (decoded : Result String (List (Element Number Value)))
      → IsApart s client_id (ocpp_message_handler library around s client_id decoded)
  unfolding ocpp_message_handler
  ocpp_message_handler-IsApart s client_id (err e) = Local-refl s client_id
  ocpp_message_handler-IsApart s client_id (ok fields) =
      let (states, pending) = get_client_state s.dispatcher.pending_request_state client_id in
      let d = record (s.dispatcher) { pending_request_state = states } in
      IsApart-after s (record s { dispatcher = d }) client_id _
        (dispatcher-Local s client_id d (looked_up-Acts s.dispatcher client_id))
        (on_parsed-IsApart (parse_message library s.endpoint fields pending)
          (record s { dispatcher = d }) client_id fields)
