-- ===== src/Ocppj/Client/Handling/Replies.antt =====
-- ocppj/client.go: the errors with which a client endpoint answers, so that the peer does not wait for ever.
use ocpp_go.Base.{
  String, ◌≡◌, ◌≢◌, refl, Bool, true, false, Option, none, some, List, [], ◌∷◌, ◌++◌, text_discrete,
  ap, ◌∙◌, test, if◌then◌else◌,
}
use ocpp_go.Base.Results.{Result, ok, err}
use ocpp_go.Ocpp.{new_error, generic_error, Error, ErrorCode, internal_error}
use ocpp_go.Ocppj.State.{ClientState, get_pending_request}
use ocpp_go.Ocppj.Bundle.{Call}
use ocpp_go.Ocppj.Endpoint.{
  Element, nil, empty_object, Endpoint, Failure, ocpp_error, CallError, Library,
}
use ocpp_go.Ocppj.Message.{
  call_error_type, create_call_error, marshal_call_error, call_error_fields,
}
use ocpp_go.Ocppj.Message.Parse.{call_message, call_error_message, invalid, parse_message}
use ocpp_go.Ocppj.Message.RoundTrip.{when_valid-ok, parse_message-marshal_call_error}
use ocpp_go.Ocppj.Client.{
  Client, Around, HandlerCall, hook_asked, invalid_message_handler_kind, request_handled,
  panic_reported, request_handler_kind, called, report_handler_panic, send_error, write_message,
}
use ocpp_go.Ocppj.Client.Handling.{
  Handled, returned, on_call, ask_hook, error_to_send, on_invalid, on_parsed, ocpp_message_handler,
}

test-false : {P : Type 0} (d : Dec P) → (¬ P) → test d ≡ false
test-false (yes p) n = absurd (n p)
test-false (no _) n = refl

module _ {Number Value T Request Response : Type 0}
    (library : Library Number Value T Request Response)
    (around : Around Number Value Request Response) where
  abbrev pub reply : String → ErrorCode → String → Element Number Value → CallError Number Value
  reply id code description details = record {
    unique_id = id;
    error_code = code;
    error_description = description;
    error_details = details;
  }

  sent_error :
      (c : Client Number Value T Request Response) (id : String) (code : ErrorCode)
      → (description : String) → library.validate_call_error (reply id code description nil) ≡ []
      → around.write (call_error_fields library (reply id code description nil)) ≡ none
      → send_error library around c id code description nil ≡ (
        record c {
          sent = c.sent ++ call_error_fields library (reply id code description nil) ∷ [];
        },
        none,
      )
  unfolding send_error write_message create_call_error marshal_call_error
  sent_error c id code description valid written =
      ap finish (when_valid-ok library around.validation _ (reply id code description nil) valid)
      ∙ ap after written
    where
      after : Option String → Client Number Value T Request Response × Option Failure
      after o = elim o [
        | some e ↦ (c, some (ocpp_error (new_error generic_error e id)))
        | none ↦ (
          record c {
            sent = c.sent ++ call_error_fields library (reply id code description nil) ∷ [];
          },
          none,
        )
      ]

      finish :
          Result Failure (CallError Number Value)
          → Client Number Value T Request Response × Option Failure
      finish r = elim r [
        | err e ↦ (c, some e)
        | ok call_error ↦ elim (marshal_call_error library call_error) [
          | err e ↦ (c, some (ocpp_error (new_error generic_error e id)))
          | ok fields ↦ write_message library around c id fields
        ]
      ]

  -- When the request handler of a client endpoint panics on a call, and the validator and the
  -- network take the answer, the endpoint goes on after it has sent one call error with
  -- InternalError and the call's ID, which a peer that waits for this ID parses as such.
  pub handler_panic_answered :
      (c : Client Number Value T Request Response) (fields : List (Element Number Value))
      → (call : Call Request) (peer : Endpoint T) (pending : ClientState Request)
      → (waiting : Option Request)
      → let id = call.unique_id in
        let h = request_handled call.payload id call.action in
        let description : String = "internal error while handling request" in
        let e = reply id internal_error description nil in
        let c' = on_call library around c call in
        parse_message library c.endpoint fields c.dispatcher.pending_request_state
          ≡ call_message call
        → c.request_handler ≡ true
        → around.panics h ≡ true
        → library.validate_call_error e ≡ []
        → around.write (call_error_fields library e) ≡ none
        → id ≢ ""
        → get_pending_request pending id ≡ some waiting
        → library.validate_call_error (record e { error_details = empty_object }) ≡ []
        → library.truncate (library.number_of call_error_type) ≡ call_error_type
        → (ocpp_message_handler library around c (ok fields) ≡ returned c' none)
          × (c'.sent ≡ c.sent ++ call_error_fields library e ∷ [])
          × (marshal_call_error library e ≡ ok (call_error_fields library e))
          × (parse_message library peer (call_error_fields library e) pending
              ≡ call_error_message (record e { error_details = empty_object }))
  unfolding ocpp_message_handler on_parsed on_call
  handler_panic_answered c fields call peer pending waiting parsed there panicking valid written
        named waits valid' reads =
      let (_, encoded, back) =
        parse_message-marshal_call_error library peer around.validation call.unique_id
          internal_error "internal error while handling request" nil pending waiting waits refl
          valid valid' named reads in
      (
        ap (λ m. on_parsed library around m c fields) parsed,
        ap (λ x. x.sent) answered ∙ ap (λ x. x ++ call_error_fields library e ∷ []) unchanged,
        encoded,
        back,
      )
    where
      e : CallError Number Value
      e = reply call.unique_id internal_error "internal error while handling request" nil

      h : HandlerCall Number Value Request Response
      h = request_handled call.payload call.unique_id call.action

      reported : Client Number Value T Request Response
      reported = report_handler_panic (called c h) request_handler_kind call.action call.unique_id

      answered :
          on_call library around c call
          ≡ record reported { sent = reported.sent ++ call_error_fields library e ∷ [] }
      answered =
          ap
            (λ t.
              if t
              then if around.panics h
                then (send_error library around reported call.unique_id internal_error
                    "internal error while handling request" nil).0
                else called c h
              else c)
            there
          ∙ ap
              (λ t.
                if t
                then (send_error library around reported call.unique_id internal_error
                    "internal error while handling request" nil).0
                else called c h)
              panicking
          ∙ ap (λ r. r.0)
              (sent_error reported call.unique_id internal_error
                "internal error while handling request" valid written)

      unchanged : reported.sent ≡ c.sent
      unchanged = by_report c.on_handler_panic
        where
          by_report :
              (t : Bool)
              → (if t
                  then called (called c h) (
                      panic_reported (record {
                        kind = request_handler_kind;
                        action = call.action;
                        request_id = call.unique_id;
                      }))
                  else called c h).sent
                ≡ c.sent
          by_report true = refl
          by_report false = refl

  -- A message that a client endpoint without a hook cannot parse, and whose error has an ID, is
  -- answered by one call error with the code, the text and the ID of the error, where the
  -- validator and the network take it, and the handling returns that error.
  pub invalid_answered :
      (c : Client Number Value T Request Response) (fields : List (Element Number Value))
      → (e : Error)
      → let answer = call_error_fields library (reply e.message_id e.code e.description nil) in
        parse_message library c.endpoint fields c.dispatcher.pending_request_state ≡ invalid e
        → c.invalid_message_hook ≡ false
        → e.message_id ≢ ""
        → library.validate_call_error (reply e.message_id e.code e.description nil) ≡ []
        → around.write answer ≡ none
        → ocpp_message_handler library around c (ok fields)
          ≡ returned (record c { sent = c.sent ++ answer ∷ [] }) (some (ocpp_error e))
  unfolding ocpp_message_handler on_parsed on_invalid ask_hook error_to_send
  invalid_answered c fields e parsed hookless named valid written =
      ap (λ m. on_parsed library around m c fields) parsed
      ∙ ap settled unasked
      ∙ ap (λ t. finish t (send_error library around c e.message_id e.code e.description nil))
          (test-false (text_discrete e.message_id "") named)
      ∙ ap (finish false) (sent_error c e.message_id e.code e.description valid written)
    where
      finish :
          Bool
          → Client Number Value T Request Response × Option Failure
          → Handled Number Value T Request Response
      finish t r = if t then returned c (some (ocpp_error e)) else elim r.1 [
        | none ↦ returned r.0 (some (ocpp_error e))
        | some e2 ↦ returned r.0 (some e2)
      ]

      settled :
          Client Number Value T Request Response × Error × Option Error
          → Handled Number Value T Request Response
      settled (c', left, result) =
          let out = error_to_send e.message_id left result in
          if test (text_discrete out.message_id "")
          then returned c' (some (ocpp_error out))
          else let (c'', failed) =
              send_error library around c' out.message_id out.code out.description nil in
            elim failed [
              | none ↦ returned c'' (some (ocpp_error out))
              | some e2 ↦ returned c'' (some e2)
            ]

      unasked : ask_hook library around c e fields ≡ (c, e, none)
      unasked =
          ap
            (λ t.
              if t
              then if around.panics (hook_asked e fields)
                then (
                  report_handler_panic (called c (hook_asked e fields)) invalid_message_handler_kind
                      "" e.message_id,
                  e,
                  none,
                )
                else (called c (hook_asked e fields), (around.hook e).0, (around.hook e).1)
              else (c, e, none))
            hookless
