-- ===== src/Ocppj/Client/Handling/Answers.antt =====
-- ocppj/client.go: what a client endpoint hands to its handlers, and what it answers.
use ocpp_go.Base.{
  ℕ_discrete, String, ◌≡◌, ◌≢◌, refl, inl, inr, Bool, true, false, false≢true, Option, none, some,
  List, [], ◌∷◌, ◌++◌, arith, ap, ◌∙◌, sym, subst, append_assoc, append-nil, if◌then◌else◌,
}
use ocpp_go.Base.Int.{ℤ_discrete}
use ocpp_go.Base.Results.{ok}
use ocpp_go.Ocppj.State.{ClientState, get_pending_request, delete_pending_request}
use ocpp_go.Ocppj.Dispatcher.{Dispatcher, complete_request, receive}
use ocpp_go.Ocppj.Dispatcher.Invariant.{complete_request-cases}
use ocpp_go.Ocppj.Endpoint.{Element, number, text, CallResult, Library}
use ocpp_go.Ocppj.Message.{call_result_type}
use ocpp_go.Ocppj.Message.Parse.{call_result_message, parse_message, parse_body, parse_call_result}
use ocpp_go.Ocppj.Message.RoundTrip.{parse_message-body}
use ocpp_go.Ocppj.Message.Sound.{IsSound, carried_id, parse_message-IsSound}
use ocpp_go.Ocppj.Client.{
  Client, Around, HandlerKind, HandlerPanic, HandlerCall, response_handled, panic_reported,
  response_handler_kind, report_handler_panic, run_handler,
}
use ocpp_go.Ocppj.Client.Handling.{returned, on_call_result, on_parsed, ocpp_message_handler}

module _ {Request : Type 0} where
  pending_named :
      (s : ClientState Request) (id : String) (o : Option Request)
      → get_pending_request s id ≡ some o
      → s.request_id ≡ id
  unfolding get_pending_request
  pending_named s id o e = ground arith

  deleted_unknown :
      (s : ClientState Request) (id : String)
      → id ≢ ""
      → s.request_id ≡ id
      → get_pending_request (delete_pending_request s id) id ≡ none
  unfolding get_pending_request delete_pending_request
  deleted_unknown s id n e = ground arith

  -- Once a request was completed its ID is unknown.
  received_unknown :
      (d : Dispatcher Request) (id : String)
      → id ≢ ""
      → d.pending_request_state.request_id ≡ id
      → (complete_request d id).1 ≡ true
      → get_pending_request (receive d id).pending_request_state id ≡ none
  unfolding receive
  received_unknown d id n e won = elim (complete_request-cases d id) [
    | inl h ↦ absurd (false≢true (sym (ap (λ r. r.1) h) ∙ won))
    | inr (rest, f, h) ↦ rw (h, receive) (deleted_unknown d.pending_request_state id n e)
  ]

module _ {Number Value T Request Response : Type 0}
    (library : Library Number Value T Request Response)
    (around : Around Number Value Request Response) where
  -- What a handler's call leaves in the list of calls.
  abbrev pub calls_of :
      Bool
      → Bool
      → HandlerCall Number Value Request Response
      → HandlerPanic
      → List (HandlerCall Number Value Request Response)
  calls_of there reports h p =
      if there
      then h ∷ (if around.panics h then if reports then panic_reported p ∷ [] else [] else [])
      else []

  run_handler_lem :
      (there : Bool) (c : Client Number Value T Request Response)
      → (h : HandlerCall Number Value Request Response) (kind : HandlerKind)
      → (action request_id : String)
      → run_handler library around there c h kind action request_id ≡ record c {
        calls =
            c.calls
            ++ calls_of there c.on_handler_panic h
                (record { kind = kind; action = action; request_id = request_id });
      }
  unfolding run_handler report_handler_panic
  run_handler_lem there c h kind action request_id =
      cases there (around.panics h) c.on_handler_panic
    where
      with_calls :
          List (HandlerCall Number Value Request Response) → Client Number Value T Request Response
      with_calls hs = record c { calls = hs }

      p : HandlerCall Number Value Request Response
      p = panic_reported (record { kind = kind; action = action; request_id = request_id })

      cases :
          (t q r : Bool)
          → (if t
              then if q
                then if r
                  then with_calls ((c.calls ++ h ∷ []) ++ p ∷ [])
                  else with_calls (c.calls ++ h ∷ [])
                else with_calls (c.calls ++ h ∷ [])
              else c)
            ≡ with_calls
                (c.calls ++ (if t then h ∷ (if q then if r then p ∷ [] else [] else []) else []))
      cases true true true = ap with_calls (append_assoc c.calls (h ∷ []) (p ∷ []))
      cases true true false = refl
      cases true false r = refl
      cases false q r = ap with_calls (sym (append-nil c.calls))

  -- A result for an ID that is not pending is passed over.
  unknown_discarded :
      (c : Client Number Value T Request Response) (id : String) (payload : Element Number Value)
      → id ≢ ""
      → library.truncate (library.number_of call_result_type) ≡ call_result_type
      → get_pending_request c.dispatcher.pending_request_state id ≡ none
      → ocpp_message_handler library around c
          (ok (number (library.number_of call_result_type) ∷ text id ∷ payload ∷ []))
        ≡ returned c none
  unfolding ocpp_message_handler on_parsed parse_body parse_call_result ℤ_discrete ℕ_discrete
  unknown_discarded c id payload n reads unknown =
      let pending = c.dispatcher.pending_request_state in
      ap
        (λ m.
          on_parsed library around m c
            (number (library.number_of call_result_type) ∷ text id ∷ payload ∷ []))
        (parse_message-body library c.endpoint call_result_type id payload [] pending n reads
          ∙ ap (λ o. parse_call_result library c.endpoint o id payload) unknown)

  -- When a client endpoint gets a call result for its pending request and completes the request by
  -- it, the response handler, if there is one, is called once, with the panic reported if it
  -- panics; and any further call result with the same ID is passed over without changing anything.
  pub duplicate_result_discarded :
      (c : Client Number Value T Request Response) (fields : List (Element Number Value))
      → (result : CallResult Response) (payload : Element Number Value)
      → parse_message library c.endpoint fields c.dispatcher.pending_request_state
        ≡ call_result_message result
      → (complete_request c.dispatcher result.unique_id).1 ≡ true
      → library.truncate (library.number_of call_result_type) ≡ call_result_type
      → let id = result.unique_id in
        let c' = on_call_result library around c result in
        (ocpp_message_handler library around c (ok fields) ≡ returned c' none)
        × (c'.calls
            ≡ c.calls
              ++ calls_of c.response_handler c.on_handler_panic
                  (response_handled result.payload id)
                  (record { kind = response_handler_kind; action = ""; request_id = id }))
        × (ocpp_message_handler library around c'
              (ok (number (library.number_of call_result_type) ∷ text id ∷ payload ∷ []))
            ≡ returned c' none)
  unfolding ocpp_message_handler on_parsed on_call_result
  duplicate_result_discarded c fields result payload parsed won reads = (
    ap (λ m. on_parsed library around m c fields) parsed,
    ap (λ x. x.calls) handled,
    unknown_discarded (on_call_result library around c result) id payload named reads (
        subst (λ x. get_pending_request x.dispatcher.pending_request_state id ≡ none) (sym handled)
          (received_unknown c.dispatcher id named
            (pending_named c.dispatcher.pending_request_state id (some waiting.0) (
              subst
                (λ i.
                  get_pending_request c.dispatcher.pending_request_state i ≡ some (some waiting.0))
                (sym same) waiting.1))
            won)),
  )
    where
      id : String
      id = result.unique_id

      sound :
          IsSound library c.endpoint c.dispatcher.pending_request_state
            (carried_id fields)
            (call_result_message result)
      sound =
          subst (IsSound library c.endpoint c.dispatcher.pending_request_state (carried_id fields))
            parsed
            (parse_message-IsSound library c.endpoint c.dispatcher.pending_request_state fields).0

      same : id ≡ carried_id fields
      same = let (s, _, _, _) = sound in s

      named : id ≢ ""
      named e = let (_, n, _, _) = sound in n (sym same ∙ e)

      waiting :
          (request : Request) × (get_pending_request c.dispatcher.pending_request_state
              (carried_id fields)
            ≡ some (some request))
      waiting = let (_, _, w, _) = sound in w

      received : Client Number Value T Request Response
      received = record c { dispatcher = receive c.dispatcher id }

      handled : on_call_result library around c result ≡ record received {
        calls =
            c.calls
            ++ calls_of c.response_handler c.on_handler_panic
                (response_handled result.payload id)
                (record { kind = response_handler_kind; action = ""; request_id = id });
      }
      handled =
          ap
            (λ t.
              if t
              then run_handler library around c.response_handler received
                  (response_handled result.payload id) response_handler_kind "" id
              else received)
            won
          ∙ run_handler_lem c.response_handler received (response_handled result.payload id)
              response_handler_kind "" id
