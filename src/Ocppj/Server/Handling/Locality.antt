-- ===== src/Ocppj/Server/Handling/Locality.antt =====
-- ocppj/server.go: the parts of the handling of a client's message act on that client alone.
use ocpp_go.Base.{
  String, ◌≡◌, refl, Bool, true, false, Option, none, some, List, [], ◌∷◌, ◌++◌, All, All-append,
  ap, ◌∙◌, sym, append_assoc, append-nil, if◌then◌else◌,
}
use ocpp_go.Base.Results.{Result, ok, err}
use ocpp_go.Ocpp.{ErrorCode, new_error, generic_error}
use ocpp_go.Ocppj.Bundle.{Call}
use ocpp_go.Ocppj.ServerDispatcher.{ServerDispatcher, receive}
use ocpp_go.Ocppj.ServerDispatcher.Clients.{Acts, Acts-refl, Acts-trans}
use ocpp_go.Ocppj.ServerDispatcher.Completing.{receive-Acts}
use ocpp_go.Ocppj.Endpoint.{Element, nil, Failure, ocpp_error, CallResult, CallError, Library}
use ocpp_go.Ocppj.Message.{create_call_error, marshal_call_error}
use ocpp_go.Ocppj.Client.{Around, HandlerKind, HandlerCall, request_handled, request_handler_kind}
use ocpp_go.Ocppj.Server.{
  Server, called, report_handler_panic, write_message, send_error, run_handler,
}
use ocpp_go.Ocppj.Server.Handling.{on_call, on_call_result, on_call_error}

module _ {A : Type 0} where
  -- The list has got entries of that client only.
  abbrev pub Grows : String → List (String × A) → List (String × A) → Type 0
  Grows client_id xs ys = (zs : List (String × A)) × (ys ≡ xs ++ zs) × All (λ z. z.0 ≡ client_id) zs

  Grows-refl : (client_id : String) (xs : List (String × A)) → Grows client_id xs xs
  Grows-refl client_id xs = ([], sym (append-nil xs), tt)

  Grows-one :
      (client_id : String) (xs : List (String × A)) (a : A)
      → Grows client_id xs (xs ++ (client_id, a) ∷ [])
  Grows-one client_id xs a = ((client_id, a) ∷ [], refl, (refl, tt))

  Grows-trans :
      (client_id : String) (xs ys zs : List (String × A))
      → Grows client_id xs ys
      → Grows client_id ys zs
      → Grows client_id xs zs
  Grows-trans client_id xs ys zs (us, e, h) (vs, f, k) = (
    us ++ vs,
    f ∙ ap (λ x. x ++ vs) e ∙ append_assoc xs us vs,
    All-append (λ z. z.0 ≡ client_id) us vs h k,
  )

module _ {Number Value T Request Response : Type 0} where
  -- From `s` to `s'` the line of that client has evolved, what was sent went to it, and what was called
  -- was called for it.
  pub record Local (s : Server Number Value T Request Response) (client_id : String)
      (s' : Server Number Value T Request Response) : Type 0 where
    pub acts : Acts s.dispatcher client_id s'.dispatcher
    pub sent : Grows client_id s.sent s'.sent
    pub calls : Grows client_id s.calls s'.calls

  pub Local-refl :
      (s : Server Number Value T Request Response) (client_id : String) → Local s client_id s
  Local-refl s client_id = record {
    acts = Acts-refl s.dispatcher client_id;
    sent = Grows-refl client_id s.sent;
    calls = Grows-refl client_id s.calls;
  }

  pub Local-trans :
      (r s t : Server Number Value T Request Response) (client_id : String)
      → Local r client_id s
      → Local s client_id t
      → Local r client_id t
  Local-trans r s t client_id a b = record {
    acts = Acts-trans a.acts b.acts;
    sent = Grows-trans client_id r.sent s.sent t.sent a.sent b.sent;
    calls = Grows-trans client_id r.calls s.calls t.calls a.calls b.calls;
  }

  pub when-Local :
      (s : Server Number Value T Request Response) (client_id : String) (t : Bool)
      → (x y : Server Number Value T Request Response) → Local s client_id x
      → Local s client_id y
      → Local s client_id (if t then x else y)
  when-Local s client_id true x y a b = a
  when-Local s client_id false x y a b = b

  pub called-Local :
      (s : Server Number Value T Request Response) (client_id : String)
      → (h : HandlerCall Number Value Request Response) → Local s client_id (called s client_id h)
  called-Local s client_id h = record {
    acts = Acts-refl s.dispatcher client_id;
    sent = Grows-refl client_id s.sent;
    calls = Grows-one client_id s.calls h;
  }

  pub report-Local :
      (s : Server Number Value T Request Response) (kind : HandlerKind)
      → (client_id action request_id : String)
      → Local s client_id (report_handler_panic s kind client_id action request_id)
  unfolding report_handler_panic
  report-Local s kind client_id action request_id =
      when-Local s client_id s.on_handler_panic _ _ (called-Local s client_id _)
        (Local-refl s client_id)

  -- The dispatcher has done something for the client.
  pub dispatcher-Local :
      (s : Server Number Value T Request Response) (client_id : String)
      → (d : ServerDispatcher Request) → Acts s.dispatcher client_id d
      → Local s client_id (record s { dispatcher = d })
  dispatcher-Local s client_id d a = record {
    acts = a;
    sent = Grows-refl client_id s.sent;
    calls = Grows-refl client_id s.calls;
  }

module _ {Number Value T Request Response : Type 0}
    (library : Library Number Value T Request Response)
    (around : String → Around Number Value Request Response) where
  pub send_error-Local :
      (s : Server Number Value T Request Response) (client_id request_id : String)
      → (code : ErrorCode) (description : String) (details : Element Number Value)
      → Local s client_id
          (send_error library around s client_id request_id code description details).0
  unfolding send_error write_message
  send_error-Local s client_id request_id code description details =
      by_call (
        create_call_error library (around client_id).validation request_id code description details)
    where
      by_write :
          (fields : List (Element Number Value)) (o : Option String)
          → Local s client_id
              (elim o as (λ x. Server Number Value T Request Response × Option Failure) [
                | some e ↦ (s, some (ocpp_error (new_error generic_error e request_id)))
                | none ↦ (record s { sent = s.sent ++ (client_id, fields) ∷ [] }, none)
              ]).0
      by_write fields (some e) = Local-refl s client_id
      by_write fields none = record {
        acts = Acts-refl s.dispatcher client_id;
        sent = Grows-one client_id s.sent fields;
        calls = Grows-refl client_id s.calls;
      }

      by_fields :
          (r : Result String (List (Element Number Value)))
          → Local s client_id
              (elim r as (λ x. Server Number Value T Request Response × Option Failure) [
                | err e ↦ (s, some (ocpp_error (new_error generic_error e request_id)))
                | ok fields ↦ write_message library around s client_id request_id fields
              ]).0
      by_fields (err e) = Local-refl s client_id
      by_fields (ok fields) = by_write fields ((around client_id).write fields)

      by_call :
          (r : Result Failure (CallError Number Value))
          → Local s client_id
              (elim r as (λ x. Server Number Value T Request Response × Option Failure) [
                | err e ↦ (s, some e)
                | ok call_error ↦ elim (marshal_call_error library call_error) [
                  | err e ↦ (s, some (ocpp_error (new_error generic_error e request_id)))
                  | ok fields ↦ write_message library around s client_id request_id fields
                ]
              ]).0
      by_call (err e) = Local-refl s client_id
      by_call (ok call_error) = by_fields (marshal_call_error library call_error)

  pub run_handler-Local :
      (there : Bool) (s : Server Number Value T Request Response) (client_id : String)
      → (h : HandlerCall Number Value Request Response) (kind : HandlerKind) (request_id : String)
      → Local s client_id (run_handler library around there s client_id h kind request_id)
  unfolding run_handler
  run_handler-Local there s client_id h kind request_id =
      let c = called s client_id h in
      when-Local s client_id there _ _
        (when-Local s client_id ((around client_id).panics h) _ _
          (Local-trans s c _ client_id (called-Local s client_id h)
            (report-Local c kind client_id "" request_id))
          (called-Local s client_id h))
        (Local-refl s client_id)

  pub on_call-Local :
      (s : Server Number Value T Request Response) (client_id : String) (call : Call Request)
      → Local s client_id (on_call library around s client_id call)
  unfolding on_call
  on_call-Local s client_id call =
      let h = request_handled call.payload call.unique_id call.action in
      let c = called s client_id h in
      let r = report_handler_panic c request_handler_kind client_id call.action call.unique_id in
      when-Local s client_id s.request_handler _ _
        (when-Local s client_id ((around client_id).panics h) _ _
          (Local-trans s r _ client_id
            (Local-trans s c r client_id (called-Local s client_id h)
              (report-Local c request_handler_kind client_id call.action call.unique_id))
            (send_error-Local r client_id call.unique_id _ _ nil))
          (called-Local s client_id h))
        (Local-refl s client_id)

  pub received-Local :
      (s : Server Number Value T Request Response) (client_id request_id : String)
      → Local s client_id (record s { dispatcher = receive s.dispatcher client_id request_id })
  received-Local s client_id request_id =
      dispatcher-Local s client_id (receive s.dispatcher client_id request_id)
        (receive-Acts s.dispatcher client_id request_id)

  pub on_call_result-Local :
      (s : Server Number Value T Request Response) (client_id : String)
      → (result : CallResult Response)
      → Local s client_id (on_call_result library around s client_id result)
  unfolding on_call_result
  on_call_result-Local s client_id result =
      let a = received-Local s client_id result.unique_id in
      when-Local s client_id _ _ _
        (Local-trans s _ _ client_id a (run_handler-Local s.response_handler _ client_id _ _ _)) a

  pub on_call_error-Local :
      (s : Server Number Value T Request Response) (client_id : String)
      → (e : CallError Number Value)
      → Local s client_id (on_call_error library around s client_id e)
  unfolding on_call_error
  on_call_error-Local s client_id e =
      let a = received-Local s client_id e.unique_id in
      when-Local s client_id _ _ _
        (Local-trans s _ _ client_id a (run_handler-Local s.error_handler _ client_id _ _ _)) a
