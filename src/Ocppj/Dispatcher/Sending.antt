-- ===== src/Ocppj/Dispatcher/Sending.antt =====
-- `SendRequest` of the client's dispatcher, ocppj/dispatcher.go.
use ocpp_go.Base.{
  ◌-◌, String, ◌≡◌, refl, inl, inr, Bool, true, false, none, some, List, [], ◌∷◌, ◌++◌, map,
  All-append, if◌then◌else◌, ap, ◌∙◌, sym, subst, map-append, append_assoc,
}
use ocpp_go.Ocppj.Queue.{FifoClientQueue, push}
use ocpp_go.Ocppj.Queue.Order.{push-cases}
use ocpp_go.Ocppj.Bundle.{RequestBundle, IsSendable, id_of, ids, outcome_id}
use ocpp_go.Ocppj.Dispatcher.{Dispatcher, enqueue, pushed, signal, send_request}
use ocpp_go.Ocppj.Dispatcher.Invariant.{FrontIs, pending_id, Inv}

module _ {Request : Type 0} where
  enqueued-FrontIs :
      (id : String) (es : List (RequestBundle Request)) (b : RequestBundle Request)
      → FrontIs id es
      → FrontIs id (es ++ b ∷ [])
  enqueued-FrontIs id [] b h = absurd h
  enqueued-FrontIs id (x ∷ es) b h = h

  pushed-Inv :
      (d : Dispatcher Request) (b : RequestBundle Request)
      → IsSendable b
      → Inv d
      → Inv
          (pushed
            (record (d.request_queue) { elements = d.request_queue.elements ++ b ∷ [] }, true)
            d
            b).0
  unfolding pushed
  pushed-Inv d b (c, m, e, e', n) v = record {
    sendable =
        All-append IsSendable d.request_queue.elements (b ∷ []) v.sendable ((c, m, e, e', n), tt);
    front = elim v.front [
      | inl idle ↦ inl idle
      | inr h ↦ inr (enqueued-FrontIs (pending_id d) d.request_queue.elements b h)
    ];
    accounted =
        ap (λ call. d.accepted ++ elim call [ none ↦ [] | some k ↦ k.unique_id ∷ [] ]) e
        ∙ ap (λ id. d.accepted ++ id ∷ []) (sym (ap id_of e))
        ∙ ap (λ xs. xs ++ ids (b ∷ [])) v.accounted
        ∙ append_assoc (map outcome_id d.outcomes) (ids d.request_queue.elements) (ids (b ∷ []))
        ∙ ap (λ xs. map outcome_id d.outcomes ++ xs)
            (sym (map-append (λ k. id_of k.call) d.request_queue.elements (b ∷ [])));
    callback = v.callback;
    written = v.written;
  }

  when_first-Inv :
      (t : Bool) (x y : Dispatcher Request × Bool) → Inv x.0 → Inv y.0 → Inv (if t then x else y).0
  when_first-Inv true x y v w = v
  when_first-Inv false x y v w = w

  pub enqueue-Inv :
      (d : Dispatcher Request) (b : RequestBundle Request)
      → IsSendable b
      → Inv d
      → Inv (enqueue d b).0
  unfolding enqueue pushed
  enqueue-Inv d b h v =
      when_first-Inv d.has_network (pushed (push d.request_queue b) d b) (d, false)
        (elim (push-cases d.request_queue b) [
          | inl e ↦ subst (λ r. Inv (pushed r d b).0) (sym e) v
          | inr e ↦ subst (λ r. Inv (pushed r d b).0) (sym e) (pushed-Inv d b h v)
        ])
        v

  pub signal-Inv : (d : Dispatcher Request) → Inv d → Inv (signal d).0
  unfolding signal
  signal-Inv d v = when_first-Inv d.running _ _ v v

  signal-stopped :
      (d : Dispatcher Request)
      → d.running ≡ false
      → signal d ≡ (record d { senders = d.senders - 1 }, false)
  unfolding signal
  signal-stopped d h = rw (h, signal) refl

  -- SendRequest on a dispatcher that is not running, with a network client and room in the queue,
  -- returns an error and leaves the bundle in the queue.
  pub send_request_not_running :
      (d : Dispatcher Request) (b : RequestBundle Request)
      → d.has_network ≡ true
      → d.running ≡ false
      → (push d.request_queue b).1 ≡ true
      → let (d', sent) = send_request d b in
        (sent ≡ false) × (d'.request_queue.elements ≡ d.request_queue.elements ++ b ∷ [])
  unfolding send_request enqueue pushed
  send_request_not_running d b net stopped free = elim (push-cases d.request_queue b) [
    | inl e ↦ cc
    | inr e ↦ let all = path e in (ap (λ r. r.1) all, ap (λ r. r.0.request_queue.elements) all)
  ]
    where
      finish : Dispatcher Request × Bool → Dispatcher Request × Bool
      finish r = if r.1 then signal r.0 else (r.0, false)

      full : FifoClientQueue (RequestBundle Request)
      full = record (d.request_queue) { elements = d.request_queue.elements ++ b ∷ [] }

      after : Dispatcher Request
      after = (pushed (full, true) d b).0

      path :
          push d.request_queue b ≡ (full, true)
          → send_request d b ≡ (record after { senders = after.senders - 1 }, false)
      path e =
          ap (λ n. finish (if n then pushed (push d.request_queue b) d b else (d, false))) net
          ∙ ap (λ r. finish (pushed r d b)) e
          ∙ signal-stopped after stopped
