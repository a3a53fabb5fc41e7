-- ===== src/Ocppj/Dispatcher/Invariant.antt =====
-- What holds of the client's dispatcher between two steps, ocppj/dispatcher.go.
use ocpp_go.Base.{
  IsSublist, IsSublist-append, String, ◌≡◌, ◌≢◌, refl, ◌⊎◌, inl, inr, Bool, true, false, Option,
  none, some, List, [], ◌∷◌, ◌++◌, map, arith, text_discrete, All, test, if◌then◌else◌, ap, ◌∙◌,
  sym, subst, map-append, append_assoc,
}
use ocpp_go.Ocpp.{Error, mark_local_transport_error}
use ocpp_go.Ocppj.Queue.{FifoClientQueue}
use ocpp_go.Ocppj.Queue.Order.{pop_if-cases}
use ocpp_go.Ocppj.State.{ClientState, delete_pending_request}
use ocpp_go.Ocppj.Bundle.{
  Call, RequestBundle, Outcome, responded, canceled, has_id, IsSendable, id_of, ids, outcome_id,
}
use ocpp_go.Ocppj.Dispatcher.{
  Dispatcher, complete_request, completed, fire_request_cancel, complete_and_cancel, receive,
}

module _ {Request : Type 0} where
  -- The front of the queue has that ID.
  abbrev pub FrontIs : String → List (RequestBundle Request) → Type 0
  FrontIs id [] = ⊥
  FrontIs id (b ∷ rest) = id_of b.call ≡ id

  abbrev pub pending_id : Dispatcher Request → String
  pending_id d = d.pending_request_state.request_id

  pub record Kept (queue : List (RequestBundle Request)) (pending : String) (accepted : List String)
      (outcomes : List (Outcome Request)) (on_request_cancel : Bool) (wire : List String)
      : Type 0 where
    pub sendable : All IsSendable queue
    pub front : (pending ≡ "") ⊎ FrontIs pending queue
    -- every request that was taken in ended, or is still queued: in this order, and once
    pub accounted : accepted ≡ map outcome_id outcomes ++ ids queue
    pub callback : on_request_cancel ≡ true
    -- the written messages are of requests that ended, and of the pending one
    pub written :
        IsSublist wire (map outcome_id outcomes)
        ⊎ ((pending ≢ "") × IsSublist wire (map outcome_id outcomes ++ pending ∷ []))

  abbrev pub Inv : Dispatcher Request → Type 0
  Inv d =
      Kept d.request_queue.elements (pending_id d) d.accepted d.outcomes d.on_request_cancel d.wire

  -- The state after the front was completed.
  abbrev pub without_front :
      Dispatcher Request → List (RequestBundle Request) → String → Dispatcher Request
  without_front d rest request_id = record d {
    request_queue = record (d.request_queue) { elements = rest };
    pending_request_state = delete_pending_request d.pending_request_state request_id;
    ready_for_dispatch = true;
  }

  -- The front of the queue is a call with that ID, and `rest` follows it.
  pub record Front (d : Dispatcher Request) (request_id : String)
      (rest : List (RequestBundle Request)) : Type 0 where
    pub bundle : RequestBundle Request
    pub elements : d.request_queue.elements ≡ bundle ∷ rest
    pub same : has_id request_id bundle ≡ true

  pub complete_request-cases :
      (d : Dispatcher Request) (request_id : String)
      → (complete_request d request_id ≡ (d, false))
        ⊎ ((rest : List (RequestBundle Request)) × Front d request_id rest
            × (complete_request d request_id ≡ (without_front d rest request_id, true)))
  unfolding complete_request
  complete_request-cases d request_id = elim (pop_if-cases d.request_queue (has_id request_id)) [
    | inl e ↦ inl (ap finish e)
    | inr (b, rest, es, t, e) ↦
        inr (rest, record { bundle = b; elements = es; same = t }, ap finish e)
  ]
    where
      finish :
          FifoClientQueue (RequestBundle Request) × Option (RequestBundle Request)
          → Dispatcher Request × Bool
      finish r = completed r.1 (record d { request_queue = r.0 }) request_id

  pub has_id-id_of :
      (request_id : String) (call : Option (Call Request))
      → elim call [ none ↦ false | some c ↦ test (text_discrete c.unique_id request_id) ] ≡ true
      → id_of call ≡ request_id
  has_id-id_of request_id none h = cc
  has_id-id_of request_id (some c) h = ground arith

  no_longer_pending :
      (s : ClientState Request) (request_id : String)
      → (s.request_id ≡ "") ⊎ (s.request_id ≡ request_id)
      → (delete_pending_request s request_id).request_id ≡ ""
  unfolding delete_pending_request
  no_longer_pending s request_id h = ground arith

  -- The front leaves with its outcome: the invariant is kept.
  finish-Inv :
      (d : Dispatcher Request) (request_id : String) (rest : List (RequestBundle Request))
      → (o : Outcome Request) → outcome_id o ≡ request_id
      → Front d request_id rest
      → Inv d
      → Inv (record (without_front d rest request_id) { outcomes = d.outcomes ++ o ∷ [] })
  finish-Inv d request_id rest o same f v = record {
    sendable = (subst (All IsSendable) f.elements v.sendable).1;
    front = inl (no_longer_pending d.pending_request_state request_id cleared);
    accounted =
        v.accounted
        ∙ ap (λ es. map outcome_id d.outcomes ++ ids es) f.elements
        ∙ ap (λ id. map outcome_id d.outcomes ++ id ∷ ids rest) (named ∙ sym same)
        ∙ sym (append_assoc (map outcome_id d.outcomes) (outcome_id o ∷ []) (ids rest))
        ∙ ap (λ xs. xs ++ ids rest) (sym (map-append outcome_id d.outcomes (o ∷ [])));
    callback = v.callback;
    written = inl (subst (IsSublist d.wire) (sym grown) sent);
  }
    where
      grown : map outcome_id (d.outcomes ++ o ∷ []) ≡ map outcome_id d.outcomes ++ request_id ∷ []
      grown =
          map-append outcome_id d.outcomes (o ∷ [])
          ∙ ap (λ id. map outcome_id d.outcomes ++ id ∷ []) same

      named : id_of f.bundle.call ≡ request_id
      named = has_id-id_of request_id f.bundle.call f.same

      cleared : (pending_id d ≡ "") ⊎ (pending_id d ≡ request_id)
      cleared = elim v.front [
        | inl e ↦ inl e
        | inr p ↦ inr (sym (subst (FrontIs (pending_id d)) f.elements p) ∙ named)
      ]

      sent : IsSublist d.wire (map outcome_id d.outcomes ++ request_id ∷ [])
      sent = elim v.written [
        | inl h ↦ IsSublist-append d.wire (map outcome_id d.outcomes) (request_id ∷ []) h
        | inr (n, h) ↦ elim cleared [
          | inl e ↦ absurd (n e)
          | inr e ↦ subst (λ id. IsSublist d.wire (map outcome_id d.outcomes ++ id ∷ [])) e h
        ]
      ]

  -- The cancel callback, where it is set.
  pub canceled_with :
      (d : Dispatcher Request) (request_id : String) (request : Option Request) (err : Error)
      → d.on_request_cancel ≡ true
      → fire_request_cancel d request_id request err ≡ record d {
        outcomes = d.outcomes ++ canceled request_id request (mark_local_transport_error err) ∷ [];
      }
  unfolding fire_request_cancel
  canceled_with d request_id request err set = ap (λ b. if b then fired else d) set
    where
      fired : Dispatcher Request
      fired = record d {
        outcomes = d.outcomes ++ canceled request_id request (mark_local_transport_error err) ∷ [];
      }

  pub complete_and_cancel-Inv :
      (d : Dispatcher Request) (request_id : String) (request : Option Request) (err : Error)
      → Inv d
      → Inv (complete_and_cancel d request_id request err)
  unfolding complete_and_cancel
  complete_and_cancel-Inv d request_id request err v = elim (complete_request-cases d request_id) [
    | inl e ↦ rw (e, complete_and_cancel) v
    | inr (rest, f, e) ↦
        rw (e, complete_and_cancel)
          (subst Inv
            (sym
              (canceled_with (without_front d rest request_id) request_id request err v.callback))
            (finish-Inv d request_id rest
              (canceled request_id request (mark_local_transport_error err)) refl f v))
  ]

  pub receive-Inv :
      (d : Dispatcher Request) (request_id : String) → Inv d → Inv (receive d request_id)
  unfolding receive
  receive-Inv d request_id v = elim (complete_request-cases d request_id) [
    | inl e ↦ rw (e, receive) v
    | inr (rest, f, e) ↦
        rw (e, receive) (finish-Inv d request_id rest (responded request_id) refl f v)
  ]

  -- What was written was taken in before, in the same order.
  pub written-accepted : (d : Dispatcher Request) → Inv d → IsSublist d.wire d.accepted
  written-accepted d v = subst (IsSublist d.wire) (sym v.accounted) (elim v.written [
    | inl h ↦ IsSublist-append d.wire (map outcome_id d.outcomes) (ids d.request_queue.elements) h
    | inr (n, h) ↦ elim v.front [
      | inl e ↦ absurd (n e)
      | inr f ↦ at_front d.request_queue.elements f h
    ]
  ])
    where
      ended : List String
      ended = map outcome_id d.outcomes

      at_front :
          (es : List (RequestBundle Request))
          → FrontIs (pending_id d) es
          → IsSublist d.wire (ended ++ pending_id d ∷ [])
          → IsSublist d.wire (ended ++ ids es)
      at_front [] f h = absurd f
      at_front (b ∷ es) f h =
          subst (IsSublist d.wire)
            (append_assoc ended (pending_id d ∷ []) (ids es)
              ∙ ap (λ id. ended ++ id ∷ ids es) (sym f))
            (IsSublist-append d.wire (ended ++ pending_id d ∷ []) (ids es) h)
