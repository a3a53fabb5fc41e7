-- ===== src/Ocppj/Dispatcher/Stopping.antt =====
-- The end of the client's message pump, ocppj/dispatcher.go: what becomes of the queued requests.
use ocpp_go.Base.{
  IsSublist, ◌≡◌, refl, inl, true, false, Option, none, some, List, [], ◌∷◌, ◌++◌, map, All, ap,
  ◌∙◌, sym, subst, map-append, append_assoc, append-nil,
}
use ocpp_go.Ocpp.{new_dispatcher_stopped_error, mark_local_transport_error}
use ocpp_go.Ocppj.Queue.{drain_all, init}
use ocpp_go.Ocppj.State.{clear_pending_requests}
use ocpp_go.Ocppj.Bundle.{Call, RequestBundle, Outcome, canceled, IsSendable, ids, outcome_id}
use ocpp_go.Ocppj.Dispatcher.{Dispatcher, fire_request_cancel}
use ocpp_go.Ocppj.Dispatcher.Pump.{shut_down, cancel_stopped}
use ocpp_go.Ocppj.Dispatcher.Invariant.{written-accepted, pending_id, Inv, canceled_with}

module _ {Request : Type 0} where
  -- How a queued bundle ends when the pump stops.
  abbrev pub stopped_outcome : RequestBundle Request → List (Outcome Request)
  stopped_outcome b = elim b.call [
    | none ↦ []
    | some c ↦
        canceled c.unique_id c.payload
          (mark_local_transport_error (new_dispatcher_stopped_error c.unique_id))
        ∷ []
  ]

  abbrev pub stopped_outcomes : List (RequestBundle Request) → List (Outcome Request)
  stopped_outcomes [] = []
  stopped_outcomes (b ∷ bs) = stopped_outcome b ++ stopped_outcomes bs

  cancel_one :
      (d : Dispatcher Request) (call : Option (Call Request))
      → d.on_request_cancel ≡ true
      → ◌≡◌ {A = Dispatcher Request}
          (elim call [
            | none ↦ d
            | some c ↦
                fire_request_cancel d c.unique_id c.payload
                  (new_dispatcher_stopped_error c.unique_id)
          ])
          (record d {
            outcomes = d.outcomes ++ elim call [
              | none ↦ []
              | some c ↦
                  canceled c.unique_id c.payload
                    (mark_local_transport_error (new_dispatcher_stopped_error c.unique_id))
                  ∷ []
            ];
          })
  cancel_one d none set = ap (λ os. record d { outcomes = os }) (sym (append-nil d.outcomes))
  cancel_one d (some c) set = canceled_with d c.unique_id c.payload _ set

  pub cancel_stopped-outcomes :
      (d : Dispatcher Request) (bs : List (RequestBundle Request))
      → d.on_request_cancel ≡ true
      → cancel_stopped d bs ≡ record d { outcomes = d.outcomes ++ stopped_outcomes bs }
  unfolding cancel_stopped
  cancel_stopped-outcomes d [] set =
      ap (λ os. record d { outcomes = os }) (sym (append-nil d.outcomes))
  cancel_stopped-outcomes d (b ∷ bs) set =
      ap (λ e. cancel_stopped e bs) (cancel_one d b.call set)
      ∙ cancel_stopped-outcomes (record d { outcomes = d.outcomes ++ stopped_outcome b }) bs set
      ∙ ap (λ os. record d { outcomes = os })
          (append_assoc d.outcomes (stopped_outcome b) (stopped_outcomes bs))

  pub shut_down_lem :
      (d : Dispatcher Request)
      → d.on_request_cancel ≡ true
      → let d' = shut_down d in
        (d'.outcomes ≡ d.outcomes ++ stopped_outcomes d.request_queue.elements)
        × (d'.request_queue.elements ≡ [])
        × (pending_id d' ≡ "")
        × (d'.accepted ≡ d.accepted)
        × (d'.pumping ≡ false)
        × (d'.on_request_cancel ≡ true)
        × (d'.wire ≡ d.wire)
  unfolding shut_down clear_pending_requests init drain_all
  shut_down_lem d set =
      let e =
        cancel_stopped-outcomes
          (record d {
            request_queue = record (d.request_queue) { elements = [] };
            pending_request_state = clear_pending_requests d.pending_request_state;
          })
          d.request_queue.elements set in
      (
        ap (λ d'. d'.outcomes) e,
        refl,
        ap (λ d'. d'.pending_request_state.request_id) e,
        ap (λ d'. d'.accepted) e,
        refl,
        ap (λ d'. d'.on_request_cancel) e ∙ set,
        ap (λ d'. d'.wire) e,
      )

  stopped-ids :
      (bs : List (RequestBundle Request))
      → All IsSendable bs
      → map outcome_id (stopped_outcomes bs) ≡ ids bs
  stopped-ids [] h = refl
  stopped-ids (b ∷ bs) ((c, m, e, _, _), h) = rw (e, stopped-ids bs h) refl

  pub shut_down-ids :
      (d : Dispatcher Request) → Inv d → d.accepted ≡ map outcome_id (shut_down d).outcomes
  shut_down-ids d v =
      v.accounted
      ∙ ap (λ xs. map outcome_id d.outcomes ++ xs)
          (sym (stopped-ids d.request_queue.elements v.sendable))
      ∙ sym (map-append outcome_id d.outcomes (stopped_outcomes d.request_queue.elements))
      ∙ ap (λ os. map outcome_id os) (sym (shut_down_lem d v.callback).0)

  pub shut_down-Inv : (d : Dispatcher Request) → Inv d → Inv (shut_down d)
  shut_down-Inv d v =
      let (_, drained, idle, kept, _, set, wire) = shut_down_lem d v.callback in
      let all = map outcome_id (shut_down d).outcomes in
      record {
        sendable = subst (All IsSendable) (sym drained) tt;
        front = inl idle;
        accounted =
            kept
            ∙ shut_down-ids d v
            ∙ sym (append-nil all)
            ∙ ap (λ es. all ++ ids es) (sym drained);
        callback = set;
        written = inl (
            subst (λ w. IsSublist w all) (sym wire)
              (subst (IsSublist d.wire) (shut_down-ids d v) (written-accepted d v)));
      }
