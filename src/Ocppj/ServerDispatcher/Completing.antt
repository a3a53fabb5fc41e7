-- ===== src/Ocppj/ServerDispatcher/Completing.antt =====
-- Completing requests in the server's dispatcher, ocppj/dispatcher.go: the one who takes the front of the queue
-- ends it.
use ocpp_go.Base.{
  ℕ, String, ite, ◌≡◌, refl, ◌⊎◌, inl, inr, Bool, true, false, Option, none, some, List, [], ◌∷◌,
  ◌++◌, text_discrete, ap, ◌∙◌, sym, subst, test, Option-cases, if◌then◌else◌,
}
use ocpp_go.Dict.{Dict, insert-IsMap}
use ocpp_go.Ocpp.{Error}
use ocpp_go.Ocppj.Queue.{FifoClientQueue}
use ocpp_go.Ocppj.Queue.Order.{pop_if-cases}
use ocpp_go.Ocppj.QueueMap.{get, add}
use ocpp_go.Ocppj.State.{delete_client_pending_request}
use ocpp_go.Ocppj.State.Clients.{state_of}
use ocpp_go.Ocppj.Bundle.{Call, RequestBundle, responded, canceled, has_id}
use ocpp_go.Ocppj.Dispatcher.Invariant.{has_id-id_of}
use ocpp_go.Ocppj.ServerDispatcher.{
  ServerDispatcher, Ending, ended_by, unreported, note, fire_request_cancel, owned,
  complete_request_owned, complete_request, receive,
}
use ocpp_go.Ocppj.ServerDispatcher.Pump.{cancel_popped, complete_and_cancel}
use ocpp_go.Ocppj.ServerDispatcher.Line.{finishes, once, ending_id}
use ocpp_go.Ocppj.ServerDispatcher.Parts.{
  get-add, get-add_other, note_own, note_other, delete_own, delete_other,
}
use ocpp_go.Ocppj.ServerDispatcher.Clients.{line_eq, elements_of, Acts, Acts-refl}

module _ {Request : Type 0} where
  -- The front of the client's queue is a call with that ID.
  pub record Front (d : ServerDispatcher Request) (client_id request_id : String) : Type 0 where
    pub queue : FifoClientQueue (RequestBundle Request)
    pub bundle : RequestBundle Request
    pub rest : List (RequestBundle Request)
    pub there : get d.queue_map client_id ≡ some queue
    pub elements : queue.elements ≡ bundle ∷ rest
    pub same : has_id request_id bundle ≡ true

  -- The state after the front was taken.
  abbrev pub taken :
      (d : ServerDispatcher Request) (client_id request_id : String)
      → Front d client_id request_id
      → ServerDispatcher Request
  taken d client_id request_id f = record d {
    queue_map = add d.queue_map client_id (record (f.queue) { elements = f.rest });
    pending_request_state =
        delete_client_pending_request d.pending_request_state client_id request_id;
  }

  pub complete_request_owned-cases :
      (d : ServerDispatcher Request) (client_id request_id : String)
      → (complete_request_owned d client_id request_id ≡ (d, none))
        ⊎ ((f : Front d client_id request_id) × (complete_request_owned d client_id request_id
              ≡ (taken d client_id request_id f, some f.bundle)))
  unfolding complete_request_owned owned
  complete_request_owned-cases d client_id request_id =
      elim (Option-cases (get d.queue_map client_id)) [
        | inl e ↦ inl (rw (e, complete_request_owned) refl)
        | inr (q, e) ↦ elim (pop_if-cases q (has_id request_id)) [
          | inl p ↦
              inl (rw (e, complete_request_owned) (ap (λ r. owned r d client_id request_id) p))
          | inr (b, rest, es, t, p) ↦ inr (
            record { queue = q; bundle = b; rest = rest; there = e; elements = es; same = t },
            rw (e, complete_request_owned) (ap (λ r. owned r d client_id request_id) p),
          )
        ]
      ]

  -- The front is taken, and ends.
  pub finished-Acts :
      (d : ServerDispatcher Request) (client_id request_id : String)
      → (f : Front d client_id request_id) (o : Ending Request) → ending_id o ≡ request_id
      → Acts d client_id
          (record (taken d client_id request_id f) { ended = note d.ended client_id (o ∷ []) })
  unfolding add
  finished-Acts d client_id request_id f o same = record {
    own = once (
        finishes f.bundle f.rest o (ap elements_of f.there ∙ ap some f.elements)
          (same ∙ sym (has_id-id_of request_id f.bundle.call f.same))
          (line_eq (ap elements_of (get-add d.queue_map client_id _))
            (delete_own d.pending_request_state client_id request_id
              ∙ ap
                  (λ id.
                    ite (text_discrete (state_of d.pending_request_state client_id).request_id id)
                      "" (state_of d.pending_request_state client_id).request_id)
                  (sym same))
            refl (note_own d.ended client_id (o ∷ [])) refl));
    others = λ c n.
        line_eq (ap elements_of (get-add_other d.queue_map client_id c _ n))
          (delete_other d.pending_request_state client_id c request_id n) refl
          (note_other d.ended client_id c (o ∷ []) n) refl;
    map_kept = λ h. insert-IsMap client_id _ d.queue_map.queues h;
  }

  fired_id :
      (t : Bool) (id : String) (request : Option Request) (err : Error)
      → ending_id (if t then ended_by (canceled id request err) else unreported id) ≡ id
  fired_id true id request err = refl
  fired_id false id request err = refl

  -- The cancel callback for the front that was taken.
  pub fired-Acts :
      (d : ServerDispatcher Request) (client_id request_id : String)
      → (f : Front d client_id request_id) (request : Option Request) (err : Error)
      → Acts d client_id
          (fire_request_cancel (taken d client_id request_id f) client_id request_id request err)
  unfolding fire_request_cancel
  fired-Acts d client_id request_id f request err =
      finished-Acts d client_id request_id f _ (fired_id d.on_request_cancel request_id request _)

  pub complete_and_cancel-Acts :
      (d : ServerDispatcher Request) (client_id : String) (call : Call Request) (err : Error)
      → Acts d client_id (complete_and_cancel d client_id call err)
  unfolding complete_and_cancel
  complete_and_cancel-Acts d client_id call err =
      elim (complete_request_owned-cases d client_id call.unique_id) [
        | inl e ↦ subst (λ r. Acts d client_id (finish r)) (sym e) (Acts-refl d client_id)
        | inr (f, e) ↦
            subst (λ r. Acts d client_id (finish r)) (sym e)
              (fired-Acts d client_id call.unique_id f call.payload err)
      ]
    where
      finish : ServerDispatcher Request × Option (RequestBundle Request) → ServerDispatcher Request
      finish (d', none) = d'
      finish (d', some b) = fire_request_cancel d' client_id call.unique_id call.payload err

  -- With the variables of the pump set.
  abbrev pub with_pump :
      ServerDispatcher Request → Dict (Option ℕ) → Dict String → List ℕ → ServerDispatcher Request
  with_pump d contexts dispatched ctxs = record d {
    rdy = true;
    client_context_map = contexts;
    dispatched_request_id_map = dispatched;
    canceled_ctxs = ctxs;
  }

  pub cancel_popped-Acts :
      (d : ServerDispatcher Request) (client_id request_id : String)
      → (f : Front d client_id request_id) (err : String → Error)
      → (contexts : Dict (Option ℕ)) (dispatched : Dict String) (ctxs : List ℕ)
      → Acts d client_id (
          cancel_popped
            (with_pump (taken d client_id request_id f) contexts dispatched ctxs)
            client_id
            f.bundle
            err)
  unfolding cancel_popped fire_request_cancel
  cancel_popped-Acts d client_id request_id f err contexts dispatched ctxs =
      called f.bundle.call f.same
    where
      e : ServerDispatcher Request
      e = with_pump (taken d client_id request_id f) contexts dispatched ctxs

      called :
          (call : Option (Call Request))
          → elim call [ none ↦ false | some c ↦ test (text_discrete c.unique_id request_id) ] ≡ true
          → Acts d client_id (elim call [
            | none ↦ e
            | some c ↦ fire_request_cancel e client_id c.unique_id c.payload (err c.unique_id)
          ])
      called none h = cc
      called (some c) h =
          subst (λ id. Acts d client_id (fire_request_cancel e client_id id c.payload (err id)))
            (sym (has_id-id_of request_id (some c) h))
            (fired-Acts d client_id request_id f c.payload (err request_id))

  pub receive-Acts :
      (d : ServerDispatcher Request) (client_id request_id : String)
      → Acts d client_id (receive d client_id request_id)
  unfolding receive complete_request
  receive-Acts d client_id request_id = elim (complete_request_owned-cases d client_id request_id) [
    | inl e ↦ subst (λ r. Acts d client_id (finish r)) (sym e) (Acts-refl d client_id)
    | inr (f, e) ↦
        subst (λ r. Acts d client_id (finish r)) (sym e)
          (finished-Acts d client_id request_id f (ended_by (responded request_id)) refl)
  ]
    where
      signaled :
          ServerDispatcher Request × Option (RequestBundle Request)
          → ServerDispatcher Request × Bool
      signaled (d', none) = (d', false)
      signaled (d', some b) = (
        record d' {
          ready_for_dispatch =
              d'.ready_for_dispatch
              ++ record { client_id = client_id; request_id = request_id } ∷ [];
        },
        true,
      )

      finish : ServerDispatcher Request × Option (RequestBundle Request) → ServerDispatcher Request
      finish r =
          let (d', won) = signaled r in
          if won
          then record d' { ended = note d'.ended client_id (ended_by (responded request_id) ∷ []) }
          else d'
