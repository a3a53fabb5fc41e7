-- ===== src/Ocppj/ServerDispatcher/Sending.antt =====
-- The loop of the server's message pump that sends, ocppj/dispatcher.go: what it does to the client's line, and
-- that it comes to its end.
use ocpp_go.Base.{
  ℕ, suc, String, ite, ◌≡◌, refl, ◌⊎◌, inl, inr, Bool, true, Option, none, some, List, [], ◌∷◌,
  ◌++◌, arith, text_discrete, ap, ◌∙◌, sym, subst, length,
}
use ocpp_go.Ocpp.{Error}
use ocpp_go.Ocppj.Queue.{FifoClientQueue, pop_if, peek}
use ocpp_go.Ocppj.QueueMap.{get, add}
use ocpp_go.Ocppj.State.{add_client_pending_request, delete_client_pending_request}
use ocpp_go.Ocppj.State.Clients.{state_of}
use ocpp_go.Ocppj.Bundle.{Call, RequestBundle, World, ctx_error, has_id, id_of}
use ocpp_go.Ocppj.ServerDispatcher.{
  ServerDispatcher, note, queued, fire_request_cancel, complete_request_owned, owned,
}
use ocpp_go.Ocppj.ServerDispatcher.Pump.{
  Dispatched, dispatch_idle, dispatch_written, dispatch_completed_no_write, complete_and_cancel,
  dropped_with, write_request, dispatch_bundle, dispatch_front, dispatch_next_request,
}
use ocpp_go.Ocppj.ServerDispatcher.Line.{marks, writes, once}
use ocpp_go.Ocppj.ServerDispatcher.Parts.{
  get-add, note_own, note_other, delete_own, add_own, add_other,
}
use ocpp_go.Ocppj.ServerDispatcher.Clients.{line_eq, elements_of, Acts, Acts-refl, Acts-trans}
use ocpp_go.Ocppj.ServerDispatcher.Completing.{complete_and_cancel-Acts}

stays_empty : (p id : String) → (p ≡ "") ⊎ (p ≡ id) → ite (text_discrete p id) "" p ≡ ""
stays_empty p id h = ground arith

module _ {Request : Type 0} where
  abbrev pub pending_of : ServerDispatcher Request → String → String
  pending_of d c = (state_of d.pending_request_state c).request_id

  -- The client's queue has that front and that rest.
  pub record Queue (d : ServerDispatcher Request) (client_id : String) (b : RequestBundle Request)
      (rest : List (RequestBundle Request)) : Type 0 where
    pub queue : FifoClientQueue (RequestBundle Request)
    pub there : get d.queue_map client_id ≡ some queue
    pub elements : queue.elements ≡ b ∷ rest

  pop_if-front :
      (q : FifoClientQueue (RequestBundle Request)) (p : RequestBundle Request → Bool)
      → (b : RequestBundle Request) (rest : List (RequestBundle Request)) → q.elements ≡ b ∷ rest
      → p b ≡ true
      → pop_if q p ≡ (record q { elements = rest }, some b)
  unfolding pop_if
  pop_if-front q p b rest e t = rw e (rw t refl)

  has_own_id :
      (b : RequestBundle Request) (call : Call Request)
      → b.call ≡ some call
      → has_id call.unique_id b ≡ true
  has_own_id b call e = rw e (ground arith)

  owned-front :
      (d : ServerDispatcher Request) (client_id : String) (call : Call Request)
      → (b : RequestBundle Request) (rest : List (RequestBundle Request))
      → (k : Queue d client_id b rest) → b.call ≡ some call
      → complete_request_owned d client_id call.unique_id ≡ (
        record d {
          queue_map = add d.queue_map client_id (record (k.queue) { elements = rest });
          pending_request_state =
              delete_client_pending_request d.pending_request_state client_id call.unique_id;
        },
        some b,
      )
  unfolding complete_request_owned owned
  owned-front d client_id call b rest k e =
      rw (k.there, complete_request_owned)
        (ap (λ r. owned r d client_id call.unique_id)
          (pop_if-front k.queue (has_id call.unique_id) b rest k.elements (has_own_id b call e)))

  -- The front is completed: it leaves the queue, and is no longer pending.
  completed-front :
      (d : ServerDispatcher Request) (client_id : String) (call : Call Request) (err : Error)
      → (b : RequestBundle Request) (rest : List (RequestBundle Request))
      → (k : Queue d client_id b rest) → b.call ≡ some call
      → let d' = complete_and_cancel d client_id call err in
        (queued (get d'.queue_map client_id) ≡ rest)
        × (pending_of d' client_id
            ≡ ite
                (text_discrete (pending_of d client_id) call.unique_id)
                ""
                (pending_of d client_id))
  unfolding complete_and_cancel fire_request_cancel
  completed-front d client_id call err b rest k e =
      let own = owned-front d client_id call b rest k e in
      (
        subst (λ r. queued (get (finish r).queue_map client_id) ≡ rest) (sym own)
            (ap queued (get-add d.queue_map client_id (record (k.queue) { elements = rest }))),
        subst
            (λ r.
              pending_of (finish r) client_id
              ≡ ite (text_discrete (pending_of d client_id) call.unique_id) ""
                  (pending_of d client_id))
            (sym own) (delete_own d.pending_request_state client_id call.unique_id),
      )
    where
      finish : ServerDispatcher Request × Option (RequestBundle Request) → ServerDispatcher Request
      finish (d', none) = d'
      finish (d', some b) = fire_request_cancel d' client_id call.unique_id call.payload err

  -- What a dispatch for a client with nothing pending does: unless it writes or has nothing to send, the
  -- queue is shorter by one, and nothing is pending again.
  pub record Sends (d : ServerDispatcher Request) (client_id : String) (r : Dispatched Request)
      : Type 0 where
    pub acts : Acts d client_id r.dispatcher
    pub again :
        r.status ≡ dispatch_completed_no_write
        → (pending_of r.dispatcher client_id ≡ "")
          × (suc (length (queued (get r.dispatcher.queue_map client_id)))
              ≡ length (queued (get d.queue_map client_id)))

  idle-Sends :
      (d : ServerDispatcher Request) (client_id : String)
      → Sends d client_id (dropped_with dispatch_idle d)
  idle-Sends d client_id = record { acts = Acts-refl d client_id; again = λ e. absurd (apart e) }
    where
      apart : dispatch_idle ≡ dispatch_completed_no_write → ⊥
      apart e = cc

  queued_front :
      (d : ServerDispatcher Request) (client_id : String)
      → (b : RequestBundle Request) (rest : List (RequestBundle Request))
      → (k : Queue d client_id b rest) → queued (get d.queue_map client_id) ≡ b ∷ rest
  queued_front d client_id b rest k = ap queued k.there ∙ k.elements

  -- The front ends without a write, from a state in which it is pending, or nothing is.
  completed-Sends :
      (d e : ServerDispatcher Request) (client_id : String) (call : Call Request) (err : Error)
      → (b : RequestBundle Request) (rest : List (RequestBundle Request)) → Queue d client_id b rest
      → Queue e client_id b rest
      → b.call ≡ some call
      → Acts d client_id e
      → (pending_of e client_id ≡ "") ⊎ (pending_of e client_id ≡ call.unique_id)
      → Sends d client_id
          (dropped_with dispatch_completed_no_write (complete_and_cancel e client_id call err))
  completed-Sends d e client_id call err b rest k k' named a idle =
      let (shorter, deleted) = completed-front e client_id call err b rest k' named in
      record {
        acts = Acts-trans a (complete_and_cancel-Acts e client_id call err);
        again = λ _. (
          deleted ∙ stays_empty (pending_of e client_id) call.unique_id idle,
          ap (λ es. suc (length es)) shorter ∙ ap length (sym (queued_front d client_id b rest k)),
        );
      }

  -- The front was made pending.
  abbrev marked : ServerDispatcher Request → String → Call Request → ServerDispatcher Request
  marked d client_id call = record d {
    pending_request_state =
        add_client_pending_request d.pending_request_state client_id call.unique_id call.payload;
  }

  marked-Acts :
      (d : ServerDispatcher Request) (client_id : String) (call : Call Request)
      → (b : RequestBundle Request) (rest : List (RequestBundle Request)) → Queue d client_id b rest
      → b.call ≡ some call
      → pending_of d client_id ≡ ""
      → Acts d client_id (marked d client_id call)
  marked-Acts d client_id call b rest k e idle = record {
    own = once (
        marks b rest (ap elements_of k.there ∙ ap some k.elements) idle (
          line_eq refl
            (add_own d.pending_request_state client_id call.unique_id call.payload idle
              ∙ sym (ap id_of e))
            refl refl refl));
    others = λ c n.
        line_eq refl (add_other d.pending_request_state client_id c call.unique_id call.payload n)
          refl refl refl;
    map_kept = λ h. h;
  }

  written-Acts :
      (d : ServerDispatcher Request) (client_id : String) (call : Call Request)
      → (b : RequestBundle Request) (rest : List (RequestBundle Request)) → Queue d client_id b rest
      → b.call ≡ some call
      → pending_of d client_id ≡ ""
      → Acts d client_id
          (record (marked d client_id call) { wire = note d.wire client_id (call.unique_id ∷ []) })
  written-Acts d client_id call b rest k e idle = record {
    own = once (
        writes b rest (ap elements_of k.there ∙ ap some k.elements) idle (
          line_eq refl
            (add_own d.pending_request_state client_id call.unique_id call.payload idle
              ∙ sym (ap id_of e))
            refl refl
            (note_own d.wire client_id (call.unique_id ∷ [])
              ∙ ap (λ id. d.wire client_id ++ id ∷ []) (sym (ap id_of e)))));
    others = λ c n.
        line_eq refl (add_other d.pending_request_state client_id c call.unique_id call.payload n)
          refl refl (note_other d.wire client_id c (call.unique_id ∷ []) n);
    map_kept = λ h. h;
  }

  write_request-Sends :
      (o : Option String) (d : ServerDispatcher Request) (client_id : String)
      → (call : Call Request) (user_ctx : Option ℕ)
      → (b : RequestBundle Request) (rest : List (RequestBundle Request)) → Queue d client_id b rest
      → b.call ≡ some call
      → pending_of d client_id ≡ ""
      → Sends d client_id (write_request o (marked d client_id call) client_id call user_ctx)
  unfolding write_request
  write_request-Sends none d client_id call user_ctx b rest k e idle = record {
    acts = written-Acts d client_id call b rest k e idle;
    again = λ s. absurd (apart s);
  }
    where
      apart : dispatch_written ≡ dispatch_completed_no_write → ⊥
      apart s = cc
  write_request-Sends (some err) d client_id call user_ctx b rest k e idle =
      completed-Sends d (marked d client_id call) client_id call _ b rest k
        (record { queue = k.queue; there = k.there; elements = k.elements }) e
        (marked-Acts d client_id call b rest k e idle)
        (inr (add_own d.pending_request_state client_id call.unique_id call.payload idle))

  dispatch_bundle-Sends :
      (cause : Option String) (w : World) (d : ServerDispatcher Request) (client_id : String)
      → (call : Call Request) (bytes : String) (user_ctx : Option ℕ)
      → (b : RequestBundle Request) (rest : List (RequestBundle Request)) → Queue d client_id b rest
      → b.call ≡ some call
      → pending_of d client_id ≡ ""
      → Sends d client_id (dispatch_bundle cause w d client_id call bytes user_ctx)
  unfolding dispatch_bundle
  dispatch_bundle-Sends none w d client_id call bytes user_ctx b rest k e idle =
      write_request-Sends (w.write bytes) d client_id call user_ctx b rest k e idle
  dispatch_bundle-Sends (some cause) w d client_id call bytes user_ctx b rest k e idle =
      completed-Sends d d client_id call _ b rest k k e (Acts-refl d client_id) (inl idle)

  dispatch_front-Sends :
      (w : World) (d : ServerDispatcher Request) (client_id : String)
      → (b : RequestBundle Request) (rest : List (RequestBundle Request)) → Queue d client_id b rest
      → pending_of d client_id ≡ ""
      → Sends d client_id (dispatch_front (some b) w d client_id)
  unfolding dispatch_front
  dispatch_front-Sends w d client_id b rest k idle = called b.call refl b.bytes
    where
      called :
          (o : Option (Call Request))
          → b.call ≡ o
          → (bytes : Option String)
          → Sends d client_id (elim o [
            | none ↦ dropped_with dispatch_idle d
            | some call ↦ elim bytes [
              | none ↦ dropped_with dispatch_idle d
              | some message ↦ dispatch_bundle (ctx_error w b.ctx) w d client_id call message b.ctx
            ]
          ])
      called none e bytes = idle-Sends d client_id
      called (some call) e none = idle-Sends d client_id
      called (some call) e (some message) =
          dispatch_bundle-Sends (ctx_error w b.ctx) w d client_id call message b.ctx b rest k e idle

  pub dispatch_next_request-Sends :
      (w : World) (d : ServerDispatcher Request) (client_id : String)
      → pending_of d client_id ≡ ""
      → Sends d client_id (dispatch_next_request w d client_id)
  unfolding dispatch_next_request peek dispatch_front
  dispatch_next_request-Sends w d client_id idle = looked (get d.queue_map client_id) refl
    where
      peeked :
          (q : FifoClientQueue (RequestBundle Request)) (es : List (RequestBundle Request))
          → get d.queue_map client_id ≡ some q
          → q.elements ≡ es
          → Sends d client_id
              (dispatch_front (elim es [ [] ↦ none | x ∷ rest ↦ some x ]) w d client_id)
      peeked q [] e f = idle-Sends d client_id
      peeked q (b ∷ rest) e f =
          dispatch_front-Sends w d client_id b rest (record { queue = q; there = e; elements = f })
            idle

      looked :
          (o : Option (FifoClientQueue (RequestBundle Request)))
          → get d.queue_map client_id ≡ o
          → Sends d client_id (elim o [
            | none ↦ dropped_with dispatch_idle d
            | some q ↦ dispatch_front (peek q) w d client_id
          ])
      looked none e = idle-Sends d client_id
      looked (some q) e = peeked q q.elements e refl
