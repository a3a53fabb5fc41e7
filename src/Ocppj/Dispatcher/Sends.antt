-- ===== src/Ocppj/Dispatcher/Sends.antt =====
-- A round of the client's message pump, ocppj/dispatcher.go, that may send does so: the front of the queue is sent,
-- or it has ended.
use ocpp_go.Base.{
  ℕ, String, ◌≡◌, ◌≢◌, refl, ◌⊎◌, inl, inr, Bool, true, false, false≢true, not, ◌&&◌, Option, none,
  some, List, ◌∷◌, ◌∙◌, sym, subst, All, if◌then◌else◌,
}
use ocpp_go.Ocpp.{Error}
use ocpp_go.Ocppj.Queue.{FifoClientQueue, is_empty, peek}
use ocpp_go.Ocppj.State.{has_pending_request, add_pending_request}
use ocpp_go.Ocppj.Bundle.{Call, RequestBundle, World, ctx_error, IsSendable}
use ocpp_go.Ocppj.Dispatcher.{stopped_timer, Dispatcher, complete_and_cancel}
use ocpp_go.Ocppj.Dispatcher.Pump.{
  Dispatched, write_request, dispatch_bundle, dispatch_front, dispatch_next_request, after_dispatch,
  try_dispatch,
}
use ocpp_go.Ocppj.Dispatcher.Invariant.{pending_id, Inv}
use ocpp_go.Ocppj.Dispatcher.Dispatching.{added_named}
use ocpp_go.Ocppj.Dispatcher.Wakeups.{Able, completed_front-Alert}

module _ {Request : Type 0} where
  -- From a queue with that rest, the front waits for its answer or is gone.
  abbrev pub Moved : List (RequestBundle Request) → Dispatcher Request → Type 0
  Moved rest d = (pending_id d ≢ "") ⊎ (d.request_queue.elements ≡ rest)

  completed-Moved :
      (d : Dispatcher Request) (call : Call Request) (err : Error)
      → (b : RequestBundle Request) (rest : List (RequestBundle Request))
      → d.request_queue.elements ≡ b ∷ rest
      → b.call ≡ some call
      → d.on_request_cancel ≡ true
      → Able d
      → Moved rest (complete_and_cancel d call.unique_id call.payload err)
  completed-Moved d call err b rest there named set a =
      let (_, _, _, gone) = completed_front-Alert d call err b rest there named set a.on a.shut in
      inr gone

  bundle-Moved :
      (cause : Option String) (w : World) (d : Dispatcher Request) (call : Call Request)
      → (bytes : String) (ctx : Option ℕ)
      → (b : RequestBundle Request) (rest : List (RequestBundle Request))
      → d.request_queue.elements ≡ b ∷ rest
      → b.call ≡ some call
      → call.unique_id ≢ ""
      → has_pending_request d.pending_request_state ≡ false
      → d.on_request_cancel ≡ true
      → Able d
      → Moved rest (dispatch_bundle cause w d call bytes ctx).dispatcher
  unfolding dispatch_bundle write_request
  bundle-Moved (some cause) w d call bytes ctx b rest there named n idle set a =
      completed-Moved d call _ b rest there named set a
  bundle-Moved none w d call bytes ctx b rest there named n idle set a = written (w.write bytes)
    where
      marked : Dispatcher Request
      marked = record d {
        pending_request_state =
            add_pending_request d.pending_request_state call.unique_id call.payload;
      }

      waits : pending_id marked ≢ ""
      waits e = n (sym (added_named d.pending_request_state call.unique_id call.payload n idle) ∙ e)

      written : (o : Option String) → Moved rest (write_request o marked call ctx).dispatcher
      written none = inl waits
      written (some err) =
          completed-Moved marked call _ b rest there named set
            (record { able = inr (inr waits); on = a.on; shut = a.shut })

  front-Moved :
      (w : World) (d : Dispatcher Request)
      → (b : RequestBundle Request) (rest : List (RequestBundle Request))
      → d.request_queue.elements ≡ b ∷ rest
      → IsSendable b
      → has_pending_request d.pending_request_state ≡ false
      → d.on_request_cancel ≡ true
      → Able d
      → Moved rest (dispatch_front (some b) w d).dispatcher
  unfolding dispatch_front
  front-Moved w d b rest there (c, m, called, bytes, n) idle set a =
      rw called
        (rw bytes (bundle-Moved (ctx_error w b.ctx) w d c m b.ctx b rest there called n idle set a))

  peeked :
      (q : FifoClientQueue (RequestBundle Request)) (b : RequestBundle Request)
      → (rest : List (RequestBundle Request)) → q.elements ≡ b ∷ rest
      → (peek q ≡ some b) × (is_empty q ≡ false)
  unfolding peek is_empty
  peeked q b rest e = (rw e refl, rw e refl)

  after-Moved :
      (rest : List (RequestBundle Request)) (r : Dispatched Request)
      → Moved rest r.dispatcher
      → Moved rest (after_dispatch r)
  unfolding after_dispatch
  after-Moved rest r m = either r.dispatched
    where
      either :
          (t : Bool)
          → Moved rest (
              if t
              then record (r.dispatcher) {
                pending = r.token;
                rdy = false;
                timer = stopped_timer r.dispatcher.timeout;
              }
              else r.dispatcher)
      either true = m
      either false = m

  -- A round for the signal that the pump may send.
  pub ready_round-Moved :
      (w : World) (d : Dispatcher Request) (b : RequestBundle Request)
      → (rest : List (RequestBundle Request)) → d.request_queue.elements ≡ b ∷ rest
      → d.paused ≡ false
      → has_pending_request d.pending_request_state ≡ false
      → Inv d
      → Able d
      → Moved rest (try_dispatch w (record d { ready_for_dispatch = false; rdy = true }))
  unfolding try_dispatch dispatch_next_request
  ready_round-Moved w d b rest there unpaused idle v a =
      let (front, filled) = peeked d.request_queue b rest there in
      opened _ d.paused (is_empty d.request_queue) (has_pending_request d.pending_request_state)
        unpaused filled idle
        (subst (λ o. Moved rest (after_dispatch (dispatch_front o w d'))) (sym front)
          (after-Moved rest (dispatch_front (some b) w d') (
            front-Moved w d' b rest there (subst (All IsSendable) there v.sendable).0 idle
              v.callback (record { able = inl refl; on = a.on; shut = a.shut }))))
    where
      d' : Dispatcher Request
      d' = record d { ready_for_dispatch = false; rdy = true }

      opened :
          (x : Dispatcher Request) (paused empty busy : Bool)
          → paused ≡ false
          → empty ≡ false
          → busy ≡ false
          → Moved rest x
          → Moved rest (if not paused && (not empty && not busy) then x else d')
      opened x false false false p e f m = m
      opened x true empty busy p e f m = absurd (false≢true (sym p))
      opened x false true busy p e f m = absurd (false≢true (sym e))
      opened x false false true p e f m = absurd (false≢true (sym f))
