-- ===== src/Ocppj/Dispatcher/Dispatches.antt =====
-- A dispatch of the client's message pump, ocppj/dispatcher.go, leaves something that wakes the pump again.
use ocpp_go.Base.{
  ℕ, String, ◌≡◌, ◌≢◌, refl, ◌⊎◌, inl, inr, Bool, true, false, false≢true, not, ◌&&◌, Option, none,
  some, List, [], ◌∷◌, arith, ◌∙◌, sym, All, if◌then◌else◌,
}
use ocpp_go.Ocpp.{Error}
use ocpp_go.Ocppj.Queue.{FifoClientQueue, is_empty}
use ocpp_go.Ocppj.State.{ClientState, has_pending_request, add_pending_request}
use ocpp_go.Ocppj.Bundle.{Call, RequestBundle, World, ctx_error, IsSendable}
use ocpp_go.Ocppj.Dispatcher.{stopped_timer, Dispatcher, no_pending, complete_and_cancel}
use ocpp_go.Ocppj.Dispatcher.Pump.{
  Dispatched, write_request, dispatch_bundle, dispatch_front, after_dispatch,
}
use ocpp_go.Ocppj.Dispatcher.Invariant.{pending_id}
use ocpp_go.Ocppj.Dispatcher.Dispatching.{added_named}
use ocpp_go.Ocppj.Dispatcher.Wakeups.{Alert, Able, ready-Alert, completed_front-Alert}

module _ {Request : Type 0} where
  -- What a dispatch leaves: a request that waits for its answer, or a signal.
  abbrev pub Sent : Dispatched Request → Type 0
  Sent r = Alert (after_dispatch r)

  completed-Sent :
      (d : Dispatcher Request) (call : Call Request) (err : Error) (dispatched : Bool)
      → (b : RequestBundle Request) (rest : List (RequestBundle Request))
      → d.request_queue.elements ≡ b ∷ rest
      → b.call ≡ some call
      → d.on_request_cancel ≡ true
      → Able d
      → Sent (record {
        dispatcher = complete_and_cancel d call.unique_id call.payload err;
        token = no_pending;
        dispatched = dispatched;
      })
  unfolding after_dispatch
  completed-Sent d call err dispatched b rest there named set a =
      let (ready, on, shut, _) =
        completed_front-Alert d call err b rest there named set a.on a.shut in
      either dispatched (complete_and_cancel d call.unique_id call.payload err) ready on shut
    where
      either :
          (t : Bool) (e : Dispatcher Request)
          → e.ready_for_dispatch ≡ true
          → e.pumping ≡ true
          → (e.closed ≡ false) ⊎ (e.running ≡ false)
          → Alert (
              if t
              then record e { pending = no_pending; rdy = false; timer = stopped_timer e.timeout }
              else e)
      either true e ready on shut = ready-Alert (record e { rdy = false }) ready on shut
      either false e ready on shut = ready-Alert e ready on shut

  bundle-Sent :
      (cause : Option String) (w : World) (d : Dispatcher Request) (call : Call Request)
      → (bytes : String) (ctx : Option ℕ)
      → (b : RequestBundle Request) (rest : List (RequestBundle Request))
      → d.request_queue.elements ≡ b ∷ rest
      → b.call ≡ some call
      → call.unique_id ≢ ""
      → has_pending_request d.pending_request_state ≡ false
      → d.on_request_cancel ≡ true
      → Able d
      → Sent (dispatch_bundle cause w d call bytes ctx)
  unfolding dispatch_bundle write_request after_dispatch
  bundle-Sent (some cause) w d call bytes ctx b rest there named n idle set a =
      completed-Sent d call _ false b rest there named set a
  bundle-Sent none w d call bytes ctx b rest there named n idle set a = written (w.write bytes)
    where
      marked : Dispatcher Request
      marked = record d {
        pending_request_state =
            add_pending_request d.pending_request_state call.unique_id call.payload;
      }

      waits : pending_id marked ≢ ""
      waits e = n (sym (added_named d.pending_request_state call.unique_id call.payload n idle) ∙ e)

      written : (o : Option String) → Sent (write_request o marked call ctx)
      written none = record {
        able = inr (inr (inl waits));
        up = inl a.on;
        live = inr a.on;
        shut = a.shut;
        awake = inr (inl waits);
      }
      written (some err) =
          completed-Sent marked call _ true b rest there named set
            (record { able = inr (inr waits); on = a.on; shut = a.shut })

  front-Sent :
      (w : World) (d : Dispatcher Request)
      → (b : RequestBundle Request) (rest : List (RequestBundle Request))
      → d.request_queue.elements ≡ b ∷ rest
      → IsSendable b
      → has_pending_request d.pending_request_state ≡ false
      → d.on_request_cancel ≡ true
      → Able d
      → Sent (dispatch_front (some b) w d)
  unfolding dispatch_front
  front-Sent w d b rest there (c, m, called, bytes, n) idle set a =
      rw called
        (rw bytes (bundle-Sent (ctx_error w b.ctx) w d c m b.ctx b rest there called n idle set a))

  pub next-Sent :
      (w : World) (d : Dispatcher Request) (es : List (RequestBundle Request))
      → d.request_queue.elements ≡ es
      → es ≢ []
      → All IsSendable es
      → has_pending_request d.pending_request_state ≡ false
      → d.on_request_cancel ≡ true
      → Able d
      → Sent (dispatch_front (elim es [ [] ↦ none | x ∷ rest ↦ some x ]) w d)
  next-Sent w d [] e filled s idle set a = absurd (filled refl)
  next-Sent w d (b ∷ rest) e filled (s, _) idle set a = front-Sent w d b rest e s idle set a

  pub empty_queue :
      (q : FifoClientQueue (RequestBundle Request)) → is_empty q ≡ true → q.elements ≡ []
  unfolding is_empty
  empty_queue q e = ground arith

  pub filled_queue :
      (q : FifoClientQueue (RequestBundle Request)) → is_empty q ≡ false → q.elements ≢ []
  unfolding is_empty
  filled_queue q e h = ground arith

  pub busy_named : (s : ClientState Request) → has_pending_request s ≡ true → s.request_id ≢ ""
  unfolding has_pending_request
  busy_named s e h = ground arith

  -- The guards of a dispatch: one that does not hold leaves something that wakes the pump.
  pub guarded-Alert :
      (d e : Dispatcher Request) (paused rdy empty busy : Bool)
      → d.paused ≡ paused
      → d.rdy ≡ rdy
      → is_empty d.request_queue ≡ empty
      → has_pending_request d.pending_request_state ≡ busy
      → Able d
      → (d.request_queue.elements ≢ [] → busy ≡ false → Alert e)
      → Alert (if not paused && (rdy && (not empty && not busy)) then e else d)
  guarded-Alert d e paused rdy empty busy p r q h a f = cases paused rdy empty busy p r q h f
    where
      up_still :
          ((d.request_queue.elements ≡ [])
            ⊎ (pending_id d ≢ "")
            ⊎ (d.paused ≡ true)
            ⊎ (d.ready_for_dispatch ≡ true))
          → Alert d
      up_still k = record {
        able = elim a.able [
          | inl x ↦ inl x
          | inr (inl x) ↦ inr (inl x)
          | inr (inr x) ↦ inr (inr (inl x))
        ];
        up = inl a.on;
        live = inr a.on;
        shut = a.shut;
        awake = elim k [
          | inl x ↦ inl x
          | inr (inl x) ↦ inr (inl x)
          | inr (inr (inl x)) ↦ inr (inr (inl x))
          | inr (inr (inr x)) ↦ inr (inr (inr (inl x)))
        ];
      }

      not_ready : d.rdy ≡ false → Alert d
      not_ready e = elim a.able [
        | inl x ↦ absurd (false≢true (sym e ∙ x))
        | inr (inl x) ↦ up_still (inr (inr (inr x)))
        | inr (inr x) ↦ up_still (inr (inl x))
      ]

      cases :
          (paused rdy empty busy : Bool)
          → d.paused ≡ paused
          → d.rdy ≡ rdy
          → is_empty d.request_queue ≡ empty
          → has_pending_request d.pending_request_state ≡ busy
          → (d.request_queue.elements ≢ [] → busy ≡ false → Alert e)
          → Alert (if not paused && (rdy && (not empty && not busy)) then e else d)
      cases true rdy empty busy p r q h f = up_still (inr (inr (inl p)))
      cases false false empty busy p r q h f = not_ready r
      cases false true true busy p r q h f = up_still (inl (empty_queue d.request_queue q))
      cases false true false true p r q h f =
          up_still (inr (inl (busy_named d.pending_request_state h)))
      cases false true false false p r q h f = f (filled_queue d.request_queue q) refl
