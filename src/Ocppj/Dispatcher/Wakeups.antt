-- ===== src/Ocppj/Dispatcher/Wakeups.antt =====
-- What wakes the client's message pump, ocppj/dispatcher.go: a round of it leaves something that does, while there
-- is a request to send.
use ocpp_go.Base.{
  ℕ, ◌<◌, String, ◌≡◌, ◌≢◌, refl, ◌⊎◌, inl, inr, Bool, true, false, Option, none, some, List, [],
  ◌∷◌, arith, ap, ◌∙◌, sym, subst, if◌then◌else◌,
}
use ocpp_go.Ocpp.{Error, new_request_timeout_error}
use ocpp_go.Ocppj.Queue.{FifoClientQueue, peek, pop_if}
use ocpp_go.Ocppj.Bundle.{Call, RequestBundle, has_id}
use ocpp_go.Ocppj.Dispatcher.{
  Dispatcher, complete_request, completed, complete_and_cancel, fire_request_cancel,
}
use ocpp_go.Ocppj.Dispatcher.Pump.{
  Arm, request_arm, timer_arm, ready_arm, cancel_arm, reconcile, time_out, on_tick, on_canceled,
  take_arm,
}
use ocpp_go.Ocppj.Dispatcher.Invariant.{
  pending_id, complete_request-cases, canceled_with, without_front,
}

-- Within a round.
pub record AbleTo (pending : String) (rdy ready pumping running closed : Bool) : Type 0 where
  pub able : (rdy ≡ true) ⊎ (ready ≡ true) ⊎ (pending ≢ "")
  pub on : pumping ≡ true
  pub shut : (closed ≡ false) ⊎ (running ≡ false)

module _ {Request : Type 0} where
  pub record Alerted (queue : List (RequestBundle Request)) (pending : String)
      (rdy ready pumping running closed paused : Bool) (tokens senders : ℕ) : Type 0 where
    -- the pump may send, will learn that it may, or waits for an answer
    pub able : (rdy ≡ true) ⊎ (ready ≡ true) ⊎ (pending ≢ "") ⊎ (pumping ≡ false)
    pub up : (pumping ≡ true) ⊎ (queue ≡ [])
    pub live : (running ≡ false) ⊎ (pumping ≡ true)
    pub shut : (closed ≡ false) ⊎ (running ≡ false)
    -- what is queued has something that wakes the pump
    pub awake :
        (queue ≡ [])
        ⊎ (pending ≢ "")
        ⊎ (paused ≡ true)
        ⊎ (ready ≡ true)
        ⊎ (0 < tokens)
        ⊎ (0 < senders)
        ⊎ (running ≡ false)

  abbrev pub Alert : Dispatcher Request → Type 0
  Alert d =
      Alerted d.request_queue.elements (pending_id d) d.rdy d.ready_for_dispatch d.pumping d.running
        d.closed d.paused d.tokens d.senders

  abbrev pub Able : Dispatcher Request → Type 0
  Able d = AbleTo (pending_id d) d.rdy d.ready_for_dispatch d.pumping d.running d.closed

  pub ready-Alert :
      (d : Dispatcher Request)
      → d.ready_for_dispatch ≡ true
      → d.pumping ≡ true
      → (d.closed ≡ false) ⊎ (d.running ≡ false)
      → Alert d
  ready-Alert d ready on shut = record {
    able = inr (inl ready);
    up = inl on;
    live = inr on;
    shut = shut;
    awake = inr (inr (inr (inl ready)));
  }

  complete_and_cancel-Able :
      (d : Dispatcher Request) (request_id : String) (request : Option Request) (err : Error)
      → d.on_request_cancel ≡ true
      → Able d
      → Able (complete_and_cancel d request_id request err)
  unfolding complete_and_cancel
  complete_and_cancel-Able d request_id request err set a =
      elim (complete_request-cases d request_id) [
        | inl e ↦ rw (e, complete_and_cancel) a
        | inr (rest, f, e) ↦
            rw (e, complete_and_cancel)
              (subst Able
                (sym (canceled_with (without_front d rest request_id) request_id request err set))
                (record { able = inr (inl refl); on = a.on; shut = a.shut }))
      ]

  when-Able : (b : Bool) (d e : Dispatcher Request) → Able d → Able e → Able (if b then d else e)
  when-Able true d e v w = v
  when-Able false d e v w = w

  time_out-Able :
      (front : Option (RequestBundle Request)) (d : Dispatcher Request)
      → d.on_request_cancel ≡ true
      → Able d
      → Able (time_out front d)
  unfolding time_out
  time_out-Able none d set a = a
  time_out-Able (some b) d set a = called b.call
    where
      called :
          (call : Option (Call Request))
          → Able (elim call [
            | none ↦ d
            | some c ↦
                complete_and_cancel d c.unique_id c.payload (new_request_timeout_error c.unique_id)
          ])
      called none = a
      called (some c) = complete_and_cancel-Able d _ _ _ set a

  pub take_arm-Able :
      (arm : Arm) (d : Dispatcher Request)
      → d.on_request_cancel ≡ true
      → Able d
      → Able (take_arm arm d)
  unfolding take_arm on_tick on_canceled
  take_arm-Able request_arm d set a = a
  take_arm-Able timer_arm d set a = when-Able _ _ _ (time_out-Able (peek d.request_queue) _ set a) a
  take_arm-Able ready_arm d set a = record { able = inl refl; on = a.on; shut = a.shut }
  take_arm-Able (cancel_arm cause) d set a =
      when-Able _ _ _ (complete_and_cancel-Able d d.pending.id d.pending.payload _ set a) a

  pub reconcile-Able : (d : Dispatcher Request) → Able d → Able (reconcile d)
  unfolding reconcile
  reconcile-Able d a = when-Able _ _ _ a a

  -- The front is completed by its own ID.
  pop_front :
      (q : FifoClientQueue (RequestBundle Request)) (p : RequestBundle Request → Bool)
      → (b : RequestBundle Request) (rest : List (RequestBundle Request)) → q.elements ≡ b ∷ rest
      → p b ≡ true
      → pop_if q p ≡ (record q { elements = rest }, some b)
  unfolding pop_if
  pop_front q p b rest e t = rw e (rw t refl)

  own_id :
      (b : RequestBundle Request) (call : Call Request)
      → b.call ≡ some call
      → has_id call.unique_id b ≡ true
  own_id b call e = rw e (ground arith)

  pub completed_front-Alert :
      (d : Dispatcher Request) (call : Call Request) (err : Error)
      → (b : RequestBundle Request) (rest : List (RequestBundle Request))
      → d.request_queue.elements ≡ b ∷ rest
      → b.call ≡ some call
      → d.on_request_cancel ≡ true
      → d.pumping ≡ true
      → (d.closed ≡ false) ⊎ (d.running ≡ false)
      → let d' = complete_and_cancel d call.unique_id call.payload err in
        (d'.ready_for_dispatch ≡ true)
        × (d'.pumping ≡ true)
        × ((d'.closed ≡ false) ⊎ (d'.running ≡ false))
        × (d'.request_queue.elements ≡ rest)
  unfolding complete_and_cancel complete_request completed
  completed_front-Alert d call err b rest there named set on shut =
      subst Good
        (sym (
          ap finish
            (pop_front d.request_queue (has_id call.unique_id) b rest there (own_id b call named))
          ∙ canceled_with (without_front d rest call.unique_id) call.unique_id call.payload err
              set))
        (refl, on, shut, refl)
    where
      Good : Dispatcher Request → Type 0
      Good d' =
          (d'.ready_for_dispatch ≡ true)
          × (d'.pumping ≡ true)
          × ((d'.closed ≡ false) ⊎ (d'.running ≡ false))
          × (d'.request_queue.elements ≡ rest)

      finish :
          FifoClientQueue (RequestBundle Request) × Option (RequestBundle Request)
          → Dispatcher Request
      finish r =
          let (d', won) = completed r.1 (record d { request_queue = r.0 }) call.unique_id in
          if won then fire_request_cancel d' call.unique_id call.payload err else d'
