-- ===== src/Ocppj/Dispatcher/Steps.antt =====
-- Interleavings of the client's dispatcher, ocppj/dispatcher.go: the methods, the arrival of answers
-- and the rounds of the message pump, in any order.
use ocpp_go.Base.{
  IsSublist, ℕ, ◌<◌, String, ◌≡◌, ◌≢◌, refl, ◌⊎◌, inl, true, false, some, [], ◌∷◌, ◌++◌, map, sym,
}
use ocpp_go.Ocppj.Queue.{new_fifo_client_queue}
use ocpp_go.Ocppj.State.{new_client_state, has_pending_request}
use ocpp_go.Ocppj.Bundle.{RequestBundle, World, IsSendable, ids, outcome_id}
use ocpp_go.Ocppj.Dispatcher.{
  Dispatcher, enqueue, signal, start, stop, pause, resume, receive, new_default_client_dispatcher,
  set_on_request_canceled, set_network_client,
}
use ocpp_go.Ocppj.Dispatcher.Pump.{
  Arm, round, shut_down, reconcile, request_arm, timer_arm, ready_arm, cancel_arm,
}
use ocpp_go.Ocppj.Dispatcher.Invariant.{written-accepted, FrontIs, pending_id, Inv, receive-Inv}
use ocpp_go.Ocppj.Dispatcher.Dispatching.{round-Inv, when-Inv}
use ocpp_go.Ocppj.Dispatcher.Stopping.{
  stopped_outcomes, shut_down_lem, shut_down-Inv, shut_down-ids,
}
use ocpp_go.Ocppj.Dispatcher.Sending.{enqueue-Inv, signal-Inv}

module _ {Request : Type 0} where
  -- The arms of the `select` that can proceed; the token is looked at after the head of the loop.
  abbrev pub Enabled : Arm → Dispatcher Request → Type 0
  Enabled request_arm d = 0 < d.tokens
  Enabled timer_arm d = d.timer.fired ≡ true
  Enabled ready_arm d = d.ready_for_dispatch ≡ true
  Enabled (cancel_arm cause) d =
      ((reconcile d).pending.id ≢ "") × ((c : ℕ) × ((reconcile d).pending.ctx ≡ some c))

  -- A method, its second half, an answer, a tick of the timer, or a round of the pump.
  pub data Step : Dispatcher Request → Dispatcher Request → Type 0 where
    enqueues :
        (d : Dispatcher Request) (b : RequestBundle Request) → IsSendable b → Step d (enqueue d b).0
    signals : (d : Dispatcher Request) → 0 < d.senders → Step d (signal d).0
    fires :
        (d : Dispatcher Request) → Step d (record d { timer = record (d.timer) { fired = true } })
    rounds :
        (d : Dispatcher Request) (w : World) (arm : Arm)
        → d.pumping ≡ true
        → Enabled arm d
        → Step d (round w arm d)
    receives : (d : Dispatcher Request) (request_id : String) → Step d (receive d request_id)
    pauses : (d : Dispatcher Request) → Step d (pause d)
    resumes : (d : Dispatcher Request) → Step d (resume d)
    stops : (d : Dispatcher Request) → Step d (stop d)
    shuts_down :
        (d : Dispatcher Request)
        → d.pumping ≡ true
        → d.closed ≡ true
        → d.tokens ≡ 0
        → Step d (shut_down d)
    starts : (d : Dispatcher Request) → d.pumping ≡ false → Step d (start d)

  pub data Reach (d : Dispatcher Request) : Dispatcher Request → Type 0 where
    here : Reach d d
    next : {e f : Dispatcher Request} → Reach d e → Step e f → Reach d f

  -- A new dispatcher with its network client and its cancel callback.
  abbrev pub wired : ℕ → Dispatcher Request
  wired capacity =
      set_on_request_canceled
        (set_network_client (new_default_client_dispatcher (new_fifo_client_queue capacity)) true)
        true

  stop-Inv : (d : Dispatcher Request) → Inv d → Inv (stop d)
  unfolding stop
  stop-Inv d v = when-Inv d.running _ _ v v

  resume-Inv : (d : Dispatcher Request) → Inv d → Inv (resume d)
  unfolding resume
  resume-Inv d v = when-Inv (has_pending_request d.pending_request_state) _ _ v v

  Step-Inv : {d e : Dispatcher Request} → Step d e → Inv d → Inv e
  unfolding pause start
  Step-Inv (enqueues d b h) v = enqueue-Inv d b h v
  Step-Inv (signals d h) v = signal-Inv d v
  Step-Inv (fires d) v = v
  Step-Inv (rounds d w arm p h) v = round-Inv w arm d v
  Step-Inv (receives d request_id) v = receive-Inv d request_id v
  Step-Inv (pauses d) v = v
  Step-Inv (resumes d) v = resume-Inv d v
  Step-Inv (stops d) v = stop-Inv d v
  Step-Inv (shuts_down d p c t) v = shut_down-Inv d v
  Step-Inv (starts d p) v = v

  pub Reach-Inv : {d e : Dispatcher Request} → Reach d e → Inv d → Inv e
  Reach-Inv here v = v
  Reach-Inv (next r s) v = Step-Inv s (Reach-Inv r v)

  pub wired-Inv : (capacity : ℕ) → Inv (wired capacity)
  unfolding set_on_request_canceled set_network_client new_default_client_dispatcher
      new_fifo_client_queue new_client_state
  wired-Inv capacity = record {
    sendable = tt;
    front = inl refl;
    accounted = refl;
    callback = refl;
    written = inl tt;
  }

  -- In every state that the client's dispatcher, with a network client and a cancel callback,
  -- reaches by its methods, answers, ticks and rounds of its pump in any order, the requests taken
  -- in, all of them sendable, are those that have ended, each with one outcome, followed by those
  -- in the queue, in the order in which they were taken in; and the pending request, if there is
  -- one, is the front of the queue.
  pub requests_accounted :
      (capacity : ℕ) (d : Dispatcher Request)
      → Reach (wired capacity) d
      → (d.accepted ≡ map outcome_id d.outcomes ++ ids d.request_queue.elements)
        × ((pending_id d ≡ "") ⊎ FrontIs (pending_id d) d.request_queue.elements)
  requests_accounted capacity d r =
      let v = Reach-Inv r (wired-Inv capacity) in (v.accounted, v.front)

  -- When the pump of a reached dispatcher stops, every queued request ends as canceled with the
  -- dispatcher-stopped error, in order, so that every request that was taken in has ended once,
  -- the queue is empty and nothing is pending.
  pub stopped_accounted :
      (capacity : ℕ) (d : Dispatcher Request)
      → Reach (wired capacity) d
      → let d' = shut_down d in
        (d'.outcomes ≡ d.outcomes ++ stopped_outcomes d.request_queue.elements)
        × (map outcome_id d'.outcomes ≡ d.accepted)
        × (d'.request_queue.elements ≡ [])
        × (pending_id d' ≡ "")
  stopped_accounted capacity d r =
      let v = Reach-Inv r (wired-Inv capacity) in
      let (ended, drained, idle, _, _, _, _) = shut_down_lem d v.callback in
      (ended, sym (shut_down-ids d v), drained, idle)

  -- In every state that the client's dispatcher, with a network client, a cancel callback and
  -- sendable requests, reaches by its methods, answers, ticks and rounds of its pump in any order,
  -- the messages written are among the requests taken in, in the order in which they were taken in
  -- and none oftener, and each of them is of a request that has ended, but for the last, which may
  -- be of the pending one.
  pub written_in_order :
      (capacity : ℕ) (d : Dispatcher Request)
      → Reach (wired capacity) d
      → IsSublist d.wire d.accepted
        × (IsSublist d.wire (map outcome_id d.outcomes)
            ⊎ ((pending_id d ≢ "")
                × IsSublist d.wire (map outcome_id d.outcomes ++ pending_id d ∷ [])))
  written_in_order capacity d r =
      let v = Reach-Inv r (wired-Inv capacity) in (written-accepted d v, v.written)
