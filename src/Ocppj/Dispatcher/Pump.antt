-- ===== src/Ocppj/Dispatcher/Pump.antt =====
-- The message pump of the client's dispatcher, ocppj/dispatcher.go: one round of its loop for each arm
-- of its `select`, and its end.
use ocpp_go.Base.{
  ℕ, ◌-◌, String, Bool, true, false, not, ◌&&◌, Option, none, some, List, [], ◌∷◌, ◌++◌,
  text_discrete, test, is_some, if◌then◌else◌,
}
use ocpp_go.Ocpp.{
  internal_error, new_request_timeout_error, new_request_canceled_error,
  new_dispatcher_stopped_error, new_local_transport_error,
}
use ocpp_go.Ocppj.Queue.{peek, drain_all, init, is_empty}
use ocpp_go.Ocppj.State.{
  add_pending_request, get_pending_request, clear_pending_requests, has_pending_request,
}
use ocpp_go.Ocppj.Bundle.{Call, RequestBundle, World, ctx_error, default_timeout_tick}
use ocpp_go.Ocppj.Dispatcher.{
  PumpPending, Dispatcher, no_pending, stopped_timer, fire_request_cancel, complete_and_cancel,
}

-- What `dispatchNextRequest` returns with the new state.
pub record Dispatched (Request : Type 0) : Type 0 where
  pub dispatcher : Dispatcher Request
  pub token : PumpPending Request
  pub dispatched : Bool

-- The four arms that go on to the end of the round; the last with the error of the context.
pub data Arm : Type 0 where
  request_arm timer_arm ready_arm : Arm
  cancel_arm : String → Arm

module _ {Request : Type 0} where
  -- The write, after the request was made pending.
  unfoldable pub write_request :
      Option String → Dispatcher Request → Call Request → Option ℕ → Dispatched Request
  unfolding complete_and_cancel
  write_request (some err) d call ctx = record {
    dispatcher =
        complete_and_cancel d call.unique_id call.payload
          (new_local_transport_error internal_error err call.unique_id);
    token = no_pending;
    dispatched = true;
  }
  write_request none d call ctx = record {
    dispatcher = record d { wire = d.wire ++ call.unique_id ∷ [] };
    token = record { id = call.unique_id; action = call.action; ctx = ctx; payload = call.payload };
    dispatched = true;
  }

  -- Past the checks of the bundle: drop it if its context has fired, or else write it.
  unfoldable pub dispatch_bundle :
      Option String
      → World
      → Dispatcher Request
      → Call Request
      → String
      → Option ℕ
      → Dispatched Request
  unfolding write_request complete_and_cancel
  dispatch_bundle (some cause) w d call message ctx = record {
    dispatcher =
        complete_and_cancel d call.unique_id call.payload
          (new_request_canceled_error call.unique_id (some cause));
    token = no_pending;
    dispatched = false;
  }
  dispatch_bundle none w d call message ctx =
      write_request (w.write message)
        (record d {
          pending_request_state =
              add_pending_request d.pending_request_state call.unique_id call.payload;
        })
        call ctx

  unfoldable pub dispatch_front :
      Option (RequestBundle Request) → World → Dispatcher Request → Dispatched Request
  unfolding dispatch_bundle
  dispatch_front none w d = record { dispatcher = d; token = no_pending; dispatched = false }
  dispatch_front (some b) w d = elim b.call [
    | none ↦ record { dispatcher = d; token = no_pending; dispatched = false }
    | some call ↦ elim b.bytes [
      | none ↦ record { dispatcher = d; token = no_pending; dispatched = false }
      | some message ↦ dispatch_bundle (ctx_error w b.ctx) w d call message b.ctx
    ]
  ]

  unfoldable pub dispatch_next_request : World → Dispatcher Request → Dispatched Request
  unfolding dispatch_front peek
  dispatch_next_request w d = dispatch_front (peek d.request_queue) w d

  -- A bundle that was queued when the pump stops; one without a call is passed over.
  unfoldable pub cancel_stopped :
      Dispatcher Request → List (RequestBundle Request) → Dispatcher Request
  unfolding fire_request_cancel
  cancel_stopped d [] = d
  cancel_stopped d (b ∷ outstanding) =
      cancel_stopped
        (elim b.call [
          | none ↦ d
          | some c ↦
              fire_request_cancel d c.unique_id c.payload (new_dispatcher_stopped_error c.unique_id)
        ])
        outstanding

  -- The arm of the closed request channel: the pump's last act.
  unfoldable pub shut_down : Dispatcher Request → Dispatcher Request
  unfolding cancel_stopped drain_all init clear_pending_requests
  shut_down d =
      let (q, outstanding) = drain_all d.request_queue in
      let cleared = record d {
        request_queue = q;
        pending_request_state = clear_pending_requests d.pending_request_state;
      } in
      let d' = cancel_stopped cleared outstanding in
      record d' { request_queue = init d'.request_queue; pumping = false }

  -- The head of the loop: a token whose request is no longer pending is forgotten.
  unfoldable pub reconcile : Dispatcher Request → Dispatcher Request
  unfolding get_pending_request
  reconcile d =
      if not (test (text_discrete d.pending.id ""))
        && not (is_some (get_pending_request d.pending_request_state d.pending.id))
      then record d { pending = no_pending }
      else d

  -- A request timed out: the front of the queue is completed and canceled.
  unfoldable pub time_out : Option (RequestBundle Request) → Dispatcher Request → Dispatcher Request
  unfolding complete_and_cancel
  time_out none d = d
  time_out (some b) d = elim b.call [
    | none ↦ d
    | some c ↦ complete_and_cancel d c.unique_id c.payload (new_request_timeout_error c.unique_id)
  ]

  unfoldable pub on_tick : Dispatcher Request → Dispatcher Request
  unfolding time_out has_pending_request peek
  on_tick d =
      let ticked = record d { timer = record (d.timer) { fired = false } } in
      let d' =
        if has_pending_request d.pending_request_state
        then time_out (peek d.request_queue) ticked
        else ticked in
      record d' {
        timer = record (d'.timer) { period = default_timeout_tick };
        pending = no_pending;
      }

  -- The context of the request in flight has fired, with the given error.
  unfoldable pub on_canceled : String → Dispatcher Request → Dispatcher Request
  unfolding complete_and_cancel get_pending_request
  on_canceled cause d =
      let p = d.pending in
      let d' =
        if is_some (get_pending_request d.pending_request_state p.id)
        then complete_and_cancel d p.id p.payload (new_request_canceled_error p.id (some cause))
        else d in
      record d' { pending = no_pending }

  unfoldable pub after_dispatch : Dispatched Request → Dispatcher Request
  after_dispatch r =
      if r.dispatched
      then record (r.dispatcher) {
        pending = r.token;
        rdy = false;
        timer = stopped_timer r.dispatcher.timeout;
      }
      else r.dispatcher

  -- The end of a round: dispatch, unless paused.
  unfoldable pub try_dispatch : World → Dispatcher Request → Dispatcher Request
  unfolding dispatch_next_request is_empty has_pending_request after_dispatch
  try_dispatch w d =
      if not d.paused
        && (d.rdy
            && (not (is_empty d.request_queue)
                && not (has_pending_request d.pending_request_state)))
      then after_dispatch (dispatch_next_request w d)
      else d

  unfoldable pub take_arm : Arm → Dispatcher Request → Dispatcher Request
  unfolding on_tick on_canceled
  take_arm request_arm d = record d { tokens = d.tokens - 1 }
  take_arm timer_arm d = on_tick d
  take_arm ready_arm d = record d { ready_for_dispatch = false; rdy = true }
  take_arm (cancel_arm cause) d = on_canceled cause d

  -- One round of `messagePump`, for an arm of the `select` that can proceed.
  unfoldable pub round : World → Arm → Dispatcher Request → Dispatcher Request
  unfolding reconcile take_arm try_dispatch
  round w arm d = try_dispatch w (take_arm arm (reconcile d))
