-- ===== src/Ocppj/Dispatcher/Alerts.antt =====
-- Every step of the client's dispatcher, ocppj/dispatcher.go, leaves something that wakes the pump, while there is a
-- request to send.
use ocpp_go.Base.{
  suc, ◌-◌, String, ◌≡◌, ◌≢◌, refl, inl, inr, Bool, true, false, false≢true, List, [], ◌∷◌, ◌++◌,
  arith, ap, ◌∙◌, sym, subst, if◌then◌else◌,
}
use ocpp_go.Ocppj.Queue.{push, peek, is_empty, drain_all, init}
use ocpp_go.Ocppj.Queue.Order.{push-cases}
use ocpp_go.Ocppj.State.{has_pending_request, clear_pending_requests}
use ocpp_go.Ocppj.Bundle.{RequestBundle, World}
use ocpp_go.Ocppj.Dispatcher.{
  stopped_timer, Dispatcher, enqueue, pushed, signal, start, stop, pause, resume, receive,
}
use ocpp_go.Ocppj.Dispatcher.Pump.{
  Arm, round, shut_down, reconcile, take_arm, try_dispatch, dispatch_next_request, after_dispatch,
}
use ocpp_go.Ocppj.Dispatcher.Invariant.{Inv, complete_request-cases}
use ocpp_go.Ocppj.Dispatcher.Dispatching.{reconcile-Inv, take_arm-Inv}
use ocpp_go.Ocppj.Dispatcher.Stopping.{shut_down_lem, cancel_stopped-outcomes}
use ocpp_go.Ocppj.Dispatcher.Wakeups.{Alert, Able, take_arm-Able, reconcile-Able}
use ocpp_go.Ocppj.Dispatcher.Dispatches.{busy_named, next-Sent, guarded-Alert}

module _ {Request : Type 0} where
  pub try_dispatch-Alert :
      (w : World) (d : Dispatcher Request) → Inv d → Able d → Alert (try_dispatch w d)
  unfolding try_dispatch dispatch_next_request peek
  try_dispatch-Alert w d v a =
      guarded-Alert d (after_dispatch (dispatch_next_request w d)) d.paused d.rdy
        (is_empty d.request_queue) (has_pending_request d.pending_request_state) refl refl refl refl
        a
        λ filled idle.
          next-Sent w d d.request_queue.elements refl filled v.sendable idle v.callback a

  -- On a pump that runs, a state that is alert may take a round.
  pub Alert-Able : (d : Dispatcher Request) → Alert d → d.pumping ≡ true → Able d
  Alert-Able d v on = record {
    able = elim v.able [
      | inl x ↦ inl x
      | inr (inl x) ↦ inr (inl x)
      | inr (inr (inl x)) ↦ inr (inr x)
      | inr (inr (inr x)) ↦ absurd (false≢true (sym x ∙ on))
    ];
    on = on;
    shut = v.shut;
  }

  pub round-Alert :
      (w : World) (arm : Arm) (d : Dispatcher Request)
      → d.pumping ≡ true
      → Inv d
      → Alert d
      → Alert (round w arm d)
  unfolding round
  round-Alert w arm d on v a =
      let u = reconcile-Inv d v in
      try_dispatch-Alert w (take_arm arm (reconcile d)) (take_arm-Inv arm (reconcile d) u)
        (take_arm-Able arm (reconcile d) u.callback (reconcile-Able d (Alert-Able d a on)))

  -- A sender that has pushed its request goes on to signal.
  pub grown-Alert :
      (d : Dispatcher Request) (b : RequestBundle Request)
      → d.running ≡ true
      → Alert d
      → Alert
          (pushed
            (record (d.request_queue) { elements = d.request_queue.elements ++ b ∷ [] }, true)
            d
            b).0
  unfolding pushed
  grown-Alert d b on a = record {
    able = a.able;
    up = elim a.live [ inl x ↦ absurd (false≢true (sym x ∙ on)) | inr x ↦ inl x ];
    live = a.live;
    shut = a.shut;
    awake = inr (inr (inr (inr (inr (inl (omega arith))))));
  }

  pub enqueue-Alert :
      (d : Dispatcher Request) (b : RequestBundle Request)
      → d.running ≡ true
      → Alert d
      → Alert (enqueue d b).0
  unfolding enqueue
  enqueue-Alert d b on a = networked d.has_network (elim (push-cases d.request_queue b) [
    | inl e ↦ subst (λ r. Alert (pushed r d b).0) (sym e) a
    | inr e ↦ subst (λ r. Alert (pushed r d b).0) (sym e) (grown-Alert d b on a)
  ])
    where
      networked :
          (t : Bool)
          → Alert (pushed (push d.request_queue b) d b).0
          → Alert (if t then pushed (push d.request_queue b) d b else (d, false)).0
      networked true x = x
      networked false x = a

  pub signal-Alert : (d : Dispatcher Request) → Alert d → Alert (signal d).0
  unfolding signal
  signal-Alert d a = signaled d.running refl
    where
      sent : Bool → Dispatcher Request × Bool
      sent t =
          if t
          then (record d { senders = d.senders - 1; tokens = suc d.tokens }, true)
          else (record d { senders = d.senders - 1 }, false)

      signaled : (t : Bool) → d.running ≡ t → Alert (sent t).0
      signaled true e = record {
        able = a.able;
        up = a.up;
        live = a.live;
        shut = a.shut;
        awake = inr (inr (inr (inr (inl (omega arith)))));
      }
      signaled false e = record {
        able = a.able;
        up = a.up;
        live = a.live;
        shut = a.shut;
        awake = inr (inr (inr (inr (inr (inr e)))));
      }

  pub receive-Alert :
      (d : Dispatcher Request) (request_id : String) → Alert d → Alert (receive d request_id)
  unfolding receive
  receive-Alert d request_id a = elim (complete_request-cases d request_id) [
    | inl e ↦ rw (e, receive) a
    | inr (rest, f, e) ↦
        rw (e, receive)
          (record {
            able = inr (inl refl);
            up = elim a.up [ inl x ↦ inl x | inr x ↦ absurd (filled (sym f.elements ∙ x)) ];
            live = a.live;
            shut = a.shut;
            awake = inr (inr (inr (inl refl)));
          })
  ]
    where
      filled : {b : RequestBundle Request} {es : List (RequestBundle Request)} → b ∷ es ≢ []
      filled e = cc

  pub pause-Alert : (d : Dispatcher Request) → Alert d → Alert (pause d)
  unfolding pause
  pause-Alert d a = record {
    able = a.able;
    up = a.up;
    live = a.live;
    shut = a.shut;
    awake = inr (inr (inl refl));
  }

  pub resume-Alert : (d : Dispatcher Request) → Alert d → Alert (resume d)
  unfolding resume
  resume-Alert d a = resumed (has_pending_request d.pending_request_state) refl
    where
      resumed :
          (t : Bool)
          → has_pending_request d.pending_request_state ≡ t
          → Alert (
              if t
              then record d { paused = false; timer = stopped_timer d.timeout }
              else record d { paused = false; ready_for_dispatch = true })
      resumed true e = record {
        able = a.able;
        up = a.up;
        live = a.live;
        shut = a.shut;
        awake = inr (inl (busy_named d.pending_request_state e));
      }
      resumed false e = record {
        able = inr (inl refl);
        up = a.up;
        live = a.live;
        shut = a.shut;
        awake = inr (inr (inr (inl refl)));
      }

  pub stop-Alert : (d : Dispatcher Request) → Alert d → Alert (stop d)
  unfolding stop
  stop-Alert d a = stopped d.running
    where
      stopped : (t : Bool) → Alert (if t then record d { running = false; closed = true } else d)
      stopped true = record {
        able = a.able;
        up = a.up;
        live = inl refl;
        shut = inr refl;
        awake = inr (inr (inr (inr (inr (inr refl)))));
      }
      stopped false = a

  shut_down-running :
      (d : Dispatcher Request) → d.on_request_cancel ≡ true → (shut_down d).running ≡ d.running
  unfolding shut_down clear_pending_requests init drain_all
  shut_down-running d set =
      ap (λ d'. d'.running)
        (cancel_stopped-outcomes
          (record d {
            request_queue = record (d.request_queue) { elements = [] };
            pending_request_state = clear_pending_requests d.pending_request_state;
          })
          d.request_queue.elements set)

  pub shut_down-Alert :
      (d : Dispatcher Request)
      → d.closed ≡ true
      → d.on_request_cancel ≡ true
      → Alert d
      → Alert (shut_down d)
  shut_down-Alert d closed set a =
      let (_, drained, _, _, off, _, _) = shut_down_lem d set in
      let halted = elim a.shut as (λ x. d.running ≡ false) [
        | inl x ↦ absurd (false≢true (sym x ∙ closed))
        | inr x ↦ x
      ] in
      record {
        able = inr (inr (inr off));
        up = inr drained;
        live = inl (shut_down-running d set ∙ halted);
        shut = inr (shut_down-running d set ∙ halted);
        awake = inl drained;
      }

  pub start-Alert : (d : Dispatcher Request) → d.pumping ≡ false → Alert d → Alert (start d)
  unfolding start
  start-Alert d off a = record {
    able = inl refl;
    up = inl refl;
    live = inr refl;
    shut = inl refl;
    awake = elim a.up [ inl x ↦ absurd (false≢true (sym off ∙ x)) | inr x ↦ inl x ];
  }
