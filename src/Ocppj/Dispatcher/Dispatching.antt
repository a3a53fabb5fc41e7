-- ===== src/Ocppj/Dispatcher/Dispatching.antt =====
-- The rounds of the client's message pump keep its invariant, ocppj/dispatcher.go.
use ocpp_go.Base.{
  IsSublist, IsSublist-last, All, map, ap, ◌∙◌, ◌≢◌, ◌++◌, ℕ, String, ◌≡◌, refl, ◌⊎◌, inl, inr,
  Bool, true, false, not, ◌&&◌, Option, none, some, List, [], ◌∷◌, arith, if◌then◌else◌, sym, subst,
}
use ocpp_go.Ocpp.{new_request_timeout_error}
use ocpp_go.Ocppj.Queue.{FifoClientQueue, peek, is_empty}
use ocpp_go.Ocppj.State.{ClientState, add_pending_request, has_pending_request}
use ocpp_go.Ocppj.Bundle.{Call, RequestBundle, World, ctx_error, IsSendable, id_of, outcome_id}
use ocpp_go.Ocppj.Dispatcher.{Dispatcher, complete_and_cancel, no_pending}
use ocpp_go.Ocppj.Dispatcher.Pump.{
  after_dispatch, Dispatched, Arm, request_arm, timer_arm, ready_arm, cancel_arm, write_request,
  dispatch_bundle, dispatch_front, dispatch_next_request, reconcile, time_out, on_tick, on_canceled,
  try_dispatch, take_arm, round,
}
use ocpp_go.Ocppj.Dispatcher.Invariant.{FrontIs, Inv, complete_and_cancel-Inv}

module _ {Request : Type 0} where
  time_out-Inv :
      (front : Option (RequestBundle Request)) (d : Dispatcher Request)
      → Inv d
      → Inv (time_out front d)
  unfolding time_out
  time_out-Inv none d v = v
  time_out-Inv (some b) d v = called b.call
    where
      called :
          (call : Option (Call Request))
          → Inv (elim call [
            | none ↦ d
            | some c ↦
                complete_and_cancel d c.unique_id c.payload (new_request_timeout_error c.unique_id)
          ])
      called none = v
      called (some c) = complete_and_cancel-Inv d _ _ _ v

  pub when-Inv : (b : Bool) (d e : Dispatcher Request) → Inv d → Inv e → Inv (if b then d else e)
  when-Inv true d e v w = v
  when-Inv false d e v w = w

  on_tick-Inv : (d : Dispatcher Request) → Inv d → Inv (on_tick d)
  unfolding on_tick
  on_tick-Inv d v = (when-Inv _ _ _ (time_out-Inv (peek d.request_queue) _ v) v)

  on_canceled-Inv : (cause : String) (d : Dispatcher Request) → Inv d → Inv (on_canceled cause d)
  unfolding on_canceled
  on_canceled-Inv cause d v =
      (when-Inv _ _ _ (complete_and_cancel-Inv d d.pending.id d.pending.payload _ v) v)

  pub reconcile-Inv : (d : Dispatcher Request) → Inv d → Inv (reconcile d)
  unfolding reconcile
  reconcile-Inv d v = when-Inv _ _ _ v v

  pub take_arm-Inv : (arm : Arm) (d : Dispatcher Request) → Inv d → Inv (take_arm arm d)
  unfolding take_arm
  take_arm-Inv request_arm d v = v
  take_arm-Inv timer_arm d v = on_tick-Inv d v
  take_arm-Inv ready_arm d v = v
  take_arm-Inv (cancel_arm cause) d v = on_canceled-Inv cause d v

  added_id :
      (s : ClientState Request) (request_id : String) (request : Option Request)
      → has_pending_request s ≡ false
      → ((add_pending_request s request_id request).request_id ≡ "")
        ⊎ ((add_pending_request s request_id request).request_id ≡ request_id)
  unfolding has_pending_request add_pending_request
  added_id s request_id request idle = ground arith

  pub added_named :
      (s : ClientState Request) (request_id : String) (request : Option Request)
      → request_id ≢ ""
      → has_pending_request s ≡ false
      → (add_pending_request s request_id request).request_id ≡ request_id
  unfolding has_pending_request add_pending_request
  added_named s request_id request named idle = ground arith

  idle_id : (s : ClientState Request) → has_pending_request s ≡ false → s.request_id ≡ ""
  unfolding has_pending_request
  idle_id s idle = ground arith

  idle_written :
      (d : Dispatcher Request)
      → has_pending_request d.pending_request_state ≡ false
      → Inv d
      → IsSublist d.wire (map outcome_id d.outcomes)
  idle_written d idle v = elim v.written [
    | inl h ↦ h
    | inr (n, h) ↦ absurd (n (idle_id d.pending_request_state idle))
  ]

  front_named :
      (id : String) (es : List (RequestBundle Request))
      → FrontIs id es
      → All IsSendable es
      → id ≢ ""
  front_named id [] f h = absurd f
  front_named id (b ∷ es) f ((c, m, e, _, n), h) = λ empty. n (sym (ap id_of e) ∙ f ∙ empty)

  -- The front is made pending, where nothing was.
  add-Inv :
      (d : Dispatcher Request) (call : Call Request)
      → FrontIs call.unique_id d.request_queue.elements
      → has_pending_request d.pending_request_state ≡ false
      → Inv d
      → Inv (record d {
        pending_request_state =
            add_pending_request d.pending_request_state call.unique_id call.payload;
      })
  add-Inv d call f idle v = record {
    sendable = v.sendable;
    front = elim (added_id d.pending_request_state call.unique_id call.payload idle) [
      | inl e ↦ inl e
      | inr e ↦ inr (subst (λ id. FrontIs id d.request_queue.elements) (sym e) f)
    ];
    accounted = v.accounted;
    callback = v.callback;
    written = inl (idle_written d idle v);
  }

  -- It is written too.
  add_written-Inv :
      (d : Dispatcher Request) (call : Call Request)
      → FrontIs call.unique_id d.request_queue.elements
      → has_pending_request d.pending_request_state ≡ false
      → Inv d
      → Inv (record d {
        pending_request_state =
            add_pending_request d.pending_request_state call.unique_id call.payload;
        wire = d.wire ++ call.unique_id ∷ [];
      })
  add_written-Inv d call f idle v =
      let named = front_named call.unique_id d.request_queue.elements f v.sendable in
      let e = added_named d.pending_request_state call.unique_id call.payload named idle in
      let ended = map outcome_id d.outcomes in
      record {
        sendable = v.sendable;
        front = inr (subst (λ id. FrontIs id d.request_queue.elements) (sym e) f);
        accounted = v.accounted;
        callback = v.callback;
        written = inr (
          λ empty. named (sym e ∙ empty),
          subst (λ id. IsSublist (d.wire ++ call.unique_id ∷ []) (ended ++ id ∷ [])) (sym e)
              (IsSublist-last d.wire ended call.unique_id (idle_written d idle v)),
        );
      }

  write_request-Inv :
      (o : Option String) (d : Dispatcher Request) (call : Call Request) (ctx : Option ℕ)
      → Inv d
      → Inv (record d { wire = d.wire ++ call.unique_id ∷ [] })
      → Inv (write_request o d call ctx).dispatcher
  unfolding write_request
  write_request-Inv none d call ctx v u = u
  write_request-Inv (some e) d call ctx v u = complete_and_cancel-Inv d _ _ _ v

  dispatch_bundle-Inv :
      (o : Option String) (w : World) (d : Dispatcher Request) (call : Call Request)
      → (message : String) (ctx : Option ℕ) → FrontIs call.unique_id d.request_queue.elements
      → has_pending_request d.pending_request_state ≡ false
      → Inv d
      → Inv (dispatch_bundle o w d call message ctx).dispatcher
  unfolding dispatch_bundle
  dispatch_bundle-Inv none w d call message ctx f idle v =
      write_request-Inv (w.write message) _ call ctx (add-Inv d call f idle v)
        (add_written-Inv d call f idle v)
  dispatch_bundle-Inv (some cause) w d call message ctx f idle v = complete_and_cancel-Inv d _ _ _ v

  abbrev After : Dispatched Request → Type 0
  After r = Inv r.dispatcher

  -- What `Peek` returned is at the front.
  peek-FrontIs :
      (q : FifoClientQueue (RequestBundle Request)) (b : RequestBundle Request)
      (call : Call Request)
      → peek q ≡ some b
      → b.call ≡ some call
      → FrontIs call.unique_id q.elements
  unfolding peek
  peek-FrontIs q b call e h = at_front q.elements e
    where
      at_front :
          (es : List (RequestBundle Request))
          → elim es [ [] ↦ none | x ∷ rest ↦ some x ] ≡ some b
          → FrontIs call.unique_id es
      at_front [] e' = cc
      at_front (x ∷ rest) e' = cc

  dispatch_front-Inv :
      (o : Option (RequestBundle Request)) (w : World) (d : Dispatcher Request)
      → peek d.request_queue ≡ o
      → has_pending_request d.pending_request_state ≡ false
      → Inv d
      → Inv (dispatch_front o w d).dispatcher
  unfolding dispatch_front
  dispatch_front-Inv none w d e idle v = v
  dispatch_front-Inv (some b) w d e idle v = called b.call refl
    where
      sent :
          (call : Call Request) (bytes : Option String)
          → b.call ≡ some call
          → After (elim bytes [
            | none ↦ record { dispatcher = d; token = no_pending; dispatched = false }
            | some message ↦ dispatch_bundle (ctx_error w b.ctx) w d call message b.ctx
          ])
      sent call none h = v
      sent call (some message) h =
          dispatch_bundle-Inv (ctx_error w b.ctx) w d call message b.ctx
            (peek-FrontIs d.request_queue b call e h) idle v

      called :
          (call : Option (Call Request))
          → b.call ≡ call
          → After (elim call [
            | none ↦ record { dispatcher = d; token = no_pending; dispatched = false }
            | some c ↦ elim b.bytes [
              | none ↦ record { dispatcher = d; token = no_pending; dispatched = false }
              | some message ↦ dispatch_bundle (ctx_error w b.ctx) w d c message b.ctx
            ]
          ])
      called none h = v
      called (some c) h = sent c b.bytes h

  after_dispatch-Inv : (r : Dispatched Request) → Inv r.dispatcher → Inv (after_dispatch r)
  unfolding after_dispatch
  after_dispatch-Inv r v = when-Inv r.dispatched _ _ v v

  -- The guards of a dispatch: only without a pending request does it happen.
  guarded-Inv :
      (paused rdy empty busy : Bool) (d e : Dispatcher Request)
      → (busy ≡ false → Inv d)
      → Inv e
      → Inv (if not paused && (rdy && (not empty && not busy)) then d else e)
  guarded-Inv true rdy empty busy d e f v = v
  guarded-Inv false false empty busy d e f v = v
  guarded-Inv false true true busy d e f v = v
  guarded-Inv false true false true d e f v = v
  guarded-Inv false true false false d e f v = f refl

  try_dispatch-Inv : (w : World) (d : Dispatcher Request) → Inv d → Inv (try_dispatch w d)
  unfolding try_dispatch dispatch_next_request
  try_dispatch-Inv w d v =
      guarded-Inv d.paused d.rdy (is_empty d.request_queue)
        (has_pending_request d.pending_request_state) _ _
        (λ idle.
          after_dispatch-Inv (dispatch_next_request w d)
            (dispatch_front-Inv (peek d.request_queue) w d refl idle v))
        v

  pub round-Inv : (w : World) (arm : Arm) (d : Dispatcher Request) → Inv d → Inv (round w arm d)
  unfolding round
  round-Inv w arm d v = try_dispatch-Inv w _ (take_arm-Inv arm _ (reconcile-Inv d v))
