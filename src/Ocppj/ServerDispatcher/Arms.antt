-- ===== src/Ocppj/ServerDispatcher/Arms.antt =====
-- The arms of the server's message pump, ocppj/dispatcher.go: each acts on the line of its client.
use ocpp_go.Base.{
  ℕ, String, ◌≡◌, refl, inl, inr, Bool, true, false, not, Option, none, some, arith, sym, subst,
  is_some, if◌then◌else◌,
}
use ocpp_go.Dict.{insert, delete}
use ocpp_go.Ocpp.{Error, new_request_timeout_error, new_request_canceled_error}
use ocpp_go.Ocppj.Queue.{FifoClientQueue, is_empty}
use ocpp_go.Ocppj.QueueMap.{get}
use ocpp_go.Ocppj.State.{has_client_pending_request, has_pending_request, new_client_state}
use ocpp_go.Ocppj.Bundle.{RequestBundle}
use ocpp_go.Ocppj.ServerDispatcher.{DispatchRequest, ReadyToken, ServerDispatcher}
use ocpp_go.Ocppj.ServerDispatcher.Pump.{
  Arm, request_arm, timer_arm, ready_arm, cancel_arm, Turn, continues, goes_on, context_of,
  dispatched_id, filled, cancel_ctx, forget, release, acknowledge, on_request, cancel_popped,
  time_out, on_timer, on_ready, on_canceled, take_arm,
}
use ocpp_go.Ocppj.ServerDispatcher.Clients.{Acts, Acts-refl, Acts-trans}
use ocpp_go.Ocppj.ServerDispatcher.Completing.{
  Front, taken, complete_request_owned-cases, cancel_popped-Acts,
}
use ocpp_go.Ocppj.ServerDispatcher.Sending.{pending_of}

-- The client that an arm is about.
abbrev pub arm_client : Arm → String
arm_client (request_arm r) = r.client_id
arm_client (timer_arm client_id ctx left) = client_id
arm_client (ready_arm t) = t.client_id
arm_client (cancel_arm client_id request_id cause) = client_id

module _ {Request : Type 0} where
  -- A turn that acted on the client's line, and goes on with that client if it does.
  abbrev pub Turned : ServerDispatcher Request → String → Turn Request → Type 0
  Turned d client_id (continues d') = Acts d client_id d'
  Turned d client_id (goes_on d' c holds) = (c ≡ client_id) × Acts d client_id d'

  when-Turned :
      (d : ServerDispatcher Request) (client_id : String) (t : Bool) (x y : Turn Request)
      → Turned d client_id x
      → Turned d client_id y
      → Turned d client_id (if t then x else y)
  when-Turned d client_id true x y a b = a
  when-Turned d client_id false x y a b = b

  forget-Acts :
      (d : ServerDispatcher Request) (c client_id : String) → Acts d c (forget d client_id)
  unfolding forget cancel_ctx
  forget-Acts d c client_id = by_context (context_of d client_id)
    where
      by_context :
          (o : Option ℕ)
          → Acts d c (record (cancel_ctx o d) {
            client_context_map = delete client_id d.client_context_map;
            dispatched_request_id_map = delete client_id d.dispatched_request_id_map;
          })
      by_context none = Acts-refl d c
      by_context (some k) = Acts-refl d c

  release-Acts :
      (d : ServerDispatcher Request) (c client_id : String) → Acts d c (release d client_id)
  unfolding release cancel_ctx
  release-Acts d c client_id = by_context (context_of d client_id)
    where
      by_context :
          (o : Option ℕ)
          → Acts d c (record (cancel_ctx o d) {
            client_context_map = insert client_id none d.client_context_map;
            dispatched_request_id_map = delete client_id d.dispatched_request_id_map;
          })
      by_context none = Acts-refl d c
      by_context (some k) = Acts-refl d c

  acknowledge-Acts :
      (t : Bool) (d : ServerDispatcher Request) (c client_id : String)
      → Acts d c (acknowledge t d client_id)
  unfolding acknowledge
  acknowledge-Acts false d c client_id = Acts-refl d c
  acknowledge-Acts true d c client_id = Acts-refl d c

  on_request-Turned :
      (r : DispatchRequest) (d : ServerDispatcher Request) → Turned d r.client_id (on_request r d)
  unfolding on_request
  on_request-Turned r d = looked (get d.queue_map r.client_id) r.delete_ack
    where
      forgotten : (t : Bool) → Acts d r.client_id (acknowledge t (forget d r.client_id) r.client_id)
      forgotten t =
          Acts-trans (forget-Acts d r.client_id r.client_id)
            (acknowledge-Acts t (forget d r.client_id) r.client_id r.client_id)

      looked :
          (o : Option (FifoClientQueue (RequestBundle Request))) (t : Bool)
          → Turned d r.client_id (elim o [
            | none ↦ continues (acknowledge t (forget d r.client_id) r.client_id)
            | some q ↦
                let d' = if t then acknowledge true (forget d r.client_id) r.client_id else d in
                goes_on
                  (record d' { rdy = not (is_some (context_of d' r.client_id)) })
                  r.client_id
                  (not (is_empty q))
          ])
      looked none t = forgotten t
      looked (some q) true = (refl, forgotten true)
      looked (some q) false = (refl, Acts-refl d r.client_id)

  pub has-pending_of :
      (d : ServerDispatcher Request) (client_id : String)
      → has_client_pending_request d.pending_request_state client_id ≡ false
      → pending_of d client_id ≡ ""
  unfolding has_client_pending_request has_pending_request new_client_state
  has-pending_of d client_id h = ground arith

  time_out-Turned :
      (d : ServerDispatcher Request) (client_id request_id : String) (left : Bool)
      → Turned d client_id (time_out d client_id request_id left)
  unfolding time_out
  time_out-Turned d client_id request_id left =
      when-Turned d client_id (has_client_pending_request d.pending_request_state client_id) _ _
        (elim (complete_request_owned-cases d client_id request_id) [
          | inl e ↦ subst (λ r. Turned d client_id (ended r)) (sym e) (Acts-refl d client_id)
          | inr (f, e) ↦
              subst (λ r. Turned d client_id (ended r)) (sym e)
                (
                  refl,
                  cancel_popped-Acts d client_id request_id f new_request_timeout_error
                      d.client_context_map d.dispatched_request_id_map d.canceled_ctxs,
                )
        ])
        (looked (get d.queue_map client_id))
    where
      ended : ServerDispatcher Request × Option (RequestBundle Request) → Turn Request
      ended (d', none) = continues d'
      ended (d', some b) =
          goes_on (cancel_popped (record d' { rdy = true }) client_id b new_request_timeout_error)
            client_id (filled d' client_id)

      looked :
          (o : Option (FifoClientQueue (RequestBundle Request)))
          → Turned d client_id (elim o [
            | none ↦ goes_on d client_id left
            | some q ↦ goes_on (record d { rdy = true }) client_id (not (is_empty q))
          ])
      looked none = (refl, Acts-refl d client_id)
      looked (some q) = (refl, Acts-refl d client_id)

  Turned-after :
      (d e : ServerDispatcher Request) (client_id : String) (t : Turn Request)
      → Acts d client_id e
      → Turned e client_id t
      → Turned d client_id t
  Turned-after d e client_id (continues d') a b = Acts-trans a b
  Turned-after d e client_id (goes_on d' c holds) a (s, b) = (s, Acts-trans a b)

  on_timer-Turned :
      (client_id : String) (ctx : ℕ) (left : Bool) (d : ServerDispatcher Request)
      → Turned d client_id (on_timer client_id ctx left d)
  unfolding on_timer
  on_timer-Turned client_id ctx left d =
      when-Turned d client_id _ _ (continues d)
        (Turned-after d (release d client_id) client_id _ (release-Acts d client_id client_id)
          (time_out-Turned (release d client_id) client_id (dispatched_id d client_id) left))
        (Acts-refl d client_id)

  on_ready-Turned :
      (t : ReadyToken) (d : ServerDispatcher Request) → Turned d t.client_id (on_ready t d)
  unfolding on_ready cancel_ctx
  on_ready-Turned t d =
      when-Turned d t.client_id _ (continues d) _ (Acts-refl d t.client_id)
        (looked (get d.queue_map t.client_id) (context_of d t.client_id))
    where
      canceled : Option ℕ → ServerDispatcher Request
      canceled context = record (cancel_ctx context d) {
        client_context_map =
            if is_some context
            then insert t.client_id none d.client_context_map
            else d.client_context_map;
        dispatched_request_id_map = delete t.client_id d.dispatched_request_id_map;
      }

      looked :
          (o : Option (FifoClientQueue (RequestBundle Request))) (context : Option ℕ)
          → Turned d t.client_id (elim o [
            | none ↦ goes_on (canceled context) t.client_id false
            | some q ↦
                goes_on (record (canceled context) { rdy = true }) t.client_id (not (is_empty q))
          ])
      looked none none = (refl, Acts-refl d t.client_id)
      looked none (some c) = (refl, Acts-refl d t.client_id)
      looked (some q) none = (refl, Acts-refl d t.client_id)
      looked (some q) (some c) = (refl, Acts-refl d t.client_id)

  on_canceled-Turned :
      (client_id request_id cause : String) (d : ServerDispatcher Request)
      → Turned d client_id (on_canceled client_id request_id cause d)
  unfolding on_canceled release cancel_ctx
  on_canceled-Turned client_id request_id cause d =
      when-Turned d client_id _ _ (continues (record d { rdy = false }))
        (elim (complete_request_owned-cases d client_id request_id) [
          | inl e ↦ subst (λ r. Turned d client_id (ended r)) (sym e) (Acts-refl d client_id)
          | inr (f, e) ↦
              subst (λ r. Turned d client_id (ended r)) (sym e)
                (refl, released f (context_of d client_id))
        ])
        (Acts-refl d client_id)
    where
      err : String → Error
      err id = new_request_canceled_error id (some cause)

      ended : ServerDispatcher Request × Option (RequestBundle Request) → Turn Request
      ended (d', none) = continues (record d' { rdy = false })
      ended (d', some b) =
          goes_on (cancel_popped (record (release d' client_id) { rdy = true }) client_id b err)
            client_id (filled d' client_id)

      released :
          (f : Front d client_id request_id) (o : Option ℕ)
          → let e = taken d client_id request_id f in
            Acts d client_id (
              cancel_popped
                (record (cancel_ctx o e) {
                  client_context_map = insert client_id none e.client_context_map;
                  dispatched_request_id_map = delete client_id e.dispatched_request_id_map;
                  rdy = true;
                })
                client_id
                f.bundle
                err)
      released f none = cancel_popped-Acts d client_id request_id f err _ _ _
      released f (some c) = cancel_popped-Acts d client_id request_id f err _ _ _

  pub take_arm-Turned :
      (arm : Arm) (d : ServerDispatcher Request) → Turned d (arm_client arm) (take_arm arm d)
  unfolding take_arm
  take_arm-Turned (request_arm r) d = on_request-Turned r d
  take_arm-Turned (timer_arm client_id ctx left) d = on_timer-Turned client_id ctx left d
  take_arm-Turned (ready_arm t) d = on_ready-Turned t d
  take_arm-Turned (cancel_arm client_id request_id cause) d =
      on_canceled-Turned client_id request_id cause d
