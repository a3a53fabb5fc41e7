-- ===== src/Ocppj/ServerDispatcher/Loop.antt =====
-- The loop of the server's message pump that sends, ocppj/dispatcher.go: it acts on the client's line, and comes
-- to its end.
use ocpp_go.Base.{
  ℕ, suc, zero, ◌<◌, String, ◌≡◌, refl, Bool, true, false, arith, length, if◌then◌else◌,
}
use ocpp_go.Ocppj.QueueMap.{get}
use ocpp_go.Ocppj.Bundle.{World}
use ocpp_go.Ocppj.ServerDispatcher.{ServerDispatcher, queued}
use ocpp_go.Ocppj.ServerDispatcher.Pump.{
  DispatchStatus, dispatch_idle, dispatch_written, dispatch_completed_no_write,
  dispatch_next_request, after_dispatch, dispatch_loop, filled,
}
use ocpp_go.Ocppj.ServerDispatcher.Clients.{Acts, Acts-refl, Acts-trans}
use ocpp_go.Ocppj.ServerDispatcher.Sending.{pending_of, Sends, dispatch_next_request-Sends}

module _ {Request : Type 0} where
  when_rest :
      (P : ServerDispatcher Request × Bool → Type 0) (t : Bool)
      → (x y : ServerDispatcher Request × Bool) → P x
      → P y
      → P (if t then x else y)
  when_rest P true x y a b = a
  when_rest P false x y a b = b

  pub dispatch_loop-Acts :
      (fuel : ℕ) (w : World) (d : ServerDispatcher Request) (client_id : String)
      → pending_of d client_id ≡ ""
      → Acts d client_id (dispatch_loop fuel w d client_id).0
  unfolding dispatch_loop after_dispatch
  dispatch_loop-Acts zero w d client_id idle = Acts-refl d client_id
  dispatch_loop-Acts (suc fuel) w d client_id idle =
      let r = dispatch_next_request w d client_id in
      ended r.status refl (dispatch_next_request-Sends w d client_id idle)
        (λ again. dispatch_loop-Acts fuel w (after_dispatch r client_id) client_id again)
    where
      ended :
          (s : DispatchStatus)
          → let r = dispatch_next_request w d client_id in
            let d' = after_dispatch r client_id in
            let rest = dispatch_loop fuel w d' client_id in
            r.status ≡ s
            → Sends d client_id r
            → (pending_of d' client_id ≡ "" → Acts d' client_id rest.0)
            → Acts d client_id
                (elim s as (λ x. ServerDispatcher Request × Bool) [
                  | dispatch_idle ↦ (d', true)
                  | dispatch_written ↦ (d', true)
                  | dispatch_completed_no_write ↦ if filled d' client_id then rest else (d', true)
                ]).0
      ended dispatch_idle e h k = h.acts
      ended dispatch_written e h k = h.acts
      ended dispatch_completed_no_write e h k =
          let d' = after_dispatch (dispatch_next_request w d client_id) client_id in
          when_rest (λ x. Acts d client_id x.0) (filled d' client_id) _ _
            (Acts-trans h.acts (k (h.again e).0)) h.acts

  -- For a client with nothing pending, the loop that sends ends within one turn more than the
  -- client has requests.
  pub dispatch_loop_ends :
      (fuel : ℕ) (w : World) (d : ServerDispatcher Request) (client_id : String)
      → pending_of d client_id ≡ ""
      → length (queued (get d.queue_map client_id)) < fuel
      → (dispatch_loop fuel w d client_id).1 ≡ true
  unfolding dispatch_loop after_dispatch
  dispatch_loop_ends zero w d client_id idle fueled = absurd (omega arith)
  dispatch_loop_ends (suc fuel) w d client_id idle fueled =
      let r = dispatch_next_request w d client_id in
      ended r.status refl (dispatch_next_request-Sends w d client_id idle)
        (λ again left. dispatch_loop_ends fuel w (after_dispatch r client_id) client_id again left)
    where
      fewer : {m n : ℕ} → suc m ≡ n → n < suc fuel → m < fuel
      fewer e k = omega arith

      ended :
          (s : DispatchStatus)
          → let r = dispatch_next_request w d client_id in
            let d' = after_dispatch r client_id in
            let rest = dispatch_loop fuel w d' client_id in
            r.status ≡ s
            → Sends d client_id r
            → (pending_of d' client_id ≡ ""
                → length (queued (get d'.queue_map client_id)) < fuel
                → rest.1 ≡ true)
            → (elim s as (λ x. ServerDispatcher Request × Bool) [
              | dispatch_idle ↦ (d', true)
              | dispatch_written ↦ (d', true)
              | dispatch_completed_no_write ↦ if filled d' client_id then rest else (d', true)
            ]).1
              ≡ true
      ended dispatch_idle e h k = refl
      ended dispatch_written e h k = refl
      ended dispatch_completed_no_write e h k =
          let d' = after_dispatch (dispatch_next_request w d client_id) client_id in
          when_rest (λ x. x.1 ≡ true) (filled d' client_id) _ _
            (k (h.again e).0 (fewer (h.again e).1 fueled)) refl
