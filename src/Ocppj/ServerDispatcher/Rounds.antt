-- ===== src/Ocppj/ServerDispatcher/Rounds.antt =====
-- A round of the server's message pump, ocppj/dispatcher.go, acts on the line of one client.
use ocpp_go.Base.{
  String, ◌≡◌, refl, inl, inr, Bool, true, false, not, ◌&&◌, subst, Bool-cases, if◌then◌else◌,
}
use ocpp_go.Ocppj.State.{has_client_pending_request}
use ocpp_go.Ocppj.Bundle.{World}
use ocpp_go.Ocppj.ServerDispatcher.{ServerDispatcher}
use ocpp_go.Ocppj.ServerDispatcher.Pump.{
  Arm, Turn, continues, goes_on, enough, dispatch_loop, try_dispatch, take_arm, round,
}
use ocpp_go.Ocppj.ServerDispatcher.Clients.{Acts, Acts-refl, Acts-trans}
use ocpp_go.Ocppj.ServerDispatcher.Loop.{dispatch_loop-Acts}
use ocpp_go.Ocppj.ServerDispatcher.Arms.{arm_client, Turned, has-pending_of, take_arm-Turned}

idle_there : (a b p : Bool) → (a && (b && not p)) ≡ true → p ≡ false
idle_there true true false e = refl
idle_there true true true e = cc
idle_there true false p e = cc
idle_there false b p e = cc

module _ {Request : Type 0} where
  try_dispatch-Acts :
      (w : World) (d : ServerDispatcher Request) (client_id : String) (t : Turn Request)
      → Turned d client_id t
      → Acts d client_id (try_dispatch w t)
  unfolding try_dispatch
  try_dispatch-Acts w d client_id (continues d') a = a
  try_dispatch-Acts w d client_id (goes_on d' c holds) (same, a) =
      Acts-trans a (subst (λ k. Acts d' k sent) same guarded)
    where
      pending : Bool
      pending = has_client_pending_request d'.pending_request_state c

      sent : ServerDispatcher Request
      sent = if d'.rdy && (holds && not pending) then (dispatch_loop (enough d' c) w d' c).0 else d'

      guarded : Acts d' c sent
      guarded = elim (Bool-cases (d'.rdy && (holds && not pending))) [
        | inl e ↦ rw e (
            dispatch_loop-Acts (enough d' c) w d' c
              (has-pending_of d' c (idle_there d'.rdy holds pending e)))
        | inr e ↦ rw e (Acts-refl d' c)
      ]

  pub round-Acts :
      (w : World) (arm : Arm) (d : ServerDispatcher Request)
      → Acts d (arm_client arm) (round w arm d)
  unfolding round
  round-Acts w arm d =
      try_dispatch-Acts w d (arm_client arm) (take_arm arm d) (take_arm-Turned arm d)
