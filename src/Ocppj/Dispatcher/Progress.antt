-- ===== src/Ocppj/Dispatcher/Progress.antt =====
-- The client's dispatcher, ocppj/dispatcher.go, loses no wakeup.
use ocpp_go.Base.{
  ℕ, ◌<◌, ◌≡◌, ◌≢◌, refl, ◌⊎◌, inl, inr, Bool, true, false, false≢true, not, ◌&&◌, test, is_some,
  text_discrete, List, [], ◌∷◌, arith, ◌∙◌, sym, if◌then◌else◌,
}
use ocpp_go.Ocppj.Queue.{new_fifo_client_queue}
use ocpp_go.Ocppj.State.{ClientState, get_pending_request, has_pending_request}
use ocpp_go.Ocppj.Bundle.{RequestBundle, World}
use ocpp_go.Ocppj.Dispatcher.{
  no_pending, Dispatcher, new_default_client_dispatcher, set_on_request_canceled,
  set_network_client,
}
use ocpp_go.Ocppj.Dispatcher.Pump.{ready_arm, round, reconcile, take_arm, try_dispatch}
use ocpp_go.Ocppj.Dispatcher.Invariant.{pending_id, Inv}
use ocpp_go.Ocppj.Dispatcher.Steps.{
  Step, enqueues, signals, fires, rounds, receives, pauses, resumes, stops, shuts_down, starts,
  Reach, here, next, wired, wired-Inv, Reach-Inv,
}
use ocpp_go.Ocppj.Dispatcher.Wakeups.{Alert, Able}
use ocpp_go.Ocppj.Dispatcher.Sends.{Moved, ready_round-Moved}
use ocpp_go.Ocppj.Dispatcher.Alerts.{
  Alert-Able, round-Alert, enqueue-Alert, signal-Alert, receive-Alert, pause-Alert, resume-Alert,
  stop-Alert, shut_down-Alert, start-Alert,
}

module _ {Request : Type 0} where
  -- Requests are taken in only while the dispatcher runs.
  abbrev TakesInTime : {d e : Dispatcher Request} → Step d e → Type 0
  TakesInTime (enqueues d b h) = d.running ≡ true
  TakesInTime _ = Unit

  abbrev pub IsTimely : {d e : Dispatcher Request} → Reach d e → Type 0
  IsTimely here = Unit
  IsTimely (next r s) = IsTimely r × TakesInTime s

  Step-Alert : {d e : Dispatcher Request} (s : Step d e) → TakesInTime s → Inv d → Alert d → Alert e
  Step-Alert (enqueues d b h) on v a = enqueue-Alert d b on a
  Step-Alert (signals d h) _ v a = signal-Alert d a
  Step-Alert (fires d) _ v a = a
  Step-Alert (rounds d w arm p h) _ v a = round-Alert w arm d p v a
  Step-Alert (receives d request_id) _ v a = receive-Alert d request_id a
  Step-Alert (pauses d) _ v a = pause-Alert d a
  Step-Alert (resumes d) _ v a = resume-Alert d a
  Step-Alert (stops d) _ v a = stop-Alert d a
  Step-Alert (shuts_down d p c t) _ v a = shut_down-Alert d c v.callback a
  Step-Alert (starts d p) _ v a = start-Alert d p a

  Reach-Alert : {d e : Dispatcher Request} (r : Reach d e) → IsTimely r → Inv d → Alert d → Alert e
  Reach-Alert here _ v a = a
  Reach-Alert (next r s) (t, u) v a = Step-Alert s u (Reach-Inv r v) (Reach-Alert r t v a)

  wired-Alert : (capacity : ℕ) → Alert {Request = Request} (wired capacity)
  unfolding set_on_request_canceled set_network_client new_default_client_dispatcher
      new_fifo_client_queue
  wired-Alert capacity = record {
    able = inl refl;
    up = inr refl;
    live = inl refl;
    shut = inl refl;
    awake = inl refl;
  }

  round-Moved :
      (w : World) (d : Dispatcher Request) (b : RequestBundle Request)
      → (rest : List (RequestBundle Request)) → d.request_queue.elements ≡ b ∷ rest
      → d.paused ≡ false
      → has_pending_request d.pending_request_state ≡ false
      → Inv d
      → Able d
      → Moved rest (round w ready_arm d)
  unfolding round reconcile take_arm
  round-Moved w d b rest there unpaused idle v a = reconciled (
      not (test (text_discrete d.pending.id ""))
      && not (is_some (get_pending_request d.pending_request_state d.pending.id)))
    where
      reconciled :
          (t : Bool)
          → Moved rest (
              try_dispatch w
                (take_arm ready_arm (if t then record d { pending = no_pending } else d)))
      reconciled true =
          ready_round-Moved w (record d { pending = no_pending }) b rest there unpaused idle v a
      reconciled false = ready_round-Moved w d b rest there unpaused idle v a

  idle_state : (s : ClientState Request) → s.request_id ≡ "" → has_pending_request s ≡ false
  unfolding has_pending_request
  idle_state s e = ground arith

  -- In every state that the client's dispatcher, with a network client, a cancel callback and
  -- sendable requests taken in only while it runs, reaches: if it runs, is not paused, has a
  -- queued request and none pending, then the ready signal is set, a request token lies in the
  -- channel, or a sender is about to put one there; and a round for the ready signal leaves the
  -- front waiting for its answer, or no longer in the queue.
  pub no_lost_wakeup :
      (capacity : ℕ) (d : Dispatcher Request) (r : Reach (wired capacity) d)
      → (b : RequestBundle Request) (rest : List (RequestBundle Request)) → IsTimely r
      → d.running ≡ true
      → d.paused ≡ false
      → d.request_queue.elements ≡ b ∷ rest
      → pending_id d ≡ ""
      → ((d.ready_for_dispatch ≡ true) ⊎ (0 < d.tokens) ⊎ (0 < d.senders))
        × ((w : World)
            → (pending_id (round w ready_arm d) ≢ "")
              ⊎ ((round w ready_arm d).request_queue.elements ≡ rest))
  no_lost_wakeup capacity d r b rest t on unpaused there idle =
      let v = Reach-Inv r (wired-Inv capacity) in
      let a = Reach-Alert r t (wired-Inv capacity) (wired-Alert capacity) in
      (
        woken a.awake,
        λ w.
            round-Moved w d b rest there unpaused (idle_state d.pending_request_state idle) v
              (Alert-Able d a (pumps a.live)),
      )
    where
      pumps : (d.running ≡ false) ⊎ (d.pumping ≡ true) → d.pumping ≡ true
      pumps (inl x) = absurd (false≢true (sym x ∙ on))
      pumps (inr x) = x

      filled : b ∷ rest ≢ []
      filled e = cc

      woken :
          ((d.request_queue.elements ≡ [])
            ⊎ (pending_id d ≢ "")
            ⊎ (d.paused ≡ true)
            ⊎ (d.ready_for_dispatch ≡ true)
            ⊎ (0 < d.tokens)
            ⊎ (0 < d.senders)
            ⊎ (d.running ≡ false))
          → (d.ready_for_dispatch ≡ true) ⊎ (0 < d.tokens) ⊎ (0 < d.senders)
      woken (inl x) = absurd (filled (sym there ∙ x))
      woken (inr (inl x)) = absurd (x idle)
      woken (inr (inr (inl x))) = absurd (false≢true (sym unpaused ∙ x))
      woken (inr (inr (inr (inl x)))) = inl x
      woken (inr (inr (inr (inr (inl x))))) = inr (inl x)
      woken (inr (inr (inr (inr (inr (inl x)))))) = inr (inr x)
      woken (inr (inr (inr (inr (inr (inr x)))))) = absurd (false≢true (sym x ∙ on))
