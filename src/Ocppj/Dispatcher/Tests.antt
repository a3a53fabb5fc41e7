-- ===== src/Ocppj/Dispatcher/Tests.antt =====
-- Runs of the client's dispatcher, and its theorems at concrete states.
use ocpp_go.Base.{
  IsSublist, ◌≢◌, ℕ, String, ◌≡◌, refl, ◌⊎◌, Bool, true, false, none, some, [], ◌∷◌, ◌++◌, map,
  arith, text_discrete, ◌<◌,
}
use ocpp_go.Ocppj.Queue.{new_fifo_client_queue, push}
use ocpp_go.Ocppj.Bundle.{RequestBundle, World, IsSendable, ids, outcome_id}
use ocpp_go.Ocppj.Dispatcher.{
  Dispatcher, enqueue, signal, send_request, start, receive, new_default_client_dispatcher,
  set_network_client, set_on_request_canceled,
}
use ocpp_go.Ocppj.Dispatcher.Pump.{ready_arm, request_arm, round, shut_down}
use ocpp_go.Ocppj.Dispatcher.Invariant.{FrontIs, pending_id}
use ocpp_go.Ocppj.Dispatcher.Stopping.{stopped_outcomes}
use ocpp_go.Ocppj.Dispatcher.Progress.{IsTimely, no_lost_wakeup}
use ocpp_go.Ocppj.State.{new_client_state}
use ocpp_go.Ocppj.Dispatcher.Sending.{send_request_not_running}
use ocpp_go.Ocppj.Dispatcher.Steps.{
  wired, Reach, here, next, starts, enqueues, signals, rounds, receives, requests_accounted,
  stopped_accounted, written_in_order,
}

abbrev bundle : String → RequestBundle ℕ
bundle id = record {
  call = some (record { unique_id = id; action = "Heartbeat"; payload = some 7 });
  bytes = some id;
  ctx = none;
}

bundle-IsSendable : IsSendable (bundle "a")
bundle-IsSendable = (_, _, refl, refl, λ e. cc)

-- A network that takes every message.
abbrev online : World
online = record { write = λ m. none; ctx_err = λ c. none }

abbrev started : Dispatcher ℕ
unfolding start
started = start (wired 2)

abbrev queued : Dispatcher ℕ
unfolding enqueue
queued = (enqueue started (bundle "a")).0

abbrev signaled : Dispatcher ℕ
unfolding signal
signaled = (signal queued).0

abbrev dispatched : Dispatcher ℕ
unfolding round
dispatched = round online request_arm signaled

written : dispatched.wire ≡ "a" ∷ []
unfolding dispatched text_discrete signaled queued started set_on_request_canceled
    set_network_client new_default_client_dispatcher new_fifo_client_queue
written = refl

abbrev answered : Dispatcher ℕ
answered = receive dispatched "a"

pump_on : signaled.pumping ≡ true
unfolding signaled queued started set_on_request_canceled set_network_client
    new_default_client_dispatcher new_fifo_client_queue
pump_on = refl

token_there : 0 < signaled.tokens
unfolding signaled queued started set_on_request_canceled set_network_client
    new_default_client_dispatcher new_fifo_client_queue
token_there = omega arith

sender_there : 0 < queued.senders
unfolding signaled queued started set_on_request_canceled set_network_client
    new_default_client_dispatcher new_fifo_client_queue
sender_there = omega arith

pump_off : ◌≡◌ {A = Bool} (wired {Request = ℕ} 2).pumping false
unfolding signaled queued started set_on_request_canceled set_network_client
    new_default_client_dispatcher new_fifo_client_queue
pump_off = refl

up_to_dispatched : Reach (wired 2) dispatched
unfolding dispatched signaled queued started
up_to_dispatched =
    next
      (next
        (next (next here (starts (wired 2) pump_off))
          (enqueues started (bundle "a") bundle-IsSendable))
        (signals queued sender_there))
      (rounds signaled online request_arm pump_on token_there)

requests_accounted_example :
    (answered.accepted ≡ map outcome_id answered.outcomes ++ ids answered.request_queue.elements)
    × ((pending_id answered ≡ "") ⊎ FrontIs (pending_id answered) answered.request_queue.elements)
requests_accounted_example =
    requests_accounted 2 answered (next up_to_dispatched (receives dispatched "a"))

written_in_order_example :
    IsSublist answered.wire answered.accepted
    × (IsSublist answered.wire (map outcome_id answered.outcomes)
        ⊎ ((pending_id answered ≢ "")
            × IsSublist answered.wire
                (map outcome_id answered.outcomes ++ pending_id answered ∷ [])))
written_in_order_example =
    written_in_order 2 answered (next up_to_dispatched (receives dispatched "a"))

stopped_accounted_example :
    let d' = shut_down dispatched in
    (d'.outcomes ≡ dispatched.outcomes ++ stopped_outcomes dispatched.request_queue.elements)
    × (map outcome_id d'.outcomes ≡ dispatched.accepted)
    × (d'.request_queue.elements ≡ [])
    × (pending_id d' ≡ "")
stopped_accounted_example = stopped_accounted 2 dispatched up_to_dispatched

wired_free : (push (wired 2).request_queue (bundle "a")).1 ≡ true
unfolding push set_on_request_canceled set_network_client new_default_client_dispatcher
    new_fifo_client_queue
wired_free = refl

network_set : (wired {Request = ℕ} 2).has_network ≡ true
unfolding set_on_request_canceled set_network_client
network_set = refl

not_running : (wired {Request = ℕ} 2).running ≡ false
unfolding set_on_request_canceled set_network_client new_default_client_dispatcher
    new_fifo_client_queue
not_running = refl

send_request_not_running_example :
    let (d', sent) = send_request (wired 2) (bundle "a") in
    (sent ≡ false)
    × (d'.request_queue.elements ≡ (wired 2).request_queue.elements ++ bundle "a" ∷ [])
send_request_not_running_example =
    send_request_not_running (wired 2) (bundle "a") network_set not_running wired_free

to_queued : Reach (wired 2) queued
unfolding queued started
to_queued =
    next (next here (starts (wired 2) pump_off)) (enqueues started (bundle "a") bundle-IsSendable)

queued_on : queued.running ≡ true
unfolding queued started set_on_request_canceled set_network_client new_default_client_dispatcher
    new_fifo_client_queue
queued_on = refl

queued_unpaused : queued.paused ≡ false
unfolding queued started set_on_request_canceled set_network_client new_default_client_dispatcher
    new_fifo_client_queue
queued_unpaused = refl

queued_there : queued.request_queue.elements ≡ bundle "a" ∷ []
unfolding queued started set_on_request_canceled set_network_client new_default_client_dispatcher
    new_fifo_client_queue
queued_there = refl

queued_idle : pending_id queued ≡ ""
unfolding queued started set_on_request_canceled set_network_client new_default_client_dispatcher
    new_fifo_client_queue new_client_state
queued_idle = refl

queued-IsTimely : IsTimely to_queued
unfolding to_queued started
queued-IsTimely = ((tt, tt), refl)

no_lost_wakeup_example :
    ((queued.ready_for_dispatch ≡ true) ⊎ (0 < queued.tokens) ⊎ (0 < queued.senders))
    × ((w : World)
        → (pending_id (round w ready_arm queued) ≢ "")
          ⊎ ((round w ready_arm queued).request_queue.elements ≡ []))
no_lost_wakeup_example =
    no_lost_wakeup 2 queued to_queued (bundle "a") [] queued-IsTimely queued_on queued_unpaused
      queued_there queued_idle
