-- ===== src/Ocppj/ServerDispatcher/Tests.antt =====
-- Runs of the server's dispatcher, and its theorems at concrete states.
use ocpp_go.Base.{
  IsSublist, ℕ, ◌<◌, String, ◌≡◌, ◌≢◌, refl, ◌⊎◌, Bool, true, false, none, some, List, [], ◌∷◌,
  ◌++◌, arith, text_discrete, length,
}
use ocpp_go.Dict.{lookup, insert, delete}
use ocpp_go.Ocppj.State.{new_client_state}
use ocpp_go.Ocppj.QueueMap.{get, add, new_fifo_queue_map}
use ocpp_go.Ocppj.Bundle.{RequestBundle, World, IsSendable, id_of, ids}
use ocpp_go.Ocppj.ServerDispatcher.{
  ServerDispatcher, queued, new_default_server_dispatcher, set_network_server,
  set_on_request_canceled, create_client, enqueue, signal, receive, start, dropped,
}
use ocpp_go.Ocppj.ServerDispatcher.Pump.{
  Arm, request_arm, round, shut_down, dispatch_loop, cancel_stopped, cancel_outstanding,
}
use ocpp_go.Ocppj.ServerDispatcher.Line.{Evolves, ended_ids}
use ocpp_go.Ocppj.ServerDispatcher.Clients.{line_of, elements_of}
use ocpp_go.Ocppj.ServerDispatcher.Sending.{pending_of}
use ocpp_go.Ocppj.ServerDispatcher.Loop.{dispatch_loop_ends}
use ocpp_go.Ocppj.ServerDispatcher.Closing.{stopped_endings}
use ocpp_go.Ocppj.ServerDispatcher.Steps.{
  wired, Reach, here, next, for_client, starts, creates, enqueues, signals, rounds, receives,
  ClientStep-Evolves, clients_accounted, clients_written_in_order, clients_stopped,
}

abbrev bundle : String → RequestBundle ℕ
bundle id = record {
  call = some (record { unique_id = id; action = "Reset"; payload = some 7 });
  bytes = some id;
  ctx = none;
}

bundle-IsSendable : IsSendable (bundle "a")
bundle-IsSendable = (_, _, refl, refl, λ e. cc)

-- A network that takes every message.
abbrev online : World
online = record { write = λ m. none; ctx_err = λ c. none }

abbrev started : ServerDispatcher ℕ
unfolding start
started = start (wired 2 true true)

abbrev created : ServerDispatcher ℕ
unfolding create_client
created = create_client started "cp"

abbrev enqueued : ServerDispatcher ℕ
unfolding enqueue
enqueued = (enqueue created "cp" (bundle "a")).0

abbrev signaled : ServerDispatcher ℕ
unfolding signal
signaled = (signal enqueued "cp").0

abbrev token : Arm
token = request_arm (record { client_id = "cp"; delete_ack = false })

abbrev dispatched : ServerDispatcher ℕ
unfolding round
dispatched = round online token signaled

written : dispatched.wire "cp" ≡ "a" ∷ []
unfolding dispatched text_discrete signaled enqueued created started set_on_request_canceled
    set_network_server new_default_server_dispatcher new_fifo_queue_map get lookup insert delete
written = refl

abbrev answered : ServerDispatcher ℕ
answered = receive dispatched "cp" "a"

pump_off : ◌≡◌ {A = Bool} (wired {Request = ℕ} 2 true true).pumping false
unfolding set_on_request_canceled set_network_server new_default_server_dispatcher
pump_off = refl

pump_on : signaled.pumping ≡ true
unfolding text_discrete signaled enqueued created started set_on_request_canceled set_network_server
    new_default_server_dispatcher new_fifo_queue_map get lookup insert
pump_on = refl

up_to_dispatched : Reach (wired 2 true true) dispatched
unfolding dispatched signaled enqueued created started
up_to_dispatched =
    next
      (next
        (next (next (next here (starts pump_off)) (for_client "cp" creates))
          (for_client "cp" (enqueues (bundle "a") bundle-IsSendable)))
        (for_client "cp" signals))
      (for_client "cp" (rounds online token pump_on refl))

clients_accounted_example :
    answered.accepted "cp"
    ≡ ended_ids (answered.ended "cp") ++ ids (queued (get answered.queue_map "cp"))
clients_accounted_example =
    clients_accounted 2 true true answered (next up_to_dispatched (for_client "cp" (receives "a")))
      "cp"

clients_written_in_order_example :
    IsSublist (dispatched.wire "cp") (dispatched.accepted "cp")
    × (IsSublist (dispatched.wire "cp") (ended_ids (dispatched.ended "cp"))
        ⊎ ((b : RequestBundle ℕ) × (es : List (RequestBundle ℕ)) × (elements_of
                (get dispatched.queue_map "cp")
              ≡ some (b ∷ es))
            × (pending_of dispatched "cp" ≡ id_of b.call)
            × IsSublist
                (dispatched.wire "cp")
                (ended_ids (dispatched.ended "cp") ++ id_of b.call ∷ [])))
clients_written_in_order_example =
    clients_written_in_order 2 true true dispatched up_to_dispatched "cp"

clients_stopped_example :
    let d' = shut_down dispatched in
    let os =
      stopped_endings dispatched.on_request_cancel (queued (get dispatched.queue_map "cp")) in
    (d'.ended "cp" ≡ dispatched.ended "cp" ++ os)
    × (ended_ids (d'.ended "cp") ≡ dispatched.accepted "cp")
    × (elements_of (get d'.queue_map "cp") ≡ none)
    × (pending_of d' "cp" ≡ "")
clients_stopped_example = clients_stopped 2 true true dispatched up_to_dispatched "cp"

ClientStep-Evolves_example :
    Evolves (line_of dispatched "cp") (line_of answered "cp")
    × ((c : String) → "cp" ≢ c → line_of answered c ≡ line_of dispatched c)
ClientStep-Evolves_example = ClientStep-Evolves dispatched answered "cp" (receives "a")

-- A network that is down: the loop drops the request.
abbrev offline : World
offline = record { write = λ m. some "closed"; ctx_err = λ c. none }

nothing_pending : pending_of signaled "cp" ≡ ""
unfolding text_discrete signaled enqueued created started set_on_request_canceled set_network_server
    new_default_server_dispatcher new_fifo_queue_map lookup insert new_client_state
nothing_pending = refl

one_queued : length (queued (get signaled.queue_map "cp")) < 2
unfolding text_discrete signaled enqueued created started set_on_request_canceled set_network_server
    new_default_server_dispatcher new_fifo_queue_map get lookup insert add
one_queued = omega arith

dispatch_loop_ends_example : (dispatch_loop 2 offline signaled "cp").1 ≡ true
dispatch_loop_ends_example = dispatch_loop_ends 2 offline signaled "cp" nothing_pending one_queued

-- A queued request without a payload goes with its queue, and the callback is not called.
nil_payload_dropped :
    (cancel_stopped started "cp" (
        record (bundle "a") {
          call = some (record { unique_id = "a"; action = "Reset"; payload = none });
        }
        ∷ [])).ended
      "cp"
    ≡ dropped "a" ∷ []
unfolding cancel_stopped cancel_outstanding text_discrete started set_on_request_canceled
    set_network_server new_default_server_dispatcher
nil_payload_dropped = refl
