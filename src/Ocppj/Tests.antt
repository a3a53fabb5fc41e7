-- ===== src/Ocppj/Tests.antt =====
-- Runs of the queue and the state, and their theorems at concrete values.
use ocpp_go.Base.{
  ℕ, String, ◌≡◌, ◌≢◌, ◌≤◌, ◌⊎◌, refl, ite, true, false, none, some, List, [], ◌∷◌, ◌++◌, length,
  ltb, text_discrete, is_some,
}
use ocpp_go.Ocppj.Queue.{FifoClientQueue, new_fifo_client_queue, push, pop, pop_if, drain_all, init}
use ocpp_go.Dict.{IsMap, lookup}
use ocpp_go.Ocppj.QueueMap.{
  FifoQueueMap, get_or_create, on_queue, get as map_get, remove as map_remove, add as map_add,
  drain_all as map_drain_all, init as map_init,
}
use ocpp_go.Ocppj.QueueMap.Clients.{queue_of, applied, queues_apart}
use ocpp_go.Ocppj.Queue.Order.{Call, pushes, pops, pops_if, drains, run, step, start, run_fifo}
use ocpp_go.Ocppj.State.{
  ClientState, ServerState, new_client_state, add_pending_request, get_pending_request,
  delete_pending_request, clear_pending_requests, has_pending_request, add_client_pending_request,
  delete_client_pending_request, has_client_pending_request, clear_client_pending_request,
  clear_all_pending_requests, get_client_state, has_pending_requests,
}
use ocpp_go.Ocppj.State.Slot.{slot, get, add, remove, slot_refines, get_pending_request_empty}
use ocpp_go.Ocppj.State.Clients.{state_of, clients_apart}

-- The third push meets a full queue.
abbrev calls : List (Call ℕ)
calls = pushes 1 ∷ pushes 2 ∷ pushes 3 ∷ pops_if (ltb 5) ∷ pops ∷ pushes 4 ∷ drains ∷ pushes 5 ∷ []

run-calls : (run (start 2) calls).left ≡ 1 ∷ 2 ∷ 4 ∷ []
unfolding run step start pop_if push new_fifo_client_queue pop drain_all
run-calls = refl

run_fifo_example :
    let l = run (start 2) calls in
    (l.taken ≡ l.left ++ l.queue.elements) × ((◌≡◌ {A = ℕ} 2 0) ⊎ (length l.queue.elements ≤ 2))
run_fifo_example = run_fifo 2 calls

abbrev full : FifoClientQueue ℕ
full = record { elements = 1 ∷ 2 ∷ []; capacity = 2 }

abbrev waiting : ClientState ℕ
waiting = record { request_id = "a"; pending_request = some 7 }

a_not_empty : ◌≢◌ {A = String} "a" ""
a_not_empty e = cc

slot_refines_example :
    (slot (add_pending_request waiting "a" (some 8)) ≡ add (slot waiting) "a" (some 8))
    × (get_pending_request waiting "a" ≡ get (slot waiting) "a")
    × (slot (delete_pending_request waiting "a") ≡ remove (slot waiting) "a")
    × (slot (clear_pending_requests waiting) ≡ none)
    × (has_pending_request waiting ≡ is_some (slot waiting))
slot_refines_example = slot_refines waiting "a" (some 8) a_not_empty

abbrev answered : ClientState ℕ
answered = record { request_id = ""; pending_request = some 7 }

answered_idle : has_pending_request answered ≡ false
unfolding has_pending_request text_discrete
answered_idle = refl

get_pending_request_empty_example : get_pending_request answered "" ≡ some (some 7)
get_pending_request_empty_example = get_pending_request_empty answered answered_idle

abbrev two_clients : ServerState ℕ
two_clients = record { pending_request_state = ("cp1", waiting) ∷ ("other", answered) ∷ [] }

two_clients-IsMap : IsMap two_clients.pending_request_state
two_clients-IsMap = (((λ e. cc), tt), (tt, tt))

clients_apart_example :
    (state_of (add_client_pending_request two_clients "other" "b" (some 9)) "cp1"
      ≡ ite
          (text_discrete "other" "cp1")
          (add_pending_request (state_of two_clients "other") "b" (some 9))
          (state_of two_clients "cp1"))
    × (state_of (delete_client_pending_request two_clients "other" "b") "cp1"
        ≡ ite
            (text_discrete "other" "cp1")
            (delete_pending_request (state_of two_clients "other") "b")
            (state_of two_clients "cp1"))
    × ((get_client_state two_clients "other").1 ≡ state_of two_clients "other")
    × (lookup "other" (get_client_state two_clients "other").0.pending_request_state
        ≡ some (state_of two_clients "other"))
    × (state_of (get_client_state two_clients "other").0 "cp1" ≡ state_of two_clients "cp1")
    × (has_client_pending_request two_clients "cp1"
        ≡ has_pending_request (state_of two_clients "cp1"))
    × (((has_pending_requests two_clients ≡ true)
          × (j : String) × (has_client_pending_request two_clients j ≡ true))
        ⊎ ((has_pending_requests two_clients ≡ false)
            × ((j : String) → has_client_pending_request two_clients j ≡ false)))
    × (state_of (clear_client_pending_request two_clients "other") "cp1"
        ≡ ite (text_discrete "other" "cp1") new_client_state (state_of two_clients "cp1"))
    × (state_of (clear_all_pending_requests two_clients) "cp1" ≡ new_client_state)
clients_apart_example = clients_apart two_clients "other" "b" (some 9) "cp1" two_clients-IsMap

abbrev queues : FifoQueueMap ℕ
queues = record { queues = ("cp1", full) ∷ []; queue_capacity = 3 }

queues_apart_example :
    ((get_or_create queues "cp2").1 ≡ queue_of queues "cp2")
    × (map_get (get_or_create queues "cp2").0 "cp1"
        ≡ ite (text_discrete "cp2" "cp1") (some (queue_of queues "cp2")) (map_get queues "cp1"))
    × (map_get (map_remove queues "cp2") "cp1"
        ≡ ite (text_discrete "cp2" "cp1") none (map_get queues "cp1"))
    × (map_get (map_add queues "cp2" full) "cp1"
        ≡ ite (text_discrete "cp2" "cp1") (some full) (map_get queues "cp1"))
    × (map_get (on_queue queues "cp2" init) "cp1"
        ≡ ite
            (text_discrete "cp2" "cp1")
            (applied init (map_get queues "cp2"))
            (map_get queues "cp1"))
    × (lookup "cp1" (map_drain_all queues).1 ≡ map_get queues "cp1")
    × (map_get (map_drain_all queues).0 "cp1" ≡ none)
    × (map_get (map_init queues) "cp1" ≡ none)
queues_apart_example = queues_apart queues "cp2" "cp1" full init
