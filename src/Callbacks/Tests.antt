-- ===== src/Callbacks/Tests.antt =====
-- Runs of the callback queue, and its theorems at concrete calls.
use ocpp_go.Base.{ℕ, ◌+◌, String, ◌≡◌, refl, ite, none, some, List, [], ◌∷◌, text_discrete, total}
use ocpp_go.Dict.{lookup, insert, delete}
use ocpp_go.Callbacks.{
  CallbackQueue, Attempt, sent, refused, duplicate_callback, new, settle, try_queue, dequeue,
  drain_all,
}
use ocpp_go.Callbacks.Laws.{
  find, rebound, expected_error, expected_find, try_queue_lem, dequeue-find, drain_all-find,
}
use ocpp_go.Callbacks.History.{
  IsWellFormed, Call, queues, dequeues, drains, run, step, start, start-IsWellFormed,
  run-IsWellFormed,
}
use ocpp_go.Callbacks.Delivery.{stored, registered-returned}

-- Two clients; the second call of the first is a duplicate.
abbrev calls : List (Call ℕ String)
calls =
    queues "cp1" (sent "a") 1
    ∷ queues "cp1" (sent "a") 2
    ∷ queues "cp2" (refused "offline") 3
    ∷ queues "cp2" (sent "b") 4
    ∷ dequeues "cp1" "a"
    ∷ drains "cp2"
    ∷ queues "cp1" (sent "c") 5
    ∷ []

abbrev one : CallbackQueue ℕ
one = record { callbacks = ("cp1", ("a", 1) ∷ []) ∷ [] }

abbrev try_a : ℕ → ℕ × Attempt String
try_a n = (n + 1, sent "a")

run-calls : (run start calls).returned ≡ 4 ∷ 1 ∷ []
unfolding run step drain_all lookup dequeue settle text_discrete start new insert delete
run-calls = refl

duplicate : (try_queue "cp1" try_a 2 0 one).2 ≡ some duplicate_callback
unfolding try_queue text_discrete lookup
duplicate = refl

try_queue_lem_example :
    let (s', q', err) = try_queue "cp2" try_a 2 0 one in
    (s' ≡ 1)
    × (err ≡ expected_error "cp2" try_a 2 0 one (sent "a"))
    × ((i j : String) → find q' i j ≡ expected_find "cp2" try_a 2 0 one (sent "a") i j)
try_queue_lem_example = try_queue_lem "cp2" try_a 2 0 one

dequeue-find_example :
    let (q', cb) = dequeue "cp1" "a" one in
    (cb ≡ find one "cp1" "a")
    × ((i j : String) → find q' i j ≡ rebound (find one) "cp1" "a" none i j)
dequeue-find_example = dequeue-find "cp1" one "a"

drain_all-find_example :
    find (drain_all "cp1" one).0 "cp1" "a"
    ≡ ite (text_discrete "cp1" "cp1") none (find one "cp1" "a")
drain_all-find_example = drain_all-find "cp1" one "cp1" "a"

run-IsWellFormed_example : IsWellFormed (run start calls).queue
run-IsWellFormed_example = run-IsWellFormed start calls start-IsWellFormed

registered-returned_example :
    total (λ c. c) (run start calls).registered
    ≡ total (λ c. c) (run start calls).returned + stored (λ c. c) (run start calls).queue
registered-returned_example = registered-returned (λ c. c) calls
