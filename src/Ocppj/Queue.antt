-- ===== src/Ocppj/Queue.antt =====
-- ocppj/queue.go: the bounded FIFO queue of outgoing requests. The mutex makes each method one step.
-- An element is a value of any type; Go's nil for "no element" is `none`.
pub mod Order
use ocpp_go.Base.{
  ℕ, ◌<◌, Bool, true, false, ◌&&◌, Option, none, some, List, [], ◌∷◌, ◌++◌, length,
  is_empty as list_is_empty, leb, ltb, if◌then◌else◌,
}

-- `capacity` is not negative: `make` panics on a negative one.
pub record FifoClientQueue (A : Type 0) : Type 0 where
  pub elements : List A
  pub capacity : ℕ

module _ {A : Type 0} where
  unfoldable pub new_fifo_client_queue : ℕ → FifoClientQueue A
  new_fifo_client_queue capacity = record { elements = []; capacity = capacity }

  unfoldable pub init : FifoClientQueue A → FifoClientQueue A
  init q = record q { elements = [] }

  unfoldable pub drain_all : FifoClientQueue A → FifoClientQueue A × List A
  drain_all q = (record q { elements = [] }, q.elements)

  unfoldable pub is_full : FifoClientQueue A → Bool
  is_full q = leb q.capacity (length q.elements) && ltb 0 q.capacity

  -- `false` is the error "request queue is full".
  unfoldable pub push : FifoClientQueue A → A → FifoClientQueue A × Bool
  push q element =
      if leb q.capacity (length q.elements) && ltb 0 q.capacity
      then (q, false)
      else (record q { elements = q.elements ++ element ∷ [] }, true)

  unfoldable pub peek : FifoClientQueue A → Option A
  peek q = elim q.elements [ [] ↦ none | x ∷ rest ↦ some x ]

  unfoldable pub pop : FifoClientQueue A → FifoClientQueue A × Option A
  pop q = elim q.elements [ [] ↦ (q, none) | x ∷ rest ↦ (record q { elements = rest }, some x) ]

  -- `PopIf`, by the elements.
  unfoldable pub pop_if_on : List A → FifoClientQueue A → (A → Bool) → FifoClientQueue A × Option A
  pop_if_on [] q predicate = (q, none)
  pop_if_on (x ∷ rest) q predicate =
      if predicate x then (record q { elements = rest }, some x) else (q, none)

  unfoldable pub pop_if : FifoClientQueue A → (A → Bool) → FifoClientQueue A × Option A
  unfolding pop_if_on
  pop_if q predicate = pop_if_on q.elements q predicate

  unfoldable pub size : FifoClientQueue A → ℕ
  size q = length q.elements

  unfoldable pub is_empty : FifoClientQueue A → Bool
  is_empty q = list_is_empty q.elements
