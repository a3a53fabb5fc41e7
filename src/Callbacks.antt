-- ===== src/Callbacks.antt =====
-- internal/callbackqueue/callbackqueue.go: the callbacks that wait for a response, by client and
-- request. The mutex makes each method one step. `try` runs inside the lock and may change the
-- world around the queue, so it is a function on a state of the caller's choosing.
pub mod Laws
pub mod History
pub mod Delivery
mod Tests
use ocpp_go.Base.{String, ◌≡◌, ite, Option, none, some, List, [], ◌∷◌, text_discrete}
use ocpp_go.Dict.{Dict, lookup, insert, delete, values}

pub record CallbackQueue (C : Type 0) : Type 0 where
  pub callbacks : Dict (Dict C)

-- What `try` returns: the request's ID, or an error.
pub data Attempt (E : Type 0) : Type 0 where
  sent : String → Attempt E
  refused : E → Attempt E

pub data TryError (E : Type 0) : Type 0 where
  try_failed : E → TryError E
  empty_request_id : TryError E
  duplicate_callback : TryError E

module _ {C : Type 0} where
  unfoldable pub new : CallbackQueue C
  new = record { callbacks = [] }

  put : String → String → C → Dict C → CallbackQueue C → CallbackQueue C
  put id request_id callback inner q = record q {
    callbacks = insert id (insert request_id callback inner) q.callbacks;
  }

  -- The client's inner map is made where it is missing.
  register_in :
      {E : Type 0}
      → Option (Dict C)
      → String
      → String
      → C
      → CallbackQueue C
      → CallbackQueue C × Option (TryError E)
  unfolding put
  register_in none id request_id callback q = (put id request_id callback [] q, none)
  register_in (some inner) id request_id callback q = elim (lookup request_id inner) [
    | some _ ↦ (q, some duplicate_callback)
    | none ↦ (put id request_id callback inner q, none)
  ]

  -- The write to the two maps, once the request has its ID.
  unfoldable pub register :
      {E : Type 0} → String → String → C → CallbackQueue C → CallbackQueue C × Option (TryError E)
  unfolding register_in
  register id request_id callback q =
      ite (text_discrete request_id "") (q, some empty_request_id)
        (register_in (lookup id q.callbacks) id request_id callback q)

  -- The second half of `TryQueue`: an error of `try` registers nothing.
  unfoldable pub settle :
      {E : Type 0}
      → String
      → Attempt E
      → C
      → CallbackQueue C
      → CallbackQueue C × Option (TryError E)
  unfolding register
  settle id (refused e) callback q = (q, some (try_failed e))
  settle id (sent request_id) callback q = register id request_id callback q

  unfoldable pub try_queue :
      {E : Type 0} {S : Type 0}
      → String
      → (S → S × Attempt E)
      → C
      → S
      → CallbackQueue C
      → S × CallbackQueue C × Option (TryError E)
  unfolding settle
  try_queue id try callback s q =
      let (s', attempt) = try s in let (q', err) = settle id attempt callback q in (s', q', err)

  -- After the entry goes, an empty inner map takes the client's entry with it.
  unfoldable pub shrink : String → Dict C → CallbackQueue C → CallbackQueue C
  shrink id [] q = record q { callbacks = delete id q.callbacks }
  shrink id (e ∷ inner) q = record q { callbacks = insert id (e ∷ inner) q.callbacks }

  unfoldable pub dequeue : String → String → CallbackQueue C → CallbackQueue C × Option C
  unfolding shrink
  dequeue id request_id q = elim (lookup id q.callbacks) [
    | none ↦ (q, none)
    | some inner ↦ elim (lookup request_id inner) [
      | none ↦ (q, none)
      | some cb ↦ (shrink id (delete request_id inner) q, some cb)
    ]
  ]

  -- `none` is the nil slice of a client without entries.
  unfoldable pub drain_all : String → CallbackQueue C → CallbackQueue C × Option (List C)
  drain_all id q = elim (lookup id q.callbacks) [
    | none ↦ (q, none)
    | some inner ↦ (record q { callbacks = delete id q.callbacks }, some (values inner))
  ]
