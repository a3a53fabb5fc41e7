-- ===== src/Callbacks/Laws.antt =====
-- internal/callbackqueue/callbackqueue.go, each method against the finite map that it implements:
-- a callback, or none, for each client and request.
use ocpp_go.Base.{
  String, ◌≡◌, refl, ite, Option, none, some, inl, inr, [], ◌∷◌, arith, text_discrete, Option-cases,
}
use ocpp_go.Dict.{Dict, lookup, insert, delete, lookup-insert, lookup-delete}
use ocpp_go.Callbacks.{
  CallbackQueue, Attempt, sent, refused, TryError, try_failed, empty_request_id, duplicate_callback,
  put, register, settle, try_queue, shrink, dequeue, drain_all,
}

module _ {C : Type 0} where
  abbrev pub find_in : Option (Dict C) → String → Option C
  find_in none request_id = none
  find_in (some inner) request_id = lookup request_id inner

  -- The abstract view: the callback registered for a client's request.
  abbrev pub find : CallbackQueue C → String → String → Option C
  find q id request_id = find_in (lookup id q.callbacks) request_id

  -- `find` with one binding given anew.
  abbrev pub rebound :
      (String → String → Option C) → String → String → Option C → String → String → Option C
  rebound f id request_id v i j =
      ite (text_discrete id i) (ite (text_discrete request_id j) v (f i j)) (f i j)

  -- The error that a registration meets: by its ID, and by what is registered already.
  abbrev pub refusal : {E : Type 0} → String → Option C → Option (TryError E)
  refusal request_id none = ite (text_discrete request_id "") (some empty_request_id) none
  refusal request_id (some c) =
      ite (text_discrete request_id "") (some empty_request_id) (some duplicate_callback)

  -- A map after a step that may have failed: `new`, or `old` where there was an error.
  abbrev pub unless_failed : {E : Type 0} → Option (TryError E) → Option C → Option C → Option C
  unless_failed none new old = new
  unless_failed (some e) new old = old

  put-find :
      (q : CallbackQueue C) (id request_id : String) (callback : C) (inner : Dict C)
      → ((j : String) → lookup j inner ≡ find q id j)
      → (i j : String)
      → find (put id request_id callback inner q) i j
        ≡ rebound (find q) id request_id (some callback) i j
  unfolding put
  put-find q id request_id callback inner h i j = ground (
    arith,
    lookup-insert id i (insert request_id callback inner) q.callbacks,
    lookup-insert request_id j callback inner,
    h j,
  )

module _ {C : Type 0} (E : Type 0) (id request_id : String) (callback : C)
    (q : CallbackQueue C) where
  abbrev registered : CallbackQueue C × Option (TryError E)
  registered = register id request_id callback q

  pub register-refusal : registered.1 ≡ refusal request_id (find q id request_id)
  unfolding register
  register-refusal = ground arith

  pub register-find :
      (i j : String)
      → find registered.0 i j
        ≡ unless_failed registered.1
            (rebound (find q) id request_id (some callback) i j)
            (find q i j)
  unfolding register lookup
  register-find i j = elim (Option-cases (lookup id q.callbacks)) [
    | inl e ↦ ground (arith, put-find q id request_id callback [] (λ k. ground arith) i j)
    | inr (inner, e) ↦
        ground (arith, put-find q id request_id callback inner (λ k. ground arith) i j)
  ]

  pub register_error_unchanged : {e : TryError E} → registered.1 ≡ some e → registered.0 ≡ q
  unfolding register
  register_error_unchanged h = ground arith

module _ {C E S : Type 0} (id : String) (try : S → S × Attempt E) (callback : C) (s : S) where
  -- The error that `TryQueue` returns, by what `try` returned.
  abbrev pub expected_error : CallbackQueue C → Attempt E → Option (TryError E)
  expected_error q (refused e) = some (try_failed e)
  expected_error q (sent request_id) = refusal request_id (find q id request_id)

  -- The binding that it adds where there is no error.
  abbrev pub expected_find : CallbackQueue C → Attempt E → String → String → Option C
  expected_find q (refused e) i j = find q i j
  expected_find q (sent request_id) i j =
      unless_failed (expected_error q (sent request_id))
        (rebound (find q) id request_id (some callback) i j) (find q i j)

  settle-expected :
      (q : CallbackQueue C) (a : Attempt E)
      → ((settle id a callback q).1 ≡ expected_error q a)
        × ((i j : String) → find (settle id a callback q).0 i j ≡ expected_find q a i j)
  unfolding settle
  settle-expected q (refused e) = (refl, λ i j. refl)
  settle-expected q (sent request_id) = (
    register-refusal E id request_id callback q,
    λ i j. ground (
      arith,
      register-find E id request_id callback q i j,
      register-refusal E id request_id callback q,
    ),
  )

  -- TryQueue runs try once and keeps its effect; the error is that of try, then the empty request
  -- ID, then the duplicate; only without an error is the callback bound, and every other binding
  -- is as it was.
  pub try_queue_lem :
      (q : CallbackQueue C)
      → let (s', q', err) = try_queue id try callback s q in
        (s' ≡ (try s).0)
        × (err ≡ expected_error q (try s).1)
        × ((i j : String) → find q' i j ≡ expected_find q (try s).1 i j)
  unfolding try_queue
  try_queue_lem q = let h = settle-expected q (try s).1 in (refl, h.0, h.1)

module _ {C : Type 0} (id : String) (q : CallbackQueue C) where
  shrink-find :
      (inner : Dict C) (i j : String)
      → find (shrink id inner q) i j ≡ ite (text_discrete id i) (lookup j inner) (find q i j)
  unfolding shrink lookup
  shrink-find [] i j = ground (arith, lookup-delete id i q.callbacks)
  shrink-find (e ∷ inner) i j = ground (arith, lookup-insert id i (e ∷ inner) q.callbacks)

  -- Dequeue returns what is registered for the client and request, and unbinds that pair alone.
  pub dequeue-find :
      (request_id : String)
      → let (q', cb) = dequeue id request_id q in
        (cb ≡ find q id request_id)
        × ((i j : String) → find q' i j ≡ rebound (find q) id request_id none i j)
  unfolding dequeue
  dequeue-find request_id = (ground arith, λ i j. unbound i j)
    where
      unbound :
          (i j : String)
          → find (dequeue id request_id q).0 i j ≡ rebound (find q) id request_id none i j
      unbound i j = elim (Option-cases (lookup id q.callbacks)) [
        | inl e ↦ ground arith
        | inr (inner, e) ↦
            ground
              (arith, shrink-find (delete request_id inner) i j, lookup-delete request_id j inner)
      ]

  -- DrainAll unbinds every request of the client, and of no other client.
  pub drain_all-find :
      (i j : String) → find (drain_all id q).0 i j ≡ ite (text_discrete id i) none (find q i j)
  unfolding drain_all
  drain_all-find i j = ground (arith, lookup-delete id i q.callbacks)
