-- ===== src/Callbacks/Delivery.antt =====
-- internal/callbackqueue/callbackqueue.go: every callback that was registered is either still stored
-- or was handed back, and none twice. Collections are compared by the sum of any weight.
use ocpp_go.Base.{
  ℕ, ◌+◌, String, ◌≡◌, refl, Option, none, some, inl, inr, List, [], ◌∷◌, arith, text_discrete,
  Dec-rule, Option-cases, total, total-append, total-map,
}
use ocpp_go.Dict.{
  Dict, lookup, insert, delete, IsMap, weight, weight-insert-none, weight-insert-some,
  weight-delete,
}
use ocpp_go.Callbacks.{
  CallbackQueue, Attempt, sent, refused, TryError, put, register_in, settle, shrink, dequeue,
  drain_all, new,
}
use ocpp_go.Callbacks.History.{
  IsWellFormed, Call, queues, dequeues, drains, Ledger, step, run, when_accepted, from_option,
  from_slice, step-IsWellFormed, start, start-IsWellFormed,
}

module _ {C : Type 0} (w : C → ℕ) where
  -- The weight of everything stored.
  abbrev pub stored : CallbackQueue C → ℕ
  stored q = weight (weight w) q.callbacks

  stored-register_in :
      (E : Type 0) (q : CallbackQueue C) (id request_id : String) (callback : C)
      → (inner : Option (Dict C)) → lookup id q.callbacks ≡ inner
      → let (q', err) = register_in {E = E} inner id request_id callback q in
        stored q' ≡ total w (when_accepted err callback []) + stored q
  unfolding register_in put
  stored-register_in E q id request_id callback none e = omega (
    arith,
    weight-insert-none (weight w) id (insert request_id callback []) q.callbacks e,
    weight-insert-none w request_id callback [] (unfold lookup in refl),
  )
  stored-register_in E q id request_id callback (some inner) e = ground (
    arith,
    weight-insert-some (weight w) id (insert request_id callback inner) inner q.callbacks,
    weight-insert-none w request_id callback inner,
  )

  stored-settle :
      {E : Type 0} (q : CallbackQueue C) (id : String) (a : Attempt E) (callback : C)
      → let (q', err) = settle id a callback q in
        stored q' ≡ total w (when_accepted err callback []) + stored q
  unfolding settle
  stored-settle q id (refused e) callback = omega arith
  stored-settle {E} q id (sent request_id) callback =
      Dec-rule
        (λ (r : CallbackQueue C × Option (TryError E)).
          stored r.0 ≡ total w (when_accepted r.1 callback []) + stored q)
        (text_discrete request_id "") (λ p. omega arith)
        λ p. stored-register_in E q id request_id callback (lookup id q.callbacks) refl

  stored-shrink :
      (q : CallbackQueue C) (id : String) (inner old : Dict C)
      → IsMap q.callbacks
      → lookup id q.callbacks ≡ some old
      → stored (shrink id inner q) + weight w old ≡ weight w inner + stored q
  unfolding shrink
  stored-shrink q id [] old m e = omega (arith, weight-delete (weight w) id old q.callbacks m e)
  stored-shrink q id (x ∷ inner) old m e =
      omega (arith, weight-insert-some (weight w) id (x ∷ inner) old q.callbacks e)

  stored-dequeue :
      (q : CallbackQueue C) (id request_id : String)
      → IsWellFormed q
      → let (q', cb) = dequeue id request_id q in stored q ≡ total w (from_option cb) + stored q'
  unfolding dequeue
  stored-dequeue q id request_id h = elim (Option-cases (lookup id q.callbacks)) [
    | inl e ↦ ground arith
    | inr (inner, e) ↦ elim (Option-cases (lookup request_id inner)) [
      | inl e' ↦ ground arith
      | inr (c, e') ↦ ground (
        arith,
        stored-shrink q id (delete request_id inner) inner h.is_map e,
        weight-delete w request_id c inner (h.inner id inner e).is_map e',
      )
    ]
  ]

  stored-drain_all :
      (q : CallbackQueue C) (id : String)
      → IsWellFormed q
      → let (q', cbs) = drain_all id q in stored q ≡ total w (from_slice cbs) + stored q'
  unfolding drain_all
  stored-drain_all q id h = elim (Option-cases (lookup id q.callbacks)) [
    | inl e ↦ ground arith
    | inr (inner, e) ↦ ground (
      arith,
      weight-delete (weight w) id inner q.callbacks h.is_map,
      total-map w (λ (x : String × C). x.1) inner,
    )
  ]

  abbrev IsBalanced : Ledger C → Type 0
  IsBalanced l = total w l.registered ≡ total w l.returned + stored l.queue

  step-IsBalanced :
      {E : Type 0} (l : Ledger C) (c : Call C E)
      → IsWellFormed l.queue
      → IsBalanced l
      → IsBalanced (step l c)
  unfolding step
  step-IsBalanced l (queues id a callback) h b = ground (arith, stored-settle l.queue id a callback)
  step-IsBalanced l (dequeues id request_id) h b = omega (
    arith,
    stored-dequeue l.queue id request_id h,
    total-append w (from_option (dequeue id request_id l.queue).1) l.returned,
  )
  step-IsBalanced l (drains id) h b = omega (
    arith,
    stored-drain_all l.queue id h,
    total-append w (from_slice (drain_all id l.queue).1) l.returned,
  )

  run-IsBalanced :
      {E : Type 0} (l : Ledger C) (cs : List (Call C E))
      → IsWellFormed l.queue
      → IsBalanced l
      → IsBalanced (run l cs)
  unfolding run
  run-IsBalanced l [] h b = b
  run-IsBalanced l (c ∷ cs) h b =
      run-IsBalanced (step l c) cs (step-IsWellFormed l c h) (step-IsBalanced l c h b)

  -- From the empty queue on, over any calls, what was registered is what was handed back together
  -- with what is still stored, each callback as often as it was registered (compared by the sum of
  -- any weight).
  pub registered-returned :
      {E : Type 0} (cs : List (Call C E))
      → total w (run start cs).registered
        ≡ total w (run start cs).returned + stored (run start cs).queue
  registered-returned cs =
      run-IsBalanced start cs start-IsWellFormed (unfold start new in omega arith)
