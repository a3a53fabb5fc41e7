-- ===== src/Callbacks/History.antt =====
-- internal/callbackqueue/callbackqueue.go over any sequence of calls: the shape of the two maps, and
-- where each registered callback ends up.
use ocpp_go.Base.{
  String, ◌≡◌, refl, ◌≢◌, Option, none, some, inl, inr, List, [], ◌∷◌, ◌++◌, arith, text_discrete,
  Dec-rule, Option-cases,
}
use ocpp_go.Dict.{
  Dict, lookup, insert, delete, lookup-insert, lookup-delete, IsMap, insert-IsMap, delete-IsMap,
}
use ocpp_go.Callbacks.{
  CallbackQueue, Attempt, sent, refused, TryError, new, put, register_in, settle, shrink, dequeue,
  drain_all,
}

-- A client's inner map: not empty, no empty ID, each ID once.
pub record IsInner {C : Type 0} (inner : Dict C) : Type 0 where
  pub is_map : IsMap inner
  pub not_empty : inner ≢ []
  pub no_empty_id : lookup "" inner ≡ none

pub record IsWellFormed {C : Type 0} (q : CallbackQueue C) : Type 0 where
  pub is_map : IsMap q.callbacks
  pub inner : (id : String) (inner : Dict C) → lookup id q.callbacks ≡ some inner → IsInner inner

module _ {C : Type 0} where
  insert-ne-nil : (k : String) (v : C) (m : Dict C) → insert k v m ≢ []
  unfolding insert
  insert-ne-nil k v [] h = cc
  insert-ne-nil k v (e ∷ m) h = ground arith

  insert_inner :
      (q : CallbackQueue C) (id : String) (inner : Dict C)
      → IsWellFormed q
      → IsInner inner
      → IsWellFormed (record q { callbacks = insert id inner q.callbacks })
  insert_inner q id inner w h = record {
    is_map = insert-IsMap id inner q.callbacks w.is_map;
    inner = λ i m e. ground (arith, lookup-insert id i inner q.callbacks, w.inner i m, h);
  }

  delete_client :
      (q : CallbackQueue C) (id : String)
      → IsWellFormed q
      → IsWellFormed (record q { callbacks = delete id q.callbacks })
  delete_client q id w = record {
    is_map = delete-IsMap id q.callbacks w.is_map;
    inner = λ i m e. w.inner i m (ground (arith, lookup-delete id i q.callbacks));
  }

  insert-IsInner :
      (request_id : String) (callback : C) (inner : Dict C)
      → request_id ≢ ""
      → IsMap inner
      → lookup "" inner ≡ none
      → IsInner (insert request_id callback inner)
  insert-IsInner request_id callback inner n h e = record {
    is_map = insert-IsMap request_id callback inner h;
    not_empty = insert-ne-nil request_id callback inner;
    no_empty_id = ground (arith, lookup-insert request_id "" callback inner);
  }

  put-IsWellFormed :
      (q : CallbackQueue C) (id request_id : String) (callback : C) (inner : Dict C)
      → request_id ≢ ""
      → IsMap inner
      → lookup "" inner ≡ none
      → IsWellFormed q
      → IsWellFormed (put id request_id callback inner q)
  unfolding put
  put-IsWellFormed q id request_id callback inner n h e w =
      insert_inner q id _ w (insert-IsInner request_id callback inner n h e)

  register_in-IsWellFormed :
      (E : Type 0) (q : CallbackQueue C) (id request_id : String) (callback : C)
      → (inner : Option (Dict C)) → lookup id q.callbacks ≡ inner
      → request_id ≢ ""
      → IsWellFormed q
      → IsWellFormed (register_in {E = E} inner id request_id callback q).0
  unfolding register_in lookup
  register_in-IsWellFormed E q id request_id callback none e n w =
      put-IsWellFormed q id request_id callback [] n tt refl w
  register_in-IsWellFormed E q id request_id callback (some inner) e n w =
      let h = w.inner id inner e in
      let p = put-IsWellFormed q id request_id callback inner n h.is_map h.no_empty_id w in
      elim (Option-cases (lookup request_id inner)) [
        | inl fresh ↦ rw (fresh, register_in) p
        | inr (c, taken) ↦ rw (taken, register_in) w
      ]

  settle-IsWellFormed :
      {E : Type 0} (q : CallbackQueue C) (id : String) (a : Attempt E) (callback : C)
      → IsWellFormed q
      → IsWellFormed (settle id a callback q).0
  unfolding settle
  settle-IsWellFormed q id (refused e) callback w = w
  settle-IsWellFormed {E} q id (sent request_id) callback w =
      Dec-rule (λ (r : CallbackQueue C × Option (TryError E)). IsWellFormed r.0)
        (text_discrete request_id "") (λ p. w)
        λ p. register_in-IsWellFormed E q id request_id callback (lookup id q.callbacks) refl p w

  shrink-IsWellFormed :
      (q : CallbackQueue C) (id : String) (inner : Dict C)
      → IsMap inner
      → lookup "" inner ≡ none
      → IsWellFormed q
      → IsWellFormed (shrink id inner q)
  unfolding shrink
  shrink-IsWellFormed q id [] m e w = delete_client q id w
  shrink-IsWellFormed q id (x ∷ inner) m e w =
      insert_inner q id (x ∷ inner) w (record { is_map = m; not_empty = λ h. cc; no_empty_id = e })

  dequeue-IsWellFormed :
      (q : CallbackQueue C) (id request_id : String)
      → IsWellFormed q
      → IsWellFormed (dequeue id request_id q).0
  unfolding dequeue
  dequeue-IsWellFormed q id request_id w = elim (Option-cases (lookup id q.callbacks)) [
    | inl e ↦ rw (e, dequeue) w
    | inr (inner, e) ↦ elim (Option-cases (lookup request_id inner)) [
      | inl e' ↦ rw (e, dequeue) (rw (e', dequeue) w)
      | inr (c, e') ↦
          let h = w.inner id inner e in
          rw (e, dequeue)
            (rw (e', dequeue)
              (shrink-IsWellFormed q id (delete request_id inner)
                (delete-IsMap request_id inner h.is_map)
                (ground (arith, lookup-delete request_id "" inner, h.no_empty_id)) w))
    ]
  ]

  drain_all-IsWellFormed :
      (q : CallbackQueue C) (id : String) → IsWellFormed q → IsWellFormed (drain_all id q).0
  unfolding drain_all
  drain_all-IsWellFormed q id w = elim (Option-cases (lookup id q.callbacks)) [
    | inl e ↦ rw (e, drain_all) w
    | inr (inner, e) ↦ rw (e, drain_all) (delete_client q id w)
  ]

-- One call, with what `try` returned.
pub data Call (C E : Type 0) : Type 0 where
  queues : String → Attempt E → C → Call C E
  dequeues : String → String → Call C E
  drains : String → Call C E

-- The queue, with the callbacks that were registered and those that were handed back.
pub record Ledger (C : Type 0) : Type 0 where
  pub queue : CallbackQueue C
  pub registered : List C
  pub returned : List C

module _ {C : Type 0} where
  abbrev pub from_option : Option C → List C
  from_option none = []
  from_option (some c) = c ∷ []

  abbrev pub from_slice : Option (List C) → List C
  from_slice none = []
  from_slice (some cs) = cs

  unfoldable pub start : Ledger C
  start = record { queue = new; registered = []; returned = [] }

  pub start-IsWellFormed : IsWellFormed start.queue
  unfolding start new lookup
  start-IsWellFormed = record { is_map = tt; inner = λ id inner e. cc }

module _ {C E : Type 0} where
  abbrev pub when_accepted : Option (TryError E) → C → List C → List C
  when_accepted none callback cs = callback ∷ cs
  when_accepted (some e) callback cs = cs

  unfoldable pub step : Ledger C → Call C E → Ledger C
  step l (queues id attempt callback) =
      let (q, err) = settle id attempt callback l.queue in
      record l { queue = q; registered = when_accepted err callback l.registered }
  step l (dequeues id request_id) =
      let (q, cb) = dequeue id request_id l.queue in
      record l { queue = q; returned = from_option cb ++ l.returned }
  step l (drains id) =
      let (q, cbs) = drain_all id l.queue in
      record l { queue = q; returned = from_slice cbs ++ l.returned }

  unfoldable pub run : Ledger C → List (Call C E) → Ledger C
  run l [] = l
  run l (c ∷ cs) = run (step l c) cs

  pub step-IsWellFormed :
      (l : Ledger C) (c : Call C E) → IsWellFormed l.queue → IsWellFormed (step l c).queue
  unfolding step
  step-IsWellFormed l (queues id a callback) w = settle-IsWellFormed l.queue id a callback w
  step-IsWellFormed l (dequeues id request_id) w = dequeue-IsWellFormed l.queue id request_id w
  step-IsWellFormed l (drains id) w = drain_all-IsWellFormed l.queue id w

  -- Every call keeps well-formed maps well formed: no client with an empty inner map, no callback
  -- under an empty request ID, one callback for a client and request.
  pub run-IsWellFormed :
      (l : Ledger C) (cs : List (Call C E)) → IsWellFormed l.queue → IsWellFormed (run l cs).queue
  unfolding run
  run-IsWellFormed l [] w = w
  run-IsWellFormed l (c ∷ cs) w = run-IsWellFormed (step l c) cs (step-IsWellFormed l c w)
