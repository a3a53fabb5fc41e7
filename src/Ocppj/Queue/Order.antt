-- ===== src/Ocppj/Queue/Order.antt =====
-- ocppj/queue.go over any sequence of calls: the bound, and first in, first out.
use ocpp_go.Base.{
  ℕ, ◌≤◌, ◌≡◌, ◌&&◌, leb, ltb, refl, ◌∙◌, ap, sym, ◌⊎◌, inl, inr, not, if◌then◌else◌, Bool, true,
  false, Option, none, some, List, [], ◌∷◌, ◌++◌, append-nil, append_assoc, arith, length,
  length-append, Bool-cases,
}
use ocpp_go.Ocppj.Queue.{
  FifoClientQueue, new_fifo_client_queue, init, drain_all, push, pop, pop_if, pop_if_on, is_full,
}

pub data Call (A : Type 0) : Type 0 where
  pushes : A → Call A
  pops : Call A
  pops_if : (A → Bool) → Call A
  drains : Call A
  inits : Call A

-- The queue, what it took in and what left it, oldest first.
pub record Ledger (A : Type 0) : Type 0 where
  pub queue : FifoClientQueue A
  pub taken : List A
  pub left : List A

module _ {A : Type 0} where
  abbrev when_pushed : Bool → A → List A
  when_pushed true x = x ∷ []
  when_pushed false x = []

  abbrev when_popped : Option A → List A
  when_popped none = []
  when_popped (some x) = x ∷ []

  -- `Init` drops what the queue holds.
  unfoldable pub step : Ledger A → Call A → Ledger A
  step l (pushes x) =
      let (q, accepted) = push l.queue x in
      record l { queue = q; taken = l.taken ++ when_pushed accepted x }
  step l pops = let (q, x) = pop l.queue in record l { queue = q; left = l.left ++ when_popped x }
  step l (pops_if p) =
      let (q, x) = pop_if l.queue p in record l { queue = q; left = l.left ++ when_popped x }
  step l drains = let (q, xs) = drain_all l.queue in record l { queue = q; left = l.left ++ xs }
  step l inits = record l { queue = init l.queue; left = l.left ++ l.queue.elements }

  unfoldable pub run : Ledger A → List (Call A) → Ledger A
  run l [] = l
  run l (c ∷ cs) = run (step l c) cs

  unfoldable pub start : ℕ → Ledger A
  start capacity = record { queue = new_fifo_client_queue capacity; taken = []; left = [] }

  -- A capacity of 0 is no bound.
  abbrev pub IsBounded : FifoClientQueue A → Type 0
  IsBounded q = (q.capacity ≡ 0) ⊎ (length q.elements ≤ q.capacity)

  abbrev pub IsFifo : Ledger A → Type 0
  IsFifo l = l.taken ≡ l.left ++ l.queue.elements

  push-IsBounded :
      (q : FifoClientQueue A) (x : A)
      → IsBounded q
      → IsBounded (push q x).0 × ((push q x).0.capacity ≡ q.capacity)
  unfolding push
  push-IsBounded q x b = ground (arith, length-append q.elements (x ∷ []))

  step-IsBounded :
      (l : Ledger A) (c : Call A)
      → IsBounded l.queue
      → IsBounded (step l c).queue × ((step l c).queue.capacity ≡ l.queue.capacity)
  unfolding step pop pop_if drain_all init
  step-IsBounded l (pushes x) b = push-IsBounded l.queue x b
  step-IsBounded l pops b = ground arith
  step-IsBounded l (pops_if p) b = ground arith
  step-IsBounded l drains b = ground arith
  step-IsBounded l inits b = ground arith

  run-IsBounded :
      (l : Ledger A) (cs : List (Call A))
      → IsBounded l.queue
      → IsBounded (run l cs).queue × ((run l cs).queue.capacity ≡ l.queue.capacity)
  unfolding run
  run-IsBounded l [] b = (b, refl)
  run-IsBounded l (c ∷ cs) b =
      let (b', e) = step-IsBounded l c b in
      let (b'', e') = run-IsBounded (step l c) cs b' in (b'', e' ∙ e)

  -- What a pop returns stood at the front.
  pub pop_front : (q : FifoClientQueue A) → q.elements ≡ when_popped (pop q).1 ++ (pop q).0.elements
  unfolding pop
  pop_front q = ground arith

  pub pop_if_front :
      (q : FifoClientQueue A) (p : A → Bool)
      → q.elements ≡ when_popped (pop_if q p).1 ++ (pop_if q p).0.elements
  unfolding pop_if
  pop_if_front q p = ground arith

  push_back :
      (q : FifoClientQueue A) (x : A)
      → (push q x).0.elements ≡ q.elements ++ when_pushed (push q x).1 x
  unfolding push
  push_back q x = ground (arith, append-nil q.elements)

  moved :
      (taken left before front after : List A)
      → taken ≡ left ++ before
      → before ≡ front ++ after
      → taken ≡ (left ++ front) ++ after
  moved taken left before front after f e =
      f ∙ ap (λ xs. left ++ xs) e ∙ sym (append_assoc left front after)

  step-IsFifo : (l : Ledger A) (c : Call A) → IsFifo l → IsFifo (step l c)
  unfolding step drain_all init
  step-IsFifo l (pushes x) f =
      let new = when_pushed (push l.queue x).1 x in
      ap (λ xs. xs ++ new) f
      ∙ append_assoc l.left l.queue.elements new
      ∙ ap (λ xs. l.left ++ xs) (sym (push_back l.queue x))
  step-IsFifo l pops f = moved l.taken l.left l.queue.elements _ _ f (pop_front l.queue)
  step-IsFifo l (pops_if p) f = moved l.taken l.left l.queue.elements _ _ f (pop_if_front l.queue p)
  step-IsFifo l drains f = f ∙ sym (append-nil _)
  step-IsFifo l inits f = f ∙ sym (append-nil _)

  run-IsFifo : (l : Ledger A) (cs : List (Call A)) → IsFifo l → IsFifo (run l cs)
  unfolding run
  run-IsFifo l [] f = f
  run-IsFifo l (c ∷ cs) f = run-IsFifo (step l c) cs (step-IsFifo l c f)

  -- From a new queue on, over any calls of its methods, what was taken in is what left, in the
  -- same order, followed by what the queue holds, and the queue is never longer than its capacity
  -- unless that is 0.
  pub run_fifo :
      (capacity : ℕ) (cs : List (Call A))
      → let l = run (start capacity) cs in
        (l.taken ≡ l.left ++ l.queue.elements)
        × ((capacity ≡ 0) ⊎ (length l.queue.elements ≤ capacity))
  unfolding start new_fifo_client_queue
  run_fifo capacity cs =
      let (b, e) = run-IsBounded (start capacity) cs (inr (omega arith)) in
      (run-IsFifo (start capacity) cs refl, ground arith)

  -- Push is refused exactly when the queue is full, and then changes nothing; otherwise the
  -- element goes to the end.
  pub push-is_full :
      (q : FifoClientQueue A) (x : A)
      → ((push q x).1 ≡ not (is_full q))
        × ((push q x).0 ≡ (if is_full q then q else record q { elements = q.elements ++ x ∷ [] }))
  unfolding push is_full
  push-is_full q x = ground arith

  pub push-cases :
      (q : FifoClientQueue A) (x : A)
      → (push q x ≡ (q, false)) ⊎ (push q x ≡ (record q { elements = q.elements ++ x ∷ [] }, true))
  unfolding push
  push-cases q x = elim (Bool-cases (leb q.capacity (length q.elements) && ltb 0 q.capacity)) [
    | inl full ↦ inl (rw full refl)
    | inr free ↦ inr (rw free refl)
  ]

  pop_if_on-cases :
      (es : List A) (q : FifoClientQueue A) (p : A → Bool)
      → q.elements ≡ es
      → (pop_if_on es q p ≡ (q, none))
        ⊎ ((x : A) × (rest : List A) × (q.elements ≡ x ∷ rest)
            × (p x ≡ true)
            × (pop_if_on es q p ≡ (record q { elements = rest }, some x)))
  unfolding pop_if_on
  pop_if_on-cases [] q p e = inl refl
  pop_if_on-cases (x ∷ rest) q p e = elim (Bool-cases (p x)) [
    | inl t ↦ inr (x, rest, e, t, rw t refl)
    | inr f ↦ inl (rw f refl)
  ]

  -- `PopIf` changes nothing, or takes the front, which then satisfies the predicate.
  pub pop_if-cases :
      (q : FifoClientQueue A) (p : A → Bool)
      → (pop_if q p ≡ (q, none))
        ⊎ ((x : A) × (rest : List A) × (q.elements ≡ x ∷ rest)
            × (p x ≡ true)
            × (pop_if q p ≡ (record q { elements = rest }, some x)))
  unfolding pop_if
  pop_if-cases q p = pop_if_on-cases q.elements q p refl
