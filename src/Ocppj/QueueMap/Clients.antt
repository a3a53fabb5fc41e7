-- ===== src/Ocppj/QueueMap/Clients.antt =====
-- ocppj/queue.go: the clients of a `FIFOQueueMap` do not touch one another's queues.
use ocpp_go.Base.{
  String, ◌≡◌, refl, ite, Option, none, some, arith, text_discrete, Option-cases, inl, inr,
}
use ocpp_go.Dict.{lookup, lookup-insert, lookup-delete}
use ocpp_go.Ocppj.Queue.{FifoClientQueue, new_fifo_client_queue}
use ocpp_go.Ocppj.QueueMap.{
  FifoQueueMap, init, drain_all, get, get_or_create, remove, add, on_queue,
}

module _ {A : Type 0} where
  -- A client's queue, or the new one that it would be given.
  abbrev pub queue_of : FifoQueueMap A → String → FifoClientQueue A
  queue_of f client_id = elim (get f client_id) [
    | none ↦ new_fifo_client_queue f.queue_capacity
    | some q ↦ q
  ]

  -- A method on the queue that is there.
  abbrev pub applied :
      (FifoClientQueue A → FifoClientQueue A)
      → Option (FifoClientQueue A)
      → Option (FifoClientQueue A)
  applied method none = none
  applied method (some q) = some (method q)

  created-get :
      (f : FifoQueueMap A) (client_id c : String)
      → ((get_or_create f client_id).1 ≡ queue_of f client_id)
        × (get (get_or_create f client_id).0 c
            ≡ ite (text_discrete client_id c) (some (queue_of f client_id)) (get f c))
  unfolding get_or_create get
  created-get f client_id c = elim (Option-cases (lookup client_id f.queues)) [
    | inl e ↦ (
      ground arith,
      ground (arith, lookup-insert client_id c (new_fifo_client_queue f.queue_capacity) f.queues),
    )
    | inr (q, e) ↦ (ground arith, ground arith)
  ]

  method-get :
      (f : FifoQueueMap A) (client_id c : String) (method : FifoClientQueue A → FifoClientQueue A)
      → get (on_queue f client_id method) c
        ≡ ite (text_discrete client_id c) (applied method (get f client_id)) (get f c)
  unfolding get on_queue
  method-get f client_id c method = elim (Option-cases (lookup client_id f.queues)) [
    | inl e ↦ ground arith
    | inr (q, e) ↦ ground (arith, lookup-insert client_id c (method q) f.queues)
  ]

  -- Each method of FIFOQueueMap, and a method called on the queue of one client, acts on that
  -- client's queue as it should and leaves the queue of every other client as it was; GetOrCreate
  -- gives the queue that is there or a new one of the map's capacity; DrainAll hands over every
  -- queue and, like Init, leaves none.
  pub queues_apart :
      (f : FifoQueueMap A) (client_id c : String) (q : FifoClientQueue A)
      → (method : FifoClientQueue A → FifoClientQueue A)
      → ((get_or_create f client_id).1 ≡ queue_of f client_id)
        × (get (get_or_create f client_id).0 c
            ≡ ite (text_discrete client_id c) (some (queue_of f client_id)) (get f c))
        × (get (remove f client_id) c ≡ ite (text_discrete client_id c) none (get f c))
        × (get (add f client_id q) c ≡ ite (text_discrete client_id c) (some q) (get f c))
        × (get (on_queue f client_id method) c
            ≡ ite (text_discrete client_id c) (applied method (get f client_id)) (get f c))
        × (lookup c (drain_all f).1 ≡ get f c)
        × (get (drain_all f).0 c ≡ none)
        × (get (init f) c ≡ none)
  unfolding get remove add drain_all init lookup
  queues_apart f client_id c q method = (
    (created-get f client_id c).0,
    (created-get f client_id c).1,
    ground (arith, lookup-delete client_id c f.queues),
    ground (arith, lookup-insert client_id c q f.queues),
    method-get f client_id c method,
    refl,
    refl,
    refl,
  )
