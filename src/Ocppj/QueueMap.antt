-- ===== src/Ocppj/QueueMap.antt =====
-- ocppj/queue.go: the queues of a server, by client. A mutex makes each method one step. The map holds
-- pointers to queues; each is read and written through the map only, so it is the queue itself, and
-- `on_queue` is a method called on one.
pub mod Clients
use ocpp_go.Base.{ℕ, String, Option, none, some, []}
use ocpp_go.Dict.{Dict, lookup, insert, delete}
use ocpp_go.Ocppj.Queue.{FifoClientQueue, new_fifo_client_queue}

pub record FifoQueueMap (A : Type 0) : Type 0 where
  pub queues : Dict (FifoClientQueue A)
  pub queue_capacity : ℕ

module _ {A : Type 0} where
  unfoldable pub new_fifo_queue_map : ℕ → FifoQueueMap A
  new_fifo_queue_map client_queue_capacity = record {
    queues = [];
    queue_capacity = client_queue_capacity;
  }

  unfoldable pub init : FifoQueueMap A → FifoQueueMap A
  init f = record f { queues = [] }

  unfoldable pub drain_all : FifoQueueMap A → FifoQueueMap A × Dict (FifoClientQueue A)
  drain_all f = (record f { queues = [] }, f.queues)

  unfoldable pub get : FifoQueueMap A → String → Option (FifoClientQueue A)
  get f client_id = lookup client_id f.queues

  unfoldable pub get_or_create : FifoQueueMap A → String → FifoQueueMap A × FifoClientQueue A
  unfolding new_fifo_client_queue
  get_or_create f client_id = elim (lookup client_id f.queues) [
    | some q ↦ (f, q)
    | none ↦
        let q = new_fifo_client_queue f.queue_capacity in
        (record f { queues = insert client_id q f.queues }, q)
  ]

  unfoldable pub remove : FifoQueueMap A → String → FifoQueueMap A
  remove f client_id = record f { queues = delete client_id f.queues }

  unfoldable pub add : FifoQueueMap A → String → FifoClientQueue A → FifoQueueMap A
  add f client_id queue = record f { queues = insert client_id queue f.queues }

  unfoldable pub on_queue :
      FifoQueueMap A → String → (FifoClientQueue A → FifoClientQueue A) → FifoQueueMap A
  on_queue f client_id method = elim (lookup client_id f.queues) [
    | none ↦ f
    | some q ↦ record f { queues = insert client_id (method q) f.queues }
  ]
