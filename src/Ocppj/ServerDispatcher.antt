-- ===== src/Ocppj/ServerDispatcher.antt =====
-- ocppj/dispatcher.go, the server's half: `DefaultServerDispatcher`, one message pump for all clients. The
-- state holds the queues by client, the channels, and the variables of the pump; a method is a function
-- on it, and so is a round of the pump (`Ocppj/ServerDispatcher/Pump`). A channel is the list of what
-- lies in it together with what waits to be sent. An internal timeout context is its number.
--
-- Three ledgers by client tell what went out: requests taken in, messages written, and how each ended.
pub mod Pump
pub mod Line
pub mod Parts
pub mod Clients
pub mod Completing
pub mod Methods
pub mod Sending
pub mod Loop
pub mod Arms
pub mod Rounds
pub mod Closing
pub mod Steps
mod Tests
use ocpp_go.Base.{
  ℕ, ◌++◌, String, ite, Bool, true, false, not, Option, none, some, List, [], ◌∷◌, map,
  text_discrete, test, if◌then◌else◌,
}
use ocpp_go.Dict.{Dict, lookup, insert, delete}
use ocpp_go.Ocpp.{Error, mark_local_transport_error}
use ocpp_go.Ocppj.Queue.{FifoClientQueue, push, pop_if}
use ocpp_go.Ocppj.QueueMap.{FifoQueueMap, get, get_or_create, remove, add}
use ocpp_go.Ocppj.State.{ServerState, new_server_state, delete_client_pending_request}
use ocpp_go.Ocppj.Bundle.{
  Call, RequestBundle, Outcome, responded, canceled, default_message_timeout, has_id, id_of, ids,
}

pub record DispatchRequest : Type 0 where
  pub client_id : String
  pub delete_ack : Bool

pub record ReadyToken : Type 0 where
  pub client_id : String
  pub request_id : String

-- What a watcher that was started for a written request was given.
pub record Watch : Type 0 where
  pub client_id : String
  pub request_id : String
  pub client_ctx : ℕ
  pub user_ctx : Option ℕ

-- How a request ended: with an outcome, with one that no callback was there for, or with its queue.
pub data Ending (Request : Type 0) : Type 0 where
  ended_by : Outcome Request → Ending Request
  unreported dropped : String → Ending Request

pub record ServerDispatcher (Request : Type 0) : Type 0 where
  pub queue_map : FifoQueueMap (RequestBundle Request)
  pub request_channel : List DispatchRequest
  pub ready_for_dispatch : List ReadyToken
  pub pending_request_state : ServerState Request
  pub timeout : ℕ
  pub running : Bool
  pub closed : Bool
  pub on_request_cancel : Bool
  pub has_network : Bool
  -- the pump's own variables; `pumping` until it returns. A context that is `none` is not active
  pub pumping : Bool
  pub rdy : Bool
  pub client_context_map : Dict (Option ℕ)
  pub dispatched_request_id_map : Dict String
  -- contexts made, contexts canceled, watchers started, deletions acknowledged
  pub next_ctx : ℕ
  pub canceled_ctxs : List ℕ
  pub watchers : List Watch
  pub acks : List String
  pub accepted : String → List String
  pub wire : String → List String
  pub ended : String → List (Ending Request)

-- The ledger with more entries of one client.
abbrev pub note {ℓ} : {A : Type ℓ} → (String → List A) → String → List A → String → List A
note ledger client_id xs c = ite (text_discrete client_id c) (ledger client_id ++ xs) (ledger c)

module _ {Request : Type 0} where
  unfoldable pub new_default_server_dispatcher :
      FifoQueueMap (RequestBundle Request) → ServerDispatcher Request
  unfolding new_server_state
  new_default_server_dispatcher queue_map = record {
    queue_map = queue_map;
    request_channel = [];
    ready_for_dispatch = [];
    pending_request_state = new_server_state;
    timeout = default_message_timeout;
    running = false;
    closed = false;
    on_request_cancel = false;
    has_network = false;
    pumping = false;
    rdy = false;
    client_context_map = [];
    dispatched_request_id_map = [];
    next_ctx = 0;
    canceled_ctxs = [];
    watchers = [];
    acks = [];
    accepted = λ c. [];
    wire = λ c. [];
    ended = λ c. [];
  }

  unfoldable pub start : ServerDispatcher Request → ServerDispatcher Request
  start d = record d {
    request_channel = [];
    running = true;
    closed = false;
    pumping = true;
    rdy = false;
    client_context_map = [];
    dispatched_request_id_map = [];
  }

  unfoldable pub is_running : ServerDispatcher Request → Bool
  is_running d = d.running

  -- `Stop` up to its wait for the pump.
  unfoldable pub stop : ServerDispatcher Request → ServerDispatcher Request
  stop d = if d.running then record d { running = false; closed = true } else d

  unfoldable pub set_timeout : ServerDispatcher Request → ℕ → ServerDispatcher Request
  set_timeout d timeout = record d { timeout = timeout }

  unfoldable pub set_network_server : ServerDispatcher Request → Bool → ServerDispatcher Request
  set_network_server d server = record d { has_network = server }

  unfoldable pub set_on_request_canceled :
      ServerDispatcher Request → Bool → ServerDispatcher Request
  set_on_request_canceled d cb = record d { on_request_cancel = cb }

  unfoldable pub set_pending_request_state :
      ServerDispatcher Request → ServerState Request → ServerDispatcher Request
  set_pending_request_state d state = record d { pending_request_state = state }

  unfoldable pub create_client : ServerDispatcher Request → String → ServerDispatcher Request
  unfolding get_or_create
  create_client d client_id =
      if d.running then record d { queue_map = (get_or_create d.queue_map client_id).0 } else d

  -- The requests that go with a removed queue.
  abbrev pub queued :
      Option (FifoClientQueue (RequestBundle Request)) → List (RequestBundle Request)
  queued none = []
  queued (some q) = q.elements

  unfoldable pub remove_queue : ServerDispatcher Request → String → ServerDispatcher Request
  unfolding remove get
  remove_queue d client_id = record d {
    queue_map = remove d.queue_map client_id;
    ended = note d.ended client_id (map dropped (ids (queued (get d.queue_map client_id))));
  }

  unfoldable pub notify : ServerDispatcher Request → String → Bool → ServerDispatcher Request
  notify d client_id delete_ack =
      if d.running
      then record d {
        request_channel =
            d.request_channel ++ record { client_id = client_id; delete_ack = delete_ack } ∷ [];
      }
      else d

  unfoldable pub delete_client : ServerDispatcher Request → String → ServerDispatcher Request
  unfolding remove_queue notify
  delete_client d client_id = notify (remove_queue d client_id) client_id false

  -- `DeleteClientAndWait` up to its wait for the acknowledgement.
  unfoldable pub delete_client_and_wait :
      ServerDispatcher Request → String → ServerDispatcher Request
  unfolding remove_queue notify
  delete_client_and_wait d client_id = notify (remove_queue d client_id) client_id true

  -- The cancel callback; a panic of it is recovered.
  unfoldable pub fire_request_cancel :
      ServerDispatcher Request → String → String → Option Request → Error → ServerDispatcher Request
  fire_request_cancel d client_id request_id request err = record d {
    ended = note d.ended client_id (
        (if d.on_request_cancel
          then ended_by (canceled request_id request (mark_local_transport_error err))
          else unreported request_id)
        ∷ []);
  }

  unfoldable pub pushed :
      FifoClientQueue (RequestBundle Request) × Bool
      → ServerDispatcher Request
      → String
      → RequestBundle Request
      → ServerDispatcher Request × Bool
  pushed (q, false) d client_id b = (d, false)
  pushed (q, true) d client_id b = (
    record d {
      queue_map = add d.queue_map client_id q;
      accepted = note d.accepted client_id (id_of b.call ∷ []);
    },
    true,
  )

  -- `SendRequest` up to its signal; the queue is written back into the map. A push into a queue that was
  -- deleted since it was looked up changes nothing here.
  unfoldable pub enqueue :
      ServerDispatcher Request → String → RequestBundle Request → ServerDispatcher Request × Bool
  unfolding push pushed get
  enqueue d client_id b =
      if d.has_network
      then elim (get d.queue_map client_id) [
        | none ↦ (d, false)
        | some q ↦ pushed (push q b) d client_id b
      ]
      else (d, false)

  -- The rest of it: `false` is the error "dispatcher not running".
  unfoldable pub signal : ServerDispatcher Request → String → ServerDispatcher Request × Bool
  unfolding notify
  signal d client_id = (notify d client_id false, d.running)

  -- `SendRequest` with nothing in between.
  unfoldable pub send_request :
      ServerDispatcher Request → String → RequestBundle Request → ServerDispatcher Request × Bool
  unfolding enqueue signal
  send_request d client_id b =
      let (d', pushed) = enqueue d client_id b in
      if pushed then signal d' client_id else (d', false)

  -- After `PopIf`: the queue is written back, and the winner deletes the pending request.
  unfoldable pub owned :
      FifoClientQueue (RequestBundle Request) × Option (RequestBundle Request)
      → ServerDispatcher Request
      → String
      → String
      → ServerDispatcher Request × Option (RequestBundle Request)
  unfolding add delete_client_pending_request
  owned (q, none) d client_id request_id = (d, none)
  owned (q, some b) d client_id request_id = (
    record d {
      queue_map = add d.queue_map client_id q;
      pending_request_state =
          delete_client_pending_request d.pending_request_state client_id request_id;
    },
    some b,
  )

  unfoldable pub complete_request_owned :
      ServerDispatcher Request
      → String
      → String
      → ServerDispatcher Request × Option (RequestBundle Request)
  unfolding pop_if owned get
  complete_request_owned d client_id request_id = elim (get d.queue_map client_id) [
    | none ↦ (d, none)
    | some q ↦ owned (pop_if q (has_id request_id)) d client_id request_id
  ]

  -- `CompleteRequest`: the winner signals that the next request may be sent.
  unfoldable pub complete_request :
      ServerDispatcher Request → String → String → ServerDispatcher Request × Bool
  unfolding complete_request_owned
  complete_request d client_id request_id =
      let (d', popped) = complete_request_owned d client_id request_id in
      elim popped [
        | none ↦ (d', false)
        | some b ↦ (
          record d' {
            ready_for_dispatch =
                d'.ready_for_dispatch
                ++ record { client_id = client_id; request_id = request_id } ∷ [];
          },
          true,
        )
      ]

  -- What `ocppMessageHandler` of ocppj/server.go does with a response or an error: the handler is
  -- called if this call completed the request.
  unfoldable pub receive : ServerDispatcher Request → String → String → ServerDispatcher Request
  unfolding complete_request
  receive d client_id request_id =
      let (d', won) = complete_request d client_id request_id in
      if won
      then record d' { ended = note d'.ended client_id (ended_by (responded request_id) ∷ []) }
      else d'
