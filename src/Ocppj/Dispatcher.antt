-- ===== src/Ocppj/Dispatcher.antt =====
-- ocppj/dispatcher.go, the client's half: `DefaultClientDispatcher`. The state holds the channels, the
-- timer and the variables of the message pump; a method is a function on it, so is a round of the pump
-- (`Ocppj/Dispatcher/Pump`), and `Ocppj/Dispatcher/Steps` interleaves them. What goes out is kept in
-- three lists: requests taken in, messages written, and how each request ended.
--
-- The request channel counts its buffered token together with the senders that wait to put theirs in,
-- whose only act left is that send.
pub mod Pump
pub mod Invariant
pub mod Dispatching
pub mod Stopping
pub mod Sending
pub mod Steps
pub mod Wakeups
pub mod Dispatches
pub mod Sends
pub mod Alerts
pub mod Progress
mod Tests
use ocpp_go.Base.{
  ℕ, suc, ◌-◌, String, Bool, true, false, not, ◌&&◌, Option, none, some, List, [], ◌∷◌, ◌++◌,
  text_discrete, test, is_some, if◌then◌else◌, ltb,
}
use ocpp_go.Ocpp.{Error, mark_local_transport_error}
use ocpp_go.Ocppj.Queue.{FifoClientQueue, push, pop_if}
use ocpp_go.Ocppj.State.{ClientState, new_client_state, delete_pending_request, has_pending_request}
use ocpp_go.Ocppj.Bundle.{
  Call, RequestBundle, Outcome, responded, canceled, default_timeout_tick, default_message_timeout,
  has_id,
}

-- `pumpPending`; the zero value has the empty ID.
pub record PumpPending (Request : Type 0) : Type 0 where
  pub id : String
  pub action : String
  pub ctx : Option ℕ
  pub payload : Option Request

-- The period that it was last reset to, and whether a tick lies in its channel.
pub record Timer : Type 0 where
  pub period : ℕ
  pub fired : Bool

pub record Dispatcher (Request : Type 0) : Type 0 where
  pub request_queue : FifoClientQueue (RequestBundle Request)
  pub tokens : ℕ
  pub closed : Bool
  pub ready_for_dispatch : Bool
  pub running : Bool
  pub pending_request_state : ClientState Request
  pub has_network : Bool
  pub on_request_cancel : Bool
  pub timer : Timer
  pub paused : Bool
  pub timeout : ℕ
  pub timeout_on_pause : Bool
  -- the pump's own variables; `pumping` until it returns
  pub pumping : Bool
  pub rdy : Bool
  pub pending : PumpPending Request
  -- senders between their push and their signal
  pub senders : ℕ
  pub accepted : List String
  pub wire : List String
  pub outcomes : List (Outcome Request)

-- A timer that was stopped, drained and reset.
abbrev pub stopped_timer : ℕ → Timer
stopped_timer period = record { period = period; fired = false }

module _ {Request : Type 0} where
  abbrev pub no_pending : PumpPending Request
  no_pending = record { id = ""; action = ""; ctx = none; payload = none }

  -- The cancel callback; a panic of it is recovered.
  unfoldable pub fire_request_cancel :
      Dispatcher Request → String → Option Request → Error → Dispatcher Request
  fire_request_cancel d request_id request err =
      if d.on_request_cancel
      then record d {
        outcomes = d.outcomes ++ canceled request_id request (mark_local_transport_error err) ∷ [];
      }
      else d

  -- After `PopIf`: the winner deletes the pending request and signals, without blocking.
  unfoldable pub completed :
      Option (RequestBundle Request) → Dispatcher Request → String → Dispatcher Request × Bool
  completed none d request_id = (d, false)
  completed (some b) d request_id = (
    record d {
      pending_request_state = delete_pending_request d.pending_request_state request_id;
      ready_for_dispatch = true;
    },
    true,
  )

  unfoldable pub complete_request : Dispatcher Request → String → Dispatcher Request × Bool
  unfolding completed
  complete_request d request_id =
      let (q, popped) = pop_if d.request_queue (has_id request_id) in
      completed popped (record d { request_queue = q }) request_id

  -- `if d.CompleteRequest(id) { d.fireRequestCancel(…) }`
  unfoldable pub complete_and_cancel :
      Dispatcher Request → String → Option Request → Error → Dispatcher Request
  unfolding complete_request fire_request_cancel
  complete_and_cancel d request_id request err =
      let (d', won) = complete_request d request_id in
      if won then fire_request_cancel d' request_id request err else d'

  -- The queue was full, or it holds the bundle.
  unfoldable pub pushed :
      FifoClientQueue (RequestBundle Request) × Bool
      → Dispatcher Request
      → RequestBundle Request
      → Dispatcher Request × Bool
  pushed (q, false) d b = (d, false)
  pushed (q, true) d b = (
    record d {
      request_queue = q;
      senders = suc d.senders;
      accepted = d.accepted ++ elim b.call [ none ↦ [] | some c ↦ c.unique_id ∷ [] ];
    },
    true,
  )

  -- `SendRequest` up to its signal: an error, or a sender that goes on to signal.
  unfoldable pub enqueue : Dispatcher Request → RequestBundle Request → Dispatcher Request × Bool
  unfolding push pushed
  enqueue d b = if d.has_network then pushed (push d.request_queue b) d b else (d, false)

  -- The rest of it, under the read lock: `false` is the error "dispatcher not running".
  unfoldable pub signal : Dispatcher Request → Dispatcher Request × Bool
  signal d =
      if d.running
      then (record d { senders = d.senders - 1; tokens = suc d.tokens }, true)
      else (record d { senders = d.senders - 1 }, false)

  -- `SendRequest` with nothing in between.
  unfoldable pub send_request :
      Dispatcher Request → RequestBundle Request → Dispatcher Request × Bool
  unfolding enqueue signal
  send_request d b = let (d', pushed) = enqueue d b in if pushed then signal d' else (d', false)

  unfoldable pub new_default_client_dispatcher :
      FifoClientQueue (RequestBundle Request) → Dispatcher Request
  unfolding new_client_state
  new_default_client_dispatcher queue = record {
    request_queue = queue;
    tokens = 0;
    closed = false;
    ready_for_dispatch = false;
    running = false;
    pending_request_state = new_client_state;
    has_network = false;
    on_request_cancel = false;
    timer = stopped_timer default_timeout_tick;
    paused = false;
    timeout = default_message_timeout;
    timeout_on_pause = false;
    pumping = false;
    rdy = true;
    pending = no_pending;
    senders = 0;
    accepted = [];
    wire = [];
    outcomes = [];
  }

  unfoldable pub set_on_request_canceled : Dispatcher Request → Bool → Dispatcher Request
  set_on_request_canceled d cb = record d { on_request_cancel = cb }

  unfoldable pub set_network_client : Dispatcher Request → Bool → Dispatcher Request
  set_network_client d client = record d { has_network = client }

  unfoldable pub set_timeout : Dispatcher Request → ℕ → Dispatcher Request
  set_timeout d timeout = record d { timeout = timeout }

  unfoldable pub set_timeout_on_pause : Dispatcher Request → Bool → Dispatcher Request
  set_timeout_on_pause d enabled = record d { timeout_on_pause = enabled }

  unfoldable pub set_pending_request_state :
      Dispatcher Request → ClientState Request → Dispatcher Request
  set_pending_request_state d state = record d { pending_request_state = state }

  -- The request channel is there from `Start` to the end of the pump.
  unfoldable pub is_running : Dispatcher Request → Bool
  is_running d = d.pumping

  unfoldable pub is_paused : Dispatcher Request → Bool
  is_paused d = d.paused

  unfoldable pub start : Dispatcher Request → Dispatcher Request
  start d = record d {
    tokens = 0;
    closed = false;
    running = true;
    timer = stopped_timer default_timeout_tick;
    pumping = true;
    rdy = true;
    pending = no_pending;
  }

  -- `Stop` up to its wait for the pump.
  unfoldable pub stop : Dispatcher Request → Dispatcher Request
  stop d = if d.running then record d { running = false; closed = true } else d

  unfoldable pub pause : Dispatcher Request → Dispatcher Request
  pause d = record d {
    timer =
        stopped_timer
          (if d.timeout_on_pause && ltb 0 d.timeout then d.timeout else default_timeout_tick);
    paused = true;
  }

  unfoldable pub resume : Dispatcher Request → Dispatcher Request
  unfolding has_pending_request
  resume d =
      if has_pending_request d.pending_request_state
      then record d { paused = false; timer = stopped_timer d.timeout }
      else record d { paused = false; ready_for_dispatch = true }

  -- What `ocppMessageHandler` of ocppj/client.go does with a response or an error: the handler is
  -- called if this call completed the request.
  unfoldable pub receive : Dispatcher Request → String → Dispatcher Request
  unfolding complete_request
  receive d request_id =
      let (d', won) = complete_request d request_id in
      if won then record d' { outcomes = d'.outcomes ++ responded request_id ∷ [] } else d'
