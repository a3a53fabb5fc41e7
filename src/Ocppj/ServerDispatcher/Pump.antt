-- ===== src/Ocppj/ServerDispatcher/Pump.antt =====
-- The message pump of the server's dispatcher, ocppj/dispatcher.go: a round of its loop for each arm of its
-- `select`, with the loop that sends, its end, and the watchers. Nothing runs between the steps of a
-- round. A `World` is what the network answers to the client, and the contexts.
use ocpp_go.Base.{
  ℕ, suc, zero, ◌++◌, String, Bool, true, false, not, ◌&&◌, ◌||◌, Option, none, some, List, [], ◌∷◌,
  text_discrete, test, is_some, if◌then◌else◌, ltb, ℕ_discrete, length,
}
use ocpp_go.Dict.{Dict, lookup, insert, delete}
use ocpp_go.Ocpp.{
  Error, internal_error, new_request_timeout_error, new_request_canceled_error,
  new_dispatcher_stopped_error, new_local_transport_error,
}
use ocpp_go.Ocppj.Queue.{FifoClientQueue, peek, is_empty, drain_all}
use ocpp_go.Ocppj.QueueMap.{get, drain_all as drain_map}
use ocpp_go.Ocppj.State.{
  add_client_pending_request, has_client_pending_request, clear_all_pending_requests,
}
use ocpp_go.Ocppj.Bundle.{Call, RequestBundle, World, ctx_error}
use ocpp_go.Ocppj.ServerDispatcher.{
  DispatchRequest, ReadyToken, Watch, ServerDispatcher, note, queued, fire_request_cancel,
  complete_request_owned, dropped,
}

-- `dispatchStatus`
pub data DispatchStatus : Type 0 where
  dispatch_idle dispatch_written dispatch_completed_no_write : DispatchStatus

-- What `dispatchNextRequest` returns with the new state.
pub record Dispatched (Request : Type 0) : Type 0 where
  pub dispatcher : ServerDispatcher Request
  pub client_ctx : Option ℕ
  pub request_id : String
  pub user_ctx : Option ℕ
  pub status : DispatchStatus

-- The arms of the `select` but the stopped one, with what was received. `left` tells whether the queue
-- that an earlier round looked at holds a request by now.
pub data Arm : Type 0 where
  request_arm : DispatchRequest → Arm
  timer_arm : String → ℕ → Bool → Arm
  ready_arm : ReadyToken → Arm
  cancel_arm : String → String → String → Arm

-- After an arm: the loop continues, or goes on to the dispatch for a client, with whether there is a queue
-- that holds a request.
pub data Turn (Request : Type 0) : Type 0 where
  continues : ServerDispatcher Request → Turn Request
  goes_on : ServerDispatcher Request → String → Bool → Turn Request

-- Why a watcher woke up, and what it posts.
pub data Wakeup : Type 0 where
  deadline_exceeded client_ctx_canceled server_stopped : Wakeup
  user_ctx_done : String → Wakeup

unfoldable pub wait_for_timeout : Watch → Wakeup → Bool → Option Arm
wait_for_timeout w deadline_exceeded left = some (timer_arm w.client_id w.client_ctx left)
wait_for_timeout w client_ctx_canceled left = none
wait_for_timeout w server_stopped left = none
wait_for_timeout w (user_ctx_done cause) left = some (cancel_arm w.client_id w.request_id cause)

module _ {Request : Type 0} where
  -- `clientContextMap[clientID]`; a missing entry is the zero value.
  abbrev pub context_of : ServerDispatcher Request → String → Option ℕ
  context_of d client_id = elim (lookup client_id d.client_context_map) [ none ↦ none | some c ↦ c ]

  abbrev pub dispatched_id : ServerDispatcher Request → String → String
  dispatched_id d client_id = elim (lookup client_id d.dispatched_request_id_map) [
    | none ↦ ""
    | some id ↦ id
  ]

  abbrev pub filled : ServerDispatcher Request → String → Bool
  filled d client_id = elim (get d.queue_map client_id) [ none ↦ false | some q ↦ not (is_empty q) ]

  -- `if clientCtx.isActive() { clientCtx.cancel() }`
  unfoldable pub cancel_ctx : Option ℕ → ServerDispatcher Request → ServerDispatcher Request
  cancel_ctx none d = d
  cancel_ctx (some c) d = record d { canceled_ctxs = d.canceled_ctxs ++ c ∷ [] }

  -- The client's context is canceled, and its entries deleted.
  unfoldable pub forget : ServerDispatcher Request → String → ServerDispatcher Request
  unfolding cancel_ctx
  forget d client_id = record (cancel_ctx (context_of d client_id) d) {
    client_context_map = delete client_id d.client_context_map;
    dispatched_request_id_map = delete client_id d.dispatched_request_id_map;
  }

  -- The client's context is canceled, its entry is the zero value, and it has no dispatched request.
  unfoldable pub release : ServerDispatcher Request → String → ServerDispatcher Request
  unfolding cancel_ctx
  release d client_id = record (cancel_ctx (context_of d client_id) d) {
    client_context_map = insert client_id none d.client_context_map;
    dispatched_request_id_map = delete client_id d.dispatched_request_id_map;
  }

  unfoldable pub acknowledge : Bool → ServerDispatcher Request → String → ServerDispatcher Request
  acknowledge false d client_id = d
  acknowledge true d client_id = record d { acks = d.acks ++ client_id ∷ [] }

  unfoldable pub on_request : DispatchRequest → ServerDispatcher Request → Turn Request
  unfolding forget acknowledge get is_empty
  on_request r d = elim (get d.queue_map r.client_id) [
    | none ↦ continues (acknowledge r.delete_ack (forget d r.client_id) r.client_id)
    | some q ↦
        let d' = if r.delete_ack then acknowledge true (forget d r.client_id) r.client_id else d in
        goes_on (record d' { rdy = not (is_some (context_of d' r.client_id)) }) r.client_id
          (not (is_empty q))
  ]

  -- The cancel callback for a bundle that this round completed.
  unfoldable pub cancel_popped :
      ServerDispatcher Request
      → String
      → RequestBundle Request
      → (String → Error)
      → ServerDispatcher Request
  unfolding fire_request_cancel
  cancel_popped d client_id b err = elim b.call [
    | none ↦ d
    | some c ↦ fire_request_cancel d client_id c.unique_id c.payload (err c.unique_id)
  ]

  -- Its own context has timed out, and was released.
  unfoldable pub time_out : ServerDispatcher Request → String → String → Bool → Turn Request
  unfolding complete_request_owned cancel_popped has_client_pending_request get is_empty
  time_out d client_id request_id left =
      let (d', popped) = complete_request_owned d client_id request_id in
      if has_client_pending_request d.pending_request_state client_id
      then elim popped [
        | none ↦ continues d'
        | some b ↦
            goes_on (cancel_popped (record d' { rdy = true }) client_id b new_request_timeout_error)
              client_id (filled d' client_id)
      ]
      else elim (get d.queue_map client_id) [
        | none ↦ goes_on d client_id left
        | some q ↦ goes_on (record d { rdy = true }) client_id (not (is_empty q))
      ]

  -- A token of another context is stale.
  unfoldable pub on_timer : String → ℕ → Bool → ServerDispatcher Request → Turn Request
  unfolding release time_out
  on_timer client_id ctx left d =
      if elim (context_of d client_id) [ none ↦ false | some c ↦ test (ℕ_discrete c ctx) ]
      then time_out (release d client_id) client_id (dispatched_id d client_id) left
      else continues d

  unfoldable pub on_ready : ReadyToken → ServerDispatcher Request → Turn Request
  unfolding cancel_ctx get is_empty
  on_ready t d =
      let dispatched = dispatched_id d t.client_id in
      let context = context_of d t.client_id in
      let canceled = record (cancel_ctx context d) {
        client_context_map =
            if is_some context
            then insert t.client_id none d.client_context_map
            else d.client_context_map;
        dispatched_request_id_map = delete t.client_id d.dispatched_request_id_map;
      } in
      if not (test (text_discrete dispatched ""))
        && not (test (text_discrete dispatched t.request_id))
      then continues d
      else elim (get d.queue_map t.client_id) [
        | none ↦ goes_on canceled t.client_id false
        | some q ↦ goes_on (record canceled { rdy = true }) t.client_id (not (is_empty q))
      ]

  -- The context of the caller has fired, with the given error.
  unfoldable pub on_canceled : String → String → String → ServerDispatcher Request → Turn Request
  unfolding complete_request_owned release cancel_popped
  on_canceled client_id request_id cause d =
      let (d', popped) = complete_request_owned d client_id request_id in
      if test (text_discrete (dispatched_id d client_id) request_id)
      then elim popped [
        | none ↦ continues (record d' { rdy = false })
        | some b ↦
            goes_on
              (cancel_popped (record (release d' client_id) { rdy = true }) client_id b
                (λ id. new_request_canceled_error id (some cause)))
              client_id (filled d' client_id)
      ]
      else continues (record d { rdy = false })

  -- `if _, won := d.completeRequestOwned(…); won { d.fireRequestCancel(…) }`
  unfoldable pub complete_and_cancel :
      ServerDispatcher Request → String → Call Request → Error → ServerDispatcher Request
  unfolding complete_request_owned fire_request_cancel
  complete_and_cancel d client_id call err =
      let (d', popped) = complete_request_owned d client_id call.unique_id in
      elim popped [
        | none ↦ d'
        | some b ↦ fire_request_cancel d' client_id call.unique_id call.payload err
      ]

  abbrev pub dropped_with : DispatchStatus → ServerDispatcher Request → Dispatched Request
  dropped_with status d = record {
    dispatcher = d;
    client_ctx = none;
    request_id = "";
    user_ctx = none;
    status = status;
  }

  -- The write, after the request was made pending; a timeout or a caller's context needs a context.
  unfoldable pub write_request :
      Option String
      → ServerDispatcher Request
      → String
      → Call Request
      → Option ℕ
      → Dispatched Request
  unfolding complete_and_cancel
  write_request (some err) d client_id call user_ctx = dropped_with dispatch_completed_no_write (
      complete_and_cancel d client_id call
        (new_local_transport_error internal_error err call.unique_id))
  write_request none d client_id call user_ctx =
      let watched = ltb 0 d.timeout || is_some user_ctx in
      record {
        dispatcher = record d {
          wire = note d.wire client_id (call.unique_id ∷ []);
          next_ctx = if watched then suc d.next_ctx else d.next_ctx;
        };
        client_ctx = if watched then some d.next_ctx else none;
        request_id = call.unique_id;
        user_ctx = user_ctx;
        status = dispatch_written;
      }

  -- Past the checks of the bundle: drop it if its context has fired, or else write it.
  unfoldable pub dispatch_bundle :
      Option String
      → World
      → ServerDispatcher Request
      → String
      → Call Request
      → String
      → Option ℕ
      → Dispatched Request
  unfolding write_request complete_and_cancel add_client_pending_request
  dispatch_bundle (some cause) w d client_id call message user_ctx =
      dropped_with dispatch_completed_no_write (
        complete_and_cancel d client_id call
          (new_request_canceled_error call.unique_id (some cause)))
  dispatch_bundle none w d client_id call message user_ctx =
      write_request (w.write message)
        (record d {
          pending_request_state =
              add_client_pending_request d.pending_request_state client_id call.unique_id
                call.payload;
        })
        client_id call user_ctx

  unfoldable pub dispatch_front :
      Option (RequestBundle Request)
      → World
      → ServerDispatcher Request
      → String
      → Dispatched Request
  unfolding dispatch_bundle
  dispatch_front none w d client_id = dropped_with dispatch_idle d
  dispatch_front (some b) w d client_id = elim b.call [
    | none ↦ dropped_with dispatch_idle d
    | some call ↦ elim b.bytes [
      | none ↦ dropped_with dispatch_idle d
      | some message ↦ dispatch_bundle (ctx_error w b.ctx) w d client_id call message b.ctx
    ]
  ]

  unfoldable pub dispatch_next_request :
      World → ServerDispatcher Request → String → Dispatched Request
  unfolding dispatch_front peek get
  dispatch_next_request w d client_id = elim (get d.queue_map client_id) [
    | none ↦ dropped_with dispatch_idle d
    | some q ↦ dispatch_front (peek q) w d client_id
  ]

  unfoldable pub after_dispatch : Dispatched Request → String → ServerDispatcher Request
  unfolding has_client_pending_request
  after_dispatch r client_id =
      let d = r.dispatcher in
      record d {
        client_context_map = insert client_id r.client_ctx d.client_context_map;
        dispatched_request_id_map =
            if not (test (text_discrete r.request_id ""))
              && has_client_pending_request d.pending_request_state client_id
            then insert client_id r.request_id d.dispatched_request_id_map
            else delete client_id d.dispatched_request_id_map;
        watchers = d.watchers ++ elim r.client_ctx [
          | none ↦ []
          | some c ↦
              record {
                client_id = client_id;
                request_id = r.request_id;
                client_ctx = c;
                user_ctx = r.user_ctx;
              }
              ∷ []
        ];
        rdy = false;
      }

  -- The loop that sends, on fuel, and whether it came to its end.
  unfoldable pub dispatch_loop :
      ℕ → World → ServerDispatcher Request → String → ServerDispatcher Request × Bool
  unfolding dispatch_next_request after_dispatch
  dispatch_loop zero w d client_id = (d, false)
  dispatch_loop (suc fuel) w d client_id =
      let r = dispatch_next_request w d client_id in
      let d' = after_dispatch r client_id in
      let rest = dispatch_loop fuel w d' client_id in
      elim r.status [
        | dispatch_idle ↦ (d', true)
        | dispatch_written ↦ (d', true)
        | dispatch_completed_no_write ↦ if filled d' client_id then rest else (d', true)
      ]

  -- A turn more than there are requests.
  abbrev pub enough : ServerDispatcher Request → String → ℕ
  enough d client_id = suc (length (queued (get d.queue_map client_id)))

  -- The end of a round.
  unfoldable pub try_dispatch : World → Turn Request → ServerDispatcher Request
  unfolding dispatch_loop has_client_pending_request get
  try_dispatch w (continues d) = d
  try_dispatch w (goes_on d client_id holds) =
      if d.rdy && (holds && not (has_client_pending_request d.pending_request_state client_id))
      then (dispatch_loop (enough d client_id) w d client_id).0
      else d

  unfoldable pub take_arm : Arm → ServerDispatcher Request → Turn Request
  unfolding on_request on_timer on_ready on_canceled
  take_arm (request_arm r) d = on_request r d
  take_arm (timer_arm client_id ctx left) d = on_timer client_id ctx left d
  take_arm (ready_arm t) d = on_ready t d
  take_arm (cancel_arm client_id request_id cause) d = on_canceled client_id request_id cause d

  unfoldable pub round : World → Arm → ServerDispatcher Request → ServerDispatcher Request
  unfolding take_arm try_dispatch
  round w arm d = try_dispatch w (take_arm arm d)

  -- A request when the pump stops. One whose payload is nil is passed over, and goes with its queue.
  unfoldable pub cancel_outstanding :
      ServerDispatcher Request → String → Option (Call Request) → ServerDispatcher Request
  unfolding fire_request_cancel
  cancel_outstanding d client_id none = d
  cancel_outstanding d client_id (some c) = elim c.payload [
    | none ↦ record d { ended = note d.ended client_id (dropped c.unique_id ∷ []) }
    | some request ↦
        fire_request_cancel d client_id c.unique_id (some request)
          (new_dispatcher_stopped_error c.unique_id)
  ]

  -- The requests of one queue.
  unfoldable pub cancel_stopped :
      ServerDispatcher Request → String → List (RequestBundle Request) → ServerDispatcher Request
  unfolding cancel_outstanding
  cancel_stopped d client_id [] = d
  cancel_stopped d client_id (b ∷ outstanding) =
      cancel_stopped (cancel_outstanding d client_id b.call) client_id outstanding

  unfoldable pub cancel_all :
      ServerDispatcher Request
      → Dict (FifoClientQueue (RequestBundle Request))
      → ServerDispatcher Request
  unfolding cancel_stopped drain_all
  cancel_all d [] = d
  cancel_all d ((client_id, q) ∷ detached) =
      cancel_all (cancel_stopped d client_id (drain_all q).1) detached

  -- The stopped arm: the pump's last act.
  unfoldable pub shut_down : ServerDispatcher Request → ServerDispatcher Request
  unfolding cancel_all drain_map clear_all_pending_requests
  shut_down d =
      let (queue_map, detached) = drain_map d.queue_map in
      record (cancel_all
        (record d {
          queue_map = queue_map;
          pending_request_state = clear_all_pending_requests d.pending_request_state;
        })
        detached) { pumping = false }
