-- ===== src/Ocppj/State.antt =====
-- ocppj/state.go: the request that waits for its response. A `clientState` holds one; a `serverState`
-- one for each client. A mutex makes each method one step. `Request` stands for an `ocpp.Request`
-- that is not nil, and `none` for nil, which the field holds at first.
pub mod Slot
pub mod Clients
use ocpp_go.Base.{
  String, ite, Bool, true, false, not, Option, none, some, List, [], ◌∷◌, ◌||◌, text_discrete, test,
}
use ocpp_go.Dict.{Dict, lookup, insert, delete}

pub record ClientState (Request : Type 0) : Type 0 where
  pub request_id : String
  pub pending_request : Option Request

module _ {Request : Type 0} where
  unfoldable pub new_client_state : ClientState Request
  new_client_state = record { request_id = ""; pending_request = none }

  unfoldable pub add_pending_request :
      ClientState Request → String → Option Request → ClientState Request
  add_pending_request s request_id req = ite (text_discrete request_id "") s (
      ite (text_discrete s.request_id "")
        (record { request_id = request_id; pending_request = req }) s)

  -- `none` is the `false` of the method; the request in a `some` may be Go's nil.
  unfoldable pub get_pending_request : ClientState Request → String → Option (Option Request)
  get_pending_request s request_id =
      ite (text_discrete s.request_id request_id) (some s.pending_request) none

  unfoldable pub delete_pending_request : ClientState Request → String → ClientState Request
  delete_pending_request s request_id =
      ite (text_discrete s.request_id request_id) (record s { request_id = "" }) s

  unfoldable pub clear_pending_requests : ClientState Request → ClientState Request
  clear_pending_requests s = record s { request_id = "" }

  unfoldable pub has_pending_request : ClientState Request → Bool
  has_pending_request s = not (test (text_discrete s.request_id ""))

-- The map holds pointers to client states; each is reached through the map only, so it is the state.
pub record ServerState (Request : Type 0) : Type 0 where
  pub pending_request_state : Dict (ClientState Request)

module _ {Request : Type 0} where
  unfoldable pub new_server_state : ServerState Request
  new_server_state = record { pending_request_state = [] }

  put : ServerState Request → String → ClientState Request → ServerState Request
  put d client_id s = record d {
    pending_request_state = insert client_id s d.pending_request_state;
  }

  unfoldable pub get_or_create_state :
      ServerState Request → String → ServerState Request × ClientState Request
  unfolding new_client_state put
  get_or_create_state d client_id = elim (lookup client_id d.pending_request_state) [
    | none ↦ (put d client_id new_client_state, new_client_state)
    | some s ↦ (d, s)
  ]

  -- The read-locked first look finds what the second would.
  unfoldable pub get_client_state :
      ServerState Request → String → ServerState Request × ClientState Request
  unfolding get_or_create_state
  get_client_state d client_id = get_or_create_state d client_id

  unfoldable pub add_client_pending_request :
      ServerState Request → String → String → Option Request → ServerState Request
  unfolding get_or_create_state put add_pending_request
  add_client_pending_request d client_id request_id req =
      let (d', s) = get_or_create_state d client_id in
      put d' client_id (add_pending_request s request_id req)

  unfoldable pub delete_client_pending_request :
      ServerState Request → String → String → ServerState Request
  unfolding put delete_pending_request
  delete_client_pending_request d client_id request_id =
      elim (lookup client_id d.pending_request_state) [
        | none ↦ d
        | some s ↦ put d client_id (delete_pending_request s request_id)
      ]

  unfoldable pub has_client_pending_request : ServerState Request → String → Bool
  unfolding has_pending_request
  has_client_pending_request d client_id = elim (lookup client_id d.pending_request_state) [
    | none ↦ false
    | some s ↦ has_pending_request s
  ]

  -- The loop of `HasPendingRequests`, up to the first hit.
  unfoldable pub any_pending : Dict (ClientState Request) → Bool
  unfolding has_pending_request
  any_pending [] = false
  any_pending ((_, s) ∷ states) = has_pending_request s || any_pending states

  unfoldable pub has_pending_requests : ServerState Request → Bool
  unfolding any_pending
  has_pending_requests d = any_pending d.pending_request_state

  unfoldable pub clear_client_pending_request : ServerState Request → String → ServerState Request
  clear_client_pending_request d client_id = record d {
    pending_request_state = delete client_id d.pending_request_state;
  }

  unfoldable pub clear_all_pending_requests : ServerState Request → ServerState Request
  clear_all_pending_requests d = record d { pending_request_state = [] }
