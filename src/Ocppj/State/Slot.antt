-- ===== src/Ocppj/State/Slot.antt =====
-- ocppj/state.go against what it promises: at most one pending request, with its ID.
use ocpp_go.Base.{String, ◌≡◌, ◌≢◌, ite, false, Option, none, some, arith, text_discrete, is_some}
use ocpp_go.Ocppj.State.{
  ClientState, add_pending_request, get_pending_request, delete_pending_request,
  clear_pending_requests, has_pending_request,
}

module _ {Request : Type 0} where
  -- The slot that a state stands for.
  abbrev pub slot : ClientState Request → Option (String × Option Request)
  slot s = ite (text_discrete s.request_id "") none (some (s.request_id, s.pending_request))

  abbrev pub get : Option (String × Option Request) → String → Option (Option Request)
  get none request_id = none
  get (some (id, req)) request_id = ite (text_discrete id request_id) (some req) none

  abbrev pub add :
      Option (String × Option Request) → String → Option Request → Option (String × Option Request)
  add none request_id req = some (request_id, req)
  add (some p) request_id req = some p

  abbrev pub remove : Option (String × Option Request) → String → Option (String × Option Request)
  remove none request_id = none
  remove (some (id, req)) request_id = ite (text_discrete id request_id) none (some (id, req))

  -- For request IDs that are not empty each method of clientState does to the slot what it
  -- promises: a request is added to an empty slot alone, found and removed by its own ID alone,
  -- and there is a pending request exactly when the slot is full.
  pub slot_refines :
      (s : ClientState Request) (request_id : String) (req : Option Request)
      → request_id ≢ ""
      → (slot (add_pending_request s request_id req) ≡ add (slot s) request_id req)
        × (get_pending_request s request_id ≡ get (slot s) request_id)
        × (slot (delete_pending_request s request_id) ≡ remove (slot s) request_id)
        × (slot (clear_pending_requests s) ≡ none)
        × (has_pending_request s ≡ is_some (slot s))
  unfolding add_pending_request get_pending_request delete_pending_request clear_pending_requests
      has_pending_request
  slot_refines s request_id req ne =
      (ground arith, ground arith, ground arith, ground arith, ground arith)

  -- Asked for the empty ID, a clientState without a pending request answers that there is one,
  -- with the last request that was pending or with nil.
  pub get_pending_request_empty :
      (s : ClientState Request)
      → has_pending_request s ≡ false
      → get_pending_request s "" ≡ some s.pending_request
  unfolding get_pending_request has_pending_request
  get_pending_request_empty s h = ground arith
