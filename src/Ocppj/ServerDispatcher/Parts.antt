-- ===== src/Ocppj/ServerDispatcher/Parts.antt =====
-- What a write for one client of the server's dispatcher, ocppj/dispatcher.go, leaves in the queues, the
-- ledgers and the pending requests of that client and of another.
use ocpp_go.Base.{
  String, Option, ite, ◌≡◌, ◌≢◌, refl, none, some, List, ◌++◌, if_pos, if_neg, arith, text_discrete,
  ap, ◌∙◌,
}
use ocpp_go.Dict.{lookup-insert, lookup-delete}
use ocpp_go.Ocppj.Queue.{FifoClientQueue}
use ocpp_go.Ocppj.QueueMap.{FifoQueueMap, get, add, remove}
use ocpp_go.Ocppj.State.{
  ClientState, new_client_state, ServerState, add_pending_request, delete_pending_request,
  delete_client_pending_request, add_client_pending_request, clear_client_pending_request,
}
use ocpp_go.Ocppj.State.Clients.{state_of, or_new, add-state_of, delete-state_of}
use ocpp_go.Ocppj.ServerDispatcher.{note}

module _ {A : Type 0} where
  pub get-add :
      (f : FifoQueueMap A) (c : String) (q : FifoClientQueue A) → get (add f c q) c ≡ some q
  unfolding get add
  get-add f c q = lookup-insert c c q f.queues ∙ if_pos (text_discrete c c) refl _ _

  pub get-add_other :
      (f : FifoQueueMap A) (c c' : String) (q : FifoClientQueue A)
      → c ≢ c'
      → get (add f c q) c' ≡ get f c'
  unfolding get add
  get-add_other f c c' q n = lookup-insert c c' q f.queues ∙ if_neg (text_discrete c c') n _ _

  pub get-remove : (f : FifoQueueMap A) (c : String) → get (remove f c) c ≡ none
  unfolding get remove
  get-remove f c = lookup-delete c c f.queues ∙ if_pos (text_discrete c c) refl _ _

  pub get-remove_other :
      (f : FifoQueueMap A) (c c' : String) → c ≢ c' → get (remove f c) c' ≡ get f c'
  unfolding get remove
  get-remove_other f c c' n = lookup-delete c c' f.queues ∙ if_neg (text_discrete c c') n _ _

  pub note_own :
      (ledger : String → List A) (c : String) (xs : List A) → note ledger c xs c ≡ ledger c ++ xs
  note_own ledger c xs = if_pos (text_discrete c c) refl _ _

  pub note_other :
      (ledger : String → List A) (c c' : String) (xs : List A)
      → c ≢ c'
      → note ledger c xs c' ≡ ledger c'
  note_other ledger c c' xs n = if_neg (text_discrete c c') n _ _

module _ {Request : Type 0} where
  deleted :
      (s : ClientState Request) (id : String)
      → (delete_pending_request s id).request_id
        ≡ ite (text_discrete s.request_id id) "" s.request_id
  unfolding delete_pending_request
  deleted s id = ground arith

  pub delete_own :
      (s : ServerState Request) (c id : String)
      → (state_of (delete_client_pending_request s c id) c).request_id
        ≡ ite (text_discrete (state_of s c).request_id id) "" (state_of s c).request_id
  delete_own s c id =
      ap (λ t. t.request_id) (delete-state_of s c id c ∙ if_pos (text_discrete c c) refl _ _)
      ∙ deleted (state_of s c) id

  pub delete_other :
      (s : ServerState Request) (c c' id : String)
      → c ≢ c'
      → (state_of (delete_client_pending_request s c id) c').request_id ≡ (state_of s c').request_id
  delete_other s c c' id n =
      ap (λ t. t.request_id) (delete-state_of s c id c' ∙ if_neg (text_discrete c c') n _ _)

  added :
      (s : ClientState Request) (id : String) (req : Option Request)
      → s.request_id ≡ ""
      → (add_pending_request s id req).request_id ≡ id
  unfolding add_pending_request
  added s id req idle = ground arith

  pub add_own :
      (s : ServerState Request) (c id : String) (req : Option Request)
      → (state_of s c).request_id ≡ ""
      → (state_of (add_client_pending_request s c id req) c).request_id ≡ id
  add_own s c id req idle =
      ap (λ t. t.request_id) (add-state_of s c id req c ∙ if_pos (text_discrete c c) refl _ _)
      ∙ added (state_of s c) id req idle

  pub add_other :
      (s : ServerState Request) (c c' id : String) (req : Option Request)
      → c ≢ c'
      → (state_of (add_client_pending_request s c id req) c').request_id
        ≡ (state_of s c').request_id
  add_other s c c' id req n =
      ap (λ t. t.request_id) (add-state_of s c id req c' ∙ if_neg (text_discrete c c') n _ _)

  pub clear_own :
      (s : ServerState Request) (c : String)
      → (state_of (clear_client_pending_request s c) c).request_id ≡ ""
  unfolding clear_client_pending_request new_client_state
  clear_own s c =
      ap (λ o. (or_new o).request_id)
        (lookup-delete c c s.pending_request_state ∙ if_pos (text_discrete c c) refl _ _)

  pub clear_other :
      (s : ServerState Request) (c c' : String)
      → c ≢ c'
      → (state_of (clear_client_pending_request s c) c').request_id ≡ (state_of s c').request_id
  unfolding clear_client_pending_request
  clear_other s c c' n =
      ap (λ o. (or_new o).request_id)
        (lookup-delete c c' s.pending_request_state ∙ if_neg (text_discrete c c') n _ _)
