-- ===== src/Ocppj/State/Clients.antt =====
-- ocppj/state.go: the clients of a `serverState` do not touch one another's pending requests.
use ocpp_go.Base.{
  String, [], ◌∷◌, ◌≡◌, refl, ite, Bool, true, false, ◌⊎◌, Bool-cases, Option, none, some, arith,
  text_discrete, ap, ◌∙◌, Option-cases, inl, inr,
}
use ocpp_go.Dict.{Dict, IsMap, lookup, lookup-insert, lookup-delete, lookup_of_Lacks}
use ocpp_go.Ocppj.State.{
  ClientState, new_client_state, add_pending_request, delete_pending_request, has_pending_request,
  ServerState, put, get_or_create_state, add_client_pending_request, delete_client_pending_request,
  has_client_pending_request, get_client_state, any_pending, has_pending_requests,
  clear_client_pending_request, clear_all_pending_requests,
}

module _ {Request : Type 0} where
  abbrev pub or_new : Option (ClientState Request) → ClientState Request
  or_new none = new_client_state
  or_new (some s) = s

  -- The state of a client: a new one where the map has none.
  abbrev pub state_of : ServerState Request → String → ClientState Request
  state_of d client_id = or_new (lookup client_id d.pending_request_state)

  put-state_of :
      (d : ServerState Request) (client_id : String) (s : ClientState Request) (c : String)
      → state_of (put d client_id s) c ≡ ite (text_discrete client_id c) s (state_of d c)
  unfolding put
  put-state_of d client_id s c = ground (arith, lookup-insert client_id c s d.pending_request_state)

  pub create-state_of :
      (d : ServerState Request) (client_id c : String)
      → let (d', s) = get_or_create_state d client_id in
        (s ≡ state_of d client_id) × (state_of d' c ≡ state_of d c)
  unfolding get_or_create_state
  create-state_of d client_id c = (
    ground arith,
    ground (arith, lookup-insert client_id c new_client_state d.pending_request_state),
  )

  pub add-state_of :
      (d : ServerState Request) (client_id request_id : String) (req : Option Request) (c : String)
      → state_of (add_client_pending_request d client_id request_id req) c
        ≡ ite
            (text_discrete client_id c)
            (add_pending_request (state_of d client_id) request_id req)
            (state_of d c)
  unfolding add_client_pending_request
  add-state_of d client_id request_id req c =
      let (d', s) = get_or_create_state d client_id in
      let (e, f) = create-state_of d client_id c in
      put-state_of d' client_id (add_pending_request s request_id req) c
      ∙ ap
          (λ t.
            ite (text_discrete client_id c) (add_pending_request t request_id req) (state_of d' c))
          e
      ∙ ap
          (λ t.
            ite (text_discrete client_id c)
              (add_pending_request (state_of d client_id) request_id req) t)
          f

  pub delete-state_of :
      (d : ServerState Request) (client_id request_id c : String)
      → state_of (delete_client_pending_request d client_id request_id) c
        ≡ ite
            (text_discrete client_id c)
            (delete_pending_request (state_of d client_id) request_id)
            (state_of d c)
  unfolding delete_client_pending_request new_client_state
  delete-state_of d client_id request_id c =
      elim (Option-cases (lookup client_id d.pending_request_state)) [
        | inl e ↦ ground arith
        | inr (s, e) ↦
            ground (arith, put-state_of d client_id (delete_pending_request s request_id) c)
      ]

  -- `HasPendingRequest` of a client, on the map.
  abbrev pending_in : Dict (ClientState Request) → String → Bool
  pending_in m c = elim (lookup c m) [ none ↦ false | some s ↦ has_pending_request s ]

  -- Whether a client has a pending request: one that has, or that none has.
  abbrev IsFound : Dict (ClientState Request) → Bool → Type 0
  IsFound m found =
      ((found ≡ true) × (c : String) × (pending_in m c ≡ true))
      ⊎ ((found ≡ false) × ((c : String) → pending_in m c ≡ false))

  any_pending-IsFound : (m : Dict (ClientState Request)) → IsMap m → IsFound m (any_pending m)
  unfolding any_pending lookup
  any_pending-IsFound [] h = inr (refl, λ c. refl)
  any_pending-IsFound ((k, s) ∷ m) (l, h) = elim (Bool-cases (has_pending_request s)) [
    | inl p ↦ inl (rw p refl, k, ground (arith, p))
    | inr p ↦ elim (any_pending-IsFound m h) [
      | inl (e, c, q) ↦ inl (rw (p, e) refl, c, ground (arith, p, q, lookup_of_Lacks k m l))
      | inr (e, none_pending) ↦ inr (rw (p, e) refl, λ c. ground (arith, p, none_pending c))
    ]
  ]

  get-state_of :
      (d : ServerState Request) (client_id c : String)
      → let (d', s) = get_client_state d client_id in
        (s ≡ state_of d client_id)
        × (lookup client_id d'.pending_request_state ≡ some s)
        × (state_of d' c ≡ state_of d c)
  unfolding get_client_state get_or_create_state put
  get-state_of d client_id c =
      let (e, f) = create-state_of d client_id c in
      (
        e,
        ground (arith, lookup-insert client_id client_id new_client_state d.pending_request_state),
        f,
      )

  -- Where each client stands once in the map, each method of serverState acts on the state of its
  -- client as the clientState method does and leaves the state of every other client as it was;
  -- GetClientState returns the client's state, a new one where there was none, and the map holds
  -- it then; a client is pending exactly when its own state is, and HasPendingRequests tells
  -- whether there is a client that is; clearing a client, or all of them, leaves them with new
  -- states.
  pub clients_apart :
      (d : ServerState Request) (client_id request_id : String) (req : Option Request) (c : String)
      → IsMap d.pending_request_state
      → (state_of (add_client_pending_request d client_id request_id req) c
          ≡ ite
              (text_discrete client_id c)
              (add_pending_request (state_of d client_id) request_id req)
              (state_of d c))
        × (state_of (delete_client_pending_request d client_id request_id) c
            ≡ ite
                (text_discrete client_id c)
                (delete_pending_request (state_of d client_id) request_id)
                (state_of d c))
        × ((get_client_state d client_id).1 ≡ state_of d client_id)
        × (lookup client_id (get_client_state d client_id).0.pending_request_state
            ≡ some (state_of d client_id))
        × (state_of (get_client_state d client_id).0 c ≡ state_of d c)
        × (has_client_pending_request d c ≡ has_pending_request (state_of d c))
        × (((has_pending_requests d ≡ true)
              × (j : String) × (has_client_pending_request d j ≡ true))
            ⊎ ((has_pending_requests d ≡ false)
                × ((j : String) → has_client_pending_request d j ≡ false)))
        × (state_of (clear_client_pending_request d client_id) c
            ≡ ite (text_discrete client_id c) new_client_state (state_of d c))
        × (state_of (clear_all_pending_requests d) c ≡ new_client_state)
  unfolding has_client_pending_request has_pending_requests clear_client_pending_request
      clear_all_pending_requests new_client_state lookup
  clients_apart d client_id request_id req c h =
      let (returned, stored, kept) = get-state_of d client_id c in
      (
        add-state_of d client_id request_id req c,
        delete-state_of d client_id request_id c,
        returned,
        stored ∙ ap some returned,
        kept,
        ground arith,
        any_pending-IsFound d.pending_request_state h,
        ground (arith, lookup-delete client_id c d.pending_request_state),
        refl,
      )
