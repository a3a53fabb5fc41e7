-- ===== src/Ocppj/ServerDispatcher/Steps.antt =====
-- Interleavings of the server's dispatcher, ocppj/dispatcher.go: the methods, the arrival of answers and the
-- rounds of the message pump, in any order and for any clients.
use ocpp_go.Base.{
  IsSublist, IsSublist-append, ℕ, String, ◌≡◌, ◌≢◌, refl, ◌⊎◌, inl, inr, Bool, true, false, none,
  some, List, [], ◌∷◌, ◌++◌, ap, ◌∙◌, sym, subst, append_assoc, append-nil,
}
use ocpp_go.Dict.{IsMap, lookup}
use ocpp_go.Ocppj.QueueMap.{get, new_fifo_queue_map}
use ocpp_go.Ocppj.State.{new_server_state, new_client_state, clear_client_pending_request}
use ocpp_go.Ocppj.Bundle.{RequestBundle, World, IsSendable, id_of, ids}
use ocpp_go.Ocppj.ServerDispatcher.{
  ServerDispatcher, queued, new_default_server_dispatcher, set_network_server,
  set_on_request_canceled, create_client, delete_client, delete_client_and_wait, enqueue, signal,
  receive, start, stop,
}
use ocpp_go.Ocppj.ServerDispatcher.Pump.{Arm, round, shut_down}
use ocpp_go.Ocppj.ServerDispatcher.Line.{Line, Kept, Evolves, Evolves-Kept, ended_ids, bundles}
use ocpp_go.Ocppj.ServerDispatcher.Clients.{
  queued-bundles, line_of, elements_of, Acts, Acts-refl, Acts-Inv, Inv,
}
use ocpp_go.Ocppj.ServerDispatcher.Completing.{receive-Acts}
use ocpp_go.Ocppj.ServerDispatcher.Methods.{
  create_client-Acts, delete_client-Acts, delete_client_and_wait-Acts, cleared-Acts, enqueue-Acts,
  notify-Acts, when-Acts,
}
use ocpp_go.Ocppj.ServerDispatcher.Sending.{pending_of}
use ocpp_go.Ocppj.ServerDispatcher.Arms.{arm_client}
use ocpp_go.Ocppj.ServerDispatcher.Rounds.{round-Acts}
use ocpp_go.Ocppj.ServerDispatcher.Closing.{
  stopped_endings, shut_down_lem, shut_down-map, shut_down-Evolves,
}

module _ {Request : Type 0} where
  -- A method or its half for a client, an answer from it, or a round of the pump for it.
  pub data ClientStep (d : ServerDispatcher Request) (client_id : String)
      : ServerDispatcher Request → Type 0 where
    creates : ClientStep d client_id (create_client d client_id)
    deletes : ClientStep d client_id (delete_client d client_id)
    deletes_and_waits : ClientStep d client_id (delete_client_and_wait d client_id)
    enqueues :
        (b : RequestBundle Request)
        → IsSendable b
        → ClientStep d client_id (enqueue d client_id b).0
    signals : ClientStep d client_id (signal d client_id).0
    receives : (request_id : String) → ClientStep d client_id (receive d client_id request_id)
    rounds :
        (w : World) (arm : Arm)
        → d.pumping ≡ true
        → arm_client arm ≡ client_id
        → ClientStep d client_id (round w arm d)
    -- the server clears the pending request of a client that it has deleted
    clears :
        get d.queue_map client_id ≡ none
        → ClientStep d client_id (record d {
          pending_request_state = clear_client_pending_request d.pending_request_state client_id;
        })

  pub data Step (d : ServerDispatcher Request) : ServerDispatcher Request → Type 0 where
    for_client :
        (client_id : String) {e : ServerDispatcher Request} → ClientStep d client_id e → Step d e
    starts : d.pumping ≡ false → Step d (start d)
    stops : Step d (stop d)
    shuts_down : d.pumping ≡ true → d.closed ≡ true → Step d (shut_down d)

  pub data Reach (d : ServerDispatcher Request) : ServerDispatcher Request → Type 0 where
    here : Reach d d
    next : {e f : ServerDispatcher Request} → Reach d e → Step e f → Reach d f

  -- A new dispatcher, with or without a network server and a cancel callback.
  abbrev pub wired : ℕ → Bool → Bool → ServerDispatcher Request
  wired capacity server callback =
      set_on_request_canceled
        (set_network_server (new_default_server_dispatcher (new_fifo_queue_map capacity)) server)
        callback

  ClientStep-Acts :
      (d : ServerDispatcher Request) (client_id : String) {e : ServerDispatcher Request}
      → ClientStep d client_id e
      → Acts d client_id e
  unfolding signal
  ClientStep-Acts d client_id creates = create_client-Acts d client_id
  ClientStep-Acts d client_id deletes = delete_client-Acts d client_id
  ClientStep-Acts d client_id deletes_and_waits = delete_client_and_wait-Acts d client_id
  ClientStep-Acts d client_id (enqueues b s) = enqueue-Acts d client_id b s
  ClientStep-Acts d client_id signals = notify-Acts d client_id false
  ClientStep-Acts d client_id (receives request_id) = receive-Acts d client_id request_id
  ClientStep-Acts d client_id (rounds w arm p same) =
      subst (λ c. Acts d c (round w arm d)) same (round-Acts w arm d)
  ClientStep-Acts d client_id (clears e) = cleared-Acts d client_id e

  stop-Acts : (d : ServerDispatcher Request) (c : String) → Acts d c (stop d)
  unfolding stop
  stop-Acts d c = when-Acts d c d.running _ _ (Acts-refl d c) (Acts-refl d c)

  start-Acts : (d : ServerDispatcher Request) (c : String) → Acts d c (start d)
  unfolding start
  start-Acts d c = Acts-refl d c

  shut_down-Inv : (d : ServerDispatcher Request) → Inv d → Inv (shut_down d)
  shut_down-Inv d v = record {
    is_map = subst IsMap (sym (shut_down-map d)) tt;
    kept = λ c. Evolves-Kept (shut_down-Evolves d v.is_map c) (v.kept c);
  }

  Step-Inv : {d e : ServerDispatcher Request} → Step d e → Inv d → Inv e
  Step-Inv {d} (for_client client_id s) v = Acts-Inv client_id (ClientStep-Acts d client_id s) v
  Step-Inv {d} (starts p) v = Acts-Inv "" (start-Acts d "") v
  Step-Inv {d} stops v = Acts-Inv "" (stop-Acts d "") v
  Step-Inv {d} (shuts_down p c) v = shut_down-Inv d v

  Reach-Inv : {d e : ServerDispatcher Request} → Reach d e → Inv d → Inv e
  Reach-Inv here v = v
  Reach-Inv (next r s) v = Step-Inv s (Reach-Inv r v)

  wired-Inv : (capacity : ℕ) (server callback : Bool) → Inv (wired capacity server callback)
  unfolding set_on_request_canceled set_network_server new_default_server_dispatcher
      new_fifo_queue_map new_server_state new_client_state get lookup
  wired-Inv capacity server callback = record {
    is_map = tt;
    kept = λ c. record { sendable = tt; accounted = refl; written = inl tt };
  }

  -- A method for a client, where a bundle that it queues is sendable, an answer from the client,
  -- or a round of the pump for it, however it goes, is a sequence of the changes that a client's
  -- line of requests allows, and leaves the lines of all other clients as they were.
  pub ClientStep-Evolves :
      (d e : ServerDispatcher Request) (client_id : String)
      → ClientStep d client_id e
      → Evolves (line_of d client_id) (line_of e client_id)
        × ((c : String) → client_id ≢ c → line_of e c ≡ line_of d c)
  ClientStep-Evolves d e client_id s = let a = ClientStep-Acts d client_id s in (a.own, a.others)

  -- In every state that the server's dispatcher reaches by its methods, answers and rounds of its
  -- pump, for any clients in any order, the requests taken in for a client, all of them sendable,
  -- are those that have ended, each once, followed by those in the client's queue, in the order in
  -- which they were taken in.
  pub clients_accounted :
      (capacity : ℕ) (server callback : Bool) (d : ServerDispatcher Request)
      → Reach (wired capacity server callback) d
      → (c : String) → d.accepted c ≡ ended_ids (d.ended c) ++ ids (queued (get d.queue_map c))
  clients_accounted capacity server callback d r c =
      let v = Reach-Inv r (wired-Inv capacity server callback) in
      (v.kept c).accounted
      ∙ ap (λ es. ended_ids (d.ended c) ++ ids es) (sym (queued-bundles (get d.queue_map c)))

  -- What is in flight was written last.
  written_or_pending :
      (l : Line Request)
      → Kept l
      → IsSublist l.wire l.accepted
        × (IsSublist l.wire (ended_ids l.ended)
            ⊎ ((b : RequestBundle Request) × (es : List (RequestBundle Request)) × (l.queue
                  ≡ some (b ∷ es))
                × (l.pending ≡ id_of b.call)
                × IsSublist l.wire (ended_ids l.ended ++ id_of b.call ∷ [])))
  written_or_pending l v = elim v.written [
    | inl h ↦ (
      subst (IsSublist l.wire) (sym v.accounted)
          (IsSublist-append l.wire (ended_ids l.ended) (ids (bundles l.queue)) h),
      inl h,
    )
    | inr f ↦
        let before = ended_ids l.ended in
        let id = id_of f.front.call in
        (
          subst (IsSublist l.wire)
              (append_assoc before (id ∷ []) (ids f.rest)
                ∙ ap (λ q. before ++ ids (bundles q)) (sym f.queue)
                ∙ sym v.accounted)
              (IsSublist-append l.wire (before ++ id ∷ []) (ids f.rest) f.sent),
          inr (f.front, f.rest, f.queue, f.pending, f.sent),
        )
  ]

  -- In every state that the server's dispatcher reaches, with sendable requests, the messages
  -- written to a client are among the requests taken in for it, in that order and none oftener,
  -- and each is of a request that has ended, but for the last, which may be of the front of the
  -- client's queue while that is pending.
  pub clients_written_in_order :
      (capacity : ℕ) (server callback : Bool) (d : ServerDispatcher Request)
      → Reach (wired capacity server callback) d
      → (c : String)
      → IsSublist (d.wire c) (d.accepted c)
        × (IsSublist (d.wire c) (ended_ids (d.ended c))
            ⊎ ((b : RequestBundle Request) × (es : List (RequestBundle Request)) × (elements_of
                    (get d.queue_map c)
                  ≡ some (b ∷ es))
                × (pending_of d c ≡ id_of b.call)
                × IsSublist (d.wire c) (ended_ids (d.ended c) ++ id_of b.call ∷ [])))
  clients_written_in_order capacity server callback d r c =
      written_or_pending (line_of d c) ((Reach-Inv r (wired-Inv capacity server callback)).kept c)

  -- When the pump of a server's dispatcher that was reached with sendable requests stops, every
  -- queued request of every client ends, in order: with the dispatcher-stopped error, or
  -- unreported where no cancel callback is set, if it has a payload, and without a call of the
  -- callback, dropped with its queue, if its payload is nil; so every request that was taken in
  -- for the client has ended once, its queue is gone and nothing is pending.
  pub clients_stopped :
      (capacity : ℕ) (server callback : Bool) (d : ServerDispatcher Request)
      → Reach (wired capacity server callback) d
      → (c : String)
      → let d' = shut_down d in
        let os = stopped_endings d.on_request_cancel (queued (get d.queue_map c)) in
        (d'.ended c ≡ d.ended c ++ os)
        × (ended_ids (d'.ended c) ≡ d.accepted c)
        × (elements_of (get d'.queue_map c) ≡ none)
        × (pending_of d' c ≡ "")
  clients_stopped capacity server callback d r c =
      let v = Reach-Inv r (wired-Inv capacity server callback) in
      let e = shut_down_lem d v.is_map c in
      let w = (shut_down-Inv d v).kept c in
      (
        ap (λ l. l.ended) e,
        sym (append-nil (ended_ids ((shut_down d).ended c)))
            ∙ ap (λ q. ended_ids ((shut_down d).ended c) ++ ids (bundles q))
                (sym (ap (λ l. l.queue) e))
            ∙ sym w.accounted
            ∙ ap (λ l. l.accepted) e,
        ap (λ l. l.queue) e,
        ap (λ l. l.pending) e,
      )
