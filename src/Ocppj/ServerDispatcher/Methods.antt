-- ===== src/Ocppj/ServerDispatcher/Methods.antt =====
-- The methods of the server's dispatcher that keep its clients' queues, ocppj/dispatcher.go.
use ocpp_go.Base.{
  String, ◌≡◌, refl, inl, inr, Bool, true, false, none, some, [], ◌∷◌, ◌++◌, map, ap, ◌∙◌, sym,
  subst, Option-cases, if◌then◌else◌,
}
use ocpp_go.Dict.{insert-IsMap, delete-IsMap}
use ocpp_go.Ocppj.Queue.{FifoClientQueue, push, new_fifo_client_queue}
use ocpp_go.Ocppj.Queue.Order.{push-cases}
use ocpp_go.Ocppj.QueueMap.{get, get_or_create, add, remove}
use ocpp_go.Ocppj.State.{clear_client_pending_request}
use ocpp_go.Ocppj.Bundle.{RequestBundle, IsSendable, id_of, ids}
use ocpp_go.Ocppj.ServerDispatcher.{
  ServerDispatcher, dropped, note, create_client, remove_queue, notify, delete_client,
  delete_client_and_wait, pushed, enqueue,
}
use ocpp_go.Ocppj.ServerDispatcher.Line.{opens, takes, drops, clears, once}
use ocpp_go.Ocppj.ServerDispatcher.Parts.{
  get-add, get-add_other, get-remove, get-remove_other, note_own, note_other, clear_own,
  clear_other,
}
use ocpp_go.Ocppj.ServerDispatcher.Clients.{
  queued-bundles, line_eq, elements_of, Acts, Acts-refl, Acts-trans,
}

module _ {Request : Type 0} where
  pub when-Acts :
      (d : ServerDispatcher Request) (client_id : String) (t : Bool)
      (x y : ServerDispatcher Request)
      → Acts d client_id x
      → Acts d client_id y
      → Acts d client_id (if t then x else y)
  when-Acts d client_id true x y a b = a
  when-Acts d client_id false x y a b = b

  pub notify-Acts :
      (d : ServerDispatcher Request) (client_id : String) (ack : Bool)
      → Acts d client_id (notify d client_id ack)
  unfolding notify
  notify-Acts d client_id ack =
      when-Acts d client_id d.running _ _ (Acts-refl d client_id) (Acts-refl d client_id)

  new-Acts :
      (d : ServerDispatcher Request) (client_id : String)
      → get d.queue_map client_id ≡ none
      → Acts d client_id (record d {
        queue_map = add d.queue_map client_id (new_fifo_client_queue d.queue_map.queue_capacity);
      })
  unfolding add new_fifo_client_queue
  new-Acts d client_id e = record {
    own = once (
        opens (ap elements_of e)
          (line_eq (ap elements_of (get-add d.queue_map client_id _)) refl refl refl refl));
    others = λ c n.
        line_eq (ap elements_of (get-add_other d.queue_map client_id c _ n)) refl refl refl refl;
    map_kept = λ h. insert-IsMap client_id _ d.queue_map.queues h;
  }

  created-Acts :
      (d : ServerDispatcher Request) (client_id : String)
      → Acts d client_id (record d { queue_map = (get_or_create d.queue_map client_id).0 })
  unfolding get_or_create get add
  created-Acts d client_id = elim (Option-cases (get d.queue_map client_id)) [
    | inl e ↦ rw (e, get_or_create) (new-Acts d client_id e)
    | inr (q, e) ↦ rw (e, get_or_create) (Acts-refl d client_id)
  ]

  pub create_client-Acts :
      (d : ServerDispatcher Request) (client_id : String)
      → Acts d client_id (create_client d client_id)
  unfolding create_client
  create_client-Acts d client_id =
      when-Acts d client_id d.running _ _ (created-Acts d client_id) (Acts-refl d client_id)

  remove_queue-Acts :
      (d : ServerDispatcher Request) (client_id : String)
      → Acts d client_id (remove_queue d client_id)
  unfolding remove_queue remove
  remove_queue-Acts d client_id = record {
    own = once (
        drops (
          line_eq (ap elements_of (get-remove d.queue_map client_id)) refl refl
            (note_own d.ended client_id _
              ∙ ap (λ es. d.ended client_id ++ map dropped (ids es))
                  (queued-bundles (get d.queue_map client_id)))
            refl));
    others = λ c n.
        line_eq (ap elements_of (get-remove_other d.queue_map client_id c n)) refl refl
          (note_other d.ended client_id c _ n) refl;
    map_kept = λ h. delete-IsMap client_id d.queue_map.queues h;
  }

  pub delete_client-Acts :
      (d : ServerDispatcher Request) (client_id : String)
      → Acts d client_id (delete_client d client_id)
  unfolding delete_client
  delete_client-Acts d client_id =
      Acts-trans (remove_queue-Acts d client_id)
        (notify-Acts (remove_queue d client_id) client_id false)

  pub delete_client_and_wait-Acts :
      (d : ServerDispatcher Request) (client_id : String)
      → Acts d client_id (delete_client_and_wait d client_id)
  unfolding delete_client_and_wait
  delete_client_and_wait-Acts d client_id =
      Acts-trans (remove_queue-Acts d client_id)
        (notify-Acts (remove_queue d client_id) client_id true)

  -- `RequestState.ClearClientPendingRequest` of ocppj/server.go, once the queue is gone.
  pub cleared-Acts :
      (d : ServerDispatcher Request) (client_id : String)
      → get d.queue_map client_id ≡ none
      → Acts d client_id (record d {
        pending_request_state = clear_client_pending_request d.pending_request_state client_id;
      })
  cleared-Acts d client_id e = record {
    own = once (
        clears (ap elements_of e)
          (line_eq refl (clear_own d.pending_request_state client_id) refl refl refl));
    others = λ c n. line_eq refl (clear_other d.pending_request_state client_id c n) refl refl refl;
    map_kept = λ h. h;
  }

  pushed-Acts :
      (d : ServerDispatcher Request) (client_id : String) (b : RequestBundle Request)
      → (q : FifoClientQueue (RequestBundle Request)) → get d.queue_map client_id ≡ some q
      → IsSendable b
      → Acts d client_id (pushed (push q b) d client_id b).0
  unfolding pushed add
  pushed-Acts d client_id b q e s = elim (push-cases q b) [
    | inl p ↦
        subst (λ r. Acts d client_id (pushed r d client_id b).0) (sym p) (Acts-refl d client_id)
    | inr p ↦ subst (λ r. Acts d client_id (pushed r d client_id b).0) (sym p) grown
  ]
    where
      grown : Acts d client_id (record d {
        queue_map = add d.queue_map client_id (record q { elements = q.elements ++ b ∷ [] });
        accepted = note d.accepted client_id (id_of b.call ∷ []);
      })
      grown = record {
        own = once (
            takes q.elements b (ap elements_of e) s (
              line_eq (ap elements_of (get-add d.queue_map client_id _)) refl
                (note_own d.accepted client_id _) refl refl));
        others = λ c n.
            line_eq (ap elements_of (get-add_other d.queue_map client_id c _ n)) refl
              (note_other d.accepted client_id c _ n) refl refl;
        map_kept = λ h. insert-IsMap client_id _ d.queue_map.queues h;
      }

  pub enqueue-Acts :
      (d : ServerDispatcher Request) (client_id : String) (b : RequestBundle Request)
      → IsSendable b
      → Acts d client_id (enqueue d client_id b).0
  unfolding enqueue
  enqueue-Acts d client_id b s = elim (Option-cases (get d.queue_map client_id)) [
    | inl e ↦ rw (e, enqueue) (networked d.has_network _ (Acts-refl d client_id))
    | inr (q, e) ↦ rw (e, enqueue) (networked d.has_network _ (pushed-Acts d client_id b q e s))
  ]
    where
      networked :
          (t : Bool) (x : ServerDispatcher Request × Bool)
          → Acts d client_id x.0
          → Acts d client_id (if t then x else (d, false)).0
      networked true x a = a
      networked false x a = Acts-refl d client_id
