-- ===== src/Ocppj/ServerDispatcher/Closing.antt =====
-- The end of the server's message pump, ocppj/dispatcher.go: what becomes of the queued requests of each client.
use ocpp_go.Base.{
  String, ◌≡◌, ◌≢◌, refl, Bool, true, false, Option, none, some, List, [], ◌∷◌, ◌++◌, text_discrete,
  All, ap, ◌∙◌, sym, subst, append_assoc, append-nil, if◌then◌else◌, Dec-rule,
}
use ocpp_go.Dict.{Dict, lookup, IsMap, lookup_of_Lacks}
use ocpp_go.Ocpp.{new_dispatcher_stopped_error, mark_local_transport_error}
use ocpp_go.Ocppj.Queue.{FifoClientQueue, drain_all}
use ocpp_go.Ocppj.QueueMap.{get, drain_all as drain_map}
use ocpp_go.Ocppj.State.{clear_all_pending_requests, new_client_state}
use ocpp_go.Ocppj.State.Clients.{state_of}
use ocpp_go.Ocppj.Bundle.{Call, RequestBundle, canceled, IsSendable, ids}
use ocpp_go.Ocppj.ServerDispatcher.{
  ServerDispatcher, Ending, ended_by, unreported, dropped, note, queued, fire_request_cancel,
}
use ocpp_go.Ocppj.ServerDispatcher.Pump.{cancel_outstanding, cancel_stopped, cancel_all, shut_down}
use ocpp_go.Ocppj.ServerDispatcher.Line.{Evolves, closes, once, ended_ids}
use ocpp_go.Ocppj.ServerDispatcher.Parts.{note_own, note_other}
use ocpp_go.Ocppj.ServerDispatcher.Clients.{queued-bundles, line_of, line_eq, elements_of}

module _ {Request : Type 0} where
  -- How a call ends when the pump stops: with an error, if there is a callback to tell; one without
  -- a payload just goes with its queue.
  abbrev stopped_ending : Bool → Call Request → Ending Request
  stopped_ending reported c = elim c.payload [
    | none ↦ dropped c.unique_id
    | some request ↦
        if reported
        then ended_by (
            canceled c.unique_id (some request)
              (mark_local_transport_error (new_dispatcher_stopped_error c.unique_id)))
        else unreported c.unique_id
  ]

  abbrev stopped_call : Bool → Option (Call Request) → List (Ending Request)
  stopped_call reported none = []
  stopped_call reported (some c) = stopped_ending reported c ∷ []

  abbrev pub stopped_endings : Bool → List (RequestBundle Request) → List (Ending Request)
  stopped_endings reported [] = []
  stopped_endings reported (b ∷ bs) = stopped_call reported b.call ++ stopped_endings reported bs

  ended_id-stopped_ending :
      (reported : Bool) (c : Call Request)
      → ended_ids (stopped_ending reported c ∷ []) ≡ c.unique_id ∷ []
  ended_id-stopped_ending reported c = by_payload reported c.payload
    where
      by_payload :
          (reported : Bool) (o : Option Request)
          → ended_ids (
              (elim o [
                | none ↦ dropped c.unique_id
                | some request ↦
                    if reported
                    then ended_by (
                        canceled c.unique_id
                          (some request)
                          (mark_local_transport_error (new_dispatcher_stopped_error c.unique_id)))
                    else unreported c.unique_id
              ])
              ∷ [])
            ≡ c.unique_id ∷ []
      by_payload reported none = refl
      by_payload true (some request) = refl
      by_payload false (some request) = refl

  pub stopped_ids :
      (reported : Bool) (bs : List (RequestBundle Request))
      → All IsSendable bs
      → ended_ids (stopped_endings reported bs) ≡ ids bs
  stopped_ids reported [] h = refl
  stopped_ids reported (b ∷ bs) ((c, m, e, _, _), h) = rw e (
      ap (λ is. is ++ ended_ids (stopped_endings reported bs)) (ended_id-stopped_ending reported c)
      ∙ ap (λ is. c.unique_id ∷ is) (stopped_ids reported bs h))

  -- Only the ledger of endings differs.
  abbrev with_ended :
      ServerDispatcher Request → (String → List (Ending Request)) → ServerDispatcher Request
  with_ended d ended = record d { ended = ended }

  abbrev Same : ServerDispatcher Request → ServerDispatcher Request → Type 0
  Same d d' = d' ≡ with_ended d d'.ended

  Same-trans : (d e f : ServerDispatcher Request) → Same d e → Same e f → Same d f
  Same-trans d e f a b = b ∙ ap (λ s. with_ended s f.ended) a

  -- The client's ledger grows by that, and no other does.
  record Canceled (d : ServerDispatcher Request) (client_id : String) (os : List (Ending Request))
      (d' : ServerDispatcher Request) : Type 0 where
    same : Same d d'
    own : d'.ended client_id ≡ d.ended client_id ++ os
    others : (c : String) → client_id ≢ c → d'.ended c ≡ d.ended c

  cancel_outstanding-Canceled :
      (d : ServerDispatcher Request) (client_id : String) (o : Option (Call Request))
      → Canceled d client_id (stopped_call d.on_request_cancel o) (cancel_outstanding d client_id o)
  unfolding cancel_outstanding fire_request_cancel
  cancel_outstanding-Canceled d client_id none = record {
    same = refl;
    own = sym (append-nil (d.ended client_id));
    others = λ c n. refl;
  }
  cancel_outstanding-Canceled d client_id (some c) = by_payload c.payload
    where
      by_payload :
          (o : Option Request)
          → Canceled d client_id
              ((elim o [
                | none ↦ dropped c.unique_id
                | some request ↦
                    if d.on_request_cancel
                    then ended_by (
                        canceled c.unique_id
                          (some request)
                          (mark_local_transport_error (new_dispatcher_stopped_error c.unique_id)))
                    else unreported c.unique_id
              ])
                ∷ [])
              (elim o [
                | none ↦ record d { ended = note d.ended client_id (dropped c.unique_id ∷ []) }
                | some request ↦
                    fire_request_cancel d client_id c.unique_id
                      (some request)
                      (new_dispatcher_stopped_error c.unique_id)
              ])
      by_payload none = record {
        same = refl;
        own = note_own d.ended client_id _;
        others = λ k n. note_other d.ended client_id k _ n;
      }
      by_payload (some request) = record {
        same = refl;
        own = note_own d.ended client_id _;
        others = λ k n. note_other d.ended client_id k _ n;
      }

  cancel_stopped-Canceled :
      (d : ServerDispatcher Request) (client_id : String) (bs : List (RequestBundle Request))
      → Canceled d client_id
          (stopped_endings d.on_request_cancel bs)
          (cancel_stopped d client_id bs)
  unfolding cancel_stopped
  cancel_stopped-Canceled d client_id [] = record {
    same = refl;
    own = sym (append-nil (d.ended client_id));
    others = λ c n. refl;
  }
  cancel_stopped-Canceled d client_id (b ∷ bs) =
      let e = cancel_outstanding d client_id b.call in
      let a = cancel_outstanding-Canceled d client_id b.call in
      let r = cancel_stopped-Canceled e client_id bs in
      record {
        same = Same-trans d e (cancel_stopped e client_id bs) a.same r.same;
        own =
            r.own
            ∙ ap (λ t. e.ended client_id ++ stopped_endings t bs)
                (ap (λ x. x.on_request_cancel) a.same)
            ∙ ap (λ os. os ++ stopped_endings d.on_request_cancel bs) a.own
            ∙ append_assoc (d.ended client_id) (stopped_call d.on_request_cancel b.call)
                (stopped_endings d.on_request_cancel bs);
        others = λ c n. r.others c n ∙ a.others c n;
      }

  cancel_all-Same :
      (d : ServerDispatcher Request) (m : Dict (FifoClientQueue (RequestBundle Request)))
      → Same d (cancel_all d m)
  unfolding cancel_all drain_all
  cancel_all-Same d [] = refl
  cancel_all-Same d ((client_id, q) ∷ m) =
      let e = cancel_stopped d client_id q.elements in
      Same-trans d e (cancel_all e m) (cancel_stopped-Canceled d client_id q.elements).same
        (cancel_all-Same e m)

  cancel_all-ended :
      (d : ServerDispatcher Request) (m : Dict (FifoClientQueue (RequestBundle Request)))
      → IsMap m
      → (c : String)
      → (cancel_all d m).ended c
        ≡ d.ended c ++ stopped_endings d.on_request_cancel (queued (lookup c m))
  unfolding cancel_all drain_all lookup
  cancel_all-ended d [] h c = sym (append-nil (d.ended c))
  cancel_all-ended d ((client_id, q) ∷ m) (l, h) c =
      let e = cancel_stopped d client_id q.elements in
      let a = cancel_stopped-Canceled d client_id q.elements in
      cancel_all-ended e m h c
      ∙ ap (λ t. e.ended c ++ stopped_endings t (queued (lookup c m)))
          (ap (λ x. x.on_request_cancel) a.same)
      ∙ Dec-rule
          (λ o.
            e.ended c ++ stopped_endings d.on_request_cancel (queued (lookup c m))
            ≡ d.ended c ++ stopped_endings d.on_request_cancel (queued o))
          (text_discrete client_id c)
          (λ s.
            ap (λ o. e.ended c ++ stopped_endings d.on_request_cancel (queued o))
              (lookup_of_Lacks c m (subst (λ k. All (λ x. x.0 ≢ k) m) s l))
            ∙ append-nil (e.ended c)
            ∙ subst (λ k. e.ended k ≡ d.ended k ++ stopped_endings d.on_request_cancel q.elements) s
                a.own)
          λ n.
            ap (λ os. os ++ stopped_endings d.on_request_cancel (queued (lookup c m)))
              (a.others c n)

  -- A queued request of every client ends when the pump stops.
  pub shut_down_lem :
      (d : ServerDispatcher Request)
      → IsMap d.queue_map.queues
      → (c : String)
      → line_of (shut_down d) c ≡ record (line_of d c) {
        queue = none;
        pending = "";
        ended = d.ended c ++ stopped_endings d.on_request_cancel (queued (get d.queue_map c));
      }
  unfolding shut_down drain_map clear_all_pending_requests new_client_state get lookup
  shut_down_lem d h c =
      let cleared : ServerDispatcher Request = record d {
        queue_map = (drain_map d.queue_map).0;
        pending_request_state = clear_all_pending_requests d.pending_request_state;
      } in
      let same = cancel_all-Same cleared d.queue_map.queues in
      line_eq (ap (λ x. elements_of (get x.queue_map c)) same)
        (ap (λ x. (state_of x.pending_request_state c).request_id) same)
        (ap (λ x. x.accepted c) same) (cancel_all-ended cleared d.queue_map.queues h c)
        (ap (λ x. x.wire c) same)

  pub shut_down-map : (d : ServerDispatcher Request) → (shut_down d).queue_map.queues ≡ []
  unfolding shut_down drain_map
  shut_down-map d =
      let cleared : ServerDispatcher Request = record d {
        queue_map = (drain_map d.queue_map).0;
        pending_request_state = clear_all_pending_requests d.pending_request_state;
      } in
      ap (λ x. x.queue_map.queues) (cancel_all-Same cleared d.queue_map.queues)

  pub shut_down-Evolves :
      (d : ServerDispatcher Request)
      → IsMap d.queue_map.queues
      → (c : String) → Evolves (line_of d c) (line_of (shut_down d) c)
  shut_down-Evolves d h c =
      let e = queued-bundles (get d.queue_map c) in
      once (
        closes (stopped_endings d.on_request_cancel (queued (get d.queue_map c)))
          (λ s.
            stopped_ids d.on_request_cancel (queued (get d.queue_map c))
              (subst (All IsSendable) (sym e) s)
            ∙ ap ids e)
          (shut_down_lem d h c))
