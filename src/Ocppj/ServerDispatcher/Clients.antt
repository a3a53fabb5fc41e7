-- ===== src/Ocppj/ServerDispatcher/Clients.antt =====
-- A step of the server's dispatcher for one client, ocppj/dispatcher.go: how it acts on the lines of the clients.
use ocpp_go.Base.{String, ◌≡◌, ◌≢◌, refl, Option, none, some, List, text_discrete, ◌∙◌, sym, subst}
use ocpp_go.Dict.{Dict, IsMap}
use ocpp_go.Ocppj.Queue.{FifoClientQueue}
use ocpp_go.Ocppj.QueueMap.{get}
use ocpp_go.Ocppj.State.Clients.{state_of}
use ocpp_go.Ocppj.Bundle.{RequestBundle}
use ocpp_go.Ocppj.ServerDispatcher.{queued, ServerDispatcher}
use ocpp_go.Ocppj.ServerDispatcher.Line.{
  bundles, Line, Evolves, stays, Evolves-trans, Evolves-Kept, Kept,
}

module _ {Request : Type 0} where
  abbrev pub elements_of :
      Option (FifoClientQueue (RequestBundle Request)) → Option (List (RequestBundle Request))
  elements_of none = none
  elements_of (some q) = some q.elements

  pub queued-bundles :
      (o : Option (FifoClientQueue (RequestBundle Request))) → queued o ≡ bundles (elements_of o)
  queued-bundles none = refl
  queued-bundles (some q) = refl

  abbrev pub line_of : ServerDispatcher Request → String → Line Request
  line_of d c = record {
    queue = elements_of (get d.queue_map c);
    pending = (state_of d.pending_request_state c).request_id;
    accepted = d.accepted c;
    ended = d.ended c;
    wire = d.wire c;
  }

  -- The line of that client evolves, and no other changes.
  pub record Acted (lines lines' : String → Line Request) (client_id : String)
      (queues queues' : Dict (FifoClientQueue (RequestBundle Request))) : Type 0 where
    pub own : Evolves (lines client_id) (lines' client_id)
    pub others : (c : String) → client_id ≢ c → lines' c ≡ lines c
    pub map_kept : IsMap queues → IsMap queues'

  abbrev pub Acts : ServerDispatcher Request → String → ServerDispatcher Request → Type 0
  Acts d client_id d' =
      Acted (λ c. line_of d c) (λ c. line_of d' c) client_id d.queue_map.queues d'.queue_map.queues

  pub record AllKept (lines : String → Line Request)
      (queues : Dict (FifoClientQueue (RequestBundle Request))) : Type 0 where
    pub is_map : IsMap queues
    pub kept : (c : String) → Kept (lines c)

  abbrev pub Inv : ServerDispatcher Request → Type 0
  Inv d = AllKept (λ c. line_of d c) d.queue_map.queues

  pub Acts-trans :
      {ls ms ns : String → Line Request} {client_id : String}
      → {q r s : Dict (FifoClientQueue (RequestBundle Request))} → Acted ls ms client_id q r
      → Acted ms ns client_id r s
      → Acted ls ns client_id q s
  Acts-trans a b = record {
    own = Evolves-trans a.own b.own;
    others = λ c n. b.others c n ∙ a.others c n;
    map_kept = λ h. b.map_kept (a.map_kept h);
  }

  -- Where the lines and the map are as they were.
  pub Acts-refl : (d : ServerDispatcher Request) (client_id : String) → Acts d client_id d
  Acts-refl d client_id = record { own = stays; others = λ c n. refl; map_kept = λ h. h }

  pub Acts-Inv :
      {ls ms : String → Line Request} {q r : Dict (FifoClientQueue (RequestBundle Request))}
      → (client_id : String) → Acted ls ms client_id q r
      → AllKept ls q
      → AllKept ms r
  Acts-Inv {ls} {ms} client_id a v = record {
    is_map = a.map_kept v.is_map;
    kept = λ c. elim (text_discrete client_id c) [
      | yes e ↦ subst (λ c. Kept (ms c)) e (Evolves-Kept a.own (v.kept client_id))
      | no n ↦ subst Kept (sym (a.others c n)) (v.kept c)
    ];
  }

  -- A line from its parts.
  pub line_eq :
      {l m : Line Request}
      → l.queue ≡ m.queue
      → l.pending ≡ m.pending
      → l.accepted ≡ m.accepted
      → l.ended ≡ m.ended
      → l.wire ≡ m.wire
      → l ≡ m
  line_eq {l} {m} q p a e w = cc
