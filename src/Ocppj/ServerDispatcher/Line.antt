-- ===== src/Ocppj/ServerDispatcher/Line.antt =====
-- What the server's dispatcher promises to one client, ocppj/dispatcher.go: its line of requests, and the ways
-- in which it may change.
use ocpp_go.Base.{
  IsSublist, IsSublist-append, IsSublist-last, String, ite, ◌≡◌, refl, ◌⊎◌, inl, inr, Option, none,
  some, List, [], ◌∷◌, ◌++◌, map, text_discrete, All, All-append, ap, ◌∙◌, sym, subst, map-append,
  append_assoc, append-nil,
}
use ocpp_go.Ocppj.Bundle.{RequestBundle, IsSendable, id_of, ids, outcome_id}
use ocpp_go.Ocppj.ServerDispatcher.{Ending, ended_by, unreported, dropped}

module _ {Request : Type 0} where
  abbrev pub ending_id : Ending Request → String
  ending_id (ended_by o) = outcome_id o
  ending_id (unreported id) = id
  ending_id (dropped id) = id

  abbrev pub ended_ids : List (Ending Request) → List String
  ended_ids = map ending_id

  abbrev pub bundles : Option (List (RequestBundle Request)) → List (RequestBundle Request)
  bundles none = []
  bundles (some es) = es

-- A client as the dispatcher keeps it: its queue, if it has one, the ID of its pending request, and its
-- ledgers.
pub record Line (Request : Type 0) : Type 0 where
  pub queue : Option (List (RequestBundle Request))
  pub pending : String
  pub accepted : List String
  pub ended : List (Ending Request)
  pub wire : List String

module _ {Request : Type 0} where
  pub data Change (l m : Line Request) : Type 0 where
    opens : l.queue ≡ none → m ≡ record l { queue = some [] } → Change l m
    takes :
        (es : List (RequestBundle Request)) (b : RequestBundle Request)
        → l.queue ≡ some es
        → IsSendable b
        → m ≡ record l { queue = some (es ++ b ∷ []); accepted = l.accepted ++ id_of b.call ∷ [] }
        → Change l m
    -- the front is made pending, or pending and written, where nothing was pending
    marks :
        (b : RequestBundle Request) (es : List (RequestBundle Request))
        → l.queue ≡ some (b ∷ es)
        → l.pending ≡ ""
        → m ≡ record l { pending = id_of b.call }
        → Change l m
    writes :
        (b : RequestBundle Request) (es : List (RequestBundle Request))
        → l.queue ≡ some (b ∷ es)
        → l.pending ≡ ""
        → m ≡ record l { pending = id_of b.call; wire = l.wire ++ id_of b.call ∷ [] }
        → Change l m
    finishes :
        (b : RequestBundle Request) (es : List (RequestBundle Request)) (o : Ending Request)
        → l.queue ≡ some (b ∷ es)
        → ending_id o ≡ id_of b.call
        → m ≡ record l {
          queue = some es;
          pending = ite (text_discrete l.pending (ending_id o)) "" l.pending;
          ended = l.ended ++ o ∷ [];
        }
        → Change l m
    drops :
        m ≡ record l { queue = none; ended = l.ended ++ map dropped (ids (bundles l.queue)) }
        → Change l m
    clears : l.queue ≡ none → m ≡ record l { pending = "" } → Change l m
    closes :
        (os : List (Ending Request))
        → (All IsSendable (bundles l.queue) → ended_ids os ≡ ids (bundles l.queue))
        → m ≡ record l { queue = none; pending = ""; ended = l.ended ++ os }
        → Change l m

  pub data Evolves (l : Line Request) : Line Request → Type 0 where
    stays : Evolves l l
    then : {m n : Line Request} → Evolves l m → Change m n → Evolves l n

  pub once : {l m : Line Request} → Change l m → Evolves l m
  once c = then stays c

  pub Evolves-trans : {l m n : Line Request} → Evolves l m → Evolves m n → Evolves l n
  Evolves-trans e stays = e
  Evolves-trans e (then f c) = then (Evolves-trans e f) c

  -- The pending request is the front, and its message is the last that was written, if at all.
  pub record InFlight (l : Line Request) : Type 0 where
    pub front : RequestBundle Request
    pub rest : List (RequestBundle Request)
    pub queue : l.queue ≡ some (front ∷ rest)
    pub pending : l.pending ≡ id_of front.call
    pub sent : IsSublist l.wire (ended_ids l.ended ++ id_of front.call ∷ [])

  pub record Kept (l : Line Request) : Type 0 where
    pub sendable : All IsSendable (bundles l.queue)
    pub accounted : l.accepted ≡ ended_ids l.ended ++ ids (bundles l.queue)
    pub written : IsSublist l.wire (ended_ids l.ended) ⊎ InFlight l

  -- Endings are added, and what was written stays so.
  more_ended :
      (l : Line Request) (os : List (Ending Request))
      → IsSublist l.wire (ended_ids l.ended)
      → IsSublist l.wire (ended_ids (l.ended ++ os))
  more_ended l os h =
      subst (IsSublist l.wire) (sym (map-append ending_id l.ended os))
        (IsSublist-append l.wire (ended_ids l.ended) (ended_ids os) h)

  -- What was written ended, once the whole queue has.
  all_ended :
      (l : Line Request) (os : List (Ending Request))
      → Kept l
      → ended_ids os ≡ ids (bundles l.queue)
      → IsSublist l.wire (ended_ids (l.ended ++ os))
  all_ended l os v e = elim v.written [
    | inl h ↦ more_ended l os h
    | inr f ↦
        let before = ended_ids l.ended in
        let id = id_of f.front.call in
        subst (IsSublist l.wire)
          (append_assoc before (id ∷ []) (ids f.rest)
            ∙ ap (λ q. before ++ ids (bundles q)) (sym f.queue)
            ∙ ap (λ xs. before ++ xs) (sym e)
            ∙ sym (map-append ending_id l.ended os))
          (IsSublist-append l.wire (before ++ id ∷ []) (ids f.rest) f.sent)
  ]

  -- The ledger after the whole queue has ended.
  all_accounted :
      (l : Line Request) (os : List (Ending Request))
      → Kept l
      → ended_ids os ≡ ids (bundles l.queue)
      → l.accepted ≡ ended_ids (l.ended ++ os) ++ []
  all_accounted l os v e =
      v.accounted
      ∙ ap (λ xs. ended_ids l.ended ++ xs) (sym e)
      ∙ sym (map-append ending_id l.ended os)
      ∙ sym (append-nil (ended_ids (l.ended ++ os)))

  idle_written : (l : Line Request) → Kept l → l.pending ≡ "" → IsSublist l.wire (ended_ids l.ended)
  idle_written l v idle = elim v.written [
    | inl h ↦ h
    | inr f ↦
        let (c, m, e, _, n) = (subst (λ q. All IsSendable (bundles q)) f.queue v.sendable).0 in
        absurd (n (ap id_of (sym e) ∙ sym f.pending ∙ idle))
  ]

  dropped_ids :
      (es : List (RequestBundle Request))
      → ended_ids {Request = Request} (map dropped (ids es)) ≡ ids es
  dropped_ids [] = refl
  dropped_ids (b ∷ es) = ap (λ ys. id_of b.call ∷ ys) (dropped_ids es)

  closed-Kept :
      (l : Line Request) (os : List (Ending Request)) (pending : String)
      → Kept l
      → ended_ids os ≡ ids (bundles l.queue)
      → Kept (record l { queue = none; pending = pending; ended = l.ended ++ os })
  closed-Kept l os pending v e = record {
    sendable = tt;
    accounted = all_accounted l os v e;
    written = inl (all_ended l os v e);
  }

  option_apart : {x : List (RequestBundle Request)} → none ≡ some x → ⊥
  option_apart e = cc

  opened-Kept : (l : Line Request) → l.queue ≡ none → Kept l → Kept (record l { queue = some [] })
  opened-Kept l none_there v = record {
    sendable = tt;
    accounted = v.accounted ∙ ap (λ q. ended_ids l.ended ++ ids (bundles q)) none_there;
    written = elim v.written [
      | inl h ↦ inl h
      | inr f ↦ absurd (option_apart (sym none_there ∙ f.queue))
    ];
  }

  cleared-Kept : (l : Line Request) → l.queue ≡ none → Kept l → Kept (record l { pending = "" })
  cleared-Kept l none_there v = record {
    sendable = v.sendable;
    accounted = v.accounted;
    written = elim v.written [
      | inl h ↦ inl h
      | inr f ↦ absurd (option_apart (sym none_there ∙ f.queue))
    ];
  }

  taken-Kept :
      (l : Line Request) (es : List (RequestBundle Request)) (b : RequestBundle Request)
      → l.queue ≡ some es
      → IsSendable b
      → Kept l
      → Kept (record l { queue = some (es ++ b ∷ []); accepted = l.accepted ++ id_of b.call ∷ [] })
  taken-Kept l es b there s v = record {
    sendable =
        All-append IsSendable es (b ∷ []) (subst (λ q. All IsSendable (bundles q)) there v.sendable)
          (s, tt);
    accounted =
        ap (λ xs. xs ++ id_of b.call ∷ [])
          (v.accounted ∙ ap (λ q. ended_ids l.ended ++ ids (bundles q)) there)
        ∙ append_assoc (ended_ids l.ended) (ids es) (id_of b.call ∷ [])
        ∙ ap (λ xs. ended_ids l.ended ++ xs) (sym (map-append (λ x. id_of x.call) es (b ∷ [])));
    written = elim v.written [
      | inl h ↦ inl h
      | inr f ↦ inr (record {
        front = f.front;
        rest = f.rest ++ b ∷ [];
        queue = ap (λ q. some (bundles q ++ b ∷ [])) (sym there ∙ f.queue);
        pending = f.pending;
        sent = f.sent;
      })
    ];
  }

  marked-Kept :
      (l : Line Request) (pending : String)
      → l.pending ≡ ""
      → Kept l
      → Kept (record l { pending = pending })
  marked-Kept l pending idle v = record {
    sendable = v.sendable;
    accounted = v.accounted;
    written = inl (idle_written l v idle);
  }

  written-Kept :
      (l : Line Request) (b : RequestBundle Request) (es : List (RequestBundle Request))
      → l.queue ≡ some (b ∷ es)
      → l.pending ≡ ""
      → Kept l
      → Kept (record l { pending = id_of b.call; wire = l.wire ++ id_of b.call ∷ [] })
  written-Kept l b es there idle v = record {
    sendable = v.sendable;
    accounted = v.accounted;
    written = inr (record {
      front = b;
      rest = es;
      queue = there;
      pending = refl;
      sent = IsSublist-last l.wire (ended_ids l.ended) (id_of b.call) (idle_written l v idle);
    });
  }

  finished-Kept :
      (l : Line Request) (b : RequestBundle Request) (es : List (RequestBundle Request))
      → (o : Ending Request) (pending : String) → l.queue ≡ some (b ∷ es)
      → ending_id o ≡ id_of b.call
      → Kept l
      → Kept (record l { queue = some es; pending = pending; ended = l.ended ++ o ∷ [] })
  finished-Kept l b es o pending there same v = record {
    sendable = (subst (λ q. All IsSendable (bundles q)) there v.sendable).1;
    accounted =
        v.accounted
        ∙ ap (λ q. ended_ids l.ended ++ ids (bundles q)) there
        ∙ sym (append_assoc (ended_ids l.ended) (id_of b.call ∷ []) (ids es))
        ∙ ap (λ xs. xs ++ ids es) (sym grown);
    written = inl (elim v.written [
      | inl h ↦ more_ended l (o ∷ []) h
      | inr f ↦
          subst (IsSublist l.wire)
            (ap (λ id. ended_ids l.ended ++ id ∷ []) (front_id (sym f.queue ∙ there)) ∙ sym grown)
            f.sent
    ]);
  }
    where
      grown : ended_ids (l.ended ++ o ∷ []) ≡ ended_ids l.ended ++ id_of b.call ∷ []
      grown = map-append ending_id l.ended (o ∷ []) ∙ ap (λ id. ended_ids l.ended ++ id ∷ []) same

      front_id :
          {x : RequestBundle Request} {xs : List (RequestBundle Request)}
          → some (x ∷ xs) ≡ some (b ∷ es)
          → id_of x.call ≡ id_of b.call
      front_id e = cc

  pub Change-Kept : {l m : Line Request} → Change l m → Kept l → Kept m
  Change-Kept {l} {m} (opens n e) v = subst Kept (sym e) (opened-Kept l n v)
  Change-Kept {l} {m} (takes es b t s e) v = subst Kept (sym e) (taken-Kept l es b t s v)
  Change-Kept {l} {m} (marks b es t i e) v = subst Kept (sym e) (marked-Kept l _ i v)
  Change-Kept {l} {m} (writes b es t i e) v = subst Kept (sym e) (written-Kept l b es t i v)
  Change-Kept {l} {m} (finishes b es o t s e) v =
      subst Kept (sym e) (finished-Kept l b es o _ t s v)
  Change-Kept {l} {m} (drops e) v =
      subst Kept (sym e) (closed-Kept l _ l.pending v (dropped_ids (bundles l.queue)))
  Change-Kept {l} {m} (clears n e) v = subst Kept (sym e) (cleared-Kept l n v)
  Change-Kept {l} {m} (closes os s e) v = subst Kept (sym e) (closed-Kept l os "" v (s v.sendable))

  pub Evolves-Kept : {l m : Line Request} → Evolves l m → Kept l → Kept m
  Evolves-Kept stays v = v
  Evolves-Kept (then e c) v = Change-Kept c (Evolves-Kept e v)
