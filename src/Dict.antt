-- ===== src/Dict.antt =====
-- Go's `map[string]V`: an association list read through its first match. `delete` drops every match,
-- so a key is absent just when no entry carries it; `IsMap` says that a key stands once.
use ocpp_go.Base.{
  ℕ, ◌+◌, String, ◌≡◌, refl, ◌≢◌, ite, Option, none, some, List, [], ◌∷◌, map, arith, text_discrete,
  All, total,
}

abbrev pub Dict {ℓ} : Type ℓ → Type ℓ
Dict V = List (String × V)

module _ {ℓ} {V : Type ℓ} where
  -- `m[k]` with its `ok`.
  unfoldable pub lookup : String → Dict V → Option V
  lookup k [] = none
  lookup k ((j, v) ∷ m) = ite (text_discrete j k) (some v) (lookup k m)

  -- `m[k] = v`
  unfoldable pub insert : String → V → Dict V → Dict V
  insert k v [] = (k, v) ∷ []
  insert k v ((j, w) ∷ m) = ite (text_discrete j k) ((k, v) ∷ m) ((j, w) ∷ insert k v m)

  -- `delete(m, k)`
  unfoldable pub delete : String → Dict V → Dict V
  delete k [] = []
  delete k ((j, w) ∷ m) = let rest = delete k m in ite (text_discrete j k) rest ((j, w) ∷ rest)

  -- `for _, v := range m`
  abbrev pub values : Dict V → List V
  values = map λ e. e.1

  pub lookup-insert :
      (k j : String) (v : V) (m : Dict V)
      → lookup j (insert k v m) ≡ ite (text_discrete k j) (some v) (lookup j m)
  unfolding lookup insert
  lookup-insert k j v [] = refl
  lookup-insert k j v ((i, w) ∷ m) = ground (arith, lookup-insert k j v m)

  pub lookup-delete :
      (k j : String) (m : Dict V)
      → lookup j (delete k m) ≡ ite (text_discrete k j) none (lookup j m)
  unfolding lookup delete
  lookup-delete k j [] = ground arith
  lookup-delete k j ((i, w) ∷ m) = ground (arith, lookup-delete k j m)

  -- No entry carries the key.
  abbrev pub Lacks : String → Dict V → Type 0
  Lacks k = All λ e. e.0 ≢ k

  abbrev pub IsMap : Dict V → Type 0
  IsMap [] = Unit
  IsMap ((k, v) ∷ m) = Lacks k m × IsMap m

  pub insert-Lacks :
      (k j : String) (v : V) (m : Dict V) → k ≢ j → Lacks j m → Lacks j (insert k v m)
  unfolding insert
  insert-Lacks k j v [] n h = (n, tt)
  insert-Lacks k j v ((i, w) ∷ m) n h = ground (arith, insert-Lacks k j v m n h.1)

  pub delete-Lacks : (k j : String) (m : Dict V) → Lacks j m → Lacks j (delete k m)
  unfolding delete
  delete-Lacks k j [] h = tt
  delete-Lacks k j ((i, w) ∷ m) h = ground (arith, delete-Lacks k j m h.1)

  pub insert-IsMap : (k : String) (v : V) (m : Dict V) → IsMap m → IsMap (insert k v m)
  unfolding insert
  insert-IsMap k v [] h = (tt, tt)
  insert-IsMap k v ((i, w) ∷ m) h = ground (arith, insert-IsMap k v m h.1, insert-Lacks k i v m)

  pub delete-IsMap : (k : String) (m : Dict V) → IsMap m → IsMap (delete k m)
  unfolding delete
  delete-IsMap k [] h = tt
  delete-IsMap k ((i, w) ∷ m) h = ground (arith, delete-IsMap k m h.1, delete-Lacks k i m h.0)

  pub lookup_of_Lacks : (k : String) (m : Dict V) → Lacks k m → lookup k m ≡ none
  unfolding lookup
  lookup_of_Lacks k [] h = refl
  lookup_of_Lacks k ((i, w) ∷ m) h = ground (arith, lookup_of_Lacks k m h.1)

  pub Lacks-of_lookup : (k : String) (m : Dict V) → lookup k m ≡ none → Lacks k m
  unfolding lookup
  Lacks-of_lookup k [] h = tt
  Lacks-of_lookup k ((i, w) ∷ m) h = ground (arith, Lacks-of_lookup k m)

  pub delete_of_Lacks : (k : String) (m : Dict V) → Lacks k m → delete k m ≡ m
  unfolding delete
  delete_of_Lacks k [] h = refl
  delete_of_Lacks k ((i, w) ∷ m) h = ground (arith, delete_of_Lacks k m h.1)

  -- A weight over the entries, before and after a write: the entry's share is exchanged.
  module _ (f : V → ℕ) where
    abbrev pub weight : Dict V → ℕ
    weight = total λ e. f e.1

    pub weight-insert-none :
        (k : String) (v : V) (m : Dict V)
        → lookup k m ≡ none
        → weight (insert k v m) ≡ f v + weight m
    unfolding lookup insert
    weight-insert-none k v [] h = omega arith
    weight-insert-none k v ((i, w) ∷ m) h = ground (arith, weight-insert-none k v m)

    pub weight-insert-some :
        (k : String) (v u : V) (m : Dict V)
        → lookup k m ≡ some u
        → weight (insert k v m) + f u ≡ f v + weight m
    unfolding lookup insert
    weight-insert-some k v u [] h = cc
    weight-insert-some k v u ((i, w) ∷ m) h = ground (arith, weight-insert-some k v u m)

    pub weight-delete :
        (k : String) (u : V) (m : Dict V)
        → IsMap m
        → lookup k m ≡ some u
        → weight (delete k m) + f u ≡ weight m
    unfolding lookup delete
    weight-delete k u [] h e = cc
    weight-delete k u ((i, w) ∷ m) h e =
        ground (arith, weight-delete k u m h.1, delete_of_Lacks i m h.0)
