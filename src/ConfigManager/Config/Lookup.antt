-- ===== src/ConfigManager/Config/Lookup.antt =====
-- Lookups in the keys of a configuration, and what the writes leave alone.
use ocpp_go.Base.{
  ℕ, zero, suc, ◌+◌, String, ◌≡◌, refl, ◌≢◌, ite, Option, none, some, List, [], ◌∷◌, map, arith,
  text_discrete, is_some, subst,
}
use ocpp_go.ConfigManager.Memory.{Pointer}
use ocpp_go.ConfigManager.Config.{
  ConfigurationKey, find_from, find_key_index, set_value, contains_key,
}

-- The first key of that name, without its index.
unfoldable pub find : List ConfigurationKey → String → Option ConfigurationKey
find [] key = none
find (k ∷ keys) key = ite (text_discrete k.key key) (some k) (find keys key)

abbrev forget : Option (ConfigurationKey × ℕ) → Option ConfigurationKey
forget none = none
forget (some (k, i)) = some k

find_from-find :
    (i : ℕ) (keys : List ConfigurationKey) (key : String)
    → forget (find_from i keys key) ≡ find keys key
unfolding find_from find
find_from-find i [] key = refl
find_from-find i (k ∷ keys) key = ground (arith, find_from-find (suc i) keys key)

pub find_key_index-find :
    (keys : List ConfigurationKey) (key : String) → forget (find_key_index keys key) ≡ find keys key
unfolding find_key_index
find_key_index-find = find_from-find 0

-- The names of a configuration's keys: no update changes them.
abbrev pub names : List ConfigurationKey → List String
names = map λ k. k.key

pub names-set_value :
    (keys : List ConfigurationKey) (i : ℕ) (v : Pointer) → names (set_value keys i v) ≡ names keys
unfolding set_value
names-set_value [] i v = refl
names-set_value (k ∷ keys) zero v = refl
names-set_value (k ∷ keys) (suc i) v = ground (arith, names-set_value keys i v)

-- What a write at the place that a lookup found does: undone by the old value, and seen by a lookup
-- of that name alone.
pub record Writes (keys : List ConfigurationKey) (key : String) (k : ConfigurationKey) (n : ℕ)
    (v : Pointer) : Type 0 where
  pub undone : set_value (set_value keys n v) n k.value ≡ keys
  pub seen :
      (name : String)
      → find (set_value keys n v) name
        ≡ ite (text_discrete key name) (some (record k { value = v })) (find keys name)

Writes-here :
    (keys : List ConfigurationKey) (x : ConfigurationKey) (v : Pointer)
    → Writes (x ∷ keys) x.key x 0 v
unfolding find set_value
Writes-here keys x v = record { undone = refl; seen = λ name. ground arith }

Writes-there :
    (keys : List ConfigurationKey) (x k : ConfigurationKey) (key : String) (n : ℕ) (v : Pointer)
    → x.key ≢ key
    → Writes keys key k n v
    → Writes (x ∷ keys) key k (suc n) v
unfolding find set_value
Writes-there keys x k key n v ne w = record {
  undone = ground (arith, w.undone);
  seen = λ name. ground (arith, w.seen name);
}

find_from-Writes :
    (i j : ℕ) (keys : List ConfigurationKey) (key : String) (k : ConfigurationKey) (v : Pointer)
    → find_from i keys key ≡ some (k, j)
    → (n : ℕ) × (j ≡ i + n) × Writes keys key k n v
unfolding find_from
find_from-Writes i j [] key k v h = cc
find_from-Writes i j (x ∷ keys) key k v h = elim (text_discrete x.key key) [
  | yes p ↦
      let e : x ≡ k = ground arith in
      let at_k : Writes (x ∷ keys) x.key k 0 v =
        subst (λ y. Writes (x ∷ keys) x.key y 0 v) e (Writes-here keys x v) in
      (0, ground arith, subst (λ c. Writes (x ∷ keys) c k 0 v) p at_k)
  | no ne ↦
      let (n, e, w) = find_from-Writes (suc i) j keys key k v (ground arith) in
      (suc n, omega arith, Writes-there keys x k key n v ne w)
]

pub find_key_index-Writes :
    (keys : List ConfigurationKey) (key : String) (k : ConfigurationKey) (i : ℕ) (v : Pointer)
    → find_key_index keys key ≡ some (k, i)
    → Writes keys key k i v
unfolding find_key_index
find_key_index-Writes keys key k i v h =
    let (n, e, w) = find_from-Writes 0 i keys key k v h in
    subst (λ j. Writes keys key k j v) (omega arith) w

-- A name that stands in the keys is found, and only such a name.
pub find_of_names :
    (keys keys' : List ConfigurationKey) (key : String)
    → names keys ≡ names keys'
    → is_some (find keys key) ≡ is_some (find keys' key)
unfolding find
find_of_names [] [] key e = refl
find_of_names [] (k ∷ keys') key e = cc
find_of_names (k ∷ keys) [] key e = cc
find_of_names (k ∷ keys) (k' ∷ keys') key e = ground (arith, find_of_names keys keys' key)

pub find_contains :
    (keys : List ConfigurationKey) (key : String)
    → is_some (find keys key) ≡ contains_key (names keys) key
unfolding find contains_key
find_contains [] key = refl
find_contains (k ∷ keys) key = ground (arith, find_contains keys key)
