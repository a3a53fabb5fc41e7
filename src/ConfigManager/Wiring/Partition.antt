-- ===== src/ConfigManager/Wiring/Partition.antt =====
-- `OnGetConfiguration`, ocpp1.6/configmanager/wiring.go: which keys it returns and which it reports as
-- unknown.
use ocpp_go.Base.{String, ◌≡◌, refl, ap, inl, inr, none, some, List, [], ◌∷◌, arith, Option-cases}
use ocpp_go.ConfigManager.Memory.{Memory}
use ocpp_go.ConfigManager.Config.{ConfigurationKey, find_key_index, deep_copy_key, deep_copy_keys}
use ocpp_go.ConfigManager.Config.Lookup.{find, find_key_index-find}
use ocpp_go.ConfigManager.Manager.{ManagerV16}
use ocpp_go.ConfigManager.Wiring.{split_keys, on_get_configuration}

-- The stored keys of the requested names, in the order of the request.
abbrev pub known_of : List ConfigurationKey → List String → List ConfigurationKey
known_of keys [] = []
known_of keys (k ∷ requested) = elim (find keys k) [
  | none ↦ known_of keys requested
  | some item ↦ item ∷ known_of keys requested
]

-- The requested names that the store does not have.
abbrev pub unknown_of : List ConfigurationKey → List String → List String
unknown_of keys [] = []
unknown_of keys (k ∷ requested) = elim (find keys k) [
  | none ↦ k ∷ unknown_of keys requested
  | some item ↦ unknown_of keys requested
]

split_keys-partition :
    (keys : List ConfigurationKey) (requested : List String) (m : Memory)
    → split_keys keys requested m
      ≡ let (m', known) = deep_copy_keys (known_of keys requested) m in
        (m', known, unknown_of keys requested)
unfolding split_keys deep_copy_keys
split_keys-partition keys [] m = refl
split_keys-partition keys (k ∷ requested) m = elim (Option-cases (find_key_index keys k)) [
  | inl e ↦
      let f : find keys k ≡ none = ground (arith, find_key_index-find keys k) in
      rw (e, split_keys)
        (rw (f, known_of, unknown_of)
          (ap (λ r. (r.0, r.1, k ∷ r.2)) (split_keys-partition keys requested m)))
  | inr ((item, i), e) ↦
      let f : find keys k ≡ some item = ground (arith, find_key_index-find keys k) in
      let (m', copy) = deep_copy_key item m in
      rw (e, split_keys)
        (rw (f, known_of, unknown_of)
          (ap (λ r. (r.0, copy ∷ r.1, r.2)) (split_keys-partition keys requested m')))
]

-- Asked for at least one key, OnGetConfiguration returns deep copies of the stored keys of the
-- requested names, and as unknown the names that the store does not have, both in the order of the
-- request.
pub on_get_configuration-partition :
    (g : ManagerV16) (k : String) (requested : List String) (m : Memory)
    → on_get_configuration g (some (k ∷ requested)) m
      ≡ let keys = g.ocpp_config.keys in
        let (m', known) = deep_copy_keys (known_of keys (k ∷ requested)) m in
        (m', record { configuration_key = known; unknown_key = unknown_of keys (k ∷ requested) })
unfolding on_get_configuration
on_get_configuration-partition g k requested m =
    ap (λ r. (r.0, record { configuration_key = r.1; unknown_key = r.2 }))
      (split_keys-partition g.ocpp_config.keys (k ∷ requested) m)
