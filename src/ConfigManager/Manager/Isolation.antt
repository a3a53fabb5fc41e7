-- ===== src/ConfigManager/Manager/Isolation.antt =====
-- Which cells the manager shares with its caller, ocpp1.6/configmanager/manager.go.
use ocpp_go.Base.{
  ℕ, ◌<◌, ◌≤◌, String, ◌≡◌, refl, ◌∙◌, inl, inr, if_pos, none, some, List, length, text_discrete,
}
use ocpp_go.ConfigManager.Memory.{Memory, deref, read-write_self, write}
use ocpp_go.ConfigManager.Config.{
  Config, ConfigurationKey, Key, ok, deep_copy_config, deep_copy_keys,
}
use ocpp_go.ConfigManager.Config.Methods.{validate}
use ocpp_go.ConfigManager.Config.Copies.{
  view, AllWithin, view-write, view-Extends, deep_copy_keys_fresh,
}
use ocpp_go.ConfigManager.Config.Lookup.{find}
use ocpp_go.ConfigManager.Manager.{
  ManagerV16, returns, new_with, set_configuration, get_configuration, update_key,
}
use ocpp_go.ConfigManager.Manager.Update.{update_key-Atomic}

-- The pointers of the store are nil or name cells of the memory.
abbrev pub IsAllocated : Memory → List ConfigurationKey → Type 0
IsAllocated m = AllWithin 0 (length m.cells)

-- What GetConfiguration returns reads as the store does and lies in new cells: after a write by
-- the caller to any cell that was not there before, the store reads as before.
pub get_configuration_isolated :
    (g : ManagerV16) (m : Memory) (a : ℕ) (v : String)
    → IsAllocated m g.ocpp_config.keys
    → length m.cells ≤ a
    → let (m', keys) = get_configuration g m in
      (view m' keys ≡ view m g.ocpp_config.keys)
      × AllWithin (length m.cells) (length m'.cells) keys
      × (view (write a v m') g.ocpp_config.keys ≡ view m g.ocpp_config.keys)
unfolding get_configuration
get_configuration_isolated g m a v h fresh =
    let keys = g.ocpp_config.keys in
    let (e, w, same) = deep_copy_keys_fresh 0 keys m h in
    let (m', copy) = deep_copy_keys keys m in
    (
      same,
      w,
      view-write m' a 0 (length m.cells) v keys h (inr fresh) ∙ view-Extends m m' 0 keys e h,
    )

copy_isolated :
    (c : Config) (m : Memory) (a : ℕ) (v : String)
    → IsAllocated m c.keys
    → a < length m.cells
    → let (m', c') = deep_copy_config c m in view (write a v m') c'.keys ≡ view m c.keys
unfolding deep_copy_config
copy_isolated c m a v h old =
    let (e, w, same) = deep_copy_keys_fresh 0 c.keys m h in
    let (m', keys) = deep_copy_keys c.keys m in
    view-write m' a (length m.cells) (length m'.cells) v keys w (inl old) ∙ same

-- Given a configuration with all the mandatory keys, a manager is made, reads as that
-- configuration, and does so after a write to any cell that was there before it.
pub new_with_isolated :
    (c : Config) (mandatory : List Key) (m : Memory) (a : ℕ) (v : String)
    → validate c mandatory ≡ none
    → IsAllocated m c.keys
    → a < length m.cells
    → let (m', r) = new_with c mandatory m in
      (g : ManagerV16) × (r ≡ ok g) × (view (write a v m') g.ocpp_config.keys ≡ view m c.keys)
unfolding new_with
new_with_isolated c mandatory m a v valid h old =
    rw (valid, new_with) (_, refl, copy_isolated c m a v h old)

-- A configuration with all the mandatory keys is accepted by SetConfiguration, and the manager
-- reads as it after a write to any cell that was there before the call.
pub set_configuration_isolated :
    (g : ManagerV16) (c : Config) (m : Memory) (a : ℕ) (v : String)
    → validate c g.mandatory_keys ≡ none
    → IsAllocated m c.keys
    → a < length m.cells
    → let (m', g', e) = set_configuration g c m in
      (e ≡ none) × (view (write a v m') g'.ocpp_config.keys ≡ view m c.keys)
unfolding set_configuration
set_configuration_isolated g c m a v valid h old =
    rw (valid, set_configuration) (refl, copy_isolated c m a v h old)

-- UpdateKey keeps the pointer that its caller holds: after a successful update a write by the
-- caller to that cell changes the text of the key in the store.
pub update_key-shares :
    (g : ManagerV16) (key : Key) (a : ℕ) (v : String) (m : Memory)
    → (update_key g key (some a) m).2 ≡ returns none
    → a < length (update_key g key (some a) m).0.cells
    → let (m', g', _) = update_key g key (some a) m in
      (k : ConfigurationKey) × (find g'.ocpp_config.keys key ≡ some k)
      × (deref (write a v m') k.value ≡ some v)
update_key-shares g key a v m e h = elim (update_key-Atomic g key (some a) m) [
  | inl (_, p, _) ↦ (
    record (p.original) { value = some a },
    p.seen key ∙ if_pos (text_discrete key key) refl _ _,
    read-write_self (update_key g key (some a) m).0 a v h,
  )
  | inr (n, _, _) ↦ absurd (n e)
]
