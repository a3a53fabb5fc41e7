-- ===== src/ConfigManager/Manager/Update.antt =====
-- `updateKeyLocked`, ocpp1.6/configmanager/manager.go: the value is applied, or nothing has changed.
use ocpp_go.Base.{
  ℕ, String, ◌≡◌, ◌≢◌, refl, ap, ◌⊎◌, inl, inr, ite, Bool, true, false, Option, none, some, arith,
  text_discrete, if◌then◌else◌, Dec-rule,
}
use ocpp_go.Dict.{lookup}
use ocpp_go.ConfigManager.Memory.{Memory, Pointer}
use ocpp_go.ConfigManager.Config.{
  ConfigurationKey, Key, Error, key_not_found, read_only, key_cannot_be_empty, find_key_index,
}
use ocpp_go.ConfigManager.Config.Lookup.{find, find_key_index-find, Writes, find_key_index-Writes}
use ocpp_go.ConfigManager.Manager.{
  ManagerV16, Ending, returns, panics, OnUpdateHandler, store_value, settle, notify, apply_value,
  after_validation, update_key, validate_key_locked,
}

-- The manager after a successful update: that key has the new value, and nothing else has changed.
pub record Applied (g g' : ManagerV16) (key : Key) (value : Pointer) : Type 0 where
  pub original : ConfigurationKey
  pub found : find g.ocpp_config.keys key ≡ some original
  pub writable : original.readonly ≡ false
  pub seen :
      (name : String)
      → find g'.ocpp_config.keys name
        ≡ ite
            (text_discrete key name)
            (some (record original { value = value }))
            (find g.ocpp_config.keys name)
  pub version : g'.ocpp_config.version ≡ g.ocpp_config.version
  pub mandatory : g'.mandatory_keys ≡ g.mandatory_keys
  pub reboot : g'.reboot_required_keys ≡ g.reboot_required_keys
  pub validator : g'.key_validator ≡ g.key_validator
  pub handlers : g'.on_update_handlers ≡ g.on_update_handlers

-- The key's handler was called on the value, its ending is the update's, and the memory is as it left it.
abbrev pub Handled : ManagerV16 → Key → Pointer → Memory → Memory × Ending → Type 0
Handled g key value m r =
    (handler : OnUpdateHandler) × (lookup key g.on_update_handlers ≡ some handler)
    × (handler value m ≡ r)

-- The key has no handler, and the memory is as it was.
abbrev pub Unhandled : ManagerV16 → Key → Memory → Memory → Type 0
Unhandled g key m m' = (lookup key g.on_update_handlers ≡ none) × (m' ≡ m)

-- All or nothing: nil is returned and the value is applied; or the manager is as it was, and the memory
-- too unless the handler was called. No cell changes but by the handler.
abbrev pub Atomic : ManagerV16 → Key → Pointer → Memory → Memory × ManagerV16 × Ending → Type 0
Atomic g key value m (m', g', ending) =
    ((ending ≡ returns none)
      × Applied g g' key value
      × (Unhandled g key m m' ⊎ Handled g key value m (m', ending)))
    ⊎ ((ending ≢ returns none) × (g' ≡ g) × ((m' ≡ m) ⊎ Handled g key value m (m', ending)))

refused :
    (g : ManagerV16) (key : Key) (value : Pointer) (m : Memory) (e : Error)
    → Atomic g key value m (m, g, returns (some e))
refused g key value m e = inr (λ h. cc, refl, inl refl)

settle-Atomic :
    (g : ManagerV16) (key : Key) (value : Pointer) (m m' : Memory) (i : ℕ) (orig : Pointer)
    → Applied g (store_value g i value) key value
    → store_value (store_value g i value) i orig ≡ g
    → (ending : Ending) → Handled g key value m (m', ending)
    → Atomic g key value m (m', settle ending (store_value g i value) i orig, ending)
unfolding settle
settle-Atomic g key value m m' i orig a u (returns none) c = inl (refl, a, inr c)
settle-Atomic g key value m m' i orig a u (returns (some e)) c = inr (λ h. cc, u, inr c)
settle-Atomic g key value m m' i orig a u (panics v) c = inr (λ h. cc, u, inr c)

notify-Atomic :
    (g : ManagerV16) (key : Key) (value : Pointer) (m : Memory) (i : ℕ) (orig : Pointer)
    → Applied g (store_value g i value) key value
    → store_value (store_value g i value) i orig ≡ g
    → (o : Option OnUpdateHandler) → lookup key g.on_update_handlers ≡ o
    → Atomic g key value m (notify o (store_value g i value) value i orig m)
unfolding notify
notify-Atomic g key value m i orig a u none e = inl (refl, a, inl (e, refl))
notify-Atomic g key value m i orig a u (some handler) e =
    let (m', ending) = handler value m in
    settle-Atomic g key value m m' i orig a u ending (handler, e, refl)

apply_value-Atomic :
    (g : ManagerV16) (key : Key) (value : Pointer) (m : Memory)
    → (o : Option (ConfigurationKey × ℕ)) → find_key_index g.ocpp_config.keys key ≡ o
    → Atomic g key value m (apply_value o g key value m)
unfolding apply_value
apply_value-Atomic g key value m none e = refused g key value m key_not_found
apply_value-Atomic g key value m (some (k, i)) e = split k.readonly refl
  where
    w : Writes g.ocpp_config.keys key k i value
    w = find_key_index-Writes g.ocpp_config.keys key k i value e

    a : k.readonly ≡ false → Applied g (store_value g i value) key value
    a free = record {
      original = k;
      found = ground (arith, find_key_index-find g.ocpp_config.keys key);
      writable = free;
      seen = w.seen;
      version = refl;
      mandatory = refl;
      reboot = refl;
      validator = refl;
      handlers = refl;
    }

    u : store_value (store_value g i value) i k.value ≡ g
    u = ap (λ keys. record g { ocpp_config = record (g.ocpp_config) { keys = keys } }) w.undone

    split :
        (b : Bool)
        → k.readonly ≡ b
        → Atomic g key value m (
            if b
            then (m, g, returns (some read_only))
            else notify (lookup key g.on_update_handlers) (store_value g i value) value i k.value m)
    split true e' = refused g key value m read_only
    split false e' =
        notify-Atomic g key value m i k.value (a e') u (lookup key g.on_update_handlers) refl

after_validation-Atomic :
    (o : Option Error) (g : ManagerV16) (key : Key) (value : Pointer) (m : Memory)
    → Atomic g key value m (after_validation o g key value m)
unfolding after_validation
after_validation-Atomic (some e) g key value m = refused g key value m e
after_validation-Atomic none g key value m =
    apply_value-Atomic g key value m (find_key_index g.ocpp_config.keys key) refl

-- UpdateKey is atomic, whatever the handler does: where nil is returned the key was there and
-- writable, it now has the value, every other field and key is as before, and the memory is as it
-- was or, where the key has a handler, as the call of it on the value left it; on any error and on
-- a panic of the handler every field, key and pointer of the manager is exactly as before, and so
-- is the memory, unless the handler was called and left it otherwise.
pub update_key-Atomic :
    (g : ManagerV16) (key : Key) (value : Pointer) (m : Memory)
    → Atomic g key value m (update_key g key value m)
unfolding update_key
update_key-Atomic g key value m =
    Dec-rule (Atomic g key value m) (text_discrete key "")
      (λ p. refused g key value m key_cannot_be_empty)
      λ p. after_validation-Atomic (validate_key_locked g key value m) g key value m
