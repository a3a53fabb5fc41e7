-- ===== src/ConfigManager/Wiring/Status.antt =====
-- `OnChangeConfiguration`, ocpp1.6/configmanager/wiring.go: what its status says about the store.
use ocpp_go.Base.{
  ℕ, ◌≡◌, ◌≢◌, refl, ap, ◌∙◌, ◌⊎◌, inl, inr, true, false, Option, none, some, arith, text_discrete,
  if◌then◌else◌, if_neg, Bool-cases,
}
use ocpp_go.Dict.{lookup}
use ocpp_go.ConfigManager.Memory.{Memory, Pointer, ptr}
use ocpp_go.ConfigManager.Config.{
  ConfigurationKey, Key, Error, key_validation_failed, contains_key, is_key_not_found, read_only,
  find_key_index,
}
use ocpp_go.ConfigManager.Config.Lookup.{find}
use ocpp_go.ConfigManager.Manager.{
  ManagerV16, KeyValidator, Ending, returns, panics, OnUpdateHandler, update_key_locked, update_key,
  validate_with, store_value, validate_key_locked, after_validation, apply_value, notify,
  run_handler_locked,
}
use ocpp_go.ConfigManager.Manager.Update.{Applied, Atomic, update_key-Atomic}
use ocpp_go.ConfigManager.Wiring.{
  ChangeConfigurationRequest, accepted, rejected, reboot_required, not_supported, Answer, confirmed,
  answer, on_change_configuration,
}

-- What an answer says: the new value is in place, and a reboot is asked for just where the key needs
-- one; or nothing has changed.
abbrev pub Tells : ManagerV16 → Key → Pointer → ManagerV16 → Answer → Type 0
Tells g key value g' a =
    ((a ≡ confirmed accepted)
      × (contains_key g'.reboot_required_keys key ≡ false)
      × Applied g g' key value)
    ⊎ ((a ≡ confirmed reboot_required)
        × (contains_key g'.reboot_required_keys key ≡ true)
        × Applied g g' key value)
    ⊎ ((a ≢ confirmed accepted) × (a ≢ confirmed reboot_required) × (g' ≡ g))

answer-Tells :
    (g g' : ManagerV16) (key : Key) (value : Pointer) (m m' : Memory) (ending : Ending)
    → Atomic g key value m (m', g', ending)
    → Tells g key value g' (answer g' key ending)
unfolding answer
answer-Tells g g' key value m m' (returns none) (inl (e, a, _)) =
    elim (Bool-cases (contains_key g'.reboot_required_keys key)) [
      | inl b ↦ inr (inl (rw b refl, b, a))
      | inr b ↦ inl (rw b refl, b, a)
    ]
answer-Tells g g' key value m m' (returns none) (inr (n, u, _)) = absurd (n refl)
answer-Tells g g' key value m m' (returns (some e)) (inl (h, a, _)) = cc
answer-Tells g g' key value m m' (returns (some e)) (inr (n, u, _)) =
    inr (inr (ground arith, ground arith, u))
answer-Tells g g' key value m m' (panics v) (inl (h, a, _)) = cc
answer-Tells g g' key value m m' (panics v) (inr (n, u, _)) = inr (inr (λ h. cc, λ h. cc, u))

-- The status of OnChangeConfiguration for a request that is not nil is true: Accepted and
-- RebootRequired mean that the new cell made for the requested text is the key's value and all
-- else is as before, the second exactly for keys that need a reboot; after any other status, and
-- after a panic, the manager is exactly as before.
pub on_change_configuration-Tells :
    (g : ManagerV16) (req : ChangeConfigurationRequest) (m : Memory)
    → let (m', g', a) = on_change_configuration g (some req) m in
      Tells g req.key (some (ptr req.value m).1) g' a
unfolding on_change_configuration update_key
on_change_configuration-Tells g req m =
    let (m', v) = ptr req.value m in
    let (m'', g', ending) = update_key g req.key (some v) m' in
    answer-Tells g g' req.key (some v) m' m'' ending (update_key-Atomic g req.key (some v) m')

module _ (g : ManagerV16) (key : Key) (value : Pointer) (m : Memory) (named : key ≢ "") where
  locked-validated :
      (o : Option Error)
      → validate_key_locked g key value m ≡ o
      → update_key_locked g key value m ≡ after_validation o g key value m
  unfolding update_key_locked
  locked-validated o e =
      if_neg (text_discrete key "") named _ _ ∙ ap (λ v. after_validation v g key value m) e

  locked-found :
      (o : Option (ConfigurationKey × ℕ))
      → validate_key_locked g key value m ≡ none
      → find_key_index g.ocpp_config.keys key ≡ o
      → update_key_locked g key value m ≡ apply_value o g key value m
  unfolding after_validation
  locked-found o valid e = locked-validated none valid ∙ ap (λ v. apply_value v g key value m) e

  locked-handled :
      (k : ConfigurationKey) (i : ℕ) (handler : OnUpdateHandler)
      → validate_key_locked g key value m ≡ none
      → find_key_index g.ocpp_config.keys key ≡ some (k, i)
      → k.readonly ≡ false
      → lookup key g.on_update_handlers ≡ some handler
      → update_key_locked g key value m
        ≡ run_handler_locked (store_value g i value) handler value i k.value m
  unfolding apply_value
  locked-handled k i handler valid found free there =
      locked-found (some (k, i)) valid found
      ∙ ap
          (λ b.
            if b
            then (m, g, returns (some read_only))
            else notify (lookup key g.on_update_handlers) (store_value g i value) value i k.value m)
          free
      ∙ ap (λ h. notify h (store_value g i value) value i k.value m) there

-- A known, writable key without a validator whose handler fails with an error that wraps
-- ErrKeyNotFound is reported as NotSupported, like an unknown key.
pub handler_not_found-not_supported :
    (g : ManagerV16) (req : ChangeConfigurationRequest) (m : Memory) (k : ConfigurationKey) (i : ℕ)
    → (handler : OnUpdateHandler) (e : Error) → req.key ≢ ""
    → g.key_validator ≡ none
    → find_key_index g.ocpp_config.keys req.key ≡ some (k, i)
    → k.readonly ≡ false
    → lookup req.key g.on_update_handlers ≡ some handler
    → (handler (some (ptr req.value m).1) (ptr req.value m).0).1 ≡ returns (some e)
    → is_key_not_found e ≡ true
    → (on_change_configuration g (some req) m).2 ≡ confirmed not_supported
unfolding on_change_configuration validate_key_locked run_handler_locked
handler_not_found-not_supported g req m k i handler e ne valid found free there fails is =
    let (m', a) = ptr req.value m in
    let r =
      locked-handled g req.key (some a) m' ne k i handler
        (ap (λ v. validate_with v req.key (some a) m') valid) found free there in
    rw r (rw (fails, run_handler_locked, answer) (rw is))

-- An unknown key that the custom validator refuses is Rejected, not NotSupported.
pub unknown_refused-rejected :
    (g : ManagerV16) (req : ChangeConfigurationRequest) (m : Memory) (validator : KeyValidator)
    → req.key ≢ ""
    → g.key_validator ≡ some validator
    → validator req.key (some (ptr req.value m).1) (ptr req.value m).0 ≡ false
    → find g.ocpp_config.keys req.key ≡ none
    → (on_change_configuration g (some req) m).2 ≡ confirmed rejected
unfolding on_change_configuration is_key_not_found validate_key_locked after_validation
unknown_refused-rejected g req m validator ne some_validator refuses unknown =
    let (m', a) = ptr req.value m in
    rw (
      locked-validated g req.key (some a) m' ne (some (key_validation_failed req.key)) (
        ap (λ v. validate_with v req.key (some a) m') some_validator
        ∙ ap (λ b. if b then none else some (key_validation_failed req.key)) refuses))
