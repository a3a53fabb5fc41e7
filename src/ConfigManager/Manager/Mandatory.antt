-- ===== src/ConfigManager/Manager/Mandatory.antt =====
-- The mandatory keys, ocpp1.6/configmanager/manager.go: a manager always has them.
use ocpp_go.Base.{
  ◌≡◌, ◌↔◌, refl, sym, ap, inl, inr, true, Option, none, some, List, [], ◌∷◌, arith, text_discrete,
  Option-cases, All, is_some, Dec-rule,
}
use ocpp_go.ConfigManager.Memory.{Memory, Pointer, deref}
use ocpp_go.ConfigManager.Config.{
  Config, ConfigurationKey, Key, Result, ok, err, Error, deep_copy_config, deep_copy_keys,
  deep_copy_value, ok-subst,
}
use ocpp_go.ConfigManager.Config.Methods.{missing_keys, validate, complain, get_configuration_value}
use ocpp_go.ConfigManager.Config.Lookup.{find, names, find_of_names, find_key_index-find}
use ocpp_go.ConfigManager.Manager.{
  ManagerV16, new_with, set_configuration, update_key, on_update_key, register_handler,
  OnUpdateHandler, KeyValidator, register_custom_key_validator, set_reboot_required_keys,
}
use ocpp_go.ConfigManager.Manager.Update.{Applied, update_key-Atomic}

abbrev pub HasKeys : List ConfigurationKey → List Key → Type 0
HasKeys keys = All λ key. is_some (find keys key) ≡ true

missing_keys-HasKeys :
    (keys : List ConfigurationKey) (mandatory : List Key)
    → missing_keys keys mandatory ≡ []
    → HasKeys keys mandatory
unfolding missing_keys
missing_keys-HasKeys keys [] e = tt
missing_keys-HasKeys keys (key ∷ mandatory) e =
    ground (arith, find_key_index-find keys key, missing_keys-HasKeys keys mandatory)

HasKeys-missing_keys :
    (keys : List ConfigurationKey) (mandatory : List Key)
    → HasKeys keys mandatory
    → missing_keys keys mandatory ≡ []
unfolding missing_keys
HasKeys-missing_keys keys [] h = refl
HasKeys-missing_keys keys (key ∷ mandatory) h =
    ground (arith, find_key_index-find keys key, HasKeys-missing_keys keys mandatory h.1)

-- Validate accepts a configuration exactly when it has every mandatory key.
pub validate-HasKeys :
    (c : Config) (mandatory : List Key) → (validate c mandatory ≡ none) ↔ HasKeys c.keys mandatory
unfolding validate
validate-HasKeys c mandatory = (
  λ e. missing_keys-HasKeys c.keys mandatory (ground arith),
  λ h. ap complain (HasKeys-missing_keys c.keys mandatory h),
)

HasKeys-update :
    (g g' : ManagerV16) (key : Key) (value : Pointer) (mandatory : List Key)
    → Applied g g' key value
    → HasKeys g.ocpp_config.keys mandatory
    → HasKeys g'.ocpp_config.keys mandatory
HasKeys-update g g' key value [] a h = tt
HasKeys-update g g' key value (x ∷ mandatory) a h =
    (ground (arith, a.seen x), HasKeys-update g g' key value mandatory a h.1)

-- The manager has all its mandatory keys.
abbrev pub IsComplete : ManagerV16 → Type 0
IsComplete g = HasKeys g.ocpp_config.keys g.mandatory_keys

pub update_key-IsComplete :
    (g : ManagerV16) (key : Key) (value : Pointer) (m : Memory)
    → IsComplete g
    → IsComplete (update_key g key value m).1
update_key-IsComplete g key value m h = elim (update_key-Atomic g key value m) [
  | inl (_, a, _) ↦
      rw a.mandatory (HasKeys-update g (update_key g key value m).1 key value g.mandatory_keys a h)
  | inr (_, e, _) ↦ rw e h
]

names-deep_copy_keys :
    (keys : List ConfigurationKey) (m : Memory) → names (deep_copy_keys keys m).1 ≡ names keys
unfolding deep_copy_keys
names-deep_copy_keys [] m = refl
names-deep_copy_keys (k ∷ keys) m =
    let (m', v) = deep_copy_value (deref m k.value) m in
    ap (λ rest. k.key ∷ rest) (names-deep_copy_keys keys m')

HasKeys-of_names :
    (keys keys' : List ConfigurationKey) (mandatory : List Key)
    → names keys ≡ names keys'
    → HasKeys keys mandatory
    → HasKeys keys' mandatory
HasKeys-of_names keys keys' [] e h = tt
HasKeys-of_names keys keys' (x ∷ mandatory) e h =
    (ground (arith, find_of_names keys keys' x e), HasKeys-of_names keys keys' mandatory e h.1)

copy-HasKeys :
    (c : Config) (mandatory : List Key) (m : Memory)
    → validate c mandatory ≡ none
    → HasKeys (deep_copy_config c m).1.keys mandatory
unfolding deep_copy_config
copy-HasKeys c mandatory m e =
    HasKeys-of_names c.keys (deep_copy_keys c.keys m).1 mandatory
      (sym (names-deep_copy_keys c.keys m)) ((validate-HasKeys c mandatory).0 e)

set_configuration-IsComplete :
    (g : ManagerV16) (c : Config) (m : Memory)
    → IsComplete g
    → IsComplete (set_configuration g c m).1
unfolding set_configuration
set_configuration-IsComplete g c m h = elim (Option-cases (validate c g.mandatory_keys)) [
  | inl valid ↦ rw (valid, set_configuration) (copy-HasKeys c g.mandatory_keys m valid)
  | inr (e, bad) ↦ rw (bad, set_configuration) h
]

register_handler-IsComplete :
    (o : Result Pointer) (g : ManagerV16) (key : Key) (handler : OnUpdateHandler)
    → IsComplete g
    → IsComplete (register_handler o g key handler).0
unfolding register_handler
register_handler-IsComplete (err e) g key handler h = h
register_handler-IsComplete (ok p) g key handler h = h

on_update_key-IsComplete :
    (g : ManagerV16) (key : Key) (handler : Option OnUpdateHandler)
    → IsComplete g
    → IsComplete (on_update_key g key handler).0
unfolding on_update_key
on_update_key-IsComplete g key none h =
    Dec-rule (λ (r : ManagerV16 × Option Error). IsComplete r.0) (text_discrete key "") (λ _. h)
      λ _. h
on_update_key-IsComplete g key (some f) h =
    Dec-rule (λ (r : ManagerV16 × Option Error). IsComplete r.0) (text_discrete key "") (λ _. h)
      λ _. register_handler-IsComplete (get_configuration_value g.ocpp_config key) g key f h

-- A call of any method that changes the manager, but `SetMandatoryKeys`.
pub data Step : ManagerV16 → ManagerV16 → Type 0 where
  updates :
      (g : ManagerV16) (key : Key) (value : Pointer) (m : Memory)
      → Step g (update_key g key value m).1
  configures : (g : ManagerV16) (c : Config) (m : Memory) → Step g (set_configuration g c m).1
  handles :
      (g : ManagerV16) (key : Key) (handler : Option OnUpdateHandler)
      → Step g (on_update_key g key handler).0
  validates :
      (g : ManagerV16) (validator : Option KeyValidator)
      → Step g (register_custom_key_validator g validator)
  reboots : (g : ManagerV16) (keys : List Key) → Step g (set_reboot_required_keys g keys)

pub data Reach (g : ManagerV16) : ManagerV16 → Type 0 where
  here : Reach g g
  next : {h k : ManagerV16} → Reach g h → Step h k → Reach g k

Step-IsComplete : {g h : ManagerV16} → Step g h → IsComplete g → IsComplete h
unfolding register_custom_key_validator set_reboot_required_keys
Step-IsComplete (updates g key value m) c = update_key-IsComplete g key value m c
Step-IsComplete (configures g config m) c = set_configuration-IsComplete g config m c
Step-IsComplete (handles g key handler) c = on_update_key-IsComplete g key handler c
Step-IsComplete (validates g validator) c = c
Step-IsComplete (reboots g keys) c = c

Reach-IsComplete : {g h : ManagerV16} → IsComplete g → Reach g h → IsComplete h
Reach-IsComplete c here = c
Reach-IsComplete c (next r s) = Step-IsComplete s (Reach-IsComplete c r)

-- A manager that NewManagerV16 made has all its mandatory keys after any calls of its methods
-- other than SetMandatoryKeys.
pub new_with-IsComplete :
    (c : Config) (mandatory : List Key) (m : Memory) (g h : ManagerV16)
    → (new_with c mandatory m).1 ≡ ok g
    → Reach g h
    → IsComplete h
unfolding new_with
new_with-IsComplete c mandatory m g h e r = Reach-IsComplete first r
  where
    made : (o : Option Error) → validate c mandatory ≡ o → IsComplete g
    made none valid =
        ok-subst IsComplete (rw (valid, new_with) at e) (copy-HasKeys c mandatory m valid)
    made (some x) bad =
        let no : ◌≡◌ {A = Result ManagerV16} (err x) (ok g) = rw (bad, new_with) at e in cc

    first : IsComplete g
    first = made (validate c mandatory) refl

-- With a valid configuration a manager is made.
pub new_with-valid :
    (c : Config) (mandatory : List Key) (m : Memory)
    → validate c mandatory ≡ none
    → new_with c mandatory m
      ≡ let (m', copy) = deep_copy_config c m in
        (
          m',
          ok (record {
            ocpp_config = copy;
            mandatory_keys = mandatory;
            reboot_required_keys = [];
            key_validator = none;
            on_update_handlers = [];
          }),
        )
unfolding new_with
new_with-valid c mandatory m e = rw (e, new_with)
