-- ===== src/ConfigManager/Defaults/Complete.antt =====
-- The default configurations against the mandatory keys, ocpp1.6/configmanager/defaults.go and keys.go.
use ocpp_go.Base.{
  String, ◌≡◌, ◌≢◌, refl, Bool, true, none, List, [], ◌∷◌, ◌++◌, map, arith, ap, text_discrete,
  ◌&&◌, map-append, sym, subst,
}
use ocpp_go.Base.Int.{pos}
use ocpp_go.ConfigManager.Memory.{Memory, ptr}
use ocpp_go.ConfigManager.Config.{
  Config, ConfigurationKey, Key, Result, ok, err, ok-subst, contains_key,
}
use ocpp_go.ConfigManager.Config.Methods.{validate}
use ocpp_go.ConfigManager.Config.Lookup.{names, find_contains}
use ocpp_go.ConfigManager.Keys.{
  core_profile_name, smart_charging_profile_name, local_auth_profile_name, firmware_profile_name,
  iso15118_profile_name, mandatory_keys_of, get_mandatory_keys_for_profile,
}
use ocpp_go.ConfigManager.Manager.{ManagerV16}
use ocpp_go.ConfigManager.Manager.Mandatory.{HasKeys, validate-HasKeys, new_with-valid}
use ocpp_go.ConfigManager.Defaults.{
  Default, build, defaults_of, defaults_of_all, default_configuration_from_profiles,
  new_manager_v16,
}

-- Every key of the first list stands in the second.
all_present : List Key → List String → Bool
unfolding contains_key
all_present [] names = true
all_present (k ∷ keys) names = contains_key names k && all_present keys names

abbrev keys_of : List Default → List String
keys_of = map λ d. d.key

contains_key-append :
    (xs ys : List String) (k : Key) → contains_key xs k ≡ true → contains_key (xs ++ ys) k ≡ true
unfolding contains_key
contains_key-append [] ys k h = cc
contains_key-append (x ∷ xs) ys k h = ground (arith, contains_key-append xs ys k)

contains_key-append_right :
    (xs ys : List String) (k : Key) → contains_key ys k ≡ true → contains_key (xs ++ ys) k ≡ true
unfolding contains_key
contains_key-append_right [] ys k h = h
contains_key-append_right (x ∷ xs) ys k h = ground (arith, contains_key-append_right xs ys k)

all_present-append :
    (keys keys' : List Key) (xs ys : List String)
    → all_present keys xs ≡ true
    → all_present keys' ys ≡ true
    → all_present (keys ++ keys') (xs ++ ys) ≡ true
unfolding all_present
all_present-append [] [] xs ys h h' = refl
all_present-append [] (k ∷ keys') xs ys h h' =
    ground (arith, contains_key-append_right xs ys k, all_present-append [] keys' xs ys refl)
all_present-append (k ∷ keys) keys' xs ys h h' =
    ground (arith, contains_key-append xs ys k, all_present-append keys keys' xs ys)

-- A profile's defaults have its mandatory keys.
abbrev Covers : String → List Default → Type 0
Covers profile ds = all_present (mandatory_keys_of profile) (keys_of ds) ≡ true

core : (ds : List Default) → defaults_of core_profile_name ≡ ok ds → Covers core_profile_name ds
unfolding defaults_of mandatory_keys_of all_present text_discrete
core ds e = ok-subst (Covers core_profile_name) e refl

smart_charging :
    (ds : List Default)
    → defaults_of smart_charging_profile_name ≡ ok ds
    → Covers smart_charging_profile_name ds
unfolding defaults_of mandatory_keys_of all_present text_discrete
smart_charging ds e = ok-subst (Covers smart_charging_profile_name) e refl

local_auth :
    (ds : List Default)
    → defaults_of local_auth_profile_name ≡ ok ds
    → Covers local_auth_profile_name ds
unfolding defaults_of mandatory_keys_of all_present text_discrete
local_auth ds e = ok-subst (Covers local_auth_profile_name) e refl

firmware :
    (ds : List Default)
    → defaults_of firmware_profile_name ≡ ok ds
    → Covers firmware_profile_name ds
unfolding defaults_of mandatory_keys_of all_present text_discrete
firmware ds e = ok-subst (Covers firmware_profile_name) e refl

iso15118 :
    (ds : List Default)
    → defaults_of iso15118_profile_name ≡ ok ds
    → Covers iso15118_profile_name ds
unfolding defaults_of mandatory_keys_of all_present text_discrete
iso15118 ds e = ok-subst (Covers iso15118_profile_name) e refl

at :
    (profile name : String) (ds : List Default)
    → profile ≡ name
    → (defaults_of name ≡ ok ds → Covers name ds)
    → defaults_of profile ≡ ok ds
    → Covers profile ds
at profile name ds p f e =
    subst (λ n. Covers n ds) (sym p) (f (subst (λ n. defaults_of n ≡ ok ds) p e))

not_known :
    (profile : String) (ds : List Default)
    → profile ≢ core_profile_name
    → profile ≢ local_auth_profile_name
    → profile ≢ smart_charging_profile_name
    → profile ≢ firmware_profile_name
    → profile ≢ iso15118_profile_name
    → defaults_of profile ≢ ok ds
unfolding defaults_of
not_known profile ds a b c d f e = ground arith

defaults_of-Covers :
    (profile : String) (ds : List Default) → defaults_of profile ≡ ok ds → Covers profile ds
defaults_of-Covers profile ds e = elim (text_discrete profile core_profile_name) [
  | yes p ↦ at profile core_profile_name ds p (core ds) e
  | no a ↦ elim (text_discrete profile local_auth_profile_name) [
    | yes p ↦ at profile local_auth_profile_name ds p (local_auth ds) e
    | no b ↦ elim (text_discrete profile smart_charging_profile_name) [
      | yes p ↦ at profile smart_charging_profile_name ds p (smart_charging ds) e
      | no c ↦ elim (text_discrete profile firmware_profile_name) [
        | yes p ↦ at profile firmware_profile_name ds p (firmware ds) e
        | no d ↦ elim (text_discrete profile iso15118_profile_name) [
          | yes p ↦ at profile iso15118_profile_name ds p (iso15118 ds) e
          | no f ↦ absurd (not_known profile ds a b c d f e)
        ]
      ]
    ]
  ]
]

abbrev CoversAll : List String → List Default → Type 0
CoversAll profiles ds = all_present (get_mandatory_keys_for_profile profiles) (keys_of ds) ≡ true

Covers-append :
    (profile : String) (profiles : List String) (ds rest : List Default)
    → Covers profile ds
    → CoversAll profiles rest
    → CoversAll (profile ∷ profiles) (ds ++ rest)
unfolding get_mandatory_keys_for_profile
Covers-append profile profiles ds rest h h' = rw (map-append (λ (d : Default). d.key) ds rest) (
    all_present-append (mandatory_keys_of profile) (get_mandatory_keys_for_profile profiles)
      (keys_of ds) (keys_of rest) h h')

defaults-cons :
    (profile : String) (profiles : List String) (ds : List Default) (a b : Result (List Default))
    → defaults_of profile ≡ a
    → defaults_of_all profiles ≡ b
    → defaults_of_all (profile ∷ profiles) ≡ ok ds
    → ((rest : List Default) → b ≡ ok rest → CoversAll profiles rest)
    → CoversAll (profile ∷ profiles) ds
unfolding defaults_of_all
defaults-cons profile profiles ds (err x) b p q e h =
    let no : ◌≡◌ {A = Result (List Default)} (err x) (ok ds) = rw (p, defaults_of_all) at e in cc
defaults-cons profile profiles ds (ok a) (err x) p q e h =
    let no : ◌≡◌ {A = Result (List Default)} (err x) (ok ds) = rw (p, q, defaults_of_all) at e in cc
defaults-cons profile profiles ds (ok a) (ok b) p q e h =
    ok-subst (CoversAll (profile ∷ profiles)) (rw (p, q, defaults_of_all) at e)
      (Covers-append profile profiles a b (defaults_of-Covers profile a p) (h b refl))

defaults_of_all-Covers :
    (profiles : List String) (ds : List Default)
    → defaults_of_all profiles ≡ ok ds
    → CoversAll profiles ds
unfolding get_mandatory_keys_for_profile all_present
defaults_of_all-Covers [] ds e = refl
defaults_of_all-Covers (profile ∷ profiles) ds e =
    defaults-cons profile profiles ds (defaults_of profile) (defaults_of_all profiles) refl refl e
      λ rest q. defaults_of_all-Covers profiles rest q

names-build : (ds : List Default) (m : Memory) → names (build ds m).1 ≡ keys_of ds
unfolding build
names-build [] m = refl
names-build (d ∷ ds) m = ap (λ rest. d.key ∷ rest) (names-build ds (ptr d.text m).0)

present-HasKeys :
    (keys : List ConfigurationKey) (mandatory : List Key) (ds : List Default)
    → names keys ≡ keys_of ds
    → all_present mandatory (keys_of ds) ≡ true
    → HasKeys keys mandatory
unfolding all_present
present-HasKeys keys [] ds e h = tt
present-HasKeys keys (k ∷ mandatory) ds e h =
    (ground (arith, find_contains keys k), present-HasKeys keys mandatory ds e (ground arith))

-- Whatever profiles have default configurations, in whatever number and order, the configuration
-- made from them is accepted by NewManagerV16 with the same profiles.
pub default_configuration-accepted :
    (profile : String) (profiles : List String) (m : Memory) (ds : List Default)
    → defaults_of_all (profile ∷ profiles) ≡ ok ds
    → let (m', r) = default_configuration_from_profiles (profile ∷ profiles) m in
      (c : Config) × (r ≡ ok c)
      × ((g : ManagerV16) × ((new_manager_v16 c (profile ∷ profiles) m').1 ≡ ok g))
unfolding default_configuration_from_profiles new_manager_v16
default_configuration-accepted profile profiles m ds e = rw e (
  _,
  refl,
  (
    _,
    ap (λ r. r.1)
        (new_with-valid _ (get_mandatory_keys_for_profile (profile ∷ profiles)) (build ds m).0
          valid),
  ),
)
  where
    valid :
        validate
          (record { version = pos 1; keys = (build ds m).1 })
          (get_mandatory_keys_for_profile (profile ∷ profiles))
        ≡ none
    valid = (validate-HasKeys _ _).1 (
        present-HasKeys (build ds m).1 _ ds (names-build ds m)
          (defaults_of_all-Covers (profile ∷ profiles) ds e))
