-- ===== src/ConfigManager/Config.antt =====
-- ocpp1.6/configmanager/configuration.go and helpers.go: the configuration as a value, its lookups
-- and its copies. ocpp1.6/core/get_configuration.go gives the key's record.
pub mod Methods
pub mod Lookup
pub mod Copies
use ocpp_go.Base.{
  ℕ, zero, suc, String, ite, Bool, true, false, Option, none, some, List, [], ◌∷◌, text_discrete,
  ◌≡◌, subst,
}
use ocpp_go.Base.Int.{ℤ}
use ocpp_go.ConfigManager.Memory.{Memory, Pointer, deref, ptr}

pub record ConfigurationKey : Type 0 where
  pub key : String
  pub readonly : Bool
  pub value : Pointer

pub record Config : Type 0 where
  pub version : ℤ
  pub keys : List ConfigurationKey

-- `Key` is a string; its `String` method returns it.
abbrev pub Key : Type 0
Key = String

-- `other` is an error of the consumer's, `wrapped` one that wraps another for `errors.Is`.
pub data Error : Type 0 where
  key_not_found : Error
  read_only : Error
  key_cannot_be_empty : Error
  nil_handler : Error
  key_validation_failed : Key → Error
  missing_mandatory_keys : List String → Error
  no_profiles_provided : Error
  unknown_profile : String → Error
  other : String → Error
  wrapped : String → Error → Error

-- `errors.Is(err, ErrKeyNotFound)`
unfoldable pub is_key_not_found : Error → Bool
is_key_not_found key_not_found = true
is_key_not_found (wrapped text e) = is_key_not_found e
is_key_not_found _ = false

pub data Result (A : Type 0) : Type 0 where
  ok : A → Result A
  err : Error → Result A

pub ok-subst :
    {A : Type 0} (P : A → Type 0) {a b : A} → ◌≡◌ {A = Result A} (ok a) (ok b) → P a → P b
ok-subst P h p = subst P (cc) p

unfoldable pub contains_key : List Key → Key → Bool
contains_key [] key = false
contains_key (k ∷ keys) key = ite (text_discrete k key) true (contains_key keys key)

-- The loop of `findKeyIndex`, from index `i` on; `none` is the index -1 with `false`.
unfoldable pub find_from : ℕ → List ConfigurationKey → String → Option (ConfigurationKey × ℕ)
find_from i [] key = none
find_from i (k ∷ keys) key =
    ite (text_discrete k.key key) (some (k, i)) (find_from (suc i) keys key)

unfoldable pub find_key_index : List ConfigurationKey → String → Option (ConfigurationKey × ℕ)
unfolding find_from
find_key_index keys key = find_from 0 keys key

-- `keys[i].Value = v`
unfoldable pub set_value : List ConfigurationKey → ℕ → Pointer → List ConfigurationKey
set_value [] i v = []
set_value (k ∷ keys) zero v = record k { value = v } ∷ keys
set_value (k ∷ keys) (suc i) v = k ∷ set_value keys i v

-- `keys[i].Readonly = b`
unfoldable pub set_readonly : List ConfigurationKey → ℕ → Bool → List ConfigurationKey
set_readonly [] i b = []
set_readonly (k ∷ keys) zero b = record k { readonly = b } ∷ keys
set_readonly (k ∷ keys) (suc i) b = k ∷ set_readonly keys i b

-- The text behind a pointer is read and put into a new cell; nil stays nil.
unfoldable pub deep_copy_value : Option String → Memory → Memory × Pointer
unfolding ptr
deep_copy_value none m = (m, none)
deep_copy_value (some v) m = let (m', a) = ptr v m in (m', some a)

unfoldable pub deep_copy_key : ConfigurationKey → Memory → Memory × ConfigurationKey
unfolding deep_copy_value
deep_copy_key k m =
    let (m', v) = deep_copy_value (deref m k.value) m in (m', record k { value = v })

unfoldable pub deep_copy_keys : List ConfigurationKey → Memory → Memory × List ConfigurationKey
unfolding deep_copy_key
deep_copy_keys [] m = (m, [])
deep_copy_keys (k ∷ keys) m =
    let (m', k') = deep_copy_key k m in
    let (m'', keys') = deep_copy_keys keys m' in (m'', k' ∷ keys')

unfoldable pub deep_copy_config : Config → Memory → Memory × Config
unfolding deep_copy_keys
deep_copy_config c m =
    let (m', keys) = deep_copy_keys c.keys m in (m', record { version = c.version; keys = keys })
