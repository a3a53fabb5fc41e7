-- ===== src/ConfigManager/Config/Copies.antt =====
-- The deep copies of ocpp1.6/configmanager/helpers.go: the same keys, in cells of their own.
use ocpp_go.Base.{
  ℕ, ◌<◌, ◌≤◌, String, ◌≡◌, refl, ◌∙◌, ◌⊎◌, Bool, Option, none, some, List, [], ◌∷◌, arith, length,
  All,
}
use ocpp_go.ConfigManager.Memory.{
  Memory, Pointer, deref, write, Extends, Extends-refl, Extends-trans, ptr-Extends, ptr_fresh,
  read-ptr, read-write_ne,
}
use ocpp_go.ConfigManager.Config.{ConfigurationKey, deep_copy_value, deep_copy_keys}

-- A key as a reader of the memory sees it: with the text in place of the pointer.
pub record Entry : Type 0 where
  pub key : String
  pub readonly : Bool
  pub text : Option String

abbrev pub entry : Memory → ConfigurationKey → Entry
entry m k = record { key = k.key; readonly = k.readonly; text = deref m k.value }

abbrev pub view : Memory → List ConfigurationKey → List Entry
view m [] = []
view m (k ∷ keys) = entry m k ∷ view m keys

-- The pointers lie in cells `lo` up to `hi`, and are nil otherwise.
abbrev pub Within : ℕ → ℕ → Pointer → Type 0
Within lo hi none = Unit
Within lo hi (some a) = (lo ≤ a) × (a < hi)

abbrev pub AllWithin : ℕ → ℕ → List ConfigurationKey → Type 0
AllWithin lo hi = All λ k. Within lo hi k.value

deref-Extends :
    (m m' : Memory) (lo : ℕ) (p : Pointer)
    → Extends m m'
    → Within lo (length m.cells) p
    → deref m' p ≡ deref m p
deref-Extends m m' lo none g h = refl
deref-Extends m m' lo (some a) g h = g.keeps a h.1

pub view-Extends :
    (m m' : Memory) (lo : ℕ) (keys : List ConfigurationKey)
    → Extends m m'
    → AllWithin lo (length m.cells) keys
    → view m' keys ≡ view m keys
view-Extends m m' lo [] g h = refl
view-Extends m m' lo (k ∷ keys) g h =
    ground (arith, deref-Extends m m' lo k.value g h.0, view-Extends m m' lo keys g h.1)

-- A write outside the cells of the keys is not seen through them.
deref-write :
    (m : Memory) (a lo hi : ℕ) (v : String) (p : Pointer)
    → Within lo hi p
    → (a < lo) ⊎ (hi ≤ a)
    → deref (write a v m) p ≡ deref m p
deref-write m a lo hi v none h o = refl
deref-write m a lo hi v (some b) h o = read-write_ne m a b v (λ e. omega arith)

pub view-write :
    (m : Memory) (a lo hi : ℕ) (v : String) (keys : List ConfigurationKey)
    → AllWithin lo hi keys
    → (a < lo) ⊎ (hi ≤ a)
    → view (write a v m) keys ≡ view m keys
view-write m a lo hi v [] h o = refl
view-write m a lo hi v (k ∷ keys) h o =
    ground (arith, deref-write m a lo hi v k.value h.0 o, view-write m a lo hi v keys h.1 o)

Within-mono :
    (lo lo' hi hi' : ℕ) (p : Pointer) → lo' ≤ lo → hi ≤ hi' → Within lo hi p → Within lo' hi' p
Within-mono lo lo' hi hi' none l h w = tt
Within-mono lo lo' hi hi' (some a) l h w = omega arith

pub AllWithin-mono :
    (lo lo' hi hi' : ℕ) (keys : List ConfigurationKey)
    → lo' ≤ lo
    → hi ≤ hi'
    → AllWithin lo hi keys
    → AllWithin lo' hi' keys
AllWithin-mono lo lo' hi hi' [] l h w = tt
AllWithin-mono lo lo' hi hi' (k ∷ keys) l h w =
    (Within-mono lo lo' hi hi' k.value l h w.0, AllWithin-mono lo lo' hi hi' keys l h w.1)

-- What a copy of one value is: grown memory, a pointer of its own, the same text.
deep_copy_value-fresh :
    (text : Option String) (m : Memory)
    → let (m', p) = deep_copy_value text m in
      Extends m m' × Within (length m.cells) (length m'.cells) p × (deref m' p ≡ text)
unfolding deep_copy_value
deep_copy_value-fresh none m = (Extends-refl m, tt, refl)
deep_copy_value-fresh (some v) m = (ptr-Extends v m, ptr_fresh v m, read-ptr v m)

-- A copy of keys stands in new cells throughout, leaves the old ones alone, and reads as the keys
-- did.
pub deep_copy_keys_fresh :
    (lo : ℕ) (keys : List ConfigurationKey) (m : Memory)
    → AllWithin lo (length m.cells) keys
    → let (m', keys') = deep_copy_keys keys m in
      Extends m m'
      × AllWithin (length m.cells) (length m'.cells) keys'
      × (view m' keys' ≡ view m keys)
unfolding deep_copy_keys
deep_copy_keys_fresh lo [] m h = (Extends-refl m, tt, refl)
deep_copy_keys_fresh lo (k ∷ keys) m h =
    let (m₁, v) = deep_copy_value (deref m k.value) m in
    let (g, w, e) = deep_copy_value-fresh (deref m k.value) m in
    let (g', w', e') =
      deep_copy_keys_fresh lo keys m₁
        (AllWithin-mono lo lo (length m.cells) (length m₁.cells) keys (omega arith) g.grows h.1) in
    let (m₂, keys') = deep_copy_keys keys m₁ in
    let text = deref-Extends m₁ m₂ (length m.cells) v g' w ∙ e in
    let rest = e' ∙ view-Extends m m₁ lo keys g h.1 in
    (
      Extends-trans g g',
      (
        Within-mono (length m.cells) (length m.cells) (length m₁.cells) (length m₂.cells) v
            (omega arith) g'.grows w,
        AllWithin-mono (length m₁.cells) (length m.cells) (length m₂.cells) (length m₂.cells) keys'
            g.grows (omega arith) w',
      ),
      ground (arith, text, rest),
    )
