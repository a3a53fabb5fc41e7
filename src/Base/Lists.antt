-- ===== src/Base/Lists.antt =====
-- Lists measured and indexed by native numbers, under the library's names.
use Prim.Native.Nat.{ℕ, zero, suc, ◌+◌}
use mathlib.Core.Path.{◌≡◌, refl}
use mathlib.Core.Logic.{◌⊎◌, inl, inr}
use mathlib.Core.Bool.{Bool, true, false}
use mathlib.Core.List.{List, [], ◌∷◌, ◌++◌, map}
use mathlib.Core.Option.{Option, none, some}
use native.Mathlib.Omega.{arith}

module _ {ℓ} {A : Type ℓ} where
  abbrev pub length : List A → ℕ
  length [] = 0
  length (x ∷ xs) = suc (length xs)

  abbrev pub get_elem? : List A → ℕ → Option A
  get_elem? [] i = none
  get_elem? (x ∷ xs) zero = some x
  get_elem? (x ∷ xs) (suc i) = get_elem? xs i

  -- A write out of bounds changes nothing.
  abbrev pub set : List A → ℕ → A → List A
  set [] i v = []
  set (x ∷ xs) zero v = v ∷ xs
  set (x ∷ xs) (suc i) v = x ∷ set xs i v

  abbrev pub is_empty : List A → Bool
  is_empty [] = true
  is_empty (x ∷ xs) = false

  -- A predicate on every element.
  abbrev pub All {κ} : (A → Type κ) → List A → Type κ
  All P [] = Unit
  All P (x ∷ xs) = P x × All P xs

  pub length-append : (xs ys : List A) → length (xs ++ ys) ≡ length xs + length ys
  length-append [] ys = omega arith
  length-append (x ∷ xs) ys = omega (arith, length-append xs ys)

  pub All-append {κ} : (P : A → Type κ) (xs ys : List A) → All P xs → All P ys → All P (xs ++ ys)
  All-append P [] ys hx hy = hy
  All-append P (x ∷ xs) ys hx hy = (hx.0, All-append P xs ys hx.1 hy)

  pub All-mono {κ μ} :
      (P : A → Type κ) (Q : A → Type μ) (xs : List A) → ((a : A) → P a → Q a) → All P xs → All Q xs
  All-mono P Q [] f h = tt
  All-mono P Q (x ∷ xs) f h = (f x h.0, All-mono P Q xs f h.1)

-- The sum of a weight over a list: two lists with the same sums hold the same elements as often.
abbrev pub total {ℓ} : {A : Type ℓ} → (A → ℕ) → List A → ℕ
total w [] = 0
total w (x ∷ xs) = w x + total w xs

pub total-append {ℓ} :
    {A : Type ℓ} (w : A → ℕ) (xs ys : List A) → total w (xs ++ ys) ≡ total w xs + total w ys
total-append w [] ys = omega arith
total-append w (x ∷ xs) ys = omega (arith, total-append w xs ys)

pub total-map {ℓ κ} :
    {A : Type ℓ} {B : Type κ} (w : B → ℕ) (f : A → B) (xs : List A)
    → total w (map f xs) ≡ total (λ a. w (f a)) xs
total-map w f [] = refl
total-map w f (x ∷ xs) = omega (arith, total-map w f xs)

module _ {A : Type 0} where
  -- The elements of the first list stand in the second, in their order.
  abbrev pub IsSublist : List A → List A → Type 0
  IsSublist [] ys = Unit
  IsSublist (x ∷ xs) [] = ⊥
  IsSublist (x ∷ xs) (y ∷ ys) = ((x ≡ y) × IsSublist xs ys) ⊎ IsSublist (x ∷ xs) ys

  pub IsSublist-append : (xs ys zs : List A) → IsSublist xs ys → IsSublist xs (ys ++ zs)
  IsSublist-append [] ys zs h = tt
  IsSublist-append (x ∷ xs) [] zs h = absurd h
  IsSublist-append (x ∷ xs) (y ∷ ys) zs (inl (e, h)) = inl (e, IsSublist-append xs ys zs h)
  IsSublist-append (x ∷ xs) (y ∷ ys) zs (inr h) = inr (IsSublist-append (x ∷ xs) ys zs h)

  last-IsSublist : (ys : List A) (z : A) → IsSublist (z ∷ []) (ys ++ z ∷ [])
  last-IsSublist [] z = inl (refl, tt)
  last-IsSublist (y ∷ ys) z = inr (last-IsSublist ys z)

  -- Both lists get the same last element.
  pub IsSublist-last :
      (xs ys : List A) (z : A) → IsSublist xs ys → IsSublist (xs ++ z ∷ []) (ys ++ z ∷ [])
  IsSublist-last [] ys z h = last-IsSublist ys z
  IsSublist-last (x ∷ xs) [] z h = absurd h
  IsSublist-last (x ∷ xs) (y ∷ ys) z (inl (e, h)) = inl (e, IsSublist-last xs ys z h)
  IsSublist-last (x ∷ xs) (y ∷ ys) z (inr h) = inr (IsSublist-last (x ∷ xs) ys z h)
