-- ===== src/Base/Tests.antt =====
-- Tests on numbers and texts, the conditional, and splits that keep the equation.
use Prim.Native.Nat.{ℕ, compare, Ordering}
use Prim.Native.String.{String}
use mathlib.Core.Path.{◌≡◌, refl, sym, ◌∙◌}
use mathlib.Core.Logic.{◌⊎◌, inl, inr, ite}
use mathlib.Core.Bool.{Bool, true, false, false≢true}
use mathlib.Core.Option.{Option, none, some}
use text.Mathlib.Text.{◌==◌}
use text.Mathlib.TextEquality.{eq_iff}

abbrev pub ltb : ℕ → ℕ → Bool
ltb a b = elim (compare a b) [ Ordering.lt ↦ true | _ ↦ false ]

abbrev pub leb : ℕ → ℕ → Bool
leb a b = elim (compare a b) [ Ordering.gt ↦ false | _ ↦ true ]

infix 1 if◌then◌else◌
abbrev pub if◌then◌else◌ {ℓ} : {A : Type ℓ} → Bool → A → A → A
if true then x else y = x
if false then x else y = y

unfoldable pub Bool-cases : (b : Bool) → (b ≡ true) ⊎ (b ≡ false)
Bool-cases true = inl refl
Bool-cases false = inr refl

pub Option-cases {ℓ} : {A : Type ℓ} (o : Option A) → (o ≡ none) ⊎ ((a : A) × (o ≡ some a))
Option-cases none = inl refl
Option-cases (some a) = inr (a, refl)

-- Go's `==` on strings, as a decision.
unfoldable pub text_discrete : Discrete String
unfolding Bool-cases
text_discrete s t = elim (Bool-cases (s == t)) [
  | inl e ↦ yes ((eq_iff s t).0 e)
  | inr e ↦ no λ p. false≢true (sym e ∙ (eq_iff s t).1 p)
]

abbrev pub is_some {ℓ} : {A : Type ℓ} → Option A → Bool
is_some none = false
is_some (some a) = true

-- A decision as the truth value that Go computes with.
abbrev pub test {ℓ} : {P : Type ℓ} → Dec P → Bool
test (yes p) = true
test (no p) = false

-- What holds on both branches of a decision holds of the conditional.
pub Dec-rule {ℓ κ μ} :
    {A : Type ℓ} (P : A → Type κ) {Q : Type μ} (d : Dec Q) {x y : A}
    → (Q → P x)
    → ((¬ Q) → P y)
    → P (ite d x y)
Dec-rule P (yes q) f g = f q
Dec-rule P (no n) f g = g n
