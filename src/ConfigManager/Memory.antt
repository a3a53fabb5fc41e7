-- ===== src/ConfigManager/Memory.antt =====
-- The cells behind the `*string` values, and ocpp1.6/configmanager/helpers.go's `ptr`.
use ocpp_go.Base.{
  ℕ, zero, suc, ◌<◌, ◌≤◌, String, ◌≡◌, refl, ◌≢◌, Option, none, some, List, [], ◌∷◌, ◌++◌, arith,
  length, length-append, get_elem?, set, ap, ◌∙◌,
}

-- A new cell goes to the end: its address is the number of the cells before it.
pub record Memory : Type 0 where
  pub cells : List String

-- An address, or Go's nil.
abbrev pub Pointer : Type 0
Pointer = Option ℕ

abbrev pub read : Memory → ℕ → Option String
read m a = get_elem? m.cells a

-- `*p = v`
unfoldable pub write : ℕ → String → Memory → Memory
write a v m = record m { cells = set m.cells a v }

-- `ptr(v)`
unfoldable pub ptr : String → Memory → Memory × ℕ
ptr v m = (record m { cells = m.cells ++ v ∷ [] }, length m.cells)

-- What stands behind a pointer: `none` for nil.
abbrev pub deref : Memory → Pointer → Option String
deref m none = none
deref m (some a) = read m a

-- The memory has grown, and no old cell has changed.
pub record Extends (m m' : Memory) : Type 0 where
  pub grows : length m.cells ≤ length m'.cells
  pub keeps : (a : ℕ) → a < length m.cells → read m' a ≡ read m a

module _ {A : Type 0} where
  get_elem?-append_left :
      (xs ys : List A) (i : ℕ) → i < length xs → get_elem? (xs ++ ys) i ≡ get_elem? xs i
  get_elem?-append_left [] ys i h = elim h [ ]
  get_elem?-append_left (x ∷ xs) ys zero h = refl
  get_elem?-append_left (x ∷ xs) ys (suc i) h = get_elem?-append_left xs ys i (omega arith)

  get_elem?-append_end : (xs : List A) (y : A) → get_elem? (xs ++ y ∷ []) (length xs) ≡ some y
  get_elem?-append_end [] y = refl
  get_elem?-append_end (x ∷ xs) y = get_elem?-append_end xs y

  get_elem?-set_ne :
      (xs : List A) (i j : ℕ) (v : A) → i ≢ j → get_elem? (set xs i v) j ≡ get_elem? xs j
  get_elem?-set_ne [] i j v h = refl
  get_elem?-set_ne (x ∷ xs) zero zero v h = absurd (h refl)
  get_elem?-set_ne (x ∷ xs) zero (suc j) v h = refl
  get_elem?-set_ne (x ∷ xs) (suc i) zero v h = refl
  get_elem?-set_ne (x ∷ xs) (suc i) (suc j) v h = get_elem?-set_ne xs i j v (λ e. h (ap suc e))

  get_elem?-set_self :
      (xs : List A) (i : ℕ) (v : A) → i < length xs → get_elem? (set xs i v) i ≡ some v
  get_elem?-set_self [] i v h = elim h [ ]
  get_elem?-set_self (x ∷ xs) zero v h = refl
  get_elem?-set_self (x ∷ xs) (suc i) v h = get_elem?-set_self xs i v (omega arith)

pub read-write_ne : (m : Memory) (a b : ℕ) (v : String) → a ≢ b → read (write a v m) b ≡ read m b
unfolding write
read-write_ne m a b v h = get_elem?-set_ne m.cells a b v h

pub read-write_self :
    (m : Memory) (a : ℕ) (v : String) → a < length m.cells → read (write a v m) a ≡ some v
unfolding write
read-write_self m a v h = get_elem?-set_self m.cells a v h

pub read-ptr : (v : String) (m : Memory) → let (m', a) = ptr v m in read m' a ≡ some v
unfolding ptr
read-ptr v m = get_elem?-append_end m.cells v

pub ptr-Extends : (v : String) (m : Memory) → Extends m (ptr v m).0
unfolding ptr
ptr-Extends v m = record {
  grows = omega (arith, length-append m.cells (v ∷ []));
  keeps = λ a h. get_elem?-append_left m.cells (v ∷ []) a h;
}

pub ptr_fresh :
    (v : String) (m : Memory)
    → let (m', a) = ptr v m in (length m.cells ≤ a) × (a < length m'.cells)
unfolding ptr
ptr_fresh v m = (omega arith, omega (arith, length-append m.cells (v ∷ [])))

pub Extends-trans : {l m n : Memory} → Extends l m → Extends m n → Extends l n
Extends-trans g h = record {
  grows = omega arith;
  keeps = λ a p. h.keeps a (omega arith) ∙ g.keeps a p;
}

pub Extends-refl : (m : Memory) → Extends m m
Extends-refl m = record { grows = omega arith; keeps = λ a h. refl }
