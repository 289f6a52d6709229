-- ===== src/Common/Results.antt =====
-- Python's exceptions as values: a call returns `ok` with its result, or raises.
use Prim.Native.Nat.{ℕ, zero, suc, ◌/◌, ◌%◌}
use mathlib.Core.Bool.{Bool, true, false}
use mathlib.Core.Path.{◌≡◌, refl}
use mathlib.Core.Logic.{◌⊎◌, inl, inr}
use mathlib.Core.List.{List, [], ◌∷◌}
use bluefog.Common.Tests.{◌==◌, if◌then◌else◌}

pub data Error : Type 0 where
  assertion_error value_error type_error key_error index_error : Error
  runtime_error overflow_error zero_division_error system_exit : Error

pub data Result {ℓ} (A : Type ℓ) : Type ℓ where
  ok : A → Result A
  raise : Error → Result A

infixl 5 ◌>>=◌ ◌>>◌
abbrev pub ◌>>=◌ {ℓ κ} : {A : Type ℓ} {B : Type κ} → Result A → (A → Result B) → Result B
ok a >>= f = f a
raise e >>= f = raise e

abbrev pub ◌>>◌ {ℓ κ} : {A : Type ℓ} {B : Type κ} → Result A → Result B → Result B
m >> k = m >>= λ _. k

-- `assert test` and, with another error, `if not test: raise error`.
abbrev pub check : Bool → Error → Result (Unit {0})
check true e = ok tt
check false e = raise e

-- Python's `a // n` and `a % n` on numbers that are not negative.
abbrev pub floor_div : ℕ → ℕ → Result ℕ
floor_div a n = if n == 0 then raise zero_division_error else ok (a / n)

abbrev pub modulo : ℕ → ℕ → Result ℕ
modulo a n = if n == 0 then raise zero_division_error else ok (a % n)

-- `items[i]`, for an index that is not negative.
abbrev pub item {ℓ} : {A : Type ℓ} → List A → ℕ → Result A
item [] i = raise index_error
item (x ∷ xs) zero = ok x
item (x ∷ xs) (suc i) = item xs i

-- A loop that appends what each call returns, and stops at the first that raises.
abbrev pub traverse {ℓ κ} : {A : Type ℓ} {B : Type κ} → (A → Result B) → List A → Result (List B)
traverse f [] = ok []
traverse f (x ∷ xs) = f x >>= λ y. traverse f xs >>= λ ys. ok (y ∷ ys)

-- To split on what a call does and keep the equation.
pub Result-cases {ℓ} :
    {A : Type ℓ} (r : Result A) → ((e : Error) × (r ≡ raise e)) ⊎ ((a : A) × (r ≡ ok a))
Result-cases (ok a) = inr (a, refl)
Result-cases (raise e) = inl (e, refl)
