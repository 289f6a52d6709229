-- ===== src/Common/Stateful.antt =====
-- Methods that change an object and may raise: a call takes the object and gives back the object,
-- as it is then, beside what it returns or raises. The names `◌>>=◌` are those of this monad.
use bluefog.Common.Results.{Result, ok, raise, Error}
use mathlib.Core.Bool.{Bool, true, false}
use mathlib.Core.List.{List, [], ◌∷◌}

abbrev pub M : Type 0 → Type 0 → Type 0
M S A = S → Result A × S

abbrev pub continue_with : {S A B : Type 0} → Result A → (A → M S B) → M S B
continue_with (ok a) f s = f a s
continue_with (raise e) f s = (raise e, s)

infixl 5 ◌>>=◌ ◌>>◌
abbrev pub ◌>>=◌ : {S A B : Type 0} → M S A → (A → M S B) → M S B
◌>>=◌ m f s = continue_with (m s).0 f (m s).1

abbrev pub ◌>>◌ : {S A B : Type 0} → M S A → M S B → M S B
m >> k = m >>= λ _. k

abbrev pub return : {S A : Type 0} → A → M S A
return a s = (ok a, s)

-- What reads the object and leaves it as it is.
abbrev pub reads : {S A : Type 0} → (S → Result A) → M S A
reads f s = (f s, s)

abbrev pub throw : {S A : Type 0} → Error → M S A
throw e s = (raise e, s)

abbrev pub modify : {S : Type 0} → (S → S) → M S (Unit {0})
modify f s = (ok tt, f s)

-- `if not test: raise error`
abbrev pub require : {S : Type 0} → Bool → Error → M S (Unit {0})
require true e s = (ok tt, s)
require false e s = (raise e, s)

-- A loop, which stops at the first round that raises.
abbrev pub for_each : {S A : Type 0} → (A → M S (Unit {0})) → List A → M S (Unit {0})
for_each f [] = return tt
for_each f (x ∷ xs) = f x >> for_each f xs
