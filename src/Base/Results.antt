-- ===== src/Base/Results.antt =====
-- A Go function that returns `(A, error)`: the value, or the error and no value.
use mathlib.Core.Path.{◌≡◌, refl}
use mathlib.Core.Logic.{◌⊎◌, inl, inr}
use mathlib.Core.Bool.{Bool, true, false}
use mathlib.Core.Option.{Option, none, some}

pub data Result (E A : Type 0) : Type 0 where
  ok : A → Result E A
  err : E → Result E A

module _ {E A : Type 0} where
  pub Result-cases : (r : Result E A) → ((a : A) × (r ≡ ok a)) ⊎ ((e : E) × (r ≡ err e))
  Result-cases (ok a) = inl (a, refl)
  Result-cases (err e) = inr (e, refl)

infixl 5 ◌>>=◌ ◌>>◌
abbrev pub ◌>>=◌ : {E A B : Type 0} → Result E A → (A → Result E B) → Result E B
ok a >>= f = f a
err e >>= f = err e

abbrev pub ◌>>◌ : {E B : Type 0} → Result E (Unit {0}) → Result E B → Result E B
m >> k = m >>= λ _. k

-- `if c { return err }`
abbrev pub fail_if : {E : Type 0} → Bool → E → Result E (Unit {0})
fail_if true e = err e
fail_if false e = ok tt

-- A chain that ends well has passed its first step, with a value that the rest took.
pub record Passed {E A B : Type 0} (m : Result E A) (f : A → Result E B) (b : B) : Type 0 where
  pub value : A
  pub first : m ≡ ok value
  pub rest : f value ≡ ok b

pub chain-Passed :
    {E A B : Type 0} {b : B} (m : Result E A) (f : A → Result E B) → m >>= f ≡ ok b → Passed m f b
chain-Passed (err e) f h = cc
chain-Passed (ok a) f h = record { value = a; first = refl; rest = h }

-- `if err := f(); err != nil { return err }` where `f` returns an error only.
abbrev pub check : {E : Type 0} → Option E → Result E (Unit {0})
check none = ok tt
check (some e) = err e

-- `fmt.Errorf("%w: %w", ...)` around an error.
abbrev pub map_err : {E F A : Type 0} → (E → F) → Result E A → Result F A
map_err f (ok a) = ok a
map_err f (err e) = err (f e)

pub map_err_ok :
    {E F A : Type 0} (f : E → F) (m : Result E A) (a : A) → map_err f m ≡ ok a → m ≡ ok a
map_err_ok f (ok b) a h = cc
map_err_ok f (err e) a h = cc
