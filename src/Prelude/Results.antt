-- ===== src/Prelude/Results.antt =====
-- Python's exceptions as values: a call returns or raises. The messages are not modelled.
use mathlib.Core.Path.{◌≡◌, refl}
use mathlib.Core.Logic.{◌⊎◌, inl, inr}
use mathlib.Core.Bool.{Bool, true, false}

pub data Exception : Type 0 where
  value_error assertion_error not_implemented key_error index_error type_error : Exception
  connection_error file_not_found stop_iteration attribute_error recursion_error : Exception
  zero_division_error runtime_error os_error : Exception

pub data Result {ℓ} (A : Type ℓ) : Type ℓ where
  ok : A → Result A
  raise : Exception → Result A

infixl 5 ◌>>=◌ ◌>>◌
abbrev pub ◌>>=◌ {ℓ κ} : {A : Type ℓ} {B : Type κ} → Result A → (A → Result B) → Result B
ok a >>= f = f a
raise e >>= f = raise e

abbrev pub ◌>>◌ {ℓ} : {B : Type ℓ} → Result (Unit {0}) → Result B → Result B
m >> k = m >>= λ _. k

-- `if not b: raise e`, and `assert b` with `assertion_error`.
abbrev pub guard : Bool → Exception → Result (Unit {0})
guard true e = ok tt
guard false e = raise e

-- What a chain that returns went through.
pub of_bind {ℓ κ} :
    {A : Type ℓ} {B : Type κ} (m : Result A) (f : A → Result B) (b : B)
    → (m >>= f) ≡ ok b
    → (a : A) × (m ≡ ok a) × (f a ≡ ok b)
of_bind (ok a) f b e = (a, refl, e)
of_bind (raise x) f b e = cc e

pub of_guard {ℓ} :
    {B : Type ℓ} (t : Bool) (x : Exception) (k : Result B) (b : B)
    → (guard t x >> k) ≡ ok b
    → (t ≡ true) × (k ≡ ok b)
of_guard true x k b e = (refl, e)
of_guard false x k b e = cc e

pub ok-inj {ℓ} : {A : Type ℓ} {a b : A} → ok a ≡ ok b → a ≡ b
ok-inj e = cc e

pub Result-cases {ℓ} :
    {A : Type ℓ} (m : Result A) → ((a : A) × (m ≡ ok a)) ⊎ ((e : Exception) × (m ≡ raise e))
Result-cases (ok a) = inl (a, refl)
Result-cases (raise e) = inr (e, refl)
