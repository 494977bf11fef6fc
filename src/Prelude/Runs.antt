-- ===== src/Prelude/Runs.antt =====
-- A call that returns a value, or ends the process.
use mathlib.Core.Path.{◌≡◌, refl}
use mathlib.Core.Logic.{◌⊎◌, inl, inr}
use Prim.Native.String.{String}

-- `abort` carries the message that is printed before `exit` or `assert` ends the process
pub data Run {ℓ} (A : Type ℓ) : Type ℓ where
  ok : A → Run A
  abort : String → Run A

infixl 5 ◌>>=◌
abbrev pub ◌>>=◌ {ℓ κ} : {A : Type ℓ} {B : Type κ} → Run A → (A → Run B) → Run B
ok a >>= f = f a
abort e >>= f = abort e

-- the call returns, and its value satisfies `Post`
abbrev pub Returns {ℓ κ} : {A : Type ℓ} → (run : Run A) → (Post : A → Type κ) → Type (ℓ ⊔ κ)
Returns {A} run Post = (value : A) × (run ≡ ok value) × Post value

pub Run-cases {ℓ} :
    {A : Type ℓ} (r : Run A) → ((m : String) × (r ≡ abort m)) ⊎ ((a : A) × (r ≡ ok a))
Run-cases (abort m) = inl (m, refl)
Run-cases (ok a) = inr (a, refl)
