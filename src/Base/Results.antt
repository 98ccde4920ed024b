-- ===== src/Base/Results.antt =====
-- Go's errors as values, and the chaining of fallible steps.
use mathlib.Core.Path.{◌≡◌, refl}
use Prim.Native.Nat.{ℕ}
use mathlib.Core.Logic.{◌⊎◌, inl, inr}
use mathlib.Core.List.{List}
use varis.Base.Texts.{Text}

-- `external n` stands for an error that outside code returned; `message f args` for
-- `fmt.Errorf(f, args…)`; `wrapped m e` for `fmt.Errorf("m: %w", e)`; `not_found what` for an error
-- that wraps `db.ErrNotFound`.
pub data Error : Type 0 where
  external : ℕ → Error
  message : Text → List Text → Error
  wrapped : Text → Error → Error
  not_found : Text → Error

pub data Result {ℓ} (A : Type ℓ) : Type ℓ where
  ok : A → Result A
  err : Error → Result A

infixl 5 ◌>>=◌
abbrev pub ◌>>=◌ {ℓ κ} : {A : Type ℓ} {B : Type κ} → Result A → (A → Result B) → Result B
ok a >>= f = f a
err e >>= f = err e

pub Result-cases {ℓ} :
    {A : Type ℓ} (r : Result A) → ((a : A) × (r ≡ ok a)) ⊎ ((e : Error) × (r ≡ err e))
Result-cases (ok a) = inl (a, refl)
Result-cases (err e) = inr (e, refl)
