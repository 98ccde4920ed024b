-- ===== src/Base/Effect.antt =====
-- Fallible steps over a state that keeps its changes when a step fails.
use mathlib.Core.List.{List, [], ◌∷◌}
use varis.Base.Texts.{Text}
use varis.Base.Results.{Error, wrapped, Result, ok, err}

abbrev pub Effect : Type 0 → Type 0 → Type 0
Effect S A = S → Result A × S

abbrev pub pure : {S A : Type 0} → A → Effect S A
pure a s = (ok a, s)

abbrev pub throw : {S A : Type 0} → Error → Effect S A
throw e s = (err e, s)

abbrev pub lift : {S A : Type 0} → Result A → Effect S A
lift r s = (r, s)

-- What follows a step that has returned.
abbrev pub proceed : {S A B : Type 0} → (A → Effect S B) → Result A × S → Result B × S
proceed f (ok a, s) = f a s
proceed f (err e, s) = (err e, s)

infixl 5 ◌>>=◌ ◌>>◌
abbrev pub ◌>>=◌ : {S A B : Type 0} → Effect S A → (A → Effect S B) → Effect S B
◌>>=◌ m f s = proceed f (m s)

abbrev pub ◌>>◌ : {S B : Type 0} → Effect S (Unit {0}) → Effect S B → Effect S B
m >> k = m >>= λ _. k

abbrev pub add_context : {S A : Type 0} → Text → Result A × S → Result A × S
add_context text (ok a, s) = (ok a, s)
add_context text (err e, s) = (err (wrapped text e), s)

-- `if err != nil { return fmt.Errorf("text: %w", err) }`
abbrev pub with_context : {S A : Type 0} → Text → Effect S A → Effect S A
with_context text m s = add_context text (m s)

-- `for _, a := range as { if err := f(a); err != nil { return err } }`
unfoldable pub for_each : {S A : Type 0} → (A → Effect S (Unit {0})) → List A → Effect S (Unit {0})
for_each f [] = pure tt
for_each f (a ∷ rest) = f a >> for_each f rest
