-- ===== src/Web/Answer.antt =====
-- Handlers that end with a status and an error, or go on, over the machine and the catalog.
use varis.Base.{ℕ, [], Text, Error, message, Result, ok, err}
use varis.Base.Effect.{Effect}
use varis.Db.{Catalog}

-- `http.Error(w, err.Error(), status); return`, or what the next lines work with.
pub data Attempt (A : Type 0) : Type 0 where
  goes : A → Attempt A
  stops : ℕ → Error → Attempt A

abbrev pub Handler : Type 0 → Type 0 → Type 0
Handler S A = S → Attempt A × S

abbrev pub answer : {S A : Type 0} → A → Handler S A
answer a s = (goes a, s)

abbrev pub refuse : {S A : Type 0} → ℕ → Text → Handler S A
refuse status text s = (stops status (message text []), s)

abbrev pub go_on : {S A B : Type 0} → (A → Handler S B) → Attempt A × S → Attempt B × S
go_on next (goes a, s) = next a s
go_on next (stops status e, s) = (stops status e, s)

infixl 5 ◌>>=◌ ◌>>◌
abbrev pub ◌>>=◌ : {S A B : Type 0} → Handler S A → (A → Handler S B) → Handler S B
◌>>=◌ step next s = go_on next (step s)

abbrev pub ◌>>◌ : {S B : Type 0} → Handler S (Unit {0}) → Handler S B → Handler S B
step >> next = step >>= λ _. next

abbrev pub attempted : {S A : Type 0} → ℕ → Result A × S → Attempt A × S
attempted status (ok a, s) = (goes a, s)
attempted status (err e, s) = (stops status e, s)

-- `if err != nil { http.Error(w, err.Error(), status); return }`
abbrev pub or_status : {S A : Type 0} → ℕ → Effect S A → Handler S A
or_status status step s = attempted status (step s)

abbrev pub beside : {M A : Type 0} → Catalog → Result A × M → Result A × (M × Catalog)
beside db (r, w) = (r, (w, db))

abbrev pub on_machine : {M A : Type 0} → Effect M A → Effect (M × Catalog) A
on_machine step (w, db) = beside db (step w)

abbrev pub behind : {M A : Type 0} → M → Result A × Catalog → Result A × (M × Catalog)
behind w (r, db) = (r, (w, db))

abbrev pub on_catalog : {M A : Type 0} → Effect Catalog A → Effect (M × Catalog) A
on_catalog step (w, db) = behind w (step db)
