-- ===== src/Retrieve/Step.antt =====
-- Steps of a retrieval's manager: what they do to its job, and to what it works on.
use varis.Base.{Error, Result, ok, err}
use varis.Base.Effect.{Effect, proceed}
use varis.Retrieve.Job.{Job, Manager, on_job}

-- A change of the job under the lock.
unfoldable pub update_job : {W : Type 0} → (Job → Job) → Effect (Manager W) (Unit {0})
update_job f m = (ok tt, record m { job = on_job f m.job })

-- A step on what the manager works on; the job takes note of its error.
unfoldable pub or_else : {W A : Type 0} → (Error → Job → Job) → Effect W A → Effect (Manager W) A
or_else {W} {A} note step m = noted (step m.world)
  where
    noted : Result A × W → Result A × Manager W
    noted (ok a, w) = (ok a, record m { world = w })
    noted (err e, w) = (err e, record m { world = w; job = on_job (note e) m.job })

-- A step whose error is logged, not returned.
unfoldable pub quietly : {W : Type 0} → Effect W (Unit {0}) → Effect (Manager W) (Unit {0})
quietly step m = (ok tt, record m { world = (step m.world).1 })

-- `defer`: a step whose own outcome is ignored, after another one, whether that has failed or not.
unfoldable pub deferring :
    {W A : Type 0} → Effect W (Unit {0}) → Effect (Manager W) A → Effect (Manager W) A
deferring cleanup step m = let r = step m in (r.0, record r.1 { world = (cleanup r.1.world).1 })

infixl 5 ◌>>=◌ ◌>>◌
unfoldable pub ◌>>=◌ :
    {W A B : Type 0} → Effect (Manager W) A → (A → Effect (Manager W) B) → Effect (Manager W) B
◌>>=◌ step next m = proceed next (step m)

unfoldable pub ◌>>◌ :
    {W B : Type 0} → Effect (Manager W) (Unit {0}) → Effect (Manager W) B → Effect (Manager W) B
unfolding ◌>>=◌
step >> next = step >>= λ _. next
