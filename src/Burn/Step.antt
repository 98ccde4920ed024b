-- ===== src/Burn/Step.antt =====
-- Steps of a manager: what they do to its job, and to what it works on.
use varis.Base.{ok}
use varis.Base.Effect.{Effect, proceed}
use varis.Burn.Job.{State, Manager, in_state, on_job}

-- `setState` on the manager's job.
unfoldable pub set_state : {W : Type 0} → State → Effect (Manager W) (Unit {0})
set_state state m = (ok tt, record m { job = on_job (in_state state) m.job })

-- A step on what the manager works on.
unfoldable pub within : {W A : Type 0} → Effect W A → Effect (Manager W) A
within step m = let r = step m.world in (r.0, record m { world = r.1 })

infixl 5 ◌>>=◌ ◌>>◌
unfoldable pub ◌>>=◌ :
    {W A B : Type 0} → Effect (Manager W) A → (A → Effect (Manager W) B) → Effect (Manager W) B
◌>>=◌ step next m = proceed next (step m)

unfoldable pub ◌>>◌ :
    {W B : Type 0} → Effect (Manager W) (Unit {0}) → Effect (Manager W) B → Effect (Manager W) B
unfolding ◌>>=◌
step >> next = step >>= λ _. next
