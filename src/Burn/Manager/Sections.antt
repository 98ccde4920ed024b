-- ===== src/Burn/Manager/Sections.antt =====
-- Calls of a manager that run at the same time: the sections under its lock, in any order.
-- A job is an object that the manager and the calls point to.
use varis.Base.{
  ℕ, ◌+◌, ◌≡◌, Bool, true, false, not, ◌&&◌, List, [], ◌∷◌, ◌++◌, Option, none, some, ◌==◌,
  if◌then◌else◌, Error,
}
use varis.Burn.Plan.{Options, DiscPlan}
use varis.Burn.Job.{
  Job, State, in_state, is_awaiting_disc, is_over, is_in_progress, claim, fail_job, advance,
  retry_job, new_job,
}

-- The objects by their addresses, of which the first `allocated` are in use; the field `job`; and the
-- calls of `ContinueNextDisc` that are between their first and their last section, each with the
-- job it has claimed.
pub record Shared : Type 0 where
  pub heap : ℕ → Job
  pub allocated : ℕ
  pub job : Option ℕ
  pub burning : List ℕ

abbrev pub put : (ℕ → Job) → ℕ → Job → ℕ → Job
put heap p job q = if q == p then job else heap q

-- The states that `setState` is called with.
abbrev pub is_busy : State → Bool
is_busy s = not (is_awaiting_disc s) && not (is_over s)

abbrev pub pointed : (ℕ → Job) → Option ℕ → Option Job
pointed heap none = none
pointed heap (some p) = some (heap p)

abbrev pub written : Shared → ℕ → Job → Shared
written s p job = record s { heap = put s.heap p job }

-- One section under the lock: of `Start`, `ContinueNextDisc`, `setState` and `Retry`.
pub data Step : Shared → Shared → Type 0 where
  started :
      (s : Shared) (opts : Options) (p : DiscPlan) (plans : List DiscPlan)
      → is_in_progress (pointed s.heap s.job) ≡ false
      → Step s (record s {
        heap = put s.heap s.allocated (new_job opts (p ∷ plans));
        allocated = s.allocated + 1;
        job = some s.allocated;
      })
  claimed :
      (s : Shared) (p : ℕ) (job : Job)
      → s.job ≡ some p
      → claim (some (s.heap p)) ≡ some job
      → Step s (record (written s p job) { burning = p ∷ s.burning })
  state_set :
      (s : Shared) (before after : List ℕ) (p : ℕ) (state : State)
      → s.burning ≡ before ++ p ∷ after
      → is_busy state ≡ true
      → Step s (written s p (in_state state (s.heap p)))
  failed :
      (s : Shared) (before after : List ℕ) (p : ℕ) (e : Error)
      → s.burning ≡ before ++ p ∷ after
      → Step s (record (written s p (fail_job e (s.heap p))) { burning = before ++ after })
  advanced :
      (s : Shared) (before after : List ℕ) (p : ℕ)
      → s.burning ≡ before ++ p ∷ after
      → Step s (record (written s p (advance (s.heap p))) { burning = before ++ after })
  retried :
      (s : Shared) (p : ℕ) (job : Job)
      → s.job ≡ some p
      → retry_job (s.heap p) ≡ some job
      → Step s (written s p job)

-- What a new manager can come to, from a state without a job and without calls.
pub data Reachable : Shared → Type 0 where
  fresh :
      (heap : ℕ → Job) → Reachable (record { heap = heap; allocated = 0; job = none; burning = [] })
  next : (s t : Shared) → Reachable s → Step s t → Reachable t
