-- ===== src/Retrieve/Manager/Sections.antt =====
-- Calls of a manager of retrievals that run at the same time, `Abort` among them: the sections under
-- its lock, in any order. A job is an object that the manager and the calls point to.
use varis.Base.{
  ℕ, ◌+◌, ◌≡◌, Bool, true, false, List, [], ◌∷◌, ◌++◌, Option, none, some, ◌==◌, if◌then◌else◌,
  Text, Error,
}
use varis.Burn.Reconstruct.{Reconstructor}
use varis.Retrieve.Job.{
  Job, State, state_reading_disc, state_starting_reconstruction, state_reading_reconstruction_disc,
  state_done, is_in_progress, in_state, new_job, claim_reading, claim_starting, claim_folding, fail,
  needs_reconstruction, revert_to_reconstructing, reconstructing,
}

-- The objects by their addresses, of which the first `allocated` are in use; the field `job`; and the
-- calls that are between their first and their last section, each with the job it has claimed.
pub record Shared : Type 0 where
  pub heap : ℕ → Job
  pub allocated : ℕ
  pub job : Option ℕ
  pub working : List ℕ

abbrev pub put : (ℕ → Job) → ℕ → Job → ℕ → Job
put heap p job q = if q == p then job else heap q

-- The states of a claimed job.
abbrev pub is_busy : State → Bool
is_busy state_reading_disc = true
is_busy state_starting_reconstruction = true
is_busy state_reading_reconstruction_disc = true
is_busy _ = false

abbrev pub pointed : (ℕ → Job) → Option ℕ → Option Job
pointed heap none = none
pointed heap (some p) = some (heap p)

-- What the first section of a call makes of the job; which reconstructor there is is left open.
pub data Claimed (job : Job) : Job → Type 0 where
  to_read : (after : Job) → claim_reading (some job) ≡ some after → Claimed job after
  to_start : (after : Job) → claim_starting (some job) ≡ some after → Claimed job after
  to_fold :
      (after : Job) (r s : Reconstructor)
      → claim_folding (some job) (some r) ≡ some (after, s)
      → Claimed job after

-- What the last section of a call makes of the job that it has claimed.
pub data Finished (job : Job) : Job → Type 0 where
  has_failed : (e : Error) → Finished job (fail e job)
  needs : (e : Error) → Finished job (needs_reconstruction e job)
  reverts : (e : Error) → Finished job (revert_to_reconstructing e job)
  collects : Finished job (reconstructing job)
  is_done : Finished job (in_state state_done job)

-- One section under the lock.
pub data Step : Shared → Shared → Type 0 where
  started :
      (s : Shared) (file_id disk_id original_path : Text)
      → is_in_progress (pointed s.heap s.job) ≡ false
      → Step s (record s {
        heap = put s.heap s.allocated (new_job file_id disk_id original_path);
        allocated = s.allocated + 1;
        job = some s.allocated;
      })
  aborted : (s : Shared) → Step s (record s { job = none })
  claimed :
      (s : Shared) (p : ℕ) (job : Job)
      → s.job ≡ some p
      → Claimed (s.heap p) job
      → Step s (record s { heap = put s.heap p job; working = p ∷ s.working })
  finished :
      (s : Shared) (before after : List ℕ) (p : ℕ) (job : Job)
      → s.working ≡ before ++ p ∷ after
      → Finished (s.heap p) job
      → Step s (record s { heap = put s.heap p job; working = before ++ after })

-- What a new manager can come to.
pub data Reachable : Shared → Type 0 where
  fresh :
      (heap : ℕ → Job) → Reachable (record { heap = heap; allocated = 0; job = none; working = [] })
  next : (s t : Shared) → Reachable s → Step s t → Reachable t
