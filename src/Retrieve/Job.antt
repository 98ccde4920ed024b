-- ===== src/Retrieve/Job.antt =====
-- The job of internal/retrieve/retrieve.go and the manager that holds it, with the sections of code
-- that run under the manager's lock.
use varis.Base.{
  ℕ, Bool, true, false, not, [], Option, none, some, if◌then◌else◌, Text, codes, Error,
}
use varis.Burn.Reconstruct.{Reconstructor}

pub data State : Type 0 where
  state_awaiting_media state_reading_disc state_done state_failed : State
  state_needs_reconstruction state_starting_reconstruction : State
  state_reconstructing state_reading_reconstruction_disc : State

pub record Job : Type 0 where
  pub file_id : Text
  pub disk_id : Text
  pub original_path : Text
  pub state : State
  pub error : Option Error

-- The pointers `job` and `reconstructor`, nil at first, and what the manager works on.
pub record Manager (W : Type 0) : Type 0 where
  pub job : Option Job
  pub reconstructor : Option Reconstructor
  pub reconstruction_capacity : ℕ
  pub world : W

-- The constants of type `State`.
abbrev pub state_name : State → Text
state_name state_awaiting_media = codes "AWAITING_MEDIA"
state_name state_reading_disc = codes "READING_DISC"
state_name state_done = codes "DONE"
state_name state_failed = codes "FAILED"
state_name state_needs_reconstruction = codes "NEEDS_RECONSTRUCTION"
state_name state_starting_reconstruction = codes "STARTING_RECONSTRUCTION"
state_name state_reconstructing = codes "RECONSTRUCTING"
state_name state_reading_reconstruction_disc = codes "READING_RECONSTRUCTION_DISC"

abbrev pub state_text : Option Job → Text
state_text none = []
state_text (some job) = state_name job.state

abbrev pub is_awaiting_media : State → Bool
is_awaiting_media state_awaiting_media = true
is_awaiting_media _ = false

abbrev pub is_needing : State → Bool
is_needing state_needs_reconstruction = true
is_needing _ = false

abbrev pub is_reconstructing : State → Bool
is_reconstructing state_reconstructing = true
is_reconstructing _ = false

-- `m.job != nil && m.job.State != StateDone && m.job.State != StateFailed`
abbrev pub is_over : State → Bool
is_over state_done = true
is_over state_failed = true
is_over _ = false

abbrev pub is_in_progress : Option Job → Bool
is_in_progress none = false
is_in_progress (some job) = not (is_over job.state)

abbrev pub in_state : State → Job → Job
in_state state job = record job { state = state }

abbrev pub new_job : Text → Text → Text → Job
new_job file_id disk_id original_path = record {
  file_id = file_id;
  disk_id = disk_id;
  original_path = original_path;
  state = state_awaiting_media;
  error = none;
}

-- The first sections of `ReadDisk`, `StartReconstruction` and `ReadReconstructionDisc`.
unfoldable pub claim_reading : Option Job → Option Job
claim_reading none = none
claim_reading (some job) =
    if is_awaiting_media job.state then some (in_state state_reading_disc job) else none

unfoldable pub claim_starting : Option Job → Option Job
claim_starting none = none
claim_starting (some job) =
    if is_needing job.state then some (in_state state_starting_reconstruction job) else none

unfoldable pub claim_folding : Option Job → Option Reconstructor → Option (Job × Reconstructor)
claim_folding none r = none
claim_folding (some job) none = none
claim_folding (some job) (some r) =
    if is_reconstructing job.state
    then some (in_state state_reading_reconstruction_disc job, r)
    else none

-- The sections that end a step: `fail`, `needsReconstruction` with `revertToNeedsReconstruction`,
-- and `revertToReconstructing`.
abbrev pub fail : Error → Job → Job
fail e job = record job { state = state_failed; error = some e }

abbrev pub needs_reconstruction : Error → Job → Job
needs_reconstruction e job = record job { state = state_needs_reconstruction; error = some e }

abbrev pub revert_to_needs_reconstruction : Error → Job → Job
revert_to_needs_reconstruction e job = record job {
  state = state_needs_reconstruction;
  error = some e;
}

abbrev pub revert_to_reconstructing : Error → Job → Job
revert_to_reconstructing e job = record job { state = state_reconstructing; error = some e }

-- `job.Err = nil; job.State = StateReconstructing`
abbrev pub reconstructing : Job → Job
reconstructing job = record job { state = state_reconstructing; error = none }

-- A change of the job that the pointer refers to.
abbrev pub on_job : (Job → Job) → Option Job → Option Job
on_job f none = none
on_job f (some job) = some (f job)
