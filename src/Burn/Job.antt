-- ===== src/Burn/Job.antt =====
-- The job of internal/burn/pipeline.go and the manager that holds it, with the sections of code
-- that run under the manager's lock.
use varis.Base.{
  ℕ, ◌+◌, Bool, true, false, not, List, [], Option, none, some, leb, if◌then◌else◌, Text, codes,
  Error, length,
}
use varis.Burn.Plan.{Options, DiscPlan}

pub data State : Type 0 where
  state_awaiting_disc state_packing state_parity state_iso state_burning state_verifying : State
  state_done state_failed : State

pub record Job : Type 0 where
  pub options : Options
  pub plans : List DiscPlan
  pub current_index : ℕ
  pub state : State
  pub error : Option Error

-- The pointer `job`, nil at first, and what the manager works on.
pub record Manager (W : Type 0) : Type 0 where
  pub job : Option Job
  pub world : W

abbrev pub is_awaiting_disc : State → Bool
is_awaiting_disc state_awaiting_disc = true
is_awaiting_disc _ = false

abbrev pub is_failed : State → Bool
is_failed state_failed = true
is_failed _ = false

-- The constants of type `State`, and that of a manager's job.
abbrev pub state_name : State → Text
state_name state_awaiting_disc = codes "AWAITING_DISC"
state_name state_packing = codes "PACKING"
state_name state_parity = codes "PARITY"
state_name state_iso = codes "ISO"
state_name state_burning = codes "BURNING"
state_name state_verifying = codes "VERIFYING"
state_name state_done = codes "DONE"
state_name state_failed = codes "FAILED"

abbrev pub state_text : Option Job → Text
state_text none = []
state_text (some job) = state_name job.state

-- `m.job != nil && m.job.State != StateDone && m.job.State != StateFailed`
abbrev pub is_over : State → Bool
is_over state_done = true
is_over state_failed = true
is_over _ = false

abbrev pub is_in_progress : Option Job → Bool
is_in_progress none = false
is_in_progress (some job) = not (is_over job.state)

abbrev pub in_state : State → Job → Job
in_state state job = record job { state = state }

-- The section of `ContinueNextDisc` that claims the job.
unfoldable pub claim : Option Job → Option Job
claim none = none
claim (some job) = if is_awaiting_disc job.state then some (in_state state_packing job) else none

-- The section after a disc that failed, and the one after a disc that was burned.
unfoldable pub fail_job : Error → Job → Job
fail_job e job = record job { state = state_failed; error = some e }

unfoldable pub advance : Job → Job
advance job =
    let next = job.current_index + 1 in
    record job {
      current_index = next;
      state = if leb (length job.plans) next then state_done else state_awaiting_disc;
    }

abbrev pub new_job : Options → List DiscPlan → Job
new_job opts plans = record {
  options = opts;
  plans = plans;
  current_index = 0;
  state = state_awaiting_disc;
  error = none;
}

unfoldable pub retry_job : Job → Option Job
retry_job job =
    if is_failed job.state
    then some (record job { state = state_awaiting_disc; error = none })
    else none

-- `Current`: a copy of the job.
unfoldable pub current : {W : Type 0} → Manager W → Option Job
current m = m.job

-- A change of the job that the pointer refers to.
abbrev pub on_job : (Job → Job) → Option Job → Option Job
on_job f none = none
on_job f (some job) = some (f job)
