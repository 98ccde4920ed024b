-- ===== src/Web/Server.antt =====
-- internal/web/jobs.go and internal/web/library.go: the handlers that work on the two managers.
use varis.Base.{
  ℕ, zero, suc, ◌+◌, ◌-◌, ◌*◌, ◌^◌, Bool, true, false, ◌&&◌, ◌||◌, List, [], ◌∷◌, Option, none,
  some, ltb, leb, ◌==◌, if◌then◌else◌, Text, codes, Error, external, message, wrapped, not_found,
  Result, length, get_elem?, neg64, lt64, int64_limit,
}
use varis.Burn.Plan.{DiscPlan}
use varis.Burn.Job as BurnJob
use varis.Burn.Reconstruct.{Reconstructor}
use varis.Retrieve.Job as RetrieveJob

-- Both managers, and what they work on.
pub record Server (W : Type 0) : Type 0 where
  pub burn_job : Option BurnJob.Job
  pub retrieve_job : Option RetrieveJob.Job
  pub reconstructor : Option Reconstructor
  pub reconstruction_capacity : ℕ
  pub world : W

abbrev pub of_burning : {W : Type 0} → Server W → BurnJob.Manager W
of_burning s = record { job = s.burn_job; world = s.world }

abbrev pub of_retrieving : {W : Type 0} → Server W → RetrieveJob.Manager W
of_retrieving s = record {
  job = s.retrieve_job;
  reconstructor = s.reconstructor;
  reconstruction_capacity = s.reconstruction_capacity;
  world = s.world;
}

abbrev pub with_burning : {W : Type 0} → Server W → BurnJob.Manager W → Server W
with_burning s m = record s { burn_job = m.job; world = m.world }

abbrev pub with_retrieving : {W : Type 0} → Server W → RetrieveJob.Manager W → Server W
with_retrieving s m = record {
  burn_job = s.burn_job;
  retrieve_job = m.job;
  reconstructor = m.reconstructor;
  reconstruction_capacity = m.reconstruction_capacity;
  world = m.world;
}

-- `r.ParseForm`, `r.FormValue` and `r.Form[name]`
pub record Request : Type 0 where
  pub parsed : Result (Unit {0})
  pub value : Text → Text
  pub values : Text → List Text

-- What jobs.html needs of a job.
pub record JobView : Type 0 where
  pub state : BurnJob.State
  pub error : Option Error
  pub current_index1 : ℕ
  pub total_discs : ℕ
  pub current_disk_id : Text
  pub dry_run : Bool

pub record RetrieveView : Type 0 where
  pub job : RetrieveJob.Job
  pub remaining : List Text

-- A status other than 200 with its error, or a fragment of a page; or the handler panics.
pub data Response : Type 0 where
  http_error : ℕ → Error → Response
  drive_busy : Text → Response
  error_fragment : Error → Response
  jobs_page : Option JobView → Response
  retrieve_status : Option RetrieveView → Response
  panicked : Response

-- `jobViewFromJob`; no view stands for an index out of range.
abbrev pub view_at : BurnJob.Job → Option DiscPlan → Option JobView
view_at job none = none
view_at job (some plan) = some (record {
  state = job.state;
  error = job.error;
  current_index1 = job.current_index + 1;
  total_discs = length job.plans;
  current_disk_id = plan.disk_id;
  dry_run = job.options.dry_run;
})

-- The index, none where it is negative.
abbrev pub clamped : ℕ → ℕ → Option ℕ
clamped index zero = none
clamped index (suc last) = some (if leb (suc last) index then last else index)

abbrev pub plan_at : List DiscPlan → Option ℕ → Option DiscPlan
plan_at plans none = none
plan_at plans (some index) = get_elem? plans index

unfoldable pub view_of_job : BurnJob.Job → Option JobView
view_of_job job = view_at job (plan_at job.plans (clamped job.current_index (length job.plans)))

abbrev pub page_of : Option JobView → Response
page_of none = panicked
page_of (some view) = jobs_page (some view)

unfoldable pub render_jobs : Option BurnJob.Job → Response
unfolding view_of_job
render_jobs none = jobs_page none
render_jobs (some job) = page_of (view_of_job job)

unfoldable pub render_retrieve_status : Option RetrieveJob.Job → List Text → Response
render_retrieve_status none remaining = retrieve_status none
render_retrieve_status (some job) remaining =
    retrieve_status (some (record { job = job; remaining = remaining }))

-- `errors.Is(err, db.ErrNotFound)`
unfoldable pub is_not_found : Error → Bool
is_not_found (external n) = false
is_not_found (message text args) = false
is_not_found (wrapped text e) = is_not_found e
is_not_found (not_found what) = true

-- The digits of a number, most significant first; one that is too large for 64 bits is the largest,
-- whatever follows.
unfoldable pub digits : ℕ → Text → Option ℕ
digits n [] = some n
digits n (c ∷ s) =
    let next = n * 10 + (c - b'0') in
    let rest = digits next s in
    if leb b'0' c && leb c b'9'
    then (if ltb next (2 ^ 64) then rest else some (2 ^ 64 - 1))
    else none

-- `strconv.Atoi`, the value as 64 bits: out of range it is the nearest one, else after an error 0.
abbrev pub int_range : Error
int_range = message (codes "value out of range") []

abbrev pub int_syntax : Error
int_syntax = message (codes "invalid syntax") []

abbrev pub ranged : Bool → Option ℕ → ℕ × Option Error
ranged negative none = (0, some int_syntax)
ranged true (some n) = if leb n int64_limit then (neg64 n, none) else (int64_limit, some int_range)
ranged false (some n) = if ltb n int64_limit then (n, none) else (int64_limit - 1, some int_range)

abbrev pub unsigned : Bool → Text → ℕ × Option Error
unsigned negative [] = (0, some int_syntax)
unsigned negative (c ∷ s) = ranged negative (digits 0 (c ∷ s))

unfoldable pub atoi : Text → ℕ × Option Error
unfolding digits
atoi [] = (0, some int_syntax)
atoi (c ∷ s) =
    if c == b'-'
    then unsigned true s
    else (if c == b'+' then unsigned false s else unsigned false (c ∷ s))

abbrev pub bad_percent : Response
bad_percent =
    http_error 400 (message (codes "parity_percent must be an integer between 5 and 50") [])

-- `err != nil || parityPercent < 5 || parityPercent > 50`
abbrev pub is_bad_percent : ℕ × Option Error → Bool
is_bad_percent (percent, some e) = true
is_bad_percent (percent, none) = lt64 percent 5 || lt64 50 percent
