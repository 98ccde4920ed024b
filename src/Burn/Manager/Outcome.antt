-- ===== src/Burn/Manager/Outcome.antt =====
-- What a call of the manager leaves: the job, with only its state, its index and its error changed.
use varis.Base.{
  ℕ, zero, suc, ◌<◌, ◌≤◌, ◌+◌, ◌≡◌, ◌⊎◌, inl, inr, refl, sym, ap, subst, ◌∙◌, Bool, true, false,
  List, [], ◌∷◌, Option, none, some, arith, if◌then◌else◌, Text, Error, Result, ok, err, length,
  get_elem?,
}
use varis.Base.Effect.{Effect, proceed}
use varis.Os.{Os}
use varis.Db.{WriteKind, optical, filesystem, other_kind}
use varis.Burn.Cataloger.{Cataloger}
use varis.Burn.Plan.{Options, DiscPlan}
use varis.Burn.Job.{
  Job, Manager, State, state_awaiting_disc, state_packing, state_done, state_failed,
  is_awaiting_disc, claim, in_state, fail_job, advance, on_job,
}
use varis.Burn.Step.{set_state, within, ◌>>=◌, ◌>>◌}
use varis.Burn.Disc.{Dirs}
use varis.Burn.Run.{write_as, write_medium, run_disc}
use varis.Burn.Manager.{continue_next_disc, burn_claimed, finish, burn_current}

-- The pointer refers to the job, in whatever state.
abbrev pub SameJob : Job → Option Job → Type 0
SameJob job now = (state : State) × (now ≡ some (in_state state job))

-- A step changes nothing of the job but its state.
record Keeps {W A : Type 0} (step : Effect (Manager W) A) : Type 0 where
  keeps : (job : Job) (m : Manager W) → SameJob job m.job → SameJob job (step m).1.job

within-Keeps : {W A : Type 0} (step : Effect W A) → Keeps (within step)
unfolding within
within-Keeps step = record { keeps = λ job m h. h }

set_state-Keeps : {W : Type 0} (state : State) → Keeps (set_state {W = W} state)
unfolding set_state
set_state-Keeps state = record {
  keeps = λ job m (before, h). (state, ap (on_job (in_state state)) h);
}

bind-Keeps :
    {W A B : Type 0} (step : Effect (Manager W) A) (next : A → Effect (Manager W) B)
    → Keeps step
    → ((a : A) → Keeps (next a))
    → Keeps (step >>= next)
unfolding ◌>>=◌
bind-Keeps {W} {A} step next first second = record {
  keeps = λ job m h. after job (step m) (first.keeps job m h);
}
  where
    after :
        (job : Job) (r : Result A × Manager W)
        → SameJob job r.1.job
        → SameJob job (proceed next r).1.job
    after job (ok a, m) h = (second a).keeps job m h
    after job (err e, m) h = h

infixr 5 ◌⊳◌
◌⊳◌ :
    {W A : Type 0} {step : Effect (Manager W) (Unit {0})} {next : Effect (Manager W) A}
    → Keeps step
    → Keeps next
    → Keeps (step >> next)
unfolding ◌>>◌
◌⊳◌ {step = step} {next = next} first second = bind-Keeps step (λ _. next) first (λ _. second)

if-Keeps :
    {W A : Type 0} (b : Bool) {step other : Effect (Manager W) A}
    → Keeps step
    → Keeps other
    → Keeps (if b then step else other)
if-Keeps true first second = first
if-Keeps false first second = second

claim-awaiting :
    (job : Job)
    → job.state ≡ state_awaiting_disc
    → claim (some job) ≡ some (in_state state_packing job)
unfolding claim
claim-awaiting job h =
    ap (λ s. if is_awaiting_disc s then some (in_state state_packing job) else none) h

get_elem?-in_range {ℓ} :
    {A : Type ℓ} (xs : List A) (i : ℕ) → i < length xs → (x : A) × (get_elem? xs i ≡ some x)
get_elem?-in_range [] i h = absurd (omega arith)
get_elem?-in_range (x ∷ xs) zero h = (x, refl)
get_elem?-in_range (x ∷ xs) (suc i) h = get_elem?-in_range xs i (omega arith)

module _ (cat : Cataloger) (os : Os cat.State) (dirs : Dirs) where
  write_as-Keeps :
      (kind : WriteKind) (opts : Options) (plan : DiscPlan) (hash : Text)
      → Keeps (write_as cat os dirs kind opts plan hash)
  write_as-Keeps optical opts plan hash = within-Keeps _ ⊳ set_state-Keeps _ ⊳ within-Keeps _
  write_as-Keeps filesystem opts plan hash =
      within-Keeps _ ⊳ set_state-Keeps _ ⊳ within-Keeps _ ⊳ within-Keeps _
  write_as-Keeps (other_kind _) opts plan hash = within-Keeps _ ⊳ set_state-Keeps _ ⊳ within-Keeps _

  write_medium-Keeps :
      (opts : Options) (plan : DiscPlan) (hash : Text)
      → Keeps (write_medium cat os dirs opts plan hash)
  unfolding write_medium
  write_medium-Keeps opts plan hash =
      if-Keeps opts.dry_run (within-Keeps _) (write_as-Keeps opts.write_kind opts plan hash)

  run_disc-Keeps : (job : Job) (plan : DiscPlan) → Keeps (run_disc cat os dirs job plan)
  unfolding run_disc
  run_disc-Keeps job plan =
      within-Keeps _
      ⊳ within-Keeps _
      ⊳ set_state-Keeps _
      ⊳ within-Keeps _
      ⊳ set_state-Keeps _
      ⊳ within-Keeps _
      ⊳ within-Keeps _
      ⊳ set_state-Keeps _
      ⊳ bind-Keeps _ _ (within-Keeps _) λ hash.
        set_state-Keeps _
        ⊳ write_medium-Keeps job.options plan hash
        ⊳ within-Keeps _
        ⊳ within-Keeps _

  -- Either `advance` or `fail_job` has been the last change of the job.
  abbrev pub Goes : Job → Result (Unit {0}) × Manager cat.State → Type 0
  Goes job r =
      ((r.0 ≡ ok tt) × (r.1.job ≡ some (advance job)))
      ⊎ ((e : Error) × (r.0 ≡ err e) × (r.1.job ≡ some (fail_job e job)))

  finish-Goes :
      (job : Job) (r : Result (Unit {0}) × Manager cat.State)
      → SameJob job r.1.job
      → Goes job (finish cat os dirs r)
  unfolding advance fail_job
  finish-Goes job (ok _, m) (state, h) = inl (refl, ap (on_job advance) h)
  finish-Goes job (err e, m) (state, h) = inr (e, refl, ap (on_job (fail_job e)) h)

  pub continue_next_disc-Goes :
      (m : Manager cat.State) (job : Job)
      → m.job ≡ some job
      → job.state ≡ state_awaiting_disc
      → job.current_index < length job.plans
      → Goes job (continue_next_disc cat os dirs m)
  unfolding continue_next_disc
  continue_next_disc-Goes m job here awaiting left =
      let (plan, at) = get_elem?-in_range job.plans job.current_index left in
      subst (Goes job) (sym (burns plan at))
        (finish-Goes job _ ((run_disc-Keeps claimed plan).keeps claimed _ (state_packing, refl)))
    where
      claimed : Job
      claimed = in_state state_packing job

      burns :
          (plan : DiscPlan)
          → get_elem? job.plans job.current_index ≡ some plan
          → continue_next_disc cat os dirs m
            ≡ finish cat os dirs
                (run_disc cat os dirs claimed plan (record m { job = some claimed }))
      burns plan at =
          ap (λ c. burn_claimed cat os dirs c m) (ap claim here ∙ claim-awaiting job awaiting)
          ∙ ap (λ p. burn_current cat os dirs claimed p (record m { job = some claimed })) at

  -- The disc is burned: the job waits for the next one, or is done if there is none.
  abbrev pub Burned : Job → Job → Type 0
  Burned job now =
      (now.current_index ≡ job.current_index + 1)
      × (now.error ≡ job.error)
      × (job.current_index + 1 < length job.plans → now.state ≡ state_awaiting_disc)
      × (length job.plans ≤ job.current_index + 1 → now.state ≡ state_done)

  -- The job has failed with the error, at the same plan.
  abbrev pub FailedWith : Error → Job → Job → Type 0
  FailedWith e job now =
      (now.current_index ≡ job.current_index) × (now.error ≡ some e) × (now.state ≡ state_failed)

  abbrev Moved : Result (Unit {0}) → Job → Job → Type 0
  Moved (ok _) job now = Burned job now
  Moved (err e) job now = FailedWith e job now

  -- The manager has a job with the same options and plans, which has gone on by the result.
  abbrev pub Outcome : Job → Result (Unit {0}) × Manager cat.State → Type 0
  Outcome job r =
      (now : Job) × (r.1.job ≡ some now)
      × (now.options ≡ job.options)
      × (now.plans ≡ job.plans)
      × Moved r.0 job now

  Goes-Outcome :
      (job : Job) (r : Result (Unit {0}) × Manager cat.State) → Goes job r → Outcome job r
  unfolding advance fail_job
  Goes-Outcome job (ok _, m) (inl (done, h)) =
      (advance job, h, refl, refl, (refl, refl, (λ h. ground (arith, h)), (λ h. ground (arith, h))))
  Goes-Outcome job (err e, m) (inl (done, h)) = absurd (cc done)
  Goes-Outcome job (ok _, m) (inr (e, failed, h)) = absurd (cc failed)
  Goes-Outcome job (err f, m) (inr (e, failed, h)) =
      (fail_job e job, h, refl, refl, (refl, cc failed, refl))

  -- Where a disc is awaited and the job has a plan left, `ContinueNextDisc` either returns without
  -- an error, and the job is at the next plan with no other error than before, `AWAITING_DISC` if
  -- there is such a plan, and `DONE` if there is none; or it returns an error, and the job is
  -- `FAILED` with that error, at the same plan. The plans and the options are as before.
  pub continue_next_disc-Outcome :
      (m : Manager cat.State) (job : Job)
      → m.job ≡ some job
      → job.state ≡ state_awaiting_disc
      → job.current_index < length job.plans
      → Outcome job (continue_next_disc cat os dirs m)
  continue_next_disc-Outcome m job here awaiting left =
      Goes-Outcome job (continue_next_disc cat os dirs m)
        (continue_next_disc-Goes m job here awaiting left)
