-- ===== src/Web/Views.antt =====
-- The page of the jobs, of internal/web/jobs.go, between the calls of the burning manager.
use varis.Base.{
  ℕ, zero, suc, ◌+◌, ◌-◌, ◌≤◌, ◌<◌, ◌≡◌, ◌⊎◌, inl, inr, refl, List, [], ◌∷◌, Option, none, some,
  arith, Error, length, get_elem?,
}
use varis.Os.{Os}
use varis.Burn.Cataloger.{Cataloger}
use varis.Burn.Plan.{DiscPlan}
use varis.Burn.Job as BurnJob
use varis.Burn.Disc.{Dirs}
use varis.Burn.Manager.Idle.{Call, after_calls, new_manager, IsIdle, Settled, after_calls-IsIdle}
use varis.Web.Server.{
  JobView, Response, jobs_page, view_at, clamped, plan_at, view_of_job, page_of, render_jobs,
}

-- The page shows the disc that the job is at, or its last one.
pub record IsViewOf (job : BurnJob.Job) (view : JobView) : Type 0 where
  pub index : ℕ
  pub plan : DiscPlan
  pub in_plans : get_elem? job.plans index ≡ some plan
  pub current :
      (job.current_index ≡ index)
      ⊎ ((job.current_index ≡ suc index) × (length job.plans ≡ suc index))
  pub shows_disc : view.current_disk_id ≡ plan.disk_id
  pub shows_state : (view.state ≡ job.state) × (view.error ≡ job.error)
  pub counts : (view.current_index1 ≡ job.current_index + 1) × (view.total_discs ≡ length job.plans)

-- The page of a job or of none.
abbrev pub IsPageOf : Option BurnJob.Job → Response → Type 0
IsPageOf none page = page ≡ jobs_page none
IsPageOf (some job) page = (view : JobView) × IsViewOf job view × (page ≡ jobs_page (some view))

in_bounds :
    (s : BurnJob.State) (i n : ℕ) (error : Option Error)
    → Settled s i n error
    → (i < n) ⊎ ((1 ≤ n) × (i ≡ n))
in_bounds BurnJob.State.state_awaiting_disc i n error h = inl h.0
in_bounds BurnJob.State.state_done i n error h = inr (h.0, h.1)
in_bounds BurnJob.State.state_failed i n error h = inl h.0
in_bounds BurnJob.State.state_packing i n error h = absurd h
in_bounds BurnJob.State.state_parity i n error h = absurd h
in_bounds BurnJob.State.state_iso i n error h = absurd h
in_bounds BurnJob.State.state_burning i n error h = absurd h
in_bounds BurnJob.State.state_verifying i n error h = absurd h

found :
    (plans : List DiscPlan) (i : ℕ)
    → i < length plans
    → (plan : DiscPlan) × (get_elem? plans i ≡ some plan)
found [] i h = absurd (omega arith)
found (p ∷ plans) zero h = (p, refl)
found (p ∷ plans) (suc i) h = found plans i (omega arith)

render_at :
    (job : BurnJob.Job) (index : ℕ)
    → clamped job.current_index (length job.plans) ≡ some index
    → index < length job.plans
    → (job.current_index ≡ index)
      ⊎ ((job.current_index ≡ suc index) × (length job.plans ≡ suc index))
    → IsPageOf (some job) (render_jobs (some job))
unfolding render_jobs view_of_job
render_at job index here inside current = at (found job.plans index inside)
  where
    at :
        ((plan : DiscPlan) × (get_elem? job.plans index ≡ some plan))
        → IsPageOf (some job) (
            page_of
              (view_at job (plan_at job.plans (clamped job.current_index (length job.plans)))))
    at (plan, there) =
        rw (here, there)
          (
            _,
            record {
              index = index;
              plan = plan;
              in_plans = there;
              current = current;
              shows_disc = refl;
              shows_state = (refl, refl);
              counts = (refl, refl);
            },
            refl,
          )

render_jobs-IsPageOf : (job : Option BurnJob.Job) → IsIdle job → IsPageOf job (render_jobs job)
unfolding render_jobs
render_jobs-IsPageOf none h = refl
render_jobs-IsPageOf (some job) h =
    elim (in_bounds job.state job.current_index (length job.plans) job.error h) [
      | inl inside ↦
          render_at job job.current_index (before (length job.plans) job.current_index inside)
            inside (inl refl)
      | inr (some_plan, end) ↦
          render_at job (length job.plans - 1)
            (last (length job.plans) job.current_index some_plan end) (omega arith)
            (inr (omega arith, omega arith))
    ]
  where
    before : (n i : ℕ) → i < n → clamped i n ≡ some i
    before zero i h = absurd (omega arith)
    before (suc n) i h = ground arith

    last : (n i : ℕ) → 1 ≤ n → i ≡ n → clamped i n ≡ some (n - 1)
    last zero i h e = absurd (omega arith)
    last (suc n) i h e = ground arith

module _ (cat : Cataloger) (os : Os cat.State) (dirs : Dirs) where
  -- Whatever calls a new burning manager gets, one after the other: between them the page of the
  -- jobs is rendered and never panics. It shows no job where there is none; else the state and
  -- the error of the job, its index counted from 1, the number of its discs, and the id of the disc
  -- that it is at, or of its last one where it is behind the last.
  pub after_calls-IsPageOf :
      (calls : List Call) (world : cat.State)
      → let job = (after_calls cat os dirs calls (new_manager cat os dirs world)).job in
        IsPageOf job (render_jobs job)
  after_calls-IsPageOf calls world =
      render_jobs-IsPageOf _ (after_calls-IsIdle cat os dirs calls world)
