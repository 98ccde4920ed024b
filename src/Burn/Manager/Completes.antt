-- ===== src/Burn/Manager/Completes.antt =====
-- A user who inserts one disc after the other: how far internal/burn/pipeline.go has come.
use varis.Base.{
  ℕ, zero, suc, ◌+◌, ◌≤◌, ◌<◌, ◌≡◌, ◌⊎◌, inl, inr, refl, ap, ◌∙◌, true, false, some, arith, leb,
  Error, Result, ok, err, length,
}
use varis.Base.Effect.{Effect, pure, proceed, ◌>>◌}
use varis.Os.{Os}
use varis.Burn.Cataloger.{Cataloger}
use varis.Burn.Job.{Job, Manager, state_awaiting_disc, state_done, state_failed, advance, fail_job}
use varis.Burn.Disc.{Dirs}
use varis.Burn.Manager.{continue_next_disc}
use varis.Burn.Manager.Outcome.{Goes, continue_next_disc-Goes}

abbrev pub finished : Job → Job
finished job = record job { current_index = length job.plans; state = state_done }

abbrev pub stopped : Error → ℕ → Job → Job
stopped e i job = record job { current_index = i; state = state_failed; error = some e }

advance-last : (job : Job) → job.current_index + 1 ≡ length job.plans → advance job ≡ finished job
unfolding advance
advance-last job h = rw h (rw here refl)
  where
    here : leb (length job.plans) (length job.plans) ≡ true
    here = ground arith

advance-more :
    (job : Job)
    → job.current_index + 1 < length job.plans
    → (advance job).state ≡ state_awaiting_disc
unfolding advance
advance-more job h = rw here refl
  where
    here : leb (length job.plans) (job.current_index + 1) ≡ false
    here = ground arith

further :
    (job : Job) (k : ℕ)
    → job.current_index + suc (suc k) ≡ length job.plans
    → (advance job).current_index + suc k ≡ length (advance job).plans
unfolding advance
further job k left = omega arith

module _ (cat : Cataloger) (os : Os cat.State) (dirs : Dirs) where
  -- So many discs, until one fails.
  unfoldable pub continues : ℕ → Effect (Manager cat.State) (Unit {0})
  continues zero = pure tt
  continues (suc k) = continue_next_disc cat os dirs >> continues k

  -- Either all discs have been burned, or one of them has failed.
  abbrev pub Completed : Job → Result (Unit {0}) × Manager cat.State → Type 0
  Completed job r =
      ((r.0 ≡ ok tt) × (r.1.job ≡ some (finished job)))
      ⊎ ((e : Error) × (i : ℕ) × (job.current_index ≤ i)
          × (i < length job.plans)
          × (r.0 ≡ err e)
          × (r.1.job ≡ some (stopped e i job)))

  advance-Completed :
      (job : Job) (r : Result (Unit {0}) × Manager cat.State)
      → Completed (advance job) r
      → Completed job r
  unfolding advance
  advance-Completed job r (inl all) = inl all
  advance-Completed job r (inr (e, i, low, high, failed, now)) =
      inr (e, i, omega arith, high, failed, now)

  -- What the call for one disc leaves, where the calls after it complete the job.
  continue-Completed :
      (job : Job) (next : Effect (Manager cat.State) (Unit {0}))
      (r : Result (Unit {0}) × Manager cat.State)
      → job.current_index < length job.plans
      → ((m : Manager cat.State) → m.job ≡ some (advance job) → Completed job (next m))
      → Goes cat os dirs job r
      → Completed job (proceed (λ _. next) r)
  unfolding fail_job
  continue-Completed job next (ok _, m) left rest (inl (_, now)) = rest m now
  continue-Completed job next (err e, m) left rest (inl (fine, now)) = absurd (cc fine)
  continue-Completed job next (ok _, m) left rest (inr (e, failed, now)) = absurd (cc failed)
  continue-Completed job next (err f, m) left rest (inr (e, failed, now)) =
      inr (e, job.current_index, omega arith, left, failed, now)

  -- Where a disc is awaited and k of the job's plans are left, k calls of `ContinueNextDisc`, each
  -- made if the one before it returned no error, either all return without an error, and the job is
  -- `DONE` behind its last plan, or the first error that one returns is the error of the job, which
  -- is then `FAILED` at one of the plans that were left. Nothing else of the job changes.
  pub continues-Completed :
      (k : ℕ) (m : Manager cat.State) (job : Job)
      → m.job ≡ some job
      → job.state ≡ state_awaiting_disc
      → job.current_index + suc k ≡ length job.plans
      → Completed job (continues (suc k) m)
  unfolding continues
  continues-Completed zero m job here awaiting left =
      continue-Completed job (continues zero) (continue_next_disc cat os dirs m) (omega arith)
        (λ m now. inl (refl, now ∙ ap some (advance-last job left)))
        (continue_next_disc-Goes cat os dirs m job here awaiting (omega arith))
  continues-Completed (suc k) m job here awaiting left =
      continue-Completed job (continues (suc k)) (continue_next_disc cat os dirs m) (omega arith)
        (λ m now. advance-Completed job (continues (suc k) m) (
          continues-Completed k m (advance job) now (advance-more job (omega arith))
            (further job k left)))
        (continue_next_disc-Goes cat os dirs m job here awaiting (omega arith))
