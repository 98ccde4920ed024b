-- ===== src/Burn/Manager.antt =====
-- The operations of `Manager` of internal/burn/pipeline.go, each run by itself.
pub mod Outcome
pub mod Completes
pub mod Idle
pub mod Sections
pub mod Exclusive
use varis.Base.{
  ℕ, zero, suc, ◌+◌, ◌-◌, ◌*◌, ◌/◌, ◌%◌, ◌^◌, ◌≤◌, ◌<◌, min, bit_xor, ◌≡◌, ◌≢◌, ◌↔◌, ◌⊎◌, inl, inr,
  refl, sym, ap, ap₂, subst, fun_ext, ◌∙◌, Bool, true, false, not, ◌&&◌, ◌||◌, Bool-cases, List, [],
  ◌∷◌, ◌++◌, map, append_assoc, append-nil, map-append, Option, none, some, Option-cases, arith,
  tests, ltb, leb, ◌==◌, ltb→lt, lt→ltb, leb→le, le→leb, ==_iff, if◌then◌else◌, dec_lt, dec_le,
  ℕ_discrete, Text, codes, text_eq, text_eq_iff, text_eq_refl, text_ne, contains, contains-append,
  Error, external, message, wrapped, not_found, Result, ok, err, Result-cases, length, get_elem?,
  get_or, set, take, drop, replicate, All, All-append, All-imp, length-append, length-map,
  length-replicate, length-take, length-drop, take-append-drop, get_or_ext, add64, mul64, neg64,
  lt64, div64, is_negative64, int64_limit,
}
use varis.Base.Effect.{Effect, pure, lift, ◌>>=◌, ◌>>◌, with_context}
use varis.Binpack.Scan.{scan_staging}
use varis.Os.{Os}
use varis.Burn.Cataloger.{Cataloger}
use varis.Burn.Plan.{Options, DiscPlan, plan_job}
use varis.Burn.Job.{
  Job, Manager, state_text, is_in_progress, claim, fail_job, advance, new_job, retry_job, on_job,
}
use varis.Burn.Disc.{Dirs, check_free_space}
use varis.Burn.Run.{run_disc}

-- An index beyond a slice, at which Go panics.
abbrev pub index_out_of_range : Error
index_out_of_range = message (codes "index out of range") []

module _ (cat : Cataloger) (os : Os cat.State) (dirs : Dirs) where
  -- What `Start` does before it sets the job: the space, and the plans.
  unfoldable pub prepare : Options → Effect cat.State (List DiscPlan)
  prepare opts = do
    check_free_space cat os dirs opts
    with_context (codes "planning") (λ w.
        let scanned = scan_staging os dirs.staging_dir w in plan_job cat scanned.0 opts scanned.1)

  -- The job is replaced if there is something to burn.
  abbrev pub adopt :
      Options
      → Option Job
      → Result (List DiscPlan) × cat.State
      → Result (Unit {0}) × Manager cat.State
  adopt opts job (err e, w) = (err e, record { job = job; world = w })
  adopt opts job (ok [], w) =
      (err (message (codes "no files staged to burn") []), record { job = job; world = w })
  adopt opts job (ok (p ∷ plans), w) =
      (ok tt, record { job = some (new_job opts (p ∷ plans)); world = w })

  unfoldable pub start : Options → Effect (Manager cat.State) (Unit {0})
  start opts m =
      if is_in_progress m.job
      then (
        err (
            message (codes "a burn job is already in progress (state %s)") (state_text m.job ∷ [])),
        m,
      )
      else adopt opts m.job (prepare opts m.world)

  -- What follows `runDisc`.
  abbrev pub finish : Result (Unit {0}) × Manager cat.State → Result (Unit {0}) × Manager cat.State
  finish (ok _, m) = (ok tt, record m { job = on_job advance m.job })
  finish (err e, m) = (err e, record m { job = on_job (fail_job e) m.job })

  -- The disc that a claimed job is at.
  abbrev pub burn_current : Job → Option DiscPlan → Effect (Manager cat.State) (Unit {0})
  burn_current job none m = (err index_out_of_range, m)
  burn_current job (some plan) m = finish (run_disc cat os dirs job plan m)

  -- What follows the claim.
  abbrev pub burn_claimed : Option Job → Effect (Manager cat.State) (Unit {0})
  burn_claimed none m = (err (message (codes "no disc awaiting burn") []), m)
  burn_claimed (some job) m =
      burn_current job (get_elem? job.plans job.current_index) (record m { job = some job })

  unfoldable pub continue_next_disc : Effect (Manager cat.State) (Unit {0})
  continue_next_disc m = burn_claimed (claim m.job) m

  abbrev pub retried : Option Job → Option Job
  retried none = none
  retried (some job) = retry_job job

  abbrev pub set_retried : Option Job → Effect (Manager cat.State) (Unit {0})
  set_retried none m = (err (message (codes "no failed job to retry") []), m)
  set_retried (some job) m = (ok tt, record m { job = some job })

  unfoldable pub retry : Effect (Manager cat.State) (Unit {0})
  retry m = set_retried (retried m.job) m
