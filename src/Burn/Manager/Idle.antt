-- ===== src/Burn/Manager/Idle.antt =====
-- A manager between calls: a disc is awaited, or the job is done, or it has failed.
use varis.Base.{
  ℕ, ◌+◌, ◌≤◌, ◌<◌, ◌≡◌, ◌⊎◌, inl, inr, refl, sym, ap, subst, ◌∙◌, true, false, Bool-cases, List,
  [], ◌∷◌, Option, none, some, arith, leb, if◌then◌else◌, Error, Result, ok, err, length,
}
use varis.Base.Effect.{Effect}
use varis.Os.{Os}
use varis.Burn.Cataloger.{Cataloger}
use varis.Burn.Plan.{Options, DiscPlan}
use varis.Burn.Job.{
  Job, Manager, State, state_awaiting_disc, state_packing, state_parity, state_iso, state_burning,
  state_verifying, state_done, state_failed, is_awaiting_disc, is_failed, in_state, is_in_progress,
  claim, advance, fail_job, retry_job,
}
use varis.Burn.Disc.{Dirs}
use varis.Burn.Manager.{
  start, adopt, prepare, continue_next_disc, burn_claimed, retry, retried, set_retried,
}
use varis.Burn.Manager.Outcome.{Goes, continue_next_disc-Goes}

-- A job in the state, at the i-th of n plans.
abbrev pub Settled : State → ℕ → ℕ → Option Error → Type 0
Settled state_awaiting_disc i n error = (i < n) × (error ≡ none)
Settled state_done i n error = (1 ≤ n) × (i ≡ n) × (error ≡ none)
Settled state_failed i n error = (i < n) × (e : Error) × (error ≡ some e)
Settled _ i n error = ⊥

abbrev pub IsSettled : Job → Type 0
IsSettled job = Settled job.state job.current_index (length job.plans) job.error

-- There is no job, or its state is `AWAITING_DISC` at one of its plans, without an error; or
-- `DONE` behind the last one, without an error; or `FAILED` at one of them, with an error.
abbrev pub IsIdle : Option Job → Type 0
IsIdle none = Unit
IsIdle (some job) = IsSettled job

pub data Call : Type 0 where
  call_start : Options → Call
  call_continue call_retry : Call

state-cases :
    (s : State) (i n : ℕ) (error : Option Error)
    → Settled s i n error
    → ((s ≡ state_awaiting_disc) × (i < n) × (error ≡ none)) ⊎ (is_awaiting_disc s ≡ false)
state-cases state_awaiting_disc i n error h = inl (refl, h.0, h.1)
state-cases state_packing i n error h = absurd h
state-cases state_parity i n error h = absurd h
state-cases state_iso i n error h = absurd h
state-cases state_burning i n error h = absurd h
state-cases state_verifying i n error h = absurd h
state-cases state_done i n error h = inr refl
state-cases state_failed i n error h = inr refl

moved_on :
    (i n : ℕ)
    → i < n
    → Settled (if leb n (i + 1) then state_done else state_awaiting_disc) (i + 1) n none
moved_on i n h = elim (Bool-cases (leb n (i + 1))) [
  | inl last ↦ rw last (omega arith, ground arith, refl)
  | inr more ↦ rw more (ground arith, refl)
]

retried-Settled :
    (s : State) (i n : ℕ) (error : Option Error) → Settled s i n error → is_failed s ≡ true → i < n
retried-Settled state_failed i n error h e = h.0
retried-Settled state_awaiting_disc i n error h e = h.0
retried-Settled state_packing i n error h e = absurd h
retried-Settled state_parity i n error h e = absurd h
retried-Settled state_iso i n error h e = absurd h
retried-Settled state_burning i n error h e = absurd h
retried-Settled state_verifying i n error h e = absurd h
retried-Settled state_done i n error h e = ground arith

module _ (cat : Cataloger) (os : Os cat.State) (dirs : Dirs) where
  pub perform : Call → Effect (Manager cat.State) (Unit {0})
  perform (call_start opts) = start cat os dirs opts
  perform call_continue = continue_next_disc cat os dirs
  perform call_retry = retry cat os dirs

  -- The manager after the calls, whatever they returned.
  unfoldable pub after_calls : List Call → Manager cat.State → Manager cat.State
  unfolding perform
  after_calls [] m = m
  after_calls (c ∷ calls) m = after_calls calls (perform c m).1

  -- `NewManager`
  abbrev pub new_manager : cat.State → Manager cat.State
  new_manager world = record { job = none; world = world }

  adopt-IsIdle :
      (opts : Options) (job : Option Job) (r : Result (List DiscPlan) × cat.State)
      → IsIdle job
      → IsIdle (adopt cat os dirs opts job r).1.job
  adopt-IsIdle opts job (err e, w) h = h
  adopt-IsIdle opts job (ok [], w) h = h
  adopt-IsIdle opts job (ok (p ∷ plans), w) h = (omega arith, refl)

  start-IsIdle :
      (opts : Options) (m : Manager cat.State)
      → IsIdle m.job
      → IsIdle (start cat os dirs opts m).1.job
  unfolding start
  start-IsIdle opts m h = elim (Bool-cases (is_in_progress m.job)) [
    | inl busy ↦ rw busy h
    | inr free ↦ rw free (adopt-IsIdle opts m.job (prepare cat os dirs opts m.world) h)
  ]

  settled :
      (job : Job) (r : Result (Unit {0}) × Manager cat.State)
      → job.current_index < length job.plans
      → job.error ≡ none
      → Goes cat os dirs job r
      → IsIdle r.1.job
  unfolding advance fail_job
  settled job r left clear (inl (_, now)) = subst IsIdle (sym now) (
      subst
        (λ e.
          Settled
            (if leb (length job.plans) (job.current_index + 1)
              then state_done
              else state_awaiting_disc)
            (job.current_index + 1) (length job.plans) e)
        (sym clear) (moved_on job.current_index (length job.plans) left))
  settled job r left clear (inr (e, _, now)) = subst IsIdle (sym now) (left, e, refl)

  continue-IsIdle :
      (job : Option Job) (m : Manager cat.State)
      → m.job ≡ job
      → IsIdle job
      → IsIdle (continue_next_disc cat os dirs m).1.job
  unfolding continue_next_disc claim
  continue-IsIdle none m here h =
      subst (λ j. IsIdle (burn_claimed cat os dirs (claim j) m).1.job) (sym here)
        (subst IsIdle (sym here) h)
  continue-IsIdle (some job) m here h =
      elim (state-cases job.state job.current_index (length job.plans) job.error h) [
        | inl (awaiting, left, clear) ↦
            settled job (continue_next_disc cat os dirs m) left clear
              (continue_next_disc-Goes cat os dirs m job here awaiting left)
        | inr refused ↦
            subst (λ c. IsIdle (burn_claimed cat os dirs c m).1.job)
              (sym (
                ap claim here
                ∙ ap (λ b. if b then some (in_state state_packing job) else none) refused))
              (subst IsIdle (sym here) h)
      ]

  retry-IsIdle :
      (job : Option Job) (m : Manager cat.State)
      → m.job ≡ job
      → IsIdle job
      → IsIdle (retry cat os dirs m).1.job
  unfolding retry retry_job
  retry-IsIdle none m here h =
      subst (λ j. IsIdle (set_retried cat os dirs (retried cat os dirs j) m).1.job) (sym here)
        (subst IsIdle (sym here) h)
  retry-IsIdle (some job) m here h =
      subst (λ j. IsIdle (set_retried cat os dirs (retried cat os dirs j) m).1.job) (sym here)
        (elim (Bool-cases (is_failed job.state)) [
          | inl failed ↦
              subst (λ b. IsIdle (set_retried cat os dirs (if b then some again else none) m).1.job)
                (sym failed) (retried-Settled job.state _ _ job.error h failed, refl)
          | inr other ↦
              subst (λ b. IsIdle (set_retried cat os dirs (if b then some again else none) m).1.job)
                (sym other) (subst IsIdle (sym here) h)
        ])
    where
      again : Job
      again = record job { state = state_awaiting_disc; error = none }

  perform-IsIdle : (c : Call) (m : Manager cat.State) → IsIdle m.job → IsIdle (perform c m).1.job
  unfolding perform
  perform-IsIdle (call_start opts) m h = start-IsIdle opts m h
  perform-IsIdle call_continue m h = continue-IsIdle m.job m refl h
  perform-IsIdle call_retry m h = retry-IsIdle m.job m refl h

  -- Whatever calls a new manager gets, one after the other, and whatever the machine and the
  -- catalog answer, between the calls there is no job, or its state is `AWAITING_DISC` at one of
  -- its plans, without an error; or `DONE` behind the last one, without an error; or `FAILED` at
  -- one of them, with an error.
  pub after_calls-IsIdle :
      (calls : List Call) (world : cat.State) → IsIdle (after_calls calls (new_manager world)).job
  unfolding after_calls
  after_calls-IsIdle calls world = all calls (new_manager world) tt
    where
      all :
          (calls : List Call) (m : Manager cat.State)
          → IsIdle m.job
          → IsIdle (after_calls calls m).job
      all [] m h = h
      all (c ∷ calls) m h = all calls (perform c m).1 (perform-IsIdle c m h)
