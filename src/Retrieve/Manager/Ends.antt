-- ===== src/Retrieve/Manager/Ends.antt =====
-- How the steps of a retrieval end: what becomes of the job, by the step's result, and of the
-- reconstructor.
use varis.Base.{ℕ, ◌≡◌, refl, ap, Option, some, Error, Result, ok, err}
use varis.Base.Effect.{Effect, proceed}
use varis.Burn.Reconstruct.{Reconstructor}
use varis.Retrieve.Job.{Job, Manager, State, in_state, on_job}
use varis.Retrieve.Step.{update_job, or_else, quietly, deferring, ◌>>=◌, ◌>>◌}

abbrev pub settle : State → Option Error → Job → Job
settle state error job = record job { state = state; error = error }

-- The pointer refers to the job, in whatever state and with whatever error.
abbrev pub SameJob : Job → Option Job → Type 0
SameJob job now = (state : State) × (error : Option Error) × (now ≡ some (settle state error job))

abbrev pub Any : State → Type 0
Any state = Unit

-- The job behind a step: in a good state if it has returned no error; else in a state that its
-- error allows, with that error.
abbrev pub Ended :
    {A : Type 0}
    → (State → Type 0)
    → (Error → State → Type 0)
    → Job
    → Result A
    → Option Job
    → Type 0
Ended Good Bad job (ok a) now =
    (state : State) × (error : Option Error) × Good state × (now ≡ some (settle state error job))
Ended Good Bad job (err e) now =
    (state : State) × Bad e state × (now ≡ some (settle state (some e) job))

-- A step keeps `R` of the reconstructor and the capacity, and ends in these states.
pub record Ends {W A : Type 0} (R : Option Reconstructor → ℕ → Type 0) (Good : State → Type 0)
    (Bad : Error → State → Type 0) (step : Effect (Manager W) A) : Type 0 where
  pub ends :
      (job : Job) (m : Manager W)
      → SameJob job m.job
      → R m.reconstructor m.reconstruction_capacity
      → Ended Good Bad job (step m).0 (step m).1.job
        × R (step m).1.reconstructor (step m).1.reconstruction_capacity

module _ {W : Type 0} (R : Option Reconstructor → ℕ → Type 0) (Bad : Error → State → Type 0) where
  pub or_else-Ends :
      {A : Type 0} (state : State) (step : Effect W A)
      → ((w : W) (e : Error) → (step w).0 ≡ err e → Bad e state)
      → Ends R Any Bad (or_else (λ e. settle state (some e)) step)
  unfolding or_else
  or_else-Ends {A} state step bad = record {
    ends = λ job m (before, error, h) kept. ended job m before error h kept (step m.world) refl;
  }
    where
      ended :
          (job : Job) (m : Manager W) (before : State) (error : Option Error)
          → m.job ≡ some (settle before error job)
          → R m.reconstructor m.reconstruction_capacity
          → (r : Result A × W) → step m.world ≡ r
          → let s = or_else (λ e. settle state (some e)) (λ _. r) m in
            Ended Any Bad job s.0 s.1.job × R s.1.reconstructor s.1.reconstruction_capacity
      ended job m before error h kept (ok a, w) same = ((before, error, tt, h), kept)
      ended job m before error h kept (err e, w) same =
          ((state, bad m.world e (ap (λ r. r.0) same), ap (on_job (settle state (some e))) h), kept)

  pub in_state-Ends :
      (Good : State → Type 0) (state : State)
      → Good state
      → Ends R Good Bad (update_job {W = W} (in_state state))
  unfolding update_job
  in_state-Ends Good state good = record {
    ends = λ job m (before, error, h) kept.
        ((state, error, good, ap (on_job (in_state state)) h), kept);
  }

  pub settle-Ends :
      (Good : State → Type 0) (state : State) (error : Option Error)
      → Good state
      → Ends R Good Bad (update_job {W = W} (settle state error))
  unfolding update_job
  settle-Ends Good state error good = record {
    ends = λ job m (_, _, h) kept. ((state, error, good, ap (on_job (settle state error)) h), kept);
  }

  pub quietly-Ends : (step : Effect W (Unit {0})) → Ends R Any Bad (quietly step)
  unfolding quietly
  quietly-Ends step = record {
    ends = λ job m (before, error, h) kept. ((before, error, tt, h), kept);
  }

  pub deferring-Ends :
      {A : Type 0} {Good : State → Type 0} (cleanup : Effect W (Unit {0}))
      {step : Effect (Manager W) A}
      → Ends R Good Bad step
      → Ends R Good Bad (deferring cleanup step)
  unfolding deferring
  deferring-Ends cleanup body = record { ends = body.ends }

  pub bind-Ends :
      {A B : Type 0} {Good : State → Type 0} {step : Effect (Manager W) A}
      {next : A → Effect (Manager W) B}
      → Ends R Any Bad step
      → ((a : A) → Ends R Good Bad (next a))
      → Ends R Good Bad (step >>= next)
  unfolding ◌>>=◌
  bind-Ends {A} {B} {Good} {step} {next} first second = record {
    ends = λ job m h kept. after job (step m) (first.ends job m h kept);
  }
    where
      after :
          (job : Job) (r : Result A × Manager W)
          → Ended Any Bad job r.0 r.1.job × R r.1.reconstructor r.1.reconstruction_capacity
          → let s = proceed next r in
            Ended Good Bad job s.0 s.1.job × R s.1.reconstructor s.1.reconstruction_capacity
      after job (ok a, m) ((state, error, _, h), kept) =
          (second a).ends job m (state, error, h) kept
      after job (err e, m) ended = ended

  pub then-Ends :
      {B : Type 0} {Good : State → Type 0} {step : Effect (Manager W) (Unit {0})}
      {next : Effect (Manager W) B}
      → Ends R Any Bad step
      → Ends R Good Bad next
      → Ends R Good Bad (step >> next)
  unfolding ◌>>◌
  then-Ends first second = bind-Ends first (λ _. second)

-- A step that ends in fewer states.
pub imp-Ends :
    {W A : Type 0} (R : Option Reconstructor → ℕ → Type 0) {Good Better : State → Type 0}
    {Bad Worse : Error → State → Type 0} {step : Effect (Manager W) A}
    → ((s : State) → Good s → Better s)
    → ((e : Error) (s : State) → Bad e s → Worse e s)
    → Ends R Good Bad step
    → Ends R Better Worse step
imp-Ends {W} {A} R {Good} {Better} {Bad} {Worse} {step} better weaken body = record {
  ends = λ job m h kept.
      let (ended, after) = body.ends job m h kept in
      (imp job (step m).0 (step m).1.job ended, after);
}
  where
    imp :
        (job : Job) (r : Result A) (now : Option Job)
        → Ended Good Bad job r now
        → Ended Better Worse job r now
    imp job (ok a) now (state, error, good, h) = (state, error, better state good, h)
    imp job (err e) now (state, bad, h) = (state, weaken e state bad, h)
