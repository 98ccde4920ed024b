-- ===== src/Retrieve/Manager/Apart.antt =====
-- Every claimed job has one call that works on it, whatever runs at the same time.
use varis.Base.{
  ℕ, ◌+◌, ◌<◌, ◌≡◌, ◌≢◌, inl, inr, sym, ap, subst, ◌∙◌, true, false, Bool-cases, List, [], ◌∷◌,
  ◌++◌, some, arith, All, All-imp,
}
use varis.Retrieve.Job.{
  Job, State, new_job, claim_reading, claim_starting, claim_folding, is_awaiting_media, is_needing,
  is_reconstructing,
}
use varis.Retrieve.Manager.Sections.{
  Shared, put, is_busy, Claimed, to_read, to_start, to_fold, Step, started, aborted, claimed,
  finished, Reachable, fresh, next,
}

-- No entry occurs twice.
abbrev pub Unique : List ℕ → Type 0
Unique [] = Unit
Unique (x ∷ xs) = All (λ q. q ≢ x) xs × Unique xs

abbrev pub AreBusy : (ℕ → Job) → List ℕ → Type 0
AreBusy heap working = All (λ p. is_busy (heap p).state ≡ true) working

-- No two calls work on one job, and the jobs they work on are in the states of a claimed one.
pub record Apart (s : Shared) : Type 0 where
  pub unique : Unique s.working
  pub busy : AreBusy s.heap s.working
  below : All (λ p. p < s.allocated) s.working
  job_below : (p : ℕ) → s.job ≡ some p → p < s.allocated

put_here : (heap : ℕ → Job) (p : ℕ) (job : Job) → put heap p job p ≡ job
put_here heap p job = ground arith

put-other : (heap : ℕ → Job) (p q : ℕ) (job : Job) → q ≢ p → put heap p job q ≡ heap q
put-other heap p q job h = ground arith

AreBusy-put :
    (heap : ℕ → Job) (p : ℕ) (job : Job) (working : List ℕ)
    → All (λ q. q ≢ p) working
    → AreBusy heap working
    → AreBusy (put heap p job) working
AreBusy-put heap p job [] ne h = tt
AreBusy-put heap p job (q ∷ working) ne h = (
  ap (λ (j : Job). is_busy j.state) (put-other heap p q job ne.0) ∙ h.0,
  AreBusy-put heap p job working ne.1 h.1,
)

All-removed :
    (P : ℕ → Type 0) (before after : List ℕ) (p : ℕ)
    → All P (before ++ p ∷ after)
    → All P (before ++ after)
All-removed P [] after p h = h.1
All-removed P (x ∷ before) after p h = (h.0, All-removed P before after p h.1)

All-at : (P : ℕ → Type 0) (before after : List ℕ) (p : ℕ) → All P (before ++ p ∷ after) → P p
All-at P [] after p h = h.0
All-at P (x ∷ before) after p h = All-at P before after p h.1

Unique-removed :
    (before after : List ℕ) (p : ℕ)
    → Unique (before ++ p ∷ after)
    → Unique (before ++ after) × All (λ q. q ≢ p) (before ++ after)
Unique-removed [] after p h = (h.1, h.0)
Unique-removed (x ∷ before) after p h =
    let (unique, others) = Unique-removed before after p h.1 in
    (
      (All-removed (λ q. q ≢ x) before after p h.0, unique),
      (λ e. All-at (λ q. q ≢ x) before after p h.0 (sym e), others),
    )

busy-awaiting : (s : State) → is_awaiting_media s ≡ true → is_busy s ≡ false
busy-awaiting s h = ground arith

busy-needing : (s : State) → is_needing s ≡ true → is_busy s ≡ false
busy-needing s h = ground arith

busy-reconstructing : (s : State) → is_reconstructing s ≡ true → is_busy s ≡ false
busy-reconstructing s h = ground arith

-- A job that can be claimed is not being worked on, and is busy then.
Claimed-is_busy :
    (job now : Job) → Claimed job now → (is_busy job.state ≡ false) × (is_busy now.state ≡ true)
unfolding claim_reading claim_starting claim_folding
Claimed-is_busy job now (to_read _ h) = elim (Bool-cases (is_awaiting_media job.state)) [
  | inl free ↦ (busy-awaiting job.state free, ground (arith, h, free))
  | inr other ↦ absurd (ground (arith, h, other))
]
Claimed-is_busy job now (to_start _ h) = elim (Bool-cases (is_needing job.state)) [
  | inl free ↦ (busy-needing job.state free, ground (arith, h, free))
  | inr other ↦ absurd (ground (arith, h, other))
]
Claimed-is_busy job now (to_fold _ r s h) = elim (Bool-cases (is_reconstructing job.state)) [
  | inl free ↦ (busy-reconstructing job.state free, ground (arith, h, free))
  | inr other ↦ absurd (ground (arith, h, other))
]

-- An address beyond those in use, and one whose job is not busy, is not worked on.
differs :
    (P : ℕ → Type 0) (p : ℕ)
    → ((q : ℕ) → P q → q ≢ p)
    → (working : List ℕ) → All P working
    → All (λ q. q ≢ p) working
differs P p f working h = All-imp P (λ q. q ≢ p) f working h

Step-Apart : (s t : Shared) → Step s t → Apart s → Apart t
Step-Apart s t (started _ file_id disk_id path free) a = record {
  unique = a.unique;
  busy =
      AreBusy-put s.heap s.allocated (new_job file_id disk_id path) s.working
        (differs (λ q. q < s.allocated) s.allocated (λ q h e. omega (arith, h, e)) s.working
          a.below)
        a.busy;
  below =
      All-imp (λ q. q < s.allocated) (λ q. q < s.allocated + 1) (λ q h. omega arith) s.working
        a.below;
  job_below = λ p e. ground arith;
}
Step-Apart s t (aborted _) a = record {
  unique = a.unique;
  busy = a.busy;
  below = a.below;
  job_below = λ p e. absurd (cc e);
}
Step-Apart s t (claimed _ p job here claim) a =
    let (free, taken) = Claimed-is_busy (s.heap p) job claim in
    let others : All (λ q. q ≢ p) s.working =
      differs (λ q. is_busy (s.heap q).state ≡ true) p (λ q h e. ground (arith, h, e, free))
        s.working a.busy in
    record {
      unique = (others, a.unique);
      busy = (
        ap (λ (j : Job). is_busy j.state) (put_here s.heap p job) ∙ taken,
        AreBusy-put s.heap p job s.working others a.busy,
      );
      below = (a.job_below p here, a.below);
      job_below = a.job_below;
    }
Step-Apart s t (finished _ before after p job here done) a =
    let (unique, others) = Unique-removed before after p (subst Unique here a.unique) in
    record {
      unique = unique;
      busy = AreBusy-put s.heap p job (before ++ after) others (
          All-removed (λ q. is_busy (s.heap q).state ≡ true) before after p
            (subst (AreBusy s.heap) here a.busy));
      below =
          All-removed (λ q. q < s.allocated) before after p
            (subst (All (λ q. q < s.allocated)) here a.below);
      job_below = a.job_below;
    }

-- However the sections under the lock follow one another, `Abort` and calls for new jobs among
-- them: the calls that are between their first and their last section work on jobs that all differ,
-- and each of these jobs is in one of the states of a claimed job.
pub one_call_each : {s : Shared} → Reachable s → Unique s.working × AreBusy s.heap s.working
one_call_each {s} reachable = let a = apart s reachable in (a.unique, a.busy)
  where
    apart : (s : Shared) → Reachable s → Apart s
    apart s (fresh heap) = record {
      unique = tt;
      busy = tt;
      below = tt;
      job_below = λ p e. absurd (cc e);
    }
    apart t (next s _ before step) = Step-Apart s t step (apart s before)
