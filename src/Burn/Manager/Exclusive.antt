-- ===== src/Burn/Manager/Exclusive.antt =====
-- At most one call burns at a time.
use varis.Base.{
  ℕ, ◌≤◌, ◌≡◌, ◌⊎◌, inl, inr, refl, sym, ap, subst, ◌∙◌, Bool, true, false, not, List, [], ◌∷◌,
  ◌++◌, Option, none, some, arith, Error, length,
}
use mathlib.Core.List.{cons≢nil}
use varis.Burn.Job.{
  Job, State, state_packing, state_done, is_over, is_in_progress, claim, fail_job, advance,
  retry_job,
}
use varis.Burn.Manager.Sections.{
  Shared, put, is_busy, pointed, Step, started, claimed, state_set, failed, advanced, retried,
  Reachable, fresh, next,
}

abbrev pub is_busy_job : (ℕ → Job) → Option ℕ → Bool
is_busy_job heap none = false
is_busy_job heap (some p) = is_busy (heap p).state

-- Nobody burns, and the job's state is none of the busy ones; or one call burns the manager's job,
-- whose state is a busy one.
abbrev pub Exclusive : Shared → Type 0
Exclusive s =
    ((s.burning ≡ []) × (is_busy_job s.heap s.job ≡ false))
    ⊎ ((p : ℕ) × (s.burning ≡ p ∷ []) × (s.job ≡ some p) × (is_busy (s.heap p).state ≡ true))

put_here : (heap : ℕ → Job) (p : ℕ) (job : Job) → put heap p job p ≡ job
put_here heap p job = ground arith

nil_split : (before after : List ℕ) (p : ℕ) → [] ≡ before ++ p ∷ after → ⊥
nil_split [] after p h = cons≢nil (sym h)
nil_split (x ∷ before) after p h = cons≢nil (sym h)

only_split :
    (before after : List ℕ) (p q : ℕ)
    → q ∷ [] ≡ before ++ p ∷ after
    → (p ≡ q) × (before ++ after ≡ [])
only_split [] after p q h = (ap (first 0) (sym h), sym (ap rest h))
  where
    first : ℕ → List ℕ → ℕ
    first d [] = d
    first d (x ∷ _) = x

    rest : List ℕ → List ℕ
    rest [] = []
    rest (_ ∷ xs) = xs
only_split (x ∷ before) after p q h = absurd (nil_split before after p (ap rest h))
  where
    rest : List ℕ → List ℕ
    rest [] = []
    rest (_ ∷ xs) = xs

busy-in_progress : (s : State) → not (is_over s) ≡ false → is_busy s ≡ false
busy-in_progress s h = ground arith

busy-claim :
    (job after : Job)
    → claim (some job) ≡ some after
    → (is_busy job.state ≡ false) × (is_busy after.state ≡ true)
unfolding claim
busy-claim job after h = ground (arith, ap state_of h)
  where
    state_of : Option Job → State
    state_of none = state_done
    state_of (some j) = j.state

busy-retry :
    (job after : Job)
    → retry_job job ≡ some after
    → (is_busy job.state ≡ false) × (is_busy after.state ≡ false)
unfolding retry_job
busy-retry job after h = ground (arith, ap state_of h)
  where
    state_of : Option Job → State
    state_of none = state_packing
    state_of (some j) = j.state

busy-advance : (job : Job) → is_busy (advance job).state ≡ false
unfolding advance
busy-advance job = ground arith

busy-fail : (e : Error) (job : Job) → is_busy (fail_job e job).state ≡ false
unfolding fail_job
busy-fail e job = refl

now :
    (s : Shared) (p : ℕ) (job : Job)
    → is_busy job.state ≡ true
    → is_busy (put s.heap p job p).state ≡ true
now s p job h = ap (λ j. is_busy j.state) (put_here s.heap p job) ∙ h

-- The manager's job is busy: it is not replaced, claimed or retried.
in_the_way :
    (s : Shared) (q : ℕ)
    → s.job ≡ some q
    → is_busy (s.heap q).state ≡ true
    → is_in_progress (pointed s.heap s.job) ≡ false
    → ⊥
in_the_way s q here busy free =
    let over = subst (λ o. is_in_progress (pointed s.heap o) ≡ false) here free in
    ground (arith, busy, over)

occupied :
    (s : Shared) (p q : ℕ)
    → s.job ≡ some p
    → s.job ≡ some q
    → is_busy (s.heap q).state ≡ true
    → is_busy (s.heap p).state ≡ false
    → ⊥
occupied s p q here there busy idle =
    let both = subst (λ o. is_busy_job s.heap o ≡ true) (sym there ∙ here) busy in
    ground (arith, both, idle)

alone :
    (s : Shared) (p : ℕ) (job : Job)
    → s.job ≡ some p
    → is_busy job.state ≡ false
    → is_busy_job (put s.heap p job) s.job ≡ false
alone s p job here idle =
    subst (λ o. is_busy_job (put s.heap p job) o ≡ false) (sym here)
      (ap (λ j. is_busy j.state) (put_here s.heap p job) ∙ idle)

-- A section preserves it.
Step-Exclusive : {s t : Shared} → Step s t → Exclusive s → Exclusive t
Step-Exclusive (started s opts p plans free) (inl (none_burns, idle)) =
    inl (none_burns, ap (λ j. is_busy j.state) (put_here s.heap s.allocated _))
Step-Exclusive (started s opts p plans free) (inr (q, one, here, busy)) =
    absurd (in_the_way s q here busy free)
Step-Exclusive (claimed s p job here h) (inl (none_burns, idle)) =
    inr (p, ap (◌∷◌ p) none_burns, here, now s p job (busy-claim (s.heap p) job h).1)
Step-Exclusive (claimed s p job here h) (inr (q, one, there, busy)) =
    absurd (occupied s p q here there busy (busy-claim (s.heap p) job h).0)
Step-Exclusive (state_set s before after p state member new) (inl (none_burns, idle)) =
    absurd (nil_split before after p (sym none_burns ∙ member))
Step-Exclusive (state_set s before after p state member new) (inr (q, one, here, busy)) =
    let same = (only_split before after p q (sym one ∙ member)).0 in
    inr (p, one ∙ ap (λ x. x ∷ []) (sym same), here ∙ ap some (sym same), now s p _ new)
Step-Exclusive (failed s before after p e member) (inl (none_burns, idle)) =
    absurd (nil_split before after p (sym none_burns ∙ member))
Step-Exclusive (failed s before after p e member) (inr (q, one, here, busy)) =
    let (same, gone) = only_split before after p q (sym one ∙ member) in
    inl (gone, alone s p _ (here ∙ ap some (sym same)) (busy-fail e (s.heap p)))
Step-Exclusive (advanced s before after p member) (inl (none_burns, idle)) =
    absurd (nil_split before after p (sym none_burns ∙ member))
Step-Exclusive (advanced s before after p member) (inr (q, one, here, busy)) =
    let (same, gone) = only_split before after p q (sym one ∙ member) in
    inl (gone, alone s p _ (here ∙ ap some (sym same)) (busy-advance (s.heap p)))
Step-Exclusive (retried s p job here h) (inl (none_burns, idle)) =
    inl (none_burns, alone s p job here (busy-retry (s.heap p) job h).1)
Step-Exclusive (retried s p job here h) (inr (q, one, there, busy)) =
    absurd (occupied s p q here there busy (busy-retry (s.heap p) job h).0)

Reachable-Exclusive : {s : Shared} → Reachable s → Exclusive s
Reachable-Exclusive (fresh heap) = inl (refl, refl)
Reachable-Exclusive (next s t before step) = Step-Exclusive step (Reachable-Exclusive before)

-- However the calls' sections follow one another, at most one call of `ContinueNextDisc` burns at a
-- time, and while it does, the manager's job is the one that it has claimed, in one of the busy
-- states.
pub one_burns :
    {s : Shared}
    → Reachable s
    → (length s.burning ≤ 1)
      × ((p : ℕ) (others : List ℕ)
          → s.burning ≡ p ∷ others
          → (s.job ≡ some p) × (is_busy (s.heap p).state ≡ true))
one_burns {s} reached = read (Reachable-Exclusive reached)
  where
    read :
        Exclusive s
        → (length s.burning ≤ 1)
          × ((p : ℕ) (others : List ℕ)
              → s.burning ≡ p ∷ others
              → (s.job ≡ some p) × (is_busy (s.heap p).state ≡ true))
    read (inl (none_burns, idle)) =
        (omega (arith, ap length none_burns), λ p others h. absurd (cons≢nil (sym h ∙ none_burns)))
    read (inr (q, one, here, busy)) = (
      omega (arith, ap length one),
      λ p others h.
          let same = (only_split [] others p q (sym one ∙ h)).0 in
          (here ∙ ap some (sym same), ap (λ x. is_busy (s.heap x).state) same ∙ busy),
    )
