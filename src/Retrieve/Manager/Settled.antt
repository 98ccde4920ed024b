-- ===== src/Retrieve/Manager/Settled.antt =====
-- What is required of a retrieval's manager between calls.
use varis.Base.{
  ℕ, ◌≡◌, ◌⊎◌, inl, inr, refl, sym, subst, false, Option, none, some, Text, contains, Error, Result,
  ok, err,
}
use varis.Burn.Reconstruct.{Reconstructor}
use varis.Retrieve.Job.{
  Job, Manager, State, state_awaiting_media, state_done, state_failed, state_needs_reconstruction,
  state_reconstructing,
}
use varis.Retrieve.Manager.Ends.{Ended}

-- The reconstructor was made for the disc and this capacity, and does not ask for the disc itself.
abbrev pub Serves : Text → ℕ → Option Reconstructor → Type 0
Serves disk_id capacity none = ⊥
Serves disk_id capacity (some r) =
    (r.missing_id ≡ disk_id)
    × (contains disk_id r.other_ids ≡ false)
    × (r.capacity_bytes ≡ capacity)

abbrev pub Settled : State → Option Error → Text → ℕ → Option Reconstructor → Type 0
Settled state_awaiting_media error disk_id capacity r = error ≡ none
Settled state_done error disk_id capacity r = Unit
Settled state_failed error disk_id capacity r = (e : Error) × (error ≡ some e)
Settled state_needs_reconstruction error disk_id capacity r = (e : Error) × (error ≡ some e)
Settled state_reconstructing error disk_id capacity r = Serves disk_id capacity r
Settled _ error disk_id capacity r = ⊥

abbrev pub IsSettled : Option Job → ℕ → Option Reconstructor → Type 0
IsSettled none capacity r = Unit
IsSettled (some job) capacity r = Settled job.state job.error job.disk_id capacity r

-- There is no job, or its state is `AWAITING_MEDIA`, without an error; or `DONE`; or `FAILED` or
-- `NEEDS_RECONSTRUCTION`, with an error; or `RECONSTRUCTING`, and there is a reconstructor that
-- was made for the job's disc and the manager's capacity and does not ask for that disc.
abbrev pub IsIdle : {W : Type 0} → Manager W → Type 0
IsIdle m = IsSettled m.job m.reconstruction_capacity m.reconstructor

abbrev pub Good : State → Type 0
Good s = (s ≡ state_done) ⊎ (s ≡ state_reconstructing)

abbrev pub Bad : Error → State → Type 0
Bad e s = (s ≡ state_failed) ⊎ ((s ≡ state_needs_reconstruction) ⊎ (s ≡ state_reconstructing))

-- A call that ends in settled states settles its job.
pub settled :
    {Good : State → Type 0} {Bad : Error → State → Type 0} (job : Job) (capacity : ℕ)
    (r : Option Reconstructor) (result : Result (Unit {0})) (now : Option Job)
    → ((s : State) (error : Option Error) → Good s → Settled s error job.disk_id capacity r)
    → ((s : State) (e : Error) → Bad e s → Settled s (some e) job.disk_id capacity r)
    → Ended Good Bad job result now
    → IsSettled now capacity r
settled job capacity r (ok _) now fine failing (state, error, good, same) =
    subst (λ j. IsSettled j capacity r) (sym same) (fine state error good)
settled job capacity r (err e) now fine failing (state, bad, same) =
    subst (λ j. IsSettled j capacity r) (sym same) (failing state e bad)

module _ (disk_id : Text) (capacity : ℕ) (r : Option Reconstructor) where
  pub done-Settled :
      (s : State) (error : Option Error) → s ≡ state_done → Settled s error disk_id capacity r
  done-Settled s error done = subst (λ s. Settled s error disk_id capacity r) (sym done) tt

  pub failed-Settled :
      (s : State) (e : Error) → s ≡ state_failed → Settled s (some e) disk_id capacity r
  failed-Settled s e failed =
      subst (λ s. Settled s (some e) disk_id capacity r) (sym failed) (e, refl)

  pub needing-Settled :
      (s : State) (e : Error)
      → s ≡ state_needs_reconstruction
      → Settled s (some e) disk_id capacity r
  needing-Settled s e needing =
      subst (λ s. Settled s (some e) disk_id capacity r) (sym needing) (e, refl)

  going-Settled :
      (s : State) (error : Option Error)
      → s ≡ state_reconstructing
      → Serves disk_id capacity r
      → Settled s error disk_id capacity r
  going-Settled s error going serves =
      subst (λ s. Settled s error disk_id capacity r) (sym going) serves

  pub Good-Settled :
      Serves disk_id capacity r
      → (s : State) (error : Option Error) → Good s
      → Settled s error disk_id capacity r
  Good-Settled serves s error (inl done) = done-Settled s error done
  Good-Settled serves s error (inr going) = going-Settled s error going serves

  pub Bad-Settled :
      Serves disk_id capacity r
      → (s : State) (e : Error) → Bad e s
      → Settled s (some e) disk_id capacity r
  Bad-Settled serves s e (inl failed) = failed-Settled s e failed
  Bad-Settled serves s e (inr (inl needing)) = needing-Settled s e needing
  Bad-Settled serves s e (inr (inr going)) = going-Settled s (some e) going serves

-- What a fold keeps, and the capacity that it was begun with.
abbrev pub Keeps : Text → ℕ → Option Reconstructor → ℕ → Type 0
Keeps disk_id capacity r now = Serves disk_id capacity r × (now ≡ capacity)
