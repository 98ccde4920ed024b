-- ===== src/Retrieve/Manager/Folding.antt =====
-- What `ReadReconstructionDisc` of internal/retrieve/retrieve.go makes of a claimed job, and keeps of
-- its reconstructor.
use varis.Base.{
  ℕ, ◌≡◌, inl, inr, refl, sym, ap, subst, Bool-cases, [], ◌∷◌, Option, none, some, if◌then◌else◌,
  Text, codes, contains, Error, message, Result, ok, err,
}
use varis.Base.Effect.{Effect}
use varis.Base.Dict.{insert}
use varis.Os.{Os}
use varis.Xordisk.{Bytes}
use varis.Burn.Reconstruct.{Reconstructor, needs_more, supply_disc_image, reconstruct}
use varis.Retrieve.Catalog.{Catalog}
use varis.Retrieve.Job.{Job, Manager, State, state_reconstructing, revert_to_reconstructing, on_job}
use varis.Retrieve.Read.{Dirs}
use varis.Retrieve.Fetch.{supplied, reconstructed, fold_reconstruction_image, image_path}
use varis.Retrieve.Manager.{fold_job, fold_step, note_fold, read_folded, reconstructed_path}
use varis.Retrieve.Manager.Ends.{
  settle, Any, Ended, Ends, or_else-Ends, settle-Ends, quietly-Ends, deferring-Ends, bind-Ends,
  then-Ends, imp-Ends,
}
use varis.Retrieve.Manager.Outcome.{IsDone, ReadError, read_from-Ends}
use varis.Retrieve.Manager.Settled.{Serves, Good, Bad, Keeps}

-- The fold changes the images alone.
fold-Serves :
    (disk_id id : Text) (capacity : ℕ) (r : Reconstructor) (image : Bytes)
    → Serves disk_id capacity (some r)
    → Serves disk_id capacity (some (fold_reconstruction_image r id image).1)
unfolding fold_reconstruction_image supply_disc_image
fold-Serves disk_id id capacity r image serves = elim (Bool-cases (contains id r.other_ids)) [
  | inl member ↦
      subst (λ b. Serves disk_id capacity (some (supplied r (if b then ok s else err e)).1))
        (sym member) more
  | inr stranger ↦
      subst (λ b. Serves disk_id capacity (some (supplied r (if b then ok s else err e)).1))
        (sym stranger) serves
]
  where
    s : Reconstructor
    s = record r { images = insert id image r.images }

    e : Error
    e = message (codes "disc %s is not a member of this group") (id ∷ [])

    again : (out : Result Bytes) → Serves disk_id capacity (some (reconstructed s out).1)
    again (ok bytes) = serves
    again (err f) = serves

    more : Serves disk_id capacity (some (supplied r (ok s)).1)
    more = elim (Bool-cases (needs_more s)) [
      | inl y ↦ rw y serves
      | inr n ↦ rw n (again (reconstruct s))
    ]

module _ {W : Type 0} (cat : Catalog W) (os : Os W) (dirs : Dirs) where
  fold_step-Ends :
      (disk_id id : Text) (capacity : ℕ) (r : Reconstructor) (image : Bytes)
      → Serves disk_id capacity (some r)
      → Ends (Keeps disk_id capacity) Any Bad (fold_step {W = W} r id image)
  unfolding fold_step
  fold_step-Ends disk_id id capacity r image serves = record {
    ends = λ job m (before, error, h) kept.
        folded job m before error h kept (fold_reconstruction_image r id image)
          (fold-Serves disk_id id capacity r image serves);
  }
    where
      folded :
          (job : Job) (m : Manager W) (before : State) (error : Option Error)
          → m.job ≡ some (settle before error job)
          → Keeps disk_id capacity m.reconstructor m.reconstruction_capacity
          → (x : Result (Option Bytes) × Reconstructor) → Serves disk_id capacity (some x.1)
          → let s = note_fold m x in
            Ended Any Bad job s.0 s.1.job
            × Keeps disk_id capacity s.1.reconstructor s.1.reconstruction_capacity
      folded job m before error h kept (ok a, s) more = ((before, error, tt, h), (more, kept.1))
      folded job m before error h kept (err e, s) more = (
        (state_reconstructing, inr (inr refl), ap (on_job (revert_to_reconstructing e)) h),
        (more, kept.1),
      )

  read_folded-Ends :
      (R : Option Reconstructor → ℕ → Type 0) (job : Job) (image : Option Bytes)
      → Ends R Good Bad (read_folded cat os dirs job image)
  read_folded-Ends R job none = settle-Ends R _ Good state_reconstructing none (inr refl)
  read_folded-Ends R job (some image) =
      then-Ends R _ (or_else-Ends R _ state_reconstructing _ (λ w e h. inr (inr refl))) (
        deferring-Ends R _ (os.remove (reconstructed_path cat os dirs job))
          (finished (read_from-Ends os dirs R job (reconstructed_path cat os dirs job))))
    where
      worse :
          (e : Error) (s : State) → ReadError os dirs job.disk_id job.original_path e s → Bad e s
      worse e s (inl needing) = inr (inl needing)
      worse e s (inr failed) = inl failed.0

      finished :
          {step : Effect (Manager W) (Unit {0})}
          → Ends R
              (IsDone os dirs job.disk_id job.original_path)
              (ReadError os dirs job.disk_id job.original_path)
              step
          → Ends R Good Bad step
      finished body = imp-Ends R (λ s h. inl h.0) worse body

  pub fold_job-Ends :
      (capacity : ℕ) (id target : Text) (job : Job) (r : Reconstructor)
      → Serves job.disk_id capacity (some r)
      → Ends (Keeps job.disk_id capacity) Good Bad (fold_job cat os dirs capacity id target job r)
  unfolding fold_job
  fold_job-Ends capacity id target job r serves =
      bind-Ends R _ (or_else-Ends R _ state_reconstructing _ (λ w e h. inr (inr refl))) λ image.
        bind-Ends R _ (fold_step-Ends job.disk_id id capacity r image serves) λ folded.
          then-Ends R _ (quietly-Ends R _ (os.remove (image_path cat os dirs id)))
            (read_folded-Ends R job folded)
    where
      R : Option Reconstructor → ℕ → Type 0
      R = Keeps job.disk_id capacity
