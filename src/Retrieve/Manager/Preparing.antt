-- ===== src/Retrieve/Manager/Preparing.antt =====
-- `StartReconstruction` of internal/retrieve/retrieve.go settles the job that it has claimed.
use varis.Base.{
  ℕ, ◌≡◌, inl, inr, refl, ap, subst, Bool, true, Bool-cases, List, [], ◌∷◌, some, if◌then◌else◌,
  Text, codes, contains, message, Result, ok, err,
}
use varis.Base.Effect.{Effect, proceed}
use varis.Os.{Os}
use varis.Db.{Disk}
use varis.Burn.Reconstruct.{Reconstructor, ids, others, new_reconstructor}
use varis.Burn.Reconstruct.Supplies.{others-lacks}
use varis.Retrieve.Catalog.{Catalog}
use varis.Retrieve.Job.{Job, Manager, needs_reconstruction, reconstructing}
use varis.Retrieve.Step.{or_else, update_job, ◌>>=◌, ◌>>◌}
use varis.Retrieve.Read.{Dirs}
use varis.Retrieve.Fetch.{prepare, group_of}
use varis.Retrieve.Manager.{start_job, set_reconstructor}
use varis.Retrieve.Manager.Settled.{Serves, IsIdle}

-- What a step yields whenever it returns.
record Gives {W A : Type 0} (P : A → Type 0) (step : Effect W A) : Type 0 where
  gives : (w v : W) (a : A) → step w ≡ (ok a, v) → P a

any-Gives : {W A : Type 0} (step : Effect W A) → Gives (λ _. Unit) step
any-Gives step = record { gives = λ w v a h. tt }

then-Gives :
    {W A B : Type 0} {Q : A → Type 0} (P : B → Type 0) (step : Effect W A) (next : A → Effect W B)
    → Gives Q step
    → ((a : A) → Q a → Gives P (next a))
    → Gives P (λ w. proceed next (step w))
then-Gives {W} {A} {B} {Q} P step next first second = record {
  gives = λ w v b h. after w v b (step w) refl h;
}
  where
    after : (w v : W) (b : B) (r : Result A × W) → step w ≡ r → proceed next r ≡ (ok b, v) → P b
    after w v b (ok a, u) same h = (second a (first.gives w u a same)).gives u v b h
    after w v b (err e, u) same h = absurd (cc h)

module _ {W : Type 0} (cat : Catalog W) (os : Os W) (dirs : Dirs) where
  abbrev Prepared : Text → Reconstructor × ℕ → Type 0
  Prepared disk_id prepared = Serves disk_id prepared.1 (some prepared.0)

  new_reconstructor-Serves :
      (group : List Disk) (disk_id : Text) (capacity : ℕ)
      → Gives {W = W} (Prepared disk_id) (λ w.
        proceed (λ r v. (ok (r, capacity), v)) (new_reconstructor group disk_id capacity, w))
  unfolding new_reconstructor
  new_reconstructor-Serves group disk_id capacity = record {
    gives = λ w v a h. elim (Bool-cases (contains disk_id (ids group))) [
      | inl member ↦ made w v a (subst (λ b. outcome b w ≡ (ok a, v)) member h)
      | inr stranger ↦ absurd (cc (ap result (subst (λ b. outcome b w ≡ (ok a, v)) stranger h)))
    ];
  }
    where
      s : Reconstructor
      s = record {
        missing_id = disk_id;
        other_ids = others disk_id group;
        images = [];
        capacity_bytes = capacity;
      }

      outcome : Bool → W → Result (Reconstructor × ℕ) × W
      outcome b w =
          proceed (λ r v. (ok (r, capacity), v))
            (
              (if b
                  then ok s
                  else err
                      (message (codes "disc %s is not a member of this group") (disk_id ∷ []))),
              w,
            )

      result : Result (Reconstructor × ℕ) × W → Result (Reconstructor × ℕ)
      result x = x.0

      made : (w v : W) (a : Reconstructor × ℕ) → outcome true w ≡ (ok a, v) → Prepared disk_id a
      made w v a h = subst (Prepared disk_id) same (refl, others-lacks disk_id group, refl)
        where
          same : (s, capacity) ≡ a
          same = cc (ap result h)

  prepare-Gives : (job : Job) → Gives (Prepared job.disk_id) (prepare cat os dirs job)
  unfolding prepare
  prepare-Gives job =
      then-Gives (Prepared job.disk_id) _ _ (any-Gives (cat.get_disk job.disk_id)) λ disk _.
        then-Gives (Prepared job.disk_id) _ _
          (any-Gives (group_of cat os dirs job.disk_id disk.group_id))
          λ group_id _.
            then-Gives (Prepared job.disk_id) _ _ (any-Gives (cat.group_members group_id))
              λ members _.
                then-Gives (Prepared job.disk_id) _ _
                  (any-Gives (cat.media_capacity disk.media_type))
                  λ capacity _. new_reconstructor-Serves members job.disk_id capacity

  pub start_job-IsIdle :
      (job : Job) (m : Manager W)
      → IsIdle (start_job cat os dirs job (record m { job = some job })).1
  unfolding start_job ◌>>=◌ or_else ◌>>◌ update_job
  start_job-IsIdle job m = started (prepare cat os dirs job m.world) refl
    where
      started :
          (r : Result (Reconstructor × ℕ) × W)
          → prepare cat os dirs job m.world ≡ r
          → IsIdle
              ((or_else needs_reconstruction (λ _. r) >>= λ prepared.
                  set_reconstructor (some prepared.0) prepared.1 >> update_job reconstructing)
                (record m { job = some job })).1
      started (ok a, w) same = (prepare-Gives job).gives m.world w a same
      started (err e, w) same = (e, refl)
