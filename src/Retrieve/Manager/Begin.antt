-- ===== src/Retrieve/Manager/Begin.antt =====
-- What `StartReconstruction` of internal/retrieve/retrieve.go sets up for a complete group.
use varis.Base.{
  ℕ, ◌≡◌, refl, ap, ◌∙◌, false, List, [], ◌∷◌, ◌++◌, none, some, if◌then◌else◌, Text, contains, ok,
}
use varis.Base.Dict.{lookup}
use varis.Base.Effect.{Effect, proceed}
use varis.Os.{Os}
use varis.Db.{Disk}
use varis.Xordisk.{Bytes}
use varis.Burn.Reconstruct.{Reconstructor, unsupplied, remaining, new_reconstructor}
use varis.Burn.Reconstruct.Supplies.{Agrees-nil}
use varis.Burn.Reconstruct.Rebuild.{group, survivors, begun, new_reconstructor-begun}
use varis.Retrieve.Catalog.{Catalog}
use varis.Retrieve.Job.{
  Job, Manager, state_needs_reconstruction, state_starting_reconstruction, is_needing, in_state,
  claim_starting, needs_reconstruction, reconstructing,
}
use varis.Retrieve.Step.{or_else, update_job, ◌>>=◌, ◌>>◌}
use varis.Retrieve.Read.{Dirs}
use varis.Retrieve.Fetch.{prepare, group_of}
use varis.Retrieve.Manager.{
  start_reconstruction, start_claimed, start_job, set_reconstructor, still_needed,
}
use varis.Retrieve.Manager.Collect.{Collecting}

unsupplied-nil : (xs : List Text) → unsupplied xs [] ≡ xs
unfolding unsupplied lookup
unsupplied-nil [] = refl
unsupplied-nil (x ∷ xs) = ap (◌∷◌ x) (unsupplied-nil xs)

module _ {W : Type 0} (cat : Catalog W) (os : Os W) (dirs : Dirs) (pre post : List Disk)
    (lost parity : Disk) (burned : Text → Bytes) (size : ℕ) where
  -- The catalog's answers about the lost disc: its row with its group, the group's discs in the order
  -- of the slots, and the capacity of its medium.
  pub record Answers (w v : W) : Type 0 where
    pub group_id : Text
    pub first_world : W
    pub second_world : W
    pub row : cat.get_disk lost.id w ≡ (ok lost, first_world)
    pub in_group : lost.group_id ≡ some group_id
    pub members :
        cat.group_members group_id first_world
        ≡ (ok (group pre post lost parity burned size []), second_world)
    pub capacity : cat.media_capacity lost.media_type second_world ≡ (ok size, v)

  abbrev pub fresh_one : Reconstructor
  fresh_one = begun pre post lost parity burned size []

  pub fresh_one-remaining :
      remaining fresh_one ≡ survivors pre post lost parity burned size [] ++ parity.id ∷ []
  unfolding remaining
  fresh_one-remaining =
      unsupplied-nil (survivors pre post lost parity burned size [] ++ parity.id ∷ [])

  prepare-begun :
      (job : Job) (w v : W)
      → job.disk_id ≡ lost.id
      → Answers w v
      → contains lost.id (survivors pre post lost parity burned size [] ++ parity.id ∷ []) ≡ false
      → prepare cat os dirs job w ≡ (ok (fresh_one, size), v)
  unfolding prepare
  prepare-begun job w v same a fresh = rw same (
      ap (proceed grouped) a.row
      ∙ ap (λ g. proceed membered (group_of cat os dirs lost.id g a.first_world)) a.in_group
      ∙ ap (proceed sized) a.members
      ∙ ap (proceed made) a.capacity
      ∙ ap (λ r. proceed (λ s u. (ok (s, size), u)) (r, v))
          (new_reconstructor-begun pre post lost parity burned size [] fresh))
    where
      made : ℕ → Effect W (Reconstructor × ℕ)
      made n u =
          proceed (λ r t. (ok (r, n), t))
            (new_reconstructor (group pre post lost parity burned size []) lost.id n, u)

      sized : List Disk → Effect W (Reconstructor × ℕ)
      sized discs u =
          proceed (λ n t. proceed (λ r s. (ok (r, n), s)) (new_reconstructor discs lost.id n, t))
            (cat.media_capacity lost.media_type u)

      membered : Text → Effect W (Reconstructor × ℕ)
      membered g u = proceed sized (cat.group_members g u)

      grouped : Disk → Effect W (Reconstructor × ℕ)
      grouped disk u =
          proceed
            (λ g t.
              proceed
                (λ discs s.
                  proceed
                    (λ n r. proceed (λ x y. (ok (x, n), y)) (new_reconstructor discs lost.id n, r))
                    (cat.media_capacity disk.media_type s))
                (cat.group_members g t))
            (group_of cat os dirs lost.id disk.group_id u)

  -- The manager once the discs are collected.
  abbrev pub begun_manager : Job → Manager W → W → Manager W
  begun_manager job m v = record {
    job = some (reconstructing job);
    reconstructor = some fresh_one;
    reconstruction_capacity = size;
    world = v;
  }

  pub start_reconstruction-begun :
      (m : Manager W) (job : Job) (v : W)
      → m.job ≡ some job
      → job.state ≡ state_needs_reconstruction
      → job.disk_id ≡ lost.id
      → Answers m.world v
      → contains lost.id (survivors pre post lost parity burned size [] ++ parity.id ∷ []) ≡ false
      → start_reconstruction cat os dirs m ≡ (ok tt, begun_manager job m v)
  unfolding start_reconstruction claim_starting start_job ◌>>=◌ or_else ◌>>◌ update_job
  start_reconstruction-begun m job v here needing same a fresh =
      ap (λ j. start_claimed cat os dirs (claim_starting j) m) here
      ∙ ap (λ s. start_claimed cat os dirs (if is_needing s then some claimed else none) m) needing
      ∙ ap
          (λ r.
            (or_else needs_reconstruction (λ _. r) >>= stored) (record m { job = some claimed }))
          (prepare-begun claimed m.world v same a fresh)
    where
      claimed : Job
      claimed = in_state state_starting_reconstruction job

      stored : Reconstructor × ℕ → Effect (Manager W) (Unit {0})
      stored prepared = set_reconstructor (some prepared.0) prepared.1 >> update_job reconstructing

  -- Let a job need the reconstruction of a data disc, and let the catalog answer with the disc's group,
  -- complete and in the order of the slots, in which the disc's id occurs once, and with the
  -- capacity. Then `StartReconstruction` returns no error, the job is `RECONSTRUCTING` without an
  -- error, the reconstructor is one that collects the other discs of the group, with no
  -- image so far, and `Remaining` names exactly these discs, the parity disc last.
  pub start_reconstruction-Collecting :
      (m : Manager W) (job : Job) (v : W)
      → m.job ≡ some job
      → job.state ≡ state_needs_reconstruction
      → job.disk_id ≡ lost.id
      → Answers m.world v
      → contains lost.id (survivors pre post lost parity burned size [] ++ parity.id ∷ []) ≡ false
      → let r = start_reconstruction cat os dirs m in
        (r.0 ≡ ok tt)
        × (r.1.job ≡ some (reconstructing job))
        × ((s : Reconstructor) × (r.1.reconstructor ≡ some s)
            × Collecting pre post lost parity burned size s
            × (s.images ≡ []))
        × (still_needed r.1 ≡ survivors pre post lost parity burned size [] ++ parity.id ∷ [])
  unfolding still_needed remaining
  start_reconstruction-Collecting m job v here needing same a fresh =
      rw (start_reconstruction-begun m job v here needing same a fresh) (
        refl,
        refl,
        (fresh_one, refl, record { asks = refl; fits = refl; agrees = Agrees-nil size _ }, refl),
        fresh_one-remaining,
      )
