-- ===== src/Retrieve/Manager/Outcome.antt =====
-- internal/retrieve: how a reading ends, and with which errors a job fails for good.
use varis.Base.{
  ℕ, ◌≡◌, ◌≢◌, ◌⊎◌, ◌++◌, inl, inr, refl, sym, ap, subst, ◌∙◌, Bool, true, false, Option, none,
  some, arith, if◌then◌else◌, Text, codes, text_eq, text_eq_iff, Error, wrapped, Result, ok, err,
}
use varis.Base.Effect.{Effect, pure, throw, with_context}
use varis.Os.{Os}
use varis.Toc.{Toc}
use varis.Burn.Tools.{extract_file, verify_parity}
use varis.Retrieve.Step.{update_job, or_else, ◌>>=◌, ◌>>◌}
use varis.Burn.Reconstruct.{Reconstructor}
use varis.Retrieve.Catalog.{Catalog}
use varis.Retrieve.Job.{
  Job, Manager, State, state_awaiting_media, state_reading_disc, state_done, state_failed,
  state_needs_reconstruction, is_awaiting_media, in_state, on_job, fail, needs_reconstruction,
  claim_reading,
}
use varis.Retrieve.Read.{Dirs, check_disc, wrong_disc, tar_path, dest_path, read_in, read_from}
use varis.Retrieve.Manager.{read_disk, read_job, read_claimed}
use varis.Retrieve.Manager.Ends.{
  Ended, Ends, SameJob, or_else-Ends, deferring-Ends, bind-Ends, then-Ends, imp-Ends,
}

module _ {W : Type 0} (os : Os W) (dirs : Dirs) where
  -- The disc's archive has been verified, and the file was then taken from it with this result.
  abbrev pub Extracted : Text → Text → Result (Unit {0}) → Type 0
  Extracted disk_id path result =
      (work_dir : Text) × (compressed : Bool) × (w : W) × (let archive =
          os.join work_dir (disk_id ++ codes ".tar") in
        ((verify_parity os archive w).0 ≡ ok tt)
        × ((extract_file os archive compressed path (os.join dirs.retrieved_dir (os.base_name path))
              (verify_parity os archive w).1).0
            ≡ result))

  -- The disc holds another id; or the archive on it has been verified, but does not yield the
  -- file; or no directory could be made.
  pub data HardFailure (disk_id path : Text) : Error → Type 0 where
    other_disc :
        (found : Text)
        → found ≢ disk_id
        → HardFailure disk_id path (wrong_disc os dirs disk_id found)
    not_extracted :
        (e : Error)
        → Extracted disk_id path (err e)
        → HardFailure disk_id path (wrapped (codes "extracting file") e)
    no_directory :
        (w : W) (e : Error)
        → (os.make_temp_dir dirs.scratch_dir (codes "retrieve-") w).0 ≡ err e
        → HardFailure disk_id path e

  abbrev pub ReadError : Text → Text → Error → State → Type 0
  ReadError disk_id path e state =
      (state ≡ state_needs_reconstruction) ⊎ ((state ≡ state_failed) × HardFailure disk_id path e)

  abbrev pub IsDone : Text → Text → State → Type 0
  IsDone disk_id path s = (s ≡ state_done) × Extracted disk_id path (ok tt)

  check_disc-HardFailure :
      (disk_id path : Text) (t : Toc) (w : W) (e : Error)
      → (check_disc os dirs disk_id t w).0 ≡ err e
      → HardFailure disk_id path e
  check_disc-HardFailure disk_id path t w e = checked (text_eq t.disk_id disk_id) refl
    where
      checked :
          (b : Bool)
          → text_eq t.disk_id disk_id ≡ b
          → ((if b then pure tt else throw (wrong_disc os dirs disk_id t.disk_id)) w).0 ≡ err e
          → HardFailure disk_id path e
      checked true same h = absurd (cc h)
      checked false other h =
          subst (HardFailure disk_id path) (cc h)
            (other_disc t.disk_id (λ p. ground (arith, other, (text_eq_iff t.disk_id disk_id).1 p)))

  module _ (R : Option Reconstructor → ℕ → Type 0) where
    -- From the check of the archive on.
    verified-Ends :
        (job : Job) (work_dir : Text) (compressed : Bool)
        → let archive = tar_path os dirs work_dir job in
          Ends R (IsDone job.disk_id job.original_path) (ReadError job.disk_id job.original_path) (
            or_else needs_reconstruction (verify_parity os archive)
            >> (or_else fail (
                  with_context
                    (codes "extracting file")
                    (extract_file os archive compressed job.original_path (dest_path os dirs job)))
                >> update_job (in_state state_done)))
    unfolding or_else ◌>>◌ ◌>>=◌ update_job
    verified-Ends job work_dir compressed = record {
      ends = λ now m same kept. verified now m same kept (verify_parity os archive m.world) refl;
    }
      where
        archive : Text
        archive = tar_path os dirs work_dir job

        extract : Effect W (Unit {0})
        extract = extract_file os archive compressed job.original_path (dest_path os dirs job)

        Agrees : Job → Result (Unit {0}) × Manager W → Type 0
        Agrees now r =
            Ended (IsDone job.disk_id job.original_path) (ReadError job.disk_id job.original_path)
              now r.0 r.1.job
            × R r.1.reconstructor r.1.reconstruction_capacity

        extracted :
            (now : Job) (m : Manager W)
            → SameJob now m.job
            → R m.reconstructor m.reconstruction_capacity
            → (w : W) → verify_parity os archive m.world ≡ (ok tt, w)
            → (r : Result (Unit {0}) × W) → extract w ≡ r
            → Agrees now (
                (or_else needs_reconstruction (λ _. (ok tt, w))
                    >> (or_else fail (with_context (codes "extracting file") (λ _. r))
                        >> update_job (in_state state_done)))
                  m)
        extracted now m (state, error, h) kept w intact (ok a, v) same = (
          (
            state_done,
            error,
            (
              refl,
              (
                work_dir,
                compressed,
                m.world,
                (ap (λ x. x.0) intact, ap (λ x. (extract x.1).0) intact ∙ ap (λ x. x.0) same),
              ),
            ),
            ap (on_job (in_state state_done)) h,
          ),
          kept,
        )
        extracted now m (state, error, h) kept w intact (err e, v) same = (
          (
            state_failed,
            inr (
              refl,
              not_extracted e (
                work_dir,
                compressed,
                m.world,
                (ap (λ x. x.0) intact, ap (λ x. (extract x.1).0) intact ∙ ap (λ x. x.0) same),
              ),
            ),
            ap (on_job (fail (wrapped (codes "extracting file") e))) h,
          ),
          kept,
        )

        verified :
            (now : Job) (m : Manager W)
            → SameJob now m.job
            → R m.reconstructor m.reconstruction_capacity
            → (r : Result (Unit {0}) × W) → verify_parity os archive m.world ≡ r
            → Agrees now (
                (or_else needs_reconstruction (λ _. r)
                    >> (or_else fail (with_context (codes "extracting file") extract)
                        >> update_job (in_state state_done)))
                  m)
        verified now m same kept (ok a, w) intact =
            extracted now m same kept w intact (extract w) refl
        verified now m (state, error, h) kept (err e, w) broken =
            ((state_needs_reconstruction, inl refl, ap (on_job (needs_reconstruction e)) h), kept)

    pub read_in-Ends :
        (job : Job) (src work_dir : Text)
        → Ends R
            (IsDone job.disk_id job.original_path)
            (ReadError job.disk_id job.original_path)
            (read_in os dirs job src work_dir)
    unfolding read_in
    read_in-Ends job src work_dir =
        then-Ends R _ (or_else-Ends R _ state_needs_reconstruction _ (λ w e h. inl refl)) (
          bind-Ends R _ (or_else-Ends R _ state_needs_reconstruction _ (λ w e h. inl refl))
            λ toc_bytes.
              bind-Ends R _ (or_else-Ends R _ state_needs_reconstruction _ (λ w e h. inl refl)) λ t.
                then-Ends R _
                  (or_else-Ends R _ state_failed _ (λ w e h.
                    inr (refl, check_disc-HardFailure job.disk_id job.original_path t w e h)))
                  (then-Ends R _ (or_else-Ends R _ state_needs_reconstruction _ (λ w e h. inl refl))
                    (then-Ends R _
                      (or_else-Ends R _ state_needs_reconstruction _ (λ w e h. inl refl))
                      (verified-Ends job work_dir t.compressed))))

    pub read_from-Ends :
        (job : Job) (src : Text)
        → Ends R
            (IsDone job.disk_id job.original_path)
            (ReadError job.disk_id job.original_path)
            (read_from os dirs job src)
    unfolding read_from
    read_from-Ends job src =
        bind-Ends R _ (or_else-Ends R _ state_failed _ (λ w e h. inr (refl, no_directory w e h)))
          λ work_dir. deferring-Ends R _ (os.remove_all work_dir) (read_in-Ends job src work_dir)

module _ {W : Type 0} (cat : Catalog W) (os : Os W) (dirs : Dirs) where
  -- Or the catalog has refused to name the disc.
  abbrev pub DiskError : Text → Text → Error → State → Type 0
  DiskError disk_id path e state =
      ReadError os dirs disk_id path e state
      ⊎ ((state ≡ state_failed) × ((w : W) × ((cat.get_disk disk_id w).0 ≡ err e)))

  pub read_job-Ends :
      (R : Option Reconstructor → ℕ → Type 0) (job : Job) (target : Text)
      → Ends R
          (IsDone os dirs job.disk_id job.original_path)
          (DiskError job.disk_id job.original_path)
          (read_job cat os dirs job target)
  unfolding read_job
  read_job-Ends R job target =
      bind-Ends R _ (or_else-Ends R _ state_failed _ (λ w e h. inr (refl, (w, h))))
        λ disk. imp-Ends R (λ s h. h) (λ e s h. inl h) (read_from-Ends os dirs R job _)

  claim_reading-awaiting :
      (job : Job)
      → job.state ≡ state_awaiting_media
      → claim_reading (some job) ≡ some (in_state state_reading_disc job)
  unfolding claim_reading
  claim_reading-awaiting job h =
      ap (λ s. if is_awaiting_media s then some (in_state state_reading_disc job) else none) h

  -- Where a disc is awaited, `ReadDisk` either returns without an error, the job is `DONE`, and the
  -- file was taken without an error from the disc's archive right after the check of the archive's
  -- parity; or it returns an error, which the job records. Then the job is `FAILED` only if the disc
  -- holds another id, if that check returned no error and the archive does not yield the file, if no
  -- directory could be made, or if the catalog does not name the disc; in all other cases it is
  -- `NEEDS_RECONSTRUCTION`. The reconstructor and its capacity stay as they are.
  pub read_disk-Ended :
      (m : Manager W) (job : Job) (target : Text)
      → m.job ≡ some job
      → job.state ≡ state_awaiting_media
      → let r = read_disk cat os dirs target m in
        Ended
          (IsDone os dirs job.disk_id job.original_path)
          (DiskError job.disk_id job.original_path)
          job
          r.0
          r.1.job
        × (r.1.reconstructor ≡ m.reconstructor)
        × (r.1.reconstruction_capacity ≡ m.reconstruction_capacity)
  unfolding read_disk
  read_disk-Ended m job target here awaiting =
      subst
        (λ c.
          let r = read_claimed cat os dirs c target m in
          Ended (IsDone os dirs job.disk_id job.original_path)
            (DiskError job.disk_id job.original_path) job r.0 r.1.job
          × (r.1.reconstructor ≡ m.reconstructor)
          × (r.1.reconstruction_capacity ≡ m.reconstruction_capacity))
        (sym (ap claim_reading here ∙ claim_reading-awaiting job awaiting))
        (flat (
          (read_job-Ends (λ r c. (r ≡ m.reconstructor) × (c ≡ m.reconstruction_capacity)) claimed
              target).ends
            job (record m { job = some claimed }) (state_reading_disc, job.error, refl)
            (refl, refl)))
    where
      claimed : Job
      claimed = in_state state_reading_disc job

      flat : {A B C : Type 0} → A × (B × C) → A × B × C
      flat (a, (b, c)) = (a, b, c)
