-- ===== src/Retrieve/Read.antt =====
-- `readFrom` of internal/retrieve/retrieve.go.
use varis.Base.{[], ◌∷◌, ◌++◌, if◌then◌else◌, Text, codes, text_eq, Error, message}
use varis.Base.Effect.{Effect, lift, throw, pure, with_context}
use varis.Os.{Os}
use varis.Toc.{Toc}
use varis.Burn.Tools.{extract_from_disc, extract_file, verify_parity}
use varis.Retrieve.Job.{Job, Manager, state_done, in_state, fail, needs_reconstruction}
use varis.Retrieve.Step.{update_job, or_else, deferring, ◌>>=◌, ◌>>◌}

-- The directories a manager is made with.
pub record Dirs : Type 0 where
  pub retrieved_dir : Text
  pub scratch_dir : Text
  pub dry_run_dir : Text

module _ {W : Type 0} (os : Os W) (dirs : Dirs) where
  abbrev pub wrong_disc : Text → Text → Error
  wrong_disc expected found =
      message (codes "wrong disc: expected %s, found %s") (expected ∷ found ∷ [])

  -- `if t.DiskID != job.DiskID`
  abbrev pub check_disc : Text → Toc → Effect W (Unit {0})
  check_disc expected t =
      if text_eq t.disk_id expected then pure tt else throw (wrong_disc expected t.disk_id)

  abbrev pub toc_path : Text → Job → Text
  toc_path work_dir job = os.join work_dir (job.disk_id ++ codes ".toc.json")

  abbrev pub tar_path : Text → Job → Text
  tar_path work_dir job = os.join work_dir (job.disk_id ++ codes ".tar")

  abbrev pub dest_path : Job → Text
  dest_path job = os.join dirs.retrieved_dir (os.base_name job.original_path)

  -- `readFrom` behind the making of its directory.
  unfoldable pub read_in : Job → Text → Text → Effect (Manager W) (Unit {0})
  read_in job src work_dir = do
    or_else needs_reconstruction (
        with_context (codes "reading TOC") (
          extract_from_disc os src (codes "/" ++ job.disk_id ++ codes ".toc.json")
            (toc_path work_dir job)))
    toc_bytes ← or_else needs_reconstruction (os.read_file (toc_path work_dir job))
    t ← or_else needs_reconstruction (lift (os.parse toc_bytes))
    or_else fail (check_disc job.disk_id t)
    or_else needs_reconstruction (
        with_context (codes "reading data") (
          extract_from_disc os src (codes "/" ++ job.disk_id ++ codes ".tar")
            (tar_path work_dir job)))
    or_else needs_reconstruction (
        with_context (codes "reading parity index") (
          extract_from_disc os src (codes "/" ++ job.disk_id ++ codes ".tar.par2")
            (tar_path work_dir job ++ codes ".par2")))
    or_else needs_reconstruction (verify_parity os (tar_path work_dir job))
    or_else fail (
        with_context (codes "extracting file")
          (extract_file os (tar_path work_dir job) t.compressed job.original_path (dest_path job)))
    update_job (in_state state_done)

  unfoldable pub read_from : Job → Text → Effect (Manager W) (Unit {0})
  read_from job src = do
    work_dir ← or_else fail (os.make_temp_dir dirs.scratch_dir (codes "retrieve-"))
    deferring (os.remove_all work_dir) (read_in job src work_dir)
