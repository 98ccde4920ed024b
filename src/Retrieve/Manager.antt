-- ===== src/Retrieve/Manager.antt =====
-- The operations of `Manager` of internal/retrieve/retrieve.go, each run by itself.
pub mod Ends
pub mod Settled
pub mod Preparing
pub mod Folding
pub mod Idle
pub mod Outcome
pub mod Collect
pub mod Begin
pub mod Recover
pub mod Sections
pub mod Apart
use varis.Base.{
  ℕ, zero, suc, ◌+◌, ◌-◌, ◌*◌, ◌/◌, ◌%◌, ◌^◌, ◌≤◌, ◌<◌, min, bit_xor, ◌≡◌, ◌≢◌, ◌↔◌, ◌⊎◌, inl, inr,
  refl, sym, ap, ap₂, subst, fun_ext, ◌∙◌, Bool, true, false, not, ◌&&◌, ◌||◌, Bool-cases, List, [],
  ◌∷◌, ◌++◌, map, append_assoc, append-nil, map-append, Option, none, some, Option-cases, arith,
  tests, ltb, leb, ◌==◌, ltb→lt, lt→ltb, leb→le, le→leb, ==_iff, if◌then◌else◌, dec_lt, dec_le,
  ℕ_discrete, Text, codes, text_eq, text_eq_iff, text_eq_refl, text_ne, contains, contains-append,
  Error, external, message, wrapped, not_found, Result, ok, err, Result-cases, length, get_elem?,
  get_or, set, take, drop, replicate, All, All-append, All-imp, length-append, length-map,
  length-replicate, length-take, length-drop, take-append-drop, get_or_ext, add64, mul64, neg64,
  lt64, div64, is_negative64, int64_limit,
}
use varis.Base.Effect.{Effect, throw, lift, pure}
use varis.Os.{Os}
use varis.Db.{Disk, FileRecord, Role, parity_role}
use varis.Xordisk.{Bytes}
use varis.Burn.Reconstruct.{
  Reconstructor, new_reconstructor, remaining, needs_more, supply_disc_image, reconstruct,
}
use varis.Burn.Tools.{extract_from_disc, read_raw_image}
use varis.Retrieve.Catalog.{Catalog}
use varis.Retrieve.Job.{
  Job, Manager, state_text, is_in_progress, new_job, claim_reading, claim_starting, claim_folding,
  fail, revert_to_needs_reconstruction, revert_to_reconstructing, reconstructing, on_job,
}
use varis.Retrieve.Step.{update_job, or_else, quietly, deferring, ◌>>=◌, ◌>>◌}
use varis.Retrieve.Read.{Dirs, read_from}
use varis.Retrieve.Fetch.{source, prepare, image_path, read_image, fold_reconstruction_image}

module _ {W : Type 0} where
  abbrev pub new_manager : W → Manager W
  new_manager world = record {
    job = none;
    reconstructor = none;
    reconstruction_capacity = 0;
    world = world;
  }

  -- `Current`: a copy of the job.
  unfoldable pub current : Manager W → Option Job
  current m = m.job

  unfoldable pub abort : Manager W → Manager W
  abort m = record m { job = none; reconstructor = none; reconstruction_capacity = 0 }

  -- `Remaining`: the ids of the discs that are still needed, or nil.
  unfoldable pub still_needed : Manager W → List Text
  still_needed m = elim m.reconstructor [ none ↦ [] | some r ↦ remaining r ]

  abbrev pub set_reconstructor : Option Reconstructor → ℕ → Effect (Manager W) (Unit {0})
  set_reconstructor r capacity m =
      (ok tt, record m { reconstructor = r; reconstruction_capacity = capacity })

  -- The fold under the lock; the job takes note of its error.
  abbrev pub note_fold :
      Manager W → Result (Option Bytes) × Reconstructor → Result (Option Bytes) × Manager W
  note_fold m (ok image, r) = (ok image, record m { reconstructor = some r })
  note_fold m (err e, r) =
      (err e, record m { reconstructor = some r; job = on_job (revert_to_reconstructing e) m.job })

  unfoldable pub fold_step : Reconstructor → Text → Bytes → Effect (Manager W) (Option Bytes)
  fold_step r disk_id image m = note_fold m (fold_reconstruction_image r disk_id image)

module _ {W : Type 0} (cat : Catalog W) (os : Os W) (dirs : Dirs) where
  abbrev pub adopt : Text → Manager W → Result FileRecord × W → Result (Unit {0}) × Manager W
  adopt file_id m (err e, w) = (err e, record m { world = w })
  adopt file_id m (ok f, w) =
      (ok tt, record m { job = some (new_job file_id f.disk_id f.original_path); world = w })

  unfoldable pub start : Text → Effect (Manager W) (Unit {0})
  start file_id m =
      if is_in_progress m.job
      then (
        err (
            message (codes "a retrieval is already in progress (state %s)")
              (state_text m.job ∷ [])),
        m,
      )
      else adopt file_id m (cat.get_file file_id m.world)

  abbrev pub refused : {A : Type 0} → Text → Effect (Manager W) A
  refused text m = (err (message text []), m)

  abbrev pub with_job : Job → Effect (Manager W) (Unit {0}) → Effect (Manager W) (Unit {0})
  with_job job step m = step (record m { job = some job })

  unfoldable pub read_job : Job → Text → Effect (Manager W) (Unit {0})
  read_job job target_path = do
    disk ← or_else fail (cat.get_disk job.disk_id)
    read_from os dirs job (source cat os dirs disk job.disk_id target_path)

  abbrev pub read_claimed : Option Job → Text → Effect (Manager W) (Unit {0})
  read_claimed none target_path = refused (codes "no retrieval awaiting media")
  read_claimed (some job) target_path = with_job job (read_job job target_path)

  unfoldable pub read_disk : Text → Effect (Manager W) (Unit {0})
  read_disk target_path m = read_claimed (claim_reading m.job) target_path m

  unfoldable pub start_job : Job → Effect (Manager W) (Unit {0})
  start_job job = do
    prepared ← or_else revert_to_needs_reconstruction (prepare cat os dirs job)
    set_reconstructor (some prepared.0) prepared.1
    update_job reconstructing

  abbrev pub start_claimed : Option Job → Effect (Manager W) (Unit {0})
  start_claimed none = refused (codes "no disc needing reconstruction")
  start_claimed (some job) = with_job job (start_job job)

  unfoldable pub start_reconstruction : Effect (Manager W) (Unit {0})
  start_reconstruction m = start_claimed (claim_starting m.job) m

  abbrev reconstructed_path : Job → Text
  reconstructed_path job = os.join dirs.scratch_dir (job.disk_id ++ codes ".reconstructed.iso")

  -- `ReadReconstructionDisc` behind the fold.
  abbrev pub read_folded : Job → Option Bytes → Effect (Manager W) (Unit {0})
  read_folded job none = update_job reconstructing
  read_folded job (some image) =
      or_else revert_to_reconstructing (os.write_file (reconstructed_path job) image)
      >> deferring (os.remove (reconstructed_path job))
          (read_from os dirs job (reconstructed_path job))

  unfoldable pub fold_job : ℕ → Text → Text → Job → Reconstructor → Effect (Manager W) (Unit {0})
  fold_job capacity disk_id target_path job r = do
    image ← or_else revert_to_reconstructing (read_image cat os dirs capacity disk_id target_path)
    folded ← fold_step r disk_id image
    quietly (os.remove (image_path cat os dirs disk_id))
    read_folded job folded

  abbrev pub fold_claimed :
      ℕ → Text → Text → Option (Job × Reconstructor) → Effect (Manager W) (Unit {0})
  fold_claimed capacity disk_id target_path none = refused (codes "no reconstruction in progress")
  fold_claimed capacity disk_id target_path (some (job, r)) =
      with_job job (fold_job capacity disk_id target_path job r)

  unfoldable pub read_reconstruction_disc : Text → Text → Effect (Manager W) (Unit {0})
  read_reconstruction_disc disk_id target_path m =
      fold_claimed m.reconstruction_capacity disk_id target_path
        (claim_folding m.job m.reconstructor) m
