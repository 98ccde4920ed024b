-- ===== src/Burn/Disc.antt =====
-- What `runDisc` of internal/burn/pipeline.go is made of.
pub mod Archive
pub mod Entered
pub mod Again
use varis.Base.{
  ℕ, zero, suc, ◌+◌, ◌-◌, ◌*◌, ◌/◌, ◌%◌, ◌^◌, ◌≤◌, ◌<◌, min, bit_xor, ◌≡◌, ◌≢◌, ◌↔◌, ◌⊎◌, inl, inr,
  refl, sym, ap, ap₂, subst, fun_ext, ◌∙◌, Bool, true, false, not, ◌&&◌, ◌||◌, Bool-cases, List, [],
  ◌∷◌, ◌++◌, map, append_assoc, append-nil, map-append, Option, none, some, Option-cases, arith,
  tests, ltb, leb, ◌==◌, ltb→lt, lt→ltb, leb→le, le→leb, ==_iff, if◌then◌else◌, dec_lt, dec_le,
  ℕ_discrete, Text, codes, text_eq, text_eq_iff, text_eq_refl, text_ne, contains, contains-append,
  Error, external, message, wrapped, not_found, Result, ok, err, Result-cases, length, get_elem?,
  get_or, set, take, drop, replicate, All, All-append, All-imp, length-append, length-map,
  length-replicate, length-take, length-drop, take-append-drop, get_or_ext, add64, mul64, neg64,
  lt64, div64, is_negative64, int64_limit,
}
use varis.Base.Effect.{Effect, pure, throw, lift, ◌>>=◌, ◌>>◌, with_context, for_each}
use varis.Binpack.{FileInfo, Bucket}
use varis.Db.{
  Disk, FileRecord, Role, WriteKind, data_role, parity_role, other_role, optical, filesystem,
  other_kind,
}
use varis.Db.Ids.{decimal}
use varis.Os.{Os}
use varis.Toc.{FileEntry, Toc}
use varis.Xordisk.{Bytes, xor_disks}
use varis.Burn.Cataloger.{Cataloger}
use varis.Burn.Plan.{Options, DiscPlan}
use varis.Burn.Payload.{group_data_plans}
use varis.Burn.Tools.{
  decimal_int, attempt, create_parity, build_iso, burn_iso, hash_file, verify_burn, write_tar,
  remove_stale_artifacts, copy_file, move_paths_into, disk_free_bytes,
}
use varis.Burn.Job.{Job}

-- The directories a manager is made with.
pub record Dirs : Type 0 where
  pub staging_dir : Text
  pub spool_dir : Text
  pub dry_run_dir : Text

module _ (cat : Cataloger) (os : Os cat.State) (dirs : Dirs) where
  abbrev pub World : Type 0
  World = cat.State

  abbrev pub spool : Text → Text → Text
  spool id extension = os.join dirs.spool_dir (id ++ extension)

  abbrev pub tar_path : DiscPlan → Text
  tar_path plan = spool plan.disk_id (codes ".tar")

  abbrev toc_path : DiscPlan → Text
  toc_path plan = spool plan.disk_id (codes ".toc.json")

  abbrev pub iso_path : DiscPlan → Text
  iso_path plan = spool plan.disk_id (codes ".iso")

  abbrev iso_dir : DiscPlan → Text
  iso_dir plan = spool plan.disk_id (codes "-src")

  abbrev no_space : Options → ℕ → Error
  no_space opts free =
      message (codes "not enough free space in spool dir: need ~%d bytes, have %d")
        (decimal_int (mul64 opts.capacity_bytes 2) ∷ decimal free ∷ [])

  -- Twice the capacity, in 64 bits without a sign, must be free.
  unfoldable pub check_free_space : Options → Effect World (Unit {0})
  unfolding disk_free_bytes decimal decimal_int
  check_free_space opts = do
    free ← with_context (codes "checking free space") (disk_free_bytes os dirs.spool_dir)
    (if ltb free (mul64 opts.capacity_bytes 2) then throw (no_space opts free) else pure tt)

  -- The images of the group's data discs, read from the spool.
  unfoldable pub read_images : List DiscPlan → Effect World (List Bytes)
  read_images [] = pure []
  read_images (p ∷ plans) = do
    image ← with_context (codes "reading data disc image " ++ p.disk_id) (os.read_file (iso_path p))
    images ← read_images plans
    pure (image ∷ images)

  abbrev no_data_discs : Text → Error
  no_data_discs group_id = message (codes "no data discs found for group %s") (group_id ∷ [])

  abbrev pub write_parity : ℕ → Text → Text → List Bytes → Effect World (Unit {0})
  write_parity capacity group_id dest_path [] = throw (no_data_discs group_id)
  write_parity capacity group_id dest_path (i ∷ images) =
      os.write_file dest_path (xor_disks (i ∷ images) capacity)

  unfoldable pub build_parity_payload : Job → DiscPlan → Text → Effect World (Unit {0})
  unfolding read_images group_data_plans xor_disks
  build_parity_payload job plan dest_path = do
    images ← read_images (group_data_plans plan.group_id job.plans)
    write_parity job.options.capacity_bytes plan.group_id dest_path images

  -- `switch plan.Role` of the packing.
  abbrev pub pack_payload : Job → DiscPlan → Role → Effect World (Unit {0})
  pack_payload job plan data_role =
      with_context (codes "packing")
        (write_tar os dirs.staging_dir plan.bucket (tar_path plan) job.options.compress)
  pack_payload job plan parity_role =
      with_context (codes "building parity payload") (build_parity_payload job plan (tar_path plan))
  pack_payload job plan (other_role role) =
      throw (message (codes "runDisc: unknown role %q") (role ∷ []))

  abbrev file_entry : FileInfo → FileEntry
  file_entry f = record { path = f.path; size_bytes = f.size; sha256 = [] }

  abbrev table_of_contents : Options → DiscPlan → ℕ → Toc
  table_of_contents opts plan created_at = record {
    disk_id = plan.disk_id;
    media_type = opts.media_type;
    parity_percent = opts.parity_percent;
    compressed = opts.compress;
    group_id = plan.group_id;
    role = plan.role;
    slot_index = plan.slot_index;
    created_at = created_at;
    files = map file_entry plan.bucket.files;
  }

  unfoldable pub write_toc : Options → DiscPlan → Effect World (Unit {0})
  write_toc opts plan = do
    created_at ← os.now
    toc_bytes ←
        with_context (codes "toc") (lift (os.marshal (table_of_contents opts plan created_at)))
    with_context (codes "writing toc") (os.write_file (toc_path plan) toc_bytes)

  -- From `os.MkdirAll(isoDir)` to the hash of the image.
  unfoldable pub stage_iso : DiscPlan → Effect World Text
  unfolding move_paths_into build_iso hash_file
  stage_iso plan = do
    with_context (codes "iso staging dir") (os.make_dir_all (iso_dir plan))
    with_context (codes "staging iso contents") (
        move_paths_into os (iso_dir plan)
          (tar_path plan ∷ toc_path plan ∷ (tar_path plan ++ codes ".par2") ∷ []))
    with_context (codes "iso") (build_iso os (iso_dir plan) (iso_path plan))
    with_context (codes "hashing iso") (hash_file os (iso_path plan))

  abbrev pub verify_target : Options → DiscPlan → Text → Effect World (Unit {0})
  verify_target opts plan iso_hash = with_context (codes "verify") (
      verify_burn os opts.target_path iso_hash
        (os.join (iso_dir plan) (os.base_name (tar_path plan))))

  abbrev pub dry_run : DiscPlan → Effect World (Unit {0})
  dry_run plan = do
    with_context (codes "dry run dir") (os.make_dir_all dirs.dry_run_dir)
    with_context (codes "dry run copy")
        (copy_file os (os.join dirs.dry_run_dir (plan.disk_id ++ codes ".iso")) (iso_path plan))

  abbrev pub checksum_line : Text → Text → Text
  checksum_line iso_hash target = iso_hash ++ codes "  " ++ os.base_name target ++ 10 ∷ []

  -- A disc in no group has neither a group nor a slot in its row.
  abbrev pub disk_row : Options → DiscPlan → Text → Disk
  disk_row opts plan iso_hash = record {
    id = plan.disk_id;
    media_type = opts.media_type;
    parity_percent = opts.parity_percent;
    group_id = if text_eq plan.group_id [] then none else some plan.group_id;
    role = plan.role;
    slot_index = if text_eq plan.group_id [] then none else some plan.slot_index;
    iso_hash = iso_hash;
    created_at = 0;
    is_dry_run = opts.dry_run;
  }

  abbrev pub file_row : Text → FileInfo → Text → Option (List Text) × Text → FileRecord
  file_row disk_id f hash metadata = record {
    id = [];
    disk_id = disk_id;
    original_path = f.path;
    size_bytes = f.size;
    file_hash = hash;
    tags = metadata.0;
    description = metadata.1;
    disk_is_dry_run = false;
  }

  -- The row of a file, and then its removal.
  abbrev pub archive_file :
      Text → FileInfo → Text → Option (List Text) × Text → Effect World (Unit {0})
  archive_file disk_id f hash metadata =
      cat.insert_file (file_row disk_id f hash metadata)
      >> with_context (codes "removing archived file from staging")
          (os.remove (os.join dirs.staging_dir f.path))

  -- One round of the loop over the disc's files.
  unfoldable pub commit_file : Text → FileInfo → Effect World (Unit {0})
  unfolding hash_file
  commit_file disk_id f = do
    hash ← hash_file os (os.join dirs.staging_dir f.path)
    metadata ← cat.consume_staged_metadata f.path
    archive_file disk_id f hash metadata

  unfoldable pub commit_disc : Options → DiscPlan → Text → Effect World (Unit {0})
  unfolding for_each commit_file
  commit_disc opts plan iso_hash = do
    cat.insert_disk (disk_row opts plan iso_hash)
    for_each (commit_file plan.disk_id) plan.bucket.files

  -- A failure is logged, not returned.
  abbrev remove_image : DiscPlan → Effect World (Unit {0})
  remove_image p = do _ ← attempt (os.remove (iso_path p)); pure tt

  unfoldable pub cleanup_group_data_isos : Job → DiscPlan → Effect World (Unit {0})
  unfolding for_each attempt group_data_plans
  cleanup_group_data_isos job plan =
      for_each remove_image (group_data_plans plan.group_id job.plans)

  abbrev pub after_commit : Job → DiscPlan → Role → Effect World (Unit {0})
  after_commit job plan parity_role = cleanup_group_data_isos job plan
  after_commit job plan _ = pure tt

  abbrev pub clear_artifacts : DiscPlan → Effect World (Unit {0})
  clear_artifacts plan = with_context (codes "clearing stale artifacts from a prior attempt") (
      remove_stale_artifacts os (
        tar_path plan
        ∷ (tar_path plan ++ codes ".par2")
        ∷ toc_path plan
        ∷ iso_path plan
        ∷ iso_dir plan
        ∷ []))
