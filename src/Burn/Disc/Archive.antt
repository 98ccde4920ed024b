-- ===== src/Burn/Disc/Archive.antt =====
-- The order in which `commitDisc` writes rows and removes staged files, read off a log.
use varis.Base.{◌≡◌, refl, sym, ap, subst, List, [], ◌∷◌, Option, Text, codes, Result, ok, err}
use varis.Base.Effect.{Effect, proceed, add_context, for_each}
use varis.Binpack.{FileInfo}
use varis.Db.{Disk, FileRecord}
use varis.Os.{Os}
use varis.Burn.Cataloger.{Cataloger}
use varis.Burn.Plan.{Options, DiscPlan}
use varis.Burn.Tools.{hash_file}
use varis.Burn.Disc.{Dirs, disk_row, file_row, archive_file, commit_file, commit_disc}

-- A row that the catalog has taken, or a path that was to be removed.
pub data Event : Type 0 where
  row_taken : FileRecord → Event
  disk_taken : Disk → Event
  removed : Text → Event

-- A step that is not logged.
abbrev pub unseen : {W A : Type 0} → Effect W A → Effect (W × List Event) A
unseen step w = let r = step w.0 in (r.0, (r.1, w.1))

abbrev pub noted : {A : Type 0} → Result A → Event → List Event → List Event
noted (ok _) event log = event ∷ log
noted (err _) event log = log

-- The row is in the log.
pub data IsTaken (f : FileRecord) : List Event → Type 0 where
  latest : {log : List Event} → IsTaken f (row_taken f ∷ log)
  earlier : {event : Event} {log : List Event} → IsTaken f log → IsTaken f (event ∷ log)

module _ (cat : Cataloger) (os : Os cat.State) (dirs : Dirs) where
  -- The catalog and the machine, with a log, the latest event first.
  abbrev pub observed_cataloger : Cataloger
  observed_cataloger = record {
    State = cat.State × List Event;
    next_disk_id = λ prefix n. unseen (cat.next_disk_id prefix n);
    new_burn_job_id = unseen cat.new_burn_job_id;
    next_group_id = λ id n. unseen (cat.next_group_id id n);
    insert_disk =
        λ d w. let r = cat.insert_disk d w.0 in (r.0, (r.1, noted r.0 (disk_taken d) w.1));
    insert_file = λ f w. let r = cat.insert_file f w.0 in (r.0, (r.1, noted r.0 (row_taken f) w.1));
    consume_staged_metadata = λ path. unseen (cat.consume_staged_metadata path);
  }

  abbrev pub observed_os : Os (cat.State × List Event)
  observed_os = record {
    join = os.join;
    base_name = os.base_name;
    relative = os.relative;
    statfs = λ a. unseen (os.statfs a);
    walk = λ a. unseen (os.walk a);
    stat = λ a. unseen (os.stat a);
    remove = λ path w. let r = os.remove path w.0 in (r.0, (r.1, removed path ∷ w.1));
    remove_all = λ a. unseen (os.remove_all a);
    make_dir_all = λ a. unseen (os.make_dir_all a);
    open_file = λ a. unseen (os.open_file a);
    create_file = λ a. unseen (os.create_file a);
    rename = λ a b. unseen (os.rename a b);
    copy = λ a b. unseen (os.copy a b);
    read_file = λ a. unseen (os.read_file a);
    write_file = λ a b. unseen (os.write_file a b);
    file_info_header = os.file_info_header;
    write_header = λ a b c. unseen (os.write_header a b c);
    close_tar = λ a. unseen (os.close_tar a);
    close_gzip = λ a. unseen (os.close_gzip a);
    run = λ a b. unseen (os.run a b);
    sha256_hex = os.sha256_hex;
    marshal = os.marshal;
    now = unseen os.now;
    parse = os.parse;
    make_temp_dir = λ a b. unseen (os.make_temp_dir a b);
    open_gzip = λ a. unseen (os.open_gzip a);
    tar_headers = λ a. unseen (os.tar_headers a);
    copy_member = λ a b c. unseen (os.copy_member a b c);
    copy_n = λ a b c. unseen (os.copy_n a b c);
  }

  -- What was removed is the staged file of a row of the disc that the catalog had taken before.
  abbrev pub Archived : Text → List Event → Type 0
  Archived id [] = Unit
  Archived id (row_taken f ∷ log) = Archived id log
  Archived id (disk_taken d ∷ log) = Archived id log
  Archived id (removed path ∷ log) =
      ((f : FileRecord) × IsTaken f log
        × (f.disk_id ≡ id)
        × (os.join dirs.staging_dir f.original_path ≡ path))
      × Archived id log

  abbrev Log : Type 0
  Log = cat.State × List Event

  context_log : {A : Type 0} (text : Text) (r : Result A × Log) → (add_context text r).1 ≡ r.1
  context_log text (ok a, w) = refl
  context_log text (err e, w) = refl

  -- What a removal leaves in the log, whether or not it succeeds.
  removal_log :
      (text path : Text) (w : Log)
      → (add_context text (observed_os.remove path w)).1.1 ≡ removed path ∷ w.1
  removal_log text path w = ap (λ v. v.1) (context_log text (observed_os.remove path w))

  archive_file-Archived :
      (id : Text) (f : FileInfo) (hash : Text) (metadata : Option (List Text) × Text) (w : Log)
      → Archived id w.1
      → Archived id (archive_file observed_cataloger observed_os dirs id f hash metadata w).1.1
  archive_file-Archived id f hash metadata w h = removed_after (cat.insert_file row w.0)
    where
      row : FileRecord
      row = file_row observed_cataloger observed_os dirs id f hash metadata

      path : Text
      path = os.join dirs.staging_dir f.path

      text : Text
      text = codes "removing archived file from staging"

      removed_after :
          (r : Result (Unit {0}) × cat.State)
          → Archived id
              (proceed
                (λ _ v. add_context text (observed_os.remove path v))
                (r.0, (r.1, noted r.0 (row_taken row) w.1))).1.1
      removed_after (err e, v) = h
      removed_after (ok _, v) =
          subst (Archived id) (sym (removal_log text path (v, row_taken row ∷ w.1)))
            ((row, latest, refl, refl), h)

  -- A step that is not logged, and what follows it.
  unseen-Archived :
      {A B : Type 0} (id : Text) (log : List Event) (r : Result A × cat.State)
      (next : A → Effect Log B)
      → Archived id log
      → ((a : A) (v : Log) → Archived id v.1 → Archived id (next a v).1.1)
      → Archived id (proceed next (r.0, (r.1, log))).1.1
  unseen-Archived id log (err e, v) next h after = h
  unseen-Archived id log (ok a, v) next h after = after a (v, log) h

  commit_file-Archived :
      (id : Text) (f : FileInfo) (w : Log)
      → Archived id w.1
      → Archived id (commit_file observed_cataloger observed_os dirs id f w).1.1
  unfolding commit_file hash_file
  commit_file-Archived id f w h = hashed (os.read_file (os.join dirs.staging_dir f.path) w.0)
    where
      hashed :
          (r : Result Text × cat.State)
          → Archived id
              (proceed
                (λ hash v.
                  proceed
                    (λ metadata.
                      archive_file observed_cataloger observed_os dirs id f hash metadata)
                    (observed_cataloger.consume_staged_metadata f.path v))
                (proceed (λ content v. (ok (os.sha256_hex content), v)) (r.0, (r.1, w.1)))).1.1
      hashed (err e, v) = h
      hashed (ok content, v) =
          unseen-Archived id w.1 (cat.consume_staged_metadata f.path v) _ h
            (λ metadata u. archive_file-Archived id f (os.sha256_hex content) metadata u)

  commit_files-Archived :
      (id : Text) (files : List FileInfo) (w : Log)
      → Archived id w.1
      → Archived id (for_each (commit_file observed_cataloger observed_os dirs id) files w).1.1
  unfolding for_each
  commit_files-Archived id [] w h = h
  commit_files-Archived id (f ∷ files) w h =
      after (commit_file observed_cataloger observed_os dirs id f w) (commit_file-Archived id f w h)
        (λ v g. commit_files-Archived id files v g)
    where
      after :
          (r : Result (Unit {0}) × Log)
          → Archived id r.1.1
          → ((v : Log)
              → Archived id v.1
              → Archived id
                  (for_each (commit_file observed_cataloger observed_os dirs id) files v).1.1)
          → Archived id
              (proceed
                (λ _. for_each (commit_file observed_cataloger observed_os dirs id) files)
                r).1.1
      after (ok _, v) g rest = rest v g
      after (err e, v) g rest = g

  -- Whatever the catalog and the machine answer: when `commitDisc` returns, with or without an
  -- error, each path that it has removed, or tried to, is the staged file of a row of this disc,
  -- and the catalog had taken that row before the removal.
  pub commit_disc-Archived :
      (opts : Options) (plan : DiscPlan) (iso_hash : Text) (world : cat.State)
      → Archived plan.disk_id
          (commit_disc observed_cataloger observed_os dirs opts plan iso_hash (world, [])).1.1
  unfolding commit_disc
  commit_disc-Archived opts plan iso_hash world =
      inserted
        (cat.insert_disk (disk_row observed_cataloger observed_os dirs opts plan iso_hash) world)
    where
      inserted :
          (r : Result (Unit {0}) × cat.State)
          → Archived plan.disk_id
              (proceed
                (λ _.
                  for_each
                    (commit_file observed_cataloger observed_os dirs plan.disk_id)
                    plan.bucket.files)
                (
                  r.0,
                  (
                    r.1,
                    noted r.0
                        (disk_taken
                          (disk_row observed_cataloger observed_os dirs opts plan iso_hash))
                        [],
                  ),
                )).1.1
      inserted (err e, v) = tt
      inserted (ok _, v) = commit_files-Archived plan.disk_id plan.bucket.files _ tt
