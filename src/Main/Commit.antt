-- ===== src/Main/Commit.antt =====
-- commitDisc of internal/burn/pipeline.go over internal/db, on one machine and one catalog.
pub mod Rows
use varis.Base.{
  ℕ, ◌+◌, ◌≤◌, ◌≡◌, refl, sym, ap, subst, ◌∙◌, true, false, ◌||◌, List, [], ◌∷◌, ◌++◌, append_assoc,
  append-nil, if◌then◌else◌, map, map-append, Option, none, some, Option-cases, inl, inr, arith,
  Text, text_eq, text_eq_iff, text_eq_refl, contains, contains-append, Result, ok, err,
}
use varis.Base.Dict.{Dict, lookup, remove, lookup-remove}
use varis.Base.Effect.{Effect, for_each, proceed}
use varis.Os.{Os}
use varis.Binpack.{FileInfo}
use varis.Db.{Catalog, Disk, FileRecord, StagedMetadata, Postgres, counted}
use varis.Db.Disks.{disk_ids, media_names, is_known_group, insert_disk}
use varis.Db.Files.{file_ids, non_nil, insert_row, insert_file, consume_staged_metadata}
use varis.Burn.Plan.{Options, DiscPlan}
use varis.Burn.Tools.{hash_file}
use varis.Burn.Disc.{Dirs, disk_row, file_row, commit_file, commit_disc}
use varis.Web.Answer as Answer
use varis.Main.{machine_of, cataloger_of}
use varis.Main.Commit.Rows.{
  rows, IsFresh, AreReady, behind, with_rows, commit_files-ok, files-with_rows, disks-with_rows,
  lookup-with_rows,
}

contains_own : (z : Text) → contains z (z ∷ []) ≡ true
unfolding contains
contains_own z = ground (arith, text_eq_refl z)

-- A plan without a group has the empty text for it.
abbrev pub group_of : DiscPlan → Option Text
group_of plan = if text_eq plan.group_id [] then none else some plan.group_id

module _ {M : Type 0} (os : Os M) (pg : Postgres) (dirs : Dirs) (content : FileInfo → Text)
    (opts : Options) (plan : DiscPlan) (hash : Text) where
  -- The row of the disc, created at the time of its statement.
  abbrev pub disc_row : Catalog → Disk
  disc_row db = record {
    id = plan.disk_id;
    media_type = opts.media_type;
    parity_percent = opts.parity_percent;
    group_id = group_of plan;
    role = plan.role;
    slot_index = if text_eq plan.group_id [] then none else some plan.slot_index;
    iso_hash = hash;
    created_at = pg.now (db.statements + 1);
    is_dry_run = opts.dry_run;
  }

  abbrev with_disc : Catalog → Catalog
  with_disc db = record (counted db) { disks = db.disks ++ disc_row db ∷ [] }

  insert_disk-ok :
      (db : Catalog)
      → ((n : ℕ) → pg.outage n ≡ none)
      → contains plan.disk_id (disk_ids db.disks) ≡ false
      → contains opts.media_type (media_names db.media_types) ≡ true
      → is_known_group db (group_of plan) ≡ true
      → insert_disk pg (disk_row (cataloger_of M pg) (machine_of os) dirs opts plan hash) db
        ≡ (ok tt, with_disc db)
  unfolding insert_disk
  insert_disk-ok db answers new medium group =
      ground (arith, answers db.statements, new, medium, group)

  -- What a commit leaves: the disc's row is the last one; behind the rows of other files there is one
  -- for each file of the disc, in order, with the metadata entered for its path; and nothing
  -- is left entered for these paths.
  abbrev pub Committed : Catalog → Result (Unit {0}) × (M × Catalog) → Type 0
  Committed db r =
      (r.0 ≡ ok tt)
      × (r.1.1.disks ≡ db.disks ++ disc_row db ∷ [])
      × (r.1.1.files
          ≡ db.files
            ++ rows os pg dirs content plan.disk_id db.drawn db.staged_metadata plan.bucket.files)
      × ((path : Text)
          → lookup path r.1.1.staged_metadata ≡ (
              if contains path (map (λ f. f.path) plan.bucket.files)
              then none
              else lookup path db.staged_metadata))

  -- On a server that answers, where the disc's id is new, its medium and its group, if it has one, are
  -- in their tables, and the random ids are new and all different: when each staged file of the disc
  -- can be read and then be removed, one after the other, commitDisc returns without an error. The
  -- catalog then has the disc's row, and behind the rows of other files one row for each of these, in
  -- order, with what a read gave hashed, and with the tags and the description that were entered
  -- for its path, or an empty list and text; nothing is left entered for these paths, and what was
  -- entered for other ones stays.
  pub commit_disc-Committed :
      (w : M) (db : Catalog)
      → ((n : ℕ) → pg.outage n ≡ none)
      → ((m n : ℕ) → pg.uuid m ≡ pg.uuid n → m ≡ n)
      → IsFresh os pg dirs content plan.disk_id db
      → contains plan.disk_id (disk_ids db.disks) ≡ false
      → contains opts.media_type (media_names db.media_types) ≡ true
      → is_known_group db (group_of plan) ≡ true
      → AreReady os pg dirs content plan.disk_id plan.bucket.files w
      → Committed db (commit_disc (cataloger_of M pg) (machine_of os) dirs opts plan hash (w, db))
  unfolding commit_disc
  commit_disc-Committed w db answers distinct fresh new medium group ready =
      subst (Committed db) (sym all) (
        refl,
        disks-with_rows os pg dirs content plan.disk_id plan.bucket.files (with_disc db),
        files-with_rows os pg dirs content plan.disk_id plan.bucket.files (with_disc db),
        λ path.
            lookup-with_rows os pg dirs content plan.disk_id path plan.bucket.files (with_disc db),
      )
    where
      there : contains plan.disk_id (disk_ids (with_disc db).disks) ≡ true
      there =
          ap (contains plan.disk_id) (map-append (λ (d : Disk). d.id) db.disks _)
          ∙ contains-append plan.disk_id (disk_ids db.disks) _
          ∙ ap (λ b. contains plan.disk_id (disk_ids db.disks) || b) (contains_own plan.disk_id)
          ∙ ground arith

      inserted :
          (cataloger_of M pg).insert_disk
            (disk_row (cataloger_of M pg) (machine_of os) dirs opts plan hash)
            (w, db)
          ≡ (ok tt, (w, with_disc db))
      inserted = ap (Answer.behind w) (insert_disk-ok db answers new medium group)

      all : commit_disc (cataloger_of M pg) (machine_of os) dirs opts plan hash (w, db) ≡ (
        ok tt,
        (
          behind os pg dirs content plan.disk_id plan.bucket.files w,
          with_rows os pg dirs content plan.disk_id plan.bucket.files (with_disc db),
        ),
      )
      all =
          ap
            (proceed (λ _.
              for_each (commit_file (cataloger_of M pg) (machine_of os) dirs plan.disk_id)
                plan.bucket.files))
            inserted
          ∙ commit_files-ok os pg dirs content plan.disk_id plan.bucket.files w (with_disc db)
              answers distinct fresh there ready
