-- ===== src/Main/Commit/Rows.antt =====
-- The files that commitDisc of internal/burn/pipeline.go enters, over internal/db.
use varis.Base.{
  ℕ, ◌+◌, ◌≤◌, ◌≡◌, refl, sym, ap, ◌∙◌, true, false, List, [], ◌∷◌, ◌++◌, append_assoc, append-nil,
  if◌then◌else◌, map, map-append, Option, none, some, Option-cases, inl, inr, arith, Text,
  text_eq_iff, contains, contains-append, Result, ok,
}
use varis.Base.Dict.{Dict, lookup, remove, lookup-remove}
use varis.Base.Effect.{for_each, proceed}
use varis.Os.{Os}
use varis.Binpack.{FileInfo}
use varis.Db.{Catalog, FileRecord, StagedMetadata, Postgres}
use varis.Db.Disks.{disk_ids}
use varis.Db.Files.{file_ids, non_nil, insert_row, insert_file, consume_staged_metadata}
use varis.Burn.Tools.{hash_file}
use varis.Burn.Disc.{Dirs, file_row, commit_file}
use varis.Main.{machine_of, cataloger_of}

abbrev tags_of : Option StagedMetadata → List Text
tags_of none = []
tags_of (some m) = m.tags

abbrev description_of : Option StagedMetadata → Text
description_of none = []
description_of (some m) = m.description

abbrev metadata_of : Option StagedMetadata → Option (List Text) × Text
metadata_of none = (none, [])
metadata_of (some m) = (some m.tags, m.description)

module _ {M : Type 0} (os : Os M) (pg : Postgres) (dirs : Dirs) (content : FileInfo → Text)
    (id : Text) where
  -- The row of a file: its id is the n-th one drawn.
  abbrev pub row : ℕ → Dict StagedMetadata → FileInfo → FileRecord
  row n meta f = record {
    id = pg.uuid n;
    disk_id = id;
    original_path = f.path;
    size_bytes = f.size;
    file_hash = os.sha256_hex (content f);
    tags = some (tags_of (lookup f.path meta));
    description = description_of (lookup f.path meta);
    disk_is_dry_run = false;
  }

  unfoldable pub rows : ℕ → Dict StagedMetadata → List FileInfo → List FileRecord
  rows n meta [] = []
  rows n meta (f ∷ files) = row n meta f ∷ rows (n + 1) (remove f.path meta) files

  abbrev path_of : FileInfo → Text
  path_of f = os.join dirs.staging_dir f.path

  -- The machine behind the reading and the removal of a file.
  abbrev pub behind_one : FileInfo → M → M
  behind_one f w = (os.remove (path_of f) (os.read_file (path_of f) w).1).1

  -- One after the other, each file is read with its content, and removed.
  abbrev pub AreReady : List FileInfo → M → Type 0
  AreReady [] w = Unit
  AreReady (f ∷ files) w =
      ((os.read_file (path_of f) w).0 ≡ ok (content f))
      × ((os.remove (path_of f) (os.read_file (path_of f) w).1).0 ≡ ok tt)
      × AreReady files (behind_one f w)

  abbrev pub with_row : FileInfo → Catalog → Catalog
  with_row f db = record db {
    files = db.files ++ row db.drawn db.staged_metadata f ∷ [];
    staged_metadata = remove f.path db.staged_metadata;
    drawn = db.drawn + 1;
    statements = db.statements + 1 + 1;
  }

  consume-ok :
      (path : Text) (db : Catalog)
      → ((n : ℕ) → pg.outage n ≡ none)
      → consume_staged_metadata pg path db ≡ (
        ok (metadata_of (lookup path db.staged_metadata)),
        record db {
          staged_metadata = remove path db.staged_metadata;
          statements = db.statements + 1;
        },
      )
  unfolding consume_staged_metadata
  consume-ok path db answers = elim (Option-cases (lookup path db.staged_metadata)) [
    | inl untold ↦ ground (arith, answers db.statements, untold)
    | inr (m, told) ↦ ground (arith, answers db.statements, told)
  ]

  insert-ok :
      (f : FileRecord) (tags : List Text) (db : Catalog)
      → ((n : ℕ) → pg.outage n ≡ none)
      → non_nil f.tags ≡ some tags
      → contains (pg.uuid db.drawn) (file_ids db.files) ≡ false
      → contains f.disk_id (disk_ids db.disks) ≡ true
      → insert_file pg f db ≡ (
        ok tt,
        record db {
          files = db.files ++ record f { id = pg.uuid db.drawn; tags = some tags } ∷ [];
          drawn = db.drawn + 1;
          statements = db.statements + 1;
        },
      )
  unfolding insert_file insert_row
  insert-ok f tags db answers given new there =
      ground (arith, answers db.statements, given, new, there)

  commit_file-ok :
      (f : FileInfo) (w : M) (db : Catalog)
      → ((n : ℕ) → pg.outage n ≡ none)
      → contains (pg.uuid db.drawn) (file_ids db.files) ≡ false
      → contains id (disk_ids db.disks) ≡ true
      → (os.read_file (path_of f) w).0 ≡ ok (content f)
      → (os.remove (path_of f) (os.read_file (path_of f) w).1).0 ≡ ok tt
      → commit_file (cataloger_of M pg) (machine_of os) dirs id f (w, db)
        ≡ (ok tt, (behind_one f w, with_row f db))
  unfolding commit_file hash_file insert_file insert_row consume_staged_metadata
  commit_file-ok f w db answers new there read gone =
      rw (reads, consume-ok f.path db answers, inserts (lookup f.path db.staged_metadata), removes)
        refl
    where
      v : M
      v = (os.read_file (path_of f) w).1

      reads : os.read_file (path_of f) w ≡ (ok (content f), v)
      reads = ap {B = Result Text × M} (λ r. (r, v)) read

      removes : os.remove (path_of f) v ≡ (ok tt, behind_one f w)
      removes = ap {B = Result (Unit {0}) × M} (λ r. (r, behind_one f w)) gone

      emptied : Catalog
      emptied = record db {
        staged_metadata = remove f.path db.staged_metadata;
        statements = db.statements + 1;
      }

      given : Option StagedMetadata → FileRecord
      given m =
          file_row (cataloger_of M pg) (machine_of os) dirs id f (os.sha256_hex (content f))
            (metadata_of m)

      inserts :
          (m : Option StagedMetadata)
          → insert_file pg (given m) emptied ≡ (
            ok tt,
            record emptied {
              files =
                  db.files
                  ++ record {
                    id = pg.uuid db.drawn;
                    disk_id = id;
                    original_path = f.path;
                    size_bytes = f.size;
                    file_hash = os.sha256_hex (content f);
                    tags = some (tags_of m);
                    description = description_of m;
                    disk_is_dry_run = false;
                  }
                    ∷ [];
              drawn = db.drawn + 1;
              statements = emptied.statements + 1;
            },
          )
      inserts none = insert-ok (given none) [] emptied answers refl new there
      inserts (some m) = insert-ok (given (some m)) m.tags emptied answers refl new there

  -- No id that will be drawn is that of a file.
  abbrev pub IsFresh : Catalog → Type 0
  IsFresh db = (n : ℕ) → db.drawn ≤ n → contains (pg.uuid n) (file_ids db.files) ≡ false

  with_row-IsFresh :
      (f : FileInfo) (db : Catalog)
      → ((m n : ℕ) → pg.uuid m ≡ pg.uuid n → m ≡ n)
      → IsFresh db
      → IsFresh (with_row f db)
  unfolding contains
  with_row-IsFresh f db distinct fresh n later =
      ap (contains (pg.uuid n)) (map-append (λ (x : FileRecord). x.id) db.files _)
      ∙ contains-append (pg.uuid n) (file_ids db.files) _
      ∙ ground (
        arith,
        fresh n (omega (arith, later)),
        text_eq_iff (pg.uuid db.drawn) (pg.uuid n),
        text_eq_iff (pg.uuid n) (pg.uuid db.drawn),
        distinct db.drawn n,
        later,
      )

  unfoldable pub with_rows : List FileInfo → Catalog → Catalog
  with_rows [] db = db
  with_rows (f ∷ files) db = with_rows files (with_row f db)

  unfoldable pub behind : List FileInfo → M → M
  behind [] w = w
  behind (f ∷ files) w = behind files (behind_one f w)

  pub commit_files-ok :
      (files : List FileInfo) (w : M) (db : Catalog)
      → ((n : ℕ) → pg.outage n ≡ none)
      → ((m n : ℕ) → pg.uuid m ≡ pg.uuid n → m ≡ n)
      → IsFresh db
      → contains id (disk_ids db.disks) ≡ true
      → AreReady files w
      → for_each (commit_file (cataloger_of M pg) (machine_of os) dirs id) files (w, db)
        ≡ (ok tt, (behind files w, with_rows files db))
  unfolding for_each with_rows behind
  commit_files-ok [] w db answers distinct fresh there ready = refl
  commit_files-ok (f ∷ files) w db answers distinct fresh there (read, gone, ready) =
      ap (proceed (λ _. for_each (commit_file (cataloger_of M pg) (machine_of os) dirs id) files))
        (commit_file-ok f w db answers (fresh db.drawn (omega arith)) there read gone)
      ∙ commit_files-ok files (behind_one f w) (with_row f db) answers distinct
          (with_row-IsFresh f db distinct fresh) there ready

  pub files-with_rows :
      (files : List FileInfo) (db : Catalog)
      → (with_rows files db).files ≡ db.files ++ rows db.drawn db.staged_metadata files
  unfolding with_rows rows
  files-with_rows [] db = sym (append-nil db.files)
  files-with_rows (f ∷ files) db = files-with_rows files (with_row f db) ∙ append_assoc db.files _ _

  pub disks-with_rows :
      (files : List FileInfo) (db : Catalog) → (with_rows files db).disks ≡ db.disks
  unfolding with_rows
  disks-with_rows [] db = refl
  disks-with_rows (f ∷ files) db = disks-with_rows files (with_row f db)

  pub lookup-with_rows :
      (path : Text) (files : List FileInfo) (db : Catalog)
      → lookup path (with_rows files db).staged_metadata
        ≡ (if contains path (map (λ f. f.path) files) then none else lookup path db.staged_metadata)
  unfolding with_rows contains
  lookup-with_rows path [] db = refl
  lookup-with_rows path (f ∷ files) db =
      lookup-with_rows path files (with_row f db)
      ∙ ground (
        arith,
        lookup-remove f.path path db.staged_metadata,
        text_eq_iff f.path path,
        text_eq_iff path f.path,
      )
