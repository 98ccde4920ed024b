-- ===== src/Db/Disks.antt =====
-- internal/db/disks.go
use varis.Base.{
  ℕ, ◌+◌, Bool, true, false, ◌&&◌, List, [], ◌∷◌, ◌++◌, map, Option, none, some, ltb, ◌==◌,
  if◌then◌else◌, Text, codes, text_eq, contains, message, ok, err,
}
use varis.Base.Effect.{Effect, pure, throw, ◌>>=◌, ◌>>◌}
use varis.Db.{
  Catalog, Disk, DiskGroup, FileRecord, MediaType, Postgres, statement, foreign_key_violation,
  unique_violation, id_drawn,
}
use varis.Db.Ids.{format_disk_id}

-- `id LIKE prefix || ':%'`, for a prefix of letters and digits.
unfoldable pub has_prefix : Text → Text → Bool
has_prefix [] id = true
has_prefix (p ∷ prefix) [] = false
has_prefix (p ∷ prefix) (c ∷ id) = p == c && has_prefix prefix id

unfoldable pub count_disks : Text → List Disk → ℕ
count_disks prefix [] = 0
count_disks prefix (d ∷ disks) =
    let more = count_disks prefix disks in
    if has_prefix (prefix ++ b':' ∷ []) d.id then 1 + more else more

abbrev pub disk_ids : List Disk → List Text
disk_ids = map (λ d. d.id)

-- `SELECT … WHERE id = $1`
unfoldable pub find_disk : Text → List Disk → Option Disk
find_disk id [] = none
find_disk id (d ∷ disks) = if text_eq d.id id then some d else find_disk id disks

-- `ORDER BY slot_index`: nulls come last.
abbrev pub slot_before : Option ℕ → Option ℕ → Bool
slot_before (some a) (some b) = ltb a b
slot_before (some a) none = true
slot_before none _ = false

unfoldable pub insert_by_slot : Disk → List Disk → List Disk
insert_by_slot d [] = d ∷ []
insert_by_slot d (e ∷ disks) =
    let later = insert_by_slot d disks in
    if slot_before d.slot_index e.slot_index then d ∷ e ∷ disks else e ∷ later

unfoldable pub select_group : Text → List Disk → List Disk
unfolding insert_by_slot
select_group group_id [] = []
select_group group_id (d ∷ disks) =
    let more = select_group group_id disks in
    elim d.group_id [
      | none ↦ more
      | some g ↦ (if text_eq g group_id then insert_by_slot d more else more)
    ]

-- `WHERE is_dry_run ORDER BY created_at DESC`
unfoldable pub insert_newest : Disk → List Disk → List Disk
insert_newest d [] = d ∷ []
insert_newest d (e ∷ disks) =
    let later = insert_newest d disks in
    if ltb d.created_at e.created_at then e ∷ later else d ∷ e ∷ disks

unfoldable pub select_dry_runs : List Disk → List Disk
unfolding insert_newest
select_dry_runs [] = []
select_dry_runs (d ∷ disks) =
    let more = select_dry_runs disks in if d.is_dry_run then insert_newest d more else more

abbrev pub group_ids : List DiskGroup → List Text
group_ids = map (λ g. g.id)

abbrev pub media_names : List MediaType → List Text
media_names = map (λ m. m.name)

-- A reference to a group: null, or one of the table's ids.
abbrev pub is_known_group : Catalog → Option Text → Bool
is_known_group db none = true
is_known_group db (some g) = contains g (group_ids db.disk_groups)

unfoldable pub is_dry_run_disk : Text → List Disk → Bool
unfolding find_disk
is_dry_run_disk id disks = elim (find_disk id disks) [ none ↦ false | some d ↦ d.is_dry_run ]

unfoldable pub delete_files : Text → List FileRecord → List FileRecord
delete_files disk_id [] = []
delete_files disk_id (f ∷ files) =
    let more = delete_files disk_id files in if text_eq f.disk_id disk_id then more else f ∷ more

unfoldable pub delete_dry_run_row : Text → List Disk → List Disk
delete_dry_run_row id [] = []
delete_dry_run_row id (d ∷ disks) =
    let more = delete_dry_run_row id disks in
    if text_eq d.id id && d.is_dry_run then more else d ∷ more

-- `DELETE FROM files WHERE disk_id = $1 AND EXISTS (…)`
abbrev pub delete_dry_run_files : Text → Effect Catalog (Unit {0})
delete_dry_run_files id db = (
  ok tt,
  record db { files = if is_dry_run_disk id db.disks then delete_files id db.files else db.files },
)

-- `DELETE FROM disks WHERE id = $1 AND is_dry_run`: a disc with file rows cannot be deleted, since
-- `files.disk_id` refers to it.
abbrev pub delete_dry_run_disk : Text → Effect Catalog (Unit {0})
delete_dry_run_disk id db =
    if is_dry_run_disk id db.disks && contains id (map (λ f. f.disk_id) db.files)
    then (err foreign_key_violation, db)
    else (ok tt, record db { disks = delete_dry_run_row id db.disks })

module _ (pg : Postgres) where
  unfoldable pub insert_disk_group : Text → ℕ → Effect Catalog Text
  insert_disk_group burn_job_id group_size = statement pg λ db.
      let id = pg.uuid db.drawn in
      let g : DiskGroup = record { id = id; burn_job_id = burn_job_id; group_size = group_size } in
      if contains id (group_ids db.disk_groups)
      then (err unique_violation, id_drawn db)
      else (ok id, record db { disk_groups = db.disk_groups ++ g ∷ []; drawn = db.drawn + 1 })

  unfoldable pub next_disk_id : Text → ℕ → Effect Catalog Text
  unfolding count_disks
  next_disk_id prefix already_allocated = do
    count ← statement pg (λ db. (ok (count_disks prefix db.disks), db))
    pure (format_disk_id prefix (count + already_allocated + 1))

  -- The columns `created_at` and `is_dry_run`, and the constraints of schema.sql.
  unfoldable pub insert_disk : Disk → Effect Catalog (Unit {0})
  insert_disk d = statement pg λ db.
      if contains d.id (disk_ids db.disks)
      then (err unique_violation, db)
      else if contains d.media_type (media_names db.media_types) && is_known_group db d.group_id
      then (
        ok tt,
        record db { disks = db.disks ++ record d { created_at = pg.now db.statements } ∷ [] },
      )
      else (err foreign_key_violation, db)

  unfoldable pub get_disk : Text → Effect Catalog Disk
  unfolding find_disk
  get_disk id = do
    row ← statement pg (λ db. (ok (find_disk id db.disks), db))
    elim row [ none ↦ throw (message (codes "disk %s not found") (id ∷ [])) | some d ↦ pure d ]

  unfoldable pub group_members : Text → Effect Catalog (List Disk)
  unfolding select_group
  group_members group_id = statement pg λ db. (ok (select_group group_id db.disks), db)

  unfoldable pub list_dry_run_disks : Effect Catalog (List Disk)
  unfolding select_dry_runs
  list_dry_run_disks = statement pg λ db. (ok (select_dry_runs db.disks), db)

  unfoldable pub delete_dry_run_disc : Text → Effect Catalog (Unit {0})
  delete_dry_run_disc id =
      statement pg (delete_dry_run_files id) >> statement pg (delete_dry_run_disk id)
