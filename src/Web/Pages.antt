-- ===== src/Web/Pages.antt =====
-- The handlers of internal/web that work on the catalog and the directories.
use varis.Base.{
  ℕ, Bool, true, false, not, ◌&&◌, ◌||◌, List, [], ◌∷◌, ◌++◌, Option, none, some, leb, ◌==◌,
  if◌then◌else◌, Text, codes, text_eq, Error, Result, ok, err, is_negative64,
}
use varis.Base.Effect.{lift, for_each}
use varis.Web.Scanned.{resolve_selected_paths, staged_file_groups}
use varis.Os.{Os}
use varis.Db.{Catalog, Postgres, MediaType, WriteKind, optical, filesystem, Disk}
use varis.Db.Disks.{list_dry_run_disks, delete_dry_run_disc}
use varis.Db.Files.{upsert_staged_metadata}
use varis.Db.MediaTypes.{list_media_types, add_media_type}
use varis.Web.Staging.{StagedFolderGroup, parse_tags}
use varis.Web.Server.{Request, atoi}
use varis.Web.Answer.{Handler, answer, refuse, ◌>>=◌, ◌>>◌, or_status, on_machine, on_catalog}

-- `strings.ContainsAny(s, "/\\")`
unfoldable pub contains_separator : Text → Bool
contains_separator [] = false
contains_separator (c ∷ s) = (c == b'/' || c == b'\\') || contains_separator s

abbrev is_alphanumeric : ℕ → Bool
is_alphanumeric c =
    (leb b'A' c && leb c b'Z') || ((leb b'a' c && leb c b'z') || (leb b'0' c && leb c b'9'))

unfoldable pub all_alphanumeric : Text → Bool
all_alphanumeric [] = true
all_alphanumeric (c ∷ s) = is_alphanumeric c && all_alphanumeric s

-- `^[A-Za-z0-9]+$`
abbrev pub matches_id_prefix : Text → Bool
matches_id_prefix s = not (text_eq s []) && all_alphanumeric s

abbrev pub write_kind_of : Text → Option WriteKind
write_kind_of s =
    if text_eq s (codes "optical")
    then some optical
    else (if text_eq s (codes "filesystem") then some filesystem else none)

-- `err != nil || capacity <= 0`
abbrev pub is_bad_capacity : ℕ × Option Error → Bool
is_bad_capacity (capacity, some e) = true
is_bad_capacity (capacity, none) = is_negative64 capacity || capacity == 0

module _ {M : Type 0} (os : Os M) (pg : Postgres) (staging_dir dry_run_dir : Text) where
  -- `renderStagingFiles`
  unfoldable pub render_staging_files : Handler (M × Catalog) (List StagedFolderGroup)
  render_staging_files = or_status 500 (staged_file_groups os pg staging_dir)

  unfoldable pub apply_metadata :
      (Text → Text) → Request → Handler (M × Catalog) (List StagedFolderGroup)
  apply_metadata trim req = do
    or_status 400 (lift req.parsed)
    paths ← or_status 500 (resolve_selected_paths os pg staging_dir (req.values (codes "path")))
    or_status 500 (
        on_catalog (
          for_each
            (λ p.
              upsert_staged_metadata pg p (parse_tags trim (req.value (codes "tags")))
                (req.value (codes "description")))
            paths))
    render_staging_files

  -- A dry run's file, and its rows; a file that is not there is no error.
  abbrev pub iso_path : Text → Text
  iso_path disk_id = os.join dry_run_dir (disk_id ++ codes ".iso")

  abbrev pub unless_absent :
      (Error → Bool) → Result (Unit {0}) × (M × Catalog) → Result (Unit {0}) × (M × Catalog)
  unless_absent is_not_exist (ok _, s) = (ok tt, s)
  unless_absent is_not_exist (err e, s) = ((if is_not_exist e then ok tt else err e), s)

  -- `is_not_exist` is `os.IsNotExist`.
  unfoldable pub delete_dry_run : (Error → Bool) → Request → Handler (M × Catalog) Text
  delete_dry_run is_not_exist req = do
    or_status 400 (lift req.parsed)
    if text_eq (req.value (codes "disk_id")) [] || contains_separator (req.value (codes "disk_id"))
        then refuse 400 (codes "invalid disk_id")
        else answer tt
    or_status 500 (λ s.
        unless_absent is_not_exist
          (on_machine (os.remove (iso_path (req.value (codes "disk_id")))) s))
    or_status 500 (on_catalog (delete_dry_run_disc pg (req.value (codes "disk_id"))))
    answer (codes "/dryruns")

  unfoldable pub dry_runs_page : Handler (M × Catalog) (List Disk)
  dry_runs_page = or_status 500 (on_catalog (list_dry_run_disks pg))

  unfoldable pub config_page : Handler (M × Catalog) (List MediaType)
  config_page = or_status 500 (on_catalog (list_media_types pg))

  abbrev pub with_write_kind : Option WriteKind → Handler (M × Catalog) WriteKind
  with_write_kind none = refuse 400 (codes "write_kind must be \"optical\" or \"filesystem\"")
  with_write_kind (some kind) = answer kind

  abbrev pub check_capacity : Request → Handler (M × Catalog) (Unit {0})
  check_capacity req =
      if is_bad_capacity (atoi (req.value (codes "capacity_bytes")))
      then refuse 400 (codes "invalid capacity_bytes")
      else answer tt

  abbrev pub check_id_prefix : Request → Handler (M × Catalog) (Unit {0})
  check_id_prefix req =
      if matches_id_prefix (req.value (codes "id_prefix"))
      then answer tt
      else refuse 400 (codes "id_prefix is required and must contain only letters and digits")

  abbrev pub media_type_of : Request → WriteKind → MediaType
  media_type_of req kind = record {
    name = req.value (codes "name");
    capacity_bytes = (atoi (req.value (codes "capacity_bytes"))).0;
    id_prefix = req.value (codes "id_prefix");
    write_kind = kind;
  }

  abbrev pub add_row : Request → WriteKind → Handler (M × Catalog) Text
  add_row req kind = do
    or_status 500 (on_catalog (add_media_type pg (media_type_of req kind)))
    answer (codes "/config")

  -- The handler behind the check of the capacity.
  abbrev pub add_checked : Request → Handler (M × Catalog) Text
  add_checked req = do
    kind ← with_write_kind (write_kind_of (req.value (codes "write_kind")))
    check_id_prefix req
    add_row req kind

  unfoldable pub add_media_type_page : Request → Handler (M × Catalog) Text
  add_media_type_page req = do or_status 400 (lift req.parsed); check_capacity req; add_checked req
