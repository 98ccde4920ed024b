-- ===== src/Main/Shown.antt =====
-- The pages of internal/web that only show something leave the catalog's tables alone.
use varis.Base.{
  inl, inr, Bool-cases, [], ◌∷◌, ◌++◌, Option, none, some, Text, codes, text_eq, message, ok, take,
}
use varis.Base.Effect.{Effect, lift, pure, throw}
use varis.Os.{Os}
use varis.Burn.Job as BurnJob
use varis.Db.{Catalog, Postgres, Disk}
use varis.Db.Disks.{find_disk, get_disk, list_dry_run_disks, select_dry_runs}
use varis.Db.Files.{list_staged_metadata}
use varis.Db.MediaTypes.{list_media_types, order_by_capacity}
use varis.Db.Search.{TextSearch, row_limit, search_files, join_files, select_matching, sort_ranked}
use varis.Binpack.Scan.{scan_staging}
use varis.Webdav.Size.{dir_size}
use varis.Web.Scanned.{staged_file_groups}
use varis.Web.Answer.{on_machine, on_catalog}
use varis.Web.Pages.{config_page, dry_runs_page}
use varis.Web.Front.{Printer, dashboard, search, cover, size_or_error}
use varis.Web.Reading.{
  return-Reads, proceed-Queries, return-Queries, Queries, statement-Queries, Reads, Shows,
  on_machine-Reads, on_catalog-Reads, proceed-Reads, answer-Shows, or_status-Shows, go_on-Shows,
}

module _ {M : Type 0} (os : Os M) (pg : Postgres) (staging_dir : Text) where
  pub staged_file_groups-Reads : Reads M (staged_file_groups os pg staging_dir)
  unfolding staged_file_groups list_staged_metadata
  staged_file_groups-Reads =
      proceed-Reads M (on_machine (scan_staging os staging_dir)) _ (on_machine-Reads M _) (λ files.
        proceed-Reads M (on_catalog (list_staged_metadata pg)) _
          (on_catalog-Reads M _ (statement-Queries pg (λ db. ok db.staged_metadata)))
          (λ meta. return-Reads M _))

  types-Reads : Reads M (on_catalog (list_media_types pg))
  unfolding list_media_types
  types-Reads =
      on_catalog-Reads M _ (statement-Queries pg (λ db. ok (order_by_capacity db.media_types)))

  pub dashboard-Shows :
      (job : Option BurnJob.Job) (host : Text) → Shows M (dashboard os pg staging_dir job host)
  unfolding dashboard
  dashboard-Shows job host =
      go_on-Shows M _ _
        (or_status-Shows M 500 (on_machine (λ w. size_or_error (dir_size os staging_dir w)))
          (on_machine-Reads M _))
        (λ staged.
          go_on-Shows M _ _
            (or_status-Shows M 500 (staged_file_groups os pg staging_dir) staged_file_groups-Reads)
            (λ groups.
              go_on-Shows M _ _
                (or_status-Shows M 500 (on_catalog (list_media_types pg)) types-Reads)
                (λ types. answer-Shows M _)))

module _ (M : Type 0) (os : Os M) (pg : Postgres) where
  pub search-Shows : (ts : TextSearch) (q : Text) → Shows M (search pg ts q)
  unfolding search search_files
  search-Shows ts q = elim (Bool-cases (text_eq q [])) [
    | inl empty ↦ rw empty (answer-Shows M [])
    | inr some_text ↦ rw some_text (
        or_status-Shows M 500 (on_catalog (search_files pg ts q)) (
          on_catalog-Reads M _ (
            statement-Queries pg λ db. ok (
              take row_limit
                (sort_ranked ts q (select_matching ts q (join_files db.files db.disks)))))))
  ]

  pub cover-Shows : (printer : Printer) (disk_id : Text) → Shows M (cover pg printer disk_id)
  unfolding cover get_disk
  cover-Shows printer disk_id =
      go_on-Shows M _ _
        (or_status-Shows M 404 (on_catalog (get_disk pg disk_id)) (
          on_catalog-Reads M _ (
            proceed-Queries _ _ (statement-Queries pg (λ db. ok (find_disk disk_id db.disks)))
              found)))
        (λ disk.
          go_on-Shows M _ _
            (or_status-Shows M 500 (lift (printer.encode_qr (codes "archive://disk/" ++ disk_id)))
              (return-Reads M _))
            (λ png. answer-Shows M _))
    where
      found :
          (row : Option Disk)
          → Queries (elim row as (λ _. Effect Catalog Disk) [
            | none ↦ throw (message (codes "disk %s not found") (disk_id ∷ []))
            | some d ↦ pure d
          ])
      found none = return-Queries _
      found (some d) = return-Queries _

  pub config_page-Shows :
      (staging_dir dry_run_dir : Text) → Shows M (config_page os pg staging_dir dry_run_dir)
  unfolding config_page
  config_page-Shows staging_dir dry_run_dir =
      or_status-Shows M 500 (on_catalog (list_media_types pg)) (types-Reads os pg staging_dir)

  pub dry_runs_page-Shows :
      (staging_dir dry_run_dir : Text) → Shows M (dry_runs_page os pg staging_dir dry_run_dir)
  unfolding dry_runs_page list_dry_run_disks
  dry_runs_page-Shows staging_dir dry_run_dir =
      or_status-Shows M 500 (on_catalog (list_dry_run_disks pg))
        (on_catalog-Reads M _ (statement-Queries pg (λ db. ok (select_dry_runs db.disks))))
