-- ===== src/Web/Front.antt =====
-- The pages of internal/web/dashboard.go, library.go and cover.go that only show something.
use varis.Base.{
  ℕ, List, [], ◌++◌, Option, none, some, if◌then◌else◌, Text, codes, text_eq, Error, Result, ok,
  err,
}
use varis.Base.Effect.{lift}
use varis.Os.{Os}
use varis.Db.{Catalog, Postgres, Disk, FileRecord, MediaType}
use varis.Db.Disks.{get_disk}
use varis.Db.MediaTypes.{list_media_types}
use varis.Db.Search.{TextSearch, search_files}
use varis.Burn.Job as BurnJob
use varis.Webdav.Size.{dir_size}
use varis.Web.Staging.{StagedFolderGroup}
use varis.Web.Scanned.{staged_file_groups}
use varis.Web.Server.{JobView, view_of_job}
use varis.Web.Answer.{Handler, answer, ◌>>=◌, or_status, on_machine, on_catalog}

pub record DashboardData : Type 0 where
  pub staged_bytes : ℕ
  pub staged_files : List StagedFolderGroup
  pub media_types : List MediaType
  pub job : Option JobView
  pub mount_url : Text

pub record CoverData : Type 0 where
  pub disk : Disk
  pub qr_data_uri : Text

-- `qrcode.Encode` of a text, at level Medium and 256 pixels, and `base64.StdEncoding`.
pub record Printer : Type 0 where
  pub encode_qr : Text → Result Text
  pub base64 : Text → Text

-- `currentJobView`; no value stands for its panic.
abbrev viewed : Option JobView → Option (Option JobView)
viewed none = none
viewed (some view) = some (some view)

unfoldable pub current_job_view : Option BurnJob.Job → Option (Option JobView)
unfolding view_of_job
current_job_view none = some none
current_job_view (some job) = viewed (view_of_job job)

-- `(int64, error)` of `DirSize`
abbrev pub size_or_error : {S : Type 0} → (ℕ × Option Error) × S → Result ℕ × S
size_or_error ((total, none), s) = (ok total, s)
size_or_error ((total, some e), s) = (err e, s)

abbrev pub dashboard_data :
    ℕ
    → List StagedFolderGroup
    → List MediaType
    → Text
    → Option (Option JobView)
    → Option DashboardData
dashboard_data staged groups types host none = none
dashboard_data staged groups types host (some job) = some (record {
  staged_bytes = staged;
  staged_files = groups;
  media_types = types;
  job = job;
  mount_url = codes "http://" ++ (host ++ codes "/webdav/");
})

module _ {M : Type 0} (os : Os M) (pg : Postgres) (staging_dir : Text) where
  -- No data stands for a panic of the job's view.
  unfoldable pub dashboard :
      Option BurnJob.Job → Text → Handler (M × Catalog) (Option DashboardData)
  unfolding current_job_view
  dashboard job host = do
    staged ← or_status 500 (on_machine (λ w. size_or_error (dir_size os staging_dir w)))
    groups ← or_status 500 (staged_file_groups os pg staging_dir)
    types ← or_status 500 (on_catalog (list_media_types pg))
    answer (dashboard_data staged groups types host (current_job_view job))

unfoldable pub library : {S : Type 0} → Handler S (List FileRecord)
library = answer []

unfoldable pub search :
    {M : Type 0} → Postgres → TextSearch → Text → Handler (M × Catalog) (List FileRecord)
search pg ts q =
    if text_eq q [] then answer [] else or_status 500 (on_catalog (search_files pg ts q))

unfoldable pub cover : {M : Type 0} → Postgres → Printer → Text → Handler (M × Catalog) CoverData
cover pg printer disk_id = do
  disk ← or_status 404 (on_catalog (get_disk pg disk_id))
  png ← or_status 500 (lift (printer.encode_qr (codes "archive://disk/" ++ disk_id)))
  answer
      (record { disk = disk; qr_data_uri = codes "data:image/png;base64," ++ printer.base64 png })
