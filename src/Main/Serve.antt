-- ===== src/Main/Serve.antt =====
-- A request to the server of cmd/archive-core/main.go, through its route to the answer.
use varis.Base.{ℕ, Bool, List, [], Option, Text, codes, Error, message}
use varis.Base.Dict.{Dict}
use varis.Base.Effect.{Effect}
use varis.Os.{Os}
use varis.Db.{Catalog, Disk, FileRecord, MediaType, Postgres}
use varis.Db.MediaTypes.{get_media_type}
use varis.Db.Search.{TextSearch}
use varis.Web.Staging.{StagedFolderGroup}
use varis.Web.Answer.{Attempt, goes, stops, Handler, on_catalog}
use varis.Web.Server.{Server, Request, Response}
use varis.Web.Pages as Pages
use varis.Web.Front as Front
use varis.Web.Front.{DashboardData, CoverData, Printer}
use varis.Web.Drive.{
  Visit, visit_start_burn, visit_start_retrieve, visit_read_disk, visit_read_reconstruction_disc,
  visit_jobs, visit_continue, visit_retry, visit_start_reconstruction, handle,
}
use varis.Main.{Program, machine_of, cataloger_of, catalog_of}
use varis.Main.Routes.{Route, Dispatch, entries, dispatch}

pub record HttpRequest : Type 0 where
  pub method : Text
  pub path : Text
  pub host : Text
  pub query : Text → Text
  pub form : Request

-- What is answered: an error with its status, data for a template, a redirect, or a plain text. No
-- data of the dashboard stands for a panic.
pub data Page : Type 0 where
  status_page : ℕ → Error → Page
  job_page : Response → Page
  dashboard_page : Option DashboardData → Page
  library_page search_rows : List FileRecord → Page
  cover_page : CoverData → Page
  staging_files : List StagedFolderGroup → Page
  dry_runs_page : List Disk → Page
  config_page : List MediaType → Page
  see_other plain_text : Text → Page

abbrev pub page_of_attempt : {A : Type 0} → (A → Page) → Attempt A → Page
page_of_attempt show (goes a) = show a
page_of_attempt show (stops status e) = status_page status e

abbrev pub page_of_response : {S : Type 0} → Response × S → Page × S
page_of_response (r, s) = (job_page r, s)

-- The libraries that the pages use: `trim` is `strings.TrimSpace`, `is_not_exist` `os.IsNotExist`,
-- and `mount` the WebDAV handler over the categories and their directories.
pub record Libraries (M : Type 0) : Type 0 where
  pub text_search : TextSearch
  pub printer : Printer
  pub trim : Text → Text
  pub is_not_exist : Error → Bool
  pub mount : Dict Text → HttpRequest → M → Text × M

module _ {M : Type 0} (os : Os M) (pg : Postgres) (lib : Libraries M) (p : Program) where
  abbrev pub State : Type 0
  State = Server (M × Catalog)

  -- A handler of the catalog and the directories.
  abbrev pub on_page : {A : Type 0} → (A → Page) → Handler (M × Catalog) A → State → Page × State
  on_page show handler s =
      let r = handler s.world in (page_of_attempt show r.0, record s { world = r.1 })

  abbrev pub look_up : Text → Effect (M × Catalog) MediaType
  look_up name = on_catalog (get_media_type pg name)

  abbrev pub mounted : HttpRequest → State → Page × State
  mounted req s =
      let r = lib.mount p.mounted req s.world.0 in
      (plain_text r.0, record s { world = (r.1, s.world.1) })

  -- A handler that works on the managers.
  abbrev pub on_jobs : Visit → State → Page × State
  on_jobs visit s = page_of_response (
      handle (cataloger_of M pg) (machine_of os) p.burn_dirs (catalog_of M pg) p.retrieve_dirs
        look_up visit s)

  unfoldable pub serve_route : Route → HttpRequest → State → Page × State
  serve_route Route.health req s = (plain_text (codes "ok"), s)
  serve_route Route.webdav req s = mounted req s
  serve_route Route.dashboard req s =
      on_page dashboard_page (Front.dashboard os pg p.staging_dir s.burn_job req.host) s
  serve_route Route.burn req s = on_jobs (visit_start_burn req.form) s
  serve_route Route.metadata req s =
      on_page staging_files
        (Pages.apply_metadata os pg p.staging_dir p.dry_run_dir lib.trim req.form) s
  serve_route Route.jobs req s = on_jobs visit_jobs s
  serve_route Route.continue req s = on_jobs visit_continue s
  serve_route Route.retry req s = on_jobs visit_retry s
  serve_route Route.library req s = on_page library_page Front.library s
  serve_route Route.search req s =
      on_page search_rows (Front.search pg lib.text_search (req.query (codes "q"))) s
  serve_route Route.retrieve req s = on_jobs (visit_start_retrieve req.form) s
  serve_route Route.read req s = on_jobs (visit_read_disk req.form) s
  serve_route Route.reconstruct_start req s = on_jobs visit_start_reconstruction s
  serve_route Route.reconstruct_read req s = on_jobs (visit_read_reconstruction_disc req.form) s
  serve_route Route.config req s =
      on_page config_page (Pages.config_page os pg p.staging_dir p.dry_run_dir) s
  serve_route Route.add_media_type req s =
      on_page see_other (Pages.add_media_type_page os pg p.staging_dir p.dry_run_dir req.form) s
  serve_route Route.dry_runs req s =
      on_page dry_runs_page (Pages.dry_runs_page os pg p.staging_dir p.dry_run_dir) s
  serve_route Route.delete_dry_run req s =
      on_page see_other
        (Pages.delete_dry_run os pg p.staging_dir p.dry_run_dir lib.is_not_exist req.form) s
  serve_route (Route.cover disk_id) req s =
      on_page cover_page (Front.cover pg lib.printer disk_id) s

  abbrev pub serve_dispatch : Dispatch → HttpRequest → State → Page × State
  serve_dispatch (Dispatch.to route) req s = serve_route route req s
  serve_dispatch Dispatch.no_method req s =
      (status_page 405 (message (codes "Method Not Allowed") []), s)
  serve_dispatch Dispatch.no_path req s =
      (status_page 404 (message (codes "404 page not found") []), s)

  unfoldable pub serve : HttpRequest → State → Page × State
  unfolding dispatch serve_route
  serve req s = serve_dispatch (dispatch entries req.method req.path) req s
