-- ===== src/Web/Handlers.antt =====
-- The handlers of internal/web/jobs.go and internal/web/library.go that work on the managers.
use varis.Base.{
  ℕ, Bool, [], ◌∷◌, Option, if◌then◌else◌, Text, codes, text_eq, Error, message, Result, ok, err,
}
use varis.Base.Effect.{Effect}
use varis.Db.{MediaType}
use varis.Os.{Os}
use varis.Burn.Cataloger.{Cataloger}
use varis.Burn.Plan.{Options}
use varis.Burn.Job as BurnJob
use varis.Burn.Disc as BurnDisc
use varis.Burn.Manager as BurnManager
use varis.Retrieve.Catalog.{Catalog}
use varis.Retrieve.Job as RetrieveJob
use varis.Retrieve.Read as RetrieveRead
use varis.Retrieve.Manager as RetrieveManager
use varis.Web.Server.{
  Server, of_burning, of_retrieving, with_burning, with_retrieving, Request, Response, http_error,
  drive_busy, error_fragment, render_jobs, render_retrieve_status, is_not_found, atoi, bad_percent,
  is_bad_percent,
}

-- `r.FormValue(name) == "on"`
abbrev pub is_on : Request → Text → Bool
is_on req name = text_eq (req.value name) (codes "on")

-- An error of `strconv.Atoi` is ignored.
abbrev pub options_of : Request → MediaType → ℕ → Options
options_of req mt percent = record {
  media_type = req.value (codes "media_type");
  capacity_bytes = mt.capacity_bytes;
  parity_percent = percent;
  compress = is_on req (codes "compress");
  cross_disc_parity = is_on req (codes "cross_disc_parity");
  group_size = (atoi (req.value (codes "group_size"))).0;
  dry_run = is_on req (codes "dry_run");
  id_prefix = mt.id_prefix;
  write_kind = mt.write_kind;
  target_path = req.value (codes "target_path");
}

-- `errors.Is(err, db.ErrNotFound)` chooses the status.
abbrev pub start_status : Error → ℕ
start_status e = if is_not_found e then 404 else 409

module _ (cat : Cataloger) (os : Os cat.State) (burn_dirs : BurnDisc.Dirs)
    (catalog : Catalog cat.State) (retrieve_dirs : RetrieveRead.Dirs)
    (get_media_type : Text → Effect cat.State MediaType) where
  -- What follows a call of the burning manager.
  abbrev pub answer_jobs :
      Server cat.State → Result (Unit {0}) × BurnJob.Manager cat.State → Response × Server cat.State
  answer_jobs s (ok _, m) = (render_jobs m.job, with_burning s m)
  answer_jobs s (err e, m) = (error_fragment e, with_burning s m)

  abbrev pub start_with :
      Request → Server cat.State → ℕ × Option Error → MediaType → Response × Server cat.State
  start_with req s percent mt =
      if is_bad_percent percent
      then (bad_percent, s)
      else answer_jobs s
          (BurnManager.start cat os burn_dirs (options_of req mt percent.0) (of_burning s))

  abbrev pub with_media_type :
      Request → Server cat.State → Result MediaType × cat.State → Response × Server cat.State
  with_media_type req s (err e, w) = (http_error 400 e, record s { world = w })
  with_media_type req s (ok mt, w) =
      start_with req (record s { world = w }) (atoi (req.value (codes "parity_percent"))) mt

  abbrev pub start_parsed :
      Result (Unit {0}) → Request → Server cat.State → Response × Server cat.State
  start_parsed (err e) req s = (http_error 400 e, s)
  start_parsed (ok _) req s =
      if RetrieveJob.is_in_progress s.retrieve_job
      then (drive_busy (RetrieveJob.state_text s.retrieve_job), s)
      else with_media_type req s (get_media_type (req.value (codes "media_type")) s.world)

  unfoldable pub start_burn : Request → Server cat.State → Response × Server cat.State
  start_burn req s = start_parsed req.parsed req s

  unfoldable pub jobs_fragment : Server cat.State → Response × Server cat.State
  jobs_fragment s = (render_jobs s.burn_job, s)

  unfoldable pub continue_disc : Server cat.State → Response × Server cat.State
  continue_disc s = answer_jobs s (BurnManager.continue_next_disc cat os burn_dirs (of_burning s))

  unfoldable pub retry_disc : Server cat.State → Response × Server cat.State
  retry_disc s = answer_jobs s (BurnManager.retry cat os burn_dirs (of_burning s))

  -- `renderRetrieveStatus`
  abbrev pub render_status : RetrieveJob.Manager cat.State → Response
  render_status m = render_retrieve_status m.job (RetrieveManager.still_needed m)

  -- What follows a call of the retrieving manager: its error is shown with the status, or is the
  -- status.
  abbrev pub answer_status :
      Server cat.State
      → Result (Unit {0}) × RetrieveJob.Manager cat.State
      → Response × Server cat.State
  answer_status s (r, m) = (render_status m, with_retrieving s m)

  abbrev pub answer_or_refuse :
      (Error → ℕ)
      → Server cat.State
      → Result (Unit {0}) × RetrieveJob.Manager cat.State
      → Response × Server cat.State
  answer_or_refuse status s (err e, m) = (http_error (status e) e, with_retrieving s m)
  answer_or_refuse status s (ok _, m) = (render_status m, with_retrieving s m)

  abbrev pub retrieve_parsed :
      Result (Unit {0}) → Request → Server cat.State → Response × Server cat.State
  retrieve_parsed (err e) req s = (http_error 400 e, s)
  retrieve_parsed (ok _) req s =
      if BurnJob.is_in_progress s.burn_job
      then (
        http_error 409 (
            message (codes "drive busy: a burn is in progress (%s)")
              (BurnJob.state_text s.burn_job ∷ [])),
        s,
      )
      else answer_or_refuse start_status s (
          RetrieveManager.start catalog os retrieve_dirs (req.value (codes "file_id"))
            (of_retrieving s))

  unfoldable pub start_retrieve : Request → Server cat.State → Response × Server cat.State
  start_retrieve req s = retrieve_parsed req.parsed req s

  unfoldable pub read_disk : Request → Server cat.State → Response × Server cat.State
  read_disk req s = answer_status s (
      RetrieveManager.read_disk catalog os retrieve_dirs (req.value (codes "target_path"))
        (of_retrieving s))

  unfoldable pub start_reconstruction : Server cat.State → Response × Server cat.State
  start_reconstruction s =
      answer_or_refuse (λ _. 409) s
        (RetrieveManager.start_reconstruction catalog os retrieve_dirs (of_retrieving s))

  abbrev pub reconstruct_parsed :
      Result (Unit {0}) → Request → Server cat.State → Response × Server cat.State
  reconstruct_parsed (err e) req s = (http_error 400 e, s)
  reconstruct_parsed (ok _) req s = answer_status s (
      RetrieveManager.read_reconstruction_disc catalog os retrieve_dirs
        (req.value (codes "disk_id")) (req.value (codes "target_path")) (of_retrieving s))

  unfoldable pub read_reconstruction_disc : Request → Server cat.State → Response × Server cat.State
  read_reconstruction_disc req s = reconstruct_parsed req.parsed req s
