-- ===== src/Tests/Serving.antt =====
-- Requests to the pages.
use varis.Base.{
  false, ◌⊎◌, ℕ, ◌≡◌, refl, true, List, [], ◌∷◌, none, some, if◌then◌else◌, Text, codes, text_eq,
  contains, Result, ok, All,
}
use varis.Base.Dict.{Dict, lookup}
use varis.Base.Effect.{pure}
use varis.Base.Sorting.{Ascending}
use varis.Db.{MediaType, StagedMetadata, optical}
use varis.Binpack.{FileInfo}
use varis.Binpack.Scan.{scan_staging}
use varis.Burn.Job as BurnJob
use varis.Burn.Manager.Idle.{call_start, call_continue, call_retry, after_calls, new_manager}
use varis.Retrieve.Job as RetrieveJob
use varis.Web.Staging.{ends_in_slash, selected_paths, group_staged_files, parse_tags}
use varis.Web.Grouping.{Shows, group_staged_files-Shows}
use varis.Web.Selection.{is_wanted, contains-selected_paths}
use varis.Web.Server.{Server, Request, render_jobs}
use varis.Web.Drive.{visit_retry, handle, retry_disc_two_jobs}
use varis.Web.Views.{IsPageOf, after_calls-IsPageOf}
use varis.Web.Pages.{apply_metadata, add_media_type_page}
use varis.Web.Applied.{tags_or_none, lookup-apply_metadata}
use varis.Db.DryRuns.{IsReal}
use varis.Web.Guarded.{is_unsafe, delete_dry_run_guarded}
use varis.Web.Pages.{delete_dry_run}
use varis.Web.Fitting.{IsFit, add_media_type_page-IsFit}
use varis.Tests.Planning.{server, empty_catalog}
use varis.Tests.Burning.{machine, dirs, options, memory, job}
use varis.Tests.Retrieving.{library, places}

abbrev files : List FileInfo
files =
    record { path = codes "b/x"; size = 1 }
    ∷ record { path = codes "a/y"; size = 2 }
    ∷ record { path = codes "z"; size = 3 }
    ∷ []

abbrev described : Dict StagedMetadata
described = (codes "z", record { tags = codes "t" ∷ []; description = codes "d" }) ∷ []

group_staged_files_example : Shows described files (group_staged_files files described)
group_staged_files_example = group_staged_files-Shows described files

contains-selected_paths_example :
    Ascending (selected_paths (codes "a/" ∷ codes "q" ∷ []) files)
    × ((path : Text)
        → contains path (selected_paths (codes "a/" ∷ codes "q" ∷ []) files)
          ≡ is_wanted (codes "a/" ∷ codes "q" ∷ []) files path)
contains-selected_paths_example = contains-selected_paths (codes "a/" ∷ codes "q" ∷ []) files

abbrev form : Request
form = record {
  parsed = ok tt;
  value = λ name. if text_eq name (codes "parity_percent") then codes "10" else codes "a";
  values = λ _. codes "a" ∷ [];
}

abbrev media : Text → ℕ → Result MediaType × ℕ
media name =
    pure (record { name = name; capacity_bytes = 11; id_prefix = codes "BD"; write_kind = optical })

abbrev failed_burn : BurnJob.Job
failed_burn = record job { state = BurnJob.State.state_failed }

abbrev two_managers : Server ℕ
two_managers = record {
  burn_job = some failed_burn;
  retrieve_job = some (RetrieveJob.new_job (codes "file") (codes "BD:0001") (codes "a"));
  reconstructor = none;
  reconstruction_capacity = 0;
  world = 0;
}

retry_disc_example :
    let after = (handle memory machine dirs library places media visit_retry two_managers).1 in
    (BurnJob.is_in_progress after.burn_job ≡ true)
    × (RetrieveJob.is_in_progress after.retrieve_job ≡ true)
retry_disc_example =
    retry_disc_two_jobs memory machine dirs library places media two_managers failed_burn refl refl
      refl

after_calls-IsPageOf_example :
    let calls = call_start options ∷ call_continue ∷ call_retry ∷ [] in
    let now = (after_calls memory machine dirs calls (new_manager memory machine dirs 0)).job in
    IsPageOf now (render_jobs now)
after_calls-IsPageOf_example =
    after_calls-IsPageOf memory machine dirs (call_start options ∷ call_continue ∷ call_retry ∷ [])
      0

abbrev trimmed : Text → Text
trimmed s = s

lookup-apply_metadata_example :
    lookup
      (codes "a")
      (apply_metadata {M = ℕ} machine server
        (codes "/staging")
        (codes "/dryrun")
        trimmed
        form
        (5, empty_catalog)).1.1.staged_metadata
    ≡ some
        (record { tags = tags_or_none (parse_tags trimmed (codes "a")); description = codes "a" })
unfolding contains text_eq scan_staging apply_metadata lookup ends_in_slash
lookup-apply_metadata_example =
    lookup-apply_metadata machine server (codes "/staging") (codes "/dryrun") trimmed form 5 5
      empty_catalog (record { path = codes "a"; size = 6 } ∷ []) (λ n. refl) refl refl (codes "a")

add_media_type_page_example :
    All IsFit
      (add_media_type_page {M = ℕ} machine server
        (codes "/staging")
        (codes "/dryrun")
        form
        (5, empty_catalog)).1.1.media_types
add_media_type_page_example =
    add_media_type_page-IsFit machine server (codes "/staging") (codes "/dryrun") form 5
      empty_catalog tt

delete_dry_run_guarded_example :
    let r =
      delete_dry_run {M = ℕ} machine server
        (codes "/staging")
        (codes "/dryrun")
        (λ _. false)
        form
        (5, empty_catalog) in
    (((form.parsed ≡ ok tt) × (is_unsafe (codes "a") ≡ false)) ⊎ (r.1 ≡ (5, empty_catalog)))
    × (IsReal (codes "a") empty_catalog.disks
        → (r.1.1.disks ≡ empty_catalog.disks) × (r.1.1.files ≡ empty_catalog.files))
unfolding text_eq
delete_dry_run_guarded_example =
    delete_dry_run_guarded machine server (codes "/staging") (codes "/dryrun") (λ _. false) form 5
      empty_catalog
