-- ===== src/Tests/Running.antt =====
-- Runs of the whole program, of a search, and of a reconstruction.
use varis.Base.{
  ℕ, ◌+◌, ◌≡◌, inl, refl, ap, false, List, [], ◌∷◌, none, some, arith, if◌then◌else◌, Text, codes,
  text_eq, contains, ok, length,
}
use varis.Base.Effect.{pure}
use varis.Xordisk.{xor_disks}
use varis.Xordisk.Recovery.{pad}
use varis.Os.{Os}
use varis.Db.{Catalog, FileRecord, counted}
use varis.Db.Disks.{has_prefix}
use varis.Db.Search.{TextSearch, search_files}
use varis.Db.Best.{IsBest, search_files-IsBest}
use varis.Db.{MediaType, optical}
use varis.Config.{load}
use varis.Binpack.{FileInfo}
use varis.Binpack.Scan.{scan_staging}
use varis.Burn.Reconstruct.{Reconstructor}
use varis.Retrieve.Job.{in_state, reconstructing, state_reading_reconstruction_disc}
use varis.Retrieve.Fetch.{read_image}
use varis.Burn.Tools.{read_raw_image}
use varis.Burn.Reconstruct.Supplies.{without}
use varis.Retrieve.Manager.{read_folded}
use varis.Retrieve.Manager.Recover.{behind_fold, reconstruct_by, reconstruct_by-recovers}
use varis.Web.Front.{DashboardData, dashboard, current_job_view}
use varis.Web.Adding.{IsDashboardOf, dashboard-IsDashboardOf}
use varis.Web.Answer.{goes}
use varis.Web.Drive.{HasOneJob}
use varis.Main.{machine_of, cataloger_of, Program, program, new_server}
use varis.Main.Serve.{HttpRequest, Libraries, serve}
use varis.Main.Reads.{Unchanged, serve-Unchanged}
use varis.Main.OneJob.{after_requests, after_requests-HasOneJob}
use varis.Burn.Plan.{DiscPlan, data_plan}
use varis.Burn.Disc.{commit_disc}
use varis.Main.Commit.{Committed, commit_disc-Committed}
use varis.Tests.Planning.{server, empty_catalog, server-IsHealthy}
use varis.Tests.Burning.{machine, dirs, options}
use varis.Tests.Rebuilding.{first, third, burned}
use varis.Tests.Retrieving.{group_library, places, lost, damaged, needing}

abbrev by_prefix : TextSearch
by_prefix = record {
  contains_like = λ text q. has_prefix q text;
  similarity = λ text q. length text;
}

abbrev row : Text → Text → FileRecord
row id path = record {
  id = id;
  disk_id = first.id;
  original_path = path;
  size_bytes = 1;
  file_hash = [];
  tags = some (codes "t" ∷ codes "u" ∷ []);
  description = [];
  disk_is_dry_run = false;
}

abbrev archive : Catalog
archive = record empty_catalog {
  disks = first ∷ [];
  files =
      row (codes "1") (codes "ab")
      ∷ row (codes "2") (codes "abc")
      ∷ row (codes "3") (codes "q")
      ∷ [];
}

search_files-IsBest_example :
    (rows : List FileRecord) × (search_files server by_prefix (codes "a") archive
      ≡ (ok rows, counted archive))
    × IsBest by_prefix (codes "a") archive rows
search_files-IsBest_example = search_files-IsBest server by_prefix (codes "a") archive refl

abbrev bd_r : MediaType
bd_r = record {
  name = codes "BD-R";
  capacity_bytes = 4;
  id_prefix = codes "BD";
  write_kind = optical;
}

abbrev running : Program
running = program (codes "/tmp") (load (λ _. []))

abbrev libraries : Libraries ℕ
libraries = record {
  text_search = by_prefix;
  printer = record { encode_qr = λ text. ok text; base64 = λ text. text };
  trim = λ text. text;
  is_not_exist = λ _. false;
  mount = λ _ _ w. ([], w + 1);
}

abbrev request : Text → Text → HttpRequest
request method path = record {
  method = method;
  path = path;
  host = codes "varis";
  query = λ _. codes "a";
  form = record { parsed = ok tt; value = λ _. codes "10"; values = λ _. [] };
}

serve-Unchanged_example :
    Unchanged
      (new_server (5, archive))
      (serve machine server libraries running
        (request (codes "GET") (codes "/search"))
        (new_server (5, archive))).1
serve-Unchanged_example =
    serve-Unchanged machine server libraries running (request (codes "GET") (codes "/search"))
      (new_server (5, archive)) (inl refl)

after_requests-HasOneJob_example : HasOneJob (
    after_requests machine server libraries running
      (request (codes "POST") (codes "/retrieve")
        ∷ request (codes "POST") (codes "/burn")
        ∷ request (codes "POST") (codes "/jobs/continue")
        ∷ [])
      (new_server (5, archive)))
unfolding text_eq
after_requests-HasOneJob_example =
    after_requests-HasOneJob machine server libraries running
      (request (codes "POST") (codes "/retrieve")
        ∷ request (codes "POST") (codes "/burn")
        ∷ request (codes "POST") (codes "/jobs/continue")
        ∷ [])
      (5, archive) (refl, (refl, (refl, tt)))

abbrev staged : List FileInfo
staged = record { path = codes "a"; size = 6 } ∷ []

dashboard-IsDashboardOf_example :
    (shown : DashboardData) × (after : ℕ × Catalog) × (dashboard {M = ℕ} machine server
        (codes "/staging")
        none
        (codes "varis")
        (5, archive)
      ≡ (goes (some shown), after))
    × IsDashboardOf {M = ℕ} machine server
        (codes "/staging")
        staged
        archive
        none
        (codes "varis")
        shown
unfolding scan_staging current_job_view
dashboard-IsDashboardOf_example =
    dashboard-IsDashboardOf machine server (codes "/staging") none none (codes "varis") 5 archive
      staged (λ n. refl) refl refl

-- The drive gives the first disc, and of the parity disc what is inside.
abbrev drive : Os ℕ
drive = record machine {
  read_file = λ path.
      pure (if text_eq path (codes "/tmp/BD:0001.img") then 1 ∷ 2 ∷ [] else 8 ∷ 10 ∷ 7 ∷ []);
}

reconstruct_by_example :
    (s : Reconstructor) × (reconstruct_by group_library drive places
        (first ∷ [])
        []
        lost
        third
        burned
        4
        ((first.id, codes "/dev/sr0") ∷ [])
        third.id
        (codes "/dev/sr0")
        needing
      ≡ read_folded group_library drive places
          (in_state state_reading_reconstruction_disc (reconstructing damaged))
          (some (9 ∷ 8 ∷ 7 ∷ 0 ∷ []))
          (behind_fold group_library drive places (first ∷ []) [] lost third burned 4 damaged s 0))
unfolding text_eq contains pad xor_disks read_image read_raw_image without
reconstruct_by_example =
    reconstruct_by-recovers group_library drive places (first ∷ []) [] lost third burned 4 needing
      damaged ((first.id, codes "/dev/sr0") ∷ []) third.id (codes "/dev/sr0") 0 0 0 refl refl refl
      (record {
        group_id = codes "g";
        first_world = 0;
        second_world = 0;
        row = refl;
        in_group = refl;
        members = refl;
        capacity = refl;
      })
      refl refl (0, (refl, (1 ∷ 2 ∷ [], 0, refl, refl, refl)), refl)
      (refl, (8 ∷ 10 ∷ 7 ∷ [], 0, refl, refl, refl)) (λ e. ground (arith, ap length e)) refl

-- Two files of one disc; the tags of one are in the catalog.
abbrev ready : Catalog
ready = record empty_catalog {
  media_types = bd_r ∷ [];
  staged_metadata = (codes "b", record { tags = codes "t" ∷ []; description = codes "d" }) ∷ [];
}

abbrev two_files : DiscPlan
two_files = data_plan (codes "BD:0001") (record {
  files = record { path = codes "a"; size = 4 } ∷ record { path = codes "b"; size = 4 } ∷ [];
  total_size = 8;
})

commit_disc-Committed_example :
    Committed {M = ℕ} machine server dirs
      (λ _. codes "data")
      options
      two_files
      (codes "h")
      ready
      (commit_disc
        (cataloger_of ℕ server)
        (machine_of machine)
        dirs
        options
        two_files
        (codes "h")
        (5, ready))
unfolding contains text_eq
commit_disc-Committed_example =
    commit_disc-Committed machine server dirs (λ _. codes "data") options two_files (codes "h") 5
      ready (λ n. refl) server-IsHealthy.distinct (λ n h. refl) refl refl refl
      (refl, refl, (refl, refl, tt))
