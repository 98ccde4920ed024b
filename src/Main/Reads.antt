-- ===== src/Main/Reads.antt =====
-- Requests to read, of cmd/archive-core/main.go and internal/web/server.go, and what they leave as it is.
use varis.Base.{◌≡◌, ◌⊎◌, inl, inr, refl, subst, true, some, Text, codes, text_eq, All, All-imp}
use varis.Os.{Os}
use varis.Db.{Catalog, Postgres}
use varis.Web.Server.{Server}
use varis.Web.Handlers.{jobs_fragment}
use varis.Web.Drive.{handle}
use varis.Web.Answer.{Handler}
use varis.Web.Pages.{config_page, dry_runs_page}
use varis.Web.Front.{dashboard, library, search, cover}
use varis.Web.Reading.{SameTables, same, Shows}
use varis.Main.{Program}
use varis.Main.Routes.{Route, Dispatch, entries, get, post, match_pattern, accepts, dispatch}
use varis.Main.Serve.{HttpRequest, Libraries, serve_route, serve_dispatch, serve}
use varis.Main.Shown.{
  dashboard-Shows, search-Shows, cover-Shows, config_page-Shows, dry_runs_page-Shows,
}
use varis.Main.Leading.{Leads, match_pattern-Leads, dispatch-All}

-- The requests that only show something, and those that go to the mount, which has no way to the
-- jobs and the catalog.
abbrev pub IsReading : Route → Type 0
IsReading Route.health = Unit
IsReading Route.webdav = Unit
IsReading Route.dashboard = Unit
IsReading Route.burn = ⊥
IsReading Route.metadata = ⊥
IsReading Route.jobs = Unit
IsReading Route.continue = ⊥
IsReading Route.retry = ⊥
IsReading Route.library = Unit
IsReading Route.search = Unit
IsReading Route.retrieve = ⊥
IsReading Route.read = ⊥
IsReading Route.reconstruct_start = ⊥
IsReading Route.reconstruct_read = ⊥
IsReading Route.config = Unit
IsReading Route.add_media_type = ⊥
IsReading Route.dry_runs = Unit
IsReading Route.delete_dry_run = ⊥
IsReading (Route.cover disk_id) = Unit

-- The jobs, the reconstructor and the tables are as they were.
pub record Unchanged {M : Type 0} (s t : Server (M × Catalog)) : Type 0 where
  pub burn_job : t.burn_job ≡ s.burn_job
  pub retrieve_job : t.retrieve_job ≡ s.retrieve_job
  pub reconstructor : t.reconstructor ≡ s.reconstructor
  pub reconstruction_capacity : t.reconstruction_capacity ≡ s.reconstruction_capacity
  pub tables : SameTables s.world.1 t.world.1

-- A method that is not taken for a POST leads to such routes only.
entries-IsReading :
    (method : Text)
    → (accepts (some post) method ≡ true → ⊥)
    → All (λ e. accepts e.method method ≡ true → Leads IsReading e.pattern) entries
entries-IsReading method posts = (
  λ a. tt,
  (
    λ a. tt,
    (
      λ a. tt,
      (
        posts,
        (
          posts,
          (
            λ a. tt,
            (
              posts,
              (
                posts,
                (
                  λ a. tt,
                  (
                    λ a. tt,
                    (
                      posts,
                      (
                        posts,
                        (
                          posts,
                          (posts, (λ a. tt, (posts, (λ a rest. tt, (λ a. tt, (posts, tt)))))),
                        ),
                      ),
                    ),
                  ),
                ),
              ),
            ),
          ),
        ),
      ),
    ),
  ),
)

-- The methods of requests to read.
abbrev pub IsSafe : Text → Type 0
IsSafe method = (method ≡ get) ⊎ (method ≡ codes "HEAD")

not_post : (method : Text) → IsSafe method → accepts (some post) method ≡ true → ⊥
unfolding accepts text_eq
not_post method (inl e) a = differ (subst (λ m. accepts (some post) m ≡ true) e a)
  where
    differ : accepts (some post) get ≡ true → ⊥
    differ k = cc k
not_post method (inr e) a = differ (subst (λ m. accepts (some post) m ≡ true) e a)
  where
    differ : accepts (some post) (codes "HEAD") ≡ true → ⊥
    differ k = cc k

module _ {M : Type 0} (os : Os M) (pg : Postgres) (lib : Libraries M) (p : Program) where
  unchanged : (s : Server (M × Catalog)) → Unchanged s s
  unchanged s = record {
    burn_job = refl;
    retrieve_job = refl;
    reconstructor = refl;
    reconstruction_capacity = refl;
    tables = same s.world.1;
  }

  shown :
      {A : Type 0} (handler : Handler (M × Catalog) A) (s : Server (M × Catalog))
      → Shows M handler
      → Unchanged s (record s { world = (handler s.world).1 })
  unfolding Shows
  shown handler s h = record {
    burn_job = refl;
    retrieve_job = refl;
    reconstructor = refl;
    reconstruction_capacity = refl;
    tables = h s.world.0 s.world.1;
  }

  serve_route-Unchanged :
      (route : Route) (req : HttpRequest) (s : Server (M × Catalog))
      → IsReading route
      → Unchanged s (serve_route os pg lib p route req s).1
  unfolding serve_route handle jobs_fragment library
  serve_route-Unchanged Route.health req s h = unchanged s
  serve_route-Unchanged Route.webdav req s h = record {
    burn_job = refl;
    retrieve_job = refl;
    reconstructor = refl;
    reconstruction_capacity = refl;
    tables = same s.world.1;
  }
  serve_route-Unchanged Route.dashboard req s h =
      shown (dashboard os pg p.staging_dir s.burn_job req.host) s
        (dashboard-Shows os pg p.staging_dir s.burn_job req.host)
  serve_route-Unchanged Route.burn req s h = absurd h
  serve_route-Unchanged Route.metadata req s h = absurd h
  serve_route-Unchanged Route.jobs req s h = unchanged s
  serve_route-Unchanged Route.continue req s h = absurd h
  serve_route-Unchanged Route.retry req s h = absurd h
  serve_route-Unchanged Route.library req s h = unchanged s
  serve_route-Unchanged Route.search req s h =
      shown (search pg lib.text_search (req.query (codes "q"))) s
        (search-Shows M os pg lib.text_search (req.query (codes "q")))
  serve_route-Unchanged Route.retrieve req s h = absurd h
  serve_route-Unchanged Route.read req s h = absurd h
  serve_route-Unchanged Route.reconstruct_start req s h = absurd h
  serve_route-Unchanged Route.reconstruct_read req s h = absurd h
  serve_route-Unchanged Route.config req s h =
      shown (config_page os pg p.staging_dir p.dry_run_dir) s
        (config_page-Shows M os pg p.staging_dir p.dry_run_dir)
  serve_route-Unchanged Route.add_media_type req s h = absurd h
  serve_route-Unchanged Route.dry_runs req s h =
      shown (dry_runs_page os pg p.staging_dir p.dry_run_dir) s
        (dry_runs_page-Shows M os pg p.staging_dir p.dry_run_dir)
  serve_route-Unchanged Route.delete_dry_run req s h = absurd h
  serve_route-Unchanged (Route.cover disk_id) req s h =
      shown (cover pg lib.printer disk_id) s (cover-Shows M os pg lib.printer disk_id)

  -- A request with the method GET or HEAD, whatever its path, changes neither a job nor the
  -- reconstructor nor a table of the catalog, whatever machine and server answer.
  pub serve-Unchanged :
      (req : HttpRequest) (s : Server (M × Catalog))
      → IsSafe req.method
      → Unchanged s (serve os pg lib p req s).1
  unfolding serve
  serve-Unchanged req s safe = at (dispatch entries req.method req.path) (λ route.
      dispatch-All IsReading req.method req.path entries route (
        All-imp (λ e. accepts e.method req.method ≡ true → Leads IsReading e.pattern)
          (λ e.
            accepts e.method req.method ≡ true
            → (r : Route) → match_pattern e.pattern req.path ≡ some r
            → IsReading r)
          (λ e leads accepted r matched.
            match_pattern-Leads IsReading e.pattern req.path r matched (leads accepted))
          entries (entries-IsReading req.method (not_post req.method safe))))
    where
      at :
          (d : Dispatch)
          → ((route : Route) → d ≡ Dispatch.to route → IsReading route)
          → Unchanged s (serve_dispatch os pg lib p d req s).1
      at (Dispatch.to route) h = serve_route-Unchanged route req s (h route refl)
      at Dispatch.no_method h = unchanged s
      at Dispatch.no_path h = unchanged s
