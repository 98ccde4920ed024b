-- ===== src/Main/OneJob.antt =====
-- The two managers behind the routes of cmd/archive-core/main.go, and the jobs they work on.
use varis.Base.{◌≡◌, inl, refl, true, false, List, [], ◌∷◌, some, arith, Text, codes, text_eq, All}
use varis.Os.{Os}
use varis.Db.{Catalog, Postgres}
use varis.Web.Server.{Server}
use varis.Web.Drive.{
  Visit, visit_start_burn, visit_start_retrieve, visit_read_disk, visit_read_reconstruction_disc,
  visit_jobs, visit_continue, visit_start_reconstruction, handle, HasOneJob, IsNoRetry,
  handle-HasOneJob,
}
use varis.Main.{Program, machine_of, cataloger_of, catalog_of, new_server}
use varis.Main.Routes.{Route, Pattern, Dispatch, entries, match_pattern, accepts, dispatch}
use varis.Main.Serve.{HttpRequest, Libraries, look_up, serve_route, serve_dispatch, serve}
use varis.Main.Leading.{Leads, match_pattern-Leads, dispatch-All}

abbrev pub retry_path : Text
retry_path = codes "/jobs/retry"

-- Every route but that of the request to retry a failed burn.
abbrev IsOther : Route → Type 0
IsOther Route.retry = ⊥
IsOther Route.health = Unit
IsOther Route.webdav = Unit
IsOther Route.dashboard = Unit
IsOther Route.burn = Unit
IsOther Route.metadata = Unit
IsOther Route.jobs = Unit
IsOther Route.continue = Unit
IsOther Route.library = Unit
IsOther Route.search = Unit
IsOther Route.retrieve = Unit
IsOther Route.read = Unit
IsOther Route.reconstruct_start = Unit
IsOther Route.reconstruct_read = Unit
IsOther Route.config = Unit
IsOther Route.add_media_type = Unit
IsOther Route.dry_runs = Unit
IsOther Route.delete_dry_run = Unit
IsOther (Route.cover disk_id) = Unit

entries-IsOther :
    (method path : Text)
    → text_eq retry_path path ≡ false
    → All
        (λ e.
          accepts e.method method ≡ true
          → (r : Route) → match_pattern e.pattern path ≡ some r
          → IsOther r)
        entries
unfolding match_pattern
entries-IsOther method path other = (
  λ a. at _ Route.health tt,
  (
    λ a. leads (Pattern.subtree (codes "/webdav/") Route.webdav) tt,
    (
      λ a. at _ Route.dashboard tt,
      (
        λ a. at _ Route.burn tt,
        (
          λ a. at _ Route.metadata tt,
          (
            λ a. at _ Route.jobs tt,
            (
              λ a. at _ Route.continue tt,
              (
                λ a r m. absurd (ground (arith, m, other)),
                (
                  λ a. at _ Route.library tt,
                  (
                    λ a. at _ Route.search tt,
                    (
                      λ a. at _ Route.retrieve tt,
                      (
                        λ a. at _ Route.read tt,
                        (
                          λ a. at _ Route.reconstruct_start tt,
                          (
                            λ a. at _ Route.reconstruct_read tt,
                            (
                              λ a. at _ Route.config tt,
                              (
                                λ a. at _ Route.add_media_type tt,
                                (
                                  λ a.
                                      leads (Pattern.segment (codes "/cover/") Route.cover)
                                        (λ t. tt),
                                  (
                                    λ a. at _ Route.dry_runs tt,
                                    (λ a. at _ Route.delete_dry_run tt, tt),
                                  ),
                                ),
                              ),
                            ),
                          ),
                        ),
                      ),
                    ),
                  ),
                ),
              ),
            ),
          ),
        ),
      ),
    ),
  ),
)
  where
    leads :
        (pattern : Pattern)
        → Leads IsOther pattern
        → (r : Route) → match_pattern pattern path ≡ some r
        → IsOther r
    leads pattern h r m = match_pattern-Leads IsOther pattern path r m h

    at :
        (here : Text) (route : Route)
        → IsOther route
        → (r : Route) → match_pattern (Pattern.exact here route) path ≡ some r
        → IsOther r
    at here route h = leads (Pattern.exact here route) h

module _ {M : Type 0} (os : Os M) (pg : Postgres) (lib : Libraries M) (p : Program) where
  visited :
      (v : Visit) (s : Server (M × Catalog))
      → IsNoRetry
          (cataloger_of M pg)
          (machine_of os)
          p.burn_dirs
          (catalog_of M pg)
          p.retrieve_dirs
          (look_up os pg lib p)
          v
      → HasOneJob s
      → HasOneJob
          (handle
            (cataloger_of M pg)
            (machine_of os)
            p.burn_dirs
            (catalog_of M pg)
            p.retrieve_dirs
            (look_up os pg lib p)
            v
            s).1
  visited v s n h =
      handle-HasOneJob (cataloger_of M pg) (machine_of os) p.burn_dirs (catalog_of M pg)
        p.retrieve_dirs (look_up os pg lib p) v s n h

  serve_route-HasOneJob :
      (route : Route) (req : HttpRequest) (s : Server (M × Catalog))
      → IsOther route
      → HasOneJob s
      → HasOneJob (serve_route os pg lib p route req s).1
  unfolding serve_route
  serve_route-HasOneJob Route.health req s o h = h
  serve_route-HasOneJob Route.webdav req s o h = h
  serve_route-HasOneJob Route.dashboard req s o h = h
  serve_route-HasOneJob Route.burn req s o h = visited (visit_start_burn req.form) s tt h
  serve_route-HasOneJob Route.metadata req s o h = h
  serve_route-HasOneJob Route.jobs req s o h = visited visit_jobs s tt h
  serve_route-HasOneJob Route.continue req s o h = visited visit_continue s tt h
  serve_route-HasOneJob Route.retry req s o h = absurd o
  serve_route-HasOneJob Route.library req s o h = h
  serve_route-HasOneJob Route.search req s o h = h
  serve_route-HasOneJob Route.retrieve req s o h = visited (visit_start_retrieve req.form) s tt h
  serve_route-HasOneJob Route.read req s o h = visited (visit_read_disk req.form) s tt h
  serve_route-HasOneJob Route.reconstruct_start req s o h =
      visited visit_start_reconstruction s tt h
  serve_route-HasOneJob Route.reconstruct_read req s o h =
      visited (visit_read_reconstruction_disc req.form) s tt h
  serve_route-HasOneJob Route.config req s o h = h
  serve_route-HasOneJob Route.add_media_type req s o h = h
  serve_route-HasOneJob Route.dry_runs req s o h = h
  serve_route-HasOneJob Route.delete_dry_run req s o h = h
  serve_route-HasOneJob (Route.cover disk_id) req s o h = h

  serve-HasOneJob :
      (req : HttpRequest) (s : Server (M × Catalog))
      → text_eq retry_path req.path ≡ false
      → HasOneJob s
      → HasOneJob (serve os pg lib p req s).1
  unfolding serve
  serve-HasOneJob req s other h = at (dispatch entries req.method req.path) (λ route.
      dispatch-All IsOther req.method req.path entries route
        (entries-IsOther req.method req.path other))
    where
      at :
          (d : Dispatch)
          → ((route : Route) → d ≡ Dispatch.to route → IsOther route)
          → HasOneJob (serve_dispatch os pg lib p d req s).1
      at (Dispatch.to route) k = serve_route-HasOneJob route req s (k route refl) h
      at Dispatch.no_method k = h
      at Dispatch.no_path k = h

  -- The server after the requests, whatever they were answered.
  unfoldable pub after_requests : List HttpRequest → Server (M × Catalog) → Server (M × Catalog)
  unfolding serve
  after_requests [] s = s
  after_requests (req ∷ requests) s = after_requests requests (serve os pg lib p req s).1

  -- Let any HTTP requests reach a new server, one after the other, but none with the path to retry
  -- a failed burn: then never are a burning and a retrieval in progress at the same time, whatever
  -- the machine, the catalog and the WebDAV handler answer.
  pub after_requests-HasOneJob :
      (requests : List HttpRequest) (world : M × Catalog)
      → All (λ req. text_eq retry_path req.path ≡ false) requests
      → HasOneJob (after_requests requests (new_server world))
  unfolding after_requests
  after_requests-HasOneJob requests world = all requests (new_server world) (inl refl)
    where
      all :
          (requests : List HttpRequest) (s : Server (M × Catalog))
          → HasOneJob s
          → All (λ req. text_eq retry_path req.path ≡ false) requests
          → HasOneJob (after_requests requests s)
      all [] s h n = h
      all (req ∷ requests) s h n =
          all requests (serve os pg lib p req s).1 (serve-HasOneJob req s n.0 h) n.1
