-- ===== src/Main/Routes.antt =====
-- The routes of cmd/archive-core/main.go and of internal/web/server.go.
use varis.Base.{
  Bool, true, false, not, ◌&&◌, ◌||◌, List, [], ◌∷◌, Option, none, some, ◌==◌, if◌then◌else◌, Text,
  codes, text_eq,
}
use varis.Base.Splitting.{lacks}
use varis.Db.Disks.{has_prefix}

-- The handlers that `main` and `Routes` register.
pub data Route : Type 0 where
  health webdav dashboard burn metadata jobs continue retry library search retrieve read : Route
  reconstruct_start reconstruct_read config add_media_type dry_runs delete_dry_run : Route
  cover : Text → Route

-- A pattern of `http.ServeMux`: a path, a prefix with one segment behind it, or a prefix.
pub data Pattern : Type 0 where
  exact : Text → Route → Pattern
  segment : Text → (Text → Route) → Pattern
  subtree : Text → Route → Pattern

-- No method stands for all of them.
pub record Entry : Type 0 where
  pub method : Option Text
  pub pattern : Pattern

abbrev pub get : Text
get = codes "GET"

abbrev pub post : Text
post = codes "POST"

abbrev entry : Text → Text → Route → Entry
entry method path route = record { method = some method; pattern = exact path route }

-- In the order of the source. No two of these patterns match the same requests.
abbrev pub entries : List Entry
entries =
    entry get (codes "/healthz") health
    ∷ record { method = none; pattern = subtree (codes "/webdav/") webdav }
    ∷ entry get (codes "/") dashboard
    ∷ entry post (codes "/burn") burn
    ∷ entry post (codes "/staging/metadata") metadata
    ∷ entry get (codes "/jobs") jobs
    ∷ entry post (codes "/jobs/continue") continue
    ∷ entry post (codes "/jobs/retry") retry
    ∷ entry get (codes "/library") library
    ∷ entry get (codes "/search") search
    ∷ entry post (codes "/retrieve") retrieve
    ∷ entry post (codes "/retrieve/read") read
    ∷ entry post (codes "/retrieve/reconstruct/start") reconstruct_start
    ∷ entry post (codes "/retrieve/reconstruct/read") reconstruct_read
    ∷ entry get (codes "/config") config
    ∷ entry post (codes "/config") add_media_type
    ∷ record { method = some get; pattern = segment (codes "/cover/") cover }
    ∷ entry get (codes "/dryruns") dry_runs
    ∷ entry post (codes "/dryruns/delete") delete_dry_run
    ∷ []

-- What follows a prefix.
unfoldable pub strip_prefix : Text → Text → Option Text
strip_prefix [] path = some path
strip_prefix (p ∷ prefix) [] = none
strip_prefix (p ∷ prefix) (c ∷ path) =
    let rest = strip_prefix prefix path in if p == c then rest else none

-- One segment: not empty, without a slash.
abbrev pub as_segment : (Text → Route) → Option Text → Option Route
as_segment route none = none
as_segment route (some rest) =
    if text_eq rest [] || not (lacks b'/' rest) then none else some (route rest)

unfoldable pub match_pattern : Pattern → Text → Option Route
unfolding strip_prefix
match_pattern (exact p route) path = if text_eq p path then some route else none
match_pattern (segment prefix route) path = as_segment route (strip_prefix prefix path)
match_pattern (subtree prefix route) path = if has_prefix prefix path then some route else none

-- A pattern for GET matches HEAD too.
unfoldable pub accepts : Option Text → Text → Bool
accepts none method = true
accepts (some m) method = text_eq m method || (text_eq m get && text_eq method (codes "HEAD"))

-- What `ServeMux` does with a request's method and path, the path as it has cleaned it.
pub data Dispatch : Type 0 where
  to : Route → Dispatch
  no_method no_path : Dispatch

abbrev pub known : Dispatch → Dispatch
known (to route) = to route
known no_method = no_method
known no_path = no_method

abbrev pub chosen : Bool → Option Route → Dispatch → Dispatch
chosen accepted none rest = rest
chosen true (some route) rest = to route
chosen false (some route) rest = known rest

unfoldable pub dispatch : List Entry → Text → Text → Dispatch
unfolding match_pattern accepts
dispatch [] method path = no_path
dispatch (e ∷ entries) method path =
    chosen (accepts e.method method) (match_pattern e.pattern path) (dispatch entries method path)
