-- ===== src/Web/Scanned.antt =====
-- What the handlers of internal/web/staging.go find in the staging directory.
use varis.Base.{List, Text}
use varis.Base.Effect.{Effect, pure, ◌>>=◌}
use varis.Os.{Os}
use varis.Db.{Catalog, Postgres}
use varis.Db.Files.{list_staged_metadata}
use varis.Binpack.Scan.{scan_staging}
use varis.Web.Staging.{StagedFolderGroup, selected_paths, group_staged_files}
use varis.Web.Answer.{on_machine, on_catalog}

module _ {M : Type 0} (os : Os M) (pg : Postgres) (staging_dir : Text) where
  unfoldable pub resolve_selected_paths : List Text → Effect (M × Catalog) (List Text)
  resolve_selected_paths selected = do
    files ← on_machine (scan_staging os staging_dir)
    pure (selected_paths selected files)

  unfoldable pub staged_file_groups : Effect (M × Catalog) (List StagedFolderGroup)
  staged_file_groups = do
    files ← on_machine (scan_staging os staging_dir)
    meta ← on_catalog (list_staged_metadata pg)
    pure (group_staged_files files meta)
