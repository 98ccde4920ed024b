-- ===== src/Web/Applied.antt =====
-- What `applyMetadata` of internal/web/staging.go writes.
use varis.Base.{
  ℕ, ◌≡◌, refl, sym, ap, subst, ◌∙◌, Bool, true, false, ◌||◌, List, [], ◌∷◌, Option, none, some,
  arith, if◌then◌else◌, Text, codes, text_eq, contains, Error, Result, ok, err,
}
use varis.Base.Dict.{lookup, insert, lookup-insert}
use varis.Base.Effect.{Effect, for_each, proceed, pure}
use varis.Os.{Os}
use varis.Db.{Catalog, Postgres, StagedMetadata, counted}
use varis.Db.Files.{upsert_staged_metadata, list_staged_metadata}
use varis.Binpack.{FileInfo}
use varis.Binpack.Scan.{scan_staging}
use varis.Web.Staging.{StagedFolderGroup, selected_paths, group_staged_files, parse_tags}
use varis.Web.Selection.{is_wanted, contains-selected_paths}
use varis.Web.Server.{Request}
use varis.Web.Answer.{
  Attempt, Handler, go_on, attempted, or_status, behind, beside, on_catalog, on_machine, ◌>>=◌,
  ◌>>◌,
}
use varis.Web.Scanned.{resolve_selected_paths, staged_file_groups}
use varis.Web.Pages.{apply_metadata, render_staging_files}

-- The tags of a request that names none.
abbrev pub tags_or_none : Option (List Text) → List Text
tags_or_none none = []
tags_or_none (some tags) = tags

upserted :
    (pg : Postgres) (path : Text) (tags : Option (List Text)) (description : Text) (db : Catalog)
    → pg.outage db.statements ≡ none
    → upsert_staged_metadata pg path tags description db ≡ (
      ok tt,
      record (counted db) {
        staged_metadata =
            insert path
              (record { tags = tags_or_none tags; description = description })
              db.staged_metadata;
      },
    )
unfolding upsert_staged_metadata
upserted pg path none description db h = ground (arith, h)
upserted pg path (some tags) description db h = ground (arith, h)

module _ (pg : Postgres) (answers : (n : ℕ) → pg.outage n ≡ none) (tags : Option (List Text))
    (description : Text) where
  abbrev metadata : StagedMetadata
  metadata = record { tags = tags_or_none tags; description = description }

  abbrev upsert : Text → Effect Catalog (Unit {0})
  upsert path = upsert_staged_metadata pg path tags description

  -- What the table holds for each path, once the paths have been gone through.
  abbrev Written : List Text → Catalog → Result (Unit {0}) × Catalog → Type 0
  Written paths db r =
      (r.0 ≡ ok tt)
      × ((path : Text)
          → lookup path r.1.staged_metadata
            ≡ (if contains path paths then some metadata else lookup path db.staged_metadata))

  upsert-Written : (path : Text) (db : Catalog) → Written (path ∷ []) db (upsert path db)
  unfolding contains
  upsert-Written path db =
      subst (Written (path ∷ []) db)
        (sym (upserted pg path tags description db (answers db.statements)))
        (
          refl,
          λ other.
              lookup-insert path other metadata db.staged_metadata ∙ plain (text_eq path other) _ _,
        )
    where
      plain :
          {A : Type 0} (b : Bool) (x y : A) → (if b then x else y) ≡ (if b || false then x else y)
      plain true x y = refl
      plain false x y = refl

  for_each-Written :
      (paths : List Text) (db : Catalog) → Written paths db (for_each upsert paths db)
  unfolding for_each contains
  for_each-Written [] db = (refl, λ path. refl)
  for_each-Written (p ∷ paths) db =
      later (for_each-Written paths) (upsert p db) (upsert-Written p db)
    where
      later :
          ((v : Catalog) → Written paths v (for_each upsert paths v))
          → (r : Result (Unit {0}) × Catalog) → Written (p ∷ []) db r
          → Written (p ∷ paths) db (proceed (λ _. for_each upsert paths) r)
      later rest (err e, v) h = absurd (cc (h.0))
      later rest (ok _, v) h =
          let ih = rest v in
          (ih.0, λ path. ih.1 path ∙ joined path (contains path paths) (h.1 path))
        where
          joined :
              (path : Text) (b : Bool)
              → lookup path v.staged_metadata ≡ (
                  if text_eq p path || false then some metadata else lookup path db.staged_metadata)
              → (if b then some metadata else lookup path v.staged_metadata)
                ≡ (if text_eq p path || b then some metadata else lookup path db.staged_metadata)
          joined path true h = ground arith
          joined path false h = h

module _ {M : Type 0} (os : Os M) (pg : Postgres) (staging_dir dry_run_dir : Text)
    (trim : Text → Text) where
  -- A listing leaves the metadata as it is.
  render_staging_files-keeps :
      (w : M) (db : Catalog)
      → (render_staging_files os pg staging_dir dry_run_dir (w, db)).1.1.staged_metadata
        ≡ db.staged_metadata
  unfolding render_staging_files staged_file_groups list_staged_metadata
  render_staging_files-keeps w db = scanned (scan_staging os staging_dir w)
    where
      rendered : Result (List FileInfo) × M → Attempt (List StagedFolderGroup) × (M × Catalog)
      rendered r = attempted 500 (
          proceed
            (λ files s.
              proceed (λ meta t. (ok (group_staged_files files meta), t))
                (on_catalog (list_staged_metadata pg) s))
            (on_machine (λ (_ : M). r) (w, db)))

      listed :
          (files : List FileInfo) (v : M) (o : Option Error)
          → pg.outage db.statements ≡ o
          → (rendered (ok files, v)).1.1.staged_metadata ≡ db.staged_metadata
      listed files v none h = ground (arith, h)
      listed files v (some e) h = ground (arith, h)

      scanned :
          (r : Result (List FileInfo) × M) → (rendered r).1.1.staged_metadata ≡ db.staged_metadata
      scanned (err e, v) = refl
      scanned (ok files, v) = listed files v (pg.outage db.statements) refl

  -- On a server that answers every statement, where the form can be parsed and the staging
  -- directory can be listed: behind a request to apply metadata, the table holds, for exactly the
  -- paths that are selected themselves and do not end in a slash, or are staged and begin with a
  -- selection that does, the tags and the description of the form; and for all others what it held
  -- before.
  pub lookup-apply_metadata :
      (req : Request) (w v : M) (db : Catalog) (files : List FileInfo)
      → ((n : ℕ) → pg.outage n ≡ none)
      → req.parsed ≡ ok tt
      → scan_staging os staging_dir w ≡ (ok files, v)
      → (path : Text)
      → lookup path
          (apply_metadata os pg staging_dir dry_run_dir trim req (w, db)).1.1.staged_metadata
        ≡ (if is_wanted (req.values (codes "path")) files path
            then some (record {
              tags = tags_or_none (parse_tags trim (req.value (codes "tags")));
              description = req.value (codes "description");
            })
            else lookup path db.staged_metadata)
  unfolding apply_metadata resolve_selected_paths
  lookup-apply_metadata req w v db files answers parsed listed path =
      ap held (ap (λ p. go_on (λ _. rest) (attempted 400 (p, (w, db)))) parsed)
      ∙ ap (λ r. held (go_on next (attempted 500 (proceed select (beside db r))))) listed
      ∙ written (for_each upserting paths db)
          (for_each-Written pg answers tags description paths db)
      ∙ ap
          (λ b.
            if b
            then some (metadata pg answers tags description)
            else lookup path db.staged_metadata)
          ((contains-selected_paths (req.values (codes "path")) files).1 path)
    where
      tags : Option (List Text)
      tags = parse_tags trim (req.value (codes "tags"))

      description : Text
      description = req.value (codes "description")

      upserting : Text → Effect Catalog (Unit {0})
      upserting p = upsert_staged_metadata pg p tags description

      paths : List Text
      paths = selected_paths (req.values (codes "path")) files

      select : List FileInfo → Effect (M × Catalog) (List Text)
      select found = pure (selected_paths (req.values (codes "path")) found)

      next : List Text → Handler (M × Catalog) (List StagedFolderGroup)
      next found =
          or_status 500 (on_catalog (for_each upserting found))
          >> render_staging_files os pg staging_dir dry_run_dir

      rest : Handler (M × Catalog) (List StagedFolderGroup)
      rest =
          or_status 500 (resolve_selected_paths os pg staging_dir (req.values (codes "path")))
          >>= next

      held : Attempt (List StagedFolderGroup) × (M × Catalog) → Option StagedMetadata
      held s = lookup path s.1.1.staged_metadata

      written :
          (r : Result (Unit {0}) × Catalog)
          → Written pg answers tags description paths db r
          → held (
              go_on
                (λ _. render_staging_files os pg staging_dir dry_run_dir)
                (attempted 500 (behind v r)))
            ≡ (if contains path paths
                then some (metadata pg answers tags description)
                else lookup path db.staged_metadata)
      written (err e, after) h = absurd (cc (h.0))
      written (ok _, after) h = ap (lookup path) (render_staging_files-keeps v after) ∙ h.1 path
