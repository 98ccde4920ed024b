-- ===== src/Web/Guarded.antt =====
-- Which requests to delete a dry run, of internal/web/dryruns.go, reach a file or the catalog.
use varis.Base.{
  ◌≡◌, ◌⊎◌, inl, inr, refl, Bool, true, false, ◌||◌, Bool-cases, [], if◌then◌else◌, Text, codes,
  text_eq, Error, Result, ok, err,
}
use varis.Base.Effect.{lift}
use varis.Os.{Os}
use varis.Db.{Catalog, Postgres}
use varis.Db.Disks.{delete_dry_run_disc}
use varis.Db.DryRuns.{IsReal, delete_dry_run_disc-IsReal}
use varis.Web.Server.{Request}
use varis.Web.Answer.{
  Attempt, Handler, answer, refuse, go_on, attempted, or_status, beside, behind, on_machine,
  on_catalog, ◌>>◌,
}
use varis.Web.Pages.{contains_separator, unless_absent, iso_path, delete_dry_run}

-- The id is empty or could lead out of the directory.
abbrev pub is_unsafe : Text → Bool
is_unsafe id = text_eq id [] || contains_separator id

module _ {M : Type 0} (os : Os M) (pg : Postgres) (staging_dir dry_run_dir : Text)
    (is_not_exist : Error → Bool) (req : Request) where
  abbrev id : Text
  id = req.value (codes "disk_id")

  -- The tables of discs and files are as they were.
  abbrev pub KeepsTables : {A : Type 0} → Catalog → A × (M × Catalog) → Type 0
  KeepsTables db r = (r.1.1.disks ≡ db.disks) × (r.1.1.files ≡ db.files)

  -- The removal of the rows, and the answer.
  abbrev removes_rows : Handler (M × Catalog) Text
  removes_rows = or_status 500 (on_catalog (delete_dry_run_disc pg id)) >> answer (codes "/dryruns")

  abbrev removes : Handler (M × Catalog) Text
  removes =
      or_status 500 (λ s.
        unless_absent os pg staging_dir dry_run_dir is_not_exist
          (on_machine (os.remove (iso_path os pg staging_dir dry_run_dir id)) s))
      >> removes_rows

  removes_rows-KeepsTables :
      (w : M) (db : Catalog) → IsReal id db.disks → KeepsTables db (removes_rows (w, db))
  removes_rows-KeepsTables w db real =
      at (delete_dry_run_disc pg id db) (delete_dry_run_disc-IsReal pg id db real)
    where
      at :
          (r : Result (Unit {0}) × Catalog)
          → (r.1.disks ≡ db.disks) × (r.1.files ≡ db.files)
          → KeepsTables db (go_on (λ _. answer (codes "/dryruns")) (attempted 500 (behind w r)))
      at (ok _, v) h = h
      at (err e, v) h = h

  removes-KeepsTables :
      (w : M) (db : Catalog) → IsReal id db.disks → KeepsTables db (removes (w, db))
  removes-KeepsTables w db real = at (os.remove (iso_path os pg staging_dir dry_run_dir id) w)
    where
      after : Result (Unit {0}) × (M × Catalog) → Attempt Text × (M × Catalog)
      after r = go_on (λ _. removes_rows) (attempted 500 r)

      at :
          (r : Result (Unit {0}) × M)
          → KeepsTables db
              (after (unless_absent os pg staging_dir dry_run_dir is_not_exist (beside db r)))
      at (ok _, v) = removes_rows-KeepsTables v db real
      at (err e, v) = elim (Bool-cases (is_not_exist e)) [
        | inl absent ↦ rw absent (removes_rows-KeepsTables v db real)
        | inr other ↦ rw other (refl, refl)
      ]

  -- Behind the form and the check of the id.
  abbrev checked : Result (Unit {0}) → Bool → Handler (M × Catalog) Text
  checked parsed bad =
      or_status 400 (lift parsed)
      >> ((if bad then refuse 400 (codes "invalid disk_id") else answer tt) >> removes)

  -- Whatever a request to delete a dry run holds, and however machine and server answer: unless its
  -- form can be parsed and its id is not empty and holds neither kind of slash, nothing
  -- happens to the machine or the catalog; and if the id is not that of a dry run, the
  -- catalog's discs and files stay as they are.
  pub delete_dry_run_guarded :
      (w : M) (db : Catalog)
      → let r = delete_dry_run os pg staging_dir dry_run_dir is_not_exist req (w, db) in
        (((req.parsed ≡ ok tt) × (is_unsafe id ≡ false)) ⊎ (r.1 ≡ (w, db)))
        × (IsReal id db.disks → KeepsTables db r)
  unfolding delete_dry_run
  delete_dry_run_guarded w db = at req.parsed (is_unsafe id)
    where
      at :
          (parsed : Result (Unit {0})) (bad : Bool)
          → (((parsed ≡ ok tt) × (bad ≡ false)) ⊎ ((checked parsed bad (w, db)).1 ≡ (w, db)))
            × (IsReal id db.disks → KeepsTables db (checked parsed bad (w, db)))
      at (err e) bad = (inr refl, λ real. (refl, refl))
      at (ok _) true = (inr refl, λ real. (refl, refl))
      at (ok _) false = (inl (refl, refl), removes-KeepsTables w db)
