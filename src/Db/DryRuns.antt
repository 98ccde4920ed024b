-- ===== src/Db/DryRuns.antt =====
-- Deleting a dry run, and the discs that are none.
use varis.Base.{
  ◌≡◌, inl, inr, refl, sym, ap, subst, ◌∙◌, Bool, false, ◌&&◌, Bool-cases, List, [], ◌∷◌, map,
  Option, none, some, arith, if◌then◌else◌, Text, text_eq, contains, Error, Result, ok, err, All,
}
use varis.Base.Effect.{Effect, proceed}
use varis.Db.{Catalog, Disk, FileRecord, Postgres, statement, counted, foreign_key_violation}
use varis.Db.Disks.{
  find_disk, is_dry_run_disk, delete_files, delete_dry_run_row, delete_dry_run_files,
  delete_dry_run_disk, delete_dry_run_disc,
}

-- No row with the id is a dry run.
abbrev pub IsReal : Text → List Disk → Type 0
IsReal id disks = All (λ d. (text_eq d.id id && d.is_dry_run) ≡ false) disks

real_disk : (id : Text) (disks : List Disk) → IsReal id disks → is_dry_run_disk id disks ≡ false
unfolding is_dry_run_disk find_disk
real_disk id [] h = refl
real_disk id (d ∷ disks) h = elim (Bool-cases (text_eq d.id id)) [
  | inl same ↦ ground (arith, same, h.0)
  | inr other ↦ ground (arith, other, real_disk id disks h.1)
]

real_row : (id : Text) (disks : List Disk) → IsReal id disks → delete_dry_run_row id disks ≡ disks
unfolding delete_dry_run_row
real_row id [] h = refl
real_row id (d ∷ disks) h = rw h.0 (ap (◌∷◌ d) (real_row id disks h.1))

-- The tables of discs and files.
abbrev HasTables : List Disk → List FileRecord → Catalog → Type 0
HasTables disks files db = (db.disks ≡ disks) × (db.files ≡ files)

statement-HasTables :
    {A : Type 0} (pg : Postgres) (run : Effect Catalog A) (disks : List Disk)
    (files : List FileRecord) (db : Catalog)
    → HasTables disks files db
    → HasTables disks files (run (counted db)).1
    → HasTables disks files (statement pg run db).1
statement-HasTables {A} pg run disks files db before after = answered (pg.outage db.statements)
  where
    answered :
        (o : Option Error)
        → HasTables disks files
            (elim o as (λ _. Result A × Catalog) [
              | some e ↦ (err e, counted db)
              | none ↦ run (counted db)
            ]).1
    answered (some e) = before
    answered none = after

disk-HasTables :
    (id : Text) (disks : List Disk) (files : List FileRecord) (db : Catalog)
    → IsReal id disks
    → HasTables disks files db
    → HasTables disks files (delete_dry_run_disk id db).1
disk-HasTables id disks files db real (same_disks, same_files) =
    subst
      (λ b.
        HasTables disks files
          (run (b && contains id (map (λ (f : FileRecord). f.disk_id) db.files))).1)
      (sym (real_disk id db.disks here)) (real_row id db.disks here ∙ same_disks, same_files)
  where
    run : Bool → Result (Unit {0}) × Catalog
    run b =
        if b
        then (err foreign_key_violation, db)
        else (ok tt, record db { disks = delete_dry_run_row id db.disks })

    here : IsReal id db.disks
    here = subst (IsReal id) (sym same_disks) real

-- A delete for a disc that is no dry run changes neither discs nor files, whether or not the server
-- answers its statements.
pub delete_dry_run_disc-IsReal :
    (pg : Postgres) (id : Text) (db : Catalog)
    → IsReal id db.disks
    → let after = (delete_dry_run_disc pg id db).1 in
      (after.disks ≡ db.disks) × (after.files ≡ db.files)
unfolding delete_dry_run_disc
delete_dry_run_disc-IsReal pg id db real = second (statement pg (delete_dry_run_files id) db) (
    statement-HasTables pg (delete_dry_run_files id) db.disks db.files db (refl, refl)
      (
        refl,
        ap (λ b. if b then delete_files id db.files else db.files) (real_disk id db.disks real),
      ))
  where
    second :
        (r : Result (Unit {0}) × Catalog)
        → HasTables db.disks db.files r.1
        → HasTables db.disks db.files (proceed (λ _. statement pg (delete_dry_run_disk id)) r).1
    second (err e, v) h = h
    second (ok _, v) h =
        statement-HasTables pg (delete_dry_run_disk id) db.disks db.files v h
          (disk-HasTables id db.disks db.files (counted v) real h)
