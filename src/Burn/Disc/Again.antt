-- ===== src/Burn/Disc/Again.antt =====
-- A commit of a disc that the catalog already has.
use varis.Base.{
  ◌≡◌, refl, ap, subst, ◌∙◌, Bool, true, false, ◌&&◌, ◌||◌, List, [], ◌∷◌, ◌++◌, map-append, Option,
  none, some, arith, if◌then◌else◌, Text, text_eq_refl, contains, contains-append, Error, Result,
  ok, err,
}
use varis.Base.Effect.{proceed, for_each}
use varis.Db.{Catalog, Disk, Postgres, counted, unique_violation, foreign_key_violation}
use varis.Db.Disks.{insert_disk, disk_ids, media_names, is_known_group}
use varis.Os.{Os}
use varis.Burn.Cataloger.{pgx_cataloger}
use varis.Burn.Plan.{Options, DiscPlan}
use varis.Burn.Disc.{Dirs, disk_row, commit_file, commit_disc}
use varis.Burn.Disc.Entered.{failure}

-- A row that the server has taken is in the table.
insert_disk-contains :
    (pg : Postgres) (d : Disk) (db taken : Catalog)
    → insert_disk pg d db ≡ (ok tt, taken)
    → contains d.id (disk_ids taken.disks) ≡ true
unfolding insert_disk contains
insert_disk-contains pg d db taken =
    answered (pg.outage db.statements) (contains d.id (disk_ids db.disks))
      (contains d.media_type (media_names db.media_types) && is_known_group (counted db) d.group_id)
  where
    grown : Catalog
    grown = record (counted db) {
      disks = db.disks ++ record d { created_at = pg.now (counted db).statements } ∷ [];
    }

    answer : Option Error → Bool → Bool → Result (Unit {0}) × Catalog
    answer o b c = elim o [
      | some e ↦ (err e, counted db)
      | none ↦
          (if b
            then (err unique_violation, counted db)
            else if c
            then (ok tt, grown)
            else (err foreign_key_violation, counted db))
    ]

    last : contains d.id (disk_ids grown.disks) ≡ true
    last =
        ap (contains d.id) (map-append (λ (x : Disk). x.id) db.disks _)
        ∙ contains-append d.id (disk_ids db.disks) _
        ∙ ground (arith, text_eq_refl d.id)

    answered :
        (o : Option Error) (b c : Bool)
        → answer o b c ≡ (ok tt, taken)
        → contains d.id (disk_ids taken.disks) ≡ true
    answered (some e) b c h = absurd (failure e (ap (λ r. r.0) h))
    answered none true c h = absurd (failure unique_violation (ap (λ r. r.0) h))
    answered none false false h = absurd (failure foreign_key_violation (ap (λ r. r.0) h))
    answered none false true h =
        subst (λ db. contains d.id (disk_ids db.disks) ≡ true) (ap (λ r. r.1) h) last

insert_disk-again :
    (pg : Postgres) (d : Disk) (db : Catalog)
    → contains d.id (disk_ids db.disks) ≡ true
    → (e : Error) × (insert_disk pg d db ≡ (err e, counted db))
unfolding insert_disk
insert_disk-again pg d db there = again (pg.outage db.statements)
  where
    inner : Bool → Result (Unit {0}) × Catalog
    inner b =
        if b
        then (err unique_violation, counted db)
        else if contains d.media_type (media_names db.media_types)
            && is_known_group (counted db) d.group_id
        then (
          ok tt,
          record (counted db) {
            disks = db.disks ++ record d { created_at = pg.now (counted db).statements } ∷ [];
          },
        )
        else (err foreign_key_violation, counted db)

    again :
        (o : Option Error)
        → (e : Error) × (elim o as (λ _. Result (Unit {0}) × Catalog) [
          | some e ↦ (err e, counted db)
          | none ↦ inner (contains d.id (disk_ids db.disks))
        ]
            ≡ (err e, counted db))
    again (some e) = (e, refl)
    again none = (unique_violation, ap inner there)

-- Once the server has taken a disc's row, as long as the row stays in its table, a commit of this
-- disc fails, whatever the server and the machine answer, and leaves the catalog and the machine as
-- they were but for the count of statements.
pub commit_disc-again :
    (pg : Postgres) (os : Os Catalog) (dirs : Dirs) (opts : Options) (plan : DiscPlan)
    (hash other : Text) (db taken later : Catalog) (more : List Disk)
    → insert_disk pg (disk_row (pgx_cataloger pg) os dirs opts plan hash) db ≡ (ok tt, taken)
    → later.disks ≡ taken.disks ++ more
    → (e : Error) × (commit_disc (pgx_cataloger pg) os dirs opts plan other later
        ≡ (err e, counted later))
unfolding commit_disc
commit_disc-again pg os dirs opts plan hash other db taken later more first kept =
    let (e, refused) =
      insert_disk-again pg (disk_row (pgx_cataloger pg) os dirs opts plan other) later there in
    (
      e,
      ap
          (proceed
            (λ _. for_each (commit_file (pgx_cataloger pg) os dirs plan.disk_id) plan.bucket.files))
          refused,
    )
  where
    there : contains plan.disk_id (disk_ids later.disks) ≡ true
    there =
        ap (λ disks. contains plan.disk_id (disk_ids disks)) kept
        ∙ ap (contains plan.disk_id) (map-append (λ (d : Disk). d.id) taken.disks more)
        ∙ contains-append plan.disk_id (disk_ids taken.disks) (disk_ids more)
        ∙ ap (λ b. b || contains plan.disk_id (disk_ids more))
            (insert_disk-contains pg (disk_row (pgx_cataloger pg) os dirs opts plan hash) db taken
              first)
