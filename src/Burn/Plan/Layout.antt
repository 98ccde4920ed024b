-- ===== src/Burn/Plan/Layout.antt =====
-- What `planJob` plans on a server that answers: the ids, the groups and their parity discs.
use varis.Base.{
  ℕ, ◌+◌, ◌≤◌, ◌≡◌, ◌≢◌, inl, inr, refl, ap, ap₂, ◌∙◌, false, not, ◌||◌, Bool-cases, List, [], ◌∷◌,
  ◌++◌, map-append, none, arith, ◌==◌, if◌then◌else◌, Text, text_ne, contains, contains-append, ok,
  length,
}
use varis.Binpack.{FileInfo, Bucket, target_data_size, pack}
use varis.Db.{Catalog, DiskGroup, Postgres, counted}
use varis.Db.Ids.{format_disk_id}
use varis.Db.Disks.{count_disks, next_disk_id, insert_disk_group, group_ids}
use varis.Burn.Cataloger.{pgx_cataloger, new_burn_job_id}
use varis.Burn.Plan.{
  Options, DiscPlan, data_plan, parity_plan, assign_slots, chunks, plan_data, plan_groups, plan_job,
  effective_group_size, add_parity_discs,
}

-- The server answers every statement, and its random ids are new, distinct and not empty.
pub record IsHealthy (pg : Postgres) (db : Catalog) : Type 0 where
  pub answers : (n : ℕ) → pg.outage n ≡ none
  pub distinct : (m n : ℕ) → pg.uuid m ≡ pg.uuid n → m ≡ n
  pub unused : (n : ℕ) → db.drawn ≤ n → contains (pg.uuid n) (group_ids db.disk_groups) ≡ false
  pub nonempty : (n : ℕ) → pg.uuid n ≢ []

-- Data discs numbered from `c + 1` on, in no group.
unfoldable pub numbered : Text → ℕ → List Bucket → List DiscPlan
numbered prefix c [] = []
numbered prefix c (b ∷ buckets) =
    data_plan (format_disk_id prefix (c + 1)) b ∷ numbered prefix (c + 1) buckets

-- A group's members behind one another, then its parity disc; the n-th group has the n-th id
-- from `n` on, and its parity disc the number `c + 1` and so on.
unfoldable pub laid_out : (ℕ → Text) → Text → ℕ → ℕ → List (List DiscPlan) → List DiscPlan
laid_out uuid prefix n c [] = []
laid_out uuid prefix n c (members ∷ groups) =
    assign_slots (uuid n) 0 members
    ++ parity_plan (format_disk_id prefix (c + 1)) (uuid n) (length members)
      ∷ laid_out uuid prefix (n + 1) (c + 1) groups

-- No row that planning reads has changed.
abbrev SameRows : Catalog → Catalog → Type 0
SameRows db after =
    (after.disks ≡ db.disks) × (after.disk_groups ≡ db.disk_groups) × (after.drawn ≡ db.drawn)

module _ (pg : Postgres) (prefix : Text) where
  next_disk_id-healthy :
      (db : Catalog) (k : ℕ)
      → pg.outage db.statements ≡ none
      → next_disk_id pg prefix k db
        ≡ (ok (format_disk_id prefix (count_disks prefix db.disks + k + 1)), counted db)
  unfolding next_disk_id
  next_disk_id-healthy db k e = ground arith

  plan_data-numbered :
      (buckets : List Bucket) (db : Catalog) (k c : ℕ)
      → ((n : ℕ) → pg.outage n ≡ none)
      → c ≡ count_disks prefix db.disks + k
      → (after : Catalog) × (plan_data (pgx_cataloger pg) prefix k buckets db
          ≡ (ok (numbered prefix c buckets), after))
        × SameRows db after
  unfolding plan_data numbered
  plan_data-numbered [] db k c answers e = (db, refl, (refl, refl, refl))
  plan_data-numbered (b ∷ buckets) db k c answers e =
      let (after, planned, same) =
        plan_data-numbered buckets (counted db) (k + 1) (c + 1) answers (omega arith) in
      (after, rw (next_disk_id-healthy db k (answers db.statements), planned, e), same)

  -- The catalog after the insertion of a group.
  abbrev grouped : Catalog → Text → ℕ → Catalog
  grouped db job_id size = record (counted db) {
    disk_groups =
        db.disk_groups
        ++ record { id = pg.uuid db.drawn; burn_job_id = job_id; group_size = size } ∷ [];
    drawn = db.drawn + 1;
  }

  insert_disk_group-healthy :
      (db : Catalog) (job_id : Text) (size : ℕ)
      → IsHealthy pg db
      → insert_disk_group pg job_id size db ≡ (ok (pg.uuid db.drawn), grouped db job_id size)
  unfolding insert_disk_group
  insert_disk_group-healthy db job_id size h =
      ground (arith, h.answers db.statements, h.unused db.drawn)

  grouped-IsHealthy :
      (db : Catalog) (job_id : Text) (size : ℕ)
      → IsHealthy pg db
      → IsHealthy pg (counted (grouped db job_id size))
  unfolding contains
  grouped-IsHealthy db job_id size h = record {
    answers = h.answers;
    distinct = h.distinct;
    unused = λ n later.
        rw
          (
            map-append (λ (g : DiskGroup). g.id) db.disk_groups _,
            contains-append (pg.uuid n) (group_ids db.disk_groups),
            h.unused n (omega arith),
          )
          (rw (text_ne (pg.uuid db.drawn) (pg.uuid n) (λ e. omega (arith, h.distinct _ _ e))));
    nonempty = h.nonempty;
  }

  plan_groups-laid_out :
      (groups : List (List DiscPlan)) (db : Catalog) (job_id : Text) (k c : ℕ)
      → IsHealthy pg db
      → c ≡ count_disks prefix db.disks + k
      → (after : Catalog) × (plan_groups (pgx_cataloger pg) prefix job_id k groups db
          ≡ (ok (laid_out pg.uuid prefix db.drawn c groups), after))
        × (after.disks ≡ db.disks)
  unfolding plan_groups laid_out
  plan_groups-laid_out [] db job_id k c h e = (db, refl, refl)
  plan_groups-laid_out (members ∷ groups) db job_id k c h e =
      let g = grouped db job_id (length members) in
      let (after, planned, same) =
        plan_groups-laid_out groups (counted g) job_id (k + 1) (c + 1)
          (grouped-IsHealthy db job_id (length members) h) (omega arith) in
      (
        after,
        rw (
          insert_disk_group-healthy db job_id (length members) h,
          next_disk_id-healthy g k (h.answers g.statements),
          planned,
          e,
        ),
        same,
      )

abbrev pub buckets_of : List FileInfo → Options → List Bucket
buckets_of files opts = pack files (target_data_size opts.capacity_bytes opts.parity_percent)

-- The plan without and with parity discs, on a catalog with `c` discs of the prefix.
unfoldable pub with_parity : (ℕ → Text) → ℕ → ℕ → Options → List DiscPlan → List DiscPlan
unfolding laid_out
with_parity uuid drawn c opts plans =
    if not opts.cross_disc_parity || length plans == 0
    then plans
    else laid_out uuid opts.id_prefix (drawn + 1) (c + length plans)
        (chunks (length plans) (effective_group_size opts.group_size) plans)

unfoldable pub planned : Postgres → Catalog → List FileInfo → Options → List DiscPlan
unfolding numbered with_parity
planned pg db files opts =
    let c = count_disks opts.id_prefix db.disks in
    with_parity pg.uuid db.drawn c opts (numbered opts.id_prefix c (buckets_of files opts))

drawn-IsHealthy :
    (pg : Postgres) (db : Catalog)
    → IsHealthy pg db
    → IsHealthy pg (counted (record db { drawn = db.drawn + 1 }))
drawn-IsHealthy pg db h = record {
  answers = h.answers;
  distinct = h.distinct;
  unused = λ n later. h.unused n (omega arith);
  nonempty = h.nonempty;
}

new_burn_job_id-healthy :
    (pg : Postgres) (db : Catalog)
    → pg.outage db.statements ≡ none
    → new_burn_job_id pg db
      ≡ (ok (pg.uuid db.drawn), record db { drawn = db.drawn + 1; statements = db.statements + 1 })
unfolding new_burn_job_id
new_burn_job_id-healthy pg db e = ground arith

add_parity_discs-with_parity :
    (pg : Postgres) (opts : Options) (plans : List DiscPlan) (db : Catalog)
    → IsHealthy pg db
    → (after : Catalog) × (add_parity_discs (pgx_cataloger pg) opts plans db ≡ (
      ok (with_parity pg.uuid db.drawn (count_disks opts.id_prefix db.disks) opts plans),
      after,
    ))
      × (after.disks ≡ db.disks)
unfolding add_parity_discs with_parity
add_parity_discs-with_parity pg opts plans db h =
    elim (Bool-cases (not opts.cross_disc_parity || length plans == 0)) [
      | inl off ↦ (db, rw off, refl)
      | inr on ↦
          let (after, planned, same) =
            plan_groups-laid_out pg opts.id_prefix
              (chunks (length plans) (effective_group_size opts.group_size) plans)
              (counted (record db { drawn = db.drawn + 1 })) (pg.uuid db.drawn) (length plans) _
              (drawn-IsHealthy pg db h) refl in
          (after, rw (on, new_burn_job_id-healthy pg db (h.answers db.statements), planned), same)
    ]

SameRows-IsHealthy :
    (pg : Postgres) (db after : Catalog) → SameRows db after → IsHealthy pg db → IsHealthy pg after
SameRows-IsHealthy pg db after (_, groups, drawn) h = record {
  answers = h.answers;
  distinct = h.distinct;
  unused = λ n later. rw groups (h.unused n (omega arith));
  nonempty = h.nonempty;
}

-- On a healthy server planning succeeds, and gives this plan.
pub plan_job-planned :
    (pg : Postgres) (db : Catalog) (files : List FileInfo) (opts : Options)
    → IsHealthy pg db
    → (after : Catalog) × (plan_job (pgx_cataloger pg) (ok files) opts db
        ≡ (ok (planned pg db files opts), after))
      × (after.disks ≡ db.disks)
unfolding plan_job planned
plan_job-planned pg db files opts h =
    let (between, numbers, same) =
      plan_data-numbered pg opts.id_prefix (buckets_of files opts) db 0
        (count_disks opts.id_prefix db.disks) h.answers (omega arith) in
    let (after, groups, disks) =
      add_parity_discs-with_parity pg opts
        (numbered opts.id_prefix (count_disks opts.id_prefix db.disks) (buckets_of files opts))
        between (SameRows-IsHealthy pg db between same h) in
    (
      after,
      rw numbers (
          groups
          ∙ ap₂
              (λ d c. (
                ok (
                    with_parity pg.uuid d c opts (
                      numbered opts.id_prefix (count_disks opts.id_prefix db.disks)
                        (buckets_of files opts))),
                after,
              ))
              same.2 (ap (count_disks opts.id_prefix) same.0)),
      disks ∙ same.0,
    )
