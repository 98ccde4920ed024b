-- ===== src/Web/Reading.antt =====
-- Steps and handlers that only read the catalog.
use varis.Base.{ℕ, ◌≡◌, refl, ◌∙◌, Option, none, some, Error, Result, ok, err}
use varis.Base.Effect.{Effect, lift, proceed}
use varis.Db.{Catalog, Postgres, statement, counted}
use varis.Web.Answer.{
  Attempt, goes, stops, Handler, answer, go_on, attempted, or_status, on_machine, on_catalog,
}

-- The tables, and with them the random ids, are as they were.
pub record SameTables (db after : Catalog) : Type 0 where
  pub media_types : after.media_types ≡ db.media_types
  pub disk_groups : after.disk_groups ≡ db.disk_groups
  pub disks : after.disks ≡ db.disks
  pub files : after.files ≡ db.files
  pub staged_metadata : after.staged_metadata ≡ db.staged_metadata
  pub drawn : after.drawn ≡ db.drawn

pub same : (db : Catalog) → SameTables db db
same db = record {
  media_types = refl;
  disk_groups = refl;
  disks = refl;
  files = refl;
  staged_metadata = refl;
  drawn = refl;
}

same_counted : (db : Catalog) → SameTables db (counted db)
same_counted db = record {
  media_types = refl;
  disk_groups = refl;
  disks = refl;
  files = refl;
  staged_metadata = refl;
  drawn = refl;
}

same_trans : (a b c : Catalog) → SameTables a b → SameTables b c → SameTables a c
same_trans a b c h k = record {
  media_types = k.media_types ∙ h.media_types;
  disk_groups = k.disk_groups ∙ h.disk_groups;
  disks = k.disks ∙ h.disks;
  files = k.files ∙ h.files;
  staged_metadata = k.staged_metadata ∙ h.staged_metadata;
  drawn = k.drawn ∙ h.drawn;
}

-- Statements that leave the tables alone.
unfoldable pub Queries : {A : Type 0} → Effect Catalog A → Type 0
Queries step = (db : Catalog) → SameTables db (step db).1

-- A statement that asks for rows.
pub statement-Queries :
    {A : Type 0} (pg : Postgres) (rows : Catalog → Result A)
    → Queries (statement pg (λ db. (rows db, db)))
unfolding Queries
statement-Queries {A} pg rows db = answered (pg.outage db.statements)
  where
    answered :
        (o : Option Error)
        → SameTables db
            (elim o as (λ _. Result A × Catalog) [
              | some e ↦ (err e, counted db)
              | none ↦ (rows (counted db), counted db)
            ]).1
    answered (some e) = same_counted db
    answered none = same_counted db

pub proceed-Queries :
    {A B : Type 0} (step : Effect Catalog A) (next : A → Effect Catalog B)
    → Queries step
    → ((a : A) → Queries (next a))
    → Queries (λ s. proceed next (step s))
unfolding Queries
proceed-Queries {A} {B} step next h k db = at (step db) (h db)
  where
    at : (r : Result A × Catalog) → SameTables db r.1 → SameTables db (proceed next r).1
    at (ok a, d) g = same_trans db d _ g (k a d)
    at (err e, d) g = g

pub return-Queries : {A : Type 0} (r : Result A) → Queries (lift r)
unfolding Queries
return-Queries r db = same db

module _ (M : Type 0) where
  -- Steps and handlers that leave the tables alone.
  unfoldable pub Reads : {A : Type 0} → Effect (M × Catalog) A → Type 0
  Reads step = (w : M) (db : Catalog) → SameTables db (step (w, db)).1.1

  unfoldable pub Shows : {A : Type 0} → Handler (M × Catalog) A → Type 0
  Shows handler = (w : M) (db : Catalog) → SameTables db (handler (w, db)).1.1

  pub on_machine-Reads : {A : Type 0} (step : Effect M A) → Reads (on_machine step)
  unfolding Reads Shows Queries
  on_machine-Reads step w db = same db

  pub on_catalog-Reads :
      {A : Type 0} (step : Effect Catalog A) → Queries step → Reads (on_catalog step)
  unfolding Reads Shows Queries
  on_catalog-Reads step h w db = h db

  pub proceed-Reads :
      {A B : Type 0} (step : Effect (M × Catalog) A) (next : A → Effect (M × Catalog) B)
      → Reads step
      → ((a : A) → Reads (next a))
      → Reads (λ s. proceed next (step s))
  unfolding Reads Shows Queries
  proceed-Reads {A} {B} step next h k w db = at (step (w, db)) (h w db)
    where
      at : (r : Result A × (M × Catalog)) → SameTables db r.1.1 → SameTables db (proceed next r).1.1
      at (ok a, (v, d)) g = same_trans db d _ g (k a v d)
      at (err e, (v, d)) g = g

  pub return-Reads : {A : Type 0} (r : Result A) → Reads (lift r)
  unfolding Reads
  return-Reads r w db = same db

  pub answer-Shows : {A : Type 0} (a : A) → Shows (answer a)
  unfolding Reads Shows Queries
  answer-Shows a w db = same db

  pub or_status-Shows :
      {A : Type 0} (status : ℕ) (step : Effect (M × Catalog) A)
      → Reads step
      → Shows (or_status status step)
  unfolding Reads Shows Queries
  or_status-Shows {A} status step h w db = at (step (w, db)) (h w db)
    where
      at :
          (r : Result A × (M × Catalog))
          → SameTables db r.1.1
          → SameTables db (attempted status r).1.1
      at (ok a, s) g = g
      at (err e, s) g = g

  pub go_on-Shows :
      {A B : Type 0} (step : Handler (M × Catalog) A) (next : A → Handler (M × Catalog) B)
      → Shows step
      → ((a : A) → Shows (next a))
      → Shows (λ s. go_on next (step s))
  unfolding Reads Shows Queries
  go_on-Shows {A} {B} step next h k w db = at (step (w, db)) (h w db)
    where
      at : (r : Attempt A × (M × Catalog)) → SameTables db r.1.1 → SameTables db (go_on next r).1.1
      at (goes a, (v, d)) g = same_trans db d _ g (k a v d)
      at (stops status e, (v, d)) g = g
