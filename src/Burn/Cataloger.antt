-- ===== src/Burn/Cataloger.antt =====
-- The `Cataloger` of internal/burn/pipeline.go: its interface, and its implementation on the server.
use varis.Base.{ℕ, ◌+◌, List, Option, Text, ok}
use varis.Base.Effect.{Effect}
use varis.Db.{Catalog, Disk, FileRecord, Postgres, statement}
use varis.Db.Disks.{insert_disk_group, insert_disk, next_disk_id}
use varis.Db.Files.{insert_file, consume_staged_metadata}

pub record Cataloger : Type 1 where
  pub State : Type 0
  pub next_disk_id : Text → ℕ → Effect State Text
  pub new_burn_job_id : Effect State Text
  pub next_group_id : Text → ℕ → Effect State Text
  pub insert_disk : Disk → Effect State (Unit {0})
  pub insert_file : FileRecord → Effect State (Unit {0})
  pub consume_staged_metadata : Text → Effect State (Option (List Text) × Text)

-- `SELECT gen_random_uuid()`
unfoldable pub new_burn_job_id : Postgres → Effect Catalog Text
new_burn_job_id pg = statement pg λ db. (ok (pg.uuid db.drawn), record db { drawn = db.drawn + 1 })

abbrev pub pgx_cataloger : Postgres → Cataloger
pgx_cataloger pg = record {
  State = Catalog;
  next_disk_id = next_disk_id pg;
  new_burn_job_id = new_burn_job_id pg;
  next_group_id = insert_disk_group pg;
  insert_disk = insert_disk pg;
  insert_file = insert_file pg;
  consume_staged_metadata = consume_staged_metadata pg;
}
