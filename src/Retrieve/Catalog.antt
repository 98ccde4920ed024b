-- ===== src/Retrieve/Catalog.antt =====
-- internal/retrieve/catalog.go: the interface, and its implementation on the server.
use varis.Base.{ℕ, List, Text}
use varis.Base.Effect.{Effect}
use varis.Db
use varis.Db.{Disk, FileRecord, Postgres}
use varis.Db.Disks.{get_disk, group_members}
use varis.Db.Files.{get_file}
use varis.Db.MediaTypes.{get_media_type_capacity}

pub record Catalog (W : Type 0) : Type 0 where
  pub get_file : Text → Effect W FileRecord
  pub get_disk : Text → Effect W Disk
  pub group_members : Text → Effect W (List Disk)
  pub media_capacity : Text → Effect W ℕ

abbrev pub db_catalog : Postgres → Catalog Db.Catalog
db_catalog pg = record {
  get_file = get_file pg;
  get_disk = get_disk pg;
  group_members = group_members pg;
  media_capacity = get_media_type_capacity pg;
}
