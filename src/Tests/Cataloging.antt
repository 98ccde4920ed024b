-- ===== src/Tests/Cataloging.antt =====
-- The catalog on a server that answers.
use varis.Base.{
  ◌≡◌, refl, [], ◌∷◌, none, some, if◌then◌else◌, Text, codes, text_eq, contains, Error, ok, err,
}
use varis.Base.Dict.{lookup}
use varis.Db.{Catalog, Disk, counted, optical}
use varis.Db.Disks.{insert_disk, delete_dry_run_disc}
use varis.Db.DryRuns.{delete_dry_run_disc-IsReal}
use varis.Db.Files.{upsert_staged_metadata, consume_staged_metadata}
use varis.Db.Metadata.{consume-upsert}
use varis.Burn.Cataloger.{pgx_cataloger}
use varis.Burn.Disc.{disk_row, commit_disc}
use varis.Burn.Disc.Again.{commit_disc-again}
use varis.Tests.Planning.{server, empty_catalog}
use varis.Tests.Burning.{machine, dirs, options, disc}

abbrev row : Disk
row = disk_row (pgx_cataloger server) machine dirs options disc (codes "hash")

abbrev media : Catalog
media = record empty_catalog {
  media_types =
      record {
        name = codes "BD-R";
        capacity_bytes = 11;
        id_prefix = codes "BD";
        write_kind = optical;
      }
      ∷ [];
}

abbrev burned : Catalog
burned = record (counted media) { disks = record row { created_at = 1 } ∷ [] }

delete_dry_run_disc_example :
    ((delete_dry_run_disc server (codes "BD:0001") burned).1.disks ≡ burned.disks)
    × ((delete_dry_run_disc server (codes "BD:0001") burned).1.files ≡ burned.files)
unfolding text_eq
delete_dry_run_disc_example = delete_dry_run_disc-IsReal server (codes "BD:0001") burned (refl, tt)

consume-upsert_example :
    (entered after : Catalog) × (upsert_staged_metadata server (codes "a") none (codes "note") media
      ≡ (ok tt, entered))
    × (consume_staged_metadata server (codes "a") entered ≡ (ok (some [], codes "note"), after))
    × ((other : Text)
        → lookup other after.staged_metadata
          ≡ (if text_eq (codes "a") other then none else lookup other media.staged_metadata))
consume-upsert_example = consume-upsert server (codes "a") none (codes "note") media (λ n. refl)

commit_disc-again_example :
    (e : Error) × (commit_disc
        (pgx_cataloger server)
        machine
        dirs
        options
        disc
        (codes "hash")
        burned
      ≡ (err e, counted burned))
unfolding insert_disk contains text_eq
commit_disc-again_example =
    commit_disc-again server machine dirs options disc (codes "hash") (codes "hash") media burned
      burned [] refl refl
