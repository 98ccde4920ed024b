-- ===== src/Db/Files.antt =====
-- internal/db/files.go and internal/db/staged_metadata.go
use varis.Base.{
  ◌+◌, List, [], ◌∷◌, ◌++◌, map, Option, none, some, if◌then◌else◌, Text, text_eq, contains,
  not_found, Result, ok, err,
}
use varis.Base.Dict.{Dict, lookup, insert, remove}
use varis.Base.Effect.{Effect, pure, throw, ◌>>=◌}
use varis.Db.{
  Catalog, FileRecord, StagedMetadata, Postgres, statement, foreign_key_violation, unique_violation,
  id_drawn, not_null_violation,
}
use varis.Db.Disks.{disk_ids}

-- `SELECT … FROM files WHERE id = $1`
unfoldable pub find_file : Text → List FileRecord → Option FileRecord
find_file id [] = none
find_file id (f ∷ files) = if text_eq f.id id then some f else find_file id files

-- A nil slice would be sent as NULL; it is replaced by the empty one.
abbrev pub non_nil : Option (List Text) → Option (List Text)
non_nil none = some []
non_nil (some tags) = some tags

abbrev pub file_ids : List FileRecord → List Text
file_ids = map (λ f. f.id)

module _ (pg : Postgres) where
  -- The row's id is drawn by the table's default, also for a row that is refused.
  unfoldable pub insert_row :
      FileRecord → Option (List Text) → Catalog → Result (Unit {0}) × Catalog
  insert_row f none db = (err not_null_violation, id_drawn db)
  insert_row f (some tags) db =
      if contains (pg.uuid db.drawn) (file_ids db.files)
      then (err unique_violation, id_drawn db)
      else if contains f.disk_id (disk_ids db.disks)
      then (
        ok tt,
        record db {
          files = db.files ++ record f { id = pg.uuid db.drawn; tags = some tags } ∷ [];
          drawn = db.drawn + 1;
        },
      )
      else (err foreign_key_violation, id_drawn db)

  unfoldable pub insert_file : FileRecord → Effect Catalog (Unit {0})
  unfolding insert_row
  insert_file f = statement pg (insert_row f (non_nil f.tags))

  unfoldable pub get_file : Text → Effect Catalog FileRecord
  unfolding find_file
  get_file id = do
    row ← statement pg (λ db. (ok (find_file id db.files), db))
    elim row [ none ↦ throw (not_found id) | some f ↦ pure f ]

  unfoldable pub upsert_staged_metadata :
      Text → Option (List Text) → Text → Effect Catalog (Unit {0})
  upsert_staged_metadata path tags description = statement pg λ db. elim (non_nil tags) [
    | none ↦ (err not_null_violation, db)
    | some t ↦
        let m : StagedMetadata = record { tags = t; description = description } in
        (ok tt, record db { staged_metadata = insert path m db.staged_metadata })
  ]

  unfoldable pub list_staged_metadata : Effect Catalog (Dict StagedMetadata)
  list_staged_metadata = statement pg λ db. (ok db.staged_metadata, db)

  -- `DELETE … RETURNING`: a path without a row gives the nil slice and no description.
  unfoldable pub consume_staged_metadata : Text → Effect Catalog (Option (List Text) × Text)
  consume_staged_metadata path = do
    row ← statement pg (λ db. (
      ok (lookup path db.staged_metadata),
      record db { staged_metadata = remove path db.staged_metadata },
    ))
    elim row [ none ↦ pure (none, []) | some m ↦ pure (some m.tags, m.description) ]
