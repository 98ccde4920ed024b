-- ===== src/Db/Metadata.antt =====
-- The metadata of a staged file, from its entry to its use.
use varis.Base.{
  ℕ, ◌≡◌, inl, inr, refl, ap, ◌∙◌, Bool-cases, List, [], ◌∷◌, Option, none, some, arith,
  if◌then◌else◌, Text, text_eq, text_eq_refl, ok, err,
}
use varis.Base.Dict.{Dict, lookup, insert, remove, lookup-insert, lookup-remove}
use varis.Db.{Catalog, Postgres, StagedMetadata, counted}
use varis.Db.Files.{upsert_staged_metadata, consume_staged_metadata, non_nil}

remove-insert :
    (k : Text) (v : StagedMetadata) (m : Dict StagedMetadata) → remove k (insert k v m) ≡ remove k m
unfolding remove insert
remove-insert k v [] = rw (text_eq_refl k)
remove-insert k v ((j, w) ∷ m) = elim (Bool-cases (text_eq j k)) [
  | inl same ↦ rw (same, text_eq_refl k)
  | inr other ↦ rw (other, other) (ap (λ rest. (j, w) ∷ rest) (remove-insert k v m))
]

module _ (pg : Postgres) (path : Text) (t : List Text) (description : Text) (db : Catalog) where
  abbrev metadata : StagedMetadata
  metadata = record { tags = t; description = description }

  abbrev entered : Catalog
  entered = record (counted db) { staged_metadata = insert path metadata db.staged_metadata }

  abbrev consumed : Catalog
  consumed = record (counted entered) { staged_metadata = remove path entered.staged_metadata }

  consume-entered :
      pg.outage entered.statements ≡ none
      → consume_staged_metadata pg path entered ≡ (ok (some t, description), consumed)
  unfolding consume_staged_metadata
  consume-entered h =
      ground (arith, h, lookup-insert path path metadata db.staged_metadata, text_eq_refl path)

  lookup-consumed :
      (other : Text)
      → lookup other consumed.staged_metadata
        ≡ (if text_eq path other then none else lookup other db.staged_metadata)
  lookup-consumed other =
      ap (lookup other) (remove-insert path metadata db.staged_metadata)
      ∙ lookup-remove path other db.staged_metadata

upsert-entered :
    (pg : Postgres) (path : Text) (tags : Option (List Text)) (description : Text) (db : Catalog)
    → pg.outage db.statements ≡ none
    → (t : List Text) × (non_nil tags ≡ some t)
      × (upsert_staged_metadata pg path tags description db
          ≡ (ok tt, entered pg path t description db))
unfolding upsert_staged_metadata
upsert-entered pg path none description db h = (
  [],
  refl,
  ap
      (λ o. elim o [
        | some e ↦ (err e, counted db)
        | none ↦ (ok tt, entered pg path [] description db)
      ])
      h,
)
upsert-entered pg path (some t) description db h = (
  t,
  refl,
  ap
      (λ o. elim o [
        | some e ↦ (err e, counted db)
        | none ↦ (ok tt, entered pg path t description db)
      ])
      h,
)

-- On a server that answers: what is entered for a path is what its file is archived with, an empty
-- list in place of no tags, and then nothing is left for the path; other paths keep what they had.
pub consume-upsert :
    (pg : Postgres) (path : Text) (tags : Option (List Text)) (description : Text) (db : Catalog)
    → ((n : ℕ) → pg.outage n ≡ none)
    → (entered after : Catalog) × (upsert_staged_metadata pg path tags description db
        ≡ (ok tt, entered))
      × (consume_staged_metadata pg path entered ≡ (ok (non_nil tags, description), after))
      × ((other : Text)
          → lookup other after.staged_metadata
            ≡ (if text_eq path other then none else lookup other db.staged_metadata))
consume-upsert pg path tags description db answers =
    let (t, given, upserted) = upsert-entered pg path tags description db (answers _) in
    (
      entered pg path t description db,
      consumed pg path t description db,
      upserted,
      rw given (consume-entered pg path t description db (answers _)),
      lookup-consumed pg path t description db,
    )
