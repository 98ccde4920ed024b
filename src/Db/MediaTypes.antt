-- ===== src/Db/MediaTypes.antt =====
-- internal/db/media_types.go
use varis.Base.{
  ℕ, ◌≡◌, inl, inr, refl, sym, ap, subst, ◌∙◌, true, Bool-cases, List, [], ◌∷◌, ◌++◌, Option, none,
  some, arith, ltb, if◌then◌else◌, Text, codes, text_eq, text_eq_iff, contains, Error, message, ok,
  err,
}
use varis.Base.Effect.{Effect, pure, throw, ◌>>=◌, proceed, for_each}
use varis.Db.{Catalog, MediaType, Postgres, optical, statement, counted, unique_violation}
use varis.Db.Disks.{media_names}

abbrev bd_r : MediaType
bd_r = record {
  name = codes "BD-R";
  capacity_bytes = 25_025_314_816;
  id_prefix = codes "BD";
  write_kind = optical;
}

abbrev bd_r_dl : MediaType
bd_r_dl = record {
  name = codes "BD-R DL";
  capacity_bytes = 50_050_629_632;
  id_prefix = codes "BDDL";
  write_kind = optical;
}

abbrev pub default_media_types : List MediaType
default_media_types = bd_r ∷ bd_r_dl ∷ []

-- `ON CONFLICT (name) DO NOTHING`
unfoldable pub insert_missing : MediaType → List MediaType → List MediaType
insert_missing mt types = if contains mt.name (media_names types) then types else types ++ mt ∷ []

-- `SELECT … WHERE name = $1`
unfoldable pub find_media_type : Text → List MediaType → Option MediaType
find_media_type name [] = none
find_media_type name (mt ∷ types) =
    if text_eq mt.name name then some mt else find_media_type name types

unfoldable pub insert_by_capacity : MediaType → List MediaType → List MediaType
insert_by_capacity mt [] = mt ∷ []
insert_by_capacity mt (other ∷ types) =
    let later = insert_by_capacity mt types in
    if ltb other.capacity_bytes mt.capacity_bytes then other ∷ later else mt ∷ other ∷ types

-- `ORDER BY capacity_bytes`
unfoldable pub order_by_capacity : List MediaType → List MediaType
unfolding insert_by_capacity
order_by_capacity [] = []
order_by_capacity (mt ∷ types) = insert_by_capacity mt (order_by_capacity types)

abbrev no_media_type : Text → Error
no_media_type name = message (codes "media type %q not found") (name ∷ [])

module _ (pg : Postgres) where
  unfoldable pub seed_one : MediaType → Effect Catalog (Unit {0})
  unfolding insert_missing
  seed_one mt =
      statement pg λ db. (ok tt, record db { media_types = insert_missing mt db.media_types })

  unfoldable pub seed_media_types : Effect Catalog (Unit {0})
  unfolding seed_one for_each
  seed_media_types = for_each seed_one default_media_types

  unfoldable pub list_media_types : Effect Catalog (List MediaType)
  unfolding order_by_capacity
  list_media_types = statement pg λ db. (ok (order_by_capacity db.media_types), db)

  unfoldable pub add_media_type : MediaType → Effect Catalog (Unit {0})
  add_media_type mt = statement pg λ db.
      if contains mt.name (media_names db.media_types)
      then (err unique_violation, db)
      else (ok tt, record db { media_types = db.media_types ++ mt ∷ [] })

  unfoldable pub get_media_type_capacity : Text → Effect Catalog ℕ
  unfolding find_media_type
  get_media_type_capacity name = do
    row ← statement pg (λ db. (ok (find_media_type name db.media_types), db))
    elim row [ none ↦ throw (no_media_type name) | some mt ↦ pure mt.capacity_bytes ]

  unfoldable pub get_media_type : Text → Effect Catalog MediaType
  unfolding find_media_type
  get_media_type name = do
    row ← statement pg (λ db. (ok (find_media_type name db.media_types), db))
    elim row [ none ↦ throw (no_media_type name) | some mt ↦ pure mt ]

abbrev pub or_else : Option MediaType → Option MediaType → Option MediaType
or_else none other = other
or_else (some mt) other = some mt

or_else-none : (row : Option MediaType) → or_else row none ≡ row
or_else-none none = refl
or_else-none (some mt) = refl

or_else_assoc : (a b c : Option MediaType) → or_else (or_else a b) c ≡ or_else a (or_else b c)
or_else_assoc none b c = refl
or_else_assoc (some mt) b c = refl

find_media_type-append :
    (name : Text) (xs ys : List MediaType)
    → find_media_type name (xs ++ ys) ≡ or_else (find_media_type name xs) (find_media_type name ys)
unfolding find_media_type
find_media_type-append name [] ys = refl
find_media_type-append name (x ∷ xs) ys = ground (arith, find_media_type-append name xs ys)

-- A name of the table has a row.
find_media_type-contains :
    (name : Text) (types : List MediaType) (other : Option MediaType)
    → contains name (media_names types) ≡ true
    → or_else (find_media_type name types) other ≡ find_media_type name types
unfolding find_media_type contains
find_media_type-contains name [] other h = ground arith
find_media_type-contains name (x ∷ xs) other h =
    ground (arith, find_media_type-contains name xs other)

find-insert_missing :
    (name : Text) (mt : MediaType) (types : List MediaType)
    → find_media_type name (insert_missing mt types)
      ≡ or_else (find_media_type name types) (find_media_type name (mt ∷ []))
unfolding insert_missing find_media_type
find-insert_missing name mt types = elim (Bool-cases (contains mt.name (media_names types))) [
  | inl there ↦ elim (Bool-cases (text_eq mt.name name)) [
    | inl same ↦
        rw (there, same)
          (sym (
            find_media_type-contains name types (some mt) (
              subst (λ n. contains n (media_names types) ≡ true) ((text_eq_iff mt.name name).0 same)
                there)))
    | inr other ↦ rw (there, other) (sym (or_else-none (find_media_type name types)))
  ]
  | inr missing ↦ rw missing (find_media_type-append name types (mt ∷ []))
]

abbrev seeded : MediaType → Catalog → Catalog
seeded mt db = record (counted db) { media_types = insert_missing mt db.media_types }

seed_one-answers :
    (pg : Postgres) (mt : MediaType) (db : Catalog)
    → pg.outage db.statements ≡ none
    → seed_one pg mt db ≡ (ok tt, seeded mt db)
unfolding seed_one
seed_one-answers pg mt db h =
    ap (λ o. elim o [ some e ↦ (err e, counted db) | none ↦ (ok tt, seeded mt db) ]) h

-- On a server that answers, seeding succeeds, and a name then has the row that it had before, or
-- else that of the defaults with this name.
pub find-seed_media_types :
    (pg : Postgres) (db : Catalog)
    → ((n : ℕ) → pg.outage n ≡ none)
    → (after : Catalog) × (seed_media_types pg db ≡ (ok tt, after))
      × ((name : Text)
          → find_media_type name after.media_types
            ≡ or_else
                (find_media_type name db.media_types)
                (find_media_type name default_media_types))
unfolding seed_media_types for_each
find-seed_media_types pg db answers = (
  seeded bd_r_dl (seeded bd_r db),
  ap (proceed (λ _. for_each (seed_one pg) (bd_r_dl ∷ [])))
        (seed_one-answers pg bd_r db (answers _))
      ∙ ap (proceed (λ _. for_each (seed_one pg) []))
          (seed_one-answers pg bd_r_dl (seeded bd_r db) (answers _)),
  λ name.
      find-insert_missing name bd_r_dl (insert_missing bd_r db.media_types)
      ∙ ap (λ row. or_else row (find_media_type name (bd_r_dl ∷ [])))
          (find-insert_missing name bd_r db.media_types)
      ∙ or_else_assoc (find_media_type name db.media_types) _ _
      ∙ ap (or_else (find_media_type name db.media_types))
          (sym (find_media_type-append name (bd_r ∷ []) (bd_r_dl ∷ []))),
)
