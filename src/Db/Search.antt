-- ===== src/Db/Search.antt =====
-- `SearchFiles` of internal/db/files.go.
use varis.Base.{
  ℕ, Bool, ◌||◌, List, [], ◌∷◌, ◌++◌, Option, none, some, ltb, if◌then◌else◌, Text, text_eq, ok,
  take,
}
use varis.Base.Effect.{Effect}
use varis.Db.{Catalog, Disk, FileRecord, Postgres, statement}

-- What the query uses of the server: `contains_like text query` is `text ILIKE '%' || query || '%'`,
-- and `similarity` is that of pg_trgm, by the bits of its result, which is never negative, so that
-- they are ordered as the numbers are.
pub record TextSearch : Type 0 where
  pub contains_like : Text → Text → Bool
  pub similarity : Text → Text → ℕ

abbrev pub row_limit : ℕ
row_limit = 50

-- `array_to_string(tags, ' ')`
unfoldable pub array_to_string : List Text → Text
array_to_string [] = []
array_to_string (tag ∷ []) = tag
array_to_string (tag ∷ next ∷ tags) = tag ++ (b' ' ∷ array_to_string (next ∷ tags))

abbrev tags_text : Option (List Text) → Text
tags_text none = []
tags_text (some tags) = array_to_string tags

-- `GREATEST`
abbrev greater : ℕ → ℕ → ℕ
greater a b = if ltb a b then b else a

-- `files f JOIN disks d ON d.id = f.disk_id`, one file's rows and all.
unfoldable pub join_disks : FileRecord → List Disk → List FileRecord
join_disks f [] = []
join_disks f (d ∷ disks) =
    let rest = join_disks f disks in
    if text_eq d.id f.disk_id then record f { disk_is_dry_run = d.is_dry_run } ∷ rest else rest

unfoldable pub join_files : List FileRecord → List Disk → List FileRecord
unfolding join_disks
join_files [] disks = []
join_files (f ∷ files) disks = join_disks f disks ++ join_files files disks

module _ (ts : TextSearch) (query : Text) where
  -- The condition of `WHERE`.
  unfoldable pub matches : FileRecord → Bool
  unfolding array_to_string
  matches f =
      ts.contains_like f.original_path query
      || (ts.contains_like f.description query || ts.contains_like (tags_text f.tags) query)

  -- The key of `ORDER BY`.
  unfoldable pub rank : FileRecord → ℕ
  unfolding array_to_string
  rank f =
      greater (greater (ts.similarity f.original_path query) (ts.similarity f.description query))
        (ts.similarity (tags_text f.tags) query)

  unfoldable pub select_matching : List FileRecord → List FileRecord
  unfolding matches
  select_matching [] = []
  select_matching (f ∷ files) =
      let rest = select_matching files in if matches f then f ∷ rest else rest

  unfoldable pub insert_ranked : FileRecord → List FileRecord → List FileRecord
  unfolding rank
  insert_ranked f [] = f ∷ []
  insert_ranked f (g ∷ files) =
      let later = insert_ranked f files in
      if ltb (rank f) (rank g) then g ∷ later else f ∷ g ∷ files

  unfoldable pub sort_ranked : List FileRecord → List FileRecord
  unfolding insert_ranked
  sort_ranked [] = []
  sort_ranked (f ∷ files) = insert_ranked f (sort_ranked files)

-- The rows in the order of their rank, `LIMIT 50`. Rows of one rank stand in the order of the join
-- here; the server may give them in any other.
unfoldable pub search_files : Postgres → TextSearch → Text → Effect Catalog (List FileRecord)
unfolding join_files select_matching sort_ranked
search_files pg ts query = statement pg λ db. (
  ok (
      take row_limit
        (sort_ranked ts query (select_matching ts query (join_files db.files db.disks)))),
  db,
)
