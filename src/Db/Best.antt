-- ===== src/Db/Best.antt =====
-- Which files a search of internal/db/files.go returns.
use varis.Base.{
  suc, ◌≤◌, min, ◌≡◌, ◌⊎◌, inl, inr, refl, sym, ap, subst, ◌∙◌, true, false, Bool-cases, List, [],
  ◌∷◌, ◌++◌, none, some, arith, ltb, if◌then◌else◌, Text, text_eq, Result, ok, err, length, take,
  drop, All, All-imp, length-take, take-append-drop,
}
use mathlib.Core.List.{Mem, Perm, mem-cons, Mem-prop, mem-cons_self, mem-cons_of_mem}
use mathlib.Core.List.Perm
use mathlib.Core.Logic.Or
use varis.Db.{Catalog, Disk, FileRecord, Postgres, counted}
use varis.Db.Search.{
  TextSearch, row_limit, join_files, matches, rank, select_matching, insert_ranked, sort_ranked,
  search_files,
}
use varis.Db.Joined.{shown, join_files-All, join_files-has}

module _ (ts : TextSearch) (query : Text) where
  -- No row is followed by one of a higher rank.
  abbrev pub Ranked : List FileRecord → Type 0
  Ranked [] = Unit
  Ranked (f ∷ files) = All (λ g. rank ts query g ≤ rank ts query f) files × Ranked files

  -- The row of a file and its disc, where the query is found.
  pub record IsHit (files : List FileRecord) (disks : List Disk) (row : FileRecord) : Type 0 where
    pub file : FileRecord
    pub disk : Disk
    pub of_file : Mem file files
    pub of_disk : Mem disk disks
    pub on_disk : text_eq disk.id file.disk_id ≡ true
    pub row_of : row ≡ shown file disk
    pub found : matches ts query row ≡ true

  -- Every such row of the files and discs is among the rows.
  abbrev pub HasHits : List FileRecord → List Disk → List FileRecord → Type 0
  HasHits files disks rows =
      All
        (λ f.
          All
            (λ d.
              text_eq d.id f.disk_id ≡ true
              → matches ts query (shown f d) ≡ true
              → Mem (shown f d) rows)
            disks)
        files

  -- The rows of the join that match.
  abbrev pub hits_in : Catalog → List FileRecord
  hits_in db = select_matching ts query (join_files db.files db.disks)

  -- The first rows of all hits, by their rank.
  pub record IsBest (db : Catalog) (rows : List FileRecord) : Type 0 where
    pub rest : List FileRecord
    pub shares : Perm (rows ++ rest) (hits_in db)
    pub are_hits : All (IsHit db.files db.disks) (hits_in db)
    pub has_hits : HasHits db.files db.disks (hits_in db)
    pub size : length rows ≡ min row_limit (length (hits_in db))
    pub ranked : Ranked (rows ++ rest)

  insert_ranked-perm :
      (f : FileRecord) (files : List FileRecord) → Perm (insert_ranked ts query f files) (f ∷ files)
  unfolding insert_ranked
  insert_ranked-perm f [] = Perm.refl _
  insert_ranked-perm f (g ∷ files) = elim (Bool-cases (ltb (rank ts query f) (rank ts query g))) [
    | inl lower ↦
        rw lower (Perm.trans (Perm.cons g (insert_ranked-perm f files)) (Perm.swap f g files))
    | inr other ↦ rw other (Perm.refl _)
  ]

  sort_ranked-perm : (files : List FileRecord) → Perm (sort_ranked ts query files) files
  unfolding sort_ranked
  sort_ranked-perm [] = Perm.nil
  sort_ranked-perm (f ∷ files) =
      Perm.trans (insert_ranked-perm f (sort_ranked ts query files))
        (Perm.cons f (sort_ranked-perm files))

  insert_ranked-All :
      (P : FileRecord → Type 0) (f : FileRecord) (files : List FileRecord)
      → P f
      → All P files
      → All P (insert_ranked ts query f files)
  unfolding insert_ranked
  insert_ranked-All P f [] h hs = (h, tt)
  insert_ranked-All P f (g ∷ files) h hs =
      elim (Bool-cases (ltb (rank ts query f) (rank ts query g))) [
        | inl lower ↦ rw lower (hs.0, insert_ranked-All P f files h hs.1)
        | inr other ↦ rw other (h, hs)
      ]

  insert_ranked-Ranked :
      (f : FileRecord) (files : List FileRecord)
      → Ranked files
      → Ranked (insert_ranked ts query f files)
  unfolding insert_ranked
  insert_ranked-Ranked f [] h = (tt, tt)
  insert_ranked-Ranked f (g ∷ files) h =
      elim (Bool-cases (ltb (rank ts query f) (rank ts query g))) [
        | inl lower ↦ rw lower (
          insert_ranked-All (λ x. rank ts query x ≤ rank ts query g) f files (ground arith) h.0,
          insert_ranked-Ranked f files h.1,
        )
        | inr other ↦ rw other (
          (
            ground arith,
            All-imp (λ x. rank ts query x ≤ rank ts query g)
                (λ x. rank ts query x ≤ rank ts query f) (λ x k. ground arith) files h.0,
          ),
          h,
        )
      ]

  sort_ranked-Ranked : (files : List FileRecord) → Ranked (sort_ranked ts query files)
  unfolding sort_ranked
  sort_ranked-Ranked [] = tt
  sort_ranked-Ranked (f ∷ files) = insert_ranked-Ranked f _ (sort_ranked-Ranked files)

  length-insert_ranked :
      (f : FileRecord) (files : List FileRecord)
      → length (insert_ranked ts query f files) ≡ suc (length files)
  unfolding insert_ranked
  length-insert_ranked f [] = refl
  length-insert_ranked f (g ∷ files) = ground (arith, length-insert_ranked f files)

  length-sort_ranked :
      (files : List FileRecord) → length (sort_ranked ts query files) ≡ length files
  unfolding sort_ranked
  length-sort_ranked [] = refl
  length-sort_ranked (f ∷ files) = length-insert_ranked f _ ∙ ap suc (length-sort_ranked files)

  select_matching-All :
      (P Q : FileRecord → Type 0)
      → ((row : FileRecord) → P row → matches ts query row ≡ true → Q row)
      → (rows : List FileRecord) → All P rows
      → All Q (select_matching ts query rows)
  unfolding select_matching
  select_matching-All P Q f [] h = tt
  select_matching-All P Q f (row ∷ rows) h = elim (Bool-cases (matches ts query row)) [
    | inl found ↦ rw found (f row h.0 found, select_matching-All P Q f rows h.1)
    | inr other ↦ rw other (select_matching-All P Q f rows h.1)
  ]

  mem-select_matching :
      (row : FileRecord) (rows : List FileRecord)
      → matches ts query row ≡ true
      → Mem row rows
      → Mem row (select_matching ts query rows)
  unfolding select_matching
  mem-select_matching row [] found m = m
  mem-select_matching row (other ∷ rows) found m =
      Or.elim Mem-prop (mem-cons.0 m)
        (λ (same : row ≡ other).
          subst (λ r. Mem row (if matches ts query r then r ∷ rest else rest)) same
            (rw found mem-cons_self))
        (λ (later : Mem row rows).
          kept (Bool-cases (matches ts query other)) (mem-select_matching row rows found later))
    where
      rest : List FileRecord
      rest = select_matching ts query rows

      kept :
          ((matches ts query other ≡ true) ⊎ (matches ts query other ≡ false))
          → Mem row rest
          → Mem row (if matches ts query other then other ∷ rest else rest)
      kept (inl hit) there = rw hit (mem-cons_of_mem other there)
      kept (inr miss) there = rw miss there

-- On a server that answers, a search changes no table. It returns the first of all hits, at most 50
-- and all where there are no more; none has a lower rank than one that is left out or stands
-- behind it. The hits are the matching rows of the join, each as often as there: the rows of a file with its disc's flag, for each file and each disc with
-- the file's disk id such that the path, the description or the tags match the query, and no others.
pub search_files-IsBest :
    (pg : Postgres) (ts : TextSearch) (query : Text) (db : Catalog)
    → pg.outage db.statements ≡ none
    → (rows : List FileRecord) × (search_files pg ts query db ≡ (ok rows, counted db))
      × IsBest ts query db rows
unfolding search_files
search_files-IsBest pg ts query db answers = (
  take row_limit sorted,
  ap
      (λ o. elim o as (λ _. Result (List FileRecord) × Catalog) [
        | some e ↦ (err e, counted db)
        | none ↦ (ok (take row_limit sorted), counted db)
      ])
      answers,
  record {
    rest = drop row_limit sorted;
    shares =
        subst (λ rows. Perm rows hits) (sym (take-append-drop row_limit sorted))
          (sort_ranked-perm ts query hits);
    are_hits =
        select_matching-All ts query
          (λ row.
            (f : FileRecord) × (d : Disk) × Mem f db.files
            × Mem d db.disks
            × (text_eq d.id f.disk_id ≡ true)
            × (row ≡ shown f d))
          (IsHit ts query db.files db.disks)
          (λ row (f, d, mf, md, same, e) found. record {
            file = f;
            disk = d;
            of_file = mf;
            of_disk = md;
            on_disk = same;
            row_of = e;
            found = found;
          })
          joined
          (join_files-All _ db.files db.disks (λ f mf d md same. (f, d, mf, md, same, refl)));
    has_hits =
        All-imp _ _
          (λ f.
            All-imp _ _
              (λ d h same found. mem-select_matching ts query (shown f d) joined found (h same))
              db.disks)
          db.files (join_files-has db.files db.disks);
    size = length-take row_limit sorted ∙ ap (min row_limit) (length-sort_ranked ts query hits);
    ranked =
        subst (Ranked ts query) (sym (take-append-drop row_limit sorted))
          (sort_ranked-Ranked ts query hits);
  },
)
  where
    joined : List FileRecord
    joined = join_files db.files db.disks

    hits : List FileRecord
    hits = hits_in ts query db

    sorted : List FileRecord
    sorted = sort_ranked ts query hits
