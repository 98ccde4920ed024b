-- ===== src/Web/Adding.antt =====
-- What the dashboard of internal/web/dashboard.go adds up.
use varis.Base.{
  ℕ, ◌+◌, ◌%◌, ◌^◌, ◌≡◌, inl, inr, refl, sym, ap, ap₂, subst, ◌∙◌, true, false, Bool-cases, List,
  [], ◌∷◌, ◌++◌, map, Option, none, some, arith, Text, codes, text_eq, text_eq_iff, text_eq_refl,
  contains, Result, ok, err, All,
}
use varis.Base.Dict.{Dict, lookup}
use varis.Base.Sorting.{text_ltb, Ascending, Distinct}
use varis.Os.{Os}
use varis.Db.{Catalog, Postgres, StagedMetadata, statement, counted}
use varis.Db.Files.{list_staged_metadata}
use varis.Db.MediaTypes.{list_media_types, order_by_capacity}
use varis.Burn.Job as BurnJob
use varis.Binpack.{FileInfo}
use varis.Binpack.Scan.{scan_staging}
use varis.Webdav.Size.{sum_sizes, dir_size-scan_staging}
use varis.Web.Staging.{
  StagedFileRow, StagedFolderGroup, folder_of, row_with, row_of, group_staged_files,
}
use varis.Web.Scanned.{staged_file_groups}
use varis.Web.Grouping.{in_folder, folders_of, folder, group_staged_files-Shows}
use varis.Web.Server.{JobView}
use varis.Web.Answer.{goes}
use varis.Web.Front.{DashboardData, current_job_view, dashboard}

-- The sizes that are shown.
abbrev pub sum_rows : List StagedFileRow → ℕ
sum_rows [] = 0
sum_rows (row ∷ rows) = row.size + sum_rows rows

abbrev pub sum_groups : List StagedFolderGroup → ℕ
sum_groups [] = 0
sum_groups (g ∷ groups) = sum_rows g.files + sum_groups groups

-- The files of these folders.
abbrev sum_folders : List Text → List FileInfo → ℕ
sum_folders [] files = 0
sum_folders (name ∷ names) files = sum_sizes (in_folder name files) + sum_folders names files

text_ltb_irrefl : (s : Text) → text_ltb s s ≡ false
unfolding text_ltb
text_ltb_irrefl [] = refl
text_ltb_irrefl (c ∷ s) = ground (arith, text_ltb_irrefl s)

absent_of_strict :
    (x : Text) (xs : List Text) → All (λ y. text_ltb x y ≡ true) xs → contains x xs ≡ false
unfolding contains
absent_of_strict x [] h = refl
absent_of_strict x (y ∷ xs) h =
    ground
      (arith, h.0, text_eq_iff y x, text_eq_iff x y, text_ltb_irrefl x, absent_of_strict x xs h.1)

Ascending-Distinct : (xs : List Text) → Ascending xs → Distinct xs
Ascending-Distinct [] h = tt
Ascending-Distinct (x ∷ xs) h = (absent_of_strict x xs h.0, Ascending-Distinct xs h.1)

sum_folders_outside :
    (f : FileInfo) (names : List Text) (files : List FileInfo)
    → contains (folder_of f.path) names ≡ false
    → sum_folders names (f ∷ files) ≡ sum_folders names files
unfolding in_folder contains
sum_folders_outside f [] files h = refl
sum_folders_outside f (name ∷ names) files h = elim (Bool-cases (text_eq (folder_of f.path) name)) [
  | inl here ↦
      absurd (ground (arith, here, h, text_eq_iff (folder_of f.path) name, text_eq_refl name))
  | inr other ↦ rw other (
      ap (λ n. sum_sizes (in_folder name files) + n)
        (sum_folders_outside f names files (
          ground (
            arith,
            other,
            h,
            text_eq_iff (folder_of f.path) name,
            text_eq_iff name (folder_of f.path),
          ))))
]

sum_folders_inside :
    (f : FileInfo) (names : List Text) (files : List FileInfo)
    → Distinct names
    → contains (folder_of f.path) names ≡ true
    → sum_folders names (f ∷ files) ≡ f.size + sum_folders names files
unfolding in_folder contains
sum_folders_inside f [] files d h = absurd (cc h)
sum_folders_inside f (name ∷ names) files d h =
    elim (Bool-cases (text_eq (folder_of f.path) name)) [
      | inl here ↦ rw here (
          omega (
            arith,
            sum_folders_outside f names files (
                subst (λ x. contains x names ≡ false)
                  (sym ((text_eq_iff (folder_of f.path) name).0 here)) d.0),
          ))
      | inr other ↦ rw other (
          omega (
            arith,
            sum_folders_inside f names files d.1 (
                ground (
                  arith,
                  other,
                  h,
                  text_eq_iff (folder_of f.path) name,
                  text_eq_iff name (folder_of f.path),
                )),
          ))
    ]

sum_folders-eq :
    (files : List FileInfo) (names : List Text)
    → Distinct names
    → ((name : Text) → contains name (folders_of files) ≡ true → contains name names ≡ true)
    → sum_folders names files ≡ sum_sizes files
unfolding contains in_folder
sum_folders-eq [] names d h = none_shown names
  where
    none_shown : (names : List Text) → sum_folders names [] ≡ 0
    none_shown [] = refl
    none_shown (name ∷ names) = omega (arith, none_shown names)
sum_folders-eq (f ∷ files) names d h =
    sum_folders_inside f names files d
      (h (folder_of f.path) (rw (text_eq_refl (folder_of f.path)) refl))
    ∙ ap (λ n. f.size + n) (sum_folders-eq files names d (λ name k. h name (ground (arith, k))))

module _ (meta : Dict StagedMetadata) where
  sum_rows-map : (files : List FileInfo) → sum_rows (map (row_of meta) files) ≡ sum_sizes files
  sum_rows-map [] = refl
  sum_rows-map (f ∷ files) = ap₂ (λ a b. a + b) (kept (lookup f.path meta)) (sum_rows-map files)
    where
      kept : (m : Option StagedMetadata) → (row_with f m).size ≡ f.size
      kept none = refl
      kept (some m) = refl

  sum_groups-map :
      (files : List FileInfo) (names : List Text)
      → sum_groups (map (folder meta files) names) ≡ sum_folders names files
  sum_groups-map files [] = refl
  sum_groups-map files (name ∷ names) =
      ap₂ (λ a b. a + b) (sum_rows-map (in_folder name files)) (sum_groups-map files names)

  -- The listing by folders shows every byte of the files, once.
  sum_groups-group_staged_files :
      (files : List FileInfo) → sum_groups (group_staged_files files meta) ≡ sum_sizes files
  sum_groups-group_staged_files files =
      let (names, ascending, shown, same) = group_staged_files-Shows meta files in
      ap sum_groups same
      ∙ sum_groups-map files names
      ∙ sum_folders-eq files names (Ascending-Distinct names ascending) (λ name h. shown name ∙ h)

-- A query that the server answers.
query-answered :
    {A : Type 0} (pg : Postgres) (rows : Catalog → Result A) (db : Catalog)
    → pg.outage db.statements ≡ none
    → statement pg (λ d. (rows d, d)) db ≡ (rows (counted db), counted db)
query-answered {A} pg rows db answers =
    ap
      (λ o. elim o as (λ _. Result A × Catalog) [
        | some e ↦ (err e, counted db)
        | none ↦ (rows (counted db), counted db)
      ])
      answers

list_staged_metadata-answered :
    (pg : Postgres) (db : Catalog)
    → pg.outage db.statements ≡ none
    → list_staged_metadata pg db ≡ (ok db.staged_metadata, counted db)
unfolding list_staged_metadata
list_staged_metadata-answered pg db = query-answered pg (λ d. ok d.staged_metadata) db

list_media_types-answered :
    (pg : Postgres) (db : Catalog)
    → pg.outage db.statements ≡ none
    → list_media_types pg db ≡ (ok (order_by_capacity db.media_types), counted db)
unfolding list_media_types
list_media_types-answered pg db = query-answered pg (λ d. ok (order_by_capacity d.media_types)) db

module _ {M : Type 0} (os : Os M) (pg : Postgres) (staging_dir : Text) where
  -- What the dashboard shows of these files, the catalog and the job.
  pub record IsDashboardOf (files : List FileInfo) (db : Catalog) (view : Option JobView)
      (host : Text) (data_shown : DashboardData) : Type 0 where
    pub adds_up : data_shown.staged_bytes ≡ sum_groups data_shown.staged_files % 2 ^ 64
    pub groups : data_shown.staged_files ≡ group_staged_files files db.staged_metadata
    pub types : data_shown.media_types ≡ order_by_capacity db.media_types
    pub job : data_shown.job ≡ view
    pub mount : data_shown.mount_url ≡ codes "http://" ++ (host ++ codes "/webdav/")

  -- On a server that answers, let the staging directory be listed without a change to the machine,
  -- and let the view of the job not panic. Then the dashboard is shown: the staged files by folder, each
  -- with its metadata, the media types by capacity, and the view of the job; and the bytes that it
  -- reports as staged are the sum of the sizes in the rows that it shows, in 64 bits.
  pub dashboard-IsDashboardOf :
      (job : Option BurnJob.Job) (view : Option JobView) (host : Text) (w : M) (db : Catalog)
      (files : List FileInfo)
      → ((n : ℕ) → pg.outage n ≡ none)
      → scan_staging os staging_dir w ≡ (ok files, w)
      → current_job_view job ≡ some view
      → (shown : DashboardData) × (after : M × Catalog) × (dashboard os pg staging_dir job host
            (w, db)
          ≡ (goes (some shown), after))
        × IsDashboardOf files db view host shown
  unfolding dashboard staged_file_groups
  dashboard-IsDashboardOf job view host w db files answers listed viewed = (
    record {
      staged_bytes = sum_sizes files % 2 ^ 64;
      staged_files = group_staged_files files db.staged_metadata;
      media_types = order_by_capacity db.media_types;
      job = view;
      mount_url = codes "http://" ++ (host ++ codes "/webdav/");
    },
    (w, counted (counted db)),
    rw
        (
          dir_size-scan_staging os staging_dir w w files listed,
          listed,
          list_staged_metadata-answered pg db (answers _),
          list_media_types-answered pg (counted db) (answers _),
          viewed,
        )
        refl,
    record {
      adds_up = ap (λ n. n % 2 ^ 64) (sym (sum_groups-group_staged_files db.staged_metadata files));
      groups = refl;
      types = refl;
      job = refl;
      mount = refl;
    },
  )
