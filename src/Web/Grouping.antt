-- ===== src/Web/Grouping.antt =====
-- What `groupStagedFiles` of internal/web/staging.go shows.
use varis.Base.{
  ◌≡◌, ◌⊎◌, inl, inr, refl, sym, ap, fun_ext, ◌∙◌, Bool, true, false, ◌||◌, Bool-cases, List, [],
  ◌∷◌, ◌++◌, map, append_assoc, append-nil, some, if◌then◌else◌, Text, text_eq, text_eq_iff,
  contains,
}
use varis.Base.Dict.{Dict, lookup, lookup-insert}
use varis.Base.Keys.{keys, contains-keys-insert, keys-insert-Distinct}
use varis.Base.Sorting.{sort_texts, Ascending, Distinct, sort_texts-Ascending, contains-sort_texts}
use varis.Db.{StagedMetadata}
use varis.Binpack.{FileInfo}
use varis.Web.Staging.{
  StagedFileRow, StagedFolderGroup, folder_of, row_of, rows_of, collect, group_of,
  group_staged_files,
}

-- The files of a folder, in their order.
unfoldable pub in_folder : Text → List FileInfo → List FileInfo
in_folder name [] = []
in_folder name (f ∷ files) =
    let rest = in_folder name files in if text_eq (folder_of f.path) name then f ∷ rest else rest

abbrev pub folders_of : List FileInfo → List Text
folders_of [] = []
folders_of (f ∷ files) = folder_of f.path ∷ folders_of files

module _ (meta : Dict StagedMetadata) where
  rows-collect :
      (name : Text) (files : List FileInfo) (groups : Dict (List StagedFileRow))
      → rows_of (lookup name (collect meta files groups))
        ≡ rows_of (lookup name groups) ++ map (row_of meta) (in_folder name files)
  unfolding collect in_folder
  rows-collect name [] groups = sym (append-nil _)
  rows-collect name (f ∷ files) groups =
      rows-collect name files _
      ∙ ap (λ o. rows_of o ++ map (row_of meta) (in_folder name files))
          (lookup-insert folder name _ groups)
      ∙ placed (Bool-cases (text_eq folder name))
    where
      folder : Text
      folder = folder_of f.path

      row : List StagedFileRow
      row = row_of meta f ∷ []

      placed :
          ((text_eq folder name ≡ true) ⊎ (text_eq folder name ≡ false))
          → rows_of (
                if text_eq folder name
                then some (rows_of (lookup folder groups) ++ row)
                else lookup name groups)
              ++ map (row_of meta) (in_folder name files)
            ≡ rows_of (lookup name groups)
              ++ map
                  (row_of meta)
                  (if text_eq folder name then f ∷ in_folder name files else in_folder name files)
      placed (inl same) =
          rw (same, (text_eq_iff folder name).0 same)
            (append_assoc (rows_of (lookup name groups)) row
              (map (row_of meta) (in_folder name files)))
      placed (inr other) = rw other refl

  contains-collect :
      (name : Text) (files : List FileInfo) (groups : Dict (List StagedFileRow))
      → contains name (keys (collect meta files groups))
        ≡ (contains name (folders_of files) || contains name (keys groups))
  unfolding collect contains
  contains-collect name [] groups = refl
  contains-collect name (f ∷ files) groups =
      contains-collect name files _
      ∙ ap (λ b. contains name (folders_of files) || b)
          (contains-keys-insert name (folder_of f.path) _ groups)
      ∙ swapped (contains name (folders_of files)) (text_eq (folder_of f.path) name) _
    where
      swapped : (a b c : Bool) → ◌≡◌ {A = Bool} (a || (b || c)) ((b || a) || c)
      swapped true true c = refl
      swapped true false c = refl
      swapped false true c = refl
      swapped false false c = refl

  collect-Distinct :
      (files : List FileInfo) (groups : Dict (List StagedFileRow))
      → Distinct (keys groups)
      → Distinct (keys (collect meta files groups))
  unfolding collect
  collect-Distinct [] groups h = h
  collect-Distinct (f ∷ files) groups h =
      collect-Distinct files _ (keys-insert-Distinct (folder_of f.path) _ groups h)

  -- A folder with the rows of its files, in the order of the files.
  abbrev pub folder : List FileInfo → Text → StagedFolderGroup
  folder files name = record { name = name; files = map (row_of meta) (in_folder name files) }

  -- Groups that show the files: one for each folder of a file, in ascending order of the names,
  -- with a row for each file of the folder.
  abbrev pub Shows : List FileInfo → List StagedFolderGroup → Type 0
  Shows files groups =
      (names : List Text) × Ascending names
      × ((name : Text) → contains name names ≡ contains name (folders_of files))
      × (groups ≡ map (folder files) names)

  -- The listing has one group for each folder that a staged file is in, and no other, in strictly
  -- ascending order of the names; its rows are those of exactly the files of this folder, in the
  -- order of the scan, each with the metadata of its path.
  pub group_staged_files-Shows :
      (files : List FileInfo) → Shows files (group_staged_files files meta)
  unfolding group_staged_files contains in_folder lookup
  group_staged_files-Shows files = (
    sort_texts (keys collected),
    sort_texts-Ascending (keys collected) (collect-Distinct files [] tt),
    λ name. contains-sort_texts name (keys collected) ∙ contains-collect name files [] ∙ or-false _,
    ap (λ f. map f (sort_texts (keys collected))) (fun_ext one),
  )
    where
      collected : Dict (List StagedFileRow)
      collected = collect meta files []

      or-false : (a : Bool) → ◌≡◌ {A = Bool} (a || false) a
      or-false true = refl
      or-false false = refl

      one : (name : Text) → group_of collected name ≡ folder files name
      one name = ap (λ rows. record { name = name; files = rows }) (rows-collect name files [])
