-- ===== src/Web/Staging.antt =====
-- internal/web/staging.go: the staged files by folder, and the metadata that users give them.
use varis.Base.{
  ℕ, Bool, true, false, List, [], ◌∷◌, ◌++◌, map, Option, none, some, ◌==◌, if◌then◌else◌, Text,
  text_eq, set,
}
use varis.Base.Dict.{Dict, lookup, insert}
use varis.Base.Keys.{keys}
use varis.Base.Sorting.{sort_texts}
use varis.Base.Splitting.{cut, split_on}
use varis.Db.{StagedMetadata}
use varis.Db.Disks.{has_prefix}
use varis.Binpack.{FileInfo}

pub record StagedFileRow : Type 0 where
  pub path : Text
  pub size : ℕ
  pub tags : List Text
  pub description : Text

pub record StagedFolderGroup : Type 0 where
  pub name : Text
  pub files : List StagedFileRow

abbrev pub slash : ℕ
slash = b'/'

-- What stands in front of the first slash; nothing if there is none.
abbrev pub first_of : Option (Text × Text) → Text
first_of none = []
first_of (some (folder, rest)) = folder

abbrev pub folder_of : Text → Text
folder_of path = first_of (cut slash path)

-- `meta[f.Path]`: the zero value where there is none.
abbrev pub row_with : FileInfo → Option StagedMetadata → StagedFileRow
row_with f none = record { path = f.path; size = f.size; tags = []; description = [] }
row_with f (some m) = record {
  path = f.path;
  size = f.size;
  tags = m.tags;
  description = m.description;
}

abbrev pub row_of : Dict StagedMetadata → FileInfo → StagedFileRow
row_of meta f = row_with f (lookup f.path meta)

abbrev pub rows_of : Option (List StagedFileRow) → List StagedFileRow
rows_of none = []
rows_of (some rows) = rows

-- The first loop: the rows of each folder.
unfoldable pub collect :
    Dict StagedMetadata → List FileInfo → Dict (List StagedFileRow) → Dict (List StagedFileRow)
collect meta [] groups = groups
collect meta (f ∷ files) groups =
    let name = folder_of f.path in
    collect meta files (insert name (rows_of (lookup name groups) ++ row_of meta f ∷ []) groups)

abbrev pub group_of : Dict (List StagedFileRow) → Text → StagedFolderGroup
group_of groups name = record { name = name; files = rows_of (lookup name groups) }

unfoldable pub group_staged_files : List FileInfo → Dict StagedMetadata → List StagedFolderGroup
unfolding collect
group_staged_files files meta =
    let groups = collect meta files [] in map (group_of groups) (sort_texts (keys groups))

-- `strings.HasSuffix(sel, "/")`
unfoldable pub ends_in_slash : Text → Bool
ends_in_slash [] = false
ends_in_slash (c ∷ []) = c == slash
ends_in_slash (c ∷ d ∷ s) = ends_in_slash (d ∷ s)

-- The selections that are folders, and the set of the others.
unfoldable pub prefixes_of : List Text → List Text
prefixes_of [] = []
prefixes_of (sel ∷ selected) =
    let rest = prefixes_of selected in if ends_in_slash sel then sel ∷ rest else rest

unfoldable pub add_single : Dict Bool → List Text → Dict Bool
add_single set [] = set
add_single set (sel ∷ selected) =
    add_single (if ends_in_slash sel then set else insert sel true set) selected

-- The loops over the files, and over the prefixes for each.
unfoldable pub add_if_prefixed : Text → Dict Bool → List Text → Dict Bool
add_if_prefixed path set [] = set
add_if_prefixed path set (prefix ∷ prefixes) =
    add_if_prefixed path (if has_prefix prefix path then insert path true set else set) prefixes

unfoldable pub add_files : List Text → Dict Bool → List FileInfo → Dict Bool
add_files prefixes set [] = set
add_files prefixes set (f ∷ files) = add_files prefixes (add_if_prefixed f.path set prefixes) files

-- `resolveSelectedPaths` behind the scan.
unfoldable pub selected_paths : List Text → List FileInfo → List Text
selected_paths selected files =
    sort_texts (keys (add_files (prefixes_of selected) (add_single [] selected) files))

-- `trim` is `strings.TrimSpace`.
unfoldable pub tags_of : (Text → Text) → List Text → List Text
tags_of trim [] = []
tags_of trim (part ∷ parts) =
    let rest = tags_of trim parts in
    let tag = trim part in if text_eq tag [] then rest else tag ∷ rest

-- The slice stays nil where there is no tag.
abbrev pub nil_if_empty : List Text → Option (List Text)
nil_if_empty [] = none
nil_if_empty (tag ∷ tags) = some (tag ∷ tags)

unfoldable pub parse_tags : (Text → Text) → Text → Option (List Text)
unfolding tags_of
parse_tags trim raw = nil_if_empty (tags_of trim (split_on b',' raw))
