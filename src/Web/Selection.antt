-- ===== src/Web/Selection.antt =====
-- What `resolveSelectedPaths` of internal/web/staging.go selects.
use varis.Base.{
  ◌≡◌, inl, inr, refl, ap₂, ◌∙◌, Bool, true, false, not, ◌&&◌, ◌||◌, Bool-cases, List, [], ◌∷◌,
  arith, Text, text_eq, text_eq_iff, contains, set,
}
use varis.Base.Dict.{Dict, insert}
use varis.Base.Keys.{keys, contains-keys-insert, keys-insert-Distinct}
use varis.Base.Sorting.{Ascending, Distinct, sort_texts-Ascending, contains-sort_texts}
use varis.Db.Disks.{has_prefix}
use varis.Binpack.{FileInfo}
use varis.Web.Staging.{
  ends_in_slash, prefixes_of, add_single, add_if_prefixed, add_files, selected_paths,
}

-- The path begins with one of the prefixes.
unfoldable pub is_under : List Text → Text → Bool
is_under [] path = false
is_under (prefix ∷ prefixes) path = has_prefix prefix path || is_under prefixes path

-- The path begins with a selection that ends in a slash.
unfoldable pub in_selected_folder : List Text → Text → Bool
in_selected_folder [] path = false
in_selected_folder (sel ∷ selected) path =
    (ends_in_slash sel && has_prefix sel path) || in_selected_folder selected path

abbrev pub paths_of : List FileInfo → List Text
paths_of [] = []
paths_of (f ∷ files) = f.path ∷ paths_of files

-- A path is wanted if it is selected itself, or staged and in a selected folder.
abbrev pub is_wanted : List Text → List FileInfo → Text → Bool
is_wanted selected files path =
    (contains path selected && not (ends_in_slash path))
    || (contains path (paths_of files) && in_selected_folder selected path)

is_under-prefixes_of :
    (selected : List Text) (path : Text)
    → is_under (prefixes_of selected) path ≡ in_selected_folder selected path
unfolding is_under prefixes_of in_selected_folder
is_under-prefixes_of [] path = refl
is_under-prefixes_of (sel ∷ selected) path = ground (arith, is_under-prefixes_of selected path)

contains-add_single :
    (path : Text) (set : Dict Bool) (selected : List Text)
    → contains path (keys (add_single set selected))
      ≡ (contains path (keys set) || (contains path selected && not (ends_in_slash path)))
unfolding add_single contains
contains-add_single path set [] = ground arith
contains-add_single path set (sel ∷ selected) = elim (Bool-cases (ends_in_slash sel)) [
  | inl folder ↦
      rw folder (ground (arith, contains-add_single path set selected, text_eq_iff sel path))
  | inr single ↦ rw single (
      ground (
        arith,
        contains-add_single path (insert sel true set) selected,
        contains-keys-insert path sel true set,
        text_eq_iff sel path,
      ))
]

contains-add_if_prefixed :
    (path other : Text) (set : Dict Bool) (prefixes : List Text)
    → contains path (keys (add_if_prefixed other set prefixes))
      ≡ (contains path (keys set) || (text_eq other path && is_under prefixes other))
unfolding add_if_prefixed is_under
contains-add_if_prefixed path other set [] = ground arith
contains-add_if_prefixed path other set (prefix ∷ prefixes) =
    elim (Bool-cases (has_prefix prefix other)) [
      | inl yes_under ↦ rw yes_under (
          ground (
            arith,
            contains-add_if_prefixed path other (insert other true set) prefixes,
            contains-keys-insert path other true set,
          ))
      | inr not_under ↦
          rw not_under (ground (arith, contains-add_if_prefixed path other set prefixes))
    ]

contains-add_files :
    (path : Text) (prefixes : List Text) (set : Dict Bool) (files : List FileInfo)
    → contains path (keys (add_files prefixes set files))
      ≡ (contains path (keys set) || (contains path (paths_of files) && is_under prefixes path))
unfolding add_files contains
contains-add_files path prefixes set [] = ground arith
contains-add_files path prefixes set (f ∷ files) = ground (
  arith,
  contains-add_files path prefixes (add_if_prefixed f.path set prefixes) files,
  contains-add_if_prefixed path f.path set prefixes,
  text_eq_iff f.path path,
)

add_single-Distinct :
    (set : Dict Bool) (selected : List Text)
    → Distinct (keys set)
    → Distinct (keys (add_single set selected))
unfolding add_single
add_single-Distinct set [] h = h
add_single-Distinct set (sel ∷ selected) h = elim (Bool-cases (ends_in_slash sel)) [
  | inl folder ↦ rw folder (add_single-Distinct set selected h)
  | inr single ↦
      rw single
        (add_single-Distinct (insert sel true set) selected (keys-insert-Distinct sel true set h))
]

add_if_prefixed-Distinct :
    (path : Text) (set : Dict Bool) (prefixes : List Text)
    → Distinct (keys set)
    → Distinct (keys (add_if_prefixed path set prefixes))
unfolding add_if_prefixed
add_if_prefixed-Distinct path set [] h = h
add_if_prefixed-Distinct path set (prefix ∷ prefixes) h =
    elim (Bool-cases (has_prefix prefix path)) [
      | inl yes_under ↦ rw yes_under (
          add_if_prefixed-Distinct path (insert path true set) prefixes
            (keys-insert-Distinct path true set h))
      | inr not_under ↦ rw not_under (add_if_prefixed-Distinct path set prefixes h)
    ]

add_files-Distinct :
    (prefixes : List Text) (set : Dict Bool) (files : List FileInfo)
    → Distinct (keys set)
    → Distinct (keys (add_files prefixes set files))
unfolding add_files
add_files-Distinct prefixes set [] h = h
add_files-Distinct prefixes set (f ∷ files) h =
    add_files-Distinct prefixes (add_if_prefixed f.path set prefixes) files
      (add_if_prefixed-Distinct f.path set prefixes h)

-- The paths that metadata is applied to are in strictly ascending order, so that none occurs twice,
-- and a path is among them exactly if it is selected itself and does not end in a slash, or it is
-- staged and begins with a selection that ends in one.
pub contains-selected_paths :
    (selected : List Text) (files : List FileInfo)
    → Ascending (selected_paths selected files)
      × ((path : Text)
          → contains path (selected_paths selected files) ≡ is_wanted selected files path)
unfolding selected_paths contains
contains-selected_paths selected files = (
  sort_texts-Ascending _ (
      add_files-Distinct (prefixes_of selected) (add_single [] selected) files
        (add_single-Distinct [] selected tt)),
  λ path.
      contains-sort_texts path _
      ∙ contains-add_files path (prefixes_of selected) (add_single [] selected) files
      ∙ ap₂ (λ a b. a || (contains path (paths_of files) && b))
          (contains-add_single path [] selected) (is_under-prefixes_of selected path),
)
