-- ===== src/Webdav/Combined.antt =====
-- `CombinedFileSystem` of internal/webdav/combined.go.
use varis.Base.{
  ℕ, List, [], ◌∷◌, Option, none, some, ◌==◌, if◌then◌else◌, Text, codes, text_eq, Error, message,
  Result, ok, err,
}
use varis.Base.Dict.{Dict, lookup, insert}
use varis.Base.Effect.{Effect, pure, throw}
use varis.Base.Sorting.{sort_texts}
use varis.Base.Keys.{keys}
use varis.Webdav.Clean.{slash, split}

-- `webdav.Dir` of golang.org/x/net: one directory, as a file system; F its files, I what describes
-- them.
pub record FileSystem (W F I : Type 0) : Type 0 where
  pub mkdir : Text → ℕ → Effect W (Unit {0})
  pub open_file : Text → ℕ → ℕ → Effect W F
  pub remove_all : Text → Effect W (Unit {0})
  pub rename : Text → Text → Effect W (Unit {0})
  pub stat : Text → Effect W I

-- `os.ErrPermission`, `os.ErrNotExist` and `io.EOF`
abbrev pub permission_denied : Error
permission_denied = message (codes "permission denied") []

abbrev pub no_such_file : Error
no_such_file = message (codes "file does not exist") []

-- `os.O_RDONLY`
abbrev pub read_only : ℕ
read_only = 0

-- A directory that no file system has: the root, or a category as the root lists it.
pub record DirInfo : Type 0 where
  pub name : Text

pub record RootDir : Type 0 where
  pub names : List Text
  pub offset : ℕ

-- What the root adds to the files and the descriptions of the categories.
pub data File (F : Type 0) : Type 0 where
  root_dir : RootDir → File F
  inside : F → File F

pub data FileInfo (I : Type 0) : Type 0 where
  dir_info : DirInfo → FileInfo I
  info_inside : I → FileInfo I

abbrev pub from_inside : {W A B : Type 0} → (A → B) → Result A × W → Result B × W
from_inside f (ok a, w) = (ok (f a), w)
from_inside f (err e, w) = (err e, w)

module _ {W F I : Type 0} where
  -- `if !ok { return os.ErrNotExist }`
  abbrev pub in_category :
      {A : Type 0} → (FileSystem W F I → Effect W A) → Option (FileSystem W F I) → Effect W A
  in_category step none = throw no_such_file
  in_category step (some dir) = step dir

  -- `NewCombinedFileSystem`, with `dir_of` for `webdav.Dir`.
  unfoldable pub new_combined_file_system :
      (Text → FileSystem W F I) → Dict Text → Dict (FileSystem W F I)
  new_combined_file_system dir_of [] = []
  new_combined_file_system dir_of ((name, dir) ∷ dirs) =
      insert name (dir_of dir) (new_combined_file_system dir_of dirs)

  unfoldable pub root_file : Dict (FileSystem W F I) → RootDir
  root_file fs = record { names = sort_texts (keys fs); offset = 0 }

  abbrev pub make_at : ℕ → Dict (FileSystem W F I) → Option (Text × Text) → Effect W (Unit {0})
  make_at perm fs none = throw permission_denied
  make_at perm fs (some (category, rest)) =
      in_category (λ dir. dir.mkdir rest perm) (lookup category fs)

  unfoldable pub mkdir : Dict (FileSystem W F I) → Text → ℕ → Effect W (Unit {0})
  mkdir fs name perm = make_at perm fs (split name)

  abbrev pub open_at : ℕ → ℕ → Dict (FileSystem W F I) → Option (Text × Text) → Effect W (File F)
  open_at flag perm fs none =
      if flag == read_only then pure (root_dir (root_file fs)) else throw permission_denied
  open_at flag perm fs (some (category, rest)) =
      in_category (λ dir w. from_inside inside (dir.open_file rest flag perm w))
        (lookup category fs)

  unfoldable pub open_file : Dict (FileSystem W F I) → Text → ℕ → ℕ → Effect W (File F)
  open_file fs name flag perm = open_at flag perm fs (split name)

  abbrev pub remove_at : Dict (FileSystem W F I) → Option (Text × Text) → Effect W (Unit {0})
  remove_at fs none = throw permission_denied
  remove_at fs (some (category, rest)) =
      in_category (λ dir. dir.remove_all rest) (lookup category fs)

  unfoldable pub remove_all : Dict (FileSystem W F I) → Text → Effect W (Unit {0})
  remove_all fs name = remove_at fs (split name)

  abbrev pub rename_at :
      Dict (FileSystem W F I) → Option (Text × Text) → Option (Text × Text) → Effect W (Unit {0})
  rename_at fs none to = throw permission_denied
  rename_at fs (some from) none = throw permission_denied
  rename_at fs (some (category, rest)) (some (new_category, new_rest)) =
      if text_eq category new_category
      then in_category (λ dir. dir.rename rest new_rest) (lookup category fs)
      else throw permission_denied

  unfoldable pub rename : Dict (FileSystem W F I) → Text → Text → Effect W (Unit {0})
  rename fs old_name new_name = rename_at fs (split old_name) (split new_name)

  abbrev pub stat_at : Dict (FileSystem W F I) → Option (Text × Text) → Effect W (FileInfo I)
  stat_at fs none = pure (dir_info (record { name = slash ∷ [] }))
  stat_at fs (some (category, rest)) =
      in_category (λ dir w. from_inside info_inside (dir.stat rest w)) (lookup category fs)

  unfoldable pub stat : Dict (FileSystem W F I) → Text → Effect W (FileInfo I)
  stat fs name = stat_at fs (split name)
