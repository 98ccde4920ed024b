-- ===== src/Webdav/Isolation.antt =====
-- The categories of internal/webdav/combined.go do not reach each other, and the root is fixed.
use varis.Base.{
  ℕ, ◌≡◌, ◌≢◌, inl, inr, refl, sym, ap, subst, ◌∙◌, true, Bool-cases, List, [], ◌∷◌, Option, arith,
  if◌then◌else◌, Text, text_eq, text_eq_iff, text_ne, contains, Result, ok, err,
}
use varis.Base.Dict.{Dict, lookup, insert, lookup-insert}
use varis.Base.Keys.{keys}
use varis.Base.Effect.{Effect}
use varis.Webdav.Clean.{split, parts_of, category_and_rest, split-IsProper}
use varis.Webdav.Combined.{
  FileSystem, File, FileInfo, permission_denied, in_category, mkdir, make_at, open_file, open_at,
  remove_all, remove_at, rename, rename_at, stat, stat_at, root_file,
}

pub data Call : Type 0 where
  call_mkdir : Text → ℕ → Call
  call_open_file : Text → ℕ → ℕ → Call
  call_remove_all : Text → Call
  call_rename : Text → Text → Call
  call_stat : Text → Call

-- What a call returns.
pub data Reply (F I : Type 0) : Type 0 where
  done : Reply F I
  file : File F → Reply F I
  info : FileInfo I → Reply F I

abbrev pub reply : {W A F I : Type 0} → (A → Reply F I) → Result A × W → Result (Reply F I) × W
reply f (ok a, w) = (ok (f a), w)
reply f (err e, w) = (err e, w)

-- The path that a call is about; of a rename the old one.
abbrev pub path_of : Call → Text
path_of (call_mkdir name perm) = name
path_of (call_open_file name flag perm) = name
path_of (call_remove_all name) = name
path_of (call_rename old_name new_name) = old_name
path_of (call_stat name) = name

-- The first of the parts is this category.
abbrev pub StartsIn : List Text → Text → Type 0
StartsIn [] category = ⊥
StartsIn (part ∷ parts) category = part ≡ category

module _ {W F I : Type 0} where
  pub perform : Dict (FileSystem W F I) → Call → Effect W (Reply F I)
  perform fs (call_mkdir name perm) w = reply (λ _. done) (mkdir fs name perm w)
  perform fs (call_open_file name flag perm) w = reply file (open_file fs name flag perm w)
  perform fs (call_remove_all name) w = reply (λ _. done) (remove_all fs name w)
  perform fs (call_rename old_name new_name) w = reply (λ _. done) (rename fs old_name new_name w)
  perform fs (call_stat name) w = reply info (stat fs name w)

  lookup-insert_ne :
      (j k : Text) (dir : FileSystem W F I) (fs : Dict (FileSystem W F I))
      → j ≢ k
      → lookup j (insert k dir fs) ≡ lookup j fs
  lookup-insert_ne j k dir fs h = lookup-insert k j dir fs ∙ rw (text_ne k j (λ e. h (sym e))) refl

  keys-insert_same :
      (k : Text) (dir : FileSystem W F I) (fs : Dict (FileSystem W F I))
      → contains k (keys fs) ≡ true
      → keys (insert k dir fs) ≡ keys fs
  unfolding insert contains
  keys-insert_same k dir [] h = absurd (cc h)
  keys-insert_same k dir ((j, d) ∷ fs) h = elim (Bool-cases (text_eq j k)) [
    | inl same ↦ rw same (ap (λ x. x ∷ keys fs) (sym ((text_eq_iff j k).0 same)))
    | inr other ↦ rw other (ap (◌∷◌ j) (keys-insert_same k dir fs (ground arith)))
  ]

  module _ (category : Text) (dir : FileSystem W F I) (fs : Dict (FileSystem W F I)) where
    abbrev other : Dict (FileSystem W F I)
    other = insert category dir fs

    -- A step that looks for another category alone.
    in_category-insert :
        {A : Type 0} (step : FileSystem W F I → Effect W A) (c : Text)
        → c ≢ category
        → in_category step (lookup c other) ≡ in_category step (lookup c fs)
    in_category-insert step c h = ap (in_category step) (lookup-insert_ne c category dir fs h)

    make_at-insert :
        (perm : ℕ) (parts : List Text)
        → ¬ StartsIn parts category
        → make_at perm other (category_and_rest parts) ≡ make_at perm fs (category_and_rest parts)
    make_at-insert perm [] h = refl
    make_at-insert perm (c ∷ parts) h = in_category-insert _ c h

    open_at-insert :
        (flag perm : ℕ) (parts : List Text)
        → contains category (keys fs) ≡ true
        → ¬ StartsIn parts category
        → open_at flag perm other (category_and_rest parts)
          ≡ open_at flag perm fs (category_and_rest parts)
    unfolding root_file
    open_at-insert flag perm [] known h = rw (keys-insert_same category dir fs known) refl
    open_at-insert flag perm (c ∷ parts) known h = in_category-insert _ c h

    remove_at-insert :
        (parts : List Text)
        → ¬ StartsIn parts category
        → remove_at other (category_and_rest parts) ≡ remove_at fs (category_and_rest parts)
    remove_at-insert [] h = refl
    remove_at-insert (c ∷ parts) h = in_category-insert _ c h

    rename_at-insert :
        (parts new : List Text)
        → ¬ StartsIn parts category
        → rename_at other (category_and_rest parts) (category_and_rest new)
          ≡ rename_at fs (category_and_rest parts) (category_and_rest new)
    rename_at-insert [] new h = refl
    rename_at-insert (c ∷ parts) [] h = refl
    rename_at-insert (c ∷ parts) (d ∷ new) h =
        ap (λ s. if text_eq c d then s else (λ w. (err permission_denied, w)))
          (in_category-insert _ c h)

    stat_at-insert :
        (parts : List Text)
        → ¬ StartsIn parts category
        → stat_at other (category_and_rest parts) ≡ stat_at fs (category_and_rest parts)
    stat_at-insert [] h = refl
    stat_at-insert (c ∷ parts) h = in_category-insert _ c h

    by_parts :
        {A : Type 0} (f g : Option (Text × Text) → A) (name : Text)
        → f (category_and_rest (parts_of name)) ≡ g (category_and_rest (parts_of name))
        → f (split name) ≡ g (split name)
    by_parts f g name h = subst (λ x. f x ≡ g x) (sym (split-IsProper name).1) h

    -- Put any other file system in the place of one category. A call whose path, once `.` and `..`
    -- have been resolved, does not start in that category does the same as before and
    -- returns the same: no request reaches a category by way of another one. (The path of a
    -- rename is the old one.)
    pub perform-insert :
        (c : Call) (w : W)
        → contains category (keys fs) ≡ true
        → ¬ StartsIn (parts_of (path_of c)) category
        → perform (insert category dir fs) c w ≡ perform fs c w
    unfolding perform mkdir open_file remove_all rename stat
    perform-insert (call_mkdir name perm) w known h =
        ap (λ s. reply (λ _. done) (s w))
          (by_parts (make_at perm other) (make_at perm fs) name
            (make_at-insert perm (parts_of name) h))
    perform-insert (call_open_file name flag perm) w known h =
        ap (λ s. reply file (s w))
          (by_parts (open_at flag perm other) (open_at flag perm fs) name
            (open_at-insert flag perm (parts_of name) known h))
    perform-insert (call_remove_all name) w known h =
        ap (λ s. reply (λ _. done) (s w))
          (by_parts (remove_at other) (remove_at fs) name (remove_at-insert (parts_of name) h))
    perform-insert (call_rename old_name new_name) w known h =
        ap (λ s. reply (λ _. done) (s w))
          (by_parts (λ x. rename_at other x (split new_name)) (λ x. rename_at fs x (split new_name))
            old_name
            (by_parts (rename_at other (category_and_rest (parts_of old_name)))
              (rename_at fs (category_and_rest (parts_of old_name))) new_name
              (rename_at-insert (parts_of old_name) (parts_of new_name) h)))
    perform-insert (call_stat name) w known h =
        ap (λ s. reply info (s w))
          (by_parts (stat_at other) (stat_at fs) name (stat_at-insert (parts_of name) h))
