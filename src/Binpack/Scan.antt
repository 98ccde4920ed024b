-- ===== src/Binpack/Scan.antt =====
-- `ScanStaging` of internal/binpack/binpack.go.
use varis.Base.{
  ℕ, Bool, true, false, ◌&&◌, ◌||◌, List, [], ◌∷◌, none, some, ltb, ◌==◌, if◌then◌else◌, Text,
  Result, ok, err,
}
use varis.Base.Effect.{Effect, pure, lift, ◌>>=◌}
use varis.Os.{Os, Visit}
use varis.Binpack.{FileInfo}

-- `s < t` on strings.
unfoldable pub text_less : Text → Text → Bool
text_less [] [] = false
text_less [] (_ ∷ _) = true
text_less (_ ∷ _) [] = false
text_less (a ∷ s) (b ∷ t) = ltb a b || (a == b && text_less s t)

unfoldable pub insert_by_path : FileInfo → List FileInfo → List FileInfo
insert_by_path f [] = f ∷ []
insert_by_path f (g ∷ files) =
    let later = insert_by_path f files in
    if text_less g.path f.path then g ∷ later else f ∷ g ∷ files

unfoldable pub sort_by_path : List FileInfo → List FileInfo
unfolding insert_by_path
sort_by_path [] = []
sort_by_path (f ∷ files) = insert_by_path f (sort_by_path files)

-- A regular file, in front of those of the later visits.
abbrev pub with_file : Result Text → Result ℕ → Result (List FileInfo) → Result (List FileInfo)
with_file (err e) size rest = err e
with_file (ok rel) (err e) rest = err e
with_file (ok rel) (ok size) (err e) = err e
with_file (ok rel) (ok size) (ok files) = ok (record { path = rel; size = size } ∷ files)

-- The function that is called for each visit, up to the first error.
unfoldable pub visit_all : {W : Type 0} → Os W → Text → List Visit → Result (List FileInfo)
visit_all os root [] = ok []
visit_all os root (v ∷ visits) =
    let rest = visit_all os root visits in
    elim v.failure [
      | some e ↦ err e
      | none ↦ (if v.is_regular then with_file (os.relative root v.path) v.size rest else rest)
    ]

unfoldable pub scan_staging : {W : Type 0} → Os W → Text → Effect W (List FileInfo)
unfolding sort_by_path visit_all
scan_staging os root = do
  visits ← os.walk root
  files ← lift (visit_all os root visits)
  pure (sort_by_path files)
