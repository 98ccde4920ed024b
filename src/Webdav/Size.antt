-- ===== src/Webdav/Size.antt =====
-- `DirSize` of internal/webdav/webdav.go, against the staged files that are listed.
use varis.Base.{
  ℕ, ◌+◌, ◌%◌, ◌^◌, ◌<◌, ◌≡◌, inl, inr, refl, sym, ap, ap₂, subst, ◌∙◌, Bool, true, false,
  Bool-cases, List, [], ◌∷◌, Option, none, some, arith, if◌then◌else◌, Text, Error, Result, ok, err,
  add64,
}
use varis.Base.Effect.{Effect, proceed, pure}
use varis.Os.{Os, Visit}
use varis.Binpack.{FileInfo}
use varis.Binpack.Scan.{text_less, insert_by_path, sort_by_path, with_file, visit_all, scan_staging}

-- A regular file, in front of the later visits.
abbrev pub add_size : (ℕ → ℕ × Option Error) → ℕ → Result ℕ → ℕ × Option Error
add_size rest total (err e) = (total, some e)
add_size rest total (ok size) = rest (add64 total size)

-- The function that is called for each visit, up to the first error.
unfoldable pub add_sizes : List Visit → ℕ → ℕ × Option Error
add_sizes [] total = (total, none)
add_sizes (v ∷ visits) total =
    let rest = add_sizes visits in
    elim v.failure [
      | some e ↦ (total, some e)
      | none ↦ (if v.is_regular then add_size rest total v.size else rest total)
    ]

abbrev pub summed : {W : Type 0} → Result (List Visit) × W → (ℕ × Option Error) × W
summed (err e, w) = ((0, some e), w)
summed (ok visits, w) = (add_sizes visits 0, w)

-- The total and the error are both returned.
unfoldable pub dir_size : {W : Type 0} → Os W → Text → W → (ℕ × Option Error) × W
unfolding add_sizes
dir_size os dir w = summed (os.walk dir w)

abbrev pub sum_sizes : List FileInfo → ℕ
sum_sizes [] = 0
sum_sizes (f ∷ files) = f.size + sum_sizes files

sum_sizes-insert_by_path :
    (f : FileInfo) (files : List FileInfo)
    → sum_sizes (insert_by_path f files) ≡ f.size + sum_sizes files
unfolding insert_by_path
sum_sizes-insert_by_path f [] = refl
sum_sizes-insert_by_path f (g ∷ files) = elim (Bool-cases (text_less g.path f.path)) [
  | inl less ↦ rw less (omega (arith, sum_sizes-insert_by_path f files))
  | inr more ↦ rw more refl
]

sum_sizes-sort_by_path : (files : List FileInfo) → sum_sizes (sort_by_path files) ≡ sum_sizes files
unfolding sort_by_path
sum_sizes-sort_by_path [] = refl
sum_sizes-sort_by_path (f ∷ files) =
    sum_sizes-insert_by_path f (sort_by_path files)
    ∙ ap (λ n. f.size + n) (sum_sizes-sort_by_path files)

abbrev IsSum : (ℕ → ℕ × Option Error) → List FileInfo → Type 0
IsSum more files =
    (total : ℕ) → total < 2 ^ 64 → more total ≡ ((total + sum_sizes files) % 2 ^ 64, none)

IsSum-cons :
    (path : Text) (size : ℕ) (rest files : List FileInfo) (more : ℕ → ℕ × Option Error)
    → ◌≡◌ {A = Result (List FileInfo)} (ok (record { path = path; size = size } ∷ rest)) (ok files)
    → IsSum more rest
    → IsSum (λ total. add_size more total (ok size)) files
IsSum-cons path size rest files more h ih =
    subst (IsSum (λ total. add_size more total (ok size))) here
      (λ total small. ih (add64 total size) (omega arith) ∙ ap (λ n. (n, none)) (wraps total))
  where
    here : ◌≡◌ {A = List FileInfo} (record { path = path; size = size } ∷ rest) files
    here = cc h

    wraps :
        (total : ℕ)
        → ((total + size) % 2 ^ 64 + sum_sizes rest) % 2 ^ 64
          ≡ (total + (size + sum_sizes rest)) % 2 ^ 64
    wraps total = omega arith

-- One visit, in both functions.
visit-IsSum :
    (failure : Option Error) (is_regular : Bool) (rel : Result Text) (size : Result ℕ)
    (rest : Result (List FileInfo)) (files : List FileInfo) (more : ℕ → ℕ × Option Error)
    → (elim failure [
      | some e ↦ err e
      | none ↦ (if is_regular then with_file rel size rest else rest)
    ])
      ≡ ok files
    → ((later : List FileInfo) → rest ≡ ok later → IsSum more later)
    → IsSum
        (λ total. elim failure [
          | some e ↦ (total, some e)
          | none ↦ (if is_regular then add_size more total size else more total)
        ])
        files
visit-IsSum (some e) is_regular rel size rest files more h ih = absurd (cc h)
visit-IsSum none false rel size rest files more h ih = ih files h
visit-IsSum none true (err e) size rest files more h ih = absurd (cc h)
visit-IsSum none true (ok path) (err e) rest files more h ih = absurd (cc h)
visit-IsSum none true (ok path) (ok size) (err e) files more h ih = absurd (cc h)
visit-IsSum none true (ok path) (ok size) (ok rest) files more h ih =
    IsSum-cons path size rest files more h (ih rest refl)

module _ {W : Type 0} (os : Os W) (root : Text) where
  add_sizes-visit_all :
      (visits : List Visit) (files : List FileInfo)
      → visit_all os root visits ≡ ok files
      → IsSum (add_sizes visits) files
  unfolding add_sizes visit_all
  add_sizes-visit_all [] files h =
      subst (IsSum (λ total. (total, none))) here
        (λ total small. ap (λ n. (n, none)) (plain total small))
    where
      here : ◌≡◌ {A = List FileInfo} [] files
      here = cc h

      plain : (total : ℕ) → total < 2 ^ 64 → total ≡ (total + 0) % 2 ^ 64
      plain total small = omega arith
  add_sizes-visit_all (v ∷ visits) files h =
      visit-IsSum v.failure v.is_regular (os.relative root v.path) v.size (visit_all os root visits)
        files (add_sizes visits) h (add_sizes-visit_all visits)

  -- Whenever the staging directory can be listed, `DirSize` on it returns no error, does to the
  -- machine what the listing does, and its total is the sum of the sizes that the listing shows, in
  -- 64 bits.
  pub dir_size-scan_staging :
      (w v : W) (files : List FileInfo)
      → scan_staging os root w ≡ (ok files, v)
      → dir_size os root w ≡ ((sum_sizes files % 2 ^ 64, none), v)
  unfolding scan_staging dir_size
  dir_size-scan_staging w v files h = walked (os.walk root w) h
    where
      sorted : List FileInfo → Effect W (List FileInfo)
      sorted found = pure (sort_by_path found)

      visited :
          (visits : List Visit) (u : W) (r : Result (List FileInfo))
          → visit_all os root visits ≡ r
          → proceed sorted (r, u) ≡ (ok files, v)
          → summed (ok visits, u) ≡ ((sum_sizes files % 2 ^ 64, none), v)
      visited visits u (err e) same h = absurd (cc h)
      visited visits u (ok found) same h =
          ap₂ (λ r x. (r, x))
            (add_sizes-visit_all visits found same 0 (omega arith)
              ∙ ap (λ n. (n % 2 ^ 64, none))
                  (plain (sum_sizes found)
                    ∙ sym (sum_sizes-sort_by_path found)
                    ∙ ap sum_sizes listed))
            (cc h)
        where
          listed : sort_by_path found ≡ files
          listed = cc h

          plain : (n : ℕ) → 0 + n ≡ n
          plain n = omega arith

      walked :
          (r : Result (List Visit) × W)
          → proceed (λ visits u. proceed sorted (visit_all os root visits, u)) r ≡ (ok files, v)
          → summed r ≡ ((sum_sizes files % 2 ^ 64, none), v)
      walked (err e, u) h = absurd (cc h)
      walked (ok visits, u) h = visited visits u (visit_all os root visits) refl h
