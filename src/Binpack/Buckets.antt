-- ===== src/Binpack/Buckets.antt =====
-- What the buckets hold, how full they are, and how many there are.
use varis.Base.{
  ℕ, ◌+◌, ◌*◌, ◌≤◌, ◌<◌, ◌≡◌, ◌≢◌, ◌⊎◌, inl, inr, refl, sym, ap, ◌∙◌, false, Bool-cases, List, [],
  ◌∷◌, ◌++◌, append_assoc, append-nil, arith, ltb, dec_le, length, All, int64_limit,
}
use varis.Binpack.{FileInfo, Bucket, empty_bucket, add_file, is_full, pack_loop, pack}
use varis.Binpack.NextFit.{total, close, with_file, closes, next_fit, next_fit_cases, pack-next_fit}

total-append : (xs ys : List FileInfo) → total (xs ++ ys) ≡ total xs + total ys
total-append [] ys = omega arith
total-append (x ∷ xs) ys = omega (arith, total-append xs ys)

-- The files of all buckets, in order.
abbrev pub contents : List Bucket → List FileInfo
contents [] = []
contents (b ∷ buckets) = b.files ++ contents buckets

nil_of : (xs : List FileInfo) → ltb 0 (length xs) ≡ false → xs ≡ []
nil_of [] h = refl
nil_of (x ∷ xs) h = ground arith

close_cases {ℓ} :
    (P : List Bucket → Type ℓ) (b : Bucket)
    → (b.files ≡ [] → P [])
    → (b.files ≢ [] → P (b ∷ []))
    → P (close b)
close_cases P b empty full = elim (Bool-cases (ltb 0 (length b.files))) [
  | inl e ↦ rw e (full (λ h. ground (arith, ap length h)))
  | inr e ↦ rw e (empty (nil_of b.files e))
]

contents-next_fit :
    (target : ℕ) (current : Bucket) (files : List FileInfo)
    → contents (next_fit target current files) ≡ current.files ++ files
unfolding next_fit
contents-next_fit target current [] =
    close_cases (λ bs. contents bs ≡ current.files ++ []) current (λ e. rw e) (λ _. refl)
contents-next_fit target current (f ∷ files) =
    next_fit_cases (λ bs. contents bs ≡ current.files ++ f ∷ files) target current f files
      (λ _. ap (◌++◌ current.files) (contents-next_fit target (with_file empty_bucket f) files))
      (λ _.
        contents-next_fit target (with_file current f) files
        ∙ append_assoc current.files (f ∷ []) files)

-- A bucket within the target, or one whose last file alone is over it, with empty files before.
abbrev pub FitsOrAlone : ℕ → Bucket → Type 0
FitsOrAlone target b =
    (b.total_size ≤ target)
    ⊎ ((empties : List FileInfo) × (f : FileInfo) × (b.files ≡ empties ++ f ∷ [])
        × (total empties ≡ 0)
        × (target < f.size))

pub record IsGood (target : ℕ) (b : Bucket) : Type 0 where
  pub nonempty : b.files ≢ []
  pub sized : b.total_size ≡ total b.files
  pub fits : FitsOrAlone target b

-- The same of the current bucket, which may still be empty.
record IsCurrent (target : ℕ) (b : Bucket) : Type 0 where
  sized : b.total_size ≡ total b.files
  fits : FitsOrAlone target b

close-IsGood : (target : ℕ) (b : Bucket) → IsCurrent target b → All (IsGood target) (close b)
close-IsGood target b c =
    close_cases (All (IsGood target)) b (λ _. tt)
      (λ ne. (record { nonempty = ne; sized = c.sized; fits = c.fits }, tt))

with_file-IsCurrent :
    (target : ℕ) (b : Bucket) (f : FileInfo)
    → IsCurrent target b
    → closes target b f ≡ false
    → IsCurrent target (with_file b f)
with_file-IsCurrent target b f c room = record {
  sized = omega (arith, total-append b.files (f ∷ []), c.sized);
  fits = elim (dec_le (b.total_size + f.size) target) [
    | yes room' ↦ inl room'
    | no over ↦ inr (b.files, f, refl, ground (arith, c.sized), ground (arith, c.sized))
  ];
}

empty-IsCurrent : (target : ℕ) → IsCurrent target empty_bucket
empty-IsCurrent target = record { sized = refl; fits = inl (omega arith) }

next_fit-IsGood :
    (target : ℕ) (current : Bucket) (files : List FileInfo)
    → IsCurrent target current
    → All (IsGood target) (next_fit target current files)
unfolding next_fit
next_fit-IsGood target current [] c = close-IsGood target current c
next_fit-IsGood target current (f ∷ files) c =
    next_fit_cases (All (IsGood target)) target current f files
      (λ full. (
        record {
          nonempty = λ e. ground (arith, c.sized, ap total e);
          sized = c.sized;
          fits = c.fits;
        },
        next_fit-IsGood target (with_file empty_bucket f) files
            (with_file-IsCurrent target empty_bucket f (empty-IsCurrent target) refl),
      ))
      (λ room.
        next_fit-IsGood target (with_file current f) files
          (with_file-IsCurrent target current f c room))

-- Neighbouring buckets together are over the target; `before` is the size of the bucket before.
abbrev pub Crowded : ℕ → ℕ → List Bucket → Type 0
Crowded target before [] = Unit
Crowded target before (b ∷ buckets) =
    (target < before + b.total_size) × Crowded target b.total_size buckets

next_fit-Crowded :
    (target before : ℕ) (current : Bucket) (files : List FileInfo)
    → target < before + current.total_size
    → Crowded target before (next_fit target current files)
unfolding next_fit
next_fit-Crowded target before current [] h =
    close_cases (Crowded target before) current (λ _. tt) (λ _. (h, tt))
next_fit-Crowded target before current (f ∷ files) h =
    next_fit_cases (Crowded target before) target current f files
      (λ full. (
        h,
        next_fit-Crowded target current.total_size (with_file empty_bucket f) files (ground arith),
      ))
      (λ _. next_fit-Crowded target before (with_file current f) files (omega arith))

abbrev pub used : List Bucket → ℕ
used [] = 0
used (b ∷ buckets) = b.total_size + used buckets

Crowded-length :
    (target before : ℕ) (buckets : List Bucket)
    → Crowded target before buckets
    → length buckets * (target + 1) ≤ before + 2 * used buckets
Crowded-length target before [] h = omega arith
Crowded-length target before (b ∷ buckets) h =
    omega (arith, h.0, Crowded-length target b.total_size buckets h.1)

used-contents :
    (target : ℕ) (buckets : List Bucket)
    → All (IsGood target) buckets
    → used buckets ≡ total (contents buckets)
used-contents target [] h = refl
used-contents target (b ∷ buckets) h =
    omega
      (arith, h.0.sized, used-contents target buckets h.1, total-append b.files (contents buckets))

contents-append : (xs ys : List Bucket) → contents (xs ++ ys) ≡ contents xs ++ contents ys
contents-append [] ys = refl
contents-append (x ∷ xs) ys =
    ap (◌++◌ x.files) (contents-append xs ys)
    ∙ sym (append_assoc x.files (contents xs) (contents ys))

contents_last : (xs : List Bucket) (b : Bucket) → contents (xs ++ b ∷ []) ≡ contents xs ++ b.files
contents_last xs b = contents-append xs (b ∷ []) ∙ ap (◌++◌ (contents xs)) (append-nil b.files)

contents-pack_loop :
    (target : ℕ) (files : List FileInfo) (buckets : List Bucket) (current : Bucket)
    → contents (pack_loop target files buckets current)
      ≡ contents buckets ++ (current.files ++ files)
unfolding pack_loop
contents-pack_loop target [] buckets current =
    rw (append-nil current.files) (elim (Bool-cases (ltb 0 (length current.files))) [
      | inl e ↦ rw e (contents_last buckets current)
      | inr e ↦ rw (e, nil_of current.files e) (sym (append-nil (contents buckets)))
    ])
contents-pack_loop target (f ∷ files) buckets current =
    elim (Bool-cases (is_full target current f)) [
      | inl e ↦ rw e (
          contents-pack_loop target files (buckets ++ current ∷ []) (add_file empty_bucket f)
          ∙ ap (λ t. t ++ f ∷ files) (contents_last buckets current)
          ∙ append_assoc (contents buckets) current.files (f ∷ files))
      | inr e ↦ rw e (
          contents-pack_loop target files buckets (add_file current f)
          ∙ ap (◌++◌ (contents buckets)) (append_assoc current.files (f ∷ []) files))
    ]

-- `Pack` distributes the files over buckets and changes neither their order nor drops or repeats
-- one. This holds for any sizes and any target.
pub contents-pack : (files : List FileInfo) (target : ℕ) → contents (pack files target) ≡ files
unfolding pack
contents-pack files target = contents-pack_loop target files [] empty_bucket

module _ (files : List FileInfo) (target : ℕ) (target_small : target < int64_limit)
    (files_small : total files < int64_limit) where
  -- Where the sizes add up within an int64, every bucket of `Pack` has a file, records the sum of
  -- its files' sizes, and stays within the target unless its last file alone is over the target;
  -- then the files before that one are empty.
  pub pack-IsGood : All (IsGood target) (pack files target)
  pack-IsGood =
      rw (pack-next_fit files target target_small files_small)
        (next_fit-IsGood target empty_bucket files (empty-IsCurrent target))

  -- Where the sizes add up within an int64, two neighbouring buckets of `Pack` are never within the
  -- target together, so that all discs but one take at most twice the discs that the data fills.
  pub pack_count :
      Crowded target (target + 1) (pack files target)
      × (length (pack files target) * (target + 1) ≤ target + 1 + 2 * total files)
  pack_count = (
    crowded,
    omega (
      arith,
      Crowded-length target (target + 1) (pack files target) crowded,
      used-contents target (pack files target) pack-IsGood,
      ap total (contents-pack files target),
    ),
  )
    where
      crowded : Crowded target (target + 1) (pack files target)
      crowded =
          rw (pack-next_fit files target target_small files_small)
            (next_fit-Crowded target (target + 1) empty_bucket files (omega arith))
