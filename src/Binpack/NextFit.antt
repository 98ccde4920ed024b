-- ===== src/Binpack/NextFit.antt =====
-- Packing over plain numbers, and that the loop over int64 computes it.
use varis.Base.{
  ℕ, ◌+◌, ◌<◌, ◌≡◌, inl, inr, ap, ap₂, ◌∙◌, Bool, true, false, ◌&&◌, Bool-cases, List, [], ◌∷◌,
  ◌++◌, append_assoc, append-nil, arith, ltb, if◌then◌else◌, length, add64, lt64, int64_limit,
}
use varis.Binpack.{FileInfo, Bucket, empty_bucket, add_file, is_full, pack_loop, pack}

abbrev pub total : List FileInfo → ℕ
total [] = 0
total (f ∷ files) = f.size + total files

abbrev pub close : Bucket → List Bucket
close b = if ltb 0 (length b.files) then b ∷ [] else []

abbrev pub with_file : Bucket → FileInfo → Bucket
with_file b f = record { files = b.files ++ f ∷ []; total_size = b.total_size + f.size }

-- A file goes into the current bucket unless that holds data already and would overflow.
unfoldable pub next_fit : ℕ → Bucket → List FileInfo → List Bucket
next_fit target current [] = close current
next_fit target current (f ∷ files) =
    elim (ltb 0 current.total_size && ltb target (current.total_size + f.size)) [
      | true ↦ current ∷ next_fit target (with_file empty_bucket f) files
      | false ↦ next_fit target (with_file current f) files
    ]

abbrev pub closes : ℕ → Bucket → FileInfo → Bool
closes target current f = ltb 0 current.total_size && ltb target (current.total_size + f.size)

-- A property of one step of the packing, from the two ways that the step can go.
pub next_fit_cases {ℓ} :
    (P : List Bucket → Type ℓ) (target : ℕ) (current : Bucket) (f : FileInfo)
    (files : List FileInfo)
    → (closes target current f ≡ true
        → P (current ∷ next_fit target (with_file empty_bucket f) files))
    → (closes target current f ≡ false → P (next_fit target (with_file current f) files))
    → P (next_fit target current (f ∷ files))
unfolding next_fit
next_fit_cases P target current f files full room = elim (Bool-cases (closes target current f)) [
  | inl e ↦ rw (e, next_fit) (full e)
  | inr e ↦ rw (e, next_fit) (room e)
]

lt64_small : (a b : ℕ) → a < int64_limit → b < int64_limit → lt64 a b ≡ ltb a b
lt64_small a b p q = ground arith

add64_small : (a b : ℕ) → a + b < int64_limit → add64 a b ≡ a + b
add64_small a b h = omega arith

is_full_small :
    (target : ℕ) (current : Bucket) (f : FileInfo)
    → target < int64_limit
    → current.total_size + f.size < int64_limit
    → is_full target current f
      ≡ (ltb 0 current.total_size && ltb target (current.total_size + f.size))
is_full_small target current f p q = rw (add64_small current.total_size f.size q) (
    ap₂ ◌&&◌ (lt64_small 0 current.total_size (omega arith) (omega arith))
      (lt64_small target (current.total_size + f.size) p q))

add_file_small :
    (b : Bucket) (f : FileInfo) → b.total_size + f.size < int64_limit → add_file b f ≡ with_file b f
add_file_small b f h =
    ap (λ t. record { files = b.files ++ f ∷ []; total_size = t })
      (add64_small b.total_size f.size h)

pack_loop-next_fit :
    (target : ℕ) (files : List FileInfo) (buckets : List Bucket) (current : Bucket)
    → target < int64_limit
    → current.total_size + total files < int64_limit
    → pack_loop target files buckets current ≡ buckets ++ next_fit target current files
unfolding pack_loop next_fit
pack_loop-next_fit target [] buckets current p q = ground (arith, append-nil buckets)
pack_loop-next_fit target (f ∷ files) buckets current p q =
    rw (is_full_small target current f p (omega arith))
      (elim (Bool-cases (ltb 0 current.total_size && ltb target (current.total_size + f.size))) [
        | inl full ↦
            rw (full, next_fit, add_file_small empty_bucket f (omega arith))
              (pack_loop-next_fit target files (buckets ++ current ∷ []) (with_file empty_bucket f)
                  p (omega arith)
                ∙ append_assoc buckets (current ∷ []) _)
        | inr room ↦
            rw (room, next_fit, add_file_small current f (omega arith))
              (pack_loop-next_fit target files buckets (with_file current f) p (omega arith))
      ])

-- Where sizes add up within an int64, `Pack` is the packing over plain numbers.
pub pack-next_fit :
    (files : List FileInfo) (target : ℕ)
    → target < int64_limit
    → total files < int64_limit
    → pack files target ≡ next_fit target empty_bucket files
unfolding pack
pack-next_fit files target p q = pack_loop-next_fit target files [] empty_bucket p (omega arith)
