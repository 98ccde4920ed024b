-- ===== src/Binpack.antt =====
-- internal/binpack/binpack.go: the staged files, the room on a disc, and the packing of buckets.
pub mod Scan
pub mod Target
pub mod NextFit
pub mod Buckets
use varis.Base.{
  ℕ, zero, suc, ◌+◌, ◌-◌, ◌*◌, ◌/◌, ◌%◌, ◌^◌, ◌≤◌, ◌<◌, min, bit_xor, ◌≡◌, ◌≢◌, ◌↔◌, ◌⊎◌, inl, inr,
  refl, sym, ap, ap₂, subst, fun_ext, ◌∙◌, Bool, true, false, not, ◌&&◌, ◌||◌, Bool-cases, List, [],
  ◌∷◌, ◌++◌, map, append_assoc, append-nil, map-append, Option, none, some, Option-cases, arith,
  tests, ltb, leb, ◌==◌, ltb→lt, lt→ltb, leb→le, le→leb, ==_iff, if◌then◌else◌, dec_lt, dec_le,
  ℕ_discrete, Text, codes, text_eq, text_eq_iff, text_eq_refl, text_ne, contains, contains-append,
  Error, external, message, wrapped, not_found, Result, ok, err, ◌>>=◌, Result-cases, length,
  get_elem?, get_or, set, take, drop, replicate, All, All-append, All-imp, length-append,
  length-map, length-replicate, length-take, length-drop, take-append-drop, get_or_ext, add64,
  mul64, neg64, lt64, div64, is_negative64, int64_limit,
}

pub record FileInfo : Type 0 where
  pub path : Text
  pub size : ℕ

pub record Bucket : Type 0 where
  pub files : List FileInfo
  pub total_size : ℕ

unfoldable pub target_data_size : ℕ → ℕ → ℕ
target_data_size capacity parity_percent = div64 (mul64 capacity 100) (add64 100 parity_percent)

abbrev pub empty_bucket : Bucket
empty_bucket = record { files = []; total_size = 0 }

abbrev pub add_file : Bucket → FileInfo → Bucket
add_file b f = record { files = b.files ++ f ∷ []; total_size = add64 b.total_size f.size }

-- `current.TotalSize > 0 && current.TotalSize+f.Size > targetSize`
abbrev pub is_full : ℕ → Bucket → FileInfo → Bool
is_full target current f =
    lt64 0 current.total_size && lt64 target (add64 current.total_size f.size)

-- The loop of `Pack`, and the last append after it.
unfoldable pub pack_loop : ℕ → List FileInfo → List Bucket → Bucket → List Bucket
pack_loop target [] buckets current =
    if ltb 0 (length current.files) then buckets ++ current ∷ [] else buckets
pack_loop target (f ∷ files) buckets current =
    pack_loop target files (if is_full target current f then buckets ++ current ∷ [] else buckets)
      (add_file (if is_full target current f then empty_bucket else current) f)

unfoldable pub pack : List FileInfo → ℕ → List Bucket
unfolding pack_loop
pack files target = pack_loop target files [] empty_bucket
