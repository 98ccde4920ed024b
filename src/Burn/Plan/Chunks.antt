-- ===== src/Burn/Plan/Chunks.antt =====
-- The slices of the loop over groups.
use varis.Base.{
  ℕ, zero, suc, ◌≤◌, ◌<◌, ◌≡◌, refl, ap, ◌∙◌, List, [], ◌∷◌, ◌++◌, arith, length, take, drop, All,
  length-take, length-drop, take-append-drop,
}
use mathlib.Core.List.{flatten}
use varis.Burn.Plan.{chunks, effective_group_size}

module _ {ℓ} {A : Type ℓ} where
  -- The slices are the whole list, if the bound is the list's length.
  pub flatten-chunks :
      (bound n : ℕ) (xs : List A) → 0 < n → length xs ≤ bound → flatten (chunks bound n xs) ≡ xs
  unfolding chunks flatten
  flatten-chunks zero n [] p h = refl
  flatten-chunks zero n (x ∷ xs) p h = absurd (omega arith)
  flatten-chunks (suc bound) n [] p h = refl
  flatten-chunks (suc bound) n (x ∷ xs) p h =
      ap (◌++◌ (take n (x ∷ xs)))
        (flatten-chunks bound n (drop n (x ∷ xs)) p (omega (arith, length-drop n (x ∷ xs))))
      ∙ take-append-drop n (x ∷ xs)

  -- Each has an element, and at most `n`.
  pub chunks_bounds :
      (bound n : ℕ) (xs : List A)
      → 0 < n
      → All (λ c. (1 ≤ length c) × (length c ≤ n)) (chunks bound n xs)
  unfolding chunks
  chunks_bounds zero n xs p = tt
  chunks_bounds (suc bound) n [] p = tt
  chunks_bounds (suc bound) n (x ∷ xs) p = (
    (omega (arith, length-take n (x ∷ xs)), omega (arith, length-take n (x ∷ xs))),
    chunks_bounds bound n (drop n (x ∷ xs)) p,
  )

-- A group has room for a disc, and for two at least where a size is given.
pub effective_group_size_pos : (n : ℕ) → 0 < effective_group_size n
effective_group_size_pos n = ground arith
