-- ===== src/Xordisk/Pointwise.antt =====
-- The loops of `XOR` against their meaning at one offset.
use mathlib.Core.List.{foldl}
use varis.Base.{
  ℕ, zero, suc, ◌+◌, ◌≤◌, ◌<◌, ◌≡◌, refl, sym, subst, ◌∙◌, ap, ◌⊎◌, inl, inr, List, [], ◌∷◌, arith,
  bit_xor, length, get_or, set, replicate, length-set, length-replicate, get_or-set_self,
  get_or-set_ne, get_or_beyond, get_or-replicate, ltb, dec_lt, Bool-cases, if◌then◌else◌,
}
use varis.Base.Bits.{bit_xor-zero, bit_xor_assoc, zero-bit_xor}
use varis.Xordisk.{Bytes, xor_bytes, xor_image, xor_disks}

-- The byte at offset `i` over all images, an image counting as 0 beyond its end.
unfoldable pub xor_at : ℕ → List Bytes → ℕ
xor_at i [] = 0
xor_at i (img ∷ images) = bit_xor (get_or img i 0) (xor_at i images)

pub length-xor_bytes : (k i : ℕ) (out img : Bytes) → length (xor_bytes k i out img) ≡ length out
unfolding xor_bytes
length-xor_bytes zero i out img = refl
length-xor_bytes (suc k) i out img = length-xor_bytes k (i + 1) _ img ∙ length-set out i _

outside :
    (k i j : ℕ) (out img : Bytes)
    → (j < i) ⊎ (i + k ≤ j)
    → get_or (xor_bytes k i out img) j 0 ≡ get_or out j 0
unfolding xor_bytes
outside zero i j out img h = refl
outside (suc k) i j out img h =
    outside k (i + 1) j _ img (apart h) ∙ get_or-set_ne out i j _ 0 (λ e. omega arith)
  where
    apart : (j < i) ⊎ (i + suc k ≤ j) → (j < i + 1) ⊎ (i + 1 + k ≤ j)
    apart (inl p) = inl (omega arith)
    apart (inr p) = inr (omega arith)

inside :
    (k i j : ℕ) (out img : Bytes)
    → i ≤ j
    → j < i + k
    → i + k ≤ length out
    → get_or (xor_bytes k i out img) j 0 ≡ bit_xor (get_or out j 0) (get_or img j 0)
unfolding xor_bytes
inside zero i j out img p q r = absurd (omega arith)
inside (suc k) i j out img p q r = elim (dec_lt i j) [
  | yes later ↦
      inside k (i + 1) j _ img (omega arith) (omega arith) (omega (arith, length-set out i here))
      ∙ ap (λ (t : ℕ). bit_xor t (get_or img j 0)) (get_or-set_ne out i j here 0 (λ e. omega arith))
  | no now ↦
      let e : i ≡ j = omega arith in
      outside k (i + 1) j _ img (inl (omega arith))
      ∙ subst (λ (t : ℕ). get_or (set out i here) t 0 ≡ bit_xor (get_or out t 0) (get_or img t 0)) e
          (get_or-set_self out i here 0 (omega arith))
]
  where
    here : ℕ
    here = bit_xor (get_or out i 0) (get_or img i 0)

pub length-xor_image : (size : ℕ) (out img : Bytes) → length (xor_image size out img) ≡ length out
unfolding xor_image
length-xor_image size out img =
    length-xor_bytes (if ltb size (length img) then size else length img) 0 out img

get_or-xor_image :
    (size j : ℕ) (out img : Bytes)
    → length out ≡ size
    → j < size
    → get_or (xor_image size out img) j 0 ≡ bit_xor (get_or out j 0) (get_or img j 0)
unfolding xor_image
get_or-xor_image size j out img e h = elim (Bool-cases (ltb size (length img))) [
  | inl longer ↦ rw longer (inside size 0 j out img (omega arith) (omega arith) (omega arith))
  | inr shorter ↦ rw shorter (elim (dec_lt j (length img)) [
    | yes covered ↦
        inside (length img) 0 j out img (omega arith) (omega arith) (ground (arith, shorter))
    | no beyond ↦
        outside (length img) 0 j out img (inr (omega arith))
        ∙ rw (get_or_beyond img j 0 (omega arith)) (sym (bit_xor-zero _))
  ])
]

length-fold :
    (size : ℕ) (images : List Bytes) (out : Bytes)
    → length (foldl (xor_image size) out images) ≡ length out
length-fold size [] out = refl
length-fold size (img ∷ images) out =
    length-fold size images (xor_image size out img) ∙ length-xor_image size out img

get_or-fold :
    (size j : ℕ) (images : List Bytes) (out : Bytes)
    → length out ≡ size
    → j < size
    → get_or (foldl (xor_image size) out images) j 0 ≡ bit_xor (get_or out j 0) (xor_at j images)
unfolding xor_at
get_or-fold size j [] out e h = sym (bit_xor-zero _)
get_or-fold size j (img ∷ images) out e h =
    get_or-fold size j images (xor_image size out img) (length-xor_image size out img ∙ e) h
    ∙ ap (λ (t : ℕ). bit_xor t (xor_at j images)) (get_or-xor_image size j out img e h)
    ∙ bit_xor_assoc _ _ _

-- The result has the length that was asked for.
pub length-xor_disks : (images : List Bytes) (size : ℕ) → length (xor_disks images size) ≡ size
unfolding xor_disks
length-xor_disks images size = length-fold size images _ ∙ length-replicate size 0

-- Below that length each byte is the exclusive or of the images' bytes at its offset.
pub get_or-xor_disks :
    (images : List Bytes) (size j : ℕ)
    → j < size
    → get_or (xor_disks images size) j 0 ≡ xor_at j images
unfolding xor_disks
get_or-xor_disks images size j h =
    get_or-fold size j images (replicate size 0) (length-replicate size 0) h
    ∙ rw (get_or-replicate {A = ℕ} size j 0) (zero-bit_xor _)
