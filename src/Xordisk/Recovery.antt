-- ===== src/Xordisk/Recovery.antt =====
-- Why XOR parity works: the images that are left and the parity give the lost image back.
use varis.Base.{
  ℕ, zero, suc, ◌<◌, ◌≡◌, refl, sym, ◌∙◌, ap, ap₂, List, [], ◌∷◌, ◌++◌, map, arith, bit_xor, length,
  get_or, get_or_ext,
}
use varis.Base.Bits.{bit_xor-zero, bit_xor_self, bit_xor_comm, bit_xor_assoc, zero-bit_xor}
use varis.Xordisk.{Bytes, xor_disks}
use varis.Xordisk.Pointwise.{xor_at, length-xor_disks, get_or-xor_disks}

-- An image cut off or filled up with zeros to `size` bytes.
unfoldable pub pad : ℕ → Bytes → Bytes
pad zero img = []
pad (suc n) [] = 0 ∷ pad n []
pad (suc n) (b ∷ img) = b ∷ pad n img

length-pad : (n : ℕ) (img : Bytes) → length (pad n img) ≡ n
unfolding pad
length-pad zero img = refl
length-pad (suc n) [] = ap suc (length-pad n [])
length-pad (suc n) (b ∷ img) = ap suc (length-pad n img)

get_or-pad : (n j : ℕ) (img : Bytes) → j < n → get_or (pad n img) j 0 ≡ get_or img j 0
unfolding pad
get_or-pad zero j img h = absurd (omega arith)
get_or-pad (suc n) zero [] h = refl
get_or-pad (suc n) (suc j) [] h = get_or-pad n j [] (omega arith)
get_or-pad (suc n) zero (b ∷ img) h = refl
get_or-pad (suc n) (suc j) (b ∷ img) h = get_or-pad n j img (omega arith)

xor_at-append :
    (i : ℕ) (xs ys : List Bytes) → xor_at i (xs ++ ys) ≡ bit_xor (xor_at i xs) (xor_at i ys)
unfolding xor_at
xor_at-append i [] ys = sym (zero-bit_xor _)
xor_at-append i (x ∷ xs) ys =
    ap (bit_xor (get_or x i 0)) (xor_at-append i xs ys) ∙ sym (bit_xor_assoc _ _ _)

xor_at-pad : (size i : ℕ) (xs : List Bytes) → i < size → xor_at i (map (pad size) xs) ≡ xor_at i xs
unfolding xor_at
xor_at-pad size i [] h = refl
xor_at-pad size i (x ∷ xs) h = ap₂ bit_xor (get_or-pad size i x h) (xor_at-pad size i xs h)

xor_at_same :
    (size i : ℕ) (xs ys : List Bytes)
    → map (pad size) xs ≡ map (pad size) ys
    → i < size
    → xor_at i xs ≡ xor_at i ys
xor_at_same size i xs ys e h =
    sym (xor_at-pad size i xs h) ∙ ap (xor_at i) e ∙ xor_at-pad size i ys h

self-cancel : (x l : ℕ) → bit_xor x (bit_xor x l) ≡ l
self-cancel x l = rw (← bit_xor_assoc x x l, bit_xor_self x) (zero-bit_xor l)

-- What the survivors give, against what the group gave, leaves the lost one.
cancel : (a b l : ℕ) → bit_xor (bit_xor a b) (bit_xor a (bit_xor l b)) ≡ l
cancel a b l = rw (bit_xor_comm l b, ← bit_xor_assoc a b l) (self-cancel (bit_xor a b) l)

module _ (pre post seen : List Bytes) (lost : Bytes) (size : ℕ) where
  abbrev parity : Bytes
  parity = xor_disks (pre ++ lost ∷ post) size

  survivors_at :
      (j : ℕ)
      → map (pad size) seen ≡ map (pad size) (pre ++ post)
      → j < size
      → xor_at j seen ≡ bit_xor (xor_at j pre) (xor_at j post)
  survivors_at j same h = xor_at_same size j seen (pre ++ post) same h ∙ xor_at-append j pre post

  parity_at :
      (j : ℕ)
      → j < size
      → xor_at j (parity ∷ []) ≡ bit_xor (xor_at j pre) (bit_xor (get_or lost j 0) (xor_at j post))
  unfolding xor_at
  parity_at j h =
      bit_xor-zero _
      ∙ get_or-xor_disks (pre ++ lost ∷ post) size j h
      ∙ xor_at-append j pre (lost ∷ post)

  recovers_at :
      (j : ℕ)
      → map (pad size) seen ≡ map (pad size) (pre ++ post)
      → j < size
      → get_or (xor_disks (seen ++ parity ∷ []) size) j 0 ≡ get_or (pad size lost) j 0
  recovers_at j same h =
      get_or-xor_disks (seen ++ parity ∷ []) size j h
      ∙ xor_at-append j seen (parity ∷ [])
      ∙ ap₂ bit_xor (survivors_at j same h) (parity_at j h)
      ∙ cancel (xor_at j pre) (xor_at j post) (get_or lost j 0)
      ∙ sym (get_or-pad size j lost h)

  -- With the other data images as they were when the parity was computed, up to zero bytes at
  -- their ends, and with the parity itself, the same operation gives the lost image, cut off or
  -- filled up with zeros to the size of the medium.
  pub xor_disks-recovers :
      map (pad size) seen ≡ map (pad size) (pre ++ post)
      → xor_disks (seen ++ xor_disks (pre ++ lost ∷ post) size ∷ []) size ≡ pad size lost
  xor_disks-recovers same =
      get_or_ext 0 _ _ (length-xor_disks _ size ∙ sym (length-pad size lost))
        (λ j h. recovers_at j same (omega (arith, length-xor_disks (seen ++ parity ∷ []) size)))

-- Zero bytes at the ends of the images, and bytes beyond the size, make no difference.
pub xor_disks_same :
    (xs ys : List Bytes) (size : ℕ)
    → map (pad size) xs ≡ map (pad size) ys
    → xor_disks xs size ≡ xor_disks ys size
xor_disks_same xs ys size same =
    get_or_ext 0 _ _ (length-xor_disks xs size ∙ sym (length-xor_disks ys size)) (λ j h.
      let lt : j < size = omega (arith, length-xor_disks xs size) in
      get_or-xor_disks xs size j lt
      ∙ xor_at_same size j xs ys same lt
      ∙ sym (get_or-xor_disks ys size j lt))
