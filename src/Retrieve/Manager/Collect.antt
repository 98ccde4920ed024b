-- ===== src/Retrieve/Manager/Collect.antt =====
-- What the sections of `foldReconstructionImage` of internal/retrieve/retrieve.go collect.
use varis.Base.{
  ℕ, suc, ◌≡◌, ◌≢◌, ◌⊎◌, inl, inr, refl, sym, ap, ap₂, subst, ◌∙◌, true, false, List, [], ◌∷◌, ◌++◌,
  map, Option, none, some, Option-cases, arith, ltb, Text, contains, Result, ok, length, All,
}
use varis.Base.Dict.{Dict, lookup, insert}
use varis.Xordisk.{Bytes, xor_disks}
use varis.Xordisk.Recovery.{pad}
use varis.Db.{Disk}
use varis.Burn.Reconstruct.{
  Reconstructor, unsupplied, remaining, needs_more, supply_disc_image, reconstruct,
}
use varis.Burn.Reconstruct.Supplies.{without, Agrees, inserted-Agrees, remaining-supply_disc_image}
use varis.Burn.Reconstruct.Rebuild.{survivors, readable, reconstruct-Agrees, xor_disks-readable}
use varis.Retrieve.Fetch.{supplied, fold_reconstruction_image}

-- Nothing is needed only once every id has an image.
supplied_of-unsupplied :
    (xs : List Text) (images : Dict Bytes)
    → unsupplied xs images ≡ []
    → All (λ id. lookup id images ≢ none) xs
unfolding unsupplied
supplied_of-unsupplied [] images h = tt
supplied_of-unsupplied (x ∷ xs) images h =
    found (supplied_of-unsupplied xs images) (Option-cases (lookup x images))
  where
    found :
        (unsupplied xs images ≡ [] → All (λ id. lookup id images ≢ none) xs)
        → ((lookup x images ≡ none) ⊎ ((image : Bytes) × (lookup x images ≡ some image)))
        → All (λ id. lookup id images ≢ none) (x ∷ xs)
    found ih (inl e) = absurd (ground (arith, e, h))
    found ih (inr (image, e)) = (λ n. ground (arith, e, n), ih (ground (arith, e)))

-- What a section yields: an image once no disc is needed any more, and none before.
pub data Folded (size : ℕ) (lost : Bytes) (needed : List Text) : Option Bytes → Type 0 where
  more_needed : needed ≢ [] → Folded size lost needed none
  all_read : needed ≡ [] → Folded size lost needed (some (pad size lost))

module _ (pre post : List Disk) (lost parity : Disk) (burned : Text → Bytes) (size : ℕ) where
  abbrev expected : Text → Bytes
  expected = readable pre post lost parity burned size []

  -- The reconstructor asks for the other discs of the group, and every image that it has is, up
  -- to the padding, what that disc was burned with.
  pub record Collecting (r : Reconstructor) : Type 0 where
    pub asks : r.other_ids ≡ survivors pre post lost parity burned size [] ++ parity.id ∷ []
    pub fits : r.capacity_bytes ≡ size
    pub agrees : Agrees size expected r.images

  abbrev with_image : Reconstructor → Text → Bytes → Reconstructor
  with_image r id image = record r { images = insert id image r.images }

  supply_disc_image_member :
      (r : Reconstructor) (id : Text) (image : Bytes)
      → contains id r.other_ids ≡ true
      → supply_disc_image r id image ≡ ok (with_image r id image)
  unfolding supply_disc_image
  supply_disc_image_member r id image h = rw h refl

  with_image-Collecting :
      (r : Reconstructor) (id : Text) (image : Bytes)
      → Collecting r
      → pad size image ≡ pad size (expected id)
      → Collecting (with_image r id image)
  with_image-Collecting r id image c same = record {
    asks = c.asks;
    fits = c.fits;
    agrees = inserted-Agrees size expected r.images ((id, image) ∷ []) c.agrees (same, tt);
  }

  reconstruct-Collecting :
      (r : Reconstructor)
      → Collecting r
      → contains parity.id (survivors pre post lost parity burned size []) ≡ false
      → remaining r ≡ []
      → reconstruct r ≡ ok (pad size (burned lost.id))
  unfolding remaining
  reconstruct-Collecting r c once h =
      reconstruct-Agrees r expected (supplied_of-unsupplied r.other_ids r.images h)
        (subst (λ n. Agrees n expected r.images) (sym c.fits) c.agrees)
      ∙ ap ok (
          ap₂ (λ xs n. xor_disks (map expected xs) n) c.asks c.fits
          ∙ xor_disks-readable pre post lost parity burned size [] once)

  -- The reconstructor behind a fold, and what the fold has yielded.
  abbrev pub Advanced : List Text → Result (Option Bytes) × Reconstructor → Type 0
  Advanced needed (result, s) =
      Collecting s
      × (remaining s ≡ needed)
      × (yielded : Option Bytes) × (result ≡ ok yielded)
      × Folded size (burned lost.id) needed yielded

  supplied-Advanced :
      (r s : Reconstructor)
      → Collecting s
      → contains parity.id (survivors pre post lost parity burned size []) ≡ false
      → Advanced (remaining s) (supplied r (ok s))
  unfolding needs_more
  supplied-Advanced r s c once = at (remaining s) refl
    where
      positive : (needed : List Text) → ltb 0 (suc (length needed)) ≡ true
      positive needed = ground arith

      at : (needed : List Text) → remaining s ≡ needed → Advanced (remaining s) (supplied r (ok s))
      at [] none_left =
          rw (none_left, reconstruct-Collecting s c once none_left)
            (c, none_left, some (pad size (burned lost.id)), refl, all_read refl)
      at (x ∷ needed) left =
          rw (left, positive needed) (c, left, none, refl, more_needed (λ e. ground arith))

  -- Once a group has been chosen, with the parity disc's id occurring once, let a reconstructor ask
  -- for the other discs and have, up to padding, the burned bytes of those it has read. Fold in one
  -- that it asks for, read with the bytes that it was burned with or zero bytes after them. Then the
  -- fold returns no error, the new reconstructor is of the same kind, exactly this disc is no
  -- longer needed, and the fold yields an image if and only if no disc is needed: the image that
  -- the lost disc was burned with, filled up with zeros (or cut off) to the medium's capacity.
  pub fold_reconstruction_image-Advanced :
      (r : Reconstructor) (id : Text) (image : Bytes)
      → contains parity.id (survivors pre post lost parity burned size []) ≡ false
      → Collecting r
      → contains id r.other_ids ≡ true
      → pad size image ≡ pad size (expected id)
      → Advanced (without id (remaining r)) (fold_reconstruction_image r id image)
  unfolding fold_reconstruction_image
  fold_reconstruction_image-Advanced r id image once c member same =
      subst (λ x. Advanced (without id (remaining r)) (supplied r x)) (sym supplying)
        (subst (λ needed. Advanced needed (supplied r (ok (with_image r id image))))
          (remaining-supply_disc_image r (with_image r id image) id image supplying)
          (supplied-Advanced r (with_image r id image) (with_image-Collecting r id image c same)
            once))
    where
      supplying : supply_disc_image r id image ≡ ok (with_image r id image)
      supplying = supply_disc_image_member r id image member
