-- ===== src/Burn/Reconstruct/Rebuild.antt =====
-- A lost data disc comes back from the others of its group, in whatever order they are inserted.
use varis.Base.{
  ℕ, ◌≡◌, ◌≢◌, ◌⊎◌, refl, sym, ap, ap₂, ◌∙◌, true, false, ◌||◌, List, [], ◌∷◌, ◌++◌, map, none,
  some, inl, inr, Text, text_eq, text_eq_iff, text_eq_refl, contains, contains-append, Option-cases,
  ok, ◌>>=◌, arith, All, All-imp, map-append, if◌then◌else◌, append_assoc,
}
use varis.Base.Dict.{lookup}
use varis.Xordisk.{Bytes, xor_disks}
use varis.Xordisk.Recovery.{pad, xor_disks_same, xor_disks-recovers}
use varis.Db.{Disk}
use varis.Burn.Reconstruct.{Reconstructor, ids, others, new_reconstructor, image_of, reconstruct}
use varis.Burn.Reconstruct.Supplies.{
  without, others-without, supply_all, supply_all-eq-ok, inserted, Agrees, inserted-Agrees,
  Agrees-nil, inserted-has, unsupplied-eq-nil,
}

without-append :
    (id : Text) (xs ys : List Text) → without id (xs ++ ys) ≡ without id xs ++ without id ys
unfolding without
without-append id [] ys = refl
without-append id (x ∷ xs) ys = ground (arith, without-append id xs ys)

without_absent : (id : Text) (xs : List Text) → contains id xs ≡ false → without id xs ≡ xs
unfolding without contains
without_absent id [] h = refl
without_absent id (x ∷ xs) h = ground (arith, without_absent id xs)

ids-append : (xs ys : List Disk) → ids (xs ++ ys) ≡ ids xs ++ ids ys
ids-append [] ys = refl
ids-append (x ∷ xs) ys = ap (◌∷◌ x.id) (ids-append xs ys)

-- A finished reconstruction computes the exclusive or of what was expected from each disc.
pub reconstruct-Agrees :
    (r : Reconstructor) (expected : Text → Bytes)
    → All (λ id. lookup id r.images ≢ none) r.other_ids
    → Agrees r.capacity_bytes expected r.images
    → reconstruct r ≡ ok (xor_disks (map expected r.other_ids) r.capacity_bytes)
unfolding reconstruct
reconstruct-Agrees r expected supplied agrees =
    rw (unsupplied-eq-nil r.other_ids r.images supplied)
      (ap ok (xor_disks_same _ _ r.capacity_bytes (same r.other_ids supplied)))
  where
    same :
        (xs : List Text)
        → All (λ id. lookup id r.images ≢ none) xs
        → map (pad r.capacity_bytes) (map (image_of r.images) xs)
          ≡ map (pad r.capacity_bytes) (map expected xs)
    same [] h = refl
    same (x ∷ xs) h = ap₂ ◌∷◌ (at (Option-cases (lookup x r.images))) (same xs h.1)
      where
        at :
            ((lookup x r.images ≡ none) ⊎ ((image : Bytes) × (lookup x r.images ≡ some image)))
            → pad r.capacity_bytes (image_of r.images x) ≡ pad r.capacity_bytes (expected x)
        at (inl e) = absurd (h.0 e)
        at (inr (image, e)) = rw (e, image_of) (agrees x image e)

without_self : (id : Text) (xs : List Text) → without id (id ∷ xs) ≡ without id xs
unfolding without
without_self id xs = rw (text_eq_refl id)

contains_self : (id : Text) (xs ys : List Text) → contains id (xs ++ id ∷ ys) ≡ true
unfolding contains
contains_self id [] ys = ground (arith, text_eq_refl id)
contains_self id (x ∷ xs) ys = ground (arith, contains_self id xs ys)

-- What holds of every id that occurs.
All-contains :
    (P : Text → Type 0) (xs : List Text) → ((x : Text) → contains x xs ≡ true → P x) → All P xs
unfolding contains
All-contains P [] f = tt
All-contains P (x ∷ xs) f =
    (f x (ground (arith, text_eq_refl x)), All-contains P xs (λ y h. f y (ground arith)))

module _ (pre post : List Disk) (lost parity : Disk) (burned : Text → Bytes) (size : ℕ)
    (supplies : List (Text × Bytes)) where
  -- A complete group, in the order of the slots.
  abbrev pub group : List Disk
  group = pre ++ lost ∷ (post ++ parity ∷ [])

  -- The ids of the other data discs.
  abbrev pub survivors : List Text
  survivors = ids pre ++ ids post

  abbrev pub payload : Bytes
  payload = xor_disks (map burned (ids pre ++ lost.id ∷ ids post)) size

  -- What a readable disc gives: a data disc its image, the parity disc its payload.
  abbrev pub readable : Text → Bytes
  readable id = if text_eq id parity.id then payload else burned id

  others-group :
      contains lost.id (survivors ++ parity.id ∷ []) ≡ false
      → others lost.id group ≡ survivors ++ parity.id ∷ []
  others-group fresh =
      others-without lost.id group
      ∙ ap (without lost.id) ids-group
      ∙ without-append lost.id (ids pre) _
      ∙ ap₂ ◌++◌ (without_absent lost.id (ids pre) (ground (arith, in_all, in_survivors))) (
          without_self lost.id _
          ∙ without_absent lost.id (ids post ++ parity.id ∷ []) (
              ground
                (arith, in_all, in_survivors, contains-append lost.id (ids post) (parity.id ∷ []))))
      ∙ sym (append_assoc (ids pre) (ids post) (parity.id ∷ []))
    where
      ids-group : ids group ≡ ids pre ++ lost.id ∷ (ids post ++ parity.id ∷ [])
      ids-group =
          ids-append pre (lost ∷ (post ++ parity ∷ []))
          ∙ ap (λ t. ids pre ++ lost.id ∷ t) (ids-append post (parity ∷ []))

      in_all :
          contains lost.id (survivors ++ parity.id ∷ [])
          ≡ (contains lost.id survivors || contains lost.id (parity.id ∷ []))
      in_all = contains-append lost.id survivors (parity.id ∷ [])

      in_survivors :
          contains lost.id survivors ≡ (contains lost.id (ids pre) || contains lost.id (ids post))
      in_survivors = contains-append lost.id (ids pre) (ids post)

  map-readable : (xs : List Text) → contains parity.id xs ≡ false → map readable xs ≡ map burned xs
  unfolding contains
  map-readable [] h = refl
  map-readable (x ∷ xs) h =
      ap₂ ◌∷◌ (ground (arith, text_eq_iff x parity.id)) (map-readable xs (ground arith))

  abbrev pub begun : Reconstructor
  begun = record {
    missing_id = lost.id;
    other_ids = survivors ++ parity.id ∷ [];
    images = [];
    capacity_bytes = size;
  }

  pub new_reconstructor-begun :
      contains lost.id (survivors ++ parity.id ∷ []) ≡ false
      → new_reconstructor group lost.id size ≡ ok begun
  unfolding new_reconstructor
  new_reconstructor-begun fresh =
      rw
        (
          others-group fresh,
          ids-append pre (lost ∷ (post ++ parity ∷ [])),
          contains_self lost.id (ids pre),
        )
        refl

  pub xor_disks-readable :
      contains parity.id survivors ≡ false
      → xor_disks (map readable (survivors ++ parity.id ∷ [])) size ≡ pad size (burned lost.id)
  xor_disks-readable once =
      ap (λ t. xor_disks t size) (map-append _ _ _ ∙ ap₂ ◌++◌ (map-readable survivors once) own)
      ∙ ap (λ t. xor_disks (map burned survivors ++ xor_disks t size ∷ []) size) (map-append _ _ _)
      ∙ xor_disks-recovers (map burned (ids pre)) (map burned (ids post)) (map burned survivors)
          (burned lost.id) size (ap (map (pad size)) (map-append _ _ _))
    where
      own : map readable (parity.id ∷ []) ≡ payload ∷ []
      own = rw (text_eq_refl parity.id)

  -- Insert the other discs of a group in any order, some of them perhaps twice, each giving the
  -- bytes that were burned or zero bytes after them: once each has been read, the reconstruction
  -- gives the image of the lost data disc, filled up with zeros (or cut off) to the capacity of
  -- the medium. It is assumed that the lost disc's id and the parity disc's occur once.
  pub rebuild :
      contains lost.id (survivors ++ parity.id ∷ []) ≡ false
      → contains parity.id survivors ≡ false
      → All
          (λ (id, image).
            (contains id (survivors ++ parity.id ∷ []) ≡ true)
            × (pad size image ≡ pad size (readable id)))
          supplies
      → All (λ id. contains id (map (λ (id, _). id) supplies) ≡ true) (survivors ++ parity.id ∷ [])
      → (new_reconstructor group lost.id size >>= λ r. supply_all r supplies >>= reconstruct)
        ≡ ok (pad size (burned lost.id))
  unfolding new_reconstructor
  rebuild fresh once read complete =
      rw
        (
          new_reconstructor-begun fresh,
          supply_all-eq-ok begun supplies (All-imp _ _ (λ _ h. h.0) supplies read),
        )
        (reconstruct-Agrees (record begun { images = inserted [] supplies }) readable
            (All-imp _ _ (λ id. inserted-has id [] supplies) _ complete)
            (inserted-Agrees size readable [] supplies (Agrees-nil size readable)
              (All-imp _ _ (λ _ h. h.1) supplies read))
          ∙ ap ok (xor_disks-readable once))
