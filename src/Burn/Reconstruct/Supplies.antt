-- ===== src/Burn/Reconstruct/Supplies.antt =====
-- What `Remaining` reports while discs are supplied, and what the collected images are.
use varis.Base.{
  ℕ, ◌≡◌, ◌≢◌, refl, true, List, [], ◌∷◌, map, none, some, inl, inr, Text, text_eq, text_eq_iff,
  false, contains, Bool-cases, Result, ok, ◌>>=◌, arith, All, if◌then◌else◌,
}
use varis.Base.Dict.{Dict, lookup, insert, lookup-insert}
use varis.Xordisk.{Bytes}
use varis.Xordisk.Recovery.{pad}
use varis.Db.{Disk}
use varis.Burn.Reconstruct.{Reconstructor, ids, others, unsupplied, remaining, supply_disc_image}

-- The ids of a list other than `id`, in their order.
unfoldable pub without : Text → List Text → List Text
without id [] = []
without id (x ∷ xs) = let rest = without id xs in if text_eq x id then rest else x ∷ rest

pub others-without :
    (missing : Text) (group : List Disk) → others missing group ≡ without missing (ids group)
unfolding others without
others-without missing [] = refl
others-without missing (d ∷ group) = ground (arith, others-without missing group)

unsupplied-insert :
    (id : Text) (image : Bytes) (images : Dict Bytes) (xs : List Text)
    → unsupplied xs (insert id image images) ≡ without id (unsupplied xs images)
unfolding unsupplied without
unsupplied-insert id image images [] = refl
unsupplied-insert id image images (x ∷ xs) = ground (
  arith,
  unsupplied-insert id image images xs,
  lookup-insert id x image images,
  text_eq_iff id x,
  text_eq_iff x id,
)

-- Supplying a disc takes its id, and no other, off the list of discs that are still needed.
pub remaining-supply_disc_image :
    (r s : Reconstructor) (id : Text) (image : Bytes)
    → supply_disc_image r id image ≡ ok s
    → remaining s ≡ without id (remaining r)
unfolding supply_disc_image remaining
remaining-supply_disc_image r s id image h =
    ground (arith, unsupplied-insert id image r.images r.other_ids)

-- The discs are supplied one after the other; the first that is refused ends the run.
unfoldable pub supply_all : Reconstructor → List (Text × Bytes) → Result Reconstructor
supply_all r [] = ok r
supply_all r ((id, image) ∷ supplies) = supply_disc_image r id image >>= λ s. supply_all s supplies

abbrev pub inserted : Dict Bytes → List (Text × Bytes) → Dict Bytes
inserted images [] = images
inserted images ((id, image) ∷ supplies) = inserted (insert id image images) supplies

pub supply_all-eq-ok :
    (r : Reconstructor) (supplies : List (Text × Bytes))
    → All (λ (id, _). contains id r.other_ids ≡ true) supplies
    → supply_all r supplies ≡ ok (record r { images = inserted r.images supplies })
unfolding supply_all supply_disc_image
supply_all-eq-ok r [] h = refl
supply_all-eq-ok r ((id, image) ∷ supplies) h =
    rw h.0 (supply_all-eq-ok (record r { images = insert id image r.images }) supplies h.1)

-- Every image that has been collected is, up to the padding, the one that is expected.
abbrev pub Agrees : ℕ → (Text → Bytes) → Dict Bytes → Type 0
Agrees size expected images =
    (id : Text) (image : Bytes)
    → lookup id images ≡ some image
    → pad size image ≡ pad size (expected id)

pub Agrees-nil : (size : ℕ) (expected : Text → Bytes) → Agrees size expected []
unfolding lookup
Agrees-nil size expected id image e = cc

pub inserted-Agrees :
    (size : ℕ) (expected : Text → Bytes) (images : Dict Bytes) (supplies : List (Text × Bytes))
    → Agrees size expected images
    → All (λ (id, image). pad size image ≡ pad size (expected id)) supplies
    → Agrees size expected (inserted images supplies)
inserted-Agrees size expected images [] a h = a
inserted-Agrees size expected images ((id, image) ∷ supplies) a h =
    inserted-Agrees size expected (insert id image images) supplies agrees h.1
  where
    agrees : Agrees size expected (insert id image images)
    agrees j other found = elim (Bool-cases (text_eq id j)) [
      | inl same ↦ ground (arith, lookup-insert id j image images, (text_eq_iff id j).0 same, h.0)
      | inr fresh ↦ a j other (ground (arith, lookup-insert id j image images))
    ]

pub inserted-keeps :
    (k : Text) (images : Dict Bytes) (supplies : List (Text × Bytes))
    → lookup k images ≢ none
    → lookup k (inserted images supplies) ≢ none
inserted-keeps k images [] h = h
inserted-keeps k images ((id, image) ∷ supplies) h =
    inserted-keeps k (insert id image images) supplies
      (λ e. ground (arith, lookup-insert id k image images, h))

pub inserted-has :
    (k : Text) (images : Dict Bytes) (supplies : List (Text × Bytes))
    → contains k (map (λ (id, _). id) supplies) ≡ true
    → lookup k (inserted images supplies) ≢ none
unfolding contains
inserted-has k images [] h = ground arith
inserted-has k images ((id, image) ∷ supplies) h = elim (Bool-cases (text_eq id k)) [
  | inl same ↦
      inserted-keeps k (insert id image images) supplies
        (λ e. ground (arith, lookup-insert id k image images))
  | inr fresh ↦ inserted-has k (insert id image images) supplies (ground arith)
]

-- Nothing is needed any more once every id has an image.
pub unsupplied-eq-nil :
    (xs : List Text) (images : Dict Bytes)
    → All (λ id. lookup id images ≢ none) xs
    → unsupplied xs images ≡ []
unfolding unsupplied
unsupplied-eq-nil [] images h = refl
unsupplied-eq-nil (x ∷ xs) images h = ground (arith, unsupplied-eq-nil xs images h.1, h.0)

pub without-lacks : (id : Text) (xs : List Text) → contains id (without id xs) ≡ false
unfolding without contains
without-lacks id [] = refl
without-lacks id (x ∷ xs) = ground (arith, without-lacks id xs, text_eq_iff x id, text_eq_iff id x)

-- The missing disc is not asked for.
pub others-lacks :
    (missing : Text) (group : List Disk) → contains missing (others missing group) ≡ false
others-lacks missing group = rw (others-without missing group) (without-lacks missing (ids group))
