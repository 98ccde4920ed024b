-- ===== src/Burn/Reconstruct.antt =====
-- internal/burn/reconstruct.go: the `Reconstructor` that rebuilds a lost disc of a group.
pub mod Supplies
pub mod Rebuild
use varis.Base.{
  ℕ, ◌<◌, Bool, List, [], ◌∷◌, map, Option, none, some, Text, codes, text_eq, contains, length, ltb,
  Result, ok, err, message, if◌then◌else◌,
}
use varis.Base.Dict.{Dict, lookup, insert}
use varis.Xordisk.{Bytes, xor_disks}
use varis.Db.{Disk}

pub record Reconstructor : Type 0 where
  pub missing_id : Text
  pub other_ids : List Text
  pub images : Dict Bytes
  pub capacity_bytes : ℕ

-- The ids of the group's discs but the missing one.
unfoldable pub others : Text → List Disk → List Text
others missing [] = []
others missing (d ∷ group) =
    let rest = others missing group in if text_eq d.id missing then rest else d.id ∷ rest

abbrev pub ids : List Disk → List Text
ids = map (λ d. d.id)

unfoldable pub new_reconstructor : List Disk → Text → ℕ → Result Reconstructor
unfolding others
new_reconstructor group missing capacity =
    if contains missing (ids group)
    then ok (record {
      missing_id = missing;
      other_ids = others missing group;
      images = [];
      capacity_bytes = capacity;
    })
    else err (message (codes "disc %s is not a member of this group") (missing ∷ []))

-- The loop of `Remaining`.
unfoldable pub unsupplied : List Text → Dict Bytes → List Text
unsupplied [] images = []
unsupplied (id ∷ rest) images =
    let more = unsupplied rest images in
    elim (lookup id images) [ none ↦ id ∷ more | some _ ↦ more ]

unfoldable pub remaining : Reconstructor → List Text
unfolding unsupplied
remaining r = unsupplied r.other_ids r.images

unfoldable pub needs_more : Reconstructor → Bool
unfolding remaining
needs_more r = ltb 0 (length (remaining r))

unfoldable pub supply_disc_image : Reconstructor → Text → Bytes → Result Reconstructor
supply_disc_image r id image =
    if contains id r.other_ids
    then ok (record r { images = insert id image r.images })
    else err (message (codes "disc %s is not a member of this group") (id ∷ []))

-- A key that is not in the map gives the nil slice.
abbrev pub image_of : Dict Bytes → Text → Bytes
image_of images id = elim (lookup id images) [ none ↦ [] | some image ↦ image ]

unfoldable pub reconstruct : Reconstructor → Result Bytes
unfolding needs_more
reconstruct r =
    if needs_more r
    then err (message (codes "still need discs: %v") (remaining r))
    else ok (xor_disks (map (image_of r.images) r.other_ids) r.capacity_bytes)
