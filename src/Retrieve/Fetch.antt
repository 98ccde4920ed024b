-- ===== src/Retrieve/Fetch.antt =====
-- What the operations of internal/retrieve/retrieve.go fetch from the catalog and from discs.
use varis.Base.{
  ℕ, [], ◌∷◌, ◌++◌, Option, none, some, if◌then◌else◌, Text, codes, Error, message, Result, ok, err,
}
use varis.Base.Effect.{Effect, throw, lift, pure, ◌>>=◌, ◌>>◌}
use varis.Os.{Os}
use varis.Db.{Disk, Role, parity_role}
use varis.Xordisk.{Bytes}
use varis.Burn.Reconstruct.{
  Reconstructor, new_reconstructor, needs_more, supply_disc_image, reconstruct,
}
use varis.Burn.Tools.{extract_from_disc, read_raw_image}
use varis.Retrieve.Catalog.{Catalog}
use varis.Retrieve.Job.{Job}
use varis.Retrieve.Read.{Dirs}

-- The section of `foldReconstructionImage`; no image stands for one that needs more discs.
abbrev pub reconstructed : Reconstructor → Result Bytes → Result (Option Bytes) × Reconstructor
reconstructed r (ok image) = (ok (some image), r)
reconstructed r (err e) = (err e, r)

abbrev pub supplied : Reconstructor → Result Reconstructor → Result (Option Bytes) × Reconstructor
supplied r (err e) = (err e, r)
supplied r (ok s) = if needs_more s then (ok none, s) else reconstructed s (reconstruct s)

unfoldable pub fold_reconstruction_image :
    Reconstructor → Text → Bytes → Result (Option Bytes) × Reconstructor
fold_reconstruction_image r disk_id image = supplied r (supply_disc_image r disk_id image)

module _ {W : Type 0} (cat : Catalog W) (os : Os W) (dirs : Dirs) where
  -- What is read: the device, or the image that a dry run has left.
  abbrev pub source : Disk → Text → Text → Text
  source disk disk_id target_path =
      if disk.is_dry_run then os.join dirs.dry_run_dir (disk_id ++ codes ".iso") else target_path

  abbrev pub no_group : Text → Error
  no_group disk_id =
      message (codes "disc %s is not part of a cross-disc parity group") (disk_id ∷ [])

  abbrev pub group_of : Text → Option Text → Effect W Text
  group_of disk_id none = throw (no_group disk_id)
  group_of disk_id (some group_id) = pure group_id

  -- `StartReconstruction` between its sections.
  unfoldable pub prepare : Job → Effect W (Reconstructor × ℕ)
  prepare job = do
    disk ← cat.get_disk job.disk_id
    group_id ← group_of job.disk_id disk.group_id
    members ← cat.group_members group_id
    capacity ← cat.media_capacity disk.media_type
    r ← lift (new_reconstructor members job.disk_id capacity)
    pure (r, capacity)

  abbrev pub image_path : Text → Text
  image_path disk_id = os.join dirs.scratch_dir (disk_id ++ codes ".img")

  -- A data disc's bytes as they are; of a parity disc the payload inside.
  abbrev pub copy_image : ℕ → Text → Text → Role → Effect W (Unit {0})
  copy_image capacity disk_id src parity_role =
      extract_from_disc os src (codes "/" ++ disk_id ++ codes ".tar") (image_path disk_id)
  copy_image capacity disk_id src _ = read_raw_image os src (image_path disk_id) capacity

  unfoldable pub read_image : ℕ → Text → Text → Effect W Bytes
  read_image capacity disk_id target_path = do
    disk ← cat.get_disk disk_id
    copy_image capacity disk_id (source disk disk_id target_path) disk.role
    os.read_file (image_path disk_id)
