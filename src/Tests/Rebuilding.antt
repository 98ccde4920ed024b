-- ===== src/Tests/Rebuilding.antt =====
-- A group of three discs, one of them lost.
use varis.Base.{
  ℕ, ◌≡◌, refl, false, List, [], ◌∷◌, some, if◌then◌else◌, Text, codes, text_eq, contains, message,
  ok, err, ◌>>=◌,
}
use varis.Base.Dict.{lookup}
use varis.Xordisk.{Bytes, xor_disks}
use varis.Xordisk.Recovery.{pad}
use varis.Db.{Disk, Role, data_role, parity_role}
use varis.Burn.Reconstruct.{
  Reconstructor, new_reconstructor, remaining, supply_disc_image, reconstruct,
}
use varis.Burn.Reconstruct.Supplies.{supply_all}
use varis.Burn.Reconstruct.Rebuild.{rebuild}

abbrev disc : Text → Role → ℕ → Disk
disc id role slot = record {
  id = id;
  media_type = codes "BD-R";
  parity_percent = 10;
  group_id = some (codes "g");
  role = role;
  slot_index = some slot;
  iso_hash = [];
  created_at = 0;
  is_dry_run = false;
}

abbrev pub first : Disk
first = disc (codes "BD:0001") data_role 0

abbrev pub second : Disk
second = disc (codes "BD:0002") data_role 1

abbrev pub third : Disk
third = disc (codes "BD:0003") parity_role 2

abbrev pub burned : Text → Bytes
burned id = if text_eq id (codes "BD:0001") then 1 ∷ 2 ∷ [] else 9 ∷ 8 ∷ 7 ∷ []

-- The parity disc is read first, and the data disc with zeros after its image.
abbrev supplies : List (Text × Bytes)
supplies =
    (third.id, xor_disks ((1 ∷ 2 ∷ []) ∷ (9 ∷ 8 ∷ 7 ∷ []) ∷ []) 4)
    ∷ (first.id, 1 ∷ 2 ∷ 0 ∷ 0 ∷ [])
    ∷ []

rebuild_example :
    (new_reconstructor (first ∷ second ∷ third ∷ []) second.id 4 >>= λ r.
    supply_all r supplies >>= reconstruct)
    ≡ ok (9 ∷ 8 ∷ 7 ∷ 0 ∷ [])
unfolding pad text_eq contains xor_disks
rebuild_example =
    rebuild (first ∷ []) [] second third burned 4 supplies refl refl
      ((refl, refl), ((refl, refl), tt)) (refl, (refl, tt))

abbrev pub waiting : Reconstructor
waiting = record {
  missing_id = second.id;
  other_ids = first.id ∷ third.id ∷ [];
  images = [];
  capacity_bytes = 4;
}

remaining_runs : remaining waiting ≡ first.id ∷ third.id ∷ []
unfolding remaining lookup
remaining_runs = refl

stranger_runs :
    supply_disc_image waiting (codes "BD:0009") []
    ≡ err (message (codes "disc %s is not a member of this group") (codes "BD:0009" ∷ []))
unfolding supply_disc_image text_eq contains
stranger_runs = refl
