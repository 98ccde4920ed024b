-- ===== src/Tests/Packing.antt =====
-- Binpack and xordisk at concrete inputs.
use varis.Base.{
  ℕ, ◌+◌, ◌*◌, ◌≤◌, ◌<◌, ◌≡◌, refl, List, [], ◌∷◌, ◌++◌, map, arith, codes, length, get_or, All,
}
use Prim.Native.String.{String}
use varis.Xordisk.{Bytes, xor_disks}
use varis.Xordisk.Pointwise.{xor_at, get_or-xor_disks}
use varis.Xordisk.Recovery.{pad, xor_disks-recovers}
use varis.Binpack.{FileInfo, target_data_size, pack}
use varis.Binpack.NextFit.{total}
use varis.Binpack.Target.{target_data_size_lem}
use varis.Binpack.Buckets.{IsGood, Crowded, contents, pack-IsGood, contents-pack, pack_count}

abbrev file : String → ℕ → FileInfo
file name size = record { path = codes name; size = size }

abbrev staged : List FileInfo
staged = file "a" 6 ∷ file "b" 3 ∷ file "c" 5 ∷ file "d" 20 ∷ file "e" 1 ∷ []

pack_runs : map (λ b. b.total_size) (pack staged 10) ≡ 9 ∷ 5 ∷ 20 ∷ 1 ∷ []
unfolding pack
pack_runs = refl

target_data_size_runs : target_data_size 25_025_314_816 10 ≡ 22_750_286_196
unfolding target_data_size
target_data_size_runs = refl

contents-pack_example : contents (pack staged 10) ≡ staged
contents-pack_example = contents-pack staged 10

pack-IsGood_example : All (IsGood 10) (pack staged 10)
pack-IsGood_example = pack-IsGood staged 10 (omega arith) (omega arith)

pack_count_example :
    Crowded 10 11 (pack staged 10)
    × (length (pack staged 10) * (10 + 1) ≤ 10 + 1 + 2 * total staged)
pack_count_example = pack_count staged 10 (omega arith) (omega arith)

target_data_size_example :
    (target_data_size 25_025_314_816 10 * (100 + 10) ≤ 25_025_314_816 * 100)
    × (25_025_314_816 * 100 < (target_data_size 25_025_314_816 10 + 1) * (100 + 10))
target_data_size_example = target_data_size_lem 25_025_314_816 10 (omega arith) (omega arith)

abbrev images : List Bytes
images = (1 ∷ 2 ∷ 3 ∷ []) ∷ (255 ∷ []) ∷ (7 ∷ 7 ∷ 7 ∷ 7 ∷ 7 ∷ []) ∷ []

xor_disks_runs : xor_disks images 4 ≡ 249 ∷ 5 ∷ 4 ∷ 7 ∷ []
unfolding xor_disks
xor_disks_runs = refl

get_or-xor_disks_example : get_or (xor_disks images 4) 2 0 ≡ xor_at 2 images
get_or-xor_disks_example = get_or-xor_disks images 4 2 (omega arith)

xor_disks-recovers_example :
    xor_disks
      ((1 ∷ 2 ∷ 3 ∷ []) ∷ (7 ∷ 7 ∷ 7 ∷ 7 ∷ []) ∷ []
        ++ xor_disks ((1 ∷ 2 ∷ 3 ∷ []) ∷ [] ++ (255 ∷ []) ∷ (7 ∷ 7 ∷ 7 ∷ 7 ∷ 7 ∷ []) ∷ []) 4 ∷ [])
      4
    ≡ pad 4 (255 ∷ [])
xor_disks-recovers_example =
    xor_disks-recovers ((1 ∷ 2 ∷ 3 ∷ []) ∷ []) ((7 ∷ 7 ∷ 7 ∷ 7 ∷ 7 ∷ []) ∷ [])
      ((1 ∷ 2 ∷ 3 ∷ []) ∷ (7 ∷ 7 ∷ 7 ∷ 7 ∷ []) ∷ []) (255 ∷ []) 4 (unfold pad in refl)
