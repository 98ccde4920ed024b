-- ===== src/Xordisk.antt =====
-- internal/xordisk/xor.go: the exclusive or of disc images, byte by byte.
pub mod Pointwise
pub mod Recovery
use mathlib.Core.List.{foldl}
use varis.Base.{ℕ, zero, suc, ◌+◌, List, bit_xor, length, get_or, set, replicate, ltb}
use varis.Base.{if◌then◌else◌}

abbrev pub Bytes : Type 0
Bytes = List ℕ

-- `for i := …; i < n; i++ { out[i] ^= img[i] }`, with the rounds that are left.
pub xor_bytes : ℕ → ℕ → Bytes → Bytes → Bytes
xor_bytes zero i out img = out
xor_bytes (suc rounds) i out img =
    xor_bytes rounds (i + 1) (set out i (bit_xor (get_or out i 0) (get_or img i 0))) img

-- One pass of the outer loop: the bytes of an image beyond `size` are left out.
pub xor_image : ℕ → Bytes → Bytes → Bytes
unfolding xor_bytes
xor_image size out img = xor_bytes (if ltb size (length img) then size else length img) 0 out img

unfoldable pub xor_disks : List Bytes → ℕ → Bytes
unfolding xor_image
xor_disks images size = foldl (xor_image size) (replicate size 0) images
