-- ===== src/Base/Int64.antt =====
-- Go's `int64`, as its 64 bits: a number below 2 ^ 64 whose upper half stands for the negatives.
use Prim.Native.Nat.{ℕ, ◌+◌, ◌-◌, ◌*◌, ◌/◌, ◌%◌, ◌^◌}
use mathlib.Core.Bool.{Bool}
use varis.Base.Tests.{ltb, if◌then◌else◌}

-- The least bit pattern of a negative number.
abbrev pub int64_limit : ℕ
int64_limit = 2 ^ 63

abbrev pub add64 : ℕ → ℕ → ℕ
add64 a b = (a + b) % 2 ^ 64

abbrev pub mul64 : ℕ → ℕ → ℕ
mul64 a b = (a * b) % 2 ^ 64

abbrev pub neg64 : ℕ → ℕ
neg64 a = (2 ^ 64 - a) % 2 ^ 64

abbrev pub is_negative64 : ℕ → Bool
is_negative64 a = ltb (int64_limit - 1) a

-- a < b as signed numbers: the order of the patterns with the sign bit flipped.
abbrev pub lt64 : ℕ → ℕ → Bool
lt64 a b = ltb ((a + int64_limit) % 2 ^ 64) ((b + int64_limit) % 2 ^ 64)

-- Division towards zero. (Go panics where the divisor is zero; here the result is then 0.)
abbrev pub div64 : ℕ → ℕ → ℕ
div64 a b =
    if is_negative64 a
    then (if is_negative64 b then neg64 a / neg64 b else neg64 (neg64 a / b))
    else (if is_negative64 b then neg64 (a / neg64 b) else a / b)
