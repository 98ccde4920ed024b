-- ===== src/Db/Ids.antt =====
-- The ids of discs: `fmt.Sprintf("%s:%04d", prefix, n)`.
use varis.Base.{
  ℕ, zero, suc, ◌+◌, ◌-◌, ◌*◌, ◌/◌, ◌%◌, ◌<◌, ◌≡◌, inl, inr, refl, sym, ap, ◌∙◌, Bool-cases, [],
  ◌∷◌, ◌++◌, arith, ltb, if◌then◌else◌, Text, length, replicate,
}

-- `%d`, with a bound on the digits.
unfoldable pub decimal_digits : ℕ → ℕ → Text
decimal_digits zero n = []
decimal_digits (suc fuel) n =
    let more = decimal_digits fuel (n / 10) in
    if ltb n 10 then (n + b'0') ∷ [] else more ++ (n % 10 + b'0') ∷ []

unfoldable pub decimal : ℕ → Text
unfolding decimal_digits
decimal n = decimal_digits (suc n) n

-- `%0wd`: zeros in front, up to the width.
unfoldable pub zero_padded : ℕ → Text → Text
zero_padded width digits = replicate (width - length digits) b'0' ++ digits

unfoldable pub format_disk_id : Text → ℕ → Text
unfolding zero_padded decimal
format_disk_id prefix n = prefix ++ b':' ∷ zero_padded 4 (decimal n)

value : ℕ → Text → ℕ
value acc [] = acc
value acc (c ∷ digits) = value (acc * 10 + (c - b'0')) digits

value_last :
    (acc : ℕ) (xs : Text) (c : ℕ) → value acc (xs ++ c ∷ []) ≡ value acc xs * 10 + (c - b'0')
unfolding value
value_last acc [] c = refl
value_last acc (x ∷ xs) c = value_last (acc * 10 + (x - b'0')) xs c

value-decimal_digits : (fuel n : ℕ) → n < fuel → value 0 (decimal_digits fuel n) ≡ n
unfolding value decimal_digits
value-decimal_digits zero n h = absurd (omega arith)
value-decimal_digits (suc fuel) n h = elim (Bool-cases (ltb n 10)) [
  | inl small ↦ rw small (omega arith)
  | inr large ↦ rw large (
      omega (
        arith,
        value_last 0 (decimal_digits fuel (n / 10)) (n % 10 + b'0'),
        value-decimal_digits fuel (n / 10) (ground arith),
      ))
]

value-replicate : (k : ℕ) (digits : Text) → value 0 (replicate k b'0' ++ digits) ≡ value 0 digits
unfolding value
value-replicate zero digits = refl
value-replicate (suc k) digits = value-replicate k digits

append-cancel_left : (p xs ys : Text) → p ++ xs ≡ p ++ ys → xs ≡ ys
append-cancel_left [] xs ys h = h
append-cancel_left (x ∷ p) xs ys h = append-cancel_left p xs ys (ap tail h)
  where
    tail : Text → Text
    tail [] = []
    tail (_ ∷ t) = t

-- Different numbers under one prefix give different ids.
pub format_disk_id-injective :
    (prefix : Text) (m n : ℕ) → format_disk_id prefix m ≡ format_disk_id prefix n → m ≡ n
unfolding format_disk_id
format_disk_id-injective prefix m n h =
    sym (number m) ∙ ap (value 0) (cc (append-cancel_left prefix _ _ h)) ∙ number n
  where
    number : (k : ℕ) → value 0 (zero_padded 4 (decimal k)) ≡ k
    number k = value-replicate _ (decimal k) ∙ value-decimal_digits (suc k) k (omega arith)
