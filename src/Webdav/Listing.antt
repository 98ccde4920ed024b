-- ===== src/Webdav/Listing.antt =====
-- The handle of the root directory, of internal/webdav/combined.go, and a client that lists it.
use varis.Base.{
  ℕ, zero, suc, ◌+◌, ◌-◌, ◌^◌, ◌≤◌, ◌<◌, min, ◌≡◌, ◌↔◌, refl, sym, ap, ◌∙◌, Bool, true, false, not,
  ◌&&◌, List, [], ◌∷◌, ◌++◌, map, map-append, Option, none, some, arith, ltb, leb, if◌then◌else◌,
  dec_lt, Text, codes, Error, message, Result, ok, err, length, take, drop, take-append-drop, add64,
  lt64, is_negative64, int64_limit,
}
use varis.Webdav.Combined.{RootDir, DirInfo}

-- `io.EOF`
abbrev pub eof : Error
eof = message (codes "EOF") []

-- `count > 0`, for the 64 bits of an int.
abbrev pub is_positive64 : ℕ → Bool
is_positive64 count = not (is_negative64 count) && ltb 0 count

-- `end`, as 64 bits.
abbrev pub end_of : RootDir → ℕ → ℕ
end_of r count =
    if is_positive64 count && lt64 (add64 r.offset count) (length r.names)
    then add64 r.offset count
    else length r.names

abbrev pub dir_infos : List Text → List DirInfo
dir_infos = map (λ name. record { name = name })

-- The part of `names` from the offset to the end; the slice expression panics if the end is
-- negative.
abbrev pub listed : RootDir → ℕ → Option (Result (List DirInfo) × RootDir)
listed r end =
    if is_negative64 end
    then none
    else some
        (ok (dir_infos (take (end - r.offset) (drop r.offset r.names))), record r { offset = end })

-- No result stands for a panic.
unfoldable pub readdir : RootDir → ℕ → Option (Result (List DirInfo) × RootDir)
readdir r count =
    if leb (length r.names) r.offset
    then some ((if is_positive64 count then err eof else ok []), r)
    else listed r (end_of r count)

abbrev pub with_more : List DirInfo → Option (List DirInfo) → Option (List DirInfo)
with_more infos none = none
with_more infos (some rest) = some (infos ++ rest)

-- What follows a call of a client that asks until it gets an error.
abbrev pub read_rest :
    (RootDir → Option (List DirInfo))
    → Option (Result (List DirInfo) × RootDir)
    → Option (List DirInfo)
read_rest more none = none
read_rest more (some (err e, r)) = some []
read_rest more (some (ok infos, r)) = with_more infos (more r)

-- The client, that asks for so many entries each time; no result if it runs out of fuel or a call
-- panics.
unfoldable pub read_all : ℕ → ℕ → RootDir → Option (List DirInfo)
read_all zero count r = none
read_all (suc fuel) count r = read_rest (read_all fuel count) (readdir r count)

drop_beyond : (n : ℕ) (xs : List Text) → length xs ≤ n → drop n xs ≡ []
drop_beyond zero [] h = refl
drop_beyond zero (x ∷ xs) h = absurd (omega arith)
drop_beyond (suc n) [] h = refl
drop_beyond (suc n) (x ∷ xs) h = drop_beyond n xs (omega arith)

drop-nil : (n : ℕ) → drop {A = Text} n [] ≡ []
drop-nil zero = refl
drop-nil (suc n) = refl

drop-drop : (a b : ℕ) (xs : List Text) → drop a (drop b xs) ≡ drop (b + a) xs
drop-drop a zero xs = ap (λ n. drop n xs) (plain a)
  where
    plain : (a : ℕ) → a ≡ 0 + a
    plain a = omega arith
drop-drop a (suc b) [] = drop-nil a ∙ sym (drop-nil (suc b + a))
drop-drop a (suc b) (x ∷ xs) = drop-drop a b xs ∙ ap (λ n. drop n (x ∷ xs)) (add-suc b a)
  where
    add-suc : (b a : ℕ) → suc (b + a) ≡ suc b + a
    add-suc b a = omega arith

end_of-min :
    (r : RootDir) (count : ℕ)
    → 0 < count
    → count + length r.names < int64_limit
    → r.offset ≤ length r.names
    → end_of r count ≡ min (r.offset + count) (length r.names)
end_of-min r count positive fits inside = ground arith

-- A call that panics: the offset and the count add up to more than an int holds. This is so exactly
-- if entries are left, and the count is positive. (Nothing is assumed of the handle but that it
-- has fewer names than 2 ^ 63.)
pub readdir-eq-none :
    (r : RootDir) (count : ℕ)
    → length r.names < int64_limit
    → count < 2 ^ 64
    → (readdir r count ≡ none)
      ↔ ((r.offset < length r.names) × (count < int64_limit) × (int64_limit ≤ r.offset + count))
unfolding readdir
readdir-eq-none r count few word =
    (λ h. (ground arith, ground arith, ground arith), λ (left, positive, over). ground arith)

readdir_at_end :
    (r : RootDir) (count : ℕ)
    → 0 < count
    → count < int64_limit
    → length r.names ≤ r.offset
    → readdir r count ≡ some (err eof, r)
unfolding readdir
readdir_at_end r count positive small over = rw (ended, yes_positive) refl
  where
    ended : leb (length r.names) r.offset ≡ true
    ended = ground arith

    yes_positive : is_positive64 count ≡ true
    yes_positive = ground arith

readdir_before_end :
    (r : RootDir) (count : ℕ)
    → 0 < count
    → count + length r.names < int64_limit
    → r.offset < length r.names
    → let end = min (r.offset + count) (length r.names) in
      readdir r count
      ≡ some (
        ok (dir_infos (take (end - r.offset) (drop r.offset r.names))),
        record r { offset = end },
      )
unfolding readdir
readdir_before_end r count positive fits left =
    rw (not_ended, end_of-min r count positive fits (omega arith), not_negative) refl
  where
    not_ended : leb (length r.names) r.offset ≡ false
    not_ended = ground arith

    not_negative : is_negative64 (min (r.offset + count) (length r.names)) ≡ false
    not_negative = ground arith

-- The entries up to a later offset, and the ones behind it.
between :
    (names : List Text) (a b : ℕ)
    → a ≤ b
    → dir_infos (take (b - a) (drop a names)) ++ dir_infos (drop b names) ≡ dir_infos (drop a names)
between names a b h =
    ap (λ rest. dir_infos (take (b - a) (drop a names)) ++ dir_infos rest)
      (ap (λ n. drop n names) (reached a b h) ∙ sym (drop-drop (b - a) a names))
    ∙ sym (map-append _ (take (b - a) (drop a names)) (drop (b - a) (drop a names)))
    ∙ ap dir_infos (take-append-drop (b - a) (drop a names))
  where
    reached : (a b : ℕ) → a ≤ b → b ≡ a + (b - a)
    reached a b h = omega arith

-- A client that asks for a fixed positive number of entries until it is told that there are no more
-- gets, in as many calls as there are entries left and one, exactly the entries from the handle's
-- offset on, in their order, each of them once. (The number and the number of all entries add up to
-- less than 2 ^ 63.)
pub read_all-eq-some :
    (fuel count : ℕ) (r : RootDir)
    → 0 < count
    → count + length r.names < int64_limit
    → length r.names ≤ r.offset + fuel
    → read_all (suc fuel) count r ≡ some (dir_infos (drop r.offset r.names))
unfolding read_all
read_all-eq-some zero count r positive fits enough =
    rw
      (
        readdir_at_end r count positive (omega arith) (omega arith),
        drop_beyond r.offset r.names (omega arith),
      )
      refl
read_all-eq-some (suc fuel) count r positive fits enough = elim (dec_lt r.offset (length r.names)) [
  | no ended ↦
      rw
        (
          readdir_at_end r count positive (omega arith) (omega arith),
          drop_beyond r.offset r.names (omega arith),
        )
        refl
  | yes left ↦
      ap (read_rest (read_all (suc fuel) count)) (readdir_before_end r count positive fits left)
      ∙ ap (with_more (dir_infos (take (end - r.offset) (drop r.offset r.names))))
          (read_all-eq-some fuel count (record r { offset = end }) positive fits (omega arith))
      ∙ ap some (between r.names r.offset end (omega arith))
]
  where
    end : ℕ
    end = min (r.offset + count) (length r.names)
