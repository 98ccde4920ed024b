-- ===== src/Webdav/Clean.antt =====
-- `split` of internal/webdav/combined.go: the category that a path names, and what follows.
use varis.Base.{
  ℕ, ◌≡◌, inl, inr, refl, true, false, ◌||◌, Bool-cases, List, [], ◌∷◌, ◌++◌, Option, none, some,
  arith, ◌==◌, if◌then◌else◌, Text, codes, text_eq, All, All-append,
}
use varis.Base.Splitting.{split_on, join_with, lacks, split_on-lacks, cut, cut-append, cut-none}

abbrev pub slash : ℕ
slash = b'/'

abbrev dot : Text
dot = codes "."

abbrev dot_dot : Text
dot_dot = codes ".."

abbrev pub without_last : List Text → List Text
without_last [] = []
without_last (p ∷ []) = []
without_last (p ∷ q ∷ parts) = p ∷ without_last (q ∷ parts)

-- `path.Clean` on a path that starts with `/`: no empty parts and no `.`; `..` goes up, and stays at
-- the root.
unfoldable pub resolve_part : List Text → Text → List Text
resolve_part at part =
    if text_eq part [] || text_eq part dot
    then at
    else (if text_eq part dot_dot then without_last at else at ++ part ∷ [])

unfoldable pub resolve_parts : List Text → List Text → List Text
unfolding resolve_part
resolve_parts at [] = at
resolve_parts at (part ∷ parts) = resolve_parts (resolve_part at part) parts

abbrev pub clean_rooted : Text → Text
clean_rooted path = slash ∷ join_with slash (resolve_parts [] (split_on slash path))

-- `strings.TrimPrefix(path, "/")`
abbrev pub trim_slash : Text → Text
trim_slash [] = []
trim_slash (c ∷ s) = if c == slash then s else c ∷ s

abbrev pub located : Text → Option (Text × Text) → Text × Text
located trimmed none = (trimmed, slash ∷ [])
located trimmed (some (category, rest)) = (category, slash ∷ rest)

abbrev pub split_trimmed : Text → Option (Text × Text)
split_trimmed [] = none
split_trimmed (c ∷ s) = some (located (c ∷ s) (cut slash (c ∷ s)))

-- The category and the rest, or none for the root.
unfoldable pub split : Text → Option (Text × Text)
split name = split_trimmed (trim_slash (clean_rooted (slash ∷ name)))

-- A part of a path that names a child of where it stands.
pub record IsProper (part : Text) : Type 0 where
  pub non_empty : text_eq part [] ≡ false
  pub stays : text_eq part dot ≡ false
  pub goes_down : text_eq part dot_dot ≡ false
  pub one_part : lacks slash part ≡ true

without_last-All :
    (P : Text → Type 0) (parts : List Text) → All P parts → All P (without_last parts)
without_last-All P [] h = tt
without_last-All P (p ∷ []) h = tt
without_last-All P (p ∷ q ∷ parts) h = (h.0, without_last-All P (q ∷ parts) h.1)

resolve_part-IsProper :
    (at : List Text) (part : Text)
    → All IsProper at
    → lacks slash part ≡ true
    → All IsProper (resolve_part at part)
unfolding resolve_part
resolve_part-IsProper at part h one = elim (Bool-cases (text_eq part [] || text_eq part dot)) [
  | inl skipped ↦ rw skipped h
  | inr kept ↦ rw kept (elim (Bool-cases (text_eq part dot_dot)) [
    | inl up ↦ rw up (without_last-All IsProper at h)
    | inr down ↦ rw down (
        All-append IsProper at (part ∷ []) h (
          record {
            non_empty = ground (arith, kept);
            stays = ground (arith, kept);
            goes_down = down;
            one_part = one;
          },
          tt,
        ))
  ])
]

resolve_parts-IsProper :
    (at parts : List Text)
    → All IsProper at
    → All (λ p. lacks slash p ≡ true) parts
    → All IsProper (resolve_parts at parts)
unfolding resolve_parts
resolve_parts-IsProper at [] h hs = h
resolve_parts-IsProper at (part ∷ parts) h hs =
    resolve_parts-IsProper (resolve_part at part) parts (resolve_part-IsProper at part h hs.0) hs.1

-- The parts of a path, walked down from the root.
abbrev pub parts_of : Text → List Text
parts_of name = resolve_parts [] (split_on slash (slash ∷ name))

abbrev pub category_and_rest : List Text → Option (Text × Text)
category_and_rest [] = none
category_and_rest (category ∷ rest) = some (category, slash ∷ join_with slash rest)

split_trimmed_lem :
    (parts : List Text)
    → All IsProper parts
    → split_trimmed (join_with slash parts) ≡ category_and_rest parts
unfolding join_with text_eq
split_trimmed_lem [] h = refl
split_trimmed_lem ([] ∷ parts) h = absurd (cc (h.0.non_empty))
split_trimmed_lem ((c ∷ s) ∷ []) h = rw (cut-none slash (c ∷ s) h.0.one_part) refl
split_trimmed_lem ((c ∷ s) ∷ q ∷ parts) h =
    rw (cut-append slash (c ∷ s) (join_with slash (q ∷ parts)) h.0.one_part) refl

-- For every path of a request, each part that is left once `.` and `..` have been resolved is
-- neither empty, nor `.`, nor `..`, and holds no slash; `split` reports the root if no part is left,
-- and else the first as the category and the others, joined and with a slash in front, as the rest.
pub split-IsProper :
    (name : Text) → All IsProper (parts_of name) × (split name ≡ category_and_rest (parts_of name))
unfolding split
split-IsProper name = (proper, split_trimmed_lem (parts_of name) proper)
  where
    proper : All IsProper (parts_of name)
    proper =
        resolve_parts-IsProper [] (split_on slash (slash ∷ name)) tt
          (split_on-lacks slash (slash ∷ name))
