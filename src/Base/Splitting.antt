-- ===== src/Base/Splitting.antt =====
-- `strings.Split`, and what puts the parts together again.
use Prim.Native.Nat.{ℕ}
use mathlib.Core.Path.{◌≡◌, refl}
use mathlib.Core.Logic.{inl, inr}
use mathlib.Core.Bool.{Bool, true, false, ◌&&◌, not}
use mathlib.Core.List.{List, [], ◌∷◌, ◌++◌}
use mathlib.Core.Option.{Option, none, some}
use native.Mathlib.Omega.{arith}
use varis.Base.Tests.{◌==◌, if◌then◌else◌, Bool-cases}
use varis.Base.Lists.{All}
use varis.Base.Texts.{Text}

-- The first part takes the character in front of it.
abbrev pub on_first : ℕ → List Text → List Text
on_first c [] = (c ∷ []) ∷ []
on_first c (part ∷ parts) = (c ∷ part) ∷ parts

-- `strings.Split(s, sep)` for a separator of one byte.
unfoldable pub split_on : ℕ → Text → List Text
split_on sep [] = [] ∷ []
split_on sep (c ∷ s) = let rest = split_on sep s in if c == sep then [] ∷ rest else on_first c rest

-- `strings.Join(parts, sep)`
unfoldable pub join_with : ℕ → List Text → Text
join_with sep [] = []
join_with sep (part ∷ []) = part
join_with sep (part ∷ more ∷ parts) = part ++ sep ∷ join_with sep (more ∷ parts)

-- No byte of the text is this one.
unfoldable pub lacks : ℕ → Text → Bool
lacks sep [] = true
lacks sep (c ∷ s) = not (c == sep) && lacks sep s

on_first-All :
    (sep c : ℕ) (parts : List Text)
    → (c == sep) ≡ false
    → All (λ p. lacks sep p ≡ true) parts
    → All (λ p. lacks sep p ≡ true) (on_first c parts)
unfolding lacks
on_first-All sep c [] h hs = (ground (arith, h), tt)
on_first-All sep c (part ∷ parts) h hs = (ground (arith, h, hs.0), hs.1)

pub split_on-lacks : (sep : ℕ) (s : Text) → All (λ p. lacks sep p ≡ true) (split_on sep s)
unfolding split_on lacks
split_on-lacks sep [] = (refl, tt)
split_on-lacks sep (c ∷ s) = elim (Bool-cases (c == sep)) [
  | inl same ↦ rw same (refl, split_on-lacks sep s)
  | inr other ↦ rw other (on_first-All sep c (split_on sep s) other (split_on-lacks sep s))
]

-- A part of the text that is cut behind its first separator.
unfoldable pub cut : ℕ → Text → Option (Text × Text)
cut sep [] = none
cut sep (c ∷ s) =
    let rest = cut sep s in
    if c == sep then some ([], s) else elim rest [ none ↦ none | some (a, b) ↦ some (c ∷ a, b) ]

pub cut-append : (sep : ℕ) (s t : Text) → lacks sep s ≡ true → cut sep (s ++ sep ∷ t) ≡ some (s, t)
unfolding cut lacks
cut-append sep [] t h = ground arith
cut-append sep (c ∷ s) t h = ground (arith, cut-append sep s t)

pub cut-none : (sep : ℕ) (s : Text) → lacks sep s ≡ true → cut sep s ≡ none
unfolding cut lacks
cut-none sep [] h = refl
cut-none sep (c ∷ s) h = ground (arith, cut-none sep s)
