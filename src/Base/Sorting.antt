-- ===== src/Base/Sorting.antt =====
-- `sort.Strings` on Go strings, which are ordered by their bytes.
use mathlib.Core.Path.{◌≡◌, refl, ◌∙◌}
use mathlib.Core.Logic.{inl, inr}
use mathlib.Core.Bool.{Bool, true, false, ◌&&◌, ◌||◌}
use mathlib.Core.List.{List, [], ◌∷◌}
use native.Mathlib.Omega.{arith}
use varis.Base.Tests.{ltb, ◌==◌, if◌then◌else◌, Bool-cases}
use varis.Base.Lists.{All, All-imp}
use varis.Base.Texts.{Text, text_eq, text_eq_iff, contains}

unfoldable pub text_ltb : Text → Text → Bool
text_ltb s [] = false
text_ltb [] (b ∷ t) = true
text_ltb (a ∷ s) (b ∷ t) = ltb a b || (a == b && text_ltb s t)

unfoldable pub insert_text : Text → List Text → List Text
unfolding text_ltb
insert_text x [] = x ∷ []
insert_text x (y ∷ ys) =
    let rest = insert_text x ys in if text_ltb x y then x ∷ y ∷ ys else y ∷ rest

unfoldable pub sort_texts : List Text → List Text
unfolding insert_text
sort_texts [] = []
sort_texts (x ∷ xs) = insert_text x (sort_texts xs)

pub text_ltb_trans :
    (s t u : Text) → text_ltb s t ≡ true → text_ltb t u ≡ true → text_ltb s u ≡ true
unfolding text_ltb
text_ltb_trans s [] u h k = absurd (cc h)
text_ltb_trans s (b ∷ t) [] h k = absurd (cc k)
text_ltb_trans [] (b ∷ t) (c ∷ u) h k = refl
text_ltb_trans (a ∷ s) (b ∷ t) (c ∷ u) h k = ground (arith, text_ltb_trans s t u)

-- Of two texts that are not in order and differ, the other order holds.
pub text_ltb_total : (s t : Text) → text_ltb s t ≡ false → text_eq s t ≡ false → text_ltb t s ≡ true
unfolding text_ltb text_eq
text_ltb_total [] [] h k = absurd (cc k)
text_ltb_total [] (b ∷ t) h k = absurd (cc h)
text_ltb_total (a ∷ s) [] h k = refl
text_ltb_total (a ∷ s) (b ∷ t) h k = ground (arith, text_ltb_total s t)

-- In strictly ascending order.
abbrev pub Ascending : List Text → Type 0
Ascending [] = Unit
Ascending (x ∷ xs) = All (λ y. text_ltb x y ≡ true) xs × Ascending xs

abbrev pub Distinct : List Text → Type 0
Distinct [] = Unit
Distinct (x ∷ xs) = (contains x xs ≡ false) × Distinct xs

pub contains-insert_text :
    (z x : Text) (xs : List Text) → contains z (insert_text x xs) ≡ contains z (x ∷ xs)
unfolding insert_text contains
contains-insert_text z x [] = refl
contains-insert_text z x (y ∷ ys) = ground (arith, contains-insert_text z x ys)

pub contains-sort_texts : (z : Text) (xs : List Text) → contains z (sort_texts xs) ≡ contains z xs
unfolding sort_texts contains
contains-sort_texts z [] = refl
contains-sort_texts z (x ∷ xs) =
    contains-insert_text z x (sort_texts xs) ∙ ground (arith, contains-sort_texts z xs)

insert_text-All :
    (P : Text → Type 0) (x : Text) (xs : List Text) → P x → All P xs → All P (insert_text x xs)
unfolding insert_text
insert_text-All P x [] h hs = (h, tt)
insert_text-All P x (y ∷ ys) h hs = elim (Bool-cases (text_ltb x y)) [
  | inl less ↦ rw less (h, hs)
  | inr more ↦ rw more (hs.0, insert_text-All P x ys h hs.1)
]

insert_text-Ascending :
    (x : Text) (xs : List Text)
    → contains x xs ≡ false
    → Ascending xs
    → Ascending (insert_text x xs)
unfolding insert_text contains
insert_text-Ascending x [] fresh h = (tt, tt)
insert_text-Ascending x (y ∷ ys) fresh h = elim (Bool-cases (text_ltb x y)) [
  | inl less ↦ rw less (
    (
      less,
      All-imp (λ z. text_ltb y z ≡ true) (λ z. text_ltb x z ≡ true)
          (λ z k. text_ltb_trans x y z less k) ys h.0,
    ),
    h,
  )
  | inr more ↦ rw more (
    insert_text-All (λ z. text_ltb y z ≡ true) x ys
        (text_ltb_total x y more (ground (arith, text_eq_iff x y, text_eq_iff y x))) h.0,
    insert_text-Ascending x ys (ground arith) h.1,
  )
]

pub sort_texts-Ascending : (xs : List Text) → Distinct xs → Ascending (sort_texts xs)
unfolding sort_texts
sort_texts-Ascending [] h = tt
sort_texts-Ascending (x ∷ xs) h =
    insert_text-Ascending x (sort_texts xs) (contains-sort_texts x xs ∙ h.0)
      (sort_texts-Ascending xs h.1)
