-- ===== src/Base/Keys.antt =====
-- The keys of a Go map, each once.
use mathlib.Core.Path.{◌≡◌, refl, sym, subst, ◌∙◌}
use mathlib.Core.Logic.{inl, inr}
use mathlib.Core.Bool.{Bool, true, false, ◌||◌}
use mathlib.Core.List.{List, [], ◌∷◌}
use mathlib.Core.Option.{some}
use native.Mathlib.Omega.{arith}
use varis.Base.Tests.{Bool-cases}
use varis.Base.Texts.{Text, text_eq, text_eq_iff, contains}
use varis.Base.Dict.{Dict, lookup, insert}
use varis.Base.Sorting.{Distinct}

module _ {ℓ} {V : Type ℓ} where
  -- `for k := range m`
  abbrev pub keys : Dict V → List Text
  keys [] = []
  keys ((k, v) ∷ m) = k ∷ keys m

  pub contains-keys-insert :
      (z k : Text) (v : V) (m : Dict V)
      → contains z (keys (insert k v m)) ≡ (text_eq k z || contains z (keys m))
  unfolding insert contains
  contains-keys-insert z k v [] = refl
  contains-keys-insert z k v ((j, w) ∷ m) = elim (Bool-cases (text_eq j k)) [
    | inl same ↦ rw same (
        subst
          (λ x.
            ◌≡◌ {A = Bool} (text_eq k z || contains z (keys m))
              (text_eq k z || (text_eq x z || contains z (keys m))))
          (sym ((text_eq_iff j k).0 same)) (twice (text_eq k z) (contains z (keys m))))
    | inr other ↦
        rw (other, contains-keys-insert z k v m)
          (swapped (text_eq j z) (text_eq k z) (contains z (keys m)))
  ]
    where
      twice : (a b : Bool) → ◌≡◌ {A = Bool} (a || b) (a || (a || b))
      twice true b = refl
      twice false b = refl

      swapped : (a b c : Bool) → ◌≡◌ {A = Bool} (a || (b || c)) (b || (a || c))
      swapped true true c = refl
      swapped true false c = refl
      swapped false b c = refl

  pub keys-insert-Distinct :
      (k : Text) (v : V) (m : Dict V) → Distinct (keys m) → Distinct (keys (insert k v m))
  unfolding insert contains
  keys-insert-Distinct k v [] h = (absent k, tt)
    where
      absent : (k : Text) → contains k [] ≡ false
      absent k = refl
  keys-insert-Distinct k v ((j, w) ∷ m) h = elim (Bool-cases (text_eq j k)) [
    | inl same ↦
        rw same (subst (λ x. contains x (keys m) ≡ false) ((text_eq_iff j k).0 same) h.0, h.1)
    | inr other ↦ rw other (
      contains-keys-insert j k v m ∙ ground (arith, h.0, text_eq_iff j k, text_eq_iff k j),
      keys-insert-Distinct k v m h.1,
    )
  ]

  -- A key is there exactly if it has a value.
  pub contains-keys :
      (z : Text) (m : Dict V) → contains z (keys m) ≡ true → (v : V) × (lookup z m ≡ some v)
  unfolding contains lookup
  contains-keys z [] h = absurd (cc h)
  contains-keys z ((j, v) ∷ m) h = elim (Bool-cases (text_eq j z)) [
    | inl same ↦ (v, rw same refl)
    | inr other ↦ let (w, there) = contains-keys z m (ground arith) in (w, rw other there)
  ]
