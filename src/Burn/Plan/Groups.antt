-- ===== src/Burn/Plan/Groups.antt =====
-- Each parity disc of a plan stands for a group of its own, and the groups for all data discs.
use varis.Base.{
  ℕ, suc, ◌+◌, ◌≤◌, ◌<◌, ◌≡◌, ◌≢◌, inl, inr, refl, ap, ap₂, subst, ◌∙◌, false, Bool-cases, List, [],
  ◌∷◌, ◌++◌, append_assoc, append-nil, arith, if◌then◌else◌, Text, text_eq, text_eq_refl, text_ne,
  length, All,
}
use varis.Db.{data_role}
use varis.Db.Ids.{format_disk_id}
use varis.Burn.Payload.{is_data, group_data_plans}
use varis.Burn.Plan.{DiscPlan, assign_slots, parity_plan}
use varis.Burn.Plan.Layout.{laid_out}

-- The parity discs of a plan, and the data discs.
unfoldable pub parity_plans : List DiscPlan → List DiscPlan
parity_plans [] = []
parity_plans (p ∷ plans) =
    let rest = parity_plans plans in if is_data p.role then rest else p ∷ rest

unfoldable pub data_plans : List DiscPlan → List DiscPlan
data_plans [] = []
data_plans (p ∷ plans) = let rest = data_plans plans in if is_data p.role then p ∷ rest else rest

-- The slots are those from `i` on, in order.
abbrev pub InSlots : ℕ → List DiscPlan → Type 0
InSlots i [] = Unit
InSlots i (p ∷ plans) = (p.slot_index ≡ i) × InSlots (i + 1) plans

-- What a parity disc `p` of the plan says of its group of at most `size` data discs.
pub record IsGroup (size : ℕ) (plans : List DiscPlan) (p : DiscPlan) : Type 0 where
  pub some_member : 1 ≤ length (group_data_plans p.group_id plans)
  pub within_size : length (group_data_plans p.group_id plans) ≤ size
  pub in_slots : InSlots 0 (group_data_plans p.group_id plans)
  pub last_slot : p.slot_index ≡ length (group_data_plans p.group_id plans)
  pub named : p.group_id ≢ []

abbrev pub AreData : List DiscPlan → Type 0
AreData plans = All (λ p. p.role ≡ data_role) plans

group_data_plans-append :
    (g : Text) (xs ys : List DiscPlan)
    → group_data_plans g (xs ++ ys) ≡ group_data_plans g xs ++ group_data_plans g ys
unfolding group_data_plans
group_data_plans-append g [] ys = refl
group_data_plans-append g (x ∷ xs) ys = ground (arith, group_data_plans-append g xs ys)

group_data_plans_own :
    (g : Text) (i : ℕ) (plans : List DiscPlan)
    → AreData plans
    → group_data_plans g (assign_slots g i plans) ≡ assign_slots g i plans
unfolding group_data_plans assign_slots
group_data_plans_own g i [] h = refl
group_data_plans_own g i (p ∷ plans) h =
    rw (text_eq_refl g, h.0, group_data_plans_own g (i + 1) plans h.1)

group_data_plans_other :
    (g k : Text) (i : ℕ) (plans : List DiscPlan)
    → text_eq k g ≡ false
    → group_data_plans g (assign_slots k i plans) ≡ []
unfolding group_data_plans assign_slots
group_data_plans_other g k i [] h = refl
group_data_plans_other g k i (p ∷ plans) h = rw h (group_data_plans_other g k (i + 1) plans h)

assign_slots-InSlots :
    (g : Text) (i : ℕ) (plans : List DiscPlan) → InSlots i (assign_slots g i plans)
unfolding assign_slots
assign_slots-InSlots g i [] = tt
assign_slots-InSlots g i (p ∷ plans) = (refl, assign_slots-InSlots g (i + 1) plans)

length-assign_slots :
    (g : Text) (i : ℕ) (plans : List DiscPlan) → length (assign_slots g i plans) ≡ length plans
unfolding assign_slots
length-assign_slots g i [] = refl
length-assign_slots g i (p ∷ plans) = ap suc (length-assign_slots g (i + 1) plans)

pub assign_slots-AreData :
    (g : Text) (i : ℕ) (plans : List DiscPlan) → AreData plans → AreData (assign_slots g i plans)
unfolding assign_slots
assign_slots-AreData g i [] h = tt
assign_slots-AreData g i (p ∷ plans) h = (h.0, assign_slots-AreData g (i + 1) plans h.1)

parity_plans-append :
    (xs ys : List DiscPlan) → AreData xs → parity_plans (xs ++ ys) ≡ parity_plans ys
unfolding parity_plans
parity_plans-append [] ys h = refl
parity_plans-append (x ∷ xs) ys h = rw h.0 (parity_plans-append xs ys h.1)

pub data_plans-append :
    (xs ys : List DiscPlan) → AreData xs → data_plans (xs ++ ys) ≡ xs ++ data_plans ys
unfolding data_plans
data_plans-append [] ys h = refl
data_plans-append (x ∷ xs) ys h = elim (Bool-cases (is_data x.role)) [
  | inl e ↦ rw e (ap (◌∷◌ x) (data_plans-append xs ys h.1))
  | inr e ↦ ground (arith, h.0)
]

-- The groups, read off a plan: what the parity discs stand for, one after the other.
abbrev pub grouped_data : List DiscPlan → List DiscPlan → List DiscPlan
grouped_data plans [] = []
grouped_data plans (p ∷ parities) = group_data_plans p.group_id plans ++ grouped_data plans parities

module _ (uuid : ℕ → Text) (prefix : Text) (distinct : (m n : ℕ) → uuid m ≡ uuid n → m ≡ n) where
  -- A group id drawn earlier is not used.
  group_data_plans-laid_out :
      (groups : List (List DiscPlan)) (m n c : ℕ)
      → m < n
      → group_data_plans (uuid m) (laid_out uuid prefix n c groups) ≡ []
  unfolding laid_out group_data_plans
  group_data_plans-laid_out [] m n c h = refl
  group_data_plans-laid_out (members ∷ groups) m n c h =
      group_data_plans-append (uuid m) (assign_slots (uuid n) 0 members) _
      ∙ rw
          (group_data_plans_other (uuid m) (uuid n) 0 members
            (text_ne _ _ (λ e. omega (arith, distinct _ _ e))))
          (ground (arith, group_data_plans-laid_out groups m (n + 1) (c + 1)))

  module _ (size : ℕ) (nonempty : (n : ℕ) → uuid n ≢ []) where
    abbrev pub Sound : List DiscPlan → Type 0
    Sound ms = AreData ms × (1 ≤ length ms) × (length ms ≤ size)

    -- No plan of the list has a group id from the n-th on.
    abbrev pub Unused : ℕ → List DiscPlan → Type 0
    Unused n plans = (m : ℕ) → n ≤ m → group_data_plans (uuid m) plans ≡ []

    own_group :
        (pre ms : List DiscPlan) (groups : List (List DiscPlan)) (n c : ℕ)
        → AreData ms
        → Unused n pre
        → group_data_plans (uuid n) (pre ++ laid_out uuid prefix n c (ms ∷ groups))
          ≡ assign_slots (uuid n) 0 ms
    unfolding laid_out group_data_plans
    own_group pre ms groups n c ours free =
        group_data_plans-append (uuid n) pre _
        ∙ rw (free n (omega arith)) (
            group_data_plans-append (uuid n) (assign_slots (uuid n) 0 ms) _
            ∙ rw (group_data_plans_own (uuid n) 0 ms ours) (
                ap (◌++◌ (assign_slots (uuid n) 0 ms))
                  (ground (arith, group_data_plans-laid_out groups n (n + 1) (c + 1)))
                ∙ append-nil _))

    -- One group with its parity disc.
    abbrev block : ℕ → ℕ → List DiscPlan → List DiscPlan
    block n c ms =
        assign_slots (uuid n) 0 ms
        ++ parity_plan (format_disk_id prefix (c + 1)) (uuid n) (length ms) ∷ []

    Unused-block :
        (pre ms : List DiscPlan) (n c : ℕ) → Unused n pre → Unused (n + 1) (pre ++ block n c ms)
    unfolding group_data_plans
    Unused-block pre ms n c free m h =
        group_data_plans-append (uuid m) pre _
        ∙ rw (free m (omega arith)) (
            group_data_plans-append (uuid m) (assign_slots (uuid n) 0 ms) _
            ∙ rw
                (group_data_plans_other (uuid m) (uuid n) 0 ms
                  (text_ne _ _ (λ e. omega (arith, distinct _ _ e))))
                (ground arith))

    -- The parity disc behind a group's members stands for them.
    first-IsGroup :
        (pre ms : List DiscPlan) (groups : List (List DiscPlan)) (n c : ℕ)
        → Sound ms
        → Unused n pre
        → IsGroup size
            (pre ++ laid_out uuid prefix n c (ms ∷ groups))
            (parity_plan (format_disk_id prefix (c + 1)) (uuid n) (length ms))
    first-IsGroup pre ms groups n c (ours, some_member, within_size) free = record {
      some_member = rw (own, count) some_member;
      within_size = rw (own, count) within_size;
      in_slots = rw own (assign_slots-InSlots (uuid n) 0 ms);
      last_slot = rw (own, count);
      named = nonempty n;
    }
      where
        own :
            group_data_plans (uuid n) (pre ++ laid_out uuid prefix n c (ms ∷ groups))
            ≡ assign_slots (uuid n) 0 ms
        own = own_group pre ms groups n c ours free

        count : length (assign_slots (uuid n) 0 ms) ≡ length ms
        count = length-assign_slots (uuid n) 0 ms

    abbrev pub Covers : List DiscPlan → List DiscPlan → Type 0
    Covers plans part =
        All (IsGroup size plans) (parity_plans part)
        × (grouped_data plans (parity_plans part) ≡ data_plans part)

    next-block :
        (pre ms : List DiscPlan) (groups : List (List DiscPlan)) (n c : ℕ)
        → (pre ++ block n c ms) ++ laid_out uuid prefix (n + 1) (c + 1) groups
          ≡ pre ++ laid_out uuid prefix n c (ms ∷ groups)
    unfolding laid_out
    next-block pre ms groups n c =
        append_assoc pre (block n c ms) _
        ∙ ap (◌++◌ pre) (append_assoc (assign_slots (uuid n) 0 ms) _ _)

    pub laid_out-Covers :
        (groups : List (List DiscPlan)) (pre : List DiscPlan) (n c : ℕ)
        → All Sound groups
        → Unused n pre
        → Covers (pre ++ laid_out uuid prefix n c groups) (laid_out uuid prefix n c groups)
    unfolding laid_out parity_plans data_plans
    laid_out-Covers [] pre n c h free = (tt, refl)
    laid_out-Covers (ms ∷ groups) pre n c h free =
        let later =
          subst (λ plans. Covers plans (laid_out uuid prefix (n + 1) (c + 1) groups))
            (next-block pre ms groups n c)
            (laid_out-Covers groups (pre ++ block n c ms) (n + 1) (c + 1) h.1
              (Unused-block pre ms n c free)) in
        let ours = assign_slots-AreData (uuid n) 0 ms h.0.0 in
        rw
          (
            parity_plans-append (assign_slots (uuid n) 0 ms) _ ours,
            data_plans-append (assign_slots (uuid n) 0 ms) _ ours,
          )
          (
            (first-IsGroup pre ms groups n c h.0 free, later.0),
            ap₂ ◌++◌ (own_group pre ms groups n c h.0.0 free) later.1,
          )
