-- ===== src/Burn/Plan.antt =====
-- `planJob` of internal/burn/pipeline.go.
pub mod Chunks
pub mod Layout
pub mod Groups
pub mod Covering
pub mod Distinct
use varis.Base.{
  ℕ, zero, suc, ◌+◌, ◌-◌, ◌*◌, ◌/◌, ◌%◌, ◌^◌, ◌≤◌, ◌<◌, min, bit_xor, ◌≡◌, ◌≢◌, ◌↔◌, ◌⊎◌, inl, inr,
  refl, sym, ap, ap₂, subst, fun_ext, ◌∙◌, Bool, true, false, not, ◌&&◌, ◌||◌, Bool-cases, List, [],
  ◌∷◌, ◌++◌, map, append_assoc, append-nil, map-append, Option, none, some, Option-cases, arith,
  tests, ltb, leb, ◌==◌, ltb→lt, lt→ltb, leb→le, le→leb, ==_iff, if◌then◌else◌, dec_lt, dec_le,
  ℕ_discrete, Text, codes, text_eq, text_eq_iff, text_eq_refl, text_ne, contains, contains-append,
  Error, external, message, wrapped, not_found, Result, ok, err, Result-cases, length, get_elem?,
  get_or, set, take, drop, replicate, All, All-append, All-imp, length-append, length-map,
  length-replicate, length-take, length-drop, take-append-drop, get_or_ext, add64, mul64, neg64,
  lt64, div64, is_negative64, int64_limit,
}
use varis.Base.Effect.{Effect, pure, lift, ◌>>=◌}
use varis.Binpack.{FileInfo, Bucket, target_data_size, pack, empty_bucket}
use varis.Db.{Role, data_role, parity_role, WriteKind}
use varis.Burn.Cataloger.{Cataloger}

pub record Options : Type 0 where
  pub media_type : Text
  pub capacity_bytes : ℕ
  pub parity_percent : ℕ
  pub compress : Bool
  pub cross_disc_parity : Bool
  pub group_size : ℕ
  pub dry_run : Bool
  pub id_prefix : Text
  pub write_kind : WriteKind
  pub target_path : Text

-- The empty group id stands for a disc in no group.
pub record DiscPlan : Type 0 where
  pub disk_id : Text
  pub role : Role
  pub group_id : Text
  pub slot_index : ℕ
  pub bucket : Bucket

-- The slices `plans[start:end]` of the loop over groups, with a bound on their number.
unfoldable pub chunks {ℓ} : {A : Type ℓ} → ℕ → ℕ → List A → List (List A)
chunks zero n xs = []
chunks (suc bound) n [] = []
chunks (suc bound) n (x ∷ xs) = take n (x ∷ xs) ∷ chunks bound n (drop n (x ∷ xs))

-- `p.GroupID = groupID; p.SlotIndex = i`, from slot `i` on.
unfoldable pub assign_slots : Text → ℕ → List DiscPlan → List DiscPlan
assign_slots group_id i [] = []
assign_slots group_id i (p ∷ plans) =
    record p { group_id = group_id; slot_index = i } ∷ assign_slots group_id (i + 1) plans

abbrev pub data_plan : Text → Bucket → DiscPlan
data_plan id b = record {
  disk_id = id;
  role = data_role;
  group_id = [];
  slot_index = 0;
  bucket = b;
}

abbrev pub parity_plan : Text → Text → ℕ → DiscPlan
parity_plan id group_id slot = record {
  disk_id = id;
  role = parity_role;
  group_id = group_id;
  slot_index = slot;
  bucket = empty_bucket;
}

-- An `int` below 2, negative ones included, stands for the default.
abbrev pub effective_group_size : ℕ → ℕ
effective_group_size n = if lt64 1 n then n else 10

module _ (cat : Cataloger) (prefix : Text) where
  -- The loop over the buckets; `allocated` is `allocated[prefix]`.
  unfoldable pub plan_data : ℕ → List Bucket → Effect cat.State (List DiscPlan)
  plan_data allocated [] = pure []
  plan_data allocated (b ∷ buckets) = do
    id ← cat.next_disk_id prefix allocated
    rest ← plan_data (allocated + 1) buckets
    pure (data_plan id b ∷ rest)

  -- The loop over the groups, each with its parity disc behind it.
  unfoldable pub plan_groups : Text → ℕ → List (List DiscPlan) → Effect cat.State (List DiscPlan)
  plan_groups job_id allocated [] = pure []
  plan_groups job_id allocated (members ∷ groups) = do
    group_id ← cat.next_group_id job_id (length members)
    parity_id ← cat.next_disk_id prefix allocated
    rest ← plan_groups job_id (allocated + 1) groups
    pure (assign_slots group_id 0 members ++ parity_plan parity_id group_id (length members) ∷ rest)

-- The second half of `planJob`: the parity discs, if they are asked for.
unfoldable pub add_parity_discs :
    (cat : Cataloger) → Options → List DiscPlan → Effect cat.State (List DiscPlan)
unfolding plan_groups
add_parity_discs cat opts plans =
    if not opts.cross_disc_parity || length plans == 0 then pure plans else (do
      job_id ← cat.new_burn_job_id
      plan_groups cat opts.id_prefix job_id (length plans)
          (chunks (length plans) (effective_group_size opts.group_size) plans))

-- `scanned` is what `ScanStaging` returned.
unfoldable pub plan_job :
    (cat : Cataloger) → Result (List FileInfo) → Options → Effect cat.State (List DiscPlan)
unfolding add_parity_discs
plan_job cat scanned opts = do
  files ← lift scanned
  let target = target_data_size opts.capacity_bytes opts.parity_percent
  plans ← plan_data cat opts.id_prefix 0 (pack files target)
  add_parity_discs cat opts plans
