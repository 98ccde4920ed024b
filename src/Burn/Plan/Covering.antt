-- ===== src/Burn/Plan/Covering.antt =====
-- What a plan with cross-disc parity holds: every bucket on a data disc, every data disc in a group.
use varis.Base.{
  ℕ, zero, suc, ◌+◌, ◌≡◌, ◌≢◌, refl, sym, ap, ap₂, ◌∙◌, true, List, [], ◌∷◌, ◌++◌, map, map-append,
  arith, Text, ok, length, take, drop, All, All-imp,
}
use mathlib.Core.List.{flatten}
use varis.Binpack.{FileInfo, Bucket}
use varis.Db.{Catalog, Postgres}
use varis.Db.Disks.{count_disks}
use varis.Burn.Cataloger.{pgx_cataloger}
use varis.Burn.Payload.{group_data_plans}
use varis.Burn.Plan.{Options, DiscPlan, assign_slots, chunks, plan_job, effective_group_size}
use varis.Burn.Plan.Chunks.{flatten-chunks, chunks_bounds, effective_group_size_pos}
use varis.Burn.Plan.Layout.{
  IsHealthy, numbered, laid_out, with_parity, planned, plan_job-planned, buckets_of,
}
use varis.Burn.Plan.Groups.{
  parity_plans, data_plans, IsGroup, AreData, assign_slots-AreData, data_plans-append, grouped_data,
  Sound, laid_out-Covers,
}

abbrev pub buckets : List DiscPlan → List Bucket
buckets = map (λ p. p.bucket)

numbered-AreData : (prefix : Text) (c : ℕ) (bs : List Bucket) → AreData (numbered prefix c bs)
unfolding numbered
numbered-AreData prefix c [] = tt
numbered-AreData prefix c (b ∷ bs) = (refl, numbered-AreData prefix (c + 1) bs)

buckets-numbered : (prefix : Text) (c : ℕ) (bs : List Bucket) → buckets (numbered prefix c bs) ≡ bs
unfolding numbered
buckets-numbered prefix c [] = refl
buckets-numbered prefix c (b ∷ bs) = ap (◌∷◌ b) (buckets-numbered prefix (c + 1) bs)

buckets-assign_slots :
    (g : Text) (i : ℕ) (plans : List DiscPlan) → buckets (assign_slots g i plans) ≡ buckets plans
unfolding assign_slots
buckets-assign_slots g i [] = refl
buckets-assign_slots g i (p ∷ plans) = ap (◌∷◌ p.bucket) (buckets-assign_slots g (i + 1) plans)

take-AreData : (n : ℕ) (plans : List DiscPlan) → AreData plans → AreData (take n plans)
take-AreData zero plans h = tt
take-AreData (suc n) [] h = tt
take-AreData (suc n) (p ∷ plans) h = (h.0, take-AreData n plans h.1)

drop-AreData : (n : ℕ) (plans : List DiscPlan) → AreData plans → AreData (drop n plans)
drop-AreData zero plans h = h
drop-AreData (suc n) [] h = tt
drop-AreData (suc n) (p ∷ plans) h = drop-AreData n plans h.1

chunks-AreData :
    (bound n : ℕ) (plans : List DiscPlan) → AreData plans → All AreData (chunks bound n plans)
unfolding chunks
chunks-AreData zero n plans h = tt
chunks-AreData (suc bound) n [] h = tt
chunks-AreData (suc bound) n (p ∷ plans) h =
    (take-AreData n (p ∷ plans) h, chunks-AreData bound n _ (drop-AreData n (p ∷ plans) h))

buckets-laid_out :
    (uuid : ℕ → Text) (prefix : Text) (n c : ℕ) (groups : List (List DiscPlan))
    → All AreData groups
    → buckets (data_plans (laid_out uuid prefix n c groups)) ≡ buckets (flatten groups)
unfolding laid_out data_plans flatten
buckets-laid_out uuid prefix n c [] h = refl
buckets-laid_out uuid prefix n c (ms ∷ groups) h =
    rw (data_plans-append (assign_slots (uuid n) 0 ms) _ (assign_slots-AreData (uuid n) 0 ms h.0)) (
      map-append (λ (p : DiscPlan). p.bucket) (assign_slots (uuid n) 0 ms) _
      ∙ ap₂ ◌++◌ (buckets-assign_slots (uuid n) 0 ms)
          (buckets-laid_out uuid prefix (n + 1) (c + 1) groups h.1)
      ∙ sym (map-append (λ (p : DiscPlan). p.bucket) ms (flatten groups)))

both {ℓ κ μ} :
    {A : Type ℓ} (P : A → Type κ) (Q : A → Type μ) (xs : List A)
    → All P xs
    → All Q xs
    → All (λ x. P x × Q x) xs
both P Q [] p q = tt
both P Q (x ∷ xs) p q = ((p.0, q.0), both P Q xs p.1 q.1)

module _ (uuid : ℕ → Text) (drawn c : ℕ) (opts : Options) where
  abbrev data_discs : List Bucket → List DiscPlan
  data_discs bs = numbered opts.id_prefix c bs

  abbrev size : ℕ
  size = effective_group_size opts.group_size

  abbrev groups : List Bucket → List (List DiscPlan)
  groups bs = chunks (length (data_discs bs)) size (data_discs bs)

  abbrev grouped_plan : List Bucket → List DiscPlan
  grouped_plan bs =
      laid_out uuid opts.id_prefix (drawn + 1) (c + length (data_discs bs)) (groups bs)

  with_parity_on :
      opts.cross_disc_parity ≡ true
      → (bs : List Bucket) → with_parity uuid drawn c opts (data_discs bs) ≡ grouped_plan bs
  unfolding with_parity numbered laid_out chunks
  with_parity_on cross [] = ground arith
  with_parity_on cross (b ∷ bs) = ground arith

  groups-Sound :
      (distinct : (m n : ℕ) → uuid m ≡ uuid n → m ≡ n)
      → (nonempty : (n : ℕ) → uuid n ≢ []) → (bs : List Bucket)
      → All (Sound uuid opts.id_prefix distinct size nonempty) (groups bs)
  groups-Sound distinct nonempty bs =
      All-imp _ _ (λ ms h. (h.0, h.1.0, h.1.1)) (groups bs)
        (both AreData _ (groups bs)
          (chunks-AreData _ size (data_discs bs) (numbered-AreData opts.id_prefix c bs))
          (chunks_bounds _ size (data_discs bs) (effective_group_size_pos opts.group_size)))

  with_parity-Covers :
      opts.cross_disc_parity ≡ true
      → ((m n : ℕ) → uuid m ≡ uuid n → m ≡ n)
      → ((n : ℕ) → uuid n ≢ [])
      → (bs : List Bucket)
      → let plan = with_parity uuid drawn c opts (data_discs bs) in
        All (IsGroup size plan) (parity_plans plan)
        × (grouped_data plan (parity_plans plan) ≡ data_plans plan)
        × (buckets (data_plans plan) ≡ bs)
  unfolding group_data_plans
  with_parity-Covers cross distinct nonempty bs =
      let covers =
        laid_out-Covers uuid opts.id_prefix distinct size nonempty (groups bs) [] (drawn + 1)
          (c + length (data_discs bs)) (groups-Sound distinct nonempty bs) (λ m h. refl) in
      rw (with_parity_on cross bs) (covers.0, covers.1, kept)
    where
      kept : buckets (data_plans (grouped_plan bs)) ≡ bs
      kept =
          buckets-laid_out uuid opts.id_prefix _ _ (groups bs)
            (chunks-AreData _ size (data_discs bs) (numbered-AreData opts.id_prefix c bs))
          ∙ ap buckets (
              flatten-chunks _ size (data_discs bs) (effective_group_size_pos opts.group_size)
                (omega arith))
          ∙ buckets-numbered opts.id_prefix c bs

-- With cross-disc parity, on a server that answers and whose random ids are new, planning succeeds.
-- The data discs then hold the buckets of the packing, in order. Every parity disc has a group id
-- that stands for at least one data disc and at most as many as the group size; these have the
-- slots from 0 on, and the parity disc has the slot behind them. Together the groups of the parity
-- discs are all data discs, each once and in order.
pub plan_job_covers :
    (pg : Postgres) (db : Catalog) (files : List FileInfo) (opts : Options)
    → IsHealthy pg db
    → opts.cross_disc_parity ≡ true
    → (plans : List DiscPlan) × (after : Catalog) × (plan_job (pgx_cataloger pg) (ok files) opts db
        ≡ (ok plans, after))
      × All (IsGroup (effective_group_size opts.group_size) plans) (parity_plans plans)
      × (grouped_data plans (parity_plans plans) ≡ data_plans plans)
      × (buckets (data_plans plans) ≡ buckets_of files opts)
unfolding planned
plan_job_covers pg db files opts h cross =
    let (after, done, _) = plan_job-planned pg db files opts h in
    let covers =
      with_parity-Covers pg.uuid db.drawn (count_disks opts.id_prefix db.disks) opts cross
        h.distinct h.nonempty (buckets_of files opts) in
    (planned pg db files opts, after, done, covers.0, covers.1, covers.2)
