-- ===== src/Burn/Plan/Distinct.antt =====
-- No disc id is planned twice.
use varis.Base.{
  ℕ, zero, suc, ◌+◌, ◌≤◌, ◌≡◌, inl, inr, refl, ap, not, ◌||◌, Bool-cases, List, [], ◌∷◌, ◌++◌, map,
  append_assoc, map-append, arith, ◌==◌, Text, ok, length,
}
use mathlib.Core.List.{
  flatten, Mem, Nodup, Nodup-cons, Nodup-nil, Perm, perm_middle, mem-cons, not-mem-nil,
}
use mathlib.Core.List.Perm
use mathlib.Core.Logic.Or
use mathlib.Core.HLevel.{⊥_prop}
use varis.Binpack.{FileInfo, Bucket}
use varis.Db.{Catalog, Postgres}
use varis.Db.Ids.{format_disk_id, format_disk_id-injective}
use varis.Db.Disks.{count_disks}
use varis.Burn.Cataloger.{pgx_cataloger}
use varis.Burn.Plan.{Options, DiscPlan, assign_slots, chunks, plan_job, effective_group_size}
use varis.Burn.Plan.Chunks.{flatten-chunks, effective_group_size_pos}
use varis.Burn.Plan.Layout.{
  IsHealthy, numbered, laid_out, with_parity, planned, plan_job-planned, buckets_of,
}

abbrev pub plan_ids : List DiscPlan → List Text
plan_ids = map (λ p. p.disk_id)

-- The ids with the `k` numbers after `c`.
id_range : Text → ℕ → ℕ → List Text
id_range prefix c zero = []
id_range prefix c (suc k) = format_disk_id prefix (c + 1) ∷ id_range prefix (c + 1) k

not-mem-id_range :
    (prefix : Text) (k c m : ℕ) → m ≤ c → Mem (format_disk_id prefix m) (id_range prefix c k) → ⊥
unfolding id_range
not-mem-id_range prefix zero c m h e = not-mem-nil e
not-mem-id_range prefix (suc k) c m h e =
    Or.elim ⊥_prop (mem-cons.0 e)
      (λ same. omega (arith, format_disk_id-injective prefix m (c + 1) same))
      (not-mem-id_range prefix k (c + 1) m (omega arith))

id_range-Nodup : (prefix : Text) (k c : ℕ) → Nodup (id_range prefix c k)
unfolding id_range
id_range-Nodup prefix zero c = Nodup-nil
id_range-Nodup prefix (suc k) c =
    Nodup-cons.1
      (not-mem-id_range prefix k (c + 1) (c + 1) (omega arith), id_range-Nodup prefix k (c + 1))

id_range-append :
    (prefix : Text) (j k c : ℕ)
    → id_range prefix c j ++ id_range prefix (c + j) k ≡ id_range prefix c (j + k)
unfolding id_range
id_range-append prefix zero k c =
    let e : c + 0 ≡ c = omega arith in let f : 0 + k ≡ k = omega arith in rw (e, f)
id_range-append prefix (suc j) k c =
    let e : c + suc j ≡ c + 1 + j = omega arith in
    let f : suc j + k ≡ suc (j + k) = omega arith in
    rw (e, f) (ap (◌∷◌ (format_disk_id prefix (c + 1))) (id_range-append prefix j k (c + 1)))

plan_ids-numbered :
    (prefix : Text) (buckets : List Bucket) (c : ℕ)
    → plan_ids (numbered prefix c buckets) ≡ id_range prefix c (length buckets)
unfolding numbered id_range
plan_ids-numbered prefix [] c = refl
plan_ids-numbered prefix (b ∷ buckets) c =
    ap (◌∷◌ (format_disk_id prefix (c + 1))) (plan_ids-numbered prefix buckets (c + 1))

length-numbered :
    (prefix : Text) (buckets : List Bucket) (c : ℕ)
    → length (numbered prefix c buckets) ≡ length buckets
unfolding numbered
length-numbered prefix [] c = refl
length-numbered prefix (b ∷ buckets) c = ap suc (length-numbered prefix buckets (c + 1))

plan_ids-assign_slots :
    (group_id : Text) (i : ℕ) (plans : List DiscPlan)
    → plan_ids (assign_slots group_id i plans) ≡ plan_ids plans
unfolding assign_slots
plan_ids-assign_slots group_id i [] = refl
plan_ids-assign_slots group_id i (p ∷ plans) =
    ap (◌∷◌ p.disk_id) (plan_ids-assign_slots group_id (i + 1) plans)

plan_ids-laid_out :
    (uuid : ℕ → Text) (prefix : Text) (n c : ℕ) (groups : List (List DiscPlan))
    → Perm
        (plan_ids (laid_out uuid prefix n c groups))
        (plan_ids (flatten groups) ++ id_range prefix c (length groups))
unfolding laid_out id_range flatten
plan_ids-laid_out uuid prefix n c [] = Perm.nil
plan_ids-laid_out uuid prefix n c (members ∷ groups) =
    rw
      (
        map-append (λ (p : DiscPlan). p.disk_id) (assign_slots (uuid n) 0 members) _,
        plan_ids-assign_slots (uuid n) 0 members,
        map-append (λ (p : DiscPlan). p.disk_id) members (flatten groups),
        append_assoc (plan_ids members) (plan_ids (flatten groups)) _,
      )
      (Perm.append_left (plan_ids members) (
        Perm.trans (Perm.cons _ (plan_ids-laid_out uuid prefix (n + 1) (c + 1) groups))
          (Perm.symm (perm_middle (plan_ids (flatten groups)) _))))

with_parity-Nodup :
    (uuid : ℕ → Text) (drawn c : ℕ) (opts : Options) (buckets : List Bucket)
    → Nodup (plan_ids (with_parity uuid drawn c opts (numbered opts.id_prefix c buckets)))
unfolding with_parity
with_parity-Nodup uuid drawn c opts buckets =
    elim (Bool-cases (not opts.cross_disc_parity || length plans == 0)) [
      | inl off ↦ rw (off, plan_ids-numbered prefix buckets c) (id_range-Nodup prefix _ c)
      | inr on ↦ rw on (Perm.nodup (Perm.symm (plan_ids-laid_out uuid prefix _ _ groups)) both)
    ]
  where
    prefix : Text
    prefix = opts.id_prefix

    plans : List DiscPlan
    plans = numbered opts.id_prefix c buckets

    groups : List (List DiscPlan)
    groups = chunks (length plans) (effective_group_size opts.group_size) plans

    whole : flatten groups ≡ plans
    whole =
        flatten-chunks (length plans) (effective_group_size opts.group_size) plans
          (effective_group_size_pos opts.group_size) (omega arith)

    both : Nodup (plan_ids (flatten groups) ++ id_range prefix (c + length plans) (length groups))
    both =
        rw
          (
            whole,
            plan_ids-numbered prefix buckets c,
            length-numbered prefix buckets c,
            id_range-append prefix (length buckets) _ c,
          )
          (id_range-Nodup prefix _ c)

-- On a server that answers, and whose random ids are new, planning succeeds and gives every disc
-- of the plan, parity discs included, an id of its own.
pub plan_job-Nodup :
    (pg : Postgres) (db : Catalog) (files : List FileInfo) (opts : Options)
    → IsHealthy pg db
    → (plans : List DiscPlan) × (after : Catalog) × (plan_job (pgx_cataloger pg) (ok files) opts db
        ≡ (ok plans, after))
      × Nodup (plan_ids plans)
unfolding planned
plan_job-Nodup pg db files opts h =
    let (after, done, _) = plan_job-planned pg db files opts h in
    (
      planned pg db files opts,
      after,
      done,
      with_parity-Nodup pg.uuid db.drawn (count_disks opts.id_prefix db.disks) opts
          (buckets_of files opts),
    )
