-- ===== src/Tests/Planning.antt =====
-- Plans of jobs on a small catalog.
use varis.Base.{ℕ, ◌≡◌, refl, ap, true, false, List, [], ◌∷◌, none, Text, codes, contains, ok, All}
use mathlib.Core.List.{Nodup, cons≢nil}
use varis.Binpack.{FileInfo}
use varis.Db.{Catalog, Postgres, optical}
use varis.Db.MediaTypes.{
  seed_media_types, find_media_type, or_else, default_media_types, find-seed_media_types,
}
use varis.Burn.Cataloger.{pgx_cataloger}
use varis.Burn.Plan.{Options, DiscPlan, plan_job, effective_group_size}
use varis.Burn.Plan.Layout.{IsHealthy, buckets_of}
use varis.Burn.Plan.Groups.{parity_plans, data_plans, IsGroup, grouped_data}
use varis.Burn.Plan.Covering.{buckets, plan_job_covers}
use varis.Burn.Plan.Distinct.{plan_ids, plan_job-Nodup}

abbrev pub server : Postgres
server = record { outage = λ _. none; uuid = λ n. n ∷ []; now = λ n. n }

abbrev pub empty_catalog : Catalog
empty_catalog = record {
  media_types = [];
  disk_groups = [];
  disks = [];
  files = [];
  staged_metadata = [];
  drawn = 0;
  statements = 0;
}

abbrev options : Options
options = record {
  media_type = codes "BD-R 25";
  capacity_bytes = 11;
  parity_percent = 10;
  compress = false;
  cross_disc_parity = true;
  group_size = 2;
  dry_run = false;
  id_prefix = codes "BD";
  write_kind = optical;
  target_path = codes "/dev/sr0";
}

abbrev staged_files : List FileInfo
staged_files =
    record { path = codes "a"; size = 6 }
    ∷ record { path = codes "b"; size = 7 }
    ∷ record { path = codes "c"; size = 9 }
    ∷ []

pub server-IsHealthy : IsHealthy server empty_catalog
unfolding contains
server-IsHealthy = record {
  answers = λ n. refl;
  distinct = λ m n e. ap first e;
  unused = λ n h. refl;
  nonempty = λ n e. cons≢nil e;
}
  where
    first : Text → ℕ
    first [] = 0
    first (c ∷ _) = c

plan_job-Nodup_example :
    (plans : List DiscPlan) × (after : Catalog) × (plan_job
        (pgx_cataloger server)
        (ok staged_files)
        options
        empty_catalog
      ≡ (ok plans, after))
    × Nodup (plan_ids plans)
plan_job-Nodup_example = plan_job-Nodup server empty_catalog staged_files options server-IsHealthy

plan_job_covers_example :
    (plans : List DiscPlan) × (after : Catalog) × (plan_job
        (pgx_cataloger server)
        (ok staged_files)
        options
        empty_catalog
      ≡ (ok plans, after))
    × All (IsGroup (effective_group_size 2) plans) (parity_plans plans)
    × (grouped_data plans (parity_plans plans) ≡ data_plans plans)
    × (buckets (data_plans plans) ≡ buckets_of staged_files options)
plan_job_covers_example =
    plan_job_covers server empty_catalog staged_files options server-IsHealthy refl

find-seed_media_types_example :
    (after : Catalog) × (seed_media_types server empty_catalog ≡ (ok tt, after))
    × ((name : Text)
        → find_media_type name after.media_types
          ≡ or_else (find_media_type name []) (find_media_type name default_media_types))
find-seed_media_types_example = find-seed_media_types server empty_catalog (λ n. refl)
