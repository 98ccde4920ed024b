-- ===== src/Tests/Burning.antt =====
-- A manager on a machine where every call succeeds.
use varis.Base.{
  text_eq, ℕ, ◌≤◌, ◌≡◌, refl, true, false, List, [], ◌∷◌, ◌++◌, none, some, arith, codes, ok,
  length,
}
use varis.Base.Effect.{pure, for_each}
use varis.Db.{optical, data_role}
use varis.Os.{Os}
use varis.Burn.Cataloger.{Cataloger}
use varis.Burn.Plan.{Options, DiscPlan}
use varis.Burn.Job.{Job, Manager, state_packing, state_text, in_state, claim, advance, new_job}
use varis.Burn.Disc.{Dirs}
use varis.Burn.Disc.Archive.{Archived, observed_cataloger, observed_os, commit_disc-Archived}
use varis.Burn.Disc.{commit_disc, commit_file, check_free_space, write_toc, stage_iso}
use varis.Burn.Disc.Entered.{Entered}
use varis.Burn.Tools.{
  hash_file, disk_free_bytes, write_tar, add_file_to_tar, remove_stale_artifacts, create_parity,
  move_paths_into, attempt, build_iso, burn_iso, verify_burn, verify_parity,
}
use varis.Burn.Step.{set_state, within, ◌>>=◌, ◌>>◌}
use varis.Burn.Run.{run_disc, write_medium}
use varis.Burn.Manager.{continue_next_disc}
use varis.Burn.Manager.Completes.{Completed, continues, continues-Completed}
use varis.Burn.Manager.Outcome.{Outcome, continue_next_disc-Outcome}
use varis.Burn.Manager.Idle.{
  IsIdle, call_start, call_continue, call_retry, after_calls, new_manager, after_calls-IsIdle,
}
use varis.Burn.Manager.Sections.{Shared, Reachable, fresh, next, started, claimed, put, is_busy}
use varis.Burn.Manager.Exclusive.{one_burns}

abbrev pub memory : Cataloger
memory = record {
  State = ℕ;
  next_disk_id = λ prefix n. pure prefix;
  new_burn_job_id = pure (codes "job");
  next_group_id = λ _ _. pure (codes "group");
  insert_disk = λ _. pure tt;
  insert_file = λ _. pure tt;
  consume_staged_metadata = λ _. pure (none, []);
}

abbrev pub machine : {W : Type 0} → Os W
machine = record {
  join = λ dir name. dir ++ codes "/" ++ name;
  base_name = λ name. name;
  relative = λ _ _. ok (codes "a");
  statfs = λ _. pure (10, 10);
  walk =
      λ _. pure (record { path = codes "a"; failure = none; is_regular = true; size = ok 6 } ∷ []);
  stat = λ _. pure (codes "data");
  remove = λ _. pure tt;
  remove_all = λ _. pure tt;
  make_dir_all = λ _. pure tt;
  open_file = λ _. pure tt;
  create_file = λ _. pure tt;
  rename = λ _ _. pure tt;
  copy = λ _ _. pure tt;
  read_file = λ _. pure (codes "data");
  write_file = λ _ _. pure tt;
  file_info_header = λ _. ok (codes "a");
  write_header = λ _ _ _. pure tt;
  close_tar = λ _. pure tt;
  close_gzip = λ _. pure tt;
  run = λ _ _. pure (codes "data");
  sha256_hex = λ name. name;
  marshal = λ _. ok (codes "a");
  now = pure 7;
  parse = λ _. ok (record {
    disk_id = codes "BD:0001";
    media_type = codes "BD-R";
    parity_percent = 10;
    compressed = false;
    group_id = [];
    role = data_role;
    slot_index = 0;
    created_at = 0;
    files = [];
  });
  make_temp_dir = λ dir name. pure (dir ++ name);
  open_gzip = λ _. pure tt;
  tar_headers = λ _. pure (ok (codes "a") ∷ []);
  copy_member = λ _ _ _. pure tt;
  copy_n = λ _ _ _. pure true;
}

abbrev pub dirs : Dirs
dirs = record {
  staging_dir = codes "/staging";
  spool_dir = codes "/spool";
  dry_run_dir = codes "/dryrun";
}

abbrev pub options : Options
options = record {
  media_type = codes "BD-R";
  capacity_bytes = 11;
  parity_percent = 10;
  compress = false;
  cross_disc_parity = false;
  group_size = 2;
  dry_run = false;
  id_prefix = codes "BD";
  write_kind = optical;
  target_path = codes "/dev/sr0";
}

abbrev pub disc : DiscPlan
disc = record {
  disk_id = codes "BD:0001";
  role = data_role;
  group_id = [];
  slot_index = 0;
  bucket = record { files = record { path = codes "a"; size = 6 } ∷ []; total_size = 6 };
}

abbrev pub job : Job
job = new_job options (disc ∷ [])

abbrev pub waiting : Manager ℕ
waiting = record { job = some job; world = 0 }

continue_next_disc_example :
    Outcome memory machine dirs job (continue_next_disc memory machine dirs waiting)
continue_next_disc_example =
    continue_next_disc-Outcome memory machine dirs waiting job refl refl (omega arith)

continues_example : Completed memory machine dirs job (continues memory machine dirs 1 waiting)
continues_example = continues-Completed memory machine dirs 0 waiting job refl refl (omega arith)

after_calls_example :
    IsIdle
      (after_calls memory machine dirs
        (call_start options ∷ call_continue ∷ call_retry ∷ [])
        (new_manager memory machine dirs 0)).job
after_calls_example =
    after_calls-IsIdle memory machine dirs (call_start options ∷ call_continue ∷ call_retry ∷ []) 0

commit_disc_example :
    Archived memory machine dirs
      (codes "BD:0001")
      (commit_disc
        (observed_cataloger memory machine dirs)
        (observed_os memory machine dirs)
        dirs
        options
        disc
        (codes "hash")
        (0, [])).1.1
commit_disc_example = commit_disc-Archived memory machine dirs options disc (codes "hash") 0

abbrev one_job : Shared
one_job = record { heap = put (λ _. job) 0 job; allocated = 1; job = some 0; burning = [] }

abbrev one_call : Shared
one_call = record {
  heap = put (put (λ _. job) 0 job) 0 (in_state state_packing job);
  allocated = 1;
  job = some 0;
  burning = 0 ∷ [];
}

one_call-Reachable : Reachable one_call
unfolding claim
one_call-Reachable =
    next _ _ (next _ _ (fresh (λ _. job)) (started _ options disc [] refl))
      (claimed one_job 0 (in_state state_packing job) refl refl)

one_burns_example :
    (length one_call.burning ≤ 1)
    × ((p : ℕ) (others : List ℕ)
        → one_call.burning ≡ p ∷ others
        → (one_call.job ≡ some p) × (is_busy (one_call.heap p).state ≡ true))
one_burns_example = one_burns one_call-Reachable

continue_next_disc_runs :
    state_text (continue_next_disc memory machine dirs waiting).1.job ≡ codes "DONE"
unfolding continue_next_disc claim run_disc set_state within ◌>>=◌ ◌>>◌ check_free_space write_toc
    stage_iso write_medium commit_disc commit_file for_each hash_file advance disk_free_bytes
    write_tar add_file_to_tar remove_stale_artifacts create_parity move_paths_into attempt build_iso
    burn_iso verify_burn verify_parity text_eq
continue_next_disc_runs = refl
