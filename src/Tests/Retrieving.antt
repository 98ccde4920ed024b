-- ===== src/Tests/Retrieving.antt =====
-- A retrieval on a machine where every call succeeds.
use varis.Base.{ok, message, ℕ, ◌≡◌, refl, false, [], ◌∷◌, none, some, codes, text_eq, contains}
use varis.Base.Effect.{pure}
use varis.Xordisk.Recovery.{pad}
use varis.Db.{Disk}
use varis.Burn.Reconstruct.{Reconstructor, remaining}
use varis.Burn.Reconstruct.Supplies.{without, Agrees-nil}
use varis.Retrieve.Catalog.{Catalog}
use varis.Retrieve.Job.{Job, Manager, new_job}
use varis.Retrieve.Read.{Dirs}
use varis.Retrieve.Fetch.{fold_reconstruction_image}
use varis.Retrieve.Manager.{read_disk, new_manager}
use varis.Retrieve.Manager.Ends.{Ended}
use varis.Retrieve.Manager.Outcome.{IsDone, DiskError, read_disk-Ended}
use varis.Retrieve.Manager.Settled.{IsIdle}
use varis.Retrieve.Manager.Idle.{
  call_start, call_read_disk, call_start_reconstruction, call_abort, call_read_reconstruction_disc,
  run_calls, run_calls-IsIdle,
}
use varis.Retrieve.Manager.Begin.{start_reconstruction-Collecting}
use varis.Retrieve.Manager.{start_reconstruction, still_needed}
use varis.Retrieve.Job.{state_needs_reconstruction, reconstructing}
use varis.Retrieve.Manager.Sections.{
  Reachable, fresh, next, started, aborted, claimed, to_read, put,
}
use varis.Retrieve.Manager.Apart.{Unique, AreBusy, one_call_each}
use varis.Retrieve.Job.{in_state, state_reading_disc, claim_reading}
use varis.Retrieve.Manager.Collect.{Collecting, Advanced, fold_reconstruction_image-Advanced}
use varis.Tests.Rebuilding.{first, second, third, burned, waiting}
use varis.Tests.Burning.{machine}

abbrev pub library : Catalog ℕ
library = record {
  get_file = λ id. pure (record {
    id = id;
    disk_id = codes "BD:0001";
    original_path = codes "a";
    size_bytes = 6;
    file_hash = [];
    tags = none;
    description = [];
    disk_is_dry_run = false;
  });
  get_disk = λ id. pure first;
  group_members = λ _. pure (first ∷ second ∷ []);
  media_capacity = λ _. pure 4;
}

abbrev pub places : Dirs
places = record {
  retrieved_dir = codes "/retrieved";
  scratch_dir = codes "/tmp";
  dry_run_dir = codes "/dryrun";
}

abbrev wanted : Job
wanted = new_job (codes "file") (codes "BD:0001") (codes "a")

abbrev pub awaiting : Manager ℕ
awaiting = record {
  job = some wanted;
  reconstructor = none;
  reconstruction_capacity = 0;
  world = 0;
}

read_disk_example :
    let r = read_disk library machine places (codes "/dev/sr0") awaiting in
    Ended
      (IsDone {W = ℕ} machine places (codes "BD:0001") (codes "a"))
      (DiskError library machine places (codes "BD:0001") (codes "a"))
      wanted
      r.0
      r.1.job
    × (r.1.reconstructor ≡ none)
    × (r.1.reconstruction_capacity ≡ 0)
read_disk_example =
    read_disk-Ended library machine places awaiting wanted (codes "/dev/sr0") refl refl

run_calls_example : IsIdle (
    run_calls library machine places
      (call_start (codes "file")
        ∷ call_read_disk (codes "/dev/sr0")
        ∷ call_start_reconstruction
        ∷ call_read_reconstruction_disc (codes "BD:0002") (codes "/dev/sr0")
        ∷ call_abort
        ∷ [])
      (new_manager 0))
run_calls_example = run_calls-IsIdle library machine places _ 0

abbrev asking : Reconstructor
asking = record waiting { other_ids = first.id ∷ third.id ∷ [] }

asking-Collecting : Collecting (first ∷ []) [] second third burned 4 asking
asking-Collecting = record { asks = refl; fits = refl; agrees = Agrees-nil 4 _ }

fold_reconstruction_image_example :
    Advanced
      (first ∷ [])
      []
      second
      third
      burned
      4
      (without first.id (remaining asking))
      (fold_reconstruction_image asking first.id (1 ∷ 2 ∷ 0 ∷ []))
unfolding text_eq contains pad
fold_reconstruction_image_example =
    fold_reconstruction_image-Advanced (first ∷ []) [] second third burned 4 asking first.id
      (1 ∷ 2 ∷ 0 ∷ []) refl asking-Collecting refl refl

-- A disc of a group of two data discs and a parity disc.
abbrev pub group_library : Catalog ℕ
group_library = record library {
  get_disk = λ id. pure (record second { group_id = some (codes "g") });
  group_members = λ _. pure (first ∷ record second { group_id = some (codes "g") } ∷ third ∷ []);
}

abbrev pub lost : Disk
lost = record second { group_id = some (codes "g") }

abbrev pub damaged : Job
damaged = record wanted {
  disk_id = lost.id;
  state = state_needs_reconstruction;
  error = some (message [] []);
}

abbrev pub needing : Manager ℕ
needing = record awaiting { job = some damaged }

start_reconstruction_example :
    let r = start_reconstruction group_library machine places needing in
    (r.0 ≡ ok tt)
    × (r.1.job ≡ some (reconstructing damaged))
    × ((s : Reconstructor) × (r.1.reconstructor ≡ some s)
        × Collecting (first ∷ []) [] lost third burned 4 s
        × (s.images ≡ []))
    × (still_needed r.1 ≡ first.id ∷ third.id ∷ [])
unfolding text_eq contains
start_reconstruction_example =
    start_reconstruction-Collecting group_library machine places (first ∷ []) [] lost third burned 4
      needing damaged 0 refl refl refl
      (record {
        group_id = codes "g";
        first_world = 0;
        second_world = 0;
        row = refl;
        in_group = refl;
        members = refl;
        capacity = refl;
      })
      refl

-- A first job is claimed and given up, and a second one is claimed while its call still runs.
abbrev first_claimed : ℕ → Job
first_claimed = put (put (λ _. wanted) 0 wanted) 0 (in_state state_reading_disc wanted)

abbrev second_claimed : ℕ → Job
second_claimed = put (put first_claimed 1 wanted) 1 (in_state state_reading_disc wanted)

two_calls-Reachable :
    Reachable (record { heap = second_claimed; allocated = 2; job = some 1; working = 1 ∷ 0 ∷ [] })
unfolding claim_reading
two_calls-Reachable =
    next _ _
      (next _ _
        (next _ _
          (next _ _
            (next _ _ (fresh (λ _. wanted))
              (started _ (codes "file") (codes "BD:0001") (codes "a") refl))
            (claimed
              (record {
                heap = put (λ _. wanted) 0 wanted;
                allocated = 1;
                job = some 0;
                working = [];
              })
              0 (in_state state_reading_disc wanted) refl (to_read _ refl)))
          (aborted _))
        (started (record { heap = first_claimed; allocated = 1; job = none; working = 0 ∷ [] })
          (codes "file") (codes "BD:0001") (codes "a") refl))
      (claimed
        (record {
          heap = put first_claimed 1 wanted;
          allocated = 2;
          job = some 1;
          working = 0 ∷ [];
        })
        1 (in_state state_reading_disc wanted) refl (to_read _ refl))

one_call_each_example : Unique (1 ∷ 0 ∷ []) × AreBusy second_claimed (1 ∷ 0 ∷ [])
one_call_each_example = one_call_each two_calls-Reachable
