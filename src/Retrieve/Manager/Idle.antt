-- ===== src/Retrieve/Manager/Idle.antt =====
-- A retrieval's manager between calls: its job is in no state that a call has claimed, and a job
-- that collects discs has a reconstructor made for its own disc.
use varis.Base.{
  ℕ, ◌≡◌, ◌⊎◌, inl, inr, refl, sym, ap, subst, false, Bool-cases, List, [], ◌∷◌, Option, none, some,
  if◌then◌else◌, Text, Error, Result, ok, err,
}
use varis.Base.Effect.{Effect}
use varis.Os.{Os}
use varis.Db.{FileRecord}
use varis.Burn.Reconstruct.{Reconstructor}
use varis.Retrieve.Catalog.{Catalog}
use varis.Retrieve.Job.{
  Job, Manager, State, state_awaiting_media, state_reading_disc, state_done, state_failed,
  state_needs_reconstruction, state_starting_reconstruction, state_reconstructing,
  state_reading_reconstruction_disc, is_awaiting_media, is_needing, is_reconstructing, in_state,
  is_in_progress, claim_reading, claim_starting, claim_folding,
}
use varis.Retrieve.Read.{Dirs}
use varis.Retrieve.Manager.{
  new_manager, abort, start, adopt, read_disk, read_job, read_claimed, start_reconstruction,
  start_claimed, read_reconstruction_disc, fold_job, fold_claimed,
}
use varis.Retrieve.Manager.Ends.{Ended}
use varis.Retrieve.Manager.Outcome.{DiskError, read_job-Ends}
use varis.Retrieve.Manager.Settled.{
  Serves, Settled, IsSettled, IsIdle, Good, Bad, settled, done-Settled, failed-Settled,
  needing-Settled, Keeps, Good-Settled, Bad-Settled,
}
use varis.Retrieve.Manager.Preparing.{start_job-IsIdle}
use varis.Retrieve.Manager.Folding.{fold_job-Ends}

pub data Call : Type 0 where
  call_start call_read_disk : Text → Call
  call_start_reconstruction call_abort : Call
  call_read_reconstruction_disc : Text → Text → Call

-- A state that no claim takes: the call is refused, and nothing changes.
not_awaiting : (s : State) → (s ≡ state_awaiting_media) ⊎ (is_awaiting_media s ≡ false)
not_awaiting state_awaiting_media = inl refl
not_awaiting state_reading_disc = inr refl
not_awaiting state_done = inr refl
not_awaiting state_failed = inr refl
not_awaiting state_needs_reconstruction = inr refl
not_awaiting state_starting_reconstruction = inr refl
not_awaiting state_reconstructing = inr refl
not_awaiting state_reading_reconstruction_disc = inr refl

not_reconstructing : (s : State) → (s ≡ state_reconstructing) ⊎ (is_reconstructing s ≡ false)
not_reconstructing state_reconstructing = inl refl
not_reconstructing state_awaiting_media = inr refl
not_reconstructing state_reading_disc = inr refl
not_reconstructing state_done = inr refl
not_reconstructing state_failed = inr refl
not_reconstructing state_needs_reconstruction = inr refl
not_reconstructing state_starting_reconstruction = inr refl
not_reconstructing state_reading_reconstruction_disc = inr refl

module _ {W : Type 0} (cat : Catalog W) (os : Os W) (dirs : Dirs) where
  start-IsIdle :
      (file_id : Text) (m : Manager W) → IsIdle m → IsIdle (start cat os dirs file_id m).1
  unfolding start
  start-IsIdle file_id m h = elim (Bool-cases (is_in_progress m.job)) [
    | inl busy ↦ rw busy h
    | inr free ↦ rw free (adopted (cat.get_file file_id m.world))
  ]
    where
      adopted : (r : Result FileRecord × W) → IsIdle (adopt cat os dirs file_id m r).1
      adopted (ok f, w) = refl
      adopted (err e, w) = h

  read-Settled :
      (disk_id path : Text) (capacity : ℕ) (r : Option Reconstructor) (s : State) (e : Error)
      → DiskError cat os dirs disk_id path e s
      → Settled s (some e) disk_id capacity r
  read-Settled disk_id path capacity r s e (inl (inl needing)) =
      needing-Settled disk_id capacity r s e needing
  read-Settled disk_id path capacity r s e (inl (inr failed)) =
      failed-Settled disk_id capacity r s e failed.0
  read-Settled disk_id path capacity r s e (inr failed) =
      failed-Settled disk_id capacity r s e failed.0

  read_disk-IsIdle :
      (job : Option Job) (target : Text) (m : Manager W)
      → m.job ≡ job
      → IsIdle m
      → IsIdle (read_disk cat os dirs target m).1
  unfolding read_disk claim_reading
  read_disk-IsIdle none target m here h =
      subst (λ j. IsIdle (read_claimed cat os dirs (claim_reading j) target m).1) (sym here) h
  read_disk-IsIdle (some job) target m here h =
      subst (λ j. IsIdle (read_claimed cat os dirs (claim_reading j) target m).1) (sym here)
        (elim (not_awaiting job.state) [
          | inl awaiting ↦
              subst
                (λ b.
                  IsIdle (read_claimed cat os dirs (if b then some claimed else none) target m).1)
                (sym (ap is_awaiting_media awaiting))
                (settled claimed after.1.reconstruction_capacity after.1.reconstructor after.0
                  after.1.job (λ s error done. done-Settled _ _ _ s error done.0)
                  (read-Settled _ _ _ _)
                  ((read_job-Ends cat os dirs (λ _ _. Unit) claimed target).ends claimed
                    (record m { job = some claimed }) (state_reading_disc, job.error, refl) tt).0)
          | inr refused ↦
              subst
                (λ b.
                  IsIdle (read_claimed cat os dirs (if b then some claimed else none) target m).1)
                (sym refused) h
        ])
    where
      claimed : Job
      claimed = in_state state_reading_disc job

      after : Result (Unit {0}) × Manager W
      after = read_job cat os dirs claimed target (record m { job = some claimed })

  start_reconstruction-IsIdle :
      (job : Option Job) (m : Manager W)
      → m.job ≡ job
      → IsIdle m
      → IsIdle (start_reconstruction cat os dirs m).1
  unfolding start_reconstruction claim_starting
  start_reconstruction-IsIdle none m here h =
      subst (λ j. IsIdle (start_claimed cat os dirs (claim_starting j) m).1) (sym here) h
  start_reconstruction-IsIdle (some job) m here h =
      subst (λ j. IsIdle (start_claimed cat os dirs (claim_starting j) m).1) (sym here)
        (elim (Bool-cases (is_needing job.state)) [
          | inl needing ↦
              subst (λ b. IsIdle (start_claimed cat os dirs (if b then some claimed else none) m).1)
                (sym needing) (start_job-IsIdle cat os dirs claimed m)
          | inr refused ↦
              subst (λ b. IsIdle (start_claimed cat os dirs (if b then some claimed else none) m).1)
                (sym refused) h
        ])
    where
      claimed : Job
      claimed = in_state state_starting_reconstruction job

  read_reconstruction_disc-IsIdle :
      (id target : Text) (job : Option Job) (r : Option Reconstructor) (m : Manager W)
      → m.job ≡ job
      → m.reconstructor ≡ r
      → IsSettled job m.reconstruction_capacity r
      → IsIdle m
      → IsIdle (read_reconstruction_disc cat os dirs id target m).1
  unfolding read_reconstruction_disc claim_folding
  read_reconstruction_disc-IsIdle id target job r m here made before h =
      subst
        (λ j.
          IsIdle
            (fold_claimed cat os dirs m.reconstruction_capacity id target
              (claim_folding j m.reconstructor) m).1)
        (sym here)
        (subst
          (λ s.
            IsIdle
              (fold_claimed cat os dirs m.reconstruction_capacity id target (claim_folding job s)
                m).1)
          (sym made) (claim job r before made))
    where
      claim :
          (job : Option Job) (r : Option Reconstructor)
          → IsSettled job m.reconstruction_capacity r
          → m.reconstructor ≡ r
          → IsIdle
              (fold_claimed cat os dirs m.reconstruction_capacity id target
                (claim_folding job r)
                m).1
      claim none r before made = h
      claim (some job) none before made = h
      claim (some job) (some s) before made = elim (not_reconstructing job.state) [
        | inl going ↦
            subst
              (λ b.
                IsIdle
                  (fold_claimed cat os dirs capacity id target
                    (if b then some (claimed, s) else none) m).1)
              (sym (ap is_reconstructing going))
              (folded (subst (λ t. Settled t job.error job.disk_id capacity (some s)) going before))
        | inr refused ↦
            subst
              (λ b.
                IsIdle
                  (fold_claimed cat os dirs capacity id target
                    (if b then some (claimed, s) else none) m).1)
              (sym refused) h
      ]
        where
          claimed : Job
          claimed = in_state state_reading_reconstruction_disc job

          capacity : ℕ
          capacity = m.reconstruction_capacity

          folded :
              Serves job.disk_id capacity (some s)
              → IsIdle
                  (fold_job cat os dirs capacity id target claimed s
                    (record m { job = some claimed })).1
          folded serves =
              collected claimed
                (fold_job cat os dirs capacity id target claimed s
                  (record m { job = some claimed }))
                ((fold_job-Ends cat os dirs capacity id target claimed s serves).ends claimed
                  (record m { job = some claimed })
                  (state_reading_reconstruction_disc, job.error, refl)
                  (subst (Serves job.disk_id capacity) (sym made) serves, refl))
            where
              collected :
                  (job : Job) (after : Result (Unit {0}) × Manager W)
                  → Ended Good Bad job after.0 after.1.job
                    × Keeps job.disk_id capacity after.1.reconstructor
                        after.1.reconstruction_capacity
                  → IsIdle after.1
              collected job after (ended, (serves, same)) =
                  subst (λ c. IsSettled after.1.job c after.1.reconstructor) (sym same)
                    (settled job capacity after.1.reconstructor after.0 after.1.job
                      (Good-Settled job.disk_id capacity after.1.reconstructor serves)
                      (Bad-Settled job.disk_id capacity after.1.reconstructor serves) ended)

  pub perform : Call → Effect (Manager W) (Unit {0})
  perform (call_start file_id) = start cat os dirs file_id
  perform (call_read_disk target) = read_disk cat os dirs target
  perform call_start_reconstruction = start_reconstruction cat os dirs
  perform (call_read_reconstruction_disc id target) = read_reconstruction_disc cat os dirs id target
  perform call_abort = λ m. (ok tt, abort m)

  -- The manager after the calls, whatever they returned.
  unfoldable pub run_calls : List Call → Manager W → Manager W
  unfolding perform
  run_calls [] m = m
  run_calls (c ∷ calls) m = run_calls calls (perform c m).1

  perform-IsIdle : (c : Call) (m : Manager W) → IsIdle m → IsIdle (perform c m).1
  unfolding perform abort
  perform-IsIdle (call_start file_id) m h = start-IsIdle file_id m h
  perform-IsIdle (call_read_disk target) m h = read_disk-IsIdle m.job target m refl h
  perform-IsIdle call_start_reconstruction m h = start_reconstruction-IsIdle m.job m refl h
  perform-IsIdle (call_read_reconstruction_disc id target) m h =
      read_reconstruction_disc-IsIdle id target m.job m.reconstructor m refl refl h h
  perform-IsIdle call_abort m h = tt

  -- Whatever calls a new manager of retrievals gets, one after the other, and whatever the machine
  -- and the catalog answer, between the calls there is no job, or its state is `AWAITING_MEDIA`,
  -- without an error; or `DONE`; or `FAILED` or `NEEDS_RECONSTRUCTION`, with an error; or
  -- `RECONSTRUCTING`, and then the manager has a reconstructor for the job's own disc and for the
  -- manager's capacity, which does not ask for that disc.
  pub run_calls-IsIdle :
      (calls : List Call) (world : W) → IsIdle (run_calls calls (new_manager world))
  unfolding run_calls
  run_calls-IsIdle calls world = all calls (new_manager world) tt
    where
      all : (calls : List Call) (m : Manager W) → IsIdle m → IsIdle (run_calls calls m)
      all [] m h = h
      all (c ∷ calls) m h = all calls (perform c m).1 (perform-IsIdle c m h)
