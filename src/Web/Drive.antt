-- ===== src/Web/Drive.antt =====
-- The two managers behind the handlers of internal/web, and the jobs they work on.
use varis.Base.{
  ℕ, ◌≡◌, ◌⊎◌, inl, inr, refl, sym, ap, subst, ◌∙◌, true, false, Bool-cases, List, [], ◌∷◌, Option,
  none, some, if◌then◌else◌, Text, codes, Error, Result, ok, err, All,
}
use varis.Base.Effect.{Effect}
use varis.Db.{MediaType}
use varis.Os.{Os}
use varis.Burn.Cataloger.{Cataloger}
use varis.Burn.Job as BurnJob
use varis.Burn.Disc as BurnDisc
use varis.Burn.Manager as BurnManager
use varis.Retrieve.Catalog.{Catalog}
use varis.Retrieve.Job as RetrieveJob
use varis.Retrieve.Read as RetrieveRead
use varis.Retrieve.Manager as RetrieveManager
use varis.Web.Refused.{burn-claim_over, claim_reading_over, claim_starting_over, claim_folding_over}
use varis.Web.Server.{Server, Request, Response, drive_busy, is_bad_percent, atoi}
use varis.Web.Handlers.{
  start_burn, start_parsed, with_media_type, start_with, jobs_fragment, continue_disc, retry_disc,
  start_retrieve, retrieve_parsed, read_disk, start_reconstruction, read_reconstruction_disc,
  reconstruct_parsed, answer_jobs, answer_or_refuse,
}

pub data Visit : Type 0 where
  visit_start_burn visit_start_retrieve visit_read_disk visit_read_reconstruction_disc :
      Request → Visit
  visit_jobs visit_continue visit_retry visit_start_reconstruction : Visit

-- Not both jobs are in progress.
abbrev pub HasOneJob : {W : Type 0} → Server W → Type 0
HasOneJob s =
    (BurnJob.is_in_progress s.burn_job ≡ false)
    ⊎ (RetrieveJob.is_in_progress s.retrieve_job ≡ false)

module _ (cat : Cataloger) (os : Os cat.State) (burn_dirs : BurnDisc.Dirs)
    (catalog : Catalog cat.State) (retrieve_dirs : RetrieveRead.Dirs)
    (get_media_type : Text → Effect cat.State MediaType) where
  unfoldable pub handle : Visit → Server cat.State → Response × Server cat.State
  handle (visit_start_burn req) =
      start_burn cat os burn_dirs catalog retrieve_dirs get_media_type req
  handle (visit_start_retrieve req) =
      start_retrieve cat os burn_dirs catalog retrieve_dirs get_media_type req
  handle (visit_read_disk req) = read_disk cat os burn_dirs catalog retrieve_dirs get_media_type req
  handle (visit_read_reconstruction_disc req) =
      read_reconstruction_disc cat os burn_dirs catalog retrieve_dirs get_media_type req
  handle visit_jobs = jobs_fragment cat os burn_dirs catalog retrieve_dirs get_media_type
  handle visit_continue = continue_disc cat os burn_dirs catalog retrieve_dirs get_media_type
  handle visit_retry = retry_disc cat os burn_dirs catalog retrieve_dirs get_media_type
  handle visit_start_reconstruction =
      start_reconstruction cat os burn_dirs catalog retrieve_dirs get_media_type

  -- What a handler of one manager leaves of the other's job.
  answer_jobs-retrieve_job :
      (s : Server cat.State) (r : Result (Unit {0}) × BurnJob.Manager cat.State)
      → (answer_jobs cat os burn_dirs catalog retrieve_dirs get_media_type s r).1.retrieve_job
        ≡ s.retrieve_job
  answer_jobs-retrieve_job s (ok _, m) = refl
  answer_jobs-retrieve_job s (err e, m) = refl

  answer_or_refuse-burn_job :
      (status : Error → ℕ) (s : Server cat.State)
      (r : Result (Unit {0}) × RetrieveJob.Manager cat.State)
      → (answer_or_refuse cat os burn_dirs catalog retrieve_dirs get_media_type status s
          r).1.burn_job
        ≡ s.burn_job
  answer_or_refuse-burn_job status s (ok _, m) = refl
  answer_or_refuse-burn_job status s (err e, m) = refl

  continue_disc-HasOneJob :
      (s : Server cat.State) → HasOneJob s → HasOneJob (handle visit_continue s).1
  unfolding handle continue_disc BurnManager.continue_next_disc
  continue_disc-HasOneJob s (inl idle) = rw (burn-claim_over s.burn_job idle) (inl idle)
  continue_disc-HasOneJob s (inr idle) =
      inr (ap RetrieveJob.is_in_progress (answer_jobs-retrieve_job s _) ∙ idle)

  start_burn-HasOneJob :
      (req : Request) (s : Server cat.State)
      → HasOneJob s
      → HasOneJob (handle (visit_start_burn req) s).1
  unfolding handle start_burn
  start_burn-HasOneJob req s h =
      parsed req.parsed (Bool-cases (RetrieveJob.is_in_progress s.retrieve_job))
    where
      started :
          (s : Server cat.State) (percent : ℕ × Option Error) (mt : MediaType)
          → (start_with cat os burn_dirs catalog retrieve_dirs get_media_type req s percent
              mt).1.retrieve_job
            ≡ s.retrieve_job
      started s percent mt = elim (Bool-cases (is_bad_percent percent)) [
        | inl bad ↦ rw bad refl
        | inr good ↦ rw good (answer_jobs-retrieve_job s _)
      ]

      looked_up :
          (r : Result MediaType × cat.State)
          → (with_media_type cat os burn_dirs catalog retrieve_dirs get_media_type req s
              r).1.retrieve_job
            ≡ s.retrieve_job
      looked_up (err e, w) = refl
      looked_up (ok mt, w) =
          started (record s { world = w }) (atoi (req.value (codes "parity_percent"))) mt

      parsed :
          (p : Result (Unit {0}))
          → ((RetrieveJob.is_in_progress s.retrieve_job ≡ true)
              ⊎ (RetrieveJob.is_in_progress s.retrieve_job ≡ false))
          → HasOneJob (start_parsed cat os burn_dirs catalog retrieve_dirs get_media_type p req s).1
      parsed (err e) c = h
      parsed (ok _) (inl busy) = rw busy h
      parsed (ok _) (inr idle) =
          subst
            (λ b.
              HasOneJob
                (if b
                  then (drive_busy (RetrieveJob.state_text s.retrieve_job), s)
                  else with_media_type cat os burn_dirs catalog retrieve_dirs get_media_type req s
                      found).1)
            (sym idle) (inr (ap RetrieveJob.is_in_progress (looked_up found) ∙ idle))
        where
          found : Result MediaType × cat.State
          found = get_media_type (req.value (codes "media_type")) s.world

  start_retrieve-HasOneJob :
      (req : Request) (s : Server cat.State)
      → HasOneJob s
      → HasOneJob (handle (visit_start_retrieve req) s).1
  unfolding handle start_retrieve
  start_retrieve-HasOneJob req s h =
      parsed req.parsed (Bool-cases (BurnJob.is_in_progress s.burn_job))
    where
      parsed :
          (p : Result (Unit {0}))
          → ((BurnJob.is_in_progress s.burn_job ≡ true)
              ⊎ (BurnJob.is_in_progress s.burn_job ≡ false))
          → HasOneJob
              (retrieve_parsed cat os burn_dirs catalog retrieve_dirs get_media_type p req s).1
      parsed (err e) c = h
      parsed (ok _) (inl busy) = rw busy h
      parsed (ok _) (inr idle) =
          rw idle (inl (ap BurnJob.is_in_progress (answer_or_refuse-burn_job _ s _) ∙ idle))

  read_disk-HasOneJob :
      (req : Request) (s : Server cat.State)
      → HasOneJob s
      → HasOneJob (handle (visit_read_disk req) s).1
  unfolding handle read_disk RetrieveManager.read_disk
  read_disk-HasOneJob req s (inl idle) = inl idle
  read_disk-HasOneJob req s (inr idle) = rw (claim_reading_over s.retrieve_job idle) (inr idle)

  start_reconstruction-HasOneJob :
      (s : Server cat.State) → HasOneJob s → HasOneJob (handle visit_start_reconstruction s).1
  unfolding handle start_reconstruction RetrieveManager.start_reconstruction
  start_reconstruction-HasOneJob s (inl idle) =
      inl (ap BurnJob.is_in_progress (answer_or_refuse-burn_job _ s _) ∙ idle)
  start_reconstruction-HasOneJob s (inr idle) =
      rw (claim_starting_over s.retrieve_job idle) (inr idle)

  read_reconstruction_disc-HasOneJob :
      (req : Request) (s : Server cat.State)
      → HasOneJob s
      → HasOneJob (handle (visit_read_reconstruction_disc req) s).1
  unfolding handle read_reconstruction_disc RetrieveManager.read_reconstruction_disc
  read_reconstruction_disc-HasOneJob req s h = parsed req.parsed h
    where
      parsed :
          (p : Result (Unit {0}))
          → HasOneJob s
          → HasOneJob
              (reconstruct_parsed cat os burn_dirs catalog retrieve_dirs get_media_type p req s).1
      parsed (err e) h = h
      parsed (ok _) (inl idle) = inl idle
      parsed (ok _) (inr idle) =
          rw (claim_folding_over s.retrieve_job s.reconstructor idle) (inr idle)

  -- The server after the requests, whatever they were answered.
  unfoldable pub after_visits : List Visit → Server cat.State → Server cat.State
  unfolding handle
  after_visits [] s = s
  after_visits (v ∷ visits) s = after_visits visits (handle v s).1

  abbrev pub new_server : cat.State → Server cat.State
  new_server world = record {
    burn_job = none;
    retrieve_job = none;
    reconstructor = none;
    reconstruction_capacity = 0;
    world = world;
  }

  -- Any request but the one to retry a failed burn.
  abbrev pub IsNoRetry : Visit → Type 0
  IsNoRetry visit_retry = ⊥
  IsNoRetry (visit_start_burn req) = Unit
  IsNoRetry (visit_start_retrieve req) = Unit
  IsNoRetry (visit_read_disk req) = Unit
  IsNoRetry (visit_read_reconstruction_disc req) = Unit
  IsNoRetry visit_jobs = Unit
  IsNoRetry visit_continue = Unit
  IsNoRetry visit_start_reconstruction = Unit

  pub handle-HasOneJob :
      (v : Visit) (s : Server cat.State) → IsNoRetry v → HasOneJob s → HasOneJob (handle v s).1
  unfolding handle jobs_fragment
  handle-HasOneJob (visit_start_burn req) s n h = start_burn-HasOneJob req s h
  handle-HasOneJob (visit_start_retrieve req) s n h = start_retrieve-HasOneJob req s h
  handle-HasOneJob (visit_read_disk req) s n h = read_disk-HasOneJob req s h
  handle-HasOneJob (visit_read_reconstruction_disc req) s n h =
      read_reconstruction_disc-HasOneJob req s h
  handle-HasOneJob visit_jobs s n h = h
  handle-HasOneJob visit_continue s n h = continue_disc-HasOneJob s h
  handle-HasOneJob visit_retry s n h = absurd n
  handle-HasOneJob visit_start_reconstruction s n h = start_reconstruction-HasOneJob s h

  -- Start with a new server and let any requests follow, one after the other, but none to retry
  -- a failed burn: then never are a burning and a retrieval in progress at the same time.
  pub after_visits-HasOneJob :
      (visits : List Visit) (world : cat.State)
      → All IsNoRetry visits
      → HasOneJob (after_visits visits (new_server world))
  unfolding after_visits
  after_visits-HasOneJob visits world = all visits (new_server world) (inl refl)
    where
      all :
          (visits : List Visit) (s : Server cat.State)
          → HasOneJob s
          → All IsNoRetry visits
          → HasOneJob (after_visits visits s)
      all [] s h n = h
      all (v ∷ visits) s h n = all visits (handle v s).1 (handle-HasOneJob v s n.0 h) n.1

  -- Wherever a burning has failed and a retrieval is in progress, a request to retry the disc puts
  -- both in progress.
  pub retry_disc_two_jobs :
      (s : Server cat.State) (job : BurnJob.Job)
      → s.burn_job ≡ some job
      → job.state ≡ BurnJob.State.state_failed
      → RetrieveJob.is_in_progress s.retrieve_job ≡ true
      → let after = (handle visit_retry s).1 in
        (BurnJob.is_in_progress after.burn_job ≡ true)
        × (RetrieveJob.is_in_progress after.retrieve_job ≡ true)
  unfolding handle retry_disc BurnManager.retry BurnJob.retry_job
  retry_disc_two_jobs s job here failed busy = rw (here, ap BurnJob.is_failed failed) (refl, busy)
