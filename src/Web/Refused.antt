-- ===== src/Web/Refused.antt =====
-- A job that is over: no step of internal/burn/pipeline.go or internal/retrieve/retrieve.go claims it.
use varis.Base.{◌≡◌, refl, false, not, Option, none, some}
use varis.Burn.Job as BurnJob
use varis.Burn.Reconstruct.{Reconstructor}
use varis.Retrieve.Job as RetrieveJob

pub burn-claim_over :
    (job : Option BurnJob.Job) → BurnJob.is_in_progress job ≡ false → BurnJob.claim job ≡ none
unfolding BurnJob.claim
burn-claim_over none h = refl
burn-claim_over (some job) h = rw (not_awaiting job.state h) refl
  where
    not_awaiting :
        (s : BurnJob.State) → not (BurnJob.is_over s) ≡ false → BurnJob.is_awaiting_disc s ≡ false
    not_awaiting BurnJob.State.state_awaiting_disc h = cc h
    not_awaiting BurnJob.State.state_packing h = refl
    not_awaiting BurnJob.State.state_parity h = refl
    not_awaiting BurnJob.State.state_iso h = refl
    not_awaiting BurnJob.State.state_burning h = refl
    not_awaiting BurnJob.State.state_verifying h = refl
    not_awaiting BurnJob.State.state_done h = refl
    not_awaiting BurnJob.State.state_failed h = refl

-- A job that is over is claimed by no step of a retrieval.
over_states :
    (s : RetrieveJob.State)
    → not (RetrieveJob.is_over s) ≡ false
    → (RetrieveJob.is_awaiting_media s ≡ false)
      × (RetrieveJob.is_needing s ≡ false)
      × (RetrieveJob.is_reconstructing s ≡ false)
over_states RetrieveJob.State.state_awaiting_media h = absurd (cc h)
over_states RetrieveJob.State.state_reading_disc h = (refl, refl, refl)
over_states RetrieveJob.State.state_done h = (refl, refl, refl)
over_states RetrieveJob.State.state_failed h = (refl, refl, refl)
over_states RetrieveJob.State.state_needs_reconstruction h = absurd (cc h)
over_states RetrieveJob.State.state_starting_reconstruction h = (refl, refl, refl)
over_states RetrieveJob.State.state_reconstructing h = absurd (cc h)
over_states RetrieveJob.State.state_reading_reconstruction_disc h = (refl, refl, refl)

pub claim_reading_over :
    (job : Option RetrieveJob.Job)
    → RetrieveJob.is_in_progress job ≡ false
    → RetrieveJob.claim_reading job ≡ none
unfolding RetrieveJob.claim_reading
claim_reading_over none h = refl
claim_reading_over (some job) h = rw (over_states job.state h).0 refl

pub claim_starting_over :
    (job : Option RetrieveJob.Job)
    → RetrieveJob.is_in_progress job ≡ false
    → RetrieveJob.claim_starting job ≡ none
unfolding RetrieveJob.claim_starting
claim_starting_over none h = refl
claim_starting_over (some job) h = rw (over_states job.state h).1 refl

pub claim_folding_over :
    (job : Option RetrieveJob.Job) (r : Option Reconstructor)
    → RetrieveJob.is_in_progress job ≡ false
    → RetrieveJob.claim_folding job r ≡ none
unfolding RetrieveJob.claim_folding
claim_folding_over none r h = refl
claim_folding_over (some job) none h = refl
claim_folding_over (some job) (some r) h = rw (over_states job.state h).2 refl
