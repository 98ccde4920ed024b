-- ===== src/Retrieve/Manager/Recover.antt =====
-- A reconstruction by internal/retrieve/retrieve.go from its start to the image of the lost disc.
use varis.Base.{
  ℕ, ◌≡◌, ◌≢◌, refl, sym, ap, subst, ◌∙◌, true, false, List, [], ◌∷◌, ◌++◌, Option, none, some,
  Text, contains, Result, ok,
}
use varis.Base.Effect.{Effect, proceed, for_each}
use varis.Base.Effect as Effects
use varis.Xordisk.{Bytes}
use varis.Xordisk.Recovery.{pad}
use varis.Os.{Os}
use varis.Db.{Disk}
use varis.Burn.Reconstruct.{Reconstructor, remaining}
use varis.Burn.Reconstruct.Supplies.{without, Agrees-nil}
use varis.Burn.Reconstruct.Rebuild.{readable, survivors}
use varis.Retrieve.Catalog.{Catalog}
use varis.Retrieve.Job.{
  Job, Manager, in_state, reconstructing, claim_folding, state_needs_reconstruction,
  state_reading_reconstruction_disc,
}
use varis.Retrieve.Step.{update_job, or_else, quietly, ◌>>=◌, ◌>>◌}
use varis.Retrieve.Read.{Dirs}
use varis.Retrieve.Fetch.{fold_reconstruction_image, read_image, image_path}
use varis.Retrieve.Manager.{
  start_reconstruction, read_reconstruction_disc, fold_job, fold_step, read_folded,
}
use varis.Retrieve.Manager.Collect.{
  Collecting, Advanced, Folded, more_needed, all_read, fold_reconstruction_image-Advanced,
}
use varis.Retrieve.Manager.Begin.{
  Answers, fresh_one, fresh_one-remaining, start_reconstruction-begun,
}

-- What is needed once these discs have been read.
abbrev pub without_all : List (Text × Text) → List Text → List Text
without_all [] needed = needed
without_all ((id, target) ∷ reads) needed = without_all reads (without id needed)

without_all-nil : (reads : List (Text × Text)) → without_all reads [] ≡ []
unfolding without
without_all-nil [] = refl
without_all-nil ((id, target) ∷ reads) = without_all-nil reads

module _ {W : Type 0} (cat : Catalog W) (os : Os W) (dirs : Dirs) (pre post : List Disk)
    (lost parity : Disk) (burned : Text → Bytes) (size : ℕ) where
  abbrev others : List Text
  others = survivors pre post lost parity burned size [] ++ parity.id ∷ []

  abbrev IsCollecting : Reconstructor → Type 0
  IsCollecting r = Collecting pre post lost parity burned size r

  -- The manager between the calls.
  abbrev pub between : Job → Reconstructor → W → Manager W
  between job r w = record {
    job = some (reconstructing job);
    reconstructor = some r;
    reconstruction_capacity = size;
    world = w;
  }

  -- The manager that has folded in a disc.
  abbrev pub behind_fold : Job → Reconstructor → W → Manager W
  behind_fold job r w = record (between job r w) {
    job = some (in_state state_reading_reconstruction_disc (reconstructing job));
  }

  -- One read: the disc is another one of the group, and gives what it was burned with, up to
  -- padding.
  abbrev pub Gives : Text → Text → W → W → Type 0
  Gives id target w v =
      (contains id others ≡ true)
      × ((image : Bytes) × (u : W) × (read_image cat os dirs size id target w ≡ (ok image, u))
          × (pad size image ≡ pad size (readable pre post lost parity burned size [] id))
          × (v ≡ (os.remove (image_path cat os dirs id) u).1))

  -- The reads, one after the other.
  abbrev pub GiveAll : List (Text × Text) → W → W → Type 0
  GiveAll [] w v = v ≡ w
  GiveAll ((id, target) ∷ reads) w v = (u : W) × Gives id target w u × GiveAll reads u v

  read_disc-folded :
      (job : Job) (r s : Reconstructor) (id target : Text) (image : Bytes) (yielded : Option Bytes)
      (w u : W)
      → read_image cat os dirs size id target w ≡ (ok image, u)
      → fold_reconstruction_image r id image ≡ (ok yielded, s)
      → read_reconstruction_disc cat os dirs id target (between job r w)
        ≡ read_folded cat os dirs
            (in_state state_reading_reconstruction_disc (reconstructing job))
            yielded
            (behind_fold job s (os.remove (image_path cat os dirs id) u).1)
  unfolding read_reconstruction_disc claim_folding fold_job or_else quietly ◌>>=◌ ◌>>◌ fold_step
  read_disc-folded job r s id target image yielded w u given folds = rw (given, folds) refl

  -- What a call does: it goes on to the next disc, or to the lost disc's image.
  abbrev Goes : Job → Reconstructor → Text → Text → W → W → Reconstructor → Type 0
  Goes job r id target w v s =
      IsCollecting s
      × (remaining s ≡ without id (remaining r))
      × (without id (remaining r) ≢ []
          → read_reconstruction_disc cat os dirs id target (between job r w)
            ≡ (ok tt, between job s v))
      × (without id (remaining r) ≡ []
          → read_reconstruction_disc cat os dirs id target (between job r w)
            ≡ read_folded cat os dirs
                (in_state state_reading_reconstruction_disc (reconstructing job))
                (some (pad size (burned lost.id))) (behind_fold job s v))

  one_read :
      (job : Job) (r : Reconstructor) (id target : Text) (w v : W)
      → contains parity.id (survivors pre post lost parity burned size []) ≡ false
      → IsCollecting r
      → Gives id target w v
      → (s : Reconstructor) × Goes job r id target w v s
  unfolding update_job
  one_read job r id target w v once c (other, (image, u, given, same, removed)) =
      (folded.1, (a.0, a.1, on_no_image a.2 a.3 a.4, on_image a.2 a.3 a.4))
    where
      folded : Result (Option Bytes) × Reconstructor
      folded = fold_reconstruction_image r id image

      a : Advanced pre post lost parity burned size (without id (remaining r)) folded
      a =
          fold_reconstruction_image-Advanced pre post lost parity burned size r id image once c
            (subst (λ xs. contains id xs ≡ true) (sym c.asks) other) same

      calls :
          (yielded : Option Bytes)
          → folded.0 ≡ ok yielded
          → read_reconstruction_disc cat os dirs id target (between job r w)
            ≡ read_folded cat os dirs
                (in_state state_reading_reconstruction_disc (reconstructing job))
                yielded
                (behind_fold job folded.1 v)
      calls yielded e =
          read_disc-folded job r folded.1 id target image yielded w u given
            (ap (λ x. (x, folded.1)) e)
          ∙ ap
              (λ x.
                read_folded cat os dirs
                  (in_state state_reading_reconstruction_disc (reconstructing job)) yielded
                  (behind_fold job folded.1 x))
              (sym removed)

      on_no_image :
          (yielded : Option Bytes)
          → folded.0 ≡ ok yielded
          → Folded size (burned lost.id) (without id (remaining r)) yielded
          → without id (remaining r) ≢ []
          → read_reconstruction_disc cat os dirs id target (between job r w)
            ≡ (ok tt, between job folded.1 v)
      on_no_image none e (more_needed n) left = calls none e
      on_no_image (some x) e (all_read n) left = absurd (left n)

      on_image :
          (yielded : Option Bytes)
          → folded.0 ≡ ok yielded
          → Folded size (burned lost.id) (without id (remaining r)) yielded
          → without id (remaining r) ≡ []
          → read_reconstruction_disc cat os dirs id target (between job r w)
            ≡ read_folded cat os dirs
                (in_state state_reading_reconstruction_disc (reconstructing job))
                (some (pad size (burned lost.id)))
                (behind_fold job folded.1 v)
      on_image none e (more_needed n) empty = absurd (n empty)
      on_image (some _) e (all_read n) empty = calls (some (pad size (burned lost.id))) e

  -- Some discs are read, but not all that are needed.
  reads-collect :
      (reads : List (Text × Text)) (job : Job) (r : Reconstructor) (w v : W)
      → contains parity.id (survivors pre post lost parity burned size []) ≡ false
      → IsCollecting r
      → GiveAll reads w v
      → without_all reads (remaining r) ≢ []
      → (s : Reconstructor) × ((for_each
              (λ read. read_reconstruction_disc cat os dirs read.0 read.1)
              reads
              (between job r w)
            ≡ (ok tt, between job s v))
          × IsCollecting s
          × (remaining s ≡ without_all reads (remaining r)))
  unfolding for_each
  reads-collect [] job r w v once c here left =
      (r, (ap (λ x. (ok tt, between job r x)) (sym here), c, refl))
  reads-collect ((id, target) ∷ reads) job r w v once c (u, gives, given) left =
      next (one_read job r id target w u once c gives)
        (λ s collecting later. reads-collect reads job s u v once collecting given later)
    where
      some_left : without id (remaining r) ≢ []
      some_left none_left = left (ap (without_all reads) none_left ∙ without_all-nil reads)

      next :
          ((s : Reconstructor) × Goes job r id target w u s)
          → ((s : Reconstructor)
              → IsCollecting s
              → without_all reads (remaining s) ≢ []
              → (t : Reconstructor) × ((for_each
                      (λ read. read_reconstruction_disc cat os dirs read.0 read.1)
                      reads
                      (between job s u)
                    ≡ (ok tt, between job t v))
                  × IsCollecting t
                  × (remaining t ≡ without_all reads (remaining s))))
          → (s : Reconstructor) × ((for_each
                  (λ read. read_reconstruction_disc cat os dirs read.0 read.1)
                  ((id, target) ∷ reads)
                  (between job r w)
                ≡ (ok tt, between job s v))
              × IsCollecting s
              × (remaining s ≡ without_all reads (without id (remaining r))))
      next (s, (collecting, needs, goes_on, ends)) others_read =
          let (t, (runs, later, needed)) =
            others_read s collecting (λ e. left (ap (without_all reads) (sym needs) ∙ e)) in
          (
            t,
            (
              ap
                    (proceed (λ _.
                      for_each (λ read. read_reconstruction_disc cat os dirs read.0 read.1) reads))
                    (goes_on some_left)
                  ∙ runs,
              later,
              needed ∙ ap (without_all reads) needs,
            ),
          )

  -- `StartReconstruction`, and then the reads.
  abbrev pub reconstruct_by : List (Text × Text) → Text → Text → Effect (Manager W) (Unit {0})
  reconstruct_by reads id target = Effects.◌>>◌ (start_reconstruction cat os dirs) (
      Effects.◌>>◌ (for_each (λ read. read_reconstruction_disc cat os dirs read.0 read.1) reads)
        (read_reconstruction_disc cat os dirs id target))

  -- Let a job need the reconstruction of a data disc, and let the catalog answer with the disc's
  -- group, complete and in the order of the slots, in which the disc's id and the parity disc's occur
  -- once, and with the capacity. Let users then read other discs of the group, in any order and as
  -- often as they like, each giving what it was burned with, up to zeros at the end, until with the
  -- last read none is needed any more. Then all calls but the last return no error, and the last
  -- writes the lost disc's image, filled up or cut off to the capacity, and goes on to read the file
  -- from it.
  pub reconstruct_by-recovers :
      (m : Manager W) (job : Job) (reads : List (Text × Text)) (id target : Text) (v u t : W)
      → m.job ≡ some job
      → job.state ≡ state_needs_reconstruction
      → job.disk_id ≡ lost.id
      → Answers cat os dirs pre post lost parity burned size m.world v
      → contains lost.id others ≡ false
      → contains parity.id (survivors pre post lost parity burned size []) ≡ false
      → GiveAll reads v u
      → Gives id target u t
      → without_all reads others ≢ []
      → without id (without_all reads others) ≡ []
      → (s : Reconstructor) × (reconstruct_by reads id target m
          ≡ read_folded cat os dirs
              (in_state state_reading_reconstruction_disc (reconstructing job))
              (some (pad size (burned lost.id)))
              (behind_fold job s t))
  reconstruct_by-recovers m job reads id target v u t here needing same a fresh once given gives
        left done =
      next (
        reads-collect reads job begun v u once begun-Collecting given
          (λ e. left (ap (without_all reads) (sym begun-remaining) ∙ e)))
    where
      begun : Reconstructor
      begun = fresh_one cat os dirs pre post lost parity burned size

      begun-Collecting : IsCollecting begun
      begun-Collecting = record { asks = refl; fits = refl; agrees = Agrees-nil size _ }

      begun-remaining : remaining begun ≡ others
      begun-remaining = fresh_one-remaining cat os dirs pre post lost parity burned size

      next :
          ((s : Reconstructor) × ((for_each
                  (λ read. read_reconstruction_disc cat os dirs read.0 read.1)
                  reads
                  (between job begun v)
                ≡ (ok tt, between job s u))
              × IsCollecting s
              × (remaining s ≡ without_all reads (remaining begun))))
          → (s : Reconstructor) × (reconstruct_by reads id target m
              ≡ read_folded cat os dirs
                  (in_state state_reading_reconstruction_disc (reconstructing job))
                  (some (pad size (burned lost.id)))
                  (behind_fold job s t))
      next (r, (runs, collecting, needed)) =
          let (s, (later, needs, goes_on, ends)) =
            one_read job r id target u t once collecting gives in
          (
            s,
            ap
                  (proceed (λ _ x.
                    proceed (λ _. read_reconstruction_disc cat os dirs id target)
                      (for_each (λ read. read_reconstruction_disc cat os dirs read.0 read.1) reads
                        x)))
                  (start_reconstruction-begun cat os dirs pre post lost parity burned size m job v
                    here needing same a fresh)
                ∙ ap (proceed (λ _. read_reconstruction_disc cat os dirs id target)) runs
                ∙ ends (ap (without id) (needed ∙ ap (without_all reads) begun-remaining) ∙ done),
          )
