-- ===== src/Web/Fitting.antt =====
-- Which media types the page of internal/web/config.go lets in.
use varis.Base.{
  ℕ, ◌<◌, ◌≡◌, inl, inr, refl, ap, Bool, true, false, Bool-cases, [], ◌∷◌, ◌++◌, Option, none, some,
  arith, if◌then◌else◌, Text, codes, contains, Error, Result, ok, err, All, All-append, int64_limit,
}
use varis.Base.Effect.{lift}
use varis.Os.{Os}
use varis.Db.{Catalog, Postgres, MediaType, WriteKind, counted, unique_violation}
use varis.Db.MediaTypes.{add_media_type}
use varis.Db.Disks.{media_names}
use varis.Web.Server.{Request, atoi}
use varis.Web.Answer.{
  Attempt, goes, stops, Handler, answer, refuse, go_on, attempted, or_status, on_catalog, behind,
  ◌>>◌,
}
use varis.Web.Pages.{
  add_media_type_page, is_bad_capacity, write_kind_of, with_write_kind, matches_id_prefix,
  check_capacity, check_id_prefix, media_type_of, add_row, add_checked,
}

-- A capacity above 0, as a signed number, and a prefix that is safe in ids and in file names.
abbrev pub IsFit : MediaType → Type 0
IsFit mt =
    (0 < mt.capacity_bytes)
    × (mt.capacity_bytes < int64_limit)
    × (matches_id_prefix mt.id_prefix ≡ true)

in_range :
    (capacity : ℕ × Option Error)
    → is_bad_capacity capacity ≡ false
    → (0 < capacity.0) × (capacity.0 < int64_limit)
in_range (capacity, some e) h = absurd (cc h)
in_range (capacity, none) h = (ground arith, ground arith)

module _ {M : Type 0} where
  abbrev HasFit : {A : Type 0} → A × (M × Catalog) → Type 0
  HasFit r = All IsFit r.1.1.media_types

  -- A step behind which all rows are fit if they were before.
  record Fits {A : Type 0} (step : Handler (M × Catalog) A) : Type 0 where
    fits : (s : M × Catalog) → All IsFit s.1.media_types → HasFit (step s)

  bind-Fits :
      {A B : Type 0} (step : Handler (M × Catalog) A) (next : A → Handler (M × Catalog) B)
      → Fits step
      → ((a : A) (s : M × Catalog) → (step s).0 ≡ goes a → Fits (next a))
      → Fits (λ s. go_on next (step s))
  bind-Fits {A} {B} step next first second = record {
    fits = λ s h. after s (step s) refl (first.fits s h);
  }
    where
      after :
          (s : M × Catalog) (r : Attempt A × (M × Catalog))
          → step s ≡ r
          → HasFit r
          → HasFit (go_on next r)
      after s (goes a, t) same h = (second a s (ap (λ x. x.0) same)).fits t h
      after s (stops status e, t) same h = h

  attempted-HasFit :
      {A : Type 0} (status : ℕ) (r : Result A × (M × Catalog))
      → HasFit r
      → HasFit (attempted status r)
  attempted-HasFit status (ok a, s) h = h
  attempted-HasFit status (err e, s) h = h

  add_media_type-HasFit :
      (pg : Postgres) (mt : MediaType) (w : M) (db : Catalog)
      → IsFit mt
      → All IsFit db.media_types
      → HasFit (on_catalog {M = M} (add_media_type pg mt) (w, db))
  unfolding add_media_type
  add_media_type-HasFit pg mt w db fit h = answered (pg.outage db.statements)
    where
      run : Catalog → Result (Unit {0}) × Catalog
      run db =
          if contains mt.name (media_names db.media_types)
          then (err unique_violation, db)
          else (ok tt, record db { media_types = db.media_types ++ mt ∷ [] })

      answered :
          (o : Option Error)
          → HasFit (
              behind w (elim o as (λ _. Result (Unit {0}) × Catalog) [
                | some e ↦ (err e, counted db)
                | none ↦ run (counted db)
              ]))
      answered (some e) = h
      answered none = elim (Bool-cases (contains mt.name (media_names db.media_types))) [
        | inl taken ↦ rw taken h
        | inr free ↦ rw free (All-append IsFit db.media_types (mt ∷ []) h (fit, tt))
      ]

  lifted-Fits :
      {A : Type 0} (status : ℕ) (r : Result A) → Fits (or_status {S = M × Catalog} status (lift r))
  lifted-Fits status r = record { fits = λ s h. attempted-HasFit status (r, s) h }

  guard-Fits : (b : Bool) (text : Text) → Fits (if b then refuse 400 text else answer tt)
  guard-Fits true text = record { fits = λ s h. h }
  guard-Fits false text = record { fits = λ s h. h }

  demand-Fits : (b : Bool) (text : Text) → Fits (if b then answer tt else refuse 400 text)
  demand-Fits true text = record { fits = λ s h. h }
  demand-Fits false text = record { fits = λ s h. h }

  -- What is known where a check has let the request through.
  guarded :
      (b : Bool) (text : Text) (a : Unit {0}) (s : M × Catalog)
      → ((if b then refuse {S = M × Catalog} {A = Unit {0}} 400 text else answer tt) s).0 ≡ goes a
      → b ≡ false
  guarded true text a s h = absurd (cc h)
  guarded false text a s h = refl

  demanded :
      (b : Bool) (text : Text) (a : Unit {0}) (s : M × Catalog)
      → ((if b then answer tt else refuse {S = M × Catalog} {A = Unit {0}} 400 text) s).0 ≡ goes a
      → b ≡ true
  demanded true text a s h = refl
  demanded false text a s h = absurd (cc h)

  module _ (os : Os M) (pg : Postgres) (staging_dir dry_run_dir : Text) where
    abbrev row : Request → WriteKind → MediaType
    row = media_type_of os pg staging_dir dry_run_dir

    abbrev adds : Request → WriteKind → Handler (M × Catalog) Text
    adds = add_row os pg staging_dir dry_run_dir

    abbrev checked : Request → Handler (M × Catalog) Text
    checked = add_checked os pg staging_dir dry_run_dir

    abbrev large_enough : Request → Handler (M × Catalog) (Unit {0})
    large_enough = check_capacity os pg staging_dir dry_run_dir

    abbrev safe_prefix : Request → Handler (M × Catalog) (Unit {0})
    safe_prefix = check_id_prefix os pg staging_dir dry_run_dir

    abbrev capacity : Request → ℕ × Option Error
    capacity req = atoi (req.value (codes "capacity_bytes"))

    abbrev bad : Request → Bool
    bad req = is_bad_capacity (capacity req)

    abbrev good : Request → Bool
    good req = matches_id_prefix (req.value (codes "id_prefix"))

    abbrev written : Request → Option WriteKind
    written req = write_kind_of (req.value (codes "write_kind"))

    abbrev kind_of : Request → Handler (M × Catalog) WriteKind
    kind_of req = with_write_kind os pg staging_dir dry_run_dir (written req)

    write_kind-Fits :
        (kind : Option WriteKind) → Fits (with_write_kind os pg staging_dir dry_run_dir kind)
    write_kind-Fits none = record { fits = λ s h. h }
    write_kind-Fits (some kind) = record { fits = λ s h. h }

    added-Fits :
        (mt : MediaType) → IsFit mt → Fits (or_status 500 (on_catalog (add_media_type pg mt)))
    added-Fits mt fit = record {
      fits = λ (w, db) h. attempted-HasFit 500 _ (add_media_type-HasFit pg mt w db fit h);
    }

    row-Fits : (req : Request) (kind : WriteKind) → IsFit (row req kind) → Fits (adds req kind)
    row-Fits req kind fit =
        bind-Fits (or_status 500 (on_catalog (add_media_type pg (row req kind))))
          (λ _. answer (codes "/config")) (added-Fits (row req kind) fit)
          λ _ _ _. record { fits = λ s h. h }

    page-Fits : (req : Request) → Fits (add_media_type_page os pg staging_dir dry_run_dir req)
    unfolding add_media_type_page
    page-Fits req =
        bind-Fits (or_status 400 (lift req.parsed)) (λ _. large_enough req >> checked req)
          (lifted-Fits 400 req.parsed)
          λ _ _ _.
            bind-Fits (large_enough req) (λ _. checked req) (guard-Fits (bad req) _)
              λ a s large.
                bind-Fits (kind_of req) (λ kind. safe_prefix req >> adds req kind)
                  (write_kind-Fits (written req))
                  λ kind _ _.
                    bind-Fits (safe_prefix req) (λ _. adds req kind) (demand-Fits (good req) _)
                      λ b t safe. row-Fits req kind (
                        let (low, high) = in_range (capacity req) (guarded (bad req) _ a s large) in
                        (low, high, demanded (good req) _ b t safe))

    -- Whatever a request to add a media type holds, and however the server answers: if every row
    -- of the catalog's media types had a capacity between 1 and 2 ^ 63 - 1 and an id prefix of
    -- letters and digits, at least one, then so has every row afterwards.
    pub add_media_type_page-IsFit :
        (req : Request) (w : M) (db : Catalog)
        → All IsFit db.media_types
        → All IsFit (add_media_type_page os pg staging_dir dry_run_dir req (w, db)).1.1.media_types
    add_media_type_page-IsFit req w db h = (page-Fits req).fits (w, db) h
