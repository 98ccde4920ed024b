-- ===== src/Burn/Disc/Entered.antt =====
-- The log of a commit that succeeds.
use varis.Base.{
  ◌≡◌, ap, Bool, true, false, List, [], ◌∷◌, Option, arith, Text, Error, Result, ok, err,
}
use varis.Binpack.{FileInfo}
use varis.Db.{FileRecord}
use varis.Os.{Os}
use varis.Burn.Cataloger.{Cataloger}
use varis.Burn.Disc.{Dirs, file_row}
use varis.Burn.Disc.Archive.{Event, row_taken, removed, observed_cataloger, observed_os}

abbrev is_ok {ℓ} : {A : Type ℓ} → Result A → Bool
is_ok (ok _) = true
is_ok (err _) = false

pub failure {ℓ} : {A : Type ℓ} {a : A} (e : Error) → err e ≡ ok a → ⊥
failure {A = A} {a = a} e h = contradiction (ap is_ok h)
  where
    contradiction : false ≡ true → ⊥
    contradiction e = ground arith

module _ (cat : Cataloger) (os : Os cat.State) (dirs : Dirs) where
  abbrev Log : Type 0
  Log = cat.State × List Event

  abbrev cataloger : Cataloger
  cataloger = observed_cataloger cat os dirs

  abbrev machine : Os Log
  machine = observed_os cat os dirs

  abbrev pub row_of : Text → FileInfo → Text → Option (List Text) × Text → FileRecord
  row_of id f content metadata =
      file_row cataloger machine dirs id f (os.sha256_hex content) metadata

  -- What a read of the file gave.
  abbrev pub IsContent : FileInfo → Text → Type 0
  IsContent f content =
      (world : cat.State) × ((os.read_file (os.join dirs.staging_dir f.path) world).0 ≡ ok content)

  -- From the log `before` to the log `after`, each file in order has had its row taken, with
  -- the path, the size and the hash of what a read gave, and then its path removed, and nothing else.
  abbrev pub Entered : Text → List FileInfo → List Event → List Event → Type 0
  Entered id [] before after = after ≡ before
  Entered id (f ∷ files) before after =
      (content : Text) × (metadata : Option (List Text) × Text) × IsContent f content
      × Entered id files
          (removed (os.join dirs.staging_dir f.path)
            ∷ row_taken (row_of id f content metadata)
            ∷ before)
          after

  abbrev OneEntered : Text → FileInfo → List Event → List Event → Type 0
  OneEntered id f before after =
      (content : Text) × (metadata : Option (List Text) × Text) × IsContent f content
      × (after
          ≡ removed (os.join dirs.staging_dir f.path)
            ∷ row_taken (row_of id f content metadata)
            ∷ before)
