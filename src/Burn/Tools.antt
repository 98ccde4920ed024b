-- ===== src/Burn/Tools.antt =====
-- The wrappers of internal/burn around programs and files: parity.go, iso.go, write.go, verify.go,
-- `WriteTar` of pack.go, and the helpers at the end of pipeline.go.
use varis.Base.{
  ℕ, Bool, true, false, List, [], ◌∷◌, ◌++◌, if◌then◌else◌, Text, codes, text_eq, message, Result,
  ok, err, mul64, neg64, is_negative64,
}
use varis.Base.Effect.{Effect, pure, throw, lift, ◌>>=◌, ◌>>◌, with_context, for_each}
use varis.Binpack.{FileInfo, Bucket}
use varis.Db.Ids.{decimal}
use varis.Os.{Os}

-- `%d` of an `int`.
unfoldable pub decimal_int : ℕ → Text
unfolding decimal
decimal_int n = if is_negative64 n then b'-' ∷ decimal (neg64 n) else decimal n

-- A step whose error is not returned: whether it went well.
unfoldable pub attempt : {S A : Type 0} → Effect S A → Effect S Bool
attempt {S} {A} step s = outcome (step s)
  where
    outcome : Result A × S → Result Bool × S
    outcome (ok _, s) = (ok true, s)
    outcome (err _, s) = (ok false, s)

module _ {W : Type 0} (os : Os W) where
  unfoldable pub create_parity : Text → ℕ → Effect W (Unit {0})
  unfolding decimal_int
  create_parity data_path parity_percent = do
    _ ← os.run (codes "par2create") ((codes "-r" ++ decimal_int parity_percent) ∷ data_path ∷ [])
    pure tt

  unfoldable pub verify_parity : Text → Effect W (Unit {0})
  verify_parity data_path = do
    _ ← os.run (codes "par2verify") ((data_path ++ codes ".par2") ∷ [])
    pure tt

  unfoldable pub build_iso : Text → Text → Effect W (Unit {0})
  build_iso source_dir iso_path = do
    _ ← os.run (codes "xorriso") (
        codes "-as"
        ∷ codes "mkisofs"
        ∷ codes "-o"
        ∷ iso_path
        ∷ codes "-r"
        ∷ codes "-J"
        ∷ source_dir
        ∷ [])
    pure tt

  unfoldable pub burn_iso : Text → Text → Effect W (Unit {0})
  burn_iso device iso_path = do
    _ ← os.run (codes "wodim") ((codes "dev=" ++ device) ∷ iso_path ∷ [])
    pure tt

  unfoldable pub hash_file : Text → Effect W Text
  hash_file path = do content ← os.read_file path; pure (os.sha256_hex content)

  unfoldable pub verify_burn : Text → Text → Text → Effect W (Unit {0})
  unfolding hash_file verify_parity
  verify_burn device iso_hash data_path_on_disc = do
    read_back ← with_context (codes "reading back device") (hash_file device)
    (if text_eq read_back iso_hash
        then verify_parity data_path_on_disc
        else throw (
            message (codes "burned disc hash %s does not match ISO hash %s")
              (read_back ∷ iso_hash ∷ [])))

  unfoldable pub add_file_to_tar : Text → Text → FileInfo → Effect W (Unit {0})
  add_file_to_tar archive root f = do
    info ← os.stat (os.join root f.path)
    header ← lift (os.file_info_header info)
    os.write_header archive header f.path
    os.open_file (os.join root f.path)
    os.copy archive (os.join root f.path)

  unfoldable pub write_tar : Text → Bucket → Text → Bool → Effect W (Unit {0})
  unfolding for_each add_file_to_tar
  write_tar staging_root bucket dest_path compress = do
    os.create_file dest_path
    for_each (add_file_to_tar dest_path staging_root) bucket.files
    os.close_tar dest_path
    if compress then os.close_gzip dest_path else pure tt

  unfoldable pub remove_stale_artifacts : List Text → Effect W (Unit {0})
  unfolding for_each
  remove_stale_artifacts paths = for_each os.remove_all paths

  unfoldable pub copy_file : Text → Text → Effect W (Unit {0})
  copy_file dest_path src_path = do
    os.open_file src_path
    os.create_file dest_path
    os.copy dest_path src_path

  -- One round of the loop of `movePathsInto`.
  abbrev pub move_into : Text → Text → Effect W (Unit {0})
  move_into dest_dir path = do
    exists ← attempt (os.stat path)
    if exists then os.rename path (os.join dest_dir (os.base_name path)) else pure tt

  unfoldable pub move_paths_into : Text → List Text → Effect W (Unit {0})
  unfolding for_each attempt
  move_paths_into dest_dir paths = for_each (move_into dest_dir) paths

  -- `diskFreeBytes`, the `freeSpace` of a manager.
  unfoldable pub disk_free_bytes : Text → Effect W ℕ
  disk_free_bytes path = do stat ← os.statfs path; pure (mul64 stat.0 stat.1)

  unfoldable pub extract_from_disc : Text → Text → Text → Effect W (Unit {0})
  extract_from_disc src path_in_iso dest_path = do
    _ ←
        os.run (codes "xorriso")
          (codes "-indev" ∷ src ∷ codes "-extract" ∷ path_in_iso ∷ dest_path ∷ [])
    pure tt

  -- The loop of `ExtractFile` over the headers.
  unfoldable pub extract_member : Text → Text → Text → List (Result Text) → Effect W (Unit {0})
  extract_member tar_path rel_path dest_path [] =
      throw (message (codes "file %s not found in %s") (rel_path ∷ tar_path ∷ []))
  extract_member tar_path rel_path dest_path (err e ∷ headers) = throw e
  extract_member tar_path rel_path dest_path (ok name ∷ headers) =
      let later = extract_member tar_path rel_path dest_path headers in
      if text_eq name rel_path
      then os.create_file dest_path >> os.copy_member dest_path tar_path name
      else later

  unfoldable pub extract_file : Text → Bool → Text → Text → Effect W (Unit {0})
  unfolding extract_member
  extract_file tar_path compressed rel_path dest_path = do
    os.open_file tar_path
    (if compressed then os.open_gzip tar_path else pure tt)
    headers ← os.tar_headers tar_path
    extract_member tar_path rel_path dest_path headers

  -- A device that ends before `size_bytes` is no error.
  unfoldable pub read_raw_image : Text → Text → ℕ → Effect W (Unit {0})
  read_raw_image device dest_path size_bytes = do
    os.open_file device
    os.create_file dest_path
    _ ← os.copy_n dest_path device size_bytes
    pure tt
