-- ===== src/Main.antt =====
-- cmd/archive-core/main.go: how the parts are put together.
pub mod Routes
pub mod Serve
pub mod Shown
pub mod Commit
pub mod Leading
pub mod Reads
pub mod OneJob
use varis.Base.{
  ℕ, zero, suc, ◌+◌, ◌-◌, ◌*◌, ◌/◌, ◌%◌, ◌^◌, ◌≤◌, ◌<◌, min, bit_xor, ◌≡◌, ◌≢◌, ◌↔◌, ◌⊎◌, inl, inr,
  refl, sym, ap, ap₂, subst, fun_ext, ◌∙◌, Bool, true, false, not, ◌&&◌, ◌||◌, Bool-cases, List, [],
  ◌∷◌, ◌++◌, map, append_assoc, append-nil, map-append, Option, none, some, Option-cases, arith,
  tests, ltb, leb, ◌==◌, ltb→lt, lt→ltb, leb→le, le→leb, ==_iff, if◌then◌else◌, dec_lt, dec_le,
  ℕ_discrete, Text, codes, text_eq, text_eq_iff, text_eq_refl, text_ne, contains, contains-append,
  Error, external, message, wrapped, not_found, Result, ok, err, Result-cases, length, get_elem?,
  get_or, set, take, drop, replicate, All, All-append, All-imp, length-append, length-map,
  length-replicate, length-take, length-drop, take-append-drop, get_or_ext, add64, mul64, neg64,
  lt64, div64, is_negative64, int64_limit,
}
use varis.Base.Dict.{Dict}
use varis.Base.Effect.{Effect, pure, lift, with_context, ◌>>=◌, ◌>>◌}
use varis.Config.{Config, load}
use varis.Os.{Os}
use varis.Db.{Catalog, Postgres}
use varis.Db.Schema.{connect}
use varis.Db.MediaTypes.{seed_media_types}
use varis.Burn.Cataloger.{Cataloger, pgx_cataloger}
use varis.Burn.Disc as BurnDisc
use varis.Retrieve.Catalog as RetrieveCatalog
use varis.Retrieve.Read as RetrieveRead
use varis.Web.Server.{Server}
use varis.Web.Answer.{on_machine, on_catalog}

-- Both managers, the pages and the mount work on one machine and one catalog.
abbrev pub machine_of : {M : Type 0} → Os M → Os (M × Catalog)
machine_of os = record {
  join = os.join;
  base_name = os.base_name;
  relative = os.relative;
  statfs = λ path. on_machine (os.statfs path);
  walk = λ path. on_machine (os.walk path);
  stat = λ path. on_machine (os.stat path);
  remove = λ path. on_machine (os.remove path);
  remove_all = λ path. on_machine (os.remove_all path);
  make_dir_all = λ path. on_machine (os.make_dir_all path);
  open_file = λ path. on_machine (os.open_file path);
  create_file = λ path. on_machine (os.create_file path);
  rename = λ from to. on_machine (os.rename from to);
  copy = λ from to. on_machine (os.copy from to);
  read_file = λ path. on_machine (os.read_file path);
  write_file = λ path text. on_machine (os.write_file path text);
  file_info_header = os.file_info_header;
  write_header = λ path name info. on_machine (os.write_header path name info);
  close_tar = λ path. on_machine (os.close_tar path);
  close_gzip = λ path. on_machine (os.close_gzip path);
  run = λ name args. on_machine (os.run name args);
  sha256_hex = os.sha256_hex;
  marshal = os.marshal;
  parse = os.parse;
  make_temp_dir = λ dir pattern. on_machine (os.make_temp_dir dir pattern);
  open_gzip = λ path. on_machine (os.open_gzip path);
  tar_headers = λ path. on_machine (os.tar_headers path);
  copy_member = λ path name to. on_machine (os.copy_member path name to);
  copy_n = λ from to n. on_machine (os.copy_n from to n);
  now = on_machine os.now;
}

abbrev pub cataloger_of : Type 0 → Postgres → Cataloger
cataloger_of M pg =
    let c = pgx_cataloger pg in
    record {
      State = M × Catalog;
      next_disk_id = λ prefix n. on_catalog (c.next_disk_id prefix n);
      new_burn_job_id = on_catalog c.new_burn_job_id;
      next_group_id = λ job n. on_catalog (c.next_group_id job n);
      insert_disk = λ d. on_catalog (c.insert_disk d);
      insert_file = λ f. on_catalog (c.insert_file f);
      consume_staged_metadata = λ path. on_catalog (c.consume_staged_metadata path);
    }

abbrev pub catalog_of : (M : Type 0) → Postgres → RetrieveCatalog.Catalog (M × Catalog)
catalog_of M pg =
    let c = RetrieveCatalog.db_catalog pg in
    record {
      get_file = λ id. on_catalog (c.get_file id);
      get_disk = λ id. on_catalog (c.get_disk id);
      group_members = λ id. on_catalog (c.group_members id);
      media_capacity = λ name. on_catalog (c.media_capacity name);
    }

-- What `main` hands to the managers, the pages and the mount.
pub record Program : Type 0 where
  pub burn_dirs : BurnDisc.Dirs
  pub retrieve_dirs : RetrieveRead.Dirs
  pub staging_dir : Text
  pub dry_run_dir : Text
  pub mounted : Dict Text
  pub http_addr : Text

-- `scratch_dir` is `os.TempDir()`.
unfoldable pub program : Text → Config → Program
program scratch_dir cfg = record {
  burn_dirs = record {
    staging_dir = cfg.staging_dir;
    spool_dir = cfg.spool_dir;
    dry_run_dir = cfg.dry_run_dir;
  };
  retrieve_dirs = record {
    retrieved_dir = cfg.retrieved_dir;
    scratch_dir = scratch_dir;
    dry_run_dir = cfg.dry_run_dir;
  };
  staging_dir = cfg.staging_dir;
  dry_run_dir = cfg.dry_run_dir;
  mounted =
      (codes "staging", cfg.staging_dir)
      ∷ (codes "retrieved", cfg.retrieved_dir)
      ∷ (codes "dryrun", cfg.dry_run_dir)
      ∷ [];
  http_addr = cfg.http_addr;
}

-- `main` up to the routes; an error is that of `log.Fatalf`, which ends the program. `templates` is
-- what `template.ParseFS` returns.
unfoldable pub start :
    (Text → Result (Unit {0}))
    → Result (Unit {0})
    → Postgres
    → Text
    → (Text → Text)
    → Effect Catalog Program
unfolding program load
start new_pool templates pg scratch_dir getenv =
    with_context (codes "db connect") (connect new_pool pg (load getenv).database_url)
    >> (with_context (codes "seed media types") (seed_media_types pg)
        >> (with_context (codes "web server") (lift templates)
            >> pure (program scratch_dir (load getenv))))

-- Both managers are new.
abbrev pub new_server : {W : Type 0} → W → Server W
new_server world = record {
  burn_job = none;
  retrieve_job = none;
  reconstructor = none;
  reconstruction_capacity = 0;
  world = world;
}
