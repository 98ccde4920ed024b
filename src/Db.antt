-- ===== src/Db.antt =====
-- internal/db: the catalog's rows and tables, and the server that keeps them.
-- A table is the list of its rows in the order of insertion. The statements are those of the
-- source; the server (Postgres) may refuse any of them, and supplies the time and random ids.
pub mod Ids
pub mod Disks
pub mod Files
pub mod MediaTypes
pub mod DryRuns
pub mod Search
pub mod Joined
pub mod Best
pub mod Schema
pub mod Metadata
use varis.Base.{
  ℕ, zero, suc, ◌+◌, ◌-◌, ◌*◌, ◌/◌, ◌%◌, ◌^◌, ◌≤◌, ◌<◌, min, bit_xor, ◌≡◌, ◌≢◌, ◌↔◌, ◌⊎◌, inl, inr,
  refl, sym, ap, ap₂, subst, fun_ext, ◌∙◌, Bool, true, false, not, ◌&&◌, ◌||◌, Bool-cases, List, [],
  ◌∷◌, ◌++◌, map, append_assoc, append-nil, map-append, Option, none, some, Option-cases, arith,
  tests, ltb, leb, ◌==◌, ltb→lt, lt→ltb, leb→le, le→leb, ==_iff, if◌then◌else◌, dec_lt, dec_le,
  ℕ_discrete, Text, codes, text_eq, text_eq_iff, text_eq_refl, text_ne, contains, contains-append,
  Error, external, message, wrapped, not_found, Result, ok, err, ◌>>=◌, Result-cases, length,
  get_elem?, get_or, set, take, drop, replicate, All, All-append, All-imp, length-append,
  length-map, length-replicate, length-take, length-drop, take-append-drop, get_or_ext, add64,
  mul64, neg64, lt64, div64, is_negative64, int64_limit,
}
use varis.Base.Dict.{Dict}
use varis.Base.Effect.{Effect}

-- `"data" | "parity"`, or whatever else the column holds.
pub data Role : Type 0 where
  data_role parity_role : Role
  other_role : Text → Role

-- `"optical" | "filesystem"`, or whatever else the column holds.
pub data WriteKind : Type 0 where
  optical filesystem : WriteKind
  other_kind : Text → WriteKind

pub record Disk : Type 0 where
  pub id : Text
  pub media_type : Text
  pub parity_percent : ℕ
  pub group_id : Option Text
  pub role : Role
  pub slot_index : Option ℕ
  pub iso_hash : Text
  pub created_at : ℕ
  pub is_dry_run : Bool

-- `tags` is a Go slice, which may be nil (`none`).
pub record FileRecord : Type 0 where
  pub id : Text
  pub disk_id : Text
  pub original_path : Text
  pub size_bytes : ℕ
  pub file_hash : Text
  pub tags : Option (List Text)
  pub description : Text
  pub disk_is_dry_run : Bool

pub record StagedMetadata : Type 0 where
  pub tags : List Text
  pub description : Text

pub record MediaType : Type 0 where
  pub name : Text
  pub capacity_bytes : ℕ
  pub id_prefix : Text
  pub write_kind : WriteKind

pub record DiskGroup : Type 0 where
  pub id : Text
  pub burn_job_id : Text
  pub group_size : ℕ

-- The tables, with the number of random ids drawn and of statements sent so far.
pub record Catalog : Type 0 where
  pub media_types : List MediaType
  pub disk_groups : List DiskGroup
  pub disks : List Disk
  pub files : List FileRecord
  pub staged_metadata : Dict StagedMetadata
  pub drawn : ℕ
  pub statements : ℕ

-- The server: `outage n` is the error with which it refuses the n-th statement, if it does;
-- `uuid n` the n-th value of `gen_random_uuid()`; `now n` the time at the n-th statement.
pub record Postgres : Type 0 where
  pub outage : ℕ → Option Error
  pub uuid : ℕ → Text
  pub now : ℕ → ℕ

-- The server's constraint errors, by their SQLSTATE.
abbrev pub not_null_violation : Error
not_null_violation = external 23502

abbrev pub foreign_key_violation : Error
foreign_key_violation = external 23503

abbrev pub unique_violation : Error
unique_violation = external 23505

abbrev pub counted : Catalog → Catalog
counted db = record db { statements = db.statements + 1 }

-- A random id is drawn for a row's default, before the constraints are checked.
abbrev pub id_drawn : Catalog → Catalog
id_drawn db = record db { drawn = db.drawn + 1 }

-- One statement: refused by an outage, or carried out.
abbrev pub statement : {A : Type 0} → Postgres → Effect Catalog A → Effect Catalog A
statement pg run db = elim (pg.outage db.statements) [
  | some e ↦ (err e, counted db)
  | none ↦ run (counted db)
]
