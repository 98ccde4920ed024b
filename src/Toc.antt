-- ===== src/Toc.antt =====
-- internal/toc/toc.go: the table of contents that stands beside a disc's payload.
use varis.Base.{ℕ, Bool, List, Text}
use varis.Db.{Role}

pub record FileEntry : Type 0 where
  pub path : Text
  pub size_bytes : ℕ
  pub sha256 : Text

pub record Toc : Type 0 where
  pub disk_id : Text
  pub media_type : Text
  pub parity_percent : ℕ
  pub compressed : Bool
  pub group_id : Text
  pub role : Role
  pub slot_index : ℕ
  pub created_at : ℕ
  pub files : List FileEntry
