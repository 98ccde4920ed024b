-- ===== src/Os.antt =====
-- What the code uses of Go's library and of the machine: files, programs, the clock. All of it is
-- outside the repository, so it is a record whose fields are arbitrary.
use varis.Base.{ℕ, Bool, List, Option, Text, Error, Result}
use varis.Base.Effect.{Effect}
use varis.Toc.{Toc}

-- One call of the function given to `filepath.WalkDir`.
pub record Visit : Type 0 where
  pub path : Text
  pub failure : Option Error
  pub is_regular : Bool
  pub size : Result ℕ

-- `statfs` gives the blocks that are free and their size, `stat` and `file_header` a file's
-- description, `copy` is `io.Copy` of an open file into another, followed by its `Close`; `run` is
-- `Executor.Run`; `marshal` and `parse` are those of package toc, by encoding/json. `tar_headers`
-- are the names that a tar reader's `Next` gives up to its first error, or up to `io.EOF`, and
-- `copy_member` copies the member that it has come to into a file. `copy_n` is `io.CopyN`: whether
-- all bytes were there, or it came to `io.EOF` before.
pub record Os (W : Type 0) : Type 0 where
  pub join : Text → Text → Text
  pub base_name : Text → Text
  pub relative : Text → Text → Result Text
  pub statfs : Text → Effect W (ℕ × ℕ)
  pub walk : Text → Effect W (List Visit)
  pub stat : Text → Effect W Text
  pub remove : Text → Effect W (Unit {0})
  pub remove_all : Text → Effect W (Unit {0})
  pub make_dir_all : Text → Effect W (Unit {0})
  pub open_file : Text → Effect W (Unit {0})
  pub create_file : Text → Effect W (Unit {0})
  pub rename : Text → Text → Effect W (Unit {0})
  pub copy : Text → Text → Effect W (Unit {0})
  pub read_file : Text → Effect W Text
  pub write_file : Text → Text → Effect W (Unit {0})
  pub file_info_header : Text → Result Text
  pub write_header : Text → Text → Text → Effect W (Unit {0})
  pub close_tar : Text → Effect W (Unit {0})
  pub close_gzip : Text → Effect W (Unit {0})
  pub run : Text → List Text → Effect W Text
  pub sha256_hex : Text → Text
  pub marshal : Toc → Result Text
  pub parse : Text → Result Toc
  pub make_temp_dir : Text → Text → Effect W Text
  pub open_gzip : Text → Effect W (Unit {0})
  pub tar_headers : Text → Effect W (List (Result Text))
  pub copy_member : Text → Text → Text → Effect W (Unit {0})
  pub copy_n : Text → Text → ℕ → Effect W Bool
  pub now : Effect W ℕ
