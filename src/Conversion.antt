-- ===== src/Conversion.antt =====
-- The conversion service of the worker, worker/internal/conversion, with its configuration,
-- worker/internal/config/config.go. The file system, SHA-256, the path functions of Go and the executor are
-- arguments (`Files`).
pub mod Paths
pub mod Service
pub mod Settings
pub mod Contained
pub mod Conversions
mod Examples
use drishti_server_migration.Base.{ℤ, String, Bool, List, Error, Result, Eff}

pub record FileInfo : Type 0 where
  pub size : ℤ
  pub is_regular : Bool
  pub is_symlink : Bool

pub record Manifest : Type 0 where
  pub input_sha256 : String
  pub output_sha256 : String
  pub target_format : String
  pub size_bytes : ℤ

pub record ConvertRequest : Type 0 where
  pub input_path : String
  pub output_path : String
  pub input_format : String
  pub target_format : String

pub record Converted : Type 0 where
  pub input_path : String
  pub output_path : String
  pub format : String
  pub size_bytes : ℤ
  pub sha256 : String
  pub duration : String
  pub reused : Bool

pub record Files (X : Type 0) : Type 0 where
  -- `path/filepath` and `strings`
  pub abs : String → Result String
  pub rel : String → String → Result String
  pub is_abs : String → Bool
  pub dir_of : String → String
  pub base_of : String → String
  pub join_path : String → String → String
  pub clean : String → String
  pub equal_fold : String → String → Bool
  -- `errors.Is(err, os.ErrNotExist)`
  pub is_not_exist : Error → Bool
  -- questions
  pub eval_symlinks : String → Eff X String
  pub stat : String → Eff X FileInfo
  pub lstat : String → Eff X FileInfo
  pub checksum : String → Eff X String
  pub read_manifest : String → Eff X Manifest
  pub elapsed : Eff X String
  -- changes
  pub mkdir_all : String → Eff X (Unit {0})
  pub remove : String → Eff X (Unit {0})
  pub rename : String → String → Eff X (Unit {0})
  pub open_new : String → Eff X (Unit {0})
  pub write : String → Manifest → Eff X (Unit {0})
  pub close : String → Eff X (Unit {0})
  -- The exit code of a command
  pub execute : String → List String → Eff X ℤ
