-- ===== src/Conversion/Paths.antt =====
-- The paths of a conversion: `existingFile`, `outputFile`, `requireWithin`, `removeRegularFile`,
-- `writeManifest` and `samePath` of worker/internal/conversion/service.go.
use drishti_server_migration.Base.{
  String, append, Bool, true, false, not, ◌&&◌, ◌||◌, Error, new_error, Result, ok, err, Eff, pure,
  throw, attempt, from_result, ◌>>=◌, ◌>>◌, ◌==◌, if◌then◌else◌,
}
use text.Mathlib.Text.{starts_with}
use drishti_server_migration.Conversion.{Files, FileInfo, Manifest}

-- The files that a conversion may change: the output and those named after it.
pub data Sidecar : Type 0 where
  itself partial manifest manifest_partial : Sidecar

abbrev pub path_of : Sidecar → String → String
path_of itself output = output
path_of partial output = append output ".drishti-partial"
path_of manifest output = append output ".drishti.json"
path_of manifest_partial output = append (append output ".drishti.json") ".partial"

abbrev pub escapes : Error
escapes = new_error "path escapes the worker workspace"

abbrev is_plain_file : FileInfo → Bool
is_plain_file info = info.is_regular && not info.is_symlink

-- `if !b { return err }`
unfoldable pub unless_throw {ℓ} : {X : Type ℓ} → Bool → Error → Eff X (Unit {ℓ})
unless_throw true e = pure tt
unless_throw false e = throw e

module _ {X : Type 0} (f : Files X) (root : String) where
  abbrev leads_out : String → Bool
  leads_out relative = relative == ".." || (starts_with relative "../" || f.is_abs relative)

  abbrev pub within_by : Result String → Bool
  within_by (ok relative) = not (leads_out relative)
  within_by (err e) = false

  -- `requireWithin`, as a test
  unfoldable pub is_within : String → Bool
  is_within path = within_by (f.rel root path)

  unfoldable pub resolve_within : String → Eff X String
  unfolding is_within unless_throw
  resolve_within path = do
    abs ← from_result (f.abs path)
    resolved ← f.eval_symlinks abs
    unless_throw (is_within resolved) escapes
    pure resolved

  unfoldable pub existing_file : String → Eff X String
  unfolding resolve_within
  existing_file path = do
    resolved ← resolve_within path
    info ← f.lstat resolved
    unless_throw (is_plain_file info) (new_error "must be a regular non-symlink file")
    pure resolved

  unfoldable pub output_file : String → Eff X String
  unfolding is_within unless_throw
  output_file path = do
    abs ← from_result (f.abs path)
    unless_throw (is_within abs) escapes
    f.mkdir_all (f.dir_of abs)
    parent ← f.eval_symlinks (f.dir_of abs)
    let resolved = f.join_path parent (f.base_of abs)
    unless_throw (is_within resolved) escapes
    pure resolved

  -- What follows `os.Lstat` in `removeRegularFile`.
  unfoldable pub remove_known : String → Result FileInfo → Eff X (Unit {0})
  remove_known path (err e) = if f.is_not_exist e then pure tt else throw e
  remove_known path (ok info) =
      if is_plain_file info
      then f.remove path
      else throw (new_error "refusing to remove non-regular partial output")

  unfoldable pub remove_regular_file : String → Eff X (Unit {0})
  unfolding remove_known
  remove_regular_file path = do info ← attempt (f.lstat path); remove_known path info

  -- `if err != nil { cleanup; return err }`, where the error of the cleanup is dropped.
  unfoldable pub or_clean_up : Eff X (Unit {0}) → Result (Unit {0}) → Eff X (Unit {0})
  or_clean_up cleanup (ok u) = pure tt
  or_clean_up cleanup (err e) = attempt cleanup >> throw e

  -- A failed write closes the file and removes it.
  abbrev close_and_remove : String → Eff X (Unit {0})
  close_and_remove path = attempt (f.close path) >> f.remove path

  unfoldable pub write_manifest : String → Manifest → Eff X (Unit {0})
  unfolding remove_regular_file or_clean_up
  write_manifest output metadata = do
    let temporary = path_of manifest_partial output
    remove_regular_file temporary
    f.open_new temporary
    written ← attempt (f.write temporary metadata)
    or_clean_up (close_and_remove temporary) written
    closed ← attempt (f.close temporary)
    or_clean_up (f.remove temporary) closed
    renamed ← attempt (f.rename temporary (path_of manifest output))
    or_clean_up (f.remove temporary) renamed

  abbrev pub same_path : String → String → Bool
  same_path left right = f.equal_fold (f.clean left) (f.clean right)
