-- ===== src/Conversion/Service.antt =====
-- `Convert` of worker/internal/conversion/service.go, and the handler of
-- worker/internal/conversion/http.go. The lock makes a conversion one action.
use drishti_server_migration.Base.{
  ℕ, ℤ, pos, String, Bool, true, false, not, ◌&&◌, ◌||◌, Option, none, some, List, [], ◌∷◌, errorf,
  new_error, wrap, int, Result, ok, err, Eff, pure, throw, attempt, from_result, with_error, ◌>>=◌,
  ◌>>◌, ltb_ℤ, leb_ℤ, ◌==◌, if◌then◌else◌,
}
use drishti_server_migration.Conversion.{FileInfo, Manifest, ConvertRequest, Converted, Files}
use drishti_server_migration.Conversion.Paths.{
  partial, manifest, path_of, unless_throw, existing_file, output_file, remove_regular_file,
  write_manifest, same_path,
}

abbrev pub is_target_format : String → Bool
is_target_format format = format == "raw" || format == "qcow2"

abbrev input_format_of : String → String
input_format_of format = if format == "" then "vmdk" else format

abbrev pub check_formats : ConvertRequest → Result (Unit {0})
check_formats req =
    if not (input_format_of req.input_format == "vmdk")
    then err (new_error "input format must be vmdk")
    else if not (is_target_format req.target_format)
    then err (new_error "target format must be raw or qcow2")
    else ok tt

abbrev pub convert_args : String → String → String → List String
convert_args format input output =
    "convert" ∷ "-f" ∷ "vmdk" ∷ "-O" ∷ format ∷ input ∷ path_of partial output ∷ []

module _ {X : Type 0} (f : Files X) (root : String) (cap : ℤ) where
  abbrev pub is_current : Manifest → FileInfo → String → String → Bool
  is_current m info format sum =
      (m.input_sha256 == sum && m.target_format == format)
      && (leb_ℤ m.size_bytes info.size && leb_ℤ info.size m.size_bytes)

  abbrev pub reused_with : String → String → FileInfo → Manifest → Result String → Option Converted
  reused_with output format info m (err e) = none
  reused_with output format info m (ok sum) =
      if sum == m.output_sha256
      then some (record {
        input_path = "";
        output_path = output;
        format = format;
        size_bytes = info.size;
        sha256 = sum;
        duration = "";
        reused = false;
      })
      else none

  unfoldable pub reusable_manifest :
      String → String → String → FileInfo → Result Manifest → Eff X (Option Converted)
  reusable_manifest output format sum info (err e) = pure none
  reusable_manifest output format sum info (ok m) =
      if is_current m info format sum
      then (attempt (f.checksum output) >>= λ actual.
          pure (reused_with output format info m actual))
      else pure none

  unfoldable pub reusable_file :
      String → String → String → Result FileInfo → Eff X (Option Converted)
  unfolding reusable_manifest
  reusable_file output format sum (err e) = pure none
  reusable_file output format sum (ok info) =
      if info.is_regular && not info.is_symlink
      then (attempt (f.read_manifest (path_of manifest output))
          >>= reusable_manifest output format sum info)
      else pure none

  -- `reusable`
  unfoldable pub reusable : String → String → String → Eff X (Option Converted)
  unfolding reusable_file
  reusable output format sum = attempt (f.lstat output) >>= reusable_file output format sum

  abbrev check_absent : Result FileInfo → Result (Unit {0})
  check_absent (ok info) =
      err (new_error "output already exists without a matching DRISHTI manifest")
  check_absent (err e) = if f.is_not_exist e then ok tt else err e

  -- The outcome of the command: an error of its own, or an exit code.
  abbrev check_exit : Result ℤ → Result (Unit {0})
  check_exit (err e) = err (wrap "qemu-img conversion failed: %w" [] e)
  check_exit (ok code) =
      if leb_ℤ code (pos 0) && leb_ℤ (pos 0) code
      then ok tt
      else err (errorf "qemu-img conversion failed with exit code %d" (int code ∷ []))

  abbrev check_unchanged : String → Result String → Result (Unit {0})
  check_unchanged sum (err e) = err (new_error "input changed while conversion was running")
  check_unchanged sum (ok after) =
      if after == sum then ok tt else err (new_error "input changed while conversion was running")

  abbrev check_published : Result (Unit {0}) → Result (Unit {0})
  check_published (ok u) = ok tt
  check_published (err e) = err (wrap "publish converted disk: %w" [] e)

  abbrev regular_info : Result FileInfo → Result FileInfo
  regular_info (err e) = err (new_error "converted output is not a regular file")
  regular_info (ok info) =
      if info.is_regular then ok info else err (new_error "converted output is not a regular file")

  -- An error removes the partial file first.
  unfoldable pub or_discard : String → Result (Unit {0}) → Eff X (Unit {0})
  unfolding remove_regular_file
  or_discard output (ok u) = pure tt
  or_discard output (err e) =
      attempt (remove_regular_file f root (path_of partial output)) >> throw e

  unfoldable pub check_size : String → FileInfo → Eff X (Unit {0})
  check_size output info =
      if ltb_ℤ cap info.size
      then (attempt (f.remove output)
          >> throw (new_error "converted output exceeds configured workspace size cap"))
      else pure tt

  abbrev converted : String → String → String → FileInfo → String → String → Converted
  converted input output format info sum duration = record {
    input_path = input;
    output_path = output;
    format = format;
    size_bytes = info.size;
    sha256 = sum;
    duration = duration;
    reused = false;
  }

  abbrev metadata : String → String → String → FileInfo → Manifest
  metadata input_sum output_sum format info = record {
    input_sha256 = input_sum;
    output_sha256 = output_sum;
    target_format = format;
    size_bytes = info.size;
  }

  -- What follows the command: the checks of its outcome, the rename and the manifest.
  unfoldable pub publish : String → String → String → String → Result ℤ → Eff X Converted
  unfolding or_discard check_size write_manifest
  publish input output format sum ran = do
    or_discard output (check_exit ran)
    after ← attempt (f.checksum input)
    or_discard output (check_unchanged sum after)
    renamed ← attempt (f.rename (path_of partial output) output)
    or_discard output (check_published renamed)
    found ← attempt (f.stat output)
    info ← from_result (regular_info found)
    check_size output info
    output_sum ← with_error (wrap "checksum output: %w" []) (f.checksum output)
    with_error (wrap "write conversion manifest: %w" [])
        (write_manifest f root output (metadata sum output_sum format info))
    duration ← f.elapsed
    pure (converted input output format info output_sum duration)

  -- No output to use again: an existing file is not overwritten.
  unfoldable pub convert_fresh : String → String → String → String → Eff X Converted
  unfolding remove_regular_file publish
  convert_fresh input output format sum = do
    present ← attempt (f.lstat output)
    from_result (check_absent present)
    remove_regular_file f root (path_of partial output)
    ran ← attempt (f.execute "qemu-img" (convert_args format input output))
    publish input output format sum ran

  unfoldable pub convert_or_reuse :
      String → String → String → String → Option Converted → Eff X Converted
  unfolding convert_fresh
  convert_or_reuse input output format sum none = convert_fresh input output format sum
  convert_or_reuse input output format sum (some found) = do
    duration ← f.elapsed
    pure (record found { input_path = input; duration = duration; reused = true })

  -- The two paths are known.
  unfoldable pub convert_paths : String → String → String → Eff X Converted
  unfolding reusable convert_or_reuse unless_throw
  convert_paths format input output = do
    unless_throw (not (same_path f root input output))
        (new_error "input and output paths must differ")
    sum ← with_error (wrap "checksum input: %w" []) (f.checksum input)
    found ← reusable output format sum
    convert_or_reuse input output format sum found

  unfoldable pub convert : ConvertRequest → Eff X Converted
  unfolding existing_file output_file convert_paths
  convert req = do
    from_result (check_formats req)
    input ← with_error (wrap "input path: %w" []) (existing_file f root req.input_path)
    info ← f.stat input
    unless_throw (not (ltb_ℤ cap info.size))
        (new_error "input exceeds configured workspace size cap")
    output ← with_error (wrap "output path: %w" []) (output_file f root req.output_path)
    convert_paths req.target_format input output

  -- The status and the outcome of the handler; `none` is a body that does not decode.
  abbrev status_of : Result Converted × X → ℕ × X
  status_of (ok result, x) = (200, x)
  status_of (err e, x) = (422, x)

  unfoldable pub convert_handler : Bool → Option ConvertRequest → X → ℕ × X
  unfolding convert
  convert_handler enabled none x = if enabled then (400, x) else (503, x)
  convert_handler enabled (some req) x = if enabled then status_of (convert req x) else (503, x)
