-- ===== src/Conversion/Contained.antt =====
-- What a conversion may change: the request's output and the files named after it, by one command.
use drishti_server_migration.Base.{
  ℤ, String, append, ◌⊎◌, [], ◌∷◌, Bool, true, false, not, ◌&&◌, Error, new_error, Result, ok, err,
  Eff, pure, throw, attempt, ltb_ℤ, ◌>>◌, ◌≡◌,
}
use text.Mathlib.Text.{starts_with}
use drishti_server_migration.Base.Hoare.{
  Keeps, Keeps-pure, Keeps-throw, Keeps-attempt, Keeps-from_result, Keeps-with_error, Keeps-if,
  Keeps-bind,
}
use drishti_server_migration.Conversion.{FileInfo, Manifest, ConvertRequest, Files}
use drishti_server_migration.Conversion.Paths.{
  Sidecar, itself, partial, manifest, manifest_partial, path_of, unless_throw, remove_known,
  remove_regular_file, or_clean_up, write_manifest,
}
use drishti_server_migration.Conversion.Service.{or_discard, check_size, publish}

-- The path leads from the root to a place below it.
pub record IsInside {X : Type 0} (f : Files X) (root path : String) : Type 0 where
  pub relative : String
  pub related : f.rel root path ≡ ok relative
  pub no_parent : ¬ (relative ≡ "..")
  pub no_ancestor : starts_with relative "../" ≡ false
  pub no_other_root : f.is_abs relative ≡ false

-- The disk that a request names as its input: its path, with the symbolic links resolved.
pub record IsInput {X : Type 0} (f : Files X) (root : String) (req : ConvertRequest)
    (input : String) : Type 0 where
  pub abs : String
  pub before : X
  pub absolute : f.abs req.input_path ≡ ok abs
  pub resolved : (f.eval_symlinks abs before).0 ≡ ok input
  pub inside : IsInside f root input

-- The disk that a request names as its output: its name, in its directory with the links resolved.
pub record IsOutput {X : Type 0} (f : Files X) (root : String) (req : ConvertRequest)
    (output : String) : Type 0 where
  pub abs : String
  pub parent : String
  pub before : X
  pub absolute : f.abs req.output_path ≡ ok abs
  pub resolved : (f.eval_symlinks (f.dir_of abs) before).0 ≡ ok parent
  pub named : f.join_path parent (f.base_of abs) ≡ output
  pub inside : IsInside f root output

abbrev pub IsFormat : ConvertRequest → String → Type 0
IsFormat req format = (format ≡ req.target_format) × ((format ≡ "raw") ⊎ (format ≡ "qcow2"))

-- A property of the disks that is kept by every question, by the directories of the request's output
-- inside the root, by changes of the request's output and the files named after it, and by one command:
-- the conversion of the request's input to the partial file of its output, in its format.
pub record IsLocal {X : Type 0} (f : Files X) (root : String) (req : ConvertRequest)
    (I : X → Type 0) : Type 0 where
  pub links : (p : String) → Keeps I (f.eval_symlinks p)
  pub stat : (p : String) → Keeps I (f.stat p)
  pub lstat : (p : String) → Keeps I (f.lstat p)
  pub checksum : (p : String) → Keeps I (f.checksum p)
  pub read_manifest : (p : String) → Keeps I (f.read_manifest p)
  pub elapsed : Keeps I f.elapsed
  pub mkdir_all :
      (p : String)
      → f.abs req.output_path ≡ ok p
      → IsInside f root p
      → Keeps I (f.mkdir_all (f.dir_of p))
  pub remove :
      (out : String) (side : Sidecar)
      → IsOutput f root req out
      → Keeps I (f.remove (path_of side out))
  pub rename :
      (out : String) (from to : Sidecar)
      → IsOutput f root req out
      → Keeps I (f.rename (path_of from out) (path_of to out))
  pub open_new :
      (out : String) (side : Sidecar)
      → IsOutput f root req out
      → Keeps I (f.open_new (path_of side out))
  pub write :
      (out : String) (side : Sidecar) (m : Manifest)
      → IsOutput f root req out
      → Keeps I (f.write (path_of side out) m)
  pub close :
      (out : String) (side : Sidecar)
      → IsOutput f root req out
      → Keeps I (f.close (path_of side out))
  pub execute :
      (format input out : String)
      → IsFormat req format
      → IsInput f root req input
      → IsOutput f root req out
      → f.equal_fold (f.clean input) (f.clean out) ≡ false
      → Keeps I (
          f.execute "qemu-img" (
            "convert" ∷ "-f" ∷ "vmdk" ∷ "-O" ∷ format ∷ input ∷ append out ".drishti-partial" ∷ []))

module _ {X : Type 0} (f : Files X) (root : String) (cap : ℤ) (req : ConvertRequest)
    (I : X → Type 0) (local_only : IsLocal f root req I) where
  abbrev pub Ok : String → Type 0
  Ok path = IsOutput f root req path

  pub unless_throw-Keeps : (b : Bool) (e : Error) → Keeps I (unless_throw b e)
  unfolding unless_throw
  unless_throw-Keeps true e = Keeps-pure _
  unless_throw-Keeps false e = Keeps-throw e

  pub remove_known-Keeps :
      (out : String) (side : Sidecar) (r : Result FileInfo)
      → Ok out
      → Keeps I (remove_known f root (path_of side out) r)
  unfolding remove_known
  remove_known-Keeps out side (err e) h =
      Keeps-if (f.is_not_exist e) (pure tt) (throw e) (λ _. Keeps-pure _) λ _. Keeps-throw e
  remove_known-Keeps out side (ok info) h =
      Keeps-if (info.is_regular && not info.is_symlink) (f.remove (path_of side out)) _
        (λ _. local_only.remove out side h) λ _. Keeps-throw _

  pub remove_regular_file-Keeps :
      (out : String) (side : Sidecar)
      → Ok out
      → Keeps I (remove_regular_file f root (path_of side out))
  unfolding remove_regular_file
  remove_regular_file-Keeps out side h =
      Keeps-bind _ _ (Keeps-attempt _ (local_only.lstat _)) λ r. remove_known-Keeps out side r h

  or_clean_up-Keeps :
      (cleanup : Eff X (Unit {0})) (r : Result (Unit {0}))
      → Keeps I cleanup
      → Keeps I (or_clean_up f root cleanup r)
  unfolding or_clean_up
  or_clean_up-Keeps cleanup (ok u) k = Keeps-pure _
  or_clean_up-Keeps cleanup (err e) k = Keeps-bind _ _ (Keeps-attempt _ k) λ _. Keeps-throw e

  write_manifest-Keeps :
      (out : String) (m : Manifest) → Ok out → Keeps I (write_manifest f root out m)
  unfolding write_manifest
  write_manifest-Keeps out m h =
      Keeps-bind _ _ (remove_regular_file-Keeps out manifest_partial h) λ _.
        Keeps-bind _ _ (local_only.open_new out manifest_partial h) λ _.
          Keeps-bind _ _ (Keeps-attempt _ (local_only.write out manifest_partial m h)) λ written.
            Keeps-bind _ _
              (or_clean_up-Keeps _ written (
                Keeps-bind _ _ (Keeps-attempt _ (local_only.close out manifest_partial h))
                  λ _. local_only.remove out manifest_partial h))
              λ _.
                Keeps-bind _ _ (Keeps-attempt _ (local_only.close out manifest_partial h)) λ closed.
                  Keeps-bind _ _
                    (or_clean_up-Keeps _ closed (local_only.remove out manifest_partial h))
                    λ _.
                      Keeps-bind _ _
                        (Keeps-attempt _ (local_only.rename out manifest_partial manifest h))
                        λ renamed.
                          or_clean_up-Keeps _ renamed (local_only.remove out manifest_partial h)

  or_discard-Keeps :
      (out : String) (r : Result (Unit {0})) → Ok out → Keeps I (or_discard f root cap out r)
  unfolding or_discard
  or_discard-Keeps out (ok u) h = Keeps-pure _
  or_discard-Keeps out (err e) h =
      Keeps-bind _ _ (Keeps-attempt _ (remove_regular_file-Keeps out partial h)) λ _. Keeps-throw e

  check_size-Keeps :
      (out : String) (info : FileInfo) → Ok out → Keeps I (check_size f root cap out info)
  unfolding check_size
  check_size-Keeps out info h =
      Keeps-if (ltb_ℤ cap info.size)
        (attempt (f.remove out)
          >> throw (new_error "converted output exceeds configured workspace size cap"))
        (pure tt)
        (λ _. Keeps-bind _ _ (Keeps-attempt _ (local_only.remove out itself h)) λ _. Keeps-throw _)
        λ _. Keeps-pure _

  pub publish-Keeps :
      (input out format sum : String) (ran : Result ℤ)
      → Ok out
      → Keeps I (publish f root cap input out format sum ran)
  unfolding publish
  publish-Keeps input out format sum ran h = Keeps-bind _ _ (or_discard-Keeps out _ h) λ _.
      Keeps-bind _ _ (Keeps-attempt _ (local_only.checksum input)) λ after.
        Keeps-bind _ _ (or_discard-Keeps out _ h) λ _.
          Keeps-bind _ _ (Keeps-attempt _ (local_only.rename out partial itself h)) λ renamed.
            Keeps-bind _ _ (or_discard-Keeps out _ h) λ _.
              Keeps-bind _ _ (Keeps-attempt _ (local_only.stat out)) λ found.
                Keeps-bind _ _ (Keeps-from_result _) λ info.
                  Keeps-bind _ _ (check_size-Keeps out info h) λ _.
                    Keeps-bind _ _ (Keeps-with_error _ _ (local_only.checksum out)) λ output_sum.
                      Keeps-bind _ _ (Keeps-with_error _ _ (write_manifest-Keeps out _ h))
                        λ _. Keeps-bind _ _ local_only.elapsed λ duration. Keeps-pure _
