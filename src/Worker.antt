-- ===== src/Worker.antt =====
-- The commands of the conversion worker: the safelist of worker/internal/cmdsafelist/safelist.go and
-- `Run` of worker/internal/runner/runner.go. The execution of a process is an
-- argument.
pub mod Commands
mod Examples
use drishti_server_migration.Base.{
  ℤ, String, Bool, true, false, not, ◌&&◌, ◌||◌, Option, none, some, List, [], ◌∷◌, any, Error,
  errorf, new_error, wrap, str, int, Result, ok, err, Eff, pure, throw, from_result, with_error,
  for_each, ◌>>=◌, ◌>>◌, ◌==◌, if◌then◌else◌,
}
use text.Mathlib.Text.{starts_with, find?}

-- `Resolve`
unfoldable pub resolve : String → Result String
resolve name =
    if name == "qemu-img"
    then ok "qemu-img"
    else err (errorf "command %q is not in the worker safelist" (str name ∷ []))

abbrev pub no_match : Error
no_match = new_error "qemu-img arguments do not match the conversion safelist"

abbrev pub bad_format : String → Error
bad_format format = errorf "qemu-img output format %q is not allowed" (str format ∷ [])

abbrev pub is_option : Error
is_option = new_error "qemu-img path cannot be parsed as an option"

-- The forbidden characters, in the order of the source.
abbrev pub forbidden : List String
forbidden = ";" ∷ "|" ∷ "&" ∷ "`" ∷ "$" ∷ "\n" ∷ "\r" ∷ []

-- What a process leaves: its output, or the error beside its exit code.
pub record Output : Type 0 where
  pub stdout : String
  pub stderr : String

-- `strings.HasPrefix`
unfoldable pub has_prefix : String → String → Bool
has_prefix = starts_with

-- `strings.ContainsRune`, with the character as a text
unfoldable pub contains : String → String → Bool
contains s c = elim (find? s c) [ some i ↦ true | none ↦ false ]

-- The checks of a list with the right length and fixed parts.
unfoldable pub check_paths : String → String → String → Result (Unit {0})
check_paths format input output =
    if not (format == "raw") && not (format == "qcow2")
    then err (bad_format format)
    else if has_prefix input "-" || has_prefix output "-"
    then err is_option
    else ok tt

unfoldable pub check_shape : List String → Result (Unit {0})
unfolding check_paths
check_shape (c ∷ f ∷ v ∷ o ∷ format ∷ input ∷ output ∷ []) =
    if not (c == "convert") || (not (f == "-f") || (not (v == "vmdk") || not (o == "-O")))
    then err no_match
    else check_paths format input output
check_shape _ = err no_match

-- `ValidateArgs`
unfoldable pub validate_args : String → List String → Result (Unit {0})
unfolding check_shape
validate_args name args =
    if name == "qemu-img"
    then check_shape args
    else err (errorf "command %q is not in the worker safelist" (str name ∷ []))

-- The loop over the forbidden characters.
unfoldable pub check_characters : String → List String → Result (Unit {0})
check_characters a [] = ok tt
check_characters a (c ∷ cs) =
    if contains a c
    then err (errorf "argument contains forbidden character %q" (str c ∷ []))
    else check_characters a cs

-- `validateArg`
unfoldable pub validate_arg : String → Result (Unit {0})
unfolding check_characters
validate_arg a = if a == "" then err (new_error "empty argument") else check_characters a forbidden

module _ {X : Type 0} (execute : String → List String → Eff X Output) where
  -- `Run`
  unfoldable pub run : String → List String → Eff X Output
  run name args = do
    exe ← from_result (resolve name)
    for_each args λ a.
        with_error (wrap "invalid argument to %s" (str name ∷ [])) (from_result (validate_arg a))
    with_error (wrap "invalid argument set for %s" (str name ∷ []))
        (from_result (validate_args name args))
    execute exe args
