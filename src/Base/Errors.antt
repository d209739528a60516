-- ===== src/Base/Errors.antt =====
-- Go errors and formatted texts. A call of `fmt.Sprintf` or `fmt.Errorf` is kept as its format
-- and its arguments: rendering them is the standard library's work.
use Prim.Native.String.{String}
use mathlib.Core.Bool.{Bool, true, false}
use mathlib.Core.List.{List, []}
use drishti_server_migration.Base.Int.{ℤ}

-- An argument of a format.
pub data Arg : Type 0 where
  str : String → Arg
  int : ℤ → Arg
  bool : Bool → Arg

pub data Error : Type 0 where
  -- `fmt.Errorf(format, args...)`, and `errors.New` with no argument
  errorf : String → List Arg → Error
  -- `fmt.Errorf(format, args..., err)` with a final `%w`
  wrap : String → List Arg → Error → Error
  -- `fmt.Errorf("%v; ...: %w", cause, err)`
  while_handling : Error → String → Error → Error
  -- a run-time panic: an index out of range
  panicked : String → Error

pub data Message : Type 0 where
  plain : String → Message
  sprintf : String → List Arg → Message
  -- `err.Error()`
  of_error : Error → Message
  -- `prefix + strings.Join(parts, sep)`, where each part is `fmt.Sprintf(format, args...)`
  joined : String → String → String → List (List Arg) → Message

abbrev pub new_error : String → Error
new_error s = errorf s []

pub data Result {ℓ} (A : Type ℓ) : Type ℓ where
  ok : A → Result A
  err : Error → Result A

abbrev pub is_ok {ℓ} : {A : Type ℓ} → Result A → Bool
is_ok (ok a) = true
is_ok (err e) = false
