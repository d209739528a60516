-- ===== src/Conversion/Conversions.antt =====
-- A conversion keeps what its parts keep.
use drishti_server_migration.Base.{ℤ, String, false, ◌≡◌}
use drishti_server_migration.Conversion.{ConvertRequest, Files}
use drishti_server_migration.Conversion.Paths.{same_path}
use drishti_server_migration.Conversion.Contained.{IsInput, IsOutput, IsFormat, IsLocal}

module _ {X : Type 0} (f : Files X) (root : String) (cap : ℤ) (req : ConvertRequest)
    (I : X → Type 0) (local_only : IsLocal f root req I) where
  -- The two paths of a command are in the workspace, differ, and have a format.
  record IsCommand (format input out : String) : Type 0 where
    target : IsFormat req format
    input_in : IsInput f root req input
    output_in : IsOutput f root req out
    differ : same_path f root input out ≡ false
