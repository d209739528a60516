-- ===== src/Worker/Examples.antt =====
-- A conversion that the worker runs.
use drishti_server_migration.Base.{
  ℕ, suc, String, true, false, List, [], ◌∷◌, is_ok, ok, Eff, ◌≡◌, ◌⊎◌,
}
use drishti_server_migration.Worker.{Output, run}
use drishti_server_migration.Worker.Commands.{IsConversion, passes, run_converts_or_refuses}

abbrev done : String → List String → Eff ℕ Output
done name args n = (ok (record { stdout = ""; stderr = "" }), suc n)

abbrev arguments : List String
arguments = "convert" ∷ "-f" ∷ "vmdk" ∷ "-O" ∷ "qcow2" ∷ "/work/d1.vmdk" ∷ "/work/d1.qcow2" ∷ []

run_converts_or_refuses_example :
    let (r, n) = run done "qemu-img" arguments 0 in
    ((passes "qemu-img" arguments done ≡ true)
      × IsConversion arguments
      × (run done "qemu-img" arguments 0 ≡ done "qemu-img" arguments 0))
    ⊎ ((passes "qemu-img" arguments done ≡ false) × (is_ok r ≡ false) × (n ≡ 0))
run_converts_or_refuses_example = run_converts_or_refuses "qemu-img" arguments done 0
