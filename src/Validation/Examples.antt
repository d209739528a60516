-- ===== src/Validation/Examples.antt =====
-- The validation of a running target of a Linux guest.
use drishti_server_migration.Base.{true, all, ◌≡◌, refl}
use drishti_server_migration.Domain.{on}
use drishti_server_migration.Fixtures.{vm}
use drishti_server_migration.Remediation.{collect_facts}
use drishti_server_migration.Validation.{
  default, run, did_pass, passed-run, passed-run-collect_facts_iff,
}

passed-run_example :
    let result = run (default vm) vm on (collect_facts vm) in
    result.passed ≡ all did_pass result.checks
passed-run_example = passed-run (default vm) vm on (collect_facts vm)

passed-run-collect_facts_iff_example : (run (default vm) vm on (collect_facts vm)).passed ≡ true
passed-run-collect_facts_iff_example =
    (passed-run-collect_facts_iff (default vm) vm on).1 (refl, refl)
