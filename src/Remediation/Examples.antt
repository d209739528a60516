-- ===== src/Remediation/Examples.antt =====
-- A network restore for a Linux guest.
use drishti_server_migration.Base.{true, ◌≡◌, refl}
use drishti_server_migration.Fixtures.{vm}
use drishti_server_migration.Remediation.{collect_facts, plan_restore, safe-plan_restore_iff}

safe-plan_restore_iff_example : (plan_restore (collect_facts vm) true true).safe ≡ true
unfolding collect_facts
safe-plan_restore_iff_example =
    (safe-plan_restore_iff (collect_facts vm) true true).0.1 (refl, refl, refl)
