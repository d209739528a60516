-- ===== src/Engine/Calls/Steps.antt =====
-- The calls of the functions of the steps, in any state of the platforms.
use drishti_server_migration.Base.{
  String, ℤ, List, [], ◌∷◌, Eff, pure, throw, with_error, ◌>>=◌, arith,
}
use drishti_server_migration.Base.Hoare.{Keeps, Keeps-bind, Keeps-with_error, keeps_rules}
use drishti_server_migration.Domain.{Plan}
use drishti_server_migration.Platform.{SourceAdapter, TargetAdapter}
use drishti_server_migration.Platform.Traced.{Call, traced_source, traced_target}
use drishti_server_migration.Engine.{Evidence}
use drishti_server_migration.Engine.Disks.{
  DiskWork, verify_off, stop_source, power_off_source, create_target, export_disk, export_disks,
  convert_disks, attach_disk, attach_disks, isolated_boot,
}
use drishti_server_migration.Engine.Calls.{IsSafe, unlogged}

-- The log of the state is safe.
pub record IsSafeLog {X : Type 0} (plan : Plan) (s : X × List Call) : Type 0 where
  pub safe : IsSafe plan s.1

module _ {X : Type 0} (src : SourceAdapter X) (plan : Plan) where
  power_off_source_log :
      (x : X) (log : List Call)
      → IsSafe plan log
      → IsSafe plan (power_off_source (traced_source src) plan (x, log)).1.1
  unfolding power_off_source stop_source verify_off ◌>>=◌ with_error pure throw traced_source
  power_off_source_log x log h = ground arith

  pub power_off_source-IsSafeLog :
      Keeps (IsSafeLog plan) (power_off_source (traced_source src) plan)
  power_off_source-IsSafeLog = record {
    at = λ s h. record { safe = power_off_source_log s.0 s.1 h.safe };
  }

  export_disk-IsSafeLog :
      (d : DiskWork) → Keeps (IsSafeLog plan) (export_disk (traced_source src) plan d)
  unfolding export_disk ◌>>=◌ with_error pure traced_source
  export_disk-IsSafeLog d = record { at = λ s h. record { safe = ground (arith, h.safe) } }

  pub export_disks-IsSafeLog :
      (disks : List DiskWork) → Keeps (IsSafeLog plan) (export_disks (traced_source src) plan disks)
  unfolding export_disks
  export_disks-IsSafeLog disks = search (keeps_rules, export_disk-IsSafeLog)

module _ {X : Type 0} {A : Type 0} where
  pub unlogged-IsSafeLog : (plan : Plan) (m : Eff X A) → Keeps (IsSafeLog plan) (unlogged m)
  unlogged-IsSafeLog plan m = record { at = λ s h. record { safe = h.safe } }

module _ {X : Type 0} (plan : Plan)
    (convert : String → String → String → Eff (X × List Call) Evidence) where
  pub convert_disks-IsSafeLog :
      (disks : List DiskWork)
      → ((input output format : String) → Keeps (IsSafeLog plan) (convert input output format))
      → Keeps (IsSafeLog plan) (convert_disks convert disks)
  unfolding convert_disks
  convert_disks-IsSafeLog [] h = search keeps_rules
  convert_disks-IsSafeLog (d ∷ ds) h =
      Keeps-bind _ _ (Keeps-with_error _ _ (h d.export_path d.converted_path _))
        λ _. Keeps-bind _ _ (convert_disks-IsSafeLog ds h) λ _. search keeps_rules

module _ {X : Type 0} (tgt : TargetAdapter X) (plan : Plan) where
  pub create_target-IsSafeLog :
      (vmid : ℤ) → Keeps (IsSafeLog plan) (create_target (traced_target tgt) plan vmid)
  unfolding create_target ◌>>=◌ pure traced_target
  create_target-IsSafeLog vmid = record { at = λ s h. record { safe = ground (arith, h.safe) } }

  attach_disk-IsSafeLog :
      (vmid : ℤ) (d : DiskWork)
      → Keeps (IsSafeLog plan) (attach_disk (traced_target tgt) plan vmid d)
  unfolding attach_disk with_error traced_target
  attach_disk-IsSafeLog vmid d = record { at = λ s h. record { safe = ground (arith, h.safe) } }

  pub attach_disks-IsSafeLog :
      (vmid : ℤ) (disks : List DiskWork)
      → Keeps (IsSafeLog plan) (attach_disks (traced_target tgt) plan vmid disks)
  unfolding attach_disks
  attach_disks-IsSafeLog vmid disks = search (keeps_rules, attach_disk-IsSafeLog)

  pub isolated_boot-IsSafeLog :
      (vmid : ℤ) → Keeps (IsSafeLog plan) (isolated_boot (traced_target tgt) vmid)
  unfolding isolated_boot ◌>>=◌ traced_target
  isolated_boot-IsSafeLog vmid = record { at = λ s h. record { safe = ground (arith, h.safe) } }

  pub reserve_vmid-IsSafeLog :
      (node : String) → Keeps (IsSafeLog plan) ((traced_target tgt).reserve_vmid node)
  unfolding traced_target
  reserve_vmid-IsSafeLog node = record { at = λ s h. record { safe = ground (arith, h.safe) } }
