-- ===== src/Platform/Traced.antt =====
-- Any adapters, with a log of the calls that reach them: newest first, each with what was answered
-- where a later decision rests on the answer.
use drishti_server_migration.Base.{String, ℤ, Bool, List, ◌∷◌, Result, Eff}
use drishti_server_migration.Domain.{PowerState}
use drishti_server_migration.Platform.{
  PowerOffApproval, CreateVmSpec, AttachDiskSpec, SourceAdapter, TargetAdapter,
}

pub data Call : Type 0 where
  inventories : Call
  reads_vm : String → Call
  exports : String → String → String → Call
  powers_off : String → PowerOffApproval → Call
  asks_power : String → Result PowerState → Call
  reads_node : String → Call
  reserves : String → Call
  creates : CreateVmSpec → Call
  attaches : ℤ → AttachDiskSpec → Call
  starts : ℤ → Call
  stops : ℤ → Call
  sets_network : ℤ → String → ℤ → Bool → Call
  asks_target : ℤ → Call

module _ {X : Type 0} where
  -- The call is made, and then logged.
  abbrev pub logged : {A : Type 0} → (Result A → Call) → Eff X A → Eff (X × List Call) A
  logged c m (x, log) = let (r, x') = m x in (r, (x', c r ∷ log))

  unfoldable pub traced_source : SourceAdapter X → SourceAdapter (X × List Call)
  traced_source a = record {
    kind = a.kind;
    inventory = logged (λ _. inventories) a.inventory;
    vm = λ id. logged (λ _. reads_vm id) (a.vm id);
    export_disk = λ id disk path. logged (λ _. exports id disk path) (a.export_disk id disk path);
    power_off = λ id approval. logged (λ _. powers_off id approval) (a.power_off id approval);
    power_state = λ id. logged (asks_power id) (a.power_state id);
  }

  unfoldable pub traced_target : TargetAdapter X → TargetAdapter (X × List Call)
  traced_target a = record {
    kind = a.kind;
    inventory = logged (λ _. inventories) a.inventory;
    node = λ id. logged (λ _. reads_node id) (a.node id);
    reserve_vmid = λ id. logged (λ _. reserves id) (a.reserve_vmid id);
    create_vm = λ spec. logged (λ _. creates spec) (a.create_vm spec);
    attach_disk = λ id disk. logged (λ _. attaches id disk) (a.attach_disk id disk);
    start_vm = λ id. logged (λ _. starts id) (a.start_vm id);
    stop_vm = λ id. logged (λ _. stops id) (a.stop_vm id);
    set_network = λ id bridge vlan isolated.
        logged (λ _. sets_network id bridge vlan isolated) (a.set_network id bridge vlan isolated);
    vm_state = λ id. logged (λ _. asks_target id) (a.vm_state id);
  }
