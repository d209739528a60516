-- ===== src/Proxmox/Examples.antt =====
-- Two Proxmox endpoints, a machine with one disk and one network card, and a task of three ticks.
use drishti_server_migration.Base.{
  ℕ, ◌-◌, String, ℤ, pos, Bool, true, false, ◌||◌, none, some, [], ◌∷◌, List, Message, Result, ok,
  err, Eff, is_ok, ◌≡◌, ◌↔◌, refl, ap, sym, arith, ◌==◌, if◌then◌else◌, leb, ◌>>=◌,
}
use drishti_server_migration.Domain.{
  Plan, Connection, proxmox, source, target, connected, Role, Vm, Nic, InventoryRoot, Host, Bridge,
  NetworkMap,
}
use drishti_server_migration.Base.Hoare.{Keeps}
use drishti_server_migration.Fixtures.{vm, node, plan}
use drishti_server_migration.Stores.{World}
use drishti_server_migration.Api.Approvals.{RemoteMigration}
use drishti_server_migration.Proxmox.{RemoteApi, TaskStatus, MigrateForm}
use drishti_server_migration.Proxmox.Maps.{
  find_source_vm, find_target_node, valid_storage_maps, valid_network_maps, uniform_target_storage,
  uniform_target_bridge,
}
use drishti_server_migration.Proxmox.Start.{start_remote_migration}
use drishti_server_migration.Proxmox.Wait.{wait_remote_migration, verify_remote_migration}
use drishti_server_migration.Proxmox.Checked.{IsReady}
use drishti_server_migration.Proxmox.Planned.{IsPlanned}
use drishti_server_migration.Proxmox.Started.{
  IsUnasked, start_remote_migration-IsReady, start_remote_migration-Keeps,
}
use drishti_server_migration.Proxmox.Waiting.{
  IsTicking, source_answer, target_answer, wait_remote_migration-ends, verify_remote_migration_iff,
}

-- The ticks that a task has left, and whether a source was ever deleted.
record Platforms : Type 0 where
  ticks : ℕ
  deleted : Bool

abbrev card : Nic
card = record {
  id = "nic-1";
  label = "net0";
  mac_address = "";
  network_id = "";
  connected = true;
  model = "virtio";
}

abbrev guest : Vm
guest = record vm { nics = card ∷ [] }

abbrev host : Host
host = record {
  id = "pve0";
  name = "pve0";
  power_state = "on";
  cpu_total_mhz = pos 1;
  cpu_used_mhz = pos 0;
  memory_total_mb = pos 1;
  memory_used_mb = pos 0;
  vms = guest ∷ [];
}

abbrev bridge : Bridge
bridge = record { id = "vmbr0"; name = "vmbr0"; vlan_aware = false; ports = [] }

abbrev inventory_of_both : InventoryRoot
inventory_of_both = record {
  connection_id = "src";
  generated_at = 0;
  datacenters =
      record {
        id = "dc";
        name = "dc";
        clusters = record { id = "c"; name = "c"; hosts = host ∷ [] } ∷ [];
      }
      ∷ [];
  nodes = record node { bridges = bridge ∷ [] } ∷ [];
}

abbrev endpoint_at : Role → String → Connection
endpoint_at role url = record {
  id = url;
  name = url;
  kind = proxmox;
  role = role;
  endpoint = url;
  insecure_tls = false;
  status = connected;
  secret_ref = "lab";
  created_at = 0;
  updated_at = 0;
}

abbrev source_end : Connection
source_end = endpoint_at source "https://a"

abbrev target_end : Connection
target_end = endpoint_at target "https://b"

abbrev migrated_plan : Plan
migrated_plan = record plan {
  network_maps = record { source_nic_id = "nic-1"; target_bridge = "vmbr0"; vlan_id = pos 0 } ∷ [];
}

abbrev api : RemoteApi Platforms
api = record {
  inventory = λ c x. (ok inventory_of_both, x);
  open_client = λ c. ok tt;
  config_keys = λ c n v x. (ok [], x);
  read_next_vmid = λ c x. (ok (pos 101), x);
  post_migrate = λ c n v form x. (ok "UPID:1", record x { deleted = x.deleted || form.delete });
  task_status = λ c n u x. (
    ok (record { status = if leb x.ticks 0 then "stopped" else "running"; exit_status = "OK" }),
    x,
  );
  task_log = λ c n u x. (ok [], x);
  guest_status = λ c n v x. (ok "stopped", x);
  normalize_endpoint = λ e. ok e;
  parse_url = λ e. some (e, "");
  credentials = λ r. ok ("id", "secret");
  tls_fingerprint = λ h p x. (ok "AA", x);
  atoi = λ s. some (pos 100);
  sort_strings = λ ss. ss;
  clean_line = λ l. l;
  has_percent = λ l. false;
  tick = λ x. (none, record x { ticks = x.ticks - 1 });
}

abbrev platforms : Platforms
platforms = record { ticks = 3; deleted = false }

abbrev running_task : RemoteMigration
running_task = record {
  upid = "UPID:1";
  source_node = "pve0";
  target_node = "pve1";
  source_vmid = pos 100;
  target_vmid = pos 101;
}

started :
    start_remote_migration api migrated_plan source_end target_end (pos 0) platforms
    ≡ (ok running_task, platforms)
unfolding start_remote_migration ◌>>=◌ find_source_vm find_target_node valid_storage_maps
    valid_network_maps uniform_target_storage uniform_target_bridge
started = refl

start_remote_migration-IsReady_example :
    ((sources : InventoryRoot) × (targets : InventoryRoot) × (((api.inventory source_end
            platforms).0
          ≡ ok sources)
        × ((api.inventory target_end platforms).0 ≡ ok targets)
        × IsReady api migrated_plan source_end target_end sources targets))
    × ((n : NetworkMap) × (ns : List NetworkMap) × (migrated_plan.network_maps ≡ n ∷ ns))
start_remote_migration-IsReady_example =
    start_remote_migration-IsReady api migrated_plan source_end target_end (pos 0) running_task
      platforms platforms started

abbrev IsUndeleted : Platforms → Type 0
IsUndeleted x = x.deleted ≡ false

unasked : IsUnasked api IsUndeleted
unasked = record {
  inventory = λ c. record { at = λ x h. h };
  config_keys = λ c n v. record { at = λ x h. h };
  next_vmid = λ c. record { at = λ x h. h };
  fingerprint = λ h p. record { at = λ x k. k };
}

posted :
    (c : Connection) (n : String) (v : ℤ) (form : MigrateForm)
    → IsPlanned api migrated_plan source_end target_end (pos 0) c n v form
    → Keeps IsUndeleted (api.post_migrate c n v form)
posted c n v form sent = record { at = λ x h. ground (arith, h, sent.retaining.no_delete) }

start_remote_migration-Keeps_example :
    (start_remote_migration api migrated_plan source_end target_end (pos 0) platforms).1.deleted
    ≡ false
start_remote_migration-Keeps_example =
    start_remote_migration-Keeps api IsUndeleted unasked migrated_plan source_end target_end (pos 0)
      posted platforms refl

abbrev silent : Message → Eff (World Platforms) Unit
silent m w = (ok tt, w)

abbrev world : World Platforms
world = record { jobs = []; plans = []; events = []; ext = platforms }

abbrev text_in : Result TaskStatus → String
text_in (ok status) = status.status
text_in (err e) = ""

stopped_at_zero :
    (x : Platforms) (status : TaskStatus)
    → (api.task_status source_end "pve0" "UPID:1" x).0 ≡ ok status
    → x.ticks ≡ 0
    → (status.status == "stopped") ≡ true
stopped_at_zero x status got z = rw (sym (ap text_in got), z) refl

task-IsTicking : IsTicking api source_end running_task (λ x. x.ticks)
task-IsTicking = record {
  stops = stopped_at_zero;
  status_free = λ x. ground arith;
  log_free = λ x. ground arith;
  tick_counts = λ x. ground arith;
}

wait_remote_migration-ends_example :
    (r : Result Unit) × ((wait_remote_migration api 4 source_end running_task silent world).0
      ≡ ok (some r))
wait_remote_migration-ends_example =
    wait_remote_migration-ends api source_end running_task silent (λ x. x.ticks) task-IsTicking
      (λ m w. refl) 3 world refl (ground arith)

verify_remote_migration_iff_example :
    (is_ok (verify_remote_migration api source_end target_end running_task platforms).0 ≡ true) ↔ (
      ((source_answer api source_end target_end running_task platforms).0 ≡ ok "stopped")
      × ((target_answer api source_end target_end running_task platforms).0 ≡ ok "stopped"))
verify_remote_migration_iff_example =
    verify_remote_migration_iff api source_end target_end running_task platforms refl refl
