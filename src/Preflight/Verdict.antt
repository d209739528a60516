-- ===== src/Preflight/Verdict.antt =====
-- When a preflight passes, and which checks and messages it reports.
use drishti_server_migration.Base.{
  ◌≤ℤ◌, ◌≡◌, refl, ◌≢◌, ◌↔◌, ◌⊎◌, inl, inr, Bool, true, false, not, ◌&&◌, List, [], ◌∷◌, ◌++◌, some,
  Message, arith, find, all, All, Option-cases, is_empty, &&-eq-true, &&-of-true, if◌then◌else◌,
  ◌==◌, Bool-cases,
}
use mathlib.Core.List.{append-nil}
use drishti_server_migration.Domain.{
  Plan, StorageMap, Vm, Disk, raw, TargetNode, TargetStorage, on, off, is_fail, PreflightCheck,
  firmware_eq,
}
use drishti_server_migration.Preflight.Checks.{
  check_power_state, check_capacity, free_memory_mb, mapped_disk, check_storage_available, is_raw,
  unsupported_verdict, check_unsupported_features, check_firmware, check_tools_status,
  check_snapshots, check_node_online,
}
use drishti_server_migration.Preflight.{Report, add, note, add_storage, run}

-- The storage that a map names exists on the node and has room for the mapped disk.
pub record Fits (vm : Vm) (node : TargetNode) (m : StorageMap) : Type 0 where
  pub storage : TargetStorage
  pub is_listed : find (λ s. s.id == m.target_storage_id) node.storage ≡ some storage
  pub has_room : (mapped_disk m vm).capacity_bytes ≤ℤ storage.free_bytes

-- What the blocking checks of the engine ask of a plan, a source and a target node.
pub record IsMigratable (plan : Plan) (vm : Vm) (node : TargetNode) : Type 0 where
  pub powered : (vm.power_state ≡ on) ⊎ (vm.power_state ≡ off)
  pub memory : vm.memory_mb ≤ℤ free_memory_mb node
  pub storage : All (Fits vm node) plan.storage_maps
  pub supported : All (λ d. d.format ≢ raw) vm.disks
  pub consolidated : vm.snapshots ≡ []
  pub online : node.online ≡ true

abbrev passes : PreflightCheck → Bool
passes c = not (is_fail c.status)

is_empty-snoc {ℓ} : {A : Type ℓ} (xs : List A) (x : A) → is_empty (xs ++ x ∷ []) ≡ false
is_empty-snoc [] x = refl
is_empty-snoc (y ∷ xs) x = refl

is_empty-add :
    (c : PreflightCheck) (r : Report)
    → is_empty (add c r).blocked ≡ (is_empty r.blocked && passes c)
unfolding add
is_empty-add c r = ground (arith, is_empty-snoc r.blocked c.message)

is_empty-note : (c : PreflightCheck) (r : Report) → is_empty (note c r).blocked ≡ is_empty r.blocked
unfolding note
is_empty-note c r = refl

is_empty-add_storage :
    (vm : Vm) (node : TargetNode) (ms : List StorageMap) (r : Report)
    → is_empty (add_storage vm node ms r).blocked
      ≡ (is_empty r.blocked && all (λ m. passes (check_storage_available m vm node)) ms)
unfolding add_storage
is_empty-add_storage vm node [] r = ground arith
is_empty-add_storage vm node (m ∷ ms) r = ground (
  arith,
  is_empty-add_storage vm node ms (add (check_storage_available m vm node) r),
  is_empty-add (check_storage_available m vm node) r,
)

passes-power :
    (vm : Vm)
    → (passes (check_power_state vm) ≡ true) ↔ ((vm.power_state ≡ on) ⊎ (vm.power_state ≡ off))
unfolding check_power_state
passes-power vm = ground arith

passes-capacity :
    (vm : Vm) (node : TargetNode)
    → (passes (check_capacity vm node) ≡ true) ↔ (vm.memory_mb ≤ℤ free_memory_mb node)
unfolding check_capacity
passes-capacity vm node = ground arith

passes-snapshots : (vm : Vm) → (passes (check_snapshots vm) ≡ true) ↔ (vm.snapshots ≡ [])
unfolding check_snapshots
passes-snapshots vm = ground arith

passes-online :
    (node : TargetNode) → (passes (check_node_online node) ≡ true) ↔ (node.online ≡ true)
unfolding check_node_online
passes-online node = ground arith

passes-storage :
    (vm : Vm) (node : TargetNode) (m : StorageMap)
    → (passes (check_storage_available m vm node) ≡ true) ↔ Fits vm node m
unfolding check_storage_available
passes-storage vm node m =
    elim (Option-cases (find (λ s. s.id == m.target_storage_id) node.storage)) [
      | inl missing ↦ rw missing (λ h. cc, λ f. cc (f.is_listed))
      | inr (s, listed) ↦ rw listed (
        λ h. record { storage = s; is_listed = listed; has_room = ground arith },
        λ f. ground (arith, f.is_listed, f.has_room),
      )
    ]

find_raw :
    (ds : List Disk)
    → (passes (unsupported_verdict (find (λ d. is_raw d.format) ds)) ≡ true)
      ↔ All (λ d. d.format ≢ raw) ds
find_raw [] = (λ h. tt, λ h. refl)
find_raw (d ∷ ds) = ground (arith, find_raw ds)

passes-unsupported :
    (vm : Vm) → (passes (check_unsupported_features vm) ≡ true) ↔ All (λ d. d.format ≢ raw) vm.disks
unfolding check_unsupported_features
passes-unsupported vm = find_raw vm.disks

all_iff {ℓ} :
    {P : StorageMap → Type ℓ} (p : StorageMap → Bool)
    → ((m : StorageMap) → (p m ≡ true) ↔ P m)
    → (ms : List StorageMap) → (all p ms ≡ true) ↔ All P ms
all_iff p h [] = (λ _. tt, λ _. refl)
all_iff p h (m ∷ ms) = (
  λ e. let (e0, e1) = &&-eq-true (p m) (all p ms) e in ((h m).0 e0, (all_iff p h ms).0 e1),
  λ a. &&-of-true (p m) (all p ms) ((h m).1 a.0) ((all_iff p h ms).1 a.1),
)

storage_iff :
    (plan : Plan) (vm : Vm) (node : TargetNode)
    → (all (λ m. passes (check_storage_available m vm node)) plan.storage_maps ≡ true)
      ↔ All (Fits vm node) plan.storage_maps
storage_iff plan vm node = all_iff _ (passes-storage vm node) plan.storage_maps

six :
    (a b c d e f : Bool)
    → ((a && b && c && d && e && f) ≡ true)
      ↔ ((a ≡ true) × (b ≡ true) × (c ≡ true) × (d ≡ true) × (e ≡ true) × (f ≡ true))
six a b c d e f = ground arith

-- The verdict is the conjunction of the six blocking checks.
pass-run :
    (plan : Plan) (vm : Vm) (node : TargetNode)
    → (run plan vm node).pass ≡ (
        passes (check_power_state vm)
        && passes (check_capacity vm node)
        && all (λ m. passes (check_storage_available m vm node)) plan.storage_maps
        && passes (check_unsupported_features vm)
        && passes (check_snapshots vm)
        && passes (check_node_online node))
unfolding run
pass-run plan vm node = simp (is_empty-add, is_empty-note, is_empty-add_storage)

-- The preflight passes exactly when the plan, the source and the target node satisfy every
-- blocking condition of `IsMigratable`.
pub pass-run_iff :
    (plan : Plan) (vm : Vm) (node : TargetNode)
    → ((run plan vm node).pass ≡ true) ↔ IsMigratable plan vm node
pass-run_iff plan vm node = rw (pass-run plan vm node) (
  λ h.
      let (p, c, s, u, n, o) = (six _ _ _ _ _ _).0 h in
      record {
        powered = (passes-power vm).0 p;
        memory = (passes-capacity vm node).0 c;
        storage = (storage_iff plan vm node).0 s;
        supported = (passes-unsupported vm).0 u;
        consolidated = (passes-snapshots vm).0 n;
        online = (passes-online node).0 o;
      },
  λ m. (six _ _ _ _ _ _).1 (
    (passes-power vm).1 m.powered,
    (passes-capacity vm node).1 m.memory,
    (storage_iff plan vm node).1 m.storage,
    (passes-unsupported vm).1 m.supported,
    (passes-snapshots vm).1 m.consolidated,
    (passes-online node).1 m.online,
  ),
)

-- The messages of the failed checks, in order.
abbrev pub failures : List PreflightCheck → List Message
failures [] = []
failures (c ∷ cs) = let rest = failures cs in if is_fail c.status then c.message ∷ rest else rest

-- The report's blocking messages are those of its failed checks.
record IsAccurate (r : Report) : Type 0 where
  by_failures : r.blocked ≡ failures r.checks

failures-append : (cs ds : List PreflightCheck) → failures (cs ++ ds) ≡ failures cs ++ failures ds
failures-append [] ds = refl
failures-append (c ∷ cs) ds = ground (arith, failures-append cs ds)

add-IsAccurate : (c : PreflightCheck) (r : Report) → IsAccurate r → IsAccurate (add c r)
unfolding add
add-IsAccurate c r h = record {
  by_failures =
      ground
        (arith, h.by_failures, failures-append r.checks (c ∷ []), append-nil (failures r.checks));
}

note-IsAccurate :
    (c : PreflightCheck) (r : Report)
    → is_fail c.status ≡ false
    → IsAccurate r
    → IsAccurate (note c r)
unfolding note
note-IsAccurate c r e h = record {
  by_failures =
      ground (
        arith,
        e,
        h.by_failures,
        failures-append r.checks (c ∷ []),
        append-nil (failures r.checks),
      );
}

add_storage-IsAccurate :
    (vm : Vm) (node : TargetNode) (ms : List StorageMap) (r : Report)
    → IsAccurate r
    → IsAccurate (add_storage vm node ms r)
unfolding add_storage
add_storage-IsAccurate vm node [] r h = h
add_storage-IsAccurate vm node (m ∷ ms) r h =
    add_storage-IsAccurate vm node ms _ (add-IsAccurate _ r h)

firmware_never_fails : (vm : Vm) (plan : Plan) → is_fail (check_firmware vm plan).status ≡ false
unfolding check_firmware
firmware_never_fails vm plan = elim (Bool-cases (firmware_eq vm.firmware plan.firmware)) [
  | inl same ↦ rw same
  | inr differ ↦ rw differ
]

tools_never_fail : (vm : Vm) → is_fail (check_tools_status vm).status ≡ false
unfolding check_tools_status
tools_never_fail vm = ground arith

-- The blocking messages are exactly the messages of the failed checks, in the order of the checks.
pub blocked-run :
    (plan : Plan) (vm : Vm) (node : TargetNode)
    → (run plan vm node).blocked ≡ failures (run plan vm node).checks
unfolding run
blocked-run plan vm node =
    let first = add-IsAccurate (check_power_state vm) _ (record { by_failures = refl }) in
    let second = add-IsAccurate (check_capacity vm node) _ first in
    let third = add_storage-IsAccurate vm node plan.storage_maps _ second in
    let fourth = add-IsAccurate (check_unsupported_features vm) _ third in
    let fifth = note-IsAccurate (check_firmware vm plan) _ (firmware_never_fails vm plan) fourth in
    let sixth = note-IsAccurate (check_tools_status vm) _ (tools_never_fail vm) fifth in
    let seventh = add-IsAccurate (check_snapshots vm) _ sixth in
    let eighth = add-IsAccurate (check_node_online node) _ seventh in eighth.by_failures
