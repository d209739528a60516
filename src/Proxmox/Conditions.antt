-- ===== src/Proxmox/Conditions.antt =====
-- The conditions of a remote migration, and that the checks of its parts pass only under them.
use text.Mathlib.Text.{starts_with}
use drishti_server_migration.Base.{
  from_result, ℤ, String, Bool, true, false, ◌||◌, Option, none, some, List, [], ◌∷◌, ◌++◌, any,
  All, is_empty, Message, Result, ok, err, pure, if◌then◌else◌, ◌==◌, eq_iff, ◌≡◌, ◌⊎◌, inl, inr,
  ap, refl, arith, Bool-cases,
}
use drishti_server_migration.Base.Hoare.{bind_returned, wrapped_pair}
use drishti_server_migration.Domain.{
  Plan, Connection, PlatformKind, proxmox, Role, source, target, MigrationStrategy, cold, pve_live,
  warm, other_strategy, Vm, PowerState, on, off, is_on, is_off, TargetNode, PreflightCheck, is_fail,
}
use drishti_server_migration.Proxmox.{RemoteApi}
use drishti_server_migration.Proxmox.Maps.{parse_qemu_vmid, normalized_strategy, is_live}
use drishti_server_migration.Proxmox.Located.{
  IsStorageMapped, IsNetworkMapped, valid_storage_maps-IsStorageMapped,
  valid_network_maps-IsNetworkMapped,
}
use drishti_server_migration.Proxmox.Remote.{
  is_implemented, is_lab_scope, is_proxmox, is_source_role, is_target_role, is_blocked_key,
  blocked_keys, normalize_compare, live_migration_compatible, scope_checks, live_checks,
  cold_checks, target_checks, power_checks,
}

abbrev pub has_failed : List PreflightCheck → Bool
has_failed checks = any (λ c. is_fail c.status) checks

any-++ : (xs ys : List PreflightCheck) → has_failed (xs ++ ys) ≡ (has_failed xs || has_failed ys)
any-++ [] ys = refl
any-++ (x ∷ xs) ys = ground (arith, any-++ xs ys)

pub none_failed-++ :
    (xs ys : List PreflightCheck)
    → has_failed (xs ++ ys) ≡ false
    → (has_failed xs ≡ false) × (has_failed ys ≡ false)
none_failed-++ xs ys h = ground (arith, h, any-++ xs ys)

-- The checks that were returned are known, and so are those after the first.
pub after_first :
    {X : Type 0} (c : PreflightCheck) (rest cs : List PreflightCheck) (x y : X)
    → pure (c ∷ rest) x ≡ (ok cs, y)
    → has_failed cs ≡ false
    → has_failed rest ≡ false
unfolding pure
after_first c rest cs x y h good = ground (arith, h, good)

pub returned_checks :
    {X : Type 0} (all cs : List PreflightCheck) (x y : X)
    → pure all x ≡ (ok cs, y)
    → has_failed cs ≡ false
    → has_failed all ≡ false
unfolding pure
returned_checks all cs x y h good = ground (arith, h, good)

-- What a strategy may be: cold, which is also the default, or the live one.
abbrev pub IsImplemented : MigrationStrategy → Type 0
IsImplemented strategy = (strategy ≡ cold) ⊎ (strategy ≡ pve_live) ⊎ (strategy ≡ other_strategy "")

implemented_lem :
    (strategy : MigrationStrategy)
    → is_implemented (normalized_strategy strategy) ≡ true
    → IsImplemented strategy
implemented_lem cold h = inl refl
implemented_lem pve_live h = inr (inl refl)
implemented_lem warm h = ground (arith, h)
implemented_lem (other_strategy s) h = elim (Bool-cases (s == "")) [
  | inl default ↦ inr (inr (ap other_strategy ((eq_iff s "").0 default)))
  | inr other ↦ ground (arith, h, other)
]

-- No device that is passed through, and no argument of the guest's own.
abbrev pub IsMovableKey : String → Type 0
IsMovableKey key =
    (starts_with key "hostpci" ≡ false)
    × (starts_with key "usb" ≡ false)
    × ¬ (key ≡ "ivshmem")
    × ¬ (key ≡ "args")

movable_key : (key : String) → is_blocked_key key ≡ false → IsMovableKey key
movable_key key h = (
  ground (arith, h),
  ground (arith, h),
  ground (arith, h, eq_iff key "ivshmem"),
  ground (arith, h, eq_iff key "args"),
)

movable_keys : (keys : List String) → is_empty (blocked_keys keys) ≡ true → All IsMovableKey keys
movable_keys [] h = tt
movable_keys (k ∷ ks) h = elim (Bool-cases (is_blocked_key k)) [
  | inl blocked ↦ ground (arith, h, blocked)
  | inr free ↦ (movable_key k free, movable_keys ks (ground (arith, h, free)))
]

lab_scope_lem :
    (src tgt : Connection)
    → is_lab_scope src tgt ≡ true
    → (src.kind ≡ proxmox) × (tgt.kind ≡ proxmox) × (src.role ≡ source) × (tgt.role ≡ target)
lab_scope_lem src tgt h = (
  proxmox_lem src.kind (ground (arith, h)),
  proxmox_lem tgt.kind (ground (arith, h)),
  source_lem src.role (ground (arith, h)),
  target_lem tgt.role (ground (arith, h)),
)
  where
    proxmox_lem : (kind : PlatformKind) → is_proxmox kind ≡ true → kind ≡ proxmox
    proxmox_lem kind h = ground (arith, h)

    source_lem : (role : Role) → is_source_role role ≡ true → role ≡ source
    source_lem role h = ground (arith, h)

    target_lem : (role : Role) → is_target_role role ≡ true → role ≡ target
    target_lem role h = ground (arith, h)

on_lem : (power : PowerState) → is_on power ≡ true → power ≡ on
on_lem power h = ground (arith, h)

off_lem : (power : PowerState) → is_off power ≡ true → power ≡ off
off_lem power h = ground (arith, h)

-- An endpoint as it is compared: its normal form, where it has one.
abbrev pub compared : Result String → String → String
compared (ok value) endpoint = value
compared (err e) endpoint = endpoint

module _ {X : Type 0} (api : RemoteApi X) where
  abbrev pub IsInScope : Plan → Connection → Connection → Type 0
  IsInScope plan src tgt =
      IsImplemented plan.strategy
      × ((src.kind ≡ proxmox) × (tgt.kind ≡ proxmox) × (src.role ≡ source) × (tgt.role ≡ target))
      × ¬ (
          compared (api.normalize_endpoint src.endpoint) src.endpoint
          ≡ compared (api.normalize_endpoint tgt.endpoint) tgt.endpoint)

  -- The node is online, and has a storage and a bridge for all that the machine has.
  abbrev pub IsPlaced : Plan → Vm → TargetNode → Type 0
  IsPlaced plan vm node =
      (node.online ≡ true)
      × IsStorageMapped vm node plan.storage_maps
      × IsNetworkMapped vm node plan.network_maps

  -- The source has given the keys of the configuration of the machine with that id, by its number, on
  -- that host, and each of them can move.
  abbrev pub IsMovable : Connection → String → String → Type 0
  IsMovable src id host =
      (vmid : ℤ) × (before : X) × (keys : List String) × ((parse_qemu_vmid api.atoi id ≡ ok vmid)
        × ((api.config_keys src host vmid before).0 ≡ ok keys)
        × All IsMovableKey keys)

  -- For a live migration the machine runs and can move; for a cold one it is off.
  abbrev pub IsPowered : MigrationStrategy → Connection → String → Vm → String → Type 0
  IsPowered pve_live src id vm host = (vm.power_state ≡ on) × IsMovable src id host
  IsPowered _ src id vm host = vm.power_state ≡ off

  abbrev pub IsPoweredBy : Bool → Connection → String → Vm → String → Type 0
  IsPoweredBy true src id vm host = (vm.power_state ≡ on) × IsMovable src id host
  IsPoweredBy false src id vm host = vm.power_state ≡ off

  pub normalized_strategy-IsPowered :
      (strategy : MigrationStrategy) (src : Connection) (id : String) (vm : Vm) (host : String)
      → IsPoweredBy (is_live (normalized_strategy strategy)) src id vm host
      → IsPowered strategy src id vm host
  normalized_strategy-IsPowered cold src id vm host h = h
  normalized_strategy-IsPowered pve_live src id vm host h = h
  normalized_strategy-IsPowered warm src id vm host h = h
  normalized_strategy-IsPowered (other_strategy s) src id vm host h = other_by (s == "") h
    where
      other_by :
          (b : Bool)
          → IsPoweredBy (is_live (if b then cold else other_strategy s)) src id vm host
          → vm.power_state ≡ off
      other_by true h = h
      other_by false h = h

  pub scope_checks-IsInScope :
      (plan : Plan) (src tgt : Connection)
      → has_failed (scope_checks api plan src tgt) ≡ false
      → IsInScope plan src tgt
  scope_checks-IsInScope plan src tgt h = (
    implemented_lem plan.strategy (ground (arith, h)),
    lab_scope_lem src tgt (ground (arith, h)),
    ground (
      arith,
      h,
      eq_iff (normalize_compare api src.endpoint) (normalize_compare api tgt.endpoint),
    ),
  )

  pub target_checks-IsPlaced :
      (plan : Plan) (vm : Vm) (o : Option TargetNode)
      → has_failed (target_checks api plan vm o) ≡ false
      → (node : TargetNode) × ((o ≡ some node) × IsPlaced plan vm node)
  target_checks-IsPlaced plan vm none h = ground (arith, h)
  target_checks-IsPlaced plan vm (some node) h = (
    node,
    (
      refl,
      (
        ground (arith, h),
        valid_storage_maps-IsStorageMapped vm node plan.storage_maps (ground (arith, h)),
        valid_network_maps-IsNetworkMapped vm node plan.network_maps (ground (arith, h)),
      ),
    ),
  )

  live_checks-IsOn :
      (vm : Vm) (found : Bool × Message)
      → has_failed (live_checks api vm found) ≡ false
      → (vm.power_state ≡ on) × (found.0 ≡ true)
  live_checks-IsOn vm (compatible, detail) h =
      (on_lem vm.power_state (ground (arith, h)), ground (arith, h))

  cold_checks-IsOff : (vm : Vm) → has_failed (cold_checks api vm) ≡ false → vm.power_state ≡ off
  cold_checks-IsOff vm h = off_lem vm.power_state (ground (arith, h))

  live_migration_compatible-IsMovable :
      (src : Connection) (host id : String) (found : Bool × Message) (x y : X)
      → live_migration_compatible api src host id x ≡ (ok found, y)
      → found.0 ≡ true
      → IsMovable src id host
  unfolding live_migration_compatible pure from_result
  live_migration_compatible-IsMovable src host id found x y h good =
      let (vmid, (number, h1)) = bind_returned _ _ x y found h in
      let (_, (_, h2)) = bind_returned _ _ _ y found h1 in
      let (keys, (asked, last)) = bind_returned _ _ _ y found h2 in
      (
        vmid,
        _,
        keys,
        (ap (λ p. p.0) number, ap (λ p. p.0) asked, movable_keys keys (ground (arith, last, good))),
      )

  pub power_checks-IsPowered :
      (live : Bool) (plan : Plan) (src : Connection) (vm : Vm) (node : String)
      (cs : List PreflightCheck) (x y : X)
      → power_checks api live plan src vm node x ≡ (ok cs, y)
      → has_failed cs ≡ false
      → IsPoweredBy live src plan.source_vm_id vm node
  unfolding power_checks pure
  power_checks-IsPowered true plan src vm node cs x y h good =
      let (found, (ran, last)) = bind_returned _ _ x y cs h in
      let (runs, compatible) = live_checks-IsOn vm found (ground (arith, last, good)) in
      (
        runs,
        live_migration_compatible-IsMovable src node plan.source_vm_id found x _
            (wrapped_pair _ _ x found _ ran) compatible,
      )
  power_checks-IsPowered false plan src vm node cs x y h good =
      cold_checks-IsOff vm (ground (arith, h, good))
