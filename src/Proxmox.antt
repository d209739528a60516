-- ===== src/Proxmox.antt =====
-- The remote migration of Proxmox, backend/internal/platform/proxmox/migration.go. The HTTP client of
-- a platform, its inventory, the credentials, the TLS dial and the parsers of the standard library are
-- arguments (`RemoteApi`); what the HTTP client calls is named here by the call's purpose.
pub mod Maps
pub mod Located
pub mod Remote
pub mod Start
pub mod Wait
pub mod Conditions
pub mod Checked
pub mod Planned
pub mod Started
pub mod Waiting
mod Examples
use drishti_server_migration.Base.{ℤ, String, Bool, Option, List, Error, Result, Eff}
use drishti_server_migration.Domain.{Connection, InventoryRoot}

-- The form that starts a migration. `delete` asks Proxmox to delete the source.
pub record MigrateForm : Type 0 where
  pub target_endpoint : String
  pub target_vmid : ℤ
  pub target_storage : String
  pub target_bridge : String
  pub online : Bool
  pub delete : Bool

pub record TaskStatus : Type 0 where
  pub status : String
  pub exit_status : String

pub record RemoteApi (X : Type 0) : Type 0 where
  pub inventory : Connection → Eff X InventoryRoot
  -- `newAPIClient`
  pub open_client : Connection → Result (Unit {0})
  -- The keys of a guest's configuration, in any order
  pub config_keys : Connection → String → ℤ → Eff X (List String)
  pub read_next_vmid : Connection → Eff X ℤ
  pub post_migrate : Connection → String → ℤ → MigrateForm → Eff X String
  pub task_status : Connection → String → String → Eff X TaskStatus
  pub task_log : Connection → String → String → Eff X (List String)
  pub guest_status : Connection → String → ℤ → Eff X String
  pub normalize_endpoint : String → Result String
  -- The host name and the port of a parsed URL
  pub parse_url : String → Option (String × String)
  pub credentials : String → Result (String × String)
  pub tls_fingerprint : String → String → Eff X String
  pub atoi : String → Option ℤ
  pub sort_strings : List String → List String
  -- A line of a task's log without tokens, and whether a percentage stands in it
  pub clean_line : String → String
  pub has_percent : String → Bool
  -- `ctx.Err()` once the context is done, and the tick otherwise
  pub tick : X → Option Error × X
