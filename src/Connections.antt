-- ===== src/Connections.antt =====
-- The registry of connections: `Provider` of backend/internal/mock/inventory.go, the credentials of
-- backend/internal/credential/memory.go, and the handlers of backend/internal/api/connections.go that
-- change them. The connectors, the audit store, the clock and the conversion of texts are arguments.
pub mod Registry
pub mod Requests
pub mod Consistent
pub mod Served
pub mod Histories
mod Examples
use drishti_server_migration.Base.{ℕ, String, Bool, Option, List, Eff}
use drishti_server_migration.Base.Dict.{Dict}
use drishti_server_migration.Domain.{Connection, Time}

-- `credential.Value`
pub record Login : Type 0 where
  pub username : String
  pub password : String

pub record ConnState (X : Type 0) : Type 0 where
  pub connections : List Connection
  pub credentials : Dict Login
  pub ext : X

pub record CreateInput : Type 0 where
  pub name : String
  pub kind : String
  pub role : String
  pub endpoint : String
  pub insecure_tls : Bool
  pub secret_ref : String
  pub username : String
  pub password : String

pub record ConnOutside (X : Type 0) : Type 0 where
  -- The mode of the backend is not mock.
  pub real_mode : Bool
  pub probe_vmware : CreateInput → Eff X (Unit {0})
  pub probe_proxmox : Option (Connection → Eff X String)
  -- Appends an event: its id, time and actor are the request's.
  pub append_event : String → String → String → String → Eff X (Unit {0})
  pub now : X → Time × X
  pub is_zero : Time → Bool
  pub zero_time : Time
  pub runes : String → List ℕ
  pub text_of : List ℕ → String
  pub sanitize_log : String → String
  pub normalize_id : String → String
