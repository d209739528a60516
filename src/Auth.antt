-- ===== src/Auth.antt =====
-- Authentication: the users and sessions of backend/internal/auth. What the source calls of bcrypt,
-- SHA-256, the random source, the clock and `strings` is an argument (`Security`).
pub mod Users
pub mod Sessions
pub mod Handlers
pub mod Requests
pub mod Admins
pub mod Changes
pub mod Lifetimes
pub mod Guards
pub mod Lockout
mod Examples
use drishti_server_migration.Base.{ℕ, String, Bool, List, Option, Result, Eff}
use drishti_server_migration.Base.Dict.{Dict}
use drishti_server_migration.Domain.{AuditEvent, Time}
use drishti_server_migration.Access.{Role, User}

pub record UserRecord : Type 0 where
  pub id : String
  pub username : String
  pub name : String
  pub roles : List Role
  pub active : Bool
  pub password_hash : String
  pub created_at : Time
  pub updated_at : Time

-- `ManagedUser`, which leaves the password hash out.
pub record ManagedUser : Type 0 where
  pub id : String
  pub username : String
  pub name : String
  pub roles : List Role
  pub active : Bool
  pub created_at : Time
  pub updated_at : Time

abbrev pub public_user : UserRecord → ManagedUser
public_user u = record {
  id = u.id;
  username = u.username;
  name = u.name;
  roles = u.roles;
  active = u.active;
  created_at = u.created_at;
  updated_at = u.updated_at;
}

abbrev pub session_user : UserRecord → User
session_user u = record { id = u.id; name = u.name; email = ""; roles = u.roles }

-- `UserCredential` of the users file
pub record Credential : Type 0 where
  pub id : String
  pub name : String
  pub roles : List Role
  pub username : String
  pub password_hash : String

pub record Session : Type 0 where
  pub user : User
  pub csrf_token : String
  pub expires_at : Time

-- `MemoryUserStore` and the sessions of `Service`, beside the outside state: the audit store, the
-- random source and the clock. The users are found by their normalized names, the sessions by the
-- hash of their token.
pub record Accounts (X : Type 0) : Type 0 where
  pub users : Dict UserRecord
  pub sessions : Dict Session
  pub ext : X

pub record Security (X : Type 0) : Type 0 where
  pub normalize_username : String → String
  pub trim : String → String
  -- `bcrypt.Cost(hash) == nil`
  pub is_hash : String → Bool
  -- `bcrypt.CompareHashAndPassword(hash, password) == nil`
  pub verifies : String → String → Bool
  pub hash_password : String → Eff X String
  -- `utf8.ValidString`, `len`, and `range` on a string
  pub is_utf8 : String → Bool
  pub byte_length : String → ℕ
  pub runes : String → List ℕ
  -- `sort.Slice` by username
  pub sort_records : List UserRecord → List UserRecord
  pub token_key : String → String
  pub random_token : Eff X String
  pub now : X → Time × X
  pub ttl : Time
  pub audit : Option (AuditEvent → Eff X (Unit {0}))
