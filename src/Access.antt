-- ===== src/Access.antt =====
-- Access control: the roles and permissions of backend/internal/rbac/rbac.go, and the routes of
-- backend/internal/server/auth_routes.go with the action that each requires.
pub mod Duties
mod Examples
use drishti_server_migration.Base.{String, Bool, true, false, List, [], ◌∷◌, any, ◌==◌}

pub data Role : Type 0 where
  viewer planner operator approver platform_admin auditor : Role
  unknown_role : String → Role

pub data Action : Type 0 where
  view create_plan delete_plan run_preflight approve execute : Action
  rollback cleanup manage_connections view_audit manage_users : Action

-- The name of an action, which the source compares.
abbrev pub action_name : Action → String
action_name view = "view"
action_name create_plan = "create_plan"
action_name delete_plan = "delete_plan"
action_name run_preflight = "run_preflight"
action_name approve = "approve"
action_name execute = "execute"
action_name rollback = "rollback"
action_name cleanup = "cleanup"
action_name manage_connections = "manage_connections"
action_name view_audit = "view_audit"
action_name manage_users = "manage_users"

pub record User : Type 0 where
  pub id : String
  pub name : String
  pub email : String
  pub roles : List Role

-- A role that the map does not have allows nothing.
unfoldable pub permissions : Role → List Action
permissions viewer = view ∷ []
permissions planner = view ∷ create_plan ∷ delete_plan ∷ run_preflight ∷ []
permissions operator = view ∷ create_plan ∷ run_preflight ∷ execute ∷ []
permissions approver = view ∷ approve ∷ rollback ∷ []
permissions platform_admin =
    view ∷ create_plan ∷ delete_plan ∷ run_preflight ∷ execute ∷ approve ∷ rollback ∷ cleanup
    ∷ manage_connections ∷ view_audit ∷ manage_users ∷ []
permissions auditor = view ∷ view_audit ∷ []
permissions (unknown_role name) = []

-- One role's part of `Can`.
unfoldable pub allows : Action → Role → Bool
unfolding permissions
allows action role = any (λ a. action_name a == action_name action) (permissions role)

unfoldable pub can : User → Action → Bool
unfolding allows
can user action = any (allows action) user.roles

pub data Method : Type 0 where
  get post delete : Method

pub record ProtectedPattern : Type 0 where
  pub method : Method
  pub path : String
  pub action : Action

abbrev pattern_of : Method → String → Action → ProtectedPattern
pattern_of method path action = record { method = method; path = path; action = action }

-- `protectedPatterns`: the routes that ask for a permission. The routes of the session itself, which
-- need at most a session, and the health checks are not among them.
unfoldable pub protected_patterns : List ProtectedPattern
protected_patterns =
    pattern_of get "/api/v1/connections" view
    ∷ pattern_of post "/api/v1/connections" manage_connections
    ∷ pattern_of post "/api/v1/connections/probe" manage_connections
    ∷ pattern_of get "/api/v1/connections/{id}" view
    ∷ pattern_of delete "/api/v1/connections/{id}" manage_connections
    ∷ pattern_of get "/api/v1/connections/{id}/inventory" view
    ∷ pattern_of post "/api/v1/connections/{id}/test" manage_connections
    ∷ pattern_of get "/api/v1/runtime" view
    ∷ pattern_of get "/api/v1/plans" view
    ∷ pattern_of post "/api/v1/plans" create_plan
    ∷ pattern_of get "/api/v1/plans/{id}" view
    ∷ pattern_of delete "/api/v1/plans/{id}" delete_plan
    ∷ pattern_of get "/api/v1/audit" view_audit
    ∷ pattern_of get "/api/v1/users" manage_users
    ∷ pattern_of post "/api/v1/users" manage_users
    ∷ pattern_of post "/api/v1/users/{id}/deactivate" manage_users
    ∷ pattern_of post "/api/v1/plans/{id}/preflight" run_preflight
    ∷ pattern_of post "/api/v1/plans/{id}/approve" approve
    ∷ pattern_of post "/api/v1/plans/{id}/execute" execute
    ∷ pattern_of get "/api/v1/jobs" view
    ∷ pattern_of get "/api/v1/jobs/{id}" view
    ∷ pattern_of post "/api/v1/jobs/{id}/validate" execute
    ∷ pattern_of post "/api/v1/jobs/{id}/cutover" execute
    ∷ pattern_of post "/api/v1/jobs/{id}/rollback" rollback
    ∷ pattern_of get "/api/v1/jobs/{id}/report" view
    ∷ []
