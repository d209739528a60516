-- ===== src/Access/Duties.antt =====
-- Who may do what: the separation of the duties, and the routes of the roles that only read.
use drishti_server_migration.Base.{
  Bool, true, false, ◌||◌, not, List, [], ◌∷◌, any, all, ◌==◌, ◌≡◌, refl, arith,
}
use drishti_server_migration.Access.{
  Role, viewer, planner, operator, approver, platform_admin, auditor, unknown_role, Action,
  action_name, approve, execute, rollback, allows, User, can, Method, get, ProtectedPattern,
  protected_patterns,
}

abbrev pub approves : Role → Bool
approves approver = true
approves platform_admin = true
approves _ = false

abbrev pub executes : Role → Bool
executes operator = true
executes platform_admin = true
executes _ = false

-- A role that may look at the service only.
abbrev pub is_reader : Role → Bool
is_reader viewer = true
is_reader auditor = true
is_reader (unknown_role name) = true
is_reader _ = false

allows-approve : (r : Role) → allows approve r ≡ approves r
unfolding allows
allows-approve viewer = refl
allows-approve planner = refl
allows-approve operator = refl
allows-approve approver = refl
allows-approve platform_admin = refl
allows-approve auditor = refl
allows-approve (unknown_role name) = refl

allows-rollback : (r : Role) → allows rollback r ≡ approves r
unfolding allows
allows-rollback viewer = refl
allows-rollback planner = refl
allows-rollback operator = refl
allows-rollback approver = refl
allows-rollback platform_admin = refl
allows-rollback auditor = refl
allows-rollback (unknown_role name) = refl

allows-execute : (r : Role) → allows execute r ≡ executes r
unfolding allows
allows-execute viewer = refl
allows-execute planner = refl
allows-execute operator = refl
allows-execute approver = refl
allows-execute platform_admin = refl
allows-execute auditor = refl
allows-execute (unknown_role name) = refl

any-cong : (p q : Role → Bool) (rs : List Role) → ((r : Role) → p r ≡ q r) → any p rs ≡ any q rs
any-cong p q [] h = refl
any-cong p q (r ∷ rs) h = cc (h r, any-cong p q rs h)

-- The duties are separate: a user may approve a plan, or roll a job back, exactly as an approver or a
-- platform administrator, and may execute or cut over exactly as an operator or a platform
-- administrator.
pub can-duties :
    (u : User)
    → (can u approve ≡ any approves u.roles)
      × (can u rollback ≡ any approves u.roles)
      × (can u execute ≡ any executes u.roles)
unfolding can
can-duties u = (
  any-cong _ _ u.roles allows-approve,
  any-cong _ _ u.roles allows-rollback,
  any-cong _ _ u.roles allows-execute,
)

-- The actions of a reader.
abbrev reads : Action → Bool
reads a = "view" == action_name a || "view_audit" == action_name a

abbrev pub is_get : Method → Bool
is_get get = true
is_get _ = false

allows-reads : (a : Action) (r : Role) → is_reader r ≡ true → allows a r ≡ true → reads a ≡ true
unfolding allows
allows-reads a viewer h k = ground arith
allows-reads a auditor h k = ground arith
allows-reads a (unknown_role name) h k = ground arith
allows-reads a planner h k = ground arith
allows-reads a operator h k = ground arith
allows-reads a approver h k = ground arith
allows-reads a platform_admin h k = ground arith

any-allows-reads :
    (a : Action) (rs : List Role)
    → all is_reader rs ≡ true
    → any (allows a) rs ≡ true
    → reads a ≡ true
any-allows-reads a [] h k = ground arith
any-allows-reads a (r ∷ rs) h k = ground (arith, allows-reads a r, any-allows-reads a rs)

-- Every route with another method than GET wants more than reading.
get_or_more : all (λ p. is_get p.method || not (reads p.action)) protected_patterns ≡ true
unfolding protected_patterns
get_or_more = refl

no_reader_passes :
    (u : User) (ps : List ProtectedPattern)
    → all is_reader u.roles ≡ true
    → all (λ p. is_get p.method || not (reads p.action)) ps ≡ true
    → all (λ p. is_get p.method || not (can u p.action)) ps ≡ true
unfolding can
no_reader_passes u [] h k = refl
no_reader_passes u (p ∷ ps) h k =
    ground (arith, any-allows-reads p.action u.roles, no_reader_passes u ps h)

-- Of the routes that ask for a permission, a user whose roles only read, or are unknown, has the
-- permission of none whose method is not GET.
pub readers_only_get :
    (u : User)
    → all is_reader u.roles ≡ true
    → all (λ p. is_get p.method || not (can u p.action)) protected_patterns ≡ true
readers_only_get u h = no_reader_passes u protected_patterns h get_or_more
