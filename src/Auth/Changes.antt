-- ===== src/Auth/Changes.antt =====
-- Sequences of changes of the user store.
use drishti_server_migration.Base.{String, List, [], ◌∷◌, Eff, pure, attempt, ◌>>◌}
use drishti_server_migration.Base.Hoare.{Keeps, Keeps-bind, Keeps-pure, Keeps-attempt}
use drishti_server_migration.Domain.{AuditEvent}
use drishti_server_migration.Auth.{UserRecord, Accounts, Security}
use drishti_server_migration.Auth.Users.{create_user, deactivate_user, update_password}
use drishti_server_migration.Auth.Admins.{
  IsStaffed, create_user-IsStaffed, deactivate_user-IsStaffed, update_password-IsStaffed,
}

-- The changes of the store, and any number of them in a row, whatever each returns.
pub data Change : Type 0 where
  created : UserRecord → List AuditEvent → Change
  deactivation password_changed : String → String → AuditEvent → Change

module _ {X : Type 0} (s : Security X) where
  unfoldable pub apply_change : Change → Eff (Accounts X) (Unit {0})
  unfolding create_user deactivate_user update_password
  apply_change (created u events) = create_user s u events
  apply_change (deactivation id actor event) = deactivate_user s id actor event >> pure tt
  apply_change (password_changed id hash event) = update_password s id hash event

  unfoldable pub apply_changes : List Change → Eff (Accounts X) (Unit {0})
  unfolding apply_change attempt
  apply_changes [] = pure tt
  apply_changes (c ∷ cs) = attempt (apply_change c) >> apply_changes cs

  apply_change-IsStaffed : (c : Change) → Keeps IsStaffed (apply_change c)
  unfolding apply_change
  apply_change-IsStaffed (created u events) = create_user-IsStaffed s u events
  apply_change-IsStaffed (deactivation id actor event) =
      Keeps-bind _ _ (deactivate_user-IsStaffed s id actor event) (λ _. Keeps-pure tt)
  apply_change-IsStaffed (password_changed id hash event) =
      update_password-IsStaffed s id hash event

  apply_changes-Keeps : (cs : List Change) → Keeps IsStaffed (apply_changes cs)
  unfolding apply_changes
  apply_changes-Keeps [] = Keeps-pure tt
  apply_changes-Keeps (c ∷ cs) =
      Keeps-bind _ _ (Keeps-attempt _ (apply_change-IsStaffed c)) λ _. apply_changes-Keeps cs

  -- From users with distinct names, of whom an active one is a platform administrator, any sequence of
  -- creations, deactivations and password changes, those that fail included, leads to users of whom an
  -- active one is a platform administrator, still with distinct names.
  pub apply_changes-IsStaffed :
      (cs : List Change) (a : Accounts X) → IsStaffed a → IsStaffed (apply_changes cs a).1
  apply_changes-IsStaffed cs = (apply_changes-Keeps cs).at
