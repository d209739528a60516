-- ===== src/Access/Examples.antt =====
-- An operator, and a user who only reads.
use drishti_server_migration.Base.{true, false, not, ◌||◌, [], ◌∷◌, all, ◌≡◌, refl}
use drishti_server_migration.Access.{
  User, operator, viewer, auditor, approve, execute, rollback, can, protected_patterns,
}
use drishti_server_migration.Access.Duties.{is_get, can-duties, readers_only_get}

abbrev bob : User
bob = record { id = "u1"; name = "Bob"; email = "bob@example.org"; roles = operator ∷ [] }

abbrev carol : User
carol = record {
  id = "u2";
  name = "Carol";
  email = "carol@example.org";
  roles = viewer ∷ auditor ∷ [];
}

can-duties_example :
    (can bob approve ≡ false) × (can bob rollback ≡ false) × (can bob execute ≡ true)
can-duties_example = can-duties bob

readers_only_get_example :
    all (λ p. is_get p.method || not (can carol p.action)) protected_patterns ≡ true
readers_only_get_example = readers_only_get carol refl
