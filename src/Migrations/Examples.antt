-- ===== src/Migrations/Examples.antt =====
-- Two migrations, of which the database has the first.
use drishti_server_migration.Base.{
  ℤ, pos, true, false, some, List, [], ◌∷◌, All, Result, ok, ◌==◌, if◌then◌else◌, ◌≡◌, refl, arith,
  ◌>>=◌,
}
use drishti_server_migration.Migrations.{
  Migration, MigrationFiles, Migrator, load_migrations, is_applied, up,
}
use drishti_server_migration.Migrations.Recorded.{IsTable, up-records}

abbrev files : MigrationFiles
files = record {
  read_dir = ok (
      record { name = "0001_init.sql"; is_dir = false }
      ∷ record { name = "0002_users.sql"; is_dir = false }
      ∷ []);
  read_file = λ name. ok "select 1";
  is_sql = λ name. true;
  split_name = λ name. some (if name == "0001_init.sql" then "1" else "2");
  scan_version = λ text. ok (if text == "1" then pos 1 else pos 2);
  sort_migrations = λ ms. ms;
}

abbrev database : Migrator (List ℤ)
database = record {
  ensure_schema_migrations = λ x. (ok tt, x);
  applied_versions = λ x. (ok x, x);
  apply_migration = λ m x. (ok tt, m.version ∷ x);
}

same_versions :
    (x versions : List ℤ) (v : ℤ)
    → ◌≡◌ {A = Result (List ℤ)} (ok x) (ok versions)
    → is_applied v versions ≡ true
    → is_applied v x ≡ true
same_versions x versions v h k = rw (ok_inj h) k
  where
    unwrap : Result (List ℤ) → List ℤ
    unwrap (ok xs) = xs
    unwrap e = []

    ok_inj : ◌≡◌ {A = Result (List ℤ)} (ok x) (ok versions) → x ≡ versions
    ok_inj e i = unwrap (e i)

database-IsTable : IsTable database is_applied
database-IsTable = record {
  reads = λ x versions v h k. same_versions x versions v h k;
  applies = λ x m h. ground arith;
  keeps = λ x m v h. ground (arith, h);
}

ran : up database files (pos 1 ∷ []) ≡ (ok tt, pos 2 ∷ pos 1 ∷ [])
unfolding up load_migrations ◌>>=◌
ran = refl

up-records_example :
    (all : List Migration) × ((load_migrations files ≡ ok all)
      × All (λ m. is_applied m.version (pos 2 ∷ pos 1 ∷ []) ≡ true) all)
up-records_example =
    up-records database is_applied database-IsTable files (pos 1 ∷ []) (pos 2 ∷ pos 1 ∷ []) ran
