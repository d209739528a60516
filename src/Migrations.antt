-- ===== src/Migrations.antt =====
-- The migrations of the database's schema: backend/internal/store/migrate.go. The embedded files, the
-- scan of a version, the sort and the database are arguments.
pub mod Recorded
mod Examples
use drishti_server_migration.Base.{
  ℤ, String, Bool, true, false, not, ◌||◌, Option, none, some, List, [], ◌∷◌, any, Error, errorf,
  wrap, str, Result, ok, err, Eff, pure, from_result, with_error, leb_ℤ, ◌&&◌, ◌>>=◌, ◌>>◌,
  if◌then◌else◌,
}

pub record Migration : Type 0 where
  pub version : ℤ
  pub name : String
  pub sql : String

pub record DirEntry : Type 0 where
  pub name : String
  pub is_dir : Bool

pub record MigrationFiles : Type 0 where
  pub read_dir : Result (List DirEntry)
  pub read_file : String → Result String
  pub is_sql : String → Bool
  -- The part before the first underscore
  pub split_name : String → Option String
  pub scan_version : String → Result ℤ
  -- `sort.Slice` by version
  pub sort_migrations : List Migration → List Migration

-- `Migrator`
pub record Migrator (X : Type 0) : Type 0 where
  pub ensure_schema_migrations : Eff X (Unit {0})
  pub applied_versions : Eff X (List ℤ)
  pub apply_migration : Migration → Eff X (Unit {0})

module _ (f : MigrationFiles) where
  abbrev with_body : String → ℤ → Result String → Result Migration
  with_body name version (ok body) = ok (record { version = version; name = name; sql = body })
  with_body name version (err e) = err (wrap "read migration %q: %w" (str name ∷ []) e)

  abbrev with_version : String → Result ℤ → Result Migration
  with_version name (ok version) = with_body name version (f.read_file name)
  with_version name (err e) = err (wrap "parse migration version %q: %w" (str name ∷ []) e)

  abbrev with_prefix : String → Option String → Result Migration
  with_prefix name none = err (errorf "unexpected migration filename %q" (str name ∷ []))
  with_prefix name (some prefix) = with_version name (f.scan_version prefix)

  abbrev cons_result : Result Migration → Result (List Migration) → Result (List Migration)
  cons_result (err e) rest = err e
  cons_result (ok m) (err e) = err e
  cons_result (ok m) (ok ms) = ok (m ∷ ms)

  -- The loop of `Load`, which stops at the first error.
  unfoldable pub load_entries : List DirEntry → Result (List Migration)
  load_entries [] = ok []
  load_entries (e ∷ es) =
      let rest = load_entries es in
      if e.is_dir || not (f.is_sql e.name)
      then rest
      else cons_result (with_prefix e.name (f.split_name e.name)) rest

  abbrev sorted_result : Result (List Migration) → Result (List Migration)
  sorted_result (ok ms) = ok (f.sort_migrations ms)
  sorted_result (err e) = err e

  abbrev load_dir : Result (List DirEntry) → Result (List Migration)
  load_dir (ok entries) = sorted_result (load_entries entries)
  load_dir (err e) = err (wrap "read migrations dir: %w" [] e)

  unfoldable pub load_migrations : Result (List Migration)
  unfolding load_entries
  load_migrations = load_dir f.read_dir

abbrev pub is_applied : ℤ → List ℤ → Bool
is_applied version versions = any (λ v. leb_ℤ v version && leb_ℤ version v) versions

module _ {X : Type 0} (db : Migrator X) where
  -- One round of the loop: a version that was applied before is skipped.
  unfoldable pub apply_or_skip : Bool → Migration → Eff X (Unit {0}) → Eff X (Unit {0})
  apply_or_skip true m rest = rest
  apply_or_skip false m rest =
      with_error (wrap "apply %s: %w" (str m.name ∷ [])) (db.apply_migration m) >> rest

  -- The loop of `Up`, with the versions that were applied before it.
  unfoldable pub apply_pending : List ℤ → List Migration → Eff X (Unit {0})
  unfolding apply_or_skip
  apply_pending versions [] = pure tt
  apply_pending versions (m ∷ ms) =
      apply_or_skip (is_applied m.version versions) m (apply_pending versions ms)

  unfoldable pub up : MigrationFiles → Eff X (Unit {0})
  unfolding load_migrations apply_pending
  up f = do
    all ← from_result (load_migrations f)
    with_error (wrap "ensure schema_migrations: %w" []) db.ensure_schema_migrations
    versions ← db.applied_versions
    apply_pending versions all
