-- ===== src/Migrations/Recorded.antt =====
-- After the migrations have run, each is recorded.
use drishti_server_migration.Base.{
  ℤ, Bool, true, false, List, [], ◌∷◌, All, Error, ok, Eff, pure, from_result, with_error, ◌≡◌, ap,
  arith, inl, inr, Bool-cases,
}
use drishti_server_migration.Base.Hoare.{bind_returned, with_error-returned}
use drishti_server_migration.Migrations.{
  Migration, MigrationFiles, Migrator, load_migrations, is_applied, apply_or_skip, apply_pending,
  up,
}

-- The table of versions: the versions that are read are recorded, one that was applied is recorded, and
-- no application takes one away.
pub record IsTable {X : Type 0} (db : Migrator X) (recorded : ℤ → X → Bool) : Type 0 where
  pub reads :
      (x : X) (versions : List ℤ) (v : ℤ)
      → (db.applied_versions x).0 ≡ ok versions
      → is_applied v versions ≡ true
      → recorded v (db.applied_versions x).1 ≡ true
  pub applies :
      (x : X) (m : Migration)
      → (db.apply_migration m x).0 ≡ ok tt
      → recorded m.version (db.apply_migration m x).1 ≡ true
  pub keeps :
      (x : X) (m : Migration) (v : ℤ)
      → recorded v x ≡ true
      → recorded v (db.apply_migration m x).1 ≡ true

module _ {X : Type 0} (db : Migrator X) (recorded : ℤ → X → Bool)
    (table : IsTable db recorded) where
  -- The versions are recorded.
  abbrev Holds : List ℤ → X → Type 0
  Holds versions x = (v : ℤ) → is_applied v versions ≡ true → recorded v x ≡ true

  applied_one :
      (m : Migration) (g : Error → Error) (x y : X)
      → with_error g (db.apply_migration m) x ≡ (ok tt, y)
      → (recorded m.version y ≡ true) × ((v : ℤ) → recorded v x ≡ true → recorded v y ≡ true)
  unfolding with_error
  applied_one m g x y h =
      let state : (db.apply_migration m x).1 ≡ y = ap (λ p. p.1) h in
      let good = with_error-returned g (db.apply_migration m) x tt (ap (λ p. p.0) h) in
      rw⁻¹ state (table.applies x m good, λ v k. table.keeps x m v k)

  -- The state before the rest of the loop: it has what was recorded, and a migration that was applied.
  abbrev IsBefore : Bool → Migration → Eff X (Unit {0}) → X → X → X → Type 0
  IsBefore skipped m rest x y z =
      ((v : ℤ) → recorded v x ≡ true → recorded v z ≡ true)
      × (skipped ≡ false → recorded m.version z ≡ true)
      × (rest z ≡ (ok tt, y))

  apply_or_skip-IsBefore :
      (skipped : Bool) (m : Migration) (rest : Eff X (Unit {0})) (x y : X)
      → apply_or_skip db skipped m rest x ≡ (ok tt, y)
      → (z : X) × IsBefore skipped m rest x y z
  unfolding apply_or_skip
  apply_or_skip-IsBefore true m rest x y h = (x, (λ v k. k, λ n. ground (arith, n), h))
  apply_or_skip-IsBefore false m rest x y h =
      let (_, (ran, last)) = bind_returned _ _ x y tt h in
      let (now, before) = applied_one m _ x _ ran in (_, (before, λ n. now, last))

  -- After the loop, what was recorded is, and so is each migration of the list.
  apply_pending-records :
      (versions : List ℤ) (ms : List Migration) (x y : X)
      → Holds versions x
      → apply_pending db versions ms x ≡ (ok tt, y)
      → All (λ m. recorded m.version y ≡ true) ms
        × ((v : ℤ) → recorded v x ≡ true → recorded v y ≡ true)
  unfolding apply_pending pure
  apply_pending-records versions [] x y old h = (tt, λ v k. rw⁻¹ (ap (λ p. p.1) h) k)
  apply_pending-records versions (m ∷ ms) x y old h =
      let (z, (before, applied, rest)) =
        apply_or_skip-IsBefore (is_applied m.version versions) m (apply_pending db versions ms) x y
          h in
      let (all, kept) = apply_pending-records versions ms z y (λ v k. before v (old v k)) rest in
      let recorded_first : recorded m.version z ≡ true =
        elim (Bool-cases (is_applied m.version versions)) [
          | inl skipped ↦ before m.version (old m.version skipped)
          | inr new ↦ applied new
        ] in
      ((kept m.version recorded_first, all), λ v k. kept v (before v k))

  -- With a database whose table of versions records what is applied and loses none, a run of the
  -- migrations that returns has loaded them, and leaves every one of them recorded as applied, those that
  -- were there before the run included.
  pub up-records :
      (f : MigrationFiles) (x y : X)
      → up db f x ≡ (ok tt, y)
      → (all : List Migration) × ((load_migrations f ≡ ok all)
          × All (λ m. recorded m.version y ≡ true) all)
  unfolding up from_result
  up-records f x y h =
      let (all, (loaded, h1)) = bind_returned _ _ x y tt h in
      let (_, (_, h2)) = bind_returned _ _ _ y tt h1 in
      let (versions, (read, h3)) = bind_returned _ _ _ y tt h2 in
      let old : Holds versions _ = λ v k. table.reads _ versions v (ap (λ p. p.0) read) k in
      (all, (ap (λ p. p.0) loaded, (apply_pending-records versions all _ y old h3).0))
