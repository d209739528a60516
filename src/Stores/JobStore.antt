-- ===== src/Stores/JobStore.antt =====
-- `State` of backend/internal/job/engine.go: a database, or a map in memory. A stored job is a
-- clone, so a later change of the caller's job does not reach it; values have this for nothing.
use drishti_server_migration.Base.{String, Option, none, some, List, Eff, gets, modify}
use drishti_server_migration.Base.Dict.{lookup, insert, values}
use drishti_server_migration.Domain.{Job}
use drishti_server_migration.Stores.{World, outside}

pub record JobBackend (X : Type 0) : Type 0 where
  pub save_job : Job → Eff X Unit
  pub get_job : String → Eff X (Option Job)
  pub list_jobs : Eff X (List Job)

module _ {X : Type 0} where
  unfoldable pub save : Option (JobBackend X) → Job → Eff (World X) Unit
  unfolding outside modify
  save (some backend) value = outside (backend.save_job value)
  save none value = modify (λ w. record w { jobs = insert value.id value w.jobs })

  unfoldable pub get : Option (JobBackend X) → String → Eff (World X) (Option Job)
  unfolding outside gets
  get (some backend) id = outside (backend.get_job id)
  get none id = gets (λ w. lookup id w.jobs)

  unfoldable pub list : Option (JobBackend X) → Eff (World X) (List Job)
  unfolding outside gets
  list (some backend) = outside backend.list_jobs
  list none = gets (λ w. values w.jobs)
