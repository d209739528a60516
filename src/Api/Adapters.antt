-- ===== src/Api/Adapters.antt =====
-- `resolveAdapters` of backend/internal/api/migration.go.
use drishti_server_migration.Base.{
  Option, none, some, [], new_error, wrap, Eff, pure, throw, with_error, ◌>>=◌,
}
use drishti_server_migration.Domain.{Connection}
use drishti_server_migration.Platform.{AdapterFactory, SourceAdapter, TargetAdapter}
use drishti_server_migration.Stores.{World, outside}

module _ {X : Type 0} where
  unfoldable pub adapters_of :
      Option (AdapterFactory X)
      → Connection
      → Connection
      → Eff (World X) (SourceAdapter X × TargetAdapter X)
  unfolding outside ◌>>=◌ with_error pure throw
  adapters_of none source target = throw (new_error "adapter factory is not configured")
  adapters_of (some factory) source target = do
    src ← with_error (wrap "source adapter" []) (outside (factory.source source))
    tgt ← with_error (wrap "target adapter" []) (outside (factory.target target))
    pure (src, tgt)
