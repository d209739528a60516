-- ===== src/Connections/Histories.antt =====
-- Sequences of the requests that change the registry of connections.
use drishti_server_migration.Base.{String, Option, List, [], ◌∷◌}
use drishti_server_migration.Connections.{ConnState, CreateInput, ConnOutside}
use drishti_server_migration.Connections.Requests.{ConnReply, create_connection, delete_connection}
use drishti_server_migration.Connections.Consistent.{IsConsistent}
use drishti_server_migration.Connections.Served.{
  create_connection-IsConsistent, delete_connection-IsConsistent,
}

pub data ConnRequest : Type 0 where
  creation : Option CreateInput → ConnRequest
  deletion : String → ConnRequest

module _ {X : Type 0} (o : ConnOutside X) where
  unfoldable pub serve : ConnRequest → ConnState X → ConnReply × ConnState X
  unfolding create_connection delete_connection
  serve (creation body) s = create_connection o body s
  serve (deletion id) s = delete_connection o id s

  unfoldable pub serve_all : List ConnRequest → ConnState X → ConnState X
  unfolding serve
  serve_all [] s = s
  serve_all (r ∷ rs) s = serve_all rs (serve r s).1

  serve-IsConsistent :
      (r : ConnRequest) (s : ConnState X) → IsConsistent s → IsConsistent (serve r s).1
  unfolding serve
  serve-IsConsistent (creation body) s h = create_connection-IsConsistent o body s h
  serve-IsConsistent (deletion id) s h = delete_connection-IsConsistent o id s h

  -- Any sequence of creations and deletions of connections, answered one after another, leads from a
  -- registry where no two connections share an id, and where every stored credential is of a registered
  -- connection, to such a registry, whatever the platforms and the audit store answer.
  pub serve_all-IsConsistent :
      (rs : List ConnRequest) (s : ConnState X) → IsConsistent s → IsConsistent (serve_all rs s)
  unfolding serve_all
  serve_all-IsConsistent [] s h = h
  serve_all-IsConsistent (r ∷ rs) s h =
      serve_all-IsConsistent rs (serve r s).1 (serve-IsConsistent r s h)
