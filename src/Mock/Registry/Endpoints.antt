-- ===== src/Mock/Registry/Endpoints.antt =====
-- Which server an endpoint leads to after servers were started and stopped.
use qsmith.Prelude.{String, ◌≡◌, false, Option, none, some, eq_refl}
use qsmith.Prelude.Dict.{lookup, lookup-insert, lookup-erase}
use qsmith.Prelude.Text.{is_empty}
use qsmith.Mock.Registry.{
  MockServerEntity, Registry, normalize_endpoint, load_runtime_server, get_server_by_endpoint,
  stop_server_locked, register, start_server, stop_server,
}

-- The identifier that the endpoint leads to.
abbrev pub id_at : String → Registry → Option String
id_at endpoint r = lookup (normalize_endpoint endpoint) r.server_ids_by_endpoint

-- A started server is found at the endpoint that the database holds for it.
pub get_server-start_server :
    (database : String → Option MockServerEntity) (server_id : String) (entity : MockServerEntity)
    (r : Registry)
    → database server_id ≡ some entity
    → is_empty server_id ≡ false
    → get_server_by_endpoint entity.endpoint (start_server database server_id r).1
      ≡ some (load_runtime_server entity)
unfolding get_server_by_endpoint start_server register load_runtime_server
get_server-start_server database server_id entity r found given =
    rw found (simp (lookup-insert, eq_refl) (rw given))

-- After a server was stopped no endpoint leads to an entry of its identifier.
pub server_of-stop_server :
    (server_id : String) (r : Registry)
    → lookup server_id (stop_server server_id r).servers_by_id ≡ none
unfolding stop_server stop_server_locked
server_of-stop_server server_id r = simp (lookup-erase, eq_refl)
