-- ===== src/Mock/Registry/Steps.antt =====
-- Starting and stopping servers, in any order, over a database that changes.
use qsmith.Prelude.{
  String, ◌≡◌, refl, sym, ap, ◌∙◌, Option, none, some, Bool-cases, inl, inr, All, List, [], ◌∷◌,
}
use mathlib.Core.Option.{none-ne-some, some-injective}
use qsmith.Prelude.Dict.{lookup, lookup-erase_self}
use qsmith.Prelude.Text.{is_empty}
use qsmith.Mock.Registry.{
  MockServerEntity, MockRuntimeServer, Registry, empty, normalize_endpoint, load_runtime_server,
  server_of, get_server_by_endpoint, stop_server_locked, start_server, stop_server, start_found,
}
use qsmith.Mock.Registry.Consistent.{
  IsNormal, IsConsistent, IsConsistent-empty, stop_server_locked-IsConsistent,
  register-IsConsistent,
}

abbrev pub Database : Type 0
Database = String → Option MockServerEntity

-- A database whose endpoints are normal once they are normalised.
abbrev pub IsStable : Database → Type 0
IsStable database =
    (server_id : String) (entity : MockServerEntity)
    → database server_id ≡ some entity
    → IsNormal (normalize_endpoint entity.endpoint)

-- What the application does to the registry, over the database as it is then.
pub data Step (database : Database) : Registry → Registry → Type 0 where
  start :
      (server_id : String) {r : Registry} → Step database r (start_server database server_id r).1
  stop : (server_id : String) {r : Registry} → Step database r (stop_server server_id r)

-- Steps one after another, the last one first, with the database of each.
pub data Reach (r : Registry) : List Database → Registry → Type 0 where
  here : Reach r [] r
  next :
      {database : Database} {databases : List Database} {s t : Registry}
      → Reach r databases s
      → Step database s t
      → Reach r (database ∷ databases) t

start_found-IsConsistent :
    (server_id : String) (o : Option MockServerEntity) (r : Registry)
    → ((entity : MockServerEntity)
        → o ≡ some entity
        → IsNormal (normalize_endpoint entity.endpoint))
    → IsConsistent r
    → IsConsistent (start_found server_id o r).1
unfolding load_runtime_server stop_server_locked
start_found-IsConsistent server_id none r stable c = c
start_found-IsConsistent server_id (some entity) r stable c =
    register-IsConsistent server_id _ _ (stable entity refl)
      (stop_server_locked-IsConsistent server_id r c) (lookup-erase_self server_id r.servers_by_id)

Step-IsConsistent :
    {database : Database} {r s : Registry}
    → IsStable database
    → Step database r s
    → IsConsistent r
    → IsConsistent s
unfolding start_server stop_server
Step-IsConsistent {database} {r} stable (start server_id) c =
    start_found-IsConsistent server_id (database server_id) r (stable server_id) c
Step-IsConsistent {database} {r} stable (stop server_id) c =
    stop_server_locked-IsConsistent server_id r c

Reach-IsConsistent :
    {r : Registry} {databases : List Database} {s : Registry}
    → IsConsistent r
    → Reach r databases s
    → All IsStable databases
    → IsConsistent s
Reach-IsConsistent c here stable = c
Reach-IsConsistent c (next p st) (stable, rest) =
    Step-IsConsistent stable st (Reach-IsConsistent c p rest)

answered :
    (r : Registry) (o : Option String) (endpoint : String) (s : MockRuntimeServer)
    → IsConsistent r
    → lookup endpoint r.server_ids_by_endpoint ≡ o
    → server_of r o ≡ some s
    → s.endpoint ≡ endpoint
answered r none endpoint s c e h = cc
answered r (some i) endpoint s c e h =
    let (s', found, at) = c.routed endpoint i e in
    elim (Bool-cases (is_empty i)) [
      | inl blank ↦ absurd (none-ne-some s (rw blank at h))
      | inr given ↦
          ap (λ (x : MockRuntimeServer). x.endpoint)
            (some-injective s s' (sym (rw given at h) ∙ found))
          ∙ at
    ]

-- Through any starts and stops, a request is answered by a server whose own endpoint is the one
-- that was asked for. In each of the databases that the steps read, the stored endpoints are left
-- alone by normalising them a second time.
pub get_server-endpoint :
    {databases : List Database} {r : Registry} (endpoint : String) (s : MockRuntimeServer)
    → All IsStable databases
    → Reach empty databases r
    → get_server_by_endpoint endpoint r ≡ some s
    → s.endpoint ≡ normalize_endpoint endpoint
unfolding get_server_by_endpoint
get_server-endpoint {databases} {r} endpoint s stable p h =
    answered r _ (normalize_endpoint endpoint) s (Reach-IsConsistent IsConsistent-empty p stable)
      refl h
