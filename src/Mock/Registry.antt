-- ===== src/Mock/Registry.antt =====
-- app/mock_servers/services/runtime/mock_server_runtime_registry.py: the mock servers that run,
-- by identifier and by endpoint, and their queue listeners.
pub mod Endpoints
pub mod Consistent
pub mod Steps
pub mod Stale
use qsmith.Prelude.{
  ℕ, zero, suc, String, Bool, true, false, Option, none, some, List, [], ◌∷◌, ◌++◌, Outcome, ok,
  err, Exec, length, set, ◌==◌, if◌then◌else◌,
}
use qsmith.Prelude.Dict.{Dict, lookup, insert, erase}
use qsmith.Prelude.Text.{strip, strip_char, lower, is_empty, ◌<>◌}

-- What the database holds of a mock server: `queues` are the identifiers of its queue bindings.
pub record MockServerEntity : Type 0 where
  pub id : String
  pub description : String
  pub endpoint : String
  pub queues : List String

-- `MockRuntimeServer`, as far as the registry reads it
pub record MockRuntimeServer : Type 0 where
  pub id : String
  pub description : String
  pub endpoint : String
  pub queues : List String

-- `_normalize_endpoint`, of the loader and of the registry
unfoldable pub normalize_endpoint : String → String
unfolding strip strip_char lower
normalize_endpoint endpoint = lower (strip_char b'/' (strip endpoint))

-- The parts of `load_runtime_server` that the registry depends on.
unfoldable pub load_runtime_server : MockServerEntity → MockRuntimeServer
load_runtime_server entity = record {
  id = entity.id;
  description = entity.description;
  endpoint = normalize_endpoint entity.endpoint;
  queues = entity.queues;
}

-- A listener thread: the server and the queue that it serves, and whether it was told to stop.
pub record Listener : Type 0 where
  pub server_id : String
  pub queue : String
  pub stopped : Bool

-- The class variables, and every listener that was ever started, by its number.
pub record Registry : Type 0 where
  pub servers_by_id : Dict MockRuntimeServer
  pub server_ids_by_endpoint : Dict String
  pub queue_threads_by_server_id : Dict (List ℕ)
  pub listeners : List Listener

abbrev pub empty : Registry
empty = record {
  servers_by_id = [];
  server_ids_by_endpoint = [];
  queue_threads_by_server_id = [];
  listeners = [];
}

abbrev pub server_of : Registry → Option String → Option MockRuntimeServer
server_of r none = none
server_of r (some server_id) = if is_empty server_id then none else lookup server_id r.servers_by_id

unfoldable pub get_server_by_endpoint : String → Registry → Option MockRuntimeServer
get_server_by_endpoint endpoint r =
    server_of r (lookup (normalize_endpoint endpoint) r.server_ids_by_endpoint)

-- `queue_thread.stop()` for the listeners with the given numbers
abbrev pub mark_stopped : Listener → Listener
mark_stopped l = record l { stopped = true }

unfoldable pub stop_at : ℕ → List Listener → List Listener
stop_at i [] = []
stop_at zero (l ∷ ls) = mark_stopped l ∷ ls
stop_at (suc i) (l ∷ ls) = l ∷ stop_at i ls

unfoldable pub stop_all : List ℕ → List Listener → List Listener
unfolding stop_at
stop_all [] ls = ls
stop_all (i ∷ is) ls = stop_all is (stop_at i ls)

abbrev pub names : Option String → String → Bool
names none server_id = false
names (some current) server_id = current == server_id

-- The endpoint goes only if it still leads to the server.
abbrev pub forget_endpoint : Option MockRuntimeServer → String → Dict String → Dict String
forget_endpoint none server_id d = d
forget_endpoint (some server) server_id d =
    let endpoint = normalize_endpoint server.endpoint in
    if names (lookup endpoint d) server_id then erase endpoint d else d

abbrev pub numbers : Option (List ℕ) → List ℕ
numbers none = []
numbers (some ns) = ns

unfoldable pub stop_server_locked : String → Registry → Registry
stop_server_locked server_id r = record {
  servers_by_id = erase server_id r.servers_by_id;
  server_ids_by_endpoint =
      forget_endpoint (lookup server_id r.servers_by_id) server_id r.server_ids_by_endpoint;
  queue_threads_by_server_id = erase server_id r.queue_threads_by_server_id;
  listeners = stop_all (numbers (lookup server_id r.queue_threads_by_server_id)) r.listeners;
}

-- One listener for each queue binding.
unfoldable pub start_listeners : String → List String → List Listener → List ℕ × List Listener
start_listeners server_id [] ls = ([], ls)
start_listeners server_id (queue ∷ queues) ls =
    let started : Listener = record { server_id = server_id; queue = queue; stopped = false } in
    let (ns, ls') = start_listeners server_id queues (ls ++ (started ∷ [])) in (length ls ∷ ns, ls')

unfoldable pub register : String → MockRuntimeServer → Registry → Registry
unfolding start_listeners
register server_id server r =
    let (ns, ls) = start_listeners server_id server.queues r.listeners in
    record {
      servers_by_id = insert server_id server r.servers_by_id;
      server_ids_by_endpoint = insert server.endpoint server_id r.server_ids_by_endpoint;
      queue_threads_by_server_id = insert server_id ns r.queue_threads_by_server_id;
      listeners = ls;
    }

abbrev pub start_found : String → Option MockServerEntity → Exec Registry (Unit {0})
start_found server_id none r = (err ("Mock server '" <> (server_id <> "' not found.")), r)
start_found server_id (some entity) r =
    (ok tt, register server_id (load_runtime_server entity) (stop_server_locked server_id r))

-- `database` answers the stored servers by identifier.
module _ (database : String → Option MockServerEntity) where
  unfoldable pub start_server : String → Exec Registry (Unit {0})
  start_server server_id r = start_found server_id (database server_id) r

  -- An error of one server is logged, and the next one is started.
  unfoldable pub bootstrap_active_servers : List String → Registry → Registry
  unfolding start_server
  bootstrap_active_servers [] r = r
  bootstrap_active_servers (server_id ∷ rest) r =
      bootstrap_active_servers rest (if is_empty server_id then r else (start_server server_id r).1)

-- `stop_server`, and `remove_server`, which calls it
unfoldable pub stop_server : String → Registry → Registry
stop_server server_id r = stop_server_locked server_id r
