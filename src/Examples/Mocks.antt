-- ===== src/Examples/Mocks.antt =====
-- The theorems on mock servers and their routes, at concrete data.
use mathlib.Core.Option.{some-injective}
use qsmith.Prelude.{◌↔◌, ◌≡◌, refl, subst, String, some, List, [], ◌∷◌}
use qsmith.Prelude.Dict.{lookup, insert, erase}
use qsmith.Prelude.Text.{is_space, upper, contains_text}
use qsmith.Prelude.Int.{pos}
use qsmith.Json.{Json, nil, cons, end, field, get, scalar_eq}
use qsmith.Mock.Registry.{
  MockServerEntity, Registry, empty, normalize_endpoint, load_runtime_server,
  get_server_by_endpoint, start_server, register, stop_server_locked,
}
use qsmith.Mock.Registry.Consistent.{IsNormal}
use qsmith.Mock.Registry.Steps.{IsStable, Database, here, next, start, get_server-endpoint}
use qsmith.Mock.Routes.Answers.{IsFirst, find_matching_api_route-IsFirst}
use qsmith.Mock.Routes.{
  MockApiRoute, Request, route_matches, find_matching_api_route, body_matches, normalize_path,
  map_matches, contains,
}

abbrev entity : String → MockServerEntity
entity endpoint = record {
  id = "m1";
  description = "orders";
  endpoint = endpoint;
  queues = "q1" ∷ [];
}

-- One server, whatever the identifier, with the given endpoint.
abbrev holding : String → Database
holding endpoint server_id = some (entity endpoint)

orders_run : normalize_endpoint " /Orders/ " ≡ "orders"
unfolding normalize_endpoint is_space
orders_run = refl

orders_IsNormal : IsNormal (normalize_endpoint " /Orders/ ")
unfolding normalize_endpoint is_space
orders_IsNormal = refl

orders_IsStable : IsStable (holding " /Orders/ ")
orders_IsStable server_id e same =
    subst (λ (x : MockServerEntity). IsNormal (normalize_endpoint x.endpoint))
      (some-injective (entity " /Orders/ ") e same) orders_IsNormal

abbrev started : Registry
started = (start_server (holding " /Orders/ ") "m1" empty).1

found_run :
    get_server_by_endpoint "ORDERS" started ≡ some (load_runtime_server (entity " /Orders/ "))
unfolding start_server get_server_by_endpoint normalize_endpoint is_space lookup insert
    load_runtime_server register stop_server_locked erase
found_run = refl

get_server-endpoint_example :
    (load_runtime_server (entity " /Orders/ ")).endpoint ≡ normalize_endpoint "ORDERS"
get_server-endpoint_example =
    get_server-endpoint "ORDERS" (load_runtime_server (entity " /Orders/ ")) (orders_IsStable, tt)
      (next here (start "m1")) found_run

abbrev first_name : String
first_name = "m1"

abbrev second_name : String
second_name = "m2"

-- `str` of a text; nothing else stands in the routes here.
abbrev show : Json → String
show (Json.str s) = s
show _ = ""

abbrev body : Json
body =
    Json.obj (field "id" (Json.num (pos 7)) (field "tags" (Json.arr (cons (Json.str "a") nil)) end))

abbrev route : String → MockApiRoute
route path = record {
  id = path;
  method = "POST";
  path = path;
  params = end;
  headers = end;
  body = body;
  body_match = "contains";
}

abbrev request : Request
request = record {
  method = "post";
  path = "orders/";
  query_params = [];
  headers = [];
  body_json = body;
  body_raw = "";
}

abbrev routes : List MockApiRoute
routes = route "/items" ∷ route "/orders" ∷ []

route_run : find_matching_api_route show request routes ≡ some (route "/orders")
unfolding find_matching_api_route normalize_path is_space lookup insert get route_matches upper
    map_matches body_matches contains scalar_eq contains_text
route_run = refl

find_matching_api_route-IsFirst_example :
    (find_matching_api_route show request routes ≡ some (route "/orders"))
    ↔ IsFirst show request routes (route "/orders")
find_matching_api_route-IsFirst_example =
    find_matching_api_route-IsFirst show request routes (route "/orders")
