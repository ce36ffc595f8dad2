-- ===== src/Mock/Registry/Consistent.antt =====
-- Every endpoint leads to a server that has it, as long as normalising leaves the servers' endpoints
-- alone.
use qsmith.Prelude.{
  String, ◌≡◌, refl, sym, ap, ◌∙◌, ◌≢◌, Option, none, some, Bool-cases, inl, inr, eq_refl,
  if◌then◌else◌, subst,
}
use mathlib.Core.Bool.{false≢true}
use mathlib.Core.Option.{none-ne-some, some-injective}
use qsmith.Prelude.Dict.{
  Dict, lookup, insert, erase, lookup-erase-some, lookup-erase_ne, lookup-insert_self,
  lookup-insert_ne, lookup-insert-some, lookup-nil,
}
use qsmith.Mock.Registry.{
  MockRuntimeServer, Registry, empty, normalize_endpoint, names, forget_endpoint,
  stop_server_locked, register,
}

-- An endpoint that is stored as it is looked up.
abbrev pub IsNormal : String → Type 0
IsNormal endpoint = normalize_endpoint endpoint ≡ endpoint

abbrev pub Holds : Registry → String → String → Type 0
Holds r endpoint server_id =
    (s : MockRuntimeServer) × (lookup server_id r.servers_by_id ≡ some s) × (s.endpoint ≡ endpoint)

pub record IsConsistent (r : Registry) : Type 0 where
  pub routed :
      (endpoint server_id : String)
      → lookup endpoint r.server_ids_by_endpoint ≡ some server_id
      → Holds r endpoint server_id
  pub normal :
      (server_id : String) (s : MockRuntimeServer)
      → lookup server_id r.servers_by_id ≡ some s
      → IsNormal s.endpoint

pub IsConsistent-empty : IsConsistent empty
IsConsistent-empty = record {
  routed = λ e i h. cc (lookup-nil {V = String} e);
  normal = λ i s h. cc (lookup-nil {V = MockRuntimeServer} i);
}

-- An entry that is left after a stop was there before, and belongs to another server.
forget_endpoint-lookup :
    (o : Option MockRuntimeServer) (server_id : String) (d : Dict String) (endpoint i : String)
    → lookup endpoint (forget_endpoint o server_id d) ≡ some i
    → lookup endpoint d ≡ some i
forget_endpoint-lookup none server_id d endpoint i h = h
forget_endpoint-lookup (some s) server_id d endpoint i h =
    let at = normalize_endpoint s.endpoint in
    elim (Bool-cases (names (lookup at d) server_id)) [
      | inl own ↦ (lookup-erase-some at endpoint d i (rw own at h)).1
      | inr foreign ↦ rw foreign at h
    ]

erase_own-gone :
    (endpoint server_id : String) (d : Dict String)
    → lookup endpoint (if names (lookup endpoint d) server_id then erase endpoint d else d)
      ≢ some server_id
erase_own-gone endpoint server_id d h = elim (Bool-cases (names (lookup endpoint d) server_id)) [
  | inl own ↦ (lookup-erase-some endpoint endpoint d server_id (rw own at h)).0 refl
  | inr foreign ↦
      let still : lookup endpoint d ≡ some server_id = rw foreign at h in
      false≢true (sym (rw still at foreign) ∙ eq_refl server_id)
]

forget_endpoint-gone :
    (s : MockRuntimeServer) (server_id : String) (d : Dict String)
    → IsNormal s.endpoint
    → lookup s.endpoint (forget_endpoint (some s) server_id d) ≢ some server_id
forget_endpoint-gone s server_id d n h = erase_own-gone s.endpoint server_id d (rw n at h)

-- After a stop no endpoint leads to the server.
not_routed :
    (r : Registry) (server_id endpoint : String) (o : Option MockRuntimeServer)
    → IsConsistent r
    → lookup server_id r.servers_by_id ≡ o
    → lookup endpoint (forget_endpoint o server_id r.server_ids_by_endpoint) ≢ some server_id
not_routed r server_id endpoint none c e h =
    let (s, found, _) = c.routed endpoint server_id h in none-ne-some s (sym e ∙ found)
not_routed r server_id endpoint (some s) c e h =
    let (s', found, at) =
      c.routed endpoint server_id
        (forget_endpoint-lookup (some s) server_id r.server_ids_by_endpoint endpoint server_id h) in
    let same : s.endpoint ≡ endpoint =
      ap (λ (x : MockRuntimeServer). x.endpoint) (some-injective s s' (sym e ∙ found)) ∙ at in
    forget_endpoint-gone s server_id r.server_ids_by_endpoint (c.normal server_id s e) (
      subst
        (λ x.
          lookup x (forget_endpoint (some s) server_id r.server_ids_by_endpoint) ≡ some server_id)
        (sym same) h)

ne_of_lookup :
    (r : Registry) (server_id endpoint i : String)
    → IsConsistent r
    → lookup endpoint (stop_server_locked server_id r).server_ids_by_endpoint ≡ some i
    → server_id ≢ i
unfolding stop_server_locked
ne_of_lookup r server_id endpoint i c h same =
    not_routed r server_id endpoint _ c refl (rw (sym same) at h)

pub stop_server_locked-IsConsistent :
    (server_id : String) (r : Registry)
    → IsConsistent r
    → IsConsistent (stop_server_locked server_id r)
unfolding stop_server_locked
stop_server_locked-IsConsistent server_id r c = record {
  routed = λ endpoint i h.
      let (s, found, at) =
        c.routed endpoint i (forget_endpoint-lookup _ server_id _ endpoint i h) in
      (
        s,
        lookup-erase_ne server_id i r.servers_by_id (ne_of_lookup r server_id endpoint i c h)
            ∙ found,
        at,
      );
  normal = λ i s h. c.normal i s (lookup-erase-some server_id i r.servers_by_id s h).1;
}

-- The server is new to the registry, and its endpoint is normal.
pub register-IsConsistent :
    (server_id : String) (server : MockRuntimeServer) (r : Registry)
    → IsNormal server.endpoint
    → IsConsistent r
    → lookup server_id r.servers_by_id ≡ none
    → IsConsistent (register server_id server r)
unfolding register
register-IsConsistent server_id server r n c free = record {
  routed = λ endpoint i h.
      elim (lookup-insert-some server.endpoint endpoint server_id i r.server_ids_by_endpoint h) [
        | inl (at, same) ↦ (
          server,
          subst (λ x. lookup x (insert server_id server r.servers_by_id) ≡ some server) same
              (lookup-insert_self server_id server r.servers_by_id),
          at,
        )
        | inr (_, old) ↦
            let (s, found, at) = c.routed endpoint i old in
            (
              s,
              lookup-insert_ne server_id i server r.servers_by_id
                    (λ p. none-ne-some s (sym free ∙ rw p found))
                  ∙ found,
              at,
            )
      ];
  normal = λ i s h. elim (lookup-insert-some server_id i server s r.servers_by_id h) [
    | inl (_, same) ↦ subst (λ (x : MockRuntimeServer). IsNormal x.endpoint) same n
    | inr (_, old) ↦ c.normal i s old
  ];
}
