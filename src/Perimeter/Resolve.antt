-- ===== src/Perimeter/Resolve.antt =====
-- `DatasetParameterResolver.resolve`: the values of a normalized perimeter's parameters.
use qsmith.Prelude.{
  String, ◌≡◌, refl, subst, true, Bool-cases, inl, inr, Option, none, some, List, [], ◌∷◌, eq_refl,
  Outcome, ok, and_then, and_then-ok, ok-injective, ◌==◌, elem, map,
}
use qsmith.Prelude.Dict.{Dict, lookup, has, insert, lookup-insert}
use qsmith.Prelude.Text.{strip}
use qsmith.Json.{Json, null}
use qsmith.Perimeter.Reading.{demand, each}
use qsmith.Perimeter.Conditions.{ParameterDefinition, Perimeter}
use qsmith.Perimeter.Accepted.{HasParameters}

-- Values are of any type: `coerce` is `coerce_value` of a value that is given, `coerce_stored` of a
-- JSON value, and `built_in` is `resolve_builtin` and then the coercion.
module _ {V : Type 0} (none_value : V) (coerce : String → V → Outcome V)
    (coerce_stored : String → Json → Outcome V) (built_in : String → String → Outcome V) where
  abbrev pub binding_value : String → Option String → Outcome V
  binding_value type none = ok none_value
  binding_value type (some resolver) = built_in type resolver

  -- `_resolve_default_value`
  abbrev pub default_value_or : String → Option String → Option Json → Outcome V
  default_value_or type binding none = binding_value type binding
  default_value_or type binding (some null) = binding_value type binding
  default_value_or type binding (some v) = coerce_stored type v

  abbrev pub resolve_value : ParameterDefinition → Option V → Outcome V
  resolve_value p none = default_value_or p.parameter_type p.default_binding p.default_value
  resolve_value p (some v) = coerce p.parameter_type v

  abbrev pub names_of : List ParameterDefinition → List String
  names_of ps = map (λ (p : ParameterDefinition). p.name) ps

  -- The overrides that name no parameter are refused.
  abbrev pub check_override : List ParameterDefinition → String × V → Outcome (Unit {0})
  check_override ps (name, v) = demand (elem (strip name) (names_of ps)) "Unknown dataset parameter"

  unfoldable pub resolve_each : Dict V → Dict V → List ParameterDefinition → Outcome (Dict V)
  resolve_each explicit resolved [] = ok resolved
  resolve_each explicit resolved (p ∷ ps) =
      and_then (resolve_value p (lookup p.name explicit))
        λ v. resolve_each explicit (insert p.name v resolved) ps

  abbrev pub resolve_given : Dict V → List ParameterDefinition → Outcome (Dict V)
  resolve_given explicit [] = ok []
  resolve_given explicit (p ∷ ps) =
      and_then (each (check_override (p ∷ ps)) explicit) λ _. resolve_each explicit [] (p ∷ ps)

  unfoldable pub resolve_parameters : List ParameterDefinition → Dict V → Outcome (Dict V)
  unfolding resolve_each each strip
  resolve_parameters ps explicit = resolve_given explicit ps

  has-insert : (j k : String) (v : V) (d : Dict V) → has j d ≡ true → has j (insert k v d) ≡ true
  has-insert j k v d h = elim (Bool-cases (k == j)) [
    | inl same ↦ rw (lookup-insert j k v d, same) refl
    | inr ne ↦ rw (lookup-insert j k v d, ne) h
  ]

  has-insert_same : (k : String) (v : V) (d : Dict V) → has k (insert k v d) ≡ true
  has-insert_same k v d = rw (lookup-insert k k v d, eq_refl k) refl

  resolve_each-keeps :
      (explicit resolved final : Dict V) (ps : List ParameterDefinition) (name : String)
      → resolve_each explicit resolved ps ≡ ok final
      → has name resolved ≡ true
      → has name final ≡ true
  unfolding resolve_each
  resolve_each-keeps explicit resolved final [] name e h =
      subst (λ d. has name d ≡ true) (ok-injective resolved final e) h
  resolve_each-keeps explicit resolved final (p ∷ ps) name e h =
      let (v, _, rest) = and_then-ok (resolve_value p (lookup p.name explicit)) _ e in
      resolve_each-keeps explicit (insert p.name v resolved) final ps name rest
        (has-insert name p.name v resolved h)

  resolve_each-HasParameters :
      (explicit resolved final : Dict V) (ps : List ParameterDefinition)
      → resolve_each explicit resolved ps ≡ ok final
      → HasParameters final ps
  unfolding resolve_each
  resolve_each-HasParameters explicit resolved final [] e = tt
  resolve_each-HasParameters explicit resolved final (p ∷ ps) e =
      let (v, _, rest) = and_then-ok (resolve_value p (lookup p.name explicit)) _ e in
      (
        resolve_each-keeps explicit (insert p.name v resolved) final ps p.name rest
            (has-insert_same p.name v resolved),
        resolve_each-HasParameters explicit (insert p.name v resolved) final ps rest,
      )

  pub resolve_parameters-HasParameters :
      (ps : List ParameterDefinition) (explicit final : Dict V)
      → resolve_parameters ps explicit ≡ ok final
      → HasParameters final ps
  unfolding resolve_parameters
  resolve_parameters-HasParameters [] explicit final e = tt
  resolve_parameters-HasParameters (p ∷ ps) explicit final e =
      let (_, _, rest) = and_then-ok (each (check_override (p ∷ ps)) explicit) _ e in
      resolve_each-HasParameters explicit [] final (p ∷ ps) rest
