-- ===== src/Constants/Live/Visible.antt =====
-- What the planner finds active is live, in a scope that may be read.
use qsmith.Prelude.{
  and_left, elem, String, ◌≡◌, refl, true, false, Option, none, some, is_some, Option-cases, inl,
  inr, List, [], ◌∷◌, arith, All, map, ok, and_then-ok,
}
use qsmith.Prelude.Dict.{lookup}
use qsmith.Prelude.Int.{ℤ, ◌≤ℤ◌}
use qsmith.Constants.Tables.{Section, readable_scopes}
use qsmith.Constants.Plan.{
  PlannedDefinition, Definitions, CommandConfiguration, Role, is_active, is_deleted_by,
  active_definitions, check_refs, check_definition,
}
use qsmith.Constants.Plan.Active.{active_definitions-some}
use qsmith.Constants.Plan.Names.{IsLive, IsSettled, IsPlan}
use qsmith.Constants.Live.{Live, IsReadable, identifier}

-- What is planned and not deleted is live in its scope.
abbrev pub Holds : Live → Definitions → Type 0
Holds live ds =
    (id : String) (d : PlannedDefinition)
    → lookup id ds ≡ some d
    → IsLive d
    → live id ≡ some d.context_scope

IsLive-of_active :
    (readable : List String) (k k' : ℤ) (d : PlannedDefinition)
    → k ≤ℤ k'
    → IsSettled k d
    → is_active readable k' d ≡ true
    → IsLive d
IsLive-of_active readable k k' d le s on = live d.deleted_at_order s.1 (ground arith)
  where
    live :
        (o : Option ℤ)
        → is_deleted_by k o ≡ is_some o
        → is_deleted_by k' o ≡ false
        → is_some o ≡ false
    live none h e = refl
    live (some j) h e = ground arith

-- A definition that a command may read.
abbrev pub IsVisible : Section → Definitions → String → Type 0
IsVisible section ds id =
    (d : PlannedDefinition) × (lookup id ds ≡ some d)
    × IsLive d
    × (elem d.context_scope (readable_scopes section) ≡ true)

pub check_refs-IsVisible :
    (cfg : CommandConfiguration) (section : Section) (k k' : ℤ) (ds : Definitions)
    (refs : List (Role × String))
    → k ≤ℤ k'
    → IsPlan ds k
    → check_refs cfg section (active_definitions (readable_scopes section) k' ds) refs ≡ ok tt
    → All (IsVisible section ds) (map identifier refs)
unfolding check_refs
check_refs-IsVisible cfg section k k' ds [] le plan h = tt
check_refs-IsVisible cfg section k k' ds ((role, id) ∷ refs) le plan h =
    let active = active_definitions (readable_scopes section) k' ds in
    let (_, here, rest) =
      and_then-ok (check_definition cfg section (role, id) (lookup id active)) _ h in
    elim (Option-cases (lookup id active)) [
      | inl missing ↦ absurd (ground arith)
      | inr (d, found) ↦
          let (there, on) =
            active_definitions-some (readable_scopes section) k' id ds d plan.distinct found in
          let live =
            IsLive-of_active (readable_scopes section) k k' d le (plan.settled id d there) on in
          (
            (
              d,
              there,
              live,
              and_left (elem d.context_scope (readable_scopes section)) _ (and_left _ _ on),
            ),
            check_refs-IsVisible cfg section k k' ds refs le plan rest,
          )
    ]

pub IsVisible-IsReadable :
    (section : Section) (live : Live) (ds : Definitions) (ids : List String)
    → Holds live ds
    → All (IsVisible section ds) ids
    → All (IsReadable section live) ids
IsVisible-IsReadable section live ds [] holds v = tt
IsVisible-IsReadable section live ds (id ∷ ids) holds ((d, there, on, readable), vs) = (
  (d.context_scope, holds id d there on, readable),
  IsVisible-IsReadable section live ds ids holds vs,
)
