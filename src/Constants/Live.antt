-- ===== src/Constants/Live.antt =====
-- The scoping of a section's commands, told without the planner's orders: a command may refer to
-- what an earlier one declares, as long as none in between deletes it.
pub mod Visible
pub mod Effects
pub mod Safe
use qsmith.Prelude.{
  String, ◌≡◌, true, Option, none, some, List, [], ◌∷◌, All, map, elem, Outcome, ok, err, ◌==◌,
  if◌then◌else◌,
}
use qsmith.Constants.Tables.{Section, readable_scopes, context_value, local, result}
use qsmith.Constants.Plan.{
  CommandConfiguration, Kind, init_constant, delete_constant, run_suite, other, ResultConstant,
  CommandInput, definition_refs, text_or, Role,
}

-- The scope of each definition that is declared and not deleted, by its identifier.
abbrev pub Live : Type 0
Live = String → Option String

abbrev pub add : String → String → Live → Live
add id scope live j = if id == j then some scope else live j

abbrev pub drop : String → Live → Live
drop id live j = if id == j then none else live j

abbrev pub add_result : Option ResultConstant → Live → Live
add_result none live = live
add_result (some r) live = add r.definition_id (context_value result) live

abbrev pub add_init : Kind → Live → Live
add_init (init_constant id name context source_type) live =
    add id (text_or context (context_value local)) live
add_init _ live = live

-- What a command of a kind, with a result or none, declares or deletes.
abbrev pub scoping_of : Kind → Option ResultConstant → Live → Live
scoping_of (delete_constant id) r live = drop id live
scoping_of kind r live = add_result r (add_init kind live)

-- The definition is live, in a scope that the section may read.
abbrev pub IsReadable : Section → Live → String → Type 0
IsReadable section live id =
    (scope : String) × (live id ≡ some scope) × (elem scope (readable_scopes section) ≡ true)

abbrev pub identifier : Role × String → String
identifier (role, id) = id

abbrev pub ScopedAs : (CommandConfiguration → Type 0) → Outcome CommandConfiguration → Type 0
ScopedAs k (ok cfg) = k cfg
ScopedAs k (err message) = ⊥

-- Each command, one after another, refers to readable definitions only.
module _ {C : Type 0} (convert : C → Outcome CommandConfiguration) (section : Section) where
  abbrev pub IsScoped : Live → List (CommandInput C) → Type 0
  IsScoped live [] = Unit
  IsScoped live (c ∷ cs) =
      ScopedAs
        (λ cfg.
          All (IsReadable section live) (map identifier (definition_refs cfg))
          × IsScoped (scoping_of cfg.kind cfg.result_constant live) cs)
        (convert c.cfg)
