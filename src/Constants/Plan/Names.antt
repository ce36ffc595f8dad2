-- ===== src/Constants/Plan/Names.antt =====
-- What one command does to the definitions: none of those that are not deleted come to share a name
-- and a scope.
use qsmith.Prelude.{
  String, ◌≡◌, ◌≢◌, refl, ◌∙◌, sym, ap, true, false, Option, none, some, is_some, Bool-cases, inl,
  inr, List, [], ◌∷◌, arith, eq_iff, elem, subst, All, ok, and_then-ok,
}
use qsmith.Prelude.Dict.{
  lookup, insert, Distinct, insert-Distinct, lookup-insert-some, lookup-insert_self,
  lookup-insert_ne,
}
use qsmith.Prelude.Int.{ℤ, suc_ℤ, ◌≤ℤ◌, ltb_ℤ-suc_ℤ}
use qsmith.Constants.Tables.{
  Section, all_scopes, writable_scopes, test, before_all, before_each, after_each, after_all,
  pre_response, post_response, queue,
}
use qsmith.Constants.Plan.{
  PlannedDefinition, Definitions, is_deleted_by, active_definitions, validate_duplicate_name,
  check_declarations, add_definitions,
}
use qsmith.Constants.Plan.Active.{active_definitions-found}

abbrev pub IsLive : PlannedDefinition → Type 0
IsLive d = is_some d.deleted_at_order ≡ false

-- Two definitions that are not deleted have different names or scopes.
abbrev pub UniqueNames : Definitions → Type 0
UniqueNames ds =
    (i j : String) (d e : PlannedDefinition)
    → lookup i ds ≡ some d
    → lookup j ds ≡ some e
    → IsLive d
    → IsLive e
    → d.name ≡ e.name
    → d.context_scope ≡ e.context_scope
    → i ≡ j

-- Made, and deleted if ever, up to an order.
abbrev pub IsSettled : ℤ → PlannedDefinition → Type 0
IsSettled k d =
    (d.command_order ≤ℤ k) × (is_deleted_by k d.deleted_at_order ≡ is_some d.deleted_at_order)

pub record IsPlan (ds : Definitions) (k : ℤ) : Type 0 where
  pub distinct : Distinct ds
  pub settled : (id : String) (d : PlannedDefinition) → lookup id ds ≡ some d → IsSettled k d
  pub unique : UniqueNames ds

deleted_later :
    (k k' : ℤ) (o : Option ℤ)
    → k ≤ℤ k'
    → is_deleted_by k o ≡ is_some o
    → is_deleted_by k' o ≡ is_some o
deleted_later k k' none h e = refl
deleted_later k k' (some j) h e = ground arith

pub IsSettled-le : (k k' : ℤ) (d : PlannedDefinition) → k ≤ℤ k' → IsSettled k d → IsSettled k' d
IsSettled-le k k' d h s = (omega (arith, s.0), deleted_later k k' d.deleted_at_order h s.1)

pub IsPlan-le : {ds : Definitions} (k k' : ℤ) → k ≤ℤ k' → IsPlan ds k → IsPlan ds k'
IsPlan-le k k' h p = record {
  distinct = p.distinct;
  settled = λ id d e. IsSettled-le k k' d h (p.settled id d e);
  unique = p.unique;
}

-- No other definition that is not deleted has the name and the scope of this one.
abbrev pub IsFresh : String → PlannedDefinition → Definitions → Type 0
IsFresh id d ds =
    (j : String) (e : PlannedDefinition)
    → id ≢ j
    → lookup j ds ≡ some e
    → IsLive d
    → IsLive e
    → d.name ≡ e.name
    → d.context_scope ≡ e.context_scope
    → ⊥

insert-UniqueNames :
    (id : String) (d : PlannedDefinition) (ds : Definitions)
    → UniqueNames ds
    → IsFresh id d ds
    → UniqueNames (insert id d ds)
insert-UniqueNames id d ds u fresh i j x y ei ej lx ly names scopes =
    elim (lookup-insert-some id i d x ds ei) [
      | inl (si, dx) ↦ elim (lookup-insert-some id j d y ds ej) [
        | inl (sj, dy) ↦ sym si ∙ sj
        | inr (nj, fj) ↦ absurd (
            fresh j y nj fj (subst IsLive (sym dx) lx) ly
              (ap (λ (z : PlannedDefinition). z.name) dx ∙ names)
              (ap (λ (z : PlannedDefinition). z.context_scope) dx ∙ scopes))
      ]
      | inr (ni, fi) ↦ elim (lookup-insert-some id j d y ds ej) [
        | inl (sj, dy) ↦ absurd (
            fresh i x ni fi (subst IsLive (sym dy) ly) lx
              (ap (λ (z : PlannedDefinition). z.name) dy ∙ sym names)
              (ap (λ (z : PlannedDefinition). z.context_scope) dy ∙ sym scopes))
        | inr (nj, fj) ↦ u i j x y fi fj lx ly names scopes
      ]
    ]

pub insert-IsPlan :
    (id : String) (d : PlannedDefinition) (ds : Definitions) (k : ℤ)
    → IsPlan ds k
    → IsSettled k d
    → IsFresh id d ds
    → IsPlan (insert id d ds) k
insert-IsPlan id d ds k p s fresh = record {
  distinct = insert-Distinct id d ds p.distinct;
  settled = λ j e found. elim (lookup-insert-some id j d e ds found) [
    | inl (same, de) ↦ subst (IsSettled k) de s
    | inr (other, there) ↦ p.settled j e there
  ];
  unique = insert-UniqueNames id d ds p.unique fresh;
}

validate_duplicate_name-absent :
    (active : Definitions) (name scope j : String) (e : PlannedDefinition)
    → validate_duplicate_name active name scope ≡ ok tt
    → lookup j active ≡ some e
    → name ≡ e.name
    → scope ≡ e.context_scope
    → ⊥
unfolding validate_duplicate_name lookup
validate_duplicate_name-absent [] name scope j e h found n s = ground arith
validate_duplicate_name-absent ((k, d) ∷ ds) name scope j e h found n s = ground (
  arith,
  eq_iff d.name name,
  eq_iff d.context_scope scope,
  validate_duplicate_name-absent ds name scope j e,
)

-- Whatever is not deleted is active, if its scope is a scope at all.
abbrev pub Covers : Definitions → Definitions → Type 0
Covers active ds =
    (j : String) (e : PlannedDefinition)
    → lookup j ds ≡ some e
    → IsLive e
    → elem e.context_scope all_scopes ≡ true
    → lookup j active ≡ some e

insert-Covers :
    (id : String) (d : PlannedDefinition) (active ds : Definitions)
    → Covers active ds
    → Covers (insert id d active) (insert id d ds)
insert-Covers id d active ds c j e found live scope = elim (lookup-insert-some id j d e ds found) [
  | inl (same, de) ↦
      subst (λ x. lookup x (insert id d active) ≡ some e) same
        (lookup-insert_self id d active ∙ ap some de)
  | inr (other, there) ↦ lookup-insert_ne id j d active other ∙ c j e there live scope
]

not_deleted : (k : ℤ) (o : Option ℤ) → is_some o ≡ false → is_deleted_by k o ≡ false
not_deleted k none h = refl
not_deleted k (some j) h = cc

pub active_definitions-Covers :
    (ds : Definitions) (k : ℤ)
    → IsPlan ds k
    → Covers (active_definitions all_scopes (suc_ℤ k) ds) ds
active_definitions-Covers ds k p j e found live scope =
    active_definitions-found all_scopes (suc_ℤ k) j ds e p.distinct found (
      rw scope (
        rw (ltb_ℤ-suc_ℤ e.command_order k (p.settled j e found).0)
          (rw (not_deleted (suc_ℤ k) e.deleted_at_order live))))

writable_scopes-all :
    (section : Section) (scope : String)
    → elem scope (writable_scopes section) ≡ true
    → elem scope all_scopes ≡ true
writable_scopes-all test scope h = ground arith
writable_scopes-all before_all scope h = ground arith
writable_scopes-all before_each scope h = ground arith
writable_scopes-all after_each scope h = ground arith
writable_scopes-all after_all scope h = ground arith
writable_scopes-all pre_response scope h = ground arith
writable_scopes-all post_response scope h = ground arith
writable_scopes-all queue scope h = ground arith

-- What the checks of one declaration give.
pub check_declarations-cons :
    (section : Section) (active : Definitions) (d : PlannedDefinition) (ds : List PlannedDefinition)
    → check_declarations section active (d ∷ ds) ≡ ok tt
    → (elem d.context_scope (writable_scopes section) ≡ true)
      × (validate_duplicate_name active d.name d.context_scope ≡ ok tt)
      × (check_declarations section (insert d.definition_id d active) ds ≡ ok tt)
unfolding check_declarations
check_declarations-cons section active d ds h =
    elim (Bool-cases (elem d.context_scope (writable_scopes section))) [
      | inl allowed ↦
          let (_, e, rest) =
            and_then-ok (validate_duplicate_name active d.name d.context_scope) _
              (rw allowed at h) in
          (allowed, e, rest)
      | inr refused ↦ absurd (ground arith)
    ]

-- A declaration that is new at an order.
abbrev pub IsNew : ℤ → PlannedDefinition → Type 0
IsNew k d = (d.command_order ≡ k) × (d.deleted_at_order ≡ none)

IsNew-IsSettled : (k : ℤ) (d : PlannedDefinition) → IsNew k d → IsSettled k d
IsNew-IsSettled k d (o, n) = (rw o (omega arith), ap (is_deleted_by k) n ∙ ap is_some (sym n))

pub add_definitions-IsPlan :
    (section : Section) (active ds : Definitions) (new : List PlannedDefinition) (k : ℤ)
    → check_declarations section active new ≡ ok tt
    → All (IsNew k) new
    → Covers active ds
    → IsPlan ds k
    → IsPlan (add_definitions new ds) k
unfolding add_definitions
add_definitions-IsPlan section active ds [] k h n c p = p
add_definitions-IsPlan section active ds (d ∷ new) k h n c p =
    let (allowed, free, rest) = check_declarations-cons section active d new h in
    add_definitions-IsPlan section (insert d.definition_id d active) (insert d.definition_id d ds)
      new k rest n.1 (insert-Covers d.definition_id d active ds c)
      (insert-IsPlan d.definition_id d ds k p (IsNew-IsSettled k d n.0)
        λ j e other found live_d live_e names scopes.
          validate_duplicate_name-absent active d.name d.context_scope j e free
            (c j e found live_e (
              subst (λ x. elem x all_scopes ≡ true) scopes
                (writable_scopes-all section d.context_scope allowed)))
            names scopes)
