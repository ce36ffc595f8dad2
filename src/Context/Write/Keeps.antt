-- ===== src/Context/Write/Keeps.antt =====
-- `write_context_path` loses no object, and a dict stays a dict.
use qsmith.Prelude.{
  ℕ, String, ◌≡◌, refl, Bool, true, false, Option, none, some, Option-cases, inl, inr, List, [],
  ◌∷◌, Outcome, ok, err, ◌==◌, if◌then◌else◌,
}
use qsmith.Prelude.Dict.{Dict}
use qsmith.Memory.{Value, Heap, empty_dict, dict_at}
use qsmith.Memory.Kinds.{
  is_dict, kind_at, Extends, Extends-refl, Extends-trans, Extends-alloc, Extends-set,
  Extends-put_key, kind_of_dict_at,
}
use qsmith.Context.Path.{path_tokens, extract_context_root}
use qsmith.Context.State.{RunContext}
use qsmith.Context.Assign.Keeps.{assign-Extends}
use qsmith.Context.Write.{
  write_path, guard_root, target_from_root, replace_entries, write_target, write_at, write_guarded,
  write_rooted, commands_of,
}

commands_of-Extends :
    (c : RunContext) (o : Option (ℕ × Dict Value)) (h : Heap) → Extends h (commands_of c o h).1
commands_of-Extends c (some _) h = Extends-refl h
commands_of-Extends c none h = Extends-trans (Extends-alloc empty_dict h) (Extends-put_key _ _ _ _)

pub if-Extends :
    {A : Type 0} (b : Bool) (x y : A × Heap) (h : Heap)
    → Extends h x.1
    → Extends h y.1
    → Extends h (if b then x else y).1
if-Extends true x y h p q = p
if-Extends false x y h p q = q

target_from_root-Extends :
    (c : RunContext) (root : String) (h : Heap) → Extends h (target_from_root c root h).1
unfolding target_from_root
target_from_root-Extends c root h =
    let here = Extends-refl h in
    if-Extends (root == "runEnvelope") _ _ h here (
      if-Extends (root == "global") _ _ h here (
        if-Extends (root == "local") _ _ h here
          (if-Extends (root == "result") _ _ h here (commands_of-Extends c _ h))))

replace_entries-Extends :
    (v : Value) (o : Option (ℕ × Dict Value)) (h : Heap)
    → ((a : ℕ) (d : Dict Value) → o ≡ some (a, d) → kind_at h a ≡ some is_dict)
    → Extends h (replace_entries v o h)
replace_entries-Extends v none h at = Extends-refl h
replace_entries-Extends v (some (a, d)) h at =
    let cleared = Extends-set h a empty_dict (at a d refl) in
    Extends-trans cleared (Extends-set _ a _ (cleared.keeps a is_dict (at a d refl)))

write_target-Extends :
    (tokens : List String) (v target : Value) (h : Heap)
    → Extends h (write_target tokens v target h).1
write_target-Extends (token ∷ rest) v target h = assign-Extends (token ∷ rest) v target h
write_target-Extends [] v target h = elim (Option-cases (dict_at h v)) [
  | inl scalar ↦ rw scalar (Extends-refl h)
  | inr (_, found) ↦
      rw found
        (replace_entries-Extends v (dict_at h target) h (λ a d e. kind_of_dict_at h target e))
]

write_at-Extends :
    (c : RunContext) (root : String) (tokens : Outcome (List String)) (v : Value) (h : Heap)
    → Extends h (write_at c root tokens v h).1
write_at-Extends c root (err _) v h = Extends-refl h
write_at-Extends c root (ok tokens) v h =
    Extends-trans (target_from_root-Extends c root h) (write_target-Extends _ v _ _)

write_rooted-Extends :
    (c : RunContext) (path : String) (root : Outcome (Option String)) (v : Value) (h : Heap)
    → Extends h (write_rooted c path root v h).1
write_rooted-Extends c path (err _) v h = Extends-refl h
write_rooted-Extends c path (ok none) v h = Extends-refl h
write_rooted-Extends c path (ok (some root)) v h = guarded (guard_root c root)
  where
    guarded : (g : Outcome (Unit {0})) → Extends h (write_guarded c path root g v h).1
    guarded (err _) = Extends-refl h
    guarded (ok _) = write_at-Extends c root (path_tokens path) v h

-- A write loses no object, and a dict stays a dict and a list a list, whether it succeeds or raises.
pub write_path-Extends :
    (c : RunContext) (path : String) (v : Value) (h : Heap) → Extends h (write_path c path v h).1
unfolding write_path
write_path-Extends c path v h = write_rooted-Extends c path (extract_context_root path) v h
