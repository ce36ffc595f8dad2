-- ===== src/Context/Write/Guard.antt =====
-- During a test the global and the envelope scope are closed to paths that start there.
use qsmith.Prelude.{
  String, ◌≡◌, refl, true, false, Option, some, Exec, ok, err, is_ok, ◌⊎◌, inl, inr,
}
use qsmith.Memory.{Value, Heap}
use qsmith.Context.Path.{extract_context_root}
use qsmith.Context.State.{RunContext, World}
use qsmith.Context.Write.{
  is_test, guard_root, in_context, write_context_path, remove_context_path, write_path, remove_path,
}

guard_root-closed :
    (c : RunContext) (root : String)
    → is_test c ≡ true
    → (root ≡ "global") ⊎ (root ≡ "runEnvelope")
    → (message : String) × (guard_root c root ≡ err message)
guard_root-closed c root test (inl e) =
    ("Global context is immutable during test execution.", rw e (rw test))
guard_root-closed c root test (inr e) =
    ("RunEnvelope context is immutable during test execution.", rw e (rw test))

module _ (c : RunContext) (path root message : String) (h : Heap)
    (rooted : extract_context_root path ≡ ok (some root))
    (raised : guard_root c root ≡ err message) where
  write_path-raises : (v : Value) → write_path c path v h ≡ (err message, h)
  unfolding write_path
  write_path-raises v = rw (rooted, raised)

  remove_path-raises : remove_path c path h ≡ (err message, h)
  unfolding remove_path
  remove_path-raises = rw (rooted, raised)

in_context-raises :
    (f : RunContext → Exec Heap (Unit {0})) (o : Option RunContext) (w : World) (c : RunContext)
    (message : String)
    → o ≡ some c
    → f c w.heap ≡ (err message, w.heap)
    → (is_ok (in_context f o w).0 ≡ false) × ((in_context f o w).1 ≡ w)
in_context-raises f o w c message bound e = rw bound (rw e (refl, refl))

-- During a test, a write to a path whose root is the global scope or the envelope raises, and so
-- does a removal. Neither changes the context or an object.
pub immutable_in_test :
    (w : World) (c : RunContext) (path root : String) (v : Value)
    → w.context ≡ some c
    → is_test c ≡ true
    → extract_context_root path ≡ ok (some root)
    → (root ≡ "global") ⊎ (root ≡ "runEnvelope")
    → (is_ok (write_context_path path v w).0 ≡ false)
      × ((write_context_path path v w).1 ≡ w)
      × (is_ok (remove_context_path path w).0 ≡ false)
      × ((remove_context_path path w).1 ≡ w)
unfolding write_context_path remove_context_path
immutable_in_test w c path root v bound test rooted closed =
    let (message, raised) = guard_root-closed c root test closed in
    let (fails, keeps) =
      in_context-raises (λ d. write_path d path v) w.context w c message bound
        (write_path-raises c path root message w.heap rooted raised v) in
    let (fails', keeps') =
      in_context-raises (λ d. remove_path d path) w.context w c message bound
        (remove_path-raises c path root message w.heap rooted raised) in
    (fails, keeps, fails', keeps')
