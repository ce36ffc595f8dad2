-- ===== src/Events/Delivery.antt =====
-- A subscriber gets every frame once: in the history that it is given, or in its queue.
use qsmith.Prelude.{
  ℕ, suc, ◌+◌, ◌≤◌, ◌<◌, String, ◌≡◌, refl, sym, ◌∙◌, ap, Bool, true, false, some, Bool-cases, inl,
  inr, List, [], ◌∷◌, ◌++◌, length, get_elem?, arith, length-append, get_elem?-append_length, subst,
  ◌==◌, eq_iff, eq_refl, if◌then◌else◌,
}
use mathlib.Core.List.{append_assoc, append-nil}
use qsmith.Prelude.Dict.{lookup, lookup-insert}
use qsmith.Prelude.Text.{is_empty}
use qsmith.Events.Queues.{
  count, count-AreBelow, count-append, deliver-absent, deliver-once, append_bounded-fits,
  put_nowait-fits,
}
use qsmith.Events.Reach.{AreBelow-list_or_empty, IsBounded, Reach, Reach-IsBounded}
use qsmith.Events.{
  Bus, empty_bus, publish, subscribe, history_of, subscribers_of, event_history_size, queue_size,
}

module _ {F : Type 0} where
  -- A queue `n` of a subscriber to one execution, which holds `q`, and the execution's history.
  pub record Follows (execution_id : String) (n : ℕ) (q : List F) (frames : List F) (b : Bus F)
      : Type 0 where
    pub holds : get_elem? b.queues n ≡ some q
    pub subscribed :
        (i : String) → count n (subscribers_of b i) ≡ (if execution_id == i then 1 else 0)
    pub recorded : history_of b execution_id ≡ frames

  -- The frames that were published for one execution.
  abbrev pub addressed : String → List (String × F) → List F
  addressed execution_id [] = []
  addressed execution_id ((i, frame) ∷ rest) =
      if execution_id == i then frame ∷ addressed execution_id rest else addressed execution_id rest

  abbrev pub publish_all : List (String × F) → Bus F → Bus F
  publish_all [] b = b
  publish_all ((i, frame) ∷ rest) b = publish_all rest (publish i frame b)

  module _ (execution_id : String) (n : ℕ) (given : is_empty execution_id ≡ false) where
    Follows-publish_self :
        (frame : F) (q frames : List F) (b : Bus F)
        → length q < queue_size
        → length frames < event_history_size
        → Follows execution_id n q frames b
        → Follows execution_id n
            (q ++ (frame ∷ []))
            (frames ++ (frame ∷ []))
            (publish execution_id frame b)
    unfolding publish
    Follows-publish_self frame q frames b room short f = rw given record {
      holds =
          deliver-once frame n (subscribers_of b execution_id) b.queues q
            (f.subscribed execution_id ∙ rw eq_refl) f.holds
          ∙ ap some (put_nowait-fits frame q room);
      subscribed = f.subscribed;
      recorded =
          rw lookup-insert (rw eq_refl (rw f.recorded (append_bounded-fits frames frame short)));
    }

    Follows-publish_other :
        (i : String) (frame : F) (q frames : List F) (b : Bus F)
        → (execution_id == i) ≡ false
        → Follows execution_id n q frames b
        → Follows execution_id n q frames (publish i frame b)
    unfolding publish
    Follows-publish_other i frame q frames b other f = elim (Bool-cases (is_empty i)) [
      | inl blank ↦ rw blank f
      | inr filled ↦ rw filled record {
        holds =
            deliver-absent frame n (subscribers_of b i) b.queues q (f.subscribed i ∙ rw other)
              f.holds;
        subscribed = f.subscribed;
        recorded = rw lookup-insert (rw (ne_of_other i other) f.recorded);
      }
    ]
      where
        ne_of_other : (i : String) → (execution_id == i) ≡ false → (i == execution_id) ≡ false
        ne_of_other i other = ground (arith, eq_iff execution_id i, eq_iff i execution_id)

    Follows-publish_all :
        (frames : List (String × F)) (q old : List F) (b : Bus F)
        → length q + length (addressed execution_id frames) ≤ queue_size
        → length old + length (addressed execution_id frames) ≤ event_history_size
        → Follows execution_id n q old b
        → Follows execution_id n
            (q ++ addressed execution_id frames)
            (old ++ addressed execution_id frames)
            (publish_all frames b)
    Follows-publish_all [] q old b room short f = rw (append-nil q, append-nil old) f
    Follows-publish_all ((i, frame) ∷ frames) q old b room short f =
        elim (Bool-cases (execution_id == i)) [
          | inl same ↦
              let room' : length q + suc (length (addressed execution_id frames)) ≤ queue_size =
                rw same at room in
              let short' : length old + suc (length (addressed execution_id frames))
                  ≤ event_history_size =
                rw same at short in
              let here =
                subst
                  (λ j.
                    Follows execution_id n (q ++ (frame ∷ [])) (old ++ (frame ∷ []))
                      (publish j frame b))
                  ((eq_iff execution_id i).0 same)
                  (Follows-publish_self frame q old b (omega arith) (omega arith) f) in
              rw same (
                rw
                  (
                    append_assoc q (frame ∷ []) (addressed execution_id frames),
                    append_assoc old (frame ∷ []) (addressed execution_id frames),
                  )
                  at
                  (Follows-publish_all frames (q ++ (frame ∷ [])) (old ++ (frame ∷ []))
                    (publish i frame b) (omega (arith, length-append q (frame ∷ [])))
                    (omega (arith, length-append old (frame ∷ []))) here))
          | inr other ↦ rw other (
              Follows-publish_all frames q old (publish i frame b) (rw other at room)
                (rw other at short) (Follows-publish_other i frame q old b other f))
        ]

  subscribe-Follows :
      (execution_id : String) (b : Bus F)
      → IsBounded b
      → Follows execution_id
          (length b.queues)
          []
          (history_of b execution_id)
          (subscribe execution_id b).1
  unfolding subscribe
  subscribe-Follows execution_id b s = record {
    holds = get_elem?-append_length b.queues [];
    subscribed = λ i. counted i (execution_id == i) refl;
    recorded = refl;
  }
    where
      n : ℕ
      n = length b.queues

      absent : (i : String) → count n (subscribers_of b i) ≡ 0
      absent i = count-AreBelow n _ (AreBelow-list_or_empty (lookup i b.subscribers) n (s.wired i))

      counted :
          (i : String) (same : Bool)
          → (execution_id == i) ≡ same
          → count n (subscribers_of (subscribe execution_id b).1 i)
            ≡ (if execution_id == i then 1 else 0)
      counted i true e = rw lookup-insert (
          rw e (
            ground (
              arith,
              count-append n (subscribers_of b execution_id) (n ∷ []),
              absent execution_id,
            )))
      counted i false e = rw lookup-insert (rw e (absent i))

-- Once it has subscribed, a subscriber gets each frame of its execution once, whatever is
-- published for other executions in between: the frames published before are the history that it
-- is given, those published after wait in its queue in their order, and together they are the
-- history at the end. The frames of the execution fit into the history, so that they fit into
-- the queue as well.
pub subscribe_complete :
    {F : Type 0} (execution_id : String) (frames : List (String × F)) (b : Bus F)
    → Reach empty_bus b
    → is_empty execution_id ≡ false
    → length (history_of b execution_id) + length (addressed execution_id frames)
      ≤ event_history_size
    → let (s, b') = subscribe execution_id b in
      let final = publish_all frames b' in
      (get_elem? final.queues s.queue ≡ some (addressed execution_id frames))
      × (s.history ++ addressed execution_id frames ≡ history_of final execution_id)
subscribe_complete execution_id frames b reached given fits =
    let f =
      Follows-publish_all execution_id (length b.queues) given frames [] (history_of b execution_id)
        (subscribe execution_id b).1 (omega arith) fits
        (subscribe-Follows execution_id b (Reach-IsBounded b reached)) in
    unfold subscribe in (f.holds, sym f.recorded)
