-- ===== src/Events/Reach.antt =====
-- The bus through any steps of the application.
use qsmith.Prelude.{
  ℕ, ◌≤◌, ◌<◌, String, ◌≡◌, refl, Bool, true, false, Option, none, some, Bool-cases, inl, inr, List,
  [], ◌∷◌, ◌++◌, length, get_elem?, arith, length-append, length-set, subst,
}
use qsmith.Prelude.Dict.{Dict, lookup, lookup-insert-some, lookup-erase-some, lookup-nil}
use qsmith.Prelude.Text.{is_empty}
use qsmith.Events.Bounds.{
  All-append, AreShort, AreBelow, AreBelow-later, remove_first-AreBelow, deliver-AreShort,
  set-tail-AreShort, length-append_bounded, deliver-length,
}
use qsmith.Events.{
  Bus, Phase, replaying, live, ending, closed, empty_bus, publish, subscribe, unsubscribe, advance,
  take_live, is_waiting, subscribers_of, list_or_empty, left_subscribers, event_history_size,
  queue_size,
}

pub record IsBounded {F : Type 0} (b : Bus F) : Type 0 where
  pub histories :
      (execution_id : String) (frames : List F)
      → lookup execution_id b.history ≡ some frames
      → length frames ≤ event_history_size
  pub waiting : AreShort b.queues
  pub wired :
      (execution_id : String) (ns : List ℕ)
      → lookup execution_id b.subscribers ≡ some ns
      → AreBelow (length b.queues) ns

pub IsBounded-empty : (F : Type 0) → IsBounded (empty_bus {F = F})
IsBounded-empty F = record {
  histories = λ i frames h. cc (lookup-nil {V = List F} i);
  waiting = tt;
  wired = λ i ns h. cc (lookup-nil {V = List ℕ} i);
}

-- What the application does with the bus.
pub data Step {F : Type 0} : Bus F → Bus F → Type 0 where
  published :
      (execution_id : String) (frame : F) {b : Bus F} → Step b (publish execution_id frame b)
  subscribed : (execution_id : String) {b : Bus F} → Step b (subscribe execution_id b).1
  unsubscribed : (execution_id : String) (n : ℕ) {b : Bus F} → Step b (unsubscribe execution_id n b)
  advanced :
      (is_finish : F → Bool) (heartbeat : F) (execution_id : String) (n : ℕ) (phase : Phase F)
      {b : Bus F}
      → Step b (advance is_finish heartbeat execution_id n phase b).2

pub data Reach {F : Type 0} (b : Bus F) : Bus F → Type 0 where
  here : Reach b b
  next : {c d : Bus F} → Reach b c → Step c d → Reach b d

pub AreBelow-list_or_empty :
    (o : Option (List ℕ)) (n : ℕ)
    → ((ns : List ℕ) → o ≡ some ns → AreBelow n ns)
    → AreBelow n (list_or_empty o)
AreBelow-list_or_empty none n h = tt
AreBelow-list_or_empty (some ns) n h = h ns refl

left_subscribers-AreBelow :
    (execution_id i : String) (ns : List ℕ) (d : Dict (List ℕ)) (n : ℕ) (ms : List ℕ)
    → AreBelow n ns
    → ((j : String) (ks : List ℕ) → lookup j d ≡ some ks → AreBelow n ks)
    → lookup i (left_subscribers execution_id ns d) ≡ some ms
    → AreBelow n ms
left_subscribers-AreBelow execution_id i [] d n ms below old h =
    old i ms (lookup-erase-some execution_id i d ms h).1
left_subscribers-AreBelow execution_id i (k ∷ ks) d n ms below old h =
    elim (lookup-insert-some execution_id i (k ∷ ks) ms d h) [
      | inl (_, same) ↦ subst (AreBelow n) same below
      | inr (_, there) ↦ old i ms there
    ]

module _ {F : Type 0} where
  length-list_or_empty :
      (o : Option (List F)) (n : ℕ)
      → ((frames : List F) → o ≡ some frames → length frames ≤ n)
      → length (list_or_empty o) ≤ n
  length-list_or_empty none n h = omega arith
  length-list_or_empty (some frames) n h = h frames refl

  publish-IsBounded :
      (execution_id : String) (frame : F) (b : Bus F)
      → IsBounded b
      → IsBounded (publish execution_id frame b)
  unfolding publish
  publish-IsBounded execution_id frame b s = elim (Bool-cases (is_empty execution_id)) [
    | inl blank ↦ rw blank s
    | inr given ↦ rw given record {
      histories = λ i frames h. elim (lookup-insert-some execution_id i _ frames b.history h) [
        | inl (_, same) ↦
            subst (λ (xs : List F). length xs ≤ event_history_size) same
              (length-append_bounded _ frame
                (length-list_or_empty (lookup execution_id b.history) _ (s.histories execution_id)))
        | inr (_, there) ↦ s.histories i frames there
      ];
      waiting = deliver-AreShort frame (subscribers_of b execution_id) b.queues s.waiting;
      wired = λ i ns h.
          AreBelow-later _ _ ns
            (omega (arith, deliver-length frame (subscribers_of b execution_id) b.queues))
            (s.wired i ns h);
    }
  ]

  subscribe-IsBounded :
      (execution_id : String) (b : Bus F) → IsBounded b → IsBounded (subscribe execution_id b).1
  unfolding subscribe
  subscribe-IsBounded execution_id b s = record {
    histories = s.histories;
    waiting =
        All-append (λ (q : List F). length q ≤ queue_size) b.queues ([] ∷ []) s.waiting
          (omega arith, tt);
    wired = λ i ns h.
        let grown : length b.queues ≤ length (b.queues ++ ([] ∷ [])) =
          omega (arith, length-append b.queues ([] ∷ [])) in
        elim (lookup-insert-some execution_id i _ ns b.subscribers h) [
          | inl (_, same) ↦ subst (AreBelow (length (b.queues ++ ([] ∷ [])))) same (
              All-append (λ (m : ℕ). m < length (b.queues ++ ([] ∷ []))) _ (length b.queues ∷ [])
                (AreBelow-later _ _ _ grown (
                  AreBelow-list_or_empty (lookup execution_id b.subscribers) _
                    (s.wired execution_id)))
                (omega (arith, length-append b.queues ([] ∷ [])), tt))
          | inr (_, there) ↦ AreBelow-later _ _ ns grown (s.wired i ns there)
        ];
  }

  unsubscribe-IsBounded :
      (execution_id : String) (n : ℕ) (b : Bus F)
      → IsBounded b
      → IsBounded (unsubscribe execution_id n b)
  unfolding unsubscribe
  unsubscribe-IsBounded execution_id n b s = record {
    histories = s.histories;
    waiting = s.waiting;
    wired = λ i ns h.
        left_subscribers-AreBelow execution_id i _ b.subscribers _ ns
          (remove_first-AreBelow n _ _
            (AreBelow-list_or_empty (lookup execution_id b.subscribers) _ (s.wired execution_id)))
          s.wired h;
  }

  module _ (is_finish : F → Bool) (heartbeat : F) (execution_id : String) (n : ℕ) where
    take_live-IsBounded :
        (b : Bus F) → IsBounded b → IsBounded (take_live is_finish heartbeat execution_id n b).2
    take_live-IsBounded b s = elim (Bool-cases (is_waiting (get_elem? b.queues n))) [
      | inl waits ↦ rw waits s
      | inr comes ↦ rw comes record {
        histories = s.histories;
        waiting = set-tail-AreShort b.queues n s.waiting;
        wired = λ i ns h.
            AreBelow-later _ _ ns (omega (arith, length-set b.queues n _)) (s.wired i ns h);
      }
    ]

    advance-IsBounded :
        (phase : Phase F) (b : Bus F)
        → IsBounded b
        → IsBounded (advance is_finish heartbeat execution_id n phase b).2
    unfolding advance
    advance-IsBounded (replaying (frame ∷ rest) finished) b s = s
    advance-IsBounded (replaying [] true) b s = unsubscribe-IsBounded execution_id n b s
    advance-IsBounded (replaying [] false) b s = take_live-IsBounded b s
    advance-IsBounded live b s = take_live-IsBounded b s
    advance-IsBounded ending b s = unsubscribe-IsBounded execution_id n b s
    advance-IsBounded closed b s = s

  Step-IsBounded : {b c : Bus F} → Step b c → IsBounded b → IsBounded c
  Step-IsBounded {b} (published execution_id frame) s = publish-IsBounded execution_id frame b s
  Step-IsBounded {b} (subscribed execution_id) s = subscribe-IsBounded execution_id b s
  Step-IsBounded {b} (unsubscribed execution_id n) s = unsubscribe-IsBounded execution_id n b s
  Step-IsBounded {b} (advanced is_finish heartbeat execution_id n phase) s =
      advance-IsBounded is_finish heartbeat execution_id n phase b s

  Reach-IsBounded_lem : {b c : Bus F} → IsBounded b → Reach b c → IsBounded c
  Reach-IsBounded_lem s here = s
  Reach-IsBounded_lem s (next p st) = Step-IsBounded st (Reach-IsBounded_lem s p)

-- Through any publications, subscriptions and reading of streams: no history of an execution is
-- longer than 500 frames, no queue holds more than 1000, and every subscriber's queue exists.
pub Reach-IsBounded : {F : Type 0} (b : Bus F) → Reach empty_bus b → IsBounded b
Reach-IsBounded {F} b p = Reach-IsBounded_lem (IsBounded-empty F) p
