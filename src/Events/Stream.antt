-- ===== src/Events/Stream.antt =====
-- The frames that a reader of `stream_execution_events` takes, one `next` after the other.
use qsmith.Prelude.{
  ℕ, suc, zero, ◌≡◌, refl, String, Bool, true, false, ◌||◌, Option, none, some, List, [], ◌∷◌,
  length, ap, sym, ◌∙◌, arith,
}
use qsmith.Events.{Bus, Phase, replaying, closed, advance, subscribe, unsubscribe, history_of}

module _ {F : Type 0} where
  abbrev pub and_then : Option F → List F → List F
  and_then none fs = fs
  and_then (some f) fs = f ∷ fs

  module _ (is_finish : F → Bool) where
    -- Whether the last event of the execution is among some frames.
    abbrev pub holds_finish : List F → Bool
    holds_finish [] = false
    holds_finish (f ∷ fs) = is_finish f || holds_finish fs

    module _ (heartbeat : F) (execution_id : String) (n : ℕ) where
      -- What `k` calls of `next` yield, and what they leave.
      unfoldable pub take_frames : ℕ → Phase F → Bus F → List F × Phase F × Bus F
      unfolding advance
      take_frames zero p b = ([], p, b)
      take_frames (suc k) p b =
          let (out, p', b') = advance is_finish heartbeat execution_id n p b in
          let (fs, p'', b'') = take_frames k p' b' in (and_then out fs, p'', b'')

      or_assoc : (a b c : Bool) → ((a || b) || c) ≡ (a || (b || c))
      or_assoc true b c = refl
      or_assoc false b c = refl

      or_false : (a : Bool) → (a || false) ≡ a
      or_false true = refl
      or_false false = refl

      closing :
          (flag : Bool) (b : Bus F)
          → flag ≡ true
          → take_frames 1 (replaying [] flag) b ≡ ([], closed, unsubscribe execution_id n b)
      unfolding take_frames
      closing true b e = refl
      closing false b e = absurd (ground arith)

      -- The history is yielded frame by frame; then the stream closes if the loop's flag is set.
      take_frames-replaying :
          (fs : List F) (flag : Bool) (b : Bus F)
          → (flag || holds_finish fs) ≡ true
          → take_frames (suc (length fs)) (replaying fs flag) b
            ≡ (fs, closed, unsubscribe execution_id n b)
      unfolding take_frames
      take_frames-replaying [] flag b e = closing flag b (sym (or_false flag) ∙ e)
      take_frames-replaying (f ∷ fs) flag b e =
          ap (λ (t : List F × Phase F × Bus F). (f ∷ t.0, t.1, t.2))
            (take_frames-replaying fs (flag || is_finish f) b
              (or_assoc flag (is_finish f) (holds_finish fs) ∙ e))

  -- A client that asks for the events of an execution that has finished gets the whole history, in
  -- its order and nothing else, and its stream then ends by itself and gives the subscription back.
  -- The history has a frame that the stream takes for the last one.
  pub take_frames-subscribe :
      (is_finish : F → Bool) (heartbeat : F) (execution_id : String) (b : Bus F)
      → holds_finish is_finish (history_of b execution_id) ≡ true
      → let (s, b') = subscribe execution_id b in
        take_frames is_finish heartbeat execution_id s.queue
          (suc (length s.history))
          (replaying s.history false)
          b'
        ≡ (history_of b execution_id, closed, unsubscribe execution_id s.queue b')
  unfolding subscribe
  take_frames-subscribe is_finish heartbeat execution_id b e =
      take_frames-replaying is_finish heartbeat execution_id _ (history_of b execution_id) false _ e
