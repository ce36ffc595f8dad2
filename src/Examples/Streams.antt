-- ===== src/Examples/Streams.antt =====
-- The theorem on a reader's stream, at an execution that has finished.
use qsmith.Prelude.{suc, ◌≡◌, refl, ap, String, Bool, false, ◌==◌, [], ◌∷◌, length}
use qsmith.Prelude.Dict.{lookup, insert}
use qsmith.Events.{Bus, empty_bus, publish, subscribe, unsubscribe, history_of, replaying, closed}
use qsmith.Events.Stream.{holds_finish, take_frames, take_frames-subscribe}

abbrev is_finish : String → Bool
is_finish frame = frame == "execution_finished"

abbrev finished_bus : Bus String
finished_bus = publish "e1" "execution_finished" (publish "e1" "execution_started" empty_bus)

finished_history : history_of finished_bus "e1" ≡ "execution_started" ∷ "execution_finished" ∷ []
unfolding publish lookup insert
finished_history = refl

take_frames-subscribe_example :
    let (s, b) = subscribe "e1" finished_bus in
    take_frames is_finish "heartbeat" "e1" s.queue
      (suc (length s.history))
      (replaying s.history false)
      b
    ≡ (history_of finished_bus "e1", closed, unsubscribe "e1" s.queue b)
take_frames-subscribe_example =
    take_frames-subscribe is_finish "heartbeat" "e1" finished_bus
      (ap (holds_finish is_finish) finished_history)
