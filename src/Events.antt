-- ===== src/Events.antt =====
-- app/elaborations/services/suite_runs/execution_event_bus.py: the events of an execution, its
-- subscribers and the stream that one of them reads.
pub mod Queues
pub mod Delivery
pub mod Bounds
pub mod Reach
pub mod Stream
use qsmith.Prelude.{
  ℕ, suc, ◌<◌, String, Bool, true, false, ◌||◌, Option, none, some, List, [], ◌∷◌, ◌++◌, length,
  get_elem?, set, eqb, ltb, leb, if◌then◌else◌,
}
use qsmith.Prelude.Dict.{Dict, lookup, insert, erase}
use qsmith.Prelude.Text.{is_empty}

abbrev pub event_history_size : ℕ
event_history_size = 500

abbrev pub queue_size : ℕ
queue_size = 1000

-- `_HISTORY` and `_SUBSCRIBERS`, for frames of any type. A queue is known by its number, and the
-- queues are all that were ever made.
pub record Bus (F : Type 0) : Type 0 where
  pub history : Dict (List F)
  pub subscribers : Dict (List ℕ)
  pub queues : List (List F)

-- The queue of a subscriber to an execution.
pub record Subscription (F : Type 0) : Type 0 where
  pub queue : ℕ
  pub history : List F

-- What `stream_execution_events` is about to do.
pub data Phase (F : Type 0) : Type 0 where
  replaying : List F → Bool → Phase F
  live ending closed : Phase F

module _ {A : Type 0} where
  -- `d.get(k, [])`
  abbrev pub list_or_empty : Option (List A) → List A
  list_or_empty none = []
  list_or_empty (some xs) = xs

  abbrev pub tail : List A → List A
  tail [] = []
  tail (x ∷ xs) = xs

-- `subscribers.remove(queue)`, of the first one, if there is one
unfoldable pub remove_first : ℕ → List ℕ → List ℕ
remove_first n [] = []
remove_first n (m ∷ ms) = if eqb n m then ms else m ∷ remove_first n ms

abbrev pub left_subscribers : String → List ℕ → Dict (List ℕ) → Dict (List ℕ)
left_subscribers execution_id [] d = erase execution_id d
left_subscribers execution_id (n ∷ ns) d = insert execution_id (n ∷ ns) d

module _ {F : Type 0} where
  abbrev pub empty_bus : Bus F
  empty_bus = record { history = []; subscribers = []; queues = [] }

  abbrev pub history_of : Bus F → String → List F
  history_of b execution_id = list_or_empty (lookup execution_id b.history)

  abbrev pub subscribers_of : Bus F → String → List ℕ
  subscribers_of b execution_id = list_or_empty (lookup execution_id b.subscribers)

  -- `append` of a deque with a greatest length: the oldest frame goes.
  unfoldable pub append_bounded : List F → F → List F
  append_bounded frames frame =
      let longer = frames ++ (frame ∷ []) in
      if ltb event_history_size (length longer) then tail longer else longer

  -- `put_nowait`; a frame that a full queue does not take is dropped.
  unfoldable pub put_nowait : F → List F → List F
  put_nowait frame queue = if ltb (length queue) queue_size then queue ++ (frame ∷ []) else queue

  unfoldable pub put_at : F → ℕ → List (List F) → List (List F)
  unfolding put_nowait
  put_at frame n [] = []
  put_at frame ℕ.zero (q ∷ qs) = put_nowait frame q ∷ qs
  put_at frame (suc n) (q ∷ qs) = q ∷ put_at frame n qs

  unfoldable pub deliver : F → List ℕ → List (List F) → List (List F)
  unfolding put_at
  deliver frame [] qs = qs
  deliver frame (n ∷ ns) qs = deliver frame ns (put_at frame n qs)

  -- `publish_execution_event`, once the frame is made.
  unfoldable pub publish : String → F → Bus F → Bus F
  unfolding append_bounded deliver
  publish execution_id frame b = if is_empty execution_id then b else record b {
    history = insert execution_id (append_bounded (history_of b execution_id) frame) b.history;
    queues = deliver frame (subscribers_of b execution_id) b.queues;
  }

  unfoldable pub subscribe : String → Bus F → Subscription F × Bus F
  subscribe execution_id b =
      let n = length b.queues in
      (
        record { queue = n; history = history_of b execution_id },
        record b {
          subscribers =
              insert execution_id (subscribers_of b execution_id ++ (n ∷ [])) b.subscribers;
          queues = b.queues ++ ([] ∷ []);
        },
      )

  unfoldable pub unsubscribe : String → ℕ → Bus F → Bus F
  unfolding remove_first
  unsubscribe execution_id n b = record b {
    subscribers =
        left_subscribers execution_id (remove_first n (subscribers_of b execution_id))
          b.subscribers;
  }

  -- `get` with a timeout: the oldest frame, or a heartbeat where the queue stays empty.
  abbrev pub got : Option (List F) → F → F
  got none heartbeat = heartbeat
  got (some []) heartbeat = heartbeat
  got (some (frame ∷ _)) heartbeat = frame

  abbrev pub is_waiting : Option (List F) → Bool
  is_waiting none = true
  is_waiting (some []) = true
  is_waiting (some _) = false

  -- One `next` of the generator. `is_finish` asks for the text of the last event in a frame.
  module _ (is_finish : F → Bool) (heartbeat : F) (execution_id : String) (n : ℕ) where
    abbrev pub take_live : Bus F → Option F × Phase F × Bus F
    take_live b =
        let waiting = get_elem? b.queues n in
        let frame = got waiting heartbeat in
        if is_waiting waiting then (some frame, live, b) else (
          some frame,
          (if is_finish frame then ending else live),
          record b { queues = set b.queues n (tail (list_or_empty waiting)) },
        )

    unfoldable pub advance : Phase F → Bus F → Option F × Phase F × Bus F
    advance (replaying (frame ∷ rest) finished) b =
        (some frame, replaying rest (finished || is_finish frame), b)
    advance (replaying [] true) b = (none, closed, unsubscribe execution_id n b)
    advance (replaying [] false) b = take_live b
    advance live b = take_live b
    advance ending b = (none, closed, unsubscribe execution_id n b)
    advance closed b = (none, closed, b)
