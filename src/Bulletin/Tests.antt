-- ===== src/Bulletin/Tests.antt =====
-- The theorems on the bulletin board at concrete inputs.
use Prim.Native.String.{String}
use text.Mathlib.Text.{◌==◌ as str_eq}
use hodu.Prelude.{ℕ, ◌≡◌, refl, true, false, none, some, List, [], ◌∷◌, ltb, if◌then◌else◌, arith}
use hodu.Bulletin.Queue.{new_queue}
use hodu.Bulletin.Queue.Refine.{
  Call, enqueues, dequeues, blocks, answers, bounded_answers, answers_bounded,
}
use hodu.Bulletin.Topics.{Board}
use hodu.Bulletin.Topics.Openness.{IsValid}
use hodu.Bulletin.Topics.Calls.{
  Call as BoardCall, subscribes, unsubscribes, publishes, unsubscribes_all, new_board,
  calls as calls_of, calls-IsValid,
}

-- Room for two messages; 4 comes while the queue is blocked.
abbrev calls : List (Call ℕ)
calls =
    enqueues 1
    ∷ enqueues 2
    ∷ enqueues 3
    ∷ blocks true
    ∷ enqueues 4
    ∷ blocks false
    ∷ dequeues
    ∷ dequeues
    ∷ dequeues
    ∷ []

answers_bounded_example : answers calls (new_queue 2) ≡ bounded_answers 2 calls false []
answers_bounded_example = answers_bounded 2 calls (omega arith)

answers_test : bounded_answers 2 calls false [] ≡ some 2 ∷ some 3 ∷ none ∷ []
answers_test = refl

-- Subscribers 0 and 1 of topic "t1", and 2 of all messages.
abbrev topic_of : ℕ → String
topic_of s = if (ltb s 2) then "t1" else ""

abbrev board : Board ℕ
board = record {
  subscriptions = λ s. record { c = []; closed = false; topic = topic_of s; in_list = true };
  sbsc_map = λ t. if str_eq t "t1" then some (0 ∷ 1 ∷ []) else none;
  sbsc_list = 2 ∷ [];
  blocked = false;
  next_ref = 3;
}

-- Two subscribers of a topic, of which one leaves before the board ends, and a message for the other.
abbrev board_calls : List (BoardCall ℕ)
board_calls =
    subscribes "t1"
    ∷ subscribes "t1"
    ∷ unsubscribes 0
    ∷ publishes "t1" 7
    ∷ unsubscribes_all ("t1" ∷ [])
    ∷ []

calls-IsValid_example : IsValid (calls_of board_calls new_board)
calls-IsValid_example = calls-IsValid board_calls
