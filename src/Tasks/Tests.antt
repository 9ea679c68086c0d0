-- ===== src/Tasks/Tests.antt =====
-- The reference solutions on small inputs, and the theorems about them there.
use codejudge_ai.Base.{ℕ, ◌≤◌, ◌≡◌, ◌↔◌, refl, arith, none, some, List, [], ◌∷◌, ◌++◌, count}
use codejudge_ai.Base.Errors.{ok}
use codejudge_ai.Tasks.FrameDecoder.Chunks.{and_feed, feed-append}
use codejudge_ai.Tasks.FrameDecoder.Decoding.{feed-decodes_iff}
use codejudge_ai.Tasks.FrameDecoder.Language.{Encodes, holding}
use codejudge_ai.Tasks.FrameDecoder.Loop.{Ends, feed-Ends}
use codejudge_ai.Tasks.FrameDecoder.{feed}
use codejudge_ai.Tasks.CircuitBreaker.Opening.{IsValid, failing_calls, failing_calls-opens}
use codejudge_ai.Tasks.CircuitBreaker.{CircuitBreaker, closed, opened, trip}
use codejudge_ai.Tasks.IntervalReservation.Disjoint.{
  after, reserves, cancels, holds, after-exclusive,
}
use codejudge_ai.Tasks.IntervalReservation.{Reservation}
use codejudge_ai.Tasks.RateLimiter.Window.{answers, expected, answers-expected}

abbrev breaker : CircuitBreaker
breaker = record {
  threshold = 2;
  recovery_timeout = 10;
  state = closed;
  failure_count = 0;
  opened_at = none;
  last_now = none;
}

breaker-IsValid : IsValid breaker
breaker-IsValid = record {
  positive = omega arith;
  timed = omega arith;
  counted = omega arith;
  since = refl;
  settled = refl;
}

abbrev tripped : CircuitBreaker
tripped = trip 4 (record breaker { last_now = some 4 })

failing_calls-opens_example : (failing_calls (3 ∷ 4 ∷ []) breaker).state ≡ opened
failing_calls-opens_example =
    failing_calls-opens (3 ∷ 4 ∷ []) breaker breaker-IsValid refl (refl, (refl, tt)) (omega arith)

abbrev morning : Reservation
morning = record { id = "a"; resource = "room"; start = 8; end_ = 12 }

after-exclusive_example :
    count (holds "room" 9) (
      after
        (reserves "a" "room" 8 12
          ∷ reserves "b" "room" 11 13
          ∷ cancels "a"
          ∷ reserves "c" "room" 9 10
          ∷ [])
        [])
    ≤ 1
after-exclusive_example =
    after-exclusive
      (reserves "a" "room" 8 12
        ∷ reserves "b" "room" 11 13
        ∷ cancels "a"
        ∷ reserves "c" "room" 9 10
        ∷ [])
      "room" 9

answers-expected_example :
    answers 2 10 [] (1 ∷ 2 ∷ 3 ∷ 12 ∷ []) ≡ expected 2 10 [] (1 ∷ 2 ∷ 3 ∷ 12 ∷ [])
answers-expected_example =
    answers-expected 2 10 (1 ∷ 2 ∷ 3 ∷ 12 ∷ []) (omega arith)
      (omega arith, (omega arith, (omega arith, (omega arith, tt))))

-- "2:ab0:" in two chunks
abbrev text : List ℕ
text = b'2' ∷ b':' ∷ b'a' ∷ b'b' ∷ b'0' ∷ b':' ∷ []

feed-append_example :
    feed (holding 5 []) ((b'2' ∷ []) ++ (b':' ∷ b'a' ∷ b'b' ∷ b'0' ∷ b':' ∷ []))
    ≡ and_feed (b':' ∷ b'a' ∷ b'b' ∷ b'0' ∷ b':' ∷ []) (feed (holding 5 []) (b'2' ∷ []))
feed-append_example = feed-append (holding 5 []) (b'2' ∷ []) (b':' ∷ b'a' ∷ b'b' ∷ b'0' ∷ b':' ∷ [])

feed-decodes_iff_example :
    (feed (holding 5 []) text ≡ some (ok ((b'a' ∷ b'b' ∷ []) ∷ [] ∷ []), holding 5 []))
    ↔ Encodes 5 text ((b'a' ∷ b'b' ∷ []) ∷ [] ∷ [])
feed-decodes_iff_example = feed-decodes_iff 5 text ((b'a' ∷ b'b' ∷ []) ∷ [] ∷ [])

feed-Ends_example : Ends (feed (holding 5 []) text)
feed-Ends_example = feed-Ends (holding 5 []) text
