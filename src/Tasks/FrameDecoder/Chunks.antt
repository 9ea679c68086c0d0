-- ===== src/Tasks/FrameDecoder/Chunks.antt =====
-- Where the text is cut into chunks does not matter.
use codejudge_ai.Base.{
  ℕ, zero, suc, ◌+◌, ◌<◌, ◌≡◌, refl, sym, ap, ◌∙◌, arith, Option, none, some, List, [], ◌∷◌, ◌++◌,
  length,
}
use codejudge_ai.Tasks.FrameDecoder.Turns.{extend, Extends, turn-Extends}
use codejudge_ai.Base.Errors.{ok, raise}
use codejudge_ai.Tasks.FrameDecoder.Loop.{
  remaining, remaining-le, loop-fuel, loop-suc, feed-loop, Shrinks, turn-Shrinks, after_turn-fuel,
}
use mathlib.Core.Path.{subst}
use codejudge_ai.Tasks.FrameDecoder.{
  LengthPrefixedDecoder, Turn, breaks, fails, frames, Decoded, turn, with_frame, after_turn, loop,
  feed, reset,
}

-- the frames of one call, and those of the next
abbrev pub with_frames : List (List ℕ) → Option Decoded → Option Decoded
with_frames [] answer = answer
with_frames (frame ∷ rest) answer = with_frame frame (with_frames rest answer)

-- a second call, unless the first raised
unfoldable pub and_feed : List ℕ → Option Decoded → Option Decoded
and_feed more (some (ok found, d)) = with_frames found (feed d more)
and_feed more (some (raise e, d)) = some (raise e, d)
and_feed more none = none

and_feed-with_frame :
    (more frame : List ℕ) (answer : Option Decoded)
    → and_feed more (with_frame frame answer) ≡ with_frame frame (and_feed more answer)
unfolding and_feed with_frame
and_feed-with_frame more frame none = refl
and_feed-with_frame more frame (some (ok found, d)) = refl
and_feed-with_frame more frame (some (raise e, d)) = refl

-- a turn looks at the rest of its decoder only to reset it
after_turn-same :
    (d d' : LengthPrefixedDecoder) (f : LengthPrefixedDecoder → Option Decoded) (t : Turn)
    → d.maximum ≡ d'.maximum
    → after_turn d f t ≡ after_turn d' f t
unfolding after_turn reset
after_turn-same d d' f (breaks d1) e = refl
after_turn-same d d' f (fails error) e =
    ap (λ m. some (raise error, record { maximum = m; buffer = []; expected = none })) e
after_turn-same d d' f (frames frame d1) e = refl

-- a break, and the call that goes on from it
break-extend :
    (fuel' : ℕ) (d d1 : LengthPrefixedDecoder) (more : List ℕ)
    → d1.maximum ≡ d.maximum
    → turn (extend d more) ≡ turn (extend d1 more)
    → remaining (extend d more) < suc fuel'
    → after_turn (extend d more) (loop fuel') (turn (extend d more)) ≡ feed d1 more
break-extend fuel' d d1 more m e h =
    let whole = extend d more in
    let whole1 = extend d1 more in
    let fuel = remaining whole + remaining whole1 in
    after_turn-fuel whole (remaining whole) (loop fuel') (loop fuel) (turn whole)
      (turn-Shrinks whole)
      (λ d' smaller. loop-fuel fuel' fuel d' (omega (arith, smaller, h)) (omega (arith, smaller)))
    ∙ after_turn-same whole whole1 (loop fuel) (turn whole) (sym m)
    ∙ ap (after_turn whole1 (loop fuel)) e
    ∙ sym (feed-loop (suc fuel) d1 more (omega arith) ∙ loop-suc fuel whole1)

after_turn-extend :
    (fuel fuel' : ℕ) (d : LengthPrefixedDecoder) (more : List ℕ) (t : Turn)
    → Extends more d.maximum t (turn (extend d more))
    → Shrinks (remaining d) t
    → remaining (extend d more) < suc fuel'
    → ((d' : LengthPrefixedDecoder)
        → remaining d' < remaining d
        → remaining (extend d' more) < fuel'
        → loop fuel' (extend d' more) ≡ and_feed more (loop fuel d'))
    → after_turn (extend d more) (loop fuel') (turn (extend d more))
      ≡ and_feed more (after_turn d (loop fuel) t)
unfolding after_turn reset and_feed
after_turn-extend fuel fuel' d more (breaks d1) x less h ih = break-extend fuel' d d1 more x.1 x.0 h
after_turn-extend fuel fuel' d more (fails e) x less h ih = rw x refl
after_turn-extend fuel fuel' d more (frames frame d1) x less h ih =
    let shrinks = subst (Shrinks (remaining (extend d more))) x.0 (turn-Shrinks (extend d more)) in
    rw x.0 (
      ap (with_frame frame) (ih d1 less (omega (arith, shrinks, h)))
      ∙ sym (and_feed-with_frame more frame (loop fuel d1)))

-- the loop over a longer buffer
loop-extend :
    (fuel fuel' : ℕ) (d : LengthPrefixedDecoder) (more : List ℕ)
    → remaining d < fuel
    → remaining (extend d more) < fuel'
    → loop fuel' (extend d more) ≡ and_feed more (loop fuel d)
unfolding loop
loop-extend zero fuel' d more h h' = absurd (omega (arith, h))
loop-extend (suc fuel) zero d more h h' = absurd (omega (arith, h'))
loop-extend (suc fuel) (suc fuel') d more h h' =
    after_turn-extend fuel fuel' d more (turn d) (turn-Extends d more) (turn-Shrinks d) h'
      (λ d' less less'. loop-extend fuel fuel' d' more (omega (arith, less, h)) less')

append_assoc : (xs ys zs : List ℕ) → (xs ++ ys) ++ zs ≡ xs ++ (ys ++ zs)
append_assoc [] ys zs = refl
append_assoc (x ∷ xs) ys zs = ap (λ rest. x ∷ rest) (append_assoc xs ys zs)

-- Feeding two texts joined answers what feeding one and then the other answers: the frames of both
-- calls in their order and the state after the second, or, as soon as one raises, the ValueError in
-- place of all frames and the state after the reset.
pub feed-append :
    (d : LengthPrefixedDecoder) (first second : List ℕ)
    → feed d (first ++ second) ≡ and_feed second (feed d first)
unfolding feed
feed-append d first second =
    let once = record d { buffer = d.buffer ++ first } in
    ap (λ buffer. loop (length buffer + 2) (record d { buffer = buffer }))
      (sym (append_assoc d.buffer first second))
    ∙ loop-extend (length once.buffer + 2) (length (once.buffer ++ second) + 2) once second
        (remaining-le once) (remaining-le (extend once second))
