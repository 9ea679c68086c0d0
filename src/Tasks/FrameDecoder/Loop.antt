-- ===== src/Tasks/FrameDecoder/Loop.antt =====
-- The loop of `feed` ends, and its fuel does not matter.
use codejudge_ai.Base.{
  ℕ, zero, suc, ◌+◌, ◌≤◌, ◌<◌, ◌≡◌, refl, ap, arith, Option, none, some, List, [], ◌∷◌, ◌++◌,
  length, drop, is_some, if-elim, ltb, not, if◌then◌else◌, Option-cases, inl, inr,
}
use codejudge_ai.Base.Errors.{Result, ok, raise}
use codejudge_ai.Tasks.FrameDecoder.{
  LengthPrefixedDecoder, Turn, breaks, fails, frames, Decoded, take_frame, read_length, turn,
  turn_by, with_frame, after_turn, loop, feed, split, validate_partial_prefix, validated, int_from,
  is_valid_prefix,
}

-- what the frames consume: the buffer, and a length that was read
abbrev pub remaining : LengthPrefixedDecoder → ℕ
remaining d = length d.buffer + (if is_some d.expected then 1 else 0)

-- a frame takes something away
abbrev pub Shrinks : ℕ → Turn → Type 0
Shrinks bound (frames frame d) = remaining d < bound
Shrinks bound _ = Unit {0}

length-drop-le : (n : ℕ) (xs : List ℕ) → length (drop n xs) ≤ length xs
length-drop-le zero xs = omega arith
length-drop-le (suc n) [] = omega arith
length-drop-le (suc n) (x ∷ xs) = let ih = length-drop-le n xs in omega (arith, ih)

take_frame-Shrinks :
    (d : LengthPrefixedDecoder) (n bound : ℕ)
    → length d.buffer < bound
    → Shrinks bound (take_frame d n)
unfolding take_frame
take_frame-Shrinks d n bound h =
    if-elim (Shrinks bound) (ltb (length d.buffer) n) _ _ tt
      (let le = length-drop-le n d.buffer in omega (arith, le, h))

split-length : (cs prefix rest : List ℕ) → split cs ≡ some (prefix, rest) → length rest < length cs
unfolding split
split-length [] prefix rest h = absurd (cc)
split-length (c ∷ cs) prefix rest h = elim (Option-cases (split cs)) [
  | inl e ↦ ground (arith, e, h)
  | inr ((before, after), e) ↦
      let shorter = split-length cs before after e in ground (arith, e, h, shorter)
]

validated-Shrinks :
    (d : LengthPrefixedDecoder) (bound : ℕ) (answer : Result (Unit {0}))
    → Shrinks bound (validated d answer)
validated-Shrinks d bound (ok done) = tt
validated-Shrinks d bound (raise e) = tt

read_length-Shrinks :
    (d : LengthPrefixedDecoder) (bound : ℕ) (parts : Option (List ℕ × List ℕ))
    → split d.buffer ≡ parts
    → length d.buffer ≤ bound
    → Shrinks bound (read_length d parts)
unfolding read_length
read_length-Shrinks d bound none e le =
    validated-Shrinks d bound (validate_partial_prefix d.maximum d.buffer)
read_length-Shrinks d bound (some (prefix, rest)) e le =
    if-elim (Shrinks bound) (not (is_valid_prefix prefix)) _ _ tt (
      if-elim (Shrinks bound) (ltb d.maximum (int_from 0 prefix)) _ _ tt (
        take_frame-Shrinks (record d { buffer = rest }) (int_from 0 prefix) bound
          (let shorter = split-length d.buffer prefix rest e in omega (arith, le, shorter))))

turn_by-Shrinks :
    (d : LengthPrefixedDecoder) (expected : Option ℕ)
    → d.expected ≡ expected
    → Shrinks (remaining d) (turn_by d expected)
unfolding turn_by
turn_by-Shrinks d none e = read_length-Shrinks d (remaining d) _ refl (omega arith)
turn_by-Shrinks d (some n) e = take_frame-Shrinks d n (remaining d) (ground (arith, e))

pub turn-Shrinks : (d : LengthPrefixedDecoder) → Shrinks (remaining d) (turn d)
unfolding turn
turn-Shrinks d = turn_by-Shrinks d d.expected refl

pub after_turn-fuel :
    (d : LengthPrefixedDecoder) (bound : ℕ) (f g : LengthPrefixedDecoder → Option Decoded)
    (t : Turn)
    → Shrinks bound t
    → ((d' : LengthPrefixedDecoder) → remaining d' < bound → f d' ≡ g d')
    → after_turn d f t ≡ after_turn d g t
unfolding after_turn
after_turn-fuel d bound f g (breaks d') h same = refl
after_turn-fuel d bound f g (fails e) h same = refl
after_turn-fuel d bound f g (frames frame d') h same = ap (with_frame frame) (same d' h)

pub loop-suc :
    (fuel : ℕ) (d : LengthPrefixedDecoder) → loop (suc fuel) d ≡ after_turn d (loop fuel) (turn d)
unfolding loop
loop-suc fuel d = refl

-- fuel that exceeds what remains gives one answer
pub loop-fuel :
    (fuel fuel' : ℕ) (d : LengthPrefixedDecoder)
    → remaining d < fuel
    → remaining d < fuel'
    → loop fuel d ≡ loop fuel' d
unfolding loop
loop-fuel zero fuel' d h h' = absurd (omega (arith, h))
loop-fuel (suc fuel) zero d h h' = absurd (omega (arith, h'))
loop-fuel (suc fuel) (suc fuel') d h h' =
    after_turn-fuel d (remaining d) (loop fuel) (loop fuel') (turn d) (turn-Shrinks d)
      (λ d' smaller.
        loop-fuel fuel fuel' d' (omega (arith, smaller, h)) (omega (arith, smaller, h')))

abbrev pub Ends : Option Decoded → Type 0
Ends answer = (decoded : Decoded) × (answer ≡ some decoded)

with_frame-Ends :
    (frame : List ℕ) (answer : Option Decoded) → Ends answer → Ends (with_frame frame answer)
unfolding with_frame
with_frame-Ends frame none (decoded, e) = absurd (cc)
with_frame-Ends frame (some (ok rest, d)) h = ((ok (frame ∷ rest), d), refl)
with_frame-Ends frame (some (raise e, d)) h = ((raise e, d), refl)

after_turn-Ends :
    (d : LengthPrefixedDecoder) (bound : ℕ) (f : LengthPrefixedDecoder → Option Decoded) (t : Turn)
    → Shrinks bound t
    → ((d' : LengthPrefixedDecoder) → remaining d' < bound → Ends (f d'))
    → Ends (after_turn d f t)
unfolding after_turn
after_turn-Ends d bound f (breaks d') h ends = ((ok [], d'), refl)
after_turn-Ends d bound f (fails e) h ends = (_, refl)
after_turn-Ends d bound f (frames frame d') h ends = with_frame-Ends frame (f d') (ends d' h)

loop-Ends : (fuel : ℕ) (d : LengthPrefixedDecoder) → remaining d < fuel → Ends (loop fuel d)
unfolding loop
loop-Ends zero d h = absurd (omega (arith, h))
loop-Ends (suc fuel) d h =
    after_turn-Ends d (remaining d) (loop fuel) (turn d) (turn-Shrinks d)
      (λ d' smaller. loop-Ends fuel d' (omega (arith, smaller, h)))

pub remaining-le : (d : LengthPrefixedDecoder) → remaining d < length d.buffer + 2
remaining-le d =
    if-elim (λ n. length d.buffer + n < length d.buffer + 2) (is_some d.expected) 1 0 (omega arith)
      (omega arith)

-- `feed` as one loop over what it has, with any fuel that is enough
pub feed-loop :
    (fuel : ℕ) (d : LengthPrefixedDecoder) (chunk : List ℕ)
    → remaining (record d { buffer = d.buffer ++ chunk }) < fuel
    → feed d chunk ≡ loop fuel (record d { buffer = d.buffer ++ chunk })
unfolding feed
feed-loop fuel d chunk h =
    let whole = record d { buffer = d.buffer ++ chunk } in
    loop-fuel (length whole.buffer + 2) fuel whole (remaining-le whole) h

-- The loop of a call of feed ends, whatever the state and the text: the fuel of the model, two
-- turns more than the buffer is long, is enough for it to break or to raise.
pub feed-Ends : (d : LengthPrefixedDecoder) (chunk : List ℕ) → Ends (feed d chunk)
unfolding feed
feed-Ends d chunk =
    let whole = record d { buffer = d.buffer ++ chunk } in
    loop-Ends (length whole.buffer + 2) whole (remaining-le whole)
