-- ===== src/Tasks/FrameDecoder/Language.antt =====
-- The texts that a fresh decoder takes in full.
use codejudge_ai.Base.{
  ℕ, zero, suc, ◌<◌, ◌≡◌, refl, ap, ◌∙◌, arith, true, false, none, some, List, [], ◌∷◌, ◌++◌,
  length, take, drop, ltb, ◌==◌, length-append,
}
use codejudge_ai.Base.Errors.{ok}
use codejudge_ai.Tasks.FrameDecoder.Turns.{read_length-accepted, turn-unread, take_frame-long}
use codejudge_ai.Tasks.FrameDecoder.Prefixes.{rejects}
use codejudge_ai.Tasks.FrameDecoder.{
  LengthPrefixedDecoder, frames, take_frame, read_length, turn, turn_by, with_frame, after_turn,
  loop, split, validate_partial_prefix, int_from, are_digits, is_valid_prefix,
}

-- one length and frame after the other
pub data Encodes (maximum : ℕ) : List ℕ → List (List ℕ) → Type 0 where
  nothing : Encodes maximum [] []
  framed :
      (prefix frame text : List ℕ) (rest : List (List ℕ))
      → rejects maximum prefix ≡ false
      → int_from 0 prefix ≡ length frame
      → Encodes maximum text rest
      → Encodes maximum (prefix ++ (b':' ∷ (frame ++ text))) (frame ∷ rest)

-- a decoder between two frames
abbrev pub holding : ℕ → List ℕ → LengthPrefixedDecoder
holding maximum buffer = record { maximum = maximum; buffer = buffer; expected = none }

split-digits :
    (prefix text : List ℕ)
    → are_digits prefix ≡ true
    → split (prefix ++ (b':' ∷ text)) ≡ some (prefix, text)
unfolding are_digits split
split-digits [] text h = refl
split-digits (c ∷ cs) text h =
    let digits : are_digits cs ≡ true = ground (arith, h) in
    let other : (c == b':') ≡ false = ground (arith, h) in
    rw (other, split-digits cs text digits) refl

take-prefix : (xs ys : List ℕ) → take (length xs) (xs ++ ys) ≡ xs
take-prefix [] ys = refl
take-prefix (x ∷ xs) ys = ap (λ rest. x ∷ rest) (take-prefix xs ys)

drop-prefix : (xs ys : List ℕ) → drop (length xs) (xs ++ ys) ≡ ys
drop-prefix [] ys = refl
drop-prefix (x ∷ xs) ys = drop-prefix xs ys

rejects-are_digits :
    (maximum : ℕ) (prefix : List ℕ) → rejects maximum prefix ≡ false → are_digits prefix ≡ true
unfolding is_valid_prefix
rejects-are_digits maximum [] h = absurd (ground (arith, h))
rejects-are_digits maximum (c ∷ cs) h = ground (arith, h)

-- the next frame
turn-framed :
    (maximum : ℕ) (prefix frame text : List ℕ)
    → rejects maximum prefix ≡ false
    → int_from 0 prefix ≡ length frame
    → turn (holding maximum (prefix ++ (b':' ∷ (frame ++ text))))
      ≡ frames frame (holding maximum text)
turn-framed maximum prefix frame text h n =
    let d = holding maximum (prefix ++ (b':' ∷ (frame ++ text))) in
    let parts = split-digits prefix (frame ++ text) (rejects-are_digits maximum prefix h) in
    let read =
      turn-unread d refl
      ∙ ap (read_length d) parts
      ∙ read_length-accepted d prefix (frame ++ text) h in
    let total = length-append frame text in
    let long : ltb (length (frame ++ text)) (length frame) ≡ false = ground (arith, total) in
    read
    ∙ ap (take_frame (holding maximum (frame ++ text))) n
    ∙ take_frame-long (holding maximum (frame ++ text)) (length frame) long
    ∙ (λ i. frames (take-prefix frame text i) (holding maximum (drop-prefix frame text i)))

pub loop-Encodes :
    (maximum fuel : ℕ) (text : List ℕ) (found : List (List ℕ))
    → Encodes maximum text found
    → length text < fuel
    → loop fuel (holding maximum text) ≡ some (ok found, holding maximum [])
unfolding loop turn turn_by read_length split validate_partial_prefix after_turn with_frame
loop-Encodes maximum zero text found e h = absurd (omega (arith, h))
loop-Encodes maximum (suc fuel) _ _ nothing h = refl
loop-Encodes maximum (suc fuel) _ _ (framed prefix frame text rest fine n more) h =
    let d = holding maximum (prefix ++ (b':' ∷ (frame ++ text))) in
    let outer = length-append prefix (b':' ∷ (frame ++ text)) in
    let inner = length-append frame text in
    let shorter : length text < fuel = omega (arith, outer, inner, h) in
    ap (after_turn d (loop fuel)) (turn-framed maximum prefix frame text fine n)
    ∙ ap (with_frame frame) (loop-Encodes maximum fuel text rest more shorter)
