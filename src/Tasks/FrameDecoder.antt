-- ===== src/Tasks/FrameDecoder.antt =====
-- LengthPrefixedDecoder of app/tasks/definitions/frame_decoder/reference/solution.py, over code
-- points. Of a text of ASCII characters `isdigit` says that they are digits. An `int` of too many
-- digits for Python raises a ValueError too.
pub mod Loop
pub mod Prefixes
pub mod Turns
pub mod Chunks
pub mod Language
pub mod Decoding
use codejudge_ai.Base.{
  ℕ, zero, suc, ◌+◌, ◌*◌, ◌-◌, Bool, true, false, not, ◌&&◌, ◌||◌, String, Option, none, some, List,
  [], ◌∷◌, ◌++◌, length, take, drop, ltb, leb, ◌==◌, if◌then◌else◌, is_some,
}
use codejudge_ai.Base.Errors.{Error, Result, ok, raise, raise_if, ◌>>◌, value_error}

pub record LengthPrefixedDecoder : Type 0 where
  pub maximum : ℕ
  pub buffer : List ℕ
  pub expected : Option ℕ

-- `__init__`
unfoldable pub decoder : ℕ → Result LengthPrefixedDecoder
decoder max_frame_size = do
  raise_if (not (ltb 0 max_frame_size && leb max_frame_size 1000000)) value_error
  ok (record { maximum = max_frame_size; buffer = []; expected = none })

unfoldable pub reset : LengthPrefixedDecoder → LengthPrefixedDecoder
reset d = record d { buffer = []; expected = none }

-- `isascii() and isdigit()` of every character
unfoldable pub are_digits : List ℕ → Bool
are_digits [] = true
are_digits (c ∷ cs) = leb b'0' c && leb c b'9' && are_digits cs

-- `int` of digits, after a value of those before them
unfoldable pub int_from : ℕ → List ℕ → ℕ
int_from value [] = value
int_from value (c ∷ cs) = int_from (value * 10 + (c - b'0')) cs

-- more than a zero, with a zero in front
abbrev pub is_padded : List ℕ → Bool
is_padded (c ∷ d ∷ cs) = c == b'0'
is_padded _ = false

unfoldable pub is_valid_prefix : List ℕ → Bool
unfolding are_digits
is_valid_prefix [] = false
is_valid_prefix (c ∷ cs) = are_digits (c ∷ cs) && not (is_padded (c ∷ cs))

-- `_validate_partial_prefix`
unfoldable pub validate_partial_prefix : ℕ → List ℕ → Result (Unit {0})
unfolding are_digits int_from
validate_partial_prefix maximum [] = ok tt
validate_partial_prefix maximum (c ∷ cs) = do
  raise_if (not (are_digits (c ∷ cs))) value_error
  raise_if (is_padded (c ∷ cs)) value_error
  raise_if (ltb maximum (int_from 0 (c ∷ cs))) value_error

-- the text goes on before the colon
abbrev pub preceded : List ℕ → Option (List ℕ × List ℕ) → Option (List ℕ × List ℕ)
preceded cs none = none
preceded cs (some (prefix, rest)) = some (cs ++ prefix, rest)

-- what stands before and after the first colon
unfoldable pub split : List ℕ → Option (List ℕ × List ℕ)
split [] = none
split (c ∷ cs) = let rest = split cs in if c == b':' then some ([], cs) else preceded (c ∷ []) rest

-- how one turn of the loop ends: it breaks, raises, or appends a frame
pub data Turn : Type 0 where
  breaks : LengthPrefixedDecoder → Turn
  fails : Error → Turn
  frames : List ℕ → LengthPrefixedDecoder → Turn

unfoldable pub take_frame : LengthPrefixedDecoder → ℕ → Turn
take_frame d length_ =
    if ltb (length d.buffer) length_
    then breaks (record d { expected = some length_ })
    else frames (take length_ d.buffer)
        (record d { buffer = drop length_ d.buffer; expected = none })

-- the answer of `_validate_partial_prefix`
abbrev pub validated : LengthPrefixedDecoder → Result (Unit {0}) → Turn
validated d (ok done) = breaks d
validated d (raise e) = fails e

unfoldable pub read_length : LengthPrefixedDecoder → Option (List ℕ × List ℕ) → Turn
unfolding is_valid_prefix validate_partial_prefix int_from take_frame
read_length d none = validated d (validate_partial_prefix d.maximum d.buffer)
read_length d (some (prefix, rest)) =
    if not (is_valid_prefix prefix)
    then fails value_error
    else if ltb d.maximum (int_from 0 prefix)
    then fails value_error
    else take_frame (record d { buffer = rest }) (int_from 0 prefix)

-- the length of the frame is known, or is read first
unfoldable pub turn_by : LengthPrefixedDecoder → Option ℕ → Turn
unfolding read_length split take_frame
turn_by d none = read_length d (split d.buffer)
turn_by d (some length_) = take_frame d length_

unfoldable pub turn : LengthPrefixedDecoder → Turn
unfolding turn_by
turn d = turn_by d d.expected

abbrev pub Decoded : Type 0
Decoded = Result (List (List ℕ)) × LengthPrefixedDecoder

unfoldable pub with_frame : List ℕ → Option Decoded → Option Decoded
with_frame frame (some (ok rest, d)) = some (ok (frame ∷ rest), d)
with_frame frame answer = answer

-- a turn and those after it
unfoldable pub after_turn :
    LengthPrefixedDecoder → (LengthPrefixedDecoder → Option Decoded) → Turn → Option Decoded
unfolding reset with_frame
after_turn d go_on (breaks d') = some (ok [], d')
after_turn d go_on (fails e) = some (raise e, reset d)
after_turn d go_on (frames frame d') = with_frame frame (go_on d')

-- `while True`, for at most as many turns as its fuel says
unfoldable pub loop : ℕ → LengthPrefixedDecoder → Option Decoded
unfolding after_turn turn
loop zero d = none
loop (suc fuel) d = after_turn d (loop fuel) (turn d)

unfoldable pub feed : LengthPrefixedDecoder → List ℕ → Option Decoded
unfolding loop
feed d chunk = loop (length (d.buffer ++ chunk) + 2) (record d { buffer = d.buffer ++ chunk })

-- `self._buffer or self._expected is not None`
abbrev pub is_unfinished : LengthPrefixedDecoder → Bool
is_unfinished d = ltb 0 (length d.buffer) || is_some d.expected

unfoldable pub finish : LengthPrefixedDecoder → Result (Unit {0}) × LengthPrefixedDecoder
unfolding reset
finish d = if is_unfinished d then (raise value_error, reset d) else (ok tt, d)
