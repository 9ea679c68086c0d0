-- ===== src/Tasks/FrameDecoder/Turns.antt =====
-- A turn of the loop, with more text in the buffer.
use codejudge_ai.Base.{
  ℕ, zero, suc, ◌≤◌, ◌≡◌, refl, ap, ◌∙◌, arith, true, false, Option, none, some, List, [], ◌∷◌,
  ◌++◌, length, take, drop, ltb, if◌then◌else◌, length-append, Bool-cases, inl, inr,
}
use codejudge_ai.Base.Errors.{value_error}
use codejudge_ai.Tasks.FrameDecoder.Prefixes.{
  rejects, rejects-append, validate_partial_prefix-eq, split-append_found, split-append_none,
}
use codejudge_ai.Tasks.FrameDecoder.{
  LengthPrefixedDecoder, Turn, breaks, fails, frames, take_frame, read_length, turn, turn_by, split,
  validate_partial_prefix, validated, int_from, preceded,
}

-- more text in the buffer
abbrev pub extend : LengthPrefixedDecoder → List ℕ → LengthPrefixedDecoder
extend d more = record d { buffer = d.buffer ++ more }

-- the turn with more text: it goes on from a break, fails too, or takes the same frame
abbrev pub Extends : List ℕ → ℕ → Turn → Turn → Type 0
Extends more maximum (breaks d) longer = (longer ≡ turn (extend d more)) × (d.maximum ≡ maximum)
Extends more maximum (fails e) longer = longer ≡ fails e
Extends more maximum (frames frame d) longer =
    (longer ≡ frames frame (extend d more)) × (d.maximum ≡ maximum)

take-append : (n : ℕ) (xs ys : List ℕ) → n ≤ length xs → take n (xs ++ ys) ≡ take n xs
take-append zero xs ys h = refl
take-append (suc n) [] ys h = absurd (omega (arith, h))
take-append (suc n) (x ∷ xs) ys h = ap (λ zs. x ∷ zs) (take-append n xs ys (omega (arith, h)))

drop-append : (n : ℕ) (xs ys : List ℕ) → n ≤ length xs → drop n (xs ++ ys) ≡ drop n xs ++ ys
drop-append zero xs ys h = refl
drop-append (suc n) [] ys h = absurd (omega (arith, h))
drop-append (suc n) (x ∷ xs) ys h = drop-append n xs ys (omega (arith, h))

pub take_frame-long :
    (d : LengthPrefixedDecoder) (n : ℕ)
    → ltb (length d.buffer) n ≡ false
    → take_frame d n
      ≡ frames (take n d.buffer) (record d { buffer = drop n d.buffer; expected = none })
unfolding take_frame
take_frame-long d n h = rw h refl

pub take_frame-short :
    (d : LengthPrefixedDecoder) (n : ℕ)
    → ltb (length d.buffer) n ≡ true
    → take_frame d n ≡ breaks (record d { expected = some n })
unfolding take_frame
take_frame-short d n h = rw h refl

take_frame-turn :
    (d : LengthPrefixedDecoder) (n : ℕ) → take_frame d n ≡ turn (record d { expected = some n })
unfolding take_frame turn turn_by
take_frame-turn d n = refl

take_frame-Extends :
    (d : LengthPrefixedDecoder) (more : List ℕ) (n : ℕ)
    → Extends more d.maximum (take_frame d n) (take_frame (extend d more) n)
take_frame-Extends d more n = elim (Bool-cases (ltb (length d.buffer) n)) [
  | inl short ↦ rw (take_frame-short d n short) (take_frame-turn (extend d more) n, refl)
  | inr long ↦
      let enough : n ≤ length d.buffer = ground (arith, long) in
      let total = length-append d.buffer more in
      let still : ltb (length (d.buffer ++ more)) n ≡ false = ground (arith, enough, total) in
      rw
        (
          take_frame-long d n long,
          take_frame-long (extend d more) n still,
          take-append n d.buffer more enough,
          drop-append n d.buffer more enough,
        )
        (refl, refl)
]

read_length-some :
    (d : LengthPrefixedDecoder) (prefix rest : List ℕ)
    → read_length d (some (prefix, rest)) ≡ (
        if rejects d.maximum prefix
        then fails value_error
        else take_frame (record d { buffer = rest }) (int_from 0 prefix))
unfolding read_length
read_length-some d prefix rest = ground arith

pub read_length-rejected :
    (d : LengthPrefixedDecoder) (prefix rest : List ℕ)
    → rejects d.maximum prefix ≡ true
    → read_length d (some (prefix, rest)) ≡ fails value_error
read_length-rejected d prefix rest h = rw (read_length-some d prefix rest, h) refl

pub read_length-accepted :
    (d : LengthPrefixedDecoder) (prefix rest : List ℕ)
    → rejects d.maximum prefix ≡ false
    → read_length d (some (prefix, rest))
      ≡ take_frame (record d { buffer = rest }) (int_from 0 prefix)
read_length-accepted d prefix rest h = rw (read_length-some d prefix rest, h) refl

pub turn-unread :
    (d : LengthPrefixedDecoder) → d.expected ≡ none → turn d ≡ read_length d (split d.buffer)
unfolding turn turn_by
turn-unread d e = rw e refl

-- a refused prefix, with more text
refused-fails :
    (d : LengthPrefixedDecoder) (c : ℕ) (cs more : List ℕ) (parts : Option (List ℕ × List ℕ))
    → d.buffer ≡ c ∷ (cs ++ more)
    → rejects d.maximum (c ∷ cs) ≡ true
    → read_length d (preceded (c ∷ cs) parts) ≡ fails value_error
unfolding read_length
refused-fails d c cs more none e h =
    let still = rejects-append d.maximum c cs more h in
    let refused = validate_partial_prefix-eq d.maximum c (cs ++ more) in rw (e, refused, still) refl
refused-fails d c cs more (some (prefix, rest)) e h =
    read_length-rejected d (c ∷ (cs ++ prefix)) rest (rejects-append d.maximum c cs prefix h)

partial-Extends :
    (d : LengthPrefixedDecoder) (more buffer : List ℕ)
    → d.buffer ≡ buffer
    → d.expected ≡ none
    → split buffer ≡ none
    → Extends more d.maximum
        (validated d (validate_partial_prefix d.maximum buffer))
        (turn (extend d more))
unfolding validate_partial_prefix
partial-Extends d more [] b e h = (refl, refl)
partial-Extends d more (c ∷ cs) b e h =
    let longer = extend d more in
    elim (Bool-cases (rejects d.maximum (c ∷ cs))) [
      | inl refused ↦
          rw (validate_partial_prefix-eq d.maximum c cs, refused)
            (turn-unread longer e
              ∙ ap (read_length longer)
                  (ap (λ cs'. split (cs' ++ more)) b ∙ split-append_none (c ∷ cs) more h)
              ∙ refused-fails longer c cs more (split more) (ap (λ cs'. cs' ++ more) b) refused)
      | inr fine ↦ rw (validate_partial_prefix-eq d.maximum c cs, fine) (refl, refl)
    ]

found-Extends :
    (d : LengthPrefixedDecoder) (more prefix rest : List ℕ)
    → d.expected ≡ none
    → split d.buffer ≡ some (prefix, rest)
    → Extends more d.maximum (read_length d (some (prefix, rest))) (turn (extend d more))
found-Extends d more prefix rest e h =
    let longer = extend d more in
    let read : turn longer ≡ read_length longer (some (prefix, rest ++ more)) =
      turn-unread longer e
      ∙ ap (read_length longer) (split-append_found d.buffer more prefix rest h) in
    elim (Bool-cases (rejects d.maximum prefix)) [
      | inl refused ↦
          rw (read_length-rejected d prefix rest refused)
            (read ∙ read_length-rejected longer prefix (rest ++ more) refused)
      | inr fine ↦
          rw
            (
              read,
              read_length-accepted d prefix rest fine,
              read_length-accepted longer prefix (rest ++ more) fine,
            )
            (take_frame-Extends (record d { buffer = rest }) more (int_from 0 prefix))
    ]

read_length-Extends :
    (d : LengthPrefixedDecoder) (more : List ℕ) (parts : Option (List ℕ × List ℕ))
    → d.expected ≡ none
    → split d.buffer ≡ parts
    → Extends more d.maximum (read_length d parts) (turn (extend d more))
unfolding read_length
read_length-Extends d more none e h = partial-Extends d more d.buffer refl e h
read_length-Extends d more (some (prefix, rest)) e h = found-Extends d more prefix rest e h

turn-known : (d : LengthPrefixedDecoder) (n : ℕ) → d.expected ≡ some n → turn d ≡ take_frame d n
unfolding turn turn_by
turn-known d n e = ap (turn_by d) e

turn_by-Extends :
    (d : LengthPrefixedDecoder) (more : List ℕ) (expected : Option ℕ)
    → d.expected ≡ expected
    → Extends more d.maximum (turn_by d expected) (turn (extend d more))
unfolding turn_by
turn_by-Extends d more none e = read_length-Extends d more (split d.buffer) e refl
turn_by-Extends d more (some n) e =
    rw (turn-known (extend d more) n e) (take_frame-Extends d more n)

pub turn-Extends :
    (d : LengthPrefixedDecoder) (more : List ℕ)
    → Extends more d.maximum (turn d) (turn (extend d more))
unfolding turn
turn-Extends d more = turn_by-Extends d more d.expected refl
