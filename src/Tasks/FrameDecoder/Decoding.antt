-- ===== src/Tasks/FrameDecoder/Decoding.antt =====
-- What a fresh decoder takes in full is a sequence of frames.
use mathlib.Core.Path.{subst}
use codejudge_ai.Base.{
  ℕ, zero, suc, ◌+◌, ◌≤◌, ◌≡◌, ◌↔◌, refl, sym, ap, ◌∙◌, arith, true, false, Option, none, some,
  List, [], ◌∷◌, ◌++◌, length, take, drop, ltb, ◌==◌, Option-cases, Bool-cases, ◌⊎◌, is_some,
  if-cases, inl, inr, ==_iff,
}
use codejudge_ai.Base.Errors.{Result, ok, raise}
use codejudge_ai.Tasks.FrameDecoder.Turns.{
  read_length-accepted, read_length-rejected, turn-unread, take_frame-long, take_frame-short,
}
use codejudge_ai.Tasks.FrameDecoder.Prefixes.{rejects}
use codejudge_ai.Tasks.FrameDecoder.{
  LengthPrefixedDecoder, Turn, breaks, fails, frames, Decoded, take_frame, read_length, turn,
  with_frame, after_turn, loop, feed, split, preceded, validated, int_from,
}
use codejudge_ai.Tasks.FrameDecoder.Language.{Encodes, nothing, framed, holding, loop-Encodes}

split-found :
    (cs prefix rest : List ℕ) → split cs ≡ some (prefix, rest) → cs ≡ prefix ++ (b':' ∷ rest)
unfolding split
split-found [] prefix rest h = absurd (cc)
split-found (c ∷ cs) prefix rest h =
    if-cases (c == b':') (some ([], cs)) (preceded (c ∷ []) (split cs)) (some (prefix, rest)) h
      (λ colon h'.
        let same = (==_iff c b':').0 colon in
        let none_ : [] ≡ prefix = ground (arith, h') in
        let all_ : cs ≡ rest = ground (arith, h') in λ i. none_ i ++ (same i ∷ all_ i))
      (λ other h'. elim (Option-cases (split cs)) [
        | inl e ↦ absurd (ground (arith, e, h'))
        | inr ((before, after), e) ↦
            let more = split-found cs before after e in
            let front : c ∷ before ≡ prefix = ground (arith, e, h') in
            let back : after ≡ rest = ground (arith, e, h') in
            ap (λ cs'. c ∷ cs') more ∙ (λ i. front i ++ (b':' ∷ back i))
      ])

take-drop : (n : ℕ) (xs : List ℕ) → take n xs ++ drop n xs ≡ xs
take-drop zero xs = refl
take-drop (suc n) [] = refl
take-drop (suc n) (x ∷ xs) = ap (λ rest. x ∷ rest) (take-drop n xs)

length-take_all : (n : ℕ) (xs : List ℕ) → n ≤ length xs → length (take n xs) ≡ n
length-take_all zero xs h = refl
length-take_all (suc n) [] h = absurd (omega (arith, h))
length-take_all (suc n) (x ∷ xs) h =
    let ih = length-take_all n xs (omega (arith, h)) in omega (arith, ih)

-- what a turn says of the text
record Framed (maximum : ℕ) (text frame : List ℕ) (d : LengthPrefixedDecoder) : Type 0 where
  prefix : List ℕ
  rest : List ℕ
  parts : text ≡ prefix ++ (b':' ∷ (frame ++ rest))
  left : d ≡ holding maximum rest
  fine : rejects maximum prefix ≡ false
  size : int_from 0 prefix ≡ length frame

abbrev Says : ℕ → List ℕ → Turn → Type 0
Says maximum text (breaks d) = (d ≡ holding maximum text) ⊎ (is_some d.expected ≡ true)
Says maximum text (fails e) = Unit {0}
Says maximum text (frames frame d) = Framed maximum text frame d

taken-Says :
    (maximum : ℕ) (text prefix rest : List ℕ)
    → text ≡ prefix ++ (b':' ∷ rest)
    → rejects maximum prefix ≡ false
    → Says maximum text (take_frame (holding maximum rest) (int_from 0 prefix))
taken-Says maximum text prefix rest e h =
    let n = int_from 0 prefix in
    elim (Bool-cases (ltb (length rest) n)) [
      | inl short ↦ rw (take_frame-short (holding maximum rest) n short) (inr refl)
      | inr long ↦ rw (take_frame-long (holding maximum rest) n long) record {
        prefix = prefix;
        rest = drop n rest;
        parts = e ∙ ap (λ cs. prefix ++ (b':' ∷ cs)) (sym (take-drop n rest));
        left = refl;
        fine = h;
        size = sym (length-take_all n rest (ground (arith, long)));
      }
    ]

validated-Says :
    (maximum : ℕ) (text : List ℕ) (answer : Result (Unit {0}))
    → Says maximum text (validated (holding maximum text) answer)
validated-Says maximum text (ok done) = inl refl
validated-Says maximum text (raise e) = tt

read_length-Says :
    (maximum : ℕ) (text : List ℕ) (parts : Option (List ℕ × List ℕ))
    → split text ≡ parts
    → Says maximum text (read_length (holding maximum text) parts)
unfolding read_length
read_length-Says maximum text none e = validated-Says maximum text _
read_length-Says maximum text (some (prefix, rest)) e =
    let d = holding maximum text in
    elim (Bool-cases (rejects maximum prefix)) [
      | inl refused ↦ rw (read_length-rejected d prefix rest refused) tt
      | inr fine ↦
          rw (read_length-accepted d prefix rest fine)
            (taken-Says maximum text prefix rest (split-found text prefix rest e) fine)
    ]

turn-Says : (maximum : ℕ) (text : List ℕ) → Says maximum text (turn (holding maximum text))
turn-Says maximum text =
    rw (turn-unread (holding maximum text) refl) (read_length-Says maximum text (split text) refl)

-- what is left and what was found, when nothing was raised
with_frame-found :
    (frame : List ℕ) (answer : Option Decoded) (found : List (List ℕ)) (d : LengthPrefixedDecoder)
    → with_frame frame answer ≡ some (ok found, d)
    → (rest : List (List ℕ)) × (found ≡ frame ∷ rest) × (answer ≡ some (ok rest, d))
unfolding with_frame
with_frame-found frame none found d h = absurd (cc)
with_frame-found frame (some (raise e, d')) found d h = absurd (ground (arith, h))
with_frame-found frame (some (ok rest, d')) found d h =
    let same : frame ∷ rest ≡ found = ground (arith, h) in
    let left : d' ≡ d = ground (arith, h) in (rest, sym same, ap (λ x. some (ok rest, x)) left)

after_turn-Encodes :
    (maximum : ℕ) (text : List ℕ) (go_on : LengthPrefixedDecoder → Option Decoded) (t : Turn)
    (found : List (List ℕ))
    → Says maximum text t
    → ((rest : List ℕ) (found' : List (List ℕ))
        → go_on (holding maximum rest) ≡ some (ok found', holding maximum [])
        → Encodes maximum rest found')
    → after_turn (holding maximum text) go_on t ≡ some (ok found, holding maximum [])
    → Encodes maximum text found
unfolding after_turn
after_turn-Encodes maximum text go_on (breaks d) found says f h =
    let left : d ≡ holding maximum [] = ground (arith, h) in
    let none_ : [] ≡ found = ground (arith, h) in
    elim says [
      | inl s ↦
          let empty : [] ≡ text = ap (λ x. x.buffer) (sym left ∙ s) in
          subst (λ x. Encodes maximum text x) none_
            (subst (λ x. Encodes maximum x []) empty nothing)
      | inr waits ↦ absurd (ground (arith, waits, left))
    ]
after_turn-Encodes maximum text go_on (fails e) found says f h = absurd (ground (arith, h))
after_turn-Encodes maximum text go_on (frames frame d) found says f h =
    let (found', same, e) = with_frame-found frame (go_on d) found (holding maximum []) h in
    let more = f says.rest found' (ap go_on (sym says.left) ∙ e) in
    subst (λ x. Encodes maximum text x) (sym same)
      (subst (λ x. Encodes maximum x (frame ∷ found')) (sym says.parts)
        (framed says.prefix frame says.rest found' says.fine says.size more))

loop-decodes :
    (maximum fuel : ℕ) (text : List ℕ) (found : List (List ℕ))
    → loop fuel (holding maximum text) ≡ some (ok found, holding maximum [])
    → Encodes maximum text found
unfolding loop
loop-decodes maximum zero text found h = absurd (cc)
loop-decodes maximum (suc fuel) text found h =
    after_turn-Encodes maximum text (loop fuel) (turn (holding maximum text)) found
      (turn-Says maximum text) (loop-decodes maximum fuel) h

-- A fresh decoder returns the given frames of a text, and is fresh again, exactly when the text is
-- one length and frame after the other: each length is in decimal digits without padding, at most
-- the maximum, and that of its frame.
pub feed-decodes_iff :
    (maximum : ℕ) (text : List ℕ) (found : List (List ℕ))
    → (feed (holding maximum []) text ≡ some (ok found, holding maximum []))
      ↔ Encodes maximum text found
unfolding feed
feed-decodes_iff maximum text found = (
  loop-decodes maximum (length text + 2) text found,
  λ e. loop-Encodes maximum (length text + 2) text found e (omega arith),
)
