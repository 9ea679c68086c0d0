-- ===== src/Tasks/FrameDecoder/Prefixes.antt =====
-- A length prefix that is refused stays refused, whatever follows it.
use codejudge_ai.Base.{
  ℕ, ◌+◌, ◌*◌, ◌-◌, ◌≤◌, ◌≡◌, refl, arith, Bool, true, false, not, ◌||◌, Option, none, some, List,
  [], ◌∷◌, ◌++◌, ltb, ◌==◌, if◌then◌else◌, Option-cases, inl, inr, sym,
}
use codejudge_ai.Base.Errors.{raise_if, value_error}
use codejudge_ai.Tasks.FrameDecoder.{
  are_digits, int_from, is_padded, is_valid_prefix, validate_partial_prefix, preceded, split,
}

-- a prefix that cannot begin a frame
abbrev pub rejects : ℕ → List ℕ → Bool
rejects maximum prefix = not (is_valid_prefix prefix) || ltb maximum (int_from 0 prefix)

are_digits-append : (xs ys : List ℕ) → are_digits (xs ++ ys) ≡ true → are_digits xs ≡ true
unfolding are_digits
are_digits-append [] ys h = refl
are_digits-append (x ∷ xs) ys h = let ih = are_digits-append xs ys in ground (arith, h, ih)

int_from-le : (value : ℕ) (cs : List ℕ) → value ≤ int_from value cs
unfolding int_from
int_from-le value [] = omega arith
int_from-le value (c ∷ cs) = let ih = int_from-le (value * 10 + (c - b'0')) cs in omega (arith, ih)

int_from-append :
    (value : ℕ) (xs ys : List ℕ) → int_from value (xs ++ ys) ≡ int_from (int_from value xs) ys
unfolding int_from
int_from-append value [] ys = refl
int_from-append value (x ∷ xs) ys = int_from-append (value * 10 + (x - b'0')) xs ys

is_padded-append :
    (c : ℕ) (cs ys : List ℕ) → is_padded (c ∷ cs) ≡ true → is_padded (c ∷ (cs ++ ys)) ≡ true
is_padded-append c [] ys h = absurd (cc)
is_padded-append c (d ∷ cs) ys h = h

pub rejects-append :
    (maximum c : ℕ) (cs ys : List ℕ)
    → rejects maximum (c ∷ cs) ≡ true
    → rejects maximum (c ∷ (cs ++ ys)) ≡ true
unfolding is_valid_prefix
rejects-append maximum c cs ys h =
    let digits = are_digits-append (c ∷ cs) ys in
    let padded = is_padded-append c cs ys in
    let grows = int_from-le (int_from 0 (c ∷ cs)) ys in
    let same = int_from-append 0 (c ∷ cs) ys in ground (arith, h, digits, padded, grows, same)

pub validate_partial_prefix-eq :
    (maximum c : ℕ) (cs : List ℕ)
    → validate_partial_prefix maximum (c ∷ cs) ≡ raise_if (rejects maximum (c ∷ cs)) value_error
unfolding validate_partial_prefix is_valid_prefix
validate_partial_prefix-eq maximum c cs = ground arith

pub split-append_found :
    (cs ys prefix rest : List ℕ)
    → split cs ≡ some (prefix, rest)
    → split (cs ++ ys) ≡ some (prefix, rest ++ ys)
unfolding split
split-append_found [] ys prefix rest h = absurd (cc)
split-append_found (c ∷ cs) ys prefix rest h = elim (Option-cases (split cs)) [
  | inl e ↦ ground (arith, e, h)
  | inr ((before, after), e) ↦
      let more = split-append_found cs ys before after e in ground (arith, e, h, more)
]

preceded-empty : (parts : Option (List ℕ × List ℕ)) → preceded [] parts ≡ parts
preceded-empty none = refl
preceded-empty (some (prefix, rest)) = refl

preceded-cons :
    (c : ℕ) (cs : List ℕ) (parts : Option (List ℕ × List ℕ))
    → preceded (c ∷ cs) parts ≡ preceded (c ∷ []) (preceded cs parts)
preceded-cons c cs none = refl
preceded-cons c cs (some (prefix, rest)) = refl

-- one more character
pub split-cons :
    (c : ℕ) (cs : List ℕ)
    → split (c ∷ cs) ≡ (if c == b':' then some ([], cs) else preceded (c ∷ []) (split cs))
unfolding split
split-cons c cs = refl

split-cons_none :
    (c : ℕ) (cs : List ℕ) → split (c ∷ cs) ≡ none → ((c == b':') ≡ false) × (split cs ≡ none)
split-cons_none c cs h =
    let e = split-cons c cs in
    elim (Option-cases (split cs)) [
      | inl none_ ↦ (ground (arith, h, e, none_), none_)
      | inr (parts, found) ↦ absurd (ground (arith, h, e, found))
    ]

pub split-append_none :
    (cs ys : List ℕ) → split cs ≡ none → split (cs ++ ys) ≡ preceded cs (split ys)
split-append_none [] ys h = sym (preceded-empty (split ys))
split-append_none (c ∷ cs) ys h =
    let (other, none_) = split-cons_none c cs h in
    let rest = split-append_none cs ys none_ in
    rw (split-cons c (cs ++ ys), other, rest, preceded-cons c cs (split ys)) refl
