-- ===== src/Tasks/IntervalReservation/Answers.antt =====
-- When reserve accepts.
use codejudge_ai.Base.{
  ℕ, ◌≤◌, ◌<◌, ◌≡◌, ◌≢◌, ◌↔◌, inl, inr, refl, arith, true, false, String, List, [], ◌∷◌, any, count,
  All, leb, str_eq_iff, Bool-cases,
}
use codejudge_ai.Base.Errors.{ok}
use codejudge_ai.Tasks.IntervalReservation.Disjoint.{holds}
use codejudge_ai.Tasks.IntervalReservation.{Reservation, conflicts, has_id, reserve}

abbrev pub IsNonempty : Reservation → Type 0
IsNonempty r = r.start < r.end_

-- no reservation holds the resource at a moment of the interval
abbrev pub IsFree : String → ℕ → ℕ → List Reservation → Type 0
IsFree resource start end_ book =
    (moment : ℕ) → start ≤ moment → moment < end_ → count (holds resource moment) book ≡ 0

count-free :
    (resource : String) (start end_ moment : ℕ) (book : List Reservation)
    → start ≤ moment
    → moment < end_
    → any (conflicts resource start end_) book ≡ false
    → count (holds resource moment) book ≡ 0
unfolding count any conflicts
count-free resource start end_ moment [] i j h = refl
count-free resource start end_ moment (r ∷ rs) i j h =
    ground (arith, count-free resource start end_ moment rs i j)

IsFree-count :
    (resource : String) (start end_ : ℕ) (book : List Reservation)
    → any (conflicts resource start end_) book ≡ false
    → IsFree resource start end_ book
IsFree-count resource start end_ book h moment i j =
    count-free resource start end_ moment book i j h

-- a moment that a conflicting reservation and the interval share
conflict-held :
    (resource : String) (start end_ : ℕ) (book : List Reservation)
    → All IsNonempty book
    → start < end_
    → any (conflicts resource start end_) book ≡ true
    → (moment : ℕ) × (start ≤ moment) × (moment < end_) × (0 < count (holds resource moment) book)
unfolding count any conflicts
conflict-held resource start end_ [] n p h = absurd (ground arith)
conflict-held resource start end_ (r ∷ rs) n p h =
    elim (Bool-cases (conflicts resource start end_ r)) [
      | inl here ↦ elim (Bool-cases (leb start r.start)) [
        | inl starts_later ↦ (r.start, ground arith, ground arith, ground arith)
        | inr starts_first ↦ (start, ground arith, ground arith, ground arith)
      ]
      | inr later ↦
          let (moment, i, j, held) = conflict-held resource start end_ rs n.1 p (ground arith) in
          (moment, i, j, ground arith)
    ]

-- A reservation of a nonempty interval with a nonempty new id and a nonempty resource is accepted
-- exactly when no reservation in the book, all of whose intervals are nonempty, holds the resource
-- at any moment of it.
pub reserve-accepts_iff :
    (reservation_id resource : String) (start end_ : ℕ) (book : List Reservation)
    → reservation_id ≢ ""
    → resource ≢ ""
    → start < end_
    → All IsNonempty book
    → any (has_id reservation_id) book ≡ false
    → ((reserve reservation_id resource start end_ book).0 ≡ ok true)
      ↔ IsFree resource start end_ book
unfolding reserve
reserve-accepts_iff reservation_id resource start end_ book named given p n new = (
  λ h.
      IsFree-count resource start end_ book
        (ground (arith, str_eq_iff reservation_id "", str_eq_iff resource "")),
  λ free. elim (Bool-cases (any (conflicts resource start end_) book)) [
    | inl taken ↦
        let (moment, i, j, held) = conflict-held resource start end_ book n p taken in
        absurd (omega (arith, held, free moment i j))
    | inr none_taken ↦ ground (arith, str_eq_iff reservation_id "", str_eq_iff resource "")
  ],
)
