-- ===== src/Tasks/IntervalReservation.antt =====
-- app/tasks/definitions/interval_reservation/reference/solution.py. The book is its dictionary in
-- order of insertion.
pub mod Disjoint
pub mod Answers
use codejudge_ai.Base.{
  ℕ, Bool, true, false, not, ◌&&◌, ◌||◌, String, List, [], ◌∷◌, ◌++◌, filter, any, ltb, leb, ◌==◌,
  str_eq, if◌then◌else◌,
}
use codejudge_ai.Base.Errors.{Result, ok, raise, value_error}

pub record Reservation : Type 0 where
  pub id : String
  pub resource : String
  pub start : ℕ
  pub end_ : ℕ

-- `existing_resource == resource and start < existing_end and existing_start < end`
unfoldable pub conflicts : String → ℕ → ℕ → Reservation → Bool
conflicts resource start end_ r = str_eq r.resource resource && ltb start r.end_ && ltb r.start end_

unfoldable pub has_id : String → Reservation → Bool
has_id reservation_id r = str_eq r.id reservation_id

unfoldable pub reserve : String → String → ℕ → ℕ → List Reservation → Result Bool × List Reservation
reserve reservation_id resource start end_ book =
    if str_eq reservation_id ""
    then (raise value_error, book)
    else if str_eq resource ""
    then (raise value_error, book)
    else if leb end_ start
    then (raise value_error, book)
    else if any (has_id reservation_id) book
    then (raise value_error, book)
    else if any (conflicts resource start end_) book
    then (ok false, book)
    else (
      ok true,
      book ++ record { id = reservation_id; resource = resource; start = start; end_ = end_ } ∷ [],
    )

unfoldable pub cancel : String → List Reservation → Bool × List Reservation
cancel reservation_id book =
    (any (has_id reservation_id) book, filter (λ r. not (has_id reservation_id r)) book)
