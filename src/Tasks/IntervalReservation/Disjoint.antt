-- ===== src/Tasks/IntervalReservation/Disjoint.antt =====
-- Reservations never overlap.
use codejudge_ai.Base.{
  ℕ, ◌≤◌, ◌≡◌, refl, arith, Bool, true, false, not, ◌&&◌, String, List, [], ◌∷◌, ◌++◌, filter, any,
  count, All, All-append, All-filter, ltb, leb, str_eq, str_eq_iff,
}
use codejudge_ai.Tasks.IntervalReservation.{Reservation, conflicts, has_id, reserve, cancel}

-- Two reservations have different ids and no common moment on one resource.
abbrev Compatible : Reservation → Reservation → Type 0
Compatible r s = (has_id r.id s ≡ false) × (conflicts r.resource r.start r.end_ s ≡ false)

abbrev pub Disjoint : List Reservation → Type 0
Disjoint [] = Unit {0}
Disjoint (r ∷ rs) = All (Compatible r) rs × Disjoint rs

Compatible-sym : (r s : Reservation) → Compatible r s → Compatible s r
unfolding conflicts has_id
Compatible-sym r s h = ground (
  arith,
  str_eq_iff r.id s.id,
  str_eq_iff s.id r.id,
  str_eq_iff r.resource s.resource,
  str_eq_iff s.resource r.resource,
)

any-All-false :
    (p : Reservation → Bool) (rs : List Reservation) → any p rs ≡ false → All (λ r. p r ≡ false) rs
unfolding any
any-All-false p [] h = tt
any-All-false p (r ∷ rs) h = (ground arith, any-All-false p rs (ground arith))

Disjoint-append :
    (rs : List Reservation) (r : Reservation)
    → Disjoint rs
    → All (Compatible r) rs
    → Disjoint (rs ++ r ∷ [])
Disjoint-append [] r d h = (tt, tt)
Disjoint-append (s ∷ rs) r d h = (
  All-append (Compatible s) rs (r ∷ []) d.0 (Compatible-sym r s h.0, tt),
  Disjoint-append rs r d.1 h.1,
)

Disjoint-filter :
    (p : Reservation → Bool) (rs : List Reservation) → Disjoint rs → Disjoint (filter p rs)
unfolding filter
Disjoint-filter p [] d = tt
Disjoint-filter p (r ∷ rs) d =
    ground (arith, All-filter (Compatible r) p rs d.0, Disjoint-filter p rs d.1)

both-Compatible :
    (reservation_id resource : String) (start end_ : ℕ) (book : List Reservation)
    → any (has_id reservation_id) book ≡ false
    → any (conflicts resource start end_) book ≡ false
    → All
        (Compatible
          (record { id = reservation_id; resource = resource; start = start; end_ = end_ }))
        book
unfolding any
both-Compatible reservation_id resource start end_ [] h i = tt
both-Compatible reservation_id resource start end_ (r ∷ rs) h i = (
  (ground arith, ground arith),
  both-Compatible reservation_id resource start end_ rs (ground arith) (ground arith),
)

reserve-Disjoint :
    (reservation_id resource : String) (start end_ : ℕ) (book : List Reservation)
    → Disjoint book
    → Disjoint (reserve reservation_id resource start end_ book).1
unfolding reserve
reserve-Disjoint reservation_id resource start end_ book d = ground (
  arith,
  both-Compatible reservation_id resource start end_ book,
  Disjoint-append book
      (record { id = reservation_id; resource = resource; start = start; end_ = end_ }) d,
)

pub data Call : Type 0 where
  reserves : String → String → ℕ → ℕ → Call
  cancels : String → Call

-- the book after some calls, whatever they answer
unfoldable pub after : List Call → List Reservation → List Reservation
after [] book = book
after (reserves reservation_id resource start end_ ∷ calls) book =
    after calls (reserve reservation_id resource start end_ book).1
after (cancels reservation_id ∷ calls) book = after calls (cancel reservation_id book).1

after-Disjoint :
    (calls : List Call) (book : List Reservation) → Disjoint book → Disjoint (after calls book)
unfolding after cancel
after-Disjoint [] book d = d
after-Disjoint (reserves reservation_id resource start end_ ∷ calls) book d =
    after-Disjoint calls (reserve reservation_id resource start end_ book).1
      (reserve-Disjoint reservation_id resource start end_ book d)
after-Disjoint (cancels reservation_id ∷ calls) book d =
    after-Disjoint calls (cancel reservation_id book).1
      (Disjoint-filter (λ r. not (has_id reservation_id r)) book d)

-- the reservation holds the resource at the moment
abbrev pub holds : String → ℕ → Reservation → Bool
holds resource moment r = str_eq r.resource resource && leb r.start moment && ltb moment r.end_

holds-alone :
    (resource : String) (moment : ℕ) (r : Reservation) (rs : List Reservation)
    → holds resource moment r ≡ true
    → All (Compatible r) rs
    → count (holds resource moment) rs ≡ 0
unfolding count conflicts
holds-alone resource moment r [] h a = refl
holds-alone resource moment r (s ∷ rs) h a = ground (
  arith,
  a.0,
  str_eq_iff r.resource resource,
  str_eq_iff s.resource resource,
  str_eq_iff s.resource r.resource,
  holds-alone resource moment r rs h a.1,
)

Disjoint-count :
    (resource : String) (moment : ℕ) (rs : List Reservation)
    → Disjoint rs
    → count (holds resource moment) rs ≤ 1
unfolding count
Disjoint-count resource moment [] d = ground arith
Disjoint-count resource moment (r ∷ rs) d =
    ground (arith, holds-alone resource moment r rs, d.0, Disjoint-count resource moment rs d.1)

-- After any sequence of calls to reserve and cancel, at every moment at most one reservation holds
-- a resource.
pub after-exclusive :
    (calls : List Call) (resource : String) (moment : ℕ)
    → count (holds resource moment) (after calls []) ≤ 1
after-exclusive calls resource moment =
    Disjoint-count resource moment (after calls []) (after-Disjoint calls [] tt)
