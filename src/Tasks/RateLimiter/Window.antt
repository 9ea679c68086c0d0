-- ===== src/Tasks/RateLimiter/Window.antt =====
-- The deque of a key, which forgets what has left the window, against the whole log of its calls.
use codejudge_ai.Base.{
  ℕ, ◌+◌, ◌≤◌, ◌<◌, ◌≡◌, refl, sym, inl, inr, Bool-cases, ap, ◌∙◌, arith, Bool, true, false, List,
  [], ◌∷◌, ◌++◌, length, filter, count, All, All-append, All-filter, All-map, filter-append, ltb,
  leb, if◌then◌else◌,
}
use codejudge_ai.Tasks.RateLimiter.{drop_expired, admit}

-- the moment is in the window that ends now
abbrev pub is_live : ℕ → ℕ → ℕ → Bool
is_live window now t = ltb now (t + window)

-- the answers to calls at these times, for one key
unfoldable pub answers : ℕ → ℕ → List ℕ → List ℕ → List Bool
answers limit window events [] = []
answers limit window events (now ∷ times) =
    let answer = admit limit window events now in answer.0 ∷ answers limit window answer.1 times

abbrev pub logged : Bool → List ℕ → ℕ → List ℕ
logged true log now = log ++ now ∷ []
logged false log now = log

-- what they should be: a call is allowed when fewer than `limit` of the calls that were allowed so
-- far are in its window
unfoldable pub expected : ℕ → ℕ → List ℕ → List ℕ → List Bool
expected limit window log [] = []
expected limit window log (now ∷ times) =
    let allowed = ltb (count (is_live window now) log) limit in
    allowed ∷ expected limit window (logged allowed log now) times

abbrev Ordered : List ℕ → Type 0
Ordered [] = Unit {0}
Ordered (t ∷ ts) = All (λ u. t ≤ u) ts × Ordered ts

-- the times do not decrease
abbrev pub Nondecreasing : ℕ → List ℕ → Type 0
Nondecreasing last [] = Unit {0}
Nondecreasing last (now ∷ times) = (last ≤ now) × Nondecreasing now times

filter-live :
    (window now t : ℕ) (ts : List ℕ)
    → now < t + window
    → All (λ u. t ≤ u) ts
    → filter (is_live window now) ts ≡ ts
unfolding filter
filter-live window now t [] h a = refl
filter-live window now t (u ∷ ts) h a = ground (arith, a.0, filter-live window now t ts h a.1)

drop_expired-filter :
    (window now : ℕ) (events : List ℕ)
    → Ordered events
    → drop_expired window now events ≡ filter (is_live window now) events
unfolding drop_expired filter
drop_expired-filter window now [] o = refl
drop_expired-filter window now (t ∷ ts) o =
    ground (arith, drop_expired-filter window now ts o.1, filter-live window now t ts, o.0)

filter-filter :
    (window last now : ℕ) (log : List ℕ)
    → last ≤ now
    → filter (is_live window now) (filter (is_live window last) log)
      ≡ filter (is_live window now) log
unfolding filter
filter-filter window last now [] h = refl
filter-filter window last now (t ∷ ts) h = ground (arith, filter-filter window last now ts h)

length-filter-count : (p : ℕ → Bool) (ts : List ℕ) → length (filter p ts) ≡ count p ts
unfolding filter count
length-filter-count p [] = refl
length-filter-count p (t ∷ ts) = ground (arith, length-filter-count p ts)

Ordered-filter : (p : ℕ → Bool) (ts : List ℕ) → Ordered ts → Ordered (filter p ts)
unfolding filter
Ordered-filter p [] o = tt
Ordered-filter p (t ∷ ts) o =
    ground (arith, All-filter (λ u. t ≤ u) p ts o.0, Ordered-filter p ts o.1)

Ordered-append :
    (now : ℕ) (ts : List ℕ) → Ordered ts → All (λ t. t ≤ now) ts → Ordered (ts ++ now ∷ [])
Ordered-append now [] o a = (tt, tt)
Ordered-append now (t ∷ ts) o a =
    (All-append (λ u. t ≤ u) ts (now ∷ []) o.0 (a.0, tt), Ordered-append now ts o.1 a.1)

module _ (limit window last now : ℕ) (log : List ℕ) (p : 0 < window) (o : Ordered log)
    (h : last ≤ now) where
  admit-log : admit limit window (filter (is_live window last) log) now ≡ (
      if leb limit (count (is_live window now) log)
      then (false, filter (is_live window now) log)
      else (true, filter (is_live window now) log ++ now ∷ []))
  unfolding admit
  admit-log =
      rw
        (
          drop_expired-filter window now (filter (is_live window last) log)
              (Ordered-filter (is_live window last) log o),
          filter-filter window last now log h,
          length-filter-count (is_live window now) log,
        )
        refl

  now_live : filter (is_live window now) (now ∷ []) ≡ now ∷ []
  unfolding filter
  now_live = ground arith

  -- the answer and the deque of a call, from the log
  admit-logged :
      let allowed = ltb (count (is_live window now) log) limit in
      admit limit window (filter (is_live window last) log) now
      ≡ (allowed, filter (is_live window now) (logged allowed log now))
  admit-logged = elim (Bool-cases (ltb (count (is_live window now) log) limit)) [
    | inl free ↦
        let below : leb limit (count (is_live window now) log) ≡ false = ground arith in
        admit-log
        ∙ rw (below, free)
            (ap (λ rest. (true, filter (is_live window now) log ++ rest)) (sym now_live)
              ∙ ap (λ events. (true, events))
                  (sym (filter-append (is_live window now) log (now ∷ []))))
    | inr full ↦
        let above : leb limit (count (is_live window now) log) ≡ true = ground arith in
        admit-log ∙ rw (above, full) refl
  ]

  logged-All :
      (allowed : Bool) → All (λ t. t ≤ last) log → All (λ t. t ≤ now) (logged allowed log now)
  logged-All true a =
      All-append (λ t. t ≤ now) log (now ∷ [])
        (All-map (λ t. t ≤ last) (λ t. t ≤ now) (λ t e. omega (arith, e, h)) log a)
        (omega arith, tt)
  logged-All false a = All-map (λ t. t ≤ last) (λ t. t ≤ now) (λ t e. omega (arith, e, h)) log a

  logged-Ordered : (allowed : Bool) → All (λ t. t ≤ last) log → Ordered (logged allowed log now)
  logged-Ordered true a =
      Ordered-append now log o
        (All-map (λ t. t ≤ last) (λ t. t ≤ now) (λ t e. omega (arith, e, h)) log a)
  logged-Ordered false a = o

answers-log :
    (limit window last : ℕ) (log times : List ℕ)
    → 0 < window
    → Ordered log
    → All (λ t. t ≤ last) log
    → Nondecreasing last times
    → answers limit window (filter (is_live window last) log) times
      ≡ expected limit window log times
unfolding answers expected
answers-log limit window last log [] p o a n = refl
answers-log limit window last log (now ∷ times) p o a n =
    let allowed = ltb (count (is_live window now) log) limit in
    ap (λ answer. answer.0 ∷ answers limit window answer.1 times)
      (admit-logged limit window last now log p o n.0)
    ∙ ap (λ rest. allowed ∷ rest)
        (answers-log limit window now (logged allowed log now) times p
          (logged-Ordered limit window last now log p o n.0 allowed a)
          (logged-All limit window last now log p o n.0 allowed a) n.1)

-- For calls of one key at times that do not decrease, the deque of the limiter answers as the
-- sliding window over the whole log of allowed calls asks.
pub answers-expected :
    (limit window : ℕ) (times : List ℕ)
    → 0 < window
    → Nondecreasing 0 times
    → answers limit window [] times ≡ expected limit window [] times
unfolding filter
answers-expected limit window times p n = answers-log limit window 0 [] times p tt tt n
