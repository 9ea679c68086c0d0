-- ===== src/Base/Table.antt =====
-- A database table as the list of its rows, oldest first, with a primary key of type UUID read as
-- its 128-bit number. `find` is a SELECT by key, `put` the UPDATE of a row that was selected, and
-- `insert_row` an INSERT, which the primary key may refuse.
use Prim.Native.Nat.{ℕ}
use mathlib.Core.List.{List, [], ◌∷◌, ◌++◌}
use mathlib.Core.Option.{Option, none, some}
use mathlib.Core.Path.{◌≡◌, refl, sym, subst}
use native.Mathlib.Omega.{arith}
use codejudge_ai.Base.Lists.{All-append, All-map, Any-map, length, All, Any}
use mathlib.Core.Logic.{◌⊎◌, ◌≢◌, inl, inr}
use codejudge_ai.Base.Tests.{Bool-cases, ◌==◌, if◌then◌else◌, is_some}

module _ {ℓ} {A : Type ℓ} (key : A → ℕ) where
  unfoldable pub find : ℕ → List A → Option A
  find k [] = none
  find k (r ∷ rs) = if key r == k then some r else find k rs

  unfoldable pub put : A → List A → List A
  put r [] = []
  put r (x ∷ xs) = if key x == key r then r ∷ xs else x ∷ put r xs

  -- `none` is the violation of the primary key
  unfoldable pub insert_row : A → List A → Option (List A)
  insert_row r rs = if is_some (find (key r) rs) then none else some (rs ++ r ∷ [])

  pub key-find : (k : ℕ) (rs : List A) (r : A) → find k rs ≡ some r → key r ≡ k
  unfolding find
  key-find k [] r h = absurd (ground arith)
  key-find k (x ∷ xs) r h = ground (arith, key-find k xs r)

  pub find-key_self : (k : ℕ) (rs : List A) (r : A) → find k rs ≡ some r → find (key r) rs ≡ some r
  find-key_self k rs r e = subst (λ j. find j rs ≡ some r) (sym (key-find k rs r e)) e

  pub find-put :
      (k : ℕ) (r : A) (rs : List A)
      → find k (put r rs)
        ≡ (if key r == k then (if is_some (find k rs) then some r else none) else find k rs)
  unfolding find put
  find-put k r [] = ground arith
  find-put k r (x ∷ xs) = ground (arith, find-put k r xs)

  pub find-append :
      (k : ℕ) (rs ts : List A)
      → find k (rs ++ ts) ≡ (if is_some (find k rs) then find k rs else find k ts)
  unfolding find
  find-append k [] ts = refl
  find-append k (x ∷ xs) ts = ground (arith, find-append k xs ts)

  pub length-put : (r : A) (rs : List A) → length (put r rs) ≡ length rs
  unfolding put
  length-put r [] = refl
  length-put r (x ∷ xs) = ground (arith, length-put r xs)

  module _ {κ} (P : A → Type κ) where
    pub All-put : (r : A) (rs : List A) → P r → All P rs → All P (put r rs)
    unfolding put
    All-put r [] p h = tt
    All-put r (x ∷ xs) p h = ground (arith, All-put r xs p h.1)

    pub All-find : (k : ℕ) (rs : List A) (r : A) → All P rs → find k rs ≡ some r → P r
    unfolding find
    All-find k [] r h e = absurd (ground arith)
    All-find k (x ∷ xs) r h e = ground (arith, All-find k xs r h.1)

    -- an element that satisfies P is still there after an update that keeps P of the row
    pub Any-put :
        (r old : A) (rs : List A)
        → find (key r) rs ≡ some old
        → (P old → P r)
        → Any P rs
        → Any P (put r rs)
    unfolding put find
    Any-put r old [] e f h = h
    Any-put r old (x ∷ xs) e f h = elim (Bool-cases (key x == key r)) [
      | inl here ↦ rw here (first (ground arith) h)
      | inr there ↦ rw there (later (Any-put r old xs (ground arith) f) h)
    ]
      where
        first : x ≡ old → P x ⊎ Any P xs → P r ⊎ Any P xs
        first same (inl p) = inl (f (rw same at p))
        first same (inr q) = inr q

        later : (Any P xs → Any P (put r xs)) → P x ⊎ Any P xs → P x ⊎ Any P (put r xs)
        later g (inl p) = inl p
        later g (inr q) = inr (g q)

    -- an update of one row takes the other rows not away
    pub Any-put_other :
        (r : A) (rs : List A) → Any (λ y. (key y ≢ key r) × P y) rs → Any P (put r rs)
    unfolding put
    Any-put_other r [] h = h
    Any-put_other r (x ∷ xs) h = elim (Bool-cases (key x == key r)) [
      | inl here ↦ rw here (hit (ground arith) h)
      | inr there ↦ rw there (miss (Any-put_other r xs) h)
    ]
      where
        hit :
            key x ≡ key r
            → ((key x ≢ key r) × P x) ⊎ Any (λ y. (key y ≢ key r) × P y) xs
            → P r ⊎ Any P xs
        hit same (inl q) = absurd (q.0 same)
        hit same (inr q) = inr (Any-map (λ y. (key y ≢ key r) × P y) P (λ y h. h.1) xs q)

        miss :
            (Any (λ y. (key y ≢ key r) × P y) xs → Any P (put r xs))
            → ((key x ≢ key r) × P x) ⊎ Any (λ y. (key y ≢ key r) × P y) xs
            → P x ⊎ Any P (put r xs)
        miss g (inl q) = inl q.1
        miss g (inr q) = inr (g q)

  -- the primary key: no two rows have the same one
  abbrev pub Distinct : List A → Type 0
  Distinct [] = Unit {0}
  Distinct (x ∷ xs) = All (λ y. key x ≢ key y) xs × Distinct xs

  pub Distinct-put : (r : A) (rs : List A) → Distinct rs → Distinct (put r rs)
  unfolding put
  Distinct-put r [] d = tt
  Distinct-put r (x ∷ xs) d = elim (Bool-cases (key x == key r)) [
    | inl here ↦
        rw here
          (All-map (λ y. key x ≢ key y) (λ y. key r ≢ key y) (λ y h. ground arith) xs d.0, d.1)
    | inr there ↦
        rw there (All-put (λ y. key x ≢ key y) r xs (ground arith) d.0, Distinct-put r xs d.1)
  ]

  pub Distinct-append :
      (rs : List A) (r : A) → find (key r) rs ≡ none → Distinct rs → Distinct (rs ++ r ∷ [])
  unfolding find
  Distinct-append [] r h d = (tt, tt)
  Distinct-append (x ∷ xs) r h d = (
    All-append (λ y. key x ≢ key y) xs (r ∷ []) d.0 (ground arith, tt),
    Distinct-append xs r (ground arith) d.1,
  )

  module _ {κ μ} (P : A → Type κ) (Q : A → Type μ) where
    All-other :
        (r x : A) (rs : List A)
        → key x ≡ key r
        → ((y : A) → key y ≢ key r → P y → Q y)
        → All (λ y. key x ≢ key y) rs
        → All P rs
        → All Q rs
    All-other r x [] e f d h = tt
    All-other r x (y ∷ ys) e f d h = (f y (ground arith) h.0, All-other r x ys e f d.1 h.1)

    -- an update of one row, where the others keep a weaker property
    pub All-put_other :
        (r : A) (rs : List A)
        → Distinct rs
        → Q r
        → ((y : A) → key y ≢ key r → P y → Q y)
        → All P rs
        → All Q (put r rs)
    unfolding put
    All-put_other r [] d q f h = tt
    All-put_other r (x ∷ xs) d q f h = elim (Bool-cases (key x == key r)) [
      | inl here ↦ rw here (q, All-other r x xs (ground arith) f d.0 h.1)
      | inr there ↦ rw there (f x (ground arith) h.0, All-put_other r xs d.1 q f h.1)
    ]
