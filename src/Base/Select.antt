-- ===== src/Base/Select.antt =====
-- SELECT ... WHERE ... ORDER BY ... LIMIT over a table: the rows that it returns are rows of the
-- table, each once.
use Prim.Native.Nat.{ℕ, zero, suc}
use mathlib.Core.Bool.{Bool, true, false}
use mathlib.Core.List.{List, [], ◌∷◌}
use mathlib.Core.Logic.{◌≢◌, inl, inr}
use mathlib.Core.Option.{some}
use mathlib.Core.Path.{◌≡◌, sym}
use native.Mathlib.Omega.{arith}
use codejudge_ai.Base.Lists.{take, filter, All, All-map, All-both, All-take, All-filter}
use codejudge_ai.Base.Sort.{insert, sort, All-insert, All-sort}
use codejudge_ai.Base.Table.{find, Distinct}
use codejudge_ai.Base.Tests.{Bool-cases, if◌then◌else◌}

module _ {ℓ} {A : Type ℓ} where
  -- the rows that pass the test, in the order, up to the limit
  unfoldable pub select : (A → Bool) → (A → A → Bool) → ℕ → List A → List A
  select where_ before limit rows = take limit (sort before (filter where_ rows))

  pub All-select {κ} :
      (P : A → Type κ) (where_ : A → Bool) (before : A → A → Bool) (limit : ℕ) (rows : List A)
      → All P (filter where_ rows)
      → All P (select where_ before limit rows)
  unfolding select
  All-select P where_ before limit rows h =
      All-take P limit (sort before (filter where_ rows)) (All-sort before P (filter where_ rows) h)

module _ {ℓ} {A : Type ℓ} (key : A → ℕ) where
  abbrev pub Found : List A → A → Type ℓ
  Found rs r = find key (key r) rs ≡ some r

  Found-later : (x y : A) (ys : List A) → key x ≢ key y → Found ys y → Found (x ∷ ys) y
  unfolding find
  Found-later x y ys n e = ground arith

  Found-first : (x : A) (xs : List A) → Found (x ∷ xs) x
  unfolding find
  Found-first x xs = ground arith

  -- Each row is the one that its key selects.
  pub All-Found : (rs : List A) → Distinct key rs → All (Found rs) rs
  All-Found [] d = tt
  All-Found (x ∷ xs) d = (
    Found-first x xs,
    All-map (λ y. (key x ≢ key y) × Found xs y) (Found (x ∷ xs)) (λ y h. Found-later x y xs h.0 h.1)
        xs (All-both (λ y. key x ≢ key y) (Found xs) xs d.0 (All-Found xs d.1)),
  )

  cons_if :
      (b : Bool) (x : A) (xs : List A)
      → All (λ y. key x ≢ key y) xs
      → Distinct key xs
      → Distinct key (if b then x ∷ xs else xs)
  cons_if true x xs h d = (h, d)
  cons_if false x xs h d = d

  Distinct-filter : (p : A → Bool) (xs : List A) → Distinct key xs → Distinct key (filter p xs)
  unfolding filter
  Distinct-filter p [] d = tt
  Distinct-filter p (x ∷ xs) d =
      cons_if (p x) x (filter p xs) (All-filter (λ y. key x ≢ key y) p xs d.0)
        (Distinct-filter p xs d.1)

  Distinct-take : (n : ℕ) (xs : List A) → Distinct key xs → Distinct key (take n xs)
  Distinct-take zero xs d = tt
  Distinct-take (suc n) [] d = tt
  Distinct-take (suc n) (x ∷ xs) d =
      (All-take (λ y. key x ≢ key y) n xs d.0, Distinct-take n xs d.1)

  module _ (before : A → A → Bool) where
    Distinct-insert :
        (x : A) (ys : List A)
        → All (λ y. key x ≢ key y) ys
        → Distinct key ys
        → Distinct key (insert before x ys)
    unfolding insert
    Distinct-insert x [] h d = (tt, tt)
    Distinct-insert x (y ∷ ys) h d = elim (Bool-cases (before y x)) [
      | inl after ↦ rw after (
        All-insert before (λ z. key y ≢ key z) x ys (λ e. h.0 (sym e)) d.0,
        Distinct-insert x ys h.1 d.1,
      )
      | inr first ↦ rw first (h, d)
    ]

    Distinct-sort : (xs : List A) → Distinct key xs → Distinct key (sort before xs)
    unfolding sort
    Distinct-sort [] d = tt
    Distinct-sort (x ∷ xs) d =
        Distinct-insert x (sort before xs) (All-sort before (λ y. key x ≢ key y) xs d.0)
          (Distinct-sort xs d.1)

    pub Distinct-select :
        (p : A → Bool) (limit : ℕ) (rows : List A)
        → Distinct key rows
        → Distinct key (select p before limit rows)
    unfolding select
    Distinct-select p limit rows d =
        Distinct-take limit (sort before (filter p rows))
          (Distinct-sort (filter p rows) (Distinct-filter p rows d))

    pub Found-select :
        (p : A → Bool) (limit : ℕ) (rows : List A)
        → Distinct key rows
        → All (Found rows) (select p before limit rows)
    Found-select p limit rows d =
        All-select (Found rows) p before limit rows
          (All-filter (Found rows) p rows (All-Found rows d))
