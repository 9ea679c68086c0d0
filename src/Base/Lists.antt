-- ===== src/Base/Lists.antt =====
-- Lists measured by native numbers, filtered by Boolean tests, and predicates on their elements.
use Prim.Native.Nat.{ℕ, zero, suc, ◌+◌, ◌≤◌}
use mathlib.Core.Bool.{true, Bool, false, ◌||◌}
use mathlib.Core.List.{List, [], ◌∷◌, ◌++◌}
use mathlib.Core.Logic.{◌⊎◌, inl, inr}
use mathlib.Core.Path.{◌≡◌, refl}
use native.Mathlib.Omega.{arith}
use codejudge_ai.Base.Tests.{if◌then◌else◌}

module _ {ℓ} {A : Type ℓ} where
  abbrev pub length : List A → ℕ
  length [] = 0
  length (x ∷ xs) = suc (length xs)

  abbrev pub take : ℕ → List A → List A
  take zero xs = []
  take (suc n) [] = []
  take (suc n) (x ∷ xs) = x ∷ take n xs

  abbrev pub drop : ℕ → List A → List A
  drop zero xs = xs
  drop (suc n) [] = []
  drop (suc n) (x ∷ xs) = drop n xs

  -- `[x for x in xs if p(x)]`
  unfoldable pub filter : (A → Bool) → List A → List A
  filter p [] = []
  filter p (x ∷ xs) = if p x then x ∷ filter p xs else filter p xs

  -- `any(p(x) for x in xs)`
  unfoldable pub any : (A → Bool) → List A → Bool
  any p [] = false
  any p (x ∷ xs) = p x || any p xs

  -- `sum(p(x) for x in xs)`, of truth values
  unfoldable pub count : (A → Bool) → List A → ℕ
  count p [] = 0
  count p (x ∷ xs) = let rest = count p xs in if p x then suc rest else rest

  -- every element satisfies the predicate
  abbrev pub All {κ} : (A → Type κ) → List A → Type κ
  All P [] = Unit
  All P (x ∷ xs) = P x × All P xs

  -- some element satisfies the predicate, with its place kept
  abbrev pub Any {κ} : (A → Type κ) → List A → Type κ
  Any P [] = Unit → ⊥
  Any P (x ∷ xs) = P x ⊎ Any P xs

  pub length-append : (xs ys : List A) → length (xs ++ ys) ≡ length xs + length ys
  length-append [] ys = omega arith
  length-append (x ∷ xs) ys = omega (arith, length-append xs ys)

  pub length-filter-le : (p : A → Bool) (xs : List A) → length (filter p xs) ≤ length xs
  unfolding filter
  length-filter-le p [] = omega arith
  length-filter-le p (x ∷ xs) = ground (arith, length-filter-le p xs)

  pub count-le-length : (p : A → Bool) (xs : List A) → count p xs ≤ length xs
  unfolding count
  count-le-length p [] = omega arith
  count-le-length p (x ∷ xs) = ground (arith, count-le-length p xs)

  pub count-append : (p : A → Bool) (xs ys : List A) → count p (xs ++ ys) ≡ count p xs + count p ys
  unfolding count
  count-append p [] ys = omega arith
  count-append p (x ∷ xs) ys = ground (arith, count-append p xs ys)

  pub filter-append :
      (p : A → Bool) (xs ys : List A) → filter p (xs ++ ys) ≡ filter p xs ++ filter p ys
  unfolding filter
  filter-append p [] ys = refl
  filter-append p (x ∷ xs) ys = ground (arith, filter-append p xs ys)

  module _ {κ} (P : A → Type κ) where
    pub All-append : (xs ys : List A) → All P xs → All P ys → All P (xs ++ ys)
    All-append [] ys hx hy = hy
    All-append (x ∷ xs) ys hx hy = (hx.0, All-append xs ys hx.1 hy)

    pub All-empty : (xs : List A) → length xs ≡ 0 → All P xs
    All-empty [] h = tt
    All-empty (x ∷ xs) h = absurd (omega arith)

    pub All-take : (n : ℕ) (xs : List A) → All P xs → All P (take n xs)
    All-take zero xs h = tt
    All-take (suc n) [] h = tt
    All-take (suc n) (x ∷ xs) h = (h.0, All-take n xs h.1)

    pub Any-append_left : (xs ys : List A) → Any P xs → Any P (xs ++ ys)
    Any-append_left [] ys h = absurd (h tt)
    Any-append_left (x ∷ xs) ys (inl p) = inl p
    Any-append_left (x ∷ xs) ys (inr h) = inr (Any-append_left xs ys h)

    pub Any-append_right : (xs ys : List A) → Any P ys → Any P (xs ++ ys)
    Any-append_right [] ys h = h
    Any-append_right (x ∷ xs) ys h = inr (Any-append_right xs ys h)

    pub All-filter : (p : A → Bool) (xs : List A) → All P xs → All P (filter p xs)
    unfolding filter
    All-filter p [] h = tt
    All-filter p (x ∷ xs) h = ground (arith, All-filter p xs h.1)

  pub All-map {κ μ} :
      (P : A → Type κ) (Q : A → Type μ)
      → ((x : A) → P x → Q x)
      → (xs : List A) → All P xs
      → All Q xs
  All-map P Q f [] h = tt
  All-map P Q f (x ∷ xs) h = (f x h.0, All-map P Q f xs h.1)

  pub Any-map {κ μ} :
      (P : A → Type κ) (Q : A → Type μ)
      → ((x : A) → P x → Q x)
      → (xs : List A) → Any P xs
      → Any Q xs
  Any-map P Q f [] h = absurd (h tt)
  Any-map P Q f (x ∷ xs) (inl p) = inl (f x p)
  Any-map P Q f (x ∷ xs) (inr h) = inr (Any-map P Q f xs h)

  module _ {κ μ} (P : A → Type κ) (Q : A → Type μ) where
    pub All-both : (xs : List A) → All P xs → All Q xs → All (λ x. P x × Q x) xs
    All-both [] p q = tt
    All-both (x ∷ xs) p q = ((p.0, q.0), All-both xs p.1 q.1)

    cons_if :
        (b : Bool) (x : A) (xs : List A)
        → (b ≡ true → Q x)
        → All Q xs
        → All Q (if b then x ∷ xs else xs)
    cons_if true x xs h q = (h refl, q)
    cons_if false x xs h q = q

    -- what the test tells about the elements that pass it
    pub All-filter_of :
        (p : A → Bool)
        → ((x : A) → p x ≡ true → P x → Q x)
        → (xs : List A) → All P xs
        → All Q (filter p xs)
    unfolding filter
    All-filter_of p f [] h = tt
    All-filter_of p f (x ∷ xs) h =
        cons_if (p x) x (filter p xs) (λ e. f x e h.0) (All-filter_of p f xs h.1)
