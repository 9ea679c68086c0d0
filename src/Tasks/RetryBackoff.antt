-- ===== src/Tasks/RetryBackoff.antt =====
-- app/tasks/definitions/retry_backoff/reference/solution.py, over natural numbers in place of
-- floats, which are exact as long as no delay passes 2 ^ 53.
use codejudge_ai.Base.{
  ℕ, zero, suc, ◌-◌, ◌*◌, ◌^◌, ◌≤◌, ◌<◌, ◌≡◌, ap, sym, ◌∙◌, inl, inr, Bool-cases, arith, true, ◌||◌,
  ltb, leb, ◌==◌, if◌then◌else◌,
}
use codejudge_ai.Base.Errors.{Result, ok, raise, value_error}
use native.Mathlib.Nat.{
  mul-le-mul_left, mul_assoc, mul_comm, mul-one, pow-zero, pow-suc, one-le-pow,
}

unfoldable pub min : ℕ → ℕ → ℕ
min a b = if leb a b then a else b

-- `for _ in range(n)` with its `break`
unfoldable pub grow : ℕ → ℕ → ℕ → ℕ → ℕ
grow zero delay limit factor = delay
grow (suc n) delay limit factor =
    let rest = grow n (min limit (delay * factor)) limit factor in
    if leb limit delay || factor == 1 then delay else rest

unfoldable pub retry_delay : (attempt base_delay max_delay multiplier : ℕ) → Result ℕ
retry_delay attempt base_delay max_delay multiplier =
    if ltb attempt 1
    then raise value_error
    else if base_delay == 0
    then raise value_error
    else if ltb max_delay base_delay
    then raise value_error
    else if ltb multiplier 1
    then raise value_error
    else ok (min (grow (attempt - 1) base_delay max_delay multiplier) max_delay)

-- growth by a positive factor
factor-le : (x factor n : ℕ) → 0 < factor → x ≤ x * factor ^ n
factor-le x factor n p =
    let grows : x * 1 ≤ x * factor ^ n = mul-le-mul_left x (one-le-pow n factor p) in
    omega (arith, grows)

-- one round of the loop, under the limit
grow_once :
    (next limit power : ℕ)
    → limit ≤ limit * power
    → (limit ≤ next → limit ≤ next * power)
    → min (min limit next * power) limit ≡ min (next * power) limit
unfolding min
grow_once next limit power h i = ground arith

unit-pow : (delay factor n : ℕ) → factor ≡ 1 → delay * factor ^ n ≡ delay
unit-pow delay factor zero e = ap (λ p. delay * p) (pow-zero factor) ∙ mul-one delay
unit-pow delay factor (suc n) e =
    ap (λ p. delay * p) (pow-suc factor n ∙ ap (λ f. factor ^ n * f) e ∙ mul-one (factor ^ n))
    ∙ unit-pow delay factor n e

next-power : (delay factor n : ℕ) → delay * factor ^ suc n ≡ delay * factor * factor ^ n
next-power delay factor n =
    ap (λ p. delay * p) (pow-suc factor n ∙ mul_comm (factor ^ n) factor)
    ∙ sym (mul_assoc delay factor (factor ^ n))

stopped :
    (delay limit factor n : ℕ)
    → 0 < factor
    → (leb limit delay || factor == 1) ≡ true
    → min delay limit ≡ min (delay * factor ^ n) limit
unfolding min
stopped delay limit factor n p h =
    ground (arith, factor-le delay factor n p, unit-pow delay factor n)

grow-min :
    (n delay limit factor : ℕ)
    → 0 < factor
    → min (grow n delay limit factor) limit ≡ min (delay * factor ^ n) limit
unfolding grow
grow-min zero delay limit factor p =
    ap (λ d. min d limit) (sym (ap (λ p. delay * p) (pow-zero factor) ∙ mul-one delay))
grow-min (suc n) delay limit factor p =
    let rest = grow-min n (min limit (delay * factor)) limit factor p in
    let round =
      grow_once (delay * factor) limit (factor ^ n) (factor-le limit factor n p)
        (λ h. omega (arith, h, factor-le (delay * factor) factor n p)) in
    elim (Bool-cases (leb limit delay || factor == 1)) [
      | inl stops ↦ rw stops (stopped delay limit factor (suc n) p stops)
      | inr goes ↦ rw goes (rest ∙ round ∙ ap (λ d. min d limit) (sym (next-power delay factor n)))
    ]

-- For arguments that pass the checks, the loop of retry_delay computes min(max_delay, base_delay *
-- multiplier ^ (attempt - 1)).
pub retry_delay-formula :
    (attempt base_delay max_delay multiplier : ℕ)
    → 0 < attempt
    → 0 < base_delay
    → base_delay ≤ max_delay
    → 0 < multiplier
    → retry_delay attempt base_delay max_delay multiplier
      ≡ ok (min (base_delay * multiplier ^ (attempt - 1)) max_delay)
unfolding retry_delay
retry_delay-formula attempt base_delay max_delay multiplier h i j k =
    ground (arith, grow-min (attempt - 1) base_delay max_delay multiplier k)
