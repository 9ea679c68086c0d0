-- ===== src/Base/Errors.antt =====
-- Python's exceptions as values: a call returns, or raises one of the program's exceptions.
use mathlib.Core.Bool.{Bool, true, false}
use Prim.Native.String.{String}
use mathlib.Core.Option.{Option}
use mathlib.Core.Path.{◌≡◌, refl}

-- `integrity_error` and `database_error` are SQLAlchemy's IntegrityError and SQLAlchemyError,
-- `evaluation_integrity` and `infrastructure` carry the code and the message of
-- EvaluationIntegrityError and EvaluationInfrastructureError, `provider_error` the code of a
-- ProviderError, whether it is transient, and its detail code. `unexpected` is any other Exception.
pub data Error : Type 0 where
  value_error type_error assertion_error : Error
  persistence_error idempotency_conflict invalid_transition : Error
  integrity_error database_error queue_unavailable : Error
  evaluation_integrity : String → Error
  infrastructure : String → Error
  provider_error : (code : String) (transient : Bool) (detail_code : Option String) → Error
  os_error : Error
  unexpected : Error

pub data Result {ℓ} (A : Type ℓ) : Type ℓ where
  ok : A → Result A
  raise : Error → Result A

-- an exception skips what follows it
infixl 5 ◌>>=◌ ◌>>◌
abbrev pub ◌>>=◌ {ℓ κ} :
    {A : Type ℓ} {B : Type κ} (call : Result A) (continue_with : A → Result B) → Result B
raise error >>= continue_with = raise error
ok answer >>= continue_with = continue_with answer

abbrev pub ◌>>◌ {ℓ} : {B : Type ℓ} (call : Result (Unit {0})) (next : Result B) → Result B
raise error >> next = raise error
ok _ >> next = next

-- `if bad: raise e`
abbrev pub raise_if : Bool → Error → Result (Unit {0})
raise_if true e = raise e
raise_if false e = ok tt

-- A call that returned is a first part that returned and a second that did.
pub >>=-eq-ok {ℓ κ} :
    {A : Type ℓ} {B : Type κ} (call : Result A) (next : A → Result B) {b : B}
    → (call >>= next) ≡ ok b
    → (a : A) × (call ≡ ok a) × (next a ≡ ok b)
>>=-eq-ok (ok a) next h = (a, refl, h)
>>=-eq-ok (raise e) next h = cc

pub ok-injective {ℓ} : {A : Type ℓ} (a b : A) → ok a ≡ ok b → a ≡ b
ok-injective a b h = cc

-- A check that was passed before a call that returned.
pub raise_if-passed {ℓ} :
    {A : Type ℓ} (bad : Bool) (e : Error) (next : Result A) (a : A)
    → (raise_if bad e >> next) ≡ ok a
    → (bad ≡ false) × (next ≡ ok a)
raise_if-passed true e next a h = cc
raise_if-passed false e next a h = (refl, h)
