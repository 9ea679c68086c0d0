-- ===== src/Jobs/Transaction/Rules.antt =====
-- Rules for transactions: a property of the tables that a body ensures when it commits holds after
-- the transaction, however the database answers.
use codejudge_ai.Base.{◌≡◌, refl, Bool, true, false, Option, none, some, if◌then◌else◌}
use codejudge_ai.Base.Errors.{Result, ok, raise}
use codejudge_ai.Jobs.Model.{Database}
use codejudge_ai.Jobs.Transaction.{
  Session, Link, up, down, lost_reply, commit, transaction, persistent,
}

-- What holds of the tables if the body commits.
abbrev pub Ensures {ℓ κ} : {A : Type ℓ} → (Database → Type κ) → Result (A × Database) → Type κ
Ensures P (ok (a, db)) = P db
Ensures P (raise e) = Unit

module _ {κ} (P : Database → Type κ) where
  commit-Ensures {ℓ} :
      {A : Type ℓ} (r : Result (A × Database)) (db : Database)
      → P db
      → Ensures P r
      → P (commit r db).1
  unfolding commit
  commit-Ensures (ok (a, db')) db p e = e
  commit-Ensures (raise x) db p e = p

  pub transaction-Ensures {ℓ} :
      {A : Type ℓ} (link : Link) (body : Session A) (db : Database)
      → P db
      → Ensures P (body db)
      → P (transaction link body db).1
  unfolding transaction
  transaction-Ensures up body db p e = commit-Ensures (body db) db p e
  transaction-Ensures down body db p e = p
  transaction-Ensures lost_reply body db p e = commit-Ensures (body db) db p e

  pub persistent-Ensures {ℓ} :
      {A : Type ℓ} (link : Link) (body : Session A) (db : Database)
      → P db
      → Ensures P (body db)
      → P (persistent link body db).1
  unfolding persistent
  persistent-Ensures link body db p e = transaction-Ensures link body db p e

  pub if-Ensures {ℓ} :
      {A : Type ℓ} (b : Bool) (r r' : Result (A × Database))
      → (b ≡ true → Ensures P r)
      → (b ≡ false → Ensures P r')
      → Ensures P (if b then r else r')
  if-Ensures true r r' h h' = h refl
  if-Ensures false r r' h h' = h' refl

  -- A body that looks a row up first.
  pub found-Ensures {ℓ μ} :
      {A : Type ℓ} {R : Type μ} (o : Option R) (a : A) (db : Database)
      (f : R → Result (A × Database))
      → P db
      → ((row : R) → o ≡ some row → Ensures P (f row))
      → Ensures P (elim o [ none ↦ ok (a, db) | some row ↦ f row ])
  found-Ensures none a db f p h = p
  found-Ensures (some row) a db f p h = h row refl

-- A body that goes on after another.
pub bind-Ensures {ℓ μ κ ν} :
    {A : Type ℓ} {B : Type μ} (P : Database → Type κ) (Q : Database → Type ν)
    (r : Result (A × Database)) (f : A → Database → Result (B × Database))
    → Ensures P r
    → ((a : A) (db : Database) → P db → Ensures Q (f a db))
    → Ensures Q (elim r [ ok (a, db) ↦ f a db | raise e ↦ raise e ])
bind-Ensures P Q (ok (a, db)) f p h = h a db p
bind-Ensures P Q (raise e) f p h = tt

pub map-Ensures {ℓ κ ν} :
    {A : Type ℓ} (P : Database → Type κ) (Q : Database → Type ν) (r : Result (A × Database))
    → ((db : Database) → P db → Q db)
    → Ensures P r
    → Ensures Q r
map-Ensures P Q (ok (a, db)) f p = f db p
map-Ensures P Q (raise e) f p = tt
