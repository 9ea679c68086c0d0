-- ===== src/Jobs/Invariant/Keeps.antt =====
-- The rules of Jobs/Transaction/Rules for the consistency of the tables.
use codejudge_ai.Base.{◌≡◌, List}
use codejudge_ai.Base.Errors.{Result}
use codejudge_ai.Jobs.Invariant.{IsConsistent}
use codejudge_ai.Jobs.Model.{Database, EvaluationSnapshot}
use codejudge_ai.Jobs.Transaction.Rules.{Ensures}

-- What a body leaves behind is consistent, if it commits.
abbrev pub Keeps {ℓ} : {A : Type ℓ} → Result (A × Database) → Type 0
Keeps = Ensures IsConsistent

abbrev pub IsConsistentWith : List EvaluationSnapshot → Database → Type 0
IsConsistentWith evaluations db = IsConsistent db × (db.evaluations ≡ evaluations)

-- The same, of a body that leaves the evaluations as they were.
abbrev pub KeepsWith {ℓ} : {A : Type ℓ} → List EvaluationSnapshot → Result (A × Database) → Type 0
KeepsWith evaluations = Ensures (IsConsistentWith evaluations)
