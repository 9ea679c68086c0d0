-- ===== src/Evaluator/Engine/Registered.antt =====
-- `get` finds the tasks of the two dictionaries.
use mathlib.Core.Path.{subst}
use codejudge_ai.Base.{
  ℕ, ◌≡◌, ◌↔◌, refl, sym, ap, ◌∙◌, arith, ◌&&◌, ◌==◌, Bool-cases, inl, inr, String, str_eq,
  str_eq_iff, Option, none, some, Option-cases, List, [], ◌∷◌, All, Any,
}
use codejudge_ai.Evaluator.Engine.{
  RegisteredTask, Registry, succeeds, find_task, default_of, resolved_revision, get,
}

-- the keys of a dictionary differ
abbrev pub TasksApart : List RegisteredTask → Type 0
TasksApart [] = Unit {0}
TasksApart (t ∷ ts) = All (λ u. (t.id ≡ u.id) × (t.revision ≡ u.revision) → ⊥) ts × TasksApart ts

abbrev pub DefaultsApart : List (String × ℕ) → Type 0
DefaultsApart [] = Unit {0}
DefaultsApart (d ∷ ds) = All (λ e. d.0 ≡ e.0 → ⊥) ds × DefaultsApart ds

pub record IsRegistry (registry : Registry) : Type 0 where
  pub tasks_apart : TasksApart registry.tasks
  pub defaults_apart : DefaultsApart registry.default_revisions

-- the revision asked for, or the default one of the task
abbrev pub Asked : Registry → String → Option ℕ → ℕ → Type 0
Asked registry task_id (some revision) n = revision ≡ n
Asked registry task_id none n = Any (λ d. d ≡ (task_id, n)) registry.default_revisions

abbrev pub Resolves : Registry → String → Option ℕ → RegisteredTask → Type 0
Resolves registry task_id revision task =
    Any (λ t. t ≡ task) registry.tasks
    × (task.id ≡ task_id)
    × Asked registry task_id revision task.revision

All-Any {ℓ κ} :
    {A : Type ℓ} (P : A → Type κ) (a : A) (xs : List A) → All P xs → Any (λ x. x ≡ a) xs → P a
All-Any P a [] h m = absurd (m tt)
All-Any P a (x ∷ xs) h (inl e) = subst P e h.0
All-Any P a (x ∷ xs) h (inr m) = All-Any P a xs h.1 m

find_task-found :
    (task_id : String) (n : ℕ) (tasks : List RegisteredTask) (task : RegisteredTask)
    → find_task task_id n tasks ≡ some task
    → Any (λ t. t ≡ task) tasks × (task.id ≡ task_id) × (task.revision ≡ n)
unfolding find_task
find_task-found task_id n [] task h = absurd (cc)
find_task-found task_id n (t ∷ ts) task h =
    elim (Bool-cases (str_eq t.id task_id && t.revision == n)) [
      | inl hit ↦
          let same : t ≡ task = ground (arith, h, hit) in
          let name : t.id ≡ task_id = ground (arith, hit, str_eq_iff t.id task_id) in
          let number : t.revision ≡ n = ground (arith, hit) in
          (inl same, sym (ap (λ x. x.id) same) ∙ name, sym (ap (λ x. x.revision) same) ∙ number)
      | inr miss ↦
          let found = find_task-found task_id n ts task (ground (arith, h, miss)) in
          (inr found.0, found.1, found.2)
    ]

found-find_task :
    (task_id : String) (n : ℕ) (tasks : List RegisteredTask) (task : RegisteredTask)
    → TasksApart tasks
    → Any (λ t. t ≡ task) tasks
    → task.id ≡ task_id
    → task.revision ≡ n
    → find_task task_id n tasks ≡ some task
unfolding find_task
found-find_task task_id n [] task apart m name number = absurd (m tt)
found-find_task task_id n (t ∷ ts) task apart (inl same) name number = ground (
  arith,
  str_eq_iff t.id task_id,
  ap (λ x. x.id) same ∙ name,
  ap (λ x. x.revision) same ∙ number,
  ap some same,
)
found-find_task task_id n (t ∷ ts) task apart (inr m) name number =
    let other = All-Any (λ u. (t.id ≡ u.id) × (t.revision ≡ u.revision) → ⊥) task ts apart.0 m in
    let rest = found-find_task task_id n ts task apart.1 m name number in
    elim (Bool-cases (str_eq t.id task_id && t.revision == n)) [
      | inl hit ↦
          let name' : t.id ≡ task_id = ground (arith, hit, str_eq_iff t.id task_id) in
          let number' : t.revision ≡ n = ground (arith, hit) in
          absurd (other (name' ∙ sym name, number' ∙ sym number))
      | inr miss ↦ ground (arith, miss, rest)
    ]

default_of-found :
    (task_id : String) (n : ℕ) (defaults : List (String × ℕ))
    → default_of task_id defaults ≡ some n
    → Any (λ d. d ≡ (task_id, n)) defaults
unfolding default_of
default_of-found task_id n [] h = absurd (cc)
default_of-found task_id n ((k, revision) ∷ rest) h = elim (Bool-cases (str_eq k task_id)) [
  | inl hit ↦
      let name : k ≡ task_id = ground (arith, hit, str_eq_iff k task_id) in
      let number : revision ≡ n = ground (arith, h, hit) in inl (λ i. (name i, number i))
  | inr miss ↦ inr (default_of-found task_id n rest (ground (arith, h, miss)))
]

found-default_of :
    (task_id : String) (n : ℕ) (defaults : List (String × ℕ))
    → DefaultsApart defaults
    → Any (λ d. d ≡ (task_id, n)) defaults
    → default_of task_id defaults ≡ some n
unfolding default_of
found-default_of task_id n [] apart m = absurd (m tt)
found-default_of task_id n ((k, revision) ∷ rest) apart (inl same) =
    ground (arith, str_eq_iff k task_id, ap (λ x. x.0) same, ap (λ x. some x.1) same)
found-default_of task_id n ((k, revision) ∷ rest) apart (inr m) =
    let other = All-Any (λ e. k ≡ e.0 → ⊥) (task_id, n) rest apart.0 m in
    let later = found-default_of task_id n rest apart.1 m in
    elim (Bool-cases (str_eq k task_id)) [
      | inl hit ↦ absurd (other (ground (arith, hit, str_eq_iff k task_id)))
      | inr miss ↦ ground (arith, miss, later)
    ]

module _ (registry : Registry) (task_id : String) where
  resolved-Asked :
      (revision : Option ℕ) (n : ℕ)
      → resolved_revision registry task_id revision ≡ some n
      → Asked registry task_id revision n
  resolved-Asked (some revision) n h = ground (arith, h)
  resolved-Asked none n h = default_of-found task_id n registry.default_revisions h

  Asked-resolved :
      (revision : Option ℕ) (n : ℕ)
      → DefaultsApart registry.default_revisions
      → Asked registry task_id revision n
      → resolved_revision registry task_id revision ≡ some n
  Asked-resolved (some revision) n apart h = ap some h
  Asked-resolved none n apart h = found-default_of task_id n registry.default_revisions apart h

  get-Resolves :
      (revision : Option ℕ) (task : RegisteredTask)
      → get registry task_id revision ≡ succeeds task
      → Resolves registry task_id revision task
  unfolding get
  get-Resolves revision task h = elim (Option-cases (resolved_revision registry task_id revision)) [
    | inl e ↦ absurd (ground (arith, h, e))
    | inr (n, e) ↦ elim (Option-cases (find_task task_id n registry.tasks)) [
      | inl f ↦ absurd (ground (arith, h, e, f))
      | inr (t, f) ↦
          let same : t ≡ task = ground (arith, h, e, f) in
          let found = find_task-found task_id n registry.tasks task (f ∙ ap some same) in
          (
            found.0,
            found.1,
            subst (Asked registry task_id revision) (sym found.2) (resolved-Asked revision n e),
          )
    ]
  ]

  Resolves-get :
      (revision : Option ℕ) (task : RegisteredTask)
      → IsRegistry registry
      → Resolves registry task_id revision task
      → get registry task_id revision ≡ succeeds task
  unfolding get
  Resolves-get revision task dictionaries (member, name, asked) =
      let e = Asked-resolved revision task.revision dictionaries.defaults_apart asked in
      let f =
        found-find_task task_id task.revision registry.tasks task dictionaries.tasks_apart member
          name refl in
      ground (arith, e, f)

  pub get-succeeds_iff :
      (revision : Option ℕ) (task : RegisteredTask)
      → IsRegistry registry
      → (get registry task_id revision ≡ succeeds task) ↔ Resolves registry task_id revision task
  get-succeeds_iff revision task dictionaries =
      (get-Resolves revision task, Resolves-get revision task dictionaries)
