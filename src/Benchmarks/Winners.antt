-- ===== src/Benchmarks/Winners.antt =====
-- app/benchmarks/winners.py: who may win, and who does. A missing mean is `none`.
use codejudge_ai.Base.{
  ℕ, ◌≤◌, ◌<◌, ◌≡◌, ◌↔◌, refl, arith, Bool, true, false, not, ◌&&◌, String, Option, none, some,
  List, [], ◌∷◌, ◌++◌, All, All-map, is_some, ltb, ◌==◌, if◌then◌else◌, inl, inr, Bool-cases,
}
use mathlib.Core.Path.{subst}

pub data Reason : Type 0 where
  incomplete_generation_success incomplete_evaluation_coverage : Reason

pub record WinnerEligibility : Type 0 where
  pub eligible : Bool
  pub reasons : List Reason

pub record WinnerCandidate : Type 0 where
  pub model_config_id : ℕ
  pub provider_id : String
  pub model : String
  pub display_name : String
  pub rank : ℕ
  pub weighted_mean_score : Option ℕ
  pub winner_eligible : Bool

pub record WinnerSelection : Type 0 where
  pub observed : Option WinnerCandidate
  pub eligible : Option WinnerCandidate
  pub final : Bool

abbrev is_empty : List Reason → Bool
is_empty [] = true
is_empty (r ∷ rs) = false

-- the reasons whose requirement is not satisfied, in order
unfoldable pub reasons_of : Bool → Bool → List Reason
reasons_of generation_complete evaluation_complete =
    (if generation_complete then [] else incomplete_generation_success ∷ [])
    ++ (if evaluation_complete then [] else incomplete_evaluation_coverage ∷ [])

unfoldable pub evaluate_winner_eligibility : ℕ → ℕ → ℕ → WinnerEligibility
evaluate_winner_eligibility planned successful completed =
    let reasons =
      reasons_of (ltb 0 planned && successful == planned) (ltb 0 planned && completed == planned) in
    record { eligible = is_empty reasons; reasons = reasons }

unfoldable pub first : (WinnerCandidate → Bool) → List WinnerCandidate → Option WinnerCandidate
first p [] = none
first p (c ∷ cs) = if p c then some c else first p cs

abbrev pub is_scored : WinnerCandidate → Bool
is_scored c = is_some c.weighted_mean_score

abbrev pub may_win : WinnerCandidate → Bool
may_win c = is_scored c && c.winner_eligible

unfoldable pub select_winners : List WinnerCandidate → Bool → WinnerSelection
select_winners ordered_leaderboard final =
    if not final then record { observed = none; eligible = none; final = false } else record {
      observed = first is_scored ordered_leaderboard;
      eligible = first may_win ordered_leaderboard;
      final = true;
    }

-- A model is eligible exactly when something was planned and every planned sample was generated and
-- evaluated, and there are no reasons against it.
pub evaluate_winner_eligibility-eligible_iff :
    (planned successful completed : ℕ)
    → ((evaluate_winner_eligibility planned successful completed).eligible ≡ true) ↔ (
        (0 < planned)
        × (successful ≡ planned)
        × (completed ≡ planned)
        × ((evaluate_winner_eligibility planned successful completed).reasons ≡ []))
unfolding evaluate_winner_eligibility reasons_of
evaluate_winner_eligibility-eligible_iff planned successful completed =
    (λ h. ground arith, λ h. ground arith)

-- The board is in the order of its ranks.
abbrev pub IsRanked : List WinnerCandidate → Type 0
IsRanked [] = Unit {0}
IsRanked (c ∷ cs) = All (λ d. c.rank < d.rank) cs × IsRanked cs

-- a candidate of the test whom no other candidate of the test on the board outranks
abbrev pub IsBest : (WinnerCandidate → Bool) → WinnerCandidate → List WinnerCandidate → Type 0
IsBest p w board = (p w ≡ true) × All (λ d. p d ≡ true → w.rank ≤ d.rank) board

first-IsBest :
    (p : WinnerCandidate → Bool) (board : List WinnerCandidate) (w : WinnerCandidate)
    → IsRanked board
    → first p board ≡ some w
    → IsBest p w board
unfolding first
first-IsBest p [] w r e = absurd (ground arith)
first-IsBest p (c ∷ cs) w r e = elim (Bool-cases (p c)) [
  | inl here ↦
      let same : c ≡ w = ground arith in
      subst (λ x. IsBest p x (c ∷ cs)) same
        (
          here,
          (
            (λ h. omega arith),
            All-map (λ d. c.rank < d.rank) (λ d. p d ≡ true → c.rank ≤ d.rank)
                (λ d h q. omega (arith, h)) cs r.0,
          ),
        )
  | inr later ↦
      let best = first-IsBest p cs w r.1 (ground arith) in
      (best.0, ((λ h. absurd (ground arith)), best.1))
]

first-none :
    (p : WinnerCandidate → Bool) (board : List WinnerCandidate)
    → first p board ≡ none
    → All (λ d. p d ≡ false) board
unfolding first
first-none p [] e = tt
first-none p (c ∷ cs) e = (ground arith, first-none p cs (ground arith))

-- what a winner is, if there is one, and who there is otherwise
abbrev pub Wins : (WinnerCandidate → Bool) → Option WinnerCandidate → List WinnerCandidate → Type 0
Wins p none board = All (λ d. p d ≡ false) board
Wins p (some w) board = IsBest p w board

Wins-first :
    (p : WinnerCandidate → Bool) (board : List WinnerCandidate) (winner : Option WinnerCandidate)
    → IsRanked board
    → first p board ≡ winner
    → Wins p winner board
Wins-first p board none r e = first-none p board e
Wins-first p board (some w) r e = first-IsBest p board w r e

-- On a final board in the order of its ranks, the observed winner is the best candidate with a mean
-- score and the eligible winner the best one that is eligible too, and there is none only if no
-- candidate qualifies; a board that is not final has no winners.
pub select_winners-Wins :
    (board : List WinnerCandidate)
    → IsRanked board
    → Wins is_scored (select_winners board true).observed board
      × Wins may_win (select_winners board true).eligible board
      × ((select_winners board false).observed ≡ none)
      × ((select_winners board false).eligible ≡ none)
unfolding select_winners
select_winners-Wins board r = (
  Wins-first is_scored board (first is_scored board) r refl,
  Wins-first may_win board (first may_win board) r refl,
  refl,
  refl,
)
