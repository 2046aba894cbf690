-- ===== src/Recall/Fit.antt =====
-- The candidates that have to stand in a brief, cut down to the budget: `_fit_mandatory` of
-- services/recall.py, its two binary searches and `_enforce_mandatory_budget`.
pub mod Laws
pub mod Rounds
pub mod Largest
use project_memory_hub.Common.{
  ℕ, zero, suc, ◌+◌, ◌-◌, ◌/◌, min, max, Bool, true, false, Option, none, some, List, [], ◌∷◌, ltb,
  leb, length, take,
}
use project_memory_hub.Text.{Text}
use project_memory_hub.Tokens.{TokenCounter}
use project_memory_hub.Recall.{Candidate}
use project_memory_hub.Recall.Counter.{Counting, ◌>>=◌, give, count}
use project_memory_hub.Recall.Render.{Overrides, mandatory_overrides, render}

abbrev pub middle : ℕ → ℕ → ℕ
middle lower upper = (lower + upper + 1) / 2

-- The loop of both searches: `rounds` bounds its rounds.
unfoldable pub bisect : (ℕ → Counting Bool) → ℕ → ℕ → ℕ → Counting ℕ
bisect test zero lower upper = give lower
bisect test (suc rounds) lower upper = elim (ltb lower upper) [
  | true ↦ do
    fit ← test (middle lower upper)
    elim fit [
      | true ↦ bisect test rounds (middle lower upper) upper
      | false ↦ bisect test rounds lower (middle lower upper - 1)
    ]
  | false ↦ give lower
]

-- `max(len(candidate.content) for candidate in retained)`.
abbrev pub longest : List Candidate → ℕ
longest [] = 0
longest (candidate ∷ rest) = max (length candidate.content) (longest rest)

-- What is kept of the mandatory candidates, and their shortened contents.
abbrev pub Fitted : Type 0
Fitted = List Candidate × Overrides

module _ (selected : TokenCounter) (max_tokens : ℕ) where
  -- `counter.count(_render(candidates, overrides)) <= max_tokens`.
  unfoldable pub fits : List Candidate → Overrides → Counting Bool
  unfolding count render
  fits candidates overrides = do
    tokens ← count selected (render candidates overrides)
    give (leb tokens max_tokens)

-- The same of the candidates with contents of at most so many characters.
unfoldable pub limit_fits :
    (List Candidate → Overrides → Counting Bool) → List Candidate → ℕ → Counting Bool
unfolding mandatory_overrides
limit_fits test retained character_limit =
    test retained (mandatory_overrides retained character_limit)

-- A round of `_enforce_mandatory_budget` halves the limit or drops a candidate.
abbrev pub enforcement_rounds : List Candidate → ℕ → ℕ
enforcement_rounds retained character_limit = suc (length retained + character_limit)

-- The rest is the same for every such test.
module _ (test : List Candidate → ℕ → Counting Bool) where
  unfoldable pub largest_fitting_prefix : List Candidate → ℕ → Counting ℕ
  unfolding bisect
  largest_fitting_prefix mandatory character_limit =
      bisect (λ kept. test (take kept mandatory) character_limit) (length mandatory) 0
        (length mandatory)

  unfoldable pub largest_fitting_character_limit : List Candidate → ℕ → Counting ℕ
  unfolding bisect
  largest_fitting_character_limit retained maximum = bisect (test retained) maximum 1 maximum

  -- The loop of `_enforce_mandatory_budget`: `rounds` bounds its rounds.
  unfoldable pub enforce_mandatory_budget : ℕ → List Candidate → ℕ → Counting Fitted
  unfolding mandatory_overrides
  enforce_mandatory_budget zero retained character_limit = give ([], [])
  enforce_mandatory_budget (suc rounds) [] character_limit = give ([], [])
  enforce_mandatory_budget (suc rounds) (candidate ∷ rest) character_limit = do
    fit ← test (candidate ∷ rest) character_limit
    elim fit [
      | true ↦ give (candidate ∷ rest, mandatory_overrides (candidate ∷ rest) character_limit)
      | false ↦ elim (ltb 1 character_limit) [
        | true ↦ enforce_mandatory_budget rounds (candidate ∷ rest) (max 1 (character_limit / 2))
        | false ↦
            enforce_mandatory_budget rounds (take (length rest) (candidate ∷ rest)) character_limit
      ]
    ]

  -- The candidates where they fit, and `_enforce_mandatory_budget` elsewhere.
  unfoldable pub check_retained : List Candidate → ℕ → Counting Fitted
  unfolding enforce_mandatory_budget mandatory_overrides
  check_retained retained character_limit = do
    fit ← test retained character_limit
    elim fit [
      | true ↦ give (retained, mandatory_overrides retained character_limit)
      | false ↦
          enforce_mandatory_budget (enforcement_rounds retained character_limit) retained
            character_limit
    ]

  -- The rest of `_fit_mandatory` for the candidates that are kept.
  unfoldable pub fit_retained : List Candidate → Counting Fitted
  unfolding largest_fitting_character_limit check_retained
  fit_retained [] = give ([], [])
  fit_retained (candidate ∷ rest) = do
    character_limit ←
        largest_fitting_character_limit (candidate ∷ rest) (min 160 (longest (candidate ∷ rest)))
    check_retained (candidate ∷ rest) character_limit

  unfoldable pub fit_mandatory : List Candidate → Counting Fitted
  unfolding largest_fitting_prefix fit_retained
  fit_mandatory mandatory = do
    keep_count ← largest_fitting_prefix mandatory 1
    fit_retained (take keep_count mandatory)
