-- ===== src/Recall/Select.antt =====
-- The candidates of a brief: `_select_candidates` and `_remove_lowest_value` of services/recall.py.
pub mod Laws
pub mod Shortened
pub mod Chosen
use project_memory_hub.Common.{
  ℕ, zero, suc, ◌+◌, ◌≡◌, Bool, true, false, not, List, [], ◌∷◌, ◌++◌, ◌==◌, ltb, if◌then◌else◌,
  select,
}
use project_memory_hub.Common.Order.{dual}
use project_memory_hub.Common.Order.Sort.{sort, least}
use project_memory_hub.Text.{Text}
use project_memory_hub.Tokens.{TokenCounter}
use project_memory_hub.Recall.{Candidate}
use project_memory_hub.Recall.Rank.{ranking_order, ranking_key}
use project_memory_hub.Recall.Counter.{Counting, ◌>>=◌, give, count}
use project_memory_hub.Recall.Render.{Overrides, render}
use project_memory_hub.Recall.Fit.{limit_fits, fit_mandatory}

pub record Selection : Type 0 where
  pub selected : List Candidate
  pub overrides : Overrides
  pub shortened : Bool

abbrev pub is_empty_list : {A : Type 0} → List A → Bool
is_empty_list [] = true
is_empty_list (x ∷ xs) = false

abbrev pub mandatory_of : List Candidate → List Candidate
mandatory_of candidates =
    sort ranking_order ranking_key (select (λ candidate. candidate.mandatory) candidates)

abbrev pub optional_of : List Candidate → List Candidate
optional_of candidates =
    sort ranking_order ranking_key (select (λ candidate. not candidate.mandatory) candidates)

-- `test` is `fits` of the counter and the budget.
module _ (test : List Candidate → Overrides → Counting Bool) where
  -- The mandatory candidates: whole where they fit, cut down elsewhere.
  unfoldable pub select_mandatory : List Candidate → Counting Selection
  unfolding limit_fits fit_mandatory
  select_mandatory mandatory = do
    fit ← test mandatory []
    elim fit [
      | true ↦ give (record { selected = mandatory; overrides = []; shortened = false })
      | false ↦ do
        fitted ← fit_mandatory (limit_fits test) mandatory
        give (record {
          selected = fitted.0;
          overrides = fitted.1;
          shortened = not (is_empty_list fitted.0);
        })
    ]

  abbrev pub extended : Selection → Candidate → Selection
  extended chosen candidate = record chosen { selected = chosen.selected ++ candidate ∷ [] }

  -- The optional candidates, each where it still fits.
  unfoldable pub add_optional : List Candidate → Selection → Counting Selection
  add_optional [] chosen = give chosen
  add_optional (candidate ∷ optional) chosen = do
    fit ← test (chosen.selected ++ candidate ∷ []) chosen.overrides
    elim fit [
      | true ↦ add_optional optional (extended chosen candidate)
      | false ↦ add_optional optional chosen
    ]

  unfoldable pub select_candidates : List Candidate → Counting Selection
  unfolding select_mandatory add_optional sort
  select_candidates candidates = do
    chosen ← select_mandatory (mandatory_of candidates)
    add_optional (optional_of candidates) chosen

-- `max(removable, key=_ranking_key)` of a list that has an element.
abbrev pub lowest_value : Candidate → List Candidate → Candidate
lowest_value candidate rest = least (dual ranking_order) ranking_key candidate rest

abbrev pub without : Candidate → List Candidate → List Candidate
without lowest candidates =
    select (λ candidate. not (candidate.record_id == lowest.record_id)) candidates

abbrev pub remove_from : List Candidate → List Candidate → List Candidate
remove_from [] candidates = candidates
remove_from (candidate ∷ rest) candidates = without (lowest_value candidate rest) candidates

unfoldable pub remove_lowest_value : List Candidate → List Candidate
unfolding least
remove_lowest_value candidates =
    let optional = select (λ candidate. not candidate.mandatory) candidates in
    remove_from (if is_empty_list optional then candidates else optional) candidates

-- What is shown: the rows, their text and its count.
pub record Shown : Type 0 where
  pub rows : List Candidate
  pub rendered : Text
  pub estimated_tokens : ℕ

module _ (selected : TokenCounter) (overrides : Overrides) where
  -- `rendered = _render(…)`, `estimated_tokens = counter.count(rendered)`.
  unfoldable pub show : List Candidate → Counting Shown
  unfolding render count
  show rows = do
    estimated_tokens ← count selected (render rows overrides)
    give (record {
      rows = rows;
      rendered = render rows overrides;
      estimated_tokens = estimated_tokens;
    })

module _ (selected : TokenCounter) (budget : ℕ) (overrides : Overrides) where
  -- The loop at the end of `recall`: `rounds` bounds its rounds.
  unfoldable pub shrink : ℕ → Shown → Counting Shown
  unfolding show remove_lowest_value
  shrink zero shown = give shown
  shrink (suc rounds) shown = elim (is_empty_list shown.rows) [
    | true ↦ give shown
    | false ↦ elim (ltb budget shown.estimated_tokens) [
      | true ↦ do
        smaller ← show selected overrides (remove_lowest_value shown.rows)
        shrink rounds smaller
      | false ↦ give shown
    ]
  ]
