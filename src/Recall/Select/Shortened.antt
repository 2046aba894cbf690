-- ===== src/Recall/Select/Shortened.antt =====
-- The shortened texts of `_select_candidates` are those of mandatory candidates.
use project_memory_hub.Common.{
  ℕ, zero, suc, ◌/◌, max, ◌≡◌, refl, inl, inr, Bool, List, [], ◌∷◌, ltb, length, take, In,
  Bool-cases,
}
use project_memory_hub.Recall.{Candidate}
use project_memory_hub.Recall.Counter.{SafeTokenCounter, Counting}
use project_memory_hub.Recall.Render.{Overrides, mandatory_overrides}
use project_memory_hub.Recall.Fit.{
  Fitted, enforce_mandatory_budget, enforcement_rounds, check_retained, fit_retained, fit_mandatory,
  largest_fitting_prefix, limit_fits,
}
use project_memory_hub.Recall.Fit.Rounds.{enforce-fit, enforce-half, enforce-drop}
use project_memory_hub.Recall.Fit.Laws.{check_retained-fit, check_retained-over}
use project_memory_hub.Recall.Select.{
  Selection, select_mandatory, add_optional, select_candidates, mandatory_of, optional_of, extended,
}
use project_memory_hub.Recall.Select.Chosen.{
  select_mandatory-fit, select_mandatory-over, select_mandatory-IsPartOf, attempt, add-fit,
  add-over, In-part,
}

-- The texts are those of the kept candidates, at some limit.
abbrev Cuts : Fitted → Type 0
Cuts fitted = (limit : ℕ) × (fitted.1 ≡ mandatory_overrides fitted.0 limit)

nothing-Cuts : Cuts ([], [])
unfolding mandatory_overrides
nothing-Cuts = (1, refl)

module _ (test : List Candidate → ℕ → Counting Bool) where
  enforce_mandatory_budget-Cuts :
      (rounds : ℕ) (retained : List Candidate) (limit : ℕ) (s : SafeTokenCounter)
      → Cuts (enforce_mandatory_budget test rounds retained limit s).0
  unfolding enforce_mandatory_budget
  enforce_mandatory_budget-Cuts zero retained limit s = nothing-Cuts
  enforce_mandatory_budget-Cuts (suc rounds) [] limit s = nothing-Cuts
  enforce_mandatory_budget-Cuts (suc rounds) (candidate ∷ rest) limit s =
      let rows = candidate ∷ rest in
      let checked = test rows limit s in
      elim (Bool-cases checked.0) [
        | inl t ↦ rw (enforce-fit test rounds candidate rest limit s t) (limit, refl)
        | inr f ↦ elim (Bool-cases (ltb 1 limit)) [
          | inl more ↦
              rw (enforce-half test rounds candidate rest limit s f more)
                (enforce_mandatory_budget-Cuts rounds rows (max 1 (limit / 2)) checked.1)
          | inr least ↦
              rw (enforce-drop test rounds candidate rest limit s f least)
                (enforce_mandatory_budget-Cuts rounds (take (length rest) rows) limit checked.1)
        ]
      ]

  check_retained-Cuts :
      (retained : List Candidate) (limit : ℕ) (s : SafeTokenCounter)
      → Cuts (check_retained test retained limit s).0
  check_retained-Cuts retained limit s = elim (Bool-cases (test retained limit s).0) [
    | inl t ↦ rw (check_retained-fit test retained limit s t) (limit, refl)
    | inr f ↦ rw (check_retained-over test retained limit s f) (
        enforce_mandatory_budget-Cuts (enforcement_rounds retained limit) retained limit
          (test retained limit s).1)
  ]

  fit_retained-Cuts :
      (retained : List Candidate) (s : SafeTokenCounter) → Cuts (fit_retained test retained s).0
  unfolding fit_retained
  fit_retained-Cuts [] s = nothing-Cuts
  fit_retained-Cuts (candidate ∷ rest) s = check_retained-Cuts (candidate ∷ rest) _ _

  fit_mandatory-Cuts :
      (mandatory : List Candidate) (s : SafeTokenCounter) → Cuts (fit_mandatory test mandatory s).0
  unfolding fit_mandatory
  fit_mandatory-Cuts mandatory s =
      let kept = largest_fitting_prefix test mandatory 1 s in
      fit_retained-Cuts (take kept.0 mandatory) kept.1

-- The texts are those of some of the rows, at some limit.
abbrev pub Shortens : List Candidate → Overrides → Type 0
Shortens rows overrides =
    (retained : List Candidate) × (limit : ℕ) × (overrides ≡ mandatory_overrides retained limit)
    × ((a : Candidate) → In a retained → In a rows)

module _ (test : List Candidate → Overrides → Counting Bool) where
  whole-Shortens : (rows : List Candidate) → Shortens rows []
  unfolding mandatory_overrides
  whole-Shortens rows = ([], 1, refl, λ a m. absurd m)

  select_mandatory-Shortens :
      (mandatory : List Candidate) (s : SafeTokenCounter)
      → Shortens mandatory (select_mandatory test mandatory s).0.overrides
  select_mandatory-Shortens mandatory s = elim (Bool-cases (test mandatory [] s).0) [
    | inl t ↦ rw (select_mandatory-fit test mandatory s t) (whole-Shortens mandatory)
    | inr f ↦
        let fitted = fit_mandatory (limit_fits test) mandatory (test mandatory [] s).1 in
        let (limit, e) = fit_mandatory-Cuts (limit_fits test) mandatory (test mandatory [] s).1 in
        let kept =
          rw (select_mandatory-over test mandatory s f) at
            (select_mandatory-IsPartOf test mandatory s) in
        rw (select_mandatory-over test mandatory s f) (fitted.0.0, limit, e, kept.1)
  ]

  add_optional-overrides :
      (optional : List Candidate) (chosen : Selection) (s : SafeTokenCounter)
      → (add_optional test optional chosen s).0.overrides ≡ chosen.overrides
  unfolding add_optional
  add_optional-overrides [] chosen s = refl
  add_optional-overrides (candidate ∷ optional) chosen s =
      let next = (attempt test candidate chosen s).1 in
      elim (Bool-cases (attempt test candidate chosen s).0) [
        | inl t ↦
            rw (add-fit test candidate optional chosen s t)
              (add_optional-overrides optional (extended test chosen candidate) next)
        | inr f ↦
            rw (add-over test candidate optional chosen s f)
              (add_optional-overrides optional chosen next)
      ]

  -- The shortened texts of a selection are those of candidates.
  pub select_candidates-Shortens :
      (candidates : List Candidate) (s : SafeTokenCounter)
      → Shortens candidates (select_candidates test candidates s).0.overrides
  unfolding select_candidates
  select_candidates-Shortens candidates s =
      let chosen = select_mandatory test (mandatory_of candidates) s in
      let (retained, limit, e, inside) = select_mandatory-Shortens (mandatory_of candidates) s in
      rw (add_optional-overrides (optional_of candidates) chosen.0 chosen.1)
        (retained, limit, e, λ a m. In-part (λ c. c.mandatory) candidates a (inside a m))
