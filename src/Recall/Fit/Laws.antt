-- ===== src/Recall/Fit/Laws.antt =====
-- What is kept of the mandatory candidates is among them.
use project_memory_hub.Common.{
  ℕ, zero, suc, ◌/◌, ◌≤◌, max, ◌≡◌, refl, inl, inr, Bool, true, false, List, [], ◌∷◌, ltb, length,
  take, In, arith, Bool-cases, In-take, length-take,
}
use project_memory_hub.Recall.{Candidate}
use project_memory_hub.Recall.Counter.{SafeTokenCounter, Counting}
use project_memory_hub.Recall.Render.{mandatory_overrides}
use project_memory_hub.Recall.Fit.Rounds.{enforce-fit, enforce-half, enforce-drop}
use project_memory_hub.Recall.Fit.{
  enforce_mandatory_budget, enforcement_rounds, check_retained, fit_retained, fit_mandatory,
  largest_fitting_prefix,
}

-- No more than there were, and none that was not there.
abbrev pub IsPartOf : List Candidate → List Candidate → Type 0
IsPartOf kept all_rows =
    (length kept ≤ length all_rows) × ((a : Candidate) → In a kept → In a all_rows)

pub IsPartOf-refl : (rows : List Candidate) → IsPartOf rows rows
IsPartOf-refl rows = (omega arith, λ a m. m)

pub IsPartOf-trans : (a b c : List Candidate) → IsPartOf a b → IsPartOf b c → IsPartOf a c
IsPartOf-trans a b c f g = (omega (arith, f.0, g.0), λ x m. g.1 x (f.1 x m))

pub nil-IsPartOf : (rows : List Candidate) → IsPartOf [] rows
nil-IsPartOf rows = (omega arith, λ a m. absurd m)

pub take-IsPartOf : (n : ℕ) (rows : List Candidate) → IsPartOf (take n rows) rows
take-IsPartOf n rows = (omega (arith, length-take n rows), In-take n rows)

module _ (test : List Candidate → ℕ → Counting Bool) where
  pub enforce_mandatory_budget-IsPartOf :
      (rounds : ℕ) (retained : List Candidate) (limit : ℕ) (s : SafeTokenCounter)
      → IsPartOf (enforce_mandatory_budget test rounds retained limit s).0.0 retained
  unfolding enforce_mandatory_budget
  enforce_mandatory_budget-IsPartOf zero retained limit s = nil-IsPartOf retained
  enforce_mandatory_budget-IsPartOf (suc rounds) [] limit s = nil-IsPartOf []
  enforce_mandatory_budget-IsPartOf (suc rounds) (candidate ∷ rest) limit s =
      let rows = candidate ∷ rest in
      let checked = test rows limit s in
      elim (Bool-cases checked.0) [
        | inl t ↦ rw (enforce-fit test rounds candidate rest limit s t) (IsPartOf-refl rows)
        | inr f ↦ elim (Bool-cases (ltb 1 limit)) [
          | inl more ↦
              rw (enforce-half test rounds candidate rest limit s f more)
                (enforce_mandatory_budget-IsPartOf rounds rows (max 1 (limit / 2)) checked.1)
          | inr least ↦ rw (enforce-drop test rounds candidate rest limit s f least) (
              IsPartOf-trans _ (take (length rest) rows) rows
                (enforce_mandatory_budget-IsPartOf rounds (take (length rest) rows) limit checked.1)
                (take-IsPartOf (length rest) rows))
        ]
      ]

  pub check_retained-fit :
      (retained : List Candidate) (limit : ℕ) (s : SafeTokenCounter)
      → (test retained limit s).0 ≡ true
      → check_retained test retained limit s
        ≡ ((retained, mandatory_overrides retained limit), (test retained limit s).1)
  unfolding check_retained
  check_retained-fit retained limit s h = rw (h, check_retained) refl

  pub check_retained-over :
      (retained : List Candidate) (limit : ℕ) (s : SafeTokenCounter)
      → (test retained limit s).0 ≡ false
      → check_retained test retained limit s
        ≡ enforce_mandatory_budget test
            (enforcement_rounds retained limit)
            retained
            limit
            (test retained limit s).1
  unfolding check_retained
  check_retained-over retained limit s h = rw (h, check_retained) refl

  check_retained-IsPartOf :
      (retained : List Candidate) (limit : ℕ) (s : SafeTokenCounter)
      → IsPartOf (check_retained test retained limit s).0.0 retained
  unfolding check_retained
  check_retained-IsPartOf retained limit s = elim (Bool-cases (test retained limit s).0) [
    | inl t ↦ rw (check_retained-fit retained limit s t) (IsPartOf-refl retained)
    | inr f ↦ rw (check_retained-over retained limit s f) (
        enforce_mandatory_budget-IsPartOf (enforcement_rounds retained limit) retained limit
          (test retained limit s).1)
  ]

  fit_retained-IsPartOf :
      (retained : List Candidate) (s : SafeTokenCounter)
      → IsPartOf (fit_retained test retained s).0.0 retained
  unfolding fit_retained
  fit_retained-IsPartOf [] s = nil-IsPartOf []
  fit_retained-IsPartOf (candidate ∷ rest) s = check_retained-IsPartOf (candidate ∷ rest) _ _

  pub fit_mandatory-IsPartOf :
      (mandatory : List Candidate) (s : SafeTokenCounter)
      → IsPartOf (fit_mandatory test mandatory s).0.0 mandatory
  unfolding fit_mandatory
  fit_mandatory-IsPartOf mandatory s =
      let kept = largest_fitting_prefix test mandatory 1 s in
      IsPartOf-trans _ (take kept.0 mandatory) mandatory
        (fit_retained-IsPartOf (take kept.0 mandatory) kept.1) (take-IsPartOf kept.0 mandatory)
