-- ===== src/Recall/Fit/Rounds.antt =====
-- The loops of `_fit_mandatory` end by their own tests: more rounds change nothing.
use project_memory_hub.Common.{
  ℕ, zero, suc, ◌+◌, ◌-◌, ◌/◌, ◌≤◌, ◌<◌, max, ◌≡◌, refl, inl, inr, Bool, true, false, List, [], ◌∷◌,
  ltb, length, take, arith, Bool-cases, length-take,
}
use project_memory_hub.Recall.{Candidate}
use project_memory_hub.Recall.Counter.{SafeTokenCounter, Counting}
use project_memory_hub.Recall.Render.{mandatory_overrides}
use project_memory_hub.Recall.Fit.{middle, bisect, enforce_mandatory_budget}

module _ (test : ℕ → Counting Bool) where
  pub bisect-stop :
      (rounds lower upper : ℕ) (s : SafeTokenCounter)
      → ltb lower upper ≡ false
      → bisect test rounds lower upper s ≡ (lower, s)
  unfolding bisect
  bisect-stop zero lower upper s h = refl
  bisect-stop (suc rounds) lower upper s h = rw (h, bisect) refl

  pub bisect-up :
      (rounds lower upper : ℕ) (s : SafeTokenCounter)
      → ltb lower upper ≡ true
      → (test (middle lower upper) s).0 ≡ true
      → bisect test (suc rounds) lower upper s
        ≡ bisect test rounds (middle lower upper) upper (test (middle lower upper) s).1
  unfolding bisect
  bisect-up rounds lower upper s h k = rw (h, k, bisect) refl

  pub bisect-down :
      (rounds lower upper : ℕ) (s : SafeTokenCounter)
      → ltb lower upper ≡ true
      → (test (middle lower upper) s).0 ≡ false
      → bisect test (suc rounds) lower upper s
        ≡ bisect test rounds lower (middle lower upper - 1) (test (middle lower upper) s).1
  unfolding bisect
  bisect-down rounds lower upper s h k = rw (h, k, bisect) refl

  -- A round for each number of the interval is enough, and more change nothing.
  pub bisect_rounds :
      (rounds more lower upper : ℕ) (s : SafeTokenCounter)
      → upper ≤ lower + rounds
      → upper ≤ lower + more
      → bisect test more lower upper s ≡ bisect test rounds lower upper s
  bisect_rounds zero more lower upper s h k =
      let stop : ltb lower upper ≡ false = ground arith in
      rw (bisect-stop more lower upper s stop, bisect-stop zero lower upper s stop) refl
  bisect_rounds (suc rounds) zero lower upper s h k =
      let stop : ltb lower upper ≡ false = ground arith in
      rw (bisect-stop (suc rounds) lower upper s stop, bisect-stop zero lower upper s stop) refl
  bisect_rounds (suc rounds) (suc more) lower upper s h k = elim (Bool-cases (ltb lower upper)) [
    | inr stop ↦
        rw (bisect-stop (suc more) lower upper s stop, bisect-stop (suc rounds) lower upper s stop)
          refl
    | inl go ↦ elim (Bool-cases (test (middle lower upper) s).0) [
      | inl up ↦
          rw (bisect-up more lower upper s go up, bisect-up rounds lower upper s go up)
            (bisect_rounds rounds more (middle lower upper) upper _ (ground arith) (ground arith))
      | inr down ↦
          rw (bisect-down more lower upper s go down, bisect-down rounds lower upper s go down)
            (bisect_rounds rounds more lower (middle lower upper - 1) _ (ground arith)
              (ground arith))
    ]
  ]

module _ (test : List Candidate → ℕ → Counting Bool) where
  -- A round of `_enforce_mandatory_budget`.
  module _ (rounds : ℕ) (candidate : Candidate) (rest : List Candidate) (limit : ℕ)
      (s : SafeTokenCounter) where
    pub enforce-fit :
        (test (candidate ∷ rest) limit s).0 ≡ true
        → enforce_mandatory_budget test (suc rounds) (candidate ∷ rest) limit s ≡ (
          (candidate ∷ rest, mandatory_overrides (candidate ∷ rest) limit),
          (test (candidate ∷ rest) limit s).1,
        )
    unfolding enforce_mandatory_budget
    enforce-fit h = rw (h, enforce_mandatory_budget) refl

    pub enforce-half :
        (test (candidate ∷ rest) limit s).0 ≡ false
        → ltb 1 limit ≡ true
        → enforce_mandatory_budget test (suc rounds) (candidate ∷ rest) limit s
          ≡ enforce_mandatory_budget test rounds
              (candidate ∷ rest)
              (max 1 (limit / 2))
              (test (candidate ∷ rest) limit s).1
    unfolding enforce_mandatory_budget
    enforce-half h k = rw (h, k, enforce_mandatory_budget) refl

    pub enforce-drop :
        (test (candidate ∷ rest) limit s).0 ≡ false
        → ltb 1 limit ≡ false
        → enforce_mandatory_budget test (suc rounds) (candidate ∷ rest) limit s
          ≡ enforce_mandatory_budget test rounds
              (take (length rest) (candidate ∷ rest))
              limit
              (test (candidate ∷ rest) limit s).1
    unfolding enforce_mandatory_budget
    enforce-drop h k = rw (h, k, enforce_mandatory_budget) refl

  -- A round for each candidate and each character of the limit is enough, and more change nothing.
  pub enforce_rounds :
      (rounds more : ℕ) (retained : List Candidate) (limit : ℕ) (s : SafeTokenCounter)
      → length retained + limit < rounds
      → length retained + limit < more
      → enforce_mandatory_budget test more retained limit s
        ≡ enforce_mandatory_budget test rounds retained limit s
  unfolding enforce_mandatory_budget
  enforce_rounds zero more retained limit s h k = absurd (omega arith)
  enforce_rounds (suc rounds) zero retained limit s h k = absurd (omega arith)
  enforce_rounds (suc rounds) (suc more) [] limit s h k = refl
  enforce_rounds (suc rounds) (suc more) (candidate ∷ rest) limit s h k =
      let rows = candidate ∷ rest in
      let checked = test rows limit s in
      elim (Bool-cases checked.0) [
        | inl t ↦
            rw
              (
                enforce-fit more candidate rest limit s t,
                enforce-fit rounds candidate rest limit s t,
              )
              refl
        | inr f ↦ elim (Bool-cases (ltb 1 limit)) [
          | inl half ↦
              rw
                (
                  enforce-half more candidate rest limit s f half,
                  enforce-half rounds candidate rest limit s f half,
                )
                (enforce_rounds rounds more rows (max 1 (limit / 2)) checked.1 (ground arith)
                  (ground arith))
          | inr least ↦
              rw
                (
                  enforce-drop more candidate rest limit s f least,
                  enforce-drop rounds candidate rest limit s f least,
                )
                (enforce_rounds rounds more (take (length rest) rows) limit checked.1
                  (omega (arith, length-take (length rest) rows))
                  (omega (arith, length-take (length rest) rows)))
        ]
      ]
