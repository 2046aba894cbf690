-- ===== src/Compaction/Plan/Search.antt =====
-- `_build_bounded_plan` of services/compaction.py over the construction `build`.
use project_memory_hub.Common.{
  ℕ, zero, suc, ◌+◌, ◌-◌, ◌/◌, ◌≤◌, ◌≡◌, refl, sym, subst, ◌⊎◌, inl, inr, Bool, true, false, Option,
  none, some, List, [], ◌∷◌, ◌++◌, append-nil, ltb, if◌then◌else◌, length, take, arith, Bool-cases,
}
use project_memory_hub.Common.Exec.{Error, bounds_error, Result, ok, err, then_pure, Result-cases}
use project_memory_hub.Memories.Sources.{is_nil}

is_nil-length : {A : Type 0} → (xs : List A) → is_nil xs ≡ true → length xs ≡ 0
is_nil-length [] h = refl
is_nil-length (x ∷ xs) h = ground arith

-- `except CompactionBoundsError`.
abbrev pub is_bounds : Error → Bool
is_bounds bounds_error = true
is_bounds _ = false

module _ {R P : Type 0} (build : List R → Result P) (mandatory optional : List R) where
  -- The plan with the first `k` optional rows.
  abbrev pub build_at : ℕ → Result P
  build_at k = build (mandatory ++ take k optional)

  -- `while lower <= upper`, with a bound on the rounds.
  unfoldable pub search_plan : ℕ → ℕ → ℕ → Option P → Result (Option P)
  search_plan zero lower upper best = ok best
  search_plan (suc rounds) lower upper best = elim (ltb upper lower) [
    | true ↦ ok best
    | false ↦ elim (build_at ((lower + upper) / 2)) [
      | ok candidate ↦ search_plan rounds ((lower + upper) / 2 + 1) upper (some candidate)
      | err e ↦ elim (is_bounds e) [
        | true ↦ search_plan rounds lower ((lower + upper) / 2 - 1) best
        | false ↦ err e
      ]
    ]
  ]

  abbrev pub require_plan : Option P → Result P
  require_plan none = err bounds_error
  require_plan (some plan) = ok plan

  abbrev pub some_plan : Result P → Result (Option P)
  some_plan (ok plan) = ok (some plan)
  some_plan (err e) = err e

  unfoldable pub build_bounded_plan : Result P
  build_bounded_plan =
      if is_nil optional
      then build mandatory
      else then_pure (if is_nil mandatory then ok none else some_plan (build mandatory))
          λ best. then_pure (search_plan (length optional) 1 (length optional) best) require_plan

  abbrev pub start : Result (Option P)
  start = if is_nil mandatory then ok none else some_plan (build mandatory)

  -- `best` is what the code holds once the first `k` optional rows are known to fit.
  abbrev pub Held : Option P → Option P → ℕ → Type 0
  Held begin best zero = best ≡ begin
  Held begin best (suc k) = (plan : P) × (build_at (suc k) ≡ ok plan) × (best ≡ some plan)

  -- No row follows the first `k`, or one more is too large.
  abbrev pub Closed : ℕ → Type 0
  Closed k = (k ≡ length optional) ⊎ (build_at (k + 1) ≡ err bounds_error)

  Held-suc :
      (begin best : Option P) (k m : ℕ) (plan : P)
      → k ≡ suc m
      → build_at k ≡ ok plan
      → best ≡ some plan
      → Held begin best k
  Held-suc begin best k m plan e built is_best =
      subst (Held begin best) (sym e) (plan, subst (λ j. build_at j ≡ ok plan) e built, is_best)

  search_plan-Closed :
      (begin : Option P) (rounds lower upper : ℕ) (best found : Option P)
      → upper ≤ rounds + lower
      → lower ≤ upper
      → upper ≤ length optional
      → Held begin best lower
      → Closed upper
      → search_plan rounds (lower + 1) upper best ≡ ok found
      → (k : ℕ) × (k ≤ length optional) × Held begin found k × Closed k
  unfolding search_plan
  search_plan-Closed begin zero lower upper best found f l n held closed h =
      let same : lower ≡ upper = omega arith in
      let is_best : best ≡ found = ground arith in
      (
        upper,
        n,
        subst (λ k. Held begin found k) same (subst (λ b. Held begin b lower) is_best held),
        closed,
      )
  search_plan-Closed begin (suc rounds) lower upper best found f l n held closed h =
      elim (Bool-cases (ltb upper (lower + 1))) [
        | inl stop ↦
            let same : lower ≡ upper = ground arith in
            let is_best : best ≡ found = ground arith in
            (
              upper,
              n,
              subst (λ k. Held begin found k) same (subst (λ b. Held begin b lower) is_best held),
              closed,
            )
        | inr go ↦
            let middle : ℕ = (lower + 1 + upper) / 2 in
            let low : lower + 1 ≤ (lower + 1 + upper) / 2 = ground arith in
            let high : (lower + 1 + upper) / 2 ≤ upper = ground arith in
            let up : (lower + 1 + upper) / 2 - 1 + 1 ≡ (lower + 1 + upper) / 2 = omega arith in
            elim (Result-cases (build_at ((lower + 1 + upper) / 2))) [
              | inl (p, fits) ↦
                  search_plan-Closed begin rounds middle upper (some p) found (omega arith) high n
                    (Held-suc begin (some p) middle (middle - 1) p (omega arith) fits refl) closed
                    (ground arith)
              | inr (e, fails) ↦ elim (Bool-cases (is_bounds e)) [
                | inl too_large ↦
                    search_plan-Closed begin rounds lower (middle - 1) best found (omega arith)
                      (omega arith) (omega arith) held
                      (inr (subst (λ j. build_at j ≡ err bounds_error) (sym up) (ground arith)))
                      (ground arith)
                | inr other ↦ absurd (ground arith)
              ]
            ]
      ]

  required : (found : Option P) → (plan : P) → require_plan found ≡ ok plan → found ≡ some plan
  required none plan h = absurd (ground arith)
  required (some p) plan h = ground arith

  -- What the search holds is the plan of the rows that it has chosen.
  Held-plan :
      (begin found : Option P) (plan : P) (k : ℕ)
      → start ≡ ok begin
      → Held begin found k
      → found ≡ some plan
      → build_at k ≡ ok plan
  Held-plan begin found plan zero started held is_plan = elim (Bool-cases (is_nil mandatory)) [
    | inl empty ↦ absurd (ground arith)
    | inr full ↦ elim (Result-cases (build mandatory)) [
      | inl (p, built) ↦ ground (arith, append-nil mandatory)
      | inr (e, fails) ↦ absurd (ground arith)
    ]
  ]
  Held-plan begin found plan (suc k) started (p, built, is_found) is_plan = ground arith

  -- A bounded plan is the plan of all mandatory rows and of the first k optional ones,
  -- where k is all of them or one more row is beyond the bounds.
  pub build_bounded_plan-Closed :
      (plan : P)
      → build_bounded_plan ≡ ok plan
      → (k : ℕ) × (k ≤ length optional) × (build_at k ≡ ok plan) × Closed k
  unfolding build_bounded_plan
  build_bounded_plan-Closed plan h = elim (Bool-cases (is_nil optional)) [
    | inl none_left ↦ (
      0,
      omega arith,
      ground (arith, is_nil-length optional, append-nil mandatory),
      inl (ground (arith, is_nil-length optional)),
    )
    | inr some_left ↦ elim (Result-cases start) [
      | inl (begin, started) ↦
          elim (Result-cases (search_plan (length optional) 1 (length optional) begin)) [
            | inl (found, searched) ↦
                let (k, small, held, closed) =
                  search_plan-Closed begin (length optional) 0 (length optional) begin found
                    (omega arith) (omega arith) (omega arith) refl (inl refl) searched in
                (
                  k,
                  small,
                  Held-plan begin found plan k started held (required found plan (ground arith)),
                  closed,
                )
            | inr (e, fails) ↦ absurd (ground arith)
          ]
      | inr (e, fails) ↦ absurd (ground arith)
    ]
  ]
