-- ===== src/Recall/Select/Laws.antt =====
-- The loop that cuts a brief down ends within the budget, and only drops rows.
use project_memory_hub.Common.{
  ℕ, zero, suc, ◌≤◌, ◌<◌, ◌≡◌, refl, inl, inr, Bool, true, false, not, List, [], ◌∷◌, ltb, select,
  length, In, arith, Bool-cases, In-select, length-select-le, Option, none, some, subst, ap, ◌∙◌,
}
use project_memory_hub.Common.Order.{dual}
use project_memory_hub.Common.Order.Sort.{least-In}
use project_memory_hub.Tokens.{TokenCounter, conservative_count}
use project_memory_hub.Recall.{Candidate}
use project_memory_hub.Recall.Rank.{ranking_order, ranking_key}
use project_memory_hub.Recall.Counter.{SafeTokenCounter, count, check_baseline}
use project_memory_hub.Recall.Render.{Overrides, render}
use project_memory_hub.Recall.Select.{
  is_empty_list, lowest_value, without, remove_from, remove_lowest_value, Shown, show, shrink,
}

-- A test that an element fails leaves fewer.
length-select-lt :
    {A : Type 0} (p : A → Bool) (xs : List A) (a : A)
    → In a xs
    → p a ≡ false
    → length (select p xs) < length xs
length-select-lt p [] a m h = absurd m
length-select-lt p (x ∷ xs) a (inl e) h =
    let out : p x ≡ false = subst (λ b. p b ≡ false) e h in ground (arith, length-select-le p xs)
length-select-lt p (x ∷ xs) a (inr m) h = ground (arith, length-select-lt p xs a m h)

without-lt :
    (lowest : Candidate) (candidates : List Candidate)
    → In lowest candidates
    → length (without lowest candidates) < length candidates
without-lt lowest candidates m = length-select-lt _ candidates lowest m (ground arith)

remove_from-lt :
    (removable candidates : List Candidate)
    → ((a : Candidate) → In a removable → In a candidates)
    → is_empty_list removable ≡ false
    → length (remove_from removable candidates) < length candidates
remove_from-lt [] candidates inside h = cc
remove_from-lt (candidate ∷ rest) candidates inside h =
    without-lt (lowest_value candidate rest) candidates
      (inside _ (least-In (dual ranking_order) ranking_key candidate rest))

-- A removal drops at least one candidate.
pub remove_lowest_value-lt :
    (candidates : List Candidate)
    → is_empty_list candidates ≡ false
    → length (remove_lowest_value candidates) < length candidates
unfolding remove_lowest_value
remove_lowest_value-lt candidates h =
    let optional = select (λ c. not c.mandatory) candidates in
    elim (Bool-cases (is_empty_list optional)) [
      | inl t ↦ rw t (remove_from-lt candidates candidates (λ a m. m) h)
      | inr f ↦ rw f (
          remove_from-lt optional candidates
            (λ a m. (In-select (λ c. not c.mandatory) candidates a m).0) f)
    ]

In-remove_from :
    (removable candidates : List Candidate) (a : Candidate)
    → In a (remove_from removable candidates)
    → In a candidates
In-remove_from [] candidates a m = m
In-remove_from (candidate ∷ rest) candidates a m = (In-select _ candidates a m).0

pub In-remove_lowest_value :
    (candidates : List Candidate) (a : Candidate)
    → In a (remove_lowest_value candidates)
    → In a candidates
unfolding remove_lowest_value
In-remove_lowest_value candidates a m = In-remove_from _ candidates a m

empty_list-nil : {A : Type 0} (xs : List A) → is_empty_list xs ≡ true → xs ≡ []
empty_list-nil [] h = refl
empty_list-nil (x ∷ xs) h = cc

conservative-empty : conservative_count [] ≡ 0
unfolding conservative_count
conservative-empty = refl

module _ (selected : TokenCounter) where
  check_baseline-empty :
      (answer : Option ℕ) (s : SafeTokenCounter) → (check_baseline selected [] answer s).0 ≡ 0
  check_baseline-empty none s = conservative-empty
  check_baseline-empty (some zero) s = refl
  check_baseline-empty (some (suc n)) s = conservative-empty

  -- The empty text counts nothing, whatever the selected counter says.
  pub count-empty : (s : SafeTokenCounter) → (count selected [] s).0 ≡ 0
  unfolding count
  count-empty s = elim (Bool-cases s.using_fallback) [
    | inl t ↦ rw t conservative-empty
    | inr f ↦ rw f (check_baseline-empty (selected s.calls []) _)
  ]

  module _ (overrides : Overrides) where
    render-empty : render [] overrides ≡ []
    unfolding render
    render-empty = refl

    -- The text is that of the rows, and its count is the counter's answer for this text.
    abbrev pub IsMeasured : Shown → Type 0
    IsMeasured shown =
        (shown.rendered ≡ render shown.rows overrides)
        × ((s : SafeTokenCounter) × (shown.estimated_tokens ≡ (count selected shown.rendered s).0))

    -- Nothing shown counts nothing.
    nothing-IsMeasured :
        (shown : Shown)
        → IsMeasured shown
        → is_empty_list shown.rows ≡ true
        → shown.estimated_tokens ≡ 0
    nothing-IsMeasured shown (text, (s, counted)) h =
        let blank : shown.rendered ≡ [] =
          text ∙ ap (λ rows. render rows overrides) (empty_list-nil shown.rows h) ∙ render-empty in
        counted ∙ ap (λ t. (count selected t s).0) blank ∙ count-empty s

    pub show-IsMeasured :
        (rows : List Candidate) (s : SafeTokenCounter)
        → IsMeasured (show selected overrides rows s).0
    unfolding show
    show-IsMeasured rows s = (refl, (s, refl))

ltb-false : (a b : ℕ) → ltb a b ≡ false → b ≤ a
ltb-false a b h = ground arith

empty_list : {A : Type 0} (xs : List A) → length xs ≤ 0 → is_empty_list xs ≡ true
empty_list [] h = refl
empty_list (x ∷ xs) h = absurd (omega arith)

module _ (selected : TokenCounter) (budget : ℕ) (overrides : Overrides) where
  -- What a round does: it stops where nothing is left, or where the count is within the budget.
  shrink-empty :
      (rounds : ℕ) (shown : Shown) (s : SafeTokenCounter)
      → is_empty_list shown.rows ≡ true
      → shrink selected budget overrides (suc rounds) shown s ≡ (shown, s)
  unfolding shrink
  shrink-empty rounds shown s h = rw (h, shrink) refl

  shrink-fits :
      (rounds : ℕ) (shown : Shown) (s : SafeTokenCounter)
      → is_empty_list shown.rows ≡ false
      → ltb budget shown.estimated_tokens ≡ false
      → shrink selected budget overrides (suc rounds) shown s ≡ (shown, s)
  unfolding shrink
  shrink-fits rounds shown s h k = rw (h, k, shrink) refl

  smaller : Shown → SafeTokenCounter → Shown × SafeTokenCounter
  smaller shown s = show selected overrides (remove_lowest_value shown.rows) s

  shrink-over :
      (rounds : ℕ) (shown : Shown) (s : SafeTokenCounter)
      → is_empty_list shown.rows ≡ false
      → ltb budget shown.estimated_tokens ≡ true
      → shrink selected budget overrides (suc rounds) shown s
        ≡ shrink selected budget overrides rounds (smaller shown s).0 (smaller shown s).1
  unfolding shrink smaller
  shrink-over rounds shown s h k = rw (h, k, shrink) refl

  smaller-rows :
      (shown : Shown) (s : SafeTokenCounter)
      → (smaller shown s).0.rows ≡ remove_lowest_value shown.rows
  unfolding smaller show
  smaller-rows shown s = refl

  smaller-IsMeasured :
      (shown : Shown) (s : SafeTokenCounter) → IsMeasured selected overrides (smaller shown s).0
  unfolding smaller
  smaller-IsMeasured shown s = show-IsMeasured selected overrides (remove_lowest_value shown.rows) s

  -- A round for each row is enough to get within the budget.
  pub shrink-le :
      (rounds : ℕ) (shown : Shown) (s : SafeTokenCounter)
      → length shown.rows ≤ rounds
      → IsMeasured selected overrides shown
      → (shrink selected budget overrides rounds shown s).0.estimated_tokens ≤ budget
  unfolding shrink
  shrink-le zero shown s enough measured =
      omega
        (arith, nothing-IsMeasured selected overrides shown measured (empty_list shown.rows enough))
  shrink-le (suc rounds) shown s enough measured = elim (Bool-cases (is_empty_list shown.rows)) [
    | inl empty ↦
        rw (shrink-empty rounds shown s empty)
          (omega (arith, nothing-IsMeasured selected overrides shown measured empty))
    | inr left ↦ elim (Bool-cases (ltb budget shown.estimated_tokens)) [
      | inr fits ↦ rw (shrink-fits rounds shown s left fits) (ltb-false budget _ fits)
      | inl over ↦ rw (shrink-over rounds shown s left over) (
          shrink-le rounds (smaller shown s).0 (smaller shown s).1
            (rw (smaller-rows shown s) (omega (arith, remove_lowest_value-lt shown.rows left)))
            (smaller-IsMeasured shown s))
    ]
  ]

  -- What is left is still shown with its count.
  pub shrink-IsMeasured :
      (rounds : ℕ) (shown : Shown) (s : SafeTokenCounter)
      → IsMeasured selected overrides shown
      → IsMeasured selected overrides (shrink selected budget overrides rounds shown s).0
  unfolding shrink
  shrink-IsMeasured zero shown s measured = measured
  shrink-IsMeasured (suc rounds) shown s measured = elim (Bool-cases (is_empty_list shown.rows)) [
    | inl empty ↦ rw (shrink-empty rounds shown s empty) measured
    | inr left ↦ elim (Bool-cases (ltb budget shown.estimated_tokens)) [
      | inr fits ↦ rw (shrink-fits rounds shown s left fits) measured
      | inl over ↦ rw (shrink-over rounds shown s left over) (
          shrink-IsMeasured rounds (smaller shown s).0 (smaller shown s).1
            (smaller-IsMeasured shown s))
    ]
  ]

  -- The rows that are left were there.
  pub shrink-rows :
      (rounds : ℕ) (shown : Shown) (s : SafeTokenCounter)
      → (length (shrink selected budget overrides rounds shown s).0.rows ≤ length shown.rows)
        × ((a : Candidate)
            → In a (shrink selected budget overrides rounds shown s).0.rows
            → In a shown.rows)
  unfolding shrink
  shrink-rows zero shown s = (omega arith, λ a m. m)
  shrink-rows (suc rounds) shown s = elim (Bool-cases (is_empty_list shown.rows)) [
    | inl empty ↦ rw (shrink-empty rounds shown s empty) (omega arith, λ a m. m)
    | inr left ↦ elim (Bool-cases (ltb budget shown.estimated_tokens)) [
      | inr fits ↦ rw (shrink-fits rounds shown s left fits) (omega arith, λ a m. m)
      | inl over ↦ rw (shrink-over rounds shown s left over) (
          let (shorter, inside) = shrink-rows rounds (smaller shown s).0 (smaller shown s).1 in
          let less = remove_lowest_value-lt shown.rows left in
          let e = smaller-rows shown s in
          (
            omega (arith, ap length e),
            λ a m. In-remove_lowest_value shown.rows a (subst (In a) e (inside a m)),
          ))
    ]
  ]
