-- ===== src/Common/Batches.antt =====
-- `for start in range(0, len(xs), size)`: the batches `xs[start : start + size]`.
use project_memory_hub.Common.{
  ℕ, zero, suc, ◌-◌, ◌≤◌, ◌≡◌, refl, ap, ◌∙◌, List, [], ◌∷◌, ◌++◌, length, take, drop, arith,
}

module _ {A : Type 0} where
  -- `rounds` bounds the batches; each takes at least one element, so that the length is enough.
  unfoldable pub batches : ℕ → ℕ → List A → List (List A)
  batches zero size xs = []
  batches (suc rounds) size [] = []
  batches (suc rounds) size (x ∷ xs) = take size (x ∷ xs) ∷ batches rounds size (drop size (x ∷ xs))

  unfoldable pub concat : List (List A) → List A
  concat [] = []
  concat (xs ∷ xss) = xs ++ concat xss

  pub take-append-drop : (n : ℕ) (xs : List A) → take n xs ++ drop n xs ≡ xs
  take-append-drop zero xs = refl
  take-append-drop (suc n) [] = refl
  take-append-drop (suc n) (x ∷ xs) = ap (◌∷◌ x) (take-append-drop n xs)

  pub length-drop : (n : ℕ) (xs : List A) → length (drop n xs) ≡ length xs - n
  length-drop zero xs = omega arith
  length-drop (suc n) [] = omega arith
  length-drop (suc n) (x ∷ xs) = omega (arith, length-drop n xs)

  -- With as many rounds as there are elements the batches cover the list, in order.
  pub concat-batches :
      (rounds size : ℕ) (xs : List A)
      → 1 ≤ size
      → length xs ≤ rounds
      → concat (batches rounds size xs) ≡ xs
  unfolding batches concat
  concat-batches zero size [] h k = refl
  concat-batches zero size (x ∷ xs) h k = absurd (omega arith)
  concat-batches (suc rounds) size [] h k = refl
  concat-batches (suc rounds) size (x ∷ xs) h k =
      ap (◌++◌ (take size (x ∷ xs))) (
        concat-batches rounds size (drop size (x ∷ xs)) h
          (omega (arith, length-drop size (x ∷ xs))))
      ∙ take-append-drop size (x ∷ xs)
