-- ===== src/Nesting/Laws.antt =====
-- The loop of security/json_limits.py over a value decides the depth of the value.
use project_memory_hub.Common.{
  ℕ, zero, suc, ◌+◌, ◌≤◌, ◌≡◌, refl, Bool, true, ◌&&◌, List, [], ◌∷◌, ltb, leb, arith, Bool-cases,
  max, inl, inr,
}
use project_memory_hub.Common.Exec.{guard, json_nesting}
use project_memory_hub.Nesting.{
  Value, leaf, node, Values, done, next, walk, value_rounds, values_rounds, validate_json_nesting,
}

-- How deep a value is nested: a leaf not at all, an object or array one more than its members.
unfoldable mutual
  pub depth_of : Value → ℕ
  depth_of leaf = 0
  depth_of (node children) = 1 + depth_of_all children

  pub depth_of_all : Values → ℕ
  depth_of_all done = 0
  depth_of_all (next value rest) = max (depth_of value) (depth_of_all rest)

abbrev rounds_of : List (Values × ℕ) → ℕ
rounds_of [] = 0
rounds_of ((values, depth) ∷ stack) = values_rounds values + rounds_of stack

-- What is left on the stack stays within the limit.
abbrev fits : ℕ → List (Values × ℕ) → Bool
fits max_depth [] = true
fits max_depth ((values, depth) ∷ stack) =
    leb (depth + depth_of_all values) max_depth && fits max_depth stack

-- Every iterator on the stack was entered within the limit.
abbrev entered : ℕ → List (Values × ℕ) → Bool
entered max_depth [] = true
entered max_depth ((values, depth) ∷ stack) = leb depth max_depth && entered max_depth stack

value_rounds-pos : (value : Value) → 1 ≤ value_rounds value
unfolding value_rounds
value_rounds-pos leaf = omega arith
value_rounds-pos (node children) = omega arith

values_rounds-pos : (values : Values) → 1 ≤ values_rounds values
unfolding values_rounds
values_rounds-pos done = omega arith
values_rounds-pos (next value rest) = omega (arith, value_rounds-pos value)

-- With rounds enough the loop ends, and raises exactly if something on the stack is too deep.
walk-fits :
    (rounds max_depth : ℕ) (stack : List (Values × ℕ))
    → rounds_of stack ≤ rounds
    → entered max_depth stack ≡ true
    → walk rounds max_depth stack ≡ guard (fits max_depth stack) json_nesting
unfolding walk value_rounds values_rounds depth_of depth_of_all
walk-fits zero max_depth [] enough within = refl
walk-fits zero max_depth ((values, depth) ∷ stack) enough within =
    absurd (omega (arith, values_rounds-pos values))
walk-fits (suc rounds) max_depth [] enough within = refl
walk-fits (suc rounds) max_depth ((done, depth) ∷ stack) enough within =
    ground (arith, walk-fits rounds max_depth stack)
walk-fits (suc rounds) max_depth ((next leaf rest, depth) ∷ stack) enough within =
    ground (arith, walk-fits rounds max_depth ((rest, depth) ∷ stack))
walk-fits (suc rounds) max_depth ((next (node children) rest, depth) ∷ stack) enough within =
    elim (Bool-cases (ltb max_depth (depth + 1))) [
      | inl deep ↦ ground arith
      | inr shallow ↦
          ground (arith, walk-fits rounds max_depth ((children, depth + 1) ∷ (rest, depth) ∷ stack))
    ]

-- The loop over a value always ends, and it raises exactly if the value is nested deeper than the
-- limit.
pub validate_json_nesting_iff :
    (max_depth : ℕ) (value : Value)
    → validate_json_nesting max_depth value ≡ guard (leb (depth_of value) max_depth) json_nesting
unfolding validate_json_nesting depth_of_all
validate_json_nesting_iff max_depth value =
    ground
      (arith, walk-fits (values_rounds (next value done)) max_depth ((next value done, 0) ∷ []))
