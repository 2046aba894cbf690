-- ===== src/Nesting.antt =====
-- security/json_limits.py: the limit on the nesting of JSON, in a document and in a value.
pub mod Laws
use project_memory_hub.Common.{
  ℕ, zero, suc, ◌+◌, ◌-◌, ◌≡◌, refl, Bool, true, false, ◌||◌, List, [], ◌∷◌, ◌==◌, ltb,
  if◌then◌else◌,
}
use project_memory_hub.Common.Exec.{Result, ok, err, json_nesting}
use project_memory_hub.Text.{Text, codes}

abbrev pub max_json_nesting_depth : ℕ
max_json_nesting_depth = 128

-- A decoded value: an object or an array by its members, or anything else.
mutual
  pub data Value : Type 0 where
    leaf : Value
    node : Values → Value

  pub data Values : Type 0 where
    done : Values
    next : Value → Values → Values

-- The loop of `_validate_json_nesting`: an iterator is the members that are left, the last of the
-- stack stands first, and the rounds are bounded.
unfoldable pub walk : ℕ → ℕ → List (Values × ℕ) → Result (Unit {0})
walk zero max_depth stack = ok tt
walk (suc rounds) max_depth [] = ok tt
walk (suc rounds) max_depth ((done, depth) ∷ stack) = walk rounds max_depth stack
walk (suc rounds) max_depth ((next leaf rest, depth) ∷ stack) =
    walk rounds max_depth ((rest, depth) ∷ stack)
walk (suc rounds) max_depth ((next (node children) rest, depth) ∷ stack) =
    elim (ltb max_depth (depth + 1)) [
      | true ↦ err json_nesting
      | false ↦ walk rounds max_depth ((children, depth + 1) ∷ (rest, depth) ∷ stack)
    ]

-- The rounds that a stack needs: one for each member, and one for the end of each iterator.
unfoldable mutual
  pub value_rounds : Value → ℕ
  value_rounds leaf = 1
  value_rounds (node children) = 1 + values_rounds children

  pub values_rounds : Values → ℕ
  values_rounds done = 1
  values_rounds (next value rest) = value_rounds value + values_rounds rest

unfoldable pub validate_json_nesting : ℕ → Value → Result (Unit {0})
validate_json_nesting max_depth value =
    walk (values_rounds (next value done)) max_depth ((next value done, 0) ∷ [])

-- `_validate_document_nesting`: the depth, and whether the scan is in a string and behind a
-- backslash.
unfoldable pub scan_document : ℕ → ℕ → Bool → Bool → Text → Result (Unit {0})
scan_document max_depth depth in_string escaped [] = ok tt
scan_document max_depth depth true true (c ∷ t) = scan_document max_depth depth true false t
scan_document max_depth depth true false (c ∷ t) =
    if c == 0x5c
    then scan_document max_depth depth true true t
    else if c == 0x22
    then scan_document max_depth depth false false t
    else scan_document max_depth depth true false t
scan_document max_depth depth false escaped (c ∷ t) =
    if c == 0x22
    then scan_document max_depth depth true escaped t
    else if c == 0x5b || c == 0x7b
    then (if ltb max_depth (depth + 1)
        then err json_nesting
        else scan_document max_depth (depth + 1) false escaped t)
    else if c == 0x5d || c == 0x7d
    then scan_document max_depth (depth - 1) false escaped t
    else scan_document max_depth depth false escaped t

unfoldable pub validate_document_nesting : ℕ → Text → Result (Unit {0})
validate_document_nesting max_depth document = scan_document max_depth 0 false false document

document_example :
    (validate_document_nesting 1 (codes "[\"]]\\\"[[\",1]") ≡ ok tt)
    × (validate_document_nesting 1 (codes "[[1]]") ≡ err json_nesting)
unfolding validate_document_nesting scan_document
document_example = (refl, refl)
