-- ===== src/Samples/Nesting.antt =====
-- The theorem on nested values, at an array that holds an array.
use project_memory_hub.Common.{◌≡◌, leb}
use project_memory_hub.Common.Exec.{guard, json_nesting}
use project_memory_hub.Nesting.{Value, leaf, node, done, next, validate_json_nesting}
use project_memory_hub.Nesting.Laws.{depth_of, validate_json_nesting_iff}

abbrev nested : Value
nested = node (next leaf (next (node done) done))

validate_json_nesting_iff_example :
    validate_json_nesting 1 nested ≡ guard (leb (depth_of nested) 1) json_nesting
validate_json_nesting_iff_example = validate_json_nesting_iff 1 nested
