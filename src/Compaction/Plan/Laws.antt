-- ===== src/Compaction/Plan/Laws.antt =====
-- The plan that `_build_bounded_plan` of services/compaction.py returns.
use project_memory_hub.Common.{
  ℕ, ◌≤◌, ◌≡◌, false, not, List, [], ◌∷◌, ◌++◌, length, take, select, arith, subst, leb,
}
use project_memory_hub.Common.Order.{nat_order}
use project_memory_hub.Common.Order.Sort.{sort}
use project_memory_hub.Common.Exec.{
  ok, guard, then_pure-eq-ok, value_error, runtime_error, bounds_error,
}
use project_memory_hub.Text.{Text, is_empty, strip}
use project_memory_hub.Text.Utf8.{strict_utf8_size}
use project_memory_hub.Domain.{BehaviorMemoryRecord}
use project_memory_hub.Memories.Sources.{is_mandatory, ids, is_nil}
use project_memory_hub.Compaction.Plan.Search.{build_bounded_plan-Closed, Closed}
use project_memory_hub.Compaction.Plan.Build.{
  Redaction, CompactionPlan, build_plan, bounded_plan, check_document, group_rows, section_lines,
  section_order, document, max_retrospective_chars, max_retrospective_bytes,
}

-- A text that a retrospective's row may hold.
abbrev pub FitsRow : Text → Type 0
FitsRow t =
    (1 ≤ length t)
    × (length t ≤ 262144)
    × ((size : ℕ) × (strict_utf8_size t ≡ ok size) × (size ≤ 1048576))

length-nonempty : (t : Text) → is_empty t ≡ false → 1 ≤ length t
length-nonempty [] h = absurd (ground arith)
length-nonempty (c ∷ t) h = omega arith

module _ (sha256 casefold failure_signature : Text → Text) (redact : Text → Redaction) where
  check_document-FitsRow :
      (result : Redaction) (final : Text)
      → check_document sha256 casefold failure_signature redact result ≡ ok final
      → FitsRow final
  unfolding check_document
  check_document-FitsRow result final h =
      let (_, _, h1) = then_pure-eq-ok (guard (not result.input_truncated) bounds_error) _ _ h in
      let (_, filled, h2) =
        then_pure-eq-ok (guard (not (is_empty (strip result.text))) bounds_error) _ _ h1 in
      let (_, short, h3) =
        then_pure-eq-ok
          (guard (leb (length (strip result.text)) max_retrospective_chars) bounds_error) _ _ h2 in
      let (size, encoded, h4) = then_pure-eq-ok (strict_utf8_size (strip result.text)) _ _ h3 in
      let (_, small, h5) =
        then_pure-eq-ok (guard (leb size max_retrospective_bytes) bounds_error) _ _ h4 in
      let same : strip result.text ≡ final = ground arith in
      (
        ground (arith, length-nonempty (strip result.text)),
        ground arith,
        (size, ground arith, ground arith),
      )

  build_plan-Plan :
      (rows : List BehaviorMemoryRecord) (plan : CompactionPlan)
      → build_plan sha256 casefold failure_signature redact rows ≡ ok plan
      → FitsRow plan.content × (plan.source_ids ≡ sort nat_order (λ x. x) (ids rows))
  unfolding build_plan
  build_plan-Plan rows plan h =
      let (_, _, h1) = then_pure-eq-ok (guard (not (is_nil rows)) value_error) _ _ h in
      let (groups, _, h2) =
        then_pure-eq-ok (group_rows sha256 casefold failure_signature redact rows []) _ _ h1 in
      let (lines, _, h3) =
        then_pure-eq-ok
          (section_lines sha256 casefold failure_signature redact section_order groups) _ _ h2 in
      let (_, _, h4) = then_pure-eq-ok (guard (not (is_nil lines)) runtime_error) _ _ h3 in
      let result : Redaction =
        redact (document sha256 casefold failure_signature redact rows lines) in
      let (final, checked, h5) =
        then_pure-eq-ok (check_document sha256 casefold failure_signature redact result) _ _ h4 in
      let is_final : final ≡ plan.content = ground arith in
      (subst FitsRow is_final (check_document-FitsRow result final checked), ground arith)

  abbrev pub mandatory_rows : List BehaviorMemoryRecord → List BehaviorMemoryRecord
  mandatory_rows rows = select (λ row. is_mandatory row.memory_kind) rows

  abbrev pub optional_rows : List BehaviorMemoryRecord → List BehaviorMemoryRecord
  optional_rows rows = select (λ row. not (is_mandatory row.memory_kind)) rows

  -- A bounded plan's content fits a row of the table, its sources are all the mandatory rows and
  -- the first k optional ones in the order of their identifiers, and k is the number of optional
  -- rows or the construction fails on its bounds with one more of them.
  pub bounded_plan-Chooses :
      (rows : List BehaviorMemoryRecord) (plan : CompactionPlan)
      → bounded_plan sha256 casefold failure_signature redact rows ≡ ok plan
      → FitsRow plan.content
        × ((k : ℕ) × (k ≤ length (optional_rows rows))
            × (plan.source_ids
                ≡ sort nat_order
                    (λ x. x)
                    (ids (mandatory_rows rows ++ take k (optional_rows rows))))
            × Closed
                (build_plan sha256 casefold failure_signature redact)
                (mandatory_rows rows)
                (optional_rows rows)
                k)
  unfolding bounded_plan
  bounded_plan-Chooses rows plan h =
      let (k, small, built, closed) =
        build_bounded_plan-Closed (build_plan sha256 casefold failure_signature redact)
          (mandatory_rows rows) (optional_rows rows) plan h in
      let (fits, sources) =
        build_plan-Plan (mandatory_rows rows ++ take k (optional_rows rows)) plan built in
      (fits, (k, small, sources, closed))
