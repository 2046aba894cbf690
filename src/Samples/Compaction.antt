-- ===== src/Samples/Compaction.antt =====
-- The theorems on compactions, at a small database, and those on texts.
use project_memory_hub.Common.{
  ℕ, ◌≡◌, refl, Option, none, some, Bool, true, false, List, [], ◌∷◌, ◌++◌, ◌≤◌, length, any, take,
  arith,
}
use project_memory_hub.Common.Exec.{Result, ok, err, value_error}
use project_memory_hub.Text.{Text, codes}
use project_memory_hub.Text.Utf8.{
  strict_utf8_size, utf8_width, is_bidi_control, contains_unsafe_text_control, is_refused,
  contains_unsafe_text_control_iff,
}
use project_memory_hub.Domain.{Uuid, Namespace, Instant, BehaviorMemoryRecord, active}
use project_memory_hub.Database.{Db}
use project_memory_hub.Domain.Timestamp.{scale, float_timestamp}
use project_memory_hub.Tokens.{nearest}
use project_memory_hub.Compaction.Counts.{
  CompactionSummary, empty_summary, AddsUp, merge_summaries-total,
}
use project_memory_hub.Compaction.Entry.{cut, truncate_utf8, truncate_utf8_bounds}
use project_memory_hub.Compaction.Entry
use project_memory_hub.Compaction.Plan.Build.{Redaction, CompactionPlan, bounded_plan, build_plan}
use project_memory_hub.Compaction.Plan.Search.{Closed}
use project_memory_hub.Compaction.Plan.Laws.{
  FitsRow, bounded_plan-Chooses, mandatory_rows, optional_rows,
}
use project_memory_hub.Compaction.Inactive.{InactiveProject, mark_inactive}
use project_memory_hub.Compaction.Inactive.Listed.{Lists, inactive_projects-IsInactive}
use project_memory_hub.Compaction.Inactive.Laws.{Marks, project_ids, mark_inactive-Marks}
use project_memory_hub.Compaction.Service.{CompactionResult, compacted, compact}
use project_memory_hub.Compaction.Service.Project.{compact_project, compact_all_inactive}
use project_memory_hub.Compaction.Service.Laws.{Announces, Chilled, compact-Announced}
use project_memory_hub.Compaction.Service.Runs.{compact_all_inactive-Keeps}
use project_memory_hub.Compaction.Service.Marking.{Settled, compact_project-Settled}
use project_memory_hub.Common.Exec.{transaction}
use project_memory_hub.Common.Batches.{batches}
use project_memory_hub.Common.Order.Sort.{sort, insert, first}
use project_memory_hub.Text.{strip, lstrip, rstrip, is_space}
use project_memory_hub.Text.Equal.{text_eq}
use project_memory_hub.Text.Uuid.{join}
use project_memory_hub.Text.Decimal.{digits}
use project_memory_hub.Domain.{same_namespace}
use project_memory_hub.Database.Iso.{iso_rank}
use project_memory_hub.Memories.Prepare.{required_text, is_sha256, hexdigest}
use project_memory_hub.Memories.Insert.{same_key, clash, insert_or_ignore}
use project_memory_hub.Memories.Search.{in_scope}
use project_memory_hub.Memories.Lifecycle.{updated, set_state}
use project_memory_hub.Memories.Namespaces.{
  list_compaction_namespaces_on_connection, scan_namespaces, next_row, first_namespace, next_model,
  next_agent,
}
use project_memory_hub.Memories.Sources.{
  ids, compaction_identifiers, compaction_records, is_unique, read_batches, batch_rows,
  is_oversized, pick,
}
use project_memory_hub.Memories.Sources.Choice.{with_optional, select_compaction_sources}
use project_memory_hub.Memories.Compact.{
  sorted_set, clash_source, provenance, cold_compaction_sources, cold_batches,
}
use project_memory_hub.Memories.Compact.Store.{
  store_compaction, write_compaction, write_source, insert_source, write_retrospective,
  insert_retrospective,
}
use project_memory_hub.Compaction.Counts.{bounded_count, add_count, merge_summaries}
use project_memory_hub.Compaction.Entry.{shrink}
use project_memory_hub.Compaction.Plan.Search.{build_bounded_plan, search_plan}
use project_memory_hub.Compaction.Plan.Build.{
  split, add_to_group, newest, safe_entry, group_key, check_row, group_rows, entries, section_lines,
  check_document,
}
use project_memory_hub.Compaction.Inactive.{
  normalize_zone, replace_zone, is_due, strict_utc_epoch_us, parse_strict_utc, is_unchanged,
  assert_eligible, snapshot_at, next_project, scan_projects, inactive_projects, inactive_project,
}
use project_memory_hub.Compaction.Service.{
  require_project, require_bounded_source_set, preview_result, preview, compact_rows, compact_block,
}
use project_memory_hub.Compaction.Service.Project.{
  compact_namespaces, compact_snapshot, compact_next, compact_each,
}
use project_memory_hub.Compaction.Inactive
use project_memory_hub.Common.Order.{nat_order}
use project_memory_hub.Samples.Data.{digest, folded, gpt, observed, method, choice, row, empty_db}

-- A redactor that finds nothing, a clock that reads one time, and two identifiers.
abbrev plain : Text → Redaction
plain t = record { text = t; input_truncated = false }

abbrev parse : Text → Option Instant
parse t = some 1000

abbrev fresh : Uuid → Namespace → Uuid × Uuid
fresh project_id namespace = (20, 21)

abbrev rows : List BehaviorMemoryRecord
rows = row 11 active method ∷ row 12 active choice ∷ []

abbrev db : Db
db = record empty_db { memories = rows }

-- A day and a second after the project's last change.
abbrev now : Instant
now = 86401000000

abbrev snapshot : InactiveProject
snapshot = record { project_id = 1; stored_timestamp = observed; stored_epoch_us = 1000 }

program : Unit {0}
unfolding transaction batches sort insert first strip lstrip rstrip is_space text_eq join digits
    same_namespace iso_rank required_text is_sha256 hexdigest same_key clash insert_or_ignore
    in_scope updated set_state list_compaction_namespaces_on_connection scan_namespaces next_row
    first_namespace next_model next_agent compaction_identifiers compaction_records is_unique
    read_batches batch_rows is_oversized pick with_optional select_compaction_sources sorted_set
    clash_source provenance cold_compaction_sources cold_batches store_compaction write_compaction
    write_source insert_source write_retrospective insert_retrospective bounded_count add_count
    merge_summaries shrink build_bounded_plan search_plan split add_to_group newest safe_entry
    group_key check_row group_rows entries section_lines check_document normalize_zone replace_zone
    is_due strict_utc_epoch_us parse_strict_utc is_unchanged assert_eligible snapshot_at
    next_project scan_projects inactive_projects inactive_project require_project
    require_bounded_source_set preview_result preview compact_rows compact_block compact_namespaces
    compact_snapshot compact_next compact_each strict_utf8_size cut scale nearest float_timestamp
    utf8_width truncate_utf8 build_plan bounded_plan compact compact_project compact_all_inactive
    mark_inactive contains_unsafe_text_control is_bidi_control
    project_memory_hub.Compaction.Inactive.snapshot
program = tt

abbrev planned : Result CompactionPlan
planned = bounded_plan digest folded digest plain rows

abbrev plan : CompactionPlan
plan = record {
  content =
      codes
        "# Namespace retrospective\nSource rows: 2\nSource references: 1\n\n## Verified methods (items=1, source_references=1)\n- run pytest first\n\n## Decisions (items=1, source_references=1)\n- use pytest";
  source_ids = 11 ∷ 12 ∷ [];
  source_reference_count = 1;
}

plan-run : planned ≡ ok plan
unfolding program
plan-run = refl

abbrev compacted_run : Result CompactionResult × Db
compacted_run =
    compact digest folded digest plain parse (λ row. true) fresh 1 10 1 gpt false (some snapshot)
      now db

bounded_plan-Chooses_example :
    FitsRow plan.content
    × ((k : ℕ) × (k ≤ length (optional_rows digest folded digest plain rows))
        × (plan.source_ids
            ≡ sort nat_order
                (λ x. x)
                (ids (
                  mandatory_rows digest folded digest plain rows
                  ++ take k (optional_rows digest folded digest plain rows))))
        × Closed
            (build_plan digest folded digest plain)
            (mandatory_rows digest folded digest plain rows)
            (optional_rows digest folded digest plain rows)
            k)
bounded_plan-Chooses_example = bounded_plan-Chooses digest folded digest plain rows plan plan-run

abbrev compacted_result : CompactionResult
compacted_result = record {
  project_id = 1;
  namespace = gpt;
  status = compacted;
  source_count = 2;
  source_reference_count = 1;
  cold_count = 2;
  retrospective_count = 1;
  remaining_count = 0;
}

compact-run : compacted_run ≡ (ok compacted_result, compacted_run.1)
unfolding program
compact-run = refl

compact-Announced_example :
    (p : CompactionResult) × (compact digest folded digest plain parse
        (λ row. true)
        fresh
        1
        10
        1
        gpt
        true
        (some snapshot)
        now
        db
      ≡ (ok p, db))
    × Announces digest folded digest plain parse (λ row. true) fresh 1 10 p compacted_result
    × Chilled digest folded digest plain parse
        (λ row. true)
        fresh
        1
        10
        1
        gpt
        db
        compacted_run.1
        compacted_result
compact-Announced_example =
    compact-Announced digest folded digest plain parse (λ row. true) fresh 1 10 1 gpt
      (some snapshot) now db compacted_run.1 compacted_result compact-run

abbrev marked_run : Result Bool × Db
marked_run = mark_inactive parse 1 snapshot now db

mark-run : marked_run ≡ (ok true, marked_run.1)
unfolding program
mark-run = refl

projects_unique : is_unique (project_ids db.projects) ≡ true
unfolding program
projects_unique = refl

mark_inactive-Marks_example : (true ≡ true) × Marks parse 1 snapshot now db marked_run.1
mark_inactive-Marks_example =
    mark_inactive-Marks parse 1 snapshot now db marked_run.1 true projects_unique mark-run

abbrev project_run : Result CompactionSummary × Db
project_run =
    compact_project digest folded digest plain parse (λ row. true) fresh 1 10 1 false none now db

abbrev project_summary : CompactionSummary
project_summary = record {
  project_count = 1;
  namespace_count = 1;
  source_count = 2;
  cold_count = 2;
  retrospective_count = 1;
  remaining_count = 0;
  failure_count = 0;
}

project-run : project_run ≡ (ok project_summary, project_run.1)
unfolding program
project-run = refl

compact_project-Settled_example :
    Settled digest folded digest plain parse
      (λ row. true)
      fresh
      1
      10
      1
      now
      db
      project_run.1
      project_summary
compact_project-Settled_example =
    compact_project-Settled digest folded digest plain parse (λ row. true) fresh 1 10 1 now
      project_summary db project_run.1 projects_unique project-run

listed-run : inactive_projects parse (λ r. true) 1 now 5 db ≡ ok (snapshot ∷ [])
unfolding program
listed-run = refl

-- A microsecond earlier the project is not due.
listed_early : inactive_projects parse (λ r. true) 1 86400000999 5 db ≡ ok []
unfolding program
listed_early = refl

inactive_projects-IsInactive_example : Lists parse (λ r. true) 1 now db.projects 5 (snapshot ∷ [])
inactive_projects-IsInactive_example =
    inactive_projects-IsInactive parse (λ r. true) 1 now 5 db (snapshot ∷ []) listed-run

compact_all_inactive-Keeps_example :
    (compact_all_inactive digest folded digest plain parse (λ row. true) fresh 1 10 now true db).1
    ≡ db
compact_all_inactive-Keeps_example =
    compact_all_inactive-Keeps digest folded digest plain parse (λ row. true) fresh 1 10 now db

-- The second summary has a failure, and counts beyond the limit.
abbrev reports : List CompactionSummary
reports = project_summary ∷ record empty_summary { failure_count = 1; cold_count = 2147483647 } ∷ []

merge_summaries-total_example :
    AddsUp (λ s. s.project_count) empty_summary reports
    × AddsUp (λ s. s.namespace_count) empty_summary reports
    × AddsUp (λ s. s.source_count) empty_summary reports
    × AddsUp (λ s. s.cold_count) empty_summary reports
    × AddsUp (λ s. s.retrospective_count) empty_summary reports
    × AddsUp (λ s. s.remaining_count) empty_summary reports
    × AddsUp (λ s. s.failure_count) empty_summary reports
merge_summaries-total_example = merge_summaries-total empty_summary reports (record {
  project_count = omega arith;
  namespace_count = omega arith;
  source_count = omega arith;
  cold_count = omega arith;
  retrospective_count = omega arith;
  remaining_count = omega arith;
  failure_count = omega arith;
})

cut_size : strict_utf8_size (codes "日本語です") ≡ ok 15
unfolding program
cut_size = refl

-- The three characters that may stay are one too many for the bytes.
cut-run : truncate_utf8 3 6 (codes "日本語です") ≡ ok (codes "日…")
unfolding program
cut-run = refl

truncate_utf8_bounds_example :
    (entry : Text) × (truncate_utf8 3 6 (codes "日本語です") ≡ ok entry)
    × project_memory_hub.Compaction.Entry.IsBounded 3 6 entry
truncate_utf8_bounds_example =
    truncate_utf8_bounds 3 6 (codes "日本語です") 15 (omega arith) (omega arith) cut_size

-- A lone surrogate.
surrogate-run : strict_utf8_size (0x61 ∷ 0xd800 ∷ []) ≡ err value_error
unfolding program
surrogate-run = refl

contains_unsafe_text_control_iff_example :
    contains_unsafe_text_control false (0x61 ∷ 0x202e ∷ [])
    ≡ any (is_refused false) (0x61 ∷ 0x202e ∷ [])
contains_unsafe_text_control_iff_example =
    contains_unsafe_text_control_iff false (0x61 ∷ 0x202e ∷ [])
