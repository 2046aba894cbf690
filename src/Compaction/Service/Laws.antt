-- ===== src/Compaction/Service/Laws.antt =====
-- A compaction of one namespace and its preview: `compact` of services/compaction.py.
use project_memory_hub.Common.{
  ℕ, ◌-◌, ◌≡◌, refl, sym, ap, subst, ◌∙◌, inl, inr, Bool, true, false, Option, none, some, List, [],
  length, In, arith, Bool-cases,
}
use project_memory_hub.Common.Exec.{
  Result, Result-cases, ok, err, lift, transaction, settle, bind-ok,
}
use project_memory_hub.Text.{Text}
use project_memory_hub.Domain.{Uuid, Instant, Namespace, cold, BehaviorMemoryRecord}
use project_memory_hub.Database.{Db, ProjectRow}
use project_memory_hub.Memories.Sources.{Selection, is_nil}
use project_memory_hub.Memories.Sources.Choice.{select_compaction_sources}
use project_memory_hub.Memories.Lifecycle.{updated}
use project_memory_hub.Memories.Rows.{change, set_state-In}
use project_memory_hub.Memories.Compact.{in_batch}
use project_memory_hub.Memories.Compact.Cold.{chill-nil}
use project_memory_hub.Memories.Compact.Store.{store_compaction}
use project_memory_hub.Memories.Compact.Laws.{store_compaction-Compacted}
use project_memory_hub.Compaction.Counts.{bounded_count}
use project_memory_hub.Compaction.Plan.Build.{Redaction, CompactionPlan}
use project_memory_hub.Compaction.Inactive.{InactiveProject, assert_eligible}
use project_memory_hub.Compaction.Service.{
  CompactionResult, dry_run, compact, compact_block, compact_rows, preview, preview_result,
  require_project, require_bounded_source_set, assert_expected, plan_of, compact_selection,
  empty_result,
}

settle-ok :
    {A : Type 0} (s : Db) (p : Result A × Db) (a : A) (t : Db)
    → settle s p ≡ (ok a, t)
    → p ≡ (ok a, t)
settle-ok s (ok b, t') a t h = h
settle-ok s (err e, t') a t h = cc

module _ (sha256 casefold failure_signature : Text → Text) (redact : Text → Redaction)
    (parse : Text → Option Instant) (is_record : ProjectRow → Bool)
    (fresh : Uuid → Namespace → Uuid × Uuid) (days source_limit : ℕ) where
  -- The numbers that a preview announces.
  abbrev pub Announces : CompactionResult → CompactionResult → Type 0
  Announces p r =
      (p.source_count ≡ r.source_count)
      × (p.source_reference_count ≡ r.source_reference_count)
      × (p.remaining_count ≡ r.remaining_count)
      × (r.cold_count ≡ r.source_count)

  -- So many active rows of the namespace are named by some identifiers, and became cold.
  abbrev pub Chilled : Uuid → Namespace → Db → Db → CompactionResult → Type 0
  Chilled project_id namespace before after r =
      (ids : List Uuid) × (length ids ≡ r.source_count)
      × (updated (in_batch project_id namespace ids) before.memories ≡ r.cold_count)
      × ((row : BehaviorMemoryRecord)
          → In row before.memories
          → In (change (in_batch project_id namespace ids) cold row) after.memories)

  compact_rows-counts :
      (project_id : Uuid) (namespace : Namespace) (created_at : Instant) (selection : Selection)
      (plan : CompactionPlan) (before after : Db) (r : CompactionResult)
      → compact_rows sha256 casefold failure_signature redact parse is_record fresh days
          source_limit project_id namespace created_at selection plan before
        ≡ (ok r, after)
      → (r.source_count ≡ length plan.source_ids)
        × (r.source_reference_count ≡ plan.source_reference_count)
        × (r.remaining_count ≡ bounded_count (selection.total - length plan.source_ids))
        × (r.cold_count ≡ length plan.source_ids)
        × Chilled project_id namespace before after r
  unfolding compact_rows
  compact_rows-counts project_id namespace created_at selection plan before after r h =
      let ((inserted, cold_count), mid, storing, h1) =
        bind-ok
          (store_compaction sha256 (fresh project_id namespace).0 (fresh project_id namespace).1
            project_id namespace plan.source_ids created_at plan.content)
          _ before after r h in
      let (content, _, done) =
        store_compaction-Compacted sha256 (fresh project_id namespace).0
          (fresh project_id namespace).1 project_id namespace plan.source_ids created_at
          plan.content before mid inserted cold_count storing in
      let same : mid ≡ after = ground arith in
      let sources : r.source_count ≡ length plan.source_ids = ground arith in
      let cold_rows : r.cold_count ≡ length plan.source_ids = ground (arith, done.counted) in
      (
        sources,
        ground arith,
        ground arith,
        cold_rows,
        (
          plan.source_ids,
          sym sources,
          done.all_named ∙ sym cold_rows,
          λ row m.
              subst
                (λ (db : Db).
                  In (change (in_batch project_id namespace plan.source_ids) cold row) db.memories)
                same (done.chilled row m),
        ),
      )

  require_project-state :
      (project_id : Uuid) (db after : Db) (u : Unit {0})
      → require_project project_id db ≡ (ok u, after)
      → (require_project project_id db ≡ (ok tt, db)) × (db ≡ after)
  unfolding require_project
  require_project-state project_id db after u h = (ground arith, ground arith)

  assert_expected-state :
      (expected : Option InactiveProject) (now : Instant) (db after : Db) (u : Unit {0})
      → assert_expected sha256 casefold failure_signature redact parse is_record fresh days
          source_limit expected now db
        ≡ (ok u, after)
      → db ≡ after
  unfolding assert_eligible
  assert_expected-state none now db after u h = ground arith
  assert_expected-state (some expected) now db after u h = ground arith

  -- What the block has read when it comes to its writes.
  pub compact_block-ok :
      (project_id : Uuid) (namespace : Namespace) (expected : Option InactiveProject)
      (created_at : Instant) (before after : Db) (r : CompactionResult)
      → compact_block sha256 casefold failure_signature redact parse is_record fresh days
          source_limit project_id namespace expected created_at before
        ≡ (ok r, after)
      → (require_project project_id before ≡ (ok tt, before))
        × ((selection : Selection) × (select_compaction_sources project_id namespace source_limit
                before
              ≡ ok selection)
            × (require_bounded_source_set source_limit selection ≡ ok tt)
            × (compact_selection sha256 casefold failure_signature redact parse is_record fresh days
                  source_limit project_id namespace created_at selection before
                ≡ (ok r, after)))
  unfolding compact_block
  compact_block-ok project_id namespace expected created_at before after r h =
      let (_, mid1, required, h1) = bind-ok (require_project project_id) _ before after r h in
      let (known, e1) = require_project-state project_id before mid1 _ required in
      let (_, mid2, eligible, h2) =
        bind-ok
          (assert_expected sha256 casefold failure_signature redact parse is_record fresh days
            source_limit expected created_at)
          _ mid1 after r h1 in
      let e2 : before ≡ mid2 =
        e1 ∙ assert_expected-state expected created_at mid1 mid2 _ eligible in
      let (selection, mid3, selected, h3) =
        bind-ok (λ db. (select_compaction_sources project_id namespace source_limit db, db)) _ mid2
          after r h2 in
      let (_, mid4, bounded, h4) =
        bind-ok (lift (require_bounded_source_set source_limit selection)) _ mid3 after r h3 in
      let e4 : mid4 ≡ before =
        ap (λ p. p.1) (sym bounded) ∙ ap (λ p. p.1) (sym selected) ∙ sym e2 in
      (
        known,
        (
          selection,
          subst
              (λ db. select_compaction_sources project_id namespace source_limit db ≡ ok selection)
              (sym e2) (ap (λ p. p.0) selected),
          ap (λ p. p.0) bounded,
          subst
              (λ db.
                compact_selection sha256 casefold failure_signature redact parse is_record fresh
                  days source_limit project_id namespace created_at selection db
                ≡ (ok r, after))
              e4 h4,
        ),
      )

  abbrev preview_of : Uuid → Namespace → CompactionPlan → Selection → CompactionResult
  preview_of project_id namespace plan selection =
      record (empty_result project_id namespace dry_run) {
        source_count = length plan.source_ids;
        source_reference_count = plan.source_reference_count;
        remaining_count = bounded_count (selection.total - length plan.source_ids);
      }

  empty_selection :
      (project_id : Uuid) (namespace : Namespace) (before after : Db) (r : CompactionResult)
      → before ≡ after
      → r.source_count ≡ 0
      → r.cold_count ≡ 0
      → Chilled project_id namespace before after r
  empty_selection project_id namespace before after r same sources cold_rows =
      let (left, none_named) = chill-nil project_id namespace before.memories in
      (
        [],
        sym sources,
        none_named ∙ sym cold_rows,
        λ row m.
            subst (λ rows. In (change (in_batch project_id namespace []) cold row) rows)
              (left ∙ ap (λ (db : Db). db.memories) same)
              (set_state-In (in_batch project_id namespace []) cold before.memories row m),
      )

  -- The preview of the selection that was compacted.
  preview_result-Announces :
      (project_id : Uuid) (namespace : Namespace) (created_at : Instant) (selection : Selection)
      (before after : Db) (r : CompactionResult)
      → require_bounded_source_set source_limit selection ≡ ok tt
      → compact_selection sha256 casefold failure_signature redact parse is_record fresh days
          source_limit project_id namespace created_at selection before
        ≡ (ok r, after)
      → (p : CompactionResult) × (preview_result sha256 casefold failure_signature redact parse
            is_record fresh days source_limit project_id namespace selection
          ≡ ok p)
        × Announces p r
        × Chilled project_id namespace before after r
  unfolding preview_result
  preview_result-Announces project_id namespace created_at selection before after r bounded h =
      elim (Bool-cases (is_nil selection.records)) [
        | inl nothing ↦ (
          empty_result project_id namespace dry_run,
          ground arith,
          (ground arith, ground arith, ground arith, ground arith),
          empty_selection project_id namespace before after r (ground arith) (ground arith)
              (ground arith),
        )
        | inr something ↦
            elim (Result-cases (
              plan_of sha256 casefold failure_signature redact parse is_record fresh days
                source_limit selection.records)) [
                  | inl (plan, planned) ↦
                      let compacting : compact_rows sha256 casefold failure_signature redact parse
                            is_record fresh days source_limit project_id namespace created_at
                            selection plan before
                          ≡ (ok r, after) =
                        ground arith in
                      let (sources, references, remaining, cold_count, chilled) =
                        compact_rows-counts project_id namespace created_at selection plan before
                          after r compacting in
                      (
                        preview_of project_id namespace plan selection,
                        ground arith,
                        (sym sources, sym references, sym remaining, cold_count ∙ sym sources),
                        chilled,
                      )
                  | inr (e, fails) ↦ absurd (ground arith)
                ]
      ]

  -- A compaction that returns was announced by a dry run on the same database: the dry run returns,
  -- it leaves the database as it was, and it gives the same numbers of sources, of source
  -- references and of remaining rows. So many identifiers as there are sources name exactly as many
  -- active rows of the namespace as are reported as cold, which is the number of the sources; each of
  -- these rows is stored as cold, and every other row is still stored as it was.
  pub compact-Announced :
      (project_id : Uuid) (namespace : Namespace) (expected : Option InactiveProject)
      (created_at : Instant) (before after : Db) (r : CompactionResult)
      → compact sha256 casefold failure_signature redact parse is_record fresh days source_limit
          project_id namespace false expected created_at before
        ≡ (ok r, after)
      → (p : CompactionResult) × (compact sha256 casefold failure_signature redact parse is_record
            fresh days source_limit project_id namespace true expected created_at before
          ≡ (ok p, before))
        × Announces p r
        × Chilled project_id namespace before after r
  unfolding compact preview transaction
  compact-Announced project_id namespace expected created_at before after r h =
      let run : Result CompactionResult × Db =
        compact_block sha256 casefold failure_signature redact parse is_record fresh days
          source_limit project_id namespace expected created_at before in
      let (known, (selection, selected, bounded, compacting)) =
        compact_block-ok project_id namespace expected created_at before after r
          (settle-ok before run r after h) in
      let (p, previewed, announced, chilled) =
        preview_result-Announces project_id namespace created_at selection before after r bounded
          compacting in
      (p, rw (known, selected, previewed) refl, announced, chilled)
