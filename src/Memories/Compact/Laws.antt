-- ===== src/Memories/Compact/Laws.antt =====
-- What a stored compaction did.
use project_memory_hub.Common.{
  ℕ, ◌≡◌, refl, sym, ap, ◌∙◌, subst, true, false, not, List, ◌==◌, length, In, arith,
}
use project_memory_hub.Common.Exec.{ok, bind-ok, lift, guard, value_error}
use project_memory_hub.Text.{Text}
use project_memory_hub.Domain.{
  Uuid, Instant, Namespace, cold, is_active, is_retrospective, BehaviorMemoryInput,
  BehaviorMemoryRecord, InsertResult,
}
use project_memory_hub.Database.{Db, SourceRef}
use project_memory_hub.Memories.Prepare.{required_text, hexdigest}
use project_memory_hub.Memories.Insert.{new_row}
use project_memory_hub.Memories.Lifecycle.{set_state, updated}
use project_memory_hub.Memories.Rows.{change, set_state-same, set_state-In, set_state-keeps}
use project_memory_hub.Memories.Sources.{is_nil}
use project_memory_hub.Memories.Compact.{
  Provenance, provenance, in_batch, sorted_set, cold_compaction_sources,
}
use project_memory_hub.Memories.Compact.Store.{
  write_source, is_this_retrospective, write_retrospective, new_source, new_retrospective,
  write_compaction, store_compaction,
}
use project_memory_hub.Memories.Compact.Cold.{cold_compaction_sources_lem}
use project_memory_hub.Memories.Compact.Retrospective.{holds-sorted_set, write_retrospective-ok}

-- What a stored compaction did to the rows that were there, and what it added.
pub record Compacted (project_id : Uuid) (namespace : Namespace) (source_ids : List Uuid)
    (content : Text) (before after : Db) (r : InsertResult) (cold_count : ℕ) : Type 0 where
  -- As many active rows are named as there are source identifiers, and that many are reported.
  pub counted : cold_count ≡ length source_ids
  pub all_named :
      updated (in_batch project_id namespace source_ids) before.memories ≡ length source_ids
  -- Active rows of the namespace that they name became cold, and all others are as they were.
  pub chilled :
      (row : BehaviorMemoryRecord)
      → In row before.memories
      → In (change (in_batch project_id namespace source_ids) cold row) after.memories
  -- The retrospective with the content is active.
  pub summary : BehaviorMemoryRecord
  pub summary_stored : In summary after.memories
  pub summary_named : summary.memory_id ≡ r.record_id
  pub summary_state : is_active summary.lifecycle_state ≡ true
  pub summary_kind : is_retrospective summary.memory_kind ≡ true
  pub summary_content : summary.normalized_content ≡ content

module _ (sha256 : Text → Text) (fresh_source fresh : Uuid) (project_id : Uuid)
    (namespace : Namespace) (source_ids : List Uuid) (created_at : Instant) where
  same_batch :
      (row : BehaviorMemoryRecord)
      → change (in_batch project_id namespace (sorted_set source_ids)) cold row
        ≡ change (in_batch project_id namespace source_ids) cold row
  same_batch row = ground (arith, holds-sorted_set source_ids row.memory_id)

  same_test :
      (row : BehaviorMemoryRecord)
      → in_batch project_id namespace source_ids row
        ≡ in_batch project_id namespace (sorted_set source_ids) row
  same_test row = ground (arith, holds-sorted_set source_ids row.memory_id)

  -- The summary is no source, so that making the sources cold leaves it.
  summary_left :
      (wanted : BehaviorMemoryInput) (row : BehaviorMemoryRecord)
      → is_this_retrospective wanted row ≡ true
      → (is_active row.lifecycle_state ≡ true)
        × (is_retrospective row.memory_kind ≡ true)
        × (in_batch project_id namespace (sorted_set source_ids) row ≡ false)
  summary_left wanted row this = ground arith

  new_row-no_source :
      (id : Uuid) (wanted : BehaviorMemoryInput)
      → is_retrospective wanted.memory_kind ≡ true
      → in_batch project_id namespace (sorted_set source_ids) (new_row id wanted) ≡ false
  new_row-no_source id wanted kind = ground arith

  write_source-memories :
      (row : SourceRef) (before after : Db) (source : Uuid)
      → write_source row before ≡ (ok source, after)
      → before.memories ≡ after.memories
  unfolding write_source
  write_source-memories row before after source h = ground arith

  write_compaction-ok :
      (origin : Provenance) (content hash : Text) (before after : Db) (r : InsertResult) (n : ℕ)
      → length (sorted_set source_ids) ≡ length source_ids
      → write_compaction sha256 fresh_source fresh project_id namespace source_ids created_at origin
          content hash before
        ≡ (ok (r, n), after)
      → Compacted project_id namespace source_ids content before after r n
  unfolding write_compaction
  write_compaction-ok origin content hash before after r n unique h =
      let (source, mid1, sourcing, h1) =
        bind-ok
          (write_source (
            new_source sha256 fresh_source fresh project_id namespace source_ids created_at origin
              hash))
          _ before after (r, n) h in
      let wanted =
        new_retrospective sha256 fresh_source fresh project_id namespace source_ids created_at
          origin content hash source in
      let (result, mid2, writing, h2) =
        bind-ok (write_retrospective fresh wanted) _ mid1 after (r, n) h1 in
      let (count, mid3, chilling, h3) =
        bind-ok (cold_compaction_sources project_id namespace (sorted_set source_ids)) _ mid2 after
          (r, n) h2 in
      let w = write_retrospective-ok fresh wanted mid1 mid2 result writing in
      let test = in_batch project_id namespace (sorted_set source_ids) in
      let cold_rows =
        cold_compaction_sources_lem project_id namespace (sorted_set source_ids) mid2 in
      let same : set_state test cold mid2.memories ≡ after.memories = ground arith in
      let (live, kind, no_source) = summary_left wanted w.row w.this in
      let same_memories = write_source-memories _ before mid1 source sourcing in
      record {
        counted = ground arith;
        all_named =
            (set_state-same (in_batch project_id namespace source_ids) test cold before.memories
              (λ row _. same_test row)).1
            ∙ ap (updated test) same_memories
            ∙ sym (w.others test (λ id. new_row-no_source id wanted refl))
            ∙ ground (arith, cold_rows);
        chilled = λ row m.
            subst (In (change (in_batch project_id namespace source_ids) cold row)) same (
              subst (λ c. In c (set_state test cold mid2.memories)) (same_batch row)
                (set_state-In test cold mid2.memories row
                  (w.kept row (subst (In row) same_memories m))));
        summary = w.row;
        summary_stored =
            subst (In w.row) same
              (set_state-keeps test cold mid2.memories w.row w.stored no_source);
        summary_named = ground (arith, w.named);
        summary_state = live;
        summary_kind = kind;
        summary_content = w.content;
      }

-- A compaction that is stored made cold exactly the active rows of the namespace that its source
-- identifiers name, of which there are as many as identifiers, left every other row as it was, and its
-- retrospective is active and holds the stripped content.
pub store_compaction-Compacted :
    (sha256 : Text → Text) (fresh_source fresh project_id : Uuid) (namespace : Namespace)
    (source_ids : List Uuid) (created_at : Instant) (text : Text) (before after : Db)
    (r : InsertResult) (n : ℕ)
    → store_compaction sha256 fresh_source fresh project_id namespace source_ids created_at text
        before
      ≡ (ok (r, n), after)
    → (content : Text) × (required_text text ≡ ok content)
      × Compacted project_id namespace source_ids content before after r n
unfolding store_compaction
store_compaction-Compacted sha256 fresh_source fresh project_id namespace source_ids created_at text
      before after r n h =
    let (content, mid1, stripping, h1) =
      bind-ok (lift (required_text text)) _ before after (r, n) h in
    let (_, mid2, nonempty, h2) =
      bind-ok (lift (guard (not (is_nil (sorted_set source_ids))) value_error)) _ mid1 after (r, n)
        h1 in
    let (_, mid3, unique, h3) =
      bind-ok (lift (guard (length (sorted_set source_ids) == length source_ids) value_error)) _
        mid2 after (r, n) h2 in
    let (hash, mid4, hashing, h4) =
      bind-ok (lift (hexdigest sha256 content)) _ mid3 after (r, n) h3 in
    let (digest, mid5, digesting, h5) =
      bind-ok (lift (hexdigest sha256 namespace.model_id)) _ mid4 after (r, n) h4 in
    let same : mid5 ≡ before = ground arith in
    (
      content,
      ground arith,
      write_compaction-ok sha256 fresh_source fresh project_id namespace source_ids created_at
          (provenance sha256 project_id namespace.source_agent digest (sorted_set source_ids))
          content hash before after r n (ground arith)
          (subst
            (λ db.
              write_compaction sha256 fresh_source fresh project_id namespace source_ids created_at
                (provenance sha256 project_id namespace.source_agent digest (sorted_set source_ids))
                content hash db
              ≡ (ok (r, n), after))
            same h5),
    )
