-- ===== src/Compaction/Service/Keeps.antt =====
-- What a compaction of one namespace leaves alone: `compact` of services/compaction.py.
use project_memory_hub.Common.{
  ℕ, ◌+◌, ◌≡◌, refl, sym, ap, ◌∙◌, inl, inr, Bool, true, false, not, Option, List, [], ◌∷◌, ◌==◌,
  length, find_first, arith, Bool-cases,
}
use project_memory_hub.Common.Exec.{
  Exec, Result, ok, err, lift, continue, guard, transaction, Result-cases, settle, bind-ok, ◌>>=◌,
  value_error,
}
use project_memory_hub.Text.{Text}
use project_memory_hub.Domain.{
  Uuid, Instant, Namespace, cold, BehaviorMemoryInput, BehaviorMemoryRecord, InsertResult,
}
use project_memory_hub.Database.{Db, ProjectRow, SourceRef}
use project_memory_hub.Memories.Prepare.{required_text, hexdigest}
use project_memory_hub.Memories.Insert.{insert_or_ignore, new_row}
use project_memory_hub.Memories.Lifecycle.{set_state, updated}
use project_memory_hub.Memories.Sources.{Selection, is_nil}
use project_memory_hub.Memories.Compact.{
  cold_batches, cold_compaction_sources, in_batch, sorted_set, Provenance, provenance,
}
use project_memory_hub.Memories.Compact.Store.{
  write_source, write_retrospective, insert_retrospective, write_compaction, store_compaction,
  is_this_retrospective, check_retrospective, new_source, new_retrospective,
}
use project_memory_hub.Compaction.Plan.Build.{Redaction, CompactionPlan}
use project_memory_hub.Compaction.Inactive.{InactiveProject}
use project_memory_hub.Compaction.Service.Laws.{compact_block-ok}
use project_memory_hub.Compaction.Service.{
  CompactionResult, compact, compact_block, compact_selection, compact_rows, preview, plan_of,
}

-- A method that leaves a part of the database as it is.
abbrev pub Keeps : {V A : Type 0} → (Db → V) → Exec Db A → Type 0
Keeps view m = (db : Db) → view (m db).1 ≡ view db

continue-Keeps :
    {V A B : Type 0} (view : Db → V) (db : Db) (p : Result A × Db) (f : A → Exec Db B)
    → view p.1 ≡ view db
    → ((a : A) → Keeps view (f a))
    → view (continue p f).1 ≡ view db
continue-Keeps view db (ok a, s) f e k = k a s ∙ e
continue-Keeps view db (err x, s) f e k = e

pub bind-Keeps :
    {V A B : Type 0} (view : Db → V) (m : Exec Db A) (f : A → Exec Db B)
    → Keeps view m
    → ((a : A) → Keeps view (f a))
    → Keeps view (m >>= f)
bind-Keeps view m f e k db = continue-Keeps view db (m db) f (e db) k

abbrev pub project_rows : Db → List ProjectRow
project_rows db = db.projects

cold_batches-Keeps :
    (project_id : Uuid) (namespace : Namespace) (n : ℕ) (parts : List (List Uuid))
    → Keeps project_rows (cold_batches project_id namespace n parts)
unfolding cold_batches
cold_batches-Keeps project_id namespace n [] db = refl
cold_batches-Keeps project_id namespace n (batch ∷ rest) db =
    cold_batches-Keeps project_id namespace
      (n + updated (in_batch project_id namespace batch) db.memories) rest
      (record db { memories = set_state (in_batch project_id namespace batch) cold db.memories })

insert_retrospective-projects :
    (row : BehaviorMemoryRecord) (before after : Db) (inserted : Bool)
    → insert_retrospective row before ≡ (ok inserted, after)
    → before.projects ≡ after.projects
unfolding insert_retrospective insert_or_ignore
insert_retrospective-projects row before after inserted h = ground arith

write_retrospective-projects :
    (fresh : Uuid) (wanted : BehaviorMemoryInput) (before after : Db) (r : InsertResult)
    → write_retrospective fresh wanted before ≡ (ok r, after)
    → before.projects ≡ after.projects
unfolding write_retrospective
write_retrospective-projects fresh wanted before after r h =
    let (inserted, mid, writing, h1) =
      bind-ok (insert_retrospective (new_row fresh wanted)) _ before after r h in
    let (memory_id, mid2, checking, h2) =
      bind-ok
        (lift (
          check_retrospective (find_first (is_this_retrospective wanted) mid.memories)
            wanted.normalized_content wanted.source_reference_id))
        _ mid after r h1 in
    let same : mid ≡ after = ground arith in
    insert_retrospective-projects (new_row fresh wanted) before mid inserted writing
    ∙ ap (λ db. db.projects) same

write_compaction-projects :
    (sha256 : Text → Text) (fresh_source fresh project_id : Uuid) (namespace : Namespace)
    (source_ids : List Uuid) (created_at : Instant) (origin : Provenance) (content hash : Text)
    (before after : Db) (r : InsertResult × ℕ)
    → write_compaction sha256 fresh_source fresh project_id namespace source_ids created_at origin
        content hash before
      ≡ (ok r, after)
    → before.projects ≡ after.projects
unfolding write_compaction write_source cold_compaction_sources
write_compaction-projects sha256 fresh_source fresh project_id namespace source_ids created_at
      origin content hash before after r h =
    let row : SourceRef =
      new_source sha256 fresh_source fresh project_id namespace source_ids created_at origin hash in
    let (source, mid1, sourcing, h1) = bind-ok (write_source row) _ before after r h in
    let wanted : BehaviorMemoryInput =
      new_retrospective sha256 fresh_source fresh project_id namespace source_ids created_at origin
        content hash source in
    let (result, mid2, writing, h2) =
      bind-ok (write_retrospective fresh wanted) _ mid1 after r h1 in
    let (cold_count, mid3, cooling, h3) =
      bind-ok (cold_compaction_sources project_id namespace (sorted_set source_ids)) _ mid2 after r
        h2 in
    let e1 : before.projects ≡ mid1.projects = ground arith in
    let e2 : mid1.projects ≡ mid2.projects =
      write_retrospective-projects fresh wanted mid1 mid2 result writing in
    let e3 : mid2.projects ≡ mid3.projects =
      sym (cold_batches-Keeps project_id namespace 0 _ mid2) ∙ ap (λ p. p.1.projects) cooling in
    let e4 : mid3.projects ≡ after.projects = ground arith in e1 ∙ e2 ∙ e3 ∙ e4

store_compaction-projects :
    (sha256 : Text → Text) (fresh_source fresh project_id : Uuid) (namespace : Namespace)
    (source_ids : List Uuid) (created_at : Instant) (text : Text) (before after : Db)
    (r : InsertResult × ℕ)
    → store_compaction sha256 fresh_source fresh project_id namespace source_ids created_at text
        before
      ≡ (ok r, after)
    → before.projects ≡ after.projects
unfolding store_compaction
store_compaction-projects sha256 fresh_source fresh project_id namespace source_ids created_at text
      before after r h =
    let (content, mid1, stripping, h1) = bind-ok (lift (required_text text)) _ before after r h in
    let (_, mid2, nonempty, h2) =
      bind-ok (lift (guard (not (is_nil (sorted_set source_ids))) value_error)) _ mid1 after r h1 in
    let (_, mid3, unique, h3) =
      bind-ok (lift (guard (length (sorted_set source_ids) == length source_ids) value_error)) _
        mid2 after r h2 in
    let (hash, mid4, hashing, h4) = bind-ok (lift (hexdigest sha256 content)) _ mid3 after r h3 in
    let (digest, mid5, digesting, h5) =
      bind-ok (lift (hexdigest sha256 namespace.model_id)) _ mid4 after r h4 in
    let same : before ≡ mid5 = ground arith in
    ap (λ db. db.projects) same
    ∙ write_compaction-projects sha256 fresh_source fresh project_id namespace source_ids created_at
        (provenance sha256 project_id namespace.source_agent digest (sorted_set source_ids)) content
        hash mid5 after r h5

module _ (sha256 casefold failure_signature : Text → Text) (redact : Text → Redaction)
    (parse : Text → Option Instant) (is_record : ProjectRow → Bool)
    (fresh : Uuid → Namespace → Uuid × Uuid) (days source_limit : ℕ) where
  compact_rows-projects :
      (project_id : Uuid) (namespace : Namespace) (now : Instant) (selection : Selection)
      (plan : CompactionPlan) (before after : Db) (r : CompactionResult)
      → compact_rows sha256 casefold failure_signature redact parse is_record fresh days
          source_limit project_id namespace now selection plan before
        ≡ (ok r, after)
      → before.projects ≡ after.projects
  unfolding compact_rows
  compact_rows-projects project_id namespace now selection plan before after r h =
      let (stored, mid, storing, h1) =
        bind-ok
          (store_compaction sha256 (fresh project_id namespace).0 (fresh project_id namespace).1
            project_id namespace plan.source_ids now plan.content)
          _ before after r h in
      store_compaction-projects sha256 (fresh project_id namespace).0 (fresh project_id namespace).1
        project_id namespace plan.source_ids now plan.content before mid stored storing
      ∙ ground arith

  compact_selection-projects :
      (project_id : Uuid) (namespace : Namespace) (now : Instant) (selection : Selection)
      (before after : Db) (r : CompactionResult)
      → compact_selection sha256 casefold failure_signature redact parse is_record fresh days
          source_limit project_id namespace now selection before
        ≡ (ok r, after)
      → before.projects ≡ after.projects
  compact_selection-projects project_id namespace now selection before after r h =
      elim (Bool-cases (is_nil selection.records)) [
        | inl nothing ↦ ground arith
        | inr something ↦
            elim (Result-cases (
              plan_of sha256 casefold failure_signature redact parse is_record fresh days
                source_limit selection.records)) [
                  | inl (plan, planned) ↦
                      compact_rows-projects project_id namespace now selection plan before after r
                        (ground arith)
                  | inr (e, fails) ↦ absurd (ground arith)
                ]
      ]

  settled-projects :
      (project_id : Uuid) (namespace : Namespace) (expected : Option InactiveProject)
      (now : Instant) (before : Db) (p : Result CompactionResult × Db)
      → compact_block sha256 casefold failure_signature redact parse is_record fresh days
          source_limit project_id namespace expected now before
        ≡ p
      → (settle before p).1.projects ≡ before.projects
  settled-projects project_id namespace expected now before (err e, after) h = refl
  settled-projects project_id namespace expected now before (ok r, after) h =
      let (_, (selection, _, _, compacting)) =
        compact_block-ok sha256 casefold failure_signature redact parse is_record fresh days
          source_limit project_id namespace expected now before after r h in
      sym (compact_selection-projects project_id namespace now selection before after r compacting)

  -- A compaction never writes to the table of the projects.
  pub compact-Keeps :
      (project_id : Uuid) (namespace : Namespace) (is_dry_run : Bool)
      (expected : Option InactiveProject) (now : Instant)
      → Keeps project_rows (
          compact sha256 casefold failure_signature redact parse is_record fresh days source_limit
            project_id namespace is_dry_run expected now)
  unfolding compact preview transaction
  compact-Keeps project_id namespace true expected now db = refl
  compact-Keeps project_id namespace false expected now db =
      settled-projects project_id namespace expected now db _ refl
