-- ===== src/Samples/Memories.antt =====
-- The theorems on the store of behavior memories, at a small database.
use project_memory_hub.Common.{
  ℕ, ◌≡◌, refl, subst, ◌≢◌, inl, none, true, false, [], ◌∷◌, ◌≤◌, length, In, All, arith,
}
use project_memory_hub.Common.Exec.{Result, ok, err, transaction, key_error}
use project_memory_hub.Text.{Text, codes, strip}
use project_memory_hub.Text.Equal.{text_eq}
use project_memory_hub.Text.Terms.{tokens, count_from}
use project_memory_hub.Text.Utf8.{strict_utf8_size, utf8_width}
use project_memory_hub.Domain.{
  active, cold, archived, deleted, BehaviorMemoryRecord, InsertResult, same_namespace,
}
use project_memory_hub.Domain.Timestamp.{float_timestamp}
use project_memory_hub.Database.{Db}
use project_memory_hub.Memories.Insert.{insert, insert_on_connection, write_memory, same_key, clash}
use project_memory_hub.Memories.Prepare.{
  prepare_memory, required_text, required_hash, is_sha256, hexdigest,
}
use project_memory_hub.Memories.Compact.{
  cold_compaction_sources, cold_batches, in_batch, sorted_set, clash_source, provenance,
}
use project_memory_hub.Memories.Compact.Cold.{cold_compaction_sources_lem}
use project_memory_hub.Memories.Compact.Laws.{store_compaction-Compacted, Compacted}
use project_memory_hub.Memories.Insert.Invariant.{
  insert-IsWellFormed, insert_again, IsWellFormed, Distinct,
}
use project_memory_hub.Memories.Search.{search, validate_limit, ranked, candidates, in_scope, score}
use project_memory_hub.Common.Order.Sort.{sort}
use project_memory_hub.Common.Batches.{batches}
use project_memory_hub.Database.Iso.{iso_rank}
use project_memory_hub.Memories.Search.Laws.{search-IsVisible, search-Served, IsVisible, Served}
use project_memory_hub.Memories.Lifecycle.{set_lifecycle_scoped, set_state, updated}
use project_memory_hub.Memories.Lifecycle.Laws.{
  set_lifecycle_scoped-ok, set_lifecycle_scoped-deleted,
}
use project_memory_hub.Memories.Namespaces.{
  scan_namespaces, next_row, first_namespace, next_model, list_compaction_namespaces_on_connection,
}
use project_memory_hub.Memories.Namespaces.Laws.{list_compaction_namespaces-Enumerates, Enumerates}
use project_memory_hub.Memories.Sources.{
  Selection, compaction_identifiers, compaction_records, is_unique, read_batches, batch_rows,
  is_oversized, pick,
}
use project_memory_hub.Memories.Sources.Choice.{with_optional, select_compaction_sources}
use project_memory_hub.Memories.Sources.Totals.{select_compaction_sources-Selects, Selects}
use project_memory_hub.Memories.Compact.Store.{
  write_compaction, write_source, insert_source, write_retrospective, insert_retrospective,
  store_compaction,
}
use project_memory_hub.Samples.Data.{
  digest, folded, gpt, sonnet, method, choice, row, empty_db, full_db,
}

empty_db-IsWellFormed : IsWellFormed digest empty_db
empty_db-IsWellFormed = record { distinct = tt; backed = λ r m. absurd m }

-- One row is stored.
abbrev one_row : Db
one_row = record empty_db { memories = row 11 active method ∷ [] }

abbrev inserted : InsertResult
inserted = record { inserted = true; duplicate = false; record_id = 11 }

program : Unit {0}
unfolding float_timestamp insert prepare_memory required_text text_eq strip required_hash is_sha256
    hexdigest strict_utf8_size utf8_width transaction insert_on_connection write_memory same_key
    same_namespace clash search set_lifecycle_scoped list_compaction_namespaces_on_connection
    select_compaction_sources store_compaction validate_limit ranked tokens sort candidates in_scope
    iso_rank score count_from scan_namespaces next_row first_namespace next_model
    compaction_identifiers with_optional compaction_records is_unique read_batches batches
    batch_rows is_oversized pick sorted_set write_compaction write_source insert_source clash_source
    provenance write_retrospective insert_retrospective cold_compaction_sources cold_batches updated
program = tt

insert-run : insert digest 11 method empty_db ≡ (ok inserted, one_row)
unfolding program
insert-run = refl

insert_orphan : (insert digest 11 (record method { project_id = 2 }) empty_db).0 ≡ err key_error
unfolding program
insert_orphan = refl

one_row-IsWellFormed : IsWellFormed digest one_row
one_row-IsWellFormed =
    subst (λ p. IsWellFormed digest p.1) insert-run
      (insert-IsWellFormed digest 11 method empty_db empty_db-IsWellFormed)

insert-IsWellFormed_example : IsWellFormed digest (insert digest 12 choice one_row).1
insert-IsWellFormed_example = insert-IsWellFormed digest 12 choice one_row one_row-IsWellFormed

insert_again_example :
    insert digest 99 method one_row
    ≡ (ok (record { inserted = false; duplicate = true; record_id = 11 }), one_row)
insert_again_example = insert_again digest 11 99 method empty_db one_row inserted insert-run

-- The decision is the later of the two rows of the model; the other model's row is not shown.
search-run :
    search folded 1 gpt (codes "pytest") 2 full_db
    ≡ ok (row 12 active choice ∷ row 11 active method ∷ [])
unfolding program
search-run = refl

search-IsVisible_example :
    (length (row 12 active choice ∷ row 11 active method ∷ []) ≤ 2)
    × All (IsVisible 1 gpt full_db) (row 12 active choice ∷ row 11 active method ∷ [])
search-IsVisible_example =
    search-IsVisible folded 1 gpt (codes "pytest") 2 full_db
      (row 12 active choice ∷ row 11 active method ∷ []) search-run

search-narrow : search folded 1 gpt (codes "pytest") 1 full_db ≡ ok (row 12 active choice ∷ [])
unfolding program
search-narrow = refl

search-Served_example :
    Served folded
      (tokens folded (codes "pytest"))
      1
      (row 11 active method)
      (row 12 active choice ∷ [])
unfolding program
search-Served_example =
    search-Served folded 1 gpt (codes "pytest") 1 full_db (row 12 active choice ∷ [])
      (row 11 active method) search-narrow (omega arith)
      (record { stored = inl refl; project = refl; scope = refl; state = refl }) refl

set_lifecycle_scoped-ok_example :
    ((set_lifecycle_scoped 1 gpt 11 deleted one_row).0
      ≡ ok (record (row 11 active method) { lifecycle_state = deleted }))
    × In
        (record (row 11 active method) { lifecycle_state = deleted })
        (set_lifecycle_scoped 1 gpt 11 deleted one_row).1.memories
    × ((r : BehaviorMemoryRecord)
        → In r one_row.memories
        → r.memory_id ≢ 11
        → In r (set_lifecycle_scoped 1 gpt 11 deleted one_row).1.memories)
set_lifecycle_scoped-ok_example =
    set_lifecycle_scoped-ok digest 1 gpt 11 deleted one_row (row 11 active method) refl
      one_row-IsWellFormed (inl refl)
      (record { named = refl; project = refl; scope = refl; live = ground arith })

-- A deleted row.
abbrev gone_db : Db
gone_db = record empty_db { memories = row 11 deleted method ∷ [] }

set_lifecycle_scoped-deleted_example :
    In (row 11 deleted method) (set_lifecycle_scoped 1 gpt 11 archived gone_db).1.memories
set_lifecycle_scoped-deleted_example =
    set_lifecycle_scoped-deleted 1 gpt 11 archived gone_db (row 11 deleted method) (inl refl) refl

namespaces-run : list_compaction_namespaces_on_connection 1 2 full_db ≡ ok (gpt ∷ sonnet ∷ [])
unfolding program
namespaces-run = refl

list_compaction_namespaces-Enumerates_example :
    Enumerates 1 full_db.memories 2 none (gpt ∷ sonnet ∷ [])
list_compaction_namespaces-Enumerates_example =
    list_compaction_namespaces-Enumerates 1 2 full_db (gpt ∷ sonnet ∷ []) namespaces-run

abbrev selection : Selection
selection = record {
  records = row 11 active method ∷ row 12 active choice ∷ [];
  total = 2;
  mandatory = 1;
}

select-run : select_compaction_sources 1 gpt 10 full_db ≡ ok selection
unfolding program
select-run = refl

full_db-Distinct : Distinct full_db.memories
unfolding program
full_db-Distinct = (refl, (refl, (refl, tt)))

select_compaction_sources-Selects_example : Selects 1 gpt 10 full_db selection
select_compaction_sources-Selects_example =
    select_compaction_sources-Selects 1 gpt 10 full_db selection full_db-Distinct select-run

cold_compaction_sources_example : cold_compaction_sources 1 gpt (11 ∷ 12 ∷ []) full_db ≡ (
  ok (updated (in_batch 1 gpt (11 ∷ 12 ∷ [])) full_db.memories),
  record full_db { memories = set_state (in_batch 1 gpt (11 ∷ 12 ∷ [])) cold full_db.memories },
)
cold_compaction_sources_example = cold_compaction_sources_lem 1 gpt (11 ∷ 12 ∷ []) full_db

abbrev stored : Result (InsertResult × ℕ) × Db
stored = store_compaction digest 20 21 1 gpt (11 ∷ 12 ∷ []) 9000000 (codes " summary ") full_db

store-run :
    stored ≡ (ok (record { inserted = true; duplicate = false; record_id = 21 }, 2), stored.1)
unfolding program
store-run = refl

store_compaction-Compacted_example :
    (content : Text) × (required_text (codes " summary ") ≡ ok content)
    × Compacted 1 gpt
        (11 ∷ 12 ∷ [])
        content
        full_db
        stored.1
        (record { inserted = true; duplicate = false; record_id = 21 })
        2
store_compaction-Compacted_example =
    store_compaction-Compacted digest 20 21 1 gpt (11 ∷ 12 ∷ []) 9000000 (codes " summary ") full_db
      stored.1 (record { inserted = true; duplicate = false; record_id = 21 }) 2 store-run
