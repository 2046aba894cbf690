-- ===== src/Memories/Compact/Cold.antt =====
-- The batches of updates together are one update of all the source rows.
use project_memory_hub.Common.{
  ℕ, ◌+◌, ◌≡◌, refl, List, [], ◌∷◌, ◌++◌, ◌==◌, length, arith, any-append,
}
use project_memory_hub.Common.Batches.{batches, concat, concat-batches}
use project_memory_hub.Common.Exec.{ok}
use project_memory_hub.Domain.{Uuid, Namespace, cold, BehaviorMemoryRecord}
use project_memory_hub.Database.{Db}
use project_memory_hub.Memories.Lifecycle.{set_state, updated}
use project_memory_hub.Memories.Search.{in_scope}
use project_memory_hub.Memories.Sources.{update_batch}
use project_memory_hub.Memories.Compact.{in_batch, cold_batches, cold_compaction_sources}

module _ (project_id : Uuid) (namespace : Namespace) where
  abbrev chills : List Uuid → List BehaviorMemoryRecord → List BehaviorMemoryRecord
  chills batch rows = set_state (in_batch project_id namespace batch) cold rows

  -- A row made cold by one batch is no source for the next.
  chill-chill :
      (xs ys : List Uuid) (rows : List BehaviorMemoryRecord)
      → (chills ys (chills xs rows) ≡ chills (xs ++ ys) rows)
        × (updated (in_batch project_id namespace xs) rows
              + updated (in_batch project_id namespace ys) (chills xs rows)
            ≡ updated (in_batch project_id namespace (xs ++ ys)) rows)
  unfolding set_state updated in_scope
  chill-chill xs ys [] = (refl, refl)
  chill-chill xs ys (row ∷ rows) =
      ground (arith, chill-chill xs ys rows, any-append (λ y. row.memory_id == y) xs ys)

  pub chill-nil :
      (rows : List BehaviorMemoryRecord)
      → (chills [] rows ≡ rows) × (updated (in_batch project_id namespace []) rows ≡ 0)
  unfolding set_state updated
  chill-nil [] = (refl, refl)
  chill-nil (row ∷ rows) = ground (arith, chill-nil rows)

  cold_batches_lem :
      (count : ℕ) (bs : List (List Uuid)) (db : Db)
      → cold_batches project_id namespace count bs db ≡ (
        ok (count + updated (in_batch project_id namespace (concat bs)) db.memories),
        record db { memories = chills (concat bs) db.memories },
      )
  unfolding cold_batches concat
  cold_batches_lem count [] db = ground (arith, chill-nil db.memories)
  cold_batches_lem count (b ∷ bs) db = ground (
    arith,
    cold_batches_lem (count + updated (in_batch project_id namespace b) db.memories) bs
        (record db { memories = chills b db.memories }),
    chill-chill b (concat bs) db.memories,
  )

-- Making the sources cold in batches of 300 is one update of them all: it makes cold exactly the
-- active rows of the namespace that the identifiers name and that are no retrospectives, and counts
-- each of them once.
pub cold_compaction_sources_lem :
    (project_id : Uuid) (namespace : Namespace) (source_ids : List Uuid) (db : Db)
    → cold_compaction_sources project_id namespace source_ids db ≡ (
      ok (updated (in_batch project_id namespace source_ids) db.memories),
      record db {
        memories = set_state (in_batch project_id namespace source_ids) cold db.memories;
      },
    )
unfolding cold_compaction_sources
cold_compaction_sources_lem project_id namespace source_ids db =
    let whole =
      concat-batches (length source_ids) update_batch source_ids (omega arith) (omega arith) in
    rw
      (
        cold_batches_lem project_id namespace 0
            (batches (length source_ids) update_batch source_ids) db,
        whole,
      )
      (ground arith)
