-- ===== src/Memories/Compact.antt =====
-- `_store_compaction_on_connection` and `_cold_compaction_sources_on_connection` of
-- storage/memories.py. The two `uuid4()` are arguments.
pub mod Store
pub mod Cold
pub mod Retrospective
pub mod Laws
use project_memory_hub.Common.{
  ℕ, ◌+◌, Bool, true, false, not, ◌&&◌, ◌||◌, Option, none, some, List, [], ◌∷◌, ◌++◌, ◌==◌,
  if◌then◌else◌, any, length, find_first, select, map,
}
use project_memory_hub.Common.Batches.{batches}
use project_memory_hub.Common.Order.{nat_order}
use project_memory_hub.Common.Order.Sort.{sort}
use project_memory_hub.Common.Exec.{
  Exec, Result, ok, err, pure, raise, lift, gets, modify, guard, ◌>>=◌, ◌>>◌, value_error,
  runtime_error, integrity_error,
}
use project_memory_hub.Text.{Text, codes}
use project_memory_hub.Text.Equal.{text_eq}
use project_memory_hub.Text.Uuid.{uuid_text, join}
use project_memory_hub.Domain.{
  Uuid, Instant, Namespace, SourceAgent, codex, chatgpt, trae, workbuddy, zcode, qoderwork,
  claude_code, agent_rank, retrospective, is_retrospective, is_active, cold, BehaviorMemoryInput,
  BehaviorMemoryRecord, InsertResult,
}
use project_memory_hub.Database.{Db, SourceRef}
use project_memory_hub.Memories.Prepare.{required_text, hexdigest}
use project_memory_hub.Memories.Insert.{insert_or_ignore, new_row}
use project_memory_hub.Memories.Lifecycle.{set_state, updated}
use project_memory_hub.Memories.Search.{in_scope}
use project_memory_hub.Memories.Sources.{is_taken, holds, update_batch}

-- `SourceAgent.value`.
abbrev pub agent_text : SourceAgent → Text
agent_text codex = codes "codex"
agent_text chatgpt = codes "chatgpt"
agent_text trae = codes "trae"
agent_text workbuddy = codes "workbuddy"
agent_text zcode = codes "zcode"
agent_text qoderwork = codes "qoderwork"
agent_text claude_code = codes "claude_code"

-- The rows that one batch makes cold.
abbrev pub in_batch : Uuid → Namespace → List Uuid → BehaviorMemoryRecord → Bool
in_batch project_id namespace batch row =
    is_taken project_id namespace row && holds batch row.memory_id

-- The loop over the batches, with the sum of `rowcount` so far.
unfoldable pub cold_batches : Uuid → Namespace → ℕ → List (List Uuid) → Exec Db ℕ
cold_batches project_id namespace cold_count [] = pure cold_count
cold_batches project_id namespace cold_count (batch ∷ rest) = do
  rowcount ← gets (λ db. updated (in_batch project_id namespace batch) db.memories)
  modify (λ db. record db {
    memories = set_state (in_batch project_id namespace batch) cold db.memories;
  })
  cold_batches project_id namespace (cold_count + rowcount) rest

unfoldable pub cold_compaction_sources : Uuid → Namespace → List Uuid → Exec Db ℕ
cold_compaction_sources project_id namespace source_ids =
    cold_batches project_id namespace 0 (batches (length source_ids) update_batch source_ids)

-- `{str(item).lower() for item in source_ids}`, sorted: the sorted list without repetitions.
abbrev pub drop_repeats : List Uuid → List Uuid
drop_repeats [] = []
drop_repeats (x ∷ xs) = if holds xs x then drop_repeats xs else x ∷ drop_repeats xs

unfoldable pub sorted_set : List Uuid → List Uuid
unfolding sort
sorted_set xs = sort nat_order (λ x. x) (drop_repeats xs)

-- Two source references that the table cannot hold together.
unfoldable pub clash_source : SourceRef → SourceRef → Bool
clash_source a b =
    a.source_reference_id == b.source_reference_id
    || (agent_rank a.source_agent == agent_rank b.source_agent
        && text_eq a.source_record_id b.source_record_id
        && text_eq a.content_hash b.content_hash)

-- The texts that identify a compaction: the record id of its source, and its task fingerprint.
pub record Provenance : Type 0 where
  pub record_id : Text
  pub fingerprint : Text

module _ (sha256 : Text → Text) where
  unfoldable pub provenance : Uuid → SourceAgent → Text → List Uuid → Provenance
  provenance project_id agent model_digest ordered_ids =
      let included_digest = sha256 (join (10 ∷ []) (map uuid_text ordered_ids)) in
      let namespace_digest = sha256 (
        join (0 ∷ [])
          (uuid_text project_id ∷ agent_text agent ∷ model_digest ∷ included_digest ∷ [])) in
      record {
        record_id = codes "compaction-v1:" ++ namespace_digest;
        fingerprint = sha256 (
            join (0 ∷ [])
              (codes "compaction-v1" ∷ agent_text agent ∷ model_digest ∷ included_digest ∷ []));
      }
