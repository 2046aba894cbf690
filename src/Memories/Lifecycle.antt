-- ===== src/Memories/Lifecycle.antt =====
-- `MemoryRepository.set_lifecycle_scoped` of storage/memories.py, and the updates of lifecycle states.
pub mod Laws
use project_memory_hub.Common.{
  ℕ, ◌+◌, Bool, true, false, not, ◌&&◌, ◌||◌, Option, none, some, List, [], ◌∷◌, ◌==◌,
  if◌then◌else◌, select, map, length,
}
use project_memory_hub.Common.Exec.{
  Exec, Result, ok, err, pure, raise, lift, gets, modify, guard, transaction, ◌>>=◌, ◌>>◌,
  value_error, key_error,
}
use project_memory_hub.Domain.{
  Uuid, Namespace, BehaviorMemoryRecord, LifecycleState, active, cold, archived, deleted,
  is_deleted,
}
use project_memory_hub.Database.{Db}
use project_memory_hub.Memories.Search.{in_scope, get_scoped}

-- `update behavior_memories set lifecycle_state = state where test`: the rows, and `rowcount`.
unfoldable pub set_state :
    (BehaviorMemoryRecord → Bool)
    → LifecycleState
    → List BehaviorMemoryRecord
    → List BehaviorMemoryRecord
set_state test state rows =
    map (λ row. if test row then record row { lifecycle_state = state } else row) rows

unfoldable pub updated : (BehaviorMemoryRecord → Bool) → List BehaviorMemoryRecord → ℕ
updated test rows = length (select test rows)

-- `{LifecycleState.ARCHIVED, LifecycleState.DELETED}`.
abbrev pub is_control_state : LifecycleState → Bool
is_control_state archived = true
is_control_state deleted = true
is_control_state _ = false

abbrev pub target : Uuid → Namespace → Uuid → BehaviorMemoryRecord → Bool
target project_id namespace memory_id row =
    row.memory_id == memory_id
    && in_scope project_id namespace row
    && not (is_deleted row.lifecycle_state)

unfoldable pub set_lifecycle_scoped :
    Uuid → Namespace → Uuid → LifecycleState → Exec Db BehaviorMemoryRecord
set_lifecycle_scoped project_id namespace memory_id selected = do
  lift (guard (is_control_state selected) value_error)
  transaction (do
    rowcount ← gets (λ db. updated (target project_id namespace memory_id) db.memories)
    modify (λ db. record db {
      memories = set_state (target project_id namespace memory_id) selected db.memories;
    })
    lift (guard (rowcount == 1) key_error)
    λ db. (get_scoped project_id namespace memory_id db, db))
