-- ===== src/Memories/Namespaces.antt =====
-- `list_compaction_namespaces` and its scan of storage/memories.py: one indexed query for each
-- namespace, that starts behind the one found last.
pub mod Laws
pub mod Nearest
use project_memory_hub.Common.{
  ℕ, zero, suc, Bool, true, false, not, ◌&&◌, Option, none, some, List, [], ◌∷◌, ◌==◌, ltb, leb,
  select,
}
use project_memory_hub.Common.Order.{StrictOrder, nat_order, text_order, pair_order}
use project_memory_hub.Common.Order.Sort.{first}
use project_memory_hub.Common.Exec.{Result, ok, guard, then_pure, value_error}
use project_memory_hub.Text.{Text}
use project_memory_hub.Domain.{
  Uuid, Namespace, agent_rank, BehaviorMemoryRecord, is_active, is_retrospective,
}
use project_memory_hub.Database.{Db}

-- `source_agent, model_id`, by the texts of the columns.
abbrev pub namespace_order : StrictOrder (ℕ × Text)
namespace_order = pair_order nat_order text_order

abbrev pub namespace_key : Namespace → ℕ × Text
namespace_key n = (agent_rank n.source_agent, n.model_id)

abbrev pub row_key : BehaviorMemoryRecord → ℕ × Text
row_key row = namespace_key row.namespace

-- The rows that a compaction may take.
abbrev pub is_source : Uuid → BehaviorMemoryRecord → Bool
is_source project row =
    row.project_id == project
    && is_active row.lifecycle_state
    && not (is_retrospective row.memory_kind)

-- The three queries of the loop.
unfoldable pub first_namespace : Uuid → List BehaviorMemoryRecord → Option BehaviorMemoryRecord
unfolding first
first_namespace project rows = first namespace_order row_key (select (is_source project) rows)

unfoldable pub next_model :
    Uuid → Namespace → List BehaviorMemoryRecord → Option BehaviorMemoryRecord
unfolding first
next_model project cursor rows =
    first text_order (λ row. row.namespace.model_id)
      (select
        (λ row.
          is_source project row
          && agent_rank row.namespace.source_agent == agent_rank cursor.source_agent
          && text_order.lt cursor.model_id row.namespace.model_id)
        rows)

unfoldable pub next_agent :
    Uuid → Namespace → List BehaviorMemoryRecord → Option BehaviorMemoryRecord
unfolding first
next_agent project cursor rows = first namespace_order row_key (
    select
      (λ row.
        is_source project row
        && ltb (agent_rank cursor.source_agent) (agent_rank row.namespace.source_agent))
      rows)

abbrev pub or_else : {A : Type 0} → Option A → Option A → Option A
or_else none other = other
or_else (some a) other = some a

unfoldable pub next_row :
    Uuid → Option Namespace → List BehaviorMemoryRecord → Option BehaviorMemoryRecord
next_row project none rows = first_namespace project rows
next_row project (some cursor) rows =
    or_else (next_model project cursor rows) (next_agent project cursor rows)

-- The `while` loop: `room` is what `selected` may still take, and each round takes one or breaks.
unfoldable pub scan_namespaces :
    ℕ → Uuid → Option Namespace → List BehaviorMemoryRecord → List Namespace
scan_namespaces zero project cursor rows = []
scan_namespaces (suc room) project cursor rows = elim (next_row project cursor rows) [
  | none ↦ []
  | some row ↦ row.namespace ∷ scan_namespaces room project (some row.namespace) rows
]

unfoldable pub list_compaction_namespaces_on_connection : Uuid → ℕ → Db → Result (List Namespace)
list_compaction_namespaces_on_connection project limit db =
    then_pure (guard (leb 1 limit && leb limit 10001) value_error)
      λ _. ok (scan_namespaces limit project none db.memories)

unfoldable pub list_compaction_namespaces : Uuid → Db → Result (List Namespace)
unfolding list_compaction_namespaces_on_connection
list_compaction_namespaces project db = list_compaction_namespaces_on_connection project 1000 db
