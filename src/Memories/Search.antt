-- ===== src/Memories/Search.antt =====
-- `MemoryRepository.search`, `list_scoped`, `get_scoped` and `get_by_id` of storage/memories.py.
pub mod Laws
use project_memory_hub.Common.{
  ℕ, ◌+◌, Bool, true, false, not, ◌&&◌, Option, none, some, List, [], ◌∷◌, ◌==◌, leb, if◌then◌else◌,
  select, take, find_first,
}
use project_memory_hub.Common.Order.{StrictOrder, nat_order, dual, pair_order}
use project_memory_hub.Common.Order.Sort.{sort}
use project_memory_hub.Common.Exec.{Result, ok, err, guard, then_pure, value_error, key_error}
use project_memory_hub.Text.{Text}
use project_memory_hub.Text.Terms.{tokens, count_from}
use project_memory_hub.Domain.{
  Uuid, Namespace, same_namespace, BehaviorMemoryRecord, is_active, is_deleted,
}
use project_memory_hub.Domain.Timestamp.{float_timestamp}
use project_memory_hub.Database.{Db}
use project_memory_hub.Database.Iso.{iso_rank}

abbrev pub candidate_window : ℕ
candidate_window = 1000

-- `_validate_limit`.
unfoldable pub validate_limit : ℕ → Result (Unit {0})
validate_limit limit = guard (leb 1 limit && leb limit 100) value_error

-- `project_id = ? and source_agent = ? and model_id = ?`.
unfoldable pub in_scope : Uuid → Namespace → BehaviorMemoryRecord → Bool
in_scope project_id namespace row =
    row.project_id == project_id && same_namespace row.namespace namespace

-- `created_at desc, memory_id`, by the texts of the columns.
abbrev pub recency_order : StrictOrder (ℕ × ℕ)
recency_order = pair_order (dual nat_order) nat_order

abbrev pub stored_recency : BehaviorMemoryRecord → ℕ × ℕ
stored_recency row = (iso_rank row.created_at, row.memory_id)

unfoldable pub candidates : Uuid → Namespace → Db → List BehaviorMemoryRecord
candidates project_id namespace db = take candidate_window (
    sort recency_order stored_recency (
      select (λ row. in_scope project_id namespace row && is_active row.lifecycle_state)
        db.memories))

-- `sum(content.count(term) for term in terms)`.
unfoldable pub score : List Text → Text → ℕ
score [] content = 0
score (term ∷ terms) content = count_from term 0 content + score terms content

-- `-_timestamp(row.created_at), str(row.memory_id)`.
abbrev pub recency : BehaviorMemoryRecord → ℕ × ℕ
recency row = (float_timestamp row.created_at, row.memory_id)

abbrev pub score_order : StrictOrder (ℕ × (ℕ × ℕ))
score_order = pair_order (dual nat_order) recency_order

module _ (casefold : Text → Text) where
  abbrev pub row_score : List Text → BehaviorMemoryRecord → ℕ
  row_score terms row = score terms (casefold row.normalized_content)

  -- The two sorts of the loaded rows, without terms and with them.
  unfoldable pub ranked : List Text → List BehaviorMemoryRecord → List BehaviorMemoryRecord
  ranked [] records = sort recency_order recency records
  ranked (term ∷ terms) records =
      sort score_order (λ row. (row_score (term ∷ terms) row, recency row))
        (select (λ row. not (row_score (term ∷ terms) row == 0)) records)

  unfoldable pub search : Uuid → Namespace → Text → ℕ → Db → Result (List BehaviorMemoryRecord)
  search project_id namespace query limit db =
      then_pure (validate_limit limit)
        λ _. ok (take limit (ranked (tokens casefold query) (candidates project_id namespace db)))

unfoldable pub list_scoped : Uuid → Namespace → ℕ → Db → Result (List BehaviorMemoryRecord)
list_scoped project_id namespace limit db = then_pure (validate_limit limit) λ _. ok (
    take limit (
      sort recency_order stored_recency (
        select (λ row. in_scope project_id namespace row && not (is_deleted row.lifecycle_state))
          db.memories)))

abbrev pub or_key_error : {A : Type 0} → Option A → Result A
or_key_error none = err key_error
or_key_error (some a) = ok a

unfoldable pub get_scoped : Uuid → Namespace → Uuid → Db → Result BehaviorMemoryRecord
get_scoped project_id namespace memory_id db = or_key_error (
    find_first (λ row. row.memory_id == memory_id && in_scope project_id namespace row) db.memories)

unfoldable pub get_by_id : Uuid → Db → Result BehaviorMemoryRecord
get_by_id memory_id db = or_key_error (find_first (λ row. row.memory_id == memory_id) db.memories)
