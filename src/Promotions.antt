-- ===== src/Promotions.antt =====
-- `PromotionRepository` of storage/promotions.py: a memory of one model becomes a shared rule once
-- somebody approves it. The redactor's text is a parameter.
pub mod Laws
pub mod Approve
pub mod Approved
pub mod Approval
use project_memory_hub.Common.{
  ℕ, Bool, true, false, not, ◌&&◌, Option, none, some, List, [], ◌∷◌, ◌++◌, ◌==◌, if◌then◌else◌,
  map, any, select, find_first,
}
use project_memory_hub.Common.Order.{StrictOrder, nat_order, pair_order}
use project_memory_hub.Common.Order.Sort.{sort, first}
use project_memory_hub.Common.Exec.{
  Exec, Result, ok, err, pure, raise, lift, gets, modify, guard, then_pure, transaction, ◌>>=◌,
  ◌>>◌, value_error, key_error, integrity_error, assertion_error,
}
use project_memory_hub.Text.{Text, codes, is_empty}
use project_memory_hub.Text.Equal.{text_eq}
use project_memory_hub.Text.Uuid.{uuid_text}
use project_memory_hub.Domain.{
  Uuid, Instant, Namespace, same_namespace, ProjectFactInput, FactRecord, BehaviorMemoryRecord,
}
use project_memory_hub.Database.{Db, PromotionRow, PromotionStatus, pending, approved, rejected}
use project_memory_hub.Database.Iso.{iso_rank}
use project_memory_hub.Memories.Compact.{agent_text}
use project_memory_hub.Memories.Search.{get_scoped}
use project_memory_hub.Checkpoints.{text}
use project_memory_hub.Checkpoints.Json.{canonical_json}
use project_memory_hub.Recall.Terms.{line}
use project_memory_hub.Facts.Observe.{Observed, observe_on_connection}

module _ (redact : Text → Text) where
  -- `_safe_required`; `" ".join(value.split())` is `line`.
  unfoldable pub safe_required : Text → Result Text
  unfolding line
  safe_required value =
      let redacted = line (redact (line value)) in
      then_pure (guard (not (is_empty redacted)) value_error) λ _. ok redacted

  -- `_exact_safe_persisted` of a text; an agent's text is always one of `SourceAgent`.
  unfoldable pub exact_safe_persisted : Text → Result Text
  unfolding line text_eq
  exact_safe_persisted value =
      then_pure
        (guard
          (not (is_empty (line value))
            && text_eq (line value) value
            && text_eq (line (redact value)) value)
          value_error)
        λ _. ok value

  -- The same of a column that may be null.
  abbrev pub exact_safe_column : Option Text → Result Text
  unfolding exact_safe_persisted
  exact_safe_column none = err value_error
  exact_safe_column (some value) = exact_safe_persisted value

abbrev pub is_pending : PromotionStatus → Bool
is_pending pending = true
is_pending _ = false

abbrev pub requested_order : StrictOrder (ℕ × ℕ)
requested_order = pair_order nat_order nat_order

-- `memory_id = ? and proposed_rule = ? and status = 'pending'`.
unfoldable pub is_request : Uuid → Text → PromotionRow → Bool
unfolding text_eq
is_request memory_id rule row =
    row.memory_id == memory_id && text_eq row.proposed_rule rule && is_pending row.status

abbrev pub request_rank : PromotionRow → ℕ × ℕ
unfolding iso_rank
request_rank row = (iso_rank row.requested_at, row.promotion_id)

-- The first pending request of the same rule for the memory.
unfoldable pub existing_request : Uuid → Text → Db → Option PromotionRow
unfolding first is_request request_rank
existing_request memory_id rule db =
    first requested_order request_rank (select (is_request memory_id rule) db.promotions)

abbrev pub new_request : Uuid → Text → Instant → Uuid → PromotionRow
new_request memory_id rule now promotion_id = record {
  promotion_id = promotion_id;
  memory_id = memory_id;
  proposed_rule = rule;
  approval_actor = none;
  requested_at = now;
  approved_at = none;
  status = pending;
}

unfoldable pub insert_promotion : PromotionRow → Exec Db (Unit {0})
insert_promotion row db =
    elim (any (λ other. other.promotion_id == row.promotion_id) db.promotions) [
      | true ↦ (err integrity_error, db)
      | false ↦ (ok tt, record db { promotions = db.promotions ++ row ∷ [] })
    ]

unfoldable pub read_promotion : Uuid → Exec Db PromotionRow
read_promotion promotion_id db =
    elim (find_first (λ row. row.promotion_id == promotion_id) db.promotions) [
      | none ↦ (err assertion_error, db)
      | some row ↦ (ok row, db)
    ]

abbrev pub or_insert : Option PromotionRow → PromotionRow → Exec Db PromotionRow
unfolding insert_promotion read_promotion
or_insert (some existing) row = pure existing
or_insert none row = do insert_promotion row; read_promotion row.promotion_id

-- `_request_on_connection`, with the new id and the time that it draws.
unfoldable pub request_on_connection : Uuid → Text → Instant → Uuid → Exec Db PromotionRow
unfolding existing_request insert_promotion read_promotion
request_on_connection memory_id rule now promotion_id = do
  existing ← gets (existing_request memory_id rule)
  or_insert existing (new_request memory_id rule now promotion_id)

module _ (redact : Text → Text) where
  -- The transaction of `request_scoped`.
  abbrev pub request_found : Uuid → Namespace → Uuid → Instant → Uuid → Text → Exec Db PromotionRow
  request_found project_id namespace memory_id now promotion_id rule = do
    memory ← λ db. (get_scoped project_id namespace memory_id db, db)
    request_on_connection memory_id rule now promotion_id

  unfoldable pub request_scoped :
      Uuid → Namespace → Uuid → Text → Instant → Uuid → Exec Db PromotionRow
  unfolding safe_required exact_safe_persisted get_scoped request_on_connection transaction
  request_scoped project_id namespace memory_id proposed_rule now promotion_id = do
    rule ← lift (safe_required redact proposed_rule)
    lift (exact_safe_persisted redact (agent_text namespace.source_agent))
    lift (exact_safe_persisted redact namespace.model_id)
    transaction (request_found project_id namespace memory_id now promotion_id rule)
