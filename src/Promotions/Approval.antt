-- ===== src/Promotions/Approval.antt =====
-- `_approve_on_connection` and `approve_scoped` of storage/promotions.py: an approval marks the
-- request, and the rule becomes a fact of the project.
use project_memory_hub.Common.{
  ℕ, ◌&&◌, Option, none, some, List, [], ◌∷◌, ◌==◌, if◌then◌else◌, map, find_first,
}
use project_memory_hub.Common.Exec.{
  Exec, Result, ok, err, pure, lift, modify, guard, transaction, ◌>>=◌, ◌>>◌, value_error,
  key_error,
}
use project_memory_hub.Text.{Text, codes}
use project_memory_hub.Text.Uuid.{uuid_text}
use project_memory_hub.Domain.{
  Uuid, Instant, Namespace, same_namespace, ProjectFactInput, FactRecord, BehaviorMemoryRecord,
}
use project_memory_hub.Database.{Db, PromotionRow, PromotionStatus, pending, approved, rejected}
use project_memory_hub.Memories.Compact.{agent_text}
use project_memory_hub.Memories.Search.{get_scoped}
use project_memory_hub.Checkpoints.{text}
use project_memory_hub.Checkpoints.Json.{canonical_json}
use project_memory_hub.Facts.Observe.{observe_on_connection}
use project_memory_hub.Promotions.{
  safe_required, exact_safe_persisted, exact_safe_column, is_pending,
}

-- The promotion's row beside its memory's.
abbrev pub Joined : Type 0
Joined = PromotionRow × BehaviorMemoryRecord

abbrev pub joined_with : PromotionRow → Option BehaviorMemoryRecord → Option Joined
joined_with promotion none = none
joined_with promotion (some memory) = some (promotion, memory)

abbrev pub join_memory : Uuid → List BehaviorMemoryRecord → Option PromotionRow → Option Joined
join_memory project_id memories none = none
join_memory project_id memories (some promotion) = joined_with promotion (
    find_first
      (λ memory. memory.memory_id == promotion.memory_id && memory.project_id == project_id)
      memories)

-- `select promotion.*, … from memory_promotions join behavior_memories …`.
unfoldable pub joined_promotion : Uuid → Uuid → Db → Option Joined
joined_promotion project_id promotion_id db =
    join_memory project_id db.memories
      (find_first (λ row. row.promotion_id == promotion_id) db.promotions)

abbrev pub or_missing : {A : Type 0} → Option A → Result A
or_missing none = err key_error
or_missing (some a) = ok a

-- `update memory_promotions … where promotion_id = ? and status = 'pending'`.
unfoldable pub approve_row : Uuid → Text → Instant → Db → Db
approve_row promotion_id actor observed_at db = record db {
  promotions =
      map
        (λ row.
          if row.promotion_id == promotion_id && is_pending row.status
          then record row {
            status = approved;
            approval_actor = some actor;
            approved_at = some observed_at;
          }
          else row)
        db.promotions;
}

-- `1.0`.
abbrev pub full_confidence : ℕ
full_confidence = 0x3ff0000000000000

unfoldable pub approval_evidence : Text → Text → Uuid → Text → Text
unfolding canonical_json uuid_text
approval_evidence actor model_id promotion_id source_agent = canonical_json (
    (codes "approval_actor", text actor)
    ∷ (codes "model_id", text model_id)
    ∷ (codes "promotion_id", text (uuid_text promotion_id))
    ∷ (codes "source_agent", text source_agent)
    ∷ [])

abbrev pub shared_rule : Text → Text → Instant → ProjectFactInput
shared_rule rule reference observed_at = record {
  category = codes "approved_shared_rule";
  normalized_content = rule;
  evidence_type = codes "user_approval";
  evidence_reference = reference;
  observed_at = observed_at;
  confidence = full_confidence;
}

-- What an operation draws: the time of an approval, the time of the fact's row, and its id.
pub record Drawn : Type 0 where
  pub observed_at : Instant
  pub now : Instant
  pub fact_id : Uuid

-- The writes of `_approve_on_connection`, by the actor of the evidence.
unfoldable pub write_approval :
    Uuid → PromotionStatus → Uuid → Text → Text → Text → Text → Drawn → Exec Db FactRecord
unfolding approval_evidence approve_row observe_on_connection
write_approval promotion_id status project_id rule source_agent model_id effective drawn = do
  modify
      (if is_pending status then approve_row promotion_id effective drawn.observed_at else λ db. db)
  observed ←
      observe_on_connection project_id
        (shared_rule rule (approval_evidence effective model_id promotion_id source_agent)
          drawn.observed_at)
        drawn.now drawn.fact_id
  pure observed.fact_record

module _ (redact : Text → Text) where
  -- The actor of the evidence: of an approved promotion the stored one.
  unfoldable pub effective_actor : PromotionRow → Text → Result Text
  unfolding exact_safe_persisted
  effective_actor promotion actor = elim promotion.status [
    | pending ↦ ok actor
    | approved ↦ exact_safe_column redact promotion.approval_actor
    | rejected ↦ err value_error
  ]

  unfoldable pub approve_on_connection :
      Uuid → PromotionRow → BehaviorMemoryRecord → Text → Drawn → Exec Db FactRecord
  unfolding exact_safe_persisted effective_actor write_approval
  approve_on_connection promotion_id promotion memory actor drawn = do
    rule ← lift (exact_safe_persisted redact promotion.proposed_rule)
    source_agent ← lift (exact_safe_persisted redact (agent_text memory.namespace.source_agent))
    model_id ← lift (exact_safe_persisted redact memory.namespace.model_id)
    effective ← lift (effective_actor promotion actor)
    write_approval promotion_id promotion.status memory.project_id rule source_agent model_id
        effective drawn

  -- The checks of the joined row, before `_approve_on_connection`.
  abbrev pub approve_joined : Uuid → Namespace → Uuid → Text → Drawn → Joined → Exec Db FactRecord
  approve_joined project_id namespace promotion_id actor drawn (promotion, joined) = do
    lift (exact_safe_persisted redact (agent_text joined.namespace.source_agent))
    lift (exact_safe_persisted redact joined.namespace.model_id)
    lift (guard (same_namespace joined.namespace namespace) key_error)
    memory ← λ db. (get_scoped project_id namespace promotion.memory_id db, db)
    approve_on_connection promotion_id promotion memory actor drawn

  abbrev pub approve_found : Uuid → Namespace → Uuid → Drawn → Text → Exec Db FactRecord
  approve_found project_id namespace promotion_id drawn actor = do
    found ← λ db. (or_missing (joined_promotion project_id promotion_id db), db)
    approve_joined project_id namespace promotion_id actor drawn found

  unfoldable pub approve_scoped : Uuid → Namespace → Uuid → Text → Drawn → Exec Db FactRecord
  unfolding safe_required exact_safe_persisted joined_promotion same_namespace get_scoped
      approve_on_connection transaction
  approve_scoped project_id namespace promotion_id approval_actor drawn =
      lift (safe_required redact approval_actor) >>= λ actor.
      transaction (approve_found project_id namespace promotion_id drawn actor)
