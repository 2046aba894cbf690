-- ===== src/Database.antt =====
-- The tables of the SQLite schema (storage/migrations) as lists of typed rows, in rowid order. A
-- statement is a function of the tables; `commit` and `rollback` are `transaction` of Common.Exec.
-- Every writer validates a value before it stores it, so a column holds values of its type.
pub mod Iso
use project_memory_hub.Common.{ℕ, Bool, List, Option}
use project_memory_hub.Text.{Text}
use project_memory_hub.Domain.{
  Uuid, Instant, Confidence, SourceAgent, Namespace, BehaviorMemoryRecord, LifecycleState,
  FactRecord,
}

pub data InactivityState : Type 0 where
  active inactive : InactivityState

pub record ProjectRow : Type 0 where
  pub project_id : Uuid
  pub enabled : Bool
  pub inactivity_state : InactivityState
  pub last_observed_change : Option Text
  pub last_observed_change_epoch_us : Option Instant
  pub updated_at : Instant

pub record SourceRef : Type 0 where
  pub source_reference_id : Uuid
  pub source_agent : SourceAgent
  pub source_record_id : Text
  pub source_path : Option Text
  pub content_hash : Text
  pub source_timestamp : Instant
  pub parser_version : Text
  pub created_at : Instant
  pub capture_project_id : Option Uuid
  pub capture_model_id : Option Text

pub record ReceiptRow : Type 0 where
  pub source_hash : Text
  pub source_record_id : Text
  pub source_agent : SourceAgent
  pub imported_at : Instant

-- A row of project_facts: the columns of a `FactRecord`, and those that only the queries read.
pub record FactRow : Type 0 where
  pub fact : FactRecord
  pub open fact use *
  pub supersedes_fact_id : Option Uuid
  pub stale_at : Option Instant
  pub created_at : Instant

pub data PromotionStatus : Type 0 where
  pending approved rejected : PromotionStatus

-- A row of memory_promotions; `requester` is always 'local_user'.
pub record PromotionRow : Type 0 where
  pub promotion_id : Uuid
  pub memory_id : Uuid
  pub proposed_rule : Text
  pub approval_actor : Option Text
  pub requested_at : Instant
  pub approved_at : Option Instant
  pub status : PromotionStatus

-- A row of memory_issue_resolutions: by the table's CHECK its status is 'resolved' if there is a
-- target, and otherwise 'not_found'.
pub record ResolutionRow : Type 0 where
  pub resolution_id : Uuid
  pub project_id : Uuid
  pub namespace : Namespace
  pub target_content_hash : Text
  pub target_memory_id : Option Uuid
  pub source_reference_id : Uuid
  pub resolved_at : Instant

pub record Db : Type 0 where
  pub projects : List ProjectRow
  pub source_refs : List SourceRef
  pub memories : List BehaviorMemoryRecord
  pub import_receipts : List ReceiptRow
  pub facts : List FactRow
  pub promotions : List PromotionRow
  pub resolutions : List ResolutionRow
