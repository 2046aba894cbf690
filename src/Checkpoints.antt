-- ===== src/Checkpoints.antt =====
-- storage/checkpoints.py: the checkpoints of the adapters and the receipts of imported records.
pub mod Json
pub mod Receipts
pub mod Commit
pub mod Proofs
use project_memory_hub.Common.{ℕ, List, Option}
use project_memory_hub.Text.{Text}
use project_memory_hub.Domain.{Instant, SourceAgent}
use project_memory_hub.Database.{ReceiptRow}

-- A value of a cursor: a string, or an integer n or -1 - n.
pub data Scalar : Type 0 where
  text : Text → Scalar
  natural : ℕ → Scalar
  negative : ℕ → Scalar

-- `dict[str, str | int]`, in the order of insertion.
abbrev pub Cursor : Type 0
Cursor = List (Text × Scalar)

pub record AdapterCheckpoint : Type 0 where
  pub adapter : SourceAgent
  pub scope : Text
  pub cursor : Cursor
  pub parser_version : Text

pub record CheckpointRow : Type 0 where
  pub adapter : SourceAgent
  pub scope : Text
  pub cursor_json : Text
  pub parser_version : Text
  pub updated_at : Instant

pub record AppStateRow : Type 0 where
  pub name : Text
  pub value_json : Text
  pub updated_at : Instant

-- The three tables that the repository writes.
pub record Store : Type 0 where
  pub import_receipts : List ReceiptRow
  pub checkpoints : List CheckpointRow
  pub app_state : List AppStateRow
