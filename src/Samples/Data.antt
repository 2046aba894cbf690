-- ===== src/Samples/Data.antt =====
-- A database with one registered project, one source of Codex and three rows.
use project_memory_hub.Common.{ℕ, none, some, [], ◌∷◌, true}
use project_memory_hub.Text.{Text, codes}
use project_memory_hub.Domain.{
  Namespace, codex, MemoryKind, verified_method, decision, BehaviorMemoryInput,
  BehaviorMemoryRecord, LifecycleState, active, Instant,
}
use project_memory_hub.Database.{Db, ProjectRow, SourceRef}
use project_memory_hub.Database

-- A digest that is the same for every text.
abbrev pub digest : Text → Text
digest t = codes "aaaaaaaaaaaaaaaaaaaaaaaaaaaaaaaaaaaaaaaaaaaaaaaaaaaaaaaaaaaaaaaa"

-- `str.casefold` on texts without capitals.
abbrev pub folded : Text → Text
folded t = t

abbrev pub gpt : Namespace
gpt = record { source_agent = codex; model_id = codes "gpt" }

abbrev pub sonnet : Namespace
sonnet = record { source_agent = codex; model_id = codes "sonnet" }

abbrev pub observed : Text
observed = codes "2026-01-01T00:00:00Z"

abbrev pub project : ProjectRow
project = record {
  project_id = 1;
  enabled = true;
  inactivity_state = Database.active;
  last_observed_change = some observed;
  last_observed_change_epoch_us = some 1000;
  updated_at = 1000;
}

abbrev pub source : SourceRef
source = record {
  source_reference_id = 7;
  source_agent = codex;
  source_record_id = codes "thread-1";
  source_path = none;
  content_hash = digest [];
  source_timestamp = 1000;
  parser_version = codes "codex-v1";
  created_at = 1000;
  capture_project_id = none;
  capture_model_id = none;
}

abbrev pub memory : Namespace → MemoryKind → Text → Instant → BehaviorMemoryInput
memory namespace kind content created_at = record {
  project_id = 1;
  namespace = namespace;
  task_fingerprint = digest [];
  memory_kind = kind;
  normalized_content = content;
  content_hash = digest content;
  source_reference_id = 7;
  created_at = created_at;
  confidence = 0;
}

abbrev pub method : BehaviorMemoryInput
method = memory gpt verified_method (codes "run pytest first") 5000000

abbrev pub choice : BehaviorMemoryInput
choice = memory gpt decision (codes "use pytest") 6000000

abbrev pub row : ℕ → LifecycleState → BehaviorMemoryInput → BehaviorMemoryRecord
row memory_id state input = record { input = input; memory_id = memory_id; lifecycle_state = state }

abbrev pub other : BehaviorMemoryInput
other = memory sonnet decision (codes "use unittest") 7000000

-- No memories yet.
abbrev pub empty_db : Db
empty_db = record {
  projects = project ∷ [];
  source_refs = source ∷ [];
  memories = [];
  import_receipts = [];
  facts = [];
  promotions = [];
  resolutions = [];
}

-- A method and a decision of one model, and a decision of another one.
abbrev pub full_db : Db
full_db = record empty_db {
  memories = row 11 active method ∷ row 12 active choice ∷ row 13 active other ∷ [];
}
