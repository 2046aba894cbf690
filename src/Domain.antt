-- ===== src/Domain.antt =====
-- domain.py: the enumerations and records that the components exchange. A UUID is its 128-bit
-- number, whose order is that of its lower-case text; an instant is its microseconds since year 1 in
-- UTC; a confidence is the bit pattern of its float, on which the order of naturals is that of
-- floats from 0.0 to 1.0.
pub mod Equal
pub mod Timestamp
use project_memory_hub.Common.{
  ℕ, ◌≡◌, refl, ◌⊎◌, inl, inr, Bool, true, false, ◌&&◌, ◌||◌, not, Option, none, some, List, [],
  ◌∷◌, ltb, leb, ◌==◌, if◌then◌else◌, arith, length, any,
}
use project_memory_hub.Common.Exec.{Result, ok, err, value_error, then_pure, guard}
use project_memory_hub.Text.{Text, strip}
use project_memory_hub.Text.Equal.{text_eq}
use project_memory_hub.Text.Utf8.{strict_utf8_size}

abbrev pub Uuid : Type 0
Uuid = ℕ

abbrev pub Instant : Type 0
Instant = ℕ

abbrev pub Confidence : Type 0
Confidence = ℕ

pub data SourceAgent : Type 0 where
  codex chatgpt trae workbuddy zcode qoderwork claude_code : SourceAgent

-- The position of `SourceAgent.value` in the order of texts.
abbrev pub agent_rank : SourceAgent → ℕ
agent_rank chatgpt = 0
agent_rank claude_code = 1
agent_rank codex = 2
agent_rank qoderwork = 3
agent_rank trae = 4
agent_rank workbuddy = 5
agent_rank zcode = 6

pub record Namespace : Type 0 where
  pub source_agent : SourceAgent
  pub model_id : Text

pub data MemoryKind : Type 0 where
  decision failed_attempt verified_method preference risk open_issue reusable_lesson : MemoryKind
  outcome retrospective : MemoryKind

-- The position of `MemoryKind.value` in the order of texts.
abbrev pub kind_rank : MemoryKind → ℕ
kind_rank decision = 0
kind_rank failed_attempt = 1
kind_rank open_issue = 2
kind_rank outcome = 3
kind_rank preference = 4
kind_rank retrospective = 5
kind_rank reusable_lesson = 6
kind_rank risk = 7
kind_rank verified_method = 8

pub data LifecycleState : Type 0 where
  active cold archived deleted : LifecycleState

-- `require_exact_bounded_model_id`, the validator of `Namespace`.
unfoldable pub namespace : SourceAgent → Text → Result Namespace
namespace agent value = then_pure (strict_utf8_size value) λ size.
    then_pure
      (guard
        (not (text_eq value [])
          && text_eq value (strip value)
          && leb (length value) 513
          && leb size 2049
          && not (any (λ c. ltb c 32 || c == 127) value))
        value_error)
      λ _. ok (record { source_agent = agent; model_id = value })

pub record BehaviorMemoryInput : Type 0 where
  pub project_id : Uuid
  pub namespace : Namespace
  pub task_fingerprint : Text
  pub memory_kind : MemoryKind
  pub normalized_content : Text
  pub content_hash : Text
  pub source_reference_id : Uuid
  pub created_at : Instant
  pub confidence : Confidence

pub record BehaviorMemoryRecord : Type 0 where
  pub input : BehaviorMemoryInput
  pub open input use *
  pub memory_id : Uuid
  pub lifecycle_state : LifecycleState

pub record InsertResult : Type 0 where
  pub inserted : Bool
  pub duplicate : Bool
  pub record_id : Uuid

abbrev pub is_active : LifecycleState → Bool
is_active active = true
is_active _ = false

abbrev pub is_deleted : LifecycleState → Bool
is_deleted deleted = true
is_deleted _ = false

abbrev pub is_retrospective : MemoryKind → Bool
is_retrospective retrospective = true
is_retrospective _ = false

-- Two namespaces are the same pair of source and exact model.
unfoldable pub same_namespace : Namespace → Namespace → Bool
same_namespace a b =
    agent_rank a.source_agent == agent_rank b.source_agent && text_eq a.model_id b.model_id

pub record ProjectFactInput : Type 0 where
  pub category : Text
  pub normalized_content : Text
  pub evidence_type : Text
  pub evidence_reference : Text
  pub observed_at : Instant
  pub confidence : Confidence

pub record FactRecord : Type 0 where
  pub input : ProjectFactInput
  pub open input use *
  pub fact_id : Uuid
  pub project_id : Uuid
  pub lifecycle_state : LifecycleState

pub record RecallRequest : Type 0 where
  pub cwd : Text
  pub task : Text
  pub namespace : Namespace
  pub max_tokens : ℕ

-- The bounds of `max_tokens`, and `strip_non_empty_task`.
unfoldable pub recall_request : Text → Text → Namespace → ℕ → Result RecallRequest
recall_request cwd task namespace max_tokens =
    then_pure
      (guard (leb 128 max_tokens && leb max_tokens 4096 && not (text_eq (strip task) []))
        value_error)
      λ _.
        ok (record { cwd = cwd; task = strip task; namespace = namespace; max_tokens = max_tokens })

pub data Warning : Type 0 where
  project_not_found token_budget_clamped token_counter_fallback : Warning
  mandatory_content_shortened token_budget_truncated : Warning

pub record RecallBrief : Type 0 where
  pub text : Text
  pub estimated_tokens : ℕ
  pub selected_ids : List Uuid
  pub omitted_count : ℕ
  pub warnings : List Warning
