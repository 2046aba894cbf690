-- ===== src/Recall.antt =====
-- services/recall.py: the candidates of a brief and their orders. `_select_candidates` is in Fit and
-- Select, `RecallService.recall` in Service.
pub mod Terms
pub mod Counter
pub mod Render
pub mod Fit
pub mod Select
pub mod Service
pub mod Rank
pub mod Ids
use project_memory_hub.Common.{
  ℕ, zero, suc, ◌+◌, ◌-◌, ◌*◌, ◌/◌, ◌^◌, Bool, true, false, not, ◌&&◌, ◌||◌, Option, none, some,
  List, [], ◌∷◌, ◌++◌, ◌==◌, ltb, leb, if◌then◌else◌, select, any, map,
}
use project_memory_hub.Common.Order.{StrictOrder, nat_order, bool_order, dual, pair_order}
use project_memory_hub.Common.Order.Sort.{sort, least}
use project_memory_hub.Text.{Text, codes, is_empty}
use project_memory_hub.Text.Equal.{text_eq}
use project_memory_hub.Tokens.{nearest, round_to_float}
use project_memory_hub.Domain.Timestamp.{unix_epoch, scale}
use project_memory_hub.Domain.{
  Uuid, Instant, Confidence, MemoryKind, decision, failed_attempt, verified_method, preference,
  risk, open_issue, reusable_lesson, outcome, retrospective, FactRecord, BehaviorMemoryRecord,
}
use Terms.{line, relevance}

pub data Section : Type 0 where
  current_state verified_methods relevant_failures risks decisions preferences open_issues
        background :
      Section

-- `_SECTION_INDEX`.
abbrev pub section_index : Section → ℕ
section_index current_state = 0
section_index verified_methods = 1
section_index relevant_failures = 2
section_index risks = 3
section_index decisions = 4
section_index preferences = 5
section_index open_issues = 6
section_index background = 7

-- `_SECTION_ORDER`.
abbrev pub section_order : List Section
section_order =
    current_state ∷ verified_methods ∷ relevant_failures ∷ risks ∷ decisions ∷ preferences
    ∷ open_issues ∷ background ∷ []

abbrev pub section_title : Section → Text
section_title current_state = codes "Current state"
section_title verified_methods = codes "Verified methods"
section_title relevant_failures = codes "Relevant failures"
section_title risks = codes "Risks"
section_title decisions = codes "Decisions"
section_title preferences = codes "Preferences"
section_title open_issues = codes "Open issues"
section_title background = codes "Background"

-- `_MEMORY_SECTIONS`.
abbrev pub memory_section : MemoryKind → Section
memory_section decision = decisions
memory_section failed_attempt = relevant_failures
memory_section verified_method = verified_methods
memory_section preference = preferences
memory_section risk = risks
memory_section open_issue = open_issues
memory_section reusable_lesson = background
memory_section outcome = current_state
memory_section retrospective = background

abbrev pub is_current_state : Section → Bool
is_current_state current_state = true
is_current_state _ = false

abbrev pub is_open_issue : MemoryKind → Bool
is_open_issue open_issue = true
is_open_issue _ = false

abbrev pub is_verified_method : MemoryKind → Bool
is_verified_method verified_method = true
is_verified_method _ = false

pub record Candidate : Type 0 where
  pub record_id : Uuid
  pub content : Text
  pub section : Section
  pub mandatory : Bool
  pub path_command_match : ℕ
  pub overlap : ℕ
  pub evidence_strength : ℕ
  pub observed_at : ℕ
  pub confidence : Confidence
  pub reference_count : ℕ

-- `_CURRENT_FACT_CATEGORIES`.
abbrev pub current_fact_categories : List Text
current_fact_categories = map codes (
    "build_config" ∷ "file_extension_count" ∷ "git_branch" ∷ "git_dirty" ∷ "git_head"
    ∷ "git_remote_fingerprint" ∷ "graphify_summary" ∷ "language_count" ∷ "manifest"
    ∷ "package_script" ∷ "test_config" ∷ [])

unfoldable pub fact_evidence_strength : Text → ℕ
fact_evidence_strength evidence_type =
    if text_eq evidence_type (codes "user_approval")
    then 3
    else if is_empty evidence_type
    then 1
    else 2

-- `int(seconds * 1_000_000)` of the float `micros / 10 ** 6`.
unfoldable pub float_micros : ℕ → ℕ
unfolding scale nearest round_to_float
float_micros micros =
    let k = scale 128 0 micros (10 ^ 6) in
    round_to_float (nearest (micros * 2 ^ k) (10 ^ 6) * 10 ^ 6) / 2 ^ k

-- `_timestamp`, with 2 ^ 60 added: no instant is as far from 1970.
unfoldable pub timestamp : Instant → ℕ
unfolding float_micros
timestamp value =
    if leb unix_epoch value
    then 2 ^ 60 + float_micros (value - unix_epoch)
    else 2 ^ 60 - float_micros (unix_epoch - value)

module _ (casefold : Text → Text) where
  unfoldable pub fact_candidate : FactRecord → List Text → Candidate
  unfolding fact_evidence_strength timestamp
  fact_candidate fact task_terms =
      let content = line fact.normalized_content in
      let (overlap, path_command_match) = relevance casefold content task_terms in
      let is_current = any (text_eq fact.category) current_fact_categories || not (overlap == 0) in
      record {
        record_id = fact.fact_id;
        content = content;
        section = if is_current then current_state else background;
        mandatory = is_current;
        path_command_match = path_command_match;
        overlap = overlap;
        evidence_strength = fact_evidence_strength fact.evidence_type;
        observed_at = timestamp fact.observed_at;
        confidence = fact.confidence;
        reference_count = 1;
      }

  unfoldable pub memory_candidate : BehaviorMemoryRecord → List Text → Candidate
  unfolding timestamp
  memory_candidate memory task_terms =
      let content = line memory.normalized_content in
      let (overlap, path_command_match) = relevance casefold content task_terms in
      let section = memory_section memory.memory_kind in
      record {
        record_id = memory.memory_id;
        content = content;
        section = section;
        mandatory =
            is_current_state section
            || is_open_issue memory.memory_kind
            || is_verified_method memory.memory_kind
              && (not (overlap == 0) || not (path_command_match == 0));
        path_command_match = path_command_match;
        overlap = overlap;
        evidence_strength = if is_verified_method memory.memory_kind then 3 else 2;
        observed_at = timestamp memory.created_at;
        confidence = memory.confidence;
        reference_count = 1;
      }
