-- ===== src/Compaction/Plan/Build.antt =====
-- `_build_plan` of services/compaction.py and its helpers. Its redactor, `str.casefold`, hashlib's
-- SHA-256 and `_failure_signature` are parameters.
use project_memory_hub.Common.{
  ℕ, Bool, not, ◌&&◌, ◌||◌, List, [], ◌∷◌, ◌++◌, ◌==◌, leb, if◌then◌else◌, length, map, select,
}
use project_memory_hub.Common.Order.{StrictOrder, nat_order, pair_order, dual, text_order}
use project_memory_hub.Common.Order.Sort.{sort}
use project_memory_hub.Common.Exec.{
  Result, ok, guard, then_pure, value_error, runtime_error, bounds_error,
}
use project_memory_hub.Domain.Timestamp.{float_timestamp}
use project_memory_hub.Text.{Text, codes, is_empty, is_space, strip, rstrip}
use project_memory_hub.Text.Equal.{text_eq}
use project_memory_hub.Text.Utf8.{strict_utf8_size}
use project_memory_hub.Text.Uuid.{join}
use project_memory_hub.Text.Decimal.{decimal}
use project_memory_hub.Domain.{
  Uuid, MemoryKind, decision, failed_attempt, verified_method, preference, risk, open_issue,
  reusable_lesson, outcome, kind_rank, BehaviorMemoryRecord, is_retrospective,
}
use project_memory_hub.Memories.Prepare.{hexdigest, is_sha256}
use project_memory_hub.Memories.Sources.{is_nil, is_mandatory, ids}
use project_memory_hub.Memories.Compact.{drop_repeats}
use project_memory_hub.Compaction.Entry.{truncate_utf8}
use project_memory_hub.Compaction.Plan.Search.{build_bounded_plan}

abbrev pub max_entry_chars : ℕ
max_entry_chars = 512

abbrev pub max_entry_bytes : ℕ
max_entry_bytes = 2048

abbrev pub max_retrospective_chars : ℕ
max_retrospective_chars = 262144

abbrev pub max_retrospective_bytes : ℕ
max_retrospective_bytes = 1048576

-- What a redaction returns: the text, and whether "input_truncated" is one of its findings.
pub record Redaction : Type 0 where
  pub text : Text
  pub input_truncated : Bool

pub record CompactionPlan : Type 0 where
  pub content : Text
  pub source_ids : List Uuid
  pub source_reference_count : ℕ

-- The rows of one kind that have the same key.
pub record Group : Type 0 where
  pub kind : MemoryKind
  pub key : Text
  pub items : List BehaviorMemoryRecord

-- `text.split()`: `run` is the word that is read.
unfoldable pub split : Text → Text → List Text
unfolding is_space
split run [] = if is_empty run then [] else run ∷ []
split run (c ∷ t) =
    if is_space c
    then (if is_empty run then split [] t else run ∷ split [] t)
    else split (run ++ c ∷ []) t

-- `groups.setdefault((kind, key), []).append(row)`, in the order of the first rows.
unfoldable pub add_to_group : MemoryKind → Text → BehaviorMemoryRecord → List Group → List Group
add_to_group kind key row [] = record { kind = kind; key = key; items = row ∷ [] } ∷ []
add_to_group kind key row (group ∷ groups) =
    if kind_rank group.kind == kind_rank kind && text_eq group.key key
    then record group { items = group.items ++ row ∷ [] } ∷ groups
    else group ∷ add_to_group kind key row groups

abbrev pub section_order : List (MemoryKind × Text)
section_order =
    (verified_method, codes "Verified methods")
    ∷ (open_issue, codes "Open issues")
    ∷ (failed_attempt, codes "Failed attempts")
    ∷ (risk, codes "Risks")
    ∷ (preference, codes "Preferences")
    ∷ (decision, codes "Decisions")
    ∷ (outcome, codes "Outcomes")
    ∷ (reusable_lesson, codes "Reusable lessons")
    ∷ []

-- `len` of a set of source references.
abbrev pub source_references : List BehaviorMemoryRecord → ℕ
source_references rows = length (drop_repeats (map (λ row. row.source_reference_id) rows))

abbrev pub all_items : List Group → List BehaviorMemoryRecord
all_items [] = []
all_items (group ∷ groups) = group.items ++ all_items groups

module _ (sha256 casefold failure_signature : Text → Text) (redact : Text → Redaction) where
  abbrev pub newest_order : StrictOrder (ℕ × (Text × Text))
  newest_order = pair_order nat_order (pair_order text_order text_order)

  abbrev pub newest_key : BehaviorMemoryRecord → ℕ × (Text × Text)
  newest_key row =
      (float_timestamp row.created_at, (casefold row.normalized_content, row.content_hash))

  -- `max`: the first of the greatest.
  unfoldable pub newest : BehaviorMemoryRecord → List BehaviorMemoryRecord → BehaviorMemoryRecord
  newest best [] = best
  newest best (row ∷ rows) =
      newest (if newest_order.lt (newest_key best) (newest_key row) then row else best) rows

  -- `_deterministic_memory_order`.
  abbrev pub memory_order : StrictOrder (ℕ × (Text × Text))
  memory_order = pair_order (dual nat_order) (pair_order text_order text_order)

  unfoldable pub safe_entry : Text → Bool → Result Text
  unfolding truncate_utf8 split
  safe_entry value mandatory =
      let result = redact value in
      let redacted = join (32 ∷ []) (split [] result.text) in
      then_pure (guard (not result.input_truncated) bounds_error) λ _.
        then_pure (guard (not mandatory || leb (length redacted) max_entry_chars) bounds_error) λ _.
          then_pure (if mandatory then strict_utf8_size redacted else ok 0) λ size.
            then_pure (guard (leb size max_entry_bytes) bounds_error) λ _.
              then_pure (truncate_utf8 max_entry_chars max_entry_bytes redacted)
                λ bounded. then_pure (guard (not (is_empty bounded)) bounds_error) (λ _. ok bounded)

  unfoldable pub group_key : BehaviorMemoryRecord → Text
  group_key row =
      if kind_rank row.memory_kind == kind_rank failed_attempt
      then failure_signature row.normalized_content
      else row.content_hash

  -- The checks of one row, and the loop over the rows.
  unfoldable pub check_row : BehaviorMemoryRecord → Result Text
  check_row row = then_pure (guard (not (is_retrospective row.memory_kind)) runtime_error) λ _.
      then_pure (hexdigest sha256 row.normalized_content) λ expected.
        then_pure
          (guard (is_sha256 row.content_hash && text_eq expected row.content_hash) runtime_error)
          (λ _. ok expected)

  unfoldable pub group_rows : List BehaviorMemoryRecord → List Group → Result (List Group)
  group_rows [] groups = ok groups
  group_rows (row ∷ rows) groups =
      then_pure (check_row row)
        λ _. group_rows rows (add_to_group row.memory_kind (group_key row) row groups)

  abbrev pub representative : Group → List BehaviorMemoryRecord
  representative group = elim group.items [ [] ↦ [] | row ∷ rows ↦ newest row rows ∷ [] ]

  abbrev pub representatives : List Group → List BehaviorMemoryRecord
  representatives [] = []
  representatives (group ∷ groups) = representative group ++ representatives groups

  unfoldable pub entries : MemoryKind → List BehaviorMemoryRecord → Result (List Text)
  entries kind [] = ok []
  entries kind (row ∷ rows) =
      then_pure (safe_entry row.normalized_content (is_mandatory kind))
        λ entry. then_pure (entries kind rows) (λ rest. ok ((codes "- " ++ entry) ∷ rest))

  abbrev pub heading : Text → ℕ → ℕ → Text
  heading label items references =
      codes "## "
      ++ label
      ++ codes " (items="
      ++ decimal items
      ++ codes ", source_references="
      ++ decimal references
      ++ codes ")"

  unfoldable pub section_lines : List (MemoryKind × Text) → List Group → Result (List Text)
  section_lines [] groups = ok []
  section_lines ((kind, label) ∷ sections) groups =
      let selected = select (λ group. kind_rank group.kind == kind_rank kind) groups in
      let items = sort memory_order newest_key (representatives selected) in
      if is_nil selected
      then section_lines sections groups
      else then_pure (entries kind items) λ lines. then_pure (section_lines sections groups) λ rest.
        ok (
          heading label (length items) (source_references (all_items selected)) ∷ lines
          ++ ([] ∷ rest))

  abbrev pub document : List BehaviorMemoryRecord → List Text → Text
  document rows lines = rstrip (
      join (10 ∷ []) (
        codes "# Namespace retrospective"
        ∷ (codes "Source rows: " ++ decimal (length rows))
        ∷ (codes "Source references: " ++ decimal (source_references rows))
        ∷ []
        ∷ lines))

  -- The limits of the final text.
  unfoldable pub check_document : Redaction → Result Text
  check_document result =
      let final = strip result.text in
      then_pure (guard (not result.input_truncated) bounds_error) λ _.
        then_pure (guard (not (is_empty final)) bounds_error) λ _.
          then_pure (guard (leb (length final) max_retrospective_chars) bounds_error) λ _.
            then_pure (strict_utf8_size final) λ size.
              then_pure (guard (leb size max_retrospective_bytes) bounds_error) (λ _. ok final)

  unfoldable pub build_plan : List BehaviorMemoryRecord → Result CompactionPlan
  build_plan rows = then_pure (guard (not (is_nil rows)) value_error) λ _.
      then_pure (group_rows rows []) λ groups.
        then_pure (section_lines section_order groups) λ lines.
          then_pure (guard (not (is_nil lines)) runtime_error) λ _.
            then_pure (check_document (redact (document rows lines))) λ final. ok (record {
              content = final;
              source_ids = sort nat_order (λ x. x) (ids rows);
              source_reference_count = source_references rows;
            })

  -- `_build_bounded_plan`.
  unfoldable pub bounded_plan : List BehaviorMemoryRecord → Result CompactionPlan
  bounded_plan rows =
      build_bounded_plan build_plan (select (λ row. is_mandatory row.memory_kind) rows)
        (select (λ row. not (is_mandatory row.memory_kind)) rows)
