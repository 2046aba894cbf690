-- ===== src/Memories/Sources.antt =====
-- The choice of a compaction's source rows: `_compaction_identifiers`, `_compaction_records` and
-- `_select_compaction_sources_on_connection` of storage/memories.py.
pub mod Choice
pub mod Laws
pub mod Totals
use project_memory_hub.Common.{
  ℕ, ◌+◌, ◌-◌, ◌*◌, Bool, true, false, not, ◌&&◌, ◌||◌, Option, none, some, List, [], ◌∷◌, ◌++◌,
  ◌==◌, ltb, leb, if◌then◌else◌, select, take, any, all, map, length, find_first,
}
use project_memory_hub.Common.Batches.{batches}
use project_memory_hub.Common.Order.{StrictOrder, nat_order, pair_order}
use project_memory_hub.Common.Order.Sort.{sort}
use project_memory_hub.Common.Exec.{Result, ok, err, guard, then_pure, value_error, runtime_error}
use project_memory_hub.Text.{Text}
use project_memory_hub.Text.Utf8.{strict_utf8_size}
use project_memory_hub.Domain.{
  Uuid, Namespace, MemoryKind, decision, failed_attempt, verified_method, preference, risk,
  open_issue, reusable_lesson, outcome, retrospective, kind_rank, BehaviorMemoryRecord, is_active,
  is_retrospective,
}
use project_memory_hub.Database.{Db}
use project_memory_hub.Memories.Search.{in_scope, recency_order, stored_recency}

abbrev pub update_batch : ℕ
update_batch = 300

abbrev pub max_source_chars : ℕ
max_source_chars = 1000000

abbrev pub max_source_bytes : ℕ
max_source_bytes = 4000000

-- `_COMPACTION_MANDATORY_KINDS`.
abbrev pub is_mandatory : MemoryKind → Bool
is_mandatory failed_attempt = true
is_mandatory open_issue = true
is_mandatory risk = true
is_mandatory verified_method = true
is_mandatory _ = false

-- `_COMPACTION_OPTIONAL_KINDS`.
abbrev pub is_optional : MemoryKind → Bool
is_optional decision = true
is_optional outcome = true
is_optional preference = true
is_optional reusable_lesson = true
is_optional _ = false

-- `memory_kind, created_at desc, memory_id`.
abbrev pub kind_order : StrictOrder (ℕ × (ℕ × ℕ))
kind_order = pair_order nat_order recency_order

abbrev pub kind_key : BehaviorMemoryRecord → ℕ × (ℕ × ℕ)
kind_key row = (kind_rank row.memory_kind, stored_recency row)

-- An active row of the namespace.
abbrev pub is_live : Uuid → Namespace → BehaviorMemoryRecord → Bool
is_live project_id namespace row =
    in_scope project_id namespace row && is_active row.lifecycle_state

-- A row that a compaction of the namespace may take.
abbrev pub is_taken : Uuid → Namespace → BehaviorMemoryRecord → Bool
is_taken project_id namespace row =
    is_live project_id namespace row && not (is_retrospective row.memory_kind)

abbrev pub ids : List BehaviorMemoryRecord → List Uuid
ids rows = map (λ row. row.memory_id) rows

unfoldable pub compaction_identifiers : Uuid → Namespace → (MemoryKind → Bool) → ℕ → Db → List Uuid
compaction_identifiers project_id namespace kinds limit db = ids (
    take limit (
      sort kind_order kind_key
        (select (λ row. is_live project_id namespace row && kinds row.memory_kind) db.memories)))

-- `length(cast(normalized_content as blob))`; what is stored can be encoded.
abbrev pub byte_size : Text → ℕ
byte_size t = elim (strict_utf8_size t) [ ok n ↦ n | err e ↦ 0 ]

unfoldable pub is_oversized : BehaviorMemoryRecord → Bool
is_oversized row =
    ltb max_source_chars (length row.normalized_content)
    || ltb max_source_bytes (byte_size row.normalized_content)

abbrev pub holds : List Uuid → Uuid → Bool
holds xs x = any (λ y. x == y) xs

-- The rows of one batch that may be sources.
unfoldable pub batch_rows :
    Uuid → Namespace → List Uuid → List BehaviorMemoryRecord → List BehaviorMemoryRecord
batch_rows project_id namespace batch rows =
    select (λ row. is_taken project_id namespace row && holds batch row.memory_id) rows

-- The loop over the batches: a row that is too large ends it.
unfoldable pub read_batches :
    Uuid
    → Namespace
    → List (List Uuid)
    → List BehaviorMemoryRecord
    → Result (List BehaviorMemoryRecord)
read_batches project_id namespace [] rows = ok []
read_batches project_id namespace (batch ∷ rest) rows =
    let found = batch_rows project_id namespace batch rows in
    then_pure (guard (not (any is_oversized found)) runtime_error)
      λ _. then_pure (read_batches project_id namespace rest rows) λ more. ok (found ++ more)

-- `records[memory_id] for memory_id in ordered_ids`.
unfoldable pub pick : List Uuid → List BehaviorMemoryRecord → List BehaviorMemoryRecord
pick [] rows = []
pick (x ∷ xs) rows = elim (find_first (λ row. row.memory_id == x) rows) [
  | none ↦ pick xs rows
  | some row ↦ row ∷ pick xs rows
]

-- No identifier stands twice.
unfoldable pub is_unique : List Uuid → Bool
is_unique [] = true
is_unique (x ∷ xs) = not (holds xs x) && is_unique xs

unfoldable pub compaction_records :
    Uuid → Namespace → List Uuid → List BehaviorMemoryRecord → Result (List BehaviorMemoryRecord)
compaction_records project_id namespace selected rows =
    then_pure (guard (is_unique selected) runtime_error) λ _.
      then_pure
        (read_batches project_id namespace (batches (length selected) update_batch selected) rows)
        λ found.
          then_pure
            (guard (all (holds (ids found)) selected && all (holds selected) (ids found))
              runtime_error)
            λ _. ok (pick selected found)

-- The rows, `total` and the number of mandatory rows.
pub record Selection : Type 0 where
  pub records : List BehaviorMemoryRecord
  pub total : ℕ
  pub mandatory : ℕ

abbrev pub is_nil : {A : Type 0} → List A → Bool
is_nil [] = true
is_nil (x ∷ xs) = false

abbrev pub one_if : Bool → ℕ
one_if true = 1
one_if false = 0
