-- ===== src/Resolutions.antt =====
-- `IssueResolutionRepository` of storage/resolutions.py: a declaration of a capture archives the open
-- issues with its text. The triggers of the table check again what the statements here have checked.
pub mod Updates
pub mod Rounds
pub mod Applied
pub mod Safe
pub mod Reported
pub mod Apply
pub mod Settled
use project_memory_hub.Common.{
  ℕ, zero, suc, ◌+◌, Bool, true, false, not, ◌&&◌, ◌||◌, Option, none, some, List, [], ◌∷◌, ◌++◌,
  ◌==◌, leb, select, any, take, length, find_first,
}
use project_memory_hub.Common.Order.{nat_order, pair_order}
use project_memory_hub.Common.Order.Sort.{sort}
use project_memory_hub.Common.Exec.{
  Exec, Result, ok, err, pure, lift, gets, modify, guard, ◌>>=◌, ◌>>◌, value_error, runtime_error,
  integrity_error, then_pure,
}
use project_memory_hub.Text.{Text}
use project_memory_hub.Text.Equal.{text_eq}
use project_memory_hub.Domain.{
  Uuid, Instant, Namespace, agent_rank, kind_rank, open_issue, archived, is_active, same_namespace,
  BehaviorMemoryRecord,
}
use project_memory_hub.Database.{Db, SourceRef, ResolutionRow}
use project_memory_hub.Database.Iso.{iso_rank}
use project_memory_hub.Memories.Prepare.{hexdigest}
use project_memory_hub.Memories.Search.{in_scope}
use project_memory_hub.Memories.Lifecycle.{set_state, updated}
use project_memory_hub.Memories.Sources.{ids}

abbrev pub target_batch_size : ℕ
target_batch_size = 256

abbrev pub display_id_limit : ℕ
display_id_limit = 100

pub record ResolutionApplyResult : Type 0 where
  pub resolved_count : ℕ
  pub already_resolved_count : ℕ
  pub unmatched_resolution_count : ℕ

-- The arguments of `apply_on_connection` that all declarations share.
pub record Capture : Type 0 where
  pub project_id : Uuid
  pub namespace : Namespace
  pub source_reference_id : Uuid
  pub verified_at : Instant
  pub resolved_at : Instant

abbrev pub is_id : Uuid → Option Uuid → Bool
is_id id none = false
is_id id (some other) = other == id

abbrev pub is_text : Text → Option Text → Bool
is_text value none = false
is_text value (some other) = text_eq other value

abbrev pub is_provenance : Capture → Option SourceRef → Bool
is_provenance capture none = false
is_provenance capture (some source) =
    agent_rank source.source_agent == agent_rank capture.namespace.source_agent
    && is_id capture.project_id source.capture_project_id
    && is_text capture.namespace.model_id source.capture_model_id
    && source.source_timestamp == capture.verified_at

unfoldable pub validate_source_provenance : Capture → Db → Result (Unit {0})
unfolding text_eq
validate_source_provenance capture db =
    guard
      (is_provenance capture (
        find_first (λ source. source.source_reference_id == capture.source_reference_id)
          db.source_refs))
      value_error

-- An active open issue of the namespace.
abbrev pub is_open : Capture → BehaviorMemoryRecord → Bool
is_open capture row =
    in_scope capture.project_id capture.namespace row
    && kind_rank row.memory_kind == kind_rank open_issue
    && is_active row.lifecycle_state

-- What the query of a declaration selects; the columns of a source are joined by its id.
abbrev pub is_target : Capture → List SourceRef → Text → Text → BehaviorMemoryRecord → Bool
is_target capture sources hash declaration row =
    is_open capture row
    && text_eq row.content_hash hash
    && text_eq row.normalized_content declaration
    && not (row.source_reference_id == capture.source_reference_id)
    && any
        (λ source.
          source.source_reference_id == row.source_reference_id
          && leb source.source_timestamp capture.verified_at)
        sources

unfoldable pub target_ids : Capture → Text → Text → Db → List Uuid
unfolding text_eq in_scope sort iso_rank
target_ids capture hash declaration db = ids (
    take target_batch_size (
      sort (pair_order nat_order nat_order) (λ row. (iso_rank row.created_at, row.memory_id))
        (select (is_target capture db.source_refs hash declaration) db.memories)))

abbrev pub same_target : Option Uuid → Option Uuid → Bool
same_target none none = true
same_target (some a) (some b) = a == b
same_target _ _ = false

-- Two rows that the table cannot hold together, by its key and its two partial unique indexes.
unfoldable pub clash_resolution : ResolutionRow → ResolutionRow → Bool
unfolding text_eq same_namespace
clash_resolution a b =
    a.resolution_id == b.resolution_id
    || (a.project_id == b.project_id
        && same_namespace a.namespace b.namespace
        && a.source_reference_id == b.source_reference_id
        && text_eq a.target_content_hash b.target_content_hash
        && same_target a.target_memory_id b.target_memory_id)

abbrev pub resolution_row : Capture → Text → Uuid → Option Uuid → ResolutionRow
resolution_row capture hash resolution_id target = record {
  resolution_id = resolution_id;
  project_id = capture.project_id;
  namespace = capture.namespace;
  target_content_hash = hash;
  target_memory_id = target;
  source_reference_id = capture.source_reference_id;
  resolved_at = capture.resolved_at;
}

unfoldable pub insert_resolution : ResolutionRow → Exec Db (Unit {0})
unfolding clash_resolution
insert_resolution row db = elim (any (clash_resolution row) db.resolutions) [
  | true ↦ (err integrity_error, db)
  | false ↦ (ok tt, record db { resolutions = db.resolutions ++ row ∷ [] })
]

-- `insert or ignore`, and `cursor.rowcount`.
unfoldable pub insert_or_ignore_resolution : ResolutionRow → Exec Db ℕ
unfolding clash_resolution
insert_or_ignore_resolution row db = elim (any (clash_resolution row) db.resolutions) [
  | true ↦ (ok 0, db)
  | false ↦ (ok 1, record db { resolutions = db.resolutions ++ row ∷ [] })
]

abbrev pub is_opened : Capture → Uuid → BehaviorMemoryRecord → Bool
is_opened capture target_id row = row.memory_id == target_id && is_open capture row

-- One round of the loop over the rows of a batch.
unfoldable pub resolve_target : Capture → Text → Uuid → Uuid → Exec Db (Unit {0})
unfolding set_state updated in_scope insert_resolution
resolve_target capture hash resolution_id target_id = do
  rowcount ← gets (λ db. updated (is_opened capture target_id) db.memories)
  modify
      (λ db. record db { memories = set_state (is_opened capture target_id) archived db.memories })
  lift (guard (rowcount == 1) runtime_error)
  insert_resolution (resolution_row capture hash resolution_id (some target_id))

-- The ids of new rows are `drawn`, by their targets.
unfoldable pub resolve_batch :
    Capture → Text → (Option Uuid → Uuid) → List Uuid → Exec Db (Unit {0})
unfolding resolve_target
resolve_batch capture hash drawn [] = pure tt
resolve_batch capture hash drawn (target_id ∷ rest) = do
  resolve_target capture hash (drawn (some target_id)) target_id
  resolve_batch capture hash drawn rest

-- `if not rows: break`.
abbrev pub unless_empty : List Uuid → Exec Db ℕ → Exec Db ℕ
unless_empty [] action = pure 0
unless_empty (target_id ∷ rest) action = action

-- `while True`, for a number of rounds.
unfoldable pub resolve_rounds : Capture → Text → Text → (Option Uuid → Uuid) → ℕ → Exec Db ℕ
unfolding target_ids resolve_batch
resolve_rounds capture hash declaration drawn zero = pure 0
resolve_rounds capture hash declaration drawn (suc rounds) = do
  batch ← gets (target_ids capture hash declaration)
  unless_empty batch (do
    resolve_batch capture hash drawn batch
    count ← resolve_rounds capture hash declaration drawn rounds
    pure (length batch + count))

-- Each round that goes on archives a row.
unfoldable pub resolve_all : Capture → Text → Text → (Option Uuid → Uuid) → Exec Db ℕ
unfolding resolve_rounds
resolve_all capture hash declaration drawn db =
    resolve_rounds capture hash declaration drawn (suc (length db.memories)) db
