-- ===== src/Checkpoints/Commit.antt =====
-- `get`, `commit` and `commit_on_connection` of storage/checkpoints.py. `json.loads` of a stored
-- cursor is a parameter, and what it reads is a `Document`.
pub mod Received
pub mod Laws
pub mod Conflict
use project_memory_hub.Common.{
  ℕ, ◌≡◌, refl, Bool, true, false, not, ◌&&◌, ◌||◌, Option, none, some, List, [], ◌∷◌, ◌++◌, ◌==◌,
  if◌then◌else◌, any, find_first,
}
use project_memory_hub.Common.Exec.{
  Error, Exec, Result, ok, err, pure, raise, lift, gets, modify, guard, then_pure, transaction,
  ◌>>=◌, ◌>>◌, value_error, checkpoint_conflict,
}
use project_memory_hub.Text.{Text}
use project_memory_hub.Text.Equal.{text_eq}
use project_memory_hub.Domain.{Instant, SourceAgent, agent_rank}
use project_memory_hub.Checkpoints.{Scalar, Cursor, AdapterCheckpoint, CheckpointRow, Store}
use project_memory_hub.Checkpoints.Json.{canonical_json, checkpoint_source_hash, checkpoints_match}
use project_memory_hub.Checkpoints.Receipts.{
  check_scope, check_source_record_id, receipt_exists, insert_receipt,
}

-- A member of an object: a string or an integer, or another value.
pub data Item : Type 0 where
  scalar : Scalar → Item
  other_item : Item

-- What `json.loads` returns: an object, or another value.
pub data Document : Type 0 where
  object : List (Text × Item) → Document
  other_document : Document

-- `_strict_checkpoint_cursor`, on an object's members and on a document.
unfoldable pub strict_members : List (Text × Item) → Result Cursor
strict_members [] = ok []
strict_members ((key, scalar s) ∷ members) =
    then_pure (strict_members members) (λ cursor. ok ((key, s) ∷ cursor))
strict_members ((key, other_item) ∷ members) = err value_error

abbrev pub strict_checkpoint_cursor : Document → Result Cursor
strict_checkpoint_cursor (object members) = strict_members members
strict_checkpoint_cursor other_document = err value_error

-- The primary key of `checkpoints`.
unfoldable pub is_checkpoint : SourceAgent → Text → CheckpointRow → Bool
is_checkpoint adapter scope row =
    agent_rank row.adapter == agent_rank adapter && text_eq row.scope scope

-- `_validate_checkpoint`; a cursor of the model has strings and integers only.
unfoldable pub validate_checkpoint : AdapterCheckpoint → SourceAgent → Text → Result (Unit {0})
validate_checkpoint checkpoint adapter scope =
    guard (agent_rank checkpoint.adapter == agent_rank adapter && text_eq checkpoint.scope scope)
      value_error

-- `insert into checkpoints … on conflict(adapter, scope) do update`.
unfoldable pub put_checkpoint : CheckpointRow → List CheckpointRow → List CheckpointRow
put_checkpoint row [] = row ∷ []
put_checkpoint row (other ∷ rows) =
    if is_checkpoint row.adapter row.scope other
    then row ∷ rows
    else other ∷ put_checkpoint row rows

-- `tuple(_source_record_id(value) for value in source_record_ids)`.
unfoldable pub prepare_ids : List Text → Result (List Text)
prepare_ids [] = ok []
prepare_ids (value ∷ values) =
    then_pure (check_source_record_id value)
      λ prepared. then_pure (prepare_ids values) (λ rest. ok (prepared ∷ rest))

-- `continue`, or the insert.
abbrev pub receive : Bool → Text → Text → SourceAgent → Instant → Exec Store (Unit {0})
receive true source_hash record_id source_agent imported_at = pure tt
receive false source_hash record_id source_agent imported_at =
    insert_receipt source_hash record_id source_agent imported_at

-- The loop over the record identifiers.
unfoldable pub insert_receipts : Text → SourceAgent → Instant → List Text → Exec Store (Unit {0})
insert_receipts source_hash source_agent imported_at [] = pure tt
insert_receipts source_hash source_agent imported_at (record_id ∷ record_ids) = do
  exists ← receipt_exists source_hash record_id source_agent
  receive exists source_hash record_id source_agent imported_at
  insert_receipts source_hash source_agent imported_at record_ids

-- `except ValueError: raise CheckpointConflictError`.
abbrev pub or_conflict : {A : Type 0} → Result A → Result A
or_conflict (ok a) = ok a
or_conflict (err value_error) = err checkpoint_conflict
or_conflict (err e) = err e

module _ (sha256 : Text → Text) (loads : Text → Option Document) where
  abbrev pub read_row :
      SourceAgent → Text → Option CheckpointRow → Result (Option AdapterCheckpoint)
  read_row adapter scope none = ok none
  read_row adapter scope (some row) = elim (loads row.cursor_json) [
    | none ↦ err value_error
    | some document ↦ then_pure (strict_checkpoint_cursor document) λ cursor. ok (
        some (record {
          adapter = adapter;
          scope = scope;
          cursor = cursor;
          parser_version = row.parser_version;
        }))
  ]

  -- `_get_on_connection`.
  unfoldable pub get_on_connection : SourceAgent → Text → Store → Result (Option AdapterCheckpoint)
  get_on_connection adapter scope store =
      read_row adapter scope (find_first (is_checkpoint adapter scope) store.checkpoints)

  unfoldable pub get : SourceAgent → Text → Store → Result (Option AdapterCheckpoint)
  get adapter scope store =
      then_pure (check_scope scope)
        λ normalized_scope. get_on_connection adapter normalized_scope store

  abbrev pub validate_expected : Option AdapterCheckpoint → SourceAgent → Text → Result (Unit {0})
  validate_expected none adapter scope = ok tt
  validate_expected (some expected) adapter scope = validate_checkpoint expected adapter scope

  -- The writes, once the stored checkpoint is the expected one.
  unfoldable pub write_checkpoint :
      SourceAgent → Text → AdapterCheckpoint → List Text → Instant → Exec Store (Unit {0})
  write_checkpoint adapter scope next_checkpoint prepared_ids imported_at = do
    source_hash ← lift (checkpoint_source_hash sha256 adapter scope next_checkpoint)
    insert_receipts source_hash adapter imported_at prepared_ids
    modify (λ store. record store {
      checkpoints =
          put_checkpoint
            (record {
              adapter = adapter;
              scope = scope;
              cursor_json = canonical_json next_checkpoint.cursor;
              parser_version = next_checkpoint.parser_version;
              updated_at = imported_at;
            })
            store.checkpoints;
    })

  unfoldable pub commit_on_connection :
      SourceAgent
      → Text
      → Option AdapterCheckpoint
      → AdapterCheckpoint
      → List Text
      → Instant
      → Exec Store (Unit {0})
  commit_on_connection adapter scope expected_checkpoint next_checkpoint source_record_ids
        imported_at =
      do
        normalized_scope ← lift (check_scope scope)
        lift (validate_checkpoint next_checkpoint adapter normalized_scope)
        lift (validate_expected expected_checkpoint adapter normalized_scope)
        prepared_ids ← lift (prepare_ids source_record_ids)
        current_checkpoint ←
            (λ store. (or_conflict (get_on_connection adapter normalized_scope store), store))
        lift (guard (checkpoints_match current_checkpoint expected_checkpoint) checkpoint_conflict)
        write_checkpoint adapter normalized_scope next_checkpoint prepared_ids imported_at

  unfoldable pub commit :
      SourceAgent → Text → AdapterCheckpoint → List Text → Instant → Exec Store (Unit {0})
  commit adapter scope checkpoint source_record_ids imported_at = transaction (do
    normalized_scope ← lift (check_scope scope)
    expected_checkpoint ← (λ store. (get_on_connection adapter normalized_scope store, store))
    commit_on_connection adapter normalized_scope expected_checkpoint checkpoint source_record_ids
        imported_at)
