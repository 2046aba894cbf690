-- ===== src/Resolutions/Apply.antt =====
-- `apply_on_connection` and `resolved_target_ids_scoped` of storage/resolutions.py.
use project_memory_hub.Common.{
  ℕ, zero, suc, ◌+◌, Bool, true, false, ◌&&◌, Option, none, List, [], ◌∷◌, ◌==◌, leb, select, any,
  length,
}
use project_memory_hub.Common.Exec.{
  Exec, Result, ok, pure, lift, gets, guard, ◌>>=◌, ◌>>◌, value_error, then_pure,
}
use project_memory_hub.Text.{Text}
use project_memory_hub.Text.Equal.{text_eq}
use project_memory_hub.Domain.{Uuid, Namespace, same_namespace}
use project_memory_hub.Database.{Db}
use project_memory_hub.Memories.Prepare.{hexdigest}
use project_memory_hub.Resolutions.{
  display_id_limit, ResolutionApplyResult, Capture, is_id, validate_source_provenance,
  resolution_row, insert_or_ignore_resolution, resolve_all,
}

unfoldable pub is_already_resolved : Capture → Text → Text → Db → Bool
unfolding text_eq same_namespace
is_already_resolved capture hash declaration db =
    any
      (λ resolution.
        resolution.project_id == capture.project_id
        && same_namespace resolution.namespace capture.namespace
        && text_eq resolution.target_content_hash hash
        && any
            (λ target.
              is_id target.memory_id resolution.target_memory_id
              && text_eq target.normalized_content declaration)
            db.memories)
      db.resolutions

abbrev pub counts : ℕ → ℕ → ℕ → ResolutionApplyResult
counts resolved already unmatched = record {
  resolved_count = resolved;
  already_resolved_count = already;
  unmatched_resolution_count = unmatched;
}

-- The rest of a declaration, by the number of its issues and whether one was resolved before.
unfoldable pub settle_declaration :
    Capture → Text → (Option Uuid → Uuid) → ℕ → Bool → Exec Db ResolutionApplyResult
unfolding insert_or_ignore_resolution
settle_declaration capture hash drawn (suc count) already = pure (counts (suc count) 0 0)
settle_declaration capture hash drawn zero true = pure (counts 0 1 0)
settle_declaration capture hash drawn zero false = do
  rowcount ← insert_or_ignore_resolution (resolution_row capture hash (drawn none) none)
  pure (counts 0 0 rowcount)

module _ (sha256 : Text → Text) (capture : Capture) where
  unfoldable pub apply_declaration : Text → (Option Uuid → Uuid) → Exec Db ResolutionApplyResult
  unfolding hexdigest resolve_all is_already_resolved settle_declaration
  apply_declaration declaration drawn = do
    hash ← lift (hexdigest sha256 declaration)
    count ← resolve_all capture hash declaration drawn
    already ← gets (is_already_resolved capture hash declaration)
    settle_declaration capture hash drawn count already

  -- The loop over the declarations, each with the ids that its rows draw.
  unfoldable pub apply_each : List (Text × (Option Uuid → Uuid)) → Exec Db ResolutionApplyResult
  unfolding apply_declaration
  apply_each [] = pure (counts 0 0 0)
  apply_each ((declaration, drawn) ∷ rest) = do
    first ← apply_declaration declaration drawn
    others ← apply_each rest
    pure (
        counts (first.resolved_count + others.resolved_count)
          (first.already_resolved_count + others.already_resolved_count)
          (first.unmatched_resolution_count + others.unmatched_resolution_count))

  unfoldable pub apply_on_connection :
      Bool → List (Text × (Option Uuid → Uuid)) → Exec Db ResolutionApplyResult
  unfolding validate_source_provenance apply_each
  apply_on_connection in_transaction declarations = do
    lift (guard in_transaction value_error)
    λ db. (validate_source_provenance capture db, db)
    apply_each declarations

-- The set of the ids that have been resolved, as a list.
unfoldable pub resolved_target_ids_scoped : Uuid → Namespace → List Uuid → Db → Result (List Uuid)
unfolding same_namespace
resolved_target_ids_scoped project_id namespace memory_ids db =
    then_pure (guard (leb (length memory_ids) display_id_limit) value_error) λ _. ok (
      select
        (λ memory_id.
          any
            (λ resolution.
              resolution.project_id == project_id
              && same_namespace resolution.namespace namespace
              && is_id memory_id resolution.target_memory_id)
            db.resolutions)
        memory_ids)
