-- ===== src/Resolutions/Reported.antt =====
-- What an application resolved is found among the resolutions of the namespace.
use project_memory_hub.Common.{
  ◌≡◌, refl, ◌≤◌, inl, inr, Bool, Option, List, length, any, select, sym, subst, In, Bool-cases,
  In-select, select-In, le→leb,
}
use project_memory_hub.Common.Exec.{ok}
use project_memory_hub.Text.{Text}
use project_memory_hub.Domain.{Uuid, archived, BehaviorMemoryRecord}
use project_memory_hub.Database.{Db}
use project_memory_hub.Memories.Insert.Invariant.{Distinct}
use project_memory_hub.Memories.Rows.{set_state-keeps}
use project_memory_hub.Resolutions.{Capture, ResolutionApplyResult, display_id_limit}
use project_memory_hub.Resolutions.Apply.{apply_on_connection, resolved_target_ids_scoped}
use project_memory_hub.Resolutions.Updates.{reports}
use project_memory_hub.Resolutions.Applied.{is_declared, apply_on_connection-Applied}

abbrev reported_ids : Capture → List Uuid → Db → List Uuid
reported_ids capture memory_ids t = select (λ id. any (reports capture id) t.resolutions) memory_ids

resolved_target_ids_scoped-ok :
    (capture : Capture) (memory_ids : List Uuid) (t : Db)
    → length memory_ids ≤ display_id_limit
    → resolved_target_ids_scoped capture.project_id capture.namespace memory_ids t
      ≡ ok (reported_ids capture memory_ids t)
unfolding resolved_target_ids_scoped
resolved_target_ids_scoped-ok capture memory_ids t few =
    rw (le→leb (length memory_ids) display_id_limit few) refl

-- After an application that returns, on a table whose ids and unique keys are distinct, a query for
-- at most 100 ids in the capture's project and namespace returns: it finds only ids that it was asked
-- for, and among these the id of every memory that the application changed.
pub apply_on_connection-Reported :
    (sha256 : Text → Text) (capture : Capture) (in_transaction : Bool)
    (ds : List (Text × (Option Uuid → Uuid))) (s t : Db) (r : ResolutionApplyResult)
    (memory_ids : List Uuid)
    → Distinct s.memories
    → apply_on_connection sha256 capture in_transaction ds s ≡ (ok r, t)
    → length memory_ids ≤ display_id_limit
    → (found : List Uuid) × (resolved_target_ids_scoped capture.project_id capture.namespace
          memory_ids t
        ≡ ok found)
      × ((id : Uuid) → In id found → In id memory_ids)
      × ((row : BehaviorMemoryRecord)
          → In row s.memories
          → ¬ In row t.memories
          → In row.memory_id memory_ids
          → In row.memory_id found)
apply_on_connection-Reported sha256 capture in_transaction ds s t r memory_ids distinct h few =
    let done = apply_on_connection-Applied sha256 capture in_transaction ds s t r distinct h in
    let test = is_declared sha256 capture s.source_refs ds in
    let known = λ (id : Uuid). any (reports capture id) t.resolutions in
    (
      reported_ids capture memory_ids t,
      resolved_target_ids_scoped-ok capture memory_ids t few,
      λ id m. (In-select known memory_ids id m).0,
      λ row place gone asked. elim (Bool-cases (test row)) [
        | inl e ↦ select-In known memory_ids row.memory_id asked (done.reported row place e)
        | inr f ↦ absurd (
            gone (
              subst (In row) (sym done.memories)
                (set_state-keeps test archived s.memories row place f)))
      ],
    )
