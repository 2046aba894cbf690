-- ===== src/Samples/Resolutions.antt =====
-- The theorems on resolutions, at a capture that declares one open issue and one that is not there.
use project_memory_hub.Common.{
  ◌≡◌, refl, Option, none, some, List, [], ◌∷◌, true, ◌⊎◌, inl, In, arith,
}
use project_memory_hub.Common.Exec.{ok}
use project_memory_hub.Text.{Text, codes}
use project_memory_hub.Text.Utf8.{strict_utf8_size, utf8_width}
use project_memory_hub.Text.Equal.{text_eq}
use project_memory_hub.Domain.{
  same_namespace, Uuid, BehaviorMemoryInput, BehaviorMemoryRecord, open_issue, active, archived,
}
use project_memory_hub.Database.{Db, SourceRef}
use project_memory_hub.Memories.Insert.{clash, same_key}
use project_memory_hub.Memories.Insert.Invariant.{Distinct}
use project_memory_hub.Resolutions.{Capture, ResolutionApplyResult, resolution_row}
use project_memory_hub.Resolutions.Apply.{apply_on_connection, resolved_target_ids_scoped}
use project_memory_hub.Resolutions.Settled.{Applied}
use project_memory_hub.Resolutions.Applied.{is_declared, apply_on_connection-Applied}
use project_memory_hub.Resolutions.Reported.{apply_on_connection-Reported}
use project_memory_hub.Resolutions.Safe.{IsResolvable, apply_on_connection-Safe}
use project_memory_hub.Samples.Data.{digest, gpt, sonnet, memory, row, source, full_db}

abbrev capture : Capture
capture = record {
  project_id = 1;
  namespace = gpt;
  source_reference_id = 8;
  verified_at = 9000000;
  resolved_at = 9000001;
}

abbrev capture_source : SourceRef
capture_source = record source {
  source_reference_id = 8;
  source_record_id = codes "thread-2";
  source_timestamp = 9000000;
  capture_project_id = some 1;
  capture_model_id = some gpt.model_id;
}

abbrev flaky : BehaviorMemoryInput
flaky = memory gpt open_issue (codes "flaky") 5000000

abbrev issue_db : Db
issue_db = record full_db {
  source_refs = source ∷ capture_source ∷ [];
  memories =
      row 21 active flaky
      ∷ row 22 active (memory sonnet open_issue (codes "flaky") 5000000)
      ∷ row 23 active (record (memory gpt open_issue (codes "slow") 5000000) {
        task_fingerprint = codes "other";
      })
      ∷ [];
}

abbrev resolved_db : Db
resolved_db = record issue_db {
  memories =
      row 21 archived flaky
      ∷ row 22 active (memory sonnet open_issue (codes "flaky") 5000000)
      ∷ row 23 active (record (memory gpt open_issue (codes "slow") 5000000) {
        task_fingerprint = codes "other";
      })
      ∷ [];
  resolutions =
      resolution_row capture (digest (codes "flaky")) 61 (some 21)
      ∷ resolution_row capture (digest (codes "gone")) 62 none
      ∷ [];
}

abbrev declarations : List (Text × (Option Uuid → Uuid))
declarations = (codes "flaky", λ target. 61) ∷ (codes "gone", λ target. 62) ∷ []

abbrev result : ResolutionApplyResult
result = record { resolved_count = 1; already_resolved_count = 0; unmatched_resolution_count = 1 }

distinct : Distinct issue_db.memories
unfolding clash same_key same_namespace text_eq
distinct = (refl, (refl, (refl, tt)))

apply-run : apply_on_connection digest capture true declarations issue_db ≡ (ok result, resolved_db)
unfolding apply_on_connection strict_utf8_size utf8_width
apply-run = refl

apply_on_connection-Applied_example :
    Applied capture
      (is_declared digest capture issue_db.source_refs declarations)
      result
      issue_db
      resolved_db
apply_on_connection-Applied_example =
    apply_on_connection-Applied digest capture true declarations issue_db resolved_db result
      distinct apply-run

apply_on_connection-Safe_example :
    In (row 21 active flaky) resolved_db.memories
    ⊎ (IsResolvable digest capture declarations issue_db (row 21 active flaky)
        × In (row 21 archived flaky) resolved_db.memories)
apply_on_connection-Safe_example =
    apply_on_connection-Safe digest capture true declarations issue_db resolved_db result distinct
      apply-run (row 21 active flaky) (inl refl)

apply_on_connection-Reported_example :
    (found : List Uuid) × (resolved_target_ids_scoped 1 gpt (21 ∷ 23 ∷ []) resolved_db ≡ ok found)
    × ((id : Uuid) → In id found → In id (21 ∷ 23 ∷ []))
    × ((row : BehaviorMemoryRecord)
        → In row issue_db.memories
        → ¬ In row resolved_db.memories
        → In row.memory_id (21 ∷ 23 ∷ [])
        → In row.memory_id found)
apply_on_connection-Reported_example =
    apply_on_connection-Reported digest capture true declarations issue_db resolved_db result
      (21 ∷ 23 ∷ []) distinct apply-run (omega arith)
