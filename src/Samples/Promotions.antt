-- ===== src/Samples/Promotions.antt =====
-- The theorems on promotions, at a pending one.
use project_memory_hub.Common.{◌≡◌, refl, ◌⊎◌, none, some, [], ◌∷◌, ◌++◌}
use project_memory_hub.Common.Exec.{Error, ok, err}
use project_memory_hub.Text.{Text, codes}
use project_memory_hub.Text.Uuid.{join}
use project_memory_hub.Domain.{FactRecord, active, same_namespace}
use project_memory_hub.Database.{Db, FactRow, PromotionRow, approved}
use project_memory_hub.Memories.Search.{in_scope}
use project_memory_hub.Promotions.{request_scoped, safe_required, new_request}
use project_memory_hub.Promotions.Approval.{shared_rule, Drawn, approve_scoped}
use project_memory_hub.Promotions.Laws.{request_scoped-Once}
use project_memory_hub.Promotions.Approve.{promotion_of, IsApprovable}
use project_memory_hub.Promotions.Approved.{
  approve_scoped-Safe, approve_scoped-Approved, IsApprovedBy,
}
use project_memory_hub.Samples.Data.{folded, gpt, sonnet, full_db}

abbrev rule : Text
rule = codes "run pytest before a commit"

abbrev request : PromotionRow
request = new_request 11 rule 8000000 41

abbrev pending_db : Db
pending_db = record full_db { promotions = request ∷ [] }

abbrev drawn : Drawn
drawn = record { observed_at = 9000000; now = 9000001; fact_id = 51 }

request-run : request_scoped folded 1 gpt 11 rule 8000000 41 full_db ≡ (ok request, pending_db)
unfolding request_scoped in_scope same_namespace
request-run = refl

request_scoped-Once_example :
    request_scoped folded 1 gpt 11 rule 8500000 42 pending_db ≡ (ok request, pending_db)
request_scoped-Once_example =
    request_scoped-Once folded 1 gpt 11 rule 8000000 8500000 41 42 full_db pending_db request
      request-run

approve_scoped-Safe_example :
    ((f : FactRecord) × ((approve_scoped folded 1 sonnet 41 (codes "me") drawn pending_db).0 ≡ ok f)
      × IsApprovable 1 sonnet 41 pending_db)
    ⊎ ((e : Error) × (approve_scoped folded 1 sonnet 41 (codes "me") drawn pending_db
          ≡ (err e, pending_db)))
approve_scoped-Safe_example = approve_scoped-Safe folded 1 sonnet 41 (codes "me") drawn pending_db

abbrev rule_fact : FactRecord
rule_fact = record {
  input =
      shared_rule rule
        (codes ("{\"approval_actor\":\"me\",\"model_id\":\"gpt\",")
          ++ codes (
              "\"promotion_id\":\"00000000-0000-0000-0000-000000000029\",\"source_agent\":\"codex\"}"))
        9000000;
  fact_id = 51;
  project_id = 1;
  lifecycle_state = active;
}

abbrev approved_request : PromotionRow
approved_request = record request {
  status = approved;
  approval_actor = some (codes "me");
  approved_at = some 9000000;
}

abbrev rule_row : FactRow
rule_row = record {
  fact = rule_fact;
  supersedes_fact_id = none;
  stale_at = none;
  created_at = 9000001;
}

abbrev approved_db : Db
approved_db = record full_db { promotions = approved_request ∷ []; facts = rule_row ∷ [] }

approve-run :
    approve_scoped folded 1 gpt 41 (codes " me ") drawn pending_db ≡ (ok rule_fact, approved_db)
unfolding approve_scoped in_scope join
approve-run = refl

approve_scoped-Approved_example :
    (before after : PromotionRow) × (actor : Text) × (promotion_of 41 pending_db ≡ some before)
    × (promotion_of 41 approved_db ≡ some after)
    × (safe_required folded (codes " me ") ≡ ok actor)
    × IsApprovedBy actor before after
approve_scoped-Approved_example =
    approve_scoped-Approved folded 1 gpt 41 (codes " me ") drawn pending_db approved_db rule_fact
      approve-run
