-- ===== src/Samples/Facts.antt =====
-- The theorems on facts, at a table of one.
use project_memory_hub.Common.{◌≡◌, refl, inl, inr, true, none, some, [], ◌∷◌, arith, In}
use project_memory_hub.Common.Exec.{ok, transaction}
use project_memory_hub.Text.{Text, codes, strip}
use project_memory_hub.Text.Equal.{text_eq}
use project_memory_hub.Domain.{Instant, ProjectFactInput, active, cold}
use project_memory_hub.Database.{Db, FactRow}
use project_memory_hub.Facts.Observe.{
  observe, prepare_fact, required_field, observe_on_connection, record_observation, insert_observed,
  insert_fact, read_fact,
}
use project_memory_hub.Facts.Rows.{
  exact_row, active_rows, same_subject, same_fact, current_winner, incoming_wins, rows_to_stale,
  make_stale, observed_row, is_current,
}
use project_memory_hub.Facts.Observe.Laws.{IsAbout}
use project_memory_hub.Facts.Observe.Agreement.{IsAgreed}
use project_memory_hub.Facts.Observe.Settled.{observe-IsAgreed}
use project_memory_hub.Facts.Observe.Newest.{observe-newest, IsNewest, Decides}
use project_memory_hub.Samples.Data.{empty_db}

-- The branch of a repository at a time.
abbrev branch : Text → Instant → ProjectFactInput
branch content at = record {
  category = codes "git_branch";
  normalized_content = content;
  evidence_type = codes "git";
  evidence_reference = codes "HEAD";
  observed_at = at;
  confidence = 0;
}

abbrev main_row : FactRow
main_row = record {
  fact = record {
    input = branch (codes "main") 1000;
    fact_id = 31;
    project_id = 1;
    lifecycle_state = active;
  };
  supersedes_fact_id = none;
  stale_at = none;
  created_at = 1000;
}

abbrev main_db : Db
main_db = record empty_db { facts = main_row ∷ [] }

only_main : (row : FactRow) → In row main_db.facts → row ≡ main_row
only_main row (inl e) = e
only_main row (inr gone) = absurd gone

main_db-IsAgreed : IsAgreed main_db.facts
main_db-IsAgreed = record {
  unique = λ a b m n e. rw (only_main a m, only_main b n) refl;
  agreed = λ a b m n h k about. rw (only_main a m, only_main b n) refl;
}

observe-IsAgreed_example :
    IsAgreed (observe 1 (branch (codes " work ") 2000) 2500 32 main_db).1.facts
observe-IsAgreed_example =
    observe-IsAgreed 1 (branch (codes " work ") 2000) 2500 32 main_db main_db-IsAgreed

-- The row of the new branch.
abbrev work_row : FactRow
work_row = record {
  fact = record {
    input = branch (codes "work") 2000;
    fact_id = 32;
    project_id = 1;
    lifecycle_state = active;
  };
  supersedes_fact_id = some 31;
  stale_at = none;
  created_at = 2500;
}

abbrev work_db : Db
work_db = record main_db {
  facts =
      record main_row {
        fact = record main_row.fact { lifecycle_state = cold };
        stale_at = some 2500;
      }
      ∷ work_row
      ∷ [];
}

observe-run : observe 1 (branch (codes " work ") 2000) 2500 32 main_db ≡ (ok work_row.fact, work_db)
unfolding observe prepare_fact required_field strip observe_on_connection record_observation
    exact_row active_rows same_subject same_fact text_eq current_winner incoming_wins rows_to_stale
    make_stale insert_observed insert_fact read_fact observed_row transaction
observe-run = refl

main_db-IsNewest : IsNewest 1 (branch (codes "work") 2000) main_db.facts
main_db-IsNewest row m h about = rw (only_main row m) (omega arith)

observe-newest_example :
    ((row : FactRow) × In row work_db.facts × Decides 1 (branch (codes "work") 2000) row)
    × ((row : FactRow)
        → In row work_db.facts
        → is_current row ≡ true
        → IsAbout 1 (branch (codes "work") 2000) row
        → row.normalized_content ≡ codes "work")
unfolding prepare_fact required_field strip
observe-newest_example =
    observe-newest 1 (branch (codes " work ") 2000) 2500 32 main_db work_db work_row.fact
      (branch (codes "work") 2000) main_db-IsAgreed refl main_db-IsNewest observe-run
