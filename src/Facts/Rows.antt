-- ===== src/Facts/Rows.antt =====
-- The rows of storage/facts.py that an observation reads and writes: which one is the current
-- winner, which ones become stale, and the row of the observation itself.
use project_memory_hub.Common.{
  ℕ, max, Bool, true, false, not, ◌&&◌, ◌||◌, Option, none, some, List, [], ◌∷◌, ◌==◌, ltb,
  if◌then◌else◌, select, map, any,
}
use project_memory_hub.Common.Order.{StrictOrder, nat_order, dual, pair_order}
use project_memory_hub.Common.Order.Sort.{sort, first}
use project_memory_hub.Text.{Text}
use project_memory_hub.Text.Equal.{text_eq}
use project_memory_hub.Domain.{Uuid, Instant, ProjectFactInput, active, cold, is_active}
use project_memory_hub.Database.{Db, FactRow}

abbrev pub is_none : {A : Type 0} → Option A → Bool
is_none none = true
is_none (some a) = false

-- `lifecycle_state = 'active' and stale_at is null`.
abbrev pub is_current : FactRow → Bool
is_current row = is_active row.lifecycle_state && is_none row.stale_at

-- The rows that observe the same thing.
unfoldable pub same_subject : Uuid → ProjectFactInput → FactRow → Bool
unfolding text_eq
same_subject project_id fact row =
    row.project_id == project_id
    && text_eq row.category fact.category
    && text_eq row.evidence_reference fact.evidence_reference

-- The rows of exactly this observation.
unfoldable pub same_fact : Uuid → ProjectFactInput → FactRow → Bool
unfolding same_subject text_eq
same_fact project_id fact row =
    same_subject project_id fact row
    && text_eq row.normalized_content fact.normalized_content
    && text_eq row.evidence_type fact.evidence_type

-- `order by observed_at desc, fact_id`.
abbrev pub latest_order : StrictOrder (ℕ × ℕ)
latest_order = pair_order (dual nat_order) nat_order

abbrev pub latest : FactRow → ℕ × ℕ
latest row = (row.observed_at, row.fact_id)

unfoldable pub exact_row : Uuid → ProjectFactInput → Db → Option FactRow
unfolding same_fact first
exact_row project_id fact db =
    first latest_order latest (select (same_fact project_id fact) db.facts)

unfoldable pub active_rows : Uuid → ProjectFactInput → Db → List FactRow
unfolding same_subject
active_rows project_id fact db =
    select (λ row. same_subject project_id fact row && is_current row) db.facts

abbrev pub newest_time : List FactRow → Instant
newest_time [] = 0
newest_time (row ∷ rows) = max row.observed_at (newest_time rows)

-- `_current_winner`.
unfoldable pub current_winner : List FactRow → Option FactRow
unfolding first
current_winner rows =
    first (pair_order nat_order nat_order) (λ row. (row.created_at, row.fact_id))
      (select (λ row. row.observed_at == newest_time rows) rows)

-- Whether the observation replaces the winner, and the content that holds afterwards.
unfoldable pub incoming_wins : ProjectFactInput → Option FactRow → Bool
unfolding text_eq
incoming_wins fact none = true
incoming_wins fact (some winner) =
    text_eq fact.normalized_content winner.normalized_content
    || ltb winner.observed_at fact.observed_at

abbrev pub winning_content : ProjectFactInput → Option FactRow → Text
winning_content fact none = fact.normalized_content
winning_content fact (some winner) =
    if incoming_wins fact (some winner) then fact.normalized_content else winner.normalized_content

-- `sort(key=…, reverse=True)`: the latest first.
unfoldable pub rows_to_stale : Text → List FactRow → List FactRow
unfolding text_eq sort
rows_to_stale content rows =
    sort (dual (pair_order nat_order nat_order)) latest
      (select (λ row. not (text_eq row.normalized_content content)) rows)

abbrev pub names : List FactRow → FactRow → Bool
names rows row = any (λ other. other.fact_id == row.fact_id) rows

abbrev pub set_stale : Instant → FactRow → FactRow
set_stale now row = record row {
  fact = record row.fact { lifecycle_state = cold };
  stale_at = some now;
}

-- `update … where fact_id = ? and lifecycle_state = 'active' and stale_at is null`, for each row.
unfoldable pub make_stale : Instant → List FactRow → List FactRow → List FactRow
make_stale now stale rows =
    map (λ row. if names stale row && is_current row then set_stale now row else row) rows

abbrev pub first_id : List FactRow → Option Uuid
first_id [] = none
first_id (row ∷ rows) = some row.fact_id

abbrev pub supersedes : Bool → List FactRow → Option Uuid
supersedes true stale = first_id stale
supersedes false stale = none

abbrev pub coalesce : {A : Type 0} → Option A → Option A → Option A
coalesce none other = other
coalesce (some a) other = some a

abbrev pub or_now : Option Instant → Instant → Instant
or_now none now = now
or_now (some at) now = at

-- The row of the exact observation after another one; `exact` is as it was read.
unfoldable pub refreshed :
    Bool → ProjectFactInput → List FactRow → Instant → FactRow → FactRow → FactRow
refreshed wins fact stale now exact row =
    let newer = ltb exact.observed_at fact.observed_at in
    record row {
      fact = record row.fact {
        input = record row.input {
          observed_at = if newer then fact.observed_at else row.observed_at;
          confidence = if newer then fact.confidence else exact.confidence;
        };
        lifecycle_state = if wins then active else cold;
      };
      supersedes_fact_id = coalesce (supersedes wins stale) row.supersedes_fact_id;
      stale_at = if wins then none else some (or_now exact.stale_at now);
    }

-- The row of a new observation.
unfoldable pub observed_row :
    Bool → Uuid → ProjectFactInput → List FactRow → Instant → Uuid → FactRow
observed_row wins project_id fact stale now fact_id = record {
  fact = record {
    input = fact;
    fact_id = fact_id;
    project_id = project_id;
    lifecycle_state = if wins then active else cold;
  };
  supersedes_fact_id = supersedes wins stale;
  stale_at = if wins then none else some now;
  created_at = now;
}
