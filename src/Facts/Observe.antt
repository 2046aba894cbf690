-- ===== src/Facts/Observe.antt =====
-- `observe`, `_observe_many` and `_observe_on_connection` of storage/facts.py.
pub mod Laws
pub mod Classify
pub mod Agreement
pub mod Settled
pub mod Newest
pub mod Steps
use project_memory_hub.Common.{
  ℕ, zero, suc, ◌+◌, max, Bool, true, false, not, ◌&&◌, ◌||◌, Option, none, some, List, [], ◌∷◌,
  ◌++◌, ◌==◌, ltb, if◌then◌else◌, select, map, any, find_first, length,
}
use project_memory_hub.Common.Order.{StrictOrder, nat_order, dual, pair_order}
use project_memory_hub.Common.Order.Sort.{sort, first}
use project_memory_hub.Common.Exec.{
  Exec, Result, ok, err, pure, raise, lift, gets, modify, guard, then_pure, transaction, ◌>>=◌,
  ◌>>◌, value_error, key_error, integrity_error, assertion_error,
}
use project_memory_hub.Text.{Text, strip, is_empty}
use project_memory_hub.Text.Equal.{text_eq}
use project_memory_hub.Domain.{
  Uuid, Instant, Confidence, ProjectFactInput, FactRecord, LifecycleState, active, cold, is_active,
}
use project_memory_hub.Database.{Db, FactRow}
use project_memory_hub.Facts.Rows.{
  is_current, exact_row, active_rows, current_winner, incoming_wins, winning_content, rows_to_stale,
  names, make_stale, refreshed, observed_row,
}

-- `_required_text`.
unfoldable pub required_field : Text → Result Text
unfolding strip
required_field value =
    then_pure (guard (not (is_empty (strip value))) value_error) λ _. ok (strip value)

unfoldable pub prepare_fact : ProjectFactInput → Result ProjectFactInput
unfolding required_field
prepare_fact fact = then_pure (required_field fact.category) λ category.
    then_pure (required_field fact.normalized_content) λ normalized_content.
      then_pure (required_field fact.evidence_type) λ evidence_type.
        then_pure (required_field fact.evidence_reference) λ evidence_reference. ok (record fact {
          category = category;
          normalized_content = normalized_content;
          evidence_type = evidence_type;
          evidence_reference = evidence_reference;
        })

-- The record, the number of rows that became stale, and whether the current facts changed.
pub record Observed : Type 0 where
  pub fact_record : FactRecord
  pub stale_count : ℕ
  pub is_changed : Bool

abbrev pub has_rows : List FactRow → Bool
has_rows [] = false
has_rows (row ∷ rows) = true

-- `select * from project_facts where fact_id = ?`, and `assert row is not None`.
unfoldable pub read_fact : Uuid → Exec Db FactRow
read_fact fact_id db = elim (find_first (λ row. row.fact_id == fact_id) db.facts) [
  | none ↦ (err assertion_error, db)
  | some row ↦ (ok row, db)
]

unfoldable pub update_exact :
    Bool → ProjectFactInput → List FactRow → Instant → FactRow → Exec Db Observed
unfolding refreshed read_fact
update_exact wins fact stale now exact = do
  modify (λ db. record db {
    facts =
        map
          (λ row.
            if row.fact_id == exact.fact_id then refreshed wins fact stale now exact row else row)
          db.facts;
  })
  row ← read_fact exact.fact_id
  pure (record {
    fact_record = row.fact;
    stale_count = length stale;
    is_changed = has_rows stale || wins && not (is_current exact);
  })

unfoldable pub insert_fact : FactRow → Exec Db (Unit {0})
insert_fact row db = elim (names db.facts row) [
  | true ↦ (err integrity_error, db)
  | false ↦ (ok tt, record db { facts = db.facts ++ row ∷ [] })
]

unfoldable pub insert_observed :
    Bool → Uuid → ProjectFactInput → List FactRow → Instant → Uuid → Exec Db Observed
unfolding insert_fact read_fact observed_row
insert_observed wins project_id fact stale now fact_id = do
  insert_fact (observed_row wins project_id fact stale now fact_id)
  row ← read_fact fact_id
  pure (record { fact_record = row.fact; stale_count = length stale; is_changed = wins })

abbrev pub write_observed :
    Bool
    → Uuid
    → ProjectFactInput
    → List FactRow
    → Instant
    → Uuid
    → Option FactRow
    → Exec Db Observed
unfolding insert_observed update_exact
write_observed wins project_id fact stale now fact_id none =
    insert_observed wins project_id fact stale now fact_id
write_observed wins project_id fact stale now fact_id (some exact) =
    update_exact wins fact stale now exact

-- The observation of a prepared fact, once the project is found.
unfoldable pub record_observation : Uuid → ProjectFactInput → Instant → Uuid → Exec Db Observed
unfolding exact_row active_rows current_winner incoming_wins rows_to_stale make_stale
    insert_observed update_exact
record_observation project_id fact now fact_id = do
  exact ← gets (exact_row project_id fact)
  rows ← gets (active_rows project_id fact)
  let winner = current_winner rows
  let wins = incoming_wins fact winner
  let stale = rows_to_stale (winning_content fact winner) rows
  modify (λ db. record db { facts = make_stale now stale db.facts })
  write_observed wins project_id fact stale now fact_id exact

abbrev pub has_project : Uuid → Db → Bool
has_project project_id db = any (λ project. project.project_id == project_id) db.projects

-- `_observe_on_connection`, with the time and the new id that it draws.
unfoldable pub observe_on_connection : Uuid → ProjectFactInput → Instant → Uuid → Exec Db Observed
unfolding prepare_fact record_observation
observe_on_connection project_id fact now fact_id = do
  prepared ← lift (prepare_fact fact)
  known ← gets (has_project project_id)
  lift (guard known key_error)
  record_observation project_id prepared now fact_id

abbrev pub observe_prepared : Uuid → Instant → Uuid → ProjectFactInput → Exec Db FactRecord
observe_prepared project_id now fact_id prepared = do
  observed ← observe_on_connection project_id prepared now fact_id
  pure observed.fact_record

unfoldable pub observe : Uuid → ProjectFactInput → Instant → Uuid → Exec Db FactRecord
unfolding prepare_fact observe_on_connection transaction
observe project_id fact now fact_id = lift (prepare_fact fact) >>= λ prepared.
    transaction (observe_prepared project_id now fact_id prepared)

-- A fact of a batch, with the time and the new id of its observation.
abbrev pub Timed : Type 0
Timed = ProjectFactInput × (Instant × Uuid)

-- The loop of `_observe_many_with_changes`: the records, the stale rows and the changes.
unfoldable pub observe_each : Uuid → List Timed → Exec Db (List FactRecord × (ℕ × ℕ))
unfolding observe_on_connection
observe_each project_id [] = pure ([], (0, 0))
observe_each project_id ((fact, (now, fact_id)) ∷ rest) = do
  observed ← observe_on_connection project_id fact now fact_id
  others ← observe_each project_id rest
  pure (
    observed.fact_record ∷ others.0,
    (observed.stale_count + others.1.0, (if observed.is_changed then 1 else 0) + others.1.1),
  )

-- `_observe_many`.
unfoldable pub observe_many : Uuid → List Timed → Exec Db (List FactRecord × ℕ)
unfolding observe_each transaction
observe_many project_id facts =
    transaction (do observed ← observe_each project_id facts; pure (observed.0, observed.1.0))

abbrev pub when : Bool → Exec Db (Unit {0}) → Exec Db (Unit {0})
when true action = action
when false action = pure tt

-- The hooks run in the transaction of the observations.
unfoldable pub observe_many_with_changes :
    Uuid
    → List Timed
    → Exec Db (Unit {0})
    → Exec Db (Unit {0})
    → Exec Db (Unit {0})
    → Exec Db (List FactRecord × (ℕ × ℕ))
unfolding observe_each transaction
observe_many_with_changes project_id facts before_observe after_observe on_effective_change =
    transaction (do
      before_observe
      observed ← observe_each project_id facts
      when (not (observed.1.1 == 0)) on_effective_change
      after_observe
      pure observed)
