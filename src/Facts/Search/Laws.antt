-- ===== src/Facts/Search/Laws.antt =====
-- What a search of facts returns.
use project_memory_hub.Common.{
  ℕ, ◌≤◌, ◌≡◌, refl, true, not, Option, none, some, List, [], ◌∷◌, map, select, take, length, In,
  arith, In-select, In-take, In-map, length-map, length-take-le,
}
use project_memory_hub.Common.Order.Sort.{In-sort}
use project_memory_hub.Common.Exec.{ok}
use project_memory_hub.Text.{Text}
use project_memory_hub.Text.Terms.{from_keys}
use project_memory_hub.Domain.{Uuid, FactRecord, active, is_active, LifecycleState}
use project_memory_hub.Database.{Db, FactRow}
use project_memory_hub.Facts.Rows.{is_none, latest, latest_order}
use project_memory_hub.Facts.Search.{
  Bm25, words, current_rows, found_rows, search, matched_order, rank_or,
}

-- The fact is that of a stored row of the project, active and not stale.
pub record IsCurrentFact (project_id : Uuid) (db : Db) (fact : FactRecord) : Type 0 where
  pub row : FactRow
  pub stored : In row db.facts
  pub same : row.fact ≡ fact
  pub project : fact.project_id ≡ project_id
  pub state : fact.lifecycle_state ≡ active
  pub not_stale : row.stale_at ≡ none

is_active→eq : (s : LifecycleState) → is_active s ≡ true → s ≡ active
is_active→eq s h = ground arith

is_none→eq : {A : Type 0} (o : Option A) → is_none o ≡ true → o ≡ none
is_none→eq none h = refl
is_none→eq (some a) h = cc

module _ (casefold : Text → Text) (bm25 : Bm25) (project_id : Uuid) where
  In-found_rows :
      (terms : List Text) (db : Db) (row : FactRow)
      → In row (found_rows casefold bm25 project_id terms db)
      → In row (current_rows project_id db)
  unfolding found_rows
  In-found_rows [] db row m = In-sort latest_order latest _ row m
  In-found_rows (term ∷ terms) db row m =
      let rank = bm25 db.facts (term ∷ terms) in
      (In-select (λ r. not (is_none (rank r))) (current_rows project_id db) row
        (In-sort matched_order (λ r. (rank_or (rank r), latest r))
          (select (λ r. not (is_none (rank r))) (current_rows project_id db)) row m)).0

  current_rows-IsCurrentFact :
      (db : Db) (row : FactRow)
      → In row (current_rows project_id db)
      → IsCurrentFact project_id db row.fact
  unfolding current_rows
  current_rows-IsCurrentFact db row m =
      let (stored, h) = In-select _ db.facts row m in
      record {
        row = row;
        stored = stored;
        same = refl;
        project = ground arith;
        state = is_active→eq row.lifecycle_state (ground arith);
        not_stale = is_none→eq row.stale_at (ground arith);
      }

  -- A search within the limits returns at most so many facts, all of them current ones of the
  -- project.
  pub search-IsCurrentFact :
      (query : Text) (limit : ℕ) (db : Db) (facts : List FactRecord)
      → search casefold bm25 project_id query limit db ≡ ok facts
      → (length facts ≤ limit) × ((f : FactRecord) → In f facts → IsCurrentFact project_id db f)
  unfolding search
  search-IsCurrentFact query limit db facts h =
      let found =
        found_rows casefold bm25 project_id (from_keys (map casefold (words [] query))) db in
      let rows = take limit found in
      let e : map (λ (r : FactRow). r.fact) rows ≡ facts = ground arith in
      rw (← e) (
        omega (arith, length-map (λ (r : FactRow). r.fact) rows, length-take-le limit found),
        λ f m.
            let (row, place, same) = In-map (λ (r : FactRow). r.fact) rows f m in
            rw same (
              current_rows-IsCurrentFact db row (
                In-found_rows (from_keys (map casefold (words [] query))) db row
                  (In-take limit _ row place))),
      )
