-- ===== src/Memories/Search/Laws.antt =====
-- What a search returns.
use project_memory_hub.Common.{
  ℕ, ◌≤◌, ◌≡◌, ◌⊎◌, inl, inr, Bool, true, false, not, ◌&&◌, List, [], ◌∷◌, ◌==◌, select, take,
  length, In, All, arith, In-take, In-select, select-In, take-length, length-take-le, In-All,
}
use project_memory_hub.Common.Order.Sort.{
  sort, In-sort, sort-In, sort-IsSorted, take-IsSorted, length-sort,
}
use project_memory_hub.Common.Exec.{ok}
use project_memory_hub.Text.{Text}
use project_memory_hub.Text.Terms.{tokens}
use project_memory_hub.Domain.{
  Uuid, Namespace, BehaviorMemoryRecord, LifecycleState, active, is_active,
}
use project_memory_hub.Domain.Equal.{same_namespace→eq, eq→same_namespace}
use project_memory_hub.Database.{Db}
use project_memory_hub.Memories.Search.{
  candidate_window, validate_limit, in_scope, recency_order, stored_recency, candidates, score,
  recency, score_order, row_score, ranked, search,
}

is_active→eq : (s : LifecycleState) → is_active s ≡ true → s ≡ active
is_active→eq s h = ground arith

-- The row is stored, active, and of exactly this project, source and model.
pub record IsVisible (project_id : Uuid) (namespace : Namespace) (db : Db)
    (row : BehaviorMemoryRecord) : Type 0 where
  pub stored : In row db.memories
  pub project : row.project_id ≡ project_id
  pub scope : row.namespace ≡ namespace
  pub state : row.lifecycle_state ≡ active

module _ (project_id : Uuid) (namespace : Namespace) (db : Db) where
  abbrev visible : BehaviorMemoryRecord → Bool
  visible row = in_scope project_id namespace row && is_active row.lifecycle_state

  pub visible→IsVisible :
      (row : BehaviorMemoryRecord)
      → In row db.memories
      → visible row ≡ true
      → IsVisible project_id namespace db row
  unfolding in_scope
  visible→IsVisible row m h = record {
    stored = m;
    project = ground arith;
    scope = same_namespace→eq row.namespace namespace (ground arith);
    state = is_active→eq row.lifecycle_state (ground arith);
  }

  candidates-IsVisible :
      (row : BehaviorMemoryRecord)
      → In row (candidates project_id namespace db)
      → IsVisible project_id namespace db row
  unfolding candidates
  candidates-IsVisible row m =
      let sorted = In-take candidate_window _ row m in
      let (place, shown) =
        In-select visible db.memories row (In-sort recency_order stored_recency _ row sorted) in
      visible→IsVisible row place shown

module _ (casefold : Text → Text) where
  In-ranked :
      (terms : List Text) (records : List BehaviorMemoryRecord) (row : BehaviorMemoryRecord)
      → In row (ranked casefold terms records)
      → In row records
  unfolding ranked
  In-ranked [] records row m = In-sort recency_order recency records row m
  In-ranked (term ∷ terms) records row m =
      (In-select _ records row (In-sort score_order _ _ row m)).0

  search-ok :
      (project_id : Uuid) (namespace : Namespace) (query : Text) (limit : ℕ) (db : Db)
      (rows : List BehaviorMemoryRecord)
      → search casefold project_id namespace query limit db ≡ ok rows
      → rows
        ≡ take limit (ranked casefold (tokens casefold query) (candidates project_id namespace db))
  unfolding search validate_limit
  search-ok project_id namespace query limit db rows h = ground arith

-- A search returns at most `limit` rows, and shows no row of another project, source or model, and
-- none that is cold, archived or deleted.
pub search-IsVisible :
    (casefold : Text → Text) (project_id : Uuid) (namespace : Namespace) (query : Text) (limit : ℕ)
    (db : Db) (rows : List BehaviorMemoryRecord)
    → search casefold project_id namespace query limit db ≡ ok rows
    → (length rows ≤ limit) × All (IsVisible project_id namespace db) rows
search-IsVisible casefold project_id namespace query limit db rows h =
    let e = search-ok casefold project_id namespace query limit db rows h in
    (
      rw e (length-take-le limit _),
      rw e (
          In-All _ _ λ row m.
            candidates-IsVisible project_id namespace db row
              (In-ranked casefold (tokens casefold query) _ row (In-take limit _ row m))),
    )

module _ (casefold : Text → Text) where
  -- The order of the results: the higher score, then the later, then the smaller id.
  abbrev pub rank : List Text → BehaviorMemoryRecord → ℕ × (ℕ × ℕ)
  rank terms row = (row_score casefold terms row, recency row)

  -- The row is asked for: it holds a term, or there are no terms.
  abbrev pub IsRelevant : List Text → BehaviorMemoryRecord → Type 0
  IsRelevant [] row = Unit
  IsRelevant (term ∷ terms) row = (row_score casefold (term ∷ terms) row == 0) ≡ false

  -- Either the row is among the results, or they are full and none ranks behind it.
  abbrev pub Served : List Text → ℕ → BehaviorMemoryRecord → List BehaviorMemoryRecord → Type 0
  Served terms limit row rows =
      In row rows
      ⊎ ((length rows ≡ limit)
          × All (λ y. score_order.lt (rank terms row) (rank terms y) ≡ false) rows)

  ranked-Served :
      (terms : List Text) (limit : ℕ) (records : List BehaviorMemoryRecord)
      (row : BehaviorMemoryRecord)
      → IsRelevant terms row
      → In row records
      → Served terms limit row (take limit (ranked casefold terms records))
  unfolding ranked score
  ranked-Served [] limit records row h m =
      elim (take-IsSorted recency_order recency limit (sort recency_order recency records) row
        (sort-IsSorted recency_order recency records)
        (sort-In recency_order recency records row m)) [
          | inl kept ↦ inl kept
          | inr (full, above) ↦ inr (full, above)
        ]
  ranked-Served (term ∷ terms) limit records row h m =
      take-IsSorted score_order (rank (term ∷ terms)) limit _ row
        (sort-IsSorted score_order (rank (term ∷ terms)) _)
        (sort-In score_order (rank (term ∷ terms)) _ row (
          select-In (λ r. not (row_score casefold (term ∷ terms) r == 0)) records row m
            (ground arith)))

module _ (project_id : Uuid) (namespace : Namespace) (db : Db) where
  IsVisible→visible :
      (row : BehaviorMemoryRecord)
      → IsVisible project_id namespace db row
      → visible project_id namespace db row ≡ true
  unfolding in_scope
  IsVisible→visible row v =
      ground (arith, v.project, v.state, eq→same_namespace row.namespace namespace v.scope)

  visible-candidates :
      (row : BehaviorMemoryRecord)
      → length (select (visible project_id namespace db) db.memories) ≤ candidate_window
      → IsVisible project_id namespace db row
      → In row (candidates project_id namespace db)
  unfolding candidates
  visible-candidates row fits v =
      let chosen = select (visible project_id namespace db) db.memories in
      let whole =
        take-length candidate_window (sort recency_order stored_recency chosen)
          (omega (arith, length-sort recency_order stored_recency chosen)) in
      rw whole (
        sort-In recency_order stored_recency chosen row (
          select-In (visible project_id namespace db) db.memories row v.stored
            (IsVisible→visible row v)))

-- Where the project and namespace have at most a thousand active rows, a search leaves out a visible
-- row that it is asked for only if the results are full, and then none of them ranks behind that row,
-- by the score, then the float of the time, then the id.
pub search-Served :
    (casefold : Text → Text) (project_id : Uuid) (namespace : Namespace) (query : Text) (limit : ℕ)
    (db : Db) (rows : List BehaviorMemoryRecord) (row : BehaviorMemoryRecord)
    → search casefold project_id namespace query limit db ≡ ok rows
    → length (select (visible project_id namespace db) db.memories) ≤ candidate_window
    → IsVisible project_id namespace db row
    → IsRelevant casefold (tokens casefold query) row
    → Served casefold (tokens casefold query) limit row rows
search-Served casefold project_id namespace query limit db rows row h fits v asked =
    rw (search-ok casefold project_id namespace query limit db rows h) (
      ranked-Served casefold (tokens casefold query) limit (candidates project_id namespace db) row
        asked (visible-candidates project_id namespace db row fits v))
