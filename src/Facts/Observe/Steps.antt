-- ===== src/Facts/Observe/Steps.antt =====
-- What one statement of an observation does to the table of the facts.
use project_memory_hub.Common.{
  ◌≡◌, inl, inr, Bool, true, false, some, List, [], ◌∷◌, ◌++◌, ◌==◌, if◌then◌else◌, map, select, In,
  arith, Bool-cases, Option-cases, sym, ap, ◌∙◌, In-select, find_first,
}
use project_memory_hub.Common.Order.Sort.{first-some}
use project_memory_hub.Common.Exec.{Result, ok, bind-ok}
use project_memory_hub.Text.{Text}
use project_memory_hub.Domain.{Uuid, Instant, ProjectFactInput}
use project_memory_hub.Database.{Db, FactRow}
use project_memory_hub.Facts.Observe.{
  Observed, read_fact, update_exact, insert_fact, insert_observed,
}
use project_memory_hub.Facts.Rows.{
  same_fact, exact_row, names, make_stale, latest, latest_order, refreshed, observed_row,
}
use project_memory_hub.Facts.Observe.Classify.{IsUnique, renew}
use project_memory_hub.Facts.Observe.Agreement.{map-IsUnique}

pub renew-id :
    (project_id : Uuid) (fact : ProjectFactInput) (now : Instant) (fact_id : Uuid) (db : Db)
    (wins : Bool) (content : Text) (exact row : FactRow) (found : In exact db.facts)
    (same : same_fact project_id fact exact ≡ true) (distinct : IsUnique db.facts)
    → (renew project_id fact now fact_id db wins content exact found same distinct row).fact_id
      ≡ row.fact_id
unfolding refreshed
renew-id project_id fact now fact_id db wins content exact row found same distinct = ground arith

pub make_stale-IsUnique :
    (now : Instant) (cooled rows : List FactRow)
    → IsUnique rows
    → IsUnique (make_stale now cooled rows)
unfolding make_stale
make_stale-IsUnique now cooled rows distinct = map-IsUnique _ rows (λ r. ground arith) distinct

read_fact-ok :
    (fact_id : Uuid) (s t : Db) (row : FactRow) → read_fact fact_id s ≡ (ok row, t) → s ≡ t
unfolding read_fact
read_fact-ok fact_id s t row h =
    elim (Option-cases (find_first (λ (r : FactRow). r.fact_id == fact_id) s.facts)) [
      | inl e ↦ absurd (cc (rw (e, read_fact) at h))
      | inr (found, e) ↦ ap (λ (p : Result FactRow × Db). p.1) (rw (e, read_fact) at h)
    ]

insert_fact-ok :
    (row : FactRow) (s t : Db)
    → insert_fact row s ≡ (ok tt, t)
    → (names s.facts row ≡ false) × (t ≡ record s { facts = s.facts ++ row ∷ [] })
unfolding insert_fact
insert_fact-ok row s t h = elim (Bool-cases (names s.facts row)) [
  | inl e ↦ absurd (cc (rw (e, insert_fact) at h))
  | inr e ↦ (e, ap (λ (p : Result (Unit {0}) × Db). p.1) (sym (rw (e, insert_fact) at h)))
]

pub insert_observed-ok :
    (wins : Bool) (project_id : Uuid) (fact : ProjectFactInput) (rows : List FactRow)
    (now : Instant) (fact_id : Uuid) (s t : Db) (o : Observed)
    → insert_observed wins project_id fact rows now fact_id s ≡ (ok o, t)
    → (names s.facts (observed_row wins project_id fact rows now fact_id) ≡ false)
      × (t
          ≡ record s { facts = s.facts ++ observed_row wins project_id fact rows now fact_id ∷ [] })
unfolding insert_observed
insert_observed-ok wins project_id fact rows now fact_id s t o h =
    let row = observed_row wins project_id fact rows now fact_id in
    let (done, mid, inserting, rest) = bind-ok (insert_fact row) _ s t o h in
    let (read, after, reading, finish) = bind-ok (read_fact fact_id) _ mid t o rest in
    let (fresh, appended) = insert_fact-ok row s mid inserting in
    (
      fresh,
      sym (ap (λ (p : Result Observed × Db). p.1) finish)
          ∙ sym (read_fact-ok fact_id mid after read reading)
          ∙ appended,
    )

pub update_exact-ok :
    (wins : Bool) (fact : ProjectFactInput) (rows : List FactRow) (now : Instant) (exact : FactRow)
    (s t : Db) (o : Observed)
    → update_exact wins fact rows now exact s ≡ (ok o, t)
    → t ≡ record s {
      facts =
          map
            (λ row.
              if row.fact_id == exact.fact_id then refreshed wins fact rows now exact row else row)
            s.facts;
    }
unfolding update_exact
update_exact-ok wins fact rows now exact s t o h =
    let (read, after, reading, finish) = bind-ok (read_fact exact.fact_id) _ _ t o h in
    sym (ap (λ (p : Result Observed × Db). p.1) finish)
    ∙ sym (read_fact-ok exact.fact_id _ after read reading)

pub exact_row-some :
    (project_id : Uuid) (fact : ProjectFactInput) (s : Db) (exact : FactRow)
    → exact_row project_id fact s ≡ some exact
    → In exact s.facts × (same_fact project_id fact exact ≡ true)
unfolding exact_row
exact_row-some project_id fact s exact h =
    In-select (same_fact project_id fact) s.facts exact
      ((first-some latest_order latest (select (same_fact project_id fact) s.facts) exact h).0)
