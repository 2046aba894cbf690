-- ===== src/Facts/Observe/Laws.antt =====
-- The rows after an observation: which are current, and with which content.
use project_memory_hub.Common.{
  ◌≡◌, refl, inl, inr, true, false, not, ◌&&◌, Option, none, some, List, ◌==◌, if◌then◌else◌, In,
  arith, Bool-cases, subst, In-map, In-any, select-In,
}
use project_memory_hub.Common.Order.{nat_order, dual, pair_order}
use project_memory_hub.Common.Order.Sort.{sort-In}
use project_memory_hub.Text.{Text}
use project_memory_hub.Text.Equal.{text_eq, text_eq→eq, eq→text_eq}
use project_memory_hub.Domain.{Uuid, Instant, ProjectFactInput}
use project_memory_hub.Database.{Db, FactRow}
use project_memory_hub.Facts.Rows.{
  is_current, same_subject, active_rows, winning_content, incoming_wins, rows_to_stale, names,
  make_stale, set_stale, latest,
}

-- The row is about what the fact is about.
pub record IsAbout (project_id : Uuid) (fact : ProjectFactInput) (row : FactRow) : Type 0 where
  pub project : row.project_id ≡ project_id
  pub category : row.category ≡ fact.category
  pub reference : row.evidence_reference ≡ fact.evidence_reference

pub IsAbout→same_subject :
    (project_id : Uuid) (fact : ProjectFactInput) (row : FactRow)
    → IsAbout project_id fact row
    → same_subject project_id fact row ≡ true
unfolding same_subject
IsAbout→same_subject project_id fact row h = ground (
  arith,
  h.project,
  eq→text_eq row.category fact.category h.category,
  eq→text_eq row.evidence_reference fact.evidence_reference h.reference,
)

pub same_subject→IsAbout :
    (project_id : Uuid) (fact : ProjectFactInput) (row : FactRow)
    → same_subject project_id fact row ≡ true
    → IsAbout project_id fact row
unfolding same_subject
same_subject→IsAbout project_id fact row h = record {
  project = ground arith;
  category = text_eq→eq row.category fact.category (ground arith);
  reference = text_eq→eq row.evidence_reference fact.evidence_reference (ground arith);
}

pub wins-content :
    (fact : ProjectFactInput) (winner : Option FactRow)
    → incoming_wins fact winner ≡ true
    → winning_content fact winner ≡ fact.normalized_content
wins-content fact none h = refl
wins-content fact (some winner) h = rw h refl

module _ (content : Text) (rows : List FactRow) where
  -- A row of another content is to become stale.
  rows_to_stale-In :
      (row : FactRow)
      → In row rows
      → text_eq row.normalized_content content ≡ false
      → names (rows_to_stale content rows) row ≡ true
  unfolding rows_to_stale
  rows_to_stale-In row m h =
      In-any (λ other. other.fact_id == row.fact_id) (rows_to_stale content rows) row
        (sort-In (dual (pair_order nat_order nat_order)) latest _ row
          (select-In (λ r. not (text_eq r.normalized_content content)) rows row m (ground arith)))
        (ground arith)

active_rows-In :
    (project_id : Uuid) (fact : ProjectFactInput) (db : Db) (row : FactRow)
    → In row db.facts
    → same_subject project_id fact row ≡ true
    → is_current row ≡ true
    → In row (active_rows project_id fact db)
unfolding active_rows
active_rows-In project_id fact db row m about held =
    select-In (λ r. same_subject project_id fact r && is_current r) db.facts row m (ground arith)

module _ (project_id : Uuid) (fact : ProjectFactInput) (now : Instant) (db : Db)
    (content : Text) where
  abbrev pub stale : List FactRow
  stale = rows_to_stale content (active_rows project_id fact db)

  pub change : FactRow → FactRow
  change row = if names stale row && is_current row then set_stale now row else row

  stale_named :
      (row : FactRow)
      → In row db.facts
      → is_current row ≡ true
      → IsAbout project_id fact row
      → text_eq row.normalized_content content ≡ false
      → names stale row ≡ true
  stale_named row m held about other =
      rows_to_stale-In content (active_rows project_id fact db) row
        (active_rows-In project_id fact db row m (IsAbout→same_subject project_id fact row about)
          held)
        other

  -- A row that is current afterwards was there as it is, and is not one of another content.
  pub change-current :
      (row : FactRow)
      → In row db.facts
      → is_current (change row) ≡ true
      → (change row ≡ row)
        × (is_current row ≡ true)
        × (IsAbout project_id fact row → row.normalized_content ≡ content)
  unfolding change
  change-current row m h = elim (Bool-cases (names stale row && is_current row)) [
    | inl t ↦ absurd (cc (rw t at h))
    | inr f ↦
        let same : change row ≡ row = rw (f, change) refl in
        let held : is_current row ≡ true = subst (λ r. is_current r ≡ true) same h in
        (
          same,
          held,
          λ about. elim (Bool-cases (text_eq row.normalized_content content)) [
            | inl e ↦ text_eq→eq row.normalized_content content e
            | inr other ↦ absurd (ground (arith, f, held, stale_named row m held about other))
          ],
        )
  ]

  pub In-make_stale :
      (a : FactRow)
      → In a (make_stale now stale db.facts)
      → (row : FactRow) × In row db.facts × (a ≡ change row)
  unfolding make_stale change
  In-make_stale a m = In-map change db.facts a m

  pub change-id : (row : FactRow) → (change row).fact_id ≡ row.fact_id
  unfolding change
  change-id row = ground arith

  pub change-content : (row : FactRow) → (change row).input ≡ row.input
  unfolding change
  change-content row = ground arith

  pub change-project : (row : FactRow) → (change row).project_id ≡ row.project_id
  unfolding change
  change-project row = ground arith
