-- ===== src/Facts/Observe/Classify.antt =====
-- Which rows are current after an observation.
use project_memory_hub.Common.{
  ◌≡◌, refl, ◌⊎◌, inl, inr, Bool, true, List, [], ◌∷◌, ◌++◌, ◌==◌, if◌then◌else◌, map, In, arith,
  Bool-cases, subst, sym, ap, ◌∙◌, In-map, In-append,
}
use project_memory_hub.Text.{Text}
use project_memory_hub.Text.Equal.{text_eq→eq}
use project_memory_hub.Domain.{Uuid, Instant, ProjectFactInput}
use project_memory_hub.Database.{Db, FactRow}
use project_memory_hub.Facts.Rows.{is_current, same_fact, make_stale, refreshed, observed_row}
use project_memory_hub.Facts.Observe.Laws.{
  IsAbout, same_subject→IsAbout, stale, change, change-current, In-make_stale, change-id,
  change-content, change-project,
}

-- An id names one row.
abbrev pub IsUnique : List FactRow → Type 0
IsUnique rows = (a b : FactRow) → In a rows → In b rows → a.fact_id ≡ b.fact_id → a ≡ b

same_fact→IsAbout :
    (project_id : Uuid) (fact : ProjectFactInput) (row : FactRow)
    → same_fact project_id fact row ≡ true
    → IsAbout project_id fact row × (row.normalized_content ≡ fact.normalized_content)
unfolding same_fact
same_fact→IsAbout project_id fact row h = (
  same_subject→IsAbout project_id fact row (ground arith),
  text_eq→eq row.normalized_content fact.normalized_content (ground arith),
)

module _ (project_id : Uuid) (fact : ProjectFactInput) (now : Instant) (fact_id : Uuid) (db : Db)
    (wins : Bool) (content : Text) where
  -- A current row after the observation is an old one, of the content that holds where it is about
  -- the same, or the row of the observation, which has won.
  abbrev pub Classified : FactRow → Type 0
  Classified a =
      (In a db.facts
        × (is_current a ≡ true)
        × (IsAbout project_id fact a → a.normalized_content ≡ content))
      ⊎ ((wins ≡ true)
          × IsAbout project_id fact a
          × (a.normalized_content ≡ fact.normalized_content))

  abbrev pub AllClassified : List FactRow → Type 0
  AllClassified rows = (a : FactRow) → In a rows → is_current a ≡ true → Classified a

  change-Classified :
      (row : FactRow)
      → In row db.facts
      → is_current (change project_id fact now db content row) ≡ true
      → Classified (change project_id fact now db content row)
  change-Classified row m h =
      let (same, held, about) = change-current project_id fact now db content row m h in
      inl (rw same (m, held, about))

  abbrev pub changed : List FactRow
  changed = make_stale now (stale project_id fact now db content) db.facts

  changed-Classified : AllClassified changed
  changed-Classified a m h =
      let (row, place, e) = In-make_stale project_id fact now db content a m in
      subst Classified (sym e) (change-Classified row place (subst (λ r. is_current r ≡ true) e h))

  abbrev pub observed : FactRow
  observed = observed_row wins project_id fact (stale project_id fact now db content) now fact_id

  observed-Classified : is_current observed ≡ true → Classified observed
  unfolding observed_row
  observed-Classified h =
      inr (ground arith, record { project = refl; category = refl; reference = refl }, refl)

  pub inserted-Classified : AllClassified (changed ++ observed ∷ [])
  inserted-Classified a m h = elim (In-append changed (observed ∷ []) a m) [
    | inl l ↦ changed-Classified a l h
    | inr (inl e) ↦
        subst Classified (sym e) (observed-Classified (subst (λ r. is_current r ≡ true) e h))
    | inr (inr gone) ↦ absurd gone
  ]

  -- The row of the same observation, after it.
  module _ (exact : FactRow) (found : In exact db.facts)
      (same : same_fact project_id fact exact ≡ true) (distinct : IsUnique db.facts) where
    abbrev pub renew : FactRow → FactRow
    renew row =
        if row.fact_id == exact.fact_id
        then refreshed wins fact (stale project_id fact now db content) now exact row
        else row

    refreshed-Classified :
        (row : FactRow)
        → In row db.facts
        → row.fact_id ≡ exact.fact_id
        → is_current (
            refreshed wins fact
              (stale project_id fact now db content)
              now
              exact
              (change project_id fact now db content row))
          ≡ true
        → Classified (
            refreshed wins fact
              (stale project_id fact now db content)
              now
              exact
              (change project_id fact now db content row))
    unfolding refreshed
    refreshed-Classified row m e h =
        let named : row ≡ exact = distinct row exact m found e in
        let (about, holds) = same_fact→IsAbout project_id fact exact same in
        let input : (change project_id fact now db content row).input ≡ exact.input =
          change-content project_id fact now db content row ∙ ap (λ (r : FactRow). r.input) named in
        inr (
          ground arith,
          record {
            project =
                change-project project_id fact now db content row
                ∙ ap (λ (r : FactRow). r.project_id) named
                ∙ about.project;
            category = ap (λ (i : ProjectFactInput). i.category) input ∙ about.category;
            reference = ap (λ (i : ProjectFactInput). i.evidence_reference) input ∙ about.reference;
          },
          ap (λ (i : ProjectFactInput). i.normalized_content) input ∙ holds,
        )

    renew-Classified :
        (row : FactRow)
        → In row db.facts
        → is_current (renew (change project_id fact now db content row)) ≡ true
        → Classified (renew (change project_id fact now db content row))
    renew-Classified row m h =
        let id = change-id project_id fact now db content row in
        elim (Bool-cases ((change project_id fact now db content row).fact_id == exact.fact_id)) [
          | inl t ↦ rw t (refreshed-Classified row m (ground (arith, id)) (rw t at h))
          | inr f ↦ rw f (change-Classified row m (rw f at h))
        ]

    pub renewed-Classified : AllClassified (map renew changed)
    renewed-Classified a m h =
        let (b, place, e) = In-map renew changed a m in
        let (row, origin, k) = In-make_stale project_id fact now db content b place in
        let whole : a ≡ renew (change project_id fact now db content row) = e ∙ ap renew k in
        subst Classified (sym whole)
          (renew-Classified row origin (subst (λ r. is_current r ≡ true) whole h))
