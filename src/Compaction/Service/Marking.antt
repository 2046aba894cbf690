-- ===== src/Compaction/Service/Marking.antt =====
-- When `compact_project` of services/compaction.py marks its project as inactive.
use project_memory_hub.Common.{
  ℕ, ◌≡◌, refl, sym, ap, subst, ◌∙◌, ◌⊎◌, inl, inr, Bool, true, false, ◌&&◌, Option, none, some,
  List, [], ◌∷◌, ◌==◌, take, arith, Bool-cases, Option-cases, find_first, find_first-some,
}
use project_memory_hub.Common.Exec.{ok, Result-cases, bind-ok}
use project_memory_hub.Text.{Text}
use project_memory_hub.Domain.{Uuid, Instant, Namespace}
use project_memory_hub.Database.{Db, ProjectRow}
use project_memory_hub.Memories.Sources.{is_unique}
use project_memory_hub.Compaction.Counts.{CompactionSummary, merge_summaries}
use project_memory_hub.Compaction.Plan.Build.{Redaction}
use project_memory_hub.Compaction.Inactive.{
  InactiveProject, snapshot_at, snapshot, inactive_project, mark_inactive,
}
use project_memory_hub.Compaction.Inactive.Laws.{
  Marks, mark_inactive-Marks, mark_inactive-err, project_ids,
}
use project_memory_hub.Compaction.Service.Keeps.{Keeps, compact-Keeps, project_rows}
use project_memory_hub.Compaction.Service.{compact}
use project_memory_hub.Compaction.Service.Project.{
  summary_of, compact_namespaces, compact_snapshot, compact_found, compact_project, mark, is_clean,
  namespaces_of, first_totals, max_namespaces,
}

module _ (sha256 casefold failure_signature : Text → Text) (redact : Text → Redaction)
    (parse : Text → Option Instant) (is_record : ProjectRow → Bool)
    (fresh : Uuid → Namespace → Uuid × Uuid) (days source_limit : ℕ) where
  compact_namespaces-Keeps :
      (project_id : Uuid) (is_dry_run : Bool) (expected : InactiveProject) (now : Instant)
      (totals : CompactionSummary) (namespaces : List Namespace)
      → Keeps project_rows (
          compact_namespaces sha256 casefold failure_signature redact parse is_record fresh days
            source_limit project_id is_dry_run expected now totals namespaces)
  unfolding compact_namespaces
  compact_namespaces-Keeps project_id is_dry_run expected now totals [] db = refl
  compact_namespaces-Keeps project_id is_dry_run expected now totals (namespace ∷ rest) db =
      let (result, db1) =
        compact sha256 casefold failure_signature redact parse is_record fresh days source_limit
          project_id namespace is_dry_run (some expected) now db in
      compact_namespaces-Keeps project_id is_dry_run expected now
        (merge_summaries totals (summary_of result)) rest db1
      ∙ compact-Keeps sha256 casefold failure_signature redact parse is_record fresh days
          source_limit project_id namespace is_dry_run (some expected) now db

  -- The project's rows stayed, or the totals are clean and this project was marked.
  abbrev pub Settled : Uuid → Instant → Db → Db → CompactionSummary → Type 0
  Settled project_id now before after totals =
      (after.projects ≡ before.projects)
      ⊎ ((totals.failure_count ≡ 0)
          × (totals.remaining_count ≡ 0)
          × ((expected : InactiveProject) × (middle : Db) × (expected.project_id ≡ project_id)
              × (middle.projects ≡ before.projects)
              × Marks parse days expected now middle after))

  mark-Settled :
      (expected : InactiveProject) (now : Instant) (given totals : CompactionSummary)
      (before after : Db)
      → is_unique (project_ids before.projects) ≡ true
      → is_clean given ≡ true
      → mark sha256 casefold failure_signature redact parse is_record fresh days source_limit
          expected now given before
        ≡ (ok totals, after)
      → Settled expected.project_id now before after totals
  mark-Settled expected now given totals before after unique clean h =
      elim (Result-cases (mark_inactive parse days expected now before).0) [
        | inl (result, marked) ↦
            let mid : Db = (mark_inactive parse days expected now before).1 in
            let ran : mark_inactive parse days expected now before ≡ (ok result, mid) =
              ground arith in
            let (always, marks) =
              mark_inactive-Marks parse days expected now before mid result unique ran in
            let same : given ≡ totals = ground arith in
            let is_after : mid ≡ after = ap (λ p. p.1) h in
            inr (
              ground arith,
              ground arith,
              (
                expected,
                before,
                refl,
                refl,
                subst (Marks parse days expected now before) is_after marks,
              ),
            )
        | inr (e, fails) ↦ inl (
            ap (λ p. p.1.projects) (sym h)
            ∙ ap (λ db. db.projects) (mark_inactive-err parse days expected now before e fails))
      ]

  compact_snapshot-Settled :
      (project_id : Uuid) (owns : Bool) (expected : InactiveProject) (now : Instant)
      (totals : CompactionSummary) (before after : Db)
      → is_unique (project_ids before.projects) ≡ true
      → compact_snapshot sha256 casefold failure_signature redact parse is_record fresh days
          source_limit project_id false owns expected now before
        ≡ (ok totals, after)
      → Settled expected.project_id now before after totals
  unfolding compact_snapshot
  compact_snapshot-Settled project_id owns expected now totals before after unique h =
      let (discovered, mid1, listing, h1) =
        bind-ok
          (namespaces_of sha256 casefold failure_signature redact parse is_record fresh days
            source_limit project_id expected now)
          _ before after totals h in
      let (given, mid2, compacting, h2) =
        bind-ok
          (compact_namespaces sha256 casefold failure_signature redact parse is_record fresh days
            source_limit project_id false expected now (first_totals discovered)
            (take max_namespaces discovered))
          _ mid1 after totals h1 in
      let e1 : mid1 ≡ before = ap (λ p. p.1) (sym listing) in
      let e2 : mid2.projects ≡ before.projects =
        ap (λ p. p.1.projects) (sym compacting)
        ∙ compact_namespaces-Keeps project_id false expected now (first_totals discovered)
            (take max_namespaces discovered) mid1
        ∙ ap (λ db. db.projects) e1 in
      elim (Bool-cases (owns && is_clean given)) [
        | inl done ↦
            elim (mark-Settled expected now given totals mid2 after
              (subst (λ rows. is_unique (project_ids rows) ≡ true) (sym e2) unique) (ground arith)
              (ground arith)) [
                | inl stayed ↦ inl (stayed ∙ e2)
                | inr (f, r, (marked, middle, this, same, marks)) ↦
                    inr (f, r, (marked, middle, this, same ∙ e2, marks))
              ]
        | inr unfinished ↦ inl (ground (arith, e2))
      ]

  snapshot-named :
      (now : Instant) (row : ProjectRow) (expected : InactiveProject)
      → snapshot parse is_record days now row ≡ some expected
      → expected.project_id ≡ row.project_id
  unfolding snapshot snapshot_at
  snapshot-named now row expected h = ground arith

  -- The project that is found is the one that was asked for.
  inactive_project-named :
      (now : Instant) (project_id : Uuid) (db : Db) (expected : InactiveProject)
      → inactive_project parse is_record days now project_id db ≡ ok (some expected)
      → expected.project_id ≡ project_id
  unfolding inactive_project
  inactive_project-named now project_id db expected h =
      elim (Option-cases (find_first (λ row. row.project_id == project_id) db.projects)) [
        | inl e ↦ ground arith
        | inr (row, e) ↦
            let (_, this) = find_first-some (λ r. r.project_id == project_id) db.projects row e in
            ground (arith, snapshot-named now row expected)
      ]

  -- Compacting one project, where project identifiers are distinct: either the table of the
  -- projects is as it was, or nothing failed and no row remained, and the project with the given identifier was marked.
  pub compact_project-Settled :
      (project_id : Uuid) (now : Instant) (totals : CompactionSummary) (before after : Db)
      → is_unique (project_ids before.projects) ≡ true
      → compact_project sha256 casefold failure_signature redact parse is_record fresh days
          source_limit project_id false none now before
        ≡ (ok totals, after)
      → Settled project_id now before after totals
  unfolding compact_project
  compact_project-Settled project_id now totals before after unique h =
      let (found, mid, finding, h1) =
        bind-ok (λ db. (inactive_project parse is_record days now project_id db, db)) _ before after
          totals h in
      let e : mid ≡ before = ap (λ p. p.1) (sym finding) in
      found_cases found
        (λ expected known. inactive_project-named now project_id before expected (
          subst (λ db. inactive_project parse is_record days now project_id db ≡ ok (some expected))
            refl (ap (λ p. p.0) finding ∙ ap ok known)))
        (subst
          (λ db.
            compact_found sha256 casefold failure_signature redact parse is_record fresh days
              source_limit project_id false now found db
            ≡ (ok totals, after))
          e h1)
    where
      found_cases :
          (found : Option InactiveProject)
          → ((expected : InactiveProject)
              → found ≡ some expected
              → expected.project_id ≡ project_id)
          → compact_found sha256 casefold failure_signature redact parse is_record fresh days
              source_limit project_id false now found before
            ≡ (ok totals, after)
          → Settled project_id now before after totals
      found_cases none named k = inl (ap (λ p. p.1.projects) (sym k))
      found_cases (some expected) named k =
          subst (λ id. Settled id now before after totals) (named expected refl)
            (compact_snapshot-Settled project_id true expected now totals before after unique k)
