-- ===== src/Compaction/Inactive/Laws.antt =====
-- `_mark_inactive` of services/compaction.py: when it marks a project, and what else it leaves.
use project_memory_hub.Common.{
  ℕ, ◌+◌, ◌*◌, ◌≤◌, ◌≡◌, refl, sym, ap, ◌∙◌, length-map, subst, inl, inr, Bool, true, false, Option,
  none, some, List, [], ◌∷◌, ◌==◌, length, map, select, find_first, find_first-some, In, map-In,
  arith, Bool-cases, Option-cases,
}
use project_memory_hub.Common.Exec.{Error, Result-cases, ok, err, transaction}
use project_memory_hub.Text.{Text}
use project_memory_hub.Domain.{Uuid, Instant}
use project_memory_hub.Database.{Db, ProjectRow, inactive}
use project_memory_hub.Memories.Sources.{is_unique, holds}
use project_memory_hub.Compaction.Inactive.{
  InactiveProject, is_due, parse_strict_utc, is_unchanged, check_eligible, assert_eligible,
  is_marked, marked, mark_inactive,
}

abbrev pub project_ids : List ProjectRow → List Uuid
project_ids rows = map (λ row. row.project_id) rows

module _ (parse : Text → Option Instant) (days : ℕ) (expected : InactiveProject)
    (now : Instant) where
  abbrev is_project : ProjectRow → Bool
  is_project row = row.project_id == expected.project_id

  select-other :
      (rows : List ProjectRow) (id : Uuid)
      → id ≡ expected.project_id
      → holds (project_ids rows) id ≡ false
      → length (select (is_marked parse expected) rows) ≡ 0
  select-other [] id e h = refl
  select-other (row ∷ rows) id e h = ground (arith, select-other rows id e)

  -- A key names one row, so that the update changes one.
  length-marked :
      (rows : List ProjectRow) (row : ProjectRow)
      → is_unique (project_ids rows) ≡ true
      → find_first is_project rows ≡ some row
      → is_marked parse expected row ≡ true
      → length (select (is_marked parse expected) rows) ≡ 1
  unfolding is_unique
  length-marked [] row u found h = absurd (ground arith)
  length-marked (r ∷ rows) row u found h = elim (Bool-cases (is_project r)) [
    | inl here ↦ let same : r ≡ row = ground arith in ground (arith, select-other rows r.project_id)
    | inr there ↦ ground (arith, length-marked rows row)
  ]

  check_eligible-ok :
      (found : Option ProjectRow)
      → check_eligible parse days expected now found ≡ ok tt
      → (row : ProjectRow) × (found ≡ some row)
        × (is_unchanged parse expected row ≡ true)
        × ((observed : Instant) × (parse_strict_utc parse expected.stored_timestamp ≡ some observed)
            × (observed + days * 86400000000 ≤ now))
  unfolding is_due
  check_eligible-ok none h = absurd (ground arith)
  check_eligible-ok (some row) h =
      elim (Option-cases (parse_strict_utc parse expected.stored_timestamp)) [
        | inl nothing ↦ absurd (ground arith)
        | inr (observed, parsed) ↦ (row, refl, ground arith, (observed, parsed, ground arith))
      ]

  -- What marking a project did.
  pub record Marks (before after : Db) : Type 0 where
    -- The row was what the snapshot holds, and its last change is old enough.
    pub row : ProjectRow
    pub was_stored : In row before.projects
    pub was_unchanged : is_unchanged parse expected row ≡ true
    pub observed : Instant
    pub was_parsed : parse_strict_utc parse expected.stored_timestamp ≡ some observed
    pub was_due : observed + days * 86400000000 ≤ now
    -- It is inactive now, the other rows are as they were, and so is every other table.
    pub is_stored : In (record row { inactivity_state = inactive; updated_at = now }) after.projects
    pub others :
        (other : ProjectRow)
        → In other before.projects
        → is_project other ≡ false
        → In other after.projects
    pub tables : after ≡ record before { projects = after.projects }
    pub count : length after.projects ≡ length before.projects

  unchanged-marked :
      (row : ProjectRow)
      → is_project row ≡ true
      → is_unchanged parse expected row ≡ true
      → is_marked parse expected row ≡ true
  unfolding is_unchanged
  unchanged-marked row p u = ground arith

  marked-In :
      (row : ProjectRow) (rows : List ProjectRow)
      → is_marked parse expected row ≡ true
      → In row rows
      → In
          (record row { inactivity_state = inactive; updated_at = now })
          (map (marked parse expected now) rows)
  marked-In row rows this m =
      let e : marked parse expected now row
          ≡ record row { inactivity_state = inactive; updated_at = now } =
        rw this refl in
      subst (λ r. In r (map (marked parse expected now) rows)) e
        (map-In (marked parse expected now) rows row m)

  other-In :
      (row : ProjectRow) (rows : List ProjectRow)
      → is_project row ≡ false
      → In row rows
      → In row (map (marked parse expected now) rows)
  other-In row rows apart m =
      let e : marked parse expected now row ≡ row = rw apart refl in
      subst (λ r. In r (map (marked parse expected now) rows)) e
        (map-In (marked parse expected now) rows row m)

  -- Marking a project inactive, where identifiers are distinct, never reports false: it returns
  -- true, or it raises. When it returns, the project's row was still that of the snapshot and its
  -- last change was old enough; the row is stored as inactive with the new update time; every row of
  -- another project is still stored, there are as many as before, and no other table has changed.
  pub mark_inactive-Marks :
      (before after : Db) (result : Bool)
      → is_unique (project_ids before.projects) ≡ true
      → mark_inactive parse days expected now before ≡ (ok result, after)
      → (result ≡ true) × Marks before after
  unfolding mark_inactive transaction assert_eligible
  mark_inactive-Marks before after result unique h =
      elim (Result-cases
        (check_eligible parse days expected now (find_first is_project before.projects))) [
          | inl (_, eligible) ↦
              let (row, found, unchanged, (observed, parsed, due)) =
                check_eligible-ok (find_first is_project before.projects) eligible in
              let (stored, named) = find_first-some is_project before.projects row found in
              let this : is_marked parse expected row ≡ true =
                unchanged-marked row named unchanged in
              let one : length (select (is_marked parse expected) before.projects) ≡ 1 =
                length-marked before.projects row unique found this in
              let e : record before { projects = map (marked parse expected now) before.projects }
                  ≡ after =
                ground arith in
              (
                ground arith,
                record {
                  row = row;
                  was_stored = stored;
                  was_unchanged = unchanged;
                  observed = observed;
                  was_parsed = parsed;
                  was_due = due;
                  is_stored =
                      subst
                        (λ db.
                          In (record row { inactivity_state = inactive; updated_at = now })
                            db.projects)
                        e (marked-In row before.projects this stored);
                  others = λ other m apart.
                      subst (λ db. In other db.projects) e (other-In other before.projects apart m);
                  tables =
                      sym e
                      ∙ ap (λ rows. record before { projects = rows }) (ap (λ db. db.projects) e);
                  count =
                      ap (λ db. length db.projects) (sym e)
                      ∙ length-map (marked parse expected now) before.projects;
                },
              )
          | inr (e, fails) ↦ absurd (ground arith)
        ]

  pub mark_inactive-err :
      (db : Db) (e : Error)
      → (mark_inactive parse days expected now db).0 ≡ err e
      → (mark_inactive parse days expected now db).1 ≡ db
  unfolding mark_inactive transaction
  mark_inactive-err db e h = ground arith
