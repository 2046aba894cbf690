-- ===== src/Compaction/Inactive/Listed.antt =====
-- The projects that `_inactive_projects` of services/compaction.py lists.
use project_memory_hub.Common.{
  ℕ, zero, suc, ◌+◌, ◌*◌, ◌≤◌, ◌≡◌, refl, subst, ◌⊎◌, inl, inr, Bool, true, ◌&&◌, Option, none,
  some, List, [], ◌∷◌, leb, ltb, length, select, In, In-select, All, arith, Option-cases,
}
use project_memory_hub.Common.Order.{nat_order}
use project_memory_hub.Common.Order.Sort.{first, first-some}
use project_memory_hub.Common.Exec.{ok, guard, then_pure-eq-ok, value_error}
use project_memory_hub.Text.{Text}
use project_memory_hub.Domain.{Instant}
use project_memory_hub.Database.{Db, ProjectRow}
use project_memory_hub.Memories.Namespaces.{or_else}
use project_memory_hub.Compaction.Inactive
use project_memory_hub.Compaction.Inactive.{
  InactiveProject, is_active_state, is_number, is_due, is_listed, listed_order, listed_key,
  epoch_or_zero, next_project, scan_projects, inactive_projects, snapshot_at, parse_strict_utc,
}

module _ (parse : Text → Option Instant) (is_record : ProjectRow → Bool) (days : ℕ)
    (now : Instant) where
  -- The row that a listed project comes from: enabled, active and due.
  pub record IsInactive (rows : List ProjectRow) (project : InactiveProject) : Type 0 where
    pub row : ProjectRow
    pub stored : In row rows
    pub enabled : row.enabled ≡ true
    pub is_active : is_active_state row.inactivity_state ≡ true
    -- Its text was read as a time that lies the given days back.
    pub named : project.project_id ≡ row.project_id
    pub written : row.last_observed_change ≡ some project.stored_timestamp
    pub indexed : row.last_observed_change_epoch_us ≡ some project.stored_epoch_us
    pub observed : Instant
    pub parsed : parse_strict_utc parse project.stored_timestamp ≡ some observed
    pub due : observed + days * 86400000000 ≤ now

  snapshot-IsInactive :
      (rows : List ProjectRow) (row : ProjectRow) (project : InactiveProject)
      → In row rows
      → row.enabled ≡ true
      → is_active_state row.inactivity_state ≡ true
      → Inactive.snapshot parse is_record days now row ≡ some project
      → IsInactive rows project
  unfolding Inactive.snapshot snapshot_at is_due
  snapshot-IsInactive rows row project stored enabled active h =
      elim (Option-cases row.last_observed_change) [
        | inl missing ↦ absurd (ground arith)
        | inr (text, written) ↦ elim (Option-cases row.last_observed_change_epoch_us) [
          | inl missing ↦ absurd (ground arith)
          | inr (epoch, indexed) ↦ elim (Option-cases (parse_strict_utc parse text)) [
            | inl unread ↦ absurd (ground arith)
            | inr (observed, parsed) ↦
                let made : snapshot_at parse is_record days now row text (some observed)
                      (some epoch)
                    ≡ some project =
                  ground arith in
                let due : observed + days * 86400000000 ≤ now = ground arith in
                let e : record {
                  project_id = row.project_id;
                  stored_timestamp = text;
                  stored_epoch_us = epoch;
                }
                    ≡ project =
                  ground arith in
                subst (IsInactive rows) e (record {
                  row = row;
                  stored = stored;
                  enabled = enabled;
                  is_active = active;
                  named = refl;
                  written = written;
                  indexed = indexed;
                  observed = observed;
                  parsed = parsed;
                  due = due;
                })
          ]
        ]
      ]

  or_else-some :
      {A : Type 0} (a b : Option A) (x : A) → or_else a b ≡ some x → (a ≡ some x) ⊎ (b ≡ some x)
  or_else-some none b x h = inr h
  or_else-some (some a) b x h = inl h

  next_project-ok :
      (cursor : Option (ℕ × ℕ)) (rows : List ProjectRow) (row : ProjectRow)
      → next_project parse is_record days now cursor rows ≡ some row
      → In row rows × (row.enabled ≡ true) × (is_active_state row.inactivity_state ≡ true)
  unfolding next_project
  next_project-ok none rows row h =
      let (m, _) =
        first-some (listed_order parse is_record) (listed_key parse is_record)
          (select (is_listed parse is_record days now) rows) row h in
      let (stored, test) = In-select (is_listed parse is_record days now) rows row m in
      (stored, ground arith, ground arith)
  next_project-ok (some cursor) rows row h =
      let same : ProjectRow → Bool = λ r.
        r.enabled
        && is_active_state r.inactivity_state
        && is_number cursor.0 r.last_observed_change_epoch_us
        && ltb cursor.1 r.project_id in
      let later : ProjectRow → Bool = λ r.
        is_listed parse is_record days now r && ltb cursor.0 (epoch_or_zero parse is_record r) in
      elim (or_else-some (first nat_order (λ r. r.project_id) (select same rows))
        (first (listed_order parse is_record) (listed_key parse is_record) (select later rows)) row
        h) [
          | inl found ↦
              let (m, _) = first-some nat_order (λ r. r.project_id) (select same rows) row found in
              let (stored, test) = In-select same rows row m in (stored, ground arith, ground arith)
          | inr found ↦
              let (m, _) =
                first-some (listed_order parse is_record) (listed_key parse is_record)
                  (select later rows) row found in
              let (stored, test) = In-select later rows row m in
              (stored, ground arith, ground arith)
        ]

  abbrev pub Lists : List ProjectRow → ℕ → List InactiveProject → Type 0
  Lists rows room projects = (length projects ≤ room) × All (IsInactive rows) projects

  scan_projects-IsInactive :
      (rounds room : ℕ) (cursor : Option (ℕ × ℕ)) (rows : List ProjectRow)
      → Lists rows room (scan_projects parse is_record rounds days now room cursor rows)
  unfolding scan_projects
  scan_projects-IsInactive zero room cursor rows = (omega arith, tt)
  scan_projects-IsInactive (suc rounds) zero cursor rows = (omega arith, tt)
  scan_projects-IsInactive (suc rounds) (suc room) cursor rows =
      elim (Option-cases (next_project parse is_record days now cursor rows)) [
        | inl nothing ↦
            let e : []
                ≡ scan_projects parse is_record (suc rounds) days now (suc room) cursor rows =
              ground arith in
            subst (Lists rows (suc room)) e (omega arith, tt)
        | inr (row, found) ↦
            let (stored, enabled, active) = next_project-ok cursor rows row found in
            elim (Option-cases (Inactive.snapshot parse is_record days now row)) [
              | inl unusable ↦
                  let e : scan_projects parse is_record rounds days now (suc room)
                        (some (listed_key parse is_record row)) rows
                      ≡ scan_projects parse is_record (suc rounds) days now (suc room) cursor rows =
                    ground arith in
                  subst (Lists rows (suc room)) e (
                    scan_projects-IsInactive rounds (suc room)
                      (some (listed_key parse is_record row)) rows)
              | inr (project, taken) ↦
                  let (short, rest) =
                    scan_projects-IsInactive rounds room (some (listed_key parse is_record row))
                      rows in
                  let e : project
                        ∷ scan_projects parse is_record rounds days now room
                            (some (listed_key parse is_record row)) rows
                      ≡ scan_projects parse is_record (suc rounds) days now (suc room) cursor rows =
                    ground arith in
                  subst (Lists rows (suc room)) e (
                    omega arith,
                    (snapshot-IsInactive rows row project stored enabled active taken, rest),
                  )
            ]
      ]

  -- The list of inactive projects holds at most `limit` projects, and each is the snapshot of a
  -- stored row that is enabled and active, and whose text was read as a time that many days back.
  pub inactive_projects-IsInactive :
      (limit : ℕ) (db : Db) (projects : List InactiveProject)
      → inactive_projects parse is_record days now limit db ≡ ok projects
      → Lists db.projects limit projects
  unfolding inactive_projects
  inactive_projects-IsInactive limit db projects h =
      let (_, _, h1) = then_pure-eq-ok (guard (leb 1 limit && leb limit 10001) value_error) _ _ h in
      let e : scan_projects parse is_record (length db.projects) days now limit none db.projects
          ≡ projects =
        ground arith in
      subst (Lists db.projects limit) e
        (scan_projects-IsInactive (length db.projects) limit none db.projects)
