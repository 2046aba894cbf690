-- ===== src/Compaction/Inactive.antt =====
-- The inactive projects of services/compaction.py, and `strict_utc_epoch_us` of storage/database.py.
-- `datetime.fromisoformat` of a text with a time zone, as microseconds, is the parameter `parse`;
-- the validation of a `ProjectRecord` is the parameter `is_record`.
pub mod Laws
pub mod Listed
use project_memory_hub.Common.{
  ℕ, zero, suc, ◌+◌, ◌-◌, ◌*◌, Bool, true, false, not, ◌&&◌, ◌||◌, Option, none, some, List, [],
  ◌∷◌, ◌++◌, ◌==◌, ltb, leb, if◌then◌else◌, any, length, map, find_first, select, take,
}
use project_memory_hub.Common.Order.{StrictOrder, nat_order, pair_order}
use project_memory_hub.Common.Order.Sort.{first}
use project_memory_hub.Common.Exec.{
  Exec, Result, ok, err, pure, lift, gets, modify, guard, then_pure, transaction, ◌>>=◌, ◌>>◌,
  value_error, key_error, eligibility_changed,
}
use project_memory_hub.Text.{Text, codes, is_empty}
use project_memory_hub.Text.Equal.{text_eq}
use project_memory_hub.Domain.{Uuid, Instant}
use project_memory_hub.Database.{Db, ProjectRow, InactivityState, active, inactive}
use project_memory_hub.Memories.Namespaces.{or_else}

-- `_InactiveProject`; of its record, the identifier.
pub record InactiveProject : Type 0 where
  pub project_id : Uuid
  pub stored_timestamp : Text
  pub stored_epoch_us : Instant

abbrev pub is_active_state : InactivityState → Bool
is_active_state active = true
is_active_state inactive = false

-- A column that may be null equals a value.
abbrev pub is_text : Text → Option Text → Bool
is_text t none = false
is_text t (some u) = text_eq u t

abbrev pub is_number : ℕ → Option ℕ → Bool
is_number n none = false
is_number n (some m) = m == n

-- `stored_epoch_us != parsed_epoch_us`, both there.
abbrev pub is_same_number : Option ℕ → Option ℕ → Bool
is_same_number none column = false
is_same_number (some n) column = is_number n column

-- `text[-1:] == "Z"`, the text without its last character, and the text with the zone written out.
unfoldable pub normalize_zone : Text → Text
normalize_zone [] = []
normalize_zone (c ∷ []) = if c == b'Z' then codes "+00:00" else c ∷ []
normalize_zone (c ∷ d ∷ t) = c ∷ normalize_zone (d ∷ t)

-- `value.replace("Z", "+00:00")`.
unfoldable pub replace_zone : Text → Text
replace_zone [] = []
replace_zone (c ∷ t) = (if c == b'Z' then codes "+00:00" else c ∷ []) ++ replace_zone t

abbrev pub max_timestamp_chars : ℕ
max_timestamp_chars = 128

abbrev pub microseconds_per_day : ℕ
microseconds_per_day = 86400000000

-- `value <= now - timedelta(days=days)`.
unfoldable pub is_due : ℕ → Instant → Instant → Bool
is_due days now value = leb (value + days * microseconds_per_day) now

module _ (parse : Text → Option Instant) where
  unfoldable pub strict_utc_epoch_us : Text → Option Instant
  strict_utc_epoch_us value =
      if is_empty value || ltb max_timestamp_chars (length value)
      then none
      else parse (normalize_zone value)

  unfoldable pub parse_strict_utc : Text → Option Instant
  parse_strict_utc value = parse (replace_zone value)

  -- `_assert_eligible_on_connection`, on the row that it reads.
  unfoldable pub is_unchanged : InactiveProject → ProjectRow → Bool
  is_unchanged expected row =
      row.enabled
      && is_active_state row.inactivity_state
      && is_text expected.stored_timestamp row.last_observed_change
      && is_number expected.stored_epoch_us row.last_observed_change_epoch_us
      && is_number expected.stored_epoch_us (strict_utc_epoch_us expected.stored_timestamp)

  abbrev pub check_eligible : ℕ → InactiveProject → Instant → Option ProjectRow → Result (Unit {0})
  check_eligible days expected now none = err eligibility_changed
  check_eligible days expected now (some row) =
      then_pure (guard (is_unchanged expected row) eligibility_changed) λ _.
        elim (parse_strict_utc expected.stored_timestamp) [
          | none ↦ err value_error
          | some observed ↦ guard (is_due days now observed) eligibility_changed
        ]

  unfoldable pub assert_eligible : ℕ → InactiveProject → Instant → Exec Db (Unit {0})
  assert_eligible days expected now db = (
    check_eligible days expected now
        (find_first (λ row. row.project_id == expected.project_id) db.projects),
    db,
  )

  -- The rows that the update of `_mark_inactive` changes.
  abbrev pub is_marked : InactiveProject → ProjectRow → Bool
  is_marked expected row =
      row.project_id == expected.project_id
      && row.enabled
      && is_active_state row.inactivity_state
      && is_text expected.stored_timestamp row.last_observed_change
      && is_number expected.stored_epoch_us row.last_observed_change_epoch_us

  abbrev pub marked : InactiveProject → Instant → ProjectRow → ProjectRow
  marked expected now row =
      if is_marked expected row
      then record row { inactivity_state = inactive; updated_at = now }
      else row

  unfoldable pub mark_inactive : ℕ → InactiveProject → Instant → Exec Db Bool
  mark_inactive days expected now = transaction (do
    assert_eligible days expected now
    rowcount ← gets (λ db. length (select (is_marked expected) db.projects))
    modify (λ db. record db { projects = map (marked expected now) db.projects })
    pure (rowcount == 1))

  module _ (is_record : ProjectRow → Bool) where
    -- `_inactive_snapshot_from_row`, with the columns and the time that could be read.
    unfoldable pub snapshot_at :
        ℕ → Instant → ProjectRow → Text → Option Instant → Option Instant → Option InactiveProject
    snapshot_at days now row stored (some observed) (some epoch) =
        if is_same_number (strict_utc_epoch_us stored) (some epoch)
          && leb observed now
          && is_due days now observed
          && is_record row
        then some (record {
          project_id = row.project_id;
          stored_timestamp = stored;
          stored_epoch_us = epoch;
        })
        else none
    snapshot_at days now row stored observed epoch = none

    unfoldable pub snapshot : ℕ → Instant → ProjectRow → Option InactiveProject
    snapshot days now row = elim row.last_observed_change [
      | none ↦ none
      | some stored ↦
          snapshot_at days now row stored (parse_strict_utc stored)
            row.last_observed_change_epoch_us
    ]

    -- The rows of the index whose time is not after the cutoff.
    abbrev pub is_listed : ℕ → Instant → ProjectRow → Bool
    is_listed days now row =
        row.enabled
        && is_active_state row.inactivity_state
        && elim row.last_observed_change_epoch_us [
          | none ↦ false
          | some epoch ↦ is_due days now epoch
        ]

    abbrev pub listed_order : StrictOrder (ℕ × ℕ)
    listed_order = pair_order nat_order nat_order

    abbrev pub epoch_or_zero : ProjectRow → ℕ
    epoch_or_zero row = elim row.last_observed_change_epoch_us [ none ↦ 0 | some epoch ↦ epoch ]

    abbrev pub listed_key : ProjectRow → ℕ × ℕ
    listed_key row = (epoch_or_zero row, row.project_id)

    -- The queries of the loop: the first row, the next one of the same time, the next later one.
    unfoldable pub next_project : ℕ → Instant → Option (ℕ × ℕ) → List ProjectRow → Option ProjectRow
    unfolding first
    next_project days now none rows =
        first listed_order listed_key (select (is_listed days now) rows)
    next_project days now (some cursor) rows =
        or_else
          (first nat_order (λ row. row.project_id)
            (select
              (λ row.
                row.enabled
                && is_active_state row.inactivity_state
                && is_number cursor.0 row.last_observed_change_epoch_us
                && ltb cursor.1 row.project_id)
              rows))
          (first listed_order listed_key
            (select (λ row. is_listed days now row && ltb cursor.0 (epoch_or_zero row)) rows))

    -- The `while` loop, with a bound on the rounds; `room` is what `selected` may still take.
    unfoldable pub scan_projects :
        ℕ → ℕ → Instant → ℕ → Option (ℕ × ℕ) → List ProjectRow → List InactiveProject
    scan_projects zero days now room cursor rows = []
    scan_projects (suc rounds) days now zero cursor rows = []
    scan_projects (suc rounds) days now (suc room) cursor rows =
        elim (next_project days now cursor rows) [
          | none ↦ []
          | some row ↦ elim (snapshot days now row) [
            | none ↦ scan_projects rounds days now (suc room) (some (listed_key row)) rows
            | some project ↦
                project ∷ scan_projects rounds days now room (some (listed_key row)) rows
          ]
        ]

    unfoldable pub inactive_projects : ℕ → Instant → ℕ → Db → Result (List InactiveProject)
    inactive_projects days now limit db =
        then_pure (guard (leb 1 limit && leb limit 10001) value_error)
          λ _. ok (scan_projects (length db.projects) days now limit none db.projects)

    -- `_inactive_project`.
    abbrev pub inactive_of : ℕ → Instant → Option ProjectRow → Result (Option InactiveProject)
    inactive_of days now none = err key_error
    inactive_of days now (some row) =
        if not row.enabled
        then err key_error
        else if not (is_active_state row.inactivity_state)
        then ok none
        else ok (snapshot days now row)

    unfoldable pub inactive_project : ℕ → Instant → Uuid → Db → Result (Option InactiveProject)
    inactive_project days now project_id db =
        inactive_of days now (find_first (λ row. row.project_id == project_id) db.projects)
