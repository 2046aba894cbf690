-- ===== src/Memories/Lifecycle/Laws.antt =====
-- What the control of a memory's lifecycle does, on each of its ways out.
use project_memory_hub.Common.{
  ◌≡◌, ◌≢◌, refl, ap, subst, ◌∙◌, ◌⊎◌, inl, inr, Bool, true, false, ◌&&◌, ◌==◌, any, In, find_first,
  arith, Bool-cases, Option-cases, find_first-some, find_first-none, In-any,
}
use project_memory_hub.Common.Exec.{ok, err, key_error, value_error, transaction, Result-cases}
use project_memory_hub.Text.{Text}
use project_memory_hub.Domain.{
  Uuid, Namespace, BehaviorMemoryRecord, LifecycleState, deleted, is_deleted,
}
use project_memory_hub.Domain.Equal.{same_namespace_refl}
use project_memory_hub.Database.{Db}
use project_memory_hub.Memories.Insert.Invariant.{Distinct, IsWellFormed}
use project_memory_hub.Memories.Search.{in_scope, get_scoped}
use project_memory_hub.Memories.Lifecycle.{
  set_state, updated, is_control_state, target, set_lifecycle_scoped,
}
use project_memory_hub.Memories.Rows.{
  Distinct-unique, select-none, updated-one, change, In-set_state, set_state-In, set_state-keeps,
}

module _ (project_id : Uuid) (namespace : Namespace) (memory_id : Uuid)
    (selected : LifecycleState) where
  abbrev hit : BehaviorMemoryRecord → Bool
  hit = target project_id namespace memory_id

  abbrev moved : Db → Db
  moved db = record db { memories = set_state hit selected db.memories }

  set_missing :
      (db : Db)
      → is_control_state selected ≡ true
      → any hit db.memories ≡ false
      → set_lifecycle_scoped project_id namespace memory_id selected db ≡ (err key_error, db)
  unfolding set_lifecycle_scoped transaction updated
  set_missing db control missing = ground (arith, select-none hit db.memories missing)

  find_change :
      (db : Db) (row : BehaviorMemoryRecord)
      → Distinct db.memories
      → In row db.memories
      → hit row ≡ true
      → get_scoped project_id namespace memory_id (moved db)
        ≡ ok (record row { lifecycle_state = selected })
  unfolding get_scoped in_scope
  find_change db row d m h =
      let here : change hit selected row ≡ record row { lifecycle_state = selected } =
        ground arith in
      let place = set_state-In hit selected db.memories row m in
      let asked : BehaviorMemoryRecord → Bool =
        λ x. x.memory_id == memory_id && in_scope project_id namespace x in
      let found = In-any asked (moved db).memories (change hit selected row) place (ground arith) in
      elim (Option-cases (find_first asked (moved db).memories)) [
        | inl missing ↦ absurd (cc (found, find_first-none asked (moved db).memories missing))
        | inr (b, e) ↦
            let (b_in, b_asked) = find_first-some asked (moved db).memories b e in
            let (c, c_in, c_to_b) = In-set_state hit selected db.memories b b_in in
            let same_row = Distinct-unique db.memories c row d c_in m (ground arith) in
            rw e (ap ok (c_to_b ∙ ap (change hit selected) same_row ∙ here))
      ]

  set_found :
      (db : Db) (row : BehaviorMemoryRecord)
      → is_control_state selected ≡ true
      → Distinct db.memories
      → In row db.memories
      → hit row ≡ true
      → set_lifecycle_scoped project_id namespace memory_id selected db
        ≡ (ok (record row { lifecycle_state = selected }), moved db)
  unfolding set_lifecycle_scoped transaction
  set_found db row control d m h =
      let once = updated-one hit db.memories row (λ b hb. ground arith) d m h in
      ground (arith, find_change db row d m h)

  set_refused :
      (db : Db)
      → is_control_state selected ≡ false
      → set_lifecycle_scoped project_id namespace memory_id selected db ≡ (err value_error, db)
  unfolding set_lifecycle_scoped
  set_refused db other = ground arith

module _ (project_id : Uuid) (namespace : Namespace) (memory_id : Uuid) (selected : LifecycleState)
    (db : Db) where
  set_outcomes :
      ((set_lifecycle_scoped project_id namespace memory_id selected db).1 ≡ db)
      ⊎ ((set_lifecycle_scoped project_id namespace memory_id selected db).1
          ≡ moved project_id namespace memory_id selected db)
  unfolding set_lifecycle_scoped transaction
  set_outcomes =
      elim (Result-cases (
        get_scoped project_id namespace memory_id
          (moved project_id namespace memory_id selected db))) [
            | inl (r, found) ↦ ground arith
            | inr (e, failed) ↦ inl (ground arith)
          ]

-- The row has the id and lies in the scope, and has not been deleted.
pub record IsTarget (project_id : Uuid) (namespace : Namespace) (memory_id : Uuid)
    (row : BehaviorMemoryRecord) : Type 0 where
  pub named : row.memory_id ≡ memory_id
  pub project : row.project_id ≡ project_id
  pub scope : row.namespace ≡ namespace
  pub live : row.lifecycle_state ≢ deleted

is_deleted→eq : (s : LifecycleState) → is_deleted s ≡ true → s ≡ deleted
is_deleted→eq s h = ground arith

IsTarget→target :
    (project_id : Uuid) (namespace : Namespace) (memory_id : Uuid) (row : BehaviorMemoryRecord)
    → IsTarget project_id namespace memory_id row
    → target project_id namespace memory_id row ≡ true
unfolding in_scope
IsTarget→target project_id namespace memory_id row t =
    elim (Bool-cases (is_deleted row.lifecycle_state)) [
      | inl gone ↦ absurd (t.live (is_deleted→eq row.lifecycle_state gone))
      | inr live ↦
          rw (live, t.named, t.project, t.scope) (ground (arith, same_namespace_refl namespace))
    ]

-- Archiving or deleting a row of the scope that is not deleted returns that row in its new state,
-- and writes that state to it and to no other row.
pub set_lifecycle_scoped-ok :
    (sha256 : Text → Text) (project_id : Uuid) (namespace : Namespace) (memory_id : Uuid)
    (selected : LifecycleState) (db : Db) (row : BehaviorMemoryRecord)
    → is_control_state selected ≡ true
    → IsWellFormed sha256 db
    → In row db.memories
    → IsTarget project_id namespace memory_id row
    → ((set_lifecycle_scoped project_id namespace memory_id selected db).0
        ≡ ok (record row { lifecycle_state = selected }))
      × In
          (record row { lifecycle_state = selected })
          (set_lifecycle_scoped project_id namespace memory_id selected db).1.memories
      × ((other : BehaviorMemoryRecord)
          → In other db.memories
          → other.memory_id ≢ memory_id
          → In other (set_lifecycle_scoped project_id namespace memory_id selected db).1.memories)
set_lifecycle_scoped-ok sha256 project_id namespace memory_id selected db row control whole m t =
    let h = IsTarget→target project_id namespace memory_id row t in
    let run = set_found project_id namespace memory_id selected db row control whole.distinct m h in
    let test = target project_id namespace memory_id in
    let here : change test selected row ≡ record row { lifecycle_state = selected } =
      ground arith in
    rw run (
      refl,
      subst (λ r. In r (set_state test selected db.memories)) here
          (set_state-In test selected db.memories row m),
      λ other place ne. set_state-keeps test selected db.memories other place (ground (arith, ne)),
    )

-- A row that is deleted stays deleted, whatever is asked of it.
pub set_lifecycle_scoped-deleted :
    (project_id : Uuid) (namespace : Namespace) (memory_id : Uuid) (selected : LifecycleState)
    (db : Db) (row : BehaviorMemoryRecord)
    → In row db.memories
    → row.lifecycle_state ≡ deleted
    → In row (set_lifecycle_scoped project_id namespace memory_id selected db).1.memories
set_lifecycle_scoped-deleted project_id namespace memory_id selected db row m gone =
    elim (set_outcomes project_id namespace memory_id selected db) [
      | inl same_db ↦ rw same_db m
      | inr moved_db ↦ rw moved_db (
          set_state-keeps (target project_id namespace memory_id) selected db.memories row m
            (ground (arith, gone)))
    ]
