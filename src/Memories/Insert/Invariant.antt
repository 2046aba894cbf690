-- ===== src/Memories/Insert/Invariant.antt =====
-- What every insert keeps of the tables, and what the repository's `insert` promises its callers.
use project_memory_hub.Common.{
  ◌≡◌, refl, ap, ◌∙◌, inl, inr, true, false, some, List, [], ◌∷◌, ◌++◌, ◌==◌, any, In, find_first,
  arith, Option-cases, Bool-cases, find_first-some, any-append, In-append,
}
use project_memory_hub.Common.Exec.{ok, err, Error, transaction, Result-cases}
use project_memory_hub.Text.{Text}
use project_memory_hub.Domain.{
  Uuid, agent_rank, BehaviorMemoryInput, BehaviorMemoryRecord, InsertResult,
}
use project_memory_hub.Domain.Equal.{agent_rank-injective}
use project_memory_hub.Database.{Db, SourceRef}
use project_memory_hub.Memories.Prepare.{prepare_memory, prepare_memory-hash}
use project_memory_hub.Memories.Insert.{clash, new_row, write_memory, insert_on_connection, insert}
use project_memory_hub.Memories.Insert.Laws.{Written-frame, write_memory-ok, write_again, clash_sym}

-- The table holds no two rows with one id or one unique key.
abbrev pub Distinct : List BehaviorMemoryRecord → Type 0
Distinct [] = Unit
Distinct (x ∷ xs) = (any (clash x) xs ≡ false) × Distinct xs

-- The row's hash is the digest of its content, its project is registered, and its source is there
-- and of the row's agent.
pub record IsBacked (sha256 : Text → Text) (db : Db) (row : BehaviorMemoryRecord) : Type 0 where
  pub digest : row.content_hash ≡ sha256 row.normalized_content
  pub project : any (λ p. p.project_id == row.project_id) db.projects ≡ true
  pub source : SourceRef
  pub source_stored : In source db.source_refs
  pub source_named : source.source_reference_id ≡ row.source_reference_id
  pub source_agent : source.source_agent ≡ row.namespace.source_agent

pub record IsWellFormed (sha256 : Text → Text) (db : Db) : Type 0 where
  pub distinct : Distinct db.memories
  pub backed : (row : BehaviorMemoryRecord) → In row db.memories → IsBacked sha256 db row

Distinct-snoc :
    (xs : List BehaviorMemoryRecord) (y : BehaviorMemoryRecord)
    → Distinct xs
    → any (clash y) xs ≡ false
    → Distinct (xs ++ y ∷ [])
Distinct-snoc [] y h f = (refl, tt)
Distinct-snoc (x ∷ xs) y h f = (
  ground (arith, any-append (clash x) xs (y ∷ []), clash_sym x y),
  Distinct-snoc xs y h.1 (ground arith),
)

module _ (sha256 : Text → Text) (fresh : Uuid) (memory : BehaviorMemoryInput) (db : Db) where
  -- The steps that a successful insert went through.
  pub record Steps (after : Db) (r : InsertResult) : Type 0 where
    pub prepared : BehaviorMemoryInput
    pub preparing : prepare_memory sha256 memory ≡ ok prepared
    pub project : any (λ p. p.project_id == prepared.project_id) db.projects ≡ true
    pub source : SourceRef
    pub found :
        find_first (λ s. s.source_reference_id == prepared.source_reference_id) db.source_refs
        ≡ some source
    pub agent :
        (agent_rank source.source_agent == agent_rank prepared.namespace.source_agent) ≡ true
    pub writing : write_memory fresh prepared db ≡ (ok r, after)

  pub insert_on_connection-ok :
      (after : Db) (r : InsertResult)
      → insert_on_connection sha256 fresh memory db ≡ (ok r, after)
      → Steps after r
  unfolding insert_on_connection
  insert_on_connection-ok after r h = elim (Result-cases (prepare_memory sha256 memory)) [
    | inr (e, bad) ↦ absurd (ground arith)
    | inl (p, preparing) ↦ elim (Bool-cases (any (λ q. q.project_id == p.project_id) db.projects)) [
      | inr missing ↦ absurd (ground arith)
      | inl known ↦
          elim (Option-cases
            (find_first (λ s. s.source_reference_id == p.source_reference_id) db.source_refs)) [
              | inl missing ↦ absurd (ground arith)
              | inr (source, found) ↦ record {
                prepared = p;
                preparing = preparing;
                project = known;
                source = source;
                found = found;
                agent = ground arith;
                writing = ground arith;
              }
            ]
    ]
  ]

  insert-ok :
      (after : Db) (r : InsertResult)
      → insert sha256 fresh memory db ≡ (ok r, after)
      → (p : BehaviorMemoryInput) × (prepare_memory sha256 memory ≡ ok p)
        × (insert_on_connection sha256 fresh p db ≡ (ok r, after))
  unfolding insert transaction
  insert-ok after r h = elim (Result-cases (prepare_memory sha256 memory)) [
    | inr (e, bad) ↦ absurd (ground arith)
    | inl (p, preparing) ↦ (p, preparing, ground arith)
  ]

  insert-err :
      (e : Error)
      → (insert sha256 fresh memory db).0 ≡ err e
      → (insert sha256 fresh memory db).1 ≡ db
  unfolding insert transaction
  insert-err e h = ground arith

module _ (sha256 : Text → Text) {db : Db} (whole : IsWellFormed sha256 db) (fresh : Uuid) where
  -- The row that a run of steps appends is backed by the tables as they were.
  IsBacked-new :
      (memory : BehaviorMemoryInput) (after : Db) (r : InsertResult)
      → (steps : Steps sha256 fresh memory db after r)
      → IsBacked sha256 db (new_row fresh steps.prepared)
  IsBacked-new memory after r steps =
      let (place, named) = find_first-some _ db.source_refs steps.source steps.found in
      record {
        digest = prepare_memory-hash sha256 memory steps.prepared steps.preparing;
        project = steps.project;
        source = steps.source;
        source_stored = place;
        source_named = ground arith;
        source_agent = agent_rank-injective _ _ (ground (arith, steps.agent));
      }

  appended :
      (row : BehaviorMemoryRecord)
      → IsBacked sha256 db row
      → any (clash row) db.memories ≡ false
      → IsWellFormed sha256 (record db { memories = db.memories ++ row ∷ [] })
  appended row backed new = record {
    distinct = Distinct-snoc db.memories row whole.distinct new;
    backed = λ other m. elim (In-append db.memories (row ∷ []) other m) [
      | inl old ↦ widen other (whole.backed other old)
      | inr (inl e) ↦ rw e (widen row backed)
      | inr (inr no_row) ↦ absurd no_row
    ];
  }
    where
      widen :
          (other : BehaviorMemoryRecord)
          → IsBacked sha256 db other
          → IsBacked sha256 (record db { memories = db.memories ++ row ∷ [] }) other
      widen other b = record {
        digest = b.digest;
        project = b.project;
        source = b.source;
        source_stored = b.source_stored;
        source_named = b.source_named;
        source_agent = b.source_agent;
      }

  pub insert_on_connection-IsWellFormed :
      (memory : BehaviorMemoryInput) (after : Db) (r : InsertResult)
      → insert_on_connection sha256 fresh memory db ≡ (ok r, after)
      → IsWellFormed sha256 after
  insert_on_connection-IsWellFormed memory after r h =
      let steps = insert_on_connection-ok sha256 fresh memory db after r h in
      let w = write_memory-ok fresh steps.prepared db after r steps.writing in
      elim w.change [
        | inl (_, _, grown, new) ↦
            rw grown
              (appended (new_row fresh steps.prepared) (IsBacked-new memory after r steps) new)
        | inr (_, same_db) ↦ rw same_db whole
      ]

-- Whether it succeeds or raises, an insert keeps ids and unique keys distinct, every hash the digest
-- of its content, and every row backed by a registered project and a source of its own agent.
pub insert-IsWellFormed :
    (sha256 : Text → Text) (fresh : Uuid) (memory : BehaviorMemoryInput) (db : Db)
    → IsWellFormed sha256 db
    → IsWellFormed sha256 (insert sha256 fresh memory db).1
insert-IsWellFormed sha256 fresh memory db whole =
    elim (Result-cases (insert sha256 fresh memory db).0) [
      | inl (r, done) ↦
          let (p, _, run) =
            insert-ok sha256 fresh memory db (insert sha256 fresh memory db).1 r (ground arith) in
          insert_on_connection-IsWellFormed sha256 whole fresh p _ r run
      | inr (e, failed) ↦ rw (insert-err sha256 fresh memory db e failed) whole
    ]

-- An insert that passes every check is the write.
insert_on_connection_run :
    (sha256 : Text → Text) (again : Uuid) (memory p : BehaviorMemoryInput) (source : SourceRef)
    (db : Db)
    → prepare_memory sha256 memory ≡ ok p
    → any (λ q. q.project_id == p.project_id) db.projects ≡ true
    → find_first (λ s. s.source_reference_id == p.source_reference_id) db.source_refs ≡ some source
    → (agent_rank source.source_agent == agent_rank p.namespace.source_agent) ≡ true
    → insert_on_connection sha256 again memory db ≡ write_memory again p db
unfolding insert_on_connection
insert_on_connection_run sha256 again memory p source db preparing known found agent =
    rw (preparing, known, found, agent) refl

insert_on_connection_again :
    (sha256 : Text → Text) (fresh again : Uuid) (memory : BehaviorMemoryInput) (db after : Db)
    (r : InsertResult)
    → insert_on_connection sha256 fresh memory db ≡ (ok r, after)
    → insert_on_connection sha256 again memory after
      ≡ (ok (record { inserted = false; duplicate = true; record_id = r.record_id }), after)
insert_on_connection_again sha256 fresh again memory db after r h =
    let s = insert_on_connection-ok sha256 fresh memory db after r h in
    let w = write_memory-ok fresh s.prepared db after r s.writing in
    let (projects, sources, _) = Written-frame fresh s.prepared db after r w in
    insert_on_connection_run sha256 again memory s.prepared s.source after s.preparing
      (ap (any (λ q. q.project_id == s.prepared.project_id)) projects ∙ s.project)
      (ap (find_first (λ x. x.source_reference_id == s.prepared.source_reference_id)) sources
        ∙ s.found)
      s.agent
    ∙ write_again fresh s.prepared db again after r w

-- Inserting the same memory again, under whatever id, reports a duplicate with the id of the first
-- insert and leaves the tables as they are.
pub insert_again :
    (sha256 : Text → Text) (fresh again : Uuid) (memory : BehaviorMemoryInput) (db after : Db)
    (r : InsertResult)
    → insert sha256 fresh memory db ≡ (ok r, after)
    → insert sha256 again memory after
      ≡ (ok (record { inserted = false; duplicate = true; record_id = r.record_id }), after)
insert_again sha256 fresh again memory db after r h =
    let (p, preparing, run) = insert-ok sha256 fresh memory db after r h in
    let repeated = insert_on_connection_again sha256 fresh again p db after r run in
    unfold insert transaction in rw (preparing, repeated) refl
