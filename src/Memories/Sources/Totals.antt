-- ===== src/Memories/Sources/Totals.antt =====
-- What the selection of a compaction's sources promises: bounds, and that nothing mandatory is missed.
use project_memory_hub.Common.{
  ℕ, ◌+◌, ◌-◌, ◌≤◌, ◌≡◌, refl, sym, ap, subst, ◌⊎◌, inl, inr, Bool, true, false, List, [], ◌∷◌,
  ◌++◌, ltb, take, length, In, arith, All, Bool-cases, In-append_left, In-append_right,
  length-append, length-take-le, take-length, In-All,
}
use project_memory_hub.Common.Exec.{ok, then_pure-eq-ok}
use project_memory_hub.Domain.{Uuid, Namespace, MemoryKind, BehaviorMemoryRecord, is_retrospective}
use project_memory_hub.Database.{Db}
use project_memory_hub.Memories.Insert.Invariant.{Distinct}
use project_memory_hub.Memories.Sources.{
  Selection, is_taken, is_mandatory, is_optional, compaction_identifiers, compaction_records,
  is_nil, one_if,
}
use project_memory_hub.Memories.Sources.Choice.{with_optional, select_compaction_sources}
use project_memory_hub.Memories.Sources.Laws.{
  compaction_identifiers-complete, Read, compaction_records-Read,
}

is_nil→eq : (xs : List Uuid) → is_nil xs ≡ true → xs ≡ []
is_nil→eq [] h = refl
is_nil→eq (x ∷ xs) h = cc

-- Every kind is mandatory, optional or a retrospective.
kind_cases :
    (k : MemoryKind) → is_retrospective k ≡ false → (is_mandatory k ≡ true) ⊎ (is_optional k ≡ true)
kind_cases k h = ground arith

-- What a selection promises of the table that it was made from.
pub record Selects (project_id : Uuid) (namespace : Namespace) (limit : ℕ) (db : Db) (s : Selection)
    : Type 0 where
  -- Within the limits, and only active rows of the namespace that are no retrospectives.
  pub bounded : (length s.records ≤ limit) × (s.total ≤ limit + 1)
  pub only_sources :
      All (λ row. In row db.memories × (is_taken project_id namespace row ≡ true)) s.records
  -- Unless the mandatory rows alone are too many, none of them is missed.
  pub mandatory_kept :
      s.mandatory ≤ limit
      → (row : BehaviorMemoryRecord) → In row db.memories
      → is_taken project_id namespace row ≡ true
      → is_mandatory row.memory_kind ≡ true
      → In row s.records
  -- Where the total counts no more than what was read, nothing at all is missed.
  pub whole_kept :
      s.total ≡ length s.records
      → (row : BehaviorMemoryRecord) → In row db.memories
      → is_taken project_id namespace row ≡ true
      → In row s.records

module _ (project_id : Uuid) (namespace : Namespace) (limit : ℕ) (db : Db)
    (distinct : Distinct db.memories) where
  abbrev mandatory_ids : List Uuid
  mandatory_ids = compaction_identifiers project_id namespace is_mandatory (limit + 1) db

  abbrev optional_ids : ℕ → List Uuid
  optional_ids capacity = compaction_identifiers project_id namespace is_optional (capacity + 1) db

  abbrev chosen : List Uuid
  chosen =
      mandatory_ids
      ++ take (limit - length mandatory_ids) (optional_ids (limit - length mandatory_ids))

  mandatory_listed :
      (row : BehaviorMemoryRecord)
      → length mandatory_ids ≤ limit
      → In row db.memories
      → is_taken project_id namespace row ≡ true
      → is_mandatory row.memory_kind ≡ true
      → In row.memory_id chosen
  mandatory_listed row few m t k = In-append_left mandatory_ids _ row.memory_id (
      compaction_identifiers-complete project_id namespace is_mandatory limit db row few m
        (ground arith))

  all_listed :
      (row : BehaviorMemoryRecord)
      → length mandatory_ids ≤ limit
      → length (optional_ids (limit - length mandatory_ids)) ≤ limit - length mandatory_ids
      → In row db.memories
      → is_taken project_id namespace row ≡ true
      → In row.memory_id chosen
  all_listed row few fit m t = elim (kind_cases row.memory_kind (ground arith)) [
    | inl k ↦ mandatory_listed row few m t k
    | inr k ↦
        let capacity = limit - length mandatory_ids in
        In-append_right mandatory_ids _ row.memory_id (
          subst (In row.memory_id) (sym (take-length capacity (optional_ids capacity) fit)) (
            compaction_identifiers-complete project_id namespace is_optional capacity db row fit m
              (ground arith)))
  ]

  chosen-le : length mandatory_ids ≤ limit → length chosen ≤ limit
  chosen-le few =
      let capacity = limit - length mandatory_ids in
      omega (
        arith,
        length-append mandatory_ids (take capacity (optional_ids capacity)),
        length-take-le capacity (optional_ids capacity),
      )

  abbrev overflow : Bool
  overflow =
      ltb (limit - length mandatory_ids) (length (optional_ids (limit - length mandatory_ids)))

  Selects-Read :
      (records : List BehaviorMemoryRecord)
      → length mandatory_ids ≤ limit
      → Read project_id namespace chosen db.memories records
      → Selects project_id namespace limit db (record {
        records = records;
        total = length chosen + one_if overflow;
        mandatory = length mandatory_ids;
      })
  Selects-Read records few r = record {
    bounded = (omega (arith, r.as_many, chosen-le few), ground (arith, chosen-le few));
    only_sources = In-All _ records r.taken;
    mandatory_kept = λ _ row m t k. r.all_picked row m (mandatory_listed row few m t k);
    whole_kept =
        λ same row m t. r.all_picked row m (all_listed row few (ground (arith, r.as_many)) m t);
  }

  -- With nothing chosen there is nothing to read.
  Read-nothing : is_nil chosen ≡ true → Read project_id namespace chosen db.memories []
  Read-nothing h =
      let e = is_nil→eq chosen h in
      record {
        taken = λ row m. absurd m;
        all_picked = λ row m listed. subst (In row.memory_id) e listed;
        as_many = ap length (sym e);
      }

  with_optional-Selects :
      (s : Selection)
      → length mandatory_ids ≤ limit
      → with_optional project_id namespace limit mandatory_ids db ≡ ok s
      → Selects project_id namespace limit db s
  unfolding with_optional
  with_optional-Selects s few h = elim (Bool-cases (is_nil chosen)) [
    | inl nothing ↦
        let e : record {
          records = [];
          total = length chosen + one_if overflow;
          mandatory = length mandatory_ids;
        }
            ≡ s =
          ground arith in
        subst (Selects project_id namespace limit db) e (Selects-Read [] few (Read-nothing nothing))
    | inr some_ids ↦
        let (records, reading, done) =
          then_pure-eq-ok (compaction_records project_id namespace chosen db.memories) _ s
            (rw some_ids at h) in
        let e : record {
          records = records;
          total = length chosen + one_if overflow;
          mandatory = length mandatory_ids;
        }
            ≡ s =
          ground arith in
        subst (Selects project_id namespace limit db) e (
          Selects-Read records few (
            compaction_records-Read project_id namespace chosen db.memories records distinct
              reading))
  ]

-- A selection reads at most `limit` rows and counts at most one more; it reads only active rows of
-- the namespace that are no retrospectives; it misses no mandatory row unless it reports more
-- mandatory rows than `limit`; and where its total is the number of the rows read it misses none at all.
pub select_compaction_sources-Selects :
    (project_id : Uuid) (namespace : Namespace) (limit : ℕ) (db : Db) (s : Selection)
    → Distinct db.memories
    → select_compaction_sources project_id namespace limit db ≡ ok s
    → Selects project_id namespace limit db s
unfolding select_compaction_sources
select_compaction_sources-Selects project_id namespace limit db s distinct h =
    elim (Bool-cases (
      ltb limit
        (length (compaction_identifiers project_id namespace is_mandatory (limit + 1) db)))) [
          | inr few ↦
              with_optional-Selects project_id namespace limit db distinct s (ground arith)
                (ground arith)
          | inl many ↦
              let e : record { records = []; total = limit + 1; mandatory = limit + 1 } ≡ s =
                ground arith in
              subst (Selects project_id namespace limit db) e (record {
                bounded = omega arith;
                only_sources = tt;
                mandatory_kept = λ bad. absurd (omega arith);
                whole_kept = λ bad. absurd (omega (arith, bad));
              })
        ]
