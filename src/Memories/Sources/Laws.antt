-- ===== src/Memories/Sources/Laws.antt =====
-- What the reads of a compaction's source rows find.
use project_memory_hub.Common.{
  ℕ, suc, ◌+◌, ◌≤◌, ◌≡◌, refl, sym, ap, subst, ◌∙◌, inl, inr, Bool, true, not, ◌&&◌, none, some,
  List, [], ◌∷◌, ◌++◌, ◌==◌, select, take, any, all, length, In, find_first, arith, Option-cases,
  In-select, select-In, In-append, all-In, any-In, In-any, In-map, map-In, find_first-some,
  find_first-none, take-length, length-take, length-map,
}
use project_memory_hub.Common.Batches.{batches}
use project_memory_hub.Common.Order.Sort.{sort, sort-In}
use project_memory_hub.Common.Exec.{ok, guard, then_pure-eq-ok, runtime_error}
use project_memory_hub.Domain.{Uuid, Namespace, MemoryKind, BehaviorMemoryRecord}
use project_memory_hub.Database.{Db}
use project_memory_hub.Memories.Insert.Invariant.{Distinct}
use project_memory_hub.Memories.Rows.{Distinct-unique}
use project_memory_hub.Memories.Sources.{
  is_taken, kind_order, kind_key, is_live, ids, compaction_identifiers, is_oversized, holds,
  batch_rows, read_batches, pick, is_unique, compaction_records, update_batch,
}

-- A test that more than `n` were found also tells that all were.
pub take-all {ℓ} :
    {A : Type ℓ} (n : ℕ) (xs : List A) → length (take (n + 1) xs) ≤ n → take (n + 1) xs ≡ xs
take-all n xs h = take-length (n + 1) xs (omega (arith, length-take (n + 1) xs))

module _ (project_id : Uuid) (namespace : Namespace) where
  pub compaction_identifiers-complete :
      (kinds : MemoryKind → Bool) (limit : ℕ) (db : Db) (row : BehaviorMemoryRecord)
      → length (compaction_identifiers project_id namespace kinds (limit + 1) db) ≤ limit
      → In row db.memories
      → (is_live project_id namespace row && kinds row.memory_kind) ≡ true
      → In row.memory_id (compaction_identifiers project_id namespace kinds (limit + 1) db)
  unfolding compaction_identifiers
  compaction_identifiers-complete kinds limit db row few m h =
      let test : BehaviorMemoryRecord → Bool =
        λ r. is_live project_id namespace r && kinds r.memory_kind in
      let sorted = sort kind_order kind_key (select test db.memories) in
      let whole =
        take-all limit sorted
          (omega (arith, few, length-map (λ r. r.memory_id) (take (limit + 1) sorted))) in
      subst (λ rows. In row.memory_id (ids rows)) (sym whole)
        (map-In (λ r. r.memory_id) sorted row
          (sort-In kind_order kind_key (select test db.memories) row
            (select-In test db.memories row m h)))

  read_batches-In :
      (bs : List (List Uuid)) (rows found : List BehaviorMemoryRecord) (row : BehaviorMemoryRecord)
      → read_batches project_id namespace bs rows ≡ ok found
      → In row found
      → In row rows × (is_taken project_id namespace row ≡ true)
  unfolding read_batches batch_rows
  read_batches-In [] rows found row h m =
      let e : found ≡ [] = ground arith in absurd (subst (In row) e m)
  read_batches-In (b ∷ bs) rows found row h m =
      let (_, _, h1) =
        then_pure-eq-ok
          (guard (not (any is_oversized (batch_rows project_id namespace b rows))) runtime_error) _
          _ h in
      let (more, later, e) = then_pure-eq-ok (read_batches project_id namespace bs rows) _ _ h1 in
      let whole : found ≡ batch_rows project_id namespace b rows ++ more = ground arith in
      let parts = subst (In row) whole m in
      elim (In-append (batch_rows project_id namespace b rows) more row parts) [
        | inl here ↦ let (place, test) = In-select _ rows row here in (place, ground arith)
        | inr there ↦ read_batches-In bs rows more row later there
      ]

module _ (x : Uuid) (xs : List Uuid) (rows : List BehaviorMemoryRecord) where
  abbrev named : BehaviorMemoryRecord → Bool
  named row = row.memory_id == x

  pick-missing : find_first named rows ≡ none → pick (x ∷ xs) rows ≡ pick xs rows
  unfolding pick
  pick-missing h = rw (h, pick) refl

  pick-found :
      (r : BehaviorMemoryRecord)
      → find_first named rows ≡ some r
      → pick (x ∷ xs) rows ≡ r ∷ pick xs rows
  unfolding pick
  pick-found r h = rw (h, pick) refl

pub pick-In :
    (xs : List Uuid) (rows : List BehaviorMemoryRecord) (row : BehaviorMemoryRecord)
    → In row (pick xs rows)
    → In row rows
pick-In [] rows row m = absurd (unfold pick in m)
pick-In (x ∷ xs) rows row m = elim (Option-cases (find_first (named x xs rows) rows)) [
  | inl missing ↦ pick-In xs rows row (subst (In row) (pick-missing x xs rows missing) m)
  | inr (r, found) ↦ elim (subst (In row) (pick-found x xs rows r found) m) [
    | inl e ↦ rw e ((find_first-some (named x xs rows) rows r found).0)
    | inr later ↦ pick-In xs rows row later
  ]
]

-- The row of a listed identifier is picked, where the rows hold it and no other of its id.
pub In-pick :
    (xs : List Uuid) (rows : List BehaviorMemoryRecord) (row : BehaviorMemoryRecord)
    → ((other : BehaviorMemoryRecord)
        → In other rows
        → other.memory_id ≡ row.memory_id
        → other ≡ row)
    → In row.memory_id xs
    → In row rows
    → In row (pick xs rows)
In-pick [] rows row only m n = absurd m
In-pick (x ∷ xs) rows row only m n = elim (Option-cases (find_first (named x xs rows) rows)) [
  | inl missing ↦ subst (In row) (sym (pick-missing x xs rows missing)) (elim m [
    | inl e ↦ absurd (
        cc (
          find_first-none (named x xs rows) rows missing,
          In-any (named x xs rows) rows row n (ground arith),
        ))
    | inr later ↦ In-pick xs rows row only later n
  ])
  | inr (r, found) ↦
      let (place, hit) = find_first-some (named x xs rows) rows r found in
      subst (In row) (sym (pick-found x xs rows r found)) (elim m [
        | inl e ↦ inl (sym (only r place (ground arith)))
        | inr later ↦ inr (In-pick xs rows row only later n)
      ])
]

-- Where the rows hold every identifier, one row is picked for each.
pub length-pick :
    (xs : List Uuid) (rows : List BehaviorMemoryRecord)
    → all (holds (ids rows)) xs ≡ true
    → length (pick xs rows) ≡ length xs
unfolding pick
length-pick [] rows h = refl
length-pick (x ∷ xs) rows h = elim (Option-cases (find_first (named x xs rows) rows)) [
  | inl missing ↦
      let (y, listed, same) = any-In (λ y. x == y) (ids rows) (ground arith) in
      let (row, place, e) = In-map (λ r. r.memory_id) rows y listed in
      absurd (
        cc (
          find_first-none (named x xs rows) rows missing,
          In-any (named x xs rows) rows row place (ground arith),
        ))
  | inr (r, found) ↦
      ap length (pick-found x xs rows r found) ∙ ap suc (length-pick xs rows (ground arith))
]

-- What a successful read of the selected identifiers returned.
pub record Read (project_id : Uuid) (namespace : Namespace) (selected : List Uuid)
    (rows records : List BehaviorMemoryRecord) : Type 0 where
  pub taken :
      (row : BehaviorMemoryRecord)
      → In row records
      → In row rows × (is_taken project_id namespace row ≡ true)
  pub all_picked :
      (row : BehaviorMemoryRecord) → In row rows → In row.memory_id selected → In row records
  pub as_many : length records ≡ length selected

pub compaction_records-Read :
    (project_id : Uuid) (namespace : Namespace) (selected : List Uuid)
    (rows records : List BehaviorMemoryRecord)
    → Distinct rows
    → compaction_records project_id namespace selected rows ≡ ok records
    → Read project_id namespace selected rows records
unfolding compaction_records
compaction_records-Read project_id namespace selected rows records d h =
    let (_, _, h1) = then_pure-eq-ok (guard (is_unique selected) runtime_error) _ _ h in
    let (found, reading, h2) =
      then_pure-eq-ok
        (read_batches project_id namespace (batches (length selected) update_batch selected) rows) _
        _ h1 in
    let here : all (holds (ids found)) selected ≡ true = ground arith in
    let e : pick selected found ≡ records = ground arith in
    let from_rows = read_batches-In project_id namespace _ rows found in
    record {
      taken =
          λ row m. from_rows row reading (pick-In selected found row (subst (In row) (sym e) m));
      all_picked = λ row m listed.
          let (y, place_y, same) =
            any-In (λ y. row.memory_id == y) (ids found)
              (all-In (holds (ids found)) selected row.memory_id here listed) in
          let (r, r_in, re) = In-map (λ q. q.memory_id) found y place_y in
          let r_row = Distinct-unique rows r row d (from_rows r reading r_in).0 m (ground arith) in
          subst (In row) e (
            In-pick selected found row
              (λ other n q. Distinct-unique rows other row d (from_rows other reading n).0 m q)
              listed (subst (λ q. In q found) r_row r_in));
      as_many = ap length (sym e) ∙ length-pick selected found here;
    }
