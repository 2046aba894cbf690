-- ===== src/Memories/Insert/Laws.antt =====
-- What an insert returns and writes, on each of its ways out.
use project_memory_hub.Common.{
  ◌≡◌, ◌↔◌, refl, sym, ap, ◌⊎◌, inl, inr, true, false, not, some, [], ◌∷◌, ◌++◌, any, In,
  find_first, arith, Option-cases, Bool-cases, find_first-snoc, any-false_mono, In-any,
  find_first-some, In-append_right,
}
use project_memory_hub.Common.Exec.{ok}
use project_memory_hub.Text.{Text}
use project_memory_hub.Text.Equal.{text_eq→eq, text_eq_refl}
use project_memory_hub.Domain.{
  Uuid, Namespace, MemoryKind, BehaviorMemoryInput, BehaviorMemoryRecord, InsertResult,
}
use project_memory_hub.Domain.Equal.{same_namespace→eq, same_namespace_refl, kind_rank-injective}
use project_memory_hub.Database.{Db}
use project_memory_hub.Memories.Insert.{same_key, clash, new_row, write_memory}

-- The columns of the UNIQUE constraint.
pub record Key : Type 0 where
  pub project_id : Uuid
  pub namespace : Namespace
  pub task_fingerprint : Text
  pub memory_kind : MemoryKind
  pub content_hash : Text

abbrev pub key_of : BehaviorMemoryInput → Key
key_of a = record {
  project_id = a.project_id;
  namespace = a.namespace;
  task_fingerprint = a.task_fingerprint;
  memory_kind = a.memory_kind;
  content_hash = a.content_hash;
}

key_refl : (a b : BehaviorMemoryInput) → key_of a ≡ key_of b → same_key a b ≡ true
unfolding same_key
key_refl a b e = ground (
  arith,
  ap (λ (k : Key). k.project_id) e,
  ap (λ (k : Key). k.namespace) e,
  ap (λ (k : Key). k.task_fingerprint) e,
  ap (λ (k : Key). k.memory_kind) e,
  ap (λ (k : Key). k.content_hash) e,
  same_namespace_refl a.namespace,
  text_eq_refl a.task_fingerprint,
  text_eq_refl a.content_hash,
)

pub same_key_iff : (a b : BehaviorMemoryInput) → (same_key a b ≡ true) ↔ (key_of a ≡ key_of b)
unfolding same_key
same_key_iff a b = (
  λ h. ground (
    arith,
    same_namespace→eq a.namespace b.namespace,
    text_eq→eq a.task_fingerprint b.task_fingerprint,
    kind_rank-injective a.memory_kind b.memory_kind,
    text_eq→eq a.content_hash b.content_hash,
  ),
  key_refl a b,
)

pub same_key_sym : (a b : BehaviorMemoryInput) → same_key a b ≡ true → same_key b a ≡ true
same_key_sym a b h = (same_key_iff b a).1 (sym ((same_key_iff a b).0 h))

pub clash_sym : (a b : BehaviorMemoryRecord) → clash a b ≡ true → clash b a ≡ true
unfolding clash
clash_sym a b h = ground (arith, same_key_sym a.input b.input)

pub same_key-clash :
    (a b : BehaviorMemoryRecord) → same_key b.input a.input ≡ true → clash a b ≡ true
unfolding clash
same_key-clash a b h = ground (arith, same_key_sym b.input a.input)

-- What a successful write did.
pub record Written (fresh : Uuid) (prepared : BehaviorMemoryInput) (before after : Db)
    (r : InsertResult) : Type 0 where
  pub row : BehaviorMemoryRecord
  pub found : find_first (λ x. same_key x.input prepared) after.memories ≡ some row
  pub stored : In row after.memories
  pub named : row.memory_id ≡ r.record_id
  pub keyed : key_of row.input ≡ key_of prepared
  pub flags : r.duplicate ≡ not r.inserted
  pub change :
      ((r.inserted ≡ true)
        × (r.record_id ≡ fresh)
        × (after ≡ record before { memories = before.memories ++ new_row fresh prepared ∷ [] })
        × (any (clash (new_row fresh prepared)) before.memories ≡ false))
      ⊎ ((r.inserted ≡ false) × (after ≡ before))

module _ (fresh : Uuid) (prepared : BehaviorMemoryInput) (db : Db) where
  find_fresh :
      any (clash (new_row fresh prepared)) db.memories ≡ false
      → find_first (λ row. same_key row.input prepared) (db.memories ++ new_row fresh prepared ∷ [])
        ≡ some (new_row fresh prepared)
  find_fresh h =
      let unseen =
        any-false_mono (clash (new_row fresh prepared)) (λ row. same_key row.input prepared)
          db.memories (λ a. same_key-clash (new_row fresh prepared) a) h in
      find_first-snoc (λ row. same_key row.input prepared) db.memories (new_row fresh prepared)
        unseen ((same_key_iff prepared prepared).1 refl)

  write_fresh :
      any (clash (new_row fresh prepared)) db.memories ≡ false
      → write_memory fresh prepared db ≡ (
        ok (record { inserted = true; duplicate = false; record_id = fresh }),
        record db { memories = db.memories ++ new_row fresh prepared ∷ [] },
      )
  unfolding write_memory
  write_fresh h = ground (arith, find_fresh h)

  Written-fresh :
      (after : Db) (r : InsertResult)
      → any (clash (new_row fresh prepared)) db.memories ≡ false
      → after ≡ record db { memories = db.memories ++ new_row fresh prepared ∷ [] }
      → r ≡ record { inserted = true; duplicate = false; record_id = fresh }
      → Written fresh prepared db after r
  Written-fresh after r h ea er = record {
    row = new_row fresh prepared;
    found = rw ea (find_fresh h);
    stored = rw ea (In-append_right db.memories _ _ (inl refl));
    named = rw er;
    keyed = refl;
    flags = rw er;
    change = inl (rw er, rw er, ea, h);
  }

  Written-duplicate :
      (after : Db) (r : InsertResult) (row : BehaviorMemoryRecord)
      → find_first (λ x. same_key x.input prepared) db.memories ≡ some row
      → after ≡ db
      → r ≡ record { inserted = false; duplicate = true; record_id = row.memory_id }
      → Written fresh prepared db after r
  Written-duplicate after r row found ea er =
      let (place, keys) = find_first-some _ db.memories row found in
      record {
        row = row;
        found = rw ea found;
        stored = rw ea place;
        named = rw er;
        keyed = (same_key_iff row.input prepared).0 keys;
        flags = rw er;
        change = inr (rw er, ea);
      }

  pub write_memory-ok :
      (after : Db) (r : InsertResult)
      → write_memory fresh prepared db ≡ (ok r, after)
      → Written fresh prepared db after r
  write_memory-ok after r h = elim (Bool-cases (any (clash (new_row fresh prepared)) db.memories)) [
    | inl t ↦ elim (Option-cases (find_first (λ x. same_key x.input prepared) db.memories)) [
      | inl missing ↦ absurd (unfold write_memory in ground arith)
      | inr (row, found) ↦
          Written-duplicate after r row found (unfold write_memory in ground arith)
            (unfold write_memory in ground arith)
    ]
    | inr f ↦ let e = write_fresh f in Written-fresh after r f (ground arith) (ground arith)
  ]

  -- A second write of the same key finds the row and leaves the table.
  pub write_again :
      (again : Uuid) (after : Db) (r : InsertResult)
      → Written fresh prepared db after r
      → write_memory again prepared after
        ≡ (ok (record { inserted = false; duplicate = true; record_id = r.record_id }), after)
  write_again again after r w =
      let keys = (same_key_iff w.row.input prepared).1 w.keyed in
      let seen =
        In-any (clash (new_row again prepared)) after.memories w.row w.stored
          (same_key-clash (new_row again prepared) w.row keys) in
      unfold write_memory in ground (arith, w.found, w.named)

  -- A write changes no other table.
  pub Written-frame :
      (after : Db) (r : InsertResult)
      → Written fresh prepared db after r
      → (after.projects ≡ db.projects)
        × (after.source_refs ≡ db.source_refs)
        × (after.import_receipts ≡ db.import_receipts)
  Written-frame after r w = elim w.change [
    | inl (_, _, grown, _) ↦ ground arith
    | inr (_, same_db) ↦ ground arith
  ]
