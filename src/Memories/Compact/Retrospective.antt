-- ===== src/Memories/Compact/Retrospective.antt =====
-- The write of a retrospective, and the set of the source identifiers, in
-- `_store_compaction_on_connection` of storage/memories.py.
use project_memory_hub.Common.{
  ◌≡◌, refl, sym, ap, ◌∙◌, false, subst, inl, inr, Bool, true, Option, none, some, List, [], ◌∷◌,
  ◌++◌, ◌==◌, any, In, arith, find_first, Bool-cases, Bool-ext, In-any, any-In, find_first-some,
  In-append_left,
}
use project_memory_hub.Common.Order.{nat_order}
use project_memory_hub.Common.Order.Sort.{sort, In-sort, sort-In}
use project_memory_hub.Common.Exec.{ok, bind-ok, lift}
use project_memory_hub.Text.{Text}
use project_memory_hub.Text.Equal.{text_eq→eq}
use project_memory_hub.Domain.{Uuid, BehaviorMemoryInput, BehaviorMemoryRecord, InsertResult}
use project_memory_hub.Database.{Db}
use project_memory_hub.Memories.Insert.{insert_or_ignore, new_row, clash}
use project_memory_hub.Memories.Lifecycle.{updated}
use project_memory_hub.Memories.Rows.{updated-snoc}
use project_memory_hub.Memories.Sources.{holds}
use project_memory_hub.Memories.Compact.{sorted_set, drop_repeats}
use project_memory_hub.Memories.Compact.Store.{
  insert_retrospective, is_this_retrospective, check_retrospective, write_retrospective,
}

In-drop_repeats : (xs : List Uuid) (x : Uuid) → In x xs → In x (drop_repeats xs)
In-drop_repeats [] x m = m
In-drop_repeats (y ∷ ys) x m = elim (Bool-cases (holds ys y)) [
  | inl again ↦
      let (z, place, same) = any-In (λ z. y == z) ys again in
      rw again (elim m [
        | inl e ↦ In-drop_repeats ys x (subst (λ w. In w ys) (ground arith) place)
        | inr later ↦ In-drop_repeats ys x later
      ])
  | inr last ↦ rw last (elim m [ inl e ↦ inl e | inr later ↦ inr (In-drop_repeats ys x later) ])
]

drop_repeats-In : (xs : List Uuid) (x : Uuid) → In x (drop_repeats xs) → In x xs
drop_repeats-In [] x m = m
drop_repeats-In (y ∷ ys) x m = ground (arith, drop_repeats-In ys x)

-- The sorted set has the elements of the list.
pub holds-sorted_set : (xs : List Uuid) (x : Uuid) → holds (sorted_set xs) x ≡ holds xs x
unfolding sorted_set
holds-sorted_set xs x =
    Bool-ext (holds (sort nat_order (λ y. y) (drop_repeats xs)) x) (holds xs x)
      (λ h.
        let (y, place, same) = any-In (λ z. x == z) (sort nat_order (λ y. y) (drop_repeats xs)) h in
        In-any (λ z. x == z) xs y
          (drop_repeats-In xs y (In-sort nat_order (λ z. z) (drop_repeats xs) y place)) same)
      (λ h.
        let (y, place, same) = any-In (λ z. x == z) xs h in
        In-any (λ z. x == z) (sort nat_order (λ y. y) (drop_repeats xs)) y
          (sort-In nat_order (λ z. z) (drop_repeats xs) y (In-drop_repeats xs y place)) same)

-- The write of the retrospective adds at most a row, and finds one with the content.
pub record Summarised (wanted : BehaviorMemoryInput) (before after : Db) (r : InsertResult)
    : Type 0 where
  pub kept : (row : BehaviorMemoryRecord) → In row before.memories → In row after.memories
  pub others :
      (test : BehaviorMemoryRecord → Bool)
      → ((id : Uuid) → test (new_row id wanted) ≡ false)
      → updated test after.memories ≡ updated test before.memories
  pub row : BehaviorMemoryRecord
  pub stored : In row after.memories
  pub this : is_this_retrospective wanted row ≡ true
  pub content : row.normalized_content ≡ wanted.normalized_content
  pub named : row.memory_id ≡ r.record_id

insert_retrospective-keeps :
    (new : BehaviorMemoryRecord) (before after : Db) (inserted : Bool)
    → insert_retrospective new before ≡ (ok inserted, after)
    → (row : BehaviorMemoryRecord) → In row before.memories
    → In row after.memories
unfolding insert_retrospective insert_or_ignore
insert_retrospective-keeps new before after inserted h row m =
    elim (Bool-cases (any (clash new) before.memories)) [
      | inl seen ↦ let e : before ≡ after = ground arith in subst (λ db. In row db.memories) e m
      | inr unseen ↦
          let e : record before { memories = before.memories ++ new ∷ [] } ≡ after = ground arith in
          subst (λ db. In row db.memories) e (In-append_left before.memories (new ∷ []) row m)
    ]

insert_retrospective-counts :
    (new : BehaviorMemoryRecord) (before after : Db) (inserted : Bool)
    → insert_retrospective new before ≡ (ok inserted, after)
    → (test : BehaviorMemoryRecord → Bool) → test new ≡ false
    → updated test after.memories ≡ updated test before.memories
unfolding insert_retrospective insert_or_ignore
insert_retrospective-counts new before after inserted h test fails =
    elim (Bool-cases (any (clash new) before.memories)) [
      | inl seen ↦
          let e : before ≡ after = ground arith in ap (λ db. updated test db.memories) (sym e)
      | inr unseen ↦
          let e : record before { memories = before.memories ++ new ∷ [] } ≡ after = ground arith in
          ap (λ db. updated test db.memories) (sym e) ∙ updated-snoc test before.memories new fails
    ]

check_retrospective-ok :
    (found : Option BehaviorMemoryRecord) (content : Text) (source memory_id : Uuid)
    → check_retrospective found content source ≡ ok memory_id
    → (row : BehaviorMemoryRecord) × (found ≡ some row)
      × (row.normalized_content ≡ content)
      × (row.memory_id ≡ memory_id)
check_retrospective-ok none content source memory_id h = cc
check_retrospective-ok (some row) content source memory_id h =
    (row, refl, ground (arith, text_eq→eq row.normalized_content content), ground arith)

pub write_retrospective-ok :
    (fresh : Uuid) (wanted : BehaviorMemoryInput) (before after : Db) (r : InsertResult)
    → write_retrospective fresh wanted before ≡ (ok r, after)
    → Summarised wanted before after r
unfolding write_retrospective
write_retrospective-ok fresh wanted before after r h =
    let (inserted, mid, writing, h1) =
      bind-ok (insert_retrospective (new_row fresh wanted)) _ before after r h in
    let (memory_id, mid2, checking, h2) =
      bind-ok
        (lift (
          check_retrospective (find_first (is_this_retrospective wanted) mid.memories)
            wanted.normalized_content wanted.source_reference_id))
        _ mid after r h1 in
    let (row, found, content, named) =
      check_retrospective-ok (find_first (is_this_retrospective wanted) mid.memories)
        wanted.normalized_content wanted.source_reference_id memory_id (ground arith) in
    let (place, this) = find_first-some (is_this_retrospective wanted) mid.memories row found in
    let same : mid ≡ after = ground arith in
    record {
      kept = λ old m.
          subst (λ db. In old db.memories) same
            (insert_retrospective-keeps (new_row fresh wanted) before mid inserted writing old m);
      others = λ test fails.
          ap (λ db. updated test db.memories) (sym same)
          ∙ insert_retrospective-counts (new_row fresh wanted) before mid inserted writing test
              (fails fresh);
      row = row;
      stored = subst (λ db. In row db.memories) same place;
      this = this;
      content = content;
      named = ground arith;
    }
