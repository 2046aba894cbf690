-- ===== src/Checkpoints/Commit/Received.antt =====
-- The loop over the record identifiers in `commit_on_connection` of storage/checkpoints.py.
use project_memory_hub.Common.{
  ◌≡◌, refl, sym, ap, subst, ◌∙◌, ◌⊎◌, inl, inr, Bool, true, false, List, [], ◌∷◌, ◌++◌, any-In,
  In-any, In, In-append, In-append_left, In-append_right, arith,
}
use project_memory_hub.Common.Exec.{ok, then_pure-eq-ok, bind-ok}
use project_memory_hub.Text.{Text}
use project_memory_hub.Domain.{Instant, SourceAgent}
use project_memory_hub.Database.{ReceiptRow}
use project_memory_hub.Checkpoints.{Store}
use project_memory_hub.Checkpoints.Receipts.{
  check_source_record_id, receipt_exists, insert_receipt, has_receipt, is_receipt,
}
use project_memory_hub.Checkpoints.Commit.{prepare_ids, receive, insert_receipts}
use project_memory_hub.Checkpoints.Receipts.Laws.{
  check_source_record_id-same, receipt_exists-ok, self-receipt,
}

-- A receipt of one of these records.
abbrev pub IsOf : Text → SourceAgent → List Text → ReceiptRow → Type 0
IsOf source_hash agent ids row =
    (row.source_hash ≡ source_hash) × (row.source_agent ≡ agent) × In row.source_record_id ids

-- What the loop over the records leaves.
pub record Received (source_hash : Text) (agent : SourceAgent) (ids : List Text)
    (before after : Store) : Type 0 where
  pub kept : (row : ReceiptRow) → In row before.import_receipts → In row after.import_receipts
  pub received : (id : Text) → In id ids → has_receipt source_hash id agent after ≡ true
  pub only :
      (row : ReceiptRow)
      → In row after.import_receipts
      → In row before.import_receipts ⊎ IsOf source_hash agent ids row
  pub same_checkpoints : after.checkpoints ≡ before.checkpoints
  pub same_app_state : after.app_state ≡ before.app_state

pub prepare_ids-same : (values out : List Text) → prepare_ids values ≡ ok out → values ≡ out
unfolding prepare_ids
prepare_ids-same [] out h = ground arith
prepare_ids-same (value ∷ values) out h =
    let (prepared, first, h1) = then_pure-eq-ok (check_source_record_id value) _ _ h in
    let (rest, later, h2) = then_pure-eq-ok (prepare_ids values) _ _ h1 in
    ground
      (arith, check_source_record_id-same value prepared first, prepare_ids-same values rest later)

-- One record keeps the receipts that were there, has one, and adds no other.
receive-ok :
    (exists : Bool) (source_hash id : Text) (agent : SourceAgent) (now : Instant)
    (before after : Store)
    → exists ≡ has_receipt source_hash id agent before
    → receive exists source_hash id agent now before ≡ (ok tt, after)
    → ((row : ReceiptRow) → In row before.import_receipts → In row after.import_receipts)
      × ((row : ReceiptRow) × In row after.import_receipts
          × (is_receipt source_hash id agent row ≡ true))
      × ((row : ReceiptRow)
          → In row after.import_receipts
          → In row before.import_receipts ⊎ IsOf source_hash agent (id ∷ []) row)
      × (after.checkpoints ≡ before.checkpoints)
      × (after.app_state ≡ before.app_state)
unfolding insert_receipt
receive-ok true source_hash id agent now before after e h =
    let same : before ≡ after = ap (λ p. p.1) h in
    (
      λ row m. subst (λ s. In row s.import_receipts) same m,
      any-In (is_receipt source_hash id agent) after.import_receipts
          (subst (λ s. has_receipt source_hash id agent s ≡ true) same (sym e)),
      λ row m. inl (subst (λ s. In row s.import_receipts) (sym same) m),
      ap (λ s. s.checkpoints) (sym same),
      ap (λ s. s.app_state) (sym same),
    )
receive-ok false source_hash id agent now before after e h =
    let row : ReceiptRow = record {
      source_hash = source_hash;
      source_record_id = id;
      source_agent = agent;
      imported_at = now;
    } in
    let same : record before { import_receipts = before.import_receipts ++ row ∷ [] } ≡ after =
      ground arith in
    (
      λ old m.
          subst (λ s. In old s.import_receipts) same
            (In-append_left before.import_receipts (row ∷ []) old m),
      (
        row,
        subst (λ s. In row s.import_receipts) same
            (In-append_right before.import_receipts (row ∷ []) row (inl refl)),
        self-receipt source_hash id agent now,
      ),
      λ other m.
          elim (In-append before.import_receipts (row ∷ []) other
            (subst (λ s. In other s.import_receipts) (sym same) m)) [
              | inl old ↦ inl old
              | inr (inl new) ↦ inr (
                ap (λ r. r.source_hash) new,
                ap (λ r. r.source_agent) new,
                inl (ap (λ r. r.source_record_id) new),
              )
              | inr (inr never) ↦ absurd never
            ],
      ap (λ s. s.checkpoints) (sym same),
      ap (λ s. s.app_state) (sym same),
    )

pub insert_receipts-Received :
    (source_hash : Text) (agent : SourceAgent) (now : Instant) (ids : List Text)
    (before after : Store)
    → insert_receipts source_hash agent now ids before ≡ (ok tt, after)
    → Received source_hash agent ids before after
unfolding insert_receipts
insert_receipts-Received source_hash agent now [] before after h =
    let e : before ≡ after = ap (λ p. p.1) h in
    record {
      kept = λ row m. subst (λ s. In row s.import_receipts) e m;
      received = λ id m. absurd m;
      only = λ row m. inl (subst (λ s. In row s.import_receipts) (sym e) m);
      same_app_state = ap (λ s. s.app_state) (sym e);
      same_checkpoints = ap (λ s. s.checkpoints) (sym e);
    }
insert_receipts-Received source_hash agent now (id ∷ ids) before after h =
    let (exists, mid, asked, h1) =
      bind-ok (receipt_exists source_hash id agent) _ before after tt h in
    let (same, is_there, _, _) = receipt_exists-ok source_hash id agent before mid exists asked in
    let (_, mid2, receiving, h2) =
      bind-ok (receive exists source_hash id agent now) _ mid after tt h1 in
    let (one_kept, (row, stored, this), one_only, one_same, one_state) =
      receive-ok exists source_hash id agent now mid mid2
        (subst (λ s. exists ≡ has_receipt source_hash id agent s) same is_there) receiving in
    let rest = insert_receipts-Received source_hash agent now ids mid2 after h2 in
    record {
      kept = λ row m. rest.kept row (one_kept row (subst (λ s. In row s.import_receipts) same m));
      received = λ other m. elim m [
        | inl e ↦
            subst (λ name. has_receipt source_hash name agent after ≡ true) (sym e)
              (In-any (is_receipt source_hash id agent) after.import_receipts row
                (rest.kept row stored) this)
        | inr later ↦ rest.received other later
      ];
      only = λ other m. elim (rest.only other m) [
        | inr (hashed, from, named) ↦ inr (hashed, from, inr named)
        | inl middle ↦ elim (one_only other middle) [
          | inl old ↦ inl (subst (λ s. In other s.import_receipts) (sym same) old)
          | inr (hashed, from, inl this_id) ↦ inr (hashed, from, inl this_id)
          | inr (hashed, from, inr never) ↦ absurd never
        ]
      ];
      same_app_state = rest.same_app_state ∙ one_state ∙ ap (λ s. s.app_state) (sym same);
      same_checkpoints = rest.same_checkpoints ∙ one_same ∙ ap (λ s. s.checkpoints) (sym same);
    }
