-- ===== src/Checkpoints/Receipts/Laws.antt =====
-- The receipts of storage/checkpoints.py: when one exists, and that it is imported once.
use project_memory_hub.Common.{
  ◌≡◌, refl, sym, ap, subst, ◌∙◌, inl, inr, Bool, true, false, not, ◌&&◌, Option, none, some, [],
  ◌∷◌, ◌++◌, leb, length, any, In-any, In-append_right, arith, Bool-cases,
}
use project_memory_hub.Common.Exec.{
  ok, lift, guard, then_pure-eq-ok, bind-ok, transaction, settle-ok, value_error,
}
use project_memory_hub.Memories.Prepare.{hexdigest}
use project_memory_hub.Text.{Text, codes, is_empty, strip}
use project_memory_hub.Text.Utf8.{strict_utf8_size}
use project_memory_hub.Text.Equal.{text_eq, text_eq_refl}
use project_memory_hub.Domain.{Instant, SourceAgent}
use project_memory_hub.Database.{ReceiptRow}
use project_memory_hub.Checkpoints.{Store}
use project_memory_hub.Checkpoints.Receipts.{
  check_scope, check_source_record_id, check_source_hash, receipt_exists, insert_receipt,
  has_receipt, is_receipt, save_confirmation, commit_import_receipt_on_connection, unless_exists,
  commit_import_receipt,
}

pub check_source_hash-same : (value out : Text) → check_source_hash value ≡ ok out → value ≡ out
unfolding check_source_hash
check_source_hash-same value out h = ground arith

pub check_source_record_id-same :
    (value out : Text) → check_source_record_id value ≡ ok out → value ≡ out
unfolding check_source_record_id
check_source_record_id-same value out h =
    let (_, _, h1) =
      then_pure-eq-ok
        (guard (not (is_empty value) && text_eq value (strip value) && leb (length value) 513)
          value_error)
        _ _ h in
    let (size, _, h2) = then_pure-eq-ok (strict_utf8_size value) _ _ h1 in ground arith

pub check_scope-same : (value out : Text) → check_scope value ≡ ok out → value ≡ out
unfolding check_scope
check_scope-same value out h = ground arith

pub receipt_exists-ok :
    (source_hash id : Text) (agent : SourceAgent) (before after : Store) (exists : Bool)
    → receipt_exists source_hash id agent before ≡ (ok exists, after)
    → (before ≡ after)
      × (exists ≡ has_receipt source_hash id agent before)
      × (check_source_hash source_hash ≡ ok source_hash)
      × (check_source_record_id id ≡ ok id)
unfolding receipt_exists
receipt_exists-ok source_hash id agent before after exists h =
    let (hash, mid1, hashing, h1) =
      bind-ok (lift (check_source_hash source_hash)) _ before after exists h in
    let (prepared, mid2, preparing, h2) =
      bind-ok (lift (check_source_record_id id)) _ mid1 after exists h1 in
    let same_hash : source_hash ≡ hash =
      check_source_hash-same source_hash hash (ap (λ p. p.0) hashing) in
    let same_id : id ≡ prepared =
      check_source_record_id-same id prepared (ap (λ p. p.0) preparing) in
    let e : before ≡ mid2 = ap (λ p. p.1) hashing ∙ ap (λ p. p.1) preparing in
    (
      e ∙ ap (λ p. p.1) h2,
      (let found : has_receipt hash prepared agent mid2 ≡ exists = ground arith in cc),
      ap (λ p. p.0) hashing ∙ ap (λ t. ok t) (sym same_hash),
      ap (λ p. p.0) preparing ∙ ap (λ t. ok t) (sym same_id),
    )

pub self-receipt :
    (source_hash id : Text) (agent : SourceAgent) (now : Instant)
    → is_receipt source_hash id agent (record {
      source_hash = source_hash;
      source_record_id = id;
      source_agent = agent;
      imported_at = now;
    })
      ≡ true
unfolding is_receipt
self-receipt source_hash id agent now = ground (arith, text_eq_refl source_hash, text_eq_refl id)

module _ (sha256 : Text → Text) (source_hash id : Text) (agent : SourceAgent) where
  save_confirmation-receipts :
      (confirmation : Option Text) (now : Instant) (before after : Store)
      → save_confirmation sha256 source_hash id confirmation now before ≡ (ok tt, after)
      → before.import_receipts ≡ after.import_receipts
  unfolding save_confirmation
  save_confirmation-receipts none now before after h = ap (λ p. p.1.import_receipts) h
  save_confirmation-receipts (some confirmation) now before after h =
      let (digest, mid, hashing, h1) =
        bind-ok (lift (hexdigest sha256 (source_hash ++ codes ":" ++ id))) _ before after tt h in
      ap (λ p. p.1.import_receipts) hashing ∙ ap (λ p. p.1.import_receipts) h1

  insert_receipt-has :
      (now : Instant) (before after : Store)
      → insert_receipt source_hash id agent now before ≡ (ok tt, after)
      → has_receipt source_hash id agent after ≡ true
  unfolding insert_receipt
  insert_receipt-has now before after h =
      elim (Bool-cases (has_receipt source_hash id agent before)) [
        | inl there ↦ absurd (ground arith)
        | inr absent ↦
            let row : ReceiptRow = record {
              source_hash = source_hash;
              source_record_id = id;
              source_agent = agent;
              imported_at = now;
            } in
            let same : record before { import_receipts = before.import_receipts ++ row ∷ [] }
                ≡ after =
              ground arith in
            subst (λ s. has_receipt source_hash id agent s ≡ true) same
              (In-any (is_receipt source_hash id agent) (before.import_receipts ++ row ∷ []) row
                (In-append_right before.import_receipts (row ∷ []) row (inl refl))
                (self-receipt source_hash id agent now))
      ]

  -- The receipt is there after the writes.
  unless_exists-has :
      (exists : Bool) (confirmation : Option Text) (now : Instant) (before after : Store)
      → exists ≡ has_receipt source_hash id agent before
      → unless_exists sha256 exists source_hash id agent confirmation now before ≡ (ok tt, after)
      → has_receipt source_hash id agent after ≡ true
  unfolding commit_import_receipt_on_connection
  unless_exists-has true confirmation now before after e h =
      subst (λ s. has_receipt source_hash id agent s ≡ true) (ap (λ p. p.1) h) (sym e)
  unless_exists-has false confirmation now before after e h =
      let (hash, mid1, hashing, h1) =
        bind-ok (lift (check_source_hash source_hash)) _ before after tt h in
      let (prepared, mid2, preparing, h2) =
        bind-ok (lift (check_source_record_id id)) _ mid1 after tt h1 in
      let (_, mid3, inserting, h3) =
        bind-ok (insert_receipt hash prepared agent now) _ mid2 after tt h2 in
      let same_hash : hash ≡ source_hash =
        sym (check_source_hash-same source_hash hash (ap (λ p. p.0) hashing)) in
      let same_id : prepared ≡ id =
        sym (check_source_record_id-same id prepared (ap (λ p. p.0) preparing)) in
      let inserted : insert_receipt source_hash id agent now mid2 ≡ (ok tt, mid3) =
        subst (λ t. insert_receipt t id agent now mid2 ≡ (ok tt, mid3)) same_hash
          (subst (λ t. insert_receipt hash t agent now mid2 ≡ (ok tt, mid3)) same_id inserting) in
      let saved : save_confirmation sha256 source_hash id confirmation now mid3 ≡ (ok tt, after) =
        subst (λ t. save_confirmation sha256 t id confirmation now mid3 ≡ (ok tt, after)) same_hash
          (subst (λ t. save_confirmation sha256 hash t confirmation now mid3 ≡ (ok tt, after))
            same_id h3) in
      subst (λ rows. any (is_receipt source_hash id agent) rows ≡ true)
        (save_confirmation-receipts confirmation now mid3 after saved)
        (insert_receipt-has now mid2 mid3 inserted)

  -- A receipt that was committed is there, and committing it again, with any confirmation and
  -- at any time, returns and changes nothing.
  pub commit_import_receipt-Once :
      (confirmation again : Option Text) (now then : Instant) (before after : Store)
      → commit_import_receipt sha256 source_hash id agent confirmation none now before
        ≡ (ok tt, after)
      → (has_receipt source_hash id agent after ≡ true)
        × (commit_import_receipt sha256 source_hash id agent again none then after ≡ (ok tt, after))
  unfolding commit_import_receipt transaction receipt_exists
  commit_import_receipt-Once confirmation again now then before after h =
      let (exists, mid, asked, h1) =
        bind-ok (receipt_exists source_hash id agent) _ before after tt
          (settle-ok before _ tt after h) in
      let (same, is_there, good_hash, good_id) =
        receipt_exists-ok source_hash id agent before mid exists asked in
      let (_, mid2, writing, h2) =
        bind-ok (unless_exists sha256 exists source_hash id agent confirmation now) _ mid after tt
          h1 in
      let has : has_receipt source_hash id agent mid2 ≡ true =
        unless_exists-has exists confirmation now mid mid2
          (subst (λ s. exists ≡ has_receipt source_hash id agent s) same is_there) writing in
      let has_after : has_receipt source_hash id agent after ≡ true =
        subst (λ s. has_receipt source_hash id agent s ≡ true) (ap (λ p. p.1) h2) has in
      (has_after, rw (good_hash, good_id, has_after) refl)
