-- ===== src/Checkpoints/Proofs/Laws.antt =====
-- The proofs of earlier receipts in storage/checkpoints.py: what one shows, and when it expires.
use project_memory_hub.Common.{
  ℕ, ◌≡◌, refl, sym, subst, true, ◌&&◌, Option, none, some, List, ◌==◌, leb, length, select, map,
  In, In-map, same_some, ap, ◌∙◌, In-select, select-In, In-any, any-In, any, arith,
}
use project_memory_hub.Common.Order.Sort.{first-some, first-none}
use project_memory_hub.Common.Exec.{ok, guard, then_pure-eq-ok, value_error}
use project_memory_hub.Text.{Text}
use project_memory_hub.Text.Equal.{text_eq, text_eq→eq, text_eq_refl}
use project_memory_hub.Domain.{SourceAgent, codex, agent_rank}
use project_memory_hub.Domain.Equal.{agent_rank-injective}
use project_memory_hub.Database.{ReceiptRow}
use project_memory_hub.Checkpoints.{Store}
use project_memory_hub.Checkpoints.Receipts.{is_receipt}
use project_memory_hub.Checkpoints.Commit.{prepare_ids}
use project_memory_hub.Checkpoints.Commit.Received.{prepare_ids-same}
use project_memory_hub.Checkpoints.Proofs.{
  Connection, PriorCodexReceiptProof, matches, is_value, to_proof, scan_rows, check_rows, witness,
  witness_order, proof_of, prove_receipts, prove_managed, prior_codex_receipt_proofs, max_proofs,
  max_rows,
}

-- What is returned for one identifier.
abbrev pub Proves : Connection → Store → Text → Option PriorCodexReceiptProof → Type 0
Proves connection store id none =
    (row : ReceiptRow)
    → In row store.import_receipts
    → row.source_agent ≡ codex
    → (row.source_record_id ≡ id)
    → ⊥
Proves connection store id (some proof) = matches proof connection codex id store ≡ true

module _ (connection : Connection) (store : Store) (ids : List Text) (token count : ℕ)
    (in_transaction : connection.in_transaction ≡ true)
    (has_token : connection.transaction_token ≡ some token)
    (has_count : connection.receipt_mutation_count ≡ some count) where
  abbrev witness_key : ReceiptRow → Text × ℕ
  witness_key row = (row.source_hash, row.imported_at)

  scanned_test :
      (row : ReceiptRow) (id : Text)
      → In id ids
      → row.source_agent ≡ codex
      → row.source_record_id ≡ id
      → (agent_rank row.source_agent == agent_rank codex && any (text_eq row.source_record_id) ids)
        ≡ true
  scanned_test row id m from same =
      let listed : any (text_eq row.source_record_id) ids ≡ true =
        In-any (text_eq row.source_record_id) ids id m (rw same (text_eq_refl id)) in
      rw (from, listed) refl

  matches-row :
      (id : Text) (row : ReceiptRow)
      → In row store.import_receipts
      → (agent_rank row.source_agent == agent_rank codex) ≡ true
      → text_eq row.source_record_id id ≡ true
      → Proves connection store id (to_proof connection.object_id token count id (some row))
  unfolding matches is_receipt
  matches-row id row stored from same =
      let there : any
            (λ r. is_receipt row.source_hash id codex r && r.imported_at == row.imported_at)
            store.import_receipts
          ≡ true =
        In-any (λ r. is_receipt row.source_hash id codex r && r.imported_at == row.imported_at)
          store.import_receipts row stored (ground (arith, text_eq_refl row.source_hash)) in
      ground (arith, text_eq_refl id)

  to_proof-Proves :
      (id : Text) (found : Option ReceiptRow)
      → In id ids
      → witness id (scan_rows ids store.import_receipts) ≡ found
      → Proves connection store id (to_proof connection.object_id token count id found)
  unfolding scan_rows witness
  to_proof-Proves id none m nothing = λ row stored from same.
      let scanned : In row (scan_rows ids store.import_receipts) =
        select-In
          (λ r.
            agent_rank r.source_agent == agent_rank codex && any (text_eq r.source_record_id) ids)
          store.import_receipts row stored (scanned_test row id m from same) in
      let listed : In row
          (select (λ r. text_eq r.source_record_id id) (scan_rows ids store.import_receipts)) =
        select-In (λ r. text_eq r.source_record_id id) (scan_rows ids store.import_receipts) row
          scanned (rw same (text_eq_refl id)) in
      subst (λ rows. In row rows)
        (first-none witness_order witness_key
          (select (λ r. text_eq r.source_record_id id) (scan_rows ids store.import_receipts))
          nothing)
        listed
  to_proof-Proves id (some row) m found =
      let (listed, _) =
        first-some witness_order witness_key
          (select (λ r. text_eq r.source_record_id id) (scan_rows ids store.import_receipts)) row
          found in
      let (scanned, same) =
        In-select (λ r. text_eq r.source_record_id id) (scan_rows ids store.import_receipts) row
          listed in
      let (stored, test) =
        In-select
          (λ r.
            agent_rank r.source_agent == agent_rank codex && any (text_eq r.source_record_id) ids)
          store.import_receipts row scanned in
      matches-row id row stored (ground arith) same

-- What the proofs were made from.
made :
    (connection : Connection) (store : Store) (ids : List Text)
    (proofs : List (Option PriorCodexReceiptProof))
    → prior_codex_receipt_proofs connection ids store ≡ ok proofs
    → (token : ℕ) × (count : ℕ) × (connection.in_transaction ≡ true)
      × (connection.transaction_token ≡ some token)
      × (connection.receipt_mutation_count ≡ some count)
      × (proofs
          ≡ map
              (proof_of connection.object_id token count (scan_rows ids store.import_receipts))
              ids)
unfolding prior_codex_receipt_proofs prove_receipts
made connection store ids proofs h =
    let (_, active, h1) = then_pure-eq-ok (guard connection.in_transaction value_error) _ _ h in
    managed connection.transaction_token connection.receipt_mutation_count (ground arith) h1
  where
    managed :
        (token count : Option ℕ)
        → connection.in_transaction ≡ true
        → prove_managed connection token count ids store ≡ ok proofs
        → (t : ℕ) × (c : ℕ) × (connection.in_transaction ≡ true)
          × (token ≡ some t)
          × (count ≡ some c)
          × (proofs
              ≡ map (proof_of connection.object_id t c (scan_rows ids store.import_receipts)) ids)
    managed none count a k = cc
    managed (some token) none a k = cc
    managed (some token) (some count) a k =
        let (_, _, k1) =
          then_pure-eq-ok (guard (connection.total_changes == 0) value_error) _ _ k in
        let (_, _, k2) = then_pure-eq-ok (guard (leb (length ids) max_proofs) value_error) _ _ k1 in
        let (prepared, preparing, k3) = then_pure-eq-ok (prepare_ids ids) _ _ k2 in
        let (_, _, k4) =
          then_pure-eq-ok
            (guard (leb (length (scan_rows prepared store.import_receipts)) max_rows) value_error) _
            _ k3 in
        let (_, _, k5) =
          then_pure-eq-ok (check_rows (scan_rows prepared store.import_receipts)) _ _ k4 in
        let same : ids ≡ prepared = prepare_ids-same ids prepared preparing in
        (
          token,
          count,
          a,
          refl,
          refl,
          subst
              (λ p.
                proofs
                ≡ map
                    (proof_of connection.object_id token count (scan_rows p store.import_receipts))
                    p)
              (sym same) (ground arith),
        )

-- Each proof that is returned matches its identifier on the connection and the store that it was
-- made from, and where none is returned for an identifier, no record of Codex with it was imported.
pub prior_codex_receipt_proofs-Proves :
    (connection : Connection) (store : Store) (ids : List Text)
    (proofs : List (Option PriorCodexReceiptProof))
    → prior_codex_receipt_proofs connection ids store ≡ ok proofs
    → (prove : Text → Option PriorCodexReceiptProof) × (proofs ≡ map prove ids)
      × ((id : Text) → In id ids → Proves connection store id (prove id))
prior_codex_receipt_proofs-Proves connection store ids proofs h =
    let (token, count, a, t, c, e) = made connection store ids proofs h in
    (
      proof_of connection.object_id token count (scan_rows ids store.import_receipts),
      e,
      λ id m. to_proof-Proves connection store ids token count a t c id _ m refl,
    )

is_value-some : (n : ℕ) (o : Option ℕ) → is_value n o ≡ true → o ≡ some n
is_value-some n none h = cc
is_value-some n (some m) h = ground arith

to_proof-fields :
    (object_id token count : ℕ) (id : Text) (found : Option ReceiptRow)
    (proof : PriorCodexReceiptProof)
    → some proof ≡ to_proof object_id token count id found
    → (proof.connection_id ≡ object_id)
      × (proof.transaction_token ≡ token)
      × (proof.receipt_mutation_count ≡ count)
      × (proof.source_record_id ≡ id)
to_proof-fields object_id token count id none proof e = cc
to_proof-fields object_id token count id (some row) proof e =
    let same = same_some e in
    (
      ap (λ (p : PriorCodexReceiptProof). p.connection_id) same,
      ap (λ (p : PriorCodexReceiptProof). p.transaction_token) same,
      ap (λ (p : PriorCodexReceiptProof). p.receipt_mutation_count) same,
      ap (λ (p : PriorCodexReceiptProof). p.source_record_id) same,
    )

-- The receipt of a proof, where it matches.
matches-stored :
    (proof : PriorCodexReceiptProof) (connection : Connection) (agent : SourceAgent) (id : Text)
    (store : Store)
    → matches proof connection agent id store ≡ true
    → (row : ReceiptRow) × In row store.import_receipts
      × (is_receipt proof.source_hash id codex row ≡ true)
      × (row.imported_at ≡ proof.imported_at)
unfolding matches
matches-stored proof connection agent id store h =
    let same : id ≡ proof.source_record_id = text_eq→eq id proof.source_record_id (ground arith) in
    let (row, stored, this) =
      any-In
        (λ r.
          is_receipt proof.source_hash proof.source_record_id codex r
          && r.imported_at == proof.imported_at)
        store.import_receipts (ground arith) in
    (row, stored, rw same (ground arith), ground arith)

-- A proof that was made on one connection and matches later, does so on the same connection object,
-- in a transaction with the same token, with no receipt written in it since, for Codex and an
-- identifier that was asked for, which matched when the proof was made; and the receipt that it
-- names is still stored.
pub matches-Expires :
    (connection later : Connection) (store after : Store) (ids : List Text)
    (proofs : List (Option PriorCodexReceiptProof)) (proof : PriorCodexReceiptProof)
    (agent : SourceAgent) (id : Text)
    → prior_codex_receipt_proofs connection ids store ≡ ok proofs
    → In (some proof) proofs
    → matches proof later agent id after ≡ true
    → (later.object_id ≡ connection.object_id)
      × (later.in_transaction ≡ true)
      × (later.transaction_token ≡ connection.transaction_token)
      × (later.receipt_mutation_count ≡ connection.receipt_mutation_count)
      × (agent ≡ codex)
      × In id ids
      × (matches proof connection codex id store ≡ true)
      × ((row : ReceiptRow) × In row after.import_receipts
          × (is_receipt proof.source_hash id codex row ≡ true)
          × (row.imported_at ≡ proof.imported_at))
unfolding matches
matches-Expires connection later store after ids proofs proof agent id h listed fits =
    let (token, count, a, t, c, e) = made connection store ids proofs h in
    let prove = proof_of connection.object_id token count (scan_rows ids store.import_receipts) in
    let (asked, m, is_proof) = In-map prove ids (some proof) (subst (In (some proof)) e listed) in
    let (o, tp, cp, ip) = to_proof-fields connection.object_id token count asked _ proof is_proof in
    let same : id ≡ asked = text_eq→eq id proof.source_record_id (ground arith) ∙ ip in
    let proved = to_proof-Proves connection store ids token count a t c asked _ m refl in
    (
      ground (arith, o),
      ground arith,
      is_value-some proof.transaction_token later.transaction_token (ground arith)
          ∙ ap some tp
          ∙ sym t,
      is_value-some proof.receipt_mutation_count later.receipt_mutation_count (ground arith)
          ∙ ap some cp
          ∙ sym c,
      agent_rank-injective agent codex (ground arith),
      subst (λ x. In x ids) (sym same) m,
      subst (λ x. matches proof connection codex x store ≡ true) (sym same)
          (subst (Proves connection store asked) (sym is_proof) proved),
      matches-stored proof later agent id after fits,
    )
