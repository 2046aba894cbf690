-- ===== src/Checkpoints/Proofs.antt =====
-- `_PriorCodexReceiptProof` and `prior_codex_receipt_proofs_on_connection` of
-- storage/checkpoints.py. A connection has the number of its object, which `is` compares, its
-- transaction's token, the counter of receipt writes in that transaction, and its number of changes.
pub mod Laws
use project_memory_hub.Common.{
  ℕ, ◌≡◌, refl, Bool, true, false, not, ◌&&◌, ◌||◌, Option, none, some, List, [], ◌∷◌, ◌++◌, ◌==◌,
  ltb, leb, if◌then◌else◌, any, all, map, length, take, select,
}
use project_memory_hub.Common.Order.{StrictOrder, nat_order, pair_order, text_order}
use project_memory_hub.Common.Order.Sort.{first}
use project_memory_hub.Common.Exec.{Result, ok, err, guard, then_pure, value_error}
use project_memory_hub.Text.{Text}
use project_memory_hub.Text.Equal.{text_eq}
use project_memory_hub.Domain.{Instant, SourceAgent, codex, agent_rank}
use project_memory_hub.Database.{ReceiptRow}
use project_memory_hub.Checkpoints.{Store}
use project_memory_hub.Checkpoints.Receipts.{check_source_record_id, check_source_hash, is_receipt}
use project_memory_hub.Checkpoints.Commit.{prepare_ids}

pub record Connection : Type 0 where
  pub object_id : ℕ
  pub in_transaction : Bool
  pub transaction_token : Option ℕ
  pub receipt_mutation_count : Option ℕ
  pub total_changes : ℕ

-- The proof's private fields; its agent is always Codex.
pub record PriorCodexReceiptProof : Type 0 where
  pub source_record_id : Text
  pub source_hash : Text
  pub imported_at : Instant
  pub connection_id : ℕ
  pub transaction_token : ℕ
  pub receipt_mutation_count : ℕ

abbrev pub max_proofs : ℕ
max_proofs = 10000

abbrev pub max_rows : ℕ
max_rows = 100000

abbrev pub is_value : ℕ → Option ℕ → Bool
is_value n none = false
is_value n (some m) = m == n

-- `matches`.
unfoldable pub matches : PriorCodexReceiptProof → Connection → SourceAgent → Text → Store → Bool
matches proof connection source_agent source_record_id store =
    connection.object_id == proof.connection_id
    && connection.in_transaction
    && is_value proof.transaction_token connection.transaction_token
    && is_value proof.receipt_mutation_count connection.receipt_mutation_count
    && agent_rank source_agent == agent_rank codex
    && text_eq source_record_id proof.source_record_id
    && any
        (λ row.
          is_receipt proof.source_hash proof.source_record_id codex row
          && row.imported_at == proof.imported_at)
        store.import_receipts

-- The rows of the scan: receipts of Codex for one of the identifiers.
unfoldable pub scan_rows : List Text → List ReceiptRow → List ReceiptRow
scan_rows ids rows =
    select
      (λ row.
        agent_rank row.source_agent == agent_rank codex && any (text_eq row.source_record_id) ids)
      rows

-- The validation of every row; its time is an instant, as the column always holds one.
unfoldable pub check_rows : List ReceiptRow → Result (Unit {0})
check_rows [] = ok tt
check_rows (row ∷ rows) =
    then_pure (check_source_record_id row.source_record_id)
      λ _. then_pure (check_source_hash row.source_hash) λ _. check_rows rows

abbrev pub witness_order : StrictOrder (Text × ℕ)
witness_order = pair_order text_order nat_order

-- `min(receipts)` of one identifier.
unfoldable pub witness : Text → List ReceiptRow → Option ReceiptRow
unfolding first
witness id rows =
    first witness_order (λ row. (row.source_hash, row.imported_at))
      (select (λ row. text_eq row.source_record_id id) rows)

abbrev pub to_proof : ℕ → ℕ → ℕ → Text → Option ReceiptRow → Option PriorCodexReceiptProof
to_proof object_id token count id none = none
to_proof object_id token count id (some row) = some (record {
  source_record_id = id;
  source_hash = row.source_hash;
  imported_at = row.imported_at;
  connection_id = object_id;
  transaction_token = token;
  receipt_mutation_count = count;
})

abbrev pub proof_of : ℕ → ℕ → ℕ → List ReceiptRow → Text → Option PriorCodexReceiptProof
proof_of object_id token count rows id = to_proof object_id token count id (witness id rows)

-- With the token and the count of a managed transaction.
unfoldable pub prove_receipts :
    Connection → ℕ → ℕ → List Text → Store → Result (List (Option PriorCodexReceiptProof))
prove_receipts connection token count source_record_ids store =
    then_pure (guard (connection.total_changes == 0) value_error) λ _.
      then_pure (guard (leb (length source_record_ids) max_proofs) value_error) λ _.
        then_pure (prepare_ids source_record_ids) λ prepared_ids.
          let rows = scan_rows prepared_ids store.import_receipts in
          then_pure (guard (leb (length rows) max_rows) value_error) λ _.
            then_pure (check_rows rows)
              λ _. ok (map (proof_of connection.object_id token count rows) prepared_ids)

abbrev pub prove_managed :
    Connection
    → Option ℕ
    → Option ℕ
    → List Text
    → Store
    → Result (List (Option PriorCodexReceiptProof))
prove_managed connection (some token) (some count) ids store =
    prove_receipts connection token count ids store
prove_managed connection token count ids store = err value_error

unfoldable pub prior_codex_receipt_proofs :
    Connection → List Text → Store → Result (List (Option PriorCodexReceiptProof))
prior_codex_receipt_proofs connection source_record_ids store =
    then_pure (guard connection.in_transaction value_error) λ _.
      prove_managed connection connection.transaction_token connection.receipt_mutation_count
        source_record_ids store
