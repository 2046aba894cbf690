-- ===== src/Samples/Checkpoints.antt =====
-- The theorems on checkpoints and receipts, at a small store.
use project_memory_hub.Common.{
  ℕ, ◌≡◌, inl, refl, Option, none, some, true, false, List, [], ◌∷◌, map, In,
}
use project_memory_hub.Common.Exec.{Error, Result, ok, err, transaction}
use project_memory_hub.Common.Order.Sort.{sort, first}
use project_memory_hub.Text.{Text, codes, strip}
use project_memory_hub.Text.Equal.{text_eq}
use project_memory_hub.Text.Uuid.{join}
use project_memory_hub.Text.Decimal.{digits}
use project_memory_hub.Text.Utf8.{strict_utf8_size, utf8_width}
use project_memory_hub.Domain.{codex}
use project_memory_hub.Database.{ReceiptRow}
use project_memory_hub.Memories.Prepare.{is_sha256, hexdigest}
use project_memory_hub.Checkpoints.{text, natural, AdapterCheckpoint, Store}
use project_memory_hub.Checkpoints.Json.{
  canonical_json, checkpoint_source_hash, checkpoints_match, scalar_json, escape,
}
use project_memory_hub.Checkpoints.Receipts.{
  check_scope, check_source_record_id, check_source_hash, is_receipt, has_receipt, receipt_exists,
  insert_receipt, save_confirmation, put_app_state, commit_import_receipt_on_connection,
  commit_import_receipt,
}
use project_memory_hub.Checkpoints.Receipts.Laws.{commit_import_receipt-Once}
use project_memory_hub.Checkpoints.Commit.{
  Document, object, scalar, strict_members, is_checkpoint, validate_checkpoint, put_checkpoint,
  prepare_ids, insert_receipts, get_on_connection, write_checkpoint, commit_on_connection,
}
use project_memory_hub.Checkpoints.Commit.Laws.{Commits, commit_on_connection-Commits}
use project_memory_hub.Checkpoints.Commit.Conflict.{
  ReadsBack, commit_on_connection-Reads, commit_on_connection-Conflicts,
}
use project_memory_hub.Checkpoints.Proofs.{
  Connection, PriorCodexReceiptProof, matches, scan_rows, check_rows, witness, prove_receipts,
  prior_codex_receipt_proofs,
}
use project_memory_hub.Checkpoints.Proofs.Laws.{
  Proves, prior_codex_receipt_proofs-Proves, matches-Expires,
}
use project_memory_hub.Samples.Data.{digest}

abbrev scope : Text
scope = codes "sessions"

abbrev checkpoint : ℕ → AdapterCheckpoint
checkpoint offset = record {
  adapter = codex;
  scope = scope;
  cursor = (codes "offset", natural offset) ∷ (codes "inode", text (codes "9")) ∷ [];
  parser_version = codes "codex-v1";
}

-- A reader that knows the text of one cursor, with the keys in the order of the text.
abbrev loads : Text → Option Document
loads t = some (
    object ((codes "inode", scalar (text (codes "9"))) ∷ (codes "offset", scalar (natural 5)) ∷ []))

abbrev empty_store : Store
empty_store = record { import_receipts = []; checkpoints = []; app_state = [] }

program : Unit {0}
unfolding commit_on_connection check_scope strip text_eq validate_checkpoint prepare_ids
    check_source_record_id check_source_hash strict_utf8_size utf8_width get_on_connection
    is_checkpoint checkpoints_match write_checkpoint checkpoint_source_hash hexdigest canonical_json
    scalar_json escape sort first join digits insert_receipts receipt_exists is_sha256 is_receipt
    insert_receipt put_checkpoint transaction save_confirmation put_app_state
    commit_import_receipt_on_connection commit_import_receipt matches scan_rows check_rows witness
    prove_receipts prior_codex_receipt_proofs strict_members
program = tt

abbrev record_ids : List Text
record_ids = codes "thread-1" ∷ codes "thread-2" ∷ []

abbrev committed_run : Result (Unit {0}) × Store
committed_run =
    commit_on_connection digest loads codex scope none (checkpoint 5) record_ids 1000 empty_store

commit-run : committed_run ≡ (ok tt, committed_run.1)
unfolding program
commit-run = refl

commit_on_connection-Commits_example :
    Commits digest loads codex scope none (checkpoint 5) record_ids empty_store committed_run.1
commit_on_connection-Commits_example =
    commit_on_connection-Commits digest loads codex scope none (checkpoint 5) record_ids 1000
      empty_store committed_run.1 commit-run

reads_back : ReadsBack loads (checkpoint 5).cursor
unfolding program
reads_back = record {
  document =
      object
        ((codes "inode", scalar (text (codes "9"))) ∷ (codes "offset", scalar (natural 5)) ∷ []);
  loaded = refl;
  read = (codes "inode", text (codes "9")) ∷ (codes "offset", natural 5) ∷ [];
  was_strict = refl;
  is_same = refl;
}

commit_on_connection-Reads_example :
    (found : AdapterCheckpoint) × (get_on_connection digest loads codex scope committed_run.1
      ≡ ok (some found))
    × ((other : Option AdapterCheckpoint)
        → checkpoints_match (some found) other ≡ checkpoints_match (some (checkpoint 5)) other)
commit_on_connection-Reads_example =
    commit_on_connection-Reads digest loads codex scope none (checkpoint 5) record_ids 1000
      empty_store committed_run.1 reads_back commit-run

differs : checkpoints_match (some (checkpoint 5)) none ≡ false
unfolding program
differs = refl

commit_on_connection-Conflicts_example :
    (e : Error) × (transaction
        (commit_on_connection digest loads codex scope none (checkpoint 8) [] 2000)
        committed_run.1
      ≡ (err e, committed_run.1))
commit_on_connection-Conflicts_example =
    commit_on_connection-Conflicts digest loads codex scope none (checkpoint 5) (checkpoint 8)
      record_ids [] 1000 2000 empty_store committed_run.1 reads_back differs commit-run

abbrev imported_run : Result (Unit {0}) × Store
imported_run =
    commit_import_receipt digest (digest []) (codes "chat-1") codex (some (codes "{}")) none 1000
      empty_store

import-run : imported_run ≡ (ok tt, imported_run.1)
unfolding program
import-run = refl

commit_import_receipt-Once_example :
    (has_receipt (digest []) (codes "chat-1") codex imported_run.1 ≡ true)
    × (commit_import_receipt digest (digest []) (codes "chat-1") codex none none 2000 imported_run.1
        ≡ (ok tt, imported_run.1))
commit_import_receipt-Once_example =
    commit_import_receipt-Once digest (digest []) (codes "chat-1") codex (some (codes "{}")) none
      1000 2000 empty_store imported_run.1 import-run

abbrev connection : Connection
connection = record {
  object_id = 3;
  in_transaction = true;
  transaction_token = some 4;
  receipt_mutation_count = some 0;
  total_changes = 0;
}

abbrev proof : PriorCodexReceiptProof
proof = record {
  source_record_id = codes "chat-1";
  source_hash = digest [];
  imported_at = 1000;
  connection_id = 3;
  transaction_token = 4;
  receipt_mutation_count = 0;
}

prove-run :
    prior_codex_receipt_proofs connection (codes "chat-1" ∷ codes "chat-2" ∷ []) imported_run.1
    ≡ ok (some proof ∷ none ∷ [])
unfolding program
prove-run = refl

prior_codex_receipt_proofs-Proves_example :
    (prove : Text → Option PriorCodexReceiptProof) × (some proof ∷ none ∷ []
      ≡ map prove (codes "chat-1" ∷ codes "chat-2" ∷ []))
    × ((id : Text)
        → In id (codes "chat-1" ∷ codes "chat-2" ∷ [])
        → Proves connection imported_run.1 id (prove id))
prior_codex_receipt_proofs-Proves_example =
    prior_codex_receipt_proofs-Proves connection imported_run.1
      (codes "chat-1" ∷ codes "chat-2" ∷ []) (some proof ∷ none ∷ []) prove-run

match-run : matches proof connection codex (codes "chat-1") imported_run.1 ≡ true
unfolding program
match-run = refl

-- A receipt that was written in the transaction ends the proof.
match_late :
    matches proof
      (record connection { receipt_mutation_count = some 1 })
      codex
      (codes "chat-1")
      imported_run.1
    ≡ false
unfolding program
match_late = refl

matches-Expires_example :
    (connection.object_id ≡ connection.object_id)
    × (connection.in_transaction ≡ true)
    × (connection.transaction_token ≡ connection.transaction_token)
    × (connection.receipt_mutation_count ≡ connection.receipt_mutation_count)
    × (codex ≡ codex)
    × In (codes "chat-1") (codes "chat-1" ∷ codes "chat-2" ∷ [])
    × (matches proof connection codex (codes "chat-1") imported_run.1 ≡ true)
    × ((row : ReceiptRow) × In row imported_run.1.import_receipts
        × (is_receipt (digest []) (codes "chat-1") codex row ≡ true)
        × (row.imported_at ≡ 1000))
matches-Expires_example =
    matches-Expires connection connection imported_run.1 imported_run.1
      (codes "chat-1" ∷ codes "chat-2" ∷ []) (some proof ∷ none ∷ []) proof codex (codes "chat-1")
      prove-run (inl refl) match-run
