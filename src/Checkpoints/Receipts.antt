-- ===== src/Checkpoints/Receipts.antt =====
-- The receipts of storage/checkpoints.py: `_scope`, `_source_record_id`, `_source_hash`,
-- `receipt_exists_on_connection`, the insert of a receipt, and `commit_import_receipt`. The time of
-- a write is an argument.
pub mod Laws
use project_memory_hub.Common.{
  ℕ, ◌≡◌, refl, Bool, true, false, not, ◌&&◌, ◌||◌, Option, none, some, List, [], ◌∷◌, ◌++◌, ◌==◌,
  ltb, leb, if◌then◌else◌, any, map, length,
}
use project_memory_hub.Common.Exec.{
  Exec, Result, ok, err, pure, raise, lift, gets, modify, guard, then_pure, transaction, ◌>>=◌,
  ◌>>◌, value_error, checkpoint_conflict,
}
use project_memory_hub.Text.{Text, codes, is_empty, strip}
use project_memory_hub.Text.Equal.{text_eq}
use project_memory_hub.Text.Utf8.{strict_utf8_size}
use project_memory_hub.Domain.{Instant, SourceAgent, agent_rank}
use project_memory_hub.Database.{ReceiptRow}
use project_memory_hub.Memories.Prepare.{is_sha256, hexdigest}
use project_memory_hub.Checkpoints.{Store, AppStateRow}

-- `_scope`.
unfoldable pub check_scope : Text → Result Text
check_scope value =
    then_pure (guard (not (is_empty value) && text_eq value (strip value)) value_error)
      (λ _. ok value)

unfoldable pub check_source_record_id : Text → Result Text
check_source_record_id value =
    then_pure
      (guard (not (is_empty value) && text_eq value (strip value) && leb (length value) 513)
        value_error)
      λ _.
        then_pure (strict_utf8_size value)
          λ size. then_pure (guard (leb size 2049) value_error) (λ _. ok value)

unfoldable pub check_source_hash : Text → Result Text
check_source_hash value = then_pure (guard (is_sha256 value) value_error) (λ _. ok value)

-- The primary key of `import_receipts`.
unfoldable pub is_receipt : Text → Text → SourceAgent → ReceiptRow → Bool
is_receipt source_hash source_record_id source_agent row =
    text_eq row.source_hash source_hash
    && text_eq row.source_record_id source_record_id
    && agent_rank row.source_agent == agent_rank source_agent

abbrev pub has_receipt : Text → Text → SourceAgent → Store → Bool
has_receipt source_hash source_record_id source_agent store =
    any (is_receipt source_hash source_record_id source_agent) store.import_receipts

-- `receipt_exists_on_connection`.
unfoldable pub receipt_exists : Text → Text → SourceAgent → Exec Store Bool
receipt_exists source_hash source_record_id source_agent = do
  prepared_hash ← lift (check_source_hash source_hash)
  prepared_id ← lift (check_source_record_id source_record_id)
  gets (has_receipt prepared_hash prepared_id source_agent)

-- `insert into import_receipts`. Its only constraint is the primary key, so that where it fails the
-- receipt exists, and the handler of `IntegrityError` raises a conflict.
unfoldable pub insert_receipt : Text → Text → SourceAgent → Instant → Exec Store (Unit {0})
insert_receipt source_hash source_record_id source_agent imported_at store =
    if has_receipt source_hash source_record_id source_agent store
    then (err checkpoint_conflict, store)
    else (
      ok tt,
      record store {
        import_receipts =
            store.import_receipts
            ++ record {
              source_hash = source_hash;
              source_record_id = source_record_id;
              source_agent = source_agent;
              imported_at = imported_at;
            }
              ∷ [];
      },
    )

-- `insert into app_state … on conflict(name) do update`.
unfoldable pub put_app_state : AppStateRow → List AppStateRow → List AppStateRow
put_app_state row [] = row ∷ []
put_app_state row (other ∷ rows) =
    if text_eq other.name row.name then row ∷ rows else other ∷ put_app_state row rows

module _ (sha256 : Text → Text) where
  -- The row of a confirmation, `confirmation` being its canonical JSON.
  unfoldable pub save_confirmation : Text → Text → Option Text → Instant → Exec Store (Unit {0})
  save_confirmation prepared_hash prepared_id none imported_at = pure tt
  save_confirmation prepared_hash prepared_id (some confirmation) imported_at = do
    digest ← lift (hexdigest sha256 (prepared_hash ++ codes ":" ++ prepared_id))
    modify (λ store. record store {
      app_state =
          put_app_state
            (record {
              name = codes "chatgpt_confirmation:" ++ digest;
              value_json = confirmation;
              updated_at = imported_at;
            })
            store.app_state;
    })

  unfoldable pub commit_import_receipt_on_connection :
      Text → Text → SourceAgent → Option Text → Instant → Exec Store (Unit {0})
  commit_import_receipt_on_connection source_hash source_record_id source_agent confirmation
        imported_at =
      do
        prepared_hash ← lift (check_source_hash source_hash)
        prepared_id ← lift (check_source_record_id source_record_id)
        insert_receipt prepared_hash prepared_id source_agent imported_at
        save_confirmation prepared_hash prepared_id confirmation imported_at

  -- `transaction_guard(connection)`, where there is one.
  abbrev pub run_guard : Option (Exec Store (Unit {0})) → Exec Store (Unit {0})
  run_guard none = pure tt
  run_guard (some transaction_guard) = transaction_guard

  abbrev pub unless_exists :
      Bool → Text → Text → SourceAgent → Option Text → Instant → Exec Store (Unit {0})
  unless_exists true source_hash source_record_id source_agent confirmation imported_at = pure tt
  unless_exists false source_hash source_record_id source_agent confirmation imported_at =
      commit_import_receipt_on_connection source_hash source_record_id source_agent confirmation
        imported_at

  unfoldable pub commit_import_receipt :
      Text
      → Text
      → SourceAgent
      → Option Text
      → Option (Exec Store (Unit {0}))
      → Instant
      → Exec Store (Unit {0})
  commit_import_receipt source_hash source_record_id source_agent confirmation transaction_guard
        imported_at =
      transaction (do
        run_guard transaction_guard
        exists ← receipt_exists source_hash source_record_id source_agent
        unless_exists exists source_hash source_record_id source_agent confirmation imported_at
        run_guard transaction_guard)
