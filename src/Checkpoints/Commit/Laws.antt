-- ===== src/Checkpoints/Commit/Laws.antt =====
-- What a committed checkpoint leaves: `commit_on_connection` of storage/checkpoints.py.
use project_memory_hub.Common.{
  ◌≡◌, refl, sym, ap, subst, ◌∙◌, ◌⊎◌, inl, inr, true, false, ◌&&◌, Option, some, List, [], ◌∷◌,
  ◌==◌, find_first, In, arith, Bool-cases,
}
use project_memory_hub.Common.Exec.{
  Result, ok, err, lift, guard, bind-ok, key_error, value_error, type_error, runtime_error,
  assertion_error, integrity_error, bounds_error, eligibility_changed, checkpoint_conflict,
  json_nesting,
}
use project_memory_hub.Text.{Text}
use project_memory_hub.Text.Equal.{text_eq, text_eq→eq, text_eq_refl, eq→text_eq}
use project_memory_hub.Domain.{Instant, SourceAgent, agent_rank}
use project_memory_hub.Database.{ReceiptRow}
use project_memory_hub.Checkpoints.{AdapterCheckpoint, CheckpointRow, Store}
use project_memory_hub.Checkpoints.Json.{canonical_json, checkpoint_source_hash, checkpoints_match}
use project_memory_hub.Checkpoints.Receipts.{check_scope, has_receipt}
use project_memory_hub.Checkpoints.Commit.{
  Document, is_checkpoint, validate_checkpoint, put_checkpoint, prepare_ids, insert_receipts,
  or_conflict, get_on_connection, validate_expected, write_checkpoint, commit_on_connection,
}
use project_memory_hub.Checkpoints.Receipts.Laws.{check_scope-same}
use project_memory_hub.Checkpoints.Commit.Received.{
  IsOf, insert_receipts-Received, prepare_ids-same,
}

-- The row of a key after an upsert, and the rows of the other keys.
find_first-put :
    (row : CheckpointRow) (rows : List CheckpointRow)
    → is_checkpoint row.adapter row.scope row ≡ true
    → find_first (is_checkpoint row.adapter row.scope) (put_checkpoint row rows) ≡ some row
unfolding put_checkpoint
find_first-put row [] self = ground arith
find_first-put row (other ∷ rows) self = ground (arith, find_first-put row rows)

find_first-other :
    (row : CheckpointRow) (adapter : SourceAgent) (scope : Text) (rows : List CheckpointRow)
    → is_checkpoint adapter scope row ≡ false
    → ((other : CheckpointRow)
        → is_checkpoint row.adapter row.scope other ≡ true
        → is_checkpoint adapter scope other ≡ false)
    → find_first (is_checkpoint adapter scope) (put_checkpoint row rows)
      ≡ find_first (is_checkpoint adapter scope) rows
unfolding put_checkpoint
find_first-other row adapter scope [] apart others = ground arith
find_first-other row adapter scope (other ∷ rows) apart others =
    ground (arith, others other, find_first-other row adapter scope rows apart others)

self-checkpoint : (row : CheckpointRow) → is_checkpoint row.adapter row.scope row ≡ true
unfolding is_checkpoint
self-checkpoint row = ground (arith, text_eq_refl row.scope)

apart-checkpoint :
    (adapter other : SourceAgent) (scope other_scope : Text) (row : CheckpointRow)
    → ((agent_rank other == agent_rank adapter) && text_eq other_scope scope) ≡ false
    → is_checkpoint adapter scope row ≡ true
    → is_checkpoint other other_scope row ≡ false
unfolding is_checkpoint
apart-checkpoint adapter other scope other_scope row apart h =
    elim (Bool-cases (text_eq row.scope other_scope)) [
      | inl same ↦
          let e : other_scope ≡ scope =
            sym (text_eq→eq row.scope other_scope same)
            ∙ text_eq→eq row.scope scope (ground arith) in
          ground (arith, eq→text_eq other_scope scope e)
      | inr differs ↦ ground arith
    ]

-- The step of a checkpoint's write that does not depend on the receipts.
pub record Committed (adapter : SourceAgent) (scope source_hash : Text) (next : AdapterCheckpoint)
    (ids : List Text) (before after : Store) : Type 0 where
  -- The key's row holds the new checkpoint, and no other key's row changed.
  pub row : CheckpointRow
  pub stored : find_first (is_checkpoint adapter scope) after.checkpoints ≡ some row
  pub holds_cursor : row.cursor_json ≡ canonical_json next.cursor
  pub holds_version : row.parser_version ≡ next.parser_version
  pub others :
      (other : SourceAgent) (other_scope : Text)
      → ((agent_rank other == agent_rank adapter) && text_eq other_scope scope) ≡ false
      → find_first (is_checkpoint other other_scope) after.checkpoints
        ≡ find_first (is_checkpoint other other_scope) before.checkpoints
  -- Every record has its receipt, and no receipt is lost.
  pub received : (id : Text) → In id ids → has_receipt source_hash id adapter after ≡ true
  pub kept : (old : ReceiptRow) → In old before.import_receipts → In old after.import_receipts
  -- No other receipt is added, and the state of the application is not touched.
  pub only :
      (new : ReceiptRow)
      → In new after.import_receipts
      → In new before.import_receipts ⊎ IsOf source_hash adapter ids new
  pub same_app_state : after.app_state ≡ before.app_state

module _ (sha256 : Text → Text) (loads : Text → Option Document) where
  write_checkpoint-Committed :
      (adapter : SourceAgent) (scope : Text) (next : AdapterCheckpoint) (ids : List Text)
      (now : Instant) (before after : Store)
      → write_checkpoint sha256 loads adapter scope next ids now before ≡ (ok tt, after)
      → (source_hash : Text) × (checkpoint_source_hash sha256 adapter scope next ≡ ok source_hash)
        × Committed adapter scope source_hash next ids before after
  unfolding write_checkpoint
  write_checkpoint-Committed adapter scope next ids now before after h =
      let (source_hash, mid1, hashing, h1) =
        bind-ok (lift (checkpoint_source_hash sha256 adapter scope next)) _ before after tt h in
      let (_, mid2, receiving, h2) =
        bind-ok (insert_receipts source_hash adapter now ids) _ mid1 after tt h1 in
      let given = insert_receipts-Received source_hash adapter now ids mid1 mid2 receiving in
      let row : CheckpointRow = record {
        adapter = adapter;
        scope = scope;
        cursor_json = canonical_json next.cursor;
        parser_version = next.parser_version;
        updated_at = now;
      } in
      let e1 : before ≡ mid1 = ap (λ p. p.1) hashing in
      let e2 : after.checkpoints ≡ put_checkpoint row mid2.checkpoints =
        ap (λ p. p.1.checkpoints) (sym h2) in
      let e3 : after.import_receipts ≡ mid2.import_receipts =
        ap (λ p. p.1.import_receipts) (sym h2) in
      (
        source_hash,
        ap (λ p. p.0) hashing,
        record {
          row = row;
          stored = rw e2 (find_first-put row mid2.checkpoints (self-checkpoint row));
          holds_cursor = refl;
          holds_version = refl;
          others = λ other other_scope apart. rw e2 (
              find_first-other row other other_scope mid2.checkpoints
                (apart-checkpoint adapter other scope other_scope row apart (self-checkpoint row))
                (λ r. apart-checkpoint adapter other scope other_scope r apart)
              ∙ ap (λ rows. find_first (is_checkpoint other other_scope) rows)
                  (given.same_checkpoints ∙ ap (λ s. s.checkpoints) (sym e1)));
          received = λ id m. rw e3 (given.received id m);
          kept = λ old m. rw e3 (given.kept old (subst (λ s. In old s.import_receipts) e1 m));
          only = λ new m.
              subst (λ s. In new s.import_receipts ⊎ IsOf source_hash adapter ids new) (sym e1)
                (given.only new (subst (In new) e3 m));
          same_app_state =
              ap (λ p. p.1.app_state) (sym h2)
              ∙ given.same_app_state
              ∙ ap (λ s. s.app_state) (sym e1);
        },
      )

  -- A commit that returns found the checkpoint that it expected, and left the new one.
  pub record Commits (adapter : SourceAgent) (scope : Text) (expected : Option AdapterCheckpoint)
      (next : AdapterCheckpoint) (ids : List Text) (before after : Store) : Type 0 where
    pub current : Option AdapterCheckpoint
    pub was_current : get_on_connection sha256 loads adapter scope before ≡ ok current
    pub was_expected : checkpoints_match current expected ≡ true
    pub was_named :
        (agent_rank next.adapter == agent_rank adapter && text_eq next.scope scope) ≡ true
    pub source_hash : Text
    pub was_hashed : checkpoint_source_hash sha256 adapter scope next ≡ ok source_hash
    pub committed : Committed adapter scope source_hash next ids before after

  or_conflict-ok : {A : Type 0} (r : Result A) (a : A) → or_conflict r ≡ ok a → r ≡ ok a
  or_conflict-ok (ok b) a h = h
  or_conflict-ok (err value_error) a h = cc
  or_conflict-ok (err key_error) a h = cc
  or_conflict-ok (err type_error) a h = cc
  or_conflict-ok (err runtime_error) a h = cc
  or_conflict-ok (err assertion_error) a h = cc
  or_conflict-ok (err integrity_error) a h = cc
  or_conflict-ok (err bounds_error) a h = cc
  or_conflict-ok (err eligibility_changed) a h = cc
  or_conflict-ok (err checkpoint_conflict) a h = cc
  or_conflict-ok (err json_nesting) a h = cc

  -- A commit on a connection that returns has compared the stored checkpoint with the expected one
  -- and they matched; the stored one is the next now, every record has a receipt under the source's
  -- hash, no receipt was lost, every new receipt is one of those records' under that hash, and the
  -- checkpoints of other adapters and scopes and the state of the application are as they were.
  pub commit_on_connection-Commits :
      (adapter : SourceAgent) (scope : Text) (expected : Option AdapterCheckpoint)
      (next : AdapterCheckpoint) (ids : List Text) (now : Instant) (before after : Store)
      → commit_on_connection sha256 loads adapter scope expected next ids now before
        ≡ (ok tt, after)
      → Commits adapter scope expected next ids before after
  unfolding commit_on_connection validate_checkpoint
  commit_on_connection-Commits adapter scope expected next ids now before after h =
      let (normalized, mid1, scoping, h1) =
        bind-ok (lift (check_scope scope)) _ before after tt h in
      let (_, mid2, naming, h2) =
        bind-ok (lift (validate_checkpoint next adapter normalized)) _ mid1 after tt h1 in
      let (_, mid3, expecting, h3) =
        bind-ok (lift (validate_expected sha256 loads expected adapter normalized)) _ mid2 after tt
          h2 in
      let (prepared, mid4, preparing, h4) = bind-ok (lift (prepare_ids ids)) _ mid3 after tt h3 in
      let (current, mid5, reading, h5) =
        bind-ok
          (λ store. (or_conflict (get_on_connection sha256 loads adapter normalized store), store))
          _ mid4 after tt h4 in
      let (_, mid6, matching, h6) =
        bind-ok (lift (guard (checkpoints_match current expected) checkpoint_conflict)) _ mid5 after
          tt h5 in
      let (source_hash, hashing, done) =
        write_checkpoint-Committed adapter normalized next prepared now mid6 after h6 in
      let e4 : mid4 ≡ before =
        ap (λ p. p.1) (sym preparing)
        ∙ ap (λ p. p.1) (sym expecting)
        ∙ ap (λ p. p.1) (sym naming)
        ∙ ap (λ p. p.1) (sym scoping) in
      let e6 : mid6 ≡ before = ap (λ p. p.1) (sym matching) ∙ ap (λ p. p.1) (sym reading) ∙ e4 in
      let es : normalized ≡ scope =
        sym (check_scope-same scope normalized (ap (λ p. p.0) scoping)) in
      let ei : prepared ≡ ids = sym (prepare_ids-same ids prepared (ap (λ p. p.0) preparing)) in
      let read : get_on_connection sha256 loads adapter normalized mid4 ≡ ok current =
        or_conflict-ok (get_on_connection sha256 loads adapter normalized mid4) current
          (ap (λ p. p.0) reading) in
      record {
        current = current;
        was_current =
            subst (λ s. get_on_connection sha256 loads adapter s before ≡ ok current) es
              (subst (λ st. get_on_connection sha256 loads adapter normalized st ≡ ok current) e4
                read);
        was_expected = ground arith;
        was_named =
            subst
              (λ s. (agent_rank next.adapter == agent_rank adapter && text_eq next.scope s) ≡ true)
              es (ground arith);
        source_hash = source_hash;
        was_hashed =
            subst (λ s. checkpoint_source_hash sha256 adapter s next ≡ ok source_hash) es hashing;
        committed =
            subst (λ s. Committed adapter s source_hash next ids before after) es
              (subst (λ i. Committed adapter normalized source_hash next i before after) ei
                (subst (λ st. Committed adapter normalized source_hash next prepared st after) e6
                  done));
      }
