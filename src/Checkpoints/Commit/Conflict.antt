-- ===== src/Checkpoints/Commit/Conflict.antt =====
-- A checkpoint is read back, and a commit against an old one conflicts: `get` and
-- `commit_on_connection` of storage/checkpoints.py.
use project_memory_hub.Common.{
  ◌≡◌, refl, sym, ap, ◌∙◌, inl, inr, true, false, ◌&&◌, Option, none, some, List, ◌==◌, arith,
}
use project_memory_hub.Common.Exec.{Error, ok, err, Result-cases, transaction}
use project_memory_hub.Text.{Text}
use project_memory_hub.Text.Equal.{text_eq, text_eq→eq, text_eq_refl}
use project_memory_hub.Domain.{Instant, SourceAgent, agent_rank}
use project_memory_hub.Checkpoints.{Cursor, AdapterCheckpoint, CheckpointRow, Store}
use project_memory_hub.Checkpoints.Json.{canonical_json, checkpoints_match}
use project_memory_hub.Checkpoints.Commit.{
  Document, strict_checkpoint_cursor, read_row, get_on_connection, commit_on_connection,
}
use project_memory_hub.Checkpoints.Commit.Laws.{commit_on_connection-Commits}

-- `json.loads` reads from the text of a cursor a document with the same canonical text.
pub record ReadsBack (loads : Text → Option Document) (cursor : Cursor) : Type 0 where
  pub document : Document
  pub loaded : loads (canonical_json cursor) ≡ some document
  pub read : Cursor
  pub was_strict : strict_checkpoint_cursor document ≡ ok read
  pub is_same : canonical_json read ≡ canonical_json cursor

module _ (sha256 : Text → Text) (loads : Text → Option Document) where
  -- The checkpoint that is read from a row.
  abbrev read_checkpoint : SourceAgent → Text → Cursor → Text → AdapterCheckpoint
  read_checkpoint adapter scope cursor parser_version = record {
    adapter = adapter;
    scope = scope;
    cursor = cursor;
    parser_version = parser_version;
  }

  read_row-some :
      (adapter : SourceAgent) (scope : Text) (cursor : Cursor) (row : CheckpointRow)
      (back : ReadsBack loads cursor)
      → row.cursor_json ≡ canonical_json cursor
      → read_row sha256 loads adapter scope (some row)
        ≡ ok (some (read_checkpoint adapter scope back.read row.parser_version))
  read_row-some adapter scope cursor row back e =
      let loaded : loads row.cursor_json ≡ some back.document = ap loads e ∙ back.loaded in
      rw (loaded, read_row) (rw (back.was_strict, read_row) refl)

  -- A checkpoint that was read matches what the next one matched.
  match-read :
      (adapter : SourceAgent) (scope : Text) (next : AdapterCheckpoint) (read : Cursor)
      (expected : Option AdapterCheckpoint)
      → (agent_rank next.adapter == agent_rank adapter && text_eq next.scope scope) ≡ true
      → canonical_json read ≡ canonical_json next.cursor
      → checkpoints_match (some (read_checkpoint adapter scope read next.parser_version)) expected
        ≡ checkpoints_match (some next) expected
  unfolding checkpoints_match
  match-read adapter scope next read none named same = refl
  match-read adapter scope next read (some expected) named same =
      let e : next.scope ≡ scope = text_eq→eq next.scope scope (ground arith) in
      rw (same, e) (ground arith)

  match_self : (next : AdapterCheckpoint) → checkpoints_match (some next) (some next) ≡ true
  unfolding checkpoints_match
  match_self next = ground (
    arith,
    text_eq_refl next.scope,
    text_eq_refl next.parser_version,
    text_eq_refl (canonical_json next.cursor),
  )

  -- After a commit that returns, the checkpoint of the adapter and scope can be read, and it matches
  -- the committed one, if the JSON reader reads back the cursor's text.
  pub commit_on_connection-Reads :
      (adapter : SourceAgent) (scope : Text) (expected : Option AdapterCheckpoint)
      (next : AdapterCheckpoint) (ids : List Text) (now : Instant) (before after : Store)
      → ReadsBack loads next.cursor
      → commit_on_connection sha256 loads adapter scope expected next ids now before
        ≡ (ok tt, after)
      → (found : AdapterCheckpoint) × (get_on_connection sha256 loads adapter scope after
          ≡ ok (some found))
        × ((other : Option AdapterCheckpoint)
            → checkpoints_match (some found) other ≡ checkpoints_match (some next) other)
  unfolding get_on_connection
  commit_on_connection-Reads adapter scope expected next ids now before after back h =
      let done =
        commit_on_connection-Commits sha256 loads adapter scope expected next ids now before after
          h in
      let there = done.committed in
      let version : there.row.parser_version ≡ next.parser_version = there.holds_version in
      (
        read_checkpoint adapter scope back.read next.parser_version,
        rw there.stored (
            read_row-some adapter scope next.cursor there.row back there.holds_cursor
            ∙ ap (λ v. ok (some (read_checkpoint adapter scope back.read v))) version),
        λ other. match-read adapter scope next back.read other done.was_named back.is_same,
      )

  -- No update is lost: once a commit has replaced the expected checkpoint by one that does not
  -- match it, a second commit that expects the old one raises, whatever it wants to write, and its
  -- transaction leaves the store as the first commit left it.
  pub commit_on_connection-Conflicts :
      (adapter : SourceAgent) (scope : Text) (expected : Option AdapterCheckpoint)
      (next later : AdapterCheckpoint) (ids later_ids : List Text) (now then : Instant)
      (before after : Store)
      → ReadsBack loads next.cursor
      → checkpoints_match (some next) expected ≡ false
      → commit_on_connection sha256 loads adapter scope expected next ids now before
        ≡ (ok tt, after)
      → (e : Error) × (transaction
            (commit_on_connection sha256 loads adapter scope expected later later_ids then)
            after
          ≡ (err e, after))
  unfolding transaction
  commit_on_connection-Conflicts adapter scope expected next later ids later_ids now then before
        after back differs h =
      let (found, reading, same) =
        commit_on_connection-Reads adapter scope expected next ids now before after back h in
      elim (Result-cases
        (commit_on_connection sha256 loads adapter scope expected later later_ids then after).0) [
          | inl (_, succeeds) ↦
              let final : Store =
                (commit_on_connection sha256 loads adapter scope expected later later_ids then
                  after).1 in
              let ran : commit_on_connection sha256 loads adapter scope expected later later_ids
                    then after
                  ≡ (ok tt, final) =
                ground arith in
              let again =
                commit_on_connection-Commits sha256 loads adapter scope expected later later_ids
                  then after final ran in
              let e : again.current ≡ some found = ok_injective (sym again.was_current ∙ reading) in
              absurd (
                cc (
                  again.was_expected,
                  ap (λ c. checkpoints_match c expected) e,
                  same expected,
                  differs,
                ))
          | inr (e, fails) ↦ (e, ground arith)
        ]
    where
      ok_injective : {A : Type 0} {a b : A} → ok a ≡ ok b → a ≡ b
      ok_injective h = ground arith
