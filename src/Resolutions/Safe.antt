-- ===== src/Resolutions/Safe.antt =====
-- Whose memories an application of declarations may change.
use project_memory_hub.Common.{
  ◌≡◌, ◌≢◌, ◌⊎◌, inl, inr, Bool, true, Option, List, [], ◌∷◌, ◌≤◌, ◌==◌, ◌&&◌, leb, sym, subst,
  arith, In, any-In, Bool-cases, leb→le,
}
use project_memory_hub.Common.Exec.{ok}
use project_memory_hub.Text.{Text}
use project_memory_hub.Text.Equal.{text_eq→eq}
use project_memory_hub.Domain.{Uuid, open_issue, archived, BehaviorMemoryRecord}
use project_memory_hub.Domain.Equal.{kind_rank-injective}
use project_memory_hub.Database.{Db, SourceRef}
use project_memory_hub.Memories.Insert.Invariant.{Distinct}
use project_memory_hub.Memories.Rows.{set_state-keeps, set_state-In}
use project_memory_hub.Memories.Search.Laws.{IsVisible, visible→IsVisible}
use project_memory_hub.Resolutions.{Capture, ResolutionApplyResult, is_target}
use project_memory_hub.Resolutions.Apply.{apply_on_connection}
use project_memory_hub.Resolutions.Applied.{is_declared, apply_on_connection-Applied}

-- The memory's text is that of a declaration, and its hash the declaration's digest.
abbrev pub IsDeclared :
    (Text → Text) → List (Text × (Option Uuid → Uuid)) → BehaviorMemoryRecord → Type 0
IsDeclared sha256 [] row = ⊥
IsDeclared sha256 ((declaration, drawn) ∷ rest) row =
    ((row.normalized_content ≡ declaration) × (row.content_hash ≡ sha256 declaration))
    ⊎ IsDeclared sha256 rest row

-- An open issue that the capture may resolve.
pub record IsResolvable (sha256 : Text → Text) (capture : Capture)
    (ds : List (Text × (Option Uuid → Uuid))) (s : Db) (row : BehaviorMemoryRecord) : Type 0 where
  pub visible : IsVisible capture.project_id capture.namespace s row
  pub kind : row.memory_kind ≡ open_issue
  pub declared : IsDeclared sha256 ds row
  pub elsewhere : row.source_reference_id ≢ capture.source_reference_id
  pub source : SourceRef
  pub stored : In source s.source_refs
  pub named : source.source_reference_id ≡ row.source_reference_id
  pub earlier : source.source_timestamp ≤ capture.verified_at

module _ (sha256 : Text → Text) (capture : Capture) (s : Db) where
  is_target→IsResolvable :
      (declaration : Text) (drawn : Option Uuid → Uuid) (row : BehaviorMemoryRecord)
      → In row s.memories
      → is_target capture s.source_refs (sha256 declaration) declaration row ≡ true
      → IsResolvable sha256 capture ((declaration, drawn) ∷ []) s row
  is_target→IsResolvable declaration drawn row place h =
      let joined = λ (source : SourceRef).
        source.source_reference_id == row.source_reference_id
        && leb source.source_timestamp capture.verified_at in
      let (source, stored, found) = any-In joined s.source_refs (ground arith) in
      record {
        visible = visible→IsVisible capture.project_id capture.namespace s row place (ground arith);
        kind = kind_rank-injective row.memory_kind open_issue (ground arith);
        declared = inl (
          text_eq→eq row.normalized_content declaration (ground arith),
          text_eq→eq row.content_hash (sha256 declaration) (ground arith),
        );
        elsewhere = λ e. ground arith;
        source = source;
        stored = stored;
        named = ground arith;
        earlier = leb→le source.source_timestamp capture.verified_at (ground arith);
      }

  wider :
      (ds es : List (Text × (Option Uuid → Uuid))) (row : BehaviorMemoryRecord)
      → (IsDeclared sha256 ds row → IsDeclared sha256 es row)
      → IsResolvable sha256 capture ds s row
      → IsResolvable sha256 capture es s row
  wider ds es row f h = record {
    visible = h.visible;
    kind = h.kind;
    declared = f h.declared;
    elsewhere = h.elsewhere;
    source = h.source;
    stored = h.stored;
    named = h.named;
    earlier = h.earlier;
  }

  is_declared→IsResolvable :
      (ds : List (Text × (Option Uuid → Uuid))) (row : BehaviorMemoryRecord)
      → In row s.memories
      → is_declared sha256 capture s.source_refs ds row ≡ true
      → IsResolvable sha256 capture ds s row
  is_declared→IsResolvable [] row place h = absurd (cc h)
  is_declared→IsResolvable ((declaration, drawn) ∷ rest) row place h =
      elim (Bool-cases (is_target capture s.source_refs (sha256 declaration) declaration row)) [
        | inl t ↦
            wider ((declaration, drawn) ∷ []) ((declaration, drawn) ∷ rest) row
              (λ known. elim known [ inl e ↦ inl e | inr gone ↦ absurd gone ])
              (is_target→IsResolvable declaration drawn row place t)
        | inr f ↦
            wider rest ((declaration, drawn) ∷ rest) row (λ known. inr known)
              (is_declared→IsResolvable rest row place (rw f at h))
      ]

-- After an application that returns, on a table whose ids and unique keys are distinct, each memory
-- stands there as before, or it was an open issue that the capture may resolve, and stands there
-- archived: it was active, of the capture's project and exactly its namespace, had the text of a
-- declaration and its digest, and came from another source that is not later than the capture.
pub apply_on_connection-Safe :
    (sha256 : Text → Text) (capture : Capture) (in_transaction : Bool)
    (ds : List (Text × (Option Uuid → Uuid))) (s t : Db) (r : ResolutionApplyResult)
    → Distinct s.memories
    → apply_on_connection sha256 capture in_transaction ds s ≡ (ok r, t)
    → (row : BehaviorMemoryRecord) → In row s.memories
    → In row t.memories
      ⊎ (IsResolvable sha256 capture ds s row
          × In (record row { lifecycle_state = archived }) t.memories)
apply_on_connection-Safe sha256 capture in_transaction ds s t r distinct h row place =
    let done = apply_on_connection-Applied sha256 capture in_transaction ds s t r distinct h in
    let test = is_declared sha256 capture s.source_refs ds in
    elim (Bool-cases (test row)) [
      | inr f ↦ inl (
          subst (In row) (sym done.memories) (set_state-keeps test archived s.memories row place f))
      | inl e ↦ inr (
        is_declared→IsResolvable sha256 capture s ds row place e,
        subst (In _) (sym done.memories)
            (rw e at (set_state-In test archived s.memories row place)),
      )
    ]
