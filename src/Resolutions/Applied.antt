-- ===== src/Resolutions/Applied.antt =====
-- What the declarations of a capture do to the issues of its namespace, all together.
use project_memory_hub.Common.{
  ℕ, suc, ◌≡◌, refl, inl, inr, Bool, true, false, ◌||◌, Option, List, [], ◌∷◌, ◌==◌, ◌∙◌, sym,
  subst, arith, length, select, In, All-In, any-In, Bool-cases, Bool-ext, select-nil,
}
use project_memory_hub.Common.Exec.{
  ok, bind-ok, bind_lift-ok, same_ok, guard, value_error, then_pure-eq-ok,
}
use project_memory_hub.Text.{Text}
use project_memory_hub.Text.Utf8.{strict_utf8_size}
use project_memory_hub.Domain.{Uuid, archived, BehaviorMemoryRecord}
use project_memory_hub.Database.{Db, SourceRef}
use project_memory_hub.Memories.Prepare.{hexdigest}
use project_memory_hub.Memories.Insert.Invariant.{Distinct}
use project_memory_hub.Memories.Rows.{
  Distinct-unique, Distinct-set_state, set_state-keeps, set_state-same,
}
use project_memory_hub.Resolutions.{
  Capture, ResolutionApplyResult, is_target, resolve_all, validate_source_provenance,
}
use project_memory_hub.Resolutions.Apply.{
  is_already_resolved, apply_declaration, apply_each, apply_on_connection, counts,
}
use project_memory_hub.Resolutions.Updates.{is_named, reports, IsReported, is_open-archived}
use project_memory_hub.Resolutions.Rounds.{Resolved, IsTargetId, resolve_rounds-Resolved}
use project_memory_hub.Resolutions.Settled.{
  Applied, Applied-nil, sum, Applied-append, Applied-run, enough_rounds, Settled,
  settle_declaration-Settled,
}

module _ (capture : Capture) (hash declaration : Text) where
  -- Where ids are distinct, the rows that the loop archives are the targets.
  is_named-target :
      (ms : List Uuid) (rounds count : ℕ) (s t : Db)
      → Distinct s.memories
      → Resolved capture hash declaration rounds count ms s t
      → select (is_target capture s.source_refs hash declaration) t.memories ≡ []
      → (r : BehaviorMemoryRecord) → In r s.memories
      → is_named capture ms r ≡ is_target capture s.source_refs hash declaration r
  is_named-target ms rounds count s t distinct run none_left r place =
      Bool-ext _ _
        (λ named.
          let (m, i, same_id) = any-In (λ x. r.memory_id == x) ms (ground arith) in
          let (row, stored, hit, same) =
            All-In (IsTargetId capture hash declaration s.source_refs s.memories) ms m run.aimed
              i in
          subst (λ x. is_target capture s.source_refs hash declaration x ≡ true)
            (Distinct-unique s.memories row r distinct stored place (ground arith)) hit)
        (λ hit. elim (Bool-cases (is_named capture ms r)) [
          | inl named ↦ named
          | inr free ↦
              let kept = set_state-keeps (is_named capture ms) archived s.memories r place free in
              absurd (
                cc (
                  hit,
                  select-nil (is_target capture s.source_refs hash declaration) t.memories r
                      none_left (subst (In r) (sym run.archived.memories) kept),
                ))
        ])

  resolve_all-Applied :
      (drawn : Option Uuid → Uuid) (count : ℕ) (s mid t : Db) (r : ResolutionApplyResult)
      → Distinct s.memories
      → resolve_all capture hash declaration drawn s ≡ (ok count, mid)
      → Settled count r mid t
      → Applied capture (is_target capture s.source_refs hash declaration) r s t
  unfolding resolve_all
  resolve_all-Applied drawn count s mid t r distinct h last =
      let rounds = suc (length s.memories) in
      let (ms, run) = resolve_rounds-Resolved capture hash declaration drawn rounds count s mid h in
      let none_left = run.ended (enough_rounds capture s.memories) in
      let (same_rows, same_count) =
        set_state-same (is_named capture ms) _ archived s.memories
          (is_named-target ms rounds count s mid distinct run none_left) in
      record {
        memories = last.kept ∙ run.archived.memories ∙ same_rows;
        counted = last.counted ∙ sym run.counted ∙ sym run.archived.counted ∙ same_count;
        sources = last.same_sources ∙ run.archived.sources;
        recorded = omega (arith, last.grown, run.archived.recorded, run.counted, last.counted);
        grows = λ p e. last.grows p (run.archived.grows p e);
        reported = λ row m hit.
            let is_one = is_named-target ms rounds count s mid distinct run none_left row m in
            let (id, i, same) = any-In (λ x. row.memory_id == x) ms (ground arith) in
            last.grows (reports capture row.memory_id) (
              subst (IsReported capture mid) (ground arith)
                (All-In (IsReported capture mid) ms id run.archived.reported i));
      }

hexdigest-ok :
    (sha256 : Text → Text) (value hash : Text)
    → hexdigest sha256 value ≡ ok hash
    → hash ≡ sha256 value
unfolding hexdigest
hexdigest-ok sha256 value hash h =
    let (n, sized, e) = then_pure-eq-ok (strict_utf8_size value) _ hash h in sym (same_ok e)

-- The row is a target of one of the declarations, with the digest of the declaration.
abbrev pub is_declared :
    (Text → Text)
    → Capture
    → List SourceRef
    → List (Text × (Option Uuid → Uuid))
    → BehaviorMemoryRecord
    → Bool
is_declared sha256 capture sources [] row = false
is_declared sha256 capture sources ((declaration, drawn) ∷ rest) row =
    is_target capture sources (sha256 declaration) declaration row
    || is_declared sha256 capture sources rest row

module _ (sha256 : Text → Text) (capture : Capture) where
  apply_declaration-Applied :
      (declaration : Text) (drawn : Option Uuid → Uuid) (s t : Db) (r : ResolutionApplyResult)
      → Distinct s.memories
      → apply_declaration sha256 capture declaration drawn s ≡ (ok r, t)
      → Applied capture (is_target capture s.source_refs (sha256 declaration) declaration) r s t
  unfolding apply_declaration
  apply_declaration-Applied declaration drawn s t r distinct h =
      let (hash, digest, rest) = bind_lift-ok (hexdigest sha256 declaration) _ s t r h in
      let (count, mid, rounds, last) =
        bind-ok (resolve_all capture hash declaration drawn) _ s t r rest in
      subst (λ x. Applied capture (is_target capture s.source_refs x declaration) r s t)
        (hexdigest-ok sha256 declaration hash digest)
        (resolve_all-Applied capture hash declaration drawn count s mid t r distinct rounds (
          settle_declaration-Settled capture hash drawn count
            (is_already_resolved capture hash declaration mid) mid t r last))

  is_declared-archived :
      (sources : List SourceRef) (ds : List (Text × (Option Uuid → Uuid)))
      (row : BehaviorMemoryRecord)
      → is_declared sha256 capture sources ds (record row { lifecycle_state = archived }) ≡ false
  is_declared-archived sources [] row = refl
  is_declared-archived sources ((declaration, drawn) ∷ rest) row =
      ground (arith, is_open-archived capture row, is_declared-archived sources rest row)

  apply_each-Applied :
      (ds : List (Text × (Option Uuid → Uuid))) (s t : Db) (r : ResolutionApplyResult)
      → Distinct s.memories
      → apply_each sha256 capture ds s ≡ (ok r, t)
      → Applied capture (is_declared sha256 capture s.source_refs ds) r s t
  unfolding apply_each
  apply_each-Applied [] s t r distinct h =
      Applied-run capture s s t (counts 0 0 0) r (Applied-nil capture s) h
  apply_each-Applied ((declaration, drawn) ∷ rest) s t r distinct h =
      let (r1, mid, first, others) =
        bind-ok (apply_declaration sha256 capture declaration drawn) _ s t r h in
      let (r2, last, second, ended) = bind-ok (apply_each sha256 capture rest) _ mid t r others in
      let done = apply_declaration-Applied declaration drawn s mid r1 distinct first in
      let still =
        subst Distinct (sym done.memories) (Distinct-set_state _ archived s.memories distinct) in
      let more =
        subst (λ sources. Applied capture (is_declared sha256 capture sources rest) r2 mid last)
          done.sources (apply_each-Applied rest mid last r2 still second) in
      Applied-run capture s last t (sum r1 r2) r
        (Applied-append capture _ _ (is_declared-archived s.source_refs rest) r1 r2 s mid last done
          more)
        ended

-- An application that returns, on a table whose ids and unique keys are distinct, archives exactly
-- the active open issues of the capture's project and namespace that have the text of a declaration
-- and its digest, a source other than the capture's own, and that source not later than the capture.
-- It counts each of them once as resolved, and adds one row to the resolutions for each that it
-- counts and each declaration that it counts as unmatched. The rows that were there stay, and each
-- issue that it archived has a row of the namespace.
pub apply_on_connection-Applied :
    (sha256 : Text → Text) (capture : Capture) (in_transaction : Bool)
    (ds : List (Text × (Option Uuid → Uuid))) (s t : Db) (r : ResolutionApplyResult)
    → Distinct s.memories
    → apply_on_connection sha256 capture in_transaction ds s ≡ (ok r, t)
    → Applied capture (is_declared sha256 capture s.source_refs ds) r s t
unfolding apply_on_connection
apply_on_connection-Applied sha256 capture in_transaction ds s t r distinct h =
    let (u, live, checked) = bind_lift-ok (guard in_transaction value_error) _ s t r h in
    let (v, valid, applied) =
      bind_lift-ok (validate_source_provenance capture s) (λ _. apply_each sha256 capture ds) s t r
        checked in
    apply_each-Applied sha256 capture ds s t r distinct applied
