-- ===== src/Resolutions/Settled.antt =====
-- The states that a declaration goes through once its loop has ended.
use project_memory_hub.Common.{
  In, subst, sym, inl, inr, true, ℕ, zero, suc, ◌+◌, ◌≡◌, refl, inl, inr, Bool, true, false, ◌||◌,
  Option, none, List, [], ◌∷◌, ◌++◌, ◌<◌, ap, ◌∙◌, sym, subst, arith, length, any, Bool-cases, ap₂,
  length-append, length-select-le,
}
use project_memory_hub.Common.Exec.{Result, ok, bind-ok, same_ok, pure}
use project_memory_hub.Text.{Text}
use project_memory_hub.Domain.{Uuid, archived, BehaviorMemoryRecord}
use project_memory_hub.Database.{Db, ResolutionRow}
use project_memory_hub.Memories.Lifecycle.{set_state, updated}
use project_memory_hub.Memories.Rows.{set_state-keeps}
use project_memory_hub.Resolutions.Updates.{Grows, Grows-snoc, IsReported, reports}
use project_memory_hub.Resolutions.{
  Capture, ResolutionApplyResult, is_open, insert_or_ignore_resolution, clash_resolution,
  resolution_row,
}
use project_memory_hub.Resolutions.Apply.{settle_declaration, counts}

-- Two updates of which the second passes over what the first made archived are one.
set_state-set_state :
    (p q : BehaviorMemoryRecord → Bool)
    (shut : (row : BehaviorMemoryRecord) → q (record row { lifecycle_state = archived }) ≡ false)
    (rows : List BehaviorMemoryRecord)
    → (set_state q archived (set_state p archived rows)
        ≡ set_state (λ row. p row || q row) archived rows)
      × (updated p rows + updated q (set_state p archived rows)
          ≡ updated (λ row. p row || q row) rows)
unfolding set_state updated
set_state-set_state p q shut [] = (refl, refl)
set_state-set_state p q shut (row ∷ rows) =
    ground (arith, shut row, set_state-set_state p q shut rows)

set_state-none :
    (rows : List BehaviorMemoryRecord)
    → (rows ≡ set_state (λ row. false) archived rows) × (0 ≡ updated (λ row. false) rows)
unfolding set_state updated
set_state-none [] = (refl, refl)
set_state-none (row ∷ rows) = ground (arith, set_state-none rows)

-- Exactly the rows that pass are archived, each is counted once and recorded, and no record is lost.
pub record Applied (capture : Capture) (p : BehaviorMemoryRecord → Bool) (r : ResolutionApplyResult)
    (s t : Db) : Type 0 where
  pub memories : t.memories ≡ set_state p archived s.memories
  pub counted : r.resolved_count ≡ updated p s.memories
  pub sources : t.source_refs ≡ s.source_refs
  pub recorded :
      length t.resolutions
      ≡ length s.resolutions + (r.resolved_count + r.unmatched_resolution_count)
  pub grows : Grows s t
  pub reported :
      (row : BehaviorMemoryRecord)
      → In row s.memories
      → p row ≡ true
      → IsReported capture t row.memory_id

pub Applied-nil : (capture : Capture) (s : Db) → Applied capture (λ row. false) (counts 0 0 0) s s
Applied-nil capture s = record {
  memories = (set_state-none s.memories).0;
  counted = (set_state-none s.memories).1;
  sources = refl;
  recorded = omega arith;
  grows = λ p e. e;
  reported = λ row m e. cc;
}

abbrev pub sum : ResolutionApplyResult → ResolutionApplyResult → ResolutionApplyResult
sum a b =
    counts (a.resolved_count + b.resolved_count)
      (a.already_resolved_count + b.already_resolved_count)
      (a.unmatched_resolution_count + b.unmatched_resolution_count)

pub Applied-append :
    (capture : Capture) (p q : BehaviorMemoryRecord → Bool)
    (shut : (row : BehaviorMemoryRecord) → q (record row { lifecycle_state = archived }) ≡ false)
    (r1 r2 : ResolutionApplyResult) (s mid t : Db)
    → Applied capture p r1 s mid
    → Applied capture q r2 mid t
    → Applied capture (λ row. p row || q row) (sum r1 r2) s t
Applied-append capture p q shut r1 r2 s mid t g h =
    let (same, total) = set_state-set_state p q shut s.memories in
    record {
      memories = h.memories ∙ ap (set_state q archived) g.memories ∙ same;
      counted = ap₂ ◌+◌ g.counted (h.counted ∙ ap (updated q) g.memories) ∙ total;
      sources = h.sources ∙ g.sources;
      recorded = omega (arith, g.recorded, h.recorded);
      grows = λ test e. h.grows test (g.grows test e);
      reported = λ row m e. elim (Bool-cases (p row)) [
        | inl first ↦ h.grows (reports capture row.memory_id) (g.reported row m first)
        | inr other ↦
            h.reported row
              (subst (In row) (sym g.memories) (set_state-keeps p archived s.memories row m other))
              (ground arith)
      ];
    }

pub Applied-run :
    (capture : Capture) {p : BehaviorMemoryRecord → Bool} (s mid t : Db)
    (x r : ResolutionApplyResult)
    → Applied capture p x s mid
    → pure x mid ≡ (ok r, t)
    → Applied capture p r s t
Applied-run capture {p} s mid t x r done h =
    subst (λ y. Applied capture p y s t)
      (same_ok (ap (λ (z : Result ResolutionApplyResult × Db). z.0) h))
      (subst (Applied capture p x s) (ap (λ (z : Result ResolutionApplyResult × Db). z.1) h) done)

-- The loop has more rounds than there are open issues.
pub enough_rounds :
    (capture : Capture) (rows : List BehaviorMemoryRecord)
    → updated (is_open capture) rows < suc (length rows)
unfolding updated
enough_rounds capture rows = omega (arith, length-select-le (is_open capture) rows)

-- The last step of a declaration writes no memory.
pub record Settled (count : ℕ) (r : ResolutionApplyResult) (s t : Db) : Type 0 where
  pub kept : t.memories ≡ s.memories
  pub same_sources : t.source_refs ≡ s.source_refs
  pub counted : r.resolved_count ≡ count
  pub grown : length t.resolutions ≡ length s.resolutions + r.unmatched_resolution_count
  pub grows : Grows s t

-- A state that differs only in the resolutions, of which there are so many more.
abbrev Grown : ℕ → Db → Db → Type 0
Grown n s t =
    (t.memories ≡ s.memories)
    × (t.source_refs ≡ s.source_refs)
    × (length t.resolutions ≡ length s.resolutions + n)
    × Grows s t

Grown-run : (s mid t : Db) (m n : ℕ) → Grown m s mid → pure m mid ≡ (ok n, t) → Grown n s t
Grown-run s mid t m n grown h =
    subst (λ k. Grown k s t) (same_ok (ap (λ (p : Result ℕ × Db). p.0) h))
      (subst (Grown m s) (ap (λ (p : Result ℕ × Db). p.1) h) grown)

Settled-run :
    (s mid t : Db) (count already unmatched : ℕ) (r : ResolutionApplyResult)
    → Grown unmatched s mid
    → pure (counts count already unmatched) mid ≡ (ok r, t)
    → Settled count r s t
Settled-run s mid t count already unmatched r (kept, sources, grown, grows) h =
    let there = ap (λ (p : Result ResolutionApplyResult × Db). p.1) h in
    let result = same_ok (ap (λ (p : Result ResolutionApplyResult × Db). p.0) h) in
    record {
      kept = ap (λ (d : Db). d.memories) (sym there) ∙ kept;
      same_sources = ap (λ (d : Db). d.source_refs) (sym there) ∙ sources;
      counted = ap (λ (x : ResolutionApplyResult). x.resolved_count) (sym result);
      grown =
          ap (λ (d : Db). length d.resolutions) (sym there)
          ∙ grown
          ∙ ap (λ (x : ResolutionApplyResult). length s.resolutions + x.unmatched_resolution_count)
              result;
      grows = λ p e. subst (λ (d : Db). any p d.resolutions ≡ true) there (grows p e);
    }

Grown-nil : (s : Db) → Grown 0 s s
Grown-nil s = (refl, refl, omega arith, λ p e. e)

module _ (capture : Capture) (hash : Text) where
  insert_or_ignore_resolution-cases :
      (row : ResolutionRow) (s t : Db) (n : ℕ)
      → insert_or_ignore_resolution row s ≡ (ok n, t)
      → Grown n s t
  unfolding insert_or_ignore_resolution
  insert_or_ignore_resolution-cases row s t n h =
      elim (Bool-cases (any (clash_resolution row) s.resolutions)) [
        | inl e ↦ Grown-run s s t 0 n (Grown-nil s) (rw (e, insert_or_ignore_resolution) at h)
        | inr e ↦
            Grown-run s (record s { resolutions = s.resolutions ++ row ∷ [] }) t 1 n
              (refl, refl, length-append s.resolutions (row ∷ []), Grows-snoc row s)
              (rw (e, insert_or_ignore_resolution) at h)
      ]

  pub settle_declaration-Settled :
      (drawn : Option Uuid → Uuid) (count : ℕ) (already : Bool) (s t : Db)
      (r : ResolutionApplyResult)
      → settle_declaration capture hash drawn count already s ≡ (ok r, t)
      → Settled count r s t
  unfolding settle_declaration
  settle_declaration-Settled drawn (suc count) already s t r h =
      Settled-run s s t (suc count) 0 0 r (Grown-nil s) h
  settle_declaration-Settled drawn zero true s t r h = Settled-run s s t 0 1 0 r (Grown-nil s) h
  settle_declaration-Settled drawn zero false s t r h =
      let (n, mid, inserted, ended) =
        bind-ok (insert_or_ignore_resolution (resolution_row capture hash (drawn none) none)) _ s t
          r h in
      Settled-run s mid t 0 0 n r
        (insert_or_ignore_resolution-cases (resolution_row capture hash (drawn none) none) s mid n
          inserted)
        ended
