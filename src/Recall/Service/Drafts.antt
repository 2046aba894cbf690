-- ===== src/Recall/Service/Drafts.antt =====
-- The final selection of a brief: within the budget, and part of the candidates.
use project_memory_hub.Common.{
  ℕ, ◌≤◌, ◌≡◌, inl, inr, true, false, List, if◌then◌else◌, ap, length, arith, Bool-cases, subst,
  sym,
}
use project_memory_hub.Tokens.{TokenCounter}
use project_memory_hub.Recall.{Candidate}
use project_memory_hub.Recall.Counter.{SafeTokenCounter, Counting}
use project_memory_hub.Recall.Fit.{fits}
use project_memory_hub.Recall.Fit.Laws.{IsPartOf}
use project_memory_hub.Recall.Select.{show, select_candidates}
use project_memory_hub.Recall.Select.Laws.{
  IsMeasured, show-IsMeasured, shrink-le, shrink-IsMeasured, shrink-rows,
}
use project_memory_hub.Recall.Select.Shortened.{Shortens, select_candidates-Shortens}
use project_memory_hub.Recall.Select.Chosen.{select_candidates-IsPartOf}
use project_memory_hub.Recall.Service.{Draft, repeated, draft, stable_draft, final_draft}

repeated-kept :
    (attempt : Counting Draft) (s : SafeTokenCounter)
    → (attempt s).1.using_fallback ≡ false
    → repeated attempt s ≡ attempt s
unfolding repeated
repeated-kept attempt s h = ap (λ b. if b then attempt (attempt s).1 else attempt s) h

repeated-again :
    (attempt : Counting Draft) (s : SafeTokenCounter)
    → (attempt s).1.using_fallback ≡ true
    → repeated attempt s ≡ attempt (attempt s).1
unfolding repeated
repeated-again attempt s h = ap (λ b. if b then attempt (attempt s).1 else attempt s) h

module _ (selected : TokenCounter) (budget : ℕ) (candidates : List Candidate) where
  -- A draft shows part of the candidates, with the count of their text, and shortens some of them.
  abbrev IsDraft : Draft → Type 0
  IsDraft d =
      IsPartOf d.shown.rows candidates
      × IsMeasured selected d.selection.overrides d.shown
      × Shortens candidates d.selection.overrides

  draft-IsDraft : (s : SafeTokenCounter) → IsDraft (draft selected budget candidates s).0
  unfolding draft show
  draft-IsDraft s =
      let chosen = select_candidates (fits selected budget) candidates s in
      (
        select_candidates-IsPartOf (fits selected budget) candidates s,
        show-IsMeasured selected chosen.0.overrides chosen.0.selected chosen.1,
        select_candidates-Shortens (fits selected budget) candidates s,
      )

  stable_draft-IsDraft :
      (s : SafeTokenCounter) → IsDraft (stable_draft selected budget candidates s).0
  unfolding stable_draft
  stable_draft-IsDraft s =
      let attempt = draft selected budget candidates in
      elim (Bool-cases (attempt s).1.using_fallback) [
        | inr f ↦ subst (λ r. IsDraft r.0) (sym (repeated-kept attempt s f)) (draft-IsDraft s)
        | inl t ↦
            subst (λ r. IsDraft r.0) (sym (repeated-again attempt s t))
              (draft-IsDraft (attempt s).1)
      ]

  pub final_draft-le :
      (s : SafeTokenCounter)
      → (final_draft selected budget candidates s).0.shown.estimated_tokens ≤ budget
  unfolding final_draft
  final_draft-le s =
      let last = stable_draft selected budget candidates s in
      shrink-le selected budget last.0.selection.overrides (length last.0.shown.rows) last.0.shown
        last.1 (omega arith) (stable_draft-IsDraft s).1

  pub final_draft-IsMeasured :
      (s : SafeTokenCounter)
      → IsMeasured selected
          (final_draft selected budget candidates s).0.selection.overrides
          (final_draft selected budget candidates s).0.shown
  unfolding final_draft
  final_draft-IsMeasured s =
      let last = stable_draft selected budget candidates s in
      shrink-IsMeasured selected budget last.0.selection.overrides (length last.0.shown.rows)
        last.0.shown last.1 (stable_draft-IsDraft s).1

  pub final_draft-Shortens :
      (s : SafeTokenCounter)
      → Shortens candidates (final_draft selected budget candidates s).0.selection.overrides
  unfolding final_draft
  final_draft-Shortens s = (stable_draft-IsDraft s).2

  pub final_draft-IsPartOf :
      (s : SafeTokenCounter)
      → IsPartOf (final_draft selected budget candidates s).0.shown.rows candidates
  unfolding final_draft
  final_draft-IsPartOf s =
      let last = stable_draft selected budget candidates s in
      let (fewer, inside) =
        shrink-rows selected budget last.0.selection.overrides (length last.0.shown.rows)
          last.0.shown last.1 in
      let (part, _, _) = stable_draft-IsDraft s in
      (omega (arith, fewer, part.0), λ a m. part.1 a (inside a m))
