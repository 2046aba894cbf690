-- ===== src/Recall/Service/Laws.antt =====
-- What `recall` returns: always a brief, within the budget, whose rows and omissions add up.
use project_memory_hub.Common.{
  ℕ, ◌+◌, min, ◌≡◌, refl, ◌⊎◌, inl, inr, ◌&&◌, Option, none, some, List, length, map, In,
  Bool-cases, In-map,
}
use project_memory_hub.Common.Order.Sort.{In-sort}
use project_memory_hub.Common.Exec.{Result, ok}
use project_memory_hub.Text.{Text}
use project_memory_hub.Tokens.{TokenCounterRegistry, for_model}
use project_memory_hub.Domain.{Uuid, RecallBrief, RecallRequest, FactRecord, BehaviorMemoryRecord}
use project_memory_hub.Database.{Db}
use project_memory_hub.Facts.Search.{Bm25}
use project_memory_hub.Facts.Search
use project_memory_hub.Memories.Search.{search, validate_limit}
use project_memory_hub.Recall.{Candidate}
use project_memory_hub.Recall.Counter.{SafeTokenCounter, count, fresh}
use project_memory_hub.Recall.Render.{Overrides, render, render_order, render_rank, render_key}
use project_memory_hub.Recall.Select.Shortened.{Shortens}
use project_memory_hub.Recall.Service.{
  Projects, final_draft, brief, recalled_facts, recalled_memories, recall_candidates, compose,
  if_unchanged, recall_project, recall_identified, recall_found, recall, project_not_found_brief,
  same_identity,
}
use project_memory_hub.Recall.Service.Drafts.{
  final_draft-IsMeasured, final_draft-Shortens, final_draft-IsPartOf,
}

module _ (registry : TokenCounterRegistry) (max_tokens : ℕ) (request : RecallRequest) where
  abbrev composed : List Candidate → RecallBrief
  composed candidates = compose registry max_tokens request candidates

  -- The count is the counter's answer for the text.
  abbrev pub IsCounted : RecallBrief → Type 0
  IsCounted b =
      (s : SafeTokenCounter) × (b.estimated_tokens
        ≡ (count (for_model registry request.namespace.model_id) b.text s).0)

  -- The text is that of candidates, and the ids are theirs.
  abbrev pub Renders : List Candidate → RecallBrief → Type 0
  Renders candidates b =
      (rows : List Candidate) × (overrides : Overrides) × (b.text ≡ render rows overrides)
      × (b.selected_ids ≡ map (λ (c : Candidate). c.record_id) (render_order rows))
      × ((c : Candidate) → In c rows → In c candidates)
      × Shortens candidates overrides

  pub composed-Renders : (candidates : List Candidate) → Renders candidates (composed candidates)
  unfolding compose brief
  composed-Renders candidates =
      let selected = for_model registry request.namespace.model_id in
      let budget = min request.max_tokens max_tokens in
      let last = final_draft selected budget candidates fresh in
      (
        last.0.shown.rows,
        last.0.selection.overrides,
        (final_draft-IsMeasured selected budget candidates fresh).0,
        refl,
        (final_draft-IsPartOf selected budget candidates fresh).1,
        final_draft-Shortens selected budget candidates fresh,
      )

  pub composed-ids :
      (candidates : List Candidate) (id : Uuid)
      → In id (composed candidates).selected_ids
      → (c : Candidate) × In c candidates × (id ≡ c.record_id)
  unfolding compose brief render_order
  composed-ids candidates id m =
      let last =
        final_draft (for_model registry request.namespace.model_id)
          (min request.max_tokens max_tokens) candidates fresh in
      let (fewer, inside) =
        final_draft-IsPartOf (for_model registry request.namespace.model_id)
          (min request.max_tokens max_tokens) candidates fresh in
      let (c, place, e) = In-map (λ (c : Candidate). c.record_id) _ id m in
      (c, inside c (In-sort render_rank render_key last.0.shown.rows c place), e)

module _ (casefold : Text → Text) (bm25 : Bm25) (projects : Projects)
    (registry : TokenCounterRegistry) (max_tokens : ℕ) (tables : ℕ → Db)
    (request : RecallRequest) where
  -- The brief is that of the candidates of the project that the directory is in.
  pub record IsComposed (b : RecallBrief) : Type 0 where
    pub project_id : Uuid
    pub facts : List FactRecord
    pub memories : List BehaviorMemoryRecord
    pub facts_found : recalled_facts casefold bm25 tables project_id request ≡ ok facts
    pub memories_found : recalled_memories casefold tables project_id request ≡ ok memories
    pub located : projects.find_by_cwd request.cwd ≡ some project_id
    pub is_brief :
        b ≡ compose registry max_tokens request (recall_candidates casefold request facts memories)

  abbrev Answer : Result RecallBrief → Type 0
  Answer r = (b : RecallBrief) × (r ≡ ok b) × ((b ≡ project_not_found_brief) ⊎ IsComposed b)

  if_unchanged-cases :
      (project_id : Uuid) (identity : ℕ) (b : RecallBrief)
      → (if_unchanged casefold bm25 projects registry max_tokens tables project_id identity b
          ≡ project_not_found_brief)
        ⊎ (if_unchanged casefold bm25 projects registry max_tokens tables project_id identity b ≡ b)
  unfolding if_unchanged
  if_unchanged-cases project_id identity b =
      elim (Bool-cases (
        same_identity (projects.record_live_identity 1 project_id) identity
        && same_identity (projects.record_live_identity 2 project_id) identity)) [
          | inl t ↦ inr (rw t refl)
          | inr f ↦ inl (rw f refl)
        ]

  -- The searches of a recall stay within the limits, so that they all return.
  recall_project-runs :
      (project_id : Uuid) (identity : ℕ)
      → (facts : List FactRecord) × (memories : List BehaviorMemoryRecord) × (recalled_facts
            casefold bm25 tables project_id request
          ≡ ok facts)
        × (recalled_memories casefold tables project_id request ≡ ok memories)
        × (recall_project casefold bm25 projects registry max_tokens tables request project_id
              identity
            ≡ ok (
                if_unchanged casefold bm25 projects registry max_tokens tables project_id identity (
                  compose registry max_tokens request
                    (recall_candidates casefold request facts memories))))
  unfolding recall_project recalled_facts recalled_memories Search.search search validate_limit
  recall_project-runs project_id identity = (_, _, refl, refl, refl)

  recall_project-Answer :
      (project_id : Uuid) (identity : ℕ)
      → projects.find_by_cwd request.cwd ≡ some project_id
      → Answer (
          recall_project casefold bm25 projects registry max_tokens tables request project_id
            identity)
  recall_project-Answer project_id identity located =
      let (facts, memories, e, k, runs) = recall_project-runs project_id identity in
      let whole =
        compose registry max_tokens request (recall_candidates casefold request facts memories) in
      (
        if_unchanged casefold bm25 projects registry max_tokens tables project_id identity whole,
        runs,
        elim (if_unchanged-cases project_id identity whole) [
          | inl gone ↦ inl gone
          | inr kept ↦ inr (record {
            project_id = project_id;
            facts = facts;
            memories = memories;
            facts_found = e;
            memories_found = k;
            located = located;
            is_brief = kept;
          })
        ],
      )

  nothing_found : Answer (ok project_not_found_brief)
  nothing_found = (project_not_found_brief, refl, inl refl)

  recall_identified-Answer :
      (project_id : Uuid) (identity : Option ℕ)
      → projects.find_by_cwd request.cwd ≡ some project_id
      → Answer (
          recall_identified casefold bm25 projects registry max_tokens tables request project_id
            identity)
  recall_identified-Answer project_id none located = nothing_found
  recall_identified-Answer project_id (some identity) located =
      recall_project-Answer project_id identity located

  recall_found-Answer :
      (found : Option Uuid)
      → projects.find_by_cwd request.cwd ≡ found
      → Answer (recall_found casefold bm25 projects registry max_tokens tables request found)
  recall_found-Answer none located = nothing_found
  recall_found-Answer (some project_id) located = recall_identified-Answer project_id _ located

  -- `recall` always returns a brief: that of no project, or that of the candidates of one.
  pub recall-Answer : Answer (recall casefold bm25 projects registry max_tokens tables request)
  unfolding recall
  recall-Answer = recall_found-Answer (projects.find_by_cwd request.cwd) refl

  -- Either the brief is that of no project, or it has one of so many candidates.
  abbrev pub Accounts : RecallBrief → Type 0
  Accounts b =
      (b ≡ project_not_found_brief)
      ⊎ ((composed : IsComposed b) × (b.omitted_count + length b.selected_ids
            ≡ length (recall_candidates casefold request composed.facts composed.memories)))
