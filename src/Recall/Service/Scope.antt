-- ===== src/Recall/Service/Scope.antt =====
-- What a brief names: only what the project and the namespace may see.
use project_memory_hub.Common.{
  ℕ, ◌≡◌, ◌⊎◌, inl, inr, some, List, [], ◌++◌, map, In, All-In, arith, subst, sym, ap, ◌∙◌, In-map,
  In-append, In-All,
}
use project_memory_hub.Common.Exec.{ok}
use project_memory_hub.Text.{Text}
use project_memory_hub.Tokens.{TokenCounterRegistry}
use project_memory_hub.Domain.{Uuid, RecallBrief, RecallRequest, FactRecord, BehaviorMemoryRecord}
use project_memory_hub.Database.{Db}
use project_memory_hub.Facts.Search.{Bm25}
use project_memory_hub.Facts.Search
use project_memory_hub.Facts.Search.Laws.{IsCurrentFact, search-IsCurrentFact}
use project_memory_hub.Memories.Search.{search}
use project_memory_hub.Memories.Search.Laws.{IsVisible, search-IsVisible}
use project_memory_hub.Recall.{Candidate, fact_candidate, memory_candidate}
use project_memory_hub.Recall.Render.{Overrides, mandatory_overrides, render, render_order}
use project_memory_hub.Recall.Terms.{line, terms}
use project_memory_hub.Recall.Service.{
  Projects, recalled_facts, recalled_memories, recall_candidates, compose, recall,
  project_not_found_brief, candidate_limit,
}
use project_memory_hub.Recall.Service.Laws.{recall-Answer, composed-ids, Renders, composed-Renders}
use project_memory_hub.Recall.Service.Records.{In-merged}
use project_memory_hub.Recall.Ids.{
  naming, fact_candidate-naming, memory_candidate-naming, deduplicate-HasNamings,
}

module _ (casefold : Text → Text) (bm25 : Bm25) (tables : ℕ → Db) (request : RecallRequest)
    (project_id : Uuid) where
  -- The id is that of a current fact of the project, or of an active memory of the project and
  -- exactly the request's namespace, in the tables of one of the searches.
  abbrev pub IsRecallable : Uuid → Type 0
  IsRecallable id =
      ((n : ℕ) × (f : FactRecord) × IsCurrentFact project_id (tables n) f × (id ≡ f.fact_id))
      ⊎ ((n : ℕ) × (m : BehaviorMemoryRecord) × IsVisible project_id request.namespace (tables n) m
          × (id ≡ m.memory_id))

  recalled_facts-IsCurrentFact :
      (facts : List FactRecord) (f : FactRecord)
      → recalled_facts casefold bm25 tables project_id request ≡ ok facts
      → In f facts
      → (n : ℕ) × IsCurrentFact project_id (tables n) f
  unfolding recalled_facts
  recalled_facts-IsCurrentFact facts f h m =
      let found = λ (query : Text) (n : ℕ).
        search-IsCurrentFact casefold bm25 project_id query candidate_limit (tables n) in
      elim (In-merged (λ (x : FactRecord). x.fact_id)
        (Search.search casefold bm25 project_id request.task candidate_limit (tables 0))
        (Search.search casefold bm25 project_id [] candidate_limit (tables 1)) facts f h m) [
          | inl (first, e, place) ↦ (0, (found request.task 0 first e).1 f place)
          | inr (second, e, place) ↦ (1, (found [] 1 second e).1 f place)
        ]

  recalled_memories-IsVisible :
      (memories : List BehaviorMemoryRecord) (b : BehaviorMemoryRecord)
      → recalled_memories casefold tables project_id request ≡ ok memories
      → In b memories
      → (n : ℕ) × IsVisible project_id request.namespace (tables n) b
  unfolding recalled_memories
  recalled_memories-IsVisible memories b h m =
      let found = λ (query : Text) (n : ℕ).
        search-IsVisible casefold project_id request.namespace query candidate_limit (tables n) in
      elim (In-merged (λ (x : BehaviorMemoryRecord). x.memory_id)
        (search casefold project_id request.namespace request.task candidate_limit (tables 2))
        (search casefold project_id request.namespace [] candidate_limit (tables 3)) memories b h
        m) [
          | inl (first, e, place) ↦ (2, All-In _ first b (found request.task 2 first e).1 place)
          | inr (second, e, place) ↦ (3, All-In _ second b (found [] 3 second e).1 place)
        ]

  -- The same, and the content is the text of this row in a line.
  abbrev pub IsShowable : Uuid × Text → Type 0
  IsShowable shown =
      ((n : ℕ) × (f : FactRecord) × IsCurrentFact project_id (tables n) f
        × (shown ≡ (f.fact_id, line f.normalized_content)))
      ⊎ ((n : ℕ) × (m : BehaviorMemoryRecord) × IsVisible project_id request.namespace (tables n) m
          × (shown ≡ (m.memory_id, line m.normalized_content)))

  IsShowable-IsRecallable : (shown : Uuid × Text) → IsShowable shown → IsRecallable shown.0
  IsShowable-IsRecallable shown (inl (n, f, current, e)) =
      inl (n, f, current, ap (λ (x : Uuid × Text). x.0) e)
  IsShowable-IsRecallable shown (inr (n, m, visible, e)) =
      inr (n, m, visible, ap (λ (x : Uuid × Text). x.0) e)

  candidates-IsShowable :
      (facts : List FactRecord) (memories : List BehaviorMemoryRecord) (c : Candidate)
      → recalled_facts casefold bm25 tables project_id request ≡ ok facts
      → recalled_memories casefold tables project_id request ≡ ok memories
      → In c (recall_candidates casefold request facts memories)
      → IsShowable (naming c)
  unfolding recall_candidates
  candidates-IsShowable facts memories c h k m =
      let task_terms = terms casefold request.task in
      let of_fact = λ (fact : FactRecord). fact_candidate casefold fact task_terms in
      let of_memory =
        λ (memory : BehaviorMemoryRecord). memory_candidate casefold memory task_terms in
      deduplicate-HasNamings IsShowable casefold (map of_fact facts ++ map of_memory memories) c
        (In-All (λ (d : Candidate). IsShowable (naming d)) _
          λ d i. elim (In-append (map of_fact facts) (map of_memory memories) d i) [
            | inl l ↦
                let (f, place, e) = In-map of_fact facts d l in
                let (n, current) = recalled_facts-IsCurrentFact facts f h place in
                inl (n, f, current, ap naming e ∙ fact_candidate-naming casefold f task_terms)
            | inr r ↦
                let (b, place, e) = In-map of_memory memories d r in
                let (n, visible) = recalled_memories-IsVisible memories b k place in
                inr (n, b, visible, ap naming e ∙ memory_candidate-naming casefold b task_terms)
          ])
        m

  -- The text is the rendering of recallable rows, and the ids are theirs.
  abbrev pub IsRendered : RecallBrief → Type 0
  IsRendered b =
      (rows : List Candidate) × (overrides : Overrides) × (b.text ≡ render rows overrides)
      × (b.selected_ids ≡ map (λ (c : Candidate). c.record_id) (render_order rows))
      × ((c : Candidate) → In c rows → IsShowable (naming c))
      × ((retained : List Candidate) × (limit : ℕ) × (overrides
            ≡ mandatory_overrides retained limit)
          × ((c : Candidate) → In c retained → IsShowable (naming c)))

  Renders-IsRendered :
      (registry : TokenCounterRegistry) (max_tokens : ℕ) (facts : List FactRecord)
      (memories : List BehaviorMemoryRecord) (b : RecallBrief)
      → recalled_facts casefold bm25 tables project_id request ≡ ok facts
      → recalled_memories casefold tables project_id request ≡ ok memories
      → Renders registry max_tokens request (recall_candidates casefold request facts memories) b
      → IsRendered b
  Renders-IsRendered registry max_tokens facts memories b h k
        (rows, overrides, text, ids, inside, (retained, limit, e, of_candidates)) =
      (
        rows,
        overrides,
        text,
        ids,
        λ c m. candidates-IsShowable facts memories c h k (inside c m),
        (retained, limit, e, λ c m. candidates-IsShowable facts memories c h k (of_candidates c m)),
      )

-- A brief is that of no project, or it is one of the project of the request's directory. Every row
-- that it names is then a current fact of this project, or an active memory of it that one of the
-- searches saw under exactly the request's source and model. Its text is the rendering of the rows
-- that it names, whose contents are the texts of such facts and memories; a content may be replaced
-- by a shortened text of such a row.
pub recall-IsRecallable :
    (casefold : Text → Text) (bm25 : Bm25) (projects : Projects) (registry : TokenCounterRegistry)
    (max_tokens : ℕ) (tables : ℕ → Db) (request : RecallRequest) (b : RecallBrief)
    → recall casefold bm25 projects registry max_tokens tables request ≡ ok b
    → (b ≡ project_not_found_brief)
      ⊎ ((project_id : Uuid) × (projects.find_by_cwd request.cwd ≡ some project_id)
          × ((id : Uuid)
              → In id b.selected_ids
              → IsRecallable casefold bm25 tables request project_id id)
          × IsRendered casefold bm25 tables request project_id b)
recall-IsRecallable casefold bm25 projects registry max_tokens tables request b h =
    let (c, e, shape) = recall-Answer casefold bm25 projects registry max_tokens tables request in
    let same : c ≡ b = ground (arith, e, h) in
    elim shape [
      | inl gone ↦ inl (sym same ∙ gone)
      | inr found ↦
          let candidates = recall_candidates casefold request found.facts found.memories in
          let whole = sym found.is_brief ∙ same in
          inr (
            found.project_id,
            found.located,
            λ id m.
                let (d, candidate, id_of) =
                  composed-ids registry max_tokens request candidates id
                    (subst (λ (x : RecallBrief). In id x.selected_ids) (sym whole) m) in
                subst (IsRecallable casefold bm25 tables request found.project_id) (sym id_of) (
                  IsShowable-IsRecallable casefold bm25 tables request found.project_id _ (
                    candidates-IsShowable casefold bm25 tables request found.project_id found.facts
                      found.memories d found.facts_found found.memories_found candidate)),
            subst (IsRendered casefold bm25 tables request found.project_id) whole (
                Renders-IsRendered casefold bm25 tables request found.project_id registry max_tokens
                  found.facts found.memories (compose registry max_tokens request candidates)
                  found.facts_found found.memories_found
                  (composed-Renders registry max_tokens request candidates)),
          )
    ]
