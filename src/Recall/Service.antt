-- ===== src/Recall/Service.antt =====
-- `RecallService` of services/recall.py. The projects, whose identities stand in the file system, are
-- an interface; the repositories read the tables as the n-th of the four searches finds them.
pub mod Laws
pub mod Drafts
pub mod Scope
pub mod Records
use project_memory_hub.Common.{
  ℕ, zero, suc, ◌+◌, ◌-◌, min, ◌≡◌, refl, Bool, true, false, not, ◌&&◌, ◌||◌, Option, none, some,
  List, [], ◌∷◌, ◌++◌, ◌==◌, ltb, leb, if◌then◌else◌, length, map, any,
}
use project_memory_hub.Common.Exec.{Result, ok, err, value_error, then_pure, guard}
use project_memory_hub.Text.{Text}
use project_memory_hub.Tokens.{TokenCounter, TokenCounterRegistry, for_model}
use project_memory_hub.Domain.{
  Uuid, Namespace, FactRecord, BehaviorMemoryRecord, RecallRequest, RecallBrief, Warning,
  project_not_found, token_budget_clamped, token_counter_fallback, mandatory_content_shortened,
  token_budget_truncated,
}
use project_memory_hub.Database.{Db}
use project_memory_hub.Memories.Search.{search}
use project_memory_hub.Facts.Search
use project_memory_hub.Facts.Search.{Bm25}
use project_memory_hub.Recall.{Candidate, fact_candidate, memory_candidate}
use project_memory_hub.Recall.Rank.{deduplicate}
use project_memory_hub.Recall.Terms.{terms}
use project_memory_hub.Recall.Counter.{SafeTokenCounter, Counting, ◌>>=◌, give, fresh, count}
use project_memory_hub.Recall.Render.{render_order}
use project_memory_hub.Recall.Fit.{fits}
use project_memory_hub.Recall.Select.{
  Selection, select_candidates, Shown, show, shrink, is_empty_list,
}

abbrev pub candidate_limit : ℕ
candidate_limit = 100

abbrev pub product_max_recall_tokens : ℕ
product_max_recall_tokens = 800

abbrev pub min_recall_tokens : ℕ
min_recall_tokens = 128

-- `RecallService.__init__`: the budget of the service.
unfoldable pub max_recall_tokens : ℕ → Result ℕ
max_recall_tokens configured =
    then_pure (guard (leb min_recall_tokens configured) value_error)
      λ _. ok (min configured product_max_recall_tokens)

-- What `recall` asks of `ProjectRepository`: the project of a directory, and the identity that its
-- directory has at the n-th question, as a number.
pub record Projects : Type 0 where
  pub find_by_cwd : Text → Option Uuid
  pub record_live_identity : ℕ → Uuid → Option ℕ

unfoldable pub project_not_found_brief : RecallBrief
project_not_found_brief = record {
  text = [];
  estimated_tokens = 0;
  selected_ids = [];
  omitted_count = 0;
  warnings = project_not_found ∷ [];
}

module _ {A : Type 0} (id_of : A → Uuid) where
  -- An assignment to a dictionary by id, of which only the values are kept.
  unfoldable pub put_record : A → List A → List A
  put_record row [] = row ∷ []
  put_record row (other ∷ rest) =
      if id_of other == id_of row then row ∷ rest else other ∷ put_record row rest

  unfoldable pub put_records : List A → List A → List A
  unfolding put_record
  put_records [] records = records
  put_records (row ∷ rows) records = put_records rows (put_record row records)

  unfoldable pub add_missing : List A → List A → List A
  add_missing [] records = records
  add_missing (row ∷ rows) records =
      add_missing rows
        (if any (λ other. id_of other == id_of row) records then records else records ++ row ∷ [])

  unfoldable pub merge_records : List A → List A → List A
  unfolding put_records add_missing
  merge_records first second = add_missing second (put_records first [])

abbrev pub warn : Bool → Warning → List Warning
warn true warning = warning ∷ []
warn false warning = []

abbrev pub same_identity : Option ℕ → ℕ → Bool
same_identity none expected = false
same_identity (some identity) expected = identity == expected

-- The selection and its text.
pub record Draft : Type 0 where
  pub shown : Shown
  pub selection : Selection

-- The selection again where the counter has been given up during the first one.
unfoldable pub repeated : Counting Draft → Counting Draft
repeated attempt = do
  first ← attempt
  λ counter. if counter.using_fallback then attempt counter else (first, counter)

module _ (selected : TokenCounter) (budget : ℕ) where
  unfoldable pub draft : List Candidate → Counting Draft
  unfolding select_candidates fits show
  draft candidates = do
    selection ← select_candidates (fits selected budget) candidates
    shown ← show selected selection.overrides selection.selected
    give (record { shown = shown; selection = selection })

  unfoldable pub stable_draft : List Candidate → Counting Draft
  unfolding repeated draft
  stable_draft candidates = repeated (draft candidates)

  unfoldable pub final_draft : List Candidate → Counting Draft
  unfolding stable_draft shrink
  final_draft candidates = do
    last ← stable_draft candidates
    shown ← shrink selected budget last.selection.overrides (length last.shown.rows) last.shown
    give (record last { shown = shown })

-- The brief of a final selection.
unfoldable pub brief : ℕ → RecallRequest → List Candidate → Draft × SafeTokenCounter → RecallBrief
unfolding render_order
brief effective_budget request candidates (final, counter) =
    let ordered = render_order final.shown.rows in
    let omitted_count = length candidates - length ordered in
    record {
      text = final.shown.rendered;
      estimated_tokens = final.shown.estimated_tokens;
      selected_ids = map (λ candidate. candidate.record_id) ordered;
      omitted_count = omitted_count;
      warnings =
          warn (ltb effective_budget request.max_tokens) token_budget_clamped
          ++ warn counter.using_fallback token_counter_fallback
          ++ warn final.selection.shortened mandatory_content_shortened
          ++ warn (not (omitted_count == 0)) token_budget_truncated;
    }

module _ (casefold : Text → Text) (bm25 : Bm25) (tables : ℕ → Db) where
  unfoldable pub recalled_facts : Uuid → RecallRequest → Result (List FactRecord)
  unfolding merge_records Search.search
  recalled_facts project_id request =
      then_pure (Search.search casefold bm25 project_id request.task candidate_limit (tables 0))
        λ first.
          then_pure (Search.search casefold bm25 project_id [] candidate_limit (tables 1))
            λ second. ok (merge_records (λ fact. fact.fact_id) first second)

module _ (casefold : Text → Text) (tables : ℕ → Db) where
  unfoldable pub recalled_memories : Uuid → RecallRequest → Result (List BehaviorMemoryRecord)
  unfolding merge_records search
  recalled_memories project_id request =
      then_pure
        (search casefold project_id request.namespace request.task candidate_limit (tables 2))
        λ first.
          then_pure (search casefold project_id request.namespace [] candidate_limit (tables 3))
            λ second. ok (merge_records (λ memory. memory.memory_id) first second)

unfoldable pub recall_candidates :
    (Text → Text) → RecallRequest → List FactRecord → List BehaviorMemoryRecord → List Candidate
unfolding deduplicate terms fact_candidate memory_candidate
recall_candidates casefold request facts memories =
    let task_terms = terms casefold request.task in
    deduplicate casefold (
      map (λ fact. fact_candidate casefold fact task_terms) facts
      ++ map (λ memory. memory_candidate casefold memory task_terms) memories)

module _ (registry : TokenCounterRegistry) (max_tokens : ℕ) where
  -- The brief of the candidates.
  unfoldable pub compose : RecallRequest → List Candidate → RecallBrief
  unfolding final_draft brief for_model
  compose request candidates =
      let effective_budget = min request.max_tokens max_tokens in
      let counter = for_model registry request.namespace.model_id in
      brief effective_budget request candidates
        (final_draft counter effective_budget candidates fresh)

module _ (casefold : Text → Text) (bm25 : Bm25) (projects : Projects)
    (registry : TokenCounterRegistry) (max_tokens : ℕ) (tables : ℕ → Db) where
  -- The brief counts if the identity is the same after the searches, and at the end.
  unfoldable pub if_unchanged : Uuid → ℕ → RecallBrief → RecallBrief
  unfolding project_not_found_brief
  if_unchanged project_id identity composed =
      if same_identity (projects.record_live_identity 1 project_id) identity
        && same_identity (projects.record_live_identity 2 project_id) identity
      then composed
      else project_not_found_brief

  unfoldable pub recall_project : RecallRequest → Uuid → ℕ → Result RecallBrief
  unfolding recalled_facts recalled_memories recall_candidates compose if_unchanged
      project_not_found_brief
  recall_project request project_id identity =
      then_pure (recalled_facts casefold bm25 tables project_id request) λ facts.
        then_pure (recalled_memories casefold tables project_id request) λ memories. ok (
          if_unchanged project_id identity (
            compose registry max_tokens request
              (recall_candidates casefold request facts memories)))

  abbrev pub recall_identified : RecallRequest → Uuid → Option ℕ → Result RecallBrief
  recall_identified request project_id none = ok project_not_found_brief
  recall_identified request project_id (some identity) = recall_project request project_id identity

  abbrev pub recall_found : RecallRequest → Option Uuid → Result RecallBrief
  recall_found request none = ok project_not_found_brief
  recall_found request (some project_id) =
      recall_identified request project_id (projects.record_live_identity 0 project_id)

  unfoldable pub recall : RecallRequest → Result RecallBrief
  unfolding recall_project project_not_found_brief
  recall request = recall_found request (projects.find_by_cwd request.cwd)
