-- ===== src/Samples/Recall.antt =====
-- The theorems on recall, at a small database.
use project_memory_hub.Common.{
  ℕ, ◌≡◌, ◌⊎◌, In, refl, none, some, true, false, Bool, Option, List, [], ◌∷◌, ◌≤◌, zero, suc,
  length, take, leb, arith,
}
use project_memory_hub.Common.Exec.{Result, ok}
use project_memory_hub.Text.{Text, codes}
use project_memory_hub.Tokens.{TokenCounter, TokenCounterRegistry, token_counter_registry}
use project_memory_hub.Text.Terms.{tokens, count_from}
use project_memory_hub.Domain.Timestamp.{float_timestamp}
use project_memory_hub.Database.Iso.{iso_rank}
use project_memory_hub.Memories.Search.{validate_limit, ranked, candidates, in_scope, score}
use project_memory_hub.Domain.{same_namespace, Uuid, RecallRequest, RecallBrief}
use project_memory_hub.Database.{FactRow}
use project_memory_hub.Recall.{Candidate, verified_methods}
use project_memory_hub.Recall.Counter.{Counting, fresh}
use project_memory_hub.Recall.Fit.{
  fits, limit_fits, enforce_mandatory_budget, largest_fitting_prefix,
}
use project_memory_hub.Recall.Fit.Rounds.{enforce_rounds}
use project_memory_hub.Recall.Fit.Largest.{
  IsExact, fits_exactly, last_fitting, largest_fitting_prefix-IsLast,
}
use project_memory_hub.Recall.Render.{render, mandatory_overrides}
use project_memory_hub.Recall.Terms.{line, relevance}
use project_memory_hub.Recall.Service.Scope.{recall-IsRecallable, IsRecallable, IsRendered}
use project_memory_hub.Recall.Service.{Projects, recall, project_not_found_brief}
use project_memory_hub.Samples.Data.{folded, gpt, full_db}

abbrev no_matches : List FactRow → List Text → FactRow → Option ℕ
no_matches rows terms row = none

abbrev one_project : Projects
one_project = record { find_by_cwd = λ cwd. some 1; record_live_identity = λ n project_id. some 5 }

abbrev counters : TokenCounterRegistry
counters = token_counter_registry [] none

abbrev request : RecallRequest
request = record {
  cwd = codes "/work/app";
  task = codes "run pytest";
  namespace = gpt;
  max_tokens = 800;
}

program : Unit {0}
unfolding float_timestamp recall validate_limit ranked tokens candidates in_scope same_namespace
    iso_rank count_from score line relevance token_counter_registry render mandatory_overrides
    last_fitting
program = tt

recalled : Result RecallBrief
recalled = recall folded no_matches one_project counters 800 (λ n. full_db) request

abbrev shown : RecallBrief
shown = record {
  text = codes "Verified methods\n- run pytest first\n\nDecisions\n- use pytest";
  estimated_tokens = 17;
  selected_ids = 11 ∷ 12 ∷ [];
  omitted_count = 0;
  warnings = [];
}

recall-run : recalled ≡ ok shown
unfolding program recalled
recall-run = refl

recall-IsRecallable_example :
    (shown ≡ project_not_found_brief)
    ⊎ ((project_id : Uuid) × (some 1 ≡ some project_id)
        × ((id : Uuid)
            → In id shown.selected_ids
            → IsRecallable folded no_matches (λ n. full_db) request project_id id)
        × IsRendered folded no_matches (λ n. full_db) request project_id shown)
unfolding recalled
recall-IsRecallable_example =
    recall-IsRecallable folded no_matches one_project counters 800 (λ n. full_db) request shown
      recall-run

-- A method to be shown.
abbrev candidate : ℕ → Candidate
candidate n = record {
  record_id = n;
  content = codes "run pytest first";
  section = verified_methods;
  mandatory = true;
  path_command_match = 1;
  overlap = 1;
  evidence_strength = 3;
  observed_at = n;
  confidence = 0;
  reference_count = 1;
}

-- It fits as long as no more than four characters of a content are kept.
abbrev short_fits : List Candidate → ℕ → Counting Bool
short_fits retained limit s = (leb limit 4, s)

enforce_rounds_example :
    enforce_mandatory_budget short_fits 40 (candidate 1 ∷ candidate 2 ∷ []) 16 fresh
    ≡ enforce_mandatory_budget short_fits 19 (candidate 1 ∷ candidate 2 ∷ []) 16 fresh
enforce_rounds_example =
    enforce_rounds short_fits 19 40 (candidate 1 ∷ candidate 2 ∷ []) 16 fresh (omega arith)
      (omega arith)

enforce-run :
    (enforce_mandatory_budget short_fits 19 (candidate 1 ∷ candidate 2 ∷ []) 16 fresh).0.1
    ≡ (1, codes "run… [refs:1]") ∷ (2, codes "run… [refs:1]") ∷ []
unfolding enforce_mandatory_budget
enforce-run = refl

-- A counter of characters.
abbrev by_length : TokenCounter
by_length n t = some (length t)

by_length-IsExact : IsExact by_length length
by_length-IsExact = record { counts = λ n t. refl; baseline = refl }

abbrev two : List Candidate
two = candidate 1 ∷ candidate 2 ∷ []

-- One of two candidates fits in 40 characters.
prefix_fits : ℕ → Bool
prefix_fits kept = fits_exactly by_length length by_length-IsExact 40 (take kept two) 1

prefix-both : (n : ℕ) → prefix_fits (suc (suc n)) ≡ false
unfolding program prefix_fits
prefix-both zero = refl
prefix-both (suc n) = refl

prefix-antitone : (a b : ℕ) → a ≤ b → prefix_fits b ≡ true → prefix_fits a ≡ true
unfolding program prefix_fits
prefix-antitone zero b h e = refl
prefix-antitone (suc zero) b h e = refl
prefix-antitone (suc (suc a)) zero h e = absurd (omega arith)
prefix-antitone (suc (suc a)) (suc zero) h e = absurd (omega arith)
prefix-antitone (suc (suc a)) (suc (suc b)) h e =
    absurd {A = prefix_fits (suc (suc a)) ≡ true} (cc (prefix-both b, e))

largest_fitting_prefix-IsLast_example :
    last_fitting prefix_fits 2
    ≡ (largest_fitting_prefix (limit_fits (fits by_length 40)) two 1 fresh).0
unfolding prefix_fits
largest_fitting_prefix-IsLast_example =
    largest_fitting_prefix-IsLast by_length length by_length-IsExact 40 1 two fresh refl
      prefix-antitone

last-run : last_fitting prefix_fits 2 ≡ 1
unfolding program prefix_fits
last-run = refl
