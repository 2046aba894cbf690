-- ===== src/Recall/Rank.antt =====
-- `_ranking_key`, `_deduplicate` and the merge of two candidates, of services/recall.py.
use project_memory_hub.Common.{ℕ, ◌+◌, Bool, not, List, [], ◌∷◌, if◌then◌else◌, map}
use project_memory_hub.Common.Order.{StrictOrder, nat_order, bool_order, dual, pair_order}
use project_memory_hub.Common.Order.Sort.{sort, least}
use project_memory_hub.Text.{Text}
use project_memory_hub.Text.Equal.{text_eq}
use project_memory_hub.Recall.Terms.{line}
use project_memory_hub.Recall.{section_index, Candidate}

-- `_ranking_key`: the numbers descending, then the id.
abbrev pub RankingKey : Type 0
RankingKey = ℕ × (ℕ × (ℕ × (ℕ × (ℕ × ℕ))))

abbrev pub ranking_order : StrictOrder RankingKey
ranking_order = pair_order (dual nat_order) (
    pair_order (dual nat_order) (
      pair_order (dual nat_order)
        (pair_order (dual nat_order) (pair_order (dual nat_order) nat_order))))

abbrev pub ranking_key : Candidate → RankingKey
ranking_key candidate = (
  candidate.path_command_match,
  (
    candidate.overlap,
    (
      candidate.evidence_strength,
      (candidate.observed_at, (candidate.confidence, candidate.record_id)),
    ),
  ),
)

-- `_representative_key`.
abbrev pub representative_order : StrictOrder (Bool × (RankingKey × ℕ))
representative_order = pair_order bool_order (pair_order ranking_order nat_order)

abbrev pub representative_key : Candidate → Bool × (RankingKey × ℕ)
representative_key candidate =
    (not candidate.mandatory, (ranking_key candidate, section_index candidate.section))

-- The candidate that stands for two with the same content.
unfoldable pub merge_candidates : Candidate → Candidate → Candidate
unfolding least
merge_candidates existing candidate =
    record (least representative_order representative_key existing (candidate ∷ [])) {
      reference_count = existing.reference_count + candidate.reference_count;
    }

-- The entry of a dictionary with the key is replaced in its place; a new one goes to the end.
unfoldable pub add_candidate : Text → Candidate → List (Text × Candidate) → List (Text × Candidate)
unfolding merge_candidates text_eq
add_candidate key candidate [] = (key, candidate) ∷ []
add_candidate key candidate ((other, existing) ∷ rest) =
    if text_eq key other
    then (other, merge_candidates existing candidate) ∷ rest
    else (other, existing) ∷ add_candidate key candidate rest

module _ (casefold : Text → Text) where
  abbrev pub content_key : Candidate → Text
  content_key candidate = casefold (line candidate.content)

  unfoldable pub group_candidates :
      List Candidate → List (Text × Candidate) → List (Text × Candidate)
  unfolding add_candidate
  group_candidates [] deduplicated = deduplicated
  group_candidates (candidate ∷ rest) deduplicated =
      group_candidates rest (add_candidate (content_key candidate) candidate deduplicated)

  unfoldable pub deduplicate : List Candidate → List Candidate
  unfolding group_candidates sort
  deduplicate candidates =
      sort ranking_order ranking_key (map (λ entry. entry.1) (group_candidates candidates []))
