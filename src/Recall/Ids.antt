-- ===== src/Recall/Ids.antt =====
-- Merging and ordering the candidates of a brief makes up no id and no content.
use project_memory_hub.Common.{
  ◌≡◌, refl, ◌⊎◌, inl, inr, List, [], ◌∷◌, In, All, All-In, Bool-cases, subst, sym, ap, In-map,
}
use project_memory_hub.Common.Order.Sort.{In-sort, least-In}
use project_memory_hub.Text.{Text}
use project_memory_hub.Text.Equal.{text_eq}
use project_memory_hub.Domain.{Uuid, FactRecord, BehaviorMemoryRecord}
use project_memory_hub.Recall.Terms.{line}
use project_memory_hub.Recall.{Candidate, fact_candidate, memory_candidate}
use project_memory_hub.Recall.Rank.{
  merge_candidates, add_candidate, group_candidates, deduplicate, content_key, ranking_order,
  ranking_key, representative_order, representative_key,
}

-- The id of a candidate and its content.
abbrev pub naming : Candidate → Uuid × Text
naming c = (c.record_id, c.content)

pub fact_candidate-naming :
    (casefold : Text → Text) (fact : FactRecord) (task_terms : List Text)
    → naming (fact_candidate casefold fact task_terms)
      ≡ (fact.fact_id, line fact.normalized_content)
unfolding fact_candidate
fact_candidate-naming casefold fact task_terms = refl

pub memory_candidate-naming :
    (casefold : Text → Text) (memory : BehaviorMemoryRecord) (task_terms : List Text)
    → naming (memory_candidate casefold memory task_terms)
      ≡ (memory.memory_id, line memory.normalized_content)
unfolding memory_candidate
memory_candidate-naming casefold memory task_terms = refl

merge_candidates-naming :
    (existing candidate : Candidate)
    → (naming (merge_candidates existing candidate) ≡ naming existing)
      ⊎ (naming (merge_candidates existing candidate) ≡ naming candidate)
unfolding merge_candidates
merge_candidates-naming existing candidate =
    elim (least-In representative_order representative_key existing (candidate ∷ [])) [
      | inl e ↦ inl (ap naming e)
      | inr (inl e) ↦ inr (ap naming e)
      | inr (inr gone) ↦ absurd gone
    ]

-- A property of ids and contents that the candidates have is one of those that are left without repetitions.
module _ (P : Uuid × Text → Type 0) where
  abbrev HasNamings : List (Text × Candidate) → Type 0
  HasNamings = All (λ e. P (naming e.1))

  merge_candidates-HasNamings :
      (existing candidate : Candidate)
      → P (naming existing)
      → P (naming candidate)
      → P (naming (merge_candidates existing candidate))
  merge_candidates-HasNamings existing candidate h k =
      elim (merge_candidates-naming existing candidate) [
        | inl e ↦ subst P (sym e) h
        | inr e ↦ subst P (sym e) k
      ]

  add_candidate-HasNamings :
      (key : Text) (candidate : Candidate) (entries : List (Text × Candidate))
      → P (naming candidate)
      → HasNamings entries
      → HasNamings (add_candidate key candidate entries)
  unfolding add_candidate
  add_candidate-HasNamings key candidate [] h k = (h, tt)
  add_candidate-HasNamings key candidate ((other, existing) ∷ rest) h k =
      elim (Bool-cases (text_eq key other)) [
        | inl t ↦ rw t (merge_candidates-HasNamings existing candidate k.0 h, k.1)
        | inr f ↦ rw f (k.0, add_candidate-HasNamings key candidate rest h k.1)
      ]

  group_candidates-HasNamings :
      (casefold : Text → Text) (candidates : List Candidate) (entries : List (Text × Candidate))
      → All (λ c. P (naming c)) candidates
      → HasNamings entries
      → HasNamings (group_candidates casefold candidates entries)
  unfolding group_candidates
  group_candidates-HasNamings casefold [] entries h k = k
  group_candidates-HasNamings casefold (candidate ∷ rest) entries h k =
      group_candidates-HasNamings casefold rest _ h.1
        (add_candidate-HasNamings (content_key casefold candidate) candidate entries h.0 k)

  pub deduplicate-HasNamings :
      (casefold : Text → Text) (candidates : List Candidate) (c : Candidate)
      → All (λ d. P (naming d)) candidates
      → In c (deduplicate casefold candidates)
      → P (naming c)
  unfolding deduplicate
  deduplicate-HasNamings casefold candidates c h m =
      let entries = group_candidates casefold candidates [] in
      let (e, place, same) =
        In-map (λ (x : Text × Candidate). x.1) entries c
          (In-sort ranking_order ranking_key _ c m) in
      rw same (
        All-In (λ (x : Text × Candidate). P (naming x.1)) entries e
          (group_candidates-HasNamings casefold candidates [] h tt) place)
