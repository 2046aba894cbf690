-- ===== src/Recall/Render.antt =====
-- The text of a brief: `_render`, `_render_order`, `_shortened_content` and `_mandatory_overrides` of
-- services/recall.py.
use project_memory_hub.Common.{
  ℕ, List, [], ◌∷◌, ◌++◌, ◌==◌, ltb, if◌then◌else◌, length, take, select, map,
}
use project_memory_hub.Common.Order.{StrictOrder, nat_order, pair_order}
use project_memory_hub.Common.Order.Sort.{sort}
use project_memory_hub.Text.{Text, codes, rstrip}
use project_memory_hub.Text.Uuid.{join}
use project_memory_hub.Text.Decimal.{decimal, digits}
use project_memory_hub.Domain.{Uuid}
use project_memory_hub.Recall.{Candidate, Section, section_index, section_order, section_title}
use project_memory_hub.Recall.Rank.{RankingKey, ranking_key, ranking_order}

-- A dictionary, with the entries in the order in which they are written: the last one counts.
abbrev pub Overrides : Type 0
Overrides = List (Uuid × Text)

-- `overrides.get(record_id, content)`.
unfoldable pub override : Overrides → Uuid → Text → Text
override [] record_id content = content
override ((other, text) ∷ rest) record_id content =
    override rest record_id (if other == record_id then text else content)

abbrev pub reference_mark : ℕ → Text
reference_mark references = codes " [refs:" ++ decimal references ++ codes "]"

unfoldable pub shortened_content : Text → ℕ → ℕ → Text
unfolding rstrip digits
shortened_content content character_limit references =
    if ltb character_limit (length content)
    then rstrip (take character_limit content) ++ codes "…" ++ reference_mark references
    else content ++ reference_mark references

unfoldable pub mandatory_overrides : List Candidate → ℕ → Overrides
unfolding shortened_content
mandatory_overrides retained character_limit =
    map
      (λ candidate. (
        candidate.record_id,
        shortened_content candidate.content character_limit candidate.reference_count,
      ))
      retained

abbrev pub render_rank : StrictOrder (ℕ × RankingKey)
render_rank = pair_order nat_order ranking_order

abbrev pub render_key : Candidate → ℕ × RankingKey
render_key candidate = (section_index candidate.section, ranking_key candidate)

unfoldable pub render_order : List Candidate → List Candidate
unfolding sort
render_order candidates = sort render_rank render_key candidates

abbrev pub newline : Text
newline = 10 ∷ []

-- The lines of a section, where it has rows.
unfoldable pub render_section : Overrides → Section → List Candidate → List Text
unfolding override join
render_section overrides section [] = []
render_section overrides section (row ∷ rows) =
    join newline (
      section_title section
      ∷ map (λ candidate. codes "- " ++ override overrides candidate.record_id candidate.content)
          (row ∷ rows))
    ∷ []

unfoldable pub render_sections : Overrides → List Candidate → List Section → List Text
unfolding render_section
render_sections overrides ordered [] = []
render_sections overrides ordered (section ∷ rest) =
    render_section overrides section
      (select (λ candidate. section_index candidate.section == section_index section) ordered)
    ++ render_sections overrides ordered rest

unfoldable pub render : List Candidate → Overrides → Text
unfolding render_order render_sections join
render candidates overrides =
    join (newline ++ newline) (render_sections overrides (render_order candidates) section_order)
