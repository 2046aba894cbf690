-- ===== src/Facts/Search.antt =====
-- `FactRepository.search` of storage/facts.py. The full-text index is SQLite's, and a parameter.
pub mod Laws
use project_memory_hub.Common.{
  ℕ, Bool, true, false, not, ◌&&◌, ◌||◌, Option, none, some, List, [], ◌∷◌, ◌++◌, ◌==◌, leb, map,
  select, take, if◌then◌else◌,
}
use project_memory_hub.Common.Order.{StrictOrder, nat_order, pair_order}
use project_memory_hub.Common.Order.Sort.{sort}
use project_memory_hub.Common.Exec.{Result, ok, guard, then_pure, value_error}
use project_memory_hub.Text.{Text, within, is_empty}
use project_memory_hub.Text.Terms.{from_keys}
use project_memory_hub.Domain.{Uuid, FactRecord}
use project_memory_hub.Database.{Db, FactRow}
use project_memory_hub.Facts.Rows.{is_current, is_none, latest, latest_order}

-- The rank that SQLite's `bm25` gives a row which matches all of the terms, as its position.
abbrev pub Bm25 : Type 0
Bm25 = List FactRow → List Text → FactRow → Option ℕ

abbrev pub is_word : ℕ → Bool
is_word c = within b'A' b'Z' c || within b'a' b'z' c || within b'0' b'9' c || c == b'_'

abbrev pub end_word : Text → List Text → List Text
end_word run rest = if is_empty run then rest else run ∷ rest

-- `_TOKEN.findall(query)`, `run` being the word that is read.
unfoldable pub words : Text → Text → List Text
words run [] = end_word run []
words run (c ∷ t) = elim (is_word c) [
  | true ↦ words (run ++ c ∷ []) t
  | false ↦ end_word run (words [] t)
]

abbrev pub rank_or : Option ℕ → ℕ
rank_or none = 0
rank_or (some rank) = rank

abbrev pub matched_order : StrictOrder (ℕ × (ℕ × ℕ))
matched_order = pair_order nat_order latest_order

-- The rows of the project that are current.
unfoldable pub current_rows : Uuid → Db → List FactRow
current_rows project_id db = select (λ row. row.project_id == project_id && is_current row) db.facts

module _ (casefold : Text → Text) (bm25 : Bm25) where
  -- The rows in the order of the query, with terms and without.
  unfoldable pub found_rows : Uuid → List Text → Db → List FactRow
  unfolding current_rows sort
  found_rows project_id [] db = sort latest_order latest (current_rows project_id db)
  found_rows project_id (term ∷ terms) db =
      let rank = bm25 db.facts (term ∷ terms) in
      sort matched_order (λ row. (rank_or (rank row), latest row))
        (select (λ row. not (is_none (rank row))) (current_rows project_id db))

  unfoldable pub search : Uuid → Text → ℕ → Db → Result (List FactRecord)
  unfolding words from_keys found_rows
  search project_id query limit db =
      then_pure (guard (leb 1 limit && leb limit 100) value_error) λ _. ok (
        map (λ row. row.fact)
          (take limit (found_rows project_id (from_keys (map casefold (words [] query))) db)))
