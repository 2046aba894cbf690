-- ===== src/Text/Terms.antt =====
-- The terms of a query: `_tokens` of storage/memories.py, and `str.count`.
use project_memory_hub.Common.{
  ℕ, zero, suc, ◌+◌, ◌-◌, ◌≡◌, refl, Bool, true, false, not, ◌&&◌, ◌||◌, List, [], ◌∷◌, ◌++◌, ◌==◌,
  if◌then◌else◌, length, map, select,
}
use project_memory_hub.Text.{Text, within, codes}
use project_memory_hub.Text.Equal.{text_eq}
use project_memory_hub.Text.Cjk.{is_cjk}

-- The two classes of `_TOKEN`, and what is in neither.
pub data CharClass : Type 0 where
  blank word cjk : CharClass

unfoldable pub char_class : ℕ → CharClass
unfolding is_cjk
char_class c =
    if within b'A' b'Z' c || within b'a' b'z' c || within b'0' b'9' c || c == b'_'
    then word
    else if is_cjk c
    then cjk
    else blank

abbrev pub same_class : CharClass → CharClass → Bool
same_class blank blank = true
same_class word word = true
same_class cjk cjk = true
same_class _ _ = false

abbrev pub emit : CharClass → Text → List Text → List Text
emit blank run rest = rest
emit _ run rest = run ∷ rest

-- `_TOKEN.findall(query)`: the maximal runs of one class, `run` being the one that is read.
unfoldable pub find_all : CharClass → Text → Text → List Text
unfolding char_class
find_all k run [] = emit k run []
find_all k run (c ∷ t) = elim (same_class k (char_class c)) [
  | true ↦ find_all k (run ++ c ∷ []) t
  | false ↦ emit k run (find_all (char_class c) (c ∷ []) t)
]

-- `tuple(dict.fromkeys(values))`: the first of each.
unfoldable pub from_keys : List Text → List Text
from_keys [] = []
from_keys (x ∷ xs) = x ∷ select (λ y. not (text_eq x y)) (from_keys xs)

-- `_tokens`; `str.casefold`, a table of Unicode, is a parameter.
unfoldable pub tokens : (Text → Text) → Text → List Text
unfolding find_all from_keys
tokens casefold query = from_keys (map casefold (find_all blank [] query))

abbrev pub starts_with : Text → Text → Bool
starts_with [] t = true
starts_with (x ∷ xs) [] = false
starts_with (x ∷ xs) (y ∷ ys) = x == y && starts_with xs ys

-- `text.count(term)` of a term that is not empty: the occurrences that do not overlap, from the
-- left; `skip` characters belong to the one before.
unfoldable pub count_from : Text → ℕ → Text → ℕ
count_from term skip [] = 0
count_from term (suc skip) (c ∷ t) = count_from term skip t
count_from term zero (c ∷ t) =
    let found = starts_with term (c ∷ t) in
    let rest = count_from term (if found then length term - 1 else 0) t in
    if found then 1 + rest else rest

tokens_example :
    tokens (λ t. t) (codes "run pytest, 日本 run-1")
    ≡ codes "run" ∷ codes "pytest" ∷ codes "日本" ∷ codes "1" ∷ []
unfolding tokens text_eq
tokens_example = refl

count_example : count_from (codes "aa") 0 (codes "aaaxaa") ≡ 2
unfolding count_from
count_example = refl
