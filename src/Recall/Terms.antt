-- ===== src/Recall/Terms.antt =====
-- The terms of a task and of a content: `_line`, `_terms`, `_is_path_term` and `_relevance` of
-- services/recall.py.
use project_memory_hub.Common.{
  ℕ, ◌≡◌, refl, Bool, true, false, ◌||◌, List, [], ◌∷◌, ◌++◌, ◌==◌, if◌then◌else◌, length, map,
  select, any,
}
use project_memory_hub.Text.{Text, codes, within, is_space, is_empty, strip}
use project_memory_hub.Text.Equal.{text_eq}
use project_memory_hub.Text.Terms.{from_keys, starts_with}

-- `_SPACE.sub(" ", text)`; `in_run` where the character before was white space.
unfoldable pub collapse : Bool → Text → Text
unfolding is_space
collapse in_run [] = []
collapse in_run (c ∷ t) = elim (is_space c) [
  | true ↦ let rest = collapse true t in if in_run then rest else b' ' ∷ rest
  | false ↦ c ∷ collapse false t
]

unfoldable pub line : Text → Text
unfolding collapse strip
line text = strip (collapse false text)

-- The first class of `_LOCAL_TERM`. Without case it takes four letters outside ASCII as well.
abbrev pub is_term : ℕ → Bool
is_term c =
    within b'A' b'Z' c
    || within b'a' b'z' c
    || within b'0' b'9' c
    || c == b'_'
    || c == b'.'
    || c == b'/'
    || c == b':'
    || c == b'\\'
    || c == b'-'
    || c == 0x130
    || c == 0x131
    || c == 0x17f
    || c == 0x212a

-- Its second class, of which each character is a term.
abbrev pub is_ideograph : ℕ → Bool
is_ideograph c =
    within 0x3040 0x30ff c
    || within 0x3400 0x4dbf c
    || within 0x4e00 0x9fff c
    || within 0xac00 0xd7af c

abbrev end_run : Text → List Text → List Text
end_run run rest = if is_empty run then rest else run ∷ rest

-- `_LOCAL_TERM.findall(text)`, `run` being the term that is read.
unfoldable pub local_terms : Text → Text → List Text
local_terms run [] = end_run run []
local_terms run (c ∷ t) = elim (is_term c) [
  | true ↦ local_terms (run ++ c ∷ []) t
  | false ↦
      let rest = local_terms [] t in end_run run (if is_ideograph c then (c ∷ []) ∷ rest else rest)
]

-- `_COMMAND_TERMS`.
abbrev pub command_terms : List Text
command_terms = map codes (
    "build" ∷ "cargo" ∷ "check" ∷ "git" ∷ "lint" ∷ "npm" ∷ "pnpm" ∷ "pytest" ∷ "run" ∷ "test" ∷ "uv"
    ∷ [])

abbrev pub is_path_term : Text → Bool
is_path_term term =
    any (λ c. c == b'/') term
    || any (λ c. c == b'\\') term
    || starts_with (b'.' ∷ []) term
    || any (λ c. c == b'.') term

-- The set of terms, as a list without repetitions.
unfoldable pub terms : (Text → Text) → Text → List Text
unfolding local_terms from_keys
terms casefold text = from_keys (map casefold (local_terms [] text))

-- How many terms the content shares with the task, and whether one of them is a path or a command.
unfoldable pub relevance : (Text → Text) → Text → List Text → ℕ × ℕ
unfolding terms
relevance casefold content task_terms =
    let content_terms = terms casefold content in
    let matching = select (λ term. any (text_eq term) content_terms) task_terms in
    (
      length matching,
      if any (λ term. is_path_term term || any (text_eq term) command_terms) matching then 1 else 0,
    )

line_example : line (codes " a \n b  ") ≡ codes "a b"
unfolding line
line_example = refl

terms_example :
    terms (λ t. t) (codes "run src/a.py 日本") ≡ map codes ("run" ∷ "src/a.py" ∷ "日" ∷ "本" ∷ [])
unfolding terms text_eq
terms_example = refl
