-- ===== src/Checkpoints/Json.antt =====
-- `_canonical_json` of storage/checkpoints.py on a cursor, and the comparison of checkpoints.
use project_memory_hub.Common.{
  ℕ, suc, ◌≡◌, refl, Bool, true, false, ◌&&◌, Option, none, some, [], ◌∷◌, ◌++◌, ◌==◌, ltb,
  if◌then◌else◌, map, find_first,
}
use project_memory_hub.Common.Order.{text_order}
use project_memory_hub.Common.Order.Sort.{sort}
use project_memory_hub.Common.Exec.{Result}
use project_memory_hub.Text.{Text, codes}
use project_memory_hub.Text.Equal.{text_eq}
use project_memory_hub.Text.Uuid.{hex_digits, join}
use project_memory_hub.Domain.{SourceAgent, agent_rank}
use project_memory_hub.Memories.Prepare.{hexdigest}
use project_memory_hub.Memories.Compact.{agent_text}
use project_memory_hub.Text.Decimal.{decimal, digits}
use project_memory_hub.Checkpoints.{Scalar, text, natural, negative, Cursor, AdapterCheckpoint}

-- A character in a JSON string, with `ensure_ascii=False`.
unfoldable pub escape : ℕ → Text
escape c =
    if c == 0x22
    then codes "\\\""
    else if c == 0x5c
    then codes "\\\\"
    else if c == 0x0a
    then codes "\\n"
    else if c == 0x0d
    then codes "\\r"
    else if c == 0x09
    then codes "\\t"
    else if c == 0x0c
    then codes "\\f"
    else if c == 0x08
    then codes "\\b"
    else if ltb c 0x20
    then codes "\\u00" ++ hex_digits 2 c
    else c ∷ []

abbrev pub escape_all : Text → Text
escape_all [] = []
escape_all (c ∷ t) = escape c ++ escape_all t

abbrev pub quoted : Text → Text
quoted t = 0x22 ∷ escape_all t ++ 0x22 ∷ []

unfoldable pub scalar_json : Scalar → Text
unfolding escape
scalar_json (text t) = quoted t
scalar_json (natural n) = decimal n
scalar_json (negative n) = b'-' ∷ decimal (suc n)

-- `sort_keys=True, separators=(",", ":")`.
unfoldable pub canonical_json : Cursor → Text
unfolding escape sort scalar_json
canonical_json cursor =
    codes "{"
    ++ join (codes ",") (
        map (λ entry. quoted entry.0 ++ b':' ∷ scalar_json entry.1)
          (sort text_order (λ entry. entry.0) cursor))
    ++ codes "}"

-- `checkpoint.cursor.get(key, "")`.
abbrev pub cursor_get : Text → Cursor → Scalar
cursor_get key cursor = elim (find_first (λ entry. text_eq entry.0 key) cursor) [
  | none ↦ text []
  | some entry ↦ entry.1
]

-- `_checkpoint_source_hash`.
unfoldable pub checkpoint_source_hash :
    (Text → Text) → SourceAgent → Text → AdapterCheckpoint → Result Text
checkpoint_source_hash sha256 adapter scope checkpoint = hexdigest sha256 (
    canonical_json (
      (codes "adapter", text (agent_text adapter))
      ∷ (codes "device", cursor_get (codes "device") checkpoint.cursor)
      ∷ (codes "inode", cursor_get (codes "inode") checkpoint.cursor)
      ∷ (codes "scope", text scope)
      ∷ []))

-- `_checkpoints_match`.
unfoldable pub checkpoints_match : Option AdapterCheckpoint → Option AdapterCheckpoint → Bool
checkpoints_match none none = true
checkpoints_match none (some expected) = false
checkpoints_match (some current) none = false
checkpoints_match (some current) (some expected) =
    agent_rank current.adapter == agent_rank expected.adapter
    && text_eq current.scope expected.scope
    && text_eq current.parser_version expected.parser_version
    && text_eq (canonical_json current.cursor) (canonical_json expected.cursor)

canonical_json_example :
    canonical_json ((codes "b", negative 4) ∷ (codes "a\n", text (codes "x\"y")) ∷ [])
    ≡ codes "{\"a\\n\":\"x\\\"y\",\"b\":-5}"
unfolding canonical_json join digits
canonical_json_example = refl
