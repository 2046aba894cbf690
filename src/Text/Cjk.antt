-- ===== src/Text/Cjk.antt =====
-- The ranges of East Asian characters: `_is_cjk` of services/tokens.py, and the second class of
-- `_TOKEN` of storage/memories.py.
use project_memory_hub.Common.{ℕ, Bool, List, [], ◌∷◌, any}
use project_memory_hub.Text.{within}

abbrev pub cjk_ranges : List (ℕ × ℕ)
cjk_ranges =
    (0x1100, 0x11FF)
    ∷ (0x3040, 0x30FF)
    ∷ (0x3130, 0x318F)
    ∷ (0x31F0, 0x31FF)
    ∷ (0x3400, 0x4DBF)
    ∷ (0x4E00, 0x9FFF)
    ∷ (0xA960, 0xA97F)
    ∷ (0xAC00, 0xD7AF)
    ∷ (0xD7B0, 0xD7FF)
    ∷ (0xF900, 0xFAFF)
    ∷ (0xFF65, 0xFF9F)
    ∷ (0x1AFF0, 0x1AFFF)
    ∷ (0x1B000, 0x1B0FF)
    ∷ (0x1B100, 0x1B12F)
    ∷ (0x1B130, 0x1B16F)
    ∷ (0x20000, 0x2A6DF)
    ∷ (0x2A700, 0x2B73F)
    ∷ (0x2B740, 0x2B81F)
    ∷ (0x2B820, 0x2CEAF)
    ∷ (0x2CEB0, 0x2EBEF)
    ∷ (0x2EBF0, 0x2EE5F)
    ∷ (0x2F800, 0x2FA1F)
    ∷ (0x30000, 0x3134F)
    ∷ (0x31350, 0x323AF)
    ∷ []

unfoldable pub is_cjk : ℕ → Bool
is_cjk codepoint = any (λ r. within r.0 r.1 codepoint) cjk_ranges
