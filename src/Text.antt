-- ===== src/Text.antt =====
-- Python's `str` as the list of its code points, and the operations of it that the program uses.

pub mod Equal
pub mod Cjk
pub mod Terms
pub mod Uuid
pub mod Utf8
pub mod Decimal
pub mod Strip
use Prim.Native.Char.{code}
use Prim.Native.String.{String}
use project_memory_hub.Common.{
  ℕ, Bool, true, false, ◌||◌, ◌&&◌, List, [], ◌∷◌, ◌==◌, leb, if◌then◌else◌, ◌≡◌, refl,
}

abbrev pub Text : Type 0
Text = List ℕ

-- The code points of a literal.
abbrev pub codes : String → Text
codes String.[] = []
codes (String.◌∷◌ c s) = code c ∷ codes s

abbrev pub within : ℕ → ℕ → ℕ → Bool
within lo hi c = leb lo c && leb c hi

-- `str.isspace` of one character, the class that `strip`, `split` and `\s` use.
unfoldable pub is_space : ℕ → Bool
is_space c =
    within 0x09 0x0d c
    || within 0x1c 0x20 c
    || c == 0x85
    || c == 0xa0
    || c == 0x1680
    || within 0x2000 0x200a c
    || within 0x2028 0x2029 c
    || c == 0x202f
    || c == 0x205f
    || c == 0x3000

-- `str.lstrip()`.
unfoldable pub lstrip : Text → Text
unfolding is_space
lstrip [] = []
lstrip (c ∷ t) = if is_space c then lstrip t else c ∷ t

abbrev pub is_empty : Text → Bool
is_empty [] = true
is_empty (c ∷ t) = false

-- `str.rstrip()`.
unfoldable pub rstrip : Text → Text
unfolding is_space
rstrip [] = []
rstrip (c ∷ t) = let rest = rstrip t in if is_empty rest && is_space c then [] else c ∷ rest

-- `str.strip()`.
unfoldable pub strip : Text → Text
unfolding lstrip rstrip
strip t = rstrip (lstrip t)

strip_example : strip (codes "  a b ") ≡ codes "a b"
unfolding strip
strip_example = refl
