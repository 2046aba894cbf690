-- ===== src/Text/Uuid.antt =====
-- `str(uuid).lower()`: the 32 hexadecimal digits of the number, in groups of 8, 4, 4, 4 and 12; and
-- `str.join`.
use project_memory_hub.Common.{
  ℕ, zero, suc, ◌+◌, ◌/◌, ◌%◌, ◌^◌, ◌≡◌, refl, List, [], ◌∷◌, ◌++◌, ltb, if◌then◌else◌,
}
use project_memory_hub.Text.{Text, codes}

unfoldable pub hex_digit : ℕ → ℕ
hex_digit d = if ltb d 10 then b'0' + d else 87 + d

-- The lowest `k` digits, the highest of them first.
unfoldable pub hex_digits : ℕ → ℕ → Text
unfolding hex_digit
hex_digits zero n = []
hex_digits (suc k) n = hex_digit (n / 16 ^ k % 16) ∷ hex_digits k n

unfoldable pub uuid_text : ℕ → Text
unfolding hex_digits
uuid_text n =
    hex_digits 8 (n / 16 ^ 24)
    ++ b'-' ∷ hex_digits 4 (n / 16 ^ 20)
    ++ b'-' ∷ hex_digits 4 (n / 16 ^ 16)
    ++ b'-' ∷ hex_digits 4 (n / 16 ^ 12)
    ++ b'-' ∷ hex_digits 12 n

unfoldable pub join : Text → List Text → Text
join sep [] = []
join sep (x ∷ []) = x
join sep (x ∷ y ∷ ys) = x ++ sep ++ join sep (y ∷ ys)

uuid_example :
    uuid_text 0x0123456789abcdef0123456789abcdef ≡ codes "01234567-89ab-cdef-0123-456789abcdef"
unfolding uuid_text
uuid_example = refl
