-- ===== src/Text/Decimal.antt =====
-- `str` of a number that is not negative.
use project_memory_hub.Common.{ℕ, zero, suc, ◌+◌, ◌/◌, ◌%◌, [], ◌∷◌, ◌++◌, leb, if◌then◌else◌}
use project_memory_hub.Text.{Text}

-- The decimal digits of a number, with a bound on their count.
unfoldable pub digits : ℕ → ℕ → Text
digits zero n = []
digits (suc rounds) n =
    let rest = digits rounds (n / 10) in
    if leb n 9 then (48 + n) ∷ [] else rest ++ (48 + n % 10) ∷ []

abbrev pub decimal : ℕ → Text
decimal n = digits (suc n) n
