-- ===== src/Tokens.antt =====
-- The token counters of services/tokens.py. A float of the estimate is the rational that it stands
-- for; the rounding to 53 bits of the one operation that is not exact is written out.
use project_memory_hub.Common.{
  ℕ, zero, suc, ◌+◌, ◌-◌, ◌*◌, ◌/◌, ◌%◌, ◌^◌, ◌≡◌, refl, Bool, Option, none, some, List, [], ◌∷◌,
  ◌==◌, ltb, leb, if◌then◌else◌, length, select, find_first,
}
use project_memory_hub.Text.{Text, codes, strip, is_empty}
use project_memory_hub.Text.Equal.{text_eq}
use project_memory_hub.Text.Cjk.{is_cjk}

-- `n.bit_length()`, where `rounds` is not below it.
unfoldable pub bit_length : ℕ → ℕ → ℕ
bit_length zero n = 0
bit_length (suc rounds) n = let rest = bit_length rounds (n / 2) in if n == 0 then 0 else 1 + rest

-- The integer nearest to `n / d`; of two, the even one.
unfoldable pub nearest : ℕ → ℕ → ℕ
nearest n d =
    let q = n / d in
    let twice = 2 * (n % d) in if ltb twice d then q else if ltb d twice then q + 1 else q + q % 2

-- The significand of 53 bits that is nearest to an integer below 2 ^ 256, as an integer again.
unfoldable pub round_to_float : ℕ → ℕ
unfolding bit_length nearest
round_to_float n =
    let bits = bit_length 256 n in
    if leb bits 53 then n else nearest n (2 ^ (bits - 53)) * 2 ^ (bits - 53)

-- `1.10` is this over 2 ^ 52.
abbrev pub one_point_one : ℕ
one_point_one = 4953959590107546

-- `ConservativeTokenCounter.count`. Up to 2 ^ 50 characters a quarter and the sum are exact.
unfoldable pub conservative_count : Text → ℕ
unfolding is_cjk round_to_float
conservative_count text =
    let cjk_characters = length (select is_cjk text) in
    let other_characters = length text - cjk_characters in
    let product = round_to_float ((4 * cjk_characters + other_characters) * one_point_one) in
    (product + 2 ^ 54 - 1) / 2 ^ 54

-- What the n-th call of a counter's `count` gives: a count, or nothing where it raises or returns
-- anything but an integer that is not negative.
abbrev pub TokenCounter : Type 0
TokenCounter = ℕ → Text → Option ℕ

abbrev pub conservative : TokenCounter
conservative n text = some (conservative_count text)

pub record TokenCounterRegistry : Type 0 where
  pub exact_counters : List (Text × TokenCounter)
  pub fallback : TokenCounter

abbrev pub is_blank : Text → Bool
is_blank model_id = is_empty (strip model_id)

abbrev pub usable : List (Text × Option TokenCounter) → List (Text × TokenCounter)
usable [] = []
usable ((model_id, none) ∷ rest) = usable rest
usable ((model_id, some counter) ∷ rest) =
    if is_blank model_id then usable rest else (model_id, counter) ∷ usable rest

abbrev pub get_or {ℓ} : {A : Type ℓ} → A → Option A → A
get_or d none = d
get_or d (some a) = a

abbrev pub second {ℓ} : {A : Type ℓ} → Option (Text × A) → Option A
second none = none
second (some (k, a)) = some a

-- The constructor: entries without an id or a counter are left out.
unfoldable pub token_counter_registry :
    List (Text × Option TokenCounter) → Option TokenCounter → TokenCounterRegistry
unfolding strip
token_counter_registry exact_counters fallback = record {
  exact_counters = usable exact_counters;
  fallback = get_or conservative fallback;
}

unfoldable pub for_model : TokenCounterRegistry → Text → TokenCounter
unfolding strip
for_model registry model_id =
    if is_blank model_id
    then registry.fallback
    else get_or registry.fallback
        (second (find_first (λ entry. text_eq entry.0 model_id) registry.exact_counters))

count_example : conservative_count (codes "日本 pytest") ≡ 5
unfolding conservative_count
count_example = refl

forty_characters : conservative_count (codes "aaaaaaaaaaaaaaaaaaaaaaaaaaaaaaaaaaaaaaaa") ≡ 11
unfolding conservative_count
forty_characters = refl
