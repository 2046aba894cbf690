-- ===== src/Common/Order/Defs.antt =====
-- A strict total order as a Boolean test with its laws.
use project_memory_hub.Common.{◌≡◌, Bool, true, false, Bool-cases, inl, inr}

pub record StrictOrder (K : Type 0) : Type 0 where
  pub lt : K → K → Bool
  pub irrefl : (a : K) → lt a a ≡ false
  pub trans : (a b c : K) → lt a b ≡ true → lt b c ≡ true → lt a c ≡ true
  pub tri : (a b : K) → lt a b ≡ false → lt b a ≡ false → a ≡ b

module _ {K : Type 0} (o : StrictOrder K) where
  pub asym : (a b : K) → o.lt a b ≡ true → o.lt b a ≡ false
  asym a b h = elim (Bool-cases (o.lt b a)) [
    | inl t ↦ cc (o.irrefl a, o.trans a b a h t)
    | inr f ↦ f
  ]

  -- `a ≤ b < c` gives `a < c`.
  pub le_lt : (a b c : K) → o.lt b a ≡ false → o.lt b c ≡ true → o.lt a c ≡ true
  le_lt a b c h k = elim (Bool-cases (o.lt a b)) [
    | inl t ↦ o.trans a b c t k
    | inr f ↦ cc (o.tri a b f h)
  ]

  pub lt_le : (a b c : K) → o.lt a b ≡ true → o.lt c b ≡ false → o.lt a c ≡ true
  lt_le a b c h k = elim (Bool-cases (o.lt b c)) [
    | inl t ↦ o.trans a b c h t
    | inr f ↦ cc (o.tri b c f k)
  ]

  pub le_trans : (a b c : K) → o.lt b a ≡ false → o.lt c b ≡ false → o.lt c a ≡ false
  le_trans a b c h k = elim (Bool-cases (o.lt c a)) [ inl t ↦ cc (lt_le c a b t h) | inr f ↦ f ]
