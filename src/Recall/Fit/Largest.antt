-- ===== src/Recall/Fit/Largest.antt =====
-- With an exact counter the binary searches find what a linear search finds.
use project_memory_hub.Common.{
  ℕ, zero, suc, ◌+◌, ◌-◌, ◌≤◌, ◌<◌, ◌≡◌, refl, sym, ap, ◌∙◌, ◌⊎◌, inl, inr, Bool, true, false, some,
  List, [], ◌∷◌, ltb, leb, if◌then◌else◌, length, take, arith, Bool-cases,
}
use project_memory_hub.Text.{Text}
use project_memory_hub.Tokens.{TokenCounter}
use project_memory_hub.Recall.{Candidate}
use project_memory_hub.Recall.Counter.{SafeTokenCounter, Counting, count, count_selected}
use project_memory_hub.Recall.Render.{render, mandatory_overrides}
use project_memory_hub.Recall.Fit.{middle, bisect, fits, limit_fits, largest_fitting_prefix}
use project_memory_hub.Recall.Fit.Rounds.{bisect-stop, bisect-up, bisect-down}

-- The greatest number up to `n` that passes, and 0 without one.
unfoldable pub last_fitting : (ℕ → Bool) → ℕ → ℕ
last_fitting p zero = 0
last_fitting p (suc n) = let rest = last_fitting p n in if p (suc n) then suc n else rest

last_fitting_unique :
    (p : ℕ → Bool) (n r : ℕ)
    → r ≤ n
    → (r ≡ 0) ⊎ (p r ≡ true)
    → ((k : ℕ) → r < k → k ≤ n → p k ≡ false)
    → last_fitting p n ≡ r
unfolding last_fitting
last_fitting_unique p zero r below hit above = omega arith
last_fitting_unique p (suc n) r below hit above = elim (Bool-cases (leb (suc n) r)) [
  | inl top ↦
      let e : r ≡ suc n = ground arith in
      elim hit [ inl z ↦ absurd (ground arith) | inr t ↦ ground (arith, e) ]
  | inr lower ↦
      let miss : p (suc n) ≡ false = above (suc n) (ground arith) (omega arith) in
      rw miss (last_fitting_unique p n r (ground arith) hit (λ k h l. above k h (omega arith)))
]

-- The answers are those of `p` as long as the counter is one that `P` holds of.
module _ (test : ℕ → Counting Bool) (P : SafeTokenCounter → Type 0) (p : ℕ → Bool)
    (steady : (k : ℕ) (s : SafeTokenCounter) → P s → ((test k s).0 ≡ p k) × P (test k s).1)
    (antitone : (a b : ℕ) → a ≤ b → p b ≡ true → p a ≡ true) where
  IsLast : ℕ → ℕ → ℕ → Type 0
  IsLast lower upper r =
      (lower ≤ r)
      × (r ≤ upper)
      × ((r ≡ lower) ⊎ (p r ≡ true))
      × ((k : ℕ) → r < k → k ≤ upper → p k ≡ false)

  -- Nothing passes from a miss on.
  beyond :
      (lower upper : ℕ) {r : ℕ}
      → p (middle lower upper) ≡ false
      → ((k : ℕ) → r < k → k ≤ middle lower upper - 1 → p k ≡ false)
      → (k : ℕ) → r < k
      → k ≤ upper
      → p k ≡ false
  beyond lower upper miss above k l m = elim (Bool-cases (ltb k (middle lower upper))) [
    | inl before ↦ above k l (ground arith)
    | inr after ↦ elim (Bool-cases (p k)) [
      | inr f ↦ f
      | inl t ↦ absurd (cc (miss, antitone (middle lower upper) k (ground arith) t))
    ]
  ]

  bisect-IsLast :
      (rounds lower upper : ℕ) (s : SafeTokenCounter)
      → P s
      → lower ≤ upper
      → upper ≤ lower + rounds
      → IsLast lower upper (bisect test rounds lower upper s).0
  unfolding IsLast
  bisect-IsLast zero lower upper s h o e =
      rw (bisect-stop test zero lower upper s (ground arith))
        (omega arith, omega arith, inl refl, λ k l m. absurd (omega arith))
  bisect-IsLast (suc rounds) lower upper s h o e = elim (Bool-cases (ltb lower upper)) [
    | inr stop ↦
        rw (bisect-stop test (suc rounds) lower upper s stop)
          (omega arith, omega arith, inl refl, λ k l m. absurd (ground arith))
    | inl go ↦
        let (answer, kept) = steady (middle lower upper) s h in
        elim (Bool-cases (test (middle lower upper) s).0) [
          | inl up ↦
              let (least, most, hit, above) =
                bisect-IsLast rounds (middle lower upper) upper _ kept (ground arith)
                  (ground arith) in
              rw (bisect-up test rounds lower upper s go up) (
                ground arith,
                most,
                elim hit [ inl m ↦ inr (rw m (sym answer ∙ up)) | inr t ↦ inr t ],
                above,
              )
          | inr down ↦
              let (least, most, hit, above) =
                bisect-IsLast rounds lower (middle lower upper - 1) _ kept (ground arith)
                  (ground arith) in
              rw (bisect-down test rounds lower upper s go down)
                (least, ground arith, hit, beyond lower upper (sym answer ∙ down) above)
        ]
  ]

-- The counter never fails, and counts with `size`.
pub record IsExact (selected : TokenCounter) (size : Text → ℕ) : Type 0 where
  pub counts : (n : ℕ) (t : Text) → selected n t ≡ some (size t)
  pub baseline : size [] ≡ 0

abbrev pub IsSelected : SafeTokenCounter → Type 0
IsSelected s = s.using_fallback ≡ false

module _ (selected : TokenCounter) (size : Text → ℕ) (exact : IsExact selected size) where
  count_selected-exact :
      (text : Text) (s : SafeTokenCounter)
      → IsSelected s
      → ((count_selected selected text s).0 ≡ size text)
        × IsSelected (count_selected selected text s).1
  count_selected-exact [] s h = ground (arith, exact.counts s.calls [], exact.baseline)
  count_selected-exact (c ∷ t) s h =
      ground (arith, exact.counts s.calls [], exact.baseline, exact.counts (s.calls + 1) (c ∷ t))

  pub count-exact :
      (text : Text) (s : SafeTokenCounter)
      → IsSelected s
      → ((count selected text s).0 ≡ size text) × IsSelected (count selected text s).1
  unfolding count
  count-exact text s h =
      let e : count selected text s ≡ count_selected selected text s = rw (h, count) refl in
      rw e (count_selected-exact text s h)

  -- The test of a search, without the counter's state.
  abbrev pub fits_exactly : ℕ → List Candidate → ℕ → Bool
  fits_exactly max_tokens retained limit =
      leb (size (render retained (mandatory_overrides retained limit))) max_tokens

  pub limit_fits-exact :
      (max_tokens : ℕ) (retained : List Candidate) (limit : ℕ) (s : SafeTokenCounter)
      → IsSelected s
      → ((limit_fits (fits selected max_tokens) retained limit s).0
          ≡ fits_exactly max_tokens retained limit)
        × IsSelected (limit_fits (fits selected max_tokens) retained limit s).1
  unfolding limit_fits fits
  limit_fits-exact max_tokens retained limit s h =
      let (e, kept) = count-exact (render retained (mandatory_overrides retained limit)) s h in
      (ap (λ tokens. leb tokens max_tokens) e, kept)

  -- With a counter that never fails and has not been given up, the prefix of the mandatory candidates
  -- that the binary search keeps is the one that a linear search finds, the longest one that fits, if
  -- a prefix fits wherever a longer one does.
  pub largest_fitting_prefix-IsLast :
      (max_tokens limit : ℕ) (mandatory : List Candidate) (s : SafeTokenCounter)
      → IsSelected s
      → ((a b : ℕ)
          → a ≤ b
          → fits_exactly max_tokens (take b mandatory) limit ≡ true
          → fits_exactly max_tokens (take a mandatory) limit ≡ true)
      → last_fitting
          (λ kept. fits_exactly max_tokens (take kept mandatory) limit)
          (length mandatory)
        ≡ (largest_fitting_prefix (limit_fits (fits selected max_tokens)) mandatory limit s).0
  unfolding largest_fitting_prefix IsLast
  largest_fitting_prefix-IsLast max_tokens limit mandatory s h antitone =
      let test = λ (kept : ℕ). limit_fits (fits selected max_tokens) (take kept mandatory) limit in
      let p = λ (kept : ℕ). fits_exactly max_tokens (take kept mandatory) limit in
      let (least, most, hit, above) =
        bisect-IsLast test IsSelected p
          (λ k u i. limit_fits-exact max_tokens (take k mandatory) limit u i) antitone
          (length mandatory) 0 (length mandatory) s h (omega arith) (omega arith) in
      last_fitting_unique p (length mandatory) _ most hit above
