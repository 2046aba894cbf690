-- ===== src/Recall/Counter.antt =====
-- `_SafeTokenCounter` of services/recall.py: a counter that falls back to the conservative estimate,
-- once and for all, when the selected one fails. It is a state, which the computations pass on.
use project_memory_hub.Common.{
  ℕ, zero, suc, ◌+◌, Bool, true, false, Option, none, some, [], ◌∷◌, if◌then◌else◌,
}
use project_memory_hub.Text.{Text}
use project_memory_hub.Tokens.{TokenCounter, conservative_count}

-- `calls` numbers the calls of the selected counter.
pub record SafeTokenCounter : Type 0 where
  pub calls : ℕ
  pub using_fallback : Bool

abbrev pub fresh : SafeTokenCounter
fresh = record { calls = 0; using_fallback = false }

abbrev pub Counting : Type 0 → Type 0
Counting A = SafeTokenCounter → A × SafeTokenCounter

module _ {A B : Type 0} where
  infixl 10 ◌>>=◌
  abbrev pub ◌>>=◌ : Counting A → (A → Counting B) → Counting B
  ◌>>=◌ m f s = f (m s).0 (m s).1

abbrev pub give : {A : Type 0} → A → Counting A
give a s = (a, s)

-- The estimate, from now on.
abbrev pub fall_back : Text → Counting ℕ
fall_back text s = (conservative_count text, record s { using_fallback = true })

module _ (selected : TokenCounter) where
  abbrev pub ask : Text → Counting (Option ℕ)
  ask text s = (selected s.calls text, record s { calls = s.calls + 1 })

  abbrev pub check_answer : Text → Option ℕ → Counting ℕ
  check_answer text none = fall_back text
  check_answer text (some result) = give result

  -- The baseline is the count of the empty text, and has to be 0.
  abbrev pub check_baseline : Text → Option ℕ → Counting ℕ
  check_baseline text none = fall_back text
  check_baseline text (some (suc n)) = fall_back text
  check_baseline [] (some zero) = give 0
  check_baseline (c ∷ t) (some zero) = do answer ← ask (c ∷ t); check_answer (c ∷ t) answer

  abbrev pub count_selected : Text → Counting ℕ
  count_selected text = do baseline ← ask []; check_baseline text baseline

  unfoldable pub count : Text → Counting ℕ
  unfolding conservative_count
  count text s = if s.using_fallback then (conservative_count text, s) else count_selected text s
