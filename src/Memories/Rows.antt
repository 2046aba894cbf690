-- ===== src/Memories/Rows.antt =====
-- Rows with distinct ids, and updates that change only the lifecycle state.
use project_memory_hub.Common.{
  ◌≡◌, refl, sym, ap, ◌∙◌, inl, inr, Bool, true, false, List, [], ◌∷◌, ◌++◌, if◌then◌else◌, select,
  map, any, In, arith, Bool-cases, In-any, In-map, map-In, any-In,
}
use project_memory_hub.Domain.{BehaviorMemoryRecord, LifecycleState}
use project_memory_hub.Memories.Insert.{clash}
use project_memory_hub.Memories.Insert.Invariant.{Distinct}
use project_memory_hub.Memories.Lifecycle.{set_state, updated}

same_id-clash : (a b : BehaviorMemoryRecord) → a.memory_id ≡ b.memory_id → clash a b ≡ true
unfolding clash
same_id-clash a b e = ground arith

-- An id names one row.
pub Distinct-unique :
    (xs : List BehaviorMemoryRecord) (a b : BehaviorMemoryRecord)
    → Distinct xs
    → In a xs
    → In b xs
    → a.memory_id ≡ b.memory_id
    → a ≡ b
Distinct-unique [] a b d m n e = absurd m
Distinct-unique (x ∷ xs) a b d (inl p) (inl q) e = p ∙ sym q
Distinct-unique (x ∷ xs) a b d (inl p) (inr n) e =
    absurd (cc (d.0, In-any (clash x) xs b n (same_id-clash x b (ground arith))))
Distinct-unique (x ∷ xs) a b d (inr m) (inl q) e =
    absurd (cc (d.0, In-any (clash x) xs a m (same_id-clash x a (ground arith))))
Distinct-unique (x ∷ xs) a b d (inr m) (inr n) e = Distinct-unique xs a b d.1 m n e

pub select-none :
    (test : BehaviorMemoryRecord → Bool) (xs : List BehaviorMemoryRecord)
    → any test xs ≡ false
    → select test xs ≡ []
select-none test [] h = refl
select-none test (x ∷ xs) h = ground (arith, select-none test xs)

-- Two tests that agree on the rows make the same update.
pub set_state-same :
    (p q : BehaviorMemoryRecord → Bool) (state : LifecycleState) (rows : List BehaviorMemoryRecord)
    → ((r : BehaviorMemoryRecord) → In r rows → p r ≡ q r)
    → (set_state p state rows ≡ set_state q state rows) × (updated p rows ≡ updated q rows)
unfolding set_state updated
set_state-same p q state [] same = (refl, refl)
set_state-same p q state (row ∷ rows) same =
    ground (arith, same row (inl refl), set_state-same p q state rows (λ r m. same r (inr m)))

-- A row at the end that fails the test is not counted.
pub updated-snoc :
    (test : BehaviorMemoryRecord → Bool) (xs : List BehaviorMemoryRecord) (a : BehaviorMemoryRecord)
    → test a ≡ false
    → updated test (xs ++ a ∷ []) ≡ updated test xs
unfolding updated
updated-snoc test [] a h = ground arith
updated-snoc test (x ∷ xs) a h = ground (arith, updated-snoc test xs a h)

-- A test that only rows of one id pass, passed by a row of the table, passes once.
pub updated-one :
    (test : BehaviorMemoryRecord → Bool) (xs : List BehaviorMemoryRecord) (a : BehaviorMemoryRecord)
    → ((b : BehaviorMemoryRecord) → test b ≡ true → b.memory_id ≡ a.memory_id)
    → Distinct xs
    → In a xs
    → test a ≡ true
    → updated test xs ≡ 1
unfolding updated
updated-one test [] a only d m h = absurd m
updated-one test (x ∷ xs) a only d (inl e) h = elim (Bool-cases (any test xs)) [
  | inr none_left ↦ ground (arith, select-none test xs none_left, ap test e)
  | inl more ↦
      let (b, n, hb) = any-In test xs more in
      absurd (cc (d.0, In-any (clash x) xs b n (same_id-clash x b (ground (arith, only b hb)))))
]
updated-one test (x ∷ xs) a only d (inr m) h = elim (Bool-cases (test x)) [
  | inr other ↦ ground (arith, updated-one test xs a only d.1 m h)
  | inl hit ↦ absurd (cc (d.0, In-any (clash x) xs a m (same_id-clash x a (only x hit))))
]

module _ (test : BehaviorMemoryRecord → Bool) (state : LifecycleState) where
  abbrev pub change : BehaviorMemoryRecord → BehaviorMemoryRecord
  change row = if test row then record row { lifecycle_state = state } else row

  clash-change : (a b : BehaviorMemoryRecord) → clash (change a) (change b) ≡ clash a b
  unfolding clash
  clash-change a b = ground arith

  any-clash-change :
      (a : BehaviorMemoryRecord) (xs : List BehaviorMemoryRecord)
      → any (clash (change a)) (map change xs) ≡ any (clash a) xs
  any-clash-change a [] = refl
  any-clash-change a (x ∷ xs) = ground (arith, clash-change a x, any-clash-change a xs)

  pub Distinct-set_state :
      (xs : List BehaviorMemoryRecord) → Distinct xs → Distinct (set_state test state xs)
  unfolding set_state
  Distinct-set_state [] d = tt
  Distinct-set_state (x ∷ xs) d = (any-clash-change x xs ∙ d.0, Distinct-set_state xs d.1)

  pub In-set_state :
      (xs : List BehaviorMemoryRecord) (a : BehaviorMemoryRecord)
      → In a (set_state test state xs)
      → (b : BehaviorMemoryRecord) × In b xs × (a ≡ change b)
  unfolding set_state
  In-set_state xs a m = In-map change xs a m

  pub set_state-In :
      (xs : List BehaviorMemoryRecord) (a : BehaviorMemoryRecord)
      → In a xs
      → In (change a) (set_state test state xs)
  unfolding set_state
  set_state-In xs a m = map-In change xs a m

  -- Rows that fail the test stay.
  pub set_state-keeps :
      (xs : List BehaviorMemoryRecord) (a : BehaviorMemoryRecord)
      → In a xs
      → test a ≡ false
      → In a (set_state test state xs)
  set_state-keeps xs a m h =
      let same : change a ≡ a = ground arith in rw same at (set_state-In xs a m)
