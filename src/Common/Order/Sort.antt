-- ===== src/Common/Order/Sort.antt =====
-- `sorted(xs, key=key)`: the stable sort, and `min(xs, key=key)`: the first of the least.
use project_memory_hub.Common.{
  ◌≡◌, refl, Bool, true, false, List, [], ◌∷◌, ◌⊎◌, inl, inr, arith, Bool-cases, if◌then◌else◌,
  length, select, All, In, In-All, All-In, In-take, take, ap, subst, ℕ, zero, suc, Option, none,
  some,
}
use project_memory_hub.Common.Order.Defs.{StrictOrder, asym, le_trans}

module _ {A K : Type 0} (o : StrictOrder K) (key : A → K) where
  -- Goes before the first element whose key is not less: equal keys keep their order.
  unfoldable pub insert : A → List A → List A
  insert x [] = x ∷ []
  insert x (y ∷ ys) = if o.lt (key y) (key x) then y ∷ insert x ys else x ∷ y ∷ ys

  unfoldable pub sort : List A → List A
  unfolding insert
  sort [] = []
  sort (x ∷ xs) = insert x (sort xs)

  -- Nobody stands behind an element with a greater key.
  abbrev pub IsSorted : List A → Type 0
  IsSorted [] = Unit
  IsSorted (x ∷ xs) = All (λ y. o.lt (key y) (key x) ≡ false) xs × IsSorted xs

  In-insert : (x : A) (xs : List A) (a : A) → In a (insert x xs) → (a ≡ x) ⊎ In a xs
  unfolding insert
  In-insert x [] a m = m
  In-insert x (y ∷ ys) a m = ground (arith, In-insert x ys a)

  insert-In : (x : A) (xs : List A) (a : A) → (a ≡ x) ⊎ In a xs → In a (insert x xs)
  unfolding insert
  insert-In x [] a m = m
  insert-In x (y ∷ ys) a (inl e) = elim (Bool-cases (o.lt (key y) (key x))) [
    | inl t ↦ rw t (inr (insert-In x ys a (inl e)))
    | inr f ↦ rw f (inl e)
  ]
  insert-In x (y ∷ ys) a (inr m) = elim (Bool-cases (o.lt (key y) (key x))) [
    | inl t ↦ rw t (elim m [ inl e ↦ inl e | inr r ↦ inr (insert-In x ys a (inr r)) ])
    | inr f ↦ rw f (inr m)
  ]

  pub In-sort : (xs : List A) (a : A) → In a (sort xs) → In a xs
  unfolding sort
  In-sort [] a m = m
  In-sort (x ∷ xs) a m = elim (In-insert x (sort xs) a m) [
    | inl e ↦ inl e
    | inr r ↦ inr (In-sort xs a r)
  ]

  pub sort-In : (xs : List A) (a : A) → In a xs → In a (sort xs)
  unfolding sort
  sort-In [] a m = m
  sort-In (x ∷ xs) a (inl e) = insert-In x (sort xs) a (inl e)
  sort-In (x ∷ xs) a (inr m) = insert-In x (sort xs) a (inr (sort-In xs a m))

  count-insert :
      (p : A → Bool) (x : A) (xs : List A)
      → length (select p (insert x xs)) ≡ length (select p (x ∷ xs))
  unfolding insert
  count-insert p x [] = refl
  count-insert p x (y ∷ ys) = ground (arith, count-insert p x ys)

  -- A sort keeps how many elements pass any test.
  pub count-sort : (p : A → Bool) (xs : List A) → length (select p (sort xs)) ≡ length (select p xs)
  unfolding sort
  count-sort p [] = refl
  count-sort p (x ∷ xs) = ground (arith, count-insert p x (sort xs), count-sort p xs)

  length-insert : (x : A) (xs : List A) → length (insert x xs) ≡ length (x ∷ xs)
  unfolding insert
  length-insert x [] = refl
  length-insert x (y ∷ ys) = ground (arith, length-insert x ys)

  pub length-sort : (xs : List A) → length (sort xs) ≡ length xs
  unfolding sort
  length-sort [] = refl
  length-sort (x ∷ xs) = ground (arith, length-insert x (sort xs), length-sort xs)

  insert-IsSorted : (x : A) (xs : List A) → IsSorted xs → IsSorted (insert x xs)
  unfolding insert
  insert-IsSorted x [] h = (tt, tt)
  insert-IsSorted x (y ∷ ys) h = elim (Bool-cases (o.lt (key y) (key x))) [
    | inl t ↦ rw t (In-All _ _ (λ a m. above a t (In-insert x ys a m)), insert-IsSorted x ys h.1)
    | inr f ↦ rw f ((f, In-All _ ys (λ a m. le_trans o _ _ _ f (All-In _ ys a h.0 m))), h)
  ]
    where
      above :
          (a : A) → o.lt (key y) (key x) ≡ true → (a ≡ x) ⊎ In a ys → o.lt (key a) (key y) ≡ false
      above a t (inl e) = rw e (asym o _ _ t)
      above a t (inr r) = All-In _ ys a h.0 r

  pub sort-IsSorted : (xs : List A) → IsSorted (sort xs)
  unfolding sort
  sort-IsSorted [] = tt
  sort-IsSorted (x ∷ xs) = insert-IsSorted x (sort xs) (sort-IsSorted xs)

  -- The first of the least by key.
  unfoldable pub least : A → List A → A
  least x [] = x
  least x (y ∷ ys) = least (if o.lt (key y) (key x) then y else x) ys

  pub least-In : (x : A) (xs : List A) → In (least x xs) (x ∷ xs)
  unfolding least
  least-In x [] = inl refl
  least-In x (y ∷ ys) = ground (arith, least-In (if o.lt (key y) (key x) then y else x) ys)

  pub least-le :
      (x : A) (xs : List A) (a : A) → In a (x ∷ xs) → o.lt (key a) (key (least x xs)) ≡ false
  unfolding least
  least-le x [] a (inl e) = rw e (o.irrefl (key x))
  least-le x [] a (inr m) = absurd m
  least-le x (y ∷ ys) a m = ground (
    arith,
    least-le (if o.lt (key y) (key x) then y else x) ys a,
    least-le (if o.lt (key y) (key x) then y else x) ys (if o.lt (key y) (key x) then y else x),
    le_trans o (key (least y ys)) (key y) (key x),
    le_trans o (key (least x ys)) (key x) (key y),
    asym o (key y) (key x),
  )

  -- The first `n` of a sorted list are its least: what they leave out is not before any of them.
  pub take-IsSorted :
      (n : ℕ) (xs : List A) (a : A)
      → IsSorted xs
      → In a xs
      → In a (take n xs)
        ⊎ ((length (take n xs) ≡ n) × All (λ y. o.lt (key a) (key y) ≡ false) (take n xs))
  take-IsSorted zero xs a h m = inr (refl, tt)
  take-IsSorted (suc n) [] a h m = absurd m
  take-IsSorted (suc n) (x ∷ xs) a h (inl e) = inl (inl e)
  take-IsSorted (suc n) (x ∷ xs) a h (inr m) = elim (take-IsSorted n xs a h.1 m) [
    | inl kept ↦ inl (inr kept)
    | inr (full, above) ↦ inr (ap suc full, (All-In _ xs a h.0 m, above))
  ]

  pub IsSorted-take : (n : ℕ) (xs : List A) → IsSorted xs → IsSorted (take n xs)
  IsSorted-take zero xs h = tt
  IsSorted-take (suc n) [] h = tt
  IsSorted-take (suc n) (x ∷ xs) h =
      (In-All _ (take n xs) (λ a m. All-In _ xs a h.0 (In-take n xs a m)), IsSorted-take n xs h.1)

  -- `select … order by key limit 1`, `fetchone()`.
  unfoldable pub first : List A → Option A
  unfolding least
  first [] = none
  first (x ∷ xs) = some (least x xs)

  pub first-some :
      (xs : List A) (a : A)
      → first xs ≡ some a
      → In a xs × ((b : A) → In b xs → o.lt (key b) (key a) ≡ false)
  unfolding first
  first-some [] a h = cc
  first-some (x ∷ xs) a h =
      let e : least x xs ≡ a = ground arith in
      (
        subst (λ c. In c (x ∷ xs)) e (least-In x xs),
        λ b m. subst (λ c. o.lt (key b) (key c) ≡ false) e (least-le x xs b m),
      )

  pub first-none : (xs : List A) → first xs ≡ none → xs ≡ []
  unfolding first
  first-none [] h = refl
  first-none (x ∷ xs) h = cc
