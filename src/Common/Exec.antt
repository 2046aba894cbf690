-- ===== src/Common/Exec.antt =====
-- Python's exceptions as values, and methods that change a database and may raise.
use project_memory_hub.Common.{◌≡◌, refl, ap, ◌⊎◌, inl, inr, Bool, true, false, arith}

-- The exception classes that the modelled code raises; a message carries no state.
pub data Error : Type 0 where
  key_error value_error type_error runtime_error : Error
  assertion_error integrity_error bounds_error eligibility_changed checkpoint_conflict
        json_nesting :
      Error

pub data Result (A : Type 0) : Type 0 where
  ok : A → Result A
  err : Error → Result A

-- The new state comes back beside an error too: what was written before a raise stays written
-- until a transaction rolls it back.
abbrev pub Exec : Type 0 → Type 0 → Type 0
Exec S A = S → Result A × S

abbrev pub modify : {S : Type 0} → (S → S) → Exec S (Unit {0})
modify f s = (ok tt, f s)

module _ {S A : Type 0} where
  abbrev pub pure : A → Exec S A
  pure a s = (ok a, s)

  abbrev pub raise : Error → Exec S A
  raise e s = (err e, s)

  abbrev pub lift : Result A → Exec S A
  lift r s = (r, s)

  abbrev pub gets : (S → A) → Exec S A
  gets f s = (ok (f s), s)

  -- `with self._database.transaction() as connection:`. An exception rolls everything back.
  abbrev pub settle : S → Result A × S → Result A × S
  settle s (ok a, s') = (ok a, s')
  settle s (err e, s') = (err e, s)

  unfoldable pub transaction : Exec S A → Exec S A
  transaction m s = settle s (m s)

  pub transaction-err :
      (m : Exec S A) (s : S) (e : Error) → (transaction m s).0 ≡ err e → (transaction m s).1 ≡ s
  unfolding transaction
  transaction-err m s e h = ground arith

module _ {S A : Type 0} where
  pub settle-ok :
      (s : S) (p : Result A × S) (a : A) (t : S) → settle s p ≡ (ok a, t) → p ≡ (ok a, t)
  settle-ok s (ok b, t') a t h = h
  settle-ok s (err e, t') a t h = cc

  -- A transaction that returns has kept what its body did.
  pub transaction-ok :
      (m : Exec S A) (s t : S) (a : A) → transaction m s ≡ (ok a, t) → m s ≡ (ok a, t)
  unfolding transaction
  transaction-ok m s t a h = settle-ok s (m s) a t h

  pub transaction-run :
      (m : Exec S A) (s t : S) (a : A) → m s ≡ (ok a, t) → transaction m s ≡ (ok a, t)
  unfolding transaction
  transaction-run m s t a h = ap (settle s) h

module _ {A B : Type 0} where
  -- In a pure function.
  abbrev pub then_pure : Result A → (A → Result B) → Result B
  then_pure (ok a) f = f a
  then_pure (err e) f = err e

  pub then_pure-eq-ok :
      (m : Result A) (f : A → Result B) (b : B)
      → then_pure m f ≡ ok b
      → (a : A) × (m ≡ ok a) × (f a ≡ ok b)
  then_pure-eq-ok (ok a) f b h = (a, refl, h)
  then_pure-eq-ok (err e) f b h = cc

pub Result-cases :
    {A : Type 0} (r : Result A) → ((a : A) × (r ≡ ok a)) ⊎ ((e : Error) × (r ≡ err e))
Result-cases (ok a) = inl (a, refl)
Result-cases (err e) = inr (e, refl)

pub same_ok : {A : Type 0} {a b : A} → ok a ≡ ok b → a ≡ b
same_ok h = ground arith

abbrev pub guard : Bool → Error → Result (Unit {0})
guard true e = ok tt
guard false e = err e

module _ {S A B : Type 0} where
  abbrev pub continue : Result A × S → (A → Exec S B) → Result B × S
  continue (ok a, s) f = f a s
  continue (err e, s) f = (err e, s)

  infixl 10 ◌>>=◌ ◌>>◌
  abbrev pub ◌>>=◌ : Exec S A → (A → Exec S B) → Exec S B
  ◌>>=◌ m f s = continue (m s) f

  abbrev pub ◌>>◌ : Exec S A → Exec S B → Exec S B
  ◌>>◌ m n s = continue (m s) (λ _. n)

  -- A block that returned has run its first step, and the rest from there.
  continue-ok :
      (p : Result A × S) (f : A → Exec S B) (t : S) (b : B)
      → continue p f ≡ (ok b, t)
      → (a : A) × (s : S) × (p ≡ (ok a, s)) × (f a s ≡ (ok b, t))
  continue-ok (ok a, s) f t b h = (a, s, refl, h)
  continue-ok (err e, s) f t b h = cc

  pub bind-ok :
      (m : Exec S A) (f : A → Exec S B) (s t : S) (b : B)
      → (m >>= f) s ≡ (ok b, t)
      → (a : A) × (mid : S) × (m s ≡ (ok a, mid)) × (f a mid ≡ (ok b, t))
  bind-ok m f s t b h = continue-ok (m s) f t b h

  -- The same of a step that only computes.
  pub bind_lift-ok :
      (r : Result A) (f : A → Exec S B) (s t : S) (b : B)
      → (lift r >>= f) s ≡ (ok b, t)
      → (a : A) × (r ≡ ok a) × (f a s ≡ (ok b, t))
  bind_lift-ok (ok a) f s t b h = (a, refl, h)
  bind_lift-ok (err e) f s t b h = cc

  -- A check before a transaction, and the transaction: an exception leaves everything as it was.
  pub bind_transaction-err :
      (r : Result A) (m : A → Exec S B) (s : S) (e : Error)
      → ((lift r >>= λ a. transaction (m a)) s).0 ≡ err e
      → ((lift r >>= λ a. transaction (m a)) s).1 ≡ s
  bind_transaction-err (ok a) m s e h = transaction-err (m a) s e h
  bind_transaction-err (err f) m s e h = refl

  pub bind_lift-run :
      (r : Result A) (f : A → Exec S B) (s : S) (a : A) (x : Result B × S)
      → r ≡ ok a
      → f a s ≡ x
      → (lift r >>= f) s ≡ x
  bind_lift-run r f s a x e h = rw e h
