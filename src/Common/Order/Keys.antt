-- ===== src/Common/Order/Keys.antt =====
-- The orders of numbers, pairs, Booleans and texts.
use Prim.Native.Nat.{ℕ}
use project_memory_hub.Common.{
  ◌≡◌, refl, Bool, true, false, not, ◌&&◌, ltb, arith, List, [], ◌∷◌, if◌then◌else◌,
}
use project_memory_hub.Common.Order.Defs.{StrictOrder, asym, le_lt, lt_le, le_trans}

pub ltb_irrefl : (a : ℕ) → ltb a a ≡ false
ltb_irrefl a = ground arith

pub ltb_trans : (a b c : ℕ) → ltb a b ≡ true → ltb b c ≡ true → ltb a c ≡ true
ltb_trans a b c h k = ground arith

pub ltb_tri : (a b : ℕ) → ltb a b ≡ false → ltb b a ≡ false → a ≡ b
ltb_tri a b h k = ground arith

abbrev pub nat_order : StrictOrder ℕ
nat_order = record { lt = ltb; irrefl = ltb_irrefl; trans = ltb_trans; tri = ltb_tri }

-- `-key`, `desc`: the greater key first.
module _ {K : Type 0} (o : StrictOrder K) where
  abbrev pub dual_lt : K → K → Bool
  dual_lt a b = o.lt b a

  pub dual_trans : (a b c : K) → dual_lt a b ≡ true → dual_lt b c ≡ true → dual_lt a c ≡ true
  dual_trans a b c h k = o.trans c b a k h

  pub dual_tri : (a b : K) → dual_lt a b ≡ false → dual_lt b a ≡ false → a ≡ b
  dual_tri a b h k = o.tri a b k h

  abbrev pub dual : StrictOrder K
  dual = record { lt = dual_lt; irrefl = o.irrefl; trans = dual_trans; tri = dual_tri }

-- Python's order of pairs, SQL's `order by a, b`: by the second where the first are equal.
module _ {K L : Type 0} (o : StrictOrder K) (p : StrictOrder L) where
  abbrev pub pair_lt : K × L → K × L → Bool
  pair_lt (a, x) (b, y) = if o.lt a b then true else if o.lt b a then false else p.lt x y

  pub pair_irrefl : (a : K × L) → pair_lt a a ≡ false
  pair_irrefl (a, x) = rw (o.irrefl a) (p.irrefl x)

  pub pair_trans : (a b c : K × L) → pair_lt a b ≡ true → pair_lt b c ≡ true → pair_lt a c ≡ true
  pair_trans (a, x) (b, y) (c, z) h k = ground (
    arith,
    o.trans a b c,
    lt_le o a b c,
    le_lt o a b c,
    asym o a c,
    le_trans o a b c,
    le_trans o c b a,
    p.trans x y z,
  )

  pub pair_tri : (a b : K × L) → pair_lt a b ≡ false → pair_lt b a ≡ false → a ≡ b
  pair_tri (a, x) (b, y) h k = ground (arith, o.tri a b, p.tri x y)

  abbrev pub pair_order : StrictOrder (K × L)
  pair_order = record { lt = pair_lt; irrefl = pair_irrefl; trans = pair_trans; tri = pair_tri }

-- `False < True`.
abbrev pub bool_lt : Bool → Bool → Bool
bool_lt a b = not a && b

pub bool_irrefl : (a : Bool) → bool_lt a a ≡ false
bool_irrefl a = ground arith

pub bool_trans : (a b c : Bool) → bool_lt a b ≡ true → bool_lt b c ≡ true → bool_lt a c ≡ true
bool_trans a b c h k = ground arith

pub bool_tri : (a b : Bool) → bool_lt a b ≡ false → bool_lt b a ≡ false → a ≡ b
bool_tri a b h k = ground arith

abbrev pub bool_order : StrictOrder Bool
bool_order = record { lt = bool_lt; irrefl = bool_irrefl; trans = bool_trans; tri = bool_tri }

-- Texts as lists of code points: the order of Python's `str`, and SQLite's order of UTF-8 bytes.
abbrev pub text_lt : List ℕ → List ℕ → Bool
text_lt [] [] = false
text_lt [] (y ∷ ys) = true
text_lt (x ∷ xs) [] = false
text_lt (x ∷ xs) (y ∷ ys) = if ltb x y then true else if ltb y x then false else text_lt xs ys

pub text_irrefl : (a : List ℕ) → text_lt a a ≡ false
text_irrefl [] = refl
text_irrefl (x ∷ xs) = ground (arith, text_irrefl xs)

pub text_trans : (a b c : List ℕ) → text_lt a b ≡ true → text_lt b c ≡ true → text_lt a c ≡ true
text_trans [] [] c h k = k
text_trans [] (y ∷ ys) [] h k = k
text_trans [] (y ∷ ys) (z ∷ zs) h k = refl
text_trans (x ∷ xs) [] c h k = cc
text_trans (x ∷ xs) (y ∷ ys) [] h k = k
text_trans (x ∷ xs) (y ∷ ys) (z ∷ zs) h k = ground (arith, text_trans xs ys zs)

pub text_tri : (a b : List ℕ) → text_lt a b ≡ false → text_lt b a ≡ false → a ≡ b
text_tri [] [] h k = refl
text_tri [] (y ∷ ys) h k = cc
text_tri (x ∷ xs) [] h k = cc
text_tri (x ∷ xs) (y ∷ ys) h k = ground (arith, text_tri xs ys)

abbrev pub text_order : StrictOrder (List ℕ)
text_order = record { lt = text_lt; irrefl = text_irrefl; trans = text_trans; tri = text_tri }

-- Equality by an order.
module _ {K : Type 0} (o : StrictOrder K) where
  abbrev pub same : K → K → Bool
  same a b = not (o.lt a b) && not (o.lt b a)

  pub same→eq : (a b : K) → same a b ≡ true → a ≡ b
  same→eq a b h = ground (arith, o.tri a b)

  pub same_refl : (a : K) → same a a ≡ true
  same_refl a = rw (o.irrefl a) refl

  pub eq→same : (a b : K) → a ≡ b → same a b ≡ true
  eq→same a b e = rw e (same_refl b)
