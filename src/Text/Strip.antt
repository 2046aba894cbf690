-- ===== src/Text/Strip.antt =====
-- `str.strip` leaves nothing to strip.
use project_memory_hub.Common.{◌≡◌, refl, ap, ◌∙◌, Bool, false, ◌&&◌, [], ◌∷◌, Bool-cases, inl, inr}
use project_memory_hub.Text.{Text, is_space, is_empty, lstrip, rstrip, strip}

rstrip-rstrip : (t : Text) → rstrip (rstrip t) ≡ rstrip t
unfolding rstrip
rstrip-rstrip [] = refl
rstrip-rstrip (c ∷ t) = elim (Bool-cases (is_empty (rstrip t) && is_space c)) [
  | inl gone ↦ rw (gone, rstrip) refl
  | inr kept ↦ rw (kept, rstrip, rstrip-rstrip t, kept) refl
]

-- A text that starts with something to keep is not stripped on the left.
abbrev starts : Text → Bool
starts [] = false
starts (c ∷ t) = is_space c

lstrip-fixed : (t : Text) → starts t ≡ false → lstrip t ≡ t
unfolding lstrip
lstrip-fixed [] h = refl
lstrip-fixed (c ∷ t) h = rw (h, lstrip) refl

lstrip-starts : (t : Text) → starts (lstrip t) ≡ false
unfolding lstrip
lstrip-starts [] = refl
lstrip-starts (c ∷ t) = elim (Bool-cases (is_space c)) [
  | inl e ↦ rw (e, lstrip) (lstrip-starts t)
  | inr e ↦ rw (e, lstrip) e
]

rstrip-starts : (t : Text) → starts t ≡ false → starts (rstrip t) ≡ false
unfolding rstrip
rstrip-starts [] h = refl
rstrip-starts (c ∷ t) h = elim (Bool-cases (is_empty (rstrip t) && is_space c)) [
  | inl gone ↦ rw (gone, rstrip) refl
  | inr kept ↦ rw (kept, rstrip) h
]

pub strip-strip : (t : Text) → strip (strip t) ≡ strip t
unfolding strip
strip-strip t =
    ap rstrip (lstrip-fixed (rstrip (lstrip t)) (rstrip-starts (lstrip t) (lstrip-starts t)))
    ∙ rstrip-rstrip (lstrip t)
