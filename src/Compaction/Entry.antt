-- ===== src/Compaction/Entry.antt =====
-- `_truncate_utf8` of services/compaction.py. `encode` raises `UnicodeEncodeError`, a `ValueError`, for
-- a lone surrogate.
use project_memory_hub.Common.{
  ℕ, zero, suc, ◌+◌, ◌-◌, ◌≤◌, ◌≡◌, refl, sym, ap, ◌∙◌, none, some, ◌⊎◌, inl, inr, true, false, [],
  ◌∷◌, ◌++◌, ltb, leb, if◌then◌else◌, any, any-append, length, take, arith, Bool-cases,
  length-append, length-take, length-take-le,
}
use project_memory_hub.Common.Exec.{Result, ok, then_pure}
use project_memory_hub.Text.{Text, rstrip, is_empty}
use project_memory_hub.Text.Utf8.{
  strict_utf8_size, utf8_width, is_surrogate, strict_utf8_size_bounds, add_width-ok,
}

abbrev pub ellipsis : Text
ellipsis = 0x2026 ∷ []

-- `while candidate and len((candidate + "…").encode("utf-8")) > max_bytes: candidate = candidate[:-1]`,
-- with the length as a bound on the rounds.
unfoldable pub shrink : ℕ → ℕ → Text → Result Text
unfolding strict_utf8_size
shrink zero max_bytes candidate = ok candidate
shrink (suc rounds) max_bytes candidate =
    let rest = shrink rounds max_bytes (take (length candidate - 1) candidate) in
    if is_empty candidate
    then ok candidate
    else then_pure (strict_utf8_size (candidate ++ ellipsis))
        (λ size. if ltb max_bytes size then rest else ok candidate)

abbrev pub with_ellipsis : Text → Text
with_ellipsis fitting = if is_empty fitting then ellipsis else rstrip fitting ++ ellipsis

-- The rest, once the value is too long.
unfoldable pub cut : ℕ → ℕ → Text → Result Text
unfolding shrink
cut max_chars max_bytes value =
    let candidate = take (max_chars - 1) value in
    then_pure (shrink (length candidate) max_bytes candidate) λ fitting. ok (with_ellipsis fitting)

unfoldable pub truncate_utf8 : ℕ → ℕ → Text → Result Text
unfolding cut strict_utf8_size
truncate_utf8 max_chars max_bytes value =
    if leb (length value) max_chars
    then then_pure (strict_utf8_size value)
        (λ size. if leb size max_bytes then ok value else cut max_chars max_bytes value)
    else cut max_chars max_bytes value

-- The text can be encoded, and has so many bytes.
abbrev pub HasSize : Text → ℕ → Type 0
HasSize t n = strict_utf8_size t ≡ ok n

free-HasSize : (t : Text) → any is_surrogate t ≡ false → (n : ℕ) × HasSize t n
free-HasSize t free = elim (strict_utf8_size_bounds t) [
  | inl (lone, refusal) ↦ absurd (cc (free, lone))
  | inr (none_left, (n, size, low, high)) ↦ (n, size)
]

HasSize-free : (t : Text) (n : ℕ) → HasSize t n → any is_surrogate t ≡ false
HasSize-free t n h = elim (strict_utf8_size_bounds t) [
  | inl (lone, refusal) ↦ absurd (cc (h, refusal))
  | inr (none_left, sized) ↦ none_left
]

take-free : (n : ℕ) (t : Text) → any is_surrogate t ≡ false → any is_surrogate (take n t) ≡ false
take-free zero t free = refl
take-free (suc n) [] free = refl
take-free (suc n) (c ∷ t) free = ground (arith, take-free n t)

-- The bytes of a text that can be encoded.
unfoldable utf8_length : Text → ℕ
utf8_length [] = 0
utf8_length (c ∷ t) = elim (utf8_width c) [ none ↦ 0 | some w ↦ w ] + utf8_length t

size-length : (t : Text) (n : ℕ) → HasSize t n → n ≡ utf8_length t
unfolding strict_utf8_size utf8_length
size-length [] n h = ground arith
size-length (c ∷ t) n h =
    let (w, m, width, rest, sum) = add_width-ok (utf8_width c) (strict_utf8_size t) n h in
    rw (width, sum) (ap (◌+◌ w) (size-length t m rest))

utf8_length-append : (a b : Text) → utf8_length (a ++ b) ≡ utf8_length a + utf8_length b
unfolding utf8_length
utf8_length-append [] b = omega arith
utf8_length-append (c ∷ a) b = omega (arith, utf8_length-append a b)

rstrip-le : (t : Text) → (length (rstrip t) ≤ length t) × (utf8_length (rstrip t) ≤ utf8_length t)
unfolding rstrip utf8_length
rstrip-le [] = (omega arith, omega arith)
rstrip-le (c ∷ t) = ground (arith, rstrip-le t)

rstrip-free : (t : Text) → any is_surrogate t ≡ false → any is_surrogate (rstrip t) ≡ false
unfolding rstrip
rstrip-free [] free = refl
rstrip-free (c ∷ t) free = ground (arith, rstrip-free t)

append-free : (t : Text) → any is_surrogate t ≡ false → any is_surrogate (t ++ ellipsis) ≡ false
append-free t free = rw (any-append is_surrogate t ellipsis, free) refl

-- A text that can be encoded, no longer than the candidate, that fits with the ellipsis.
record Fits (max_bytes : ℕ) (candidate fitting : Text) : Type 0 where
  free : any is_surrogate fitting ≡ false
  shorter : length fitting ≤ length candidate
  fits : (is_empty fitting ≡ true) ⊎ (utf8_length (fitting ++ ellipsis) ≤ max_bytes)

-- The loop ends by its test: nothing is left, or what is left fits with the ellipsis.
shrink-Fits :
    (rounds max_bytes : ℕ) (t : Text)
    → length t ≤ rounds
    → any is_surrogate t ≡ false
    → (fitting : Text) × (shrink rounds max_bytes t ≡ ok fitting) × Fits max_bytes t fitting
unfolding shrink
shrink-Fits zero max_bytes [] h free =
    ([], refl, record { free = refl; shorter = omega arith; fits = inl refl })
shrink-Fits zero max_bytes (c ∷ t) h free = absurd (omega arith)
shrink-Fits (suc rounds) max_bytes [] h free =
    ([], refl, record { free = refl; shorter = omega arith; fits = inl refl })
shrink-Fits (suc rounds) max_bytes (c ∷ t) h free =
    let shorter = take (length (c ∷ t) - 1) (c ∷ t) in
    let (size, sized) = free-HasSize ((c ∷ t) ++ ellipsis) (append-free (c ∷ t) free) in
    let exact = size-length ((c ∷ t) ++ ellipsis) size sized in
    elim (Bool-cases (ltb max_bytes size)) [
      | inr enough ↦ (
        c ∷ t,
        rw (sized, enough) refl,
        record { free = free; shorter = omega arith; fits = inr (ground (arith, exact)) },
      )
      | inl over ↦
          let (fitting, e, r) =
            shrink-Fits rounds max_bytes shorter
              (omega (arith, length-take (length (c ∷ t) - 1) (c ∷ t)))
              (take-free (length (c ∷ t) - 1) (c ∷ t) free) in
          (
            fitting,
            rw (sized, over) e,
            record {
              free = r.free;
              shorter = omega (arith, r.shorter, length-take (length (c ∷ t) - 1) (c ∷ t));
              fits = r.fits;
            },
          )
    ]

-- An entry of at most so many characters and bytes.
abbrev pub IsBounded : ℕ → ℕ → Text → Type 0
IsBounded max_chars max_bytes entry =
    (length entry ≤ max_chars) × ((n : ℕ) × (strict_utf8_size entry ≡ ok n) × (n ≤ max_bytes))

dots : utf8_length ellipsis ≡ 3
unfolding utf8_length utf8_width
dots = refl

with_ellipsis-IsBounded :
    (max_chars max_bytes : ℕ) (value fitting : Text)
    → 1 ≤ max_chars
    → 3 ≤ max_bytes
    → Fits max_bytes (take (max_chars - 1) value) fitting
    → IsBounded max_chars max_bytes (with_ellipsis fitting)
with_ellipsis-IsBounded max_chars max_bytes value [] c b r =
    (omega arith, (3, dots_size, omega arith))
  where
    dots_size : HasSize ellipsis 3
    dots_size =
        let (n, sized) = free-HasSize ellipsis refl in
        rw (sym (size-length ellipsis n sized ∙ dots)) sized
with_ellipsis-IsBounded max_chars max_bytes value (x ∷ xs) c b r =
    let kept = rstrip (x ∷ xs) in
    let (n, sized) =
      free-HasSize (kept ++ ellipsis) (append-free kept (rstrip-free (x ∷ xs) r.free)) in
    (
      omega (
        arith,
        length-append kept ellipsis,
        rstrip-le (x ∷ xs),
        r.shorter,
        length-take-le (max_chars - 1) value,
      ),
      (
        n,
        sized,
        elim r.fits [
          | inl gone ↦ cc
          | inr fits ↦ omega (
            arith,
            size-length (kept ++ ellipsis) n sized,
            utf8_length-append kept ellipsis,
            utf8_length-append (x ∷ xs) ellipsis,
            rstrip-le (x ∷ xs),
          )
        ],
      ),
    )

cut-IsBounded :
    (max_chars max_bytes : ℕ) (value : Text)
    → 1 ≤ max_chars
    → 3 ≤ max_bytes
    → any is_surrogate value ≡ false
    → (entry : Text) × (cut max_chars max_bytes value ≡ ok entry)
      × IsBounded max_chars max_bytes entry
unfolding cut
cut-IsBounded max_chars max_bytes value c b free =
    let candidate = take (max_chars - 1) value in
    let (fitting, e, r) =
      shrink-Fits (length candidate) max_bytes candidate (omega arith)
        (take-free (max_chars - 1) value free) in
    (
      with_ellipsis fitting,
      rw e refl,
      with_ellipsis-IsBounded max_chars max_bytes value fitting c b r,
    )

-- For a text that can be encoded, a limit of at least one character and one of at least three bytes,
-- an entry is returned, which has at most that many characters and, encoded, at most that many bytes.
pub truncate_utf8_bounds :
    (max_chars max_bytes : ℕ) (value : Text) (size : ℕ)
    → 1 ≤ max_chars
    → 3 ≤ max_bytes
    → strict_utf8_size value ≡ ok size
    → (entry : Text) × (truncate_utf8 max_chars max_bytes value ≡ ok entry)
      × IsBounded max_chars max_bytes entry
unfolding truncate_utf8
truncate_utf8_bounds max_chars max_bytes value size c b sized =
    let (entry, e, bounded) =
      cut-IsBounded max_chars max_bytes value c b (HasSize-free value size sized) in
    elim (Bool-cases (leb (length value) max_chars)) [
      | inr long ↦ (entry, rw long e, bounded)
      | inl short ↦ elim (Bool-cases (leb size max_bytes)) [
        | inr big ↦ (entry, rw (short, sized, big) e, bounded)
        | inl small ↦
            (value, rw (short, sized, small) refl, (ground arith, (size, sized, ground arith)))
      ]
    ]
