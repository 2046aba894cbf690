-- ===== src/Text/Utf8.antt =====
-- utf8.py: the size of a text in strict UTF-8, and the control characters that no stored text has.
use project_memory_hub.Common.{
  ℕ, ◌+◌, ◌≤◌, ◌*◌, ◌≡◌, ◌≢◌, refl, sym, ◌⊎◌, inl, inr, any, List, Bool-cases, Option-cases, Bool,
  true, false, ◌||◌, ◌&&◌, not, Option, none, some, [], ◌∷◌, ◌==◌, ltb, if◌then◌else◌, length,
  arith,
}
use project_memory_hub.Common.Exec.{Result, ok, err, value_error}
use project_memory_hub.Text.{Text, within}

-- The bytes of one code point; `none` for a lone surrogate, which strict UTF-8 refuses.
unfoldable pub utf8_width : ℕ → Option ℕ
utf8_width c =
    if ltb c 0x80
    then some 1
    else if ltb c 0x800
    then some 2
    else if within 0xd800 0xdfff c
    then none
    else if ltb c 0x10000
    then some 3
    else some 4

abbrev pub add_width : Option ℕ → Result ℕ → Result ℕ
add_width none r = err value_error
add_width (some w) (ok n) = ok (w + n)
add_width (some w) (err e) = err e

-- `len(value.encode("utf-8"))`, with `InvalidUtf8Text` for what cannot be encoded.
unfoldable pub strict_utf8_size : Text → Result ℕ
strict_utf8_size [] = ok 0
strict_utf8_size (c ∷ t) = add_width (utf8_width c) (strict_utf8_size t)

-- `codepoint in _BIDI_CONTROLS`.
unfoldable pub is_bidi_control : ℕ → Bool
is_bidi_control c =
    c == 0x061c
    || c == 0x200e
    || c == 0x200f
    || c == 0x202a
    || c == 0x202b
    || c == 0x202c
    || c == 0x202d
    || c == 0x202e
    || c == 0x2066
    || c == 0x2067
    || c == 0x2068
    || c == 0x2069

abbrev pub is_normal_whitespace : ℕ → Bool
is_normal_whitespace c = c == 9 || c == 10 || c == 13

-- The loop over the characters, with its two early returns.
unfoldable pub contains_unsafe_text_control : Bool → Text → Bool
contains_unsafe_text_control allow [] = false
contains_unsafe_text_control allow (c ∷ t) =
    if is_bidi_control c || within 0x7f 0x9f c
    then true
    else if ltb c 32 && not (allow && is_normal_whitespace c)
    then true
    else contains_unsafe_text_control allow t

-- The code points that are refused, whatever the blanks: from one number to another one.
abbrev pub always_refused : List (ℕ × ℕ)
always_refused =
    (0x061c, 0x061c) ∷ (0x200e, 0x200f) ∷ (0x202a, 0x202e) ∷ (0x2066, 0x2069) ∷ (127, 159) ∷ []

-- Those below the space, where the usual blanks are allowed and where they are not.
abbrev pub refused_controls : Bool → List (ℕ × ℕ)
refused_controls true = (0, 8) ∷ (11, 12) ∷ (14, 31) ∷ []
refused_controls false = (0, 31) ∷ []

abbrev pub is_between : ℕ → List (ℕ × ℕ) → Bool
is_between c [] = false
is_between c (pair ∷ bounds) = within pair.0 pair.1 c || is_between c bounds

abbrev pub is_refused : Bool → ℕ → Bool
is_refused allow c = is_between c always_refused || is_between c (refused_controls allow)

controls_lem :
    (allow : Bool) (c : ℕ)
    → (ltb c 32 && not (allow && is_normal_whitespace c)) ≡ is_between c (refused_controls allow)
controls_lem true c = ground arith
controls_lem false c = ground arith

marks_lem : (c : ℕ) → (c == 0x200e || c == 0x200f) ≡ within 0x200e 0x200f c
marks_lem c = ground arith

embeddings_lem :
    (c : ℕ)
    → (c == 0x202a || c == 0x202b || c == 0x202c || c == 0x202d || c == 0x202e)
      ≡ within 0x202a 0x202e c
embeddings_lem c = ground arith

isolates_lem :
    (c : ℕ) → (c == 0x2066 || c == 0x2067 || c == 0x2068 || c == 0x2069) ≡ within 0x2066 0x2069 c
isolates_lem c = ground arith

letter_lem : (c : ℕ) → (c == 0x061c) ≡ within 0x061c 0x061c c
letter_lem c = ground arith

regroup :
    (a b d e f g h i j k l n m : Bool)
    → ((a || b || d || e || f || g || h || i || j || k || l || n) || m)
      ≡ (a || ((b || d) || ((e || f || g || h || i) || ((j || k || l || n) || (m || false)))))
regroup true b d e f g h i j k l n m = refl
regroup false true d e f g h i j k l n m = refl
regroup false false true e f g h i j k l n m = refl
regroup false false false true f g h i j k l n m = refl
regroup false false false false true g h i j k l n m = refl
regroup false false false false false true h i j k l n m = refl
regroup false false false false false false true i j k l n m = refl
regroup false false false false false false false true j k l n m = refl
regroup false false false false false false false false true k l n m = refl
regroup false false false false false false false false false true l n m = refl
regroup false false false false false false false false false false true n m = refl
regroup false false false false false false false false false false false true m = refl
regroup false false false false false false false false false false false false true = refl
regroup false false false false false false false false false false false false false = refl

regroup-same :
    (a b d e f g h i j k l n m p q r s : Bool)
    → a ≡ p
    → (b || d) ≡ q
    → (e || f || g || h || i) ≡ r
    → (j || k || l || n) ≡ s
    → ((a || b || d || e || f || g || h || i || j || k || l || n) || m)
      ≡ (p || (q || (r || (s || (m || false)))))
regroup-same a b d e f g h i j k l n m p q r s hp hq hr hs =
    rw (sym hp, sym hq, sym hr, sym hs) (regroup a b d e f g h i j k l n m)

bidi_lem : (c : ℕ) → (is_bidi_control c || within 0x7f 0x9f c) ≡ is_between c always_refused
unfolding is_bidi_control
bidi_lem c =
    regroup-same (c == 0x061c) (c == 0x200e) (c == 0x200f) (c == 0x202a) (c == 0x202b) (c == 0x202c)
      (c == 0x202d) (c == 0x202e) (c == 0x2066) (c == 0x2067) (c == 0x2068) (c == 0x2069)
      (within 0x7f 0x9f c) (within 0x061c 0x061c c) (within 0x200e 0x200f c)
      (within 0x202a 0x202e c) (within 0x2066 0x2069 c) (letter_lem c) (marks_lem c)
      (embeddings_lem c) (isolates_lem c)

unsafe_branches : (a d e : Bool) → (if a then true else if d then true else e) ≡ ((a || d) || e)
unsafe_branches true d e = refl
unsafe_branches false true e = refl
unsafe_branches false false e = refl

-- A text is reported as unsafe exactly when one of its characters is one of U+0000 to U+001F, U+007F to
-- U+009F, U+061C, U+200E, U+200F, U+202A to U+202E and U+2066 to U+2069; where the usual blanks are
-- allowed, tab, line feed and carriage return are none of the refused controls.
pub contains_unsafe_text_control_iff :
    (allow : Bool) (t : Text) → contains_unsafe_text_control allow t ≡ any (is_refused allow) t
unfolding contains_unsafe_text_control
contains_unsafe_text_control_iff allow [] = refl
contains_unsafe_text_control_iff allow (c ∷ t) =
    rw
      (sym (bidi_lem c), sym (controls_lem allow c), sym (contains_unsafe_text_control_iff allow t))
      (unsafe_branches (is_bidi_control c || within 0x7f 0x9f c)
        (ltb c 32 && not (allow && is_normal_whitespace c)) (contains_unsafe_text_control allow t))

utf8_width_bounds : (c w : ℕ) → utf8_width c ≡ some w → (1 ≤ w) × (w ≤ 4)
unfolding utf8_width
utf8_width_bounds c w h = ground arith

pub add_width-ok :
    (o : Option ℕ) (r : Result ℕ) (n : ℕ)
    → add_width o r ≡ ok n
    → (w : ℕ) × (m : ℕ) × (o ≡ some w) × (r ≡ ok m) × (n ≡ w + m)
add_width-ok none r n h = cc
add_width-ok (some w) (ok m) n h = (w, m, refl, refl, ground arith)
add_width-ok (some w) (err e) n h = cc

abbrev pub is_surrogate : ℕ → Bool
is_surrogate c = within 0xd800 0xdfff c

utf8_width-none : (c : ℕ) → is_surrogate c ≡ true → utf8_width c ≡ none
unfolding utf8_width
utf8_width-none c h = ground arith

utf8_width-never : (c : ℕ) → is_surrogate c ≡ false → utf8_width c ≢ none
unfolding utf8_width
utf8_width-never c h e = ground arith

pub utf8_width-some :
    (c : ℕ) → is_surrogate c ≡ false → (w : ℕ) × (utf8_width c ≡ some w) × (1 ≤ w) × (w ≤ 4)
utf8_width-some c h = elim (Option-cases (utf8_width c)) [
  | inr (w, e) ↦ let b = utf8_width_bounds c w e in (w, e, b.0, b.1)
  | inl e ↦ absurd (utf8_width-never c h e)
]

pub strict_utf8_size_bounds :
    (t : Text)
    → ((any is_surrogate t ≡ true) × (strict_utf8_size t ≡ err value_error))
      ⊎ ((any is_surrogate t ≡ false)
          × ((n : ℕ) × (strict_utf8_size t ≡ ok n) × (length t ≤ n) × (n ≤ 4 * length t)))
unfolding strict_utf8_size
strict_utf8_size_bounds [] = inr (refl, (0, refl, omega arith, omega arith))
strict_utf8_size_bounds (c ∷ t) = elim (Bool-cases (is_surrogate c)) [
  | inl lone ↦ inl (rw lone refl, rw (utf8_width-none c lone) refl)
  | inr free ↦
      let (w, width, low, high) = utf8_width-some c free in
      elim (strict_utf8_size_bounds t) [
        | inl (later, refusal) ↦ inl (rw (free, later) refl, rw (width, refusal) refl)
        | inr (none_left, (n, size, l, h)) ↦
            inr
              (rw (free, none_left) refl, (w + n, rw (width, size) refl, omega arith, omega arith))
      ]
]
