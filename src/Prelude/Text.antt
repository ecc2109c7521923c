-- ===== src/Prelude/Text.antt =====
-- Python's `str` as code points: `split(sep, 1)`, slices, and `int` of ASCII text. `int` allows
-- white space around the number, a sign, and single underscores between digits.
use func_x.Prelude.{
  Option-cases, inl, inr, ℕ, zero, suc, ◌+◌, ◌-◌, ◌*◌, ◌/◌, ◌%◌, ◌<◌, ◌≡◌, refl, Bool, true, false,
  ◌&&◌, ◌||◌, Option, none, some, List, [], ◌∷◌, ◌++◌, All, length, take, drop, is_empty, leb, ◌==◌,
  if◌then◌else◌, arith,
}
use func_x.Prelude.Int.{ℤ, pos, negsuc}
use func_x.Prelude.Decimal.{emit, decimal}
use func_x.Prelude.Python.{value_error, Result, return, raise}

abbrev pub Text : Type 0
Text = List ℕ

-- `text.split(chr(sep), 1)`, where `sep` has to occur: what is before it and behind it.
unfoldable pub split_once : ℕ → Text → Option (Text × Text)
split_once sep [] = none
split_once sep (c ∷ cs) =
    let found = split_once sep cs in
    if c == sep
    then some ([], cs)
    else elim found [ none ↦ none | some (before, behind) ↦ some (c ∷ before, behind) ]

-- `text[:i]` and `text[i:]`
abbrev pub slice_to : ℤ → Text → Text
slice_to (pos n) s = take n s
slice_to (negsuc n) s = take (length s - suc n) s

abbrev pub slice_from : ℤ → Text → Text
slice_from (pos n) s = drop n s
slice_from (negsuc n) s = drop (length s - suc n) s

abbrev is_space : ℕ → Bool
is_space c = (leb 9 c && leb c 13) || (leb 28 c && leb c 32)

strip_left : Text → Text
strip_left [] = []
strip_left (c ∷ cs) = if is_space c then strip_left cs else c ∷ cs

strip_right : Text → Text
strip_right [] = []
strip_right (c ∷ cs) =
    let rest = strip_right cs in if is_empty rest && is_space c then [] else c ∷ rest

-- The digits behind `n`; `seen` tells that a digit is right before.
scan_int : ℕ → Bool → Text → Option ℕ
scan_int n seen [] = if seen then some n else none
scan_int n seen (c ∷ cs) = elim (leb b'0' c && leb c b'9') [
  | true ↦ scan_int (n * 10 + (c - b'0')) true cs
  | false ↦ elim (seen && (c == b'_')) [ true ↦ scan_int n false cs | false ↦ none ]
]

abbrev negative : ℕ → ℤ
negative zero = pos 0
negative (suc n) = negsuc n

abbrev signed : Text → Option ℤ
signed [] = none
signed (c ∷ cs) =
    if c == b'-'
    then elim (scan_int 0 false cs) [ none ↦ none | some n ↦ some (negative n) ]
    else elim (scan_int 0 false (if c == b'+' then cs else c ∷ cs)) [
      | none ↦ none
      | some n ↦ some (pos n)
    ]

unfoldable pub int : Text → Result ℤ
unfolding strip_left strip_right scan_int
int s = elim (signed (strip_right (strip_left s))) [ none ↦ raise value_error | some n ↦ return n ]

unfoldable pub IsDigit : ℕ → Type 0
IsDigit c = (leb b'0' c && leb c b'9') ≡ true

emit-IsDigit : (fuel n : ℕ) (out : Text) → All IsDigit out → All IsDigit (emit fuel n out)
unfolding emit IsDigit
emit-IsDigit zero n out h = h
emit-IsDigit (suc fuel) n out h =
    ground (arith, h, emit-IsDigit fuel (n / 10) ((b'0' + n % 10) ∷ out))

-- Reading back what was written in front of `out`.
scan_int-emit :
    (fuel n : ℕ) (out : Text) → n < fuel → scan_int 0 false (emit fuel n out) ≡ scan_int n true out
unfolding emit scan_int
scan_int-emit zero n out h = absurd (omega arith)
scan_int-emit (suc fuel) n out h =
    ground (arith, scan_int-emit fuel (n / 10) ((b'0' + n % 10) ∷ out))

strip_left-IsDigit : (s : Text) → All IsDigit s → strip_left s ≡ s
unfolding strip_left IsDigit
strip_left-IsDigit [] h = refl
strip_left-IsDigit (c ∷ cs) h = ground (arith, h.0)

strip_right-IsDigit : (s : Text) → All IsDigit s → strip_right s ≡ s
unfolding strip_right IsDigit
strip_right-IsDigit [] h = refl
strip_right-IsDigit (c ∷ cs) h = ground (arith, h.0, strip_right-IsDigit cs h.1)

signed-IsDigit :
    (s : Text) (n : ℕ) → All IsDigit s → scan_int 0 false s ≡ some n → signed s ≡ some (pos n)
unfolding IsDigit scan_int
signed-IsDigit [] n h e = absurd (ground arith)
signed-IsDigit (c ∷ cs) n h e = ground (arith, h.0)

int-IsDigit :
    (s : Text) (n : ℕ) → All IsDigit s → scan_int 0 false s ≡ some n → int s ≡ return (pos n)
unfolding int
int-IsDigit s n h e =
    rw (strip_left-IsDigit s h, strip_right-IsDigit s h, signed-IsDigit s n h e, int) refl

-- `int(str(n))` is `n`.
pub int-decimal : (n : ℕ) → int (decimal n) ≡ return (pos n)
unfolding decimal scan_int
int-decimal n =
    int-IsDigit (emit (suc n) n []) n (emit-IsDigit (suc n) n [] tt)
      (scan_int-emit (suc n) n [] (omega arith))

-- A text without the separator, then the separator: the split is there.
pub split_once-append :
    (sep : ℕ) (before behind : Text)
    → All (λ c. (c == sep) ≡ false) before
    → split_once sep (before ++ sep ∷ behind) ≡ some (before, behind)
unfolding split_once
split_once-append sep [] behind h = ground arith
split_once-append sep (c ∷ cs) behind h = ground (arith, h.0, split_once-append sep cs behind h.1)

-- What is behind the separator is shorter than the whole.
pub split_once-shorter :
    (sep : ℕ) (s before behind : Text)
    → split_once sep s ≡ some (before, behind)
    → length behind < length s
unfolding split_once
split_once-shorter sep [] before behind h = absurd (cc)
split_once-shorter sep (c ∷ cs) before behind h = elim (Option-cases (split_once sep cs)) [
  | inl e ↦ ground arith
  | inr ((a, b), e) ↦ ground (arith, split_once-shorter sep cs a b e)
]

pub decimal-IsDigit : (n : ℕ) → All IsDigit (decimal n)
unfolding decimal
decimal-IsDigit n = emit-IsDigit (suc n) n [] tt
