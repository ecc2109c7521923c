-- ===== src/Prelude/Decimal.antt =====
-- Python's `str(n)` for a number that is not negative.
use Prim.Native.Char.{Char}
use Prim.Native.String.{String}
use func_x.Prelude.{ℕ, zero, suc, ◌+◌, ◌/◌, ◌%◌, List, [], ◌∷◌, ltb, ◌==◌, if◌then◌else◌}

-- The digits of `n`, as code points, in front of `out`. The fuel `n + 1` is enough.
unfoldable pub emit : ℕ → ℕ → List ℕ → List ℕ
emit zero n out = out
emit (suc fuel) n out =
    let more = emit fuel (n / 10) ((b'0' + n % 10) ∷ out) in
    if ltb n 10 then (b'0' + n) ∷ out else more

unfoldable pub decimal : ℕ → List ℕ
unfolding emit
decimal n = emit (suc n) n []

abbrev digit_char : ℕ → Char
digit_char c =
    if c == b'0'
    then "0"
    else if c == b'1'
    then "1"
    else if c == b'2'
    then "2"
    else if c == b'3'
    then "3"
    else if c == b'4'
    then "4"
    else if c == b'5'
    then "5"
    else if c == b'6'
    then "6"
    else if c == b'7'
    then "7"
    else if c == b'8'
    then "8"
    else "9"

abbrev digits_text : List ℕ → String
digits_text [] = String.[]
digits_text (c ∷ cs) = String.◌∷◌ (digit_char c) (digits_text cs)

unfoldable pub str : ℕ → String
unfolding decimal
str n = digits_text (decimal n)
