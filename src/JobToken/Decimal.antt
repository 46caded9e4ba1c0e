-- ===== src/JobToken/Decimal.antt =====
-- The decimal prints of strconv and fmt, and strconv.ParseInt with base 10 and 64 bits.
pub mod RoundTrip
use zagforge_mvp.Prelude.Bytes.{Bytes}
use zagforge_mvp.Prelude.{
  ℕ, zero, suc, ◌+◌, ◌-◌, ◌*◌, ◌/◌, ◌%◌, ◌^◌, Bool, ◌&&◌, Option, none, some, List, [], ◌∷◌, ℤ, pos,
  negsuc, ltb, leb, ◌==◌, if◌then◌else◌,
}

-- the decimal digits of a number in front of a text; the fuel is one more than the number
pub digits : ℕ → ℕ → Bytes → Bytes
digits zero n out = out
digits (suc fuel) n out =
    let more = digits fuel (n / 10) ((b'0' + n % 10) ∷ out) in
    if ltb n 10 then (b'0' + n) ∷ out else more

pub format_nat : ℕ → Bytes
format_nat n = digits (n + 1) n []

-- `%d` of an int64
pub format_int : ℤ → Bytes
format_int (pos n) = format_nat n
format_int (negsuc n) = b'-' ∷ format_nat (n + 1)

abbrev pub is_digit : ℕ → Bool
is_digit c = leb b'0' c && leb c b'9'

-- the number that a text of digits spells behind `n`
pub scan : Bytes → ℕ → Option ℕ
scan [] n = some n
scan (c ∷ s) n = let rest = scan s (n * 10 + (c - b'0')) in if is_digit c then rest else none

pub unsigned : Bytes → Option ℕ
unsigned [] = none
unsigned (c ∷ s) = scan (c ∷ s) 0

abbrev pub negated : ℕ → ℤ
negated zero = pos 0
negated (suc n) = negsuc n

-- the range checks come last here: a number that is too large for uint64 is for int64 too
abbrev pub below : Option ℕ → Option ℤ
below none = none
below (some n) = if ltb n (2 ^ 63) then some (pos n) else none

abbrev pub minus : Option ℕ → Option ℤ
minus none = none
minus (some n) = if leb n (2 ^ 63) then some (negated n) else none

-- ParseInt(s, 10, 64)
pub parse_int : Bytes → Option ℤ
parse_int [] = none
parse_int (c ∷ s) =
    if c == b'-'
    then minus (unsigned s)
    else if c == b'+'
    then below (unsigned s)
    else below (unsigned (c ∷ s))
