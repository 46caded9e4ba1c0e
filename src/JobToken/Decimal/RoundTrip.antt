-- ===== src/JobToken/Decimal/RoundTrip.antt =====
-- A printed int64 is read back.
use zagforge_mvp.Prelude.{
  ℕ, zero, suc, ◌+◌, ◌*◌, ◌/◌, ◌%◌, ◌^◌, ◌≤◌, ◌<◌, ◌≡◌, refl, ◌∙◌, true, Option, none, some, [],
  ◌∷◌, ℤ, pos, negsuc, ltb, leb, ◌==◌, arith, Bool-cases, inl, inr, ap, subst,
}
use zagforge_mvp.Prelude.Bytes.{Bytes}
use zagforge_mvp.JobToken.Decimal.{
  digits, format_nat, format_int, is_digit, scan, unsigned, negated, below, minus, parse_int,
}

-- the range of an int64
abbrev pub InRange : ℤ → Type 0
InRange (pos n) = n < 2 ^ 63
InRange (negsuc n) = n < 2 ^ 63

scan_digit : (n d : ℕ) (s : Bytes) → d < 10 → scan ((b'0' + d) ∷ s) n ≡ scan s (n * 10 + d)
unfolding scan
scan_digit n d s h = ground arith

-- reading the digits of `n` and what follows is reading what follows behind `n`
scan-digits : (fuel n : ℕ) (out : Bytes) → n < fuel → scan (digits fuel n out) 0 ≡ scan out n
unfolding digits
scan-digits zero n out h = absurd (omega arith)
scan-digits (suc fuel) n out h = elim (Bool-cases (ltb n 10)) [
  | inl small ↦ rw small (scan_digit 0 n out (ground arith) ∙ ap (scan out) (omega arith))
  | inr large ↦ rw large (
      scan-digits fuel (n / 10) ((b'0' + n % 10) ∷ out) (ground arith)
      ∙ scan_digit (n / 10) (n % 10) out (omega arith)
      ∙ ap (scan out) (omega arith))
]

-- the digits start with a digit
abbrev StartsWithDigit : Bytes → Type 0
StartsWithDigit [] = ⊥
StartsWithDigit (c ∷ s) = is_digit c ≡ true

digits-StartsWithDigit : (fuel n : ℕ) (out : Bytes) → n < fuel → StartsWithDigit (digits fuel n out)
unfolding digits
digits-StartsWithDigit zero n out h = absurd (omega arith)
digits-StartsWithDigit (suc fuel) n out h = elim (Bool-cases (ltb n 10)) [
  | inl small ↦ rw small (ground arith)
  | inr large ↦
      rw large (digits-StartsWithDigit fuel (n / 10) ((b'0' + n % 10) ∷ out) (ground arith))
]

unsigned_lem : (s : Bytes) → StartsWithDigit s → unsigned s ≡ scan s 0
unfolding unsigned
unsigned_lem [] h = absurd h
unsigned_lem (c ∷ s) h = refl

unsigned-format_nat : (n : ℕ) → unsigned (format_nat n) ≡ some n
unfolding format_nat scan
unsigned-format_nat n =
    unsigned_lem (digits (n + 1) n []) (digits-StartsWithDigit (n + 1) n [] (omega arith))
    ∙ scan-digits (n + 1) n [] (omega arith)

parse_plain : (s : Bytes) → StartsWithDigit s → parse_int s ≡ below (unsigned s)
unfolding parse_int
parse_plain [] h = absurd h
parse_plain (c ∷ s) h = ground arith

pub parse_int-format_int : (z : ℤ) → InRange z → parse_int (format_int z) ≡ some z
unfolding format_int
parse_int-format_int (pos n) h =
    parse_plain (format_nat n) (starts n) ∙ ap below (unsigned-format_nat n) ∙ ground arith
  where
    starts : (n : ℕ) → StartsWithDigit (format_nat n)
    starts n = unfold format_nat in digits-StartsWithDigit (n + 1) n [] (omega arith)
parse_int-format_int (negsuc n) h =
    unfold parse_int in (ap minus (unsigned-format_nat (n + 1)) ∙ ground arith)

-- a result, if there is one, is an int64
abbrev Fits : Option ℤ → Type 0
Fits none = Unit
Fits (some z) = InRange z

below-Fits : (o : Option ℕ) → Fits (below o)
below-Fits none = tt
below-Fits (some n) = elim (Bool-cases (ltb n (2 ^ 63))) [
  | inl e ↦ rw e (ground arith)
  | inr e ↦ rw e tt
]

minus-Fits : (o : Option ℕ) → Fits (minus o)
minus-Fits none = tt
minus-Fits (some n) = elim (Bool-cases (leb n (2 ^ 63))) [
  | inl e ↦ rw e (negated-InRange n (ground arith))
  | inr e ↦ rw e tt
]
  where
    negated-InRange : (n : ℕ) → n ≤ 2 ^ 63 → InRange (negated n)
    negated-InRange zero h = ground arith
    negated-InRange (suc n) h = ground arith

parse_int-Fits : (s : Bytes) → Fits (parse_int s)
unfolding parse_int
parse_int-Fits [] = tt
parse_int-Fits (c ∷ s) = elim (Bool-cases (c == b'-')) [
  | inl e ↦ rw e (minus-Fits (unsigned s))
  | inr e ↦ rw e (elim (Bool-cases (c == b'+')) [
    | inl f ↦ rw f (below-Fits (unsigned s))
    | inr f ↦ rw f (below-Fits (unsigned (c ∷ s)))
  ])
]

-- a parsed number is an int64
pub parse_int-InRange : (s : Bytes) (z : ℤ) → parse_int s ≡ some z → InRange z
parse_int-InRange s z h = subst Fits h (parse_int-Fits s)
