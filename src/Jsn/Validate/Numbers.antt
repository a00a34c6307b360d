-- ===== src/Jsn/Validate/Numbers.antt =====
-- core/jsn/validate.go: `validateNumber`.
use graphjin_slim.Base.{ℕ, suc, Bool, false, not, ◌&&◌, ◌||◌, [], ◌∷◌, Bytes, ◌==◌, if◌then◌else◌}
use graphjin_slim.Base.Utf8.{between}
use graphjin_slim.Jsn.Validate.Strings.{
  Reason, zero_length, after_minus, no_digit, leading_zero, no_fraction, no_fraction_digit,
  no_exponent, no_exponent_digit,
}

-- What a validator returns: the rest of the text, or the tail with the reason. The fuel of the
-- model is enough (Jsn/Validate/Total), so it never runs out.
pub data Scan : Type 0 where
  done : Bytes → Scan
  fail : Bytes → Reason → Scan
  out_of_fuel : Scan

abbrev pub is_digit : ℕ → Bool
is_digit = between b'0' b'9'

-- the loop `for i < len(s)` over the digits: `i`, and `s[i:]`
unfoldable pub digits : Bytes → ℕ
digits [] = 0
digits (c ∷ cs) = if is_digit c then suc (digits cs) else 0

unfoldable pub skip_digits : Bytes → Bytes
skip_digits [] = []
skip_digits (c ∷ cs) = if is_digit c then skip_digits cs else c ∷ cs

abbrev pub head_is : (ℕ → Bool) → Bytes → Bool
head_is p [] = false
head_is p (c ∷ _) = p c

unfoldable pub exponent_digits : Bytes → Scan
unfolding digits skip_digits
exponent_digits s = if digits s == 0 then fail s no_exponent_digit else done (skip_digits s)

unfoldable pub exponent_unsigned : Bytes → Scan
unfolding exponent_digits
exponent_unsigned [] = fail [] no_exponent
exponent_unsigned (c ∷ cs) = exponent_digits (c ∷ cs)

unfoldable pub exponent_sign : Bytes → Scan
unfolding exponent_unsigned exponent_digits
exponent_sign [] = fail [] no_exponent
exponent_sign (c ∷ cs) =
    if c == b'-' || c == b'+' then exponent_unsigned cs else exponent_digits (c ∷ cs)

abbrev pub is_e : ℕ → Bool
is_e c = c == b'e' || c == b'E'

unfoldable pub exponent : Bytes → Scan
unfolding exponent_sign
exponent [] = done []
exponent (c ∷ cs) = if is_e c then exponent_sign cs else done (c ∷ cs)

unfoldable pub fraction_digits : Bytes → Scan
unfolding exponent digits skip_digits
fraction_digits [] = fail [] no_fraction
fraction_digits (c ∷ cs) =
    if digits (c ∷ cs) == 0
    then fail (c ∷ cs) no_fraction_digit
    else exponent (skip_digits (c ∷ cs))

unfoldable pub fraction : Bytes → Scan
unfolding fraction_digits exponent
fraction [] = done []
fraction (c ∷ cs) = if c == b'.' then fraction_digits cs else exponent (c ∷ cs)

-- behind the sign
unfoldable pub unsigned : Bytes → Scan
unfolding fraction digits skip_digits
unsigned s =
    if digits s == 0
    then fail s no_digit
    else if head_is (λ c. c == b'0') s && not (digits s == 1)
    then fail s leading_zero
    else fraction (skip_digits s)

unfoldable pub after_sign : Bytes → Scan
unfolding unsigned
after_sign [] = fail [] after_minus
after_sign (c ∷ cs) = unsigned (c ∷ cs)

unfoldable pub validate_number : Bytes → Scan
unfolding after_sign unsigned
validate_number [] = fail [] zero_length
validate_number (c ∷ cs) = if c == b'-' then after_sign cs else unsigned (c ∷ cs)
