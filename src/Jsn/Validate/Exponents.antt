-- ===== src/Jsn/Validate/Exponents.antt =====
-- The grammar of JSON numbers, and the digits and the exponent of `validateNumber` in
-- core/jsn/validate.go.
use mathlib.Core.Path.{subst}
use graphjin_slim.Base.{
  ℕ, suc, Bool, true, false, ◌&&◌, ◌||◌, [], ◌∷◌, ◌++◌, ◌≡◌, refl, ◌↔◌, inl, inr, ap, ◌∙◌, Bytes,
  length, ◌==◌, arith, Bool-cases,
}
use graphjin_slim.Jsn.Validate.Numbers.{
  done, is_digit, digits, skip_digits, head_is, is_e, exponent_digits, exponent_unsigned,
  exponent_sign, exponent,
}

abbrev all_digits : Bytes → Bool
all_digits [] = true
all_digits (c ∷ cs) = is_digit c && all_digits cs

-- One or more digits in front of `t`, which goes on with no digit.
pub record Digits (s t : Bytes) : Type 0 where
  pub first : ℕ
  pub others : Bytes
  pub whole : s ≡ first ∷ (others ++ t)
  pub form : all_digits (first ∷ others) ≡ true
  pub stops : head_is is_digit t ≡ false

pub data Exponent : Bytes → Bytes → Type 0 where
  no_exponent : {s t : Bytes} → s ≡ t → head_is is_e s ≡ false → Exponent s t
  plain_exponent :
      {s t : Bytes} (e : ℕ) (u : Bytes) → s ≡ e ∷ u → is_e e ≡ true → Digits u t → Exponent s t
  signed_exponent :
      {s t : Bytes} (e sign : ℕ) (u : Bytes)
      → s ≡ e ∷ sign ∷ u
      → is_e e ≡ true
      → (sign == b'-' || sign == b'+') ≡ true
      → Digits u t
      → Exponent s t

pub data Fraction : Bytes → Bytes → Type 0 where
  no_fraction : {s t : Bytes} → s ≡ t → head_is (λ c. c == b'.') s ≡ false → Fraction s t
  fraction_part : {s t : Bytes} (u : Bytes) → s ≡ b'.' ∷ u → Digits u t → Fraction s t

-- A number without its sign: a zero alone or digits that begin with no zero, and the two parts.
pub record Unsigned (s t : Bytes) : Type 0 where
  pub behind_digits : Bytes
  pub behind_fraction : Bytes
  pub integer : Digits s behind_digits
  pub no_leading_zero : (integer.first ≡ b'0') → integer.others ≡ []
  pub fraction_form : Fraction behind_digits behind_fraction
  pub exponent_form : Exponent behind_fraction t

pub data NumberToken : Bytes → Bytes → Type 0 where
  positive : {s t : Bytes} → Unsigned s t → NumberToken s t
  negative : {s t : Bytes} (u : Bytes) → s ≡ b'-' ∷ u → Unsigned u t → NumberToken s t

digits_parts :
    (s : Bytes)
    → (ds : Bytes) × (s ≡ ds ++ skip_digits s)
      × (all_digits ds ≡ true)
      × (length ds ≡ digits s)
      × (head_is is_digit (skip_digits s) ≡ false)
unfolding digits skip_digits
digits_parts [] = ([], refl, refl, refl, refl)
digits_parts (c ∷ cs) = elim (Bool-cases (is_digit c)) [
  | inl digit ↦
      let (ds, whole, form, len, stops) = digits_parts cs in
      rw digit (c ∷ ds, ap (◌∷◌ c) whole, ground arith, ap suc len, stops)
  | inr other ↦ rw other ([], refl, refl, refl, other)
]

pub digits_sound :
    (s : Bytes)
    → (digits s == 0) ≡ false
    → (d : Digits s (skip_digits s)) × (suc (length d.others) ≡ digits s)
digits_sound s h = go (digits_parts s)
  where
    go :
        (ds : Bytes) × (s ≡ ds ++ skip_digits s)
          × (all_digits ds ≡ true)
          × (length ds ≡ digits s)
          × (head_is is_digit (skip_digits s) ≡ false)
        → (d : Digits s (skip_digits s)) × (suc (length d.others) ≡ digits s)
    go ([], whole, form, len, stops) = absurd (ground arith)
    go (d ∷ ds, whole, form, len, stops) =
        (record { first = d; others = ds; whole = whole; form = form; stops = stops }, len)

-- the digits and what is behind them
digits-append :
    (ds t : Bytes)
    → all_digits ds ≡ true
    → head_is is_digit t ≡ false
    → (digits (ds ++ t) ≡ length ds) × (skip_digits (ds ++ t) ≡ t)
unfolding digits skip_digits
digits-append [] [] h k = (refl, refl)
digits-append [] (c ∷ t) h k = (rw k refl, rw k refl)
digits-append (d ∷ ds) t h k = ground (arith, digits-append ds t)

pub digits_complete :
    (s t : Bytes) (d : Digits s t) → (digits s ≡ suc (length d.others)) × (skip_digits s ≡ t)
digits_complete s t d =
    let (count, rest) = digits-append (d.first ∷ d.others) t d.form d.stops in
    (ap digits d.whole ∙ count, ap skip_digits d.whole ∙ rest)

exponent_digits_iff : (s t : Bytes) → (exponent_digits s ≡ done t) ↔ Digits s t
unfolding exponent_digits
exponent_digits_iff s t = (
  λ h. elim (Bool-cases (digits s == 0)) [
    | inl none_ ↦ absurd (ground arith)
    | inr some_ ↦
        let ends : skip_digits s ≡ t = ground arith in
        subst (Digits s) ends (digits_sound s some_).0
  ],
  λ d. ground (arith, digits_complete s t d),
)

pub done_inj : (a b : Bytes) → done a ≡ done b → a ≡ b
done_inj a b h = cc

-- `exponent_unsigned` is `exponent_digits` where it accepts.
behind_sign : (s t : Bytes) → exponent_unsigned s ≡ done t → exponent_digits s ≡ done t
unfolding exponent_unsigned
behind_sign [] t h = cc
behind_sign (c ∷ cs) t h = h

pub exponent_sound : (s t : Bytes) → exponent s ≡ done t → Exponent s t
unfolding exponent exponent_sign exponent_unsigned
exponent_sound [] t h = no_exponent (done_inj [] t h) refl
exponent_sound (c ∷ []) t h = elim (Bool-cases (is_e c)) [
  | inl e ↦ absurd (ground arith)
  | inr other ↦ no_exponent (ground arith) other
]
exponent_sound (c ∷ d ∷ ds) t h = elim (Bool-cases (is_e c)) [
  | inr other ↦ no_exponent (ground arith) other
  | inl e ↦ elim (Bool-cases (d == b'-' || d == b'+')) [
    | inr unsigned_ ↦
        plain_exponent c (d ∷ ds) refl e ((exponent_digits_iff (d ∷ ds) t).0 (ground arith))
    | inl sign ↦
        signed_exponent c d ds refl e sign
          ((exponent_digits_iff ds t).0 (behind_sign ds t (ground arith)))
  ]
]

pub no_minus : (c : ℕ) → is_digit c ≡ true → (c == b'-') ≡ false
no_minus c h = ground arith

digit_no_sign : (c : ℕ) → is_digit c ≡ true → (c == b'-' || c == b'+') ≡ false
digit_no_sign c h = ground arith

pub exponent_complete : (s t : Bytes) → Exponent s t → exponent s ≡ done t
unfolding exponent exponent_sign exponent_unsigned
exponent_complete [] t (no_exponent e h) = ap done e
exponent_complete (c ∷ cs) t (no_exponent e h) = rw h (ap done e)
exponent_complete s t (plain_exponent e u whole is_e_ d) =
    let accepted = (exponent_digits_iff (d.first ∷ (d.others ++ t)) t).1 (rw d.whole at d) in
    rw (whole, d.whole, exponent, is_e_, digit_no_sign d.first (ground arith)) accepted
exponent_complete s t (signed_exponent e sign u whole is_e_ is_sign d) =
    let accepted = (exponent_digits_iff (d.first ∷ (d.others ++ t)) t).1 (rw d.whole at d) in
    rw (whole, d.whole, exponent, is_e_, is_sign) accepted
