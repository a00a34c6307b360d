-- ===== src/Jsn/Validate/NumberExact.antt =====
-- `validateNumber` accepts exactly the numbers of JSON, and takes the longest.
use graphjin_slim.Base.{
  ℕ, suc, Bool, false, not, ◌&&◌, [], ◌∷◌, ◌++◌, ◌≡◌, refl, ◌↔◌, inl, inr, sym, ap, ◌∙◌, Bytes,
  length, ◌==◌, arith, ==_iff, Bool-cases,
}
use graphjin_slim.Jsn.Validate.Numbers.{
  done, digits, skip_digits, head_is, exponent, fraction_digits, fraction, unsigned, after_sign,
  validate_number,
}
use graphjin_slim.Jsn.Validate.Exponents.{
  Exponent, Fraction, NumberToken, Unsigned, digits_complete, digits_sound, done_inj,
  exponent_complete, exponent_sound, fraction_part, negative, no_exponent, no_fraction, no_minus,
  positive,
}

-- the part behind the digits of the integer
pub record Parts (s t : Bytes) : Type 0 where
  pub middle : Bytes
  pub fraction_form : Fraction s middle
  pub exponent_form : Exponent middle t

fraction_sound : (s t : Bytes) → fraction s ≡ done t → Parts s t
unfolding fraction fraction_digits
fraction_sound [] t h = record {
  middle = [];
  fraction_form = no_fraction refl refl;
  exponent_form = no_exponent (done_inj [] t h) refl;
}
fraction_sound (c ∷ cs) t h = elim (Bool-cases (c == b'.')) [
  | inr other ↦ record {
    middle = c ∷ cs;
    fraction_form = no_fraction refl other;
    exponent_form = exponent_sound (c ∷ cs) t (ground arith);
  }
  | inl dot ↦ go cs (ap (λ x. x ∷ cs) ((==_iff c b'.').0 dot)) (ground arith)
]
  where
    go : (u : Bytes) → c ∷ cs ≡ b'.' ∷ u → fraction_digits u ≡ done t → Parts (c ∷ cs) t
    go [] whole k = cc
    go (d ∷ ds) whole k = elim (Bool-cases (digits (d ∷ ds) == 0)) [
      | inl none_ ↦ absurd (ground arith)
      | inr some_ ↦ record {
        middle = skip_digits (d ∷ ds);
        fraction_form = fraction_part (d ∷ ds) whole (digits_sound (d ∷ ds) some_).0;
        exponent_form = exponent_sound (skip_digits (d ∷ ds)) t (ground arith);
      }
    ]

is_e_no_dot : (s : Bytes) → head_is (λ c. c == b'.') s ≡ false → fraction s ≡ exponent s
unfolding fraction exponent
is_e_no_dot [] h = refl
is_e_no_dot (c ∷ cs) h = rw h refl

dotted :
    (d : ℕ) (ds : Bytes) {n : ℕ}
    → digits (d ∷ ds) ≡ suc n
    → fraction (b'.' ∷ d ∷ ds) ≡ exponent (skip_digits (d ∷ ds))
unfolding fraction fraction_digits
dotted d ds h = rw h (ground arith)

fraction_complete : (s t : Bytes) → Parts s t → fraction s ≡ done t
fraction_complete s t p = go p.fraction_form
  where
    go : Fraction s p.middle → fraction s ≡ done t
    go (no_fraction e h) =
        is_e_no_dot s h ∙ ap exponent e ∙ exponent_complete p.middle t p.exponent_form
    go (fraction_part u whole d) =
        let (count, rest) = digits_complete u p.middle d in
        ap fraction (whole ∙ ap (◌∷◌ b'.') d.whole)
        ∙ dotted d.first (d.others ++ p.middle) (ap digits (sym d.whole) ∙ count)
        ∙ ap exponent (ap skip_digits (sym d.whole) ∙ rest)
        ∙ exponent_complete p.middle t p.exponent_form

abbrev is_zero : ℕ → Bool
is_zero c = c == b'0'

nil_of_length : (xs : Bytes) → length xs ≡ 0 → xs ≡ []
nil_of_length [] h = refl
nil_of_length (x ∷ xs) h = absurd (omega arith)

unsigned_sound : (s t : Bytes) → unsigned s ≡ done t → Unsigned s t
unfolding unsigned
unsigned_sound s t h = elim (Bool-cases (digits s == 0)) [
  | inl none_ ↦ absurd (ground arith)
  | inr some_ ↦ elim (Bool-cases (head_is is_zero s && not (digits s == 1))) [
    | inl zeros ↦ absurd (ground arith)
    | inr fine ↦
        let (d, len) = digits_sound s some_ in
        let parts = fraction_sound (skip_digits s) t (ground arith) in
        let head : head_is is_zero s ≡ is_zero d.first = ap (head_is is_zero) d.whole in
        record {
          behind_digits = skip_digits s;
          behind_fraction = parts.middle;
          integer = d;
          no_leading_zero = λ zero_.
              nil_of_length d.others (lone (d.first) (length d.others) head zero_ len fine);
          fraction_form = parts.fraction_form;
          exponent_form = parts.exponent_form;
        }
  ]
]
  where
    lone :
        (first n : ℕ)
        → head_is is_zero s ≡ is_zero first
        → first ≡ b'0'
        → suc n ≡ digits s
        → (head_is is_zero s && not (digits s == 1)) ≡ false
        → n ≡ 0
    lone first n head zero_ len fine = ground (arith, ==_iff first b'0')

unsigned_complete : (s t : Bytes) → Unsigned s t → unsigned s ≡ done t
unfolding unsigned
unsigned_complete s t u =
    let d = u.integer in
    let (count, rest) = digits_complete s u.behind_digits d in
    let head : head_is is_zero s ≡ is_zero d.first = ap (head_is is_zero) d.whole in
    let parts : Parts u.behind_digits t = record {
      middle = u.behind_fraction;
      fraction_form = u.fraction_form;
      exponent_form = u.exponent_form;
    } in
    let accepted = fraction_complete u.behind_digits t parts in
    let fine : (head_is is_zero s && not (digits s == 1)) ≡ false =
      fits d.first d.others head count u.no_leading_zero in
    let some_ : (digits s == 0) ≡ false = ground arith in rw (some_, fine, rest) accepted
  where
    fits :
        (first : ℕ) (others : Bytes)
        → head_is is_zero s ≡ is_zero first
        → digits s ≡ suc (length others)
        → (first ≡ b'0' → others ≡ [])
        → (head_is is_zero s && not (digits s == 1)) ≡ false
    fits first others head count alone = elim (Bool-cases (is_zero first)) [
      | inr other ↦ rw (head, other) refl
      | inl zero_ ↦
          let none_ : length others ≡ 0 = ap length (alone ((==_iff first b'0').0 zero_)) in
          ground arith
    ]

number_sound : (s t : Bytes) → validate_number s ≡ done t → NumberToken s t
unfolding validate_number after_sign
number_sound [] t h = cc
number_sound (c ∷ []) t h = elim (Bool-cases (c == b'-')) [
  | inl minus ↦ absurd (ground arith)
  | inr other ↦ positive (unsigned_sound (c ∷ []) t (ground arith))
]
number_sound (c ∷ d ∷ ds) t h = elim (Bool-cases (c == b'-')) [
  | inl minus ↦
      negative (d ∷ ds) (ap (λ x. x ∷ d ∷ ds) ((==_iff c b'-').0 minus))
        (unsigned_sound (d ∷ ds) t (ground arith))
  | inr other ↦ positive (unsigned_sound (c ∷ d ∷ ds) t (ground arith))
]

number_complete : (s t : Bytes) → NumberToken s t → validate_number s ≡ done t
unfolding validate_number after_sign
number_complete s t (positive u) =
    let d = u.integer in
    let accepted = ap unsigned (sym d.whole) ∙ unsigned_complete s t u in
    rw (d.whole, validate_number, no_minus d.first (ground arith)) accepted
number_complete s t (negative v whole u) =
    let d = u.integer in
    let accepted = ap unsigned (sym d.whole) ∙ unsigned_complete v t u in
    rw (whole, d.whole, validate_number) accepted

-- `validateNumber` reads a text up to `t` without an error exactly if the text starts with a number
-- of JSON that is as long as it can be and `t` is what is behind it.
pub validate_number_iff : (s t : Bytes) → (validate_number s ≡ done t) ↔ NumberToken s t
validate_number_iff s t = (number_sound s t, number_complete s t)
