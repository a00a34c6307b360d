-- ===== src/Jsn/Validate/Lengths.antt =====
-- Each part of the grammar takes at least one byte of the text.
use graphjin_slim.Base.{ℕ, ◌≤◌, ◌<◌, [], ◌∷◌, ◌++◌, ◌≡◌, ap, Bytes, length, arith, length-append}
use graphjin_slim.Jsn.Validate.Exponents.{
  Digits, Exponent, no_exponent, plain_exponent, signed_exponent, Fraction, no_fraction,
  fraction_part, Unsigned, NumberToken, positive, negative,
}
use graphjin_slim.Jsn.Validate.Grammar.{
  Quoted, Key, Word, is_true, is_false, is_null, Value, object, array, text, word, number,
  ArrayBody, empty_array, full_array, Elements, last_element, more_elements, ObjectBody,
  empty_object, full_object, Members, last_member, more_members,
}
use graphjin_slim.Jsn.Validate.{skip_spaces_slow, skip_spaces}

slow-le : (s : Bytes) → length (skip_spaces_slow s) ≤ length s
unfolding skip_spaces_slow
slow-le [] = omega arith
slow-le (c ∷ cs) = ground (arith, slow-le cs)

pub skip_spaces-le : (s : Bytes) → length (skip_spaces s) ≤ length s
unfolding skip_spaces
skip_spaces-le [] = omega arith
skip_spaces-le (c ∷ cs) = ground (arith, slow-le (c ∷ cs))

-- what is behind a byte that is left when the white space is off
pub behind-lt : (s : Bytes) {c : ℕ} {t : Bytes} → skip_spaces s ≡ c ∷ t → length t < length s
behind-lt s e = omega (arith, ap length e, skip_spaces-le s)

pub Quoted-lt : (s t : Bytes) → Quoted s t → length t < length s
Quoted-lt s t q = omega (arith, ap length q.token.whole, length-append q.token.body (b'"' ∷ t))

pub Key-lt : (s t : Bytes) → Key s t → length t < length s
Key-lt s t k = omega (
  arith,
  ap length k.opens,
  Quoted-lt k.cs k.behind k.quoted,
  behind-lt k.behind k.colon,
  ap length k.starts,
  skip_spaces-le k.value,
)

Digits-lt : (s t : Bytes) → Digits s t → length t < length s
Digits-lt s t d = omega (arith, ap length d.whole, length-append d.others t)

Exponent-le : (s t : Bytes) → Exponent s t → length t ≤ length s
Exponent-le s t (no_exponent e h) = omega (arith, ap length e)
Exponent-le s t (plain_exponent e u whole h d) = omega (arith, ap length whole, Digits-lt u t d)
Exponent-le s t (signed_exponent e sign u whole h k d) =
    omega (arith, ap length whole, Digits-lt u t d)

Fraction-le : (s t : Bytes) → Fraction s t → length t ≤ length s
Fraction-le s t (no_fraction e h) = omega (arith, ap length e)
Fraction-le s t (fraction_part u whole d) = omega (arith, ap length whole, Digits-lt u t d)

Unsigned-lt : (s t : Bytes) → Unsigned s t → length t < length s
Unsigned-lt s t u = omega (
  arith,
  Digits-lt s u.behind_digits u.integer,
  Fraction-le u.behind_digits u.behind_fraction u.fraction_form,
  Exponent-le u.behind_fraction t u.exponent_form,
)

pub NumberToken-lt : (s t : Bytes) → NumberToken s t → length t < length s
NumberToken-lt s t (positive u) = Unsigned-lt s t u
NumberToken-lt s t (negative v whole u) = omega (arith, ap length whole, Unsigned-lt v t u)

Word-lt : (w t : Bytes) → Word w → length t < length (w ++ t)
Word-lt w t (is_true e) = omega (arith, ap length e, length-append w t)
Word-lt w t (is_false e) = omega (arith, ap length e, length-append w t)
Word-lt w t (is_null e) = omega (arith, ap length e, length-append w t)

mutual
  pub Value-lt : {d : ℕ} {s t : Bytes} → Value d s t → length t < length s
  Value-lt (object cs e b) = omega (arith, ap length e, ObjectBody-lt b)
  Value-lt (array cs e b) = omega (arith, ap length e, ArrayBody-lt b)
  Value-lt {d} {s} {t} (text cs h e q) = omega (arith, ap length e, Quoted-lt cs t q)
  Value-lt {d} {s} {t} (word w h k e) = omega (arith, ap length e, Word-lt w t k)
  Value-lt {d} {s} {t} (number h k) = NumberToken-lt s t k

  pub ArrayBody-lt : {d : ℕ} {s t : Bytes} → ArrayBody d s t → length t < length s
  ArrayBody-lt {d} {s} {t} (empty_array h e) = behind-lt s e
  ArrayBody-lt {d} {s} {t} (full_array h e) = omega (arith, Elements-lt e, skip_spaces-le s)

  pub Elements-lt : {d : ℕ} {s t : Bytes} → Elements d s t → length t < length s
  Elements-lt {d} {s} {t} (last_element u v e) =
      omega (arith, Value-lt v, behind-lt u e, skip_spaces-le s)
  Elements-lt {d} {s} {t} (more_elements u w v e r) =
      omega (arith, Value-lt v, behind-lt u e, Elements-lt r, skip_spaces-le s)

  pub ObjectBody-lt : {d : ℕ} {s t : Bytes} → ObjectBody d s t → length t < length s
  ObjectBody-lt {d} {s} {t} (empty_object h e) = behind-lt s e
  ObjectBody-lt {d} {s} {t} (full_object h e) = omega (arith, Members-lt e, skip_spaces-le s)

  pub Members-lt : {d : ℕ} {s t : Bytes} → Members d s t → length t < length s
  Members-lt {d} {s} {t} (last_member v u k x e) =
      omega (arith, Key-lt (skip_spaces s) v k, Value-lt x, behind-lt u e, skip_spaces-le s)
  Members-lt {d} {s} {t} (more_members v u w k x e r) =
      omega (
        arith,
        Key-lt (skip_spaces s) v k,
        Value-lt x,
        behind-lt u e,
        Members-lt r,
        skip_spaces-le s,
      )
