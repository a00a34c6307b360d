-- ===== src/Jsn/Validate/TokensSound.antt =====
-- What core/jsn/validate.go accepts as a string, a key or a word is one of the grammar.
use graphjin_slim.Base.{
  [], ◌∷◌, ◌++◌, ◌≡◌, refl, ◌⊎◌, inl, inr, ap, ◌∙◌, some, Bytes, ◌==◌, arith, ==_iff, Bool-cases,
  Option-cases, List-cases,
}
use graphjin_slim.Base.Utf8.{valid_utf8}
use graphjin_slim.Jsn.Validate.Strings.{Reason, Text, found, failed, validate_string, validate_key}
use graphjin_slim.Jsn.Validate.StringExact.{StringToken, validate_string_sound, validate_key_iff}
use graphjin_slim.Jsn.Validate.Numbers.{Scan, done, fail, out_of_fuel}
use graphjin_slim.Jsn.Validate.Grammar.{Quoted, Key}
use graphjin_slim.Jsn.Validate.{
  skip_spaces, find_control, check_text, string_value, key_value, strip_word, literal, Mark, comma,
  closing, other_mark, colon, member_key,
}

pub Scan-cases :
    (r : Scan)
    → ((t : Bytes) × (r ≡ done t))
      ⊎ (((t : Bytes) × (why : Reason) × (r ≡ fail t why)) ⊎ (r ≡ out_of_fuel))
Scan-cases (done t) = inl (t, refl)
Scan-cases (fail t why) = inr (inl (t, why, refl))
Scan-cases out_of_fuel = inr (inr refl)

pub Mark-cases : (m : Mark) → (m ≡ comma) ⊎ ((m ≡ closing) ⊎ (m ≡ other_mark))
Mark-cases comma = inl refl
Mark-cases closing = inr (inl refl)
Mark-cases other_mark = inr (inr refl)

check_text_sound :
    (s last tail t : Bytes)
    → StringToken s last tail
    → check_text (found last tail) ≡ done t
    → Quoted s t
unfolding check_text
check_text_sound s last tail t token h = elim (Bool-cases (valid_utf8 last)) [
  | inr bad ↦ absurd (ground arith)
  | inl good ↦ elim (Option-cases (find_control last)) [
    | inr (c, e) ↦ absurd (ground arith)
    | inl none_ ↦
        let same : tail ≡ t = ground arith in
        record { last = last; token = rw same at token; utf8 = good; no_control = none_ }
  ]
]

pub string_value_sound : (s t : Bytes) → string_value (validate_string s) ≡ done t → Quoted s t
unfolding string_value
string_value_sound s t h = go (validate_string s) refl h
  where
    go : (r : Text) → validate_string s ≡ r → string_value r ≡ done t → Quoted s t
    go (failed tail why) e k = cc
    go (found last tail) e k =
        check_text_sound s last tail t (validate_string_sound s last tail e) k

key_value_sound : (s t : Bytes) → key_value (validate_key s) ≡ done t → Quoted s t
unfolding key_value
key_value_sound s t h = go (validate_key s) refl h
  where
    go : (r : Text) → validate_key s ≡ r → key_value r ≡ done t → Quoted s t
    go (failed tail why) e k = cc
    go (found last tail) e k =
        check_text_sound s last tail t
          (validate_string_sound s last tail ((validate_key_iff s last tail).0 e)) k

colon_sound :
    (r : Scan) (t : Bytes)
    → colon r ≡ done t
    → (behind value : Bytes) × (r ≡ done behind)
      × (skip_spaces behind ≡ b':' ∷ value)
      × (skip_spaces value ≡ t)
unfolding colon
colon_sound (fail u why) t h = cc
colon_sound out_of_fuel t h = cc
colon_sound (done u) t h = elim (List-cases (skip_spaces u)) [
  | inl e ↦ absurd (ground arith)
  | inr (c, cs, e) ↦ elim (Bool-cases (c == b':')) [
    | inl col ↦ (u, cs, refl, e ∙ ap (λ x. x ∷ cs) ((==_iff c b':').0 col), ground arith)
    | inr bad ↦ absurd (ground arith)
  ]
]

pub member_key_sound : (s t : Bytes) → member_key s ≡ done t → Key s t
unfolding member_key
member_key_sound [] t h = cc
member_key_sound (c ∷ cs) t h = elim (Bool-cases (c == b'"')) [
  | inr bad ↦ absurd (ground arith)
  | inl opens_ ↦
      let (behind, value, read, col, starts_) =
        colon_sound (key_value (validate_key cs)) t (ground arith) in
      record {
        cs = cs;
        behind = behind;
        value = value;
        opens = ap (λ x. x ∷ cs) ((==_iff c b'"').0 opens_);
        quoted = key_value_sound cs behind read;
        colon = col;
        starts = starts_;
      }
]

strip_word_sound : (w s : Bytes) {t : Bytes} → strip_word w s ≡ some t → s ≡ w ++ t
unfolding strip_word
strip_word_sound [] s h = ground arith
strip_word_sound (w ∷ ws) [] h = cc
strip_word_sound (w ∷ ws) (c ∷ cs) {t} h = elim (Bool-cases (c == w)) [
  | inr differ ↦ absurd (ground arith)
  | inl same ↦
      let rest = strip_word_sound ws cs {t = t} (ground arith) in ground (arith, ==_iff c w)
]

pub literal_sound : (w s t : Bytes) → literal w s ≡ done t → s ≡ w ++ t
unfolding literal
literal_sound w s t h = elim (Option-cases (strip_word w s)) [
  | inl missing ↦ absurd (ground arith)
  | inr (u, e) ↦ let same : u ≡ t = ground arith in strip_word_sound w s e ∙ ap (λ x. w ++ x) same
]
