-- ===== src/Jsn/Validate/StringExact.antt =====
-- `validateString` and `validateKey` accept exactly the strings of the grammar.
use mathlib.Core.Path.{subst}
use mathlib.Core.List.{append-nil, append_assoc}
use graphjin_slim.Base.{
  ℕ, suc, true, false, [], ◌∷◌, ◌++◌, ◌≡◌, refl, ◌↔◌, inl, inr, sym, ap, ◌∙◌, some, Bytes, length,
  ◌==◌, elem, elem-append, arith, ==_iff, Bool-cases, Option-cases, length-append,
}
use graphjin_slim.Jsn.Validate.Strings.{
  Text, found, failed, split_at, parse_raw_string, has_slash, unescape_raw, validate_string,
  key_loop, validate_key,
}
use graphjin_slim.Jsn.Validate.RawStrings.{
  balanced, split_at-eq-some, split_at-eq-none, split_at-append, split_at_absent, raw_sound,
  raw_complete,
}
use graphjin_slim.Jsn.Validate.StringLaws.{
  IsPlain, Body, plain, escape, Body-balanced, escapes_sound, escapes_complete,
}

-- A string token: `s` begins with its bytes behind the opening quote, then the closing quote, then `tail`.
pub record StringToken (s last tail : Bytes) : Type 0 where
  pub body : Bytes
  pub whole : s ≡ body ++ (b'"' ∷ tail)
  pub form : Body last body

slow_sound :
    (s last tail : Bytes)
    → unescape_raw (parse_raw_string s) ≡ found last tail
    → StringToken s last tail
unfolding parse_raw_string unescape_raw
slow_sound s last tail h = go (parse_raw_string s) refl h
  where
    go :
        (r : Text)
        → parse_raw_string s ≡ r
        → unescape_raw r ≡ found last tail
        → StringToken s last tail
    go (failed t why) e h' = cc
    go (found rs t) e h' =
        let (body, rs_is, whole, bal) = raw_sound (suc (length s)) [] s e in
        let (same, form) =
          escapes_sound (suc (length rs)) rs t (ap (balanced false) rs_is ∙ bal) h' in
        record {
          body = body;
          whole = whole ∙ ap (λ x. body ++ (b'"' ∷ x)) (sym same);
          form = subst (Body last) rs_is form;
        }

slow_complete :
    (body last tail : Bytes)
    → Body last body
    → unescape_raw (parse_raw_string (body ++ (b'"' ∷ tail))) ≡ found last tail
unfolding parse_raw_string unescape_raw
slow_complete body last tail b =
    rw
      (raw_complete (suc (length (body ++ (b'"' ∷ tail)))) [] body tail
        (omega (arith, length-append body (b'"' ∷ tail))) (Body-balanced b))
      (escapes_complete (suc (length body)) body tail (omega arith) b)

has_slash_iff : (l : Bytes) → has_slash l ≡ false → elem b'\\' l ≡ false
has_slash_iff l h = elim (Option-cases (split_at b'\\' l)) [
  | inl e ↦ split_at-eq-none b'\\' l e
  | inr (p, e) ↦ absurd (ground arith)
]

slash_absent : (l : Bytes) → elem b'\\' l ≡ false → has_slash l ≡ false
slash_absent l h = rw (split_at_absent b'\\' l h, has_slash) refl

-- A backslash in front of the first quote is seen.
slash_first :
    (v x l y : Bytes)
    → IsPlain v
    → v ++ (b'\\' ∷ x) ≡ l ++ (b'"' ∷ y)
    → elem b'"' l ≡ false
    → elem b'\\' l ≡ true
slash_first [] x [] y p e h = absurd (ground arith)
slash_first [] x (c ∷ l) y p e h = ground (arith, ==_iff c b'\\')
slash_first (c ∷ v) x [] y p e h = absurd (ground (arith, ==_iff c b'"'))
slash_first (c ∷ v) x (d ∷ l) y p e h = ground (arith, slash_first v x l y)

pub validate_string_sound :
    (s last tail : Bytes) → validate_string s ≡ found last tail → StringToken s last tail
unfolding validate_string
validate_string_sound s last tail h = elim (Option-cases (split_at b'"' s)) [
  | inl none_ ↦ slow_sound s last tail (ground arith)
  | inr ((l, r), e) ↦ elim (Bool-cases (has_slash l)) [
    | inl slash ↦ slow_sound s last tail (ground arith)
    | inr clean ↦
        let (whole, quote_free) = split_at-eq-some b'"' s e in
        let ends : (l ≡ last) × (r ≡ tail) = ground arith in
        record {
          body = l;
          whole = whole ∙ ap (λ x. l ++ (b'"' ∷ x)) ends.1;
          form = plain ends.0 (quote_free, has_slash_iff l clean);
        }
  ]
]

pub validate_string_complete :
    (s last tail : Bytes) → StringToken s last tail → validate_string s ≡ found last tail
unfolding validate_string
validate_string_complete s last tail t = go t.form t.whole
  where
    by_slow :
        (v x : Bytes)
        → IsPlain v
        → s ≡ v ++ (b'\\' ∷ x)
        → unescape_raw (parse_raw_string s) ≡ found last tail
        → validate_string s ≡ found last tail
    by_slow v x p parts slow = elim (Option-cases (split_at b'"' s)) [
      | inl none_ ↦ rw (none_, validate_string) slow
      | inr ((l, r), e) ↦ elim (Bool-cases (has_slash l)) [
        | inl slash ↦ rw (e, validate_string, slash) slow
        | inr clean ↦
            let (whole, quote_free) = split_at-eq-some b'"' s e in
            let seen = slash_first v x l r p (sym parts ∙ whole) quote_free in
            let unseen = has_slash_iff l clean in cc
      ]
    ]

    go :
        {body : Bytes}
        → Body last body
        → s ≡ body ++ (b'"' ∷ tail)
        → validate_string s ≡ found last tail
    go (plain {v} e p) whole =
        let split_ : split_at b'"' s ≡ some (v, tail) =
          ap (split_at b'"') whole ∙ split_at-append b'"' v tail p.0 in
        rw (split_, validate_string, slash_absent v p.1, e) refl
    go {body} (escape v e rest shape p esc b) whole =
        let slow : unescape_raw (parse_raw_string s) ≡ found last tail =
          ap (λ x. unescape_raw (parse_raw_string x)) whole
          ∙ slow_complete body last tail (escape v e rest shape p esc b) in
        let parts : s ≡ v ++ (b'\\' ∷ ((e ++ rest) ++ (b'"' ∷ tail))) =
          whole
          ∙ ap (λ x. x ++ (b'"' ∷ tail)) shape
          ∙ append_assoc v (b'\\' ∷ (e ++ rest)) (b'"' ∷ tail) in
        by_slow v ((e ++ rest) ++ (b'"' ∷ tail)) p parts slow

elem-middle_self : (b : ℕ) (l r : Bytes) → elem b (l ++ (b ∷ r)) ≡ true
elem-middle_self b [] r = ground (arith, ==_iff b b)
elem-middle_self b (c ∷ l) r = ground (arith, elem-middle_self b l r)

key-eq-string :
    (s seen cs k t : Bytes)
    → s ≡ seen ++ cs
    → IsPlain seen
    → (key_loop s seen cs ≡ found k t) ↔ (validate_string s ≡ found k t)
unfolding key_loop
key-eq-string s seen [] k t e p = (
  λ h. cc,
  λ h.
      let token = validate_string_sound s k t h in
      let quoted = ap (elem b'"') token.whole ∙ elem-middle_self b'"' token.body t in
      let unquoted = ap (elem b'"') (e ∙ append-nil seen) ∙ p.0 in cc,
)
key-eq-string s seen (c ∷ cs) k t e p = elim (Bool-cases (c == b'"')) [
  | inl quote ↦
      let c_is = (==_iff c b'"').0 quote in
      let token : StringToken s seen cs = record {
        body = seen;
        whole = e ∙ ap (λ x. seen ++ (x ∷ cs)) c_is;
        form = plain refl p;
      } in
      let accepted = validate_string_complete s seen cs token in
      rw quote (λ h. accepted ∙ h, λ h. sym accepted ∙ h)
  | inr no_quote_ ↦ elim (Bool-cases (c == b'\\')) [
    | inl slash ↦ rw (no_quote_, slash) (λ h. h, λ h. h)
    | inr other ↦
        rw (no_quote_, other)
          (key-eq-string s (seen ++ (c ∷ [])) cs k t (e ∙ sym (append_assoc seen (c ∷ []) cs))
            (ground (arith, elem-append b'"' seen c, elem-append b'\\' seen c)))
  ]
]

-- `validateKey` reads a key `k` up to `t` exactly if `validateString` reads the same text with the
-- same results: the shorter loop for keys decides the same language.
pub validate_key_iff :
    (s k t : Bytes) → (validate_key s ≡ found k t) ↔ (validate_string s ≡ found k t)
unfolding validate_key
validate_key_iff s k t = key-eq-string s [] s k t refl (refl, refl)
