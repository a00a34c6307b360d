-- ===== src/Jsn/Validate/StringLaws.antt =====
-- What `validateString` accepts, against a grammar of strings.
use mathlib.Core.List.{append-nil}
use graphjin_slim.Base.{
  ℕ, zero, suc, ◌+◌, ◌<◌, true, false, not, ◌&&◌, [], ◌∷◌, ◌++◌, ◌≡◌, refl, inl, inr, sym, ap, ◌∙◌,
  some, Bytes, length, ◌==◌, elem, arith, ==_iff, Bool-cases, Option-cases, length-append,
}
use graphjin_slim.Jsn.Validate.Strings.{
  Text, found, failed, split_at, is_hex, is_simple, hex_tail, escape_tail, escapes_loop,
}
use graphjin_slim.Jsn.Validate.RawStrings.{
  balanced, split_at-append, split_at-eq-none, split_at-eq-some, split_at_absent,
}

-- One escape behind its backslash.
pub data IsEscape : Bytes → Type 0 where
  simple : (c : ℕ) → is_simple c ≡ true → IsEscape (c ∷ [])
  unicode :
      (a b c d : ℕ)
      → (is_hex a && is_hex b && is_hex c && is_hex d) ≡ true
      → IsEscape (b'u' ∷ a ∷ b ∷ c ∷ d ∷ [])

-- neither a quote nor a backslash
abbrev pub IsPlain : Bytes → Type 0
IsPlain v = (elem b'"' v ≡ false) × (elem b'\\' v ≡ false)

-- What stands between the quotes: plain bytes and escapes, and `last` behind the last escape.
pub data Body (last : Bytes) : Bytes → Type 0 where
  plain : {v : Bytes} → v ≡ last → IsPlain v → Body last v
  escape :
      {body : Bytes} (v e rest : Bytes)
      → body ≡ v ++ (b'\\' ∷ (e ++ rest))
      → IsPlain v
      → IsEscape e
      → Body last rest
      → Body last body

balanced-append : (v rest : Bytes) → IsPlain v → balanced false (v ++ rest) ≡ balanced false rest
balanced-append [] rest h = refl
balanced-append (c ∷ v) rest h =
    let (quote_free, slash_free) : ((c == b'"') ≡ false) × ((c == b'\\') ≡ false) = ground arith in
    rw (quote_free, slash_free) (balanced-append v rest (ground arith))

hex_plain : (c : ℕ) → is_hex c ≡ true → ((c == b'"') ≡ false) × ((c == b'\\') ≡ false)
hex_plain c h = ground arith

balanced_escape :
    {e : Bytes} (rest : Bytes) → IsEscape e → balanced true (e ++ rest) ≡ balanced false rest
balanced_escape rest (simple c h) = refl
balanced_escape rest (unicode a b c d h) =
    let pa = hex_plain a (ground arith) in
    let pb = hex_plain b (ground arith) in
    let pc = hex_plain c (ground arith) in
    let pd = hex_plain d (ground arith) in balanced-append (a ∷ b ∷ c ∷ d ∷ []) rest (ground arith)

pub Body-balanced : {last body : Bytes} → Body last body → balanced false body ≡ true
Body-balanced (plain {v} e p) = ap (balanced false) (sym (append-nil v)) ∙ balanced-append v [] p
Body-balanced (escape v e rest shape p esc b) =
    ap (balanced false) shape
    ∙ balanced-append v (b'\\' ∷ (e ++ rest)) p
    ∙ balanced_escape rest esc
    ∙ Body-balanced b

hex_tail-eq-found :
    (rs : Bytes) {x rest : Bytes}
    → hex_tail rs ≡ found x rest
    → (e : Bytes) × (b'u' ∷ rs ≡ e ++ rest) × IsEscape e
unfolding hex_tail
hex_tail-eq-found (a ∷ b ∷ c ∷ d ∷ rs) h =
    elim (Bool-cases (is_hex a && is_hex b && is_hex c && is_hex d)) [
      | inl ok_ ↦ (b'u' ∷ a ∷ b ∷ c ∷ d ∷ [], ground arith, unicode a b c d ok_)
      | inr bad ↦ absurd (ground arith)
    ]
hex_tail-eq-found (a ∷ b ∷ c ∷ []) h = cc
hex_tail-eq-found (a ∷ b ∷ []) h = cc
hex_tail-eq-found (a ∷ []) h = cc
hex_tail-eq-found [] h = cc

escape_tail-eq-found :
    (rs : Bytes) {x rest : Bytes}
    → escape_tail rs ≡ found x rest
    → (e : Bytes) × (rs ≡ e ++ rest) × IsEscape e
unfolding escape_tail
escape_tail-eq-found [] h = cc
escape_tail-eq-found (c ∷ rs) {x} {rest} h = elim (Bool-cases (is_simple c)) [
  | inl ok_ ↦ (c ∷ [], ground arith, simple c ok_)
  | inr other ↦ elim (Bool-cases (c == b'u')) [
    | inl u ↦
        let u_tail : hex_tail rs ≡ found x rest = ground arith in
        let (e, whole, esc) = hex_tail-eq-found rs u_tail in (e, ground (arith, ==_iff c b'u'), esc)
    | inr bad ↦ absurd (ground arith)
  ]
]

escape_tail-append :
    {e : Bytes} (rest : Bytes) → IsEscape e → escape_tail (e ++ rest) ≡ found [] rest
unfolding escape_tail hex_tail
escape_tail-append rest (simple c h) = rw h refl
escape_tail-append rest (unicode a b c d h) = rw h refl

balanced_step :
    (c : ℕ) (rest : Bytes)
    → (c == b'\\') ≡ false
    → balanced false (c ∷ rest) ≡ (not (c == b'"') && balanced false rest)
balanced_step c rest h = rw h refl

-- A balanced text with no backslash has no quote.
quote_free : (v : Bytes) → elem b'\\' v ≡ false → balanced false v ≡ true → elem b'"' v ≡ false
quote_free [] h bal = refl
quote_free (c ∷ v) h bal =
    let step = sym (balanced_step c v (ground arith)) ∙ bal in ground (arith, quote_free v)

-- and in front of a backslash
quote_free_before :
    (v rest : Bytes)
    → elem b'\\' v ≡ false
    → balanced false (v ++ (b'\\' ∷ rest)) ≡ true
    → (elem b'"' v ≡ false) × (balanced true rest ≡ true)
quote_free_before [] rest h bal = (refl, bal)
quote_free_before (c ∷ v) rest h bal =
    let step = sym (balanced_step c (v ++ (b'\\' ∷ rest)) (ground arith)) ∙ bal in
    let (no_quote_, bal') = quote_free_before v rest (ground arith) (ground arith) in
    (ground arith, bal')

pub escapes_sound :
    (n : ℕ) (rs tail : Bytes) {last t : Bytes}
    → balanced false rs ≡ true
    → escapes_loop n rs tail ≡ found last t
    → (t ≡ tail) × Body last rs
unfolding escapes_loop
escapes_sound zero rs tail bal h = cc
escapes_sound (suc n) rs tail {last} {t} bal h = elim (Option-cases (split_at b'\\' rs)) [
  | inl none_ ↦
      let slash_free = split_at-eq-none b'\\' rs none_ in
      let ends : (last ≡ rs) × (t ≡ tail) = ground arith in
      (ends.1, plain (sym ends.0) (quote_free rs slash_free bal, slash_free))
  | inr ((v, rest), e) ↦
      let (whole, slash_free) = split_at-eq-some b'\\' rs e in
      let (no_quote_, bal') =
        quote_free_before v rest slash_free (ap (balanced false) (sym whole) ∙ bal) in
      escaped v rest whole (no_quote_, slash_free) bal' e
        (λ rs' bal'' go_on. escapes_sound n rs' tail bal'' go_on) (escape_tail rest) refl
]
  where
    escaped :
        (v rest : Bytes)
        → rs ≡ v ++ (b'\\' ∷ rest)
        → IsPlain v
        → balanced true rest ≡ true
        → split_at b'\\' rs ≡ some (v, rest)
        → ((rs' : Bytes)
            → balanced false rs' ≡ true
            → escapes_loop n rs' tail ≡ found last t
            → (t ≡ tail) × Body last rs')
        → (r : Text) → escape_tail rest ≡ r
        → (t ≡ tail) × Body last rs
    escaped v rest whole p bal' e rec (failed _ why) esc = absurd (ground arith)
    escaped v rest whole p bal' e rec (found x rs') esc =
        let (form, parts, is_escape) = escape_tail-eq-found rest esc in
        let go_on : escapes_loop n rs' tail ≡ found last t = ground arith in
        let bal'' : balanced false rs' ≡ true =
          sym (balanced_escape rs' is_escape) ∙ ap (balanced true) (sym parts) ∙ bal' in
        let (same, body) = rec rs' bal'' go_on in
        (same, escape v form rs' (whole ∙ ap (λ x. v ++ (b'\\' ∷ x)) parts) p is_escape body)

pub escapes_complete :
    (n : ℕ) (rs tail : Bytes) {last : Bytes}
    → length rs < n
    → Body last rs
    → escapes_loop n rs tail ≡ found last tail
unfolding escapes_loop
escapes_complete zero rs tail lt b = absurd (omega arith)
escapes_complete (suc n) rs tail lt (plain e p) =
    rw (split_at_absent b'\\' rs p.1, escapes_loop, e) refl
escapes_complete (suc n) rs tail lt (escape v e rest shape p esc b) =
    let shorter : length rs ≡ length v + suc (length (e ++ rest)) =
      ap length shape ∙ length-append v (b'\\' ∷ (e ++ rest)) in
    let split_ : split_at b'\\' rs ≡ some (v, e ++ rest) =
      ap (split_at b'\\') shape ∙ split_at-append b'\\' v (e ++ rest) p.1 in
    rw (split_, escapes_loop, escape_tail-append rest esc)
      (escapes_complete n rest tail (omega (arith, length-append e rest)) b)
