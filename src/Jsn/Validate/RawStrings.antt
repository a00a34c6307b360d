-- ===== src/Jsn/Validate/RawStrings.antt =====
-- core/jsn/validate.go: where `parseRawString` finds the end of a string.
use mathlib.Core.List.{append-nil, append_assoc}
use graphjin_slim.Base.{
  ℕ, zero, suc, ◌+◌, ◌<◌, Bool, true, false, not, ◌&&◌, [], ◌∷◌, ◌++◌, ◌≡◌, refl, inl, inr, sym, ap,
  ◌∙◌, none, some, Bytes, length, ◌==◌, if◌then◌else◌, elem, arith, ==_iff, Bool-cases,
  Option-cases, length-append,
}
use graphjin_slim.Jsn.Validate.Strings.{found, split_at, trailing, is_even, parse_raw_loop}

-- With the flag: the byte before is a backslash that escapes this one. No quote stands free, and
-- no backslash stands at the end.
abbrev pub balanced : Bool → Bytes → Bool
balanced escaped [] = not escaped
balanced true (c ∷ cs) = balanced false cs
balanced false (c ∷ cs) = not (c == b'"') && balanced (c == b'\\') cs

abbrev odd : ℕ → Bool
odd n = not (is_even n)

pub split_at-eq-some :
    (b : ℕ) (s : Bytes) {l r : Bytes}
    → split_at b s ≡ some (l, r)
    → (s ≡ l ++ (b ∷ r)) × (elem b l ≡ false)
unfolding split_at
split_at-eq-some b [] h = cc
split_at-eq-some b (c ∷ cs) {l} {r} h = elim (Bool-cases (c == b)) [
  | inl e ↦ ground (arith, ==_iff c b)
  | inr e ↦ elim (Option-cases (split_at b cs)) [
    | inl k ↦ absurd (ground arith)
    | inr ((l', r'), k) ↦ let (whole, out) = split_at-eq-some b cs k in ground (arith, ==_iff c b)
  ]
]

pub split_at-eq-none : (b : ℕ) (s : Bytes) → split_at b s ≡ none → elem b s ≡ false
unfolding split_at
split_at-eq-none b [] h = refl
split_at-eq-none b (c ∷ cs) h = ground (arith, split_at-eq-none b cs)

pub split_at-append :
    (b : ℕ) (l r : Bytes) → elem b l ≡ false → split_at b (l ++ (b ∷ r)) ≡ some (l, r)
unfolding split_at
split_at-append b [] r h = ground (arith, ==_iff b b)
split_at-append b (c ∷ l) r h = ground (arith, split_at-append b l r)

pub split_at_absent : (b : ℕ) (s : Bytes) → elem b s ≡ false → split_at b s ≡ none
unfolding split_at
split_at_absent b [] h = refl
split_at_absent b (c ∷ s) h = ground (arith, split_at_absent b s)

is_even-suc : (n : ℕ) → is_even (suc n) ≡ not (is_even n)
is_even-suc n = ground arith

balanced-cons :
    (n c : ℕ) (rest : Bytes)
    → (c == b'"') ≡ false
    → balanced (odd n) (c ∷ rest) ≡ balanced (odd (if c == b'\\' then suc n else 0)) rest
balanced-cons n c rest h = elim (Bool-cases (c == b'\\')) [
  | inl slash ↦ elim (Bool-cases (is_even n)) [
    | inl even ↦ rw (slash, is_even-suc, even, h, slash) refl
    | inr uneven ↦ rw (slash, is_even-suc, uneven) refl
  ]
  | inr other ↦ elim (Bool-cases (is_even n)) [
    | inl even ↦ rw (even, h, other) refl
    | inr uneven ↦ rw (uneven, other) refl
  ]
]

-- The parity of the backslashes at the end is the flag.
balanced-segment :
    (n : ℕ) (seg rest : Bytes)
    → elem b'"' seg ≡ false
    → balanced (odd n) (seg ++ rest) ≡ balanced (odd (trailing n seg)) rest
unfolding trailing
balanced-segment n [] rest h = refl
balanced-segment n (c ∷ cs) rest h =
    balanced-cons n c (cs ++ rest) (ground arith)
    ∙ balanced-segment (if c == b'\\' then suc n else 0) cs rest (ground arith)

balanced_even :
    (seg : Bytes)
    → elem b'"' seg ≡ false
    → is_even (trailing 0 seg) ≡ true
    → balanced false seg ≡ true
balanced_even seg clean even =
    ap (balanced false) (sym (append-nil seg)) ∙ balanced-segment 0 seg [] clean ∙ rw even refl

balanced_uneven :
    (seg body : Bytes)
    → elem b'"' seg ≡ false
    → is_even (trailing 0 seg) ≡ false
    → balanced false (seg ++ (b'"' ∷ body)) ≡ balanced false body
balanced_uneven seg body clean uneven = balanced-segment 0 seg (b'"' ∷ body) clean ∙ rw uneven refl

even_of_balanced :
    (seg : Bytes)
    → elem b'"' seg ≡ false
    → balanced false seg ≡ true
    → is_even (trailing 0 seg) ≡ true
even_of_balanced seg clean bal =
    let parity =
      sym (balanced-segment 0 seg [] clean) ∙ ap (balanced false) (append-nil seg) ∙ bal in
    ground arith

uneven_of_balanced :
    (seg rest : Bytes)
    → elem b'"' seg ≡ false
    → balanced false (seg ++ (b'"' ∷ rest)) ≡ true
    → is_even (trailing 0 seg) ≡ false
uneven_of_balanced seg rest clean bal = elim (Bool-cases (is_even (trailing 0 seg))) [
  | inr uneven ↦ uneven
  | inl even ↦
      let stops : balanced false (b'"' ∷ rest) ≡ true =
        sym (balanced-segment 0 seg (b'"' ∷ rest) clean ∙ rw even refl) ∙ bal in
      cc
]

-- `parseRawString` ends at the first quote that stands free.
pub raw_sound :
    (n : ℕ) (acc s : Bytes) {rs tail : Bytes}
    → parse_raw_loop n acc s ≡ found rs tail
    → (body : Bytes) × (rs ≡ acc ++ body)
      × (s ≡ body ++ (b'"' ∷ tail))
      × (balanced false body ≡ true)
unfolding parse_raw_loop
raw_sound zero acc s h = cc
raw_sound (suc n) acc s {rs} {tail} h = elim (Option-cases (split_at b'"' s)) [
  | inl none_ ↦ absurd (ground arith)
  | inr ((seg, rest), e) ↦
      let (whole, clean) = split_at-eq-some b'"' s e in
      elim (Bool-cases (is_even (trailing 0 seg))) [
        | inl even ↦
            let ends : (rs ≡ acc ++ seg) × (tail ≡ rest) = ground arith in
            (seg, ends.0, whole ∙ rw (ends.1) refl, balanced_even seg clean even)
        | inr uneven ↦
            let go_on : parse_raw_loop n (acc ++ (seg ++ (b'"' ∷ []))) rest ≡ found rs tail =
              ground arith in
            let (body, rs_is, rest_is, bal) =
              raw_sound n (acc ++ (seg ++ (b'"' ∷ []))) rest go_on in
            (
              seg ++ (b'"' ∷ body),
              rs_is ∙ simp append_assoc,
              whole ∙ rw rest_is (simp append_assoc),
              balanced_uneven seg body clean uneven ∙ bal,
            )
      ]
]

pub raw_complete :
    (n : ℕ) (acc rs tail : Bytes)
    → length rs < n
    → balanced false rs ≡ true
    → parse_raw_loop n acc (rs ++ (b'"' ∷ tail)) ≡ found (acc ++ rs) tail
unfolding parse_raw_loop
raw_complete zero acc rs tail h bal = absurd (omega arith)
raw_complete (suc n) acc rs tail h bal = elim (Option-cases (split_at b'"' rs)) [
  | inl none_ ↦
      let clean = split_at-eq-none b'"' rs none_ in
      let even : is_even (trailing 0 rs) ≡ true = even_of_balanced rs clean bal in
      rw (split_at-append b'"' rs tail clean, even, parse_raw_loop) refl
  | inr ((seg, rest), e) ↦
      let (whole, clean) = split_at-eq-some b'"' rs e in
      let uneven : is_even (trailing 0 seg) ≡ false =
        uneven_of_balanced seg rest clean (ap (balanced false) (sym whole) ∙ bal) in
      let bal' : balanced false rest ≡ true =
        sym (balanced_uneven seg rest clean uneven) ∙ ap (balanced false) (sym whole) ∙ bal in
      let shape : rs ++ (b'"' ∷ tail) ≡ seg ++ (b'"' ∷ (rest ++ (b'"' ∷ tail))) =
        ap (λ v. v ++ (b'"' ∷ tail)) whole ∙ append_assoc seg (b'"' ∷ rest) (b'"' ∷ tail) in
      let shorter : length rs ≡ length seg + suc (length rest) =
        ap length whole ∙ length-append seg (b'"' ∷ rest) in
      rw (shape, split_at-append b'"' seg (rest ++ (b'"' ∷ tail)) clean, uneven, parse_raw_loop)
        (raw_complete n (acc ++ (seg ++ (b'"' ∷ []))) rest tail (omega arith) bal'
          ∙ ap (λ v. found v tail) (simp append_assoc (sym (ap (λ v. acc ++ v) whole))))
]
