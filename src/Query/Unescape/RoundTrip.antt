-- ===== src/Query/Unescape/RoundTrip.antt =====
-- A writer of GraphQL strings that `unescapeStringValue` undoes.
use graphjin_slim.Base.{
  ℕ, Bool, false, ◌||◌, [], ◌∷◌, ◌≡◌, refl, sym, ap, ◌∙◌, inl, inr, Option, none, some, Bytes, elem,
  ◌==◌, if◌then◌else◌, arith, Bool-cases, Option-cases,
}
use graphjin_slim.Query.Unescape.{simple_escape, unescape_from, unescape_string_value}

-- the letter that stands behind a backslash for a byte that is not written as it is
unfoldable pub escape_letter : ℕ → Option ℕ
escape_letter c =
    if c == b'"' || c == b'\\'
    then some c
    else if c == 8
    then some b'b'
    else if c == 12
    then some b'f'
    else if c == 10
    then some b'n'
    else if c == 13
    then some b'r'
    else if c == 9
    then some b't'
    else none

unfoldable pub escape : Bytes → Bytes
unfolding escape_letter
escape [] = []
escape (c ∷ cs) = elim (escape_letter c) [
  | none ↦ c ∷ escape cs
  | some letter ↦ b'\\' ∷ letter ∷ escape cs
]

simple_escape-escape_letter :
    (c letter : ℕ) → escape_letter c ≡ some letter → simple_escape letter ≡ some c
unfolding simple_escape escape_letter
simple_escape-escape_letter c letter e = ground arith

plain_of : (c : ℕ) → escape_letter c ≡ none → (c == b'\\') ≡ false
unfolding escape_letter
plain_of c e = ground arith

-- A byte that is no backslash is kept.
unescape_from-plain :
    (c : ℕ) (rest : Bytes)
    → (c == b'\\') ≡ false
    → unescape_from 0 (c ∷ rest) ≡ c ∷ unescape_from 0 rest
unfolding unescape_from
unescape_from-plain c [] e = refl
unescape_from-plain c (d ∷ rest) e = rw e refl

unescape_from-escape : (v : Bytes) → unescape_from 0 (escape v) ≡ v
unfolding unescape_from escape
unescape_from-escape [] = refl
unescape_from-escape (c ∷ cs) = elim (Option-cases (escape_letter c)) [
  | inl e ↦
      rw (escape, e)
        (unescape_from-plain c (escape cs) (plain_of c e)
          ∙ ap (λ t. c ∷ t) (unescape_from-escape cs))
  | inr (letter, e) ↦
      rw (escape, e, unescape_from, simple_escape-escape_letter c letter e)
        (ap (λ t. c ∷ t) (unescape_from-escape cs))
]

-- The text without a backslash is the same, which the fast path relies on.
unescape_from-same : (v : Bytes) → elem b'\\' v ≡ false → unescape_from 0 v ≡ v
unfolding unescape_from
unescape_from-same [] e = refl
unescape_from-same (c ∷ cs) e =
    let (first, others) = parts c (elem b'\\' cs) e in
    unescape_from-plain c cs first ∙ ap (λ t. c ∷ t) (unescape_from-same cs others)
  where
    parts : (c : ℕ) (b : Bool) → (c == b'\\' || b) ≡ false → ((c == b'\\') ≡ false) × (b ≡ false)
    parts c b h = ground arith

fast_path : (v : Bytes) → unescape_string_value v ≡ unescape_from 0 v
unfolding unescape_string_value
fast_path v = elim (Bool-cases (elem b'\\' v)) [
  | inl e ↦ rw e refl
  | inr e ↦ rw e (sym (unescape_from-same v e))
]

-- `unescapeStringValue` gives back every text that `escape` wrote, which puts a backslash in front
-- of quotes and backslashes and writes backspaces, form feeds, newlines, returns and tabs as
-- letters; a text without an escape goes by the fast path.
pub unescape_string_value-escape : (v : Bytes) → unescape_string_value (escape v) ≡ v
unescape_string_value-escape v = fast_path (escape v) ∙ unescape_from-escape v
