-- ===== src/Query/Unescape.antt =====
-- core/graph/lex.go: `unescapeStringValue`.
pub mod RoundTrip
use graphjin_slim.Base.{
  ℕ, zero, suc, ◌+◌, ◌-◌, ◌*◌, ◌/◌, ◌%◌, Bool, true, false, not, ◌&&◌, ◌||◌, [], ◌∷◌, ◌++◌, Option,
  none, some, Bytes, length, elem, leb, ltb, ◌==◌, if◌then◌else◌, ◌>>=◌,
}
use graphjin_slim.Base.Utf8.{between, rune_error}

-- `utf8.AppendRune` of a rune below 2 ^ 16, which four digits can name
unfoldable pub encode_rune : ℕ → Bytes
encode_rune r =
    if ltb r 0x80
    then r ∷ []
    else if ltb r 0x800
    then (0xc0 + r / 64) ∷ (0x80 + r % 64) ∷ []
    else if between 0xd800 0xdfff r
    then 0xef ∷ 0xbf ∷ 0xbd ∷ []
    else (0xe0 + r / 4096) ∷ (0x80 + r / 64 % 64) ∷ (0x80 + r % 64) ∷ []

-- the value of a hexadecimal digit
unfoldable pub hex_digit : ℕ → Option ℕ
hex_digit c =
    if between b'0' b'9' c
    then some (c - b'0')
    else if between b'a' b'f' c
    then some (c - b'a' + 10)
    else if between b'A' b'F' c
    then some (c - b'A' + 10)
    else none

-- `strconv.ParseUint(_, 16, 32)` of four bytes
unfoldable pub hex_value : ℕ → ℕ → ℕ → ℕ → Option ℕ
unfolding hex_digit
hex_value a b c d = do
  x ← hex_digit a
  y ← hex_digit b
  z ← hex_digit c
  w ← hex_digit d
  some (((x * 16 + y) * 16 + z) * 16 + w)

-- The escapes of one letter, with the byte that they stand for.
unfoldable pub simple_escape : ℕ → Option ℕ
simple_escape c =
    if c == b'"' || c == b'\\' || c == b'/' || c == b'\''
    then some c
    else if c == b'b'
    then some 8
    else if c == b'f'
    then some 12
    else if c == b'n'
    then some 10
    else if c == b'r'
    then some 13
    else if c == b't'
    then some 9
    else none

-- behind `\u`, in front of `rest`: the bytes of the rune if four digits name one
unfoldable pub named_rune : Bytes → Option Bytes
unfolding hex_value encode_rune
named_rune (a ∷ b ∷ c ∷ d ∷ _) = elim (hex_value a b c d) [
  | none ↦ none
  | some r ↦ some (encode_rune r)
]
named_rune _ = none

-- The loop of `unescapeStringValue`; `skip` digits still belong to the last escape. What is read
-- is in front of what the rest of the loop appends.
unfoldable pub unescape_from : ℕ → Bytes → Bytes
unfolding simple_escape named_rune
unescape_from skip [] = []
unescape_from (suc skip) (c ∷ cs) = unescape_from skip cs
unescape_from zero (c ∷ []) = c ∷ []
unescape_from zero (c ∷ e ∷ cs) =
    let plain = unescape_from zero (e ∷ cs) in
    let behind = unescape_from zero cs in
    let behind_digits = unescape_from 4 cs in
    if not (c == b'\\') then c ∷ plain else elim (simple_escape e) [
      | some v ↦ v ∷ behind
      | none ↦
          if e == b'u'
          then elim (named_rune cs) [
            | some bytes ↦ bytes ++ behind_digits
            | none ↦ b'\\' ∷ e ∷ behind
          ]
          else b'\\' ∷ e ∷ behind
    ]

unfoldable pub unescape_string_value : Bytes → Bytes
unfolding unescape_from
unescape_string_value value = if elem b'\\' value then unescape_from 0 value else value
