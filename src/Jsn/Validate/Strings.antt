-- ===== src/Jsn/Validate/Strings.antt =====
-- core/jsn/validate.go: `validateString`, `validateKey` and `parseRawString`.
use graphjin_slim.Base.{
  ℕ, zero, suc, ◌%◌, Bool, true, false, ◌&&◌, ◌||◌, [], ◌∷◌, ◌++◌, Option, none, some, Bytes,
  length, ◌==◌, if◌then◌else◌,
}
use graphjin_slim.Base.Utf8.{between}

-- The reasons of the errors of the whole file.
pub data Reason : Type 0 where
  empty zero_length too_deep bad_utf8 unexpected : Reason
  control : ℕ → Reason
  in_object in_array in_string in_number in_array_value in_key in_object_value : Reason → Reason
  no_list_close end_of_array list_comma no_object_close no_key colon_missing : Reason
  end_of_object object_comma no_quote trailing_backslash short_escape bad_hex : Reason
  unknown_escape : ℕ → Reason
  after_minus no_digit leading_zero no_fraction no_fraction_digit no_exponent : Reason
  no_exponent_digit tail_left : Reason

-- A string and what is behind it, or the tail and the reason.
pub data Text : Type 0 where
  found : Bytes → Bytes → Text
  failed : Bytes → Reason → Text

-- `strings.IndexByte(s, b)`, as the parts before and behind the first `b`
unfoldable pub split_at : ℕ → Bytes → Option (Bytes × Bytes)
split_at b [] = none
split_at b (c ∷ cs) =
    if c == b
    then some ([], cs)
    else elim (split_at b cs) [ none ↦ none | some (l, r) ↦ some (c ∷ l, r) ]

-- the number of backslashes at the end of a segment, with `n` of them before it
unfoldable pub trailing : ℕ → Bytes → ℕ
trailing n [] = n
trailing n (c ∷ cs) = trailing (if c == b'\\' then suc n else 0) cs

abbrev pub is_even : ℕ → Bool
is_even n = n % 2 == 0

-- The loop of `parseRawString`: `acc` is what is before `s`. A quote behind an odd number of
-- backslashes is part of the string. Each round takes a byte off `s`.
unfoldable pub parse_raw_loop : ℕ → Bytes → Bytes → Text
unfolding split_at trailing
parse_raw_loop zero acc s = failed [] no_quote
parse_raw_loop (suc n) acc s = elim (split_at b'"' s) [
  | none ↦ failed [] no_quote
  | some (segment, rest) ↦ elim (is_even (trailing 0 segment)) [
    | true ↦ found (acc ++ segment) rest
    | false ↦ parse_raw_loop n (acc ++ (segment ++ (b'"' ∷ []))) rest
  ]
]

unfoldable pub parse_raw_string : Bytes → Text
unfolding parse_raw_loop
parse_raw_string s = parse_raw_loop (suc (length s)) [] s

abbrev pub is_hex : ℕ → Bool
is_hex c = between b'0' b'9' c || between b'a' b'f' c || between b'A' b'F' c

-- the escapes of one letter
abbrev pub is_simple : ℕ → Bool
is_simple c =
    c == b'"'
    || c == b'\\'
    || c == b'/'
    || c == b'b'
    || c == b'f'
    || c == b'n'
    || c == b'r'
    || c == b't'

-- behind `\u`: what is left when `strconv.ParseUint(xs, 16, 16)` accepts the next four bytes
unfoldable pub hex_tail : Bytes → Text
hex_tail (a ∷ b ∷ c ∷ d ∷ rs) =
    if is_hex a && is_hex b && is_hex c && is_hex d then found [] rs else failed rs bad_hex
hex_tail rs = failed rs short_escape

-- the escape whose backslash is in front of `rs`: what is behind it
unfoldable pub escape_tail : Bytes → Text
unfolding hex_tail
escape_tail [] = failed [] trailing_backslash
escape_tail (c ∷ rs) =
    if is_simple c
    then found [] rs
    else if c == b'u'
    then hex_tail rs
    else failed rs (unknown_escape c)

-- The loop over the escapes, which returns what is behind the last of them.
unfoldable pub escapes_loop : ℕ → Bytes → Bytes → Text
unfolding escape_tail split_at
escapes_loop zero rs tail = failed tail no_quote
escapes_loop (suc n) rs tail = elim (split_at b'\\' rs) [
  | none ↦ found rs tail
  | some (_, rest) ↦ elim (escape_tail rest) [
    | found _ rs' ↦ escapes_loop n rs' tail
    | failed _ why ↦ failed tail why
  ]
]

abbrev pub has_slash : Bytes → Bool
has_slash s = elim (split_at b'\\' s) [ none ↦ false | some _ ↦ true ]

-- the slow path
unfoldable pub unescape_raw : Text → Text
unfolding escapes_loop
unescape_raw (found rs tail) = escapes_loop (suc (length rs)) rs tail
unescape_raw (failed tail why) = failed tail why

unfoldable pub validate_string : Bytes → Text
unfolding unescape_raw parse_raw_string split_at
validate_string s =
    let slow = unescape_raw (parse_raw_string s) in
    elim (split_at b'"' s) [
      | none ↦ slow
      | some (l, r) ↦ elim (has_slash l) [ true ↦ slow | false ↦ found l r ]
    ]

-- `for i` up to the first quote or backslash; `seen` is `s[:i]`
unfoldable pub key_loop : Bytes → Bytes → Bytes → Text
unfolding validate_string
key_loop s seen [] = failed s no_quote
key_loop s seen (c ∷ cs) =
    let whole = validate_string s in
    if c == b'"'
    then found seen cs
    else if c == b'\\'
    then whole
    else key_loop s (seen ++ (c ∷ [])) cs

unfoldable pub validate_key : Bytes → Text
unfolding key_loop
validate_key s = key_loop s [] s
