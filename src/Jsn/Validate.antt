-- ===== src/Jsn/Validate.antt =====
-- core/jsn/validate.go. A string is the list of its bytes; an error is its tail with the reason,
-- for which the source formats a message.
pub mod Strings
pub mod RawStrings
pub mod StringLaws
pub mod StringExact
pub mod Numbers
pub mod Exponents
pub mod NumberExact
pub mod Grammar
pub mod TokensSound
pub mod Sound
pub mod Lengths
pub mod TokensComplete
pub mod Complete
pub mod Total
pub mod Unchecked
use graphjin_slim.Base.{
  ℕ, zero, suc, ◌+◌, ◌*◌, Bool, true, false, not, ◌&&◌, ◌||◌, List, [], ◌∷◌, ◌++◌, Option, none,
  some, Bytes, length, equal, leb, ltb, ◌==◌, if◌then◌else◌,
}
use graphjin_slim.Base.Utf8.{valid_utf8}
use Strings.{
  Reason, empty, too_deep, bad_utf8, unexpected, control, in_object, in_array, in_string, in_number,
  in_array_value, in_key, in_object_value, no_list_close, end_of_array, list_comma, no_object_close,
  no_key, colon_missing, end_of_object, object_comma, tail_left, Text, found, failed,
  validate_string, validate_key,
}
use Numbers.{Scan, done, fail, out_of_fuel, validate_number}

abbrev pub max_depth : ℕ
max_depth = 10000

-- space, newline, tab and carriage return
abbrev pub is_space : ℕ → Bool
is_space c = c == 0x20 || c == 0x0a || c == 0x09 || c == 0x0d

unfoldable pub skip_spaces_slow : Bytes → Bytes
skip_spaces_slow [] = []
skip_spaces_slow (c ∷ cs) = if is_space c then skip_spaces_slow cs else c ∷ cs

unfoldable pub skip_spaces : Bytes → Bytes
unfolding skip_spaces_slow
skip_spaces [] = []
skip_spaces (c ∷ cs) = if ltb 0x20 c then c ∷ cs else skip_spaces_slow (c ∷ cs)

-- the error context that a caller puts round the error of a part
abbrev pub within : (Reason → Reason) → Scan → Scan
within context (done t) = done t
within context (fail t why) = fail t (context why)
within context out_of_fuel = out_of_fuel

-- the scan of a string for control characters
unfoldable pub find_control : Bytes → Option ℕ
find_control [] = none
find_control (c ∷ cs) = if ltb c 0x20 then some c else find_control cs

-- The checks on the bytes of a string or a key.
unfoldable pub check_text : Text → Scan
unfolding find_control valid_utf8
check_text (failed tail why) = fail tail why
check_text (found sv tail) =
    if not (valid_utf8 sv)
    then fail tail bad_utf8
    else elim (find_control sv) [ none ↦ done tail | some c ↦ fail tail (control c) ]

unfoldable pub string_value : Text → Scan
unfolding check_text
string_value (failed tail why) = fail tail (in_string why)
string_value (found sv tail) = check_text (found sv tail)

unfoldable pub key_value : Text → Scan
unfolding check_text
key_value (failed tail why) = fail tail (in_key why)
key_value (found sv tail) = check_text (found sv tail)

abbrev pub true_text : Bytes
true_text = b't' ∷ b'r' ∷ b'u' ∷ b'e' ∷ []

abbrev pub false_text : Bytes
false_text = b'f' ∷ b'a' ∷ b'l' ∷ b's' ∷ b'e' ∷ []

abbrev pub null_text : Bytes
null_text = b'n' ∷ b'u' ∷ b'l' ∷ b'l' ∷ []

-- `s[:len(word)] == word`, with what is behind it
unfoldable pub strip_word : Bytes → Bytes → Option Bytes
strip_word [] s = some s
strip_word (w ∷ ws) [] = none
strip_word (w ∷ ws) (c ∷ cs) = let rest = strip_word ws cs in if c == w then rest else none

unfoldable pub literal : Bytes → Bytes → Scan
unfolding strip_word
literal word s = elim (strip_word word s) [ none ↦ fail s unexpected | some t ↦ done t ]

-- The tests of `validateValue` on the first byte, in their order.
pub data Kind : Type 0 where
  brace bracket quote letter_t letter_f letter_n other : Kind

unfoldable pub kind : ℕ → Kind
kind c =
    if c == b'{'
    then brace
    else if c == b'['
    then bracket
    else if c == b'"'
    then quote
    else if c == b't'
    then letter_t
    else if c == b'f'
    then letter_f
    else if c == b'n'
    then letter_n
    else other

-- what stands behind an item: a comma, the closing bracket `close`, or another byte
pub data Mark : Type 0 where
  comma closing other_mark : Mark

unfoldable pub mark : ℕ → ℕ → Mark
mark close c = if c == b',' then comma else if c == close then closing else other_mark

-- The key of a member and the colon: `done` is the text of the value.
unfoldable pub colon : Scan → Scan
unfolding skip_spaces skip_spaces_slow
colon (fail t why) = fail t why
colon out_of_fuel = out_of_fuel
colon (done t) = elim (skip_spaces t) [
  | [] ↦ fail [] colon_missing
  | c ∷ cs ↦ if c == b':' then done (skip_spaces cs) else fail (c ∷ cs) colon_missing
]

unfoldable pub member_key : Bytes → Scan
unfolding colon key_value validate_key
member_key [] = fail [] no_key
member_key (c ∷ cs) =
    if c == b'"' then colon (key_value (validate_key cs)) else fail (c ∷ cs) no_key

unfoldable mutual
  unfolding skip_spaces kind mark string_value validate_string validate_number literal member_key

  pub validate_value : ℕ → Bytes → ℕ → Scan
  validate_value zero s depth = out_of_fuel
  validate_value (suc fuel) [] depth = fail [] empty
  validate_value (suc fuel) (c ∷ cs) depth = elim (leb depth max_depth) [
    | false ↦ fail (c ∷ cs) too_deep
    | true ↦ elim (kind c) [
      | brace ↦ within in_object (validate_object fuel cs (depth + 1))
      | bracket ↦ within in_array (validate_array fuel cs (depth + 1))
      | quote ↦ string_value (validate_string cs)
      | letter_t ↦ literal true_text (c ∷ cs)
      | letter_f ↦ literal false_text (c ∷ cs)
      | letter_n ↦ literal null_text (c ∷ cs)
      | other ↦ within in_number (validate_number (c ∷ cs))
    ]
  ]

  pub validate_array : ℕ → Bytes → ℕ → Scan
  validate_array zero s depth = out_of_fuel
  validate_array (suc fuel) s depth = elim (leb depth max_depth) [
    | false ↦ fail s too_deep
    | true ↦ elim (skip_spaces s) [
      | [] ↦ fail [] no_list_close
      | c ∷ cs ↦ elim (c == b']') [ true ↦ done cs | false ↦ validate_elements fuel (c ∷ cs) depth ]
    ]
  ]

  -- the `for` loop of `validateArray`
  pub validate_elements : ℕ → Bytes → ℕ → Scan
  validate_elements zero s depth = out_of_fuel
  validate_elements (suc fuel) s depth = elim (validate_value fuel (skip_spaces s) depth) [
    | fail t why ↦ fail t (in_array_value why)
    | out_of_fuel ↦ out_of_fuel
    | done t ↦ elim (skip_spaces t) [
      | [] ↦ fail [] end_of_array
      | c ∷ cs ↦ elim (mark b']' c) [
        | comma ↦ validate_elements fuel cs depth
        | closing ↦ done cs
        | other_mark ↦ fail (c ∷ cs) list_comma
      ]
    ]
  ]

  pub validate_object : ℕ → Bytes → ℕ → Scan
  validate_object zero s depth = out_of_fuel
  validate_object (suc fuel) s depth = elim (leb depth max_depth) [
    | false ↦ fail s too_deep
    | true ↦ elim (skip_spaces s) [
      | [] ↦ fail [] no_object_close
      | c ∷ cs ↦ elim (c == b'}') [ true ↦ done cs | false ↦ validate_members fuel (c ∷ cs) depth ]
    ]
  ]

  -- the `for` loop of `validateObject`
  pub validate_members : ℕ → Bytes → ℕ → Scan
  validate_members zero s depth = out_of_fuel
  validate_members (suc fuel) s depth = elim (member_key (skip_spaces s)) [
    | fail t why ↦ fail t why
    | out_of_fuel ↦ out_of_fuel
    | done v ↦ elim (validate_value fuel v depth) [
      | fail t why ↦ fail t (in_object_value why)
      | out_of_fuel ↦ out_of_fuel
      | done t ↦ elim (skip_spaces t) [
        | [] ↦ fail [] end_of_object
        | c ∷ cs ↦ elim (mark b'}' c) [
          | comma ↦ validate_members fuel cs depth
          | closing ↦ done cs
          | other_mark ↦ fail (c ∷ cs) object_comma
        ]
      ]
    ]
  ]

-- `Validate`: three rounds of fuel for each byte are enough.
unfoldable pub finish : Scan → Scan
unfolding skip_spaces
finish (fail t why) = fail t why
finish out_of_fuel = out_of_fuel
finish (done t) = elim (skip_spaces t) [ [] ↦ done [] | c ∷ cs ↦ fail (c ∷ cs) tail_left ]

unfoldable pub validate : Bytes → Scan
unfolding finish skip_spaces validate_value
validate s = let text = skip_spaces s in finish (validate_value (3 * length text + 1) text 0)
