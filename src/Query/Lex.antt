-- ===== src/Query/Lex.antt =====
-- core/graph/lex.go: the states of the scanner and `lex`. Which runes beyond ASCII are letters or
-- digits (`unicode.IsLetter`, `unicode.IsDigit`) is the parameter `is_wide`.
pub mod Reads
pub mod Moves
pub mod Items
pub mod States
pub mod Root
pub mod Ends
use graphjin_slim.Base.{
  ℕ, zero, suc, ◌+◌, ◌-◌, ◌*◌, Bool, true, false, not, ◌&&◌, ◌||◌, List, [], ◌∷◌, ◌++◌, Option,
  none, some, Bytes, length, elem, leb, ltb, ◌==◌, if◌then◌else◌, Outcome, ok, err, panic,
}
use graphjin_slim.Base.Utf8.{decode_rune, between}
use graphjin_slim.Query.Cursor.{
  MType, item_error, item_eof, item_name, item_on, item_args_open, item_args_close, item_list_open,
  item_list_close, item_obj_open, item_obj_close, item_colon, item_equals, item_required,
  item_directive, item_variable, item_spread, item_number_val, item_string_val, item_bool_val, Item,
  LexError, empty_query, unrecognized, bad_number, Lexer, drop, next, backup, peek, current, emit,
  emit_lower, ignore, accept, next_while, left, is_end_of_line, accept_comment, accept_run, errorf,
}

abbrev pub quotes : Bytes
quotes = b'\'' ∷ b'"' ∷ []

abbrev pub signs : Bytes
signs = b'+' ∷ b'-' ∷ []

abbrev pub dot : Bytes
dot = b'.' ∷ []

abbrev pub digits : Bytes
digits = b'0' ∷ b'1' ∷ b'2' ∷ b'3' ∷ b'4' ∷ b'5' ∷ b'6' ∷ b'7' ∷ b'8' ∷ b'9' ∷ []

abbrev pub punctuator_token : Bytes
punctuator_token = b'!' ∷ b'(' ∷ b')' ∷ b':' ∷ b'=' ∷ b'[' ∷ b']' ∷ b'{' ∷ b'|' ∷ b'}' ∷ []

-- `contains`
unfoldable pub contains : Bytes → Bytes → Bool
contains [] chars = false
contains (c ∷ cs) chars = elem c chars || contains cs chars

-- the map `punctuators`
unfoldable pub punctuator : ℕ → Option MType
punctuator r =
    if r == b'!'
    then some item_required
    else if r == b'{'
    then some item_obj_open
    else if r == b'}'
    then some item_obj_close
    else if r == b'['
    then some item_list_open
    else if r == b']'
    then some item_list_close
    else if r == b'('
    then some item_args_open
    else if r == b')'
    then some item_args_close
    else if r == b':'
    then some item_colon
    else if r == b'='
    then some item_equals
    else none

-- A rune that folds to the small ASCII character `t`; the long s folds to `s`, and no other rune
-- beyond ASCII folds to a character of the keywords.
unfoldable pub folds_to : ℕ → ℕ → Bool
folds_to t r = r == t || (between b'a' b'z' t && r + 32 == t) || (t == b's' && r == 0x17f)

-- `equals`, which is `bytes.EqualFold`, of a text and a keyword
unfoldable pub equals : Bytes → Bytes → Bool
unfolding folds_to decode_rune drop
equals [] [] = true
equals (c ∷ cs) [] = false
equals [] (t ∷ ts) = false
equals (c ∷ cs) (t ∷ ts) =
    let r = decode_rune (c ∷ cs) in
    let rest = equals (drop r.width (c ∷ cs)) ts in if folds_to t r.code then rest else false

abbrev pub spread_token : Bytes
spread_token = b'.' ∷ b'.' ∷ b'.' ∷ []

abbrev pub on_token : Bytes
on_token = b'o' ∷ b'n' ∷ []

abbrev pub true_token : Bytes
true_token = b't' ∷ b'r' ∷ b'u' ∷ b'e' ∷ []

abbrev pub false_token : Bytes
false_token = b'f' ∷ b'a' ∷ b'l' ∷ b's' ∷ b'e' ∷ []

-- The state functions; a `nil` ends the run.
pub data State : Type 0 where
  lex_root lex_name lex_string lex_number stop : State

-- the tail of `lexString` behind the closing quote
unfoldable pub close_string : Lexer → State × Lexer
unfolding backup emit accept ignore
close_string l =
    let (_, closed, m) = accept quotes (emit item_string_val (backup l)) in
    (lex_root, if closed then ignore m else m)

-- The loop of `lexString`, on the number of bytes left: without it the next rune is the end.
unfoldable pub string_loop : ℕ → ℕ → Bool → Lexer → State × Lexer
unfolding next emit close_string
string_loop quote zero escaped l = (stop, emit item_eof (next l).1)
string_loop quote (suc n) escaped l =
    let (rune, m) = next l in
    let after_slash = string_loop quote n true m in
    let after_other = string_loop quote n false m in
    elim rune [
      | none ↦ (stop, emit item_eof m)
      | some r ↦
          if r == b'\\'
          then after_slash
          else if not escaped && r == quote
          then close_string m
          else after_other
    ]

unfoldable pub string_state : Lexer → State × Lexer
unfolding accept ignore string_loop
string_state l =
    let (rune, opened, m) = accept quotes l in
    elim rune [
      | none ↦ (lex_root, m)
      | some quote ↦ if opened then string_loop quote (left m) false (ignore m) else (lex_root, m)
    ]

-- the end of `lexName`, behind the name
unfoldable pub name_end : Lexer → Lexer
unfolding current equals emit emit_lower
name_end l =
    if equals (current l) on_token
    then emit_lower item_on l
    else if equals (current l) true_token || equals (current l) false_token
    then emit_lower item_bool_val l
    else emit item_name l

-- the sign and the digits of `scanNumber`
unfoldable pub whole_part : Lexer → Lexer
unfolding accept accept_run
whole_part l = accept_run digits (accept signs l).2

-- its dot and the digits behind it
unfoldable pub fraction_part : Lexer → Lexer
unfolding accept accept_run
fraction_part l = let (_, dotted, m) = accept dot l in if dotted then accept_run digits m else m

-- `scanNumber` up to its last test
unfoldable pub number_body : Lexer → Lexer
unfolding accept whole_part fraction_part
number_body l = (accept (b'i' ∷ []) (fraction_part (whole_part l))).2

unfoldable pub dotted_part : Lexer → Lexer
unfolding accept equals current emit
dotted_part l =
    let (_, _, m) = accept dot l in
    if equals (current m) spread_token then emit item_spread m else m

-- The cases of `lexRoot` in their order.
pub data Case : Type 0 where
  ends blank comment directive required variable punctuation : Case
  quoted dotted number_like name_like unknown : Case

abbrev pub initial : Bytes → Lexer
initial input = record {
  input = input;
  pos = 0;
  start = 0;
  width = 0;
  items = [];
  line = 1;
  error = none;
}

abbrev pub last_item : List Item → Option Item
last_item [] = none
last_item (i ∷ []) = some i
last_item (_ ∷ i ∷ is) = last_item (i ∷ is)

abbrev pub is_error : MType → Bool
is_error item_error = true
is_error _ = false

-- The index of the last item panics if there is none; `l.err` is not nil at an error item.
unfoldable pub lex_end : Lexer → Outcome (Option LexError) Lexer
lex_end l = elim (last_item l.items) [
  | none ↦ panic
  | some i ↦ if is_error i.type then err l.error else ok l
]

module _ (is_wide : ℕ → Bool) where
  unfoldable pub is_alpha_numeric : Option ℕ → Bool
  is_alpha_numeric none = false
  is_alpha_numeric (some r) =
      r == b'_'
      || (if ltb r 0x80
          then between b'a' b'z' r || between b'A' b'Z' r || between b'0' b'9' r
          else is_wide r)

  -- `n != 0` if the first rune counts
  unfoldable pub accept_alpha_num : Lexer → Bool × Lexer
  unfolding next next_while backup is_alpha_numeric
  accept_alpha_num l =
      (is_alpha_numeric (next l).0, backup (next_while is_alpha_numeric (left l) l).1)

  unfoldable pub name_state : Lexer → State × Lexer
  unfolding next_while is_alpha_numeric backup name_end emit
  name_state l =
      let (rune, m) = next_while is_alpha_numeric (left l) l in
      elim rune [ none ↦ (stop, emit item_eof m) | some _ ↦ (lex_root, name_end (backup m)) ]

  unfoldable pub number_state : Lexer → State × Lexer
  unfolding number_body peek next is_alpha_numeric emit errorf current
  number_state l =
      let (rune, m) = peek (number_body l) in
      let bad = (next m).1 in
      if is_alpha_numeric rune
      then (stop, errorf (bad_number (current bad)) bad)
      else (lex_root, emit item_number_val m)

  unfoldable pub case_of : ℕ → Bytes → Case
  unfolding contains is_alpha_numeric
  case_of r text =
      if r == b'\r' || r == b'\n' || r == b',' || r == b' ' || r == b'\t'
      then blank
      else if r == b'#'
      then comment
      else if r == b'@'
      then directive
      else if r == b'!'
      then required
      else if r == b'$'
      then variable
      else if contains text punctuator_token
      then punctuation
      else if r == b'"' || r == b'\''
      then quoted
      else if r == b'.'
      then dotted
      else if r == b'+' || r == b'-' || between b'0' b'9' r
      then number_like
      else if is_alpha_numeric (some r)
      then name_like
      else unknown

  unfoldable pub variable_part : Lexer → Lexer
  unfolding ignore accept_alpha_num emit
  variable_part l =
      let (found, m) = accept_alpha_num (ignore l) in if found then emit item_variable m else m

  unfoldable pub root_case : Case → ℕ → Lexer → State × Lexer
  unfolding emit ignore accept_comment variable_part punctuator backup dotted_part errorf
  root_case ends r l = (stop, emit item_eof l)
  root_case blank r l = (lex_root, ignore l)
  root_case comment r l = (lex_root, ignore (accept_comment (ignore l)))
  root_case directive r l = (lex_root, emit item_directive (ignore l))
  root_case required r l = (lex_root, emit item_required (ignore l))
  root_case variable r l = (lex_root, variable_part l)
  root_case punctuation r l = elim (punctuator r) [
    | none ↦ (lex_root, l)
    | some t ↦ (lex_root, emit t l)
  ]
  root_case quoted r l = (lex_string, backup l)
  root_case dotted r l = (lex_root, dotted_part l)
  root_case number_like r l = (lex_number, backup l)
  root_case name_like r l = (lex_name, backup l)
  root_case unknown r l = (stop, errorf (unrecognized r) l)

  unfoldable pub root_state : Lexer → State × Lexer
  unfolding next root_case case_of current
  root_state l =
      let (rune, m) = next l in
      elim rune [ none ↦ root_case ends 0 m | some r ↦ root_case (case_of r (current m)) r m ]

  unfoldable pub step : State → Lexer → State × Lexer
  unfolding root_state name_state string_state number_state
  step lex_root l = root_state l
  step lex_name l = name_state l
  step lex_string l = string_state l
  step lex_number l = number_state l
  step stop l = (stop, l)

  -- `none` if the fuel runs out
  unfoldable pub run : ℕ → State → Lexer → Option Lexer
  unfolding step
  run n stop l = some l
  run zero state l = none
  run (suc n) state l = let (next_state, m) = step state l in run n next_state m

  -- two steps for each byte and one more are enough
  unfoldable pub lex : Bytes → Option (Outcome (Option LexError) Lexer)
  unfolding run lex_end
  lex [] = some (err (some empty_query))
  lex (c ∷ cs) = elim (run (2 * length (c ∷ cs) + 2) lex_root (initial (c ∷ cs))) [
    | none ↦ none
    | some l ↦ some (lex_end l)
  ]
