-- ===== src/Query/Cursor.antt =====
-- core/graph/lex.go: the lexer's state and the methods that move over the input and emit items. A
-- rune is `none` at the end of the input; `input[a:b]` is the list of the bytes from `a` to `b`.
use graphjin_slim.Base.{
  ℕ, zero, suc, ◌+◌, ◌-◌, ◌%◌, Bool, true, false, not, ◌&&◌, ◌||◌, List, [], ◌∷◌, ◌++◌, Option,
  none, some, Bytes, length, get_or, take, elem, ◌==◌, if◌then◌else◌,
}
use graphjin_slim.Base.Utf8.{decode_rune, between}
use graphjin_slim.Query.Unescape.{unescape_string_value}

pub data MType : Type 0 where
  item_error item_eof item_name item_on item_punctuator : MType
  item_args_open item_args_close item_list_open item_list_close : MType
  item_obj_open item_obj_close item_colon item_equals item_required : MType
  item_directive item_variable item_spread item_number_val : MType
  item_string_val item_bool_val : MType

pub record Item : Type 0 where
  pub type : MType
  pub pos : ℕ
  pub val : Bytes
  pub line : ℕ

pub data LexError : Type 0 where
  empty_query : LexError
  unrecognized : ℕ → LexError
  bad_number : Bytes → LexError

pub record Lexer : Type 0 where
  pub input : Bytes
  pub pos : ℕ
  pub start : ℕ
  pub width : ℕ
  pub items : List Item
  pub line : ℕ
  pub error : Option LexError

unfoldable pub drop : ℕ → Bytes → Bytes
drop zero xs = xs
drop (suc n) [] = []
drop (suc n) (x ∷ xs) = drop n xs

abbrev pub slice : ℕ → ℕ → Bytes → Bytes
slice a b xs = take (b - a) (drop a xs)

-- `line` is an int16, kept as its bit pattern
abbrev pub line_up : ℕ → ℕ
line_up n = (n + 1) % 65536

abbrev pub line_down : ℕ → ℕ
line_down n = (n + 65535) % 65536

-- `next` on the bytes from `pos` on
unfoldable pub next_of : Lexer → Bytes → Option ℕ × Lexer
unfolding decode_rune
next_of l [] = (none, record l { width = 0 })
next_of l (c ∷ cs) =
    let r = decode_rune (c ∷ cs) in
    (
      some r.code,
      record l {
        width = r.width;
        pos = l.pos + r.width;
        line = if r.code == b'\n' then line_up l.line else l.line;
      },
    )

unfoldable pub next : Lexer → Option ℕ × Lexer
unfolding next_of drop
next l = next_of l (drop l.pos l.input)

unfoldable pub backup : Lexer → Lexer
backup l =
    let back = l.pos - l.width in
    if l.pos == 0 then l else record l {
      pos = back;
      line = if l.width == 1 && get_or l.input back 0 == b'\n' then line_down l.line else l.line;
    }

unfoldable pub peek : Lexer → Option ℕ × Lexer
unfolding next backup
peek l = let (r, m) = next l in (r, backup m)

unfoldable pub current : Lexer → Bytes
unfolding drop
current l = slice l.start l.pos l.input

unfoldable pub count_lines : ℕ → Bytes → ℕ
count_lines n [] = n
count_lines n (c ∷ cs) = count_lines (if c == b'\n' then line_up n else n) cs

-- `emit` with the value and the line of the item
abbrev pub emit_with : MType → Bytes → ℕ → Lexer → Lexer
emit_with t value line l = record l {
  items = l.items ++ (record { type = t; pos = l.start; val = value; line = line } ∷ []);
  line = line;
  start = l.pos;
}

abbrev pub is_string : MType → Bool
is_string item_string_val = true
is_string _ = false

unfoldable pub emit : MType → Lexer → Lexer
unfolding current unescape_string_value count_lines
emit t l =
    if is_string t
    then emit_with t (unescape_string_value (current l)) (count_lines l.line (current l)) l
    else emit_with t (current l) l.line l

abbrev pub lower : ℕ → ℕ
lower c = if between b'A' b'Z' c then b'a' + (c - b'A') else c

-- `lowercase` of `input[skip:skip+n]`, in place
unfoldable pub lowercase_range : ℕ → ℕ → Bytes → Bytes
lowercase_range skip n [] = []
lowercase_range (suc skip) n (c ∷ cs) = c ∷ lowercase_range skip n cs
lowercase_range zero zero (c ∷ cs) = c ∷ cs
lowercase_range zero (suc n) (c ∷ cs) = lower c ∷ lowercase_range zero n cs

unfoldable pub emit_lower : MType → Lexer → Lexer
unfolding lowercase_range emit
emit_lower t l = emit t (record l { input = lowercase_range l.start (l.pos - l.start) l.input })

unfoldable pub ignore : Lexer → Lexer
ignore l = record l { start = l.pos }

-- `r != eof && bytes.ContainsRune(valid, r)`, for a set of ASCII characters
abbrev pub one_of : Bytes → Option ℕ → Bool
one_of valid none = false
one_of valid (some r) = elem r valid

unfoldable pub accept : Bytes → Lexer → Option ℕ × Bool × Lexer
unfolding next backup
accept valid l =
    let (r, m) = next l in if one_of valid r then (r, true, m) else (r, false, backup m)

-- The loops `for r := l.next(); p(r); r = l.next()`: the rune that ended it is read. The fuel is
-- the number of bytes left, so the last round without it reads the end, where each `p` is false.
unfoldable pub next_while : (Option ℕ → Bool) → ℕ → Lexer → Option ℕ × Lexer
unfolding next
next_while p zero l = next l
next_while p (suc n) l =
    let (r, m) = next l in let rest = next_while p n m in if p r then rest else (r, m)

abbrev pub left : Lexer → ℕ
left l = length l.input - l.pos

abbrev pub is_end_of_line : Option ℕ → Bool
is_end_of_line none = true
is_end_of_line (some r) = r == b'\r' || r == b'\n'

unfoldable pub accept_comment : Lexer → Lexer
unfolding next_while
accept_comment l = (next_while (λ r. not (is_end_of_line r)) (left l) l).1

unfoldable pub accept_run : Bytes → Lexer → Lexer
unfolding next_while backup
accept_run valid l = backup (next_while (one_of valid) (left l) l).1

unfoldable pub errorf : LexError → Lexer → Lexer
unfolding current
errorf e l = record l {
  error = some e;
  items =
      l.items ++ (record { type = item_error; pos = l.start; val = current l; line = l.line } ∷ []);
}

-- `Reset`
unfoldable pub reset : Lexer → Lexer
reset l = record { input = []; pos = 0; start = 0; width = 0; items = []; line = 0; error = none }
