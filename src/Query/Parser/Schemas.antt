-- ===== src/Query/Parser/Schemas.antt =====
-- core/graph/schema.go: `ParseSchema`, on the items and with the methods of the parser.
pub mod Total
use graphjin_slim.Base.{
  ℕ, zero, suc, ◌+◌, ◌*◌, Bool, true, false, not, ◌&&◌, ◌||◌, List, [], ◌∷◌, ◌++◌, Option, none,
  some, Bytes, length, take, equal, ◌==◌, if◌then◌else◌,
}
use graphjin_slim.Query.Cursor.{
  MType, item_eof, item_name, item_list_open, item_list_close, item_obj_open, item_obj_close,
  item_colon, item_required, item_directive, Item, Lexer, drop,
}
use graphjin_slim.Query.Lex.{lex}
use graphjin_slim.Query.Ast.{Directive}
use graphjin_slim.Query.Parser.{
  Parser, Expected, a_field, a_type_keyword, a_type_name, a_colon, a_field_type, a_closing_bracket,
  an_open_brace, empty_text, no_line, end_in_type, Result, ok, fail, out_of_fuel, bind, peek,
  peek_val, next, ignore, tok_err,
}
use graphjin_slim.Query.Parser.Values.{parse_directives}
use graphjin_slim.Query.Parser.Operations.{is_empty}
use graphjin_slim.Query.Parser.Top.{lexed}

pub record TField : Type 0 where
  pub name : Bytes
  pub type : Bytes
  pub required : Bool
  pub list : Bool
  pub directives : List Directive

pub record SchemaType : Type 0 where
  pub name : Bytes
  pub directives : List Directive
  pub fields : List TField

pub record Schema : Type 0 where
  pub type : Bytes
  pub version : Bytes
  pub schema : Bytes
  pub types : List SchemaType

abbrev pub type_token : Bytes
type_token = b't' ∷ b'y' ∷ b'p' ∷ b'e' ∷ []

-- `if !p.peek(…) { return p.tokErr(…) }`, then `p.next()`
unfoldable pub token_or : List MType → Expected → Parser → Result (Item × Parser)
unfolding peek next
token_or types expected p = elim (peek types p) [ true ↦ ok (next p) | false ↦ tok_err expected p ]

-- `if p.peek(…) { p.ignore(); flag = true }`
unfoldable pub skip_if : MType → Parser → Bool × Parser
unfolding peek ignore
skip_if type p = elim (peek (type ∷ []) p) [ true ↦ (true, ignore p) | false ↦ (false, p) ]

unfoldable pub close_list : Bool → Parser → Result Parser
unfolding token_or
close_list false p = ok p
close_list true p = bind (token_or (item_list_close ∷ []) a_closing_bracket p) λ (_, q). ok q

-- a round of the loop over the fields of a type
unfoldable pub parse_tfield : ℕ → Parser → Result (TField × Parser)
unfolding token_or skip_if close_list parse_directives
parse_tfield n p = bind (token_or (item_name ∷ []) a_field p) λ (name, q).
    bind (token_or (item_colon ∷ []) a_colon q) λ (_, r).
      let (list, s) = skip_if item_list_open r in
      bind (token_or (item_name ∷ []) a_field_type s) λ (type, t). bind (close_list list t) λ u.
        let (required, v) = skip_if item_required u in
        bind (parse_directives n [] v) λ (dirs, w). ok (
          record {
            name = name.val;
            type = type.val;
            required = required;
            list = list;
            directives = dirs;
          },
          w,
        )

unfoldable pub tfields_loop : ℕ → Bytes → List TField → Parser → Result (List TField × Parser)
unfolding peek ignore parse_tfield
tfields_loop zero name fields p = out_of_fuel
tfields_loop (suc n) name fields p = elim (peek (item_eof ∷ []) p) [
  | true ↦ fail (end_in_type name)
  | false ↦ elim (peek (item_obj_close ∷ []) p) [
    | true ↦ ok (fields, ignore p)
    | false ↦ bind (parse_tfield n p) λ (f, q). tfields_loop n name (fields ++ (f ∷ [])) q
  ]
]

-- behind the keyword
unfoldable pub type_body : ℕ → Parser → Result (SchemaType × Parser)
unfolding token_or parse_directives tfields_loop
type_body n p = bind (token_or (item_name ∷ []) a_type_name p) λ (name, q).
    bind (parse_directives n [] q) λ (dirs, r).
      bind (token_or (item_obj_open ∷ []) an_open_brace r) λ (_, s).
        bind (tfields_loop n name.val [] s)
          λ (fields, t). ok (record { name = name.val; directives = dirs; fields = fields }, t)

unfoldable pub parse_type : ℕ → Parser → Result (SchemaType × Parser)
unfolding peek_val ignore type_body
parse_type n p = elim (peek_val (type_token ∷ []) p) [
  | false ↦ tok_err a_type_keyword p
  | true ↦ type_body n (ignore p)
]

-- the last loop of `ParseSchema`
unfoldable pub types_loop : ℕ → List SchemaType → Parser → Result (List SchemaType)
unfolding peek parse_type
types_loop zero types p = out_of_fuel
types_loop (suc n) types p = elim (peek (item_eof ∷ []) p) [
  | true ↦ ok types
  | false ↦ bind (parse_type n p) λ (t, q). types_loop n (types ++ (t ∷ [])) q
]

-- `# dbinfo:`
abbrev pub info_prefix : Bytes
info_prefix = b'#' ∷ b' ' ∷ b'd' ∷ b'b' ∷ b'i' ∷ b'n' ∷ b'f' ∷ b'o' ∷ b':' ∷ []

-- The bytes before the next line feed, those behind it, and whether there was one: a reader has a
-- buffer of 4096 bytes, and cuts a line there.
unfoldable pub split_line : ℕ → Bytes → Bytes × Bytes × Bool
split_line zero text = ([], text, false)
split_line (suc n) [] = ([], [], false)
split_line (suc n) (c ∷ cs) =
    let (line, rest, ended) = split_line n cs in
    if c == b'\n' then ([], cs, true) else (c ∷ line, rest, ended)

-- A carriage return at the end of a line, which is left off.
unfoldable pub without_return : Bytes → Bytes × Bool
without_return [] = ([], false)
without_return (c ∷ []) = if c == b'\r' then ([], true) else (c ∷ [], false)
without_return (c ∷ d ∷ cs) = let (line, cut) = without_return (d ∷ cs) in (c ∷ line, cut)

-- A carriage return is part of the end of a line, or it is read again if the buffer was full, which it
-- is also at the end of the text.
unfoldable pub line_of : Bytes × Bytes × Bool → Bytes × Bytes
unfolding without_return
line_of (line, rest, ended) =
    let (short, cut) = without_return line in
    if ended
    then (short, rest)
    else if is_empty rest && not (length line == 4096)
    then (line, rest)
    else if cut
    then (short, b'\r' ∷ rest)
    else (line, rest)

-- `ReadLine`, `none` at the end
unfoldable pub read_line : Bytes → Option (Bytes × Bytes)
unfolding split_line line_of
read_line [] = none
read_line (c ∷ cs) = some (line_of (split_line 4096 (c ∷ cs)))

-- what is behind a prefix
unfoldable pub behind_prefix : Bytes → Bytes → Option Bytes
behind_prefix [] text = some text
behind_prefix (p ∷ ps) [] = none
behind_prefix (p ∷ ps) (c ∷ cs) = let rest = behind_prefix ps cs in if p == c then rest else none

-- up to the next comma, and what is behind it
unfoldable pub before_comma : Bytes → Bytes × Bytes
before_comma [] = ([], [])
before_comma (c ∷ cs) =
    let (part, rest) = before_comma cs in if c == b',' then ([], cs) else (c ∷ part, rest)

-- the three parts of the first line, which are empty if there are fewer
unfoldable pub header_of : Option Bytes → Schema
unfolding before_comma
header_of none = record { type = []; version = []; schema = []; types = [] }
header_of (some text) =
    let (type, rest) = before_comma text in
    let (version, name) = before_comma rest in
    record { type = type; version = version; schema = name; types = [] }

-- The loop over the lines, to the first that is not empty. Each takes a byte off.
unfoldable pub read_header : ℕ → Bytes → Result Schema
unfolding read_line behind_prefix header_of
read_header zero text = out_of_fuel
read_header (suc n) text = elim (read_line text) [
  | none ↦ fail no_line
  | some (line, rest) ↦ elim (is_empty line) [
    | true ↦ read_header n rest
    | false ↦ ok (header_of (behind_prefix info_prefix line))
  ]
]

-- `ParseSchema` behind the lexer
unfoldable pub schema_items : ℕ → Lexer → Result (List SchemaType)
unfolding types_loop
schema_items n l =
    types_loop n [] (record {
      frags = [];
      input = l.input;
      at = 0;
      items = l.items;
      json = false;
      end_met = false;
    })

unfoldable pub parse_schema : (ℕ → Bool) → Bytes → Result Schema
unfolding read_header lexed lex schema_items
parse_schema is_wide [] = fail empty_text
parse_schema is_wide (c ∷ cs) = bind (read_header (suc (length (c ∷ cs))) (c ∷ cs)) λ header.
    bind (lexed (lex is_wide (c ∷ cs))) λ l.
      bind (schema_items (2 * length l.items + 3) l) λ types. ok (record header { types = types })
