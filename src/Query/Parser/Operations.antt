-- ===== src/Query/Parser/Operations.antt =====
-- core/graph/parse.go: fragments, variable definitions and operations.
pub mod Ended
pub mod Params
use graphjin_slim.Base.{
  ℕ, zero, suc, ◌+◌, ◌-◌, ◌*◌, Bool, true, false, not, ◌&&◌, ◌||◌, List, [], ◌∷◌, ◌++◌, Option,
  none, some, Bytes, length, take, equal, leb, ◌==◌, if◌then◌else◌,
}
use graphjin_slim.Base.{Outcome, ok as lexer_of, err as error_of, panic as panics}
use graphjin_slim.Query.Cursor.{
  MType, item_eof, item_name, item_on, item_args_open, item_args_close, item_list_open,
  item_list_close, item_obj_open, item_obj_close, item_colon, item_equals, item_required,
  item_directive, item_variable, item_number_val, item_string_val, item_bool_val, Item, LexError,
  Lexer, drop,
}
use graphjin_slim.Query.Lex.{lex}
use graphjin_slim.Query.Ast.{
  ParserType, parser_error, op_query, op_mutate, op_sub, node_var, field_keyword, Node, node,
  no_nodes, VarDef, Directive, Field, Fragment, Operation,
}
use graphjin_slim.Query.Parser.{
  Parser, ParseError, empty_text, lex_error, an_operation, an_open_brace, a_type, a_value,
  in_fragment, in_operation, fragment_name, fragment_on, fragment_table, fragment_open,
  too_many_vars, Result, ok, fail, panic, out_of_fuel, bind, in_context, peek, peek_val, curr_pos,
  next, ignore, tok_err, next_lower,
}
use graphjin_slim.Query.Parser.Values.{max_args, parse_value, parse_directives}
use graphjin_slim.Query.Parser.Fields.{parse_fields}

abbrev pub query_token : Bytes
query_token = b'q' ∷ b'u' ∷ b'e' ∷ b'r' ∷ b'y' ∷ []

abbrev pub mutation_token : Bytes
mutation_token = b'm' ∷ b'u' ∷ b't' ∷ b'a' ∷ b't' ∷ b'i' ∷ b'o' ∷ b'n' ∷ []

abbrev pub subscription_token : Bytes
subscription_token =
    b's' ∷ b'u' ∷ b'b' ∷ b's' ∷ b'c' ∷ b'r' ∷ b'i' ∷ b'p' ∷ b't' ∷ b'i' ∷ b'o' ∷ b'n' ∷ []

abbrev pub fragment_token : Bytes
fragment_token = b'f' ∷ b'r' ∷ b'a' ∷ b'g' ∷ b'm' ∷ b'e' ∷ b'n' ∷ b't' ∷ []

-- `if p.peek(itemObjClose) { p.ignore() }`
unfoldable pub skip_close : Parser → Parser
unfolding peek ignore
skip_close p = if peek (item_obj_close ∷ []) p then ignore p else p

-- `input[a:b]`, which panics out of range
unfoldable pub slice_of : Bytes → ℕ → ℕ → Result Bytes
unfolding drop
slice_of input a b =
    if leb a b && leb b (length input) then ok (take (b - a) (drop a input)) else panic

-- `p.frags[frag.Name] = frag`
unfoldable pub store_fragment : List Fragment → Fragment → List Fragment
unfolding equal
store_fragment [] new = new ∷ []
store_fragment (f ∷ fs) new = if equal f.name new.name then new ∷ fs else f ∷ store_fragment fs new

-- `parseFragment` behind the opening brace
unfoldable pub fragment_body : ℕ → ℕ → Bytes → Bytes → Parser → Result Parser
unfolding parse_fields skip_close curr_pos slice_of store_fragment
fragment_body n from name on p = bind (in_context in_fragment (parse_fields n [] p)) λ (fields, q).
    let r = skip_close q in
    bind (slice_of r.input from (curr_pos r + 1)) λ value.
      let frag : Fragment = record { name = name; on = on; fields = fields; value = value } in
      ok (record r { frags = store_fragment r.frags frag })

unfoldable pub parse_fragment : ℕ → Parser → Result Parser
unfolding peek next ignore next_lower fragment_body curr_pos
parse_fragment n p = elim (peek (item_name ∷ []) p) [
  | false ↦ fail fragment_name
  | true ↦
      let (name, q) = next p in
      elim (peek (item_on ∷ []) q) [
        | false ↦ fail fragment_on
        | true ↦
            let r = ignore q in
            elim (peek (item_name ∷ []) r) [
              | false ↦ fail fragment_table
              | true ↦
                  let (on, t) = next_lower r in
                  elim (peek (item_obj_open ∷ []) t) [
                    | false ↦ fail fragment_open
                    | true ↦ fragment_body n (curr_pos p) name.val on (ignore t)
                  ]
            ]
      ]
]

-- the text of one item of a type
abbrev pub type_text : MType → Bytes → Option Bytes
type_text item_required val = some (b'!' ∷ [])
type_text item_list_open val = some (b'[' ∷ [])
type_text item_list_close val = some (b']' ∷ [])
type_text item_name val = some val
type_text _ val = none

-- The loop over the items of a type: `next` does not move at the end, and its type is no part of one.
unfoldable pub type_loop : ℕ → Bytes → Parser → Result (Bytes × Parser)
unfolding next
type_loop zero text p = out_of_fuel
type_loop (suc n) text p =
    let (i, q) = next p in
    elim (type_text i.type i.val) [ none ↦ ok (text, p) | some more ↦ type_loop n (text ++ more) q ]

-- what a default value begins with
abbrev pub value_types : List MType
value_types =
    item_name ∷ item_string_val ∷ item_number_val ∷ item_bool_val ∷ item_obj_open ∷ item_list_open
    ∷ []

-- behind `=`
unfoldable pub default_value : ℕ → Parser → Result (Node × Parser)
unfolding peek parse_value
default_value n p = elim (peek value_types p) [ false ↦ tok_err a_value p | true ↦ parse_value n p ]

abbrev pub add_var : List VarDef → Bytes → Node → List VarDef
add_var defs name val = defs ++ (record { name = name; val = val } ∷ [])

-- behind the colon and the type
unfoldable pub typed_default : ℕ → Bytes → Parser → Result (Node × Parser)
unfolding peek ignore default_value
typed_default n text p = elim (peek (item_equals ∷ []) p) [
  | true ↦ default_value n (ignore p)
  | false ↦ ok (node node_var [] text no_nodes, p)
]

abbrev pub is_empty : Bytes → Bool
is_empty [] = true
is_empty (_ ∷ _) = false

unfoldable pub parse_var_def : ℕ → List VarDef → Parser → Result (List VarDef × Parser)
unfolding peek next ignore type_loop typed_default default_value
parse_var_def n defs p =
    let (name, q) = next p in
    elim (peek (item_colon ∷ []) q) [
      | true ↦ bind (type_loop n [] (ignore q)) λ (text, r). elim (is_empty text) [
        | true ↦ tok_err a_type r
        | false ↦ bind (typed_default n text r) λ (val, t). ok (add_var defs name.val val, t)
      ]
      | false ↦ elim (peek (item_equals ∷ []) q) [
        | false ↦ ok (defs, q)
        | true ↦ bind (default_value n (ignore q)) λ (val, r). ok (add_var defs name.val val, r)
      ]
    ]

-- the loop of `parseOpParams`
unfoldable pub parse_op_params : ℕ → List VarDef → Parser → Result (List VarDef × Parser)
unfolding peek ignore parse_var_def
parse_op_params zero defs p = out_of_fuel
parse_op_params (suc n) defs p = elim (leb max_args (length defs)) [
  | true ↦ fail too_many_vars
  | false ↦ elim (peek (item_args_close ∷ []) p) [
    | true ↦ ok (defs, ignore p)
    | false ↦ elim (peek (item_eof ∷ item_variable ∷ []) p) [
      | false ↦ parse_op_params n defs (ignore p)
      | true ↦ bind (parse_var_def n defs p) λ (more, q). parse_op_params n more q
    ]
  ]
]

-- The keyword, with `bytes.Equal`: no type if it is written otherwise.
unfoldable pub op_type : Bytes → ParserType
unfolding equal
op_type val =
    if equal val query_token
    then op_query
    else if equal val mutation_token
    then op_mutate
    else if equal val subscription_token
    then op_sub
    else parser_error

-- What stands in front of the selection of an operation.
pub record Head : Type 0 where
  pub type : ParserType
  pub name : Bytes
  pub var_defs : List VarDef
  pub directives : List Directive

abbrev pub no_head : Head
no_head = record { type = parser_error; name = []; var_defs = []; directives = [] }

unfoldable pub op_name : Parser → Bytes × Parser
unfolding peek next
op_name p = if peek (item_name ∷ []) p then (let (i, q) = next p in (i.val, q)) else ([], p)

unfoldable pub op_params : ℕ → Parser → Result (List VarDef × Parser)
unfolding peek ignore parse_op_params
op_params n p = elim (peek (item_args_open ∷ []) p) [
  | true ↦ parse_op_params n [] (ignore p)
  | false ↦ ok ([], p)
]

unfoldable pub parse_op_type_and_args : ℕ → Parser → Result (Head × Parser)
unfolding next op_type op_name op_params parse_directives
parse_op_type_and_args n p =
    let (keyword, q) = next p in
    let (name, r) = op_name q in
    bind (op_params n r) λ (defs, t). bind (parse_directives n [] t) λ (dirs, u).
      ok (record { type = op_type keyword.val; name = name; var_defs = defs; directives = dirs }, u)

unfoldable pub op_head : ℕ → Parser → Result (Head × Parser)
unfolding peek peek_val parse_op_type_and_args
op_head n p = elim (peek_val (query_token ∷ mutation_token ∷ subscription_token ∷ []) p) [
  | true ↦ parse_op_type_and_args n p
  | false ↦ elim (peek (item_obj_open ∷ []) p) [
    | true ↦ ok (no_head, p)
    | false ↦ tok_err an_operation p
  ]
]

abbrev pub or_query : ParserType → ParserType
or_query parser_error = op_query
or_query t = t

unfoldable pub parse_op : ℕ → Parser → Result Operation
unfolding peek ignore op_head parse_fields skip_close curr_pos slice_of
parse_op n p = bind (in_context in_operation (op_head n p)) λ (head, q).
    elim (peek (item_obj_open ∷ []) q) [
      | false ↦ tok_err an_open_brace q
      | true ↦ bind (in_context in_operation (parse_fields n [] (ignore q))) λ (fields, r).
          let t = skip_close r in
          bind (slice_of t.input (curr_pos p) (curr_pos t + 1)) λ query. ok (record {
            type = or_query head.type;
            name = head.name;
            var_defs = head.var_defs;
            directives = head.directives;
            fields = fields;
            query = query;
            frags = t.frags;
          })
    ]
