-- ===== src/Query/Parser/Tests.antt =====
-- Runs of the parser, and its theorems at concrete texts.
use graphjin_slim.Base.{
  codes, ℕ, Bool, false, List, [], ◌∷◌, ◌≡◌, refl, Option, none, some, Bytes, map, length, arith,
  Outcome, ok as lexer_of,
}
use graphjin_slim.Query.Cursor.{
  LexError, Lexer, MType, item_name, item_args_open, item_args_close, item_colon, item_number_val,
  item_variable, Item,
}
use graphjin_slim.Query.Lex.{lex, initial}
use graphjin_slim.Query.Stack.{Stack, new_stack, push, pop}
use graphjin_slim.Query.Stack.View.{Implements, stack-Implements}
use graphjin_slim.Query.Parser.Values.{parse_value, parse_args}
use graphjin_slim.Query.Parser.Values.Fronts.{from, rest}
use graphjin_slim.Query.Parser.Values.Grammar.{Value}
use graphjin_slim.Query.Parser.Values.Exact.{parse_value_iff}
use graphjin_slim.Base.{◌↔◌, ◌≤◌, ◌<◌}
use graphjin_slim.Query.Ast.{
  Node, node, Arg, VarDef, no_nodes, and_node, node_list, node_num, node_obj, node_var, ParserType,
  op_query, Operation,
}
use graphjin_slim.Query.Parser.{
  Parser, ParseError, not_closed, Result, ok, fail, panic, out_of_fuel,
}
use graphjin_slim.Query.Parser.Operations.{parse_op_params}
use graphjin_slim.Query.Parser.Top.{parse}
use graphjin_slim.Query.Parser.Operations.Params.{parse_op_params-diverges}
use graphjin_slim.Query.Parser.Schemas.{Schema, parse_schema}
use graphjin_slim.Query.Parser.Schemas.Total.{parse_schema_ends}
use graphjin_slim.Base.{◌≢◌, true}
use graphjin_slim.Query.Parser.Bounds.{max_args_bounds}
use graphjin_slim.Query.Forest.Operation.{IsParsed}
use graphjin_slim.Query.Forest.Parse.{parse-IsParsed}

abbrev no_wide : ℕ → Bool
no_wide r = false

abbrev shape : Result Operation → Result (List (ℕ × Option ℕ × List ℕ))
shape (ok op) = ok (map (λ f. (f.id, f.parent, f.children)) op.fields)
shape (fail e) = fail e
shape panic = panic
shape out_of_fuel = out_of_fuel

abbrev kind : Result Operation → Option (ParserType × ℕ × ℕ)
kind (ok op) = some (op.type, length op.var_defs, length op.directives)
kind _ = none

abbrev nested : Bytes
nested = codes "{ a { b c { d } ...F } } fragment F on T { p { q } }"

spread_shape :
    shape (parse no_wide 100 nested)
    ≡ ok (
        (0, none, 1 ∷ 2 ∷ 4 ∷ [])
        ∷ (1, some 0, [])
        ∷ (2, some 0, 3 ∷ [])
        ∷ (3, some 2, [])
        ∷ (4, some 0, 5 ∷ [])
        ∷ (5, some 4, [])
        ∷ [])
unfolding parse
spread_shape = refl

query_kind :
    kind (parse no_wide 100 (codes "query Q($a: [Int!] = 3) @x { a(x: $a) }"))
    ≡ some (op_query, 1, 1)
unfolding parse
query_kind = refl

-- The keyword of an operation is known in small letters only.
capital_kind : kind (parse no_wide 100 (codes "MUTATION { a }")) ≡ some (op_query, 0, 0)
unfolding parse
capital_kind = refl

-- The end of the file is taken for the closing parenthesis, and the next error panics.
open_args : parse no_wide 100 (codes "{ a(x: 1") ≡ panic
unfolding parse
open_args = refl

-- A member of a union without a selector.
top_member : parse no_wide 100 (codes "{ ... on A { b } }") ≡ panic
unfolding parse
top_member = refl

open_params : parse no_wide 100 (codes "query ($a") ≡ out_of_fuel
unfolding parse
open_params = refl

unclosed : shape (parse no_wide 100 (codes "{ a { b }")) ≡ fail (ParseError.in_operation not_closed)
unfolding parse
unclosed = refl

abbrev popped_stack : Stack ℕ
popped_stack = record { st = 3 ∷ 4 ∷ []; used = 1 }

popped_is : (pop (push (push new_stack 3) 4)).1 ≡ popped_stack
unfolding new_stack push pop
popped_is = refl

stack-Implements_example : Implements popped_stack 5
stack-Implements_example = stack-Implements popped_stack 5 (omega arith)

abbrev op_of : Result Operation → Operation
op_of (ok op) = op
op_of _ = record {
  type = op_query;
  name = [];
  var_defs = [];
  directives = [];
  fields = [];
  query = [];
  frags = [];
}

parse-IsParsed_example : IsParsed (op_of (parse no_wide 100 nested))
unfolding parse
parse-IsParsed_example = parse-IsParsed no_wide 100 nested (op_of (parse no_wide 100 nested)) refl

abbrev lexer_at : Option (Outcome (Option LexError) Lexer) → Lexer
lexer_at (some (lexer_of l)) = l
lexer_at _ = initial []

abbrev endless_text : Bytes
endless_text = codes "query ($a"

abbrev before_end : Parser
before_end = record {
  frags = [];
  input = codes "($a";
  at = 1;
  items =
      record { type = item_args_open; pos = 0; val = codes "("; line = 1 }
      ∷ record { type = item_name; pos = 1; val = codes "a"; line = 1 }
      ∷ [];
  json = false;
  end_met = false;
}

parse_op_params-diverges_example :
    parse_op_params 1000 [] (record before_end { at = 2 }) ≡ out_of_fuel
parse_op_params-diverges_example =
    parse_op_params-diverges 1000 [] (record before_end { at = 2 }) refl (omega arith)

abbrev value_text : Bytes
value_text = codes "[1, {a: $x}] )"

abbrev at_value : Parser
at_value = record {
  frags = [];
  input = value_text;
  at = 0;
  items = (lexer_at (lex no_wide value_text)).items;
  json = false;
  end_met = false;
}

abbrev value_node : Node
value_node = node node_list [] [] (
    and_node (node node_num [] (codes "1") no_nodes) (
      and_node
        (node node_obj [] [] (and_node (node node_var (codes "a") (codes "x") no_nodes) no_nodes))
        no_nodes))

abbrev node_of : Result (Node × Parser) → Option Node
node_of (ok (v, q)) = some v
node_of _ = none

value_run : node_of (parse_value 30 at_value) ≡ some value_node
unfolding lex parse_value
value_run = refl

parse_value_iff_example :
    ((q : Parser) × (parse_value 30 at_value ≡ ok (value_node, q))
      × (rest q ≡ from 9 at_value.items))
    ↔ Value false value_node (rest at_value) (from 9 at_value.items)
unfolding lex
parse_value_iff_example =
    parse_value_iff 30 at_value value_node (from 9 at_value.items) (omega arith)

abbrev token : MType → Bytes → Item
token type val = record { type = type; pos = 0; val = val; line = 1 }

abbrev at_token : List Item → ℕ → Parser
at_token items at = record {
  frags = [];
  input = [];
  at = at;
  items = items;
  json = false;
  end_met = false;
}

-- `x: 1 y: $b)`
abbrev arg_tokens : List Item
arg_tokens =
    token item_name (b'x' ∷ [])
    ∷ token item_colon []
    ∷ token item_number_val (b'1' ∷ [])
    ∷ token item_name (b'y' ∷ [])
    ∷ token item_colon []
    ∷ token item_variable (b'b' ∷ [])
    ∷ token item_args_close []
    ∷ []

-- `$a: i)`
abbrev var_tokens : List Item
var_tokens =
    token item_variable (b'a' ∷ [])
    ∷ token item_colon []
    ∷ token item_name (b'i' ∷ [])
    ∷ token item_args_close []
    ∷ []

abbrev two_args : List Arg
two_args =
    record { name = b'x' ∷ []; val = node node_num [] (b'1' ∷ []) no_nodes }
    ∷ record { name = b'y' ∷ []; val = node node_var [] (b'b' ∷ []) no_nodes }
    ∷ []

abbrev one_var : List VarDef
one_var = record { name = b'a' ∷ []; val = node node_var [] (b'i' ∷ []) no_nodes } ∷ []

two_args_run : parse_args 20 [] (at_token arg_tokens 0) ≡ ok (two_args, at_token arg_tokens 7)
unfolding parse_args
two_args_run = refl

one_var_run : parse_op_params 20 [] (at_token var_tokens 0) ≡ ok (one_var, at_token var_tokens 4)
unfolding parse_op_params
one_var_run = refl

max_args_bounds_example : (0 ≤ 2) × (2 < 25) × (0 ≤ 1) × (1 < 25)
max_args_bounds_example =
    max_args_bounds 20 [] [] (at_token arg_tokens 0) (at_token arg_tokens 7) (at_token var_tokens 0)
      (at_token var_tokens 4) two_args one_var two_args_run one_var_run

abbrev schema_text : Bytes
schema_text = codes "\n# dbinfo:pg,15,public\ntype users @a { id: Int! tags: [text] }"

abbrev schema_shape : Result Schema → Option (Bytes × Bytes × List (List (Bytes × Bool × Bool)))
schema_shape (ok s) =
    some (s.version, s.schema, map (λ t. map (λ f. (f.type, f.required, f.list)) t.fields) s.types)
schema_shape _ = none

schema_run :
    schema_shape (parse_schema no_wide schema_text)
    ≡ some (
      codes "15",
      codes "public",
      ((codes "Int", true, false) ∷ (codes "text", false, true) ∷ []) ∷ [],
    )
unfolding parse_schema
schema_run = refl

parse_schema_ends_example : parse_schema no_wide schema_text ≢ out_of_fuel
parse_schema_ends_example = parse_schema_ends no_wide schema_text
