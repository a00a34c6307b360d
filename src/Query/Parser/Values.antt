-- ===== src/Query/Parser/Values.antt =====
-- core/graph/parse.go: values, arguments and directives. Each call and each round of a loop takes a
-- unit of fuel; Query/Parser/Values/Total says how much is enough.
pub mod Total
pub mod Grammar
pub mod Fronts
pub mod Sound
pub mod Exact
use graphjin_slim.Base.{
  ℕ, zero, suc, ◌+◌, Bool, true, false, List, [], ◌∷◌, ◌++◌, Option, none, some, Bytes, length, leb,
  if◌then◌else◌,
}
use graphjin_slim.Query.Cursor.{
  MType, item_eof, item_name, item_args_open, item_args_close, item_list_open, item_list_close,
  item_obj_open, item_obj_close, item_colon, item_directive, item_variable, item_number_val,
  item_string_val, item_bool_val, Item,
}
use graphjin_slim.Query.Ast.{
  ParserType, node_str, node_num, node_bool, node_obj, node_list, node_var, node_label, Node, Nodes,
  node, no_nodes, named, append_node, Arg, Directive,
}
use graphjin_slim.Query.Parser.{
  Parser, bad_value, obj_label, obj_colon, too_many_args, arg_label, arg_colon, directive_name,
  Result, ok, fail, panic, out_of_fuel, bind, peek, next, ignore, next_err,
}

abbrev pub max_args : ℕ
max_args = 25

-- what may be the name of an argument
abbrev pub arg_name_types : Bool → List MType
arg_name_types true = item_name ∷ item_string_val ∷ []
arg_name_types false = item_name ∷ []

-- the type of the node for an item that is a value on its own
abbrev pub leaf_type : MType → Option ParserType
leaf_type item_number_val = some node_num
leaf_type item_string_val = some node_str
leaf_type item_bool_val = some node_bool
leaf_type item_variable = some node_var
leaf_type item_name = some node_label
leaf_type _ = none

unfoldable pub leaf_of : Option ParserType → Bytes → Parser → Result (Node × Parser)
leaf_of none val p = fail bad_value
leaf_of (some type) val p = ok (node type [] val no_nodes, p)

unfoldable pub leaf : Parser → Result (Node × Parser)
unfolding next leaf_of
leaf p = let (i, q) = next p in leaf_of (leaf_type i.type) i.val q

unfoldable mutual
  unfolding peek next ignore leaf next_err

  pub parse_value : ℕ → Parser → Result (Node × Parser)
  parse_value zero p = out_of_fuel
  parse_value (suc n) p = elim (peek (item_list_open ∷ []) p) [
    | true ↦ parse_list n no_nodes (ignore p)
    | false ↦ elim (peek (item_obj_open ∷ []) p) [
      | true ↦ parse_obj n no_nodes (ignore p)
      | false ↦ leaf p
    ]
  ]

  -- the loop of `parseList`, with the nodes that were read
  pub parse_list : ℕ → Nodes → Parser → Result (Node × Parser)
  parse_list zero nodes p = out_of_fuel
  parse_list (suc n) nodes p = elim (peek (item_eof ∷ item_list_close ∷ []) p) [
    | true ↦ ok (node node_list [] [] nodes, ignore p)
    | false ↦ bind (parse_value n p) λ (child, q). parse_list n (append_node nodes child) q
  ]

  -- the loop of `parseObj`
  pub parse_obj : ℕ → Nodes → Parser → Result (Node × Parser)
  parse_obj zero nodes p = out_of_fuel
  parse_obj (suc n) nodes p = elim (peek (item_eof ∷ item_obj_close ∷ []) p) [
    | true ↦ ok (node node_obj [] [] nodes, ignore p)
    | false ↦ elim (peek (arg_name_types p.json) p) [
      | false ↦ next_err obj_label p
      | true ↦
          let (label, q) = next p in
          elim (peek (item_colon ∷ []) q) [
            | false ↦ fail obj_colon
            | true ↦
                bind (parse_value n (ignore q))
                  λ (child, r). parse_obj n (append_node nodes (named label.val child)) r
          ]
    ]
  ]

-- the loop of `parseArgs`
unfoldable pub parse_args : ℕ → List Arg → Parser → Result (List Arg × Parser)
unfolding peek next ignore next_err parse_value
parse_args zero args p = out_of_fuel
parse_args (suc n) args p = elim (leb max_args (length args)) [
  | true ↦ fail too_many_args
  | false ↦ elim (peek (item_eof ∷ item_args_close ∷ []) p) [
    | true ↦ ok (args, ignore p)
    | false ↦ elim (peek (arg_name_types p.json) p) [
      | false ↦ next_err arg_label p
      | true ↦
          let (label, q) = next p in
          elim (peek (item_colon ∷ []) q) [
            | false ↦ fail arg_colon
            | true ↦ bind (parse_value n (ignore q)) λ (value, r).
                parse_args n (args ++ (record { name = label.val; val = value } ∷ [])) r
          ]
    ]
  ]
]

unfoldable pub parse_directive : ℕ → List Directive → Parser → Result (List Directive × Parser)
unfolding peek next ignore next_err parse_args
parse_directive n dirs p = elim (peek (item_name ∷ []) p) [
  | false ↦ next_err directive_name p
  | true ↦
      let (label, q) = next p in
      elim (peek (item_args_open ∷ []) q) [
        | false ↦ ok (dirs ++ (record { name = label.val; args = [] } ∷ []), q)
        | true ↦
            bind (parse_args n [] (ignore q))
              λ (args, r). ok (dirs ++ (record { name = label.val; args = args } ∷ []), r)
      ]
]

-- `for p.peek(itemDirective)`
unfoldable pub parse_directives : ℕ → List Directive → Parser → Result (List Directive × Parser)
unfolding peek ignore parse_directive
parse_directives zero dirs p = out_of_fuel
parse_directives (suc n) dirs p = elim (peek (item_directive ∷ []) p) [
  | false ↦ ok (dirs, p)
  | true ↦ bind (parse_directive n dirs (ignore p)) λ (more, q). parse_directives n more q
]
