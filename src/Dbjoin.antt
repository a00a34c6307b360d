-- ===== src/Dbjoin.antt =====
-- core/dbjoin/dbjoin.go: `BuildDatabaseQuery`, which parses a query (core/graph/parse.go) and writes
-- one with the named root fields only. A text is a list of bytes, and what is written to the buffer is
-- what the functions return. A set of ids is the list of those that were stored.
pub mod Writes
pub mod Written
pub mod Marks
pub mod Build
pub mod Merge
pub mod Merged
mod Tests
use graphjin_slim.Base.{
  ℕ, zero, suc, ◌+◌, Bool, true, false, ◌&&◌, ◌||◌, List, [], ◌∷◌, ◌++◌, Option, none, some, Bytes,
  length, equal, elem, ◌==◌, if◌then◌else◌,
}
use graphjin_slim.Query.Ast.{
  ParserType, parser_error, parser_eof, op_query, op_mutate, op_sub, node_str, node_num, node_bool,
  node_obj, node_list, node_var, node_label, Node, Nodes, node, no_nodes, and_node, name_of, Arg,
  VarDef, Field, Operation,
}
use graphjin_slim.Query.Parser.{Result, ok, out_of_fuel, bind}
use graphjin_slim.Query.Parser.Fields.{same_parent}
use graphjin_slim.Query.Parser.Operations.{
  query_token, mutation_token, subscription_token, is_empty,
}
use graphjin_slim.Query.Parser.Top.{is_nil, is_root, parse}

abbrev pub space : Bytes
space = b' ' ∷ []

abbrev pub comma : Bytes
comma = b',' ∷ b' ' ∷ []

abbrev pub colon : Bytes
colon = b':' ∷ b' ' ∷ []

-- ` { … }`
abbrev pub braced : Bytes → Bytes
braced text = b' ' ∷ b'{' ∷ b' ' ∷ text ++ (b' ' ∷ b'}' ∷ [])

abbrev pub behind_first : Bool → Bytes → Bytes
behind_first true separator = []
behind_first false separator = separator

-- `strings.ReplaceAll(val, "\"", "\\\"")`
unfoldable pub escape_quotes : Bytes → Bytes
escape_quotes [] = []
escape_quotes (c ∷ cs) =
    let rest = escape_quotes cs in if c == b'"' then b'\\' ∷ b'"' ∷ rest else c ∷ rest

abbrev pub node_text : ParserType → Bytes → Bytes → Bytes → Bytes
node_text node_str val items members = b'"' ∷ val ++ (b'"' ∷ [])
node_text node_var val items members = b'$' ∷ val
node_text node_list val items members = b'[' ∷ items ++ (b']' ∷ [])
node_text node_obj val items members = b'{' ∷ members ++ (b'}' ∷ [])
node_text _ val items members = val

abbrev pub quoted_val : ParserType → Bytes → Bytes
quoted_val node_str val = escape_quotes val
quoted_val _ val = val

-- `writeNode`; the value of an argument that was parsed is not nil
unfoldable mutual
  unfolding escape_quotes

  pub write_node : Node → Bytes
  write_node (node type name val children) =
      node_text type (quoted_val type val) (write_items true children) (write_members true children)

  pub write_items : Bool → Nodes → Bytes
  write_items first no_nodes = []
  write_items first (and_node n ns) =
      behind_first first comma ++ (write_node n ++ write_items false ns)

  pub write_members : Bool → Nodes → Bytes
  write_members first no_nodes = []
  write_members first (and_node n ns) =
      behind_first first comma ++ (name_of n ++ (colon ++ (write_node n ++ write_members false ns)))

unfoldable pub write_args : Bool → List Arg → Bytes
unfolding write_node
write_args first [] = []
write_args first (a ∷ args) =
    behind_first first comma ++ (a.name ++ (colon ++ (write_node a.val ++ write_args false args)))

-- the alias, the name and the arguments of a field
unfoldable pub write_head : Field → Bytes
unfolding write_args
write_head f =
    (if is_empty f.alias then [] else f.alias ++ colon)
    ++ (f.name ++ (if is_nil f.args then [] else b'(' ∷ write_args true f.args ++ (b')' ∷ [])))

abbrev pub same_place : Option ℕ → Option ℕ → Bool
same_place none none = true
same_place none (some j) = false
same_place (some i) none = false
same_place (some i) (some j) = i == j

-- `f.ParentID == parentID && keepFieldIDs[f.ID]`
abbrev pub is_kept_under : Option ℕ → List ℕ → Field → Bool
is_kept_under parent keep f = same_place f.parent parent && elem f.id keep

unfoldable pub has_kept_child : Option ℕ → List ℕ → List Field → Bool
has_kept_child parent keep [] = false
has_kept_child parent keep (f ∷ fs) = is_kept_under parent keep f || has_kept_child parent keep fs

-- the braces behind a field, with what `write` makes of its children
abbrev pub write_children : Bool → Option Bytes → Option Bytes
write_children false text = some []
write_children true none = none
write_children true (some text) = some (braced text)

abbrev pub append_texts : Bytes → Option Bytes → Option Bytes → Option Bytes
append_texts head none rest = none
append_texts head (some text) none = none
append_texts head (some text) (some rest) = some (head ++ (text ++ rest))

-- The loop of `writeFieldsRecursive`; `write` is the recursive call, `none` if it is cut off.
unfoldable pub write_loop :
    (Option ℕ → Option Bytes) → List Field → Option ℕ → List ℕ → Bool → List Field → Option Bytes
unfolding write_head has_kept_child
write_loop write fields parent keep first [] = some []
write_loop write fields parent keep first (f ∷ fs) =
    let next = write_loop write fields parent keep false fs in
    let skipped = write_loop write fields parent keep first fs in
    elim (is_kept_under parent keep f) [
      | false ↦ skipped
      | true ↦
          append_texts (behind_first first space ++ write_head f)
            (write_children (has_kept_child (some f.id) keep fields) (write (some f.id))) next
    ]

unfoldable pub write_fields : ℕ → List Field → List ℕ → Option ℕ → Option Bytes
unfolding write_loop
write_fields zero fields keep parent = none
write_fields (suc n) fields keep parent =
    write_loop (write_fields n fields keep) fields parent keep true fields

-- The loop of `markDescendants`; `mark` is the recursive call.
unfoldable pub mark_loop :
    (ℕ → List ℕ → Option (List ℕ)) → ℕ → List Field → List ℕ → Option (List ℕ)
mark_loop mark pid [] keep = some keep
mark_loop mark pid (f ∷ fs) keep = elim (same_parent f.parent pid) [
  | false ↦ mark_loop mark pid fs keep
  | true ↦ elim (mark f.id (f.id ∷ keep)) [ none ↦ none | some more ↦ mark_loop mark pid fs more ]
]

unfoldable pub mark_descendants : ℕ → List Field → ℕ → List ℕ → Option (List ℕ)
unfolding mark_loop
mark_descendants zero fields pid keep = none
mark_descendants (suc n) fields pid keep = mark_loop (mark_descendants n fields) pid fields keep

-- `allowed[name]`
unfoldable pub is_allowed : List Bytes → Bytes → Bool
unfolding equal
is_allowed [] name = false
is_allowed (r ∷ roots) name = equal r name || is_allowed roots name

-- the loop that fills `keepFieldIDs`
unfoldable pub keep_roots : ℕ → List Bytes → List Field → List Field → List ℕ → Option (List ℕ)
unfolding mark_descendants is_allowed
keep_roots n roots fields [] keep = some keep
keep_roots n roots fields (f ∷ fs) keep = elim (is_root f.parent && is_allowed roots f.name) [
  | false ↦ keep_roots n roots fields fs keep
  | true ↦ elim (mark_descendants n fields f.id (f.id ∷ keep)) [
    | none ↦ none
    | some more ↦ keep_roots n roots fields fs more
  ]
]

abbrev pub keyword : ParserType → Bytes
keyword op_query = query_token
keyword op_mutate = mutation_token
keyword op_sub = subscription_token
keyword _ = []

unfoldable pub write_vars : Bool → List VarDef → Bytes
write_vars first [] = []
write_vars first (v ∷ vs) = behind_first first comma ++ (b'$' ∷ v.name ++ write_vars false vs)

unfoldable pub write_operation : Operation → Bytes → Bytes
unfolding write_vars
write_operation op text =
    keyword op.type
    ++ ((if is_empty op.name then [] else b' ' ∷ op.name)
        ++ ((if is_nil op.var_defs then [] else b'(' ∷ write_vars true op.var_defs ++ (b')' ∷ []))
            ++ braced text))

-- `BuildDatabaseQuery` behind `Parse`: the recursion goes from a field to its children, so one unit of
-- fuel more than there are fields is enough.
unfoldable pub rebuild : List Bytes → Operation → Result Bytes
unfolding keep_roots write_fields write_operation
rebuild roots op =
    let n = suc (length op.fields) in
    elim (keep_roots n roots op.fields op.fields []) [
      | none ↦ out_of_fuel
      | some keep ↦ elim (write_fields n op.fields keep none) [
        | none ↦ out_of_fuel
        | some text ↦ ok (write_operation op text)
      ]
    ]

unfoldable pub build_database_query : (ℕ → Bool) → ℕ → Bytes → List Bytes → Result Bytes
unfolding parse rebuild
build_database_query is_wide n raw roots = bind (parse is_wide n raw) λ op. rebuild roots op
