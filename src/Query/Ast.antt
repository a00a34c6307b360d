-- ===== src/Query/Ast.antt =====
-- core/graph/parse.go: the data that the parser builds. A string is the list of its bytes. The
-- parent of a node is the node that holds it, and an id of a field is its index, with `none` for the
-- parent -1.
use graphjin_slim.Base.{ℕ, List, Option, none, some, Bytes, equal, if◌then◌else◌}

pub data ParserType : Type 0 where
  parser_error parser_eof op_query op_mutate op_sub : ParserType
  node_str node_num node_bool node_obj node_list node_var node_label : ParserType

pub data FieldType : Type 0 where
  field_plain field_union field_member field_keyword : FieldType

mutual
  pub data Node : Type 0 where
    node : ParserType → Bytes → Bytes → Nodes → Node

  pub data Nodes : Type 0 where
    no_nodes : Nodes
    and_node : Node → Nodes → Nodes

abbrev pub name_of : Node → Bytes
name_of (node type name val children) = name

abbrev pub val_of : Node → Bytes
val_of (node type name val children) = val

abbrev pub children_of : Node → Nodes
children_of (node type name val children) = children

-- `node.Name = name`
abbrev pub named : Bytes → Node → Node
named new (node type name val children) = node type new val children

abbrev pub append_node : Nodes → Node → Nodes
append_node no_nodes n = and_node n no_nodes
append_node (and_node m ms) n = and_node m (append_node ms n)

-- `CMap[name]`: the last child of that name
unfoldable pub child_map : Nodes → Bytes → Option Node
unfolding equal
child_map no_nodes name = none
child_map (and_node n ns) name = elim (child_map ns name) [
  | some m ↦ some m
  | none ↦ if equal (name_of n) name then some n else none
]

pub record Arg : Type 0 where
  pub name : Bytes
  pub val : Node

pub record VarDef : Type 0 where
  pub name : Bytes
  pub val : Node

pub record Directive : Type 0 where
  pub name : Bytes
  pub args : List Arg

pub record Field : Type 0 where
  pub id : ℕ
  pub parent : Option ℕ
  pub type : FieldType
  pub name : Bytes
  pub alias : Bytes
  pub args : List Arg
  pub directives : List Directive
  pub children : List ℕ

pub record Fragment : Type 0 where
  pub name : Bytes
  pub on : Bytes
  pub fields : List Field
  pub value : Bytes

pub record Operation : Type 0 where
  pub type : ParserType
  pub name : Bytes
  pub var_defs : List VarDef
  pub directives : List Directive
  pub fields : List Field
  pub query : Bytes
  pub frags : List Fragment
