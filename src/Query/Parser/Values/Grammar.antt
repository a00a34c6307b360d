-- ===== src/Query/Parser/Values/Grammar.antt =====
-- What a value is, on the items: a grammar in which a node spells the items it is read from.
use graphjin_slim.Base.{◌<◌, Bool, true, List, [], ◌∷◌, ◌≡◌, refl, ap, some, length, arith}
use graphjin_slim.Query.Cursor.{
  item_eof, item_list_open, item_list_close, item_obj_open, item_obj_close, item_colon, Item,
}
use graphjin_slim.Query.Ast.{
  ParserType, node_list, node_obj, Node, Nodes, node, no_nodes, and_node, named, append_node,
}
use graphjin_slim.Query.Parser.{type_in}
use graphjin_slim.Query.Parser.Values.{arg_name_types, leaf_type}

-- `Value json v is js`: the items `is` begin with the value `v`, and `js` are those behind it. With
-- `json` the name of a member may be a string. A list and an object end with their bracket or with the
-- end of the file.
mutual
  pub data Value (json : Bool) : Node → List Item → List Item → Type 0 where
    single :
        {i : Item} {is : List Item} {t : ParserType}
        → leaf_type i.type ≡ some t
        → Value json (node t [] i.val no_nodes) (i ∷ is) is
    list :
        {i : Item} {is js : List Item} {ns : Nodes}
        → type_in i.type (item_list_open ∷ []) ≡ true
        → Values json ns is js
        → Value json (node node_list [] [] ns) (i ∷ is) js
    object :
        {i : Item} {is js : List Item} {ns : Nodes}
        → type_in i.type (item_obj_open ∷ []) ≡ true
        → Members json ns is js
        → Value json (node node_obj [] [] ns) (i ∷ is) js

  pub data Values (json : Bool) : Nodes → List Item → List Item → Type 0 where
    no_more :
        {i : Item} {is : List Item}
        → type_in i.type (item_eof ∷ item_list_close ∷ []) ≡ true
        → Values json no_nodes (i ∷ is) is
    another :
        {v : Node} {ns : Nodes} {is js ks : List Item}
        → Value json v is js
        → Values json ns js ks
        → Values json (and_node v ns) is ks

  pub data Members (json : Bool) : Nodes → List Item → List Item → Type 0 where
    no_member :
        {i : Item} {is : List Item}
        → type_in i.type (item_eof ∷ item_obj_close ∷ []) ≡ true
        → Members json no_nodes (i ∷ is) is
    member :
        {label colon : Item} {v : Node} {ns : Nodes} {is js ks : List Item}
        → type_in label.type (arg_name_types json) ≡ true
        → type_in colon.type (item_colon ∷ []) ≡ true
        → Value json v is js
        → Members json ns js ks
        → Members json (and_node (named label.val v) ns) (label ∷ colon ∷ is) ks

mutual
  pub Value-shorter :
      {json : Bool} (v : Node) (is js : List Item) → Value json v is js → length js < length is
  Value-shorter _ _ _ (single e) = omega arith
  Value-shorter _ _ _ (list {is} {js} {ns} e h) = omega (arith, Values-shorter ns is js h)
  Value-shorter _ _ _ (object {is} {js} {ns} e h) = omega (arith, Members-shorter ns is js h)

  pub Values-shorter :
      {json : Bool} (ns : Nodes) (is js : List Item) → Values json ns is js → length js < length is
  Values-shorter _ _ _ (no_more e) = omega arith
  Values-shorter _ _ _ (another {v} {ns} {is} {js} {ks} h k) =
      omega (arith, Value-shorter v is js h, Values-shorter ns js ks k)

  pub Members-shorter :
      {json : Bool} (ns : Nodes) (is js : List Item) → Members json ns is js → length js < length is
  Members-shorter _ _ _ (no_member e) = omega arith
  Members-shorter _ _ _ (member {v} {ns} {is} {js} {ks} a b h k) =
      omega (arith, Value-shorter v is js h, Members-shorter ns js ks k)

abbrev pub append_nodes : Nodes → Nodes → Nodes
append_nodes no_nodes ns = ns
append_nodes (and_node m ms) ns = and_node m (append_nodes ms ns)

pub append_nodes-append_node :
    (ms : Nodes) (v : Node) (ns : Nodes)
    → append_nodes (append_node ms v) ns ≡ append_nodes ms (and_node v ns)
append_nodes-append_node no_nodes v ns = refl
append_nodes-append_node (and_node m ms) v ns = ap (and_node m) (append_nodes-append_node ms v ns)

pub append_nodes-none : (ms : Nodes) → append_nodes ms no_nodes ≡ ms
append_nodes-none no_nodes = refl
append_nodes-none (and_node m ms) = ap (and_node m) (append_nodes-none ms)
