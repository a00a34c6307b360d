-- ===== src/Query/Parser/Values/Exact.antt =====
-- core/graph/parse.go: `parseValue` reads exactly the values of the grammar.
use graphjin_slim.Base.{
  ℕ, zero, suc, ◌+◌, ◌*◌, ◌≤◌, Bool, true, false, List, [], ◌∷◌, ◌≡◌, refl, ap, ◌∙◌, ◌↔◌, some,
  length, arith,
}
use mathlib.Core.Path.{subst}
use graphjin_slim.Query.Cursor.{
  MType, item_name, item_string_val, item_number_val, item_bool_val, item_variable, item_eof,
  item_list_open, item_list_close, item_obj_open, item_obj_close, item_colon, Item,
}
use graphjin_slim.Query.Ast.{
  ParserType, node_list, node_obj, Node, Nodes, node, no_nodes, and_node, named, append_node,
}
use graphjin_slim.Query.Parser.{Parser, Result, ok, type_in, next, ignore}
use graphjin_slim.Query.Parser.Values.{
  arg_name_types, leaf_type, leaf_of, leaf, parse_value, parse_list, parse_obj,
}
use graphjin_slim.Query.Parser.Values.Grammar.{
  Value, Values, Members, single, list, object, no_more, another, no_member, member, Value-shorter,
  append_nodes, append_nodes-append_node, append_nodes-none,
}
use graphjin_slim.Query.Parser.Holds.{of_ok}
use graphjin_slim.Query.Parser.Values.Fronts.{rest, Within, Within-trans, starts}
use graphjin_slim.Query.Parser.Values.Sound.{parse_value-Reading}

leaf_first :
    (t : MType) (u : ParserType)
    → leaf_type t ≡ some u
    → (type_in t (item_list_open ∷ []) ≡ false)
      × (type_in t (item_obj_open ∷ []) ≡ false)
      × (type_in t (item_eof ∷ item_list_close ∷ []) ≡ false)
leaf_first item_number_val u e = (refl, refl, refl)
leaf_first item_string_val u e = (refl, refl, refl)
leaf_first item_bool_val u e = (refl, refl, refl)
leaf_first item_variable u e = (refl, refl, refl)
leaf_first item_name u e = (refl, refl, refl)
leaf_first _ u e = cc

list_first :
    (t : MType)
    → type_in t (item_list_open ∷ []) ≡ true
    → type_in t (item_eof ∷ item_list_close ∷ []) ≡ false
list_first item_list_open e = refl
list_first _ e = cc

object_first :
    (t : MType)
    → type_in t (item_obj_open ∷ []) ≡ true
    → (type_in t (item_list_open ∷ []) ≡ false)
      × (type_in t (item_eof ∷ item_list_close ∷ []) ≡ false)
object_first item_obj_open e = (refl, refl)
object_first _ e = cc

label_first :
    (json : Bool) (t : MType)
    → type_in t (arg_name_types json) ≡ true
    → type_in t (item_eof ∷ item_obj_close ∷ []) ≡ false
label_first true item_name e = refl
label_first true item_string_val e = refl
label_first true _ e = cc
label_first false item_name e = refl
label_first false _ e = cc

-- No value begins with what ends a list.
Value-first :
    {json : Bool} (v : Node) (is js : List Item)
    → Value json v is js
    → (i : Item) × (ks : List Item) × (is ≡ i ∷ ks)
      × (type_in i.type (item_eof ∷ item_list_close ∷ []) ≡ false)
Value-first _ _ _ (single {i} {is} {t} e) = (i, is, refl, (leaf_first i.type t e).2)
Value-first _ _ _ (list {i} {is} e h) = (i, is, refl, list_first i.type e)
Value-first _ _ _ (object {i} {is} e h) = (i, is, refl, (object_first i.type e).1)

-- A run that returns the node and leaves the items.
record Done (p : Parser) (v : Node) (js : List Item) (r : Result (Node × Parser)) : Type 0 where
  pub after : Parser
  pub returns : r ≡ ok (v, after)
  pub left_over : rest after ≡ js
  pub within : Within p after

leaf_done :
    (p : Parser) (i : Item) (t : ParserType)
    → leaf_type i.type ≡ some t
    → (next p).0 ≡ i
    → leaf p ≡ ok (node t [] i.val no_nodes, (next p).1)
unfolding leaf leaf_of
leaf_done p i t e k = rw (leaf, k, e) refl

via :
    (p q : Parser) (v : Node) (js : List Item) (r s : Result (Node × Parser))
    → Within p q
    → r ≡ s
    → Done q v js s
    → Done p v js r
via p q v js r s w e d = record {
  after = d.after;
  returns = e ∙ d.returns;
  left_over = d.left_over;
  within = Within-trans p q d.after w d.within;
}

mutual
  unfolding parse_value parse_list parse_obj ignore

  Value-Done :
      {json : Bool} (v : Node) (is js : List Item)
      → Value json v is js
      → (n : ℕ) (p : Parser) → rest p ≡ is
      → p.json ≡ json
      → 2 * length is + 1 ≤ n
      → Done p v js (parse_value n p)
  Value-Done v is js h zero p at same fuel = absurd (omega arith)
  Value-Done _ _ _ (single {i} {is} {t} e) (suc n) p at same fuel =
      let s = starts p i is at in
      let l = leaf_first i.type t e in
      record {
        after = (next p).1;
        returns =
            rw
              (parse_value, s.tests (item_list_open ∷ []) ∙ l.0, s.tests (item_obj_open ∷ []) ∙ l.1)
              (leaf_done p i t e s.first);
        left_over = s.left_over;
        within = s.within;
      }
  Value-Done _ _ _ (list {i} {is} {js} {ns} e h) (suc n) p at same fuel =
      let s = starts p i is at in
      via p (next p).1 (node node_list [] [] ns) js _ _ s.within
        (rw (parse_value, s.tests (item_list_open ∷ []) ∙ e) refl)
        (list-Done no_nodes ns is js h n (next p).1 s.left_over (s.within.json ∙ same)
          (omega arith))
  Value-Done _ _ _ (object {i} {is} {js} {ns} e h) (suc n) p at same fuel =
      let s = starts p i is at in
      via p (next p).1 (node node_obj [] [] ns) js _ _ s.within
        (rw
          (
            parse_value,
            s.tests (item_list_open ∷ []) ∙ (object_first i.type e).0,
            s.tests (item_obj_open ∷ []) ∙ e,
          )
          refl)
        (object-Done no_nodes ns is js h n (next p).1 s.left_over (s.within.json ∙ same)
          (omega arith))

  list-Done :
      {json : Bool} (acc ns : Nodes) (is js : List Item)
      → Values json ns is js
      → (n : ℕ) (p : Parser) → rest p ≡ is
      → p.json ≡ json
      → 2 * length is + 2 ≤ n
      → Done p (node node_list [] [] (append_nodes acc ns)) js (parse_list n acc p)
  list-Done acc ns is js h zero p at same fuel = absurd (omega arith)
  list-Done acc _ _ _ (no_more {i} {is} e) (suc n) p at same fuel =
      let s = starts p i is at in
      record {
        after = (next p).1;
        returns =
            rw (parse_list, s.tests (item_eof ∷ item_list_close ∷ []) ∙ e, append_nodes-none acc)
              refl;
        left_over = s.left_over;
        within = s.within;
      }
  list-Done acc _ _ _ (another {v} {ns} {is} {js} {ks} h k) (suc n) p at same fuel =
      let (i, is', first, other) = Value-first v is js h in
      let s = starts p i is' (at ∙ first) in
      let d = Value-Done v is js h n p at same (omega arith) in
      via p d.after (node node_list [] [] (append_nodes acc (and_node v ns))) ks _ _ d.within
        (rw (parse_list, s.tests (item_eof ∷ item_list_close ∷ []) ∙ other, d.returns) refl)
        (subst
          (λ ms.
            Done d.after (node node_list [] [] ms) ks (parse_list n (append_node acc v) d.after))
          (append_nodes-append_node acc v ns)
          (list-Done (append_node acc v) ns js ks k n d.after d.left_over (d.within.json ∙ same)
            (omega (arith, fuel, Value-shorter v is js h))))

  object-Done :
      {json : Bool} (acc ns : Nodes) (is js : List Item)
      → Members json ns is js
      → (n : ℕ) (p : Parser) → rest p ≡ is
      → p.json ≡ json
      → 2 * length is + 2 ≤ n
      → Done p (node node_obj [] [] (append_nodes acc ns)) js (parse_obj n acc p)
  object-Done acc ns is js h zero p at same fuel = absurd (omega arith)
  object-Done acc _ _ _ (no_member {i} {is} e) (suc n) p at same fuel =
      let s = starts p i is at in
      record {
        after = (next p).1;
        returns =
            rw (parse_obj, s.tests (item_eof ∷ item_obj_close ∷ []) ∙ e, append_nodes-none acc)
              refl;
        left_over = s.left_over;
        within = s.within;
      }
  object-Done {json} acc _ _ _ (member {label} {colon} {v} {ns} {is} {js} {ks} a b h k) (suc n) p at
        same fuel =
      let s = starts p label (colon ∷ is) at in
      let q : Parser = (next p).1 in
      let t = starts q colon is s.left_over in
      let within : Within p (next q).1 = Within-trans p q (next q).1 s.within t.within in
      let d = Value-Done v is js h n (next q).1 t.left_over (within.json ∙ same) (omega arith) in
      via p d.after (node node_obj [] [] (append_nodes acc (and_node (named label.val v) ns))) ks _
        _ (Within-trans p (next q).1 d.after within d.within)
        (rw
          (
            parse_obj,
            s.tests (item_eof ∷ item_obj_close ∷ []) ∙ label_first json label.type a,
            s.tests (arg_name_types p.json)
                ∙ (ap (λ c. type_in label.type (arg_name_types c)) same ∙ a),
            t.tests (item_colon ∷ []) ∙ b,
            d.returns,
            s.first,
          )
          refl)
        (subst
          (λ ms.
            Done d.after (node node_obj [] [] ms) ks
              (parse_obj n (append_node acc (named label.val v)) d.after))
          (append_nodes-append_node acc (named label.val v) ns)
          (object-Done (append_node acc (named label.val v)) ns js ks k n d.after d.left_over
            (d.within.json ∙ within.json ∙ same) (omega (arith, fuel, Value-shorter v is js h))))

-- With one unit of fuel and two for each item that is left, `parseValue` returns a node and leaves
-- certain items exactly if the grammar of values reads that node from the items that are left and
-- leaves those.
pub parse_value_iff :
    (n : ℕ) (p : Parser) (v : Node) (js : List Item)
    → 2 * length (rest p) + 1 ≤ n
    → ((q : Parser) × (parse_value n p ≡ ok (v, q)) × (rest q ≡ js)) ↔ Value p.json v (rest p) js
parse_value_iff n p v js fuel = (
  λ (q, e, k). subst (Value p.json v (rest p)) k (of_ok (v, q) e (parse_value-Reading n p)).value,
  λ h. let d = Value-Done v (rest p) js h n p refl refl fuel in (d.after, d.returns, d.left_over),
)
