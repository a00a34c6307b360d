-- ===== src/Query/Parser/Values/Sound.antt =====
-- core/graph/parse.go: what `parseValue` returns is a value of the grammar.
use graphjin_slim.Base.{
  ℕ, zero, suc, true, [], ◌∷◌, ◌≡◌, refl, sym, ap, ◌∙◌, inl, inr, get_elem?, Option-cases,
  Bool-cases,
}
use mathlib.Core.Path.{subst}
use graphjin_slim.Query.Cursor.{
  item_eof, item_list_open, item_list_close, item_obj_open, item_obj_close, item_colon,
}
use graphjin_slim.Query.Ast.{
  node_list, node_obj, Node, Nodes, node, no_nodes, and_node, named, append_node,
}
use graphjin_slim.Query.Parser.{Parser, obj_label, peek, next, ignore}
use graphjin_slim.Query.Parser.Values.{
  arg_name_types, leaf_type, leaf_of, leaf, parse_value, parse_list, parse_obj,
}
use graphjin_slim.Query.Parser.Values.Grammar.{
  Value, Values, Members, single, list, object, no_more, another, no_member, member, append_nodes,
  append_nodes-append_node, append_nodes-none,
}
use graphjin_slim.Query.Parser.Moves.{next_some, next_none}
use graphjin_slim.Query.Parser.Holds.{
  Holds, holds, failed, cut_off, bind-Holds, map-Holds, next_err-Holds,
}
use graphjin_slim.Query.Parser.Values.Fronts.{rest, Within, Within-trans, from_some, front}

-- A value of the grammar between two states.
pub record Reading (p : Parser) (x : Node × Parser) : Type 0 where
  pub value : Value p.json x.0 (rest p) (rest x.1)
  pub within : Within p x.1

record ListReading (acc : Nodes) (p : Parser) (x : Node × Parser) : Type 0 where
  pub nodes : Nodes
  pub result : x.0 ≡ node node_list [] [] (append_nodes acc nodes)
  pub values : Values p.json nodes (rest p) (rest x.1)
  pub within : Within p x.1

record ObjectReading (acc : Nodes) (p : Parser) (x : Node × Parser) : Type 0 where
  pub nodes : Nodes
  pub result : x.0 ≡ node node_obj [] [] (append_nodes acc nodes)
  pub members : Members p.json nodes (rest p) (rest x.1)
  pub within : Within p x.1

leaf-Reading : (p : Parser) → Holds Unit (Reading p) (leaf p)
unfolding leaf leaf_of
leaf-Reading p = elim (Option-cases (get_elem? p.items p.at)) [
  | inl e ↦ rw (leaf, next_none p e) failed
  | inr (i, e) ↦ elim (Option-cases (leaf_type i.type)) [
    | inl k ↦ rw (leaf, next_some p i e, k) failed
    | inr (t, k) ↦
        rw (leaf, next_some p i e, k)
          (holds (record {
            value = rw (from_some p.at p.items i e) (single k);
            within = record { items = refl; json = refl };
          }))
  ]
]

in_list :
    (p : Parser) (x : Node × Parser)
    → peek (item_list_open ∷ []) p ≡ true
    → ListReading no_nodes (ignore p) x
    → Reading p x
unfolding ignore
in_list p x e h =
    let f = front (item_list_open ∷ []) p e in
    record {
      value =
          rw (h.result, f.begins)
            (list f.fits
              (subst (λ b. Values b h.nodes (rest (next p).1) (rest x.1)) f.within.json h.values));
      within = Within-trans p (next p).1 x.1 f.within h.within;
    }

in_object :
    (p : Parser) (x : Node × Parser)
    → peek (item_obj_open ∷ []) p ≡ true
    → ObjectReading no_nodes (ignore p) x
    → Reading p x
unfolding ignore
in_object p x e h =
    let f = front (item_obj_open ∷ []) p e in
    record {
      value =
          rw (h.result, f.begins)
            (object f.fits (
              subst (λ b. Members b h.nodes (rest (next p).1) (rest x.1)) f.within.json h.members));
      within = Within-trans p (next p).1 x.1 f.within h.within;
    }

list_end :
    (acc : Nodes) (p : Parser)
    → peek (item_eof ∷ item_list_close ∷ []) p ≡ true
    → ListReading acc p (node node_list [] [] acc, ignore p)
unfolding ignore
list_end acc p e =
    let f = front (item_eof ∷ item_list_close ∷ []) p e in
    record {
      nodes = no_nodes;
      result = ap (node node_list [] []) (sym (append_nodes-none acc));
      values = rw f.begins (no_more f.fits);
      within = f.within;
    }

object_end :
    (acc : Nodes) (p : Parser)
    → peek (item_eof ∷ item_obj_close ∷ []) p ≡ true
    → ObjectReading acc p (node node_obj [] [] acc, ignore p)
unfolding ignore
object_end acc p e =
    let f = front (item_eof ∷ item_obj_close ∷ []) p e in
    record {
      nodes = no_nodes;
      result = ap (node node_obj [] []) (sym (append_nodes-none acc));
      members = rw f.begins (no_member f.fits);
      within = f.within;
    }

list_more :
    (acc : Nodes) (p : Parser) (x y : Node × Parser)
    → Reading p x
    → ListReading (append_node acc x.0) x.1 y
    → ListReading acc p y
list_more acc p x y h k = record {
  nodes = and_node x.0 k.nodes;
  result = k.result ∙ ap (node node_list [] []) (append_nodes-append_node acc x.0 k.nodes);
  values =
      another h.value (subst (λ b. Values b k.nodes (rest x.1) (rest y.1)) h.within.json k.values);
  within = Within-trans p x.1 y.1 h.within k.within;
}

object_more :
    (acc : Nodes) (p : Parser) (x y : Node × Parser)
    → peek (arg_name_types p.json) p ≡ true
    → peek (item_colon ∷ []) (next p).1 ≡ true
    → Reading (ignore (next p).1) x
    → ObjectReading (append_node acc (named (next p).0.val x.0)) x.1 y
    → ObjectReading acc p y
unfolding ignore
object_more acc p x y a b h k =
    let q : Parser = (next p).1 in
    let f = front (arg_name_types p.json) p a in
    let g = front (item_colon ∷ []) q b in
    let to_value : Within p (next q).1 = Within-trans p q (next q).1 f.within g.within in
    let to_rest : Within p x.1 = Within-trans p (next q).1 x.1 to_value h.within in
    record {
      nodes = and_node (named (next p).0.val x.0) k.nodes;
      result =
          k.result
          ∙ ap (node node_obj [] [])
              (append_nodes-append_node acc (named (next p).0.val x.0) k.nodes);
      members =
          rw (f.begins, g.begins)
            (member f.fits g.fits
              (subst (λ c. Value c x.0 (rest (next q).1) (rest x.1)) to_value.json h.value)
              (subst (λ c. Members c k.nodes (rest x.1) (rest y.1)) to_rest.json k.members));
      within = Within-trans p x.1 y.1 to_rest k.within;
    }

mutual
  unfolding parse_value parse_list parse_obj

  pub parse_value-Reading : (n : ℕ) (p : Parser) → Holds Unit (Reading p) (parse_value n p)
  parse_value-Reading zero p = cut_off tt
  parse_value-Reading (suc n) p = elim (Bool-cases (peek (item_list_open ∷ []) p)) [
    | inl e ↦
        rw (parse_value, e)
          (map-Holds (λ c. c) (λ x h. in_list p x e h) (parse_list-Reading n no_nodes (ignore p)))
    | inr e ↦ elim (Bool-cases (peek (item_obj_open ∷ []) p)) [
      | inl k ↦
          rw (parse_value, e, k)
            (map-Holds (λ c. c) (λ x h. in_object p x k h)
              (parse_obj-Reading n no_nodes (ignore p)))
      | inr k ↦ rw (parse_value, e, k) (leaf-Reading p)
    ]
  ]

  parse_list-Reading :
      (n : ℕ) (acc : Nodes) (p : Parser) → Holds Unit (ListReading acc p) (parse_list n acc p)
  parse_list-Reading zero acc p = cut_off tt
  parse_list-Reading (suc n) acc p = elim (Bool-cases (peek (item_eof ∷ item_list_close ∷ []) p)) [
    | inl e ↦ rw (parse_list, e) (holds (list_end acc p e))
    | inr e ↦
        rw (parse_list, e)
          (bind-Holds (λ x. parse_list n (append_node acc x.0) x.1) (parse_value-Reading n p)
            (λ x h.
              map-Holds (λ c. c) (λ y k. list_more acc p x y h k)
                (parse_list-Reading n (append_node acc x.0) x.1)))
  ]

  parse_obj-Reading :
      (n : ℕ) (acc : Nodes) (p : Parser) → Holds Unit (ObjectReading acc p) (parse_obj n acc p)
  parse_obj-Reading zero acc p = cut_off tt
  parse_obj-Reading (suc n) acc p = elim (Bool-cases (peek (item_eof ∷ item_obj_close ∷ []) p)) [
    | inl e ↦ rw (parse_obj, e) (holds (object_end acc p e))
    | inr e ↦ elim (Bool-cases (peek (arg_name_types p.json) p)) [
      | inr k ↦ rw (parse_obj, e, k) (next_err-Holds obj_label p)
      | inl k ↦ elim (Bool-cases (peek (item_colon ∷ []) (next p).1)) [
        | inr c ↦ rw (parse_obj, e, k, c) failed
        | inl c ↦
            rw (parse_obj, e, k, c)
              (bind-Holds (λ x. parse_obj n (append_node acc (named (next p).0.val x.0)) x.1)
                (parse_value-Reading n (ignore (next p).1))
                (λ x h.
                  map-Holds (λ z. z) (λ y m. object_more acc p x y k c h m)
                    (parse_obj-Reading n (append_node acc (named (next p).0.val x.0)) x.1)))
      ]
    ]
  ]
