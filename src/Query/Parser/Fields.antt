-- ===== src/Query/Parser/Fields.antt =====
-- core/graph/parse.go: the fields of an operation or a fragment, as a list in which a field is named
-- by its index.
use graphjin_slim.Base.{
  ℕ, zero, suc, ◌+◌, Bool, true, false, ◌&&◌, List, [], ◌∷◌, ◌++◌, Option, none, some, Bytes,
  length, get_elem?, set, map, equal, leb, ◌==◌, if◌then◌else◌,
}
use graphjin_slim.Query.Cursor.{
  item_eof, item_name, item_on, item_args_open, item_obj_open, item_obj_close, item_colon,
  item_spread,
}
use graphjin_slim.Query.Stack.{Stack, new_stack, len, pop, push}
use graphjin_slim.Query.Stack
use graphjin_slim.Query.Ast.{field_plain, field_union, field_member, Arg, Field, Fragment}
use graphjin_slim.Query.Parser.{
  Parser, a_field, fragment_spread, not_defined, not_closed, too_many_fields, alias_name, Result,
  ok, fail, panic, out_of_fuel, bind, peek, next, ignore, tok_err,
}
use graphjin_slim.Query.Parser.Values.{parse_args, parse_directives}

abbrev pub max_fields : ℕ
max_fields = 1200

abbrev pub blank_field : ℕ → Field
blank_field id = record {
  id = id;
  parent = none;
  type = field_plain;
  name = [];
  alias = [];
  args = [];
  directives = [];
  children = [];
}

-- `parseField` behind the names
unfoldable pub field_parts : ℕ → Field → Parser → Result (Field × Parser)
unfolding peek ignore parse_args parse_directives
field_parts n f p =
    bind
      (elim (peek (item_args_open ∷ []) p) [
        | true ↦ parse_args n f.args (ignore p)
        | false ↦ ok (f.args, p)
      ])
      λ (args, q).
        bind (parse_directives n f.directives q)
          λ (dirs, r). ok (record f { args = args; directives = dirs }, r)

unfoldable pub parse_field : ℕ → Field → Parser → Result (Field × Parser)
unfolding peek next ignore field_parts
parse_field n f p =
    let (first, q) = next p in
    elim (peek (item_colon ∷ []) q) [
      | false ↦ field_parts n (record f { name = first.val }) q
      | true ↦
          let r = ignore q in
          elim (peek (item_name ∷ []) r) [
            | false ↦ fail alias_name
            | true ↦
                let (second, t) = next r in
                field_parts n (record f { alias = first.val; name = second.val }) t
          ]
    ]

-- `fields[pid].Children = append(fields[pid].Children, id)`
unfoldable pub add_child : List Field → ℕ → ℕ → Result (List Field)
add_child fields pid id = elim (get_elem? fields pid) [
  | none ↦ panic
  | some f ↦ ok (set fields pid (record f { children = f.children ++ (id ∷ []) }))
]

-- the part of `parseNormalFields` that gives the new field its parent
unfoldable pub place : Option ℕ → List Field → Field → Result (List Field)
unfolding add_child
place none fields f = ok (fields ++ (record f { parent = none } ∷ []))
place (some pid) fields f =
    bind (add_child fields pid f.id) λ linked. ok (linked ++ (record f { parent = some pid } ∷ []))

unfoldable pub parse_normal_fields :
    ℕ → Stack ℕ → List Field → Parser → Result (Stack ℕ × List Field × Parser)
unfolding peek ignore parse_field place Stack.peek push
parse_normal_fields n st fields p = elim (peek (item_name ∷ []) p) [
  | false ↦ tok_err a_field p
  | true ↦ bind (parse_field n (blank_field (length fields)) p) λ (f, q).
      bind (place (Stack.peek st) fields f) λ more. elim (peek (item_obj_open ∷ []) q) [
        | true ↦ ok (push st f.id, more, ignore q)
        | false ↦ ok (st, more, q)
      ]
]

abbrev pub same_parent : Option ℕ → ℕ → Bool
same_parent none pid = false
same_parent (some q) pid = q == pid

-- the loop over the fields behind a union's selector `pid`
unfoldable pub mark_members : ℕ → List Arg → ℕ → List Field → List Field
mark_members pid args i [] = []
mark_members pid args i (f ∷ fs) =
    let rest = mark_members pid args (suc i) fs in
    (if leb (suc pid) i && same_parent f.parent pid
      then record f { args = args; type = field_member }
      else f)
    ∷ rest

-- `... on`: the selector, of the union type, and the field behind it
unfoldable pub parse_member :
    ℕ → ℕ → Stack ℕ → List Field → Parser → Result (Stack ℕ × List Field × Parser)
unfolding parse_normal_fields mark_members
parse_member n pid st fields p = elim (get_elem? fields pid) [
  | none ↦ panic
  | some f ↦
      bind (parse_normal_fields n st (set fields pid (record f { type = field_union })) p)
        λ (st', more, q). elim (get_elem? more pid) [
          | none ↦ panic
          | some g ↦ ok (st', mark_members pid g.args 0 more, q)
        ]
]

unfoldable pub lookup_fragment : List Fragment → Bytes → Option Fragment
unfolding equal
lookup_fragment [] name = none
lookup_fragment (f ∷ fs) name = if equal f.name name then some f else lookup_fragment fs name

-- the new parent of a field of a fragment, behind `n` fields in the selection of `pid`
abbrev pub new_parent : ℕ → Option ℕ → Option ℕ → Option ℕ
new_parent zero pid parent = parent
new_parent (suc n) pid none = pid
new_parent (suc n) pid (some q) = some (q + suc n)

-- the field of a fragment at its place `k`, behind `n` fields
abbrev pub moved : ℕ → Option ℕ → ℕ → Field → Field
moved n pid k f = record f {
  id = k;
  parent = new_parent n pid f.parent;
  children = map (λ c. c + n) f.children;
}

-- a top field of a fragment is a child of `pid`
unfoldable pub adopt : ℕ → Option ℕ → ℕ → Option ℕ → List Field → Result (List Field)
unfolding add_child
adopt zero pid k parent fields = ok fields
adopt (suc n) none k parent fields = ok fields
adopt (suc n) (some pid) k (some q) fields = ok fields
adopt (suc n) (some pid) k none fields = add_child fields pid k

-- The loop over the fields of a fragment. The source appends them all first; each round then changes
-- the field itself and the children of `pid`, which is before them, so `copied` holds those done.
unfoldable pub splice : ℕ → Option ℕ → List Field → List Field → List Field → Result (List Field)
unfolding adopt
splice n pid fields copied [] = ok (fields ++ copied)
splice n pid fields copied (f ∷ fs) =
    let k = n + length copied in
    bind (adopt n pid k f.parent fields)
      λ linked. splice n pid linked (copied ++ (moved n pid k f ∷ [])) fs

unfoldable pub spread_fragment : Option ℕ → List Field → Parser → Result (List Field × Parser)
unfolding peek next lookup_fragment splice
spread_fragment pid fields p = elim (peek (item_name ∷ []) p) [
  | false ↦ fail fragment_spread
  | true ↦
      let (name, q) = next p in
      elim (lookup_fragment q.frags name.val) [
        | none ↦ fail (not_defined name.val)
        | some fr ↦ bind (splice (length fields) pid fields [] fr.fields) λ more. ok (more, q)
      ]
]

unfoldable pub parse_fragment_fields :
    ℕ → Stack ℕ → List Field → Parser → Result (Stack ℕ × List Field × Parser)
unfolding peek ignore parse_member spread_fragment Stack.peek
parse_fragment_fields n st fields p = elim (peek (item_on ∷ []) p) [
  | true ↦ elim (Stack.peek st) [
    | none ↦ panic
    | some pid ↦ parse_member n pid st fields (ignore p)
  ]
  | false ↦ bind (spread_fragment (Stack.peek st) fields p) λ (more, q). ok (st, more, q)
]

-- a round of `parseFields` behind the tests for the end
unfoldable pub parse_one :
    ℕ → Stack ℕ → List Field → Parser → Result (Stack ℕ × List Field × Parser)
unfolding peek ignore parse_fragment_fields parse_normal_fields
parse_one n st fields p = elim (leb max_fields (length fields)) [
  | true ↦ fail too_many_fields
  | false ↦ elim (peek (item_spread ∷ []) p) [
    | true ↦ parse_fragment_fields n st fields (ignore p)
    | false ↦ parse_normal_fields n st fields p
  ]
]

-- the loop of `parseFields`
unfoldable pub fields_loop : ℕ → Stack ℕ → List Field → Parser → Result (List Field × Parser)
unfolding peek ignore parse_one len pop
fields_loop zero st fields p = out_of_fuel
fields_loop (suc n) st fields p = elim (peek (item_eof ∷ []) p) [
  | true ↦ fail not_closed
  | false ↦ elim (peek (item_obj_close ∷ []) p) [
    | true ↦ elim (len st == 0) [
      | true ↦ ok (fields, p)
      | false ↦ fields_loop n (pop st).1 fields (ignore p)
    ]
    | false ↦ bind (parse_one n st fields p) λ (st', more, q). fields_loop n st' more q
  ]
]

unfoldable pub parse_fields : ℕ → List Field → Parser → Result (List Field × Parser)
unfolding peek fields_loop new_stack
parse_fields n fields p = elim (peek (item_name ∷ item_spread ∷ []) p) [
  | false ↦ tok_err a_field p
  | true ↦ fields_loop n new_stack fields p
]
