-- ===== src/Query/Parser/Values/Total.antt =====
-- Values, arguments and directives are read to an end: what is returned comes after items that were
-- read, and twice the items left and a few units of fuel are enough.
use graphjin_slim.Base.{
  ℕ, zero, suc, ◌+◌, ◌*◌, ◌<◌, true, ◌≡◌, inl, inr, List, [], ◌∷◌, ◌++◌, Option, none, some, Bytes,
  length, get_elem?, leb, arith, Option-cases, Bool-cases,
}
use graphjin_slim.Query.Cursor.{
  MType, item_eof, item_name, item_args_open, item_args_close, item_list_open, item_list_close,
  item_obj_open, item_obj_close, item_colon, item_directive,
}
use graphjin_slim.Query.Ast.{ParserType, Node, Nodes, no_nodes, named, append_node, Arg, Directive}
use graphjin_slim.Query.Parser.{
  Parser, obj_label, arg_label, directive_name, Result, ok, bind, peek, next, ignore,
}
use graphjin_slim.Query.Parser.Values.{
  max_args, arg_name_types, leaf_type, leaf_of, leaf, parse_value, parse_list, parse_obj,
  parse_args, parse_directive, parse_directives,
}
use graphjin_slim.Query.Parser.Moves.{
  left, left_of_Moves, Moves, Reads, Moves-refl, Moves-trans, Reads-Moves, Reads-trans, next_none,
  Reads-next, Reads-next_some, Reads-ignore, Moves-ignore,
}
use graphjin_slim.Query.Parser.Holds.{
  Holds, holds, failed, cut_off, bind-Holds, map-Holds, next_err-Holds,
}

abbrev pub Read {ℓ} : {A : Type ℓ} → Parser → A × Parser → Type 0
Read p x = Reads p x.1

abbrev pub Moved {ℓ} : {A : Type ℓ} → Parser → A × Parser → Type 0
Moved p x = Moves p x.1

leaf_of-Holds :
    (type : Option ParserType) (val : Bytes) (p q : Parser)
    → Reads p q
    → Holds ⊥ (Read p) (leaf_of type val q)
unfolding leaf_of
leaf_of-Holds none val p q h = failed
leaf_of-Holds (some type) val p q h = holds h

leaf-Holds : (p : Parser) → Holds ⊥ (Read p) (leaf p)
unfolding leaf leaf_of
leaf-Holds p = elim (Option-cases (get_elem? p.items p.at)) [
  | inl e ↦ rw (leaf, next_none p e) failed
  | inr (i, e) ↦
      leaf_of-Holds (leaf_type (next p).0.type) (next p).0.val p (next p).1 (Reads-next_some p i e)
]

behind :
    (n : ℕ) (p : Parser) (types : List MType) {rest : Result (Node × Parser)}
    → peek types p ≡ true
    → Holds (n < 2 * left (ignore p) + 2) (Moved (ignore p)) rest
    → Holds (suc n < 2 * left p + 1) (Read p) rest
behind n p types e h =
    let start : Reads p (ignore p) = Reads-ignore types p e in
    map-Holds (λ c. omega (arith, c, start.fewer)) (λ x m. Reads-Moves p (ignore p) x.1 start m) h

-- The value behind a label and a colon, and what follows it.
labelled :
    {A B : Type 0} (n : ℕ) (p : Parser) (types : List MType) (value : Result (A × Parser))
    (more : A × Parser → Result (B × Parser))
    → peek types p ≡ true
    → peek (item_colon ∷ []) (next p).1 ≡ true
    → Holds (n < 2 * left (ignore (next p).1) + 1) (Read (ignore (next p).1)) value
    → ((x : A × Parser) → Holds (n < 2 * left x.1 + 2) (Moved x.1) (more x))
    → Holds (suc n < 2 * left p + 2) (Moved p) (bind value more)
labelled n p types value more h k v rest =
    let q : Parser = (next p).1 in
    let start : Reads p (ignore q) =
      Reads-trans p q (ignore q) (Reads-next types p h) (Reads-ignore (item_colon ∷ []) q k) in
    bind-Holds more (map-Holds (λ c. omega (arith, c, start.fewer)) (λ x r. r) v) (λ x r.
      map-Holds (λ c. omega (arith, c, start.fewer, r.fewer))
        (λ y m. Moves-trans p (ignore q) y.1 start.moves (Moves-trans (ignore q) x.1 y.1 r.moves m))
        (rest x))

mutual
  unfolding parse_value parse_list parse_obj

  pub parse_value-Holds :
      (n : ℕ) (p : Parser) → Holds (n < 2 * left p + 1) (Read p) (parse_value n p)
  parse_value-Holds zero p = cut_off (omega arith)
  parse_value-Holds (suc n) p = elim (Bool-cases (peek (item_list_open ∷ []) p)) [
    | inl e ↦
        rw (parse_value, e)
          (behind n p (item_list_open ∷ []) e (parse_list-Holds n no_nodes (ignore p)))
    | inr e ↦ elim (Bool-cases (peek (item_obj_open ∷ []) p)) [
      | inl k ↦
          rw (parse_value, e, k)
            (behind n p (item_obj_open ∷ []) k (parse_obj-Holds n no_nodes (ignore p)))
      | inr k ↦ rw (parse_value, e, k) (map-Holds (λ c. absurd c) (λ x h. h) (leaf-Holds p))
    ]
  ]

  parse_list-Holds :
      (n : ℕ) (nodes : Nodes) (p : Parser)
      → Holds (n < 2 * left p + 2) (Moved p) (parse_list n nodes p)
  parse_list-Holds zero nodes p = cut_off (omega arith)
  parse_list-Holds (suc n) nodes p = elim (Bool-cases (peek (item_eof ∷ item_list_close ∷ []) p)) [
    | inl e ↦ rw (parse_list, e) (holds (Moves-ignore p))
    | inr e ↦
        rw (parse_list, e)
          (bind-Holds (λ x. parse_list n (append_node nodes x.0) x.1)
            (map-Holds (λ c. omega (arith, c)) (λ x h. h) (parse_value-Holds n p))
            (λ x h.
              map-Holds (λ c. omega (arith, c, h.fewer)) (λ y k. Moves-trans p x.1 y.1 h.moves k)
                (parse_list-Holds n (append_node nodes x.0) x.1)))
  ]

  parse_obj-Holds :
      (n : ℕ) (nodes : Nodes) (p : Parser)
      → Holds (n < 2 * left p + 2) (Moved p) (parse_obj n nodes p)
  parse_obj-Holds zero nodes p = cut_off (omega arith)
  parse_obj-Holds (suc n) nodes p = elim (Bool-cases (peek (item_eof ∷ item_obj_close ∷ []) p)) [
    | inl e ↦ rw (parse_obj, e) (holds (Moves-ignore p))
    | inr e ↦ elim (Bool-cases (peek (arg_name_types p.json) p)) [
      | inr k ↦ rw (parse_obj, e, k) (next_err-Holds obj_label p)
      | inl k ↦ elim (Bool-cases (peek (item_colon ∷ []) (next p).1)) [
        | inr c ↦ rw (parse_obj, e, k, c) failed
        | inl c ↦
            rw (parse_obj, e, k, c)
              (labelled n p (arg_name_types p.json) (parse_value n (ignore (next p).1))
                (λ x. parse_obj n (append_node nodes (named (next p).0.val x.0)) x.1) k c
                (parse_value-Holds n (ignore (next p).1))
                (λ x. parse_obj-Holds n (append_node nodes (named (next p).0.val x.0)) x.1))
      ]
    ]
  ]

pub parse_args-Holds :
    (n : ℕ) (args : List Arg) (p : Parser)
    → Holds (n < 2 * left p + 2) (Moved p) (parse_args n args p)
unfolding parse_args
parse_args-Holds zero args p = cut_off (omega arith)
parse_args-Holds (suc n) args p = elim (Bool-cases (leb max_args (length args))) [
  | inl b ↦ rw (parse_args, b) failed
  | inr b ↦ elim (Bool-cases (peek (item_eof ∷ item_args_close ∷ []) p)) [
    | inl e ↦ rw (parse_args, b, e) (holds (Moves-ignore p))
    | inr e ↦ elim (Bool-cases (peek (arg_name_types p.json) p)) [
      | inr k ↦ rw (parse_args, b, e, k) (next_err-Holds arg_label p)
      | inl k ↦ elim (Bool-cases (peek (item_colon ∷ []) (next p).1)) [
        | inr c ↦ rw (parse_args, b, e, k, c) failed
        | inl c ↦
            rw (parse_args, b, e, k, c)
              (labelled n p (arg_name_types p.json) (parse_value n (ignore (next p).1))
                (λ x. parse_args n (args ++ (record { name = (next p).0.val; val = x.0 } ∷ [])) x.1)
                k c (parse_value-Holds n (ignore (next p).1))
                (λ x.
                  parse_args-Holds n (args ++ (record { name = (next p).0.val; val = x.0 } ∷ []))
                    x.1))
      ]
    ]
  ]
]

parse_directive-Holds :
    (n : ℕ) (dirs : List Directive) (p : Parser)
    → Holds (n < 2 * left p + 1) (Moved p) (parse_directive n dirs p)
unfolding parse_directive
parse_directive-Holds n dirs p = elim (Bool-cases (peek (item_name ∷ []) p)) [
  | inr k ↦ rw (parse_directive, k) (next_err-Holds directive_name p)
  | inl k ↦
      let q : Parser = (next p).1 in
      let first : Reads p q = Reads-next (item_name ∷ []) p k in
      elim (Bool-cases (peek (item_args_open ∷ []) q)) [
        | inr c ↦ rw (parse_directive, k, c) (holds first.moves)
        | inl c ↦
            rw (parse_directive, k, c)
              (bind-Holds
                (λ x. ok (dirs ++ (record { name = (next p).0.val; args = x.0 } ∷ []), x.1))
                (map-Holds
                  (λ z.
                    omega (arith, z, first.fewer, (Reads-ignore (item_args_open ∷ []) q c).fewer))
                  (λ x h. h) (parse_args-Holds n [] (ignore q)))
                (λ x h. holds (
                  Moves-trans p q x.1 first.moves
                    (Moves-trans q (ignore q) x.1 (Moves-ignore q) h))))
      ]
]

pub parse_directives-Holds :
    (n : ℕ) (dirs : List Directive) (p : Parser)
    → Holds (n < 2 * left p + 2) (Moved p) (parse_directives n dirs p)
unfolding parse_directives
parse_directives-Holds zero dirs p = cut_off (omega arith)
parse_directives-Holds (suc n) dirs p = elim (Bool-cases (peek (item_directive ∷ []) p)) [
  | inr e ↦ rw (parse_directives, e) (holds (Moves-refl p))
  | inl e ↦
      let start : Reads p (ignore p) = Reads-ignore (item_directive ∷ []) p e in
      rw (parse_directives, e)
        (bind-Holds (λ x. parse_directives n x.0 x.1)
          (map-Holds (λ c. omega (arith, c, start.fewer)) (λ x h. h)
            (parse_directive-Holds n dirs (ignore p)))
          (λ x h.
            map-Holds (λ c. omega (arith, c, start.fewer, left_of_Moves (ignore p) x.1 h))
              (λ y k. Moves-trans p (ignore p) y.1 start.moves (Moves-trans (ignore p) x.1 y.1 h k))
              (parse_directives-Holds n x.0 x.1)))
]
