-- ===== src/Query/Forest/Operation.antt =====
-- core/graph/parse.go: `parseOp`: the fields of an operation are a forest, and it runs on without an end
-- in the variable definitions only.
use graphjin_slim.Base.{
  ℕ, ◌+◌, ◌*◌, ◌<◌, true, List, [], ◌∷◌, ◌≡◌, refl, sym, ◌∙◌, inl, inr, ◌⊎◌, leb, arith, Bool-cases,
}
use mathlib.Core.Path.{subst}
use graphjin_slim.Query.Cursor.{MType, item_name, item_args_open, item_obj_open, item_obj_close}
use graphjin_slim.Query.Ast.{Operation}
use graphjin_slim.Query.Parser.{
  Parser, in_operation, Result, out_of_fuel, curr_pos, peek, peek_val, next, ignore,
}
use graphjin_slim.Query.Parser.Operations.{
  query_token, mutation_token, subscription_token, skip_close, parse_op_params, op_name, op_params,
  parse_op_type_and_args, op_head, parse_op,
}
use graphjin_slim.Query.Parser.Holds.{
  Holds, holds, failed, panicked, cut_off, bind-Holds, map-Holds, in_context-Holds, next_err-Holds,
}
use graphjin_slim.Query.Parser.Moves.{
  left, left_of_Moves, Moves, Moves-refl, Moves-trans, Moves-next, Moves-ignore,
}
use graphjin_slim.Query.Parser.Values.Total.{Moved, parse_directives-Holds}
use graphjin_slim.Query.Parser.Operations.Ended.{types_of}
use graphjin_slim.Query.Parser.Operations.Params.{
  Endless, parse_op_params-Holds, parse_op_params-Endless,
}
use graphjin_slim.Query.Forest.{IsForest}
use graphjin_slim.Query.Forest.Loop.{Forests, parse_fields-Holds}
use graphjin_slim.Query.Forest.Fragments.{slice_of-Holds}

-- Among items of the types `ts`, an opening parenthesis from which the loop over the variable
-- definitions never ends.
pub record ParamsRunOn (n : ℕ) (ts : List MType) : Type 0 where
  pub state : Parser
  pub types : types_of state ≡ ts
  pub opened : peek (item_args_open ∷ []) state ≡ true
  pub endless : Endless n [] (ignore state)

abbrev pub CutOff : ℕ → Parser → Type 0
CutOff n p = (n < 2 * left p + 3) ⊎ ParamsRunOn n (types_of p)

op_name-Moves : (p : Parser) → Moves p (op_name p).1
unfolding op_name
op_name-Moves p = elim (Bool-cases (peek (item_name ∷ []) p)) [
  | inl e ↦ rw (op_name, e) (Moves-next p)
  | inr e ↦ rw (op_name, e) (Moves-refl p)
]

-- The reason for which a run is cut off may be that it is cut off.
cut_here :
    {C : Type 0} {A : Type 0} {P : A → Type 0} (r : Result A)
    → Holds C P r
    → Holds (r ≡ out_of_fuel) P r
cut_here _ (holds h) = holds h
cut_here _ failed = failed
cut_here _ panicked = panicked
cut_here _ (cut_off c) = cut_off refl

run_on :
    (n : ℕ) (p : Parser)
    → peek (item_args_open ∷ []) p ≡ true
    → parse_op_params n [] (ignore p) ≡ out_of_fuel
    → CutOff n p
run_on n p e c = elim (Bool-cases (leb (2 * left p + 3) n)) [
  | inr b ↦ inl (ground arith)
  | inl b ↦ inr (record {
    state = p;
    types = refl;
    opened = e;
    endless =
        parse_op_params-Endless n [] (ignore p)
          (ground (arith, left_of_Moves p (ignore p) (Moves-ignore p))) c;
  })
]

op_params-Holds : (n : ℕ) (p : Parser) → Holds (CutOff n p) (Moved p) (op_params n p)
unfolding op_params
op_params-Holds n p = elim (Bool-cases (peek (item_args_open ∷ []) p)) [
  | inr e ↦ rw (op_params, e) (holds (Moves-refl p))
  | inl e ↦
      rw (op_params, e)
        (map-Holds (run_on n p e) (λ x m. Moves-trans p (ignore p) x.1 (Moves-ignore p) m)
          (cut_here (parse_op_params n [] (ignore p)) (parse_op_params-Holds n [] (ignore p))))
]

wider : (n : ℕ) (p q : Parser) → Moves p q → CutOff n q → CutOff n p
wider n p q m (inl c) = inl (omega (arith, c, left_of_Moves p q m))
wider n p q m (inr c) = inr (subst (ParamsRunOn n) m.types c)

parse_op_type_and_args-Holds :
    (n : ℕ) (p : Parser) → Holds (CutOff n p) (Moved p) (parse_op_type_and_args n p)
unfolding parse_op_type_and_args
parse_op_type_and_args-Holds n p =
    let q : Parser = (next p).1 in
    let r : Parser = (op_name q).1 in
    let m : Moves p r = Moves-trans p q r (Moves-next p) (op_name-Moves q) in
    bind-Holds _ (map-Holds (wider n p r m) (λ x h. Moves-trans p r x.1 m h) (op_params-Holds n r))
      (λ x h.
        bind-Holds _
          (map-Holds (λ c. wider n p x.1 h (inl (omega (arith, c))))
            (λ y k. Moves-trans p x.1 y.1 h k) (parse_directives-Holds n [] x.1))
          (λ y k. holds k))

op_head-Holds : (n : ℕ) (p : Parser) → Holds (CutOff n p) (Moved p) (op_head n p)
unfolding op_head
op_head-Holds n p =
    elim (Bool-cases (peek_val (query_token ∷ mutation_token ∷ subscription_token ∷ []) p)) [
      | inl e ↦ rw (op_head, e) (parse_op_type_and_args-Holds n p)
      | inr e ↦ elim (Bool-cases (peek (item_obj_open ∷ []) p)) [
        | inl k ↦ rw (op_head, e, k) (holds (Moves-refl p))
        | inr k ↦ rw (op_head, e, k) (next_err-Holds _ p)
      ]
    ]

-- The fields of an operation and of its fragments are forests.
pub record IsParsed (op : Operation) : Type 0 where
  pub fields : IsForest op.fields
  pub frags : Forests op.frags

Moves-skip_close : (p : Parser) → Moves p (skip_close p)
unfolding skip_close
Moves-skip_close p = elim (Bool-cases (peek (item_obj_close ∷ []) p)) [
  | inl e ↦ rw (skip_close, e) (Moves-ignore p)
  | inr e ↦ rw (skip_close, e) (Moves-refl p)
]

pub parse_op-Holds :
    (n : ℕ) (p : Parser) → Forests p.frags → Holds (CutOff n p) IsParsed (parse_op n p)
unfolding parse_op
parse_op-Holds n p h = bind-Holds _ (in_context-Holds in_operation (op_head-Holds n p)) (λ x m.
    elim (Bool-cases (peek (item_obj_open ∷ []) x.1)) [
      | inr e ↦ rw e (next_err-Holds _ x.1)
      | inl e ↦
          let q : Parser = ignore x.1 in
          let mq : Moves p q = Moves-trans p x.1 q m (Moves-ignore x.1) in
          rw e (
            bind-Holds _
              (in_context-Holds in_operation (
                map-Holds (λ c. wider n p q mq (inl c)) (λ y g. g)
                  (parse_fields-Holds n q (subst Forests (sym mq.frags) h))))
              (λ y g.
                let t : Parser = skip_close y.1 in
                bind-Holds _ (slice_of-Holds t.input (curr_pos p) (curr_pos t + 1)) (λ query u.
                  holds (record {
                    fields = g.forest;
                    frags =
                        subst Forests
                          (sym ((Moves-skip_close y.1).frags ∙ g.moves.frags ∙ mq.frags)) h;
                  }))))
    ])
