-- ===== src/Query/Parser/Bounds.antt =====
-- core/graph/parse.go: the limit `maxArgs` on the arguments of a field or a directive and on the
-- variables of an operation.
use graphjin_slim.Base.{
  ℕ, zero, suc, ◌+◌, ◌<◌, ◌≤◌, List, [], ◌∷◌, ◌++◌, ◌≡◌, Bytes, inl, inr, length, leb, arith,
  Bool-cases, length-append,
}
use graphjin_slim.Query.Cursor.{item_eof, item_args_close, item_colon, item_equals, item_variable}
use graphjin_slim.Query.Ast.{Node, Arg, VarDef}
use graphjin_slim.Query.Parser.{Parser, Result, ok, arg_label, peek, next, ignore, bind}
use graphjin_slim.Query.Parser.Values.{max_args, arg_name_types, parse_value, parse_args}
use graphjin_slim.Query.Parser.Operations.{
  type_loop, typed_default, default_value, is_empty, add_var, parse_var_def, parse_op_params,
}
use graphjin_slim.Query.Parser.Holds.{
  Holds, holds, failed, cut_off, bind-Holds, map-Holds, next_err-Holds, of_ok,
}

-- Longer than `n`, and shorter than the limit.
abbrev Between {ℓ} : {A : Type ℓ} → ℕ → List A × Parser → Type 0
Between n x = (n ≤ length x.0) × (length x.0 < max_args)

any {ℓ} : {A : Type ℓ} (r : Result A) → Holds {ℓ, 0} Unit (λ a. Unit) r
any (ok a) = holds tt
any (Result.fail e) = failed
any Result.panic = Holds.panicked
any Result.out_of_fuel = cut_off tt

parse_args-Between :
    (n : ℕ) (args : List Arg) (p : Parser)
    → Holds Unit (Between (length args)) (parse_args n args p)
unfolding parse_args
parse_args-Between zero args p = cut_off tt
parse_args-Between (suc n) args p = elim (Bool-cases (leb max_args (length args))) [
  | inl b ↦ rw (parse_args, b) failed
  | inr b ↦ elim (Bool-cases (peek (item_eof ∷ item_args_close ∷ []) p)) [
    | inl e ↦ rw (parse_args, b, e) (holds (omega arith, ground arith))
    | inr e ↦ elim (Bool-cases (peek (arg_name_types p.json) p)) [
      | inr k ↦ rw (parse_args, b, e, k) (next_err-Holds arg_label p)
      | inl k ↦ elim (Bool-cases (peek (item_colon ∷ []) (next p).1)) [
        | inr c ↦ rw (parse_args, b, e, k, c) failed
        | inl c ↦
            rw (parse_args, b, e, k, c)
              (bind-Holds _ (any (parse_value n (ignore (next p).1))) (λ x u.
                let more : List Arg = args ++ (record { name = (next p).0.val; val = x.0 } ∷ []) in
                map-Holds (λ z. z)
                  (λ y h. (
                    omega (
                      arith,
                      h.0,
                      length-append args (record { name = (next p).0.val; val = x.0 } ∷ []),
                    ),
                    h.1,
                  ))
                  (parse_args-Between n more x.1)))
      ]
    ]
  ]
]

-- One variable is added at most.
abbrev OneMore : ℕ → List VarDef × Parser → Type 0
OneMore n x = (n ≤ length x.0) × (length x.0 ≤ suc n)

added :
    (defs : List VarDef) (name : Bytes) (r : Result (Node × Parser))
    → Holds Unit (OneMore (length defs)) (bind r (λ x. ok (add_var defs name x.0, x.1)))
added defs name r =
    bind-Holds (λ x. ok (add_var defs name x.0, x.1)) (any r)
      (λ x u.
        let one : length (add_var defs name x.0) ≡ length defs + 1 =
          length-append defs (record { name = name; val = x.0 } ∷ []) in
        holds (omega arith, omega arith))

parse_var_def-OneMore :
    (n : ℕ) (defs : List VarDef) (p : Parser)
    → Holds Unit (OneMore (length defs)) (parse_var_def n defs p)
unfolding parse_var_def
parse_var_def-OneMore n defs p =
    let q : Parser = (next p).1 in
    let name : Bytes = (next p).0.val in
    elim (Bool-cases (peek (item_colon ∷ []) q)) [
      | inl k ↦
          rw (parse_var_def, k)
            (bind-Holds _ (any (type_loop n [] (ignore q))) (λ x u.
              elim (Bool-cases (is_empty x.0)) [
                | inl c ↦ rw c (next_err-Holds _ x.1)
                | inr c ↦ rw c (added defs name (typed_default n x.0 x.1))
              ]))
      | inr k ↦ elim (Bool-cases (peek (item_equals ∷ []) q)) [
        | inr c ↦ rw (parse_var_def, k, c) (holds (omega arith, omega arith))
        | inl c ↦ rw (parse_var_def, k, c) (added defs name (default_value n (ignore q)))
      ]
    ]

parse_op_params-Between :
    (n : ℕ) (defs : List VarDef) (p : Parser)
    → Holds Unit (Between (length defs)) (parse_op_params n defs p)
unfolding parse_op_params
parse_op_params-Between zero defs p = cut_off tt
parse_op_params-Between (suc n) defs p = elim (Bool-cases (leb max_args (length defs))) [
  | inl b ↦ rw (parse_op_params, b) failed
  | inr b ↦ elim (Bool-cases (peek (item_args_close ∷ []) p)) [
    | inl e ↦ rw (parse_op_params, b, e) (holds (omega arith, ground arith))
    | inr e ↦ elim (Bool-cases (peek (item_eof ∷ item_variable ∷ []) p)) [
      | inr k ↦ rw (parse_op_params, b, e, k) (parse_op_params-Between n defs (ignore p))
      | inl k ↦
          rw (parse_op_params, b, e, k)
            (bind-Holds (λ x. parse_op_params n x.0 x.1) (parse_var_def-OneMore n defs p)
              (λ x m.
                map-Holds (λ z. z) (λ y h. (omega (arith, h.0, m.0), h.1))
                  (parse_op_params-Between n x.0 x.1)))
    ]
  ]
]

-- What `parseArgs` and `parseOpParams` return without an error has at least what they were given and
-- fewer than 25 members, so 25 arguments, or variables, are too many already.
pub max_args_bounds :
    (n : ℕ) (args : List Arg) (defs : List VarDef) (p q r s : Parser) (all_args : List Arg)
    (all_defs : List VarDef)
    → parse_args n args p ≡ ok (all_args, q)
    → parse_op_params n defs r ≡ ok (all_defs, s)
    → (length args ≤ length all_args)
      × (length all_args < 25)
      × (length defs ≤ length all_defs)
      × (length all_defs < 25)
max_args_bounds n args defs p q r s all_args all_defs e k =
    let a = of_ok (all_args, q) e (parse_args-Between n args p) in
    let d = of_ok (all_defs, s) k (parse_op_params-Between n defs r) in (a.0, a.1, d.0, d.1)
