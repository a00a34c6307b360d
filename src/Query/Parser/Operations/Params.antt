-- ===== src/Query/Parser/Operations/Params.antt =====
-- core/graph/parse.go: the variable definitions of an operation, in `parseOpParams`. Its loop ends
-- with a closing parenthesis; it does not look whether the items are used up.
use graphjin_slim.Base.{
  get_elem?_total, ℕ, zero, suc, ◌+◌, ◌*◌, ◌≤◌, ◌<◌, true, false, List, [], ◌∷◌, ◌++◌, ◌≡◌, refl,
  sym, ◌∙◌, inl, inr, ◌⊎◌, none, Bytes, length, get_elem?, leb, ltb, arith, Option-cases,
  Bool-cases,
}
use graphjin_slim.Query.Cursor.{
  MType, item_eof, item_variable, item_args_close, item_colon, item_equals,
}
use graphjin_slim.Query.Ast.{VarDef}
use graphjin_slim.Query.Parser.{Parser, Result, ok, out_of_fuel, peek, next, ignore}
use graphjin_slim.Query.Parser.Values.{max_args}
use graphjin_slim.Query.Parser.Operations.{
  type_text, type_loop, value_types, default_value, add_var, typed_default, is_empty, parse_var_def,
  parse_op_params,
}
use graphjin_slim.Query.Parser.Moves.{
  left, left_of_Moves, Reads, Moves-refl, Moves-trans, Reads-Moves, next_none, Reads-next,
  Reads-next_some, Reads-ignore-some, Moves-ignore,
}
use graphjin_slim.Query.Parser.Values.Total.{Read, Moved, parse_value-Holds}
use graphjin_slim.Query.Parser.Holds.{
  Holds, holds, failed, cut_off, bind-Holds, bind_ok-Holds, map-Holds, next_err-Holds, of_cut_off,
}

type_loop-Holds :
    (n : ℕ) (text : Bytes) (p : Parser) → Holds (n < 2 * left p + 2) (Moved p) (type_loop n text p)
unfolding type_loop
type_loop-Holds zero text p = cut_off (omega arith)
type_loop-Holds (suc n) text p = elim (Option-cases (get_elem? p.items p.at)) [
  | inl e ↦ rw (type_loop, next_none p e) (holds (Moves-refl p))
  | inr (i, e) ↦
      let start : Reads p (next p).1 = Reads-next_some p i e in
      elim (Option-cases (type_text (next p).0.type (next p).0.val)) [
        | inl k ↦ rw (type_loop, k) (holds (Moves-refl p))
        | inr (more, k) ↦
            rw (type_loop, k)
              (map-Holds (λ c. omega (arith, c, start.fewer))
                (λ x m. Moves-trans p (next p).1 x.1 start.moves m)
                (type_loop-Holds n (text ++ more) (next p).1))
      ]
]

default_value-Holds :
    (n : ℕ) (p : Parser) → Holds (n < 2 * left p + 1) (Moved p) (default_value n p)
unfolding default_value
default_value-Holds n p = elim (Bool-cases (peek value_types p)) [
  | inl e ↦ rw (default_value, e) (map-Holds (λ c. c) (λ x h. h.moves) (parse_value-Holds n p))
  | inr e ↦ rw (default_value, e) (next_err-Holds _ p)
]

typed_default-Holds :
    (n : ℕ) (text : Bytes) (p : Parser)
    → Holds (n < 2 * left p + 1) (Moved p) (typed_default n text p)
unfolding typed_default
typed_default-Holds n text p = elim (Bool-cases (peek (item_equals ∷ []) p)) [
  | inl e ↦
      rw (typed_default, e)
        (map-Holds (λ c. omega (arith, c, left_of_Moves p (ignore p) (Moves-ignore p)))
          (λ x m. Moves-trans p (ignore p) x.1 (Moves-ignore p) m)
          (default_value-Holds n (ignore p)))
  | inr e ↦ rw (typed_default, e) (holds (Moves-refl p))
]

-- The parts of a definition behind what is read first.
behind :
    {B : Type 0} (n : ℕ) (p q : Parser) {rest : Result (B × Parser)}
    → Reads p q
    → Holds (n < 2 * left q + 2) (Moved q) rest
    → Holds (n < 2 * left p + 2) (Read p) rest
behind n p q r h = map-Holds (λ c. omega (arith, c, r.fewer)) (λ x m. Reads-Moves p q x.1 r m) h

parse_var_def-Holds :
    (n : ℕ) (defs : List VarDef) (p : Parser)
    → peek (item_eof ∷ item_variable ∷ []) p ≡ true
    → Holds (n < 2 * left p + 2) (Read p) (parse_var_def n defs p)
unfolding parse_var_def
parse_var_def-Holds n defs p e =
    let q : Parser = (next p).1 in
    let r : Parser = ignore q in
    let name : Bytes = (next p).0.val in
    let first : Reads p q = Reads-next (item_eof ∷ item_variable ∷ []) p e in
    let second : Reads p r = Reads-Moves p q r first (Moves-ignore q) in
    elim (Bool-cases (peek (item_colon ∷ []) q)) [
      | inl k ↦
          rw (parse_var_def, k)
            (behind n p r second (
              bind-Holds _ (type_loop-Holds n [] r) (λ x h. elim (Bool-cases (is_empty x.0)) [
                | inl c ↦ rw c (next_err-Holds _ x.1)
                | inr c ↦ rw c (
                    bind-Holds (λ y. ok (add_var defs name y.0, y.1))
                      (map-Holds (λ z. omega (arith, z, left_of_Moves r x.1 h)) (λ y m. m)
                        (typed_default-Holds n x.0 x.1))
                      (λ y m. holds (Moves-trans r x.1 y.1 h m)))
              ])))
      | inr k ↦ elim (Bool-cases (peek (item_equals ∷ []) q)) [
        | inr c ↦ rw (parse_var_def, k, c) (holds first)
        | inl c ↦
            rw (parse_var_def, k, c)
              (behind n p r second (
                bind-Holds (λ y. ok (add_var defs name y.0, y.1))
                  (map-Holds (λ z. omega (arith, z)) (λ y m. m) (default_value-Holds n r))
                  (λ y m. holds m)))
      ]
    ]

-- The run is that of a later round, whose items are used up.
pub record RunsOn (n : ℕ) (defs : List VarDef) (p : Parser) : Type 0 where
  pub fuel : ℕ
  pub read : List VarDef
  pub state : Parser
  pub same : parse_op_params n defs p ≡ parse_op_params fuel read state
  pub enough : 3 ≤ fuel
  pub used_up : get_elem? state.items state.at ≡ none

abbrev pub Unended : ℕ → List VarDef → Parser → Type 0
Unended n defs p = (n < 2 * left p + 3) ⊎ RunsOn n defs p

none-left : (p : Parser) → get_elem? p.items p.at ≡ none → left p ≡ 0
none-left p e = elim (Bool-cases (ltb p.at (length p.items))) [
  | inl b ↦ let (i, k) = get_elem?_total p.items p.at (ground arith) in cc
  | inr b ↦ ground arith
]

-- One round on.
later :
    (n : ℕ) (d e : List VarDef) (p q : Parser)
    → parse_op_params (suc n) d p ≡ parse_op_params n e q
    → Reads p q
    → Unended n e q
    → Unended (suc n) d p
later n d e p q step r (inl c) = inl (omega (arith, c, r.fewer))
later n d e p q step r (inr c) = inr (record {
  fuel = c.fuel;
  read = c.read;
  state = c.state;
  same = step ∙ c.same;
  enough = c.enough;
  used_up = c.used_up;
})

here : (n : ℕ) (defs : List VarDef) (p : Parser) → get_elem? p.items p.at ≡ none → Unended n defs p
here n defs p e = elim (Bool-cases (ltb n 3)) [
  | inl b ↦ inl (ground arith)
  | inr b ↦
      inr (record {
        fuel = n;
        read = defs;
        state = p;
        same = refl;
        enough = ground arith;
        used_up = e;
      })
]

ignored :
    (n : ℕ) (defs : List VarDef) (p : Parser)
    → parse_op_params (suc n) defs p ≡ parse_op_params n defs (ignore p)
    → Unended n defs (ignore p)
    → Unended (suc n) defs p
ignored n defs p step c = elim (Option-cases (get_elem? p.items p.at)) [
  | inl e ↦ here (suc n) defs p e
  | inr (i, e) ↦ later n defs defs p (ignore p) step (Reads-ignore-some p i e) c
]

pub parse_op_params-Holds :
    (n : ℕ) (defs : List VarDef) (p : Parser)
    → Holds (Unended n defs p) (Moved p) (parse_op_params n defs p)
unfolding parse_op_params
parse_op_params-Holds zero defs p = cut_off (inl (omega arith))
parse_op_params-Holds (suc n) defs p = elim (Bool-cases (leb max_args (length defs))) [
  | inl b ↦ rw (parse_op_params, b) failed
  | inr b ↦ elim (Bool-cases (peek (item_args_close ∷ []) p)) [
    | inl e ↦ rw (parse_op_params, b, e) (holds (Moves-ignore p))
    | inr e ↦ elim (Bool-cases (peek (item_eof ∷ item_variable ∷ []) p)) [
      | inr k ↦
          let step : parse_op_params (suc n) defs p ≡ parse_op_params n defs (ignore p) =
            rw (parse_op_params, b, e, k) refl in
          rw step (
            map-Holds (ignored n defs p step)
              (λ x m. Moves-trans p (ignore p) x.1 (Moves-ignore p) m)
              (parse_op_params-Holds n defs (ignore p)))
      | inl k ↦
          rw (parse_op_params, b, e, k)
            (bind_ok-Holds (λ x. parse_op_params n x.0 x.1)
              (map-Holds (λ c. inl (omega (arith, c))) (λ x h. h) (parse_var_def-Holds n defs p k))
              (λ x got h.
                let step : parse_op_params (suc n) defs p ≡ parse_op_params n x.0 x.1 =
                  rw (parse_op_params, b, e, k, got) refl in
                map-Holds (later n defs x.0 p x.1 step h) (λ y m. Moves-trans p x.1 y.1 h.moves m)
                  (parse_op_params-Holds n x.0 x.1)))
    ]
  ]
]

no_type : (types : List MType) (p : Parser) → get_elem? p.items p.at ≡ none → peek types p ≡ false
unfolding peek
no_type types p e = rw (peek, e) refl

ignore-none :
    (p : Parser) → get_elem? p.items p.at ≡ none → get_elem? (ignore p).items (ignore p).at ≡ none
unfolding ignore
ignore-none p e = rw (ignore, next_none p e) e

-- Once the items of an operation's variable definitions are used up before the closing parenthesis,
-- as in `query ($a`, and fewer than 25 were read, the loop of `parseOpParams` never ends: no number
-- of rounds is enough.
pub parse_op_params-diverges :
    (n : ℕ) (defs : List VarDef) (p : Parser)
    → get_elem? p.items p.at ≡ none
    → length defs < max_args
    → parse_op_params n defs p ≡ out_of_fuel
unfolding parse_op_params
parse_op_params-diverges zero defs p e few = refl
parse_op_params-diverges (suc n) defs p e few =
    let room : leb max_args (length defs) ≡ false = ground arith in
    rw
      (
        parse_op_params,
        room,
        no_type (item_args_close ∷ []) p e,
        no_type (item_eof ∷ item_variable ∷ []) p e,
      )
      (parse_op_params-diverges n defs (ignore p) (ignore-none p e) few)

-- A later round that never ends, whatever the fuel.
pub record Endless (n : ℕ) (defs : List VarDef) (p : Parser) : Type 0 where
  pub fuel : ℕ
  pub read : List VarDef
  pub state : Parser
  pub same : parse_op_params n defs p ≡ parse_op_params fuel read state
  pub used_up : get_elem? state.items state.at ≡ none
  pub endless : (k : ℕ) → parse_op_params k read state ≡ out_of_fuel

few_of_cut_off :
    (n : ℕ) (defs : List VarDef) (p : Parser)
    → 3 ≤ n
    → parse_op_params n defs p ≡ out_of_fuel
    → length defs < max_args
unfolding parse_op_params
few_of_cut_off zero defs p h e = absurd (omega arith)
few_of_cut_off (suc n) defs p h e = elim (Bool-cases (leb max_args (length defs))) [
  | inl b ↦ cc
  | inr b ↦ ground arith
]

pub parse_op_params-Endless :
    (n : ℕ) (defs : List VarDef) (p : Parser)
    → 2 * left p + 3 ≤ n
    → parse_op_params n defs p ≡ out_of_fuel
    → Endless n defs p
parse_op_params-Endless n defs p h e = elim (of_cut_off e (parse_op_params-Holds n defs p)) [
  | inl c ↦ absurd (omega arith)
  | inr c ↦ record {
    fuel = c.fuel;
    read = c.read;
    state = c.state;
    same = c.same;
    used_up = c.used_up;
    endless = λ k.
        parse_op_params-diverges k c.read c.state c.used_up
          (few_of_cut_off c.fuel c.read c.state c.enough (sym c.same ∙ e));
  }
]
