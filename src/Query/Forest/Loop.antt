-- ===== src/Query/Forest/Loop.antt =====
-- core/graph/parse.go: every round of `parseFields` keeps the fields a forest and the ids on the stack
-- ids of fields, and reads an item.
use graphjin_slim.Base.{
  ℕ, zero, suc, ◌+◌, ◌*◌, ◌≤◌, ◌<◌, true, List, [], ◌∷◌, ◌≡◌, sym, inl, inr, Option, some, Bytes,
  length, get_elem?, set, equal, leb, ◌==◌, arith, Option-cases, Bool-cases, All,
}
use mathlib.Core.Path.{subst}
use graphjin_slim.Query.Cursor.{item_eof, item_name, item_on, item_obj_close, item_spread}
use graphjin_slim.Query.Stack.{Stack, new_stack, len, pop, push}
use graphjin_slim.Query.Stack
use graphjin_slim.Query.Ast.{field_union, Field, Fragment}
use graphjin_slim.Query.Parser.{Parser, peek, next, ignore}
use graphjin_slim.Query.Parser.Fields.{
  max_fields, mark_members, parse_member, lookup_fragment, spread_fragment, parse_fragment_fields,
  parse_one, fields_loop, parse_fields,
}
use graphjin_slim.Query.Parser.Holds.{
  Holds, holds, failed, panicked, cut_off, bind-Holds, map-Holds, next_err-Holds,
}
use graphjin_slim.Query.Parser.Moves.{
  left, left_of_Moves, Moves, Reads, Moves-refl, Moves-trans, Reads-Moves, Moves-Reads, Reads-trans,
  Reads-next, Reads-ignore, Moves-ignore,
}
use graphjin_slim.Query.Forest.{IsForest}
use graphjin_slim.Query.Forest.Place.{Below}
use graphjin_slim.Query.Forest.Splice.{splice-IsForest}
use graphjin_slim.Query.Forest.Alike.{
  IsForest-Alike, length-Alike, set_type-Alike, mark_members-Alike,
}
use graphjin_slim.Query.Forest.Fits.{Fits, Fits-peek, Fits-pop, Fits-more}
use graphjin_slim.Query.Forest.Normal.{Round, parse_normal_fields-Holds}

-- The fields are forests in all the fragments.
abbrev pub Forests : List Fragment → Type 0
Forests = All (λ fr. IsForest fr.fields)

parse_member-Holds :
    (n pid : ℕ) (st : Stack ℕ) (fields : List Field) (p : Parser)
    → IsForest fields
    → Fits st (length fields)
    → Holds (n < 2 * left p + 2) (Round fields p) (parse_member n pid st fields p)
unfolding parse_member
parse_member-Holds n pid st fields p h fits = elim (Option-cases (get_elem? fields pid)) [
  | inl e ↦ rw (parse_member, e) panicked
  | inr (f, e) ↦
      let marked : List Field = set fields pid (record f { type = field_union }) in
      let same = set_type-Alike fields pid f field_union e in
      let size : length marked ≡ length fields = length-Alike fields marked same in
      rw (parse_member, e)
        (bind-Holds _
          (parse_normal_fields-Holds n st marked p (IsForest-Alike fields marked same h)
            (subst (Fits st) (sym size) fits))
          (λ x r. elim (Option-cases (get_elem? x.1 pid)) [
            | inl k ↦ rw k panicked
            | inr (g, k) ↦
                let all_marked = mark_members-Alike pid g.args 0 x.1 in
                let kept = length-Alike x.1 (mark_members pid g.args 0 x.1) all_marked in
                rw k (
                  holds (record {
                    forest = IsForest-Alike x.1 (mark_members pid g.args 0 x.1) all_marked r.forest;
                    fits = subst (Fits x.0) (sym kept) r.fits;
                    grows = omega (arith, kept, size, r.grows);
                    reads = r.reads;
                  }))
          ]))
]

lookup_fragment-Forests :
    (frs : List Fragment) (name : Bytes) (fr : Fragment)
    → Forests frs
    → lookup_fragment frs name ≡ some fr
    → IsForest fr.fields
unfolding lookup_fragment
lookup_fragment-Forests [] name fr h e = cc
lookup_fragment-Forests (f ∷ fs) name fr h e = elim (Bool-cases (equal f.name name)) [
  | inl k ↦ let same : f ≡ fr = cc in subst (λ g. IsForest g.fields) same h.0
  | inr k ↦
      lookup_fragment-Forests fs name fr h.1
        (let rest : lookup_fragment fs name ≡ some fr = cc in rest)
]

record Spreads (fields : List Field) (p : Parser) (x : List Field × Parser) : Type 0 where
  pub forest : IsForest x.0
  pub grows : length fields ≤ length x.0
  pub moves : Moves p x.1

spread_fragment-Holds :
    (pid : Option ℕ) (fields : List Field) (p : Parser)
    → IsForest fields
    → Below pid (length fields)
    → Forests p.frags
    → Holds ⊥ (Spreads fields p) (spread_fragment pid fields p)
unfolding spread_fragment
spread_fragment-Holds pid fields p h b fr = elim (Bool-cases (peek (item_name ∷ []) p)) [
  | inr e ↦ rw (spread_fragment, e) failed
  | inl e ↦
      let q : Parser = (next p).1 in
      let m : Moves p q = (Reads-next (item_name ∷ []) p e).moves in
      elim (Option-cases (lookup_fragment q.frags (next p).0.val)) [
        | inl k ↦ rw (spread_fragment, e, k) failed
        | inr (f, k) ↦
            rw (spread_fragment, e, k)
              (bind-Holds _
                (splice-IsForest pid fields f.fields h
                  (lookup_fragment-Forests q.frags (next p).0.val f (subst Forests (sym m.frags) fr)
                    k)
                  b)
                (λ out s. holds (record { forest = s.0; grows = omega (arith, s.1); moves = m })))
      ]
]

parse_fragment_fields-Holds :
    (n : ℕ) (st : Stack ℕ) (fields : List Field) (p : Parser)
    → IsForest fields
    → Fits st (length fields)
    → Forests p.frags
    → peek (item_spread ∷ []) p ≡ true
    → Holds (n < 2 * left p + 2) (Round fields p) (parse_fragment_fields n st fields (ignore p))
unfolding parse_fragment_fields
parse_fragment_fields-Holds n st fields p h fits fr e =
    let q : Parser = ignore p in
    let first : Reads p q = Reads-ignore (item_spread ∷ []) p e in
    elim (Bool-cases (peek (item_on ∷ []) q)) [
      | inl k ↦ elim (Option-cases (Stack.peek st)) [
        | inl c ↦ rw (parse_fragment_fields, k, c) panicked
        | inr (pid, c) ↦
            rw (parse_fragment_fields, k, c)
              (map-Holds
                (λ z. omega (arith, z, first.fewer, left_of_Moves q (ignore q) (Moves-ignore q)))
                (λ x r. record {
                  forest = r.forest;
                  fits = r.fits;
                  grows = r.grows;
                  reads =
                      Reads-trans p q x.2 first
                        (Moves-Reads q (ignore q) x.2 (Moves-ignore q) r.reads);
                })
                (parse_member-Holds n pid st fields (ignore q) h fits))
      ]
      | inr k ↦
          rw (parse_fragment_fields, k)
            (bind-Holds _
              (map-Holds (λ z. absurd z) (λ x s. s)
                (spread_fragment-Holds (Stack.peek st) fields q h
                  (Fits-peek st (length fields) fits) (subst Forests (sym first.moves.frags) fr)))
              (λ x s. holds (record {
                forest = s.forest;
                fits = Fits-more st (length fields) (length x.0) s.grows fits;
                grows = s.grows;
                reads = Reads-Moves p q x.1 first s.moves;
              })))
    ]

parse_one-Holds :
    (n : ℕ) (st : Stack ℕ) (fields : List Field) (p : Parser)
    → IsForest fields
    → Fits st (length fields)
    → Forests p.frags
    → Holds (n < 2 * left p + 2) (Round fields p) (parse_one n st fields p)
unfolding parse_one
parse_one-Holds n st fields p h fits fr = elim (Bool-cases (leb max_fields (length fields))) [
  | inl b ↦ rw (parse_one, b) failed
  | inr b ↦ elim (Bool-cases (peek (item_spread ∷ []) p)) [
    | inl e ↦ rw (parse_one, b, e) (parse_fragment_fields-Holds n st fields p h fits fr e)
    | inr e ↦ rw (parse_one, b, e) (parse_normal_fields-Holds n st fields p h fits)
  ]
]

-- The fields read are a forest, and the closing brace is next.
pub record Grown (p : Parser) (x : List Field × Parser) : Type 0 where
  pub forest : IsForest x.0
  pub moves : Moves p x.1
  pub closed : peek (item_obj_close ∷ []) x.1 ≡ true

fields_loop-Holds :
    (n : ℕ) (st : Stack ℕ) (fields : List Field) (p : Parser)
    → IsForest fields
    → Fits st (length fields)
    → Forests p.frags
    → Holds (n < 2 * left p + 3) (Grown p) (fields_loop n st fields p)
unfolding fields_loop
fields_loop-Holds zero st fields p h fits fr = cut_off (omega arith)
fields_loop-Holds (suc n) st fields p h fits fr = elim (Bool-cases (peek (item_eof ∷ []) p)) [
  | inl e ↦ rw (fields_loop, e) failed
  | inr e ↦ elim (Bool-cases (peek (item_obj_close ∷ []) p)) [
    | inl k ↦ elim (Bool-cases (len st == 0)) [
      | inl c ↦
          rw (fields_loop, e, k, c)
            (holds (record { forest = h; moves = Moves-refl p; closed = k }))
      | inr c ↦
          let first : Reads p (ignore p) = Reads-ignore (item_obj_close ∷ []) p k in
          rw (fields_loop, e, k, c)
            (map-Holds (λ z. omega (arith, z, first.fewer))
              (λ x g. record {
                forest = g.forest;
                moves = Moves-trans p (ignore p) x.1 first.moves g.moves;
                closed = g.closed;
              })
              (fields_loop-Holds n (pop st).1 fields (ignore p) h (Fits-pop st (length fields) fits)
                (subst Forests (sym first.moves.frags) fr)))
    ]
    | inr k ↦
        rw (fields_loop, e, k)
          (bind-Holds _
            (map-Holds (λ z. omega (arith, z)) (λ x r. r) (parse_one-Holds n st fields p h fits fr))
            (λ x r.
              map-Holds (λ z. omega (arith, z, r.reads.fewer))
                (λ y g. record {
                  forest = g.forest;
                  moves = Moves-trans p x.2 y.1 r.reads.moves g.moves;
                  closed = g.closed;
                })
                (fields_loop-Holds n x.0 x.1 x.2 r.forest r.fits
                  (subst Forests (sym r.reads.moves.frags) fr))))
  ]
]

pub parse_fields-Holds :
    (n : ℕ) (p : Parser)
    → Forests p.frags
    → Holds (n < 2 * left p + 3) (Grown p) (parse_fields n [] p)
unfolding parse_fields new_stack
parse_fields-Holds n p fr = elim (Bool-cases (peek (item_name ∷ item_spread ∷ []) p)) [
  | inr e ↦ rw (parse_fields, e) (next_err-Holds _ p)
  | inl e ↦
      rw (parse_fields, e)
        (fields_loop-Holds n new_stack [] p (record { numbered = tt; before = tt; linked = tt })
          (record { whole = omega arith; ids = tt }) fr)
]
