-- ===== src/Query/Forest/Fragments.antt =====
-- core/graph/parse.go: `parseFragment` stores fragments whose fields are forests, and stops before
-- the end of the file.
use graphjin_slim.Base.{
  ℕ, ◌+◌, ◌*◌, ◌<◌, ◌&&◌, List, [], ◌∷◌, sym, ◌∙◌, inl, inr, Bytes, length, equal, leb, arith,
  Bool-cases,
}
use mathlib.Core.Path.{subst}
use graphjin_slim.Query.Cursor.{item_name, item_on, item_obj_open}
use graphjin_slim.Query.Ast.{Fragment}
use graphjin_slim.Query.Parser.{Parser, in_fragment, curr_pos, peek, next, ignore, next_lower}
use graphjin_slim.Query.Parser.Operations.{
  skip_close, slice_of, store_fragment, fragment_body, parse_fragment,
}
use graphjin_slim.Query.Parser.Holds.{
  Holds, holds, failed, panicked, bind-Holds, map-Holds, in_context-Holds,
}
use graphjin_slim.Query.Parser.Moves.{
  left, Moves, peek-some, Moves-ignore, Reads-next, Moves-trans, left_of_Moves,
}
use graphjin_slim.Query.Parser.Operations.Ended.{
  types_of, Ended, Passes, Moves-Passes, Passes-trans, Passes-Ended, Passes-next_lower,
  skip_close-Reads,
}
use graphjin_slim.Query.Forest.{IsForest}
use graphjin_slim.Query.Forest.Loop.{Forests, parse_fields-Holds}

store_fragment-Forests :
    (frs : List Fragment) (new : Fragment)
    → Forests frs
    → IsForest new.fields
    → Forests (store_fragment frs new)
unfolding store_fragment
store_fragment-Forests [] new h k = (k, tt)
store_fragment-Forests (f ∷ fs) new h k = elim (Bool-cases (equal f.name new.name)) [
  | inl e ↦ rw e (k, h.1)
  | inr e ↦ rw e (h.0, store_fragment-Forests fs new h.1 k)
]

pub slice_of-Holds :
    {C : Type 0} (input : Bytes) (a b : ℕ) → Holds {0, 0} C (λ v. Unit) (slice_of input a b)
unfolding slice_of
slice_of-Holds input a b = elim (Bool-cases (leb a b && leb b (length input))) [
  | inl e ↦ rw (slice_of, e) (holds tt)
  | inr e ↦ rw (slice_of, e) panicked
]

-- What reading a fragment leaves.
pub record Stored (p q : Parser) : Type 0 where
  pub passes : Passes p q
  pub more : 0 < left q
  pub forests : Forests q.frags

fragment_body-Holds :
    (n from : ℕ) (name on : Bytes) (p : Parser)
    → Ended (types_of p)
    → Forests p.frags
    → Holds (n < 2 * left p + 3) (Stored p) (fragment_body n from name on p)
unfolding fragment_body
fragment_body-Holds n from name on p ended h =
    bind-Holds _ (in_context-Holds in_fragment (parse_fields-Holds n p h)) (λ x g.
      let r : Parser = skip_close x.1 in
      let (reads, more) =
        skip_close-Reads x.1 (Passes-Ended p x.1 (Moves-Passes p x.1 g.moves) ended) g.closed in
      let m : Moves p r = Moves-trans p x.1 r g.moves reads.moves in
      bind-Holds _ (slice_of-Holds r.input from (curr_pos r + 1)) (λ value u. holds (record {
        passes = record { types = m.types; fewer = left_of_Moves p r m };
        more = more;
        forests =
            store_fragment-Forests r.frags
              (record { name = name; on = on; fields = x.0; value = value })
              (subst Forests (sym m.frags) h) g.forest;
      })))

pub parse_fragment-Holds :
    (n : ℕ) (p : Parser)
    → Ended (types_of p)
    → Forests p.frags
    → Holds (n < 2 * left p + 3) (Stored p) (parse_fragment n p)
unfolding parse_fragment
parse_fragment-Holds n p ended h = elim (Bool-cases (peek (item_name ∷ []) p)) [
  | inr e ↦ rw (parse_fragment, e) failed
  | inl e ↦
      let q : Parser = (next p).1 in
      let r : Parser = ignore q in
      let t : Parser = (next_lower r).1 in
      elim (Bool-cases (peek (item_on ∷ []) q)) [
        | inr k ↦ rw (parse_fragment, e, k) failed
        | inl k ↦ elim (Bool-cases (peek (item_name ∷ []) r)) [
          | inr c ↦ rw (parse_fragment, e, k, c) failed
          | inl c ↦ elim (Bool-cases (peek (item_obj_open ∷ []) t)) [
            | inr d ↦ rw (parse_fragment, e, k, c, d) failed
            | inl d ↦
                let m : Moves p r =
                  Moves-trans p q r (Reads-next (item_name ∷ []) p e).moves (Moves-ignore q) in
                let (i, found) = peek-some (item_name ∷ []) r c in
                let (lowered, frags) = Passes-next_lower r i found in
                let through : Passes p (ignore t) =
                  Passes-trans p t (ignore t) (Passes-trans p r t (Moves-Passes p r m) lowered)
                    (Moves-Passes t (ignore t) (Moves-ignore t)) in
                rw (parse_fragment, e, k, c, d)
                  (map-Holds (λ z. omega (arith, z, through.fewer))
                    (λ x s. record {
                      passes = Passes-trans p (ignore t) x through s.passes;
                      more = s.more;
                      forests = s.forests;
                    })
                    (fragment_body-Holds n (curr_pos p) (next p).0.val (next_lower r).0 (ignore t)
                      (Passes-Ended p (ignore t) through ended)
                      (subst Forests (sym ((Moves-ignore t).frags ∙ frags ∙ m.frags)) h)))
          ]
        ]
      ]
]
