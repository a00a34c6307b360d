-- ===== src/Query/Forest/Parse.antt =====
-- core/graph/parse.go: `Parse` as a whole: the fields of what it returns are forests, and it runs on
-- without an end in the variable definitions only.
use graphjin_slim.Base.{
  ℕ, zero, suc, ◌+◌, ◌*◌, ◌≤◌, ◌<◌, Bool, false, ◌&&◌, List, [], ◌∷◌, ◌≡◌, ◌≢◌, refl, sym, ap, ◌∙◌,
  inl, inr, ◌⊎◌, Option, none, some, Bytes, length, arith, Bool-cases,
}
use mathlib.Core.Path.{subst}
use graphjin_slim.Base.{
  map, length-append, Outcome, ok as lexer_of, err as error_of, panic as panics,
}
use graphjin_slim.Query.Cursor.{LexError, MType, item_eof, item_name, Item, Lexer}
use graphjin_slim.Query.Lex.{lex}
use graphjin_slim.Query.Lex.Ends.{IsTokenized, lex-IsTokenized, lex_returns}
use graphjin_slim.Query.Ast.{Operation}
use graphjin_slim.Query.Parser.{Parser, ok, peek, peek_val, ignore}
use graphjin_slim.Query.Parser.Operations.{fragment_token}
use graphjin_slim.Query.Parser.Top.{
  begins_op, first_start, top_loop, reset_to, mark_keywords, parse_items, lexed, parse,
}
use graphjin_slim.Query.Parser.Holds.{
  Holds, holds, failed, panicked, cut_off, bind-Holds, map-Holds, of_ok,
}
use graphjin_slim.Query.Parser.Moves.{left, Reads, Moves-ignore, Reads-ignore-some}
use graphjin_slim.Query.Parser.Operations.Ended.{
  types_of, Ended, Passes, Moves-Passes, Passes-trans, Passes-Ended, ignore-more, not_at_end,
  length-types, IsTokenized-Ended,
}
use graphjin_slim.Query.Forest.Loop.{Forests}
use graphjin_slim.Query.Forest.Alike.{IsForest-Alike, mark_keywords-Alike}
use graphjin_slim.Query.Forest.Fragments.{parse_fragment-Holds}
use graphjin_slim.Query.Forest.Operation.{ParamsRunOn, CutOff, IsParsed, parse_op-Holds}

-- What the first loop of `Parse` leaves.
record Found (p : Parser) (x : Option ℕ × Parser) : Type 0 where
  pub passes : Passes p x.1
  pub forests : Forests x.1.frags

top_loop-Holds :
    (n : ℕ) (qs : Option ℕ) (p : Parser)
    → Ended (types_of p)
    → 0 < left p
    → Forests p.frags
    → Holds (n < 2 * left p + 3) (Found p) (top_loop n qs p)
unfolding top_loop
top_loop-Holds zero qs p ended some_left h = cut_off (omega arith)
top_loop-Holds (suc n) qs p ended some_left h = elim (Bool-cases (peek (item_eof ∷ []) p)) [
  | inl e ↦
      rw (top_loop, e)
        (holds (record {
          passes = Moves-Passes p (ignore p) (Moves-ignore p);
          forests = subst Forests (sym (Moves-ignore p).frags) h;
        }))
  | inr e ↦
      let q : Parser = ignore p in
      let (i, at, ne) = not_at_end p some_left e in
      let more : 0 < left q = ignore-more p i ended at ne in
      let first : Reads p q = Reads-ignore-some p i at in
      let by_first : Passes p q = Moves-Passes p q first.moves in
      let h' : Forests q.frags = subst Forests (sym first.moves.frags) h in
      elim (Bool-cases (peek (item_name ∷ []) p && peek_val (fragment_token ∷ []) p)) [
        | inl k ↦
            rw (top_loop, e, k)
              (bind-Holds _
                (map-Holds (λ c. omega (arith, c, first.fewer)) (λ x s. s)
                  (parse_fragment-Holds n q (Passes-Ended p q by_first ended) h'))
                (λ x s.
                  let through : Passes p x = Passes-trans p q x by_first s.passes in
                  map-Holds (λ c. omega (arith, c, first.fewer, s.passes.fewer))
                    (λ y f. record {
                      passes = Passes-trans p x y.1 through f.passes;
                      forests = f.forests;
                    })
                    (top_loop-Holds n qs x (Passes-Ended p x through ended) s.more s.forests)))
        | inr k ↦
            rw (top_loop, e, k)
              (map-Holds (λ c. omega (arith, c, first.fewer))
                (λ y f. record {
                  passes = Passes-trans p q y.1 by_first f.passes;
                  forests = f.forests;
                })
                (top_loop-Holds n (first_start qs (begins_op p) p.at) q
                  (Passes-Ended p q by_first ended) more h'))
      ]
]

reset-left : (qs : Option ℕ) (p : Parser) → left (reset_to qs p) ≤ length p.items
reset-left none p = omega arith
reset-left (some at) p = omega arith

reset-frags : (qs : Option ℕ) (p : Parser) → (reset_to qs p).frags ≡ p.frags
reset-frags none p = refl
reset-frags (some at) p = refl

reset-types : (qs : Option ℕ) (p : Parser) → types_of (reset_to qs p) ≡ types_of p
reset-types none p = refl
reset-types (some at) p = refl

parse_items-Holds :
    (n : ℕ) (l : Lexer)
    → Ended (map (λ i. i.type) l.items)
    → 0 < length l.items
    → Holds
        ((n < 2 * length l.items + 3) ⊎ ParamsRunOn n (map (λ i. i.type) l.items))
        IsParsed
        (parse_items n l)
unfolding parse_items
parse_items-Holds n l ended some_items =
    let p : Parser = record {
      frags = [];
      input = l.input;
      at = 0;
      items = l.items;
      json = false;
      end_met = false;
    } in
    bind-Holds _
      (map-Holds (λ c. inl (omega (arith, c))) (λ x f. f)
        (top_loop-Holds n none p ended (omega arith) tt))
      (λ x f.
        let start : Parser = reset_to x.0 x.1 in
        let short : left start ≤ length l.items = omega (
          arith,
          reset-left x.0 x.1,
          length-types x.1.items,
          length-types l.items,
          ap length f.passes.types,
        ) in
        bind-Holds _
          (map-Holds
            (narrow n start (length l.items) (map (λ i. i.type) l.items) short
              (reset-types x.0 x.1 ∙ f.passes.types))
            (λ op h. h)
            (parse_op-Holds n start (subst Forests (sym (reset-frags x.0 x.1)) f.forests)))
          (λ op h. holds (record {
            fields =
                IsForest-Alike op.fields (mark_keywords op.fields) (mark_keywords-Alike op.fields)
                  h.fields;
            frags = h.frags;
          })))
  where
    narrow :
        (n : ℕ) (q : Parser) (m : ℕ) (ts : List MType)
        → left q ≤ m
        → types_of q ≡ ts
        → CutOff n q
        → (n < 2 * m + 3) ⊎ ParamsRunOn n ts
    narrow n q m ts b e (inl c) = inl (omega (arith, c))
    narrow n q m ts b e (inr c) = inr (subst (ParamsRunOn n) e c)

some_items : {n : ℕ} (is : List Item) → IsTokenized n is → 0 < length is
some_items is h = omega (arith, ap length h.items_are, length-append h.body (h.last ∷ []))

lexed-cases :
    (o : Option (Outcome (Option LexError) Lexer)) (n : ℕ)
    → o ≢ none
    → ((l : Lexer) → o ≡ some (lexer_of l) → IsTokenized n l.items)
    → Holds ⊥ (λ l. IsTokenized n l.items) (lexed o)
unfolding lexed
lexed-cases none n found h = absurd (found refl)
lexed-cases (some (lexer_of l)) n found h = holds (h l refl)
lexed-cases (some (error_of e)) n found h = failed
lexed-cases (some panics) n found h = panicked

pub lexed-Holds :
    (is_wide : ℕ → Bool) (input : Bytes)
    → Holds ⊥ (λ l. IsTokenized (length input) l.items) (lexed (lex is_wide input))
lexed-Holds is_wide input =
    lexed-cases (lex is_wide input) (length input) (lex_returns is_wide input).0
      (lex-IsTokenized is_wide input)

parse-Holds :
    (is_wide : ℕ → Bool) (n : ℕ) (bytes : Bytes) → Holds Unit IsParsed (parse is_wide n bytes)
unfolding parse
parse-Holds is_wide n [] = failed
parse-Holds is_wide n (c ∷ cs) =
    bind-Holds _ (map-Holds (λ c. tt) (λ l h. h) (lexed-Holds is_wide (c ∷ cs))) (λ l t.
      map-Holds (λ c. tt) (λ op h. h)
        (parse_items-Holds n l (IsTokenized-Ended (length (c ∷ cs)) l.items t)
          (some_items l.items t)))

-- What `Parse` returns without an error has forests as its fields, in the operation and in each of
-- its fragments: the ids of the fields are their indices, a parent is before its children, and the
-- children of a field are the fields that name it as their parent, in their order.
pub parse-IsParsed :
    (is_wide : ℕ → Bool) (n : ℕ) (bytes : Bytes) (op : Operation)
    → parse is_wide n bytes ≡ ok op
    → IsParsed op
parse-IsParsed is_wide n bytes op e = of_ok op e (parse-Holds is_wide n bytes)
