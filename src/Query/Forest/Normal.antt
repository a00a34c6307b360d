-- ===== src/Query/Forest/Normal.antt =====
-- core/graph/parse.go: `parseNormalFields` keeps the fields a forest, and reads an item.
use graphjin_slim.Base.{
  ℕ, ◌+◌, ◌*◌, ◌≤◌, ◌<◌, true, List, [], ◌∷◌, ◌≡◌, refl, ◌∙◌, inl, inr, length, arith, Bool-cases,
}
use graphjin_slim.Query.Cursor.{item_name, item_args_open, item_obj_open, item_colon}
use graphjin_slim.Query.Stack.{Stack, new_stack, len, pop, push}
use graphjin_slim.Query.Stack
use graphjin_slim.Query.Ast.{Arg, Field}
use graphjin_slim.Query.Parser.{Parser, ok, bind, peek, next, ignore}
use graphjin_slim.Query.Parser.Values.{parse_directives}
use graphjin_slim.Query.Parser.Fields.{blank_field, field_parts, parse_field, parse_normal_fields}
use graphjin_slim.Query.Parser.Holds.{Holds, holds, failed, bind-Holds, map-Holds, next_err-Holds}
use graphjin_slim.Query.Parser.Moves.{
  left, left_of_Moves, Moves, Reads, Moves-refl, Moves-trans, Reads-Moves, Reads-trans, Reads-next,
  Reads-ignore, Moves-ignore,
}
use graphjin_slim.Query.Parser.Values.Total.{parse_args-Holds, parse_directives-Holds}
use graphjin_slim.Query.Forest.{IsForest}
use graphjin_slim.Query.Forest.Place.{place-Holds}
use graphjin_slim.Query.Forest.Fits.{Fits, Fits-peek, Fits-more, Fits-push}

-- `parseField` fills a field in and keeps its place.
record Filled (f : Field) (p : Parser) (x : Field × Parser) : Type 0 where
  pub id : x.0.id ≡ f.id
  pub children : x.0.children ≡ f.children
  pub moves : Moves p x.1

field_rest-Holds :
    (n : ℕ) (f : Field) (p : Parser) (x : List Arg × Parser)
    → Moves p x.1
    → Holds (n < 2 * left p + 2) (Filled f p) (
        bind
          (parse_directives n f.directives x.1)
          (λ y. ok (record f { args = x.0; directives = y.0 }, y.1)))
field_rest-Holds n f p x m =
    bind-Holds (λ y. ok (record f { args = x.0; directives = y.0 }, y.1))
      (map-Holds (λ c. omega (arith, c, left_of_Moves p x.1 m)) (λ y h. h)
        (parse_directives-Holds n f.directives x.1))
      (λ y h. holds (record { id = refl; children = refl; moves = Moves-trans p x.1 y.1 m h }))

field_parts-Holds :
    (n : ℕ) (f : Field) (p : Parser) → Holds (n < 2 * left p + 2) (Filled f p) (field_parts n f p)
unfolding field_parts
field_parts-Holds n f p = elim (Bool-cases (peek (item_args_open ∷ []) p)) [
  | inl e ↦
      rw (field_parts, e)
        (bind-Holds _
          (map-Holds (λ c. omega (arith, c, left_of_Moves p (ignore p) (Moves-ignore p)))
            (λ x h. Moves-trans p (ignore p) x.1 (Moves-ignore p) h)
            (parse_args-Holds n f.args (ignore p)))
          (λ x h. field_rest-Holds n f p x h))
  | inr e ↦ rw (field_parts, e) (field_rest-Holds n f p (f.args, p) (Moves-refl p))
]

-- What is read before the parts of a field.
read_first :
    (n : ℕ) (f g : Field) (p q : Parser)
    → Reads p q
    → g.id ≡ f.id
    → g.children ≡ f.children
    → Holds
        (n < 2 * left p + 2)
        (λ x. (x.0.id ≡ f.id) × (x.0.children ≡ f.children) × Reads p x.1)
        (field_parts n g q)
read_first n f g p q r i c =
    map-Holds (λ z. omega (arith, z, r.fewer))
      (λ x h. (h.id ∙ i, h.children ∙ c, Reads-Moves p q x.1 r h.moves)) (field_parts-Holds n g q)

parse_field-Holds :
    (n : ℕ) (f : Field) (p : Parser)
    → peek (item_name ∷ []) p ≡ true
    → Holds
        (n < 2 * left p + 2)
        (λ x. (x.0.id ≡ f.id) × (x.0.children ≡ f.children) × Reads p x.1)
        (parse_field n f p)
unfolding parse_field
parse_field-Holds n f p e =
    let q : Parser = (next p).1 in
    let r : Parser = ignore q in
    let first : Reads p q = Reads-next (item_name ∷ []) p e in
    elim (Bool-cases (peek (item_colon ∷ []) q)) [
      | inr k ↦
          rw (parse_field, k)
            (read_first n f (record f { name = (next p).0.val }) p q first refl refl)
      | inl k ↦ elim (Bool-cases (peek (item_name ∷ []) r)) [
        | inr c ↦ rw (parse_field, k, c) failed
        | inl c ↦
            rw (parse_field, k, c)
              (read_first n f (record f { alias = (next p).0.val; name = (next r).0.val }) p
                (next r).1
                (Reads-trans p r (next r).1
                  (Reads-trans p q r first (Reads-ignore (item_colon ∷ []) q k))
                  (Reads-next (item_name ∷ []) r c))
                refl refl)
      ]
    ]

-- What a round leaves.
pub record Round (fields : List Field) (p : Parser) (x : Stack ℕ × List Field × Parser)
    : Type 0 where
  pub forest : IsForest x.1
  pub fits : Fits x.0 (length x.1)
  pub grows : length fields ≤ length x.1
  pub reads : Reads p x.2

pub parse_normal_fields-Holds :
    (n : ℕ) (st : Stack ℕ) (fields : List Field) (p : Parser)
    → IsForest fields
    → Fits st (length fields)
    → Holds (n < 2 * left p + 2) (Round fields p) (parse_normal_fields n st fields p)
unfolding parse_normal_fields
parse_normal_fields-Holds n st fields p h fits = elim (Bool-cases (peek (item_name ∷ []) p)) [
  | inr e ↦ rw (parse_normal_fields, e) (next_err-Holds _ p)
  | inl e ↦
      rw (parse_normal_fields, e)
        (bind-Holds _ (parse_field-Holds n (blank_field (length fields)) p e) (λ x f.
          bind-Holds _
            (map-Holds (λ c. absurd c) (λ y g. g)
              (place-Holds (Stack.peek st) fields x.0 h (Fits-peek st (length fields) fits) f.0
                f.1))
            (λ more g. elim (Bool-cases (peek (item_obj_open ∷ []) x.1)) [
              | inl k ↦ rw k (
                  holds (record {
                    forest = g.0;
                    fits =
                        Fits-push st (length more) x.0.id (omega (arith, f.0, g.1))
                          (Fits-more st (length fields) (length more) (omega (arith, g.1)) fits);
                    grows = omega (arith, g.1);
                    reads = Reads-Moves p x.1 (ignore x.1) f.2 (Moves-ignore x.1);
                  }))
              | inr k ↦ rw k (
                  holds (record {
                    forest = g.0;
                    fits = Fits-more st (length fields) (length more) (omega (arith, g.1)) fits;
                    grows = omega (arith, g.1);
                    reads = f.2;
                  }))
            ])))
]
