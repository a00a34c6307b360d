-- ===== src/Query/Parser/Schemas/Total.antt =====
-- core/graph/schema.go: `ParseSchema` ends on every text.
use graphjin_slim.Base.{
  ℕ, zero, suc, ◌+◌, ◌*◌, ◌<◌, Bool, true, false, List, [], ◌∷◌, ◌++◌, ◌≡◌, ◌≢◌, refl, inl, inr,
  none, some, Bytes, length, ◌==◌, arith, Bool-cases, Option-cases,
}
use graphjin_slim.Query.Cursor.{
  MType, item_eof, item_name, item_list_open, item_list_close, item_obj_open, item_obj_close,
  item_colon, item_required, Lexer,
}
use graphjin_slim.Query.Parser.{Parser, Expected, out_of_fuel, peek, peek_val, ignore}
use graphjin_slim.Query.Parser.Operations.{is_empty}
use graphjin_slim.Query.Parser.Schemas.{
  TField, SchemaType, type_token, token_or, skip_if, close_list, parse_tfield, tfields_loop,
  type_body, parse_type, types_loop, split_line, without_return, line_of, read_line, read_header,
  schema_items, parse_schema,
}
use graphjin_slim.Query.Parser.Holds.{
  Holds, holds, failed, cut_off, bind-Holds, map-Holds, next_err-Holds, of_cut_off,
}
use graphjin_slim.Query.Parser.Moves.{
  left, left_of_Moves, Moves, Reads, Moves-refl, Moves-trans, Moves-ignore, Reads-next, Reads-Moves,
}
use graphjin_slim.Query.Parser.Moves.{Reads-ignore-some}
use graphjin_slim.Base.{get_elem?, ap, and_left, ==_iff, not, ◌&&◌, ◌==◌}
use graphjin_slim.Query.Forest.Parse.{lexed-Holds}
use graphjin_slim.Query.Parser.Values.Total.{Read, Moved, parse_directives-Holds}

token_or-Holds :
    {C : Type 0} (types : List MType) (expected : Expected) (p : Parser)
    → Holds C (Read p) (token_or types expected p)
unfolding token_or
token_or-Holds types expected p = elim (Bool-cases (peek types p)) [
  | inl e ↦ rw (token_or, e) (holds (Reads-next types p e))
  | inr e ↦ rw (token_or, e) (next_err-Holds _ p)
]

Moves-skip_if : (type : MType) (p : Parser) → Moves p (skip_if type p).1
unfolding skip_if
Moves-skip_if type p = elim (Bool-cases (peek (type ∷ []) p)) [
  | inl e ↦ rw (skip_if, e) (Moves-ignore p)
  | inr e ↦ rw (skip_if, e) (Moves-refl p)
]

close_list-Holds : {C : Type 0} (b : Bool) (p : Parser) → Holds C (Moves p) (close_list b p)
unfolding close_list
close_list-Holds false p = holds (Moves-refl p)
close_list-Holds true p =
    bind-Holds _ (token_or-Holds (item_list_close ∷ []) _ p) (λ x r. holds r.moves)

parse_tfield-Holds : (n : ℕ) (p : Parser) → Holds (n < 2 * left p + 2) (Read p) (parse_tfield n p)
unfolding parse_tfield
parse_tfield-Holds n p = bind-Holds _ (token_or-Holds (item_name ∷ []) _ p) (λ x first.
    bind-Holds _ (token_or-Holds (item_colon ∷ []) _ x.1) (λ y second.
      let s : Parser = (skip_if item_list_open y.1).1 in
      bind-Holds _ (token_or-Holds (item_name ∷ []) _ s) (λ z third.
        bind-Holds _ (close_list-Holds (skip_if item_list_open y.1).0 z.1) (λ u closed.
          let v : Parser = (skip_if item_required u).1 in
          let on : Moves x.1 v = Moves-trans x.1 y.1 v second.moves (
            Moves-trans y.1 s v (Moves-skip_if item_list_open y.1) (
              Moves-trans s z.1 v third.moves
                (Moves-trans z.1 u v closed (Moves-skip_if item_required u)))) in
          let all : Reads p v = Reads-Moves p x.1 v first on in
          bind-Holds _
            (map-Holds (λ c. omega (arith, c, all.fewer)) (λ w m. m)
              (parse_directives-Holds n [] v))
            (λ w m. holds (Reads-Moves p v w.1 all m))))))

tfields_loop-Holds :
    (n : ℕ) (name : Bytes) (fields : List TField) (p : Parser)
    → Holds (n < 2 * left p + 3) (Moved p) (tfields_loop n name fields p)
unfolding tfields_loop
tfields_loop-Holds zero name fields p = cut_off (omega arith)
tfields_loop-Holds (suc n) name fields p = elim (Bool-cases (peek (item_eof ∷ []) p)) [
  | inl e ↦ rw (tfields_loop, e) failed
  | inr e ↦ elim (Bool-cases (peek (item_obj_close ∷ []) p)) [
    | inl k ↦ rw (tfields_loop, e, k) (holds (Moves-ignore p))
    | inr k ↦
        rw (tfields_loop, e, k)
          (bind-Holds (λ x. tfields_loop n name (fields ++ (x.0 ∷ [])) x.1)
            (map-Holds (λ c. omega (arith, c)) (λ x r. r) (parse_tfield-Holds n p))
            (λ x r.
              map-Holds (λ c. omega (arith, c, r.fewer)) (λ y m. Moves-trans p x.1 y.1 r.moves m)
                (tfields_loop-Holds n name (fields ++ (x.0 ∷ [])) x.1)))
  ]
]

type_body-Holds : (n : ℕ) (p : Parser) → Holds (n < 2 * left p + 3) (Moved p) (type_body n p)
unfolding type_body
type_body-Holds n p = bind-Holds _ (token_or-Holds (item_name ∷ []) _ p) (λ x first.
    bind-Holds _
      (map-Holds (λ c. omega (arith, c, first.fewer)) (λ y m. m) (parse_directives-Holds n [] x.1))
      (λ y dirs. bind-Holds _ (token_or-Holds (item_obj_open ∷ []) _ y.1) (λ z opened.
        let on : Moves p z.1 =
          Moves-trans p x.1 z.1 first.moves (Moves-trans x.1 y.1 z.1 dirs opened.moves) in
        bind-Holds _
          (map-Holds (λ c. omega (arith, c, left_of_Moves p z.1 on)) (λ w m. m)
            (tfields_loop-Holds n x.0.val [] z.1))
          (λ w m. holds (Moves-trans p z.1 w.1 on m)))))

peek_val-some : (values : List Bytes) (p : Parser) → peek_val values p ≡ true → Reads p (ignore p)
unfolding peek_val
peek_val-some values p h = elim (Option-cases (get_elem? p.items p.at)) [
  | inl e ↦ cc
  | inr (i, e) ↦ Reads-ignore-some p i e
]

parse_type-Holds : (n : ℕ) (p : Parser) → Holds (n < 2 * left p + 2) (Read p) (parse_type n p)
unfolding parse_type
parse_type-Holds n p = elim (Bool-cases (peek_val (type_token ∷ []) p)) [
  | inr e ↦ rw (parse_type, e) (next_err-Holds _ p)
  | inl e ↦
      let r : Reads p (ignore p) = peek_val-some (type_token ∷ []) p e in
      rw (parse_type, e)
        (map-Holds (λ c. omega (arith, c, r.fewer)) (λ x m. Reads-Moves p (ignore p) x.1 r m)
          (type_body-Holds n (ignore p)))
]

types_loop-Holds :
    (n : ℕ) (types : List SchemaType) (p : Parser)
    → Holds {0, 0} (n < 2 * left p + 3) (λ ts. Unit) (types_loop n types p)
unfolding types_loop
types_loop-Holds zero types p = cut_off (omega arith)
types_loop-Holds (suc n) types p = elim (Bool-cases (peek (item_eof ∷ []) p)) [
  | inl e ↦ rw (types_loop, e) (holds tt)
  | inr e ↦
      rw (types_loop, e)
        (bind-Holds (λ x. types_loop n (types ++ (x.0 ∷ [])) x.1)
          (map-Holds (λ c. omega (arith, c)) (λ x r. r) (parse_type-Holds n p))
          (λ x r.
            map-Holds (λ c. omega (arith, c, r.fewer)) (λ ts u. u)
              (types_loop-Holds n (types ++ (x.0 ∷ [])) x.1)))
]

schema_items-Holds :
    (n : ℕ) (l : Lexer) → Holds {0, 0} (n < 2 * length l.items + 3) (λ ts. Unit) (schema_items n l)
unfolding schema_items
schema_items-Holds n l = map-Holds (λ c. omega (arith, c)) (λ ts u. u) (types_loop-Holds n [] _)

-- the bytes that a line and its end take
abbrev taken_by : Bool → ℕ
taken_by true = 1
taken_by false = 0

-- How a text is divided: nothing is lost, and a line without an end is the last or fills the buffer.
record Divides (n : ℕ) (text : Bytes) (x : Bytes × Bytes × Bool) : Type 0 where
  pub all : length x.0 + length x.1 + taken_by x.2 ≡ length text
  pub full : x.2 ≡ false → x.1 ≢ [] → length x.0 ≡ n

split_line-Divides : (n : ℕ) (text : Bytes) → Divides n text (split_line n text)
unfolding split_line
split_line-Divides zero text = record { all = omega arith; full = λ e ne. refl }
split_line-Divides (suc n) [] = record { all = omega arith; full = λ e ne. absurd (ne refl) }
split_line-Divides (suc n) (c ∷ cs) =
    let h = split_line-Divides n cs in
    elim (Bool-cases (c == b'\n')) [
      | inl e ↦ rw (split_line, e) (record { all = omega arith; full = λ k ne. cc })
      | inr e ↦
          rw (split_line, e)
            (record { all = omega (arith, h.all); full = λ k ne. ap suc (h.full k ne) })
    ]

shorter_return :
    (line : Bytes)
    → (length (without_return line).0) + taken_by (without_return line).1 ≡ length line
unfolding without_return
shorter_return [] = omega arith
shorter_return (c ∷ []) = elim (Bool-cases (c == b'\r')) [
  | inl e ↦ rw (without_return, e) (omega arith)
  | inr e ↦ rw (without_return, e) (omega arith)
]
shorter_return (c ∷ d ∷ cs) = omega (arith, shorter_return (d ∷ cs))

empty_length : (text : Bytes) → is_empty text ≡ true → length text ≡ 0
empty_length [] e = refl
empty_length (c ∷ cs) e = cc

not_empty : (text : Bytes) → is_empty text ≡ false → text ≢ []
not_empty [] e k = cc
not_empty (c ∷ cs) e k = cc

line_of-fewer :
    (n : ℕ) (text line rest : Bytes) (ended : Bool)
    → Divides n text (line, rest, ended)
    → 1 < n
    → 0 < length text
    → length (line_of (line, rest, ended)).1 < length text
unfolding line_of
line_of-fewer n text line rest true h big some_text = omega (arith, h.all)
line_of-fewer n text line rest false h big some_text =
    elim (Bool-cases (is_empty rest && not (length line == 4096))) [
      | inl m ↦ rw (line_of, m) (omega (arith, empty_length rest (and_left _ _ m)))
      | inr m ↦
          let filled : 1 < length line = long m in
          elim (Bool-cases (without_return line).1) [
            | inl z ↦ rw (line_of, m, z) (omega (arith, h.all, filled))
            | inr z ↦ rw (line_of, m, z) (omega (arith, h.all, filled))
          ]
    ]
  where
    long : (is_empty rest && not (length line == 4096)) ≡ false → 1 < length line
    long m = elim (Bool-cases (is_empty rest)) [
      | inr k ↦ omega (arith, big, h.full refl (not_empty rest k))
      | inl k ↦ elim (Bool-cases (length line == 4096)) [
        | inl full ↦ omega (arith, (==_iff (length line) 4096).0 full)
        | inr part ↦ absurd (cc (rw (k, part) at m))
      ]
    ]

header_from :
    (n : ℕ) (text : Bytes) (x : Bytes × Bytes)
    → read_line text ≡ some x
    → Holds {0, 0} ⊥ (λ s. Unit) (read_header n x.1)
    → Holds {0, 0} ⊥ (λ s. Unit) (read_header (suc n) text)
unfolding read_header
header_from n text x e h = elim (Bool-cases (is_empty x.0)) [
  | inl k ↦ rw (read_header, e, k) h
  | inr k ↦ rw (read_header, e, k) (holds tt)
]

header_none :
    (n : ℕ) (text : Bytes)
    → read_line text ≡ none
    → Holds {0, 0} ⊥ (λ s. Unit) (read_header (suc n) text)
unfolding read_header
header_none n text e = rw (read_header, e) failed

no_line_left : read_line [] ≡ none
unfolding read_line
no_line_left = refl

line_left : (c : ℕ) (cs : Bytes) → read_line (c ∷ cs) ≡ some (line_of (split_line 4096 (c ∷ cs)))
unfolding read_line
line_left c cs = refl

read_header-Holds :
    (n : ℕ) (text : Bytes) → length text < n → Holds {0, 0} ⊥ (λ s. Unit) (read_header n text)
read_header-Holds zero text h = absurd (omega arith)
read_header-Holds (suc n) [] h = header_none n [] no_line_left
read_header-Holds (suc n) (c ∷ cs) h =
    let x = split_line 4096 (c ∷ cs) in
    let fewer =
      line_of-fewer 4096 (c ∷ cs) x.0 x.1 x.2 (split_line-Divides 4096 (c ∷ cs)) (omega arith)
        (omega arith) in
    header_from n (c ∷ cs) (line_of x) (line_left c cs)
      (read_header-Holds n (line_of x).1 (omega (arith, h, fewer)))

parse_schema-Holds :
    (is_wide : ℕ → Bool) (text : Bytes) → Holds {0, 0} ⊥ (λ s. Unit) (parse_schema is_wide text)
unfolding parse_schema
parse_schema-Holds is_wide [] = failed
parse_schema-Holds is_wide (c ∷ cs) =
    bind-Holds _ (read_header-Holds (suc (length (c ∷ cs))) (c ∷ cs) (omega arith)) (λ s u.
      bind-Holds _ (lexed-Holds is_wide (c ∷ cs)) (λ l t.
        bind-Holds _
          (map-Holds (λ z. absurd (omega (arith, z))) (λ ts v. v)
            (schema_items-Holds (2 * length l.items + 3) l))
          (λ ts v. holds tt)))

-- `ParseSchema` ends on every text, with a schema, an error or a panic: neither the lines of its
-- header, nor the items, nor the fields of a type make one of its loops run on.
pub parse_schema_ends :
    (is_wide : ℕ → Bool) (text : Bytes) → parse_schema is_wide text ≢ out_of_fuel
parse_schema_ends is_wide text e = absurd (of_cut_off e (parse_schema-Holds is_wide text))
