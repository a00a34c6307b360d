-- ===== src/Query/Lex/Reads.antt =====
-- `next` and `backup` of core/graph/lex.go: they stay within the input and touch no item.
use graphjin_slim.Base.{
  ℕ, zero, suc, ◌+◌, ◌-◌, ◌≤◌, [], ◌∷◌, ◌≡◌, refl, ap, ◌∙◌, ◌⊎◌, inl, inr, Option, none, Bytes,
  length, ◌==◌, arith, Bool-cases, List-cases,
}
use graphjin_slim.Base.Utf8.{decode_rune_width}
use graphjin_slim.Query.Cursor.{Lexer, drop, next_of, next, backup}

length-drop : (n : ℕ) (xs : Bytes) → length (drop n xs) ≡ length xs - n
unfolding drop
length-drop zero xs = omega arith
length-drop (suc n) [] = omega arith
length-drop (suc n) (x ∷ xs) = omega (arith, length-drop n xs)

-- `m` is `l` with the position moved forward inside the input.
pub record Moves (l m : Lexer) : Type 0 where
  pub input_is : m.input ≡ l.input
  pub items_are : m.items ≡ l.items
  pub start_is : m.start ≡ l.start
  pub error_is : m.error ≡ l.error
  pub forward : l.pos ≤ m.pos
  pub bounded : m.pos ≤ length l.input

-- `m` is behind the last rune that was read, and that rune begins at or behind the position of `l`.
pub record Reads (l m : Lexer) : Type 0 where
  pub moves : Moves l m
  pub wide : m.width ≤ m.pos
  pub back : l.pos ≤ m.pos - m.width

pub record ReadsOne (l : Lexer) (r : Option ℕ) (m : Lexer) : Type 0 where
  pub reads : Reads l m
  pub one : m.pos ≡ l.pos + m.width
  pub some_rune : (length l.input ≤ l.pos) ⊎ (1 ≤ m.width)
  pub at_end : length l.input ≤ l.pos → r ≡ none

pub next-ReadsOne : (l : Lexer) → l.pos ≤ length l.input → ReadsOne l (next l).0 (next l).1
unfolding next next_of
next-ReadsOne l h = elim (List-cases (drop l.pos l.input)) [
  | inl e ↦
      let n : length (drop l.pos l.input) ≡ 0 = ap length e in
      rw e (record {
        reads = record {
          moves = record {
            input_is = refl;
            items_are = refl;
            start_is = refl;
            error_is = refl;
            forward = omega arith;
            bounded = h;
          };
          wide = omega arith;
          back = omega arith;
        };
        one = omega arith;
        some_rune = inl (omega (arith, length-drop l.pos l.input));
        at_end = λ k. refl;
      })
  | inr (c, cs, e) ↦
      let n : length (drop l.pos l.input) ≡ suc (length cs) = ap length e in
      let w = decode_rune_width c cs in
      rw e (record {
        reads = record {
          moves = record {
            input_is = refl;
            items_are = refl;
            start_is = refl;
            error_is = refl;
            forward = omega arith;
            bounded = omega (arith, length-drop l.pos l.input, w.0, w.1);
          };
          wide = omega arith;
          back = omega arith;
        };
        one = refl;
        some_rune = inr w.0;
        at_end = λ k. absurd (omega (arith, length-drop l.pos l.input));
      })
]

Moves-refl : (l : Lexer) → l.pos ≤ length l.input → Moves l l
Moves-refl l h = record {
  input_is = refl;
  items_are = refl;
  start_is = refl;
  error_is = refl;
  forward = omega arith;
  bounded = h;
}

pub Moves-trans : {l m n : Lexer} → Moves l m → Moves m n → Moves l n
Moves-trans a b = record {
  input_is = b.input_is ∙ a.input_is;
  items_are = b.items_are ∙ a.items_are;
  start_is = b.start_is ∙ a.start_is;
  error_is = b.error_is ∙ a.error_is;
  forward = omega (arith, a.forward, b.forward);
  bounded = omega (arith, b.bounded, ap length a.input_is);
}

pub Moves-inside : {l m : Lexer} → Moves l m → m.pos ≤ length m.input
Moves-inside a = omega (arith, a.bounded, ap length a.input_is)

-- `backup` takes back the width of the last rune, and touches nothing else.
pub backup-pos : (m : Lexer) → (backup m).pos ≡ m.pos - m.width
unfolding backup
backup-pos m = ground arith

pub Moves-backup : {l m : Lexer} → Reads l m → Moves l (backup m)
unfolding backup
Moves-backup {l} {m} r = elim (Bool-cases (m.pos == 0)) [
  | inl e ↦ rw e r.moves
  | inr e ↦
      let a = r.moves in
      rw e (record {
        input_is = a.input_is;
        items_are = a.items_are;
        start_is = a.start_is;
        error_is = a.error_is;
        forward = r.back;
        bounded = omega (arith, a.bounded);
      })
]

pub Reads-after : {l m n : Lexer} → Moves l m → Reads m n → Reads l n
Reads-after a b = record {
  moves = Moves-trans a b.moves;
  wide = b.wide;
  back = omega (arith, a.forward, b.back);
}
