-- ===== src/Query/Lex/Moves.antt =====
-- The methods that move the lexer over its input: they stay within it, and touch no item.
use graphjin_slim.Base.{
  ℕ, zero, suc, ◌-◌, ◌≤◌, ◌<◌, Bool, true, false, not, [], ◌∷◌, ◌≡◌, refl, sym, ap, ◌∙◌, inl, inr,
  Option, none, some, Bytes, length, arith, Bool-cases,
}
use graphjin_slim.Base.Utf8.{decode_rune}
use graphjin_slim.Query.Cursor.{
  Lexer, drop, next_of, next, backup, peek, one_of, accept, next_while, left, is_end_of_line,
  accept_comment, accept_run,
}
use graphjin_slim.Query.Lex.Reads.{
  Moves, Moves-backup, Moves-inside, Reads, Reads-after, ReadsOne, backup-pos, next-ReadsOne,
}

-- What a loop over runes ends with: the last rune fails the test.
pub record Ended (p : Option ℕ → Bool) (l : Lexer) (r : Option ℕ) (m : Lexer) : Type 0 where
  pub reads : Reads l m
  pub fails : p r ≡ false

pub next_while-Ended :
    (p : Option ℕ → Bool) (n : ℕ) (l : Lexer)
    → p none ≡ false
    → l.pos ≤ length l.input
    → left l ≤ n
    → Ended p l (next_while p n l).0 (next_while p n l).1
unfolding next_while
next_while-Ended p zero l e h k =
    let one = next-ReadsOne l h in
    record { reads = one.reads; fails = ap p (one.at_end (omega arith)) ∙ e }
next_while-Ended p (suc n) l e h k =
    let one = next-ReadsOne l h in
    elim (Bool-cases (p (next l).0)) [
      | inl holds ↦
          let some_rune : l.pos < length l.input = elim one.some_rune [
            | inl over ↦ absurd (cc (holds, ap p (one.at_end over), e))
            | inr wide ↦ omega (arith, one.one, one.reads.moves.bounded)
          ] in
          let wide : 1 ≤ (next l).1.width = elim one.some_rune [
            | inl over ↦ omega arith
            | inr wide ↦ wide
          ] in
          let same = ap length one.reads.moves.input_is in
          let rest =
            next_while-Ended p n (next l).1 e (Moves-inside one.reads.moves)
              (omega (arith, one.one)) in
          rw holds (record { reads = Reads-after one.reads.moves rest.reads; fails = rest.fails })
      | inr fails ↦ rw fails (record { reads = one.reads; fails = fails })
    ]

-- If the first rune passes, the loop reads it and one more.
pub next_while-further :
    (p : Option ℕ → Bool) (l : Lexer)
    → p none ≡ false
    → l.pos ≤ length l.input
    → p (next l).0 ≡ true
    → l.pos < (next_while p (left l) l).1.pos - (next_while p (left l) l).1.width
unfolding next_while
next_while-further p l e h holds =
    let one = next-ReadsOne l h in
    let inside : l.pos < length l.input = elim one.some_rune [
      | inl over ↦ absurd (cc (holds, ap p (one.at_end over), e))
      | inr wide ↦ omega (arith, one.one, one.reads.moves.bounded)
    ] in
    let wide : 1 ≤ (next l).1.width = elim one.some_rune [
      | inl over ↦ omega arith
      | inr wide ↦ wide
    ] in
    further (left l) (omega arith) (omega arith) one wide
  where
    further :
        (n : ℕ)
        → 1 ≤ n
        → left l ≤ n
        → ReadsOne l (next l).0 (next l).1
        → 1 ≤ (next l).1.width
        → l.pos < (next_while p n l).1.pos - (next_while p n l).1.width
    further zero a b one wide = absurd (omega arith)
    further (suc n) a b one wide =
        let same = ap length one.reads.moves.input_is in
        let rest =
          next_while-Ended p n (next l).1 e (Moves-inside one.reads.moves)
            (omega (arith, one.one)) in
        rw holds (omega (arith, rest.reads.back, one.one))

pub accept-Moves : (valid : Bytes) (l : Lexer) → l.pos ≤ length l.input → Moves l (accept valid l).2
unfolding accept
accept-Moves valid l h =
    let one = next-ReadsOne l h in
    elim (Bool-cases (one_of valid (next l).0)) [
      | inl e ↦ rw e one.reads.moves
      | inr e ↦ rw e (Moves-backup one.reads)
    ]

pub accept-further :
    (valid : Bytes) (l : Lexer)
    → l.pos ≤ length l.input
    → one_of valid (next l).0 ≡ true
    → l.pos < (accept valid l).2.pos
unfolding accept
accept-further valid l h holds =
    let one = next-ReadsOne l h in
    elim one.some_rune [
      | inl over ↦ absurd (cc (holds, ap (one_of valid) (one.at_end over)))
      | inr wide ↦ rw holds (omega (arith, one.one))
    ]

pub accept_run-Moves :
    (valid : Bytes) (l : Lexer) → l.pos ≤ length l.input → Moves l (accept_run valid l)
unfolding accept_run
accept_run-Moves valid l h =
    Moves-backup (next_while-Ended (one_of valid) (left l) l refl h (omega arith)).reads

pub accept_run-further :
    (valid : Bytes) (l : Lexer)
    → l.pos ≤ length l.input
    → one_of valid (next l).0 ≡ true
    → l.pos < (accept_run valid l).pos
unfolding accept_run
accept_run-further valid l h holds =
    let n = next_while (one_of valid) (left l) l in
    rw (backup-pos n.1) (next_while-further (one_of valid) l refl h holds)

pub accept_comment-Moves : (l : Lexer) → l.pos ≤ length l.input → Moves l (accept_comment l)
unfolding accept_comment
accept_comment-Moves l h =
    (next_while-Ended (λ r. not (is_end_of_line r)) (left l) l refl h (omega arith)).reads.moves

pub peek-Moves : (l : Lexer) → l.pos ≤ length l.input → Moves l (peek l).1
unfolding peek
peek-Moves l h = Moves-backup (next-ReadsOne l h).reads

next_rune : Bytes → Option ℕ
unfolding decode_rune
next_rune [] = none
next_rune (c ∷ cs) = some (decode_rune (c ∷ cs)).code

next_of-rune : (l : Lexer) (xs : Bytes) → (next_of l xs).0 ≡ next_rune xs
unfolding next_of next_rune
next_of-rune l [] = refl
next_of-rune l (c ∷ cs) = refl

-- `next` depends on no more than the input and the position.
next-rune : (l : Lexer) → (next l).0 ≡ next_rune (drop l.pos l.input)
unfolding next
next-rune l = next_of-rune l (drop l.pos l.input)

-- Behind `backup` the same rune is read again.
pub next-backup : (l : Lexer) → l.pos ≤ length l.input → (next (backup (next l).1)).0 ≡ (next l).0
next-backup l h =
    let one = next-ReadsOne l h in
    let m = (next l).1 in
    let back : (backup m).pos ≡ l.pos = omega (arith, backup-pos m, one.one) in
    let input_is = (Moves-backup one.reads).input_is in
    next-rune (backup m) ∙ (rw (back, input_is) refl ∙ sym (next-rune l))

pub accept-rune : (valid : Bytes) (l : Lexer) → (accept valid l).0 ≡ (next l).0
unfolding accept
accept-rune valid l = elim (Bool-cases (one_of valid (next l).0)) [
  | inl e ↦ rw e refl
  | inr e ↦ rw e refl
]

pub accept-accepted : (valid : Bytes) (l : Lexer) → (accept valid l).1 ≡ one_of valid (next l).0
unfolding accept
accept-accepted valid l = elim (Bool-cases (one_of valid (next l).0)) [
  | inl e ↦ rw e refl
  | inr e ↦ rw e refl
]

-- A rune that is not accepted is the next one still.
pub accept-refused :
    (valid : Bytes) (l : Lexer)
    → one_of valid (next l).0 ≡ false
    → (accept valid l).2 ≡ backup (next l).1
unfolding accept
accept-refused valid l e = rw e refl
