-- ===== src/Query/Lex/Root.antt =====
-- `lexRoot` takes a rune off, or goes to the state that will.
use graphjin_slim.Base.{
  ℕ, suc, ◌≤◌, ◌<◌, Bool, true, false, ◌≡◌, refl, ap, ◌∙◌, inl, inr, some, Bytes, length, arith,
  Bool-cases, Option-cases,
}
use graphjin_slim.Query.Cursor.{
  MType, item_directive, item_required, item_variable, item_spread, Lexer, next, backup, current,
  ignore, one_of, accept, accept_comment, left, unrecognized,
}
use graphjin_slim.Query.Lex.Reads.{Moves, Moves-backup, next-ReadsOne, ReadsOne}
use graphjin_slim.Query.Lex.Moves.{
  next_while-Ended, accept-Moves, accept_comment-Moves, next-backup,
}
use graphjin_slim.Query.Lex.Items.{
  is_final, Fine, Fine-Moves, inside, Fine-ignore, ignore-pos, Fine-emit, emit-pos, eof-Finished,
  errorf-Finished,
}
use graphjin_slim.Query.Lex.States.{Closed, stopped, back_to_root, begins_number}
use graphjin_slim.Query.Lex.{
  State, lex_root, lex_name, lex_string, lex_number, quotes, dot, equals, spread_token, punctuator,
  is_alpha_numeric, accept_alpha_num, Case, ends, blank, comment, directive, required, variable,
  punctuation, quoted, dotted, number_like, name_like, unknown, case_of, variable_part, dotted_part,
  root_case, root_state,
}

-- A step of `lexRoot` from the position `b`.
pub data Stepped (is_wide : ℕ → Bool) (n b : ℕ) : State × Lexer → Type 0 where
  closed : {x : State × Lexer} → Closed n (suc b) x → Stepped is_wide n b x
  to_name :
      {m : Lexer}
      → Fine n m
      → b ≤ m.pos
      → is_alpha_numeric is_wide (next m).0 ≡ true
      → Stepped is_wide n b (lex_name, m)
  to_string :
      {m : Lexer}
      → Fine n m
      → b ≤ m.pos
      → one_of quotes (next m).0 ≡ true
      → Stepped is_wide n b (lex_string, m)
  to_number :
      {m : Lexer}
      → Fine n m
      → b ≤ m.pos
      → begins_number (next m).0 ≡ true
      → Stepped is_wide n b (lex_number, m)

-- what a case of `lexRoot` says of the rune
abbrev Says : (ℕ → Bool) → ℕ → Case → Type 0
Says is_wide r quoted = one_of quotes (some r) ≡ true
Says is_wide r number_like = begins_number (some r) ≡ true
Says is_wide r name_like = is_alpha_numeric is_wide (some r) ≡ true
Says is_wide r _ = Unit

case_of-quoted :
    (is_wide : ℕ → Bool) (r : ℕ) (text : Bytes)
    → case_of is_wide r text ≡ quoted
    → one_of quotes (some r) ≡ true
unfolding case_of
case_of-quoted is_wide r text h = ground arith

case_of-number_like :
    (is_wide : ℕ → Bool) (r : ℕ) (text : Bytes)
    → case_of is_wide r text ≡ number_like
    → begins_number (some r) ≡ true
unfolding case_of
case_of-number_like is_wide r text h = ground arith

case_of-name_like :
    (is_wide : ℕ → Bool) (r : ℕ) (text : Bytes)
    → case_of is_wide r text ≡ name_like
    → is_alpha_numeric is_wide (some r) ≡ true
unfolding case_of
case_of-name_like is_wide r text h = ground arith

case_of-Says : (is_wide : ℕ → Bool) (r : ℕ) (text : Bytes) → Says is_wide r (case_of is_wide r text)
case_of-Says is_wide r text =
    go (case_of is_wide r text) (case_of-quoted is_wide r text) (case_of-number_like is_wide r text)
      (case_of-name_like is_wide r text)
  where
    go :
        (c : Case)
        → (c ≡ quoted → one_of quotes (some r) ≡ true)
        → (c ≡ number_like → begins_number (some r) ≡ true)
        → (c ≡ name_like → is_alpha_numeric is_wide (some r) ≡ true)
        → Says is_wide r c
    go quoted q n a = q refl
    go number_like q n a = n refl
    go name_like q n a = a refl
    go ends q n a = tt
    go blank q n a = tt
    go comment q n a = tt
    go directive q n a = tt
    go required q n a = tt
    go variable q n a = tt
    go punctuation q n a = tt
    go dotted q n a = tt
    go unknown q n a = tt

punctuator-inner : (r : ℕ) (t : MType) → punctuator r ≡ some t → is_final t ≡ false
unfolding punctuator
punctuator-inner r t h = ground arith

accept_alpha_num-Moves :
    (is_wide : ℕ → Bool) (l : Lexer)
    → l.pos ≤ length l.input
    → Moves l (accept_alpha_num is_wide l).1
unfolding accept_alpha_num is_alpha_numeric
accept_alpha_num-Moves is_wide l h =
    Moves-backup (next_while-Ended (is_alpha_numeric is_wide) (left l) l refl h (omega arith)).reads

variable_part-Closed :
    {n b : ℕ} (is_wide : ℕ → Bool) (l : Lexer)
    → Fine n l
    → b ≤ l.pos
    → Closed n b (lex_root, variable_part is_wide l)
unfolding variable_part
variable_part-Closed is_wide l f h =
    let g = Fine-ignore f in
    let a = accept_alpha_num-Moves is_wide (ignore l) (inside g) in
    let m = (accept_alpha_num is_wide (ignore l)).1 in
    let k = Fine-Moves g a in
    elim (Bool-cases (accept_alpha_num is_wide (ignore l)).0) [
      | inl e ↦
          rw (variable_part, e)
            (back_to_root (Fine-emit item_variable refl k)
              (omega (arith, emit-pos item_variable m, a.forward, ignore-pos l)))
      | inr e ↦ rw (variable_part, e) (back_to_root k (omega (arith, a.forward, ignore-pos l)))
    ]

dotted_part-Closed :
    {n b : ℕ} (l : Lexer) → Fine n l → b ≤ l.pos → Closed n b (lex_root, dotted_part l)
unfolding dotted_part
dotted_part-Closed l f h =
    let a = accept-Moves dot l (inside f) in
    let m = (accept dot l).2 in
    let k = Fine-Moves f a in
    elim (Bool-cases (equals (current m) spread_token)) [
      | inl e ↦
          rw (dotted_part, e)
            (back_to_root (Fine-emit item_spread refl k)
              (omega (arith, emit-pos item_spread m, a.forward)))
      | inr e ↦ rw (dotted_part, e) (back_to_root k (omega (arith, a.forward)))
    ]

-- Each case, behind a rune that was read from `l`.
root_case-Stepped :
    {n : ℕ} (is_wide : ℕ → Bool) (l : Lexer) (r : ℕ) (c : Case)
    → Fine n l
    → (next l).0 ≡ some r
    → Says is_wide r c
    → Stepped is_wide n l.pos (root_case is_wide c r (next l).1)
unfolding root_case
root_case-Stepped {n} is_wide l r c f e says = go c says
  where
    one : ReadsOne l (next l).0 (next l).1
    one = next-ReadsOne l (inside f)

    read : Fine n (next l).1
    read = Fine-Moves f one.reads.moves

    far : l.pos < (next l).1.pos
    far = elim one.some_rune [
      | inl over ↦ absurd (cc (e, one.at_end over))
      | inr wide ↦ omega (arith, one.one)
    ]

    back : Moves l (backup (next l).1)
    back = Moves-backup one.reads

    again : (next (backup (next l).1)).0 ≡ some r
    again = next-backup l (inside f) ∙ e

    go : (c : Case) → Says is_wide r c → Stepped is_wide n l.pos (root_case is_wide c r (next l).1)
    go ends says = closed (stopped (eof-Finished read))
    go blank says =
        closed (back_to_root (Fine-ignore read) (omega (arith, ignore-pos (next l).1, far)))
    go comment says =
        let g = Fine-ignore read in
        let a = accept_comment-Moves (ignore (next l).1) (inside g) in
        let m = accept_comment (ignore (next l).1) in
        closed (
          back_to_root (Fine-ignore (Fine-Moves g a))
            (omega (arith, ignore-pos m, a.forward, ignore-pos (next l).1, far)))
    go directive says = closed (
        back_to_root (Fine-emit item_directive refl (Fine-ignore read))
          (omega (arith, emit-pos item_directive (ignore (next l).1), ignore-pos (next l).1, far)))
    go required says = closed (
        back_to_root (Fine-emit item_required refl (Fine-ignore read))
          (omega (arith, emit-pos item_required (ignore (next l).1), ignore-pos (next l).1, far)))
    go variable says = closed (variable_part-Closed is_wide (next l).1 read far)
    go punctuation says = elim (Option-cases (punctuator r)) [
      | inl k ↦ rw (root_case, k) (closed (back_to_root read far))
      | inr (t, k) ↦
          rw (root_case, k)
            (closed (
              back_to_root (Fine-emit t (punctuator-inner r t k) read)
                (omega (arith, emit-pos t (next l).1, far))))
    ]
    go quoted says = to_string (Fine-Moves f back) back.forward (ap (one_of quotes) again ∙ says)
    go dotted says = closed (dotted_part-Closed (next l).1 read far)
    go number_like says = to_number (Fine-Moves f back) back.forward (ap begins_number again ∙ says)
    go name_like says =
        to_name (Fine-Moves f back) back.forward (ap (is_alpha_numeric is_wide) again ∙ says)
    go unknown says = closed (stopped (errorf-Finished (unrecognized r) read))

pub root_state-Stepped :
    {n : ℕ} (is_wide : ℕ → Bool) (l : Lexer)
    → Fine n l
    → Stepped is_wide n l.pos (root_state is_wide l)
unfolding root_state root_case
root_state-Stepped is_wide l f = elim (Option-cases (next l).0) [
  | inl e ↦
      let one = next-ReadsOne l (inside f) in
      rw (root_state, e, root_case) (closed (stopped (eof-Finished (Fine-Moves f one.reads.moves))))
  | inr (r, e) ↦
      rw (root_state, e)
        (root_case-Stepped is_wide l r (case_of is_wide r (current (next l).1)) f e
          (case_of-Says is_wide r (current (next l).1)))
]
