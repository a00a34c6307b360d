-- ===== src/Query/Lex/States.antt =====
-- Each state function keeps the items in order and comes nearer to the end of the input.
use graphjin_slim.Base.{
  ℕ, zero, suc, ◌≤◌, ◌<◌, Bool, true, false, not, ◌&&◌, ◌||◌, [], ◌∷◌, ◌≡◌, refl, sym, ap, ◌∙◌, inl,
  inr, Option, length, ◌==◌, arith, Bool-cases, Option-cases,
}
use graphjin_slim.Query.Cursor.{
  item_on, item_bool_val, item_name, item_string_val, item_number_val, Lexer, next, backup, current,
  emit, ignore, one_of, accept, next_while, left, peek, bad_number,
}
use graphjin_slim.Query.Lex.Reads.{
  Moves, Moves-trans, Moves-inside, Moves-backup, Reads, next-ReadsOne, backup-pos,
}
use graphjin_slim.Query.Lex.Moves.{
  next_while-Ended, next_while-further, accept-Moves, accept-further, accept_run-Moves,
  accept_run-further, peek-Moves, accept-rune, accept-accepted, accept-refused, next-backup,
}
use graphjin_slim.Query.Lex.Items.{
  Fine, Finished, Fine-Moves, inside, Fine-ignore, ignore-pos, Fine-emit, emit-pos, Fine-emit_lower,
  emit_lower-pos, eof-Finished, errorf-Finished,
}
use graphjin_slim.Query.Lex.{
  State, lex_root, stop, quotes, signs, dot, digits, equals, on_token, true_token, false_token,
  close_string, string_loop, string_state, name_end, is_alpha_numeric, name_state, whole_part,
  fraction_part, number_body, number_state,
}

-- A state ended: the scanner stops, or goes on with `lexRoot` at `b` or behind it.
pub data Closed (n b : ℕ) : State × Lexer → Type 0 where
  stopped : {m : Lexer} → Finished n m → Closed n b (stop, m)
  back_to_root : {m : Lexer} → Fine n m → b ≤ m.pos → Closed n b (lex_root, m)

close_string-Closed :
    {n b : ℕ} {l m : Lexer} → Fine n l → b ≤ l.pos → Reads l m → Closed n b (close_string m)
unfolding close_string
close_string-Closed {n} {b} {l} {m} f h r =
    let back = Moves-backup r in
    let emitted = Fine-emit item_string_val refl (Fine-Moves f back) in
    let a = accept-Moves quotes (emit item_string_val (backup m)) (inside emitted) in
    let after = Fine-Moves emitted a in
    let pos = emit-pos item_string_val (backup m) in
    elim (Bool-cases (accept quotes (emit item_string_val (backup m))).1) [
      | inl e ↦ rw e (
          back_to_root (Fine-ignore after) (
            omega (
              arith,
              ignore-pos (accept quotes (emit item_string_val (backup m))).2,
              a.forward,
              back.forward,
              pos,
            )))
      | inr e ↦ rw e (back_to_root after (omega (arith, a.forward, back.forward, pos)))
    ]

string_loop-Closed :
    {n b : ℕ} (quote k : ℕ) (escaped : Bool) (l : Lexer)
    → Fine n l
    → b ≤ l.pos
    → Closed n b (string_loop quote k escaped l)
unfolding string_loop
string_loop-Closed quote zero escaped l f h =
    stopped (eof-Finished (Fine-Moves f (next-ReadsOne l (inside f)).reads.moves))
string_loop-Closed {n} {b} quote (suc k) escaped l f h =
    let one = next-ReadsOne l (inside f) in
    let g = Fine-Moves f one.reads.moves in
    let far : b ≤ (next l).1.pos = omega (arith, one.reads.moves.forward) in
    let slash = string_loop-Closed {n = n} {b = b} quote k true (next l).1 g far in
    let other = string_loop-Closed {n = n} {b = b} quote k false (next l).1 g far in
    elim (Option-cases (next l).0) [
      | inl e ↦ rw (string_loop, e) (stopped (eof-Finished g))
      | inr (r, e) ↦ elim (Bool-cases (r == b'\\')) [
        | inl s ↦ rw (string_loop, e, s) slash
        | inr s ↦ elim (Bool-cases (not escaped && r == quote)) [
          | inl q ↦ rw (string_loop, e, s, q) (close_string-Closed f h one.reads)
          | inr q ↦ rw (string_loop, e, s, q) other
        ]
      ]
    ]

pub string_state-Closed :
    {n : ℕ} (l : Lexer)
    → Fine n l
    → one_of quotes (next l).0 ≡ true
    → Closed n (suc l.pos) (string_state l)
unfolding string_state
string_state-Closed l f ready =
    let m = (accept quotes l).2 in
    let a = accept-Moves quotes l (inside f) in
    let far = accept-further quotes l (inside f) ready in
    let opened = accept-accepted quotes l ∙ ready in
    elim (Option-cases (accept quotes l).0) [
      | inl e ↦ absurd (cc (ready, ap (one_of quotes) (sym (accept-rune quotes l) ∙ e)))
      | inr (r, e) ↦
          rw (string_state, e, opened)
            (string_loop-Closed r (left m) false (ignore m) (Fine-ignore (Fine-Moves f a))
              (omega (arith, ignore-pos m, far)))
    ]

name_end-Fine : {n : ℕ} {l : Lexer} → Fine n l → Fine n (name_end l)
unfolding name_end
name_end-Fine {n} {l} f = elim (Bool-cases (equals (current l) on_token)) [
  | inl e ↦ rw e (Fine-emit_lower item_on refl f)
  | inr e ↦ elim (Bool-cases (equals (current l) true_token || equals (current l) false_token)) [
    | inl k ↦ rw (e, k) (Fine-emit_lower item_bool_val refl f)
    | inr k ↦ rw (e, k) (Fine-emit item_name refl f)
  ]
]

name_end-pos : (l : Lexer) → (name_end l).pos ≡ l.pos
unfolding name_end
name_end-pos l =
    ground (arith, emit_lower-pos item_on l, emit_lower-pos item_bool_val l, emit-pos item_name l)

pub name_state-Closed :
    {n : ℕ} (is_wide : ℕ → Bool) (l : Lexer)
    → Fine n l
    → is_alpha_numeric is_wide (next l).0 ≡ true
    → Closed n (suc l.pos) (name_state is_wide l)
unfolding name_state is_alpha_numeric
name_state-Closed is_wide l f ready =
    let p = is_alpha_numeric is_wide in
    let run = next_while p (left l) l in
    let ended = next_while-Ended p (left l) l refl (inside f) (omega arith) in
    let far = next_while-further p l refl (inside f) ready in
    elim (Option-cases run.0) [
      | inl e ↦ rw (name_state, e) (stopped (eof-Finished (Fine-Moves f ended.reads.moves)))
      | inr (r, e) ↦
          rw (name_state, e)
            (back_to_root (name_end-Fine (Fine-Moves f (Moves-backup ended.reads)))
              (omega (arith, name_end-pos (backup run.1), backup-pos run.1)))
    ]

-- the rune that brings `lexRoot` to `lexNumber`
abbrev pub begins_number : Option ℕ → Bool
begins_number r = one_of signs r || one_of digits r

whole_part-Moves : (l : Lexer) → l.pos ≤ length l.input → Moves l (whole_part l)
unfolding whole_part
whole_part-Moves l h =
    let signed = accept-Moves signs l h in
    Moves-trans signed (accept_run-Moves digits (accept signs l).2 (Moves-inside signed))

-- It reads the sign, or the digits where there is none.
whole_part-further :
    (l : Lexer)
    → l.pos ≤ length l.input
    → begins_number (next l).0 ≡ true
    → l.pos < (whole_part l).pos
unfolding whole_part
whole_part-further l h ready =
    let signed = accept-Moves signs l h in
    let run = accept_run-Moves digits (accept signs l).2 (Moves-inside signed) in
    elim (Bool-cases (one_of signs (next l).0)) [
      | inl e ↦ omega (arith, accept-further signs l h e, run.forward)
      | inr e ↦
          let digit = right (one_of signs (next l).0) (one_of digits (next l).0) ready e in
          let stays = accept-refused signs l e in
          let again = ap (λ m. (next m).0) stays ∙ next-backup l h in
          let further =
            accept_run-further digits (accept signs l).2 (Moves-inside signed)
              (ap (one_of digits) again ∙ digit) in
          omega (arith, further, signed.forward)
    ]
  where
    right : (a b : Bool) → (a || b) ≡ true → a ≡ false → b ≡ true
    right a b h k = ground arith

fraction_part-Moves : (l : Lexer) → l.pos ≤ length l.input → Moves l (fraction_part l)
unfolding fraction_part
fraction_part-Moves l h =
    let dotted = accept-Moves dot l h in
    elim (Bool-cases (accept dot l).1) [
      | inl e ↦
          rw (fraction_part, e)
            (Moves-trans dotted (accept_run-Moves digits (accept dot l).2 (Moves-inside dotted)))
      | inr e ↦ rw (fraction_part, e) dotted
    ]

-- `scanNumber` moves on, at a sign or a digit.
number_body-Moves : (l : Lexer) → l.pos ≤ length l.input → Moves (whole_part l) (number_body l)
unfolding number_body
number_body-Moves l h =
    let whole = Moves-inside (whole_part-Moves l h) in
    let part = fraction_part-Moves (whole_part l) whole in
    Moves-trans part (accept-Moves (b'i' ∷ []) (fraction_part (whole_part l)) (Moves-inside part))

pub number_state-Closed :
    {n : ℕ} (is_wide : ℕ → Bool) (l : Lexer)
    → Fine n l
    → begins_number (next l).0 ≡ true
    → Closed n (suc l.pos) (number_state is_wide l)
unfolding number_state
number_state-Closed is_wide l f ready =
    let tail = number_body-Moves l (inside f) in
    let body = Moves-trans (whole_part-Moves l (inside f)) tail in
    let far = whole_part-further l (inside f) ready in
    let g = Fine-Moves f body in
    let seen = peek-Moves (number_body l) (inside g) in
    let h = Fine-Moves g seen in
    let m = (peek (number_body l)).1 in
    elim (Bool-cases (is_alpha_numeric is_wide (peek (number_body l)).0)) [
      | inl e ↦
          rw (number_state, e)
            (stopped (
              errorf-Finished (bad_number (current (next m).1))
                (Fine-Moves h (next-ReadsOne m (inside h)).reads.moves)))
      | inr e ↦
          rw (number_state, e)
            (back_to_root (Fine-emit item_number_val refl h)
              (omega (arith, emit-pos item_number_val m, seen.forward, tail.forward)))
    ]
