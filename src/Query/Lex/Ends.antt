-- ===== src/Query/Lex/Ends.antt =====
-- `lex` as a whole: it ends, and what its items are.
use graphjin_slim.Base.{
  ℕ, zero, suc, ◌+◌, ◌-◌, ◌*◌, ◌≤◌, Bool, true, false, List, [], ◌∷◌, ◌++◌, ◌≡◌, ◌≢◌, refl, ◌⊎◌, ap,
  ◌∙◌, inl, inr, none, some, Bytes, length, arith, Bool-cases, Option-cases, All, ok, err, panic,
}
use graphjin_slim.Query.Cursor.{MType, item_error, item_eof, Item, LexError, Lexer}
use graphjin_slim.Query.Lex.Items.{is_final, IsInner, StartsBy, Sorted, is_some, Fine, Finished}
use graphjin_slim.Query.Lex.States.{
  Closed, stopped, back_to_root, string_state-Closed, name_state-Closed, number_state-Closed,
}
use graphjin_slim.Query.Lex.Root.{
  Stepped, closed, to_name, to_string, to_number, root_state-Stepped,
}
use graphjin_slim.Query.Lex.{
  State, lex_root, stop, root_state, name_state, string_state, number_state, step, run, initial,
  last_item, is_error, lex_end, lex,
}

-- The items of a text of `n` bytes that has no error: they stand in the order of the text and
-- begin within it, and the end of the file is the last of them and no other.
pub record IsTokenized (n : ℕ) (items : List Item) : Type 0 where
  pub body : List Item
  pub last : Item
  pub items_are : items ≡ body ++ (last ∷ [])
  pub inner : All IsInner body
  pub at_end : last.type ≡ item_eof
  pub sorted : Sorted items
  pub within : All (StartsBy n) items

module _ (is_wide : ℕ → Bool) (n : ℕ) where
  abbrev Ends : ℕ → State × Lexer → Type 0
  Ends k x = (m : Lexer) × (run is_wide k x.0 x.1 ≡ some m) × Finished n m

  run-stop : (k : ℕ) (l : Lexer) → run is_wide k stop l ≡ some l
  unfolding run
  run-stop zero l = refl
  run-stop (suc k) l = refl

  abbrev RootEnds : ℕ → Type 0
  RootEnds k = (l : Lexer) → Fine n l → 2 * (n - l.pos) + 2 ≤ k → Ends k (lex_root, l)

  Closed-Ends :
      (k b : ℕ) (x : State × Lexer)
      → RootEnds k
      → (b ≤ n → 2 * (n - b) + 2 ≤ k)
      → Closed n b x
      → Ends k x
  Closed-Ends k b _ root h (stopped {m} f) = (m, run-stop k m, f)
  Closed-Ends k b _ root h (back_to_root {m} f far) =
      root m f (omega (arith, h (omega (arith, f.bounded)), f.bounded))

  Stepped-Ends :
      (k b : ℕ) (x : State × Lexer)
      → RootEnds k
      → RootEnds (suc k)
      → b ≤ n
      → 2 * (n - b) ≤ k
      → Stepped is_wide n b x
      → Ends (suc k) x
  unfolding run step
  Stepped-Ends k b x root next_root h below (closed c) =
      Closed-Ends (suc k) (suc b) x next_root (λ over. omega arith) c
  Stepped-Ends k b _ root next_root h below (to_name {m} f far ready) =
      Closed-Ends k (suc m.pos) (name_state is_wide m) root (λ over. omega arith)
        (name_state-Closed is_wide m f ready)
  Stepped-Ends k b _ root next_root h below (to_string {m} f far ready) =
      Closed-Ends k (suc m.pos) (string_state m) root (λ over. omega arith)
        (string_state-Closed m f ready)
  Stepped-Ends k b _ root next_root h below (to_number {m} f far ready) =
      Closed-Ends k (suc m.pos) (number_state is_wide m) root (λ over. omega arith)
        (number_state-Closed is_wide m f ready)

  root_ends : (k : ℕ) → RootEnds k
  unfolding run step
  root_ends zero l f h = absurd (omega arith)
  root_ends (suc zero) l f h = absurd (omega arith)
  root_ends (suc (suc k)) l f h =
      Stepped-Ends k l.pos (root_state is_wide l) (root_ends k) (root_ends (suc k)) f.bounded
        (omega arith) (root_state-Stepped is_wide l f)

initial-Fine : (input : Bytes) → Fine (length input) (initial input)
initial-Fine input = record {
  size = refl;
  started = omega arith;
  bounded = omega arith;
  below = tt;
  sorted = tt;
  inner = tt;
}

last_item-append : (is : List Item) (i : Item) → last_item (is ++ (i ∷ [])) ≡ some i
last_item-append [] i = refl
last_item-append (j ∷ []) i = refl
last_item-append (j ∷ k ∷ is) i = last_item-append (k ∷ is) i

Finished-last_item : {n : ℕ} {l : Lexer} (f : Finished n l) → last_item l.items ≡ some f.last
Finished-last_item f = ap last_item f.items_are ∙ last_item-append f.body f.last

abbrev Scanned : (ℕ → Bool) → Bytes → Type 0
Scanned is_wide input =
    (l : Lexer) × (lex is_wide input ≡ some (lex_end l)) × Finished (length input) l

-- A text that is not empty is scanned to the end.
scan : (is_wide : ℕ → Bool) (c : ℕ) (cs : Bytes) → Scanned is_wide (c ∷ cs)
unfolding lex
scan is_wide c cs =
    let input = c ∷ cs in
    let (l, e, f) =
      root_ends is_wide (length input) (2 * length input + 2) (initial input) (initial-Fine input)
        (omega arith) in
    (l, rw (lex, e) refl, f)

error_of : (t : MType) → is_error t ≡ true → t ≡ item_error
error_of item_error h = refl
error_of _ h = cc

eof_of : (t : MType) → is_final t ≡ true → is_error t ≡ false → t ≡ item_eof
eof_of item_eof h k = refl
eof_of item_error h k = cc
eof_of _ h k = cc

-- A scan ended with an error that is not nil, or with the end of the file.
lex_end-cases :
    {n : ℕ} (l : Lexer) (f : Finished n l)
    → ((e : LexError) × (lex_end l ≡ err (some e)))
      ⊎ ((f.last.type ≡ item_eof) × (lex_end l ≡ ok l))
unfolding lex_end
lex_end-cases l f = elim (Bool-cases (is_error f.last.type)) [
  | inl bad ↦ elim (Option-cases l.error) [
    | inl e ↦ absurd (cc (f.reason (error_of f.last.type bad), ap is_some e))
    | inr (why, e) ↦ inl (why, rw (lex_end, Finished-last_item f, bad, e) refl)
  ]
  | inr good ↦ inr (eof_of f.last.type f.final good, rw (lex_end, Finished-last_item f, good) refl)
]

-- `lex` ends on every text, whichever runes beyond ASCII are letters: the fuel of the model, twice
-- the length of the text and two, does not run out, the access to the last item does not panic, and
-- a failure has an error that is not nil.
pub lex_returns :
    (is_wide : ℕ → Bool) (input : Bytes)
    → (lex is_wide input ≢ none)
      × (lex is_wide input ≢ some panic)
      × (lex is_wide input ≢ some (err none))
unfolding lex
lex_returns is_wide [] = (λ h. cc, λ h. cc, λ h. cc)
lex_returns is_wide (c ∷ cs) =
    let (l, e, f) = scan is_wide c cs in
    elim (lex_end-cases l f) [
      | inl (why, k) ↦ let found = e ∙ ap some k in (λ h. cc, λ h. cc, λ h. cc)
      | inr (_, k) ↦ let found = e ∙ ap some k in (λ h. cc, λ h. cc, λ h. cc)
    ]

-- If `lex` returns the lexer without an error, then its items stand in the order of the text and
-- begin within it, the last is the end of the file, and no other is an error or the end.
pub lex-IsTokenized :
    (is_wide : ℕ → Bool) (input : Bytes) (l : Lexer)
    → lex is_wide input ≡ some (ok l)
    → IsTokenized (length input) l.items
unfolding lex
lex-IsTokenized is_wide [] l h = cc
lex-IsTokenized is_wide (c ∷ cs) l h =
    let (m, e, f) = scan is_wide c cs in
    elim (lex_end-cases m f) [
      | inl (why, k) ↦ absurd (cc (e, ap some k, h))
      | inr (at_end, k) ↦
          let same : m ≡ l = cc (e, ap some k, h) in
          rw (← same) (record {
            body = f.body;
            last = f.last;
            items_are = f.items_are;
            inner = f.inner;
            at_end = at_end;
            sorted = rw f.items_are f.sorted;
            within = rw f.items_are f.within;
          })
    ]
