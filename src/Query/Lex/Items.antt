-- ===== src/Query/Lex/Items.antt =====
-- The items that the lexer has emitted: their order, and what emitting one more does.
use graphjin_slim.Base.{
  ℕ, zero, suc, ◌-◌, ◌≤◌, Bool, true, false, List, [], ◌∷◌, ◌++◌, ◌≡◌, refl, ap, ◌∙◌, inl, inr,
  Option, none, some, Bytes, length, arith, All, All-append, Bool-cases,
}
use graphjin_slim.Query.Cursor.{
  MType, item_error, item_eof, Item, LexError, Lexer, is_string, emit, emit_with, emit_lower,
  lowercase_range, ignore, errorf,
}
use graphjin_slim.Query.Lex.Reads.{Moves}

abbrev pub is_final : MType → Bool
is_final item_error = true
is_final item_eof = true
is_final _ = false

abbrev pub IsInner : Item → Type 0
IsInner i = is_final i.type ≡ false

abbrev pub StartsBy : ℕ → Item → Type 0
StartsBy n i = i.pos ≤ n

-- The items stand in the order of the text.
abbrev pub Sorted : List Item → Type 0
Sorted [] = Unit
Sorted (i ∷ is) = All (λ j. i.pos ≤ j.pos) is × Sorted is

All-below : (a b : ℕ) → a ≤ b → (is : List Item) → All (StartsBy a) is → All (StartsBy b) is
All-below a b h [] k = tt
All-below a b h (i ∷ is) k = (omega (arith, k.0), All-below a b h is k.1)

Sorted-append :
    (is : List Item) (i : Item) → Sorted is → All (StartsBy i.pos) is → Sorted (is ++ (i ∷ []))
Sorted-append [] i h k = (tt, tt)
Sorted-append (j ∷ is) i h k =
    (All-append (λ x. j.pos ≤ x.pos) is (i ∷ []) h.0 (k.0, tt), Sorted-append is i h.1 k.1)

-- The state between two steps, over an input of `n` bytes.
pub record Fine (n : ℕ) (l : Lexer) : Type 0 where
  pub size : length l.input ≡ n
  pub started : l.start ≤ l.pos
  pub bounded : l.pos ≤ n
  pub below : All (StartsBy l.start) l.items
  pub sorted : Sorted l.items
  pub inner : All IsInner l.items

abbrev pub is_some {ℓ} : {A : Type ℓ} → Option A → Bool
is_some none = false
is_some (some _) = true

-- The state in which the scanner stops: one final item behind all others.
pub record Finished (n : ℕ) (l : Lexer) : Type 0 where
  pub body : List Item
  pub last : Item
  pub items_are : l.items ≡ body ++ (last ∷ [])
  pub inner : All IsInner body
  pub final : is_final last.type ≡ true
  pub reason : last.type ≡ item_error → is_some l.error ≡ true
  pub sorted : Sorted (body ++ (last ∷ []))
  pub within : All (StartsBy n) (body ++ (last ∷ []))

pub Fine-Moves : {n : ℕ} {l m : Lexer} → Fine n l → Moves l m → Fine n m
Fine-Moves f a = record {
  size = ap length a.input_is ∙ f.size;
  started = omega (arith, a.start_is, f.started, a.forward);
  bounded = omega (arith, a.bounded, f.size);
  below = rw (a.items_are, a.start_is) f.below;
  sorted = rw a.items_are f.sorted;
  inner = rw a.items_are f.inner;
}

pub inside : {n : ℕ} {l : Lexer} → Fine n l → l.pos ≤ length l.input
inside f = omega (arith, f.bounded, f.size)

pub Fine-ignore : {n : ℕ} {l : Lexer} → Fine n l → Fine n (ignore l)
unfolding ignore
Fine-ignore {n} {l} f = record {
  size = f.size;
  started = omega arith;
  bounded = f.bounded;
  below = All-below l.start l.pos f.started l.items f.below;
  sorted = f.sorted;
  inner = f.inner;
}

pub ignore-pos : (l : Lexer) → (ignore l).pos ≡ l.pos
unfolding ignore
ignore-pos l = refl

-- `emit` adds one item at `start`, whatever its type.
pub emit_is : (t : MType) (l : Lexer) → (v : Bytes) × (k : ℕ) × (emit t l ≡ emit_with t v k l)
unfolding emit
emit_is t l = elim (Bool-cases (is_string t)) [
  | inl e ↦ rw e (_, _, refl)
  | inr e ↦ rw e (_, _, refl)
]

pub Fine-emit : {n : ℕ} {l : Lexer} (t : MType) → is_final t ≡ false → Fine n l → Fine n (emit t l)
Fine-emit {n} {l} t h f =
    let (v, k, e) = emit_is t l in
    let item : Item = record { type = t; pos = l.start; val = v; line = k } in
    rw e (record {
      size = f.size;
      started = omega arith;
      bounded = f.bounded;
      below =
          All-append (StartsBy l.pos) l.items (item ∷ [])
            (All-below l.start l.pos f.started l.items f.below) (f.started, tt);
      sorted = Sorted-append l.items item f.sorted f.below;
      inner = All-append IsInner l.items (item ∷ []) f.inner (h, tt);
    })

pub emit-pos : (t : MType) (l : Lexer) → (emit t l).pos ≡ l.pos
emit-pos t l = let (v, k, e) = emit_is t l in rw e refl

length-lowercase_range : (skip n : ℕ) (xs : Bytes) → length (lowercase_range skip n xs) ≡ length xs
unfolding lowercase_range
length-lowercase_range skip n [] = refl
length-lowercase_range (suc skip) n (c ∷ cs) = ap suc (length-lowercase_range skip n cs)
length-lowercase_range zero zero (c ∷ cs) = refl
length-lowercase_range zero (suc n) (c ∷ cs) = ap suc (length-lowercase_range zero n cs)

pub Fine-emit_lower :
    {n : ℕ} {l : Lexer} (t : MType) → is_final t ≡ false → Fine n l → Fine n (emit_lower t l)
unfolding emit_lower
Fine-emit_lower {n} {l} t h f = Fine-emit t h (record {
  size = length-lowercase_range l.start (l.pos - l.start) l.input ∙ f.size;
  started = f.started;
  bounded = f.bounded;
  below = f.below;
  sorted = f.sorted;
  inner = f.inner;
})

pub emit_lower-pos : (t : MType) (l : Lexer) → (emit_lower t l).pos ≡ l.pos
unfolding emit_lower
emit_lower-pos t l = emit-pos t _

final_item :
    {n : ℕ} {l : Lexer} (m : Lexer) (i : Item)
    → Fine n l
    → i.pos ≡ l.start
    → m.items ≡ l.items ++ (i ∷ [])
    → is_final i.type ≡ true
    → (i.type ≡ item_error → is_some m.error ≡ true)
    → Finished n m
final_item {n} {l} m i f at_start items_are final reason = record {
  body = l.items;
  last = i;
  items_are = items_are;
  inner = f.inner;
  final = final;
  reason = reason;
  sorted = Sorted-append l.items i f.sorted (rw at_start f.below);
  within =
      All-append (StartsBy n) l.items (i ∷ [])
        (All-below l.start n (omega (arith, f.started, f.bounded)) l.items f.below)
        (omega (arith, at_start, f.started, f.bounded), tt);
}

pub eof-Finished : {n : ℕ} {l : Lexer} → Fine n l → Finished n (emit item_eof l)
eof-Finished {n} {l} f =
    let (v, k, e) = emit_is item_eof l in rw e (final_item _ _ f refl refl refl (λ h. cc))

pub errorf-Finished : {n : ℕ} {l : Lexer} (e : LexError) → Fine n l → Finished n (errorf e l)
unfolding errorf
errorf-Finished e f = final_item _ _ f refl refl refl (λ h. refl)
