-- ===== src/Query/Stack/View.antt =====
-- A stack is the list of its items, the top first.
use graphjin_slim.Base.{
  ℕ, zero, suc, ◌+◌, ◌-◌, ◌≤◌, ◌<◌, List, [], ◌∷◌, ◌++◌, ◌≡◌, refl, sym, ap, ◌∙◌, inl, inr, Option,
  none, some, length, get_elem?, set, leb, arith, Bool-cases, length-append, length-set,
}
use graphjin_slim.Query.Stack.{Stack, len, top_of, peek, pop, push}

abbrev pub head? {ℓ} : {A : Type ℓ} → List A → Option A
head? [] = none
head? (x ∷ xs) = some x

abbrev pub tail {ℓ} : {A : Type ℓ} → List A → List A
tail [] = []
tail (x ∷ xs) = xs

module _ {ℓ} {A : Type ℓ} where
  -- the first `n` items, the last of them first
  abbrev pub top_first : ℕ → List A → List A → List A
  top_first zero xs below = below
  top_first (suc n) [] below = below
  top_first (suc n) (x ∷ xs) below = top_first n xs (x ∷ below)

  abbrev pub view : Stack A → List A
  view s = top_first s.used s.st []

  abbrev pub IsStack : Stack A → Type 0
  IsStack s = s.used ≤ length s.st

  get_elem?-top_first :
      (n : ℕ) (xs below : List A)
      → suc n ≤ length xs
      → (x : A) × (get_elem? xs n ≡ some x)
        × (top_first (suc n) xs below ≡ x ∷ top_first n xs below)
  get_elem?-top_first n [] below h = absurd (omega arith)
  get_elem?-top_first zero (x ∷ xs) below h = (x, refl, refl)
  get_elem?-top_first (suc n) (x ∷ xs) below h = get_elem?-top_first n xs (x ∷ below) (omega arith)

  top_first-append :
      (n : ℕ) (xs : List A) (x : A) (below : List A)
      → n ≡ length xs
      → top_first (suc n) (xs ++ (x ∷ [])) below ≡ x ∷ top_first n xs below
  top_first-append zero [] x below e = refl
  top_first-append (suc n) [] x below e = absurd (omega arith)
  top_first-append zero (y ∷ xs) x below e = absurd (omega arith)
  top_first-append (suc n) (y ∷ xs) x below e = top_first-append n xs x (y ∷ below) (omega arith)

  top_first-set :
      (n : ℕ) (xs : List A) (x : A) (below : List A)
      → n < length xs
      → top_first (suc n) (set xs n x) below ≡ x ∷ top_first n xs below
  top_first-set n [] x below h = absurd (omega arith)
  top_first-set zero (y ∷ xs) x below h = refl
  top_first-set (suc n) (y ∷ xs) x below h = top_first-set n xs x (y ∷ below) (omega arith)

  pub length-view : (s : Stack A) → IsStack s → s.used ≡ length (view s)
  length-view s h = omega (arith, go s.used s.st [] h)
    where
      go :
          (n : ℕ) (xs below : List A)
          → n ≤ length xs
          → length (top_first n xs below) ≡ n + length below
      go zero xs below h = omega arith
      go (suc n) [] below h = absurd (omega arith)
      go (suc n) (x ∷ xs) below h = omega (arith, go n xs (x ∷ below) (omega arith))

  pub view-top_of : (n : ℕ) (xs : List A) → n ≤ length xs → top_of xs n ≡ head? (top_first n xs [])
  unfolding top_of
  view-top_of zero xs h = refl
  view-top_of (suc n) xs h = let (x, e, v) = get_elem?-top_first n xs [] h in e ∙ sym (ap head? v)

  pub view-pop :
      (n : ℕ) (xs : List A) → n ≤ length xs → top_first (n - 1) xs [] ≡ tail (top_first n xs [])
  view-pop zero xs h = refl
  view-pop (suc n) xs h =
      let (x, e, v) = get_elem?-top_first n xs [] h in
      let one_less : suc n - 1 ≡ n = omega arith in
      ap (λ k. top_first k xs []) one_less ∙ sym (ap tail v)

  pub view-push : (s : Stack A) (x : A) → IsStack s → view (push s x) ≡ x ∷ view s
  unfolding push
  view-push s x h = elim (Bool-cases (leb (length s.st) s.used)) [
    | inl e ↦ rw (push, e) (top_first-append s.used s.st x [] (ground arith))
    | inr e ↦ rw (push, e) (top_first-set s.used s.st x [] (ground arith))
  ]

  pub push-IsStack : (s : Stack A) (x : A) → IsStack s → IsStack (push s x)
  unfolding push
  push-IsStack s x h = elim (Bool-cases (leb (length s.st) s.used)) [
    | inl e ↦ rw (push, e) (omega (arith, length-append s.st (x ∷ [])))
    | inr e ↦ rw (push, e) (ground (arith, length-set s.st s.used x))
  ]

  -- What the operations do to the list of the items.
  pub record Implements (s : Stack A) (x : A) : Type ℓ where
    pub counts : len s ≡ length (view s)
    pub peeks : peek s ≡ head? (view s)
    pub pops : (pop s).0 ≡ head? (view s)
    pub popped : view (pop s).1 ≡ tail (view s)
    pub pushed : view (push s x) ≡ x ∷ view s
    pub popped-IsStack : IsStack (pop s).1
    pub pushed-IsStack : IsStack (push s x)

-- A stack whose slice holds at least the items in use is the list of them, the top first: `Len`
-- counts them, `Peek` and `Pop` return the first, `Pop` leaves the others and `Push` puts one in
-- front, whatever is left in the slice above the top, and `Pop` and `Push` keep such a stack.
pub stack-Implements {ℓ} : {A : Type ℓ} (s : Stack A) (x : A) → IsStack s → Implements s x
unfolding len peek pop
stack-Implements s x h = record {
  counts = length-view s h;
  peeks = view-top_of s.used s.st h;
  pops = view-top_of s.used s.st h;
  popped = view-pop s.used s.st h;
  pushed = view-push s x h;
  popped-IsStack = omega arith;
  pushed-IsStack = push-IsStack s x h;
}
