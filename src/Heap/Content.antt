-- ===== src/Heap/Content.antt =====
-- A heap holds what was pushed and not popped: every sum over the items, and every predicate on
-- all of them, is carried along.
use mathlib.Core.Option.{some-injective}
use graphjin_slim.Base.{
  not, ◌||◌, leb, ℕ, zero, suc, ◌+◌, ◌-◌, ◌*◌, ◌/◌, Bool, true, false, ◌≡◌, refl, ap, ◌∙◌, inl, inr,
  List, [], ◌∷◌, ◌++◌, Option, none, some, length, get_elem?, set, take, arith, ◌==◌, if◌then◌else◌,
  All, All-append, All-set, All-take, All-get_elem?, length-append, length-set, Option-cases,
  Bool-cases,
}
use graphjin_slim.Heap.{swap_values, swap, less_at, up, child, down, push, detach, pop}

module _ {ℓ} {A : Type ℓ} where
  pub length-swap : (xs : List A) (i j : ℕ) → length (swap xs i j) ≡ length xs
  unfolding swap_values
  length-swap xs i j = go (get_elem? xs i) (get_elem? xs j)
    where
      go : (a b : Option A) → length (swap_values xs i j a b) ≡ length xs
      go (some a) (some b) = length-set (set xs i b) j a ∙ length-set xs i b
      go (some a) none = refl
      go none b = refl

  -- The sum of `f` over the items. With `f` the indicator of a set it counts.
  abbrev pub total : (A → ℕ) → List A → ℕ
  total f [] = 0
  total f (x ∷ xs) = f x + total f xs

  pub total-append : (f : A → ℕ) (xs ys : List A) → total f (xs ++ ys) ≡ total f xs + total f ys
  total-append f [] ys = omega arith
  total-append f (x ∷ xs) ys = omega (arith, total-append f xs ys)

  total-set :
      (f : A → ℕ) (xs : List A) (i : ℕ) (a v : A)
      → get_elem? xs i ≡ some a
      → total f (set xs i v) + f a ≡ total f xs + f v
  total-set f [] i a v e = cc
  total-set f (x ∷ xs) zero a v e = omega (arith, ap f (some-injective _ _ e))
  total-set f (x ∷ xs) (suc i) a v e = omega (arith, total-set f xs i a v e)

  pub get_elem?-set :
      (xs : List A) (i j : ℕ) (a b v : A)
      → get_elem? xs i ≡ some a
      → get_elem? xs j ≡ some b
      → get_elem? (set xs i v) j ≡ (if i == j then some v else some b)
  get_elem?-set [] i j a b v e k = cc
  get_elem?-set (x ∷ xs) zero zero a b v e k = refl
  get_elem?-set (x ∷ xs) zero (suc j) a b v e k = ground arith
  get_elem?-set (x ∷ xs) (suc i) zero a b v e k = ground arith
  get_elem?-set (x ∷ xs) (suc i) (suc j) a b v e k = ground (arith, get_elem?-set xs i j a b v e k)

  total-swap_some :
      (f : A → ℕ) (xs : List A) (i j : ℕ) (a b : A)
      → get_elem? xs i ≡ some a
      → get_elem? xs j ≡ some b
      → total f (set (set xs i b) j a) ≡ total f xs
  total-swap_some f xs i j a b e k = elim (Bool-cases (i == j)) [
    | inl same ↦ omega (
      arith,
      total-set f (set xs i b) j b a (rw same at (get_elem?-set xs i j a b b e k)),
      total-set f xs i a b e,
    )
    | inr other ↦ omega (
      arith,
      total-set f (set xs i b) j b a (rw other at (get_elem?-set xs i j a b b e k)),
      total-set f xs i a b e,
    )
  ]

  pub total-swap : (f : A → ℕ) (xs : List A) (i j : ℕ) → total f (swap xs i j) ≡ total f xs
  unfolding swap_values
  total-swap f xs i j = elim (Option-cases (get_elem? xs i)) [
    | inl e ↦ rw (e, swap_values) refl
    | inr (a, e) ↦ elim (Option-cases (get_elem? xs j)) [
      | inl k ↦ rw (e, k, swap_values) refl
      | inr (b, k) ↦ rw (e, k, swap_values) (total-swap_some f xs i j a b e k)
    ]
  ]

  -- The same number of items, and the same sums.
  abbrev Keeps : List A → List A → Type ℓ
  Keeps xs ys = (length ys ≡ length xs) × ((f : A → ℕ) → total f ys ≡ total f xs)

  Keeps-swap : (xs ys : List A) (i j : ℕ) → Keeps xs ys → Keeps xs (swap ys i j)
  Keeps-swap xs ys i j (l, sums) = (length-swap ys i j ∙ l, λ f. total-swap f ys i j ∙ sums f)

  detach-cons :
      (x : A) (n : ℕ) (ys : List A) (y : A) (zs : List A) (o : Option A)
      → detach ys n o ≡ some (y, zs)
      → detach (x ∷ ys) (suc n) o ≡ some (y, x ∷ zs)
  unfolding detach
  detach-cons x n ys y zs none e = cc
  detach-cons x n ys y zs (some a) e = ground arith

  detach_lem :
      (n : ℕ) (ys : List A)
      → length ys ≡ suc n
      → (y : A) × (zs : List A) × (detach ys n (get_elem? ys n) ≡ some (y, zs))
        × (length zs ≡ n)
        × ((f : A → ℕ) → f y + total f zs ≡ total f ys)
  unfolding detach
  detach_lem n [] h = absurd (omega arith)
  detach_lem zero (y ∷ []) h = (y, [], refl, refl, λ f. omega arith)
  detach_lem zero (y ∷ z ∷ ys) h = absurd (omega arith)
  detach_lem (suc n) (x ∷ ys) h =
      let (y, zs, e, l, parts) = detach_lem n ys (omega arith) in
      (
        y,
        x ∷ zs,
        detach-cons x n ys y zs (get_elem? ys n) e,
        omega arith,
        λ f. omega (arith, parts f),
      )

module _ {ℓ} {A : Type ℓ} (less : A → A → Bool) where
  -- What every exchange keeps, the loops keep.
  up_rule {κ} :
      (Q : List A → Type κ)
      → ((xs : List A) (i j : ℕ) → Q xs → Q (swap xs i j))
      → (fuel : ℕ) (xs : List A) (j : ℕ) → Q xs
      → Q (up less fuel xs j)
  unfolding up
  up_rule Q keep zero xs j h = h
  up_rule Q keep (suc fuel) xs j h =
      let i = (j - 1) / 2 in
      elim (i == j || not (less_at less xs j i))
        as (λ b. Q (if b then xs else up less fuel (swap xs i j) i)) [
          | true ↦ h
          | false ↦ up_rule Q keep fuel (swap xs i j) i (keep xs i j h)
        ]

  down_rule {κ} :
      (Q : List A → Type κ)
      → ((xs : List A) (i j : ℕ) → Q xs → Q (swap xs i j))
      → (fuel : ℕ) (xs : List A) (i n : ℕ) → Q xs
      → Q (down less fuel xs i n)
  unfolding down
  down_rule Q keep zero xs i n h = h
  down_rule Q keep (suc fuel) xs i n h =
      let j = child less xs i n in
      elim (leb n (2 * i + 1) || not (less_at less xs j i))
        as (λ b. Q (if b then xs else down less fuel (swap xs i j) j n)) [
          | true ↦ h
          | false ↦ down_rule Q keep fuel (swap xs i j) j n (keep xs i j h)
        ]

  pub total-push : (f : A → ℕ) (xs : List A) (x : A) → total f (push less xs x) ≡ total f xs + f x
  unfolding push
  total-push f xs x =
      up_rule (λ ys. total f ys ≡ total f xs + f x) (λ ys i j h. total-swap f ys i j ∙ h)
        (length xs) (xs ++ (x ∷ [])) (length xs) (omega (arith, total-append f xs (x ∷ [])))

  pub length-push : (xs : List A) (x : A) → length (push less xs x) ≡ suc (length xs)
  unfolding push
  length-push xs x =
      up_rule (λ ys. length ys ≡ suc (length xs)) (λ ys i j h. length-swap ys i j ∙ h) (length xs)
        (xs ++ (x ∷ [])) (length xs) (omega (arith, length-append xs (x ∷ [])))

  pub pop-nil : pop less [] ≡ none
  unfolding pop
  pop-nil = refl

  -- `pop` is total on a heap with an item, and takes away exactly the item that it returns.
  pub pop-cons :
      (x : A) (xs : List A)
      → (y : A) × (ys : List A) × (pop less (x ∷ xs) ≡ some (y, ys))
        × (length ys ≡ length xs)
        × ((f : A → ℕ) → f y + total f ys ≡ f x + total f xs)
  unfolding pop
  pop-cons x xs =
      let n = suc (length xs) - 1 in
      let (kept, sums) =
        down_rule (Keeps (x ∷ xs)) (Keeps-swap (x ∷ xs)) n (swap (x ∷ xs) 0 n) 0 n
          (Keeps-swap (x ∷ xs) (x ∷ xs) 0 n (refl, λ f. refl)) in
      let (y, ys, e, l, parts) = detach_lem n (down less n (swap (x ∷ xs) 0 n) 0 n) (omega arith) in
      (y, ys, e, omega arith, λ f. parts f ∙ sums f)

module _ {ℓ κ} {A : Type ℓ} (P : A → Type κ) where
  All-swap : (xs : List A) (i j : ℕ) → All P xs → All P (swap xs i j)
  unfolding swap_values
  All-swap xs i j h = elim (Option-cases (get_elem? xs i)) [
    | inl e ↦ rw (e, swap_values) h
    | inr (a, e) ↦ elim (Option-cases (get_elem? xs j)) [
      | inl k ↦ rw (e, k, swap_values) h
      | inr (b, k) ↦
          rw (e, k, swap_values)
            (All-set P (set xs i b) j a (All-set P xs i b h (All-get_elem? P xs j h k))
              (All-get_elem? P xs i h e))
    ]
  ]

  All-detach :
      (n : ℕ) (ys : List A) (o : Option A) {y : A} {zs : List A}
      → All P ys
      → get_elem? ys n ≡ o
      → detach ys n o ≡ some (y, zs)
      → P y × All P zs
  unfolding detach
  All-detach n ys none h e k = cc
  All-detach n ys (some a) {y} {zs} h e k =
      let both : (y ≡ a) × (zs ≡ take n ys) = ground arith in
      rw (both.0, both.1) (All-get_elem? P ys n h e, All-take P n ys h)

module _ {ℓ κ} {A : Type ℓ} (less : A → A → Bool) (P : A → Type κ) where
  pub All-push : (xs : List A) (x : A) → All P xs → P x → All P (push less xs x)
  unfolding push
  All-push xs x h k =
      up_rule less (All P) (All-swap P) (length xs) (xs ++ (x ∷ [])) (length xs)
        (All-append P xs (x ∷ []) h (k, tt))

  pub All-pop :
      (xs : List A) {y : A} {ys : List A} → All P xs → pop less xs ≡ some (y, ys) → P y × All P ys
  unfolding pop
  All-pop xs h e =
      let n = length xs - 1 in
      All-detach P n (down less n (swap xs 0 n) 0 n) _
        (down_rule less (All P) (All-swap P) n (swap xs 0 n) 0 n (All-swap P xs 0 n h)) refl e
