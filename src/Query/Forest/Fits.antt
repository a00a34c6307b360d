-- ===== src/Query/Forest/Fits.antt =====
-- core/graph/stack.go: the stack of the open selections in `parseFields`, which holds ids of fields.
use graphjin_slim.Base.{ℕ, ◌≤◌, ◌<◌, List, [], ◌∷◌, sym, arith, All, All-map}
use mathlib.Core.Path.{subst}
use graphjin_slim.Query.Stack.{Stack, new_stack, len, pop, push}
use graphjin_slim.Query.Stack
use graphjin_slim.Query.Stack.View.{
  head?, tail, view, IsStack, view-top_of, view-pop, view-push, push-IsStack,
}
use graphjin_slim.Query.Forest.Place.{Below}

-- A stack of ids of fields, of which there are `n`.
pub record Fits (st : Stack ℕ) (n : ℕ) : Type 0 where
  pub whole : IsStack st
  pub ids : All (λ i. i < n) (view st)

pub Fits-peek : (st : Stack ℕ) (n : ℕ) → Fits st n → Below (Stack.peek st) n
unfolding Stack.peek
Fits-peek st n h =
    subst (λ o. Below o n) (sym (view-top_of st.used st.st h.whole)) (go (view st) h.ids)
  where
    go : (is : List ℕ) → All (λ i. i < n) is → Below (head? is) n
    go [] h = tt
    go (i ∷ is) h = h.0

pub Fits-pop : (st : Stack ℕ) (n : ℕ) → Fits st n → Fits (pop st).1 n
unfolding pop
Fits-pop st n h = record {
  whole = omega (arith, h.whole);
  ids = subst (All (λ i. i < n)) (sym (view-pop st.used st.st h.whole)) (go (view st) h.ids);
}
  where
    go : (is : List ℕ) → All (λ i. i < n) is → All (λ i. i < n) (tail is)
    go [] h = tt
    go (i ∷ is) h = h.1

pub Fits-more : (st : Stack ℕ) (m n : ℕ) → m ≤ n → Fits st m → Fits st n
Fits-more st m n le h = record {
  whole = h.whole;
  ids = All-map (λ i. i < m) (λ i. i < n) (view st) (λ i b. omega (arith, b)) h.ids;
}

pub Fits-push : (st : Stack ℕ) (n i : ℕ) → i < n → Fits st n → Fits (push st i) n
Fits-push st n i b h = record {
  whole = push-IsStack st i h.whole;
  ids = subst (All (λ j. j < n)) (sym (view-push st i h.whole)) (b, h.ids);
}
