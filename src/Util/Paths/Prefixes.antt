-- ===== src/Util/Paths/Prefixes.antt =====
-- The paths that an item of the search leads to: lists that begin with its nodes.
use mathlib.Core.Path.{subst}
use graphjin_slim.Base.{
  ℕ, ◌≤◌, Bool, true, false, ◌&&◌, ◌||◌, List, [], ◌∷◌, ◌++◌, ◌≡◌, refl, sym, ap, elem, ◌==◌,
  if◌then◌else◌, arith, ==_iff,
}
use graphjin_slim.Util.Graph.{Graph}
use graphjin_slim.Util.Paths.{PathItem, extend}
use graphjin_slim.Util.Paths.Walks.{Edge, Chain, last_of, distinct}

abbrev pub prefix_of : List ℕ → List ℕ → Bool
prefix_of [] ys = true
prefix_of (x ∷ xs) [] = false
prefix_of (x ∷ xs) (y ∷ ys) = x == y && prefix_of xs ys

pub prefix_rest : (xs ys : List ℕ) → prefix_of xs ys ≡ true → (tl : List ℕ) × (ys ≡ xs ++ tl)
prefix_rest [] ys h = (ys, refl)
prefix_rest (x ∷ xs) [] h = cc
prefix_rest (x ∷ xs) (y ∷ ys) h =
    let (tl, e) = prefix_rest xs ys (ground arith) in (tl, ground (arith, ==_iff x y))

pub prefix_of-append : (xs tl : List ℕ) → prefix_of xs (xs ++ tl) ≡ true
prefix_of-append [] tl = refl
prefix_of-append (x ∷ xs) tl = ground (arith, prefix_of-append xs tl, ==_iff x x)

pub append_assoc-cons :
    (xs : List ℕ) (e : ℕ) (tl : List ℕ) → xs ++ (e ∷ tl) ≡ (xs ++ (e ∷ [])) ++ tl
append_assoc-cons [] e tl = refl
append_assoc-cons (x ∷ xs) e tl = ap (◌∷◌ x) (append_assoc-cons xs e tl)

-- 1 for an item that may grow into `w`
abbrev pub leads_to : List ℕ → PathItem → ℕ
leads_to w p = if prefix_of p.nodes w then 1 else 0

-- Chains, split at a place.
pub Chain_next :
    (g : Graph) (u : ℕ) (vs : List ℕ) (e : ℕ) (tl : List ℕ)
    → Chain g u (vs ++ (e ∷ tl))
    → Edge g (last_of u vs) e
Chain_next g u [] e tl c = c.0
Chain_next g u (v ∷ vs) e tl c = Chain_next g v vs e tl c.1

pub elem-middle :
    (x : ℕ) (vs : List ℕ) (e : ℕ) (tl : List ℕ)
    → elem x (vs ++ (e ∷ tl)) ≡ (elem x vs || (e == x || elem x tl))
elem-middle x [] e tl = refl
elem-middle x (v ∷ vs) e tl = ground (arith, elem-middle x vs e tl)

-- the node behind a prefix of different nodes is not in the prefix
pub distinct_next :
    (vs : List ℕ) (e : ℕ) (tl : List ℕ) → distinct (vs ++ (e ∷ tl)) ≡ true → elem e vs ≡ false
distinct_next [] e tl d = refl
distinct_next (v ∷ vs) e tl d =
    ground (arith, distinct_next vs e tl, elem-middle v vs e tl, ==_iff e v, ==_iff v e)

elem-last_of : (t : ℕ) (ts : List ℕ) → elem (last_of t ts) (t ∷ ts) ≡ true
elem-last_of t [] = ground (arith, ==_iff t t)
elem-last_of t (x ∷ xs) = ground (arith, elem-last_of x xs)

-- If the last node is the last of a part already, nothing is behind that part.
pub last_ends :
    (v : ℕ) (vs tl : List ℕ)
    → distinct (v ∷ (vs ++ tl)) ≡ true
    → last_of v vs ≡ last_of v (vs ++ tl)
    → tl ≡ []
last_ends v [] [] d h = refl
last_ends v [] (t ∷ ts) d h =
    let there : elem v (t ∷ ts) ≡ true =
      subst (λ x. elem x (t ∷ ts) ≡ true) (sym h) (elem-last_of t ts) in
    ground (arith, there)
last_ends v (x ∷ xs) tl d h = last_ends x xs tl (ground arith) h

pub one_start : (w : List ℕ) (p : PathItem) → prefix_of p.nodes w ≡ true → 1 ≤ leads_to w p
one_start w p h = ground arith

pub one_of :
    (w : List ℕ) (p : PathItem) (e : ℕ)
    → prefix_of (p.nodes ++ (e ∷ [])) w ≡ true
    → 1 ≤ leads_to w (extend p e)
unfolding extend
one_of w p e h = ground arith
