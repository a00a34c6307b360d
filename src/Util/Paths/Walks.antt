-- ===== src/Util/Paths/Walks.antt =====
-- Walks along the connections of a graph (core/util/graph.go), and what one more node does to them.
use mathlib.Core.Path.{subst}
use graphjin_slim.Base.{
  ℕ, Bool, true, false, not, ◌&&◌, List, [], ◌∷◌, ◌++◌, ◌≡◌, refl, ◌⊎◌, inl, inr, sym, ap, some,
  get_elem?, elem, ◌==◌, arith, All, elem-append, get_or_of_get_elem?,
}
use graphjin_slim.Util.Graph.{Graph}
use graphjin_slim.Util.Graph.Agrees.{neighbours}
use graphjin_slim.Util.Paths.{PathItem, last_node, skips}

-- `b` is a connection of `a`
abbrev pub Edge : Graph → ℕ → ℕ → Type 0
Edge g a b = elem b (neighbours g a) ≡ true

-- The nodes `vs` follow `u`, each along a connection.
abbrev pub Chain : Graph → ℕ → List ℕ → Type 0
Chain g u [] = Unit {0}
Chain g u (v ∷ vs) = Edge g u v × Chain g v vs

abbrev pub last_of : ℕ → List ℕ → ℕ
last_of u [] = u
last_of u (v ∷ vs) = last_of v vs

abbrev pub tail : List ℕ → List ℕ
tail [] = []
tail (x ∷ xs) = xs

-- all but the last
abbrev pub init : List ℕ → List ℕ
init [] = []
init (x ∷ []) = []
init (x ∷ y ∷ ys) = x ∷ init (y ∷ ys)

abbrev pub distinct : List ℕ → Bool
distinct [] = true
distinct (x ∷ xs) = not (elem x xs) && distinct xs

pub last_node-cons : (u : ℕ) (vs : List ℕ) → last_node (u ∷ vs) ≡ last_of u vs
unfolding last_node
last_node-cons u [] = refl
last_node-cons u (v ∷ vs) = last_node-cons v vs

last_of-append : (u : ℕ) (vs : List ℕ) (e : ℕ) → last_of u (vs ++ (e ∷ [])) ≡ e
last_of-append u [] e = refl
last_of-append u (v ∷ vs) e = last_of-append v vs e

pub append_ne_nil : (vs : List ℕ) (e : ℕ) → ¬ (vs ++ (e ∷ []) ≡ [])
append_ne_nil [] e h = cc
append_ne_nil (v ∷ vs) e h = cc

pub init-append : (vs : List ℕ) (e : ℕ) → init (vs ++ (e ∷ [])) ≡ vs
init-append [] e = refl
init-append (x ∷ []) e = refl
init-append (x ∷ y ∷ ys) e = ap (◌∷◌ x) (init-append (y ∷ ys) e)

pub Chain-append :
    (g : Graph) (u : ℕ) (vs : List ℕ) (e : ℕ)
    → Chain g u vs
    → Edge g (last_of u vs) e
    → Chain g u (vs ++ (e ∷ []))
Chain-append g u [] e c h = (h, tt)
Chain-append g u (v ∷ vs) e c h = (c.0, Chain-append g v vs e c.1 h)

pub distinct-append :
    (vs : List ℕ) (e : ℕ)
    → distinct vs ≡ true
    → elem e vs ≡ false
    → distinct (vs ++ (e ∷ [])) ≡ true
distinct-append [] e d n = refl
distinct-append (x ∷ xs) e d n = ground (arith, elem-append x xs e, distinct-append xs e)

-- without `to` before the last node, and with another last node, `to` is not there at all
pub elem_of_init :
    (u to : ℕ) (vs : List ℕ)
    → elem to (init vs) ≡ false
    → (vs ≡ []) ⊎ ((last_of u vs == to) ≡ false)
    → elem to vs ≡ false
elem_of_init u to [] h k = refl
elem_of_init u to (x ∷ []) h (inl k) = cc
elem_of_init u to (x ∷ []) h (inr k) = ground arith
elem_of_init u to (x ∷ y ∷ ys) h (inl k) = cc
elem_of_init u to (x ∷ y ∷ ys) h (inr k) = ground (arith, elem_of_init x to (y ∷ ys) _ (inr k))

pub not_skipped :
    (p : PathItem) (to e : ℕ)
    → skips [] p to e ≡ false
    → (elem e p.visited && not (e == to)) ≡ false
unfolding skips
not_skipped p to e h = ground arith

All-elem :
    (xs ys : List ℕ)
    → ((e : ℕ) → elem e xs ≡ true → elem e ys ≡ true)
    → All (λ e. elem e ys ≡ true) xs
All-elem [] ys sub = tt
All-elem (x ∷ xs) ys sub = (sub x (ground arith), All-elem xs ys (λ e h. sub e (ground arith)))

pub row_edges :
    (g : Graph) (u : ℕ) (es : List ℕ) → get_elem? g.graph u ≡ some es → All (Edge g u) es
row_edges g u es row =
    subst (λ (found : List ℕ). All (λ e. elem e found ≡ true) es)
      (sym (get_or_of_get_elem? g.graph u [] row)) (All-elem es es (λ e h. h))
