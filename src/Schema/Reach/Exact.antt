-- ===== src/Schema/Reach/Exact.antt =====
-- core/sdata/graphmeta.go: `canReach` says which tables are reached.
use graphjin_slim.Base.{
  ℕ, zero, suc, ◌+◌, ◌≤◌, ◌<◌, Bool, true, List, [], ◌∷◌, ◌++◌, ◌≡◌, refl, sym, ◌∙◌, ◌↔◌, inl, inr,
  some, length, get_elem?, ◌==◌, arith, ==_iff, Bool-cases, ok, length-append,
}
use mathlib.Core.Path.{subst}
use graphjin_slim.Base.{Option-cases, lt-length_of_get_elem?}
use graphjin_slim.Util.Graph.{Graph}
use graphjin_slim.Schema.Reach.{bit, reach_from, Table, reach_loop, build_reachability, can_reach}
use graphjin_slim.Schema.Reach.Search.{Reaches, IsExactRow, reach_from-exact}

-- The rows of the first tables are right.
abbrev IsExactBelow : Graph → ℕ → ℕ → Table → Type 0
IsExactBelow g n k rows = (a b : ℕ) → a < k → (can_reach rows a b ≡ true) ↔ Reaches g n a b

get_elem?-append-left {ℓ} :
    {A : Type ℓ} (xs ys : List A) (i : ℕ) → i < length xs → get_elem? (xs ++ ys) i ≡ get_elem? xs i
get_elem?-append-left [] ys i h = absurd (omega arith)
get_elem?-append-left (x ∷ xs) ys zero h = refl
get_elem?-append-left (x ∷ xs) ys (suc i) h = get_elem?-append-left xs ys i (omega arith)

get_elem?-append-last {ℓ} :
    {A : Type ℓ} (xs : List A) (x : A) (i : ℕ)
    → i ≡ length xs
    → get_elem? (xs ++ (x ∷ [])) i ≡ some x
get_elem?-append-last [] x zero h = refl
get_elem?-append-last [] x (suc i) h = absurd (omega arith)
get_elem?-append-last (y ∷ xs) x zero h = absurd (omega arith)
get_elem?-append-last (y ∷ xs) x (suc i) h = get_elem?-append-last xs x i (omega arith)

IsExactBelow-more :
    (g : Graph) (n k : ℕ) (rows : Table) (bits : List (List Bool))
    → length rows ≡ k
    → IsExactBelow g n k rows
    → IsExactRow g n k bits
    → IsExactBelow g n (suc k) (rows ++ (bits ∷ []))
unfolding can_reach
IsExactBelow-more g n k rows bits size h r a b below = elim (Bool-cases (a == k)) [
  | inr e ↦
      let old : get_elem? (rows ++ (bits ∷ [])) a ≡ get_elem? rows a =
        get_elem?-append-left rows (bits ∷ []) a (ground (arith, e, size, below)) in
      let same : can_reach (rows ++ (bits ∷ [])) a b ≡ can_reach rows a b =
        rw (can_reach, old) refl in
      let exact = h a b (ground (arith, e, below)) in
      (λ t. exact.0 (sym same ∙ t), λ t. same ∙ exact.1 t)
  | inl e ↦
      let at : a ≡ k = (==_iff a k).0 e in
      let new : get_elem? (rows ++ (bits ∷ [])) a ≡ some bits =
        get_elem?-append-last rows bits a (at ∙ sym size) in
      let same : can_reach (rows ++ (bits ∷ [])) a b ≡ bit bits b = rw (can_reach, new) refl in
      (
        λ t. subst (λ x. Reaches g n x b) (sym at) ((r b).0 (sym same ∙ t)),
        λ t. same ∙ (r b).1 (subst (λ x. Reaches g n x b) at t),
      )
]

loop_step :
    (rounds : ℕ) (g : Graph) (n src : ℕ) (rows : Table) (bits : List (List Bool))
    → reach_from g n src ≡ some (ok bits)
    → reach_loop (suc rounds) g n src rows ≡ reach_loop rounds g n (suc src) (rows ++ (bits ∷ []))
unfolding reach_loop
loop_step rounds g n src rows bits e = rw (reach_loop, e) refl

reach_loop-exact :
    (rounds : ℕ) (g : Graph) (n src : ℕ) (rows : Table)
    → n ≤ length g.graph
    → src + rounds ≡ n
    → length rows ≡ src
    → IsExactBelow g n src rows
    → (out : Table) × (reach_loop rounds g n src rows ≡ some (ok out))
      × (length out ≡ n)
      × IsExactBelow g n n out
unfolding reach_loop
reach_loop-exact zero g n src rows size total long h =
    (rows, refl, omega arith, subst (λ k. IsExactBelow g n k rows) (omega arith) h)
reach_loop-exact (suc rounds) g n src rows size total long h =
    let (bits, returns, exact) = reach_from-exact g n src size (omega arith) in
    let (out, ends, full, right) =
      reach_loop-exact rounds g n (suc src) (rows ++ (bits ∷ [])) size (omega arith)
        (omega (arith, length-append rows (bits ∷ [])))
        (IsExactBelow-more g n src rows bits long h exact) in
    (out, loop_step rounds g n src rows bits returns ∙ ends, full, right)

reach_below : (rows : Table) (a b : ℕ) → can_reach rows a b ≡ true → a < length rows
unfolding can_reach
reach_below rows a b e = elim (Option-cases (get_elem? rows a)) [
  | inl k ↦ cc
  | inr (bits, k) ↦ lt-length_of_get_elem? rows a k
]

-- On a graph with a node for each of the `n` tables `buildReachability` returns, without a panic and
-- with `n` rounds and one of each queue, and then `canReach` holds of two ids exactly if the first is
-- that of a table and one connection or more, all among the tables, lead from it to the second.
pub build_reachability-exact :
    (g : Graph) (n : ℕ)
    → n ≤ length g.graph
    → (rows : Table) × (build_reachability g n ≡ some (ok rows))
      × ((a b : ℕ) → (can_reach rows a b ≡ true) ↔ ((a < n) × Reaches g n a b))
unfolding build_reachability
build_reachability-exact g n size =
    let (rows, returns, full, right) =
      reach_loop-exact n g n 0 [] size (omega arith) refl (λ a b below. absurd (omega arith)) in
    (
      rows,
      returns,
      λ a b. (
        λ e.
            let below : a < n = omega (arith, reach_below rows a b e, full) in
            (below, (right a b below).0 e),
        λ (below, r). (right a b below).1 r,
      ),
    )
