-- ===== src/Util/Graph/Each.antt =====
-- core/util/graph.go: what holds of each line of a graph holds of those that `GetEdges` returns.
use mathlib.Core.Path.{subst}
use graphjin_slim.Base.{ℕ, List, [], ◌∷◌, inl, inr, Bool-cases, All, ==_iff, and_left, and_right}
use graphjin_slim.Util.Graph.{Edge, Lines, Graph, is_key, lookup, lines_or_nil, get_edges}

-- of each line, with the nodes that it joins
abbrev pub OfEachLine : (ℕ → ℕ → Edge → Type 0) → List Lines → Type 0
OfEachLine P = All (λ l. All (P l.source l.target) l.lines)

All-lookup :
    (P : ℕ → ℕ → Edge → Type 0) (ls : List Lines) (from to : ℕ)
    → OfEachLine P ls
    → All (P from to) (lines_or_nil (lookup ls from to))
unfolding lookup
All-lookup P [] from to all = tt
All-lookup P (l ∷ ls) from to (here, all) = elim (Bool-cases (is_key from to l)) [
  | inr k ↦ rw (lookup, k) (All-lookup P ls from to all)
  | inl k ↦
      rw (lookup, k)
        (subst (λ n. All (P n to) l.lines) ((==_iff l.source from).0 (and_left _ _ k))
          (subst (λ n. All (P l.source n) l.lines) ((==_iff l.target to).0 (and_right _ _ k)) here))
]

pub All-get_edges :
    (P : ℕ → ℕ → Edge → Type 0) (g : Graph) (from to : ℕ)
    → OfEachLine P g.edges
    → All (P from to) (get_edges g from to)
unfolding get_edges
All-get_edges P g from to all = All-lookup P g.edges from to all
