-- ===== src/Schema/Reach/Pruning.antt =====
-- core/sdata: `resolvePathPair` asks `canReach` before it searches, which loses no path.
use graphjin_slim.Base.{
  ℕ, ◌<◌, Bool, true, List, [], ◌∷◌, ◌++◌, ◌≡◌, ◌≢◌, refl, sym, ap, ◌∙◌, inl, inr, Option, some,
  Bytes, length, get_elem?, elem, arith, ==_iff, Option-cases, Outcome, ok, All, All-get_elem?,
  get_or_of_get_elem?, lt-length_of_get_elem?,
}
use graphjin_slim.Util.Graph.{Graph, GraphError, connections, Edge}
use graphjin_slim.Util.Graph.Built.{Built, Built-IsSound}
use graphjin_slim.Schema.Path.{PathOptions, EdgeInfo, DbSchema, shortest_path_edges}
use graphjin_slim.Schema.Path.Chain.{In, In-All, here, there, IsStep, Chain, begins, goes_on}
use graphjin_slim.Schema.Path.Reached.{shortest_path_edges-IsPathBetween}
use graphjin_slim.Schema.Reach.{Table, build_reachability, can_reach}
use graphjin_slim.Schema.Reach.Search.{row_of, Reaches, one, further}
use graphjin_slim.Schema.Reach.Exact.{build_reachability-exact}

elem_of_In : (v : ℕ) (vs : List ℕ) → In v vs → elem v vs ≡ true
elem_of_In v _ (here {xs}) = ground (arith, (==_iff v v).1 refl)
elem_of_In v _ (there {x} {xs} h) = ground (arith, elem_of_In v xs h)

connected_row :
    (g : Graph) (u : ℕ) (row : List ℕ) → connections g u ≡ ok row → get_elem? g.graph u ≡ some row
unfolding connections
connected_row g u row e = elim (Option-cases (get_elem? g.graph u)) [
  | inl k ↦ cc
  | inr (found, k) ↦ cc
]

append_not_nil : (es : List ℕ) (x : ℕ) → es ++ (x ∷ []) ≡ [] → ⊥
append_not_nil [] x e = cc
append_not_nil (y ∷ es) x e = cc

module _ (equal_fold : Bytes → Bytes → Bool) (s : DbSchema) (from to : EdgeInfo)
    (opts : PathOptions) (built : Built s.graph) where
  abbrev size : ℕ
  size = length s.graph.graph

  -- A step of a path is a connection between two tables.
  step_connects :
      (u prev v : ℕ) (edges : List ℕ) (line : Edge)
      → IsStep equal_fold s from to opts u prev edges v line
      → (u < size) × (elem v (row_of s.graph u) ≡ true) × (v < size)
  step_connects u prev v edges line h =
      let e = connected_row s.graph u h.neighbours h.connected in
      (
        lt-length_of_get_elem? s.graph.graph u e,
        ap (elem v) (get_or_of_get_elem? s.graph.graph u [] e) ∙ elem_of_In v h.neighbours h.next,
        In-All (λ w. w < size) v h.neighbours
            (All-get_elem? (All (λ w. w < size)) s.graph.graph u (Built-IsSound built).within e)
            h.next,
      )

  Chain-Reaches :
      (v last : ℕ) (seen : Bool) (edges : List ℕ)
      → Chain equal_fold s from to opts v last seen edges
      → edges ≢ []
      → (from.node_id < size) × Reaches s.graph size from.node_id v
  Chain-Reaches _ _ _ _ begins some_edge = absurd (some_edge refl)
  Chain-Reaches _ _ _ _ (goes_on {u} {prev} {v} {edges = es} line begins step) some_edge =
      let (start, k, b) = step_connects u prev v es line step in (start, one k b)
  Chain-Reaches _ _ _ _
        (goes_on {u} {prev} {v} {seen} {edges = es} line (goes_on {edges = fs} before c t) step)
        some_edge =
      let (start, r) =
        Chain-Reaches u prev seen es (goes_on before c t) (λ e. append_not_nil fs before.id e) in
      let (_, k, b) = step_connects u prev v es line step in (start, further r k b)

some_table :
    (o : Option (Outcome GraphError Table)) (r t : Table)
    → o ≡ some (ok r)
    → o ≡ some (ok t)
    → r ≡ t
some_table o r t h k = cc

-- On a graph that the operations built, with a node for each table, a path that the search finds is
-- not cut off by the test of `canReach` in front of it: between its two tables `canReach` holds, of
-- the table that `buildReachability` returns.
pub shortest_path_edges-can_reach :
    (equal_fold : Bytes → Bytes → Bool) (s : DbSchema) (from to : EdgeInfo) (opts : PathOptions)
    (edges : List ℕ) (rows : Table)
    → Built s.graph
    → build_reachability s.graph (length s.graph.graph) ≡ some (ok rows)
    → shortest_path_edges equal_fold s from to opts ≡ ok edges
    → can_reach rows from.node_id to.node_id ≡ true
shortest_path_edges-can_reach equal_fold s from to opts edges rows built e found =
    let path = shortest_path_edges-IsPathBetween equal_fold s from to opts edges found in
    let reached =
      Chain-Reaches equal_fold s from to opts built to.node_id path.last path.seen edges path.chain
        path.not_empty in
    let (out, returns, exact) =
      build_reachability-exact s.graph (length s.graph.graph) (omega arith) in
    let same : out ≡ rows =
      some_table (build_reachability s.graph (length s.graph.graph)) out rows returns e in
    ap (λ t. can_reach t from.node_id to.node_id) (sym same)
    ∙ (exact from.node_id to.node_id).1 reached
