-- ===== src/Util/Graph.antt =====
-- core/util/graph.go: the multigraph of relationships, without `AllPaths`. An `int32` is its bit
-- pattern (Base.Int32), the map of edges is an association list and a slice is a list.
pub mod Agrees
pub mod Each
pub mod Built
use Prim.Native.String.{String}
use graphjin_slim.Base.{
  ℕ, ◌+◌, Bool, true, false, ◌&&◌, List, [], ◌∷◌, ◌++◌, Option, none, some, Outcome, ok, err, panic,
  length, get_elem?, set, ltb, ◌==◌, if◌then◌else◌,
}
use graphjin_slim.Base.Int32.{of_int, incr, minus_one, sge, is_negative}

pub record Edge : Type 0 where
  pub id : ℕ
  pub opp_id : ℕ
  pub weight : ℕ
  pub name : String

-- the entry of `edges` for one pair of nodes
pub record Lines : Type 0 where
  pub source : ℕ
  pub target : ℕ
  pub lines : List Edge

pub record Graph : Type 0 where
  pub edge_id : ℕ
  pub edges : List Lines
  pub graph : List (List ℕ)

pub data GraphError : Type 0 where
  from_missing : ℕ → GraphError
  to_missing : ℕ → GraphError
  no_edges : ℕ → ℕ → GraphError
  edge_missing : ℕ → GraphError

abbrev pub is_key : ℕ → ℕ → Lines → Bool
is_key from to l = l.source == from && l.target == to

-- `edges[key]`, with its `ok`
pub lookup : List Lines → ℕ → ℕ → Option (List Edge)
lookup [] from to = none
lookup (l ∷ ls) from to = if is_key from to l then some l.lines else lookup ls from to

-- `edges[key] = lines`
pub store : List Lines → ℕ → ℕ → List Edge → List Lines
store [] from to es = record { source = from; target = to; lines = es } ∷ []
store (l ∷ ls) from to es =
    if is_key from to l then record l { lines = es } ∷ ls else l ∷ store ls from to es

abbrev pub lines_or_nil : Option (List Edge) → List Edge
lines_or_nil none = []
lines_or_nil (some es) = es

unfoldable pub new_graph : Graph
new_graph = record { edge_id = 0; edges = []; graph = [] }

unfoldable pub add_node : Graph → Graph × ℕ
add_node g = (record g { graph = g.graph ++ ([] ∷ []) }, of_int (length g.graph))

-- `g.graph[from] = append(g.graph[from], to)`
pub link : List (List ℕ) → ℕ → ℕ → Outcome GraphError (List (List ℕ))
link rows from to = elim (get_elem? rows from) [
  | none ↦ panic
  | some row ↦ ok (set rows from (row ++ (to ∷ [])))
]

-- the new edge is at the end of the lines of its pair
abbrev pub put_edge : Graph → ℕ → ℕ → ℕ → String → Graph
put_edge g from to weight name =
    let e : Edge = record { id = g.edge_id; opp_id = minus_one; weight = weight; name = name } in
    record g {
      edge_id = incr g.edge_id;
      edges = store g.edges from to (lines_or_nil (lookup g.edges from to) ++ (e ∷ []));
    }

-- `if !edgeExists`, on the lines found before the new one was stored
pub connect : Option (List Edge) → Graph → ℕ → ℕ → Outcome GraphError Graph
unfolding link
connect (some _) g from to = ok g
connect none g from to = elim (link g.graph from to) [
  | ok rows ↦ ok (record g { graph = rows })
  | err e ↦ err e
  | panic ↦ panic
]

unfoldable pub add_edge : Graph → ℕ → ℕ → ℕ → String → Outcome GraphError (Graph × ℕ)
unfolding lookup store connect
add_edge g from to weight name =
    let nl = of_int (length g.graph) in
    let added = connect (lookup g.edges from to) (put_edge g from to weight name) from to in
    if sge from nl
    then err (from_missing from)
    else if sge to nl
    then err (to_missing to)
    else elim added [ ok h ↦ ok (h, g.edge_id) | err e ↦ err e | panic ↦ panic ]

-- The loop of `UpdateEdge`: the first edge of that id gets the opposite id.
pub update_line : List Edge → ℕ → ℕ → Option (List Edge)
update_line [] id opp = none
update_line (e ∷ es) id opp =
    let rest = update_line es id opp in
    if e.id == id
    then some (record e { opp_id = opp } ∷ es)
    else elim rest [ none ↦ none | some es' ↦ some (e ∷ es') ]

unfoldable pub update_edge : Graph → ℕ → ℕ → ℕ → ℕ → Outcome GraphError Graph
unfolding lookup store update_line
update_edge g from to edge_id opp_edge_id = elim (lookup g.edges from to) [
  | none ↦ err (no_edges from to)
  | some es ↦ elim (update_line es edge_id opp_edge_id) [
    | none ↦ err (edge_missing edge_id)
    | some es' ↦ ok (record g { edges = store g.edges from to es' })
  ]
]

unfoldable pub get_edges : Graph → ℕ → ℕ → List Edge
unfolding lookup
get_edges g from to = lines_or_nil (lookup g.edges from to)

unfoldable pub connections : Graph → ℕ → Outcome GraphError (List ℕ)
connections g n = elim (get_elem? g.graph n) [ none ↦ panic | some row ↦ ok row ]
