-- ===== src/Util/Paths.antt =====
-- core/util/graph.go: `AllPaths` and `equals`, over core/util/heap.go, a heap by weight. A round of
-- the loop is one call of `round`. The map `visited` of the source is never written, so it is
-- empty in every round, and the tests on it are made on that empty map.
pub mod Walks
pub mod Sound
pub mod Prefixes
pub mod Complete
pub mod Total
use graphjin_slim.Base.{
  ℕ, zero, suc, ◌+◌, ◌-◌, Bool, true, false, not, ◌&&◌, ◌||◌, List, [], ◌∷◌, ◌++◌, Option, none,
  some, Outcome, ok, err, panic, length, get_elem?, elem, equal, ltb, ◌==◌, if◌then◌else◌,
}
use graphjin_slim.Base.Int32.{incr}
use graphjin_slim.Heap
use graphjin_slim.Util.Graph.{Graph, GraphError}

-- A set of nodes is a list of them.
pub record PathItem : Type 0 where
  pub weight : ℕ
  pub parent : ℕ
  pub nodes : List ℕ
  pub visited : List ℕ

abbrev pub less : PathItem → PathItem → Bool
less a b = ltb a.weight b.weight

-- the map `visited` of `AllPaths`, from pairs of a parent and a node
abbrev pub Visited : Type 0
Visited = List (ℕ × ℕ)

unfoldable pub is_visited : Visited → ℕ → ℕ → Bool
is_visited [] a b = false
is_visited ((x, y) ∷ ps) a b = (x == a && y == b) || is_visited ps a b

-- `p.nodes[len(p.nodes)-1]`; an item has at least one node, so the default is not met
unfoldable pub last_node : List ℕ → ℕ
last_node [] = 0
last_node (x ∷ []) = x
last_node (x ∷ y ∷ ys) = last_node (y ∷ ys)

unfoldable pub contains_path : List (List ℕ) → List ℕ → Bool
unfolding equal
contains_path [] p = false
contains_path (v ∷ vs) p = equal v p || contains_path vs p

-- the item for one more node `e` behind `p`
unfoldable pub extend : PathItem → ℕ → PathItem
unfolding last_node
extend p e =
    let nodes = p.nodes ++ (e ∷ []) in
    record { weight = incr p.weight; parent = last_node p.nodes; nodes = nodes; visited = nodes }

-- the two tests of the inner loop that skip a neighbour
unfoldable pub skips : Visited → PathItem → ℕ → ℕ → Bool
unfolding is_visited last_node
skips visited p to e =
    (elem e p.visited && not (e == to)) || is_visited visited (last_node p.nodes) e

-- the inner loop over the connections of the last node
unfoldable pub expand : Visited → PathItem → ℕ → List ℕ → List PathItem → List PathItem
unfolding extend skips Heap.push
expand visited p to [] h = h
expand visited p to (e ∷ es) h =
    expand visited p to es (if skips visited p to e then h else Heap.push less h (extend p e))

pub record Search : Type 0 where
  pub heap : List PathItem
  pub paths : List (List ℕ)

-- One round goes on, or returns, or reads a connection out of range.
pub data Round : Type 0 where
  again : Search → Round
  done : Search → Round
  out_of_range : Round

-- a path that is complete
unfoldable pub accept : List PathItem → List (List ℕ) → List ℕ → Round
unfolding contains_path
accept h paths nodes =
    if contains_path paths nodes
    then done (record { heap = h; paths = paths })
    else again (record { heap = h; paths = paths ++ (nodes ∷ []) })

-- the connections of the last node, pushed
unfoldable pub grow :
    Option (List ℕ) → Visited → PathItem → ℕ → List PathItem → List (List ℕ) → Round
unfolding expand
grow none visited p to h paths = out_of_range
grow (some es) visited p to h paths =
    again (record { heap = expand visited p to es h; paths = paths })

unfoldable pub round_with : Graph → Visited → ℕ → Search → Option (PathItem × List PathItem) → Round
unfolding accept grow last_node is_visited
round_with g visited to s none = done s
round_with g visited to s (some (p, h)) =
    let node = last_node p.nodes in
    if is_visited visited p.parent node
    then again (record s { heap = h })
    else if node == to && ltb 1 (length p.nodes)
    then accept h s.paths p.nodes
    else grow (get_elem? g.graph node) visited p to h s.paths

-- the loop body; the heap's `pop` yields nothing exactly if the heap is empty
unfoldable pub round : Graph → Visited → ℕ → Search → Round
unfolding round_with Heap.pop
round g visited to s = round_with g visited to s (Heap.pop less s.heap)

-- `limit` rounds are left; `none` is the panic of an index out of range.
unfoldable pub rounds : ℕ → Graph → Visited → ℕ → Search → Option Search
unfolding round
rounds zero g visited to s = some s
rounds (suc limit) g visited to s = elim (round g visited to s) [
  | again t ↦ rounds limit g visited to t
  | done t ↦ some t
  | out_of_range ↦ none
]

unfoldable pub initial : ℕ → Search
unfolding Heap.push
initial from = record {
  heap = Heap.push less [] (record { weight = 0; parent = from; nodes = from ∷ []; visited = [] });
  paths = [];
}

-- The counter runs from 0 up to 3000.
abbrev pub max_rounds : ℕ
max_rounds = 3001

-- the state in which `AllPaths` returns
unfoldable pub search : Graph → ℕ → ℕ → Option Search
unfolding rounds initial
search g from to = rounds max_rounds g [] to (initial from)

unfoldable pub all_paths : Graph → ℕ → ℕ → Outcome GraphError (List (List ℕ))
unfolding search
all_paths g from to = elim (search g from to) [ none ↦ panic | some s ↦ ok s.paths ]
