-- ===== src/Util/Tests.antt =====
-- Runs of the graph and of `AllPaths`, and their theorems at concrete graphs.
use graphjin_slim.Base.{
  ℕ, true, ◌&&◌, List, [], ◌∷◌, ◌++◌, ◌≡◌, refl, ◌↔◌, some, ok, err, panic, ◌==◌, if◌then◌else◌,
  arith, All,
}
use graphjin_slim.Base.Int32.{minus_one}
use graphjin_slim.Util.Graph.{
  Edge, Graph, from_missing, to_missing, no_edges, edge_missing, new_graph, add_node, add_edge,
  update_edge, get_edges,
}
use graphjin_slim.Util.Graph.Agrees.{get_edges-add_edge}
use graphjin_slim.Util.Graph.Built.{Built, made, node, edge, IsSound, Built-IsSound}
use graphjin_slim.Util.Paths.{Search, search, all_paths, contains_path}
use graphjin_slim.Util.Paths.Sound.{IsPath, all_paths-IsPath}
use graphjin_slim.Util.Paths.Complete.{search-exact}
use graphjin_slim.Util.Paths.Total.{all_paths_returns}

abbrev line : ℕ → Edge
line i = record { id = i; opp_id = minus_one; weight = 1; name = "" }

abbrev lone : Graph
lone = record { edge_id = 0; edges = []; graph = [] ∷ [] }

abbrev two_nodes : Graph
two_nodes = record { edge_id = 0; edges = []; graph = [] ∷ [] ∷ [] }

abbrev looped : Graph
looped = record {
  edge_id = 1;
  edges = record { source = 0; target = 0; lines = line 0 ∷ [] } ∷ [];
  graph = (0 ∷ []) ∷ [] ∷ [];
}

abbrev joined : Graph
joined = record {
  edge_id = 2;
  edges =
      record { source = 0; target = 0; lines = line 0 ∷ [] }
      ∷ record { source = 0; target = 1; lines = line 1 ∷ [] }
      ∷ [];
  graph = (0 ∷ 1 ∷ []) ∷ [] ∷ [];
}

looped_added : add_edge two_nodes 0 0 1 "" ≡ ok (looped, 0)
unfolding add_edge
looped_added = refl

joined_added : add_edge looped 0 1 1 "" ≡ ok (joined, 1)
unfolding add_edge
joined_added = refl

missing :
    (add_edge joined 2 0 1 "" ≡ err (from_missing 2))
    × (add_edge joined 0 7 1 "" ≡ err (to_missing 7))
unfolding add_edge
missing = (refl, refl)

-- A negative source is no error of `AddEdge`, but a panic.
negative_source : add_edge joined minus_one 0 1 "" ≡ panic
unfolding add_edge
negative_source = refl

update_missing :
    (update_edge joined 1 0 0 0 ≡ err (no_edges 1 0))
    × (update_edge joined 0 1 0 0 ≡ err (edge_missing 0))
unfolding update_edge
update_missing = (refl, refl)

joined-Built : Built joined
unfolding new_graph add_node
joined-Built =
    edge 0 1 1 1 ""
      (edge 0 0 1 0 "" (node (node made (omega arith)) (omega arith)) (omega arith) looped_added)
      (omega arith) joined_added

-- A walk round the loop at the start is taken for a second path.
joined_paths : all_paths joined 0 1 ≡ ok ((0 ∷ 1 ∷ []) ∷ (0 ∷ 0 ∷ 1 ∷ []) ∷ [])
unfolding all_paths
joined_paths = refl

abbrev joined_search : Search
joined_search = record { heap = []; paths = (0 ∷ 1 ∷ []) ∷ (0 ∷ 0 ∷ 1 ∷ []) ∷ [] }

joined_ends : search joined 0 1 ≡ some joined_search
unfolding search
joined_ends = refl

out_of_graph : all_paths joined 5 1 ≡ panic
unfolding all_paths
out_of_graph = refl

get_edges-add_edge_example :
    get_edges joined 0 1
    ≡ (if 0 == 0 && 1 == 1 then get_edges looped 0 1 ++ (line 1 ∷ []) else get_edges looped 0 1)
get_edges-add_edge_example = get_edges-add_edge looped joined 0 1 1 1 "" 0 1 joined_added

Built-IsSound_example : IsSound joined
Built-IsSound_example = Built-IsSound joined-Built

all_paths-IsPath_example : All (IsPath joined 0 1) ((0 ∷ 1 ∷ []) ∷ (0 ∷ 0 ∷ 1 ∷ []) ∷ [])
all_paths-IsPath_example = all_paths-IsPath joined 0 1 _ joined_paths

search-exact_example :
    (contains_path joined_search.paths (0 ∷ 0 ∷ 1 ∷ []) ≡ true) ↔ IsPath joined 0 1 (0 ∷ 0 ∷ 1 ∷ [])
search-exact_example = search-exact joined 0 1 joined_search (0 ∷ 0 ∷ 1 ∷ []) joined_ends refl

all_paths_returns_example : (paths : List (List ℕ)) × (all_paths joined 0 1 ≡ ok paths)
all_paths_returns_example = all_paths_returns joined 0 1 joined-Built (omega arith)
