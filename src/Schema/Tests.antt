-- ===== src/Schema/Tests.antt =====
-- Runs of the path search, and its theorems at a small schema: users, posts and comments.
use graphjin_slim.Base.{none, codes, ℕ, [], ◌∷◌, ◌≡◌, refl, ◌≢◌, panic, arith, some, ok, err, equal}
use graphjin_slim.Util.Graph.{Edge, Graph, GraphError, new_graph, add_node, add_edge, get_edges}
use graphjin_slim.Util.Graph.Built.{Built, made, node, edge}
use graphjin_slim.Schema.Path.Total.{shortest_path_edges_returns}
use graphjin_slim.Schema.Path.{
  through_none, through_column, PathOptions, EdgeInfo, rel_one_to_many, rel_recursive, TEdge,
  DbSchema, path_not_found, shortest_path_edges,
}
use graphjin_slim.Base.{◌↔◌, ◌<◌, Bool, true, false, Option, Outcome, List, map}
use graphjin_slim.Schema.Reach.{Table, build_reachability, can_reach}
use graphjin_slim.Schema.Reach.Search.{Reaches}
use graphjin_slim.Schema.Reach.Exact.{build_reachability-exact}
use graphjin_slim.Schema.Reach.Pruning.{shortest_path_edges-can_reach}
use graphjin_slim.Schema.Path.Resolve.{ResolveError, GraphResult, resolve_path}
use graphjin_slim.Schema.Path.Answers.{resolve_path_returns}
use graphjin_slim.Schema.Path.Chain.{IsPathBetween}
use graphjin_slim.Schema.Path.Reached.{shortest_path_edges-IsPathBetween}
use graphjin_slim.Schema.Path.Direct.{
  is_usable, is_usable_by_type, direct_path_edges, direct_path_edges_by_type,
  direct_recursive_path_edges,
}
use graphjin_slim.Schema.Path.Cheapest.{IsCheapest, direct_path_edges-IsCheapest}

abbrev line : ℕ → ℕ → ℕ → Edge
line id opp weight = record { id = id; opp_id = opp; weight = weight; name = "" }

-- users 0, posts 1, comments 2: 0 and 1, 1 and 2 are joined both ways, and 0 and 2 at a high cost.
abbrev tables : Graph
tables = record {
  edge_id = 6;
  edges =
      record { source = 0; target = 1; lines = line 0 1 3 ∷ line 6 7 2 ∷ [] }
      ∷ record { source = 1; target = 0; lines = line 1 0 3 ∷ [] }
      ∷ record { source = 1; target = 2; lines = line 2 3 1 ∷ [] }
      ∷ record { source = 2; target = 1; lines = line 3 2 1 ∷ [] }
      ∷ record { source = 0; target = 2; lines = line 4 5 9 ∷ [] }
      ∷ record { source = 2; target = 0; lines = line 5 4 9 ∷ [] }
      ∷ [];
  graph = (1 ∷ 2 ∷ []) ∷ (0 ∷ 2 ∷ []) ∷ (1 ∷ 0 ∷ []) ∷ [];
}

abbrev rows_of : Option (Outcome GraphError Table) → Table
rows_of (some (ok rows)) = rows
rows_of _ = []

abbrev joins : TEdge
joins = record {
  type = rel_one_to_many;
  left_table = [];
  right_table = [];
  left = record { name = b'a' ∷ []; f_key_table = [] };
  right = record { name = b'b' ∷ []; f_key_table = [] };
  extra_pairs = [];
}

abbrev schema : DbSchema
schema = record {
  graph = tables;
  all_edges = (0, joins) ∷ (2, joins) ∷ (4, joins) ∷ [];
  tables = codes "users" ∷ codes "posts" ∷ codes "comments" ∷ [];
  schema = codes "public";
  tindex = (codes "public:posts", 1) ∷ [];
  edges_index = [];
  reachability = rows_of (build_reachability tables 3);
}

abbrev users : EdgeInfo
users = record { node_id = 0; edge_ids = 0 ∷ 6 ∷ 4 ∷ [] }

abbrev posts : EdgeInfo
posts = record { node_id = 1; edge_ids = 1 ∷ 2 ∷ [] }

abbrev comments : EdgeInfo
comments = record { node_id = 2; edge_ids = 3 ∷ 5 ∷ [] }

abbrev plain : PathOptions
plain = record { kind = through_none; through = []; through_node = 0 }

abbrev by_column : PathOptions
by_column = record { kind = through_column; through = b'a' ∷ []; through_node = 0 }

-- The two cheap edges beat the direct one.
cheapest : shortest_path_edges equal schema users comments plain ≡ ok (6 ∷ 2 ∷ [])
unfolding shortest_path_edges
cheapest = refl

named_column : shortest_path_edges equal schema users comments by_column ≡ ok (0 ∷ 2 ∷ [])
unfolding shortest_path_edges equal
named_column = refl

no_way :
    shortest_path_edges equal schema users (record { node_id = 7; edge_ids = [] }) by_column
    ≡ err path_not_found
unfolding shortest_path_edges equal
no_way = refl

lightest : direct_path_edges equal schema users plain posts ≡ some (6 ∷ [])
unfolding direct_path_edges
lightest = refl

shortest_path_edges-IsPathBetween_example :
    IsPathBetween equal schema users comments plain (6 ∷ 2 ∷ [])
shortest_path_edges-IsPathBetween_example =
    shortest_path_edges-IsPathBetween equal schema users comments plain (6 ∷ 2 ∷ []) cheapest

direct_path_edges-IsCheapest_example :
    IsCheapest
      (is_usable equal schema users by_column)
      (get_edges tables 0 1)
      (direct_path_edges equal schema users by_column posts)
    × IsCheapest
        (is_usable_by_type equal schema users by_column rel_one_to_many)
        (get_edges tables 0 1)
        (direct_path_edges_by_type equal schema users by_column posts rel_one_to_many)
    × IsCheapest
        (is_usable_by_type equal schema users by_column rel_recursive)
        (get_edges tables 0 0)
        (direct_recursive_path_edges equal schema users by_column)
direct_path_edges-IsCheapest_example =
    direct_path_edges-IsCheapest equal schema users posts by_column rel_one_to_many

abbrev two_tables : Graph
two_tables = record { edge_id = 0; edges = []; graph = [] ∷ [] ∷ [] }

abbrev joined : Graph
joined = record {
  edge_id = 1;
  edges = record { source = 0; target = 1; lines = line 0 4294967295 3 ∷ [] } ∷ [];
  graph = (1 ∷ []) ∷ [] ∷ [];
}

joined_added : add_edge two_tables 0 1 3 "" ≡ ok (joined, 0)
unfolding add_edge
joined_added = refl

joined-Built : Built joined
unfolding new_graph add_node
joined-Built =
    edge 0 1 3 0 "" (node (node made (omega arith)) (omega arith)) (omega arith) joined_added

abbrev small : DbSchema
small = record schema {
  graph = joined;
  all_edges = (0, joins) ∷ [];
  tables = codes "users" ∷ codes "posts" ∷ [];
}

small_path : shortest_path_edges equal small users posts plain ≡ ok (0 ∷ [])
unfolding shortest_path_edges
small_path = refl

shortest_path_edges_returns_example : shortest_path_edges equal small users posts plain ≢ panic
shortest_path_edges_returns_example =
    shortest_path_edges_returns equal small users posts plain joined-Built (omega arith)

-- Table 0 leads to 1 and 1 to itself; 2 stands alone.
abbrev one_way : Graph
one_way = record { edge_id = 0; edges = []; graph = (1 ∷ []) ∷ (1 ∷ []) ∷ [] ∷ [] }

build_reachability-exact_example :
    (rows : Table) × (build_reachability one_way 3 ≡ some (ok rows))
    × ((a b : ℕ) → (can_reach rows a b ≡ true) ↔ ((a < 3) × Reaches one_way 3 a b))
build_reachability-exact_example = build_reachability-exact one_way 3 (omega arith)

abbrev reaches : Graph → ℕ → List (List Bool)
reaches g n =
    let rows = rows_of (build_reachability g n) in
    map (λ a. map (λ b. can_reach rows a b) (0 ∷ 1 ∷ 2 ∷ [])) (0 ∷ 1 ∷ 2 ∷ [])

one_way_run :
    reaches one_way 3
    ≡ (false ∷ true ∷ false ∷ []) ∷ (false ∷ true ∷ false ∷ []) ∷ (false ∷ false ∷ false ∷ []) ∷ []
unfolding build_reachability can_reach
one_way_run = refl

abbrev small_rows : Table
small_rows = rows_of (build_reachability joined 2)

small_reached : build_reachability joined 2 ≡ some (ok small_rows)
unfolding build_reachability
small_reached = refl

shortest_path_edges-can_reach_example : can_reach small_rows 0 1 ≡ true
shortest_path_edges-can_reach_example =
    shortest_path_edges-can_reach equal small users posts plain (0 ∷ []) small_rows joined-Built
      small_reached small_path

abbrev edges_of : Outcome ResolveError GraphResult → Option (List ℕ)
edges_of (ok r) = some r.edges
edges_of _ = none

small_resolved :
    edges_of (resolve_path equal (λ name. name) small (users ∷ []) (posts ∷ []) plain []).0
    ≡ some (0 ∷ [])
unfolding resolve_path build_reachability equal
small_resolved = refl

resolve_path_returns_example :
    (resolve_path equal (λ name. name) small (users ∷ []) (posts ∷ []) plain []).0 ≢ panic
resolve_path_returns_example =
    resolve_path_returns equal (λ name. name) small (users ∷ []) (posts ∷ []) plain [] joined-Built
      (omega arith) (omega arith, tt) (omega arith, tt)
