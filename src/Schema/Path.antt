-- ===== src/Schema/Path.antt =====
-- core/sdata/path.go: the search for the cheapest path of relationships between two tables, and the
-- direct edges. An int32 is its bit pattern (Base.Int32); `order` and `depth` are far below the
-- bound of an int, which the limit of the rounds sees to.
pub mod Chain
pub mod Reached
pub mod Direct
pub mod Cheapest
pub mod Cache
pub mod Ambiguity
pub mod Resolve
pub mod Plain
pub mod Cached
pub mod Joined
pub mod Resolved
pub mod Find
pub mod Linked
pub mod Found
pub mod Answers
mod Tests
pub mod Total
use graphjin_slim.Base.{
  ℕ, zero, suc, ◌+◌, ◌*◌, ◌%◌, Bool, true, false, not, ◌&&◌, ◌||◌, List, [], ◌∷◌, ◌++◌, Option,
  none, some, Bytes, length, elem, leb, ltb, ◌==◌, if◌then◌else◌, Outcome, ok, err, panic,
}
use graphjin_slim.Base.Int32.{sge, modulus}
use graphjin_slim.Heap
use graphjin_slim.Schema.Reach.{Table}
use graphjin_slim.Util.Graph.{Edge, Graph, GraphError, get_edges, connections}

pub data PathThroughKind : Type 0 where
  through_none through_table through_column : PathThroughKind

pub record PathOptions : Type 0 where
  pub kind : PathThroughKind
  pub through : Bytes
  pub through_node : ℕ

-- a node of the graph with the edges that may be used at it
pub record EdgeInfo : Type 0 where
  pub node_id : ℕ
  pub edge_ids : List ℕ

pub data RelType : Type 0 where
  rel_none rel_one_to_one rel_one_to_many rel_polymorphic rel_recursive : RelType
  rel_embedded rel_remote rel_skip rel_database_join : RelType

-- a column, and the table that its foreign key names, which is empty if it has none
pub record DbColumn : Type 0 where
  pub name : Bytes
  pub f_key_table : Bytes

-- the type of an edge, the names of its tables `LT` and `RT`, and the columns that it joins: the pair
-- `L`, `R`, and `ExtraPairs`
pub record TEdge : Type 0 where
  pub type : RelType
  pub left_table : Bytes
  pub right_table : Bytes
  pub left : DbColumn
  pub right : DbColumn
  pub extra_pairs : List (DbColumn × DbColumn)

-- what the paths read of `DBSchema`; `tables` are the names of the tables
pub record DbSchema : Type 0 where
  pub schema : Bytes
  pub graph : Graph
  pub all_edges : List (ℕ × TEdge)
  pub tables : List Bytes
  pub tindex : List (Bytes × ℕ)
  pub edges_index : List (Bytes × List EdgeInfo)
  pub reachability : Table

unfoldable pub lookup_edge : List (ℕ × TEdge) → ℕ → Option TEdge
lookup_edge [] id = none
lookup_edge ((k, e) ∷ es) id = if k == id then some e else lookup_edge es id

-- `edgeIDIn`
abbrev pub edge_id_in : List ℕ → ℕ → Bool
edge_id_in ids id = elem id ids

abbrev pub is_table : PathThroughKind → Bool
is_table through_table = true
is_table _ = false

abbrev pub is_column : PathThroughKind → Bool
is_column through_column = true
is_column _ = false

-- An item of the heap: the first has no parent, and each other one is behind its parent.
pub data PathItem : Type 0 where
  first : ℕ → Bool → PathItem
  behind : PathItem → ℕ → ℕ → ℕ → ℕ → ℕ → Bool → PathItem

-- the bit pattern of -2
abbrev pub no_edge : ℕ
no_edge = 4294967294

abbrev pub node_of : PathItem → ℕ
node_of (first node seen) = node
node_of (behind parent node edge cost order depth seen) = node

abbrev pub prev_of : PathItem → ℕ
prev_of (first node seen) = no_edge
prev_of (behind parent node edge cost order depth seen) = edge

abbrev pub edge_of : PathItem → ℕ
edge_of (first node seen) = 0
edge_of (behind parent node edge cost order depth seen) = edge

abbrev pub cost_of : PathItem → ℕ
cost_of (first node seen) = 0
cost_of (behind parent node edge cost order depth seen) = cost

abbrev pub order_of : PathItem → ℕ
order_of (first node seen) = 0
order_of (behind parent node edge cost order depth seen) = order

abbrev pub depth_of : PathItem → ℕ
depth_of (first node seen) = 0
depth_of (behind parent node edge cost order depth seen) = depth

abbrev pub seen_of : PathItem → Bool
seen_of (first node seen) = seen
seen_of (behind parent node edge cost order depth seen) = seen

-- A read of the parent of the first item would be a nil pointer; the depth keeps the code from it.
abbrev pub parent_of : PathItem → PathItem
parent_of (first node seen) = first node seen
parent_of (behind parent node edge cost order depth seen) = parent

abbrev pub less : PathItem → PathItem → Bool
less a b =
    if cost_of a == cost_of b
    then if depth_of a == depth_of b
      then ltb (order_of a) (order_of b)
      else ltb (depth_of a) (depth_of b)
    else not (sge (cost_of a) (cost_of b))

-- The loop of `pathItemEdges`: `found` is filled from the end.
unfoldable pub edges_onto : ℕ → PathItem → List ℕ → List ℕ
edges_onto zero item found = found
edges_onto (suc i) item found = edges_onto i (parent_of item) (edge_of item ∷ found)

abbrev pub path_item_edges : PathItem → List ℕ
path_item_edges item = edges_onto (depth_of item) item []

-- `pathStateKey` and its cost
pub record Best : Type 0 where
  pub node : ℕ
  pub prev_edge_id : ℕ
  pub through_seen : Bool
  pub cost : ℕ

abbrev pub same_bool : Bool → Bool → Bool
same_bool true b = b
same_bool false b = not b

abbrev pub best_of : PathItem → Best
best_of item = record {
  node = node_of item;
  prev_edge_id = prev_of item;
  through_seen = seen_of item;
  cost = cost_of item;
}

-- The newest entry of a key stands first and hides the older ones.
unfoldable pub lookup_best : List Best → PathItem → Option ℕ
lookup_best [] item = none
lookup_best (b ∷ bs) item =
    if b.node == node_of item
      && b.prev_edge_id == prev_of item
      && same_bool b.through_seen (seen_of item)
    then some b.cost
    else lookup_best bs item

-- `ok && cost <= item.cost`
abbrev pub is_settled : Option ℕ → ℕ → Bool
is_settled none cost = false
is_settled (some c) cost = sge cost c

pub record Search : Type 0 where
  pub heap : List PathItem
  pub best : List Best
  pub order : ℕ

-- One round goes on, or returns the edges, or finds the heap empty, or reads the connections of no
-- node.
pub data Round : Type 0 where
  again : Search → Round
  arrived : List ℕ → Round
  nothing_left out_of_range : Round

pub data PathError : Type 0 where
  path_not_found path_search_limit : PathError

unfoldable pub max_int : ℕ → ℕ → ℕ
max_int a b = if ltb b a then a else b

-- `strings.EqualFold` is the parameter `equal_fold`.
module _ (equal_fold : Bytes → Bytes → Bool) where
  unfoldable pub any_pair : List (DbColumn × DbColumn) → Bytes → Bool
  any_pair [] col = false
  any_pair ((l, r) ∷ ps) col = (equal_fold l.name col || equal_fold r.name col) || any_pair ps col

  unfoldable pub edge_matches : Option TEdge → Bytes → Bool
  unfolding any_pair
  edge_matches none col = false
  edge_matches (some e) col =
      (equal_fold e.left.name col || equal_fold e.right.name col) || any_pair e.extra_pairs col

unfoldable pub line_matches_column : (Bytes → Bytes → Bool) → DbSchema → Edge → Bytes → Bool
unfolding edge_matches lookup_edge
line_matches_column equal_fold s line [] = true
line_matches_column equal_fold s line (c ∷ cs) =
    edge_matches equal_fold (lookup_edge s.all_edges line.id) (c ∷ cs)

module _ (equal_fold : Bytes → Bytes → Bool) (s : DbSchema) (from to : EdgeInfo)
    (opts : PathOptions) where
  unfoldable pub line_allowed : Edge → ℕ → ℕ → Bool → Bool
  unfolding line_matches_column
  line_allowed line prev_edge_id depth to_anchor =
      if line.opp_id == prev_edge_id
      then false
      else if depth == 0 && not (edge_id_in from.edge_ids line.id)
      then false
      else if to_anchor && not (edge_id_in to.edge_ids line.id)
      then false
      else not (is_column opts.kind && not (line_matches_column equal_fold s line opts.through))

  -- the loop that looks for an allowed line into the edges of the target
  unfoldable pub has_anchor : List Edge → ℕ → ℕ → Bool
  unfolding line_allowed
  has_anchor [] prev depth = false
  has_anchor (line ∷ ls) prev depth =
      (line_allowed line prev depth false && edge_id_in to.edge_ids line.id)
      || has_anchor ls prev depth

  unfoldable pub require_to_anchor : PathItem → ℕ → List Edge → Bool
  unfolding has_anchor
  require_to_anchor item next lines =
      (next == to.node_id && not (depth_of item == 0))
      && has_anchor lines (prev_of item) (depth_of item)

  abbrev pub item_behind : PathItem → ℕ → Edge → ℕ → PathItem
  item_behind item next line order =
      behind item next line.id ((cost_of item + line.weight) % modulus) order (depth_of item + 1)
        (seen_of item || (is_table opts.kind && next == opts.through_node))

  -- the loop over the lines to one node
  unfoldable pub push_lines : PathItem → ℕ → Bool → List Edge → Search → Search
  unfolding line_allowed Heap.push
  push_lines item next anchor [] t = t
  push_lines item next anchor (line ∷ ls) t =
      let order = t.order + 1 in
      push_lines item next anchor ls (
        if line_allowed line (prev_of item) (depth_of item) anchor
        then record t {
          heap = Heap.push less t.heap (item_behind item next line order);
          order = order;
        }
        else t)

  -- the loop over the connections
  unfoldable pub push_connections : PathItem → List ℕ → Search → Search
  unfolding push_lines require_to_anchor get_edges
  push_connections item [] t = t
  push_connections item (next ∷ ns) t =
      let lines = get_edges s.graph (node_of item) next in
      push_connections item ns (push_lines item next (require_to_anchor item next lines) lines t)

  abbrev pub is_arrived : PathItem → Bool
  is_arrived item =
      (node_of item == to.node_id && not (depth_of item == 0))
      && (not (is_table opts.kind) || seen_of item)

  -- a round behind the pop; `t` is the state with the rest of the heap
  unfoldable pub visit : PathItem → Search → Round
  unfolding lookup_best edges_onto push_connections connections
  visit item t =
      let u = record t { best = best_of item ∷ t.best } in
      if is_settled (lookup_best t.best item) (cost_of item)
      then again t
      else if is_arrived item
      then arrived (path_item_edges item)
      else elim (connections s.graph (node_of item)) [
        | ok ns ↦ again (push_connections item ns u)
        | err e ↦ out_of_range
        | panic ↦ out_of_range
      ]

  unfoldable pub round_with : Search → Option (PathItem × List PathItem) → Round
  unfolding visit
  round_with t none = nothing_left
  round_with t (some (item, rest)) = visit item (record t { heap = rest })

  unfoldable pub round : Search → Round
  unfolding round_with Heap.pop
  round t = round_with t (Heap.pop less t.heap)

  -- `rest` rounds are allowed, and then the limit is an error if the heap is not empty.
  unfoldable pub rounds : ℕ → Search → Outcome PathError (List ℕ)
  unfolding round
  rounds zero t = elim t.heap [ [] ↦ err path_not_found | _ ∷ _ ↦ err path_search_limit ]
  rounds (suc rest) t = elim (round t) [
    | again u ↦ rounds rest u
    | arrived edges ↦ ok edges
    | nothing_left ↦ err path_not_found
    | out_of_range ↦ panic
  ]

  unfoldable pub start_item : PathItem
  start_item = first from.node_id (is_table opts.kind && from.node_id == opts.through_node)

  unfoldable pub start : Search
  unfolding start_item Heap.push
  start = record { heap = Heap.push less [] start_item; best = []; order = 0 }

  -- The test `expanded > limit` lets `limit + 1` rounds pass.
  unfoldable pub shortest_path_edges : Outcome PathError (List ℕ)
  unfolding rounds start max_int
  shortest_path_edges =
      let limit = length s.tables * max_int 1 (length s.all_edges) * 4 + 1 in
      rounds (limit + 1) start
