-- ===== src/Schema/Path/Direct.antt =====
-- core/sdata/path.go: `directPathEdges`, `directPathEdgesByType` and `directRecursivePathEdges`.
use graphjin_slim.Base.{
  ℕ, Bool, true, false, not, ◌&&◌, List, [], ◌∷◌, Option, none, some, Bytes, ◌==◌, if◌then◌else◌,
}
use graphjin_slim.Base.Int32.{sge}
use graphjin_slim.Util.Graph.{Edge, get_edges}
use graphjin_slim.Schema.Path.{
  PathOptions, EdgeInfo, DbSchema, TEdge, RelType, rel_none, rel_one_to_one, rel_one_to_many,
  rel_polymorphic, rel_recursive, rel_embedded, rel_remote, rel_skip, rel_database_join, is_column,
  lookup_edge, line_matches_column, edge_id_in,
}

-- the number of a constant of `RelType`
abbrev pub rank : RelType → ℕ
rank rel_none = 0
rank rel_one_to_one = 1
rank rel_one_to_many = 2
rank rel_polymorphic = 3
rank rel_recursive = 4
rank rel_embedded = 5
rank rel_remote = 6
rank rel_skip = 7
rank rel_database_join = 8

-- `best == nil || line.Weight < best.Weight`
unfoldable pub is_better : Edge → Option Edge → Bool
is_better line none = true
is_better line (some best) = not (sge line.weight best.weight)

-- The loop over the lines; `passes` is false where the source goes on with the next line.
unfoldable pub best_line : (Edge → Bool) → Option Edge → List Edge → Option Edge
unfolding is_better
best_line passes best [] = best
best_line passes best (line ∷ ls) =
    best_line passes (if passes line && is_better line best then some line else best) ls

unfoldable pub id_of : Option Edge → Option (List ℕ)
id_of none = none
id_of (some best) = some (best.id ∷ [])

module _ (equal_fold : Bytes → Bytes → Bool) (s : DbSchema) (from : EdgeInfo)
    (opts : PathOptions) where
  unfoldable pub is_usable : Edge → Bool
  unfolding line_matches_column
  is_usable line =
      edge_id_in from.edge_ids line.id
      && not (is_column opts.kind && not (line_matches_column equal_fold s line opts.through))

  unfoldable pub has_type : RelType → Option TEdge → Bool
  has_type type none = false
  has_type type (some e) = rank e.type == rank type

  unfoldable pub is_usable_by_type : RelType → Edge → Bool
  unfolding is_usable has_type lookup_edge
  is_usable_by_type type line = is_usable line && has_type type (lookup_edge s.all_edges line.id)

  unfoldable pub direct_path_edges : EdgeInfo → Option (List ℕ)
  unfolding id_of best_line is_usable get_edges
  direct_path_edges to =
      id_of (best_line is_usable none (get_edges s.graph from.node_id to.node_id))

  unfoldable pub direct_path_edges_by_type : EdgeInfo → RelType → Option (List ℕ)
  unfolding id_of best_line is_usable_by_type get_edges
  direct_path_edges_by_type to type =
      id_of (best_line (is_usable_by_type type) none (get_edges s.graph from.node_id to.node_id))

  unfoldable pub direct_recursive_path_edges : Option (List ℕ)
  unfolding id_of best_line is_usable_by_type get_edges
  direct_recursive_path_edges = id_of (
      best_line (is_usable_by_type rel_recursive) none
        (get_edges s.graph from.node_id from.node_id))
