-- ===== src/Schema/Path/Find.antt =====
-- core/sdata/dwg.go: `FindPath` and `FindPathByColumn`, which look up two tables by their names and
-- turn the edges of the path into what the compiler reads. The cache goes on from call to call.
use graphjin_slim.Base.{
  ℕ, Bool, List, [], ◌∷◌, map, Option, none, some, Bytes, equal, if◌then◌else◌, Outcome, ok, err,
  panic,
}
use graphjin_slim.Schema.Path.{
  PathThroughKind, through_table, through_column, EdgeInfo, DbColumn, TEdge, RelType, rel_none,
  DbSchema, path_not_found, lookup_edge,
}
use graphjin_slim.Schema.Path.Cache.{PathCache}
use graphjin_slim.Schema.Path.Resolve.{ResolveError, searching, GraphResult, resolve_path}

-- `TPath`: a step of a path; a table stands for its name
pub record TPath : Type 0 where
  pub rel : RelType
  pub lt : Bytes
  pub lc : DbColumn
  pub rt : Bytes
  pub rc : DbColumn
  pub extra_pairs : List (DbColumn × DbColumn)

abbrev pub no_column : DbColumn
no_column = record { name = []; f_key_table = [] }

-- A missing key reads as the zero value of an edge.
abbrev pub edge_or_zero : Option TEdge → TEdge
edge_or_zero (some edge) = edge
edge_or_zero none = record {
  type = rel_none;
  left_table = [];
  right_table = [];
  left = no_column;
  right = no_column;
  extra_pairs = [];
}

-- the step of an edge
unfoldable pub step_of : DbSchema → ℕ → TPath
unfolding lookup_edge
step_of s id =
    let edge = edge_or_zero (lookup_edge s.all_edges id) in
    record {
      rel = edge.type;
      lt = edge.left_table;
      lc = edge.left;
      rt = edge.right_table;
      rc = edge.right;
      extra_pairs = edge.extra_pairs;
    }

pub data FindError : Type 0 where
  from_edge_not_found to_edge_not_found : FindError
  resolving : ResolveError → FindError

unfoldable pub lookup_edges : List (Bytes × List EdgeInfo) → Bytes → Option (List EdgeInfo)
lookup_edges [] name = none
lookup_edges ((k, infos) ∷ index) name =
    if equal k name then some infos else lookup_edges index name

-- the loop over the edges, and the test for an empty path behind it
unfoldable pub steps_or_error : DbSchema → List ℕ → Outcome FindError (List TPath)
unfolding step_of
steps_or_error s [] = err (resolving (searching path_not_found))
steps_or_error s (id ∷ ids) = ok (map (step_of s) (id ∷ ids))

unfoldable pub path_of :
    DbSchema → Outcome ResolveError GraphResult → Outcome FindError (List TPath)
unfolding steps_or_error
path_of s (ok r) = steps_or_error s r.edges
path_of s (err e) = err (resolving e)
path_of s panic = panic

module _ (equal_fold : Bytes → Bytes → Bool) (to_lower : Bytes → Bytes) (s : DbSchema) where
  -- The body that the two functions share.
  unfoldable pub find_by :
      PathThroughKind
      → Bytes
      → Bytes
      → Bytes
      → PathCache
      → Outcome FindError (List TPath) × PathCache
  unfolding lookup_edges resolve_path path_of
  find_by kind from to through cache = elim (lookup_edges s.edges_index from) [
    | none ↦ (err from_edge_not_found, cache)
    | some fl ↦ elim (lookup_edges s.edges_index to) [
      | none ↦ (err to_edge_not_found, cache)
      | some tl ↦
          let (result, next) =
            resolve_path equal_fold to_lower s fl tl
              (record { kind = kind; through = through; through_node = 0 }) cache in
          (path_of s result, next)
    ]
  ]

  unfoldable pub find_path :
      Bytes → Bytes → Bytes → PathCache → Outcome FindError (List TPath) × PathCache
  unfolding find_by
  find_path = find_by through_table

  unfoldable pub find_path_by_column :
      Bytes → Bytes → Bytes → PathCache → Outcome FindError (List TPath) × PathCache
  unfolding find_by
  find_path_by_column = find_by through_column
