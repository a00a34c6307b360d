-- ===== src/Schema/Path/Resolve.antt =====
-- core/sdata/path.go: `resolvePath` and `resolvePathPair`, which choose between the direct edges, the
-- cache and the search. The cache is the state. `equal_fold` and `to_lower` stand for the functions of
-- the package strings.
use graphjin_slim.Base.{
  ℕ, Bool, List, [], ◌∷◌, ◌++◌, Option, none, some, Bytes, ◌==◌, equal, if◌then◌else◌, Outcome, ok,
  err, panic,
}
use graphjin_slim.Schema.Path.{
  PathThroughKind, through_none, through_table, through_column, PathOptions, EdgeInfo, DbSchema,
  rel_embedded, PathError, path_not_found, shortest_path_edges,
}
use graphjin_slim.Schema.Path.Direct.{
  direct_path_edges, direct_path_edges_by_type, direct_recursive_path_edges,
}
use graphjin_slim.Schema.Path.Cache.{
  make_path_cache_key, PathCache, lookup_path_cache, store_path_cache,
}
use graphjin_slim.Schema.Path.Ambiguity.{AmbiguousPathError, detect_direct_ambiguity}
use graphjin_slim.Schema.Reach.{can_reach}

pub data ResolveError : Type 0 where
  searching : PathError → ResolveError
  though_node_not_found : ResolveError
  ambiguous_path : AmbiguousPathError → ResolveError

pub record GraphResult : Type 0 where
  pub from : EdgeInfo
  pub to : EdgeInfo
  pub edges : List ℕ

unfoldable pub lookup_node : List (Bytes × ℕ) → Bytes → Option ℕ
lookup_node [] name = none
lookup_node ((k, node) ∷ tindex) name = if equal k name then some node else lookup_node tindex name

-- what stands in front of the search: a result, or the options to search with
pub data Choice : Type 0 where
  chosen : Outcome ResolveError (List ℕ) → Choice
  search_with : PathOptions → Choice

-- the edges if there are any, else the next choice
abbrev pub or_next : Option (List ℕ) → Choice → Choice
or_next none next = next
or_next (some edges) next = chosen (ok edges)

-- The result of a pair, or `none` where the loops go on: `err == ErrPathNotFound`.
unfoldable pub returned :
    EdgeInfo → EdgeInfo → Outcome ResolveError (List ℕ) → Option (Outcome ResolveError GraphResult)
returned from to (ok edges) = some (ok (record { from = from; to = to; edges = edges }))
returned from to (err (searching path_not_found)) = none
returned from to (err e) = some (err e)
returned from to panic = some panic

-- No table is named by an empty text.
abbrev pub without_empty : PathOptions → PathThroughKind → Bytes → PathOptions
without_empty opts through_table [] = record opts { kind = through_none }
without_empty opts kind through = opts

module _ (equal_fold : Bytes → Bytes → Bool) (to_lower : Bytes → Bytes) (s : DbSchema) where
  unfoldable pub through_table_choice : EdgeInfo → EdgeInfo → PathOptions → Choice
  unfolding lookup_node direct_path_edges
  through_table_choice from to opts =
      or_next (direct_path_edges equal_fold s from opts to)
        (elim (lookup_node s.tindex (s.schema ++ (b':' ∷ opts.through))) [
          | none ↦ chosen (err though_node_not_found)
          | some node ↦ search_with (record opts { through_node = node })
        ])

  -- the recursive edge of a table to itself
  unfoldable pub recursive_or : EdgeInfo → EdgeInfo → PathOptions → Choice → Choice
  unfolding direct_recursive_path_edges
  recursive_or from to opts next =
      if from.node_id == to.node_id
      then or_next (direct_recursive_path_edges equal_fold s from opts) next
      else next

  unfoldable pub through_none_choice : EdgeInfo → EdgeInfo → PathOptions → Choice
  unfolding detect_direct_ambiguity recursive_or direct_path_edges_by_type
  through_none_choice from to opts = elim (detect_direct_ambiguity s from to) [
    | panic ↦ chosen panic
    | err e ↦ chosen (err (ambiguous_path e))
    | ok _ ↦ recursive_or from to opts (
        or_next (direct_path_edges_by_type equal_fold s from opts to rel_embedded)
          (search_with opts))
  ]

  unfoldable pub through_column_choice : EdgeInfo → EdgeInfo → PathOptions → Choice
  unfolding recursive_or direct_path_edges
  through_column_choice from to opts =
      recursive_or from to opts
        (or_next (direct_path_edges equal_fold s from opts to) (search_with opts))

  unfoldable pub choose : EdgeInfo → EdgeInfo → PathOptions → PathThroughKind → Choice
  unfolding through_table_choice through_none_choice through_column_choice
  choose from to opts through_table = through_table_choice from to opts
  choose from to opts through_none = through_none_choice from to opts
  choose from to opts through_column =
      through_column_choice from to (record opts { through = to_lower opts.through })

  -- the search behind the choice, with the cache in front of it
  unfoldable pub search_cached :
      EdgeInfo → EdgeInfo → PathOptions → PathCache → Outcome ResolveError (List ℕ) × PathCache
  unfolding can_reach lookup_path_cache shortest_path_edges store_path_cache
  search_cached from to opts cache =
      if can_reach s.reachability from.node_id to.node_id
      then elim (lookup_path_cache cache (make_path_cache_key from to opts)) [
        | some edges ↦ (ok edges, cache)
        | none ↦ elim (shortest_path_edges equal_fold s from to opts) [
          | ok edges ↦ (ok edges, store_path_cache (make_path_cache_key from to opts) edges cache)
          | err e ↦ (err (searching e), cache)
          | panic ↦ (panic, cache)
        ]
      ]
      else (err (searching path_not_found), cache)

  unfoldable pub resolve_path_pair :
      EdgeInfo → EdgeInfo → PathOptions → PathCache → Outcome ResolveError (List ℕ) × PathCache
  unfolding choose search_cached
  resolve_path_pair from to opts cache = elim (choose from to opts opts.kind) [
    | chosen result ↦ (result, cache)
    | search_with o ↦ search_cached from to o cache
  ]

  -- the loop over the targets
  unfoldable pub resolve_targets :
      EdgeInfo
      → List EdgeInfo
      → PathOptions
      → PathCache
      → Option (Outcome ResolveError GraphResult) × PathCache
  unfolding resolve_path_pair returned
  resolve_targets from [] opts cache = (none, cache)
  resolve_targets from (to ∷ ts) opts cache =
      let (result, next) = resolve_path_pair from to opts cache in
      elim (returned from to result) [
        | none ↦ resolve_targets from ts opts next
        | some r ↦ (some r, next)
      ]

  -- the loop over the sources
  unfoldable pub resolve_sources :
      List EdgeInfo
      → List EdgeInfo
      → PathOptions
      → PathCache
      → Outcome ResolveError GraphResult × PathCache
  unfolding resolve_targets
  resolve_sources [] to opts cache = (err (searching path_not_found), cache)
  resolve_sources (from ∷ fs) to opts cache =
      let (result, next) = resolve_targets from to opts cache in
      elim result [ none ↦ resolve_sources fs to opts next | some r ↦ (r, next) ]

  unfoldable pub resolve_path :
      List EdgeInfo
      → List EdgeInfo
      → PathOptions
      → PathCache
      → Outcome ResolveError GraphResult × PathCache
  unfolding resolve_sources
  resolve_path from to opts cache =
      resolve_sources from to (without_empty opts opts.kind opts.through) cache

-- a question to `resolvePath`
pub record Request : Type 0 where
  pub from : List EdgeInfo
  pub to : List EdgeInfo
  pub opts : PathOptions

-- the answers to questions in a row, with the cache that they share
unfoldable pub resolve_all :
    (Bytes → Bytes → Bool)
    → (Bytes → Bytes)
    → DbSchema
    → List Request
    → PathCache
    → List (Outcome ResolveError GraphResult)
unfolding resolve_path
resolve_all equal_fold to_lower s [] cache = []
resolve_all equal_fold to_lower s (r ∷ rs) cache =
    let (result, next) = resolve_path equal_fold to_lower s r.from r.to r.opts cache in
    result ∷ resolve_all equal_fold to_lower s rs next
