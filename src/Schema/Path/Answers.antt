-- ===== src/Schema/Path/Answers.antt =====
-- core/sdata/path.go: `resolvePath` answers, by a path or an error.
use mathlib.Core.Path.{subst}
use graphjin_slim.Base.{
  ℕ, ◌<◌, ◌≤◌, Bool, List, [], ◌∷◌, ◌≢◌, refl, ap, ◌∙◌, inl, inr, Option, none, some, Bytes, length,
  get_elem?_total, arith, ◌==◌, All, Bool-cases, Option-cases, Outcome-cases, Outcome, ok, err,
  panic,
}
use graphjin_slim.Util.Graph.Built.{Built}
use graphjin_slim.Schema.Path.{
  PathThroughKind, through_none, through_table, through_column, PathOptions, EdgeInfo, DbSchema,
  path_not_found, path_search_limit, shortest_path_edges,
}
use graphjin_slim.Schema.Path.Total.{shortest_path_edges_returns}
use graphjin_slim.Schema.Path.Cache.{make_path_cache_key, PathCache, lookup_path_cache}
use graphjin_slim.Schema.Path.Ambiguity.{FkCandidate, ambiguity, detect_direct_ambiguity}
use graphjin_slim.Schema.Path.Resolve.{
  ResolveError, searching, though_node_not_found, ambiguous_path, Choice, chosen, search_with,
  or_next, through_table_choice, recursive_or, through_none_choice, through_column_choice, choose,
  search_cached, resolve_path_pair, returned, resolve_targets, resolve_sources, without_empty,
  resolve_path,
}
use graphjin_slim.Schema.Path.Plain.{Choice-cases}
use graphjin_slim.Schema.Reach.{can_reach}

-- a choice that is no panic
data Calm : Choice → Type 0 where
  finds : (edges : List ℕ) → Calm (chosen (ok edges))
  fails : (e : ResolveError) → Calm (chosen (err e))
  goes_on : (opts : PathOptions) → Calm (search_with opts)

Calm-chosen : (r : Outcome ResolveError (List ℕ)) → Calm (chosen r) → r ≢ panic
Calm-chosen _ (finds edges) e = cc
Calm-chosen _ (fails why) e = cc

or_next-Calm : (o : Option (List ℕ)) (next : Choice) → Calm next → Calm (or_next o next)
or_next-Calm none next c = c
or_next-Calm (some edges) next c = finds edges

module _ (equal_fold : Bytes → Bytes → Bool) (to_lower : Bytes → Bytes) (s : DbSchema)
    (built : Built s.graph) (named : length s.graph.graph ≤ length s.tables) where
  abbrev OfTable : EdgeInfo → Type 0
  OfTable info = info.node_id < length s.graph.graph

  ambiguity_returns :
      (from to : EdgeInfo) (cands : List FkCandidate)
      → OfTable from
      → OfTable to
      → ambiguity s from to cands ≢ panic
  unfolding ambiguity
  ambiguity_returns from to [] f t e = cc
  ambiguity_returns from to (a ∷ []) f t e = cc
  ambiguity_returns from to (a ∷ b ∷ cands) f t e =
      let (m, h) = get_elem?_total s.tables from.node_id (omega arith) in
      let (n, k) = get_elem?_total s.tables to.node_id (omega arith) in cc

  recursive_or-Calm :
      (from to : EdgeInfo) (opts : PathOptions) (next : Choice)
      → Calm next
      → Calm (recursive_or equal_fold to_lower s from to opts next)
  unfolding recursive_or
  recursive_or-Calm from to opts next c = elim (Bool-cases (from.node_id == to.node_id)) [
    | inl same ↦ rw (recursive_or, same) (or_next-Calm _ next c)
    | inr other ↦ rw (recursive_or, other) c
  ]

  node_or_error-Calm :
      (opts : PathOptions) (n : Option ℕ)
      → Calm (elim n [
        | none ↦ chosen (err though_node_not_found)
        | some node ↦ search_with (record opts { through_node = node })
      ])
  node_or_error-Calm opts none = fails _
  node_or_error-Calm opts (some node) = goes_on _

  choose-Calm :
      (from to : EdgeInfo) (opts : PathOptions) (kind : PathThroughKind)
      → OfTable from
      → OfTable to
      → Calm (choose equal_fold to_lower s from to opts kind)
  unfolding choose through_table_choice through_none_choice through_column_choice
      detect_direct_ambiguity
  choose-Calm from to opts through_table f t = or_next-Calm _ _ (node_or_error-Calm opts _)
  choose-Calm from to opts through_none f t =
      elim (Outcome-cases (detect_direct_ambiguity s from to)) [
        | inl (_, e) ↦
            rw (choose, through_none_choice, e)
              (recursive_or-Calm from to opts _ (or_next-Calm _ _ (goes_on _)))
        | inr (inl (why, e)) ↦ rw (choose, through_none_choice, e) (fails _)
        | inr (inr e) ↦ absurd (ambiguity_returns from to _ f t e)
      ]
  choose-Calm from to opts through_column f t =
      recursive_or-Calm from to (record opts { through = to_lower opts.through }) _
        (or_next-Calm _ _ (goes_on _))

  search_cached_returns :
      (from to : EdgeInfo) (opts : PathOptions) (cache : PathCache)
      → OfTable from
      → (search_cached equal_fold to_lower s from to opts cache).0 ≢ panic
  unfolding search_cached
  search_cached_returns from to opts cache f h =
      elim (Bool-cases (can_reach s.reachability from.node_id to.node_id)) [
        | inr cut ↦ cc (rw (search_cached, cut) at h)
        | inl reached ↦
            elim (Option-cases (lookup_path_cache cache (make_path_cache_key from to opts))) [
              | inr (edges, hit) ↦ cc (rw (search_cached, reached, hit) at h)
              | inl miss ↦ elim (Outcome-cases (shortest_path_edges equal_fold s from to opts)) [
                | inl (edges, e) ↦ cc (rw (search_cached, reached, miss, e) at h)
                | inr (inl (why, e)) ↦ cc (rw (search_cached, reached, miss, e) at h)
                | inr (inr e) ↦
                    absurd (shortest_path_edges_returns equal_fold s from to opts built f e)
              ]
            ]
      ]

  resolve_path_pair_returns :
      (from to : EdgeInfo) (opts : PathOptions) (cache : PathCache)
      → OfTable from
      → OfTable to
      → (resolve_path_pair equal_fold to_lower s from to opts cache).0 ≢ panic
  unfolding resolve_path_pair
  resolve_path_pair_returns from to opts cache f t h =
      let calm = choose-Calm from to opts opts.kind f t in
      elim (Choice-cases (choose equal_fold to_lower s from to opts opts.kind)) [
        | inl (r, e) ↦ Calm-chosen r (subst Calm e calm) (rw (resolve_path_pair, e) at h)
        | inr (o, e) ↦ search_cached_returns from to o cache f (rw (resolve_path_pair, e) at h)
      ]

  returned_returns :
      (from to : EdgeInfo) (r : Outcome ResolveError (List ℕ))
      → r ≢ panic
      → returned from to r ≢ some panic
  unfolding returned
  returned_returns from to (ok edges) calm e = cc
  returned_returns from to (err (searching path_not_found)) calm e = cc
  returned_returns from to (err (searching path_search_limit)) calm e = cc
  returned_returns from to (err though_node_not_found) calm e = cc
  returned_returns from to (err (ambiguous_path why)) calm e = cc
  returned_returns from to panic calm e = calm refl

  resolve_targets_returns :
      (from : EdgeInfo) (to : List EdgeInfo) (opts : PathOptions) (cache : PathCache)
      → OfTable from
      → All OfTable to
      → (resolve_targets equal_fold to_lower s from to opts cache).0 ≢ some panic
  unfolding resolve_targets
  resolve_targets_returns from [] opts cache f all h = cc
  resolve_targets_returns from (to ∷ ts) opts cache f (t, all) h =
      let pair = resolve_path_pair equal_fold to_lower s from to opts cache in
      elim (Option-cases (returned from to pair.0)) [
        | inl e ↦ resolve_targets_returns from ts opts pair.1 f all (rw (resolve_targets, e) at h)
        | inr (r, e) ↦
            returned_returns from to pair.0 (resolve_path_pair_returns from to opts cache f t)
              (e ∙ (rw (resolve_targets, e) at h))
      ]

  resolve_sources_returns :
      (from to : List EdgeInfo) (opts : PathOptions) (cache : PathCache)
      → All OfTable from
      → All OfTable to
      → (resolve_sources equal_fold to_lower s from to opts cache).0 ≢ panic
  unfolding resolve_sources
  resolve_sources_returns [] to opts cache all t h = cc
  resolve_sources_returns (from ∷ fs) to opts cache (f, all) t h =
      let targets = resolve_targets equal_fold to_lower s from to opts cache in
      elim (Option-cases targets.0) [
        | inl e ↦ resolve_sources_returns fs to opts targets.1 all t (rw (resolve_sources, e) at h)
        | inr (r, e) ↦
            resolve_targets_returns from to opts cache f t
              (e ∙ ap some (rw (resolve_sources, e) at h))
      ]

-- On a graph that the operations built, with a name for each table, `resolvePath` between tables of the
-- graph never panics, whatever the options and the cache: it returns a path or an error.
pub resolve_path_returns :
    (equal_fold : Bytes → Bytes → Bool) (to_lower : Bytes → Bytes) (s : DbSchema)
    (from to : List EdgeInfo) (opts : PathOptions) (cache : PathCache)
    → Built s.graph
    → length s.graph.graph ≤ length s.tables
    → All (λ f. f.node_id < length s.graph.graph) from
    → All (λ t. t.node_id < length s.graph.graph) to
    → (resolve_path equal_fold to_lower s from to opts cache).0 ≢ panic
unfolding resolve_path
resolve_path_returns equal_fold to_lower s from to opts cache built named =
    resolve_sources_returns equal_fold to_lower s built named from to
      (without_empty opts opts.kind opts.through) cache
