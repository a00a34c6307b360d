-- ===== src/Schema/Path/Found.antt =====
-- core/sdata/dwg.go: what `FindPath` and `FindPathByColumn` return.
use mathlib.Core.Path.{subst}
use mathlib.Core.Option.{some-injective}
use graphjin_slim.Base.{
  ℕ, Bool, true, List, [], ◌∷◌, ◌++◌, map, ◌≡◌, ◌≢◌, refl, sym, ap, ◌∙◌, ◌⊎◌, inl, inr, some, Bytes,
  equal, All, Bool-cases, Option-cases, Outcome, ok, err, panic,
}
use graphjin_slim.Util.Graph.{Edge}
use graphjin_slim.Schema.Path.{
  PathThroughKind, through_none, through_table, through_column, PathOptions, EdgeInfo, DbSchema,
  is_table, line_matches_column,
}
use graphjin_slim.Schema.Path.Chain.{In}
use graphjin_slim.Schema.Path.Cache.{hash_edge_ids, PathCache}
use graphjin_slim.Schema.Path.Resolve.{
  ResolveError, GraphResult, lookup_node, without_empty, resolve_path,
}
use graphjin_slim.Schema.Path.Joined.{IsJoined, direct, searched}
use graphjin_slim.Schema.Path.Cached.{IsFaithful}
use graphjin_slim.Schema.Path.Resolved.{resolve_path-IsResult}
use graphjin_slim.Schema.Path.Find.{
  TPath, step_of, lookup_edges, steps_or_error, path_of, find_by, find_path, find_path_by_column,
}
use graphjin_slim.Schema.Path.Linked.{
  IsIndexed, Fits, Leads, Chain-Leads, Chain-Passes, line-Leads, line-IsStored, stored-has_column,
  IsStored,
}

-- A path that joins two tables by their names: its steps lead from a source to a target, each by the
-- named column if one is named. Through a named table it is a single step, or leads to that table
-- first.
pub record IsJoinPath (equal_fold : Bytes → Bytes → Bool) (to_lower : Bytes → Bytes) (s : DbSchema)
    (kind : PathThroughKind) (from to through : Bytes) (path : List TPath) : Type 0 where
  pub sources : List EdgeInfo
  pub targets : List EdgeInfo
  pub source : EdgeInfo
  pub target : EdgeInfo
  pub from_named : lookup_edges s.edges_index from ≡ some sources
  pub to_named : lookup_edges s.edges_index to ≡ some targets
  pub is_source : In source sources
  pub is_target : In target targets
  pub not_empty : path ≢ []
  pub leads : Leads s (Fits equal_fold kind (to_lower through)) source.node_id target.node_id path
  pub passes :
      kind ≡ through_table
      → through ≢ []
      → ((step : TPath) × (path ≡ step ∷ []))
        ⊎ ((node : ℕ) × (lookup_node s.tindex (s.schema ++ (b':' ∷ through)) ≡ some node)
            × (p : List TPath) × (q : List TPath) × (path ≡ p ++ q)
            × Leads s (Fits equal_fold kind (to_lower through)) source.node_id node p)

module _ (equal_fold : Bytes → Bytes → Bool) (to_lower : Bytes → Bytes) (s : DbSchema)
    (indexed : IsIndexed s) (from to : EdgeInfo) (opts : PathOptions) where
  abbrev AskedFits : TPath → Type 0
  AskedFits = Fits equal_fold opts.kind (to_lower opts.through)

  -- what is known of the steps of a result
  record IsWay (edges : List ℕ) : Type 0 where
    leads : Leads s AskedFits from.node_id to.node_id (map (step_of s) edges)
    passes :
        opts.kind ≡ through_table
        → ((step : TPath) × (map (step_of s) edges ≡ step ∷ []))
          ⊎ ((node : ℕ) × (lookup_node s.tindex (s.schema ++ (b':' ∷ opts.through)) ≡ some node)
              × (p : List TPath) × (q : List TPath) × (map (step_of s) edges ≡ p ++ q)
              × Leads s AskedFits from.node_id node p)

  direct-Fits :
      (line : Edge) (k : PathThroughKind)
      → opts.kind ≡ k
      → IsStored s from.node_id to.node_id line
      → (opts.kind ≡ through_column
          → line_matches_column equal_fold s line (to_lower opts.through) ≡ true)
      → Fits equal_fold k (to_lower opts.through) (step_of s line.id)
  direct-Fits line through_none e h c = tt
  direct-Fits line through_table e h c = tt
  direct-Fits line through_column e h c =
      stored-has_column equal_fold s from.node_id to.node_id line (to_lower opts.through) h (c e)

  IsJoined-IsWay :
      (edges : List ℕ) → IsJoined equal_fold to_lower s from to opts edges → IsWay edges
  IsJoined-IsWay _ (direct line i e c) =
      let h = line-IsStored s indexed from.node_id to.node_id line i in
      record {
        leads =
            line-Leads s AskedFits from.node_id to.node_id line h
              (direct-Fits line opts.kind refl h c);
        passes = λ k. inl (step_of s line.id, refl);
      }
  IsJoined-IsWay edges (searched o a path) = record {
    leads =
        Chain-Leads equal_fold s indexed from to o opts.kind (to_lower opts.through) a.kind a.column
          to.node_id path.last path.seen edges path.chain;
    passes = λ k.
        let (p, q, at, way) =
          Chain-Passes equal_fold s indexed from to o opts.kind (to_lower opts.through) a.kind
            a.column to.node_id path.last path.seen edges path.chain
            (path.through (ap is_table (a.kind ∙ k))) in
        inr (o.through_node, a.table k, p, q, at, way);
  }

steps_or_error-ok :
    (s : DbSchema) (ids : List ℕ) (path : List TPath)
    → steps_or_error s ids ≡ ok path
    → (path ≡ map (step_of s) ids) × (path ≢ [])
unfolding steps_or_error
steps_or_error-ok s [] path h = cc
steps_or_error-ok s (id ∷ ids) path h = (cc, λ e. cc)

path_of-ok :
    (s : DbSchema) (o : Outcome ResolveError GraphResult) (path : List TPath)
    → path_of s o ≡ ok path
    → (r : GraphResult) × (o ≡ ok r) × (path ≡ map (step_of s) r.edges) × (path ≢ [])
unfolding path_of
path_of-ok s (ok r) path h =
    let (steps, some_step) = steps_or_error-ok s r.edges path h in (r, refl, steps, some_step)
path_of-ok s (err e) path h = cc
path_of-ok s panic path h = cc

-- the edge lists under each name are known
abbrev KnownIndex : List (List ℕ) → List (Bytes × List EdgeInfo) → Type 0
KnownIndex known = All (λ entry. All (λ i. In i.edge_ids known) entry.1)

lookup_edges-All :
    (known : List (List ℕ)) (index : List (Bytes × List EdgeInfo)) (name : Bytes)
    (infos : List EdgeInfo)
    → KnownIndex known index
    → lookup_edges index name ≡ some infos
    → All (λ i. In i.edge_ids known) infos
unfolding lookup_edges
lookup_edges-All known [] name infos all h = cc
lookup_edges-All known ((k, found) ∷ index) name infos (here, all) h =
    elim (Bool-cases (equal k name)) [
      | inl e ↦
          subst (All (λ i. In i.edge_ids known)) (some-injective _ _ (rw (lookup_edges, e) at h))
            here
      | inr e ↦ lookup_edges-All known index name infos all (rw (lookup_edges, e) at h)
    ]

abbrev asking : PathThroughKind → Bytes → PathOptions
asking kind through = record { kind = kind; through = through; through_node = 0 }

module _ (equal_fold : Bytes → Bytes → Bool) (to_lower : Bytes → Bytes) (s : DbSchema) where
  -- the steps of an `IsJoinPath` with their promise for a named table
  abbrev Promised : EdgeInfo → EdgeInfo → PathThroughKind → Bytes → List TPath → Type 0
  Promised from to kind through path =
      Leads s (Fits equal_fold kind (to_lower through)) from.node_id to.node_id path
      × (kind ≡ through_table
          → through ≢ []
          → ((step : TPath) × (path ≡ step ∷ []))
            ⊎ ((node : ℕ) × (lookup_node s.tindex (s.schema ++ (b':' ∷ through)) ≡ some node)
                × (p : List TPath) × (q : List TPath) × (path ≡ p ++ q)
                × Leads s (Fits equal_fold kind (to_lower through)) from.node_id node p))

  -- An empty name of a table asks for none.
  IsWay-Promised :
      (indexed : IsIndexed s) (from to : EdgeInfo) (kind : PathThroughKind) (through : Bytes)
      (edges : List ℕ)
      → IsWay equal_fold to_lower s indexed from to
          (without_empty (asking kind through) kind through)
          edges
      → Promised from to kind through (map (step_of s) edges)
  IsWay-Promised indexed from to through_table [] edges w =
      (w.leads, λ k named. absurd (named refl))
  IsWay-Promised indexed from to through_table (c ∷ cs) edges w = (w.leads, λ k named. w.passes k)
  IsWay-Promised indexed from to through_none through edges w = (w.leads, λ k named. w.passes k)
  IsWay-Promised indexed from to through_column through edges w = (w.leads, λ k named. w.passes k)

  -- what a call that returns a path has read and asked
  record Traced (kind : PathThroughKind) (from to through : Bytes) (cache : PathCache)
      (path : List TPath) : Type 0 where
    sources : List EdgeInfo
    targets : List EdgeInfo
    from_named : lookup_edges s.edges_index from ≡ some sources
    to_named : lookup_edges s.edges_index to ≡ some targets
    result : GraphResult
    resolved :
        (resolve_path equal_fold to_lower s sources targets (asking kind through) cache).0
        ≡ ok result
    steps : path ≡ map (step_of s) result.edges
    not_empty : path ≢ []

  find_by-Traced :
      (kind : PathThroughKind) (from to through : Bytes) (cache : PathCache) (path : List TPath)
      → (find_by equal_fold to_lower s kind from to through cache).0 ≡ ok path
      → Traced kind from to through cache path
  unfolding find_by
  find_by-Traced kind from to through cache path h =
      elim (Option-cases (lookup_edges s.edges_index from)) [
        | inl e ↦ absurd (cc (rw (find_by, e) at h))
        | inr (fl, e) ↦ elim (Option-cases (lookup_edges s.edges_index to)) [
          | inl k ↦ absurd (cc (rw (find_by, e, k) at h))
          | inr (tl, k) ↦
              let (r, found, steps, some_step) =
                path_of-ok s
                  (resolve_path equal_fold to_lower s fl tl (asking kind through) cache).0 path
                  (rw (find_by, e, k) at h) in
              record {
                sources = fl;
                targets = tl;
                from_named = e;
                to_named = k;
                result = r;
                resolved = found;
                steps = steps;
                not_empty = some_step;
              }
        ]
      ]

  find_by-IsJoinPath :
      (known : List (List ℕ))
      (apart : (a b : List ℕ) → In a known → In b known → hash_edge_ids a ≡ hash_edge_ids b → a ≡ b)
      (kind : PathThroughKind) (from to through : Bytes) (cache : PathCache) (path : List TPath)
      → IsIndexed s
      → All (λ entry. All (λ i. In i.edge_ids known) entry.1) s.edges_index
      → IsFaithful equal_fold s known cache
      → (find_by equal_fold to_lower s kind from to through cache).0 ≡ ok path
      → IsJoinPath equal_fold to_lower s kind from to through path
  find_by-IsJoinPath known apart kind from to through cache path indexed index keeps h =
      let t = find_by-Traced kind from to through cache path h in
      let r = t.result in
      let result =
        resolve_path-IsResult equal_fold to_lower s known apart t.sources t.targets
          (asking kind through) cache r
          (lookup_edges-All known s.edges_index from t.sources index t.from_named)
          (lookup_edges-All known s.edges_index to t.targets index t.to_named) keeps t.resolved in
      let way =
        IsJoined-IsWay equal_fold to_lower s indexed r.from r.to
          (without_empty (asking kind through) kind through) r.edges result.joined in
      let promised =
        subst (Promised r.from r.to kind through) (sym t.steps)
          (IsWay-Promised indexed r.from r.to kind through r.edges way) in
      record {
        sources = t.sources;
        targets = t.targets;
        source = r.from;
        target = r.to;
        from_named = t.from_named;
        to_named = t.to_named;
        is_source = result.source;
        is_target = result.target;
        not_empty = t.not_empty;
        leads = promised.0;
        passes = promised.1;
      }

-- A path that `FindPath` returns joins the two tables that it names: its steps lead, each from the
-- table where the one in front of it ends, from a node of the first name to a node of the second, and
-- there is at least one. If a table is named to go through, the path is a single step or a first part
-- of it leads to that table. Each edge of the graph is stored with its tables, the cache holds what the
-- search finds, and the hash tells apart the lists of edges in the index.
pub find_path-IsJoinPath :
    (equal_fold : Bytes → Bytes → Bool) (to_lower : Bytes → Bytes) (s : DbSchema)
    (known : List (List ℕ))
    (apart : (a b : List ℕ) → In a known → In b known → hash_edge_ids a ≡ hash_edge_ids b → a ≡ b)
    (from to through : Bytes) (cache : PathCache) (path : List TPath)
    → IsIndexed s
    → All (λ entry. All (λ i. In i.edge_ids known) entry.1) s.edges_index
    → IsFaithful equal_fold s known cache
    → (find_path equal_fold to_lower s from to through cache).0 ≡ ok path
    → IsJoinPath equal_fold to_lower s through_table from to through path
unfolding find_path
find_path-IsJoinPath equal_fold to_lower s known apart from to through cache path =
    find_by-IsJoinPath equal_fold to_lower s known apart through_table from to through cache path

-- A path that `FindPathByColumn` returns leads from table to table as one of `FindPath` does, and each
-- of its steps has the named column, in small letters, on one of its sides or in one of its further
-- pairs, if the name is not empty. The same is asked of the graph, the cache and the hash.
pub find_path_by_column-IsJoinPath :
    (equal_fold : Bytes → Bytes → Bool) (to_lower : Bytes → Bytes) (s : DbSchema)
    (known : List (List ℕ))
    (apart : (a b : List ℕ) → In a known → In b known → hash_edge_ids a ≡ hash_edge_ids b → a ≡ b)
    (from to col : Bytes) (cache : PathCache) (path : List TPath)
    → IsIndexed s
    → All (λ entry. All (λ i. In i.edge_ids known) entry.1) s.edges_index
    → IsFaithful equal_fold s known cache
    → (find_path_by_column equal_fold to_lower s from to col cache).0 ≡ ok path
    → IsJoinPath equal_fold to_lower s through_column from to col path
unfolding find_path_by_column
find_path_by_column-IsJoinPath equal_fold to_lower s known apart from to col cache path =
    find_by-IsJoinPath equal_fold to_lower s known apart through_column from to col cache path
