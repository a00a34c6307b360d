-- ===== src/Schema/Path/Cached.antt =====
-- core/sdata/path.go: what the cache of `resolvePath` keeps: each path in it is the one that the search
-- finds, so that no answer changes.
use mathlib.Core.Option.{some-injective}
use mathlib.Core.Path.{ap₂}
use graphjin_slim.Base.{
  and_left, and_right, ℕ, Bool, true, List, [], ◌∷◌, map, some, ◌≡◌, refl, sym, ap, ◌∙◌, inl, inr,
  Bytes, arith, ==_iff, equal_iff, Bool-cases, Option-cases, Outcome-cases, All, ok,
}
use graphjin_slim.Schema.Path.{
  PathThroughKind, through_none, through_table, through_column, PathOptions, EdgeInfo, DbSchema,
  shortest_path_edges,
}
use graphjin_slim.Schema.Path.Chain.{In}
use graphjin_slim.Schema.Path.Cache.{
  PathCacheKey, hash_edge_ids, make_path_cache_key, kind_rank, same_key, PathCache,
  lookup_path_cache, store_path_cache,
}
use graphjin_slim.Schema.Path.Resolve.{
  choose, search_cached, resolve_path_pair, returned, resolve_targets, resolve_sources,
  without_empty, resolve_path, Request, resolve_all,
}
use graphjin_slim.Schema.Reach.{can_reach}
use graphjin_slim.Schema.Path.Plain.{
  first_some, or_not_found, search_plain, pair_plain, answers_of, answers, resolve_plain,
  Choice-cases, first_some-append, first_some-append_some,
}

-- each path in the cache, of edges that are `known`, is what the search finds
abbrev pub IsFaithful : (Bytes → Bytes → Bool) → DbSchema → List (List ℕ) → PathCache → Type 0
IsFaithful equal_fold s known cache =
    (from to : EdgeInfo) (opts : PathOptions) (edges : List ℕ)
    → In from.edge_ids known
    → In to.edge_ids known
    → lookup_path_cache cache (make_path_cache_key from to opts) ≡ some edges
    → shortest_path_edges equal_fold s from to opts ≡ ok edges

-- the parts of two keys that compare as equal
kinds_same : (k l : PathThroughKind) → kind_rank k ≡ kind_rank l → k ≡ l
kinds_same through_none through_none e = refl
kinds_same through_none through_table e = absurd (omega arith)
kinds_same through_none through_column e = absurd (omega arith)
kinds_same through_table through_none e = absurd (omega arith)
kinds_same through_table through_table e = refl
kinds_same through_table through_column e = absurd (omega arith)
kinds_same through_column through_none e = absurd (omega arith)
kinds_same through_column through_table e = absurd (omega arith)
kinds_same through_column through_column e = refl

record SameParts (a b : PathCacheKey) : Type 0 where
  from_node : a.from_node ≡ b.from_node
  to_node : a.to_node ≡ b.to_node
  through_node : a.through_node ≡ b.through_node
  from_edges : a.from_edges ≡ b.from_edges
  to_edges : a.to_edges ≡ b.to_edges
  through_kind : a.through_kind ≡ b.through_kind
  through : a.through ≡ b.through

same_key-SameParts : (a b : PathCacheKey) → same_key a b ≡ true → SameParts a b
unfolding same_key
same_key-SameParts a b h =
    let front = and_left _ _ h in
    let back = and_right _ _ h in
    let nodes = and_left _ _ front in
    let more = and_right _ _ front in
    let tail = and_right _ _ back in
    record {
      from_node = (==_iff _ _).0 (and_left _ _ nodes);
      to_node = (==_iff _ _).0 (and_right _ _ nodes);
      through_node = (==_iff _ _).0 (and_left _ _ more);
      from_edges = (==_iff _ _).0 (and_right _ _ more);
      to_edges = (==_iff _ _).0 (and_left _ _ back);
      through_kind = kinds_same _ _ ((==_iff _ _).0 (and_left _ _ tail));
      through = (equal_iff _ _).0 (and_right _ _ tail);
    }

module _ (equal_fold : Bytes → Bytes → Bool) (to_lower : Bytes → Bytes) (s : DbSchema)
    (known : List (List ℕ))
    (apart : (a b : List ℕ)
      → In a known
      → In b known
      → hash_edge_ids a ≡ hash_edge_ids b
      → a ≡ b) where
  abbrev Keeps : PathCache → Type 0
  Keeps = IsFaithful equal_fold s known

  -- Two questions with one key are the same question.
  one_question :
      (from to from' to' : EdgeInfo) (opts opts' : PathOptions)
      → In from.edge_ids known
      → In to.edge_ids known
      → In from'.edge_ids known
      → In to'.edge_ids known
      → SameParts (make_path_cache_key from to opts) (make_path_cache_key from' to' opts')
      → shortest_path_edges equal_fold s from to opts
        ≡ shortest_path_edges equal_fold s from' to' opts'
  one_question from to from' to' opts opts' i j k l p =
      let same_from : from.edge_ids ≡ from'.edge_ids = apart _ _ i k p.from_edges in
      let same_to : to.edge_ids ≡ to'.edge_ids = apart _ _ j l p.to_edges in
      λ n.
        shortest_path_edges equal_fold s
          (record { node_id = p.from_node n; edge_ids = same_from n })
          (record { node_id = p.to_node n; edge_ids = same_to n })
          (record {
            kind = p.through_kind n;
            through = p.through n;
            through_node = p.through_node n;
          })

  store_path_cache-IsFaithful :
      (from to : EdgeInfo) (opts : PathOptions) (edges : List ℕ) (cache : PathCache)
      → In from.edge_ids known
      → In to.edge_ids known
      → shortest_path_edges equal_fold s from to opts ≡ ok edges
      → Keeps cache
      → Keeps (store_path_cache (make_path_cache_key from to opts) edges cache)
  unfolding store_path_cache lookup_path_cache
  store_path_cache-IsFaithful from to opts edges cache i j e keeps from' to' opts' edges' k l h =
      elim (Bool-cases
        (same_key (make_path_cache_key from to opts) (make_path_cache_key from' to' opts'))) [
          | inl same ↦
              sym (one_question from to from' to' opts opts' i j k l (same_key-SameParts _ _ same))
              ∙ e
              ∙ ap ok (some-injective _ _ (rw same at h))
          | inr other ↦ keeps from' to' opts' edges' k l (rw other at h)
        ]

  search_cached-search_plain :
      (from to : EdgeInfo) (opts : PathOptions) (cache : PathCache)
      → In from.edge_ids known
      → In to.edge_ids known
      → Keeps cache
      → ((search_cached equal_fold to_lower s from to opts cache).0
          ≡ search_plain equal_fold to_lower s from to opts)
        × Keeps (search_cached equal_fold to_lower s from to opts cache).1
  unfolding search_cached search_plain
  search_cached-search_plain from to opts cache i j keeps =
      elim (Bool-cases (can_reach s.reachability from.node_id to.node_id)) [
        | inr cut ↦ rw cut (refl, keeps)
        | inl reached ↦
            elim (Option-cases (lookup_path_cache cache (make_path_cache_key from to opts))) [
              | inr (edges, hit) ↦ rw (reached, hit, keeps from to opts edges i j hit) (refl, keeps)
              | inl miss ↦ elim (Outcome-cases (shortest_path_edges equal_fold s from to opts)) [
                | inl (edges, e) ↦
                    rw (reached, miss, e)
                      (refl, store_path_cache-IsFaithful from to opts edges cache i j e keeps)
                | inr (inl (why, e)) ↦ rw (reached, miss, e) (refl, keeps)
                | inr (inr e) ↦ rw (reached, miss, e) (refl, keeps)
              ]
            ]
      ]

  -- the edge lists of the ends of a path are known
  abbrev Known : EdgeInfo → Type 0
  Known info = In info.edge_ids known

  resolve_path_pair-pair_plain :
      (from to : EdgeInfo) (opts : PathOptions) (cache : PathCache)
      → Known from
      → Known to
      → Keeps cache
      → ((resolve_path_pair equal_fold to_lower s from to opts cache).0
          ≡ pair_plain equal_fold to_lower s from to opts)
        × Keeps (resolve_path_pair equal_fold to_lower s from to opts cache).1
  unfolding resolve_path_pair pair_plain
  resolve_path_pair-pair_plain from to opts cache i j keeps =
      elim (Choice-cases (choose equal_fold to_lower s from to opts opts.kind)) [
        | inl (r, e) ↦ rw (resolve_path_pair, pair_plain, e) (refl, keeps)
        | inr (o, e) ↦
            rw (resolve_path_pair, pair_plain, e)
              (search_cached-search_plain from to o cache i j keeps)
      ]

  resolve_targets-answers_of :
      (from : EdgeInfo) (to : List EdgeInfo) (opts : PathOptions) (cache : PathCache)
      → Known from
      → All Known to
      → Keeps cache
      → ((resolve_targets equal_fold to_lower s from to opts cache).0
          ≡ first_some (answers_of equal_fold to_lower s opts from to))
        × Keeps (resolve_targets equal_fold to_lower s from to opts cache).1
  unfolding resolve_targets answers_of
  resolve_targets-answers_of from [] opts cache i all keeps = (refl, keeps)
  resolve_targets-answers_of from (to ∷ ts) opts cache i (j, all) keeps =
      let (same, kept) = resolve_path_pair-pair_plain from to opts cache i j keeps in
      let rest =
        resolve_targets-answers_of from ts opts
          (resolve_path_pair equal_fold to_lower s from to opts cache).1 i all kept in
      elim (Option-cases (returned from to (pair_plain equal_fold to_lower s from to opts))) [
        | inl e ↦ rw (resolve_targets, same, answers_of, e) rest
        | inr (r, e) ↦ rw (resolve_targets, same, answers_of, e) (refl, kept)
      ]

  resolve_sources-answers :
      (from to : List EdgeInfo) (opts : PathOptions) (cache : PathCache)
      → All Known from
      → All Known to
      → Keeps cache
      → ((resolve_sources equal_fold to_lower s from to opts cache).0
          ≡ or_not_found (first_some (answers equal_fold to_lower s opts from to)))
        × Keeps (resolve_sources equal_fold to_lower s from to opts cache).1
  unfolding resolve_sources answers
  resolve_sources-answers [] to opts cache all kt keeps = (refl, keeps)
  resolve_sources-answers (from ∷ fs) to opts cache (i, all) kt keeps =
      let (same, kept) = resolve_targets-answers_of from to opts cache i kt keeps in
      let rest =
        resolve_sources-answers fs to opts
          (resolve_targets equal_fold to_lower s from to opts cache).1 all kt kept in
      let here = answers_of equal_fold to_lower s opts from to in
      elim (Option-cases (first_some here)) [
        | inl e ↦ rw (resolve_sources, same, answers, e, first_some-append here _ e) rest
        | inr (r, e) ↦
            rw (resolve_sources, same, answers, e, first_some-append_some here _ r e) (refl, kept)
      ]

  pub resolve_path-resolve_plain :
      (from to : List EdgeInfo) (opts : PathOptions) (cache : PathCache)
      → All Known from
      → All Known to
      → Keeps cache
      → ((resolve_path equal_fold to_lower s from to opts cache).0
          ≡ resolve_plain equal_fold to_lower s from to opts)
        × Keeps (resolve_path equal_fold to_lower s from to opts cache).1
  unfolding resolve_path resolve_plain
  resolve_path-resolve_plain from to opts cache =
      resolve_sources-answers from to (without_empty opts opts.kind opts.through) cache

  abbrev KnownRequest : Request → Type 0
  KnownRequest r = All Known r.from × All Known r.to

  resolve_all-plain :
      (requests : List Request) (cache : PathCache)
      → All KnownRequest requests
      → Keeps cache
      → resolve_all equal_fold to_lower s requests cache
        ≡ map (λ r. resolve_plain equal_fold to_lower s r.from r.to r.opts) requests
  unfolding resolve_all
  resolve_all-plain [] cache all keeps = refl
  resolve_all-plain (r ∷ rs) cache ((f, t), all) keeps =
      let (same, kept) = resolve_path-resolve_plain r.from r.to r.opts cache f t keeps in
      ap₂ ◌∷◌ same (resolve_all-plain rs _ all kept)

-- The cache changes no answer: questions in a row, from an empty cache on, are each answered as
-- `resolve_plain` does, which has no cache, takes the first pair of a source and a target with an
-- answer, and searches each time. The hash must tell apart the lists of edges that the questions name.
pub resolve_all-resolve_plain :
    (equal_fold : Bytes → Bytes → Bool) (to_lower : Bytes → Bytes) (s : DbSchema)
    (known : List (List ℕ))
    (apart : (a b : List ℕ) → In a known → In b known → hash_edge_ids a ≡ hash_edge_ids b → a ≡ b)
    (requests : List Request)
    → All
        (λ r. All (λ f. In f.edge_ids known) r.from × All (λ t. In t.edge_ids known) r.to)
        requests
    → resolve_all equal_fold to_lower s requests []
      ≡ map (λ r. resolve_plain equal_fold to_lower s r.from r.to r.opts) requests
unfolding lookup_path_cache
resolve_all-resolve_plain equal_fold to_lower s known apart requests all =
    resolve_all-plain equal_fold to_lower s known apart requests [] all
      (λ from to opts edges i j h. cc)
