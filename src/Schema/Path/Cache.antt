-- ===== src/Schema/Path/Cache.antt =====
-- core/sdata/path.go: the cache of the paths that the search found, by a key of the question. The
-- mutex makes a lookup and a store single steps; a store copies the edges, as does a lookup.
use Prim.Native.Nat.{bit_xor}
use graphjin_slim.Base.{
  ℕ, ◌+◌, ◌*◌, ◌%◌, Bool, ◌&&◌, List, [], ◌∷◌, Option, none, some, Bytes, length, ◌==◌,
  if◌then◌else◌, equal,
}
use graphjin_slim.Base.Int32.{modulus}
use graphjin_slim.Schema.Path.{
  PathThroughKind, through_none, through_table, through_column, PathOptions, EdgeInfo,
}

pub record PathCacheKey : Type 0 where
  pub from_node : ℕ
  pub to_node : ℕ
  pub through_node : ℕ
  pub from_edges : ℕ
  pub to_edges : ℕ
  pub through_kind : PathThroughKind
  pub through : Bytes

-- 2 ^ 64
abbrev word : ℕ
word = 18446744073709551616

-- the loop over the ids, with the hash so far
unfoldable pub hash_onto : ℕ → List ℕ → ℕ
hash_onto h [] = h
hash_onto h (id ∷ ids) =
    hash_onto ((bit_xor h ((id % modulus + 0x9e3779b97f4a7c15) % word) * 1099511628211) % word) ids

unfoldable pub hash_edge_ids : List ℕ → ℕ
unfolding hash_onto
hash_edge_ids ids = bit_xor (hash_onto 1469598103934665603 ids) (length ids % word)

abbrev pub make_path_cache_key : EdgeInfo → EdgeInfo → PathOptions → PathCacheKey
make_path_cache_key from to opts = record {
  from_node = from.node_id;
  to_node = to.node_id;
  through_node = opts.through_node;
  from_edges = hash_edge_ids from.edge_ids;
  to_edges = hash_edge_ids to.edge_ids;
  through_kind = opts.kind;
  through = opts.through;
}

abbrev pub kind_rank : PathThroughKind → ℕ
kind_rank through_none = 0
kind_rank through_table = 1
kind_rank through_column = 2

-- the comparison of two keys of a map
unfoldable pub same_key : PathCacheKey → PathCacheKey → Bool
same_key a b =
    ((a.from_node == b.from_node && a.to_node == b.to_node)
      && (a.through_node == b.through_node && a.from_edges == b.from_edges))
    && (a.to_edges == b.to_edges
        && (kind_rank a.through_kind == kind_rank b.through_kind && equal a.through b.through))

-- The newest entry of a key stands first and hides the older ones.
abbrev pub PathCache : Type 0
PathCache = List (PathCacheKey × List ℕ)

unfoldable pub lookup_path_cache : PathCache → PathCacheKey → Option (List ℕ)
unfolding same_key
lookup_path_cache [] key = none
lookup_path_cache ((k, edges) ∷ cache) key =
    if same_key k key then some edges else lookup_path_cache cache key

unfoldable pub store_path_cache : PathCacheKey → List ℕ → PathCache → PathCache
store_path_cache key edges cache = (key, edges) ∷ cache
