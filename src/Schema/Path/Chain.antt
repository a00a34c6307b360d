-- ===== src/Schema/Path/Chain.antt =====
-- What a path between two tables is, without the search.
use graphjin_slim.Base.{
  ℕ, Bool, true, ◌&&◌, ◌||◌, List, [], ◌∷◌, ◌++◌, ◌≡◌, ◌≢◌, Bytes, ok, elem, ◌==◌, All,
}
use graphjin_slim.Util.Graph.{Edge, get_edges, connections}
use graphjin_slim.Schema.Path.{
  PathOptions, EdgeInfo, DbSchema, is_table, is_column, no_edge, line_matches_column,
}

-- one of the members of a list
pub data In {ℓ} {A : Type ℓ} (a : A) : List A → Type ℓ where
  here : {xs : List A} → In a (a ∷ xs)
  there : {x : A} {xs : List A} → In a xs → In a (x ∷ xs)

pub In-All {ℓ κ} : {A : Type ℓ} (P : A → Type κ) (a : A) (xs : List A) → All P xs → In a xs → P a
In-All P a _ all here = all.0
In-All P a _ all (there {xs = xs} i) = In-All P a xs all.1 i

-- One edge `line` from `u` to `v` that a path may take behind the edge `prev`: it is in the graph,
-- does not lead straight back, begins with an edge of the source, and joins the named column.
pub record IsStep (equal_fold : Bytes → Bytes → Bool) (s : DbSchema) (from to : EdgeInfo)
    (opts : PathOptions) (u prev : ℕ) (edges : List ℕ) (v : ℕ) (line : Edge) : Type 0 where
  pub neighbours : List ℕ
  pub connected : connections s.graph u ≡ ok neighbours
  pub next : In v neighbours
  pub joins : In line (get_edges s.graph u v)
  pub onward : line.opp_id ≢ prev
  pub leaves : edges ≡ [] → elem line.id from.edge_ids ≡ true
  pub column :
      is_column opts.kind ≡ true → line_matches_column equal_fold s line opts.through ≡ true

-- A chain of edges from the source to a node, with its last edge, whether it came through the named
-- table, and the ids of its edges.
pub data Chain (equal_fold : Bytes → Bytes → Bool) (s : DbSchema) (from to : EdgeInfo)
    (opts : PathOptions) : ℕ → ℕ → Bool → List ℕ → Type 0 where
  begins :
      Chain equal_fold s from to opts from.node_id no_edge
        (is_table opts.kind && from.node_id == opts.through_node)
        []
  goes_on :
      {u prev v : ℕ} {seen : Bool} {edges : List ℕ} (line : Edge)
      → Chain equal_fold s from to opts u prev seen edges
      → IsStep equal_fold s from to opts u prev edges v line
      → Chain equal_fold s from to opts v line.id
          (seen || (is_table opts.kind && v == opts.through_node))
          (edges ++ (line.id ∷ []))

-- A path from the source to the target: a chain with an edge, through the named table if there is
-- one.
pub record IsPathBetween (equal_fold : Bytes → Bytes → Bool) (s : DbSchema) (from to : EdgeInfo)
    (opts : PathOptions) (edges : List ℕ) : Type 0 where
  pub last : ℕ
  pub seen : Bool
  pub chain : Chain equal_fold s from to opts to.node_id last seen edges
  pub not_empty : edges ≢ []
  pub through : is_table opts.kind ≡ true → seen ≡ true
