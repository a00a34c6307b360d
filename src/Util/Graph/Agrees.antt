-- ===== src/Util/Graph/Agrees.antt =====
-- The adjacency lists and the map of edges say the same, and what each operation does to both.
use Prim.Native.String.{String}
use graphjin_slim.Base.{
  ℕ, ◌<◌, Bool, true, false, ◌&&◌, List, [], ◌∷◌, ◌++◌, ◌≡◌, refl, inl, inr, Option, none, some, ok,
  length, get_elem?, get_or, set, elem, ◌==◌, if◌then◌else◌, lt-length_of_get_elem?,
  get_or_of_get_elem?, arith, Option-cases, ==_iff,
}
use graphjin_slim.Base.Int32.{incr, minus_one}
use graphjin_slim.Util.Graph.{
  Edge, Lines, Graph, lookup, store, link, put_edge, connect, add_edge, get_edges,
}

abbrev pub neighbours : Graph → ℕ → List ℕ
neighbours g n = get_or g.graph n []

abbrev pub is_some : Option (List Edge) → Bool
is_some none = false
is_some (some _) = true

-- `b` is among the connections of `a` if and only if the map has an entry for the pair.
abbrev pub Agrees : Graph → Type 0
Agrees g = (a b : ℕ) → elem b (neighbours g a) ≡ is_some (lookup g.edges a b)

pub lookup-store :
    (ls : List Lines) (from to a b : ℕ) (es : List Edge)
    → lookup (store ls from to es) a b ≡ (if from == a && to == b then some es else lookup ls a b)
unfolding lookup store
lookup-store [] from to a b es = refl
lookup-store (l ∷ ls) from to a b es = ground (arith, lookup-store ls from to a b es)

-- What a successful `AddEdge` leaves behind, field by field.
pub record Added (g h : Graph) (from to weight id : ℕ) (name : String) : Type 0 where
  pub id_is : id ≡ g.edge_id
  pub counter : h.edge_id ≡ incr g.edge_id
  pub edges_are : h.edges ≡ (put_edge g from to weight name).edges
  pub rows_are : h.graph ≡ (
      if is_some (lookup g.edges from to)
      then g.graph
      else set g.graph from (neighbours g from ++ (to ∷ [])))
  pub in_range : (is_some (lookup g.edges from to) ≡ false) → from < length g.graph

pub add_edge-Added :
    (g h : Graph) (from to weight id : ℕ) (name : String)
    → add_edge g from to weight name ≡ ok (h, id)
    → Added g h from to weight id name
unfolding add_edge connect link
add_edge-Added g h from to weight id name e = elim (Option-cases (get_elem? g.graph from)) [
  | inl out ↦ ground arith
  | inr (row, at_from) ↦ ground (
    arith,
    lt-length_of_get_elem? g.graph from at_from,
    get_or_of_get_elem? g.graph from [] at_from,
  )
]

-- If `AddEdge` from `from` to `to` ends without an error and returns `id`, then `GetEdges` of that
-- pair returns the older edges with the new one behind them, which has that id, weight and name and
-- the opposite id -1, and `GetEdges` of each other pair returns what it returned before.
pub get_edges-add_edge :
    (g h : Graph) (from to weight id : ℕ) (name : String) (a b : ℕ)
    → add_edge g from to weight name ≡ ok (h, id)
    → get_edges h a b ≡ (
        if from == a && to == b
        then get_edges g a b
          ++ (record { id = id; opp_id = minus_one; weight = weight; name = name } ∷ [])
        else get_edges g a b)
unfolding get_edges
get_edges-add_edge g h from to weight id name a b e =
    let added = add_edge-Added g h from to weight id name e in
    rw (added.edges_are, added.id_is, lookup-store) (ground (arith, ==_iff from a, ==_iff to b))
