-- ===== src/Schema/Path/Total.antt =====
-- The search of core/sdata/path.go reads no connection out of range in a graph that the operations
-- of core/util/graph.go built.
use graphjin_slim.Base.{
  get_elem?_total, ℕ, zero, suc, ◌<◌, Bool, List, [], ◌∷◌, ◌≡◌, ◌≢◌, refl, inl, inr, Bytes, ok,
  panic, some, length, get_elem?, Bool-cases, Option-cases, List-cases, All, All-get_elem?,
}
use graphjin_slim.Heap
use graphjin_slim.Heap.Content.{All-push, All-pop}
use graphjin_slim.Util.Graph.{Edge, Graph, get_edges, connections}
use graphjin_slim.Util.Graph.Built.{RowsWithin, Built, Built-IsSound}
use graphjin_slim.Schema.Path.{
  PathOptions, EdgeInfo, DbSchema, PathItem, node_of, prev_of, depth_of, less, lookup_best,
  is_settled, cost_of, best_of, Search, Round, again, arrived, nothing_left, out_of_range,
  round_with, round, line_allowed, require_to_anchor, push_lines, push_connections, is_arrived,
  visit, rounds, start_item, start, shortest_path_edges,
}

connected :
    (g : Graph) (n : ℕ) (row : List ℕ) → get_elem? g.graph n ≡ some row → connections g n ≡ ok row
unfolding connections
connected g n row e = rw (connections, e) refl

module _ (equal_fold : Bytes → Bytes → Bool) (s : DbSchema) (from to : EdgeInfo)
    (opts : PathOptions) (rows : RowsWithin s.graph.graph (length s.graph.graph)) where
  abbrev StandsWithin : PathItem → Type 0
  StandsWithin item = node_of item < length s.graph.graph

  push_lines-within :
      (item : PathItem) (next : ℕ) (anchor : Bool) (lines : List Edge) (t : Search)
      → next < length s.graph.graph
      → All StandsWithin t.heap
      → All StandsWithin (push_lines equal_fold s from to opts item next anchor lines t).heap
  unfolding push_lines
  push_lines-within item next anchor [] t lt h = h
  push_lines-within item next anchor (line ∷ ls) t lt h =
      elim (Bool-cases
        (line_allowed equal_fold s from to opts line (prev_of item) (depth_of item) anchor)) [
          | inl e ↦
              rw (push_lines, e)
                (push_lines-within item next anchor ls _ lt
                  (All-push less StandsWithin t.heap _ h lt))
          | inr e ↦ rw (push_lines, e) (push_lines-within item next anchor ls t lt h)
        ]

  push_connections-within :
      (item : PathItem) (next : List ℕ) (t : Search)
      → All (λ v. v < length s.graph.graph) next
      → All StandsWithin t.heap
      → All StandsWithin (push_connections equal_fold s from to opts item next t).heap
  unfolding push_connections
  push_connections-within item [] t targets h = h
  push_connections-within item (v ∷ vs) t targets h =
      let lines = get_edges s.graph (node_of item) v in
      let anchor = require_to_anchor equal_fold s from to opts item v lines in
      push_connections-within item vs _ targets.1
        (push_lines-within item v anchor lines t targets.0 h)

  abbrev InRange : Round → Type 0
  InRange (again t) = All StandsWithin t.heap
  InRange (arrived edges) = Unit {0}
  InRange nothing_left = Unit {0}
  InRange out_of_range = ⊥

  visit-InRange :
      (item : PathItem) (t : Search)
      → StandsWithin item
      → All StandsWithin t.heap
      → InRange (visit equal_fold s from to opts item t)
  unfolding visit
  visit-InRange item t lt h =
      elim (Bool-cases (is_settled (lookup_best t.best item) (cost_of item))) [
        | inl e ↦ rw (visit, e) h
        | inr e ↦ elim (Bool-cases (is_arrived equal_fold s from to opts item)) [
          | inl k ↦ rw (visit, e, k) tt
          | inr k ↦
              let (row, at_row) = get_elem?_total s.graph.graph (node_of item) lt in
              let targets =
                All-get_elem? (All (λ v. v < length s.graph.graph)) s.graph.graph (node_of item)
                  rows at_row in
              rw (visit, e, k, connected s.graph (node_of item) row at_row)
                (push_connections-within item row (record t { best = best_of item ∷ t.best })
                  targets h)
        ]
      ]

  round-InRange :
      (t : Search) → All StandsWithin t.heap → InRange (round equal_fold s from to opts t)
  unfolding round round_with
  round-InRange t h = elim (Option-cases (Heap.pop less t.heap)) [
    | inl e ↦ rw (round, e, round_with) tt
    | inr ((item, rest), e) ↦
        let (lt, others) = All-pop less StandsWithin t.heap h e in
        rw (round, e, round_with) (visit-InRange item (record t { heap = rest }) lt others)
  ]

  rounds_end :
      (n : ℕ) (t : Search) → All StandsWithin t.heap → rounds equal_fold s from to opts n t ≢ panic
  unfolding rounds
  rounds_end zero t h = elim (List-cases t.heap) [
    | inl k ↦ rw (rounds, k) (λ e. cc)
    | inr (item, items, k) ↦ rw (rounds, k) (λ e. cc)
  ]
  rounds_end (suc n) t h =
      go (round equal_fold s from to opts t) refl (round-InRange t h) (λ u k. rounds_end n u k)
    where
      go :
          (r : Round)
          → round equal_fold s from to opts t ≡ r
          → InRange r
          → ((u : Search) → All StandsWithin u.heap → rounds equal_fold s from to opts n u ≢ panic)
          → rounds equal_fold s from to opts (suc n) t ≢ panic
      go (again u) k holds rest = rw (rounds, k) (rest u holds)
      go (arrived found) k holds rest = rw (rounds, k) (λ e. cc)
      go nothing_left k holds rest = rw (rounds, k) (λ e. cc)
      go out_of_range k holds rest = absurd holds

-- On a graph that `NewGraph`, `AddNode`, `AddEdge` and `UpdateEdge` built, with nodes that are not
-- negative and fewer of them than an int32 holds, the search from a table of the graph to any target
-- does not panic: it returns edges, or an error for a path that is not found
-- or for the limit.
pub shortest_path_edges_returns :
    (equal_fold : Bytes → Bytes → Bool) (s : DbSchema) (from to : EdgeInfo) (opts : PathOptions)
    → Built s.graph
    → from.node_id < length s.graph.graph
    → shortest_path_edges equal_fold s from to opts ≢ panic
unfolding shortest_path_edges start start_item
shortest_path_edges_returns equal_fold s from to opts b lt =
    rounds_end equal_fold s from to opts (Built-IsSound b).within _
      (start equal_fold s from to opts)
      (All-push less (StandsWithin equal_fold s from to opts (Built-IsSound b).within) []
        (start_item equal_fold s from to opts) tt lt)
