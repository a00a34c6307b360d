-- ===== src/Util/Paths/Total.antt =====
-- `AllPaths` reads no connection out of range in a graph that the operations built.
use graphjin_slim.Base.{
  get_elem?_total, ℕ, zero, suc, ◌<◌, ◌&&◌, List, [], ◌∷◌, ◌++◌, ◌≡◌, refl, none, some, inl, inr,
  ok, length, ltb, ◌==◌, Bool-cases, Option-cases, All, All-get_elem?,
}
use graphjin_slim.Heap
use graphjin_slim.Heap.Content.{All-push, All-pop}
use graphjin_slim.Util.Graph.{Graph}
use graphjin_slim.Util.Graph.Built.{RowsWithin, Built, Built-IsSound}
use graphjin_slim.Util.Paths.{
  PathItem, less, is_visited, last_node, contains_path, extend, skips, expand, Search, Round, again,
  done, out_of_range, accept, grow, round_with, round, rounds, initial, max_rounds, search,
  all_paths,
}

last_node-append : (ns : List ℕ) (e : ℕ) → last_node (ns ++ (e ∷ [])) ≡ e
unfolding last_node
last_node-append [] e = refl
last_node-append (n ∷ []) e = refl
last_node-append (n ∷ m ∷ ns) e = last_node-append (m ∷ ns) e

abbrev EndsWithin : Graph → PathItem → Type 0
EndsWithin g p = last_node p.nodes < length g.graph

module _ (g : Graph) (to : ℕ) (rows : RowsWithin g.graph (length g.graph)) where
  expand-EndsWithin :
      (p : PathItem) (es : List ℕ) (h : List PathItem)
      → All (λ v. v < length g.graph) es
      → All (EndsWithin g) h
      → All (EndsWithin g) (expand [] p to es h)
  unfolding expand extend
  expand-EndsWithin p [] h targets items = items
  expand-EndsWithin p (e ∷ es) h targets items = elim (Bool-cases (skips [] p to e)) [
    | inl skip ↦ rw skip (expand-EndsWithin p es h targets.1 items)
    | inr kept ↦ rw kept (
        expand-EndsWithin p es (Heap.push less h (extend p e)) targets.1
          (All-push less (EndsWithin g) h (extend p e) items (rw last_node-append targets.0)))
  ]

  abbrev InRange : Round → Type 0
  InRange (again s) = All (EndsWithin g) s.heap
  InRange (done s) = Unit {0}
  InRange out_of_range = ⊥

  popped-InRange :
      (s : Search) (p : PathItem) (h : List PathItem)
      → EndsWithin g p
      → All (EndsWithin g) h
      → InRange (round_with g [] to s (some (p, h)))
  unfolding round_with is_visited
  popped-InRange s p h lt items =
      elim (Bool-cases (last_node p.nodes == to && ltb 1 (length p.nodes))) [
        | inl ended ↦ rw ended accepted
        | inr goes_on ↦
            let (es, row) = get_elem?_total g.graph (last_node p.nodes) lt in
            rw (goes_on, row, grow)
              (expand-EndsWithin p es h
                (All-get_elem? (All (λ v. v < length g.graph)) g.graph (last_node p.nodes) rows row)
                items)
      ]
    where
      accepted : InRange (accept h s.paths p.nodes)
      accepted = elim (Bool-cases (contains_path s.paths p.nodes)) [
        | inl old ↦ rw (old, accept) tt
        | inr new ↦ rw (new, accept) items
      ]

  round-InRange : (s : Search) → All (EndsWithin g) s.heap → InRange (round g [] to s)
  unfolding round
  round-InRange s items = elim (Option-cases (Heap.pop less s.heap)) [
    | inl empty ↦ rw empty (unfold round_with in tt)
    | inr ((p, h), popped) ↦
        let (lt, rest) = All-pop less (EndsWithin g) s.heap items popped in
        rw popped (popped-InRange s p h lt rest)
  ]

  rounds_total :
      (n : ℕ) (s : Search)
      → All (EndsWithin g) s.heap
      → (t : Search) × (rounds n g [] to s ≡ some t)
  unfolding rounds
  rounds_total zero s items = (s, refl)
  rounds_total (suc n) s items = go (round g [] to s) (round-InRange s items) (rounds_total n)
    where
      go :
          (r : Round)
          → InRange r
          → ((s' : Search)
              → All (EndsWithin g) s'.heap
              → (t : Search) × (rounds n g [] to s' ≡ some t))
          → (t : Search) × ((elim r [
            | again s' ↦ rounds n g [] to s'
            | done s' ↦ some s'
            | out_of_range ↦ none
          ])
              ≡ some t)
      go (again s') range rec = rec s' range
      go (done s') range rec = (s', refl)
      go out_of_range range rec = absurd range

initial-EndsWithin :
    (g : Graph) (from : ℕ) → from < length g.graph → All (EndsWithin g) (initial from).heap
unfolding initial last_node
initial-EndsWithin g from h =
    All-push less (EndsWithin g) []
      (record { weight = 0; parent = from; nodes = from ∷ []; visited = [] }) tt h

found :
    (g : Graph) (from to : ℕ) (s : Search)
    → rounds max_rounds g [] to (initial from) ≡ some s
    → all_paths g from to ≡ ok s.paths
unfolding all_paths
found g from to s e = rw (e, all_paths, search) refl

-- On a graph that `NewGraph`, `AddNode`, `AddEdge` and `UpdateEdge` built, with nodes that are not
-- negative and fewer of them than an int32 holds, `AllPaths` from a node of the graph to any target
-- returns, with no index out of range.
pub all_paths_returns :
    (g : Graph) (from to : ℕ)
    → Built g
    → from < length g.graph
    → (paths : List (List ℕ)) × (all_paths g from to ≡ ok paths)
all_paths_returns g from to b h =
    let sound = Built-IsSound b in
    let (s, e) =
      rounds_total g to sound.within max_rounds (initial from) (initial-EndsWithin g from h) in
    (s.paths, found g from to s e)
