-- ===== src/Util/Graph/Built.antt =====
-- The graphs that calls of `NewGraph`, `AddNode`, `AddEdge` and `UpdateEdge` build.
use Prim.Native.String.{String}
use graphjin_slim.Base.{
  ℕ, zero, suc, ◌≤◌, ◌<◌, false, List, [], ◌∷◌, ◌++◌, ◌≡◌, refl, inl, inr, ◌∙◌, some, ok, length,
  get_or, set, ◌==◌, if◌then◌else◌, arith, Option-cases, Bool-cases, ==_iff, All, elem-append,
  All-append, All-get_or, All-set, length-append, length-set,
}
use graphjin_slim.Base.Int32.{of_int, sge, half}
use graphjin_slim.Util.Graph.{
  Edge, Graph, lookup, store, new_graph, add_node, add_edge, update_line, update_edge,
}
use graphjin_slim.Util.Graph.Agrees.{neighbours, is_some, Agrees, lookup-store, add_edge-Added}

pub get_or-set {ℓ} :
    {A : Type ℓ} (xs : List A) (i j : ℕ) (v d : A)
    → i < length xs
    → get_or (set xs i v) j d ≡ (if i == j then v else get_or xs j d)
get_or-set [] i j v d h = absurd (omega arith)
get_or-set (x ∷ xs) zero zero v d h = refl
get_or-set (x ∷ xs) zero (suc j) v d h = ground arith
get_or-set (x ∷ xs) (suc i) zero v d h = ground arith
get_or-set (x ∷ xs) (suc i) (suc j) v d h = ground (arith, get_or-set xs i j v d)

get_or-add_row : (rows : List (List ℕ)) (a : ℕ) → get_or (rows ++ ([] ∷ [])) a [] ≡ get_or rows a []
get_or-add_row [] zero = refl
get_or-add_row [] (suc a) = refl
get_or-add_row (r ∷ rows) zero = refl
get_or-add_row (r ∷ rows) (suc a) = get_or-add_row rows a

Agrees-new_graph : Agrees new_graph
unfolding new_graph lookup
Agrees-new_graph a b = refl

Agrees-add_node : (g : Graph) → Agrees g → Agrees (add_node g).0
unfolding add_node
Agrees-add_node g h a b = rw get_or-add_row (h a b)

-- A successful `AddEdge` keeps the connections and the map of edges in step.
pub Agrees-add_edge :
    (g h : Graph) (from to weight id : ℕ) (name : String)
    → Agrees g
    → add_edge g from to weight name ≡ ok (h, id)
    → Agrees h
Agrees-add_edge g h from to weight id name agrees e a b =
    let added = add_edge-Added g h from to weight id name e in
    elim (Option-cases (lookup g.edges from to)) [
      | inl new ↦
          let lt = added.in_range (rw new) in
          rw (added.edges_are, added.rows_are, lookup-store, new)
            (ground (
              arith,
              agrees a b,
              get_or-set g.graph from a (neighbours g from ++ (to ∷ [])) [] lt,
              elem-append b (neighbours g from) to,
              ==_iff from a,
              ==_iff to b,
            ))
      | inr (es, old) ↦
          rw (added.edges_are, added.rows_are, lookup-store, old)
            (ground (arith, agrees a b, ==_iff from a, ==_iff to b))
    ]

-- What a successful `UpdateEdge` leaves behind.
update_edge-eq-ok :
    (g h : Graph) (from to id opp : ℕ)
    → update_edge g from to id opp ≡ ok h
    → (es es' : List Edge) × (lookup g.edges from to ≡ some es)
      × (update_line es id opp ≡ some es')
      × (h.edges ≡ store g.edges from to es')
      × (h.graph ≡ g.graph)
      × (h.edge_id ≡ g.edge_id)
unfolding update_edge
update_edge-eq-ok g h from to id opp e = elim (Option-cases (lookup g.edges from to)) [
  | inl missing ↦ absurd (ground arith)
  | inr (es, old) ↦ elim (Option-cases (update_line es id opp)) [
    | inl missing ↦ absurd (ground arith)
    | inr (es', new) ↦ (es, es', old, new, ground arith, ground arith, ground arith)
  ]
]

pub Agrees-update_edge :
    (g h : Graph) (from to id opp : ℕ) → Agrees g → update_edge g from to id opp ≡ ok h → Agrees h
Agrees-update_edge g h from to id opp agrees e a b =
    let (es, es', old, new, edges_are, rows_are, _) = update_edge-eq-ok g h from to id opp e in
    rw (edges_are, rows_are, lookup-store) (ground (arith, agrees a b, ==_iff from a, ==_iff to b))

-- Targets of connections are nodes.
abbrev Within : ℕ → ℕ → Type 0
Within n v = v < n

abbrev pub RowsWithin : List (List ℕ) → ℕ → Type 0
RowsWithin rows n = All (All (Within n)) rows

Within-mono : (n m : ℕ) → n ≤ m → (row : List ℕ) → All (Within n) row → All (Within m) row
Within-mono n m le [] h = tt
Within-mono n m le (v ∷ row) h = (omega arith, Within-mono n m le row h.1)

RowsWithin-mono : (n m : ℕ) → n ≤ m → (rows : List (List ℕ)) → RowsWithin rows n → RowsWithin rows m
RowsWithin-mono n m le [] h = tt
RowsWithin-mono n m le (r ∷ rows) h = (Within-mono n m le r h.0, RowsWithin-mono n m le rows h.1)

-- The graphs within the range of `int32` that the four operations build. `AddEdge` takes a
-- negative target for a node, so its calls are those with a target that is none.
pub data Built : Graph → Type 0 where
  made : Built new_graph
  node : {g : Graph} → Built g → suc (length g.graph) < half → Built (add_node g).0
  edge :
      {g h : Graph} (from to weight id : ℕ) (name : String)
      → Built g
      → to < half
      → add_edge g from to weight name ≡ ok (h, id)
      → Built h
  updated :
      {g h : Graph} (from to id opp : ℕ) → Built g → update_edge g from to id opp ≡ ok h → Built h

pub record IsSound (g : Graph) : Type 0 where
  pub agrees : Agrees g
  pub within : RowsWithin g.graph (length g.graph)
  pub small : length g.graph < half

IsSound-add_node : (g : Graph) → IsSound g → suc (length g.graph) < half → IsSound (add_node g).0
unfolding add_node
IsSound-add_node g s h =
    let grown : length (g.graph ++ ([] ∷ [])) ≡ suc (length g.graph) =
      omega (arith, length-append g.graph ([] ∷ [])) in
    record {
      agrees = Agrees-add_node g s.agrees;
      within = rw grown (
          All-append (All (Within (suc (length g.graph)))) g.graph ([] ∷ [])
            (RowsWithin-mono (length g.graph) (suc (length g.graph)) (omega arith) g.graph s.within)
            (tt, tt));
      small = rw grown h;
    }

not_sge : (a n : ℕ) → a < half → n < half → sge a (of_int n) ≡ false → a < n
not_sge a n h k e = ground arith

-- The guard of `AddEdge` on the target, for numbers of nodes and targets that are not negative.
to_in_range :
    (g h : Graph) (from to weight id : ℕ) (name : String)
    → length g.graph < half
    → to < half
    → add_edge g from to weight name ≡ ok (h, id)
    → to < length g.graph
unfolding add_edge
to_in_range g h from to weight id name small pos e =
    elim (Bool-cases (sge to (of_int (length g.graph)))) [
      | inl above ↦ absurd (ground arith)
      | inr below ↦ not_sge to (length g.graph) pos small below
    ]

IsSound-add_edge :
    (g h : Graph) (from to weight id : ℕ) (name : String)
    → IsSound g
    → to < half
    → add_edge g from to weight name ≡ ok (h, id)
    → IsSound h
IsSound-add_edge g h from to weight id name s pos e =
    let to_ok = to_in_range g h from to weight id name s.small pos e in
    let added = add_edge-Added g h from to weight id name e in
    let agrees' = Agrees-add_edge g h from to weight id name s.agrees e in
    elim (Bool-cases (is_some (lookup g.edges from to))) [
      | inl old ↦
          let rows : h.graph ≡ g.graph = added.rows_are ∙ rw old refl in
          record { agrees = agrees'; within = rw rows s.within; small = rw rows s.small }
      | inr new ↦
          let row = neighbours g from ++ (to ∷ []) in
          let rows : h.graph ≡ set g.graph from row = added.rows_are ∙ rw new refl in
          let n = length g.graph in
          let row_ok =
            All-append (Within n) (neighbours g from) (to ∷ [])
              (All-get_or (All (Within n)) g.graph from [] s.within tt) (to_ok, tt) in
          record {
            agrees = agrees';
            within =
                rw (rows, length-set) (All-set (All (Within n)) g.graph from row s.within row_ok);
            small = rw (rows, length-set) s.small;
          }
    ]

-- A graph that `NewGraph`, `AddNode`, `AddEdge` and `UpdateEdge` built, with nodes that are not
-- negative and fewer of them than an int32 holds, is sound: its connections agree with its edges,
-- each connection is a node of the graph, and the number of nodes is not negative as an int32.
pub Built-IsSound : {g : Graph} → Built g → IsSound g
unfolding new_graph
Built-IsSound made = record { agrees = Agrees-new_graph; within = tt; small = omega arith }
Built-IsSound (node {g} b h) = IsSound-add_node g (Built-IsSound b) h
Built-IsSound (edge {g} {h} from to weight id name b pos e) =
    IsSound-add_edge g h from to weight id name (Built-IsSound b) pos e
Built-IsSound (updated {g} {h} from to id opp b e) =
    let s = Built-IsSound b in
    let (es, es', old, new, edges_are, rows_are, _) = update_edge-eq-ok g h from to id opp e in
    record {
      agrees = Agrees-update_edge g h from to id opp s.agrees e;
      within = rw rows_are s.within;
      small = rw rows_are s.small;
    }
