-- ===== src/Schema/Path/Reached.antt =====
-- Each item of the heap stands for a chain, and so does the path that the search returns.
use graphjin_slim.Base.{
  ℕ, zero, suc, ◌+◌, Bool, true, false, List, [], ◌∷◌, ◌++◌, ◌≡◌, ◌≢◌, refl, sym, ap, ◌∙◌, inl, inr,
  Bytes, Outcome, ok, err, panic, length, elem, arith, Bool-cases, Option-cases, List-cases, ==_iff,
  All, length-append,
}
use mathlib.Core.List.{append_assoc, append-nil}
use mathlib.Core.Path.{subst}
use graphjin_slim.Heap
use graphjin_slim.Heap.Content.{All-push, All-pop}
use graphjin_slim.Util.Graph.{Edge, GraphError, get_edges, connections}
use graphjin_slim.Schema.Path.{
  PathOptions, EdgeInfo, DbSchema, is_column, line_matches_column, PathItem, first, behind, node_of,
  prev_of, depth_of, seen_of, less, edges_onto, path_item_edges, lookup_best, is_settled, cost_of,
  best_of, Search, Round, again, arrived, nothing_left, out_of_range, round_with, round,
  line_allowed, require_to_anchor, item_behind, push_lines, push_connections, is_arrived, visit,
  rounds, start_item, start, shortest_path_edges, path_not_found, path_search_limit,
}
use graphjin_slim.Schema.Path.Chain.{In, here, there, Chain, begins, goes_on, IsPathBetween}

-- The edges on the way to an item, read from the front.
edges_to : PathItem → List ℕ
edges_to (first node seen) = []
edges_to (behind parent node edge cost order depth seen) = edges_to parent ++ (edge ∷ [])

-- Each item's depth is the number of its edges, up to the first.
IsDeep : PathItem → Type 0
IsDeep (first node seen) = Unit
IsDeep (behind parent node edge cost order depth seen) =
    (depth ≡ depth_of parent + 1) × IsDeep parent

length-edges_to : (item : PathItem) → IsDeep item → depth_of item ≡ length (edges_to item)
unfolding edges_to IsDeep
length-edges_to (first node seen) h = refl
length-edges_to (behind parent node edge cost order depth seen) h =
    omega (arith, h.0, length-edges_to parent h.1, length-append (edges_to parent) (edge ∷ []))

edges_onto-edges_to :
    (d : ℕ) (item : PathItem) (found : List ℕ)
    → IsDeep item
    → d ≡ depth_of item
    → edges_onto d item found ≡ edges_to item ++ found
unfolding edges_onto edges_to IsDeep
edges_onto-edges_to zero (first node seen) found h e = refl
edges_onto-edges_to (suc d) (first node seen) found h e = absurd (omega arith)
edges_onto-edges_to zero (behind parent node edge cost order depth seen) found h e =
    absurd (omega (arith, h.0))
edges_onto-edges_to (suc d) (behind parent node edge cost order depth seen) found h e =
    edges_onto-edges_to d parent (edge ∷ found) h.1 (omega (arith, h.0))
    ∙ sym (append_assoc (edges_to parent) (edge ∷ []) found)

module _ (equal_fold : Bytes → Bytes → Bool) (s : DbSchema) (from to : EdgeInfo)
    (opts : PathOptions) where
  record IsReached (item : PathItem) : Type 0 where
    deep : IsDeep item
    chain :
        Chain equal_fold s from to opts (node_of item) (prev_of item) (seen_of item) (edges_to item)

  start_item-IsReached : IsReached (start_item equal_fold s from to opts)
  unfolding start_item edges_to IsDeep
  start_item-IsReached = record { deep = tt; chain = begins }

  allowed-onward :
      (line : Edge) (prev depth : ℕ) (anchor : Bool)
      → line_allowed equal_fold s from to opts line prev depth anchor ≡ true
      → line.opp_id ≢ prev
  unfolding line_allowed
  allowed-onward line prev depth anchor h e = ground (arith, ==_iff line.opp_id prev)

  allowed-leaves :
      (line : Edge) (prev depth : ℕ) (anchor : Bool)
      → line_allowed equal_fold s from to opts line prev depth anchor ≡ true
      → depth ≡ 0
      → elem line.id from.edge_ids ≡ true
  unfolding line_allowed
  allowed-leaves line prev depth anchor h e = ground arith

  allowed-column :
      (line : Edge) (prev depth : ℕ) (anchor : Bool)
      → line_allowed equal_fold s from to opts line prev depth anchor ≡ true
      → is_column opts.kind ≡ true
      → line_matches_column equal_fold s line opts.through ≡ true
  unfolding line_allowed
  allowed-column line prev depth anchor h e = ground arith

  item_behind-IsReached :
      (item : PathItem) (next order : ℕ) (neighbours : List ℕ) (line : Edge) (anchor : Bool)
      → IsReached item
      → connections s.graph (node_of item) ≡ ok neighbours
      → In next neighbours
      → In line (get_edges s.graph (node_of item) next)
      → line_allowed equal_fold s from to opts line (prev_of item) (depth_of item) anchor ≡ true
      → IsReached (item_behind equal_fold s from to opts item next line order)
  unfolding edges_to IsDeep
  item_behind-IsReached item next order neighbours line anchor r connected near joins allowed =
      record {
        deep = (refl, r.deep);
        chain = goes_on line r.chain (record {
          neighbours = neighbours;
          connected = connected;
          next = near;
          joins = joins;
          onward = allowed-onward line (prev_of item) (depth_of item) anchor allowed;
          leaves = λ e.
              allowed-leaves line (prev_of item) (depth_of item) anchor allowed
                (length-edges_to item r.deep ∙ ap length e);
          column = allowed-column line (prev_of item) (depth_of item) anchor allowed;
        });
      }

  -- The loop over the lines pushes reached items only, as long as its lines are lines of the graph.
  push_lines-IsReached :
      (item : PathItem) (next : ℕ) (neighbours : List ℕ) (anchor : Bool) (lines : List Edge)
      (t : Search)
      → IsReached item
      → connections s.graph (node_of item) ≡ ok neighbours
      → In next neighbours
      → ((line : Edge) → In line lines → In line (get_edges s.graph (node_of item) next))
      → All IsReached t.heap
      → All IsReached (push_lines equal_fold s from to opts item next anchor lines t).heap
  unfolding push_lines
  push_lines-IsReached item next neighbours anchor [] t r connected near sub h = h
  push_lines-IsReached item next neighbours anchor (line ∷ ls) t r connected near sub h =
      elim (Bool-cases
        (line_allowed equal_fold s from to opts line (prev_of item) (depth_of item) anchor)) [
          | inl e ↦
              rw (push_lines, e)
                (push_lines-IsReached item next neighbours anchor ls _ r connected near
                  (λ l i. sub l (there i))
                  (All-push less IsReached t.heap _ h (
                    item_behind-IsReached item next (t.order + 1) neighbours line anchor r connected
                      near (sub line here) e)))
          | inr e ↦
              rw (push_lines, e)
                (push_lines-IsReached item next neighbours anchor ls t r connected near
                  (λ l i. sub l (there i)) h)
        ]

  push_connections-IsReached :
      (item : PathItem) (neighbours next : List ℕ) (t : Search)
      → IsReached item
      → connections s.graph (node_of item) ≡ ok neighbours
      → ((v : ℕ) → In v next → In v neighbours)
      → All IsReached t.heap
      → All IsReached (push_connections equal_fold s from to opts item next t).heap
  unfolding push_connections
  push_connections-IsReached item neighbours [] t r connected sub h = h
  push_connections-IsReached item neighbours (v ∷ vs) t r connected sub h =
      let lines = get_edges s.graph (node_of item) v in
      let anchor = require_to_anchor equal_fold s from to opts item v lines in
      push_connections-IsReached item neighbours vs _ r connected (λ w i. sub w (there i))
        (push_lines-IsReached item v neighbours anchor lines t r connected (sub v here) (λ l i. i)
          h)

  -- what a round says
  abbrev Holds : Round → Type 0
  Holds (again t) = All IsReached t.heap
  Holds (arrived edges) = IsPathBetween equal_fold s from to opts edges
  Holds nothing_left = Unit
  Holds out_of_range = Unit

  path_item_edges-IsPathBetween :
      (item : PathItem)
      → IsReached item
      → is_arrived equal_fold s from to opts item ≡ true
      → IsPathBetween equal_fold s from to opts (path_item_edges item)
  path_item_edges-IsPathBetween item r h =
      let same : path_item_edges item ≡ edges_to item =
        edges_onto-edges_to (depth_of item) item [] r.deep refl ∙ append-nil (edges_to item) in
      let at_target : node_of item ≡ to.node_id =
        ground (arith, ==_iff (node_of item) to.node_id) in
      let away : depth_of item ≢ 0 = λ e. ground arith in
      rw same (record {
        last = prev_of item;
        seen = seen_of item;
        chain =
            subst
              (λ v. Chain equal_fold s from to opts v (prev_of item) (seen_of item) (edges_to item))
              at_target r.chain;
        not_empty = λ e. away (length-edges_to item r.deep ∙ ap length e);
        through = λ k. ground arith;
      })

  visit-Holds :
      (item : PathItem) (t : Search)
      → IsReached item
      → All IsReached t.heap
      → Holds (visit equal_fold s from to opts item t)
  unfolding visit
  visit-Holds item t r h = elim (Bool-cases (is_settled (lookup_best t.best item) (cost_of item))) [
    | inl e ↦ rw (visit, e) h
    | inr e ↦ elim (Bool-cases (is_arrived equal_fold s from to opts item)) [
      | inl k ↦ rw (visit, e, k) (path_item_edges-IsPathBetween item r k)
      | inr k ↦ go (connections s.graph (node_of item)) refl e k
    ]
  ]
    where
      go :
          (o : Outcome GraphError (List ℕ))
          → connections s.graph (node_of item) ≡ o
          → is_settled (lookup_best t.best item) (cost_of item) ≡ false
          → is_arrived equal_fold s from to opts item ≡ false
          → Holds (visit equal_fold s from to opts item t)
      go (ok ns) c e k =
          rw (visit, e, k, c)
            (push_connections-IsReached item ns ns (record t { best = best_of item ∷ t.best }) r c
              (λ v i. i) h)
      go (err x) c e k = rw (visit, e, k, c) tt
      go panic c e k = rw (visit, e, k, c) tt

  round-Holds : (t : Search) → All IsReached t.heap → Holds (round equal_fold s from to opts t)
  unfolding round round_with
  round-Holds t h = elim (Option-cases (Heap.pop less t.heap)) [
    | inl e ↦ rw (round, e, round_with) tt
    | inr ((item, rest), e) ↦
        let (r, others) = All-pop less IsReached t.heap h e in
        rw (round, e, round_with) (visit-Holds item (record t { heap = rest }) r others)
  ]

  -- A search that ends with edges ends in a round that arrived.
  rounds-IsPathBetween :
      (n : ℕ) (t : Search) (edges : List ℕ)
      → All IsReached t.heap
      → rounds equal_fold s from to opts n t ≡ ok edges
      → IsPathBetween equal_fold s from to opts edges
  unfolding rounds
  rounds-IsPathBetween zero t edges h e = elim (List-cases t.heap) [
    | inl k ↦ absurd (cc (e, run_out k))
    | inr (item, items, k) ↦ absurd (cc (e, cut_off k))
  ]
    where
      run_out : t.heap ≡ [] → rounds equal_fold s from to opts zero t ≡ err path_not_found
      run_out k = rw (rounds, k) refl

      cut_off :
          {item : PathItem} {items : List PathItem}
          → t.heap ≡ item ∷ items
          → rounds equal_fold s from to opts zero t ≡ err path_search_limit
      cut_off k = rw (rounds, k) refl
  rounds-IsPathBetween (suc n) t edges h e =
      go (round equal_fold s from to opts t) refl (round-Holds t h)
        (λ u k l. rounds-IsPathBetween n u edges k l)
    where
      go :
          (r : Round)
          → round equal_fold s from to opts t ≡ r
          → Holds r
          → ((u : Search)
              → All IsReached u.heap
              → rounds equal_fold s from to opts n u ≡ ok edges
              → IsPathBetween equal_fold s from to opts edges)
          → IsPathBetween equal_fold s from to opts edges
      go (again u) k holds rest =
          let step : rounds equal_fold s from to opts (suc n) t
              ≡ rounds equal_fold s from to opts n u =
            rw (rounds, k) refl in
          rest u holds (sym step ∙ e)
      go (arrived found) k holds rest =
          let step : rounds equal_fold s from to opts (suc n) t ≡ ok found = rw (rounds, k) refl in
          let same : found ≡ edges = cc (step, e) in rw (← same) holds
      go nothing_left k holds rest =
          let step : rounds equal_fold s from to opts (suc n) t ≡ err path_not_found =
            rw (rounds, k) refl in
          absurd (cc (step, e))
      go out_of_range k holds rest =
          let step : rounds equal_fold s from to opts (suc n) t ≡ panic = rw (rounds, k) refl in
          absurd (cc (step, e))

-- If the search returns edges, then they are a path between the two tables: the first one leaves the
-- source by one of its edges, each next one begins where the last one ended, none leads straight
-- back, the last one ends in the target, each joins the column if one is named, and the path comes
-- through the named table if there is one.
pub shortest_path_edges-IsPathBetween :
    (equal_fold : Bytes → Bytes → Bool) (s : DbSchema) (from to : EdgeInfo) (opts : PathOptions)
    (edges : List ℕ)
    → shortest_path_edges equal_fold s from to opts ≡ ok edges
    → IsPathBetween equal_fold s from to opts edges
unfolding shortest_path_edges start
shortest_path_edges-IsPathBetween equal_fold s from to opts edges e =
    rounds-IsPathBetween equal_fold s from to opts _ (start equal_fold s from to opts) edges
      (All-push less (IsReached equal_fold s from to opts) [] _ tt
        (start_item-IsReached equal_fold s from to opts))
      e
