-- ===== src/Util/Paths/Complete.antt =====
-- A search that empties the heap has found every path.
use mathlib.Core.Path.{subst}
use mathlib.Core.Option.{some-injective}
use mathlib.Core.List.{append-nil}
use graphjin_slim.Base.{
  ℕ, zero, suc, ◌+◌, ◌≤◌, ◌<◌, true, false, ◌&&◌, ◌||◌, List, [], ◌∷◌, ◌++◌, ◌≡◌, refl, ◌⊎◌, ◌↔◌,
  inl, inr, sym, ap, ◌∙◌, Option, none, some, length, get_elem?, elem, equal, equal_iff, ltb, ◌==◌,
  arith, Bool-cases, List-cases, ==_iff, All, get_or_of_get_elem?,
}
use graphjin_slim.Heap
use graphjin_slim.Heap.Content.{total, total-push, pop-nil, pop-cons, All-pop}
use graphjin_slim.Util.Graph.{Graph}
use graphjin_slim.Util.Paths.{
  PathItem, less, is_visited, last_node, contains_path, extend, skips, expand, Search, Round, again,
  done, out_of_range, accept, grow, round_with, round, rounds, initial, max_rounds, search,
}
use graphjin_slim.Util.Paths.Walks.{last_node-cons, Edge, Chain, last_of, tail, distinct}
use graphjin_slim.Util.Paths.Sound.{
  IsRoute, IsPath, IsPath_of_IsRoute, Inv, InvRound, round-Inv, search-Inv, initial-Inv,
}
use graphjin_slim.Util.Paths.Prefixes.{
  Chain_next, append_assoc-cons, distinct_next, elem-middle, last_ends, leads_to, one_of, one_start,
  prefix_of, prefix_of-append, prefix_rest,
}

module _ (g : Graph) (from to : ℕ) where
  -- A complete item that leads to a path is that path.
  complete_item :
      (w : List ℕ) (path : IsPath g from to w) (p : PathItem)
      → prefix_of p.nodes w ≡ true
      → IsPath g from to p.nodes
      → p.nodes ≡ w
  complete_item w path p h full =
      let (tl, e) = prefix_rest p.nodes w h in
      let tails : path.first ∷ path.others ≡ full.first ∷ (full.others ++ tl) =
        ap tail (sym path.shape ∙ e ∙ ap (λ ns. ns ++ tl) full.shape) in
      let nothing : tl ≡ [] =
        last_ends full.first full.others tl (subst (λ vs. distinct vs ≡ true) tails path.different)
          (full.ends ∙ sym path.ends ∙ ap (last_of from) tails) in
      sym (e ∙ ap (λ rest. p.nodes ++ rest) nothing ∙ append-nil p.nodes)

  -- An item with no node behind it that leads to a path has reached the goal.
  at_goal :
      (w : List ℕ) (path : IsPath g from to w) (p : PathItem) (r : IsRoute g from to p)
      → path.first ∷ path.others ≡ r.rest
      → (last_node p.nodes == to && ltb 1 (length p.nodes)) ≡ true
  at_goal w path p r e =
      let nodes : p.nodes ≡ from ∷ path.first ∷ path.others = r.shape ∙ ap (◌∷◌ from) (sym e) in
      let at_end : last_node p.nodes ≡ to =
        ap last_node nodes ∙ last_node-cons from (path.first ∷ path.others) ∙ path.ends in
      let len : length p.nodes ≡ suc (suc (length path.others)) = ap length nodes in ground arith

  -- The next node of a path is a neighbour that the inner loop does not skip.
  next_kept :
      (w : List ℕ) (path : IsPath g from to w) (p : PathItem) (r : IsRoute g from to p) (e : ℕ)
      (tl : List ℕ)
      → path.first ∷ path.others ≡ r.rest ++ (e ∷ tl)
      → skips [] p to e ≡ false
  unfolding skips is_visited
  next_kept w path p r e tl joined = split r.rest refl r.seen
    where
      split :
          (vs : List ℕ)
          → r.rest ≡ vs
          → (r.rest ≡ []) ⊎ (p.visited ≡ p.nodes)
          → skips [] p to e ≡ false
      split vs eq (inl start) = rw (r.unseen start) refl
      split [] eq (inr all) = rw (r.unseen eq) refl
      split (v ∷ vs) eq (inr all) =
          let listed : elem e p.visited ≡ (from == e || elem e r.rest) =
            ap (elem e) (all ∙ r.shape) in
          let new : elem e r.rest ≡ false =
            distinct_next r.rest e tl (subst (λ ns. distinct ns ≡ true) joined path.different) in
          let others : path.others ≡ vs ++ (e ∷ tl) =
            ap tail (joined ∙ ap (λ ns. ns ++ (e ∷ tl)) eq) in
          let back : elem from path.others ≡ (elem from vs || (e == from || elem from tl)) =
            ap (elem from) others ∙ elem-middle from vs e tl in
          ground (arith, path.home, ==_iff e to, ==_iff from e, ==_iff e from, ==_iff from to)

  next_node :
      (w : List ℕ) (path : IsPath g from to w) (p : PathItem) (r : IsRoute g from to p)
      → prefix_of p.nodes w ≡ true
      → (last_node p.nodes == to && ltb 1 (length p.nodes)) ≡ false
      → (e : ℕ) × Edge g (last_node p.nodes) e
        × (skips [] p to e ≡ false)
        × (prefix_of (p.nodes ++ (e ∷ [])) w ≡ true)
  next_node w path p r h goes_on = split (prefix_rest p.nodes w h)
    where
      split :
          (tl : List ℕ) × (w ≡ p.nodes ++ tl)
          → (e : ℕ) × Edge g (last_node p.nodes) e
            × (skips [] p to e ≡ false)
            × (prefix_of (p.nodes ++ (e ∷ [])) w ≡ true)
      split ([], e) =
          let full =
            at_goal w path p r (ap tail (sym path.shape ∙ e ∙ append-nil p.nodes ∙ r.shape)) in
          cc
      split (x ∷ tl, e) =
          let joined : path.first ∷ path.others ≡ r.rest ++ (x ∷ tl) =
            ap tail (sym path.shape ∙ e ∙ ap (λ ns. ns ++ (x ∷ tl)) r.shape) in
          let at_end : last_node p.nodes ≡ last_of from r.rest =
            ap last_node r.shape ∙ last_node-cons from r.rest in
          (
            x,
            rw at_end (Chain_next g from r.rest x tl (subst (Chain g from) joined path.chain)),
            next_kept w path p r x tl joined,
            rw (e, append_assoc-cons p.nodes x tl) (prefix_of-append (p.nodes ++ (x ∷ [])) tl),
          )

  module _ (w : List ℕ) (path : IsPath g from to w) where
    -- The path is found already, or some item still leads to it.
    abbrev Pending : List PathItem → List (List ℕ) → Type 0
    Pending h paths = (contains_path paths w ≡ true) ⊎ (0 < total (leads_to w) h)

    abbrev PendingRound : Round → Type 0
    PendingRound (again s) = Pending s.heap s.paths
    PendingRound (done s) = Pending s.heap s.paths
    PendingRound out_of_range = Unit {0}

    expand-le :
        (p : PathItem) (es : List ℕ) (h : List PathItem)
        → total (leads_to w) h ≤ total (leads_to w) (expand [] p to es h)
    unfolding expand
    expand-le p [] h = omega arith
    expand-le p (e ∷ es) h = elim (Bool-cases (skips [] p to e)) [
      | inl skip ↦ rw skip (expand-le p es h)
      | inr kept ↦ rw kept (
          omega (
            arith,
            expand-le p es (Heap.push less h (extend p e)),
            total-push less (leads_to w) h (extend p e),
          ))
    ]

    expand_pushes :
        (p : PathItem) (e : ℕ) (es : List ℕ) (h : List PathItem)
        → elem e es ≡ true
        → skips [] p to e ≡ false
        → prefix_of (p.nodes ++ (e ∷ [])) w ≡ true
        → 0 < total (leads_to w) (expand [] p to es h)
    unfolding expand extend
    expand_pushes p e [] h m kept leads = cc
    expand_pushes p e (x ∷ es) h m kept leads = elim (Bool-cases (x == e)) [
      | inl same ↦
          let same' : x ≡ e = (==_iff x e).0 same in
          rw (same', kept)
            (omega (
              arith,
              expand-le p es (Heap.push less h (extend p e)),
              total-push less (leads_to w) h (extend p e),
              one_of w p e leads,
            ))
      | inr other ↦ expand_pushes p e es _ (ground arith) kept leads
    ]

    contains_path-append :
        (paths : List (List ℕ)) (nodes : List ℕ)
        → contains_path (paths ++ (nodes ∷ [])) w ≡ (contains_path paths w || equal nodes w)
    unfolding contains_path
    contains_path-append [] nodes = ground arith
    contains_path-append (v ∷ vs) nodes = ground (arith, contains_path-append vs nodes)

    -- An item that leads to the path has been popped.
    leading-Pending :
        (s : Search) (p : PathItem) (h : List PathItem)
        → IsRoute g from to p
        → prefix_of p.nodes w ≡ true
        → PendingRound (round_with g [] to s (some (p, h)))
    unfolding round_with is_visited
    leading-Pending s p h r leads =
        elim (Bool-cases (last_node p.nodes == to && ltb 1 (length p.nodes))) [
          | inl ended ↦
              rw ended
                (accepted (complete_item w path p leads (IsPath_of_IsRoute g from to p r ended)))
          | inr goes_on ↦
              let (e, edge, kept, longer) = next_node w path p r leads goes_on in
              rw goes_on (grown e edge kept longer (get_elem? g.graph (last_node p.nodes)) refl)
        ]
      where
        accepted : p.nodes ≡ w → PendingRound (accept h s.paths p.nodes)
        accepted same = elim (Bool-cases (contains_path s.paths p.nodes)) [
          | inl old ↦
              rw (old, accept) (inl (subst (λ ns. contains_path s.paths ns ≡ true) same old))
          | inr new ↦
              rw (new, accept)
                (inl (
                  contains_path-append s.paths p.nodes
                  ∙ ground (arith, (equal_iff p.nodes w).1 same)))
        ]

        grown :
            (e : ℕ)
            → Edge g (last_node p.nodes) e
            → skips [] p to e ≡ false
            → prefix_of (p.nodes ++ (e ∷ [])) w ≡ true
            → (row : Option (List ℕ)) → get_elem? g.graph (last_node p.nodes) ≡ row
            → PendingRound (grow row [] p to h s.paths)
        grown e edge kept longer none at_row = tt
        grown e edge kept longer (some es) at_row =
            let listed : elem e es ≡ true =
              subst (λ (row : List ℕ). elem e row ≡ true)
                (get_or_of_get_elem? g.graph (last_node p.nodes) [] at_row) edge in
            inr (expand_pushes p e es h listed kept longer)

    -- Another item has been popped.
    other-Pending :
        (s : Search) (p : PathItem) (h : List PathItem)
        → Pending h s.paths
        → PendingRound (round_with g [] to s (some (p, h)))
    unfolding round_with is_visited
    other-Pending s p h pending =
        elim (Bool-cases (last_node p.nodes == to && ltb 1 (length p.nodes))) [
          | inl ended ↦ rw ended accepted
          | inr goes_on ↦ rw goes_on (grown (get_elem? g.graph (last_node p.nodes)) pending)
        ]
      where
        accepted : PendingRound (accept h s.paths p.nodes)
        accepted = elim (Bool-cases (contains_path s.paths p.nodes)) [
          | inl old ↦ rw (old, accept) pending
          | inr new ↦ rw (new, accept) (ground (arith, contains_path-append s.paths p.nodes))
        ]

        grown :
            (row : Option (List ℕ)) → Pending h s.paths → PendingRound (grow row [] p to h s.paths)
        grown none pend = tt
        grown (some es) (inl found) = inl found
        grown (some es) (inr some_item) = inr (omega (arith, expand-le p es h))

    round-Pending :
        (s : Search)
        → All (IsRoute g from to) s.heap
        → Pending s.heap s.paths
        → PendingRound (round g [] to s)
    unfolding round
    round-Pending s items pending = elim (List-cases s.heap) [
      | inl empty ↦ rw (ap (Heap.pop less) empty ∙ pop-nil less) (unfold round_with in pending)
      | inr (x, xs, e) ↦
          let (p, h, popped, _, parts) = pop-cons less x xs in
          let popped' : Heap.pop less s.heap ≡ some (p, h) = ap (Heap.pop less) e ∙ popped in
          let (r, _) = All-pop less (IsRoute g from to) s.heap items popped' in
          rw popped' (split s p h r (ap (total (leads_to w)) e ∙ sym (parts (leads_to w))) pending)
    ]
      where
        split :
            (s : Search) (p : PathItem) (h : List PathItem)
            → IsRoute g from to p
            → total (leads_to w) s.heap ≡ leads_to w p + total (leads_to w) h
            → Pending s.heap s.paths
            → PendingRound (round_with g [] to s (some (p, h)))
        split s p h r parts pend = elim (Bool-cases (prefix_of p.nodes w)) [
          | inl leads ↦ leading-Pending s p h r leads
          | inr no_lead ↦ other-Pending s p h (ground arith)
        ]

    rounds-Pending :
        (n : ℕ) (s t : Search)
        → Inv g from to s
        → Pending s.heap s.paths
        → rounds n g [] to s ≡ some t
        → Pending t.heap t.paths
    unfolding rounds
    rounds-Pending zero s t v p e =
        let same = some-injective _ _ e in subst (λ (u : Search). Pending u.heap u.paths) same p
    rounds-Pending (suc n) s t v p e =
        go (round g [] to s) (round-Inv g from to s v) (round-Pending s v.items p)
          (λ s' v' p' e'. rounds-Pending n s' t v' p' e') e
      where
        go :
            (r : Round)
            → InvRound g from to r
            → PendingRound r
            → ((s' : Search)
                → Inv g from to s'
                → Pending s'.heap s'.paths
                → rounds n g [] to s' ≡ some t
                → Pending t.heap t.paths)
            → (elim r [ again s' ↦ rounds n g [] to s' | done s' ↦ some s' | out_of_range ↦ none ])
              ≡ some t
            → Pending t.heap t.paths
        go (again s') v' p' rec e' = rec s' v' p' e'
        go (done s') v' p' rec e' =
            subst (λ (u : Search). Pending u.heap u.paths) (some-injective _ _ e') p'
        go out_of_range v' p' rec e' = cc

contained {κ} :
    (P : List ℕ → Type κ) (paths : List (List ℕ)) (w : List ℕ)
    → All P paths
    → contains_path paths w ≡ true
    → P w
unfolding contains_path
contained P [] w all h = cc
contained P (v ∷ vs) w all h = elim (Bool-cases (equal v w)) [
  | inl same ↦ subst P ((equal_iff v w).0 same) all.0
  | inr other ↦ contained P vs w all.1 (ground arith)
]

initial-Pending :
    (g : Graph) (from to : ℕ) (w : List ℕ) (path : IsPath g from to w)
    → Pending g from to w path (initial from).heap (initial from).paths
unfolding initial
initial-Pending g from to w path =
    let start : PathItem = record { weight = 0; parent = from; nodes = from ∷ []; visited = [] } in
    let leads : prefix_of (from ∷ []) w ≡ true = rw path.shape (ground (arith, ==_iff from from)) in
    inr (omega (arith, total-push less (leads_to w) [] start, one_start w start leads))

-- If the search of `AllPaths` returns and no item is left in its heap, then a list of nodes is among
-- the paths found exactly if it is a path of the graph: it starts with `from`, follows connections,
-- ends in `to`, and has no node twice behind the start.
pub search-exact :
    (g : Graph) (from to : ℕ) (s : Search) (w : List ℕ)
    → search g from to ≡ some s
    → s.heap ≡ []
    → (contains_path s.paths w ≡ true) ↔ IsPath g from to w
unfolding search
search-exact g from to s w e empty = (
  contained (IsPath g from to) s.paths w (search-Inv g from to s e).found,
  λ path.
      let pending =
        rounds-Pending g from to w path max_rounds (initial from) s (initial-Inv g from to)
          (initial-Pending g from to w path) e in
      finish pending,
)
  where
    finish :
        (contains_path s.paths w ≡ true) ⊎ (0 < total (leads_to w) s.heap)
        → contains_path s.paths w ≡ true
    finish (inl found) = found
    finish (inr more) =
        let none-left : total (leads_to w) s.heap ≡ 0 = ap (total (leads_to w)) empty in
        absurd (omega arith)
