-- ===== src/Util/Paths/Sound.antt =====
-- Every path that `AllPaths` returns is a walk of the graph from one node to the other.
use mathlib.Core.Path.{subst}
use mathlib.Core.Option.{some-injective}
use graphjin_slim.Base.{
  ℕ, zero, suc, true, false, not, ◌&&◌, ◌||◌, List, [], ◌∷◌, ◌++◌, ◌≡◌, refl, ◌⊎◌, inl, inr, ap,
  ◌∙◌, none, some, ok, length, get_elem?, elem, ltb, ◌==◌, arith, List-cases, ==_iff, Bool-cases,
  Option-cases, All, All-append, elem-append,
}
use graphjin_slim.Heap
use graphjin_slim.Heap.Content.{All-push, All-pop}
use graphjin_slim.Util.Graph.{Graph}
use graphjin_slim.Util.Paths.{
  PathItem, less, is_visited, last_node, contains_path, extend, skips, expand, Search, Round, again,
  done, out_of_range, accept, grow, round_with, round, rounds, initial, max_rounds, search,
  all_paths,
}
use graphjin_slim.Util.Paths.Walks.{
  Chain, Chain-append, Edge, append_ne_nil, distinct, distinct-append, elem_of_init, init,
  init-append, last_node-cons, last_of, not_skipped, row_edges, tail,
}

-- What holds of every item in the heap: behind the start its nodes are a chain of different nodes,
-- with the goal nowhere but at the end.
pub record IsRoute (g : Graph) (from to : ℕ) (p : PathItem) : Type 0 where
  pub rest : List ℕ
  pub shape : p.nodes ≡ from ∷ rest
  pub chain : Chain g from rest
  pub different : distinct rest ≡ true
  pub unfinished : elem to (init rest) ≡ false
  pub home : (from == to || not (elem from (tail rest))) ≡ true
  pub seen : (rest ≡ []) ⊎ (p.visited ≡ p.nodes)
  pub unseen : rest ≡ [] → p.visited ≡ []

module _ (g : Graph) (from to : ℕ) where
  IsRoute-initial :
      IsRoute g from to (record { weight = 0; parent = from; nodes = from ∷ []; visited = [] })
  IsRoute-initial = record {
    rest = [];
    shape = refl;
    chain = tt;
    different = refl;
    unfinished = refl;
    home = ground arith;
    seen = inl refl;
    unseen = λ h. refl;
  }

  -- The goal is not among the nodes of an item that is extended.
  goal_absent :
      (p : PathItem) (r : IsRoute g from to p)
      → (last_node p.nodes == to && ltb 1 (length p.nodes)) ≡ false
      → elem to r.rest ≡ false
  goal_absent p r goes_on =
      let at_end = ap last_node r.shape ∙ last_node-cons from r.rest in
      elem_of_init from to r.rest r.unfinished (split (List-cases r.rest) at_end)
    where
      split :
          (r.rest ≡ []) ⊎ ((x : ℕ) × (xs : List ℕ) × (r.rest ≡ x ∷ xs))
          → last_node p.nodes ≡ last_of from r.rest
          → (r.rest ≡ []) ⊎ ((last_of from r.rest == to) ≡ false)
      split (inl e) at_end = inl e
      split (inr (x, xs, e)) at_end =
          let len : length p.nodes ≡ suc (suc (length xs)) = rw (r.shape, e) refl in
          inr (ground arith)

  absent :
      (p : PathItem) (e : ℕ) (r : IsRoute g from to p)
      → elem to r.rest ≡ false
      → (elem e p.visited && not (e == to)) ≡ false
      → elem e r.rest ≡ false
  absent p e r no_goal fresh = split r.seen
    where
      split : (r.rest ≡ []) ⊎ (p.visited ≡ p.nodes) → elem e r.rest ≡ false
      split (inl empty) = rw empty refl
      split (inr all) =
          let listed : elem e p.visited ≡ (from == e || elem e r.rest) =
            ap (elem e) (all ∙ r.shape) in
          ground (arith, ==_iff e to)

  -- Away from the start an item does not come back to it, unless it is the goal.
  home-extend :
      (p : PathItem) (e : ℕ) (r : IsRoute g from to p)
      → (elem e p.visited && not (e == to)) ≡ false
      → (from == to || not (elem from (tail (r.rest ++ (e ∷ []))))) ≡ true
  home-extend p e r fresh = split r.rest refl r.seen r.home
    where
      split :
          (vs : List ℕ)
          → r.rest ≡ vs
          → (vs ≡ []) ⊎ (p.visited ≡ p.nodes)
          → (from == to || not (elem from (tail vs))) ≡ true
          → (from == to || not (elem from (tail (vs ++ (e ∷ []))))) ≡ true
      split [] eq seen home = ground arith
      split (v ∷ vs) eq (inl empty) home = cc
      split (v ∷ vs) eq (inr all) home =
          let listed : elem e p.visited ≡ (from == e || elem e r.rest) =
            ap (elem e) (all ∙ r.shape) in
          ground (arith, elem-append from vs e, ==_iff e to, ==_iff from e, ==_iff from to)

  -- The inner loop pushes a neighbour that it does not skip.
  IsRoute-extend :
      (p : PathItem) (e : ℕ)
      → IsRoute g from to p
      → Edge g (last_node p.nodes) e
      → (last_node p.nodes == to && ltb 1 (length p.nodes)) ≡ false
      → (elem e p.visited && not (e == to)) ≡ false
      → IsRoute g from to (extend p e)
  unfolding extend
  IsRoute-extend p e r edge goes_on fresh =
      let at_end : last_node p.nodes ≡ last_of from r.rest =
        ap last_node r.shape ∙ last_node-cons from r.rest in
      let no_goal = goal_absent p r goes_on in
      record {
        rest = r.rest ++ (e ∷ []);
        shape = ap (λ ns. ns ++ (e ∷ [])) r.shape;
        chain = Chain-append g from r.rest e r.chain (rw at_end at edge);
        different = distinct-append r.rest e r.different (absent p e r no_goal fresh);
        unfinished = rw init-append no_goal;
        home = home-extend p e r fresh;
        seen = inr refl;
        unseen = λ h. absurd (append_ne_nil r.rest e h);
      }

  expand-IsRoute :
      (p : PathItem) (es : List ℕ) (h : List PathItem)
      → IsRoute g from to p
      → (last_node p.nodes == to && ltb 1 (length p.nodes)) ≡ false
      → All (Edge g (last_node p.nodes)) es
      → All (IsRoute g from to) h
      → All (IsRoute g from to) (expand [] p to es h)
  unfolding expand
  expand-IsRoute p [] h r goes_on edges items = items
  expand-IsRoute p (e ∷ es) h r goes_on edges items = elim (Bool-cases (skips [] p to e)) [
    | inl skip ↦ rw skip (expand-IsRoute p es h r goes_on edges.1 items)
    | inr take_ ↦ rw take_ (
        expand-IsRoute p es (Heap.push less h (extend p e)) r goes_on edges.1 (
          All-push less (IsRoute g from to) h (extend p e) items
            (IsRoute-extend p e r edges.0 goes_on (not_skipped p to e take_))))
  ]

  -- a complete path: nodes behind the start, that end in the goal
  pub record IsPath (nodes : List ℕ) : Type 0 where
    pub first : ℕ
    pub others : List ℕ
    pub shape : nodes ≡ from ∷ first ∷ others
    pub chain : Chain g from (first ∷ others)
    pub different : distinct (first ∷ others) ≡ true
    pub home : (from == to || not (elem from others)) ≡ true
    pub ends : last_of first others ≡ to

  pub record Inv (s : Search) : Type 0 where
    pub items : All (IsRoute g from to) s.heap
    pub found : All IsPath s.paths

  abbrev pub InvRound : Round → Type 0
  InvRound (again s) = Inv s
  InvRound (done s) = Inv s
  InvRound out_of_range = Unit {0}

  pub IsPath_of_IsRoute :
      (p : PathItem)
      → IsRoute g from to p
      → (last_node p.nodes == to && ltb 1 (length p.nodes)) ≡ true
      → IsPath p.nodes
  IsPath_of_IsRoute p r ended = split (List-cases r.rest)
    where
      split : (r.rest ≡ []) ⊎ ((x : ℕ) × (xs : List ℕ) × (r.rest ≡ x ∷ xs)) → IsPath p.nodes
      split (inl e) = let len : length p.nodes ≡ 1 = rw (r.shape, e) refl in absurd (ground arith)
      split (inr (x, xs, e)) =
          let at_end = ap last_node r.shape ∙ last_node-cons from r.rest ∙ ap (last_of from) e in
          record {
            first = x;
            others = xs;
            shape = r.shape ∙ ap (◌∷◌ from) e;
            chain = rw e at r.chain;
            different = rw e at r.different;
            home = let h = r.home in rw e at h;
            ends = ground arith;
          }

  accept-Inv :
      (h : List PathItem) (paths : List (List ℕ)) (nodes : List ℕ)
      → All (IsRoute g from to) h
      → All IsPath paths
      → IsPath nodes
      → InvRound (accept h paths nodes)
  unfolding accept
  accept-Inv h paths nodes items found new = elim (Bool-cases (contains_path paths nodes)) [
    | inl old ↦ rw old (record { items = items; found = found })
    | inr fresh ↦
        rw fresh
          (record { items = items; found = All-append IsPath paths (nodes ∷ []) found (new, tt) })
  ]

  grow-Inv :
      (p : PathItem) (h : List PathItem) (paths : List (List ℕ))
      → IsRoute g from to p
      → (last_node p.nodes == to && ltb 1 (length p.nodes)) ≡ false
      → All (IsRoute g from to) h
      → All IsPath paths
      → InvRound (grow (get_elem? g.graph (last_node p.nodes)) [] p to h paths)
  unfolding grow
  grow-Inv p h paths r goes_on items found =
      elim (Option-cases (get_elem? g.graph (last_node p.nodes))) [
        | inl out ↦ rw out tt
        | inr (es, row) ↦ rw row (record {
          items = expand-IsRoute p es h r goes_on (row_edges g (last_node p.nodes) es row) items;
          found = found;
        })
      ]

  popped-Inv :
      (s : Search) (p : PathItem) (h : List PathItem)
      → IsRoute g from to p
      → All (IsRoute g from to) h
      → All IsPath s.paths
      → InvRound (round_with g [] to s (some (p, h)))
  unfolding round_with is_visited
  popped-Inv s p h r items found =
      elim (Bool-cases (last_node p.nodes == to && ltb 1 (length p.nodes))) [
        | inl ended ↦
            rw ended (accept-Inv h s.paths p.nodes items found (IsPath_of_IsRoute p r ended))
        | inr goes_on ↦ rw goes_on (grow-Inv p h s.paths r goes_on items found)
      ]

  pub round-Inv : (s : Search) → Inv s → InvRound (round g [] to s)
  unfolding round
  round-Inv s v = elim (Option-cases (Heap.pop less s.heap)) [
    | inl empty ↦ rw empty (unfold round_with in v)
    | inr ((p, h), popped) ↦
        let (r, items) = All-pop less (IsRoute g from to) s.heap v.items popped in
        rw popped (popped-Inv s p h r items v.found)
  ]

  pub rounds-Inv : (n : ℕ) (s t : Search) → Inv s → rounds n g [] to s ≡ some t → Inv t
  unfolding rounds
  rounds-Inv zero s t v e = subst Inv (some-injective _ _ e) v
  rounds-Inv (suc n) s t v e =
      go (round g [] to s) (round-Inv s v) (λ s' v' e'. rounds-Inv n s' t v' e') e
    where
      go :
          (r : Round)
          → InvRound r
          → ((s' : Search) → Inv s' → rounds n g [] to s' ≡ some t → Inv t)
          → (elim r [ again s' ↦ rounds n g [] to s' | done s' ↦ some s' | out_of_range ↦ none ])
            ≡ some t
          → Inv t
      go (again s') v' rec e' = rec s' v' e'
      go (done s') v' rec e' = subst Inv (some-injective _ _ e') v'
      go out_of_range v' rec e' = cc

pub initial-Inv : (g : Graph) (from to : ℕ) → Inv g from to (initial from)
unfolding initial
initial-Inv g from to = record {
  items = All-push less (IsRoute g from to) [] _ tt (IsRoute-initial g from to);
  found = tt;
}

pub search-Inv :
    (g : Graph) (from to : ℕ) (s : Search) → search g from to ≡ some s → Inv g from to s
unfolding search
search-Inv g from to s e =
    rounds-Inv g from to max_rounds (initial from) s (initial-Inv g from to) e

-- If `AllPaths` returns, then each path that it returns starts with `from`, follows connections of
-- the graph and ends in `to`, and no node comes twice behind the start.
pub all_paths-IsPath :
    (g : Graph) (from to : ℕ) (paths : List (List ℕ))
    → all_paths g from to ≡ ok paths
    → All (IsPath g from to) paths
unfolding all_paths
all_paths-IsPath g from to paths e = elim (Option-cases (search g from to)) [
  | inl out ↦ absurd (ground arith)
  | inr (s, ended) ↦
      let inv = search-Inv g from to s ended in
      let same : s.paths ≡ paths = ground arith in rw (← same) inv.found
]
