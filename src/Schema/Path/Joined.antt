-- ===== src/Schema/Path/Joined.antt =====
-- core/sdata/path.go: what a path is that `resolvePath` returns, whichever of its parts found it.
use mathlib.Core.Path.{subst}
use graphjin_slim.Base.{
  ℕ, Bool, true, List, [], ◌∷◌, ◌++◌, ◌≡◌, refl, sym, ap, ◌∙◌, ◌≢◌, inl, inr, Option, none, some,
  Bytes, arith, ◌==◌, ==_iff, elem, Bool-cases, Outcome-cases, Outcome, ok, err, panic,
}
use graphjin_slim.Util.Graph.{Edge, get_edges}
use graphjin_slim.Schema.Path.{
  PathThroughKind, through_none, through_table, through_column, PathOptions, EdgeInfo, DbSchema,
  PathError, RelType, rel_embedded, rel_recursive, is_column, line_matches_column,
  shortest_path_edges,
}
use graphjin_slim.Schema.Path.Chain.{In, IsPathBetween}
use graphjin_slim.Schema.Path.Reached.{shortest_path_edges-IsPathBetween}
use graphjin_slim.Schema.Path.Direct.{
  is_usable, is_usable_by_type, direct_path_edges, direct_path_edges_by_type,
  direct_recursive_path_edges,
}
use graphjin_slim.Schema.Path.Cheapest.{IsBest, IsCheapest, direct_path_edges-IsCheapest}
use graphjin_slim.Schema.Path.Ambiguity.{detect_direct_ambiguity}
use graphjin_slim.Schema.Path.Resolve.{
  ResolveError, though_node_not_found, lookup_node, Choice, chosen, search_with, or_next,
  through_table_choice, recursive_or, through_none_choice, through_column_choice, choose,
}
use graphjin_slim.Schema.Path.Plain.{Choice-cases, search_plain, pair_plain}
use graphjin_slim.Schema.Reach.{can_reach}

same_list :
    (found edges : List ℕ)
    → (r : Outcome ResolveError (List ℕ)) → r ≡ ok found
    → r ≡ ok edges
    → ◌≡◌ {A = Outcome PathError (List ℕ)} (ok found) (ok edges)
same_list found edges r e k = cc

panic-ok : (edges : List ℕ) (r : Outcome ResolveError (List ℕ)) → r ≡ panic → r ≡ ok edges → ⊥
panic-ok edges r e k = cc

module _ (equal_fold : Bytes → Bytes → Bool) (to_lower : Bytes → Bytes) (s : DbSchema)
    (from to : EdgeInfo) (opts : PathOptions) where
  -- what the search is asked: the named column in small letters, the node of the named table
  pub record IsAsked (o : PathOptions) : Type 0 where
    pub kind : o.kind ≡ opts.kind
    pub column : opts.kind ≡ through_column → o.through ≡ to_lower opts.through
    pub table :
        opts.kind ≡ through_table
        → lookup_node s.tindex (s.schema ++ (b':' ∷ opts.through)) ≡ some o.through_node

  -- One edge of the source that joins the two tables, by the named column if there is one, or a path
  -- of the search.
  pub data IsJoined : List ℕ → Type 0 where
    direct :
        (line : Edge)
        → In line (get_edges s.graph from.node_id to.node_id)
        → elem line.id from.edge_ids ≡ true
        → (opts.kind ≡ through_column
            → line_matches_column equal_fold s line (to_lower opts.through) ≡ true)
        → IsJoined (line.id ∷ [])
    searched :
        {edges : List ℕ} (o : PathOptions)
        → IsAsked o
        → IsPathBetween equal_fold s from to o edges
        → IsJoined edges

  abbrev Sound : Choice → Type 0
  Sound (chosen (ok edges)) = IsJoined edges
  Sound (chosen _) = Unit
  Sound (search_with o) = IsAsked o

  or_next-Sound :
      (o : Option (List ℕ)) (next : Choice)
      → ((edges : List ℕ) → o ≡ some edges → IsJoined edges)
      → Sound next
      → Sound (or_next o next)
  or_next-Sound none next h k = k
  or_next-Sound (some edges) next h k = h edges refl

  -- the options of the direct edges: `opts`, with the column in small letters
  record IsDirect (o : PathOptions) : Type 0 where
    kind : o.kind ≡ opts.kind
    column : opts.kind ≡ through_column → o.through ≡ to_lower opts.through

  usable-edge :
      (o : PathOptions) (line : Edge)
      → is_usable equal_fold s from o line ≡ true
      → elem line.id from.edge_ids ≡ true
  unfolding is_usable
  usable-edge o line h = ground arith

  usable-column :
      (o : PathOptions) (line : Edge)
      → is_usable equal_fold s from o line ≡ true
      → is_column o.kind ≡ true
      → line_matches_column equal_fold s line o.through ≡ true
  unfolding is_usable
  usable-column o line h k = ground arith

  by_type-usable :
      (o : PathOptions) (type : RelType) (line : Edge)
      → is_usable_by_type equal_fold s from o type line ≡ true
      → is_usable equal_fold s from o line ≡ true
  unfolding is_usable_by_type
  by_type-usable o type line h = ground arith

  IsBest-IsJoined :
      (o : PathOptions) (passes : Edge → Bool) (edges : List ℕ)
      → IsDirect o
      → ((line : Edge) → passes line ≡ true → is_usable equal_fold s from o line ≡ true)
      → IsBest passes (get_edges s.graph from.node_id to.node_id) edges
      → IsJoined edges
  IsBest-IsJoined o passes edges d usable b = subst IsJoined (sym b.ids_are) (
      direct b.best b.member (usable-edge o b.best (usable b.best b.passed)) (λ c.
        ap (line_matches_column equal_fold s b.best) (sym (d.column c))
        ∙ usable-column o b.best (usable b.best b.passed) (ap is_column (d.kind ∙ c))))

  direct_path_edges-IsJoined :
      (o : PathOptions) (edges : List ℕ)
      → IsDirect o
      → direct_path_edges equal_fold s from o to ≡ some edges
      → IsJoined edges
  direct_path_edges-IsJoined o edges d e =
      let passes = is_usable equal_fold s from o in
      let lines = get_edges s.graph from.node_id to.node_id in
      IsBest-IsJoined o passes edges d (λ line p. p)
        (subst (IsCheapest passes lines) e
          (direct_path_edges-IsCheapest equal_fold s from to o rel_embedded).0)

  by_type-IsJoined :
      (o : PathOptions) (edges : List ℕ)
      → IsDirect o
      → direct_path_edges_by_type equal_fold s from o to rel_embedded ≡ some edges
      → IsJoined edges
  by_type-IsJoined o edges d e =
      let passes = is_usable_by_type equal_fold s from o rel_embedded in
      let lines = get_edges s.graph from.node_id to.node_id in
      IsBest-IsJoined o passes edges d (by_type-usable o rel_embedded) (
        subst (IsCheapest passes lines) e
          (direct_path_edges-IsCheapest equal_fold s from to o rel_embedded).1)

  recursive-IsJoined :
      (o : PathOptions) (edges : List ℕ)
      → IsDirect o
      → from.node_id ≡ to.node_id
      → direct_recursive_path_edges equal_fold s from o ≡ some edges
      → IsJoined edges
  recursive-IsJoined o edges d same e =
      let passes = is_usable_by_type equal_fold s from o rel_recursive in
      IsBest-IsJoined o passes edges d (by_type-usable o rel_recursive) (
        subst (λ n. IsBest passes (get_edges s.graph from.node_id n) edges) same
          (subst (IsCheapest passes (get_edges s.graph from.node_id from.node_id)) e
            (direct_path_edges-IsCheapest equal_fold s from to o rel_embedded).2))

  recursive_or-Sound :
      (o : PathOptions) (next : Choice)
      → IsDirect o
      → Sound next
      → Sound (recursive_or equal_fold to_lower s from to o next)
  unfolding recursive_or
  recursive_or-Sound o next d k = elim (Bool-cases (from.node_id == to.node_id)) [
    | inl same ↦
        rw same
          (or_next-Sound _ next (λ edges e. recursive-IsJoined o edges d ((==_iff _ _).0 same) e) k)
    | inr other ↦ rw other k
  ]

  through_table-Sound :
      opts.kind ≡ through_table → Sound (through_table_choice equal_fold to_lower s from to opts)
  unfolding through_table_choice
  through_table-Sound kind =
      let d : IsDirect opts = record {
        kind = refl;
        column = λ c. absurd (no_kind (sym kind ∙ c));
      } in
      or_next-Sound _ _ (λ edges e. direct_path_edges-IsJoined opts edges d e)
        (at_node (lookup_node s.tindex (s.schema ++ (b':' ∷ opts.through))) refl)
    where
      no_kind : through_table ≢ through_column
      no_kind e = cc

      at_node :
          (n : Option ℕ)
          → lookup_node s.tindex (s.schema ++ (b':' ∷ opts.through)) ≡ n
          → Sound (elim n [
            | none ↦ chosen (err though_node_not_found)
            | some node ↦ search_with (record opts { through_node = node })
          ])
      at_node none e = tt
      at_node (some node) e = record {
        kind = refl;
        column = λ c. absurd (no_kind (sym kind ∙ c));
        table = λ t. e;
      }

  through_none-Sound :
      opts.kind ≡ through_none → Sound (through_none_choice equal_fold to_lower s from to opts)
  unfolding through_none_choice
  through_none-Sound kind = elim (Outcome-cases (detect_direct_ambiguity s from to)) [
    | inl (_, e) ↦
        let d : IsDirect opts = record { kind = refl; column = λ c. absurd (not_column c) } in
        rw (Sound, through_none_choice, e)
          (recursive_or-Sound opts _ d (
            or_next-Sound _ _ (λ edges k. by_type-IsJoined opts edges d k)
              (record {
                kind = refl;
                column = λ c. absurd (not_column c);
                table = λ t. absurd (not_table t);
              })))
    | inr (inl (why, e)) ↦ rw (Sound, through_none_choice, e) tt
    | inr (inr e) ↦ rw (Sound, through_none_choice, e) tt
  ]
    where
      not_column : opts.kind ≢ through_column
      not_column c = cc

      not_table : opts.kind ≢ through_table
      not_table c = cc

  through_column-Sound :
      opts.kind ≡ through_column
      → Sound (
          through_column_choice equal_fold to_lower s from to
            (record opts { through = to_lower opts.through }))
  unfolding through_column_choice
  through_column-Sound kind =
      let o : PathOptions = record opts { through = to_lower opts.through } in
      let d : IsDirect o = record { kind = refl; column = λ c. refl } in
      recursive_or-Sound o _ d (
        or_next-Sound _ _ (λ edges e. direct_path_edges-IsJoined o edges d e)
          (record { kind = refl; column = λ c. refl; table = λ t. absurd (not_table t) }))
    where
      not_table : opts.kind ≢ through_table
      not_table c = cc

  choose-Sound :
      (kind : PathThroughKind)
      → opts.kind ≡ kind
      → Sound (choose equal_fold to_lower s from to opts kind)
  unfolding choose
  choose-Sound through_none e = through_none-Sound e
  choose-Sound through_table e = through_table-Sound e
  choose-Sound through_column e = through_column-Sound e

  search_plain-found :
      (o : PathOptions) (edges : List ℕ)
      → search_plain equal_fold to_lower s from to o ≡ ok edges
      → shortest_path_edges equal_fold s from to o ≡ ok edges
  unfolding search_plain
  search_plain-found o edges h =
      elim (Bool-cases (can_reach s.reachability from.node_id to.node_id)) [
        | inr cut ↦ absurd (not_ok (rw (search_plain, cut) at h))
        | inl reached ↦ elim (Outcome-cases (shortest_path_edges equal_fold s from to o)) [
          | inl (found, e) ↦ e ∙ same_list found edges _ refl (rw (search_plain, reached, e) at h)
          | inr (inl (why, e)) ↦ absurd (not_ok (rw (search_plain, reached, e) at h))
          | inr (inr e) ↦ absurd (panic-ok edges _ refl (rw (search_plain, reached, e) at h))
        ]
      ]
    where
      not_ok : {e : ResolveError} → err e ≢ ok edges
      not_ok k = cc

  pub pair_plain-IsJoined :
      (edges : List ℕ) → pair_plain equal_fold to_lower s from to opts ≡ ok edges → IsJoined edges
  unfolding pair_plain
  pair_plain-IsJoined edges h =
      let sound = choose-Sound opts.kind refl in
      elim (Choice-cases (choose equal_fold to_lower s from to opts opts.kind)) [
        | inl (r, e) ↦ subst Sound (e ∙ ap chosen (rw (pair_plain, e) at h)) sound
        | inr (o, e) ↦ searched o (subst Sound e sound) (
            shortest_path_edges-IsPathBetween equal_fold s from to o edges
              (search_plain-found o edges (rw (pair_plain, e) at h)))
      ]
