-- ===== src/Schema/Path/Linked.antt =====
-- core/sdata/dwg.go: what a path of `FindPath` and `FindPathByColumn` is, as a chain of tables.
use mathlib.Core.Path.{subst}
use mathlib.Core.List.{append_assoc, append-nil}
use graphjin_slim.Base.{
  ℕ, Bool, true, ◌||◌, List, [], ◌∷◌, ◌++◌, map, ◌≡◌, ◌≢◌, refl, sym, ap, ◌∙◌, inl, inr, some,
  Bytes, get_elem?, Bool-cases, ==_iff, ◌==◌, and_right,
}
use graphjin_slim.Util.Graph.{Edge, get_edges}
use graphjin_slim.Util.Graph.Each.{OfEachLine, All-get_edges}
use graphjin_slim.Schema.Path.{
  PathThroughKind, through_none, through_table, through_column, PathOptions, EdgeInfo, DbSchema,
  TEdge, lookup_edge, any_pair, is_table, is_column, line_matches_column, edge_matches,
}
use graphjin_slim.Schema.Path.Chain.{In, In-All, Chain, begins, goes_on}
use graphjin_slim.Schema.Path.Find.{TPath, edge_or_zero, step_of}

-- an edge of the graph as the schema stores it, with the tables of its two nodes at its ends
pub record IsStored (s : DbSchema) (u v : ℕ) (line : Edge) : Type 0 where
  pub edge : TEdge
  pub stored : lookup_edge s.all_edges line.id ≡ some edge
  pub left : get_elem? s.tables u ≡ some edge.left_table
  pub right : get_elem? s.tables v ≡ some edge.right_table

-- what `addEdge` sees to: each edge of the graph is stored
abbrev pub IsIndexed : DbSchema → Type 0
IsIndexed s = OfEachLine (IsStored s) s.graph.edges

-- A step from one node to another: its tables are those of the nodes, and the rest is that of an edge
-- of the schema.
pub record IsStepBetween (s : DbSchema) (u v : ℕ) (step : TPath) : Type 0 where
  pub id : ℕ
  pub edge : TEdge
  pub stored : lookup_edge s.all_edges id ≡ some edge
  pub left_table : get_elem? s.tables u ≡ some step.lt
  pub right_table : get_elem? s.tables v ≡ some step.rt
  pub rel : step.rel ≡ edge.type
  pub left : step.lc ≡ edge.left
  pub right : step.rc ≡ edge.right
  pub extra_pairs : step.extra_pairs ≡ edge.extra_pairs

-- one of the columns of a step
abbrev pub has_column : (Bytes → Bytes → Bool) → TPath → Bytes → Bool
has_column equal_fold step col =
    (equal_fold step.lc.name col || equal_fold step.rc.name col)
    || any_pair equal_fold step.extra_pairs col

-- what is asked of each step: with a column, in small letters, the step joins by it
abbrev pub Fits : (Bytes → Bytes → Bool) → PathThroughKind → Bytes → TPath → Type 0
Fits equal_fold through_column col step = col ≢ [] → has_column equal_fold step col ≡ true
Fits equal_fold _ col step = Unit

-- Steps that lead from one node to another, each from where the one in front of it ends.
pub data Leads (s : DbSchema) (fits : TPath → Type 0) (u : ℕ) : ℕ → List TPath → Type 0 where
  stay : Leads s fits u u []
  and_then :
      {v w : ℕ} {path : List TPath} (step : TPath)
      → Leads s fits u v path
      → IsStepBetween s v w step
      → fits step
      → Leads s fits u w (path ++ (step ∷ []))

map-last :
    (f : ℕ → TPath) (ids : List ℕ) (id : ℕ) → map f (ids ++ (id ∷ [])) ≡ map f ids ++ (f id ∷ [])
map-last f [] id = refl
map-last f (i ∷ ids) id = ap (◌∷◌ (f i)) (map-last f ids id)

line-IsStepBetween :
    (s : DbSchema) (u v : ℕ) (line : Edge)
    → IsStored s u v line
    → IsStepBetween s u v (step_of s line.id)
unfolding step_of
line-IsStepBetween s u v line h = record {
  id = line.id;
  edge = h.edge;
  stored = h.stored;
  left_table = h.left ∙ ap (λ o. some (edge_or_zero o).left_table) (sym h.stored);
  right_table = h.right ∙ ap (λ o. some (edge_or_zero o).right_table) (sym h.stored);
  rel = ap (λ o. (edge_or_zero o).type) h.stored;
  left = ap (λ o. (edge_or_zero o).left) h.stored;
  right = ap (λ o. (edge_or_zero o).right) h.stored;
  extra_pairs = ap (λ o. (edge_or_zero o).extra_pairs) h.stored;
}

pub line-Leads :
    (s : DbSchema) (fits : TPath → Type 0) (u v : ℕ) (line : Edge)
    → IsStored s u v line
    → fits (step_of s line.id)
    → Leads s fits u v (step_of s line.id ∷ [])
line-Leads s fits u v line h f =
    and_then (step_of s line.id) stay (line-IsStepBetween s u v line h) f

pub stored-has_column :
    (equal_fold : Bytes → Bytes → Bool) (s : DbSchema) (u v : ℕ) (line : Edge) (col : Bytes)
    → IsStored s u v line
    → line_matches_column equal_fold s line col ≡ true
    → col ≢ []
    → has_column equal_fold (step_of s line.id) col ≡ true
unfolding step_of line_matches_column edge_matches
stored-has_column equal_fold s u v line [] h m some_col = absurd (some_col refl)
stored-has_column equal_fold s u v line (c ∷ cs) h m some_col =
    ap
      (λ o.
        (equal_fold (edge_or_zero o).left.name (c ∷ cs)
          || equal_fold (edge_or_zero o).right.name (c ∷ cs))
        || any_pair equal_fold (edge_or_zero o).extra_pairs (c ∷ cs))
      h.stored
    ∙ sym (ap (λ o. edge_matches equal_fold o (c ∷ cs)) h.stored)
    ∙ m

pub line-IsStored :
    (s : DbSchema)
    → IsIndexed s
    → (u v : ℕ) (line : Edge) → In line (get_edges s.graph u v)
    → IsStored s u v line
line-IsStored s indexed u v line i =
    In-All (IsStored s u v) line (get_edges s.graph u v)
      (All-get_edges (IsStored s) s.graph u v indexed) i

module _ (equal_fold : Bytes → Bytes → Bool) (s : DbSchema) (indexed : IsIndexed s)
    (from to : EdgeInfo) (o : PathOptions) (kind : PathThroughKind) (col : Bytes)
    (same : o.kind ≡ kind) (named : kind ≡ through_column → o.through ≡ col) where
  abbrev pub Way : ℕ → List TPath → Type 0
  Way = Leads s (Fits equal_fold kind col) from.node_id

  line-Fits :
      (u v : ℕ) (line : Edge) (k : PathThroughKind)
      → kind ≡ k
      → IsStored s u v line
      → (is_column o.kind ≡ true → line_matches_column equal_fold s line o.through ≡ true)
      → Fits equal_fold k col (step_of s line.id)
  line-Fits u v line through_none e h c = tt
  line-Fits u v line through_table e h c = tt
  line-Fits u v line through_column e h c =
      stored-has_column equal_fold s u v line col h
        (ap (line_matches_column equal_fold s line) (sym (named e)) ∙ c (ap is_column (same ∙ e)))

  pub Chain-Leads :
      (v prev : ℕ) (seen : Bool) (edges : List ℕ)
      → Chain equal_fold s from to o v prev seen edges
      → Way v (map (step_of s) edges)
  Chain-Leads _ _ _ _ begins = stay
  Chain-Leads _ _ _ _ (goes_on {u} {prev} {v} {seen} {edges} line before step) =
      let h = line-IsStored s indexed u v line step.joins in
      subst (Way v) (sym (map-last (step_of s) edges line.id)) (
        and_then (step_of s line.id) (Chain-Leads u prev seen edges before)
          (line-IsStepBetween s u v line h) (line-Fits u v line kind refl h step.column))

  -- A first part of the path leads to the table that it was to go through.
  abbrev pub Passes : ℕ → List TPath → Type 0
  Passes node path = (p : List TPath) × (q : List TPath) × (path ≡ p ++ q) × Way node p

  pub Chain-Passes :
      (v prev : ℕ) (seen : Bool) (edges : List ℕ)
      → Chain equal_fold s from to o v prev seen edges
      → seen ≡ true
      → Passes o.through_node (map (step_of s) edges)
  Chain-Passes _ _ _ _ begins e = (
    [],
    [],
    refl,
    subst (λ n. Way n []) ((==_iff from.node_id o.through_node).0 (and_right _ _ e)) stay,
  )
  Chain-Passes _ _ _ _ (goes_on {u} {prev} {v} {seen} {edges} line before step) e =
      elim (Bool-cases seen) [
        | inl k ↦
            let (p, q, at, way) = Chain-Passes u prev seen edges before k in
            (
              p,
              q ++ (step_of s line.id ∷ []),
              map-last (step_of s) edges line.id
                  ∙ ap (λ l. l ++ (step_of s line.id ∷ [])) at
                  ∙ append_assoc p q (step_of s line.id ∷ []),
              way,
            )
        | inr k ↦ (
          map (step_of s) (edges ++ (line.id ∷ [])),
          [],
          sym (append-nil _),
          subst (λ n. Way n (map (step_of s) (edges ++ (line.id ∷ []))))
              ((==_iff v o.through_node).0
                (and_right (is_table o.kind) (v == o.through_node) (rw k at e)))
              (Chain-Leads v line.id _ (edges ++ (line.id ∷ [])) (goes_on line before step)),
        )
      ]
