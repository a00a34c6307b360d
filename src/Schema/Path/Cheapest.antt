-- ===== src/Schema/Path/Cheapest.antt =====
-- A direct edge is a cheapest one of those that may be used.
use mathlib.Core.List.{append_assoc, append-nil}
use mathlib.Core.Path.{subst}
use graphjin_slim.Base.{
  ℕ, Bool, true, false, ◌&&◌, List, [], ◌∷◌, ◌++◌, ◌≡◌, refl, sym, inl, inr, Option, none, some,
  Bytes, if◌then◌else◌, arith, Bool-cases, All, All-append, All-map,
}
use graphjin_slim.Base.Int32.{sge}
use graphjin_slim.Util.Graph.{Edge, get_edges}
use graphjin_slim.Schema.Path.{PathOptions, EdgeInfo, DbSchema, RelType, rel_recursive}
use graphjin_slim.Schema.Path.Chain.{In, here, there}
use graphjin_slim.Schema.Path.Direct.{
  is_better, best_line, id_of, is_usable, is_usable_by_type, direct_path_edges,
  direct_path_edges_by_type, direct_recursive_path_edges,
}

-- No line that passes weighs less than `best`.
abbrev pub IsLeast : (Edge → Bool) → Edge → List Edge → Type 0
IsLeast passes best = All (λ l. passes l ≡ true → sge l.weight best.weight ≡ true)

-- what a choice among the lines says: there is none to take, or the one taken is a cheapest
pub record IsBest (passes : Edge → Bool) (lines : List Edge) (ids : List ℕ) : Type 0 where
  pub best : Edge
  pub ids_are : ids ≡ best.id ∷ []
  pub member : In best lines
  pub passed : passes best ≡ true
  pub least : IsLeast passes best lines

abbrev pub IsCheapest : (Edge → Bool) → List Edge → Option (List ℕ) → Type 0
IsCheapest passes lines none = All (λ l. passes l ≡ false) lines
IsCheapest passes lines (some ids) = IsBest passes lines ids

-- the invariant of the loop behind the lines `seen`
abbrev Chosen : (Edge → Bool) → List Edge → Option Edge → Type 0
Chosen passes seen none = All (λ l. passes l ≡ false) seen
Chosen passes seen (some best) = In best seen × (passes best ≡ true) × IsLeast passes best seen

In-append {ℓ} : {A : Type ℓ} {a : A} (xs ys : List A) → In a xs → In a (xs ++ ys)
In-append [] ys i = elim i [ ]
In-append (x ∷ xs) ys here = here
In-append (x ∷ xs) ys (there i) = there (In-append xs ys i)

In-last {ℓ} : {A : Type ℓ} (xs : List A) (a : A) → In a (xs ++ (a ∷ []))
In-last [] a = here
In-last (x ∷ xs) a = there (In-last xs a)

sge_refl : (a : ℕ) → sge a a ≡ true
sge_refl a = ground arith

-- A line that is lighter than the best one is no heavier than what the best one was compared with.
sge_through : (a b c : ℕ) → sge a b ≡ true → sge c b ≡ false → sge a c ≡ true
sge_through a b c h k = ground arith

line_taken :
    (passes : Edge → Bool) (seen : List Edge) (line : Edge)
    → passes line ≡ true
    → IsLeast passes line seen
    → Chosen passes (seen ++ (line ∷ [])) (some line)
line_taken passes seen line p least = (
  In-last seen line,
  p,
  All-append (λ l. passes l ≡ true → sge l.weight line.weight ≡ true) seen (line ∷ []) least
      ((λ h. sge_refl line.weight), tt),
)

line_left :
    (passes : Edge → Bool) (seen : List Edge) (best line : Edge)
    → Chosen passes seen (some best)
    → (passes line ≡ true → sge line.weight best.weight ≡ true)
    → Chosen passes (seen ++ (line ∷ [])) (some best)
line_left passes seen best line (i, p, least) h = (
  In-append seen (line ∷ []) i,
  p,
  All-append (λ l. passes l ≡ true → sge l.weight best.weight ≡ true) seen (line ∷ []) least
      (h, tt),
)

Chosen-step :
    (passes : Edge → Bool) (seen : List Edge) (best : Option Edge) (line : Edge)
    → Chosen passes seen best
    → Chosen passes
        (seen ++ (line ∷ []))
        (if passes line && is_better line best then some line else best)
unfolding is_better
Chosen-step passes seen none line c = elim (Bool-cases (passes line)) [
  | inl p ↦ rw p (
      line_taken passes seen line p (
        All-map (λ l. passes l ≡ false) (λ l. passes l ≡ true → sge l.weight line.weight ≡ true)
          seen (λ l no yes. cc) c))
  | inr p ↦ rw p (All-append (λ l. passes l ≡ false) seen (line ∷ []) c (p, tt))
]
Chosen-step passes seen (some best) line c = elim (Bool-cases (passes line)) [
  | inl p ↦ elim (Bool-cases (sge line.weight best.weight)) [
    | inl heavy ↦ rw (p, heavy) (line_left passes seen best line c (λ h. heavy))
    | inr light ↦
        rw (p, light)
          (line_taken passes seen line p (
            All-map (λ l. passes l ≡ true → sge l.weight best.weight ≡ true)
              (λ l. passes l ≡ true → sge l.weight line.weight ≡ true) seen
              (λ l least yes. sge_through l.weight best.weight line.weight (least yes) light) c.2))
  ]
  | inr p ↦ rw p (line_left passes seen best line c (λ h. cc))
]

best_line-Chosen :
    (passes : Edge → Bool) (seen lines : List Edge) (best : Option Edge)
    → Chosen passes seen best
    → Chosen passes (seen ++ lines) (best_line passes best lines)
unfolding best_line
best_line-Chosen passes seen [] best c =
    subst (λ ls. Chosen passes ls best) (sym (append-nil seen)) c
best_line-Chosen passes seen (line ∷ ls) best c =
    let next = if passes line && is_better line best then some line else best in
    subst (λ all. Chosen passes all (best_line passes next ls)) (append_assoc seen (line ∷ []) ls)
      (best_line-Chosen passes (seen ++ (line ∷ [])) ls next (Chosen-step passes seen best line c))

best_line-IsCheapest :
    (passes : Edge → Bool) (lines : List Edge)
    → IsCheapest passes lines (id_of (best_line passes none lines))
unfolding id_of
best_line-IsCheapest passes lines =
    go (best_line passes none lines) (best_line-Chosen passes [] lines none tt)
  where
    go : (o : Option Edge) → Chosen passes lines o → IsCheapest passes lines (id_of o)
    go none c = c
    go (some best) c = record {
      best = best;
      ids_are = refl;
      member = c.0;
      passed = c.1;
      least = c.2;
    }

-- A direct edge between two tables, one of a type, and a direct edge from a table to itself are each
-- found exactly if there is an edge that may be used, which is one of the source's edges with the
-- named column and the type asked for, and the one found weighs no more than any other of them.
pub direct_path_edges-IsCheapest :
    (equal_fold : Bytes → Bytes → Bool) (s : DbSchema) (from to : EdgeInfo) (opts : PathOptions)
    (type : RelType)
    → IsCheapest
        (is_usable equal_fold s from opts)
        (get_edges s.graph from.node_id to.node_id)
        (direct_path_edges equal_fold s from opts to)
      × IsCheapest
          (is_usable_by_type equal_fold s from opts type)
          (get_edges s.graph from.node_id to.node_id)
          (direct_path_edges_by_type equal_fold s from opts to type)
      × IsCheapest
          (is_usable_by_type equal_fold s from opts rel_recursive)
          (get_edges s.graph from.node_id from.node_id)
          (direct_recursive_path_edges equal_fold s from opts)
unfolding direct_path_edges direct_path_edges_by_type direct_recursive_path_edges
direct_path_edges-IsCheapest equal_fold s from to opts type = (
  best_line-IsCheapest (is_usable equal_fold s from opts)
      (get_edges s.graph from.node_id to.node_id),
  best_line-IsCheapest (is_usable_by_type equal_fold s from opts type)
      (get_edges s.graph from.node_id to.node_id),
  best_line-IsCheapest (is_usable_by_type equal_fold s from opts rel_recursive)
      (get_edges s.graph from.node_id from.node_id),
)
