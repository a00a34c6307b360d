-- ===== src/Schema/Path/Ambiguity.antt =====
-- core/sdata/dwg.go: `detectDirectAmbiguityFromLines`, and the error that `resolvePathPair` makes of
-- two candidates or more.
use graphjin_slim.Base.{
  ℕ, Bool, true, false, not, ◌&&◌, ◌||◌, List, [], ◌∷◌, ◌++◌, Option, none, some, Bytes, get_elem?,
  elem, ◌==◌, if◌then◌else◌, equal, Outcome, ok, err, panic,
}
use graphjin_slim.Base.Int32.{minus_one}
use graphjin_slim.Util.Graph.{Edge, get_edges}
use graphjin_slim.Schema.Path.{DbColumn, TEdge, EdgeInfo, DbSchema, lookup_edge}

pub record FkCandidate : Type 0 where
  pub column : Bytes
  pub target_table : Bytes
  pub target_column : Bytes
  pub is_composite : Bool
  pub composite_columns : List Bytes

pub record AmbiguousPathError : Type 0 where
  pub from : Bytes
  pub to : Bytes
  pub candidates : List FkCandidate

-- `FKeyTable != ""`
abbrev pub names_table : DbColumn → Bool
names_table col = not (equal col.f_key_table [])

-- The loop over the edges of the source: it begins the line or the opposite of it. No edges pass all.
abbrev pub is_anchored : List ℕ → Edge → Bool
is_anchored [] line = true
is_anchored ids line = elem line.id ids || elem line.opp_id ids

-- the column with the foreign key, and the name of the one that it refers to
unfoldable pub key_column : TEdge → Option (DbColumn × Bytes)
key_column edge =
    if names_table edge.left
    then some (edge.left, edge.right.name)
    else if names_table edge.right
    then some (edge.right, edge.left.name)
    else none

unfoldable pub pair_columns : List (DbColumn × DbColumn) → List Bytes
pair_columns [] = []
pair_columns ((l, r) ∷ ps) =
    let rest = pair_columns ps in
    if names_table l then l.name ∷ rest else if names_table r then r.name ∷ rest else rest

unfoldable pub make_candidate : DbColumn → Bytes → List (DbColumn × DbColumn) → FkCandidate
unfolding pair_columns
make_candidate col ref [] = record {
  column = col.name;
  target_table = col.f_key_table;
  target_column = ref;
  is_composite = false;
  composite_columns = [];
}
make_candidate col ref (p ∷ ps) = record {
  column = col.name;
  target_table = col.f_key_table;
  target_column = ref;
  is_composite = true;
  composite_columns = col.name ∷ pair_columns (p ∷ ps);
}

abbrev pub any_equal : Bytes → List Bytes → Bool
any_equal name [] = false
any_equal name (n ∷ ns) = equal n name || any_equal name ns

pub record Counted : Type 0 where
  pub bucket_seen : List ℕ
  pub col_seen : List Bytes
  pub cands : List FkCandidate

unfoldable pub count_key : TEdge → Option (DbColumn × Bytes) → Counted → Counted
unfolding make_candidate
count_key edge none c = c
count_key edge (some (col, ref)) c = if any_equal col.name c.col_seen then c else record c {
  col_seen = col.name ∷ c.col_seen;
  cands = c.cands ++ (make_candidate col ref edge.extra_pairs ∷ []);
}

unfoldable pub count_line : List ℕ → Edge → Option TEdge → Counted → Counted
unfolding count_key key_column
count_line ids line none c = c
count_line ids line (some edge) c =
    if not (line.opp_id == minus_one) && elem line.opp_id c.bucket_seen
    then c
    else let seen = record c { bucket_seen = line.id ∷ c.bucket_seen } in
      if is_anchored ids line then count_key edge (key_column edge) seen else seen

unfoldable pub count_keys : List ℕ → List (ℕ × TEdge) → List Edge → Counted → Counted
unfolding count_line lookup_edge
count_keys ids edges [] c = c
count_keys ids edges (line ∷ ls) c =
    count_keys ids edges ls (count_line ids line (lookup_edge edges line.id) c)

unfoldable pub detect_direct_ambiguity_from_lines :
    DbSchema → List Edge → EdgeInfo → List FkCandidate
unfolding count_keys
detect_direct_ambiguity_from_lines s lines from =
    (count_keys from.edge_ids s.all_edges lines
      (record { bucket_seen = []; col_seen = []; cands = [] })).cands

-- The test for two candidates; the names of the tables are read by their index.
unfoldable pub ambiguity :
    DbSchema → EdgeInfo → EdgeInfo → List FkCandidate → Outcome AmbiguousPathError (Unit {0})
ambiguity s from to (a ∷ b ∷ cands) = elim (get_elem? s.tables from.node_id) [
  | none ↦ panic
  | some f ↦ elim (get_elem? s.tables to.node_id) [
    | none ↦ panic
    | some t ↦ err (record { from = f; to = t; candidates = a ∷ b ∷ cands })
  ]
]
ambiguity s from to cands = ok tt

unfoldable pub detect_direct_ambiguity :
    DbSchema → EdgeInfo → EdgeInfo → Outcome AmbiguousPathError (Unit {0})
unfolding ambiguity detect_direct_ambiguity_from_lines get_edges
detect_direct_ambiguity s from to =
    ambiguity s from to
      (detect_direct_ambiguity_from_lines s (get_edges s.graph from.node_id to.node_id) from)
