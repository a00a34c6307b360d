-- ===== src/Schema/Path/Tests.antt =====
-- Runs of `resolvePath`, and its theorems at a small schema.
use graphjin_slim.Base.{
  All, get_elem?, codes, ℕ, true, false, List, [], ◌∷◌, map, some, none, ◌≡◌, refl, arith, ok, err,
  equal, Outcome, Option, Bytes,
}
use graphjin_slim.Util.Graph.{Edge, Graph}
use graphjin_slim.Schema.Path.{
  lookup_edge, through_table, through_column, PathOptions, EdgeInfo, rel_one_to_many, DbColumn,
  TEdge, DbSchema,
}
use graphjin_slim.Schema.Path.Chain.{In, here, there}
use graphjin_slim.Schema.Path.Cache.{hash_edge_ids, lookup_path_cache}
use graphjin_slim.Schema.Path.Ambiguity.{FkCandidate}
use graphjin_slim.Schema.Path.Resolve.{
  ResolveError, though_node_not_found, ambiguous_path, GraphResult, Request, resolve_path,
  resolve_all,
}
use graphjin_slim.Schema.Path.Find.{
  TPath, FindError, to_edge_not_found, step_of, find_path, find_path_by_column,
}
use graphjin_slim.Schema.Path.Linked.{IsStored, IsIndexed}
use graphjin_slim.Schema.Path.Found.{
  IsJoinPath, find_path-IsJoinPath, find_path_by_column-IsJoinPath,
}
use graphjin_slim.Schema.Path.Plain.{resolve_plain}
use graphjin_slim.Schema.Path.Cached.{IsFaithful, resolve_all-resolve_plain}
use graphjin_slim.Schema.Path.Resolved.{IsResult, resolve_path-IsResult}

abbrev line : ℕ → ℕ → ℕ → Edge
line id opp weight = record { id = id; opp_id = opp; weight = weight; name = "" }

-- users 0, posts 1, comments 2; posts have an author and an editor, and comments a post.
abbrev tables : Graph
tables = record {
  edge_id = 5;
  edges =
      record { source = 0; target = 1; lines = line 0 1 1 ∷ line 2 3 1 ∷ [] }
      ∷ record { source = 1; target = 0; lines = line 1 0 1 ∷ line 3 2 1 ∷ [] }
      ∷ record { source = 1; target = 2; lines = line 4 5 1 ∷ [] }
      ∷ record { source = 2; target = 1; lines = line 5 4 1 ∷ [] }
      ∷ [];
  graph = (1 ∷ []) ∷ (0 ∷ 2 ∷ []) ∷ (1 ∷ []) ∷ [];
}

abbrev plain_column : Bytes → DbColumn
plain_column name = record { name = name; f_key_table = [] }

abbrev key : Bytes → Bytes → DbColumn
key name table = record { name = name; f_key_table = table }

abbrev joins : Bytes → DbColumn → Bytes → DbColumn → TEdge
joins lt l rt r = record {
  type = rel_one_to_many;
  left_table = lt;
  right_table = rt;
  left = l;
  right = r;
  extra_pairs = [];
}

abbrev id_column : DbColumn
id_column = plain_column (codes "id")

abbrev users : EdgeInfo
users = record { node_id = 0; edge_ids = 0 ∷ 2 ∷ [] }

abbrev posts : EdgeInfo
posts = record { node_id = 1; edge_ids = 1 ∷ 3 ∷ 4 ∷ [] }

abbrev comments : EdgeInfo
comments = record { node_id = 2; edge_ids = 5 ∷ [] }

abbrev schema : DbSchema
schema = record {
  schema = codes "public";
  graph = tables;
  all_edges =
      (0, joins (codes "users") id_column (codes "posts") (key (codes "author") (codes "users")))
      ∷ (1, joins (codes "posts") (key (codes "author") (codes "users")) (codes "users") id_column)
      ∷ (2, joins (codes "users") id_column (codes "posts") (key (codes "editor") (codes "users")))
      ∷ (3, joins (codes "posts") (key (codes "editor") (codes "users")) (codes "users") id_column)
      ∷ (4, joins (codes "posts") id_column (codes "comments") (key (codes "post") (codes "posts")))
      ∷ (5, joins (codes "comments") (key (codes "post") (codes "posts")) (codes "posts") id_column)
      ∷ [];
  tables = codes "users" ∷ codes "posts" ∷ codes "comments" ∷ [];
  tindex = (codes "public:posts", 1) ∷ [];
  edges_index =
      (codes "users", users ∷ [])
      ∷ (codes "posts", posts ∷ [])
      ∷ (codes "comments", comments ∷ [])
      ∷ [];
  reachability =
      ((true ∷ true ∷ true ∷ []) ∷ [])
      ∷ ((true ∷ true ∷ true ∷ []) ∷ [])
      ∷ ((true ∷ true ∷ true ∷ []) ∷ [])
      ∷ [];
}

abbrev through : Bytes → PathOptions
through name = record { kind = through_table; through = name; through_node = 0 }

abbrev by_column : Bytes → PathOptions
by_column name = record { kind = through_column; through = name; through_node = 0 }

abbrev asks : EdgeInfo → EdgeInfo → PathOptions → Request
asks from to opts = record { from = from ∷ []; to = to ∷ []; opts = opts }

abbrev same : Bytes → Bytes
same name = name

abbrev questions : List Request
questions =
    asks users comments (through (codes "posts"))
    ∷ asks users comments (through (codes "posts"))
    ∷ asks users posts (by_column (codes "editor"))
    ∷ asks users posts (through (codes ""))
    ∷ asks users comments (through (codes "tags"))
    ∷ []

abbrev edges_found : Outcome ResolveError GraphResult → Option (List ℕ)
edges_found (ok r) = some r.edges
edges_found _ = none

-- The second answer comes from the cache, and the editor's edge is named.
questions_run :
    map edges_found (resolve_all equal same schema questions [])
    ≡ some (0 ∷ 4 ∷ []) ∷ some (0 ∷ 4 ∷ []) ∷ some (2 ∷ []) ∷ none ∷ none ∷ []
unfolding resolve_all equal hash_edge_ids
questions_run = refl

abbrev candidate : Bytes → FkCandidate
candidate name = record {
  column = name;
  target_table = codes "users";
  target_column = codes "id";
  is_composite = false;
  composite_columns = [];
}

-- Two keys join users and posts.
ambiguous_run :
    (resolve_path equal same schema (users ∷ []) (posts ∷ []) (through []) []).0
    ≡ err (
        ambiguous_path (record {
          from = codes "users";
          to = codes "posts";
          candidates = candidate (codes "author") ∷ candidate (codes "editor") ∷ [];
        }))
unfolding resolve_path equal
ambiguous_run = refl

no_table_run :
    (resolve_path equal same schema (users ∷ []) (comments ∷ []) (through (codes "tags")) []).0
    ≡ err though_node_not_found
unfolding resolve_path equal
no_table_run = refl

abbrev known : List (List ℕ)
known = users.edge_ids ∷ comments.edge_ids ∷ posts.edge_ids ∷ []

hashes_run :
    map hash_edge_ids known ≡ 6090028749657314637 ∷ 16257478300185514234 ∷ 16124160964660719751 ∷ []
unfolding hash_edge_ids
hashes_run = refl

known-apart : (a b : List ℕ) → In a known → In b known → hash_edge_ids a ≡ hash_edge_ids b → a ≡ b
unfolding hash_edge_ids
known-apart _ _ here here e = refl
known-apart _ _ here (there here) e = absurd (omega (arith, e))
known-apart _ _ here (there (there here)) e = absurd (omega (arith, e))
known-apart _ _ (there here) here e = absurd (omega (arith, e))
known-apart _ _ (there here) (there here) e = refl
known-apart _ _ (there here) (there (there here)) e = absurd (omega (arith, e))
known-apart _ _ (there (there here)) here e = absurd (omega (arith, e))
known-apart _ _ (there (there here)) (there here) e = absurd (omega (arith, e))
known-apart _ _ (there (there here)) (there (there here)) e = refl
known-apart _ _ here (there (there (there i))) e = elim i [ ]
known-apart _ _ (there here) (there (there (there i))) e = elim i [ ]
known-apart _ _ (there (there here)) (there (there (there i))) e = elim i [ ]
known-apart _ _ (there (there (there i))) _ e = elim i [ ]

abbrev twice : List Request
twice =
    asks users comments (through (codes "posts"))
    ∷ asks users comments (through (codes "posts"))
    ∷ asks users comments (by_column (codes "tags"))
    ∷ []

resolve_all-resolve_plain_example :
    resolve_all equal same schema twice []
    ≡ map (λ r. resolve_plain equal same schema r.from r.to r.opts) twice
resolve_all-resolve_plain_example =
    resolve_all-resolve_plain equal same schema known known-apart twice (both, (both, (both, tt)))
  where
    both : (In users.edge_ids known × Unit {0}) × (In comments.edge_ids known × Unit {0})
    both = ((here, tt), (there here, tt))

nothing-IsFaithful : IsFaithful equal schema known []
unfolding lookup_path_cache
nothing-IsFaithful from to opts edges i j h = cc

resolved :
    (resolve_path equal same schema (users ∷ []) (comments ∷ []) (through (codes "posts")) []).0
    ≡ ok (record { from = users; to = comments; edges = 0 ∷ 4 ∷ [] })
unfolding resolve_path equal
resolved = refl

resolve_path-IsResult_example :
    IsResult equal same schema
      (users ∷ [])
      (comments ∷ [])
      (through (codes "posts"))
      (record { from = users; to = comments; edges = 0 ∷ 4 ∷ [] })
resolve_path-IsResult_example =
    resolve_path-IsResult equal same schema known known-apart (users ∷ []) (comments ∷ [])
      (through (codes "posts")) [] (record { from = users; to = comments; edges = 0 ∷ 4 ∷ [] })
      (here, tt) (there here, tt) nothing-IsFaithful resolved

abbrev columns_of : Outcome FindError (List TPath) → Option (List (Bytes × Bytes))
columns_of (ok path) = some (map (λ step. (step.lc.name, step.rc.name)) path)
columns_of _ = none

find_path_run :
    columns_of (find_path equal same schema (codes "users") (codes "comments") (codes "posts") []).0
    ≡ some ((codes "id", codes "author") ∷ (codes "id", codes "post") ∷ [])
unfolding find_path equal
find_path_run = refl

find_path_by_column_run :
    columns_of
      (find_path_by_column equal same schema (codes "users") (codes "posts") (codes "editor") []).0
    ≡ some ((codes "id", codes "editor") ∷ [])
unfolding find_path_by_column equal
find_path_by_column_run = refl

no_name_run :
    (find_path equal same schema (codes "users") (codes "tags") [] []).0 ≡ err to_edge_not_found
unfolding find_path equal
no_name_run = refl

schema-IsIndexed : IsIndexed schema
unfolding lookup_edge
schema-IsIndexed =
    let row : (u v : ℕ) (e : Edge) (t : TEdge)
        → lookup_edge schema.all_edges e.id ≡ some t
        → get_elem? schema.tables u ≡ some t.left_table
        → get_elem? schema.tables v ≡ some t.right_table
        → IsStored schema u v e =
      λ u v e t k l r. record { edge = t; stored = k; left = l; right = r } in
    (
      (row 0 1 (line 0 1 1) _ refl refl refl, (row 0 1 (line 2 3 1) _ refl refl refl, tt)),
      (
        (row 1 0 (line 1 0 1) _ refl refl refl, (row 1 0 (line 3 2 1) _ refl refl refl, tt)),
        (
          (row 1 2 (line 4 5 1) _ refl refl refl, tt),
          ((row 2 1 (line 5 4 1) _ refl refl refl, tt), tt),
        ),
      ),
    )

index-known : All (λ entry. All (λ i. In i.edge_ids known) entry.1) schema.edges_index
index-known = ((here, tt), ((there (there here), tt), ((there here, tt), tt)))

abbrev two_steps : List TPath
two_steps = map (step_of schema) (0 ∷ 4 ∷ [])

two_steps_found :
    (find_path equal same schema (codes "users") (codes "comments") (codes "posts") []).0
    ≡ ok two_steps
unfolding find_path equal step_of
two_steps_found = refl

find_path-IsJoinPath_example :
    IsJoinPath equal same schema through_table
      (codes "users")
      (codes "comments")
      (codes "posts")
      two_steps
find_path-IsJoinPath_example =
    find_path-IsJoinPath equal same schema known known-apart (codes "users") (codes "comments")
      (codes "posts") [] two_steps schema-IsIndexed index-known nothing-IsFaithful two_steps_found

abbrev one_step : List TPath
one_step = map (step_of schema) (2 ∷ [])

one_step_found :
    (find_path_by_column equal same schema (codes "users") (codes "posts") (codes "editor") []).0
    ≡ ok one_step
unfolding find_path_by_column equal step_of
one_step_found = refl

find_path_by_column-IsJoinPath_example :
    IsJoinPath equal same schema through_column
      (codes "users")
      (codes "posts")
      (codes "editor")
      one_step
find_path_by_column-IsJoinPath_example =
    find_path_by_column-IsJoinPath equal same schema known known-apart (codes "users")
      (codes "posts") (codes "editor") [] one_step schema-IsIndexed index-known nothing-IsFaithful
      one_step_found
