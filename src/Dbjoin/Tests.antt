-- ===== src/Dbjoin/Tests.antt =====
-- Runs of `BuildDatabaseQuery`, and its theorems at a concrete query.
use graphjin_slim.Base.{
  codes, ℕ, Bool, false, [], ◌∷◌, ◌++◌, ◌≡◌, refl, Bytes, Option, none, some, ok, err,
}
use graphjin_slim.Query.Ast.{op_query, Operation}
use graphjin_slim.Query.Parser.{Result, ok as parsed}
use graphjin_slim.Query.Parser.Top.{parse}
use graphjin_slim.Dbjoin.{build_database_query}
use graphjin_slim.Dbjoin.Merge.{DbResult, duplicate_key, Object, merge_root_results}
use graphjin_slim.Dbjoin.Merged.{IsMerged, merge_root_results-IsMerged}
use graphjin_slim.Dbjoin.Build.{
  IsRestriction, build_database_query_returns, build_database_query-IsRestriction,
}

abbrev no_wide : ℕ → Bool
no_wide r = false

abbrev joined : Bytes
joined = codes "query Q { users(id: $x, tags: [1, \"b\"]) { n: name posts { id } } orders { id } }"

abbrev users_only : Bytes
users_only = codes "query Q { users(id: $x, tags: [1, \"b\"]) { n: name posts { id } } }"

joined_run : build_database_query no_wide 100 joined (codes "users" ∷ []) ≡ parsed users_only
unfolding build_database_query
joined_run = refl

abbrev op_of : Result Operation → Operation
op_of (parsed op) = op
op_of _ = record {
  type = op_query;
  name = [];
  var_defs = [];
  directives = [];
  fields = [];
  query = [];
  frags = [];
}

build_database_query_returns_example :
    (text : Bytes) × (build_database_query no_wide 100 joined (codes "orders" ∷ []) ≡ parsed text)
unfolding parse
build_database_query_returns_example =
    build_database_query_returns no_wide 100 joined (codes "orders" ∷ [])
      (op_of (parse no_wide 100 joined)) refl

build_database_query-IsRestriction_example :
    (op : Operation) × (parse no_wide 100 joined ≡ parsed op)
    × IsRestriction (codes "users" ∷ []) op users_only
build_database_query-IsRestriction_example =
    build_database_query-IsRestriction no_wide 100 joined (codes "users" ∷ []) users_only joined_run

-- An object of one entry with a key of one byte, which stands for what the library reads and writes.
abbrev one_entry : Bytes → Option Object
one_entry [] = none
one_entry (k ∷ v) = some ((k ∷ [], v) ∷ [])

abbrev entries_text : Object → Bytes
entries_text [] = []
entries_text (e ∷ es) = e.0 ++ (e.1 ++ entries_text es)

abbrev result : Bytes → DbResult ℕ
result text = record {
  database = [];
  json_data = text;
  fragment_hits = 0;
  fragment_misses = 0;
  err = none;
}

merge_run :
    merge_root_results one_entry
      (λ m. some (entries_text m))
      (result (codes "a1") ∷ result [] ∷ result (codes "b2") ∷ [])
    ≡ ok (some (codes "b2a1"))
unfolding merge_root_results
merge_run = refl

duplicate_run :
    merge_root_results one_entry
      (λ m. some (entries_text m))
      (result (codes "a1") ∷ result (codes "a2") ∷ [])
    ≡ err (duplicate_key (codes "a"))
unfolding merge_root_results
duplicate_run = refl

merge_root_results-IsMerged_example :
    IsMerged one_entry
      (λ m. some (entries_text m))
      (result (codes "a1") ∷ result [] ∷ result (codes "b2") ∷ [])
      (some (codes "b2a1"))
merge_root_results-IsMerged_example =
    merge_root_results-IsMerged one_entry (λ m. some (entries_text m)) (result (codes "a1"))
      (result []) (result (codes "b2") ∷ []) (some (codes "b2a1")) merge_run
