-- ===== src/Dbjoin/Merge.antt =====
-- core/dbjoin/dbjoin.go: `MergeRootResults`. `json.Unmarshal` into a map and `json.Marshal` of one are
-- the parameters `unmarshal` and `marshal`; a map is the list of its entries, the last stored first.
use graphjin_slim.Base.{
  ℕ, true, false, List, [], ◌∷◌, ◌≡◌, Option, none, some, Bytes, equal, if◌then◌else◌, Outcome, ok,
  err, panic,
}
use graphjin_slim.Query.Parser.Operations.{is_empty}

pub record DbResult (E : Type 0) : Type 0 where
  pub database : Bytes
  pub json_data : Bytes
  pub fragment_hits : ℕ
  pub fragment_misses : ℕ
  pub err : Option E

pub data MergeError (E : Type 0) : Type 0 where
  database_failed : Bytes → E → MergeError E
  bad_result : Bytes → MergeError E
  duplicate_key : Bytes → MergeError E
  bad_merge : MergeError E

abbrev pub Object : Type 0
Object = List (Bytes × Bytes)

unfoldable pub entry : Object → Bytes → Option Bytes
unfolding equal
entry [] key = none
entry (e ∷ es) key = if equal e.0 key then some e.1 else entry es key

module _ {E : Type 0} where
  abbrev pub and_then :
      {A B : Type 0}
      → Outcome (MergeError E) A
      → (A → Outcome (MergeError E) B)
      → Outcome (MergeError E) B
  and_then (ok a) f = f a
  and_then (err e) f = err e
  and_then panic f = panic

  abbrev pub or_bad_merge : Option Bytes → Outcome (MergeError E) (Option Bytes)
  or_bad_merge none = err bad_merge
  or_bad_merge (some text) = ok (some text)

  -- the loop over the entries of one result
  unfoldable pub merge_object : Object → Object → Outcome (MergeError E) Object
  unfolding entry
  merge_object [] merged = ok merged
  merge_object (e ∷ es) merged = elim (entry merged e.0) [
    | some v ↦ err (duplicate_key e.0)
    | none ↦ merge_object es (e ∷ merged)
  ]

  -- the first loop, over the errors
  unfoldable pub first_failure : List (DbResult E) → Option (MergeError E)
  first_failure [] = none
  first_failure (r ∷ rs) = elim r.err [
    | some e ↦ some (database_failed r.database e)
    | none ↦ first_failure rs
  ]

  module _ (unmarshal : Bytes → Option Object) (marshal : Object → Option Bytes) where
    unfoldable pub merge_all : List (DbResult E) → Object → Outcome (MergeError E) Object
    unfolding merge_object
    merge_all [] merged = ok merged
    merge_all (r ∷ rs) merged = elim (is_empty r.json_data) [
      | true ↦ merge_all rs merged
      | false ↦ elim (unmarshal r.json_data) [
        | none ↦ err (bad_result r.database)
        | some es ↦ and_then (merge_object es merged) (λ more. merge_all rs more)
      ]
    ]

    -- behind the loop over the errors
    unfoldable pub merge_good : List (DbResult E) → Outcome (MergeError E) (Option Bytes)
    unfolding merge_all
    merge_good [] = ok none
    merge_good (r ∷ []) = ok (some r.json_data)
    merge_good (r ∷ s ∷ rs) =
        and_then (merge_all (r ∷ s ∷ rs) []) (λ merged. or_bad_merge (marshal merged))

    unfoldable pub merge_root_results : List (DbResult E) → Outcome (MergeError E) (Option Bytes)
    unfolding first_failure merge_good
    merge_root_results rs = elim (first_failure rs) [ some e ↦ err e | none ↦ merge_good rs ]

    -- `value` stands at `key` in one of the results.
    pub data Contributes (key value : Bytes) : List (DbResult E) → Type 0 where
      here :
          {r : DbResult E} {rs : List (DbResult E)} {es : Object}
          → is_empty r.json_data ≡ false
          → unmarshal r.json_data ≡ some es
          → entry es key ≡ some value
          → Contributes key value (r ∷ rs)
      there :
          {r : DbResult E} {rs : List (DbResult E)}
          → Contributes key value rs
          → Contributes key value (r ∷ rs)
