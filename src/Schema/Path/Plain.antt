-- ===== src/Schema/Path/Plain.antt =====
-- core/sdata/path.go: `resolvePath` without its cache, as an independent description: the first pair
-- with an answer, by a search each time.
use graphjin_slim.Base.{
  ℕ, Bool, List, [], ◌∷◌, ◌++◌, Option, none, some, ◌≡◌, refl, ◌⊎◌, inl, inr, Bytes, if◌then◌else◌,
  Outcome, ok, err, panic,
}
use graphjin_slim.Schema.Path.{PathOptions, EdgeInfo, DbSchema, path_not_found, shortest_path_edges}
use graphjin_slim.Schema.Path.Resolve.{
  ResolveError, searching, GraphResult, chosen, search_with, choose, returned, without_empty,
  Choice,
}
use graphjin_slim.Schema.Reach.{can_reach}

-- the first answer at which the loops return
abbrev pub first_some {ℓ} : {A : Type ℓ} → List (Option A) → Option A
first_some [] = none
first_some (some a ∷ os) = some a
first_some (none ∷ os) = first_some os

abbrev pub or_not_found :
    Option (Outcome ResolveError GraphResult) → Outcome ResolveError GraphResult
or_not_found none = err (searching path_not_found)
or_not_found (some r) = r

module _ (equal_fold : Bytes → Bytes → Bool) (to_lower : Bytes → Bytes) (s : DbSchema) where
  -- what the search gives, as the errors of `resolvePath`
  unfoldable pub search_plain : EdgeInfo → EdgeInfo → PathOptions → Outcome ResolveError (List ℕ)
  unfolding can_reach shortest_path_edges
  search_plain from to opts =
      if can_reach s.reachability from.node_id to.node_id
      then elim (shortest_path_edges equal_fold s from to opts) [
        | ok edges ↦ ok edges
        | err e ↦ err (searching e)
        | panic ↦ panic
      ]
      else err (searching path_not_found)

  unfoldable pub pair_plain : EdgeInfo → EdgeInfo → PathOptions → Outcome ResolveError (List ℕ)
  unfolding choose search_plain
  pair_plain from to opts = elim (choose equal_fold to_lower s from to opts opts.kind) [
    | chosen result ↦ result
    | search_with o ↦ search_plain from to o
  ]

  unfoldable pub answers_of :
      PathOptions → EdgeInfo → List EdgeInfo → List (Option (Outcome ResolveError GraphResult))
  unfolding pair_plain returned
  answers_of opts from [] = []
  answers_of opts from (to ∷ ts) =
      returned from to (pair_plain from to opts) ∷ answers_of opts from ts

  unfoldable pub answers :
      PathOptions → List EdgeInfo → List EdgeInfo → List (Option (Outcome ResolveError GraphResult))
  unfolding answers_of
  answers opts [] to = []
  answers opts (from ∷ fs) to = answers_of opts from to ++ answers opts fs to

  -- The first pair of a source and a target, in this order, that does not say "path not found".
  unfoldable pub resolve_plain :
      List EdgeInfo → List EdgeInfo → PathOptions → Outcome ResolveError GraphResult
  unfolding answers
  resolve_plain from to opts =
      or_not_found (first_some (answers (without_empty opts opts.kind opts.through) from to))

pub first_some-append {ℓ} :
    {A : Type ℓ} (os ps : List (Option A))
    → first_some os ≡ none
    → first_some (os ++ ps) ≡ first_some ps
first_some-append [] ps e = refl
first_some-append (some a ∷ os) ps e = cc
first_some-append (none ∷ os) ps e = first_some-append os ps e

pub first_some-append_some {ℓ} :
    {A : Type ℓ} (os ps : List (Option A)) (a : A)
    → first_some os ≡ some a
    → first_some (os ++ ps) ≡ some a
first_some-append_some [] ps a e = cc
first_some-append_some (some b ∷ os) ps a e = e
first_some-append_some (none ∷ os) ps a e = first_some-append_some os ps a e

pub Choice-cases :
    (c : Choice)
    → ((r : Outcome ResolveError (List ℕ)) × (c ≡ chosen r))
      ⊎ ((o : PathOptions) × (c ≡ search_with o))
Choice-cases (chosen r) = inl (r, refl)
Choice-cases (search_with o) = inr (o, refl)
