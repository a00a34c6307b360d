-- ===== src/Schema/Path/Resolved.antt =====
-- core/sdata/path.go: what `resolvePath` returns, over all its sources and targets.
use mathlib.Core.Path.{subst}
use graphjin_slim.Base.{
  ℕ, Bool, List, [], ◌∷◌, ◌≡◌, sym, ap, ◌∙◌, inl, inr, Option, none, some, Bytes, Option-cases, All,
  Outcome, ok, err, panic,
}
use graphjin_slim.Schema.Path.{PathOptions, EdgeInfo, DbSchema, path_not_found, path_search_limit}
use graphjin_slim.Schema.Path.Chain.{In, here, there}
use graphjin_slim.Schema.Path.Cache.{hash_edge_ids, PathCache}
use graphjin_slim.Schema.Path.Resolve.{
  ResolveError, searching, though_node_not_found, ambiguous_path, GraphResult, returned,
  without_empty, resolve_path,
}
use graphjin_slim.Schema.Path.Plain.{
  first_some-append, first_some-append_some, first_some, or_not_found, pair_plain, answers_of,
  answers, resolve_plain,
}
use graphjin_slim.Schema.Path.Cached.{IsFaithful, resolve_path-resolve_plain}
use graphjin_slim.Schema.Path.Joined.{IsJoined, pair_plain-IsJoined}

-- Where the loops go on is not a result.
returned-ok :
    (from to : EdgeInfo) (o : Outcome ResolveError (List ℕ)) (r : GraphResult)
    → returned from to o ≡ some (ok r)
    → (o ≡ ok r.edges) × (r.from ≡ from) × (r.to ≡ to)
unfolding returned
returned-ok from to (ok edges) r h = (cc, cc, cc)
returned-ok from to (err (searching path_not_found)) r h = cc
returned-ok from to (err (searching path_search_limit)) r h = cc
returned-ok from to (err though_node_not_found) r h = cc
returned-ok from to (err (ambiguous_path e)) r h = cc
returned-ok from to panic r h = cc

-- a result of `resolvePath`: one of the sources, one of the targets, and a path between them
pub record IsResult (equal_fold : Bytes → Bytes → Bool) (to_lower : Bytes → Bytes) (s : DbSchema)
    (from to : List EdgeInfo) (opts : PathOptions) (r : GraphResult) : Type 0 where
  pub source : In r.from from
  pub target : In r.to to
  pub joined : IsJoined equal_fold to_lower s r.from r.to opts r.edges

module _ (equal_fold : Bytes → Bytes → Bool) (to_lower : Bytes → Bytes) (s : DbSchema)
    (opts : PathOptions) (r : GraphResult) where
  abbrev Found : List EdgeInfo → List EdgeInfo → Type 0
  Found from to = IsResult equal_fold to_lower s from to opts r

  more_targets : (from to : EdgeInfo) (fs ts : List EdgeInfo) → Found fs ts → Found fs (to ∷ ts)
  more_targets from to fs ts f = record {
    source = f.source;
    target = there f.target;
    joined = f.joined;
  }

  answers_of-Found :
      (from : EdgeInfo) (to : List EdgeInfo)
      → first_some (answers_of equal_fold to_lower s opts from to) ≡ some (ok r)
      → Found (from ∷ []) to
  unfolding answers_of
  answers_of-Found from [] h = cc
  answers_of-Found from (to ∷ ts) h =
      elim (Option-cases (returned from to (pair_plain equal_fold to_lower s from to opts))) [
        | inl e ↦
            more_targets from to (from ∷ []) ts (answers_of-Found from ts (rw (answers_of, e) at h))
        | inr (a, e) ↦
            let (found, same_from, same_to) =
              returned-ok from to (pair_plain equal_fold to_lower s from to opts) r
                (e ∙ (rw (answers_of, e) at h)) in
            record {
              source = subst (λ f. In r.from (f ∷ [])) same_from here;
              target = subst (λ t. In r.to (t ∷ ts)) same_to here;
              joined =
                  subst (λ f. IsJoined equal_fold to_lower s f r.to opts r.edges) (sym same_from)
                    (subst (λ t. IsJoined equal_fold to_lower s from t opts r.edges) (sym same_to)
                      (pair_plain-IsJoined equal_fold to_lower s from to opts r.edges found));
            }
      ]

  only_member : (f g : EdgeInfo) (fs : List EdgeInfo) → In f (g ∷ []) → In f (g ∷ fs)
  only_member f g fs here = here
  only_member f g fs (there i) = elim i [ ]

  answers-Found :
      (from to : List EdgeInfo)
      → first_some (answers equal_fold to_lower s opts from to) ≡ some (ok r)
      → Found from to
  unfolding answers
  answers-Found [] to h = cc
  answers-Found (from ∷ fs) to h =
      let mine = answers_of equal_fold to_lower s opts from to in
      elim (Option-cases (first_some mine)) [
        | inl e ↦
            let f = answers-Found fs to (sym (first_some-append mine _ e) ∙ h) in
            record { source = there f.source; target = f.target; joined = f.joined }
        | inr (a, e) ↦
            let f = answers_of-Found from to (
              e
              ∙ sym (first_some-append_some mine (answers equal_fold to_lower s opts fs to) a e)
              ∙ h) in
            record {
              source = only_member r.from from fs f.source;
              target = f.target;
              joined = f.joined;
            }
      ]

or_not_found-ok :
    (o : Option (Outcome ResolveError GraphResult)) (r : GraphResult)
    → or_not_found o ≡ ok r
    → o ≡ some (ok r)
or_not_found-ok none r h = cc
or_not_found-ok (some a) r h = ap some h

-- Each path that `resolvePath` returns joins one of the sources to one of the targets: it is one edge
-- of the source, by the named column if there is one, or a path of the search through the named table
-- or by the named column; also if it comes from the cache, when each path there is what the search
-- finds and the hash tells apart the lists of edges in use.
pub resolve_path-IsResult :
    (equal_fold : Bytes → Bytes → Bool) (to_lower : Bytes → Bytes) (s : DbSchema)
    (known : List (List ℕ))
    (apart : (a b : List ℕ) → In a known → In b known → hash_edge_ids a ≡ hash_edge_ids b → a ≡ b)
    (from to : List EdgeInfo) (opts : PathOptions) (cache : PathCache) (r : GraphResult)
    → All (λ f. In f.edge_ids known) from
    → All (λ t. In t.edge_ids known) to
    → IsFaithful equal_fold s known cache
    → (resolve_path equal_fold to_lower s from to opts cache).0 ≡ ok r
    → IsResult equal_fold to_lower s from to (without_empty opts opts.kind opts.through) r
unfolding resolve_plain
resolve_path-IsResult equal_fold to_lower s known apart from to opts cache r kf kt keeps h =
    let same =
      (resolve_path-resolve_plain equal_fold to_lower s known apart from to opts cache kf kt
        keeps).0 in
    answers-Found equal_fold to_lower s (without_empty opts opts.kind opts.through) r from to
      (or_not_found-ok _ r (sym same ∙ h))
