-- ===== src/Dbjoin/Merged.antt =====
-- core/dbjoin/dbjoin.go: what `MergeRootResults` merges.
use graphjin_slim.Base.{
  true, false, List, [], ◌∷◌, ◌≡◌, refl, sym, ap, ◌∙◌, ◌⊎◌, ◌↔◌, inl, inr, Option, none, some,
  Bytes, equal, equal_iff, Outcome, ok, err, panic, Option-cases, Bool-cases,
}
use mathlib.Core.Option.{some-injective}
use graphjin_slim.Query.Parser.Operations.{is_empty}
use graphjin_slim.Dbjoin.Merge.{
  DbResult, MergeError, or_bad_merge, and_then, Object, entry, merge_object, first_failure,
  merge_all, merge_good, merge_root_results, Contributes, here, there,
}

-- `out` has the entries of `merged` and those that `more` says, and no others.
abbrev Adds : Object → (Bytes → Bytes → Type 0) → Object → Type 0
Adds merged more out =
    (key value : Bytes)
    → (entry out key ≡ some value) ↔ ((entry merged key ≡ some value) ⊎ more key value)

entry-hit : (k v key : Bytes) (es : Object) → equal k key ≡ true → entry ((k, v) ∷ es) key ≡ some v
unfolding entry
entry-hit k v key es e = rw (entry, e) refl

entry-miss :
    (k v key : Bytes) (es : Object) → equal k key ≡ false → entry ((k, v) ∷ es) key ≡ entry es key
unfolding entry
entry-miss k v key es e = rw (entry, e) refl

add_entry :
    (k v : Bytes) (es merged out : Object)
    → entry merged k ≡ none
    → Adds ((k, v) ∷ merged) (λ key value. entry es key ≡ some value) out
    → Adds merged (λ key value. entry ((k, v) ∷ es) key ≡ some value) out
add_entry k v es merged out fresh h key value = elim (Bool-cases (equal k key)) [
  | inl e ↦
      let same : k ≡ key = (equal_iff k key).0 e in
      let stored : entry out key ≡ some v = (h key v).1 (inl (entry-hit k v key merged e)) in
      (
        λ o. inr (entry-hit k v key es e ∙ sym stored ∙ o),
        λ c. elim c [
          | inl m ↦ absurd (cc (ap (entry merged) same))
          | inr m ↦ stored ∙ sym (entry-hit k v key es e) ∙ m
        ],
      )
  | inr e ↦ (
    λ o. elim ((h key value).0 o) [
      | inl m ↦ inl (sym (entry-miss k v key merged e) ∙ m)
      | inr m ↦ inr (entry-miss k v key es e ∙ m)
    ],
    λ c. elim c [
      | inl m ↦ (h key value).1 (inl (entry-miss k v key merged e ∙ m))
      | inr m ↦ (h key value).1 (inr (sym (entry-miss k v key es e) ∙ m))
    ],
  )
]

module _ {E : Type 0} where
  merge_object-Adds :
      (es merged out : Object)
      → merge_object {E = E} es merged ≡ ok out
      → Adds merged (λ key value. entry es key ≡ some value) out
  unfolding merge_object entry
  merge_object-Adds [] merged out h key value =
      let same : merged ≡ out = cc in
      (
        λ o. inl (ap (λ m. entry m key) same ∙ o),
        λ c. elim c [ inl m ↦ sym (ap (λ m. entry m key) same) ∙ m | inr m ↦ cc ],
      )
  merge_object-Adds ((k, v) ∷ es) merged out h key value = elim (Option-cases (entry merged k)) [
    | inr (w, c) ↦ cc
    | inl c ↦
        let later : merge_object {E = E} es ((k, v) ∷ merged) ≡ ok out = cc in
        add_entry k v es merged out c (merge_object-Adds es ((k, v) ∷ merged) out later) key value
  ]

  ok_of :
      {A B : Type 0} (o : Outcome (MergeError E) A) (f : A → Outcome (MergeError E) B) (b : B)
      → and_then o f ≡ ok b
      → (a : A) × (o ≡ ok a) × (f a ≡ ok b)
  ok_of (ok a) f b h = (a, refl, h)
  ok_of (err e) f b h = cc
  ok_of panic f b h = cc

  module _ (unmarshal : Bytes → Option Object) (marshal : Object → Option Bytes) where
    first-Contributes :
        (r : DbResult E) (rs : List (DbResult E)) (es : Object) (key value : Bytes)
        → is_empty r.json_data ≡ false
        → unmarshal r.json_data ≡ some es
        → Contributes unmarshal marshal key value (r ∷ rs)
        → (entry es key ≡ some value) ⊎ Contributes unmarshal marshal key value rs
    first-Contributes r rs es key value full e (here {es = fs} a b c) =
        let same : fs ≡ es = some-injective _ _ (sym b ∙ e) in
        inl (ap (λ m. entry m key) (sym same) ∙ c)
    first-Contributes r rs es key value full e (there c) = inr c

    empty-Contributes :
        (r : DbResult E) (rs : List (DbResult E)) (key value : Bytes)
        → is_empty r.json_data ≡ true
        → Contributes unmarshal marshal key value (r ∷ rs)
        → Contributes unmarshal marshal key value rs
    empty-Contributes r rs key value e (here a b c) = cc
    empty-Contributes r rs key value e (there c) = c

    unfold_all :
        (r : DbResult E) (rs : List (DbResult E)) (es merged : Object)
        → is_empty r.json_data ≡ false
        → unmarshal r.json_data ≡ some es
        → merge_all unmarshal marshal (r ∷ rs) merged
          ≡ and_then (merge_object es merged) (λ m. merge_all unmarshal marshal rs m)
    unfolding merge_all
    unfold_all r rs es merged e k = rw (merge_all, e, k) refl

    merge_all-Adds :
        (rs : List (DbResult E)) (merged out : Object)
        → merge_all unmarshal marshal rs merged ≡ ok out
        → Adds merged (λ key value. Contributes unmarshal marshal key value rs) out
    unfolding merge_all
    merge_all-Adds [] merged out h key value =
        let same : merged ≡ out = cc in
        (
          λ o. inl (ap (λ m. entry m key) same ∙ o),
          λ c. elim c [ inl m ↦ sym (ap (λ m. entry m key) same) ∙ m | inr m ↦ elim m [ ] ],
        )
    merge_all-Adds (r ∷ rs) merged out h key value = elim (Bool-cases (is_empty r.json_data)) [
      | inl e ↦
          let later : merge_all unmarshal marshal rs merged ≡ ok out = cc in
          let step = merge_all-Adds rs merged out later key value in
          (
            λ o. elim (step.0 o) [ inl m ↦ inl m | inr c ↦ inr (there c) ],
            λ c.
                step.1
                  (elim c [ inl m ↦ inl m | inr m ↦ inr (empty-Contributes r rs key value e m) ]),
          )
      | inr e ↦ elim (Option-cases (unmarshal r.json_data)) [
        | inl k ↦ cc
        | inr (es, k) ↦
            let (more, found, later) =
              ok_of (merge_object es merged) (λ m. merge_all unmarshal marshal rs m) out
                (sym (unfold_all r rs es merged e k) ∙ h) in
            let one = merge_object-Adds es merged more found key value in
            let others = merge_all-Adds rs more out later key value in
            (
              λ o. elim (others.0 o) [
                | inl m ↦ elim (one.0 m) [ inl c ↦ inl c | inr c ↦ inr (here e k c) ]
                | inr c ↦ inr (there c)
              ],
              λ o. elim o [
                | inl m ↦ others.1 (inl (one.1 (inl m)))
                | inr c ↦ elim (first-Contributes r rs es key value e k c) [
                  | inl m ↦ others.1 (inl (one.1 (inr m)))
                  | inr m ↦ others.1 (inr m)
                ]
              ],
            )
      ]
    ]

    -- What a merged result is: the text of a map whose entries are exactly those of the results.
    pub record IsMerged (rs : List (DbResult E)) (x : Option Bytes) : Type 0 where
      pub merged : Object
      pub text : Bytes
      pub is_text : x ≡ some text
      pub marshalled : marshal merged ≡ some text
      pub entries :
          (key value : Bytes)
          → (entry merged key ≡ some value) ↔ Contributes unmarshal marshal key value rs

    good_merge :
        (r s : DbResult E) (rs : List (DbResult E)) (x : Option Bytes)
        → merge_good unmarshal marshal (r ∷ s ∷ rs) ≡ ok x
        → IsMerged (r ∷ s ∷ rs) x
    unfolding merge_good entry
    good_merge r s rs x h =
        let (merged, found, last) =
          ok_of (merge_all unmarshal marshal (r ∷ s ∷ rs) []) (λ m. or_bad_merge (marshal m)) x h in
        elim (Option-cases (marshal merged)) [
          | inl k ↦ cc
          | inr (text, k) ↦ record {
            merged = merged;
            text = text;
            is_text = cc;
            marshalled = k;
            entries = λ key value.
                let all = merge_all-Adds (r ∷ s ∷ rs) [] merged found key value in
                (λ o. elim (all.0 o) [ inl m ↦ cc | inr c ↦ c ], λ c. all.1 (inr c));
          }
        ]

-- What `MergeRootResults` returns of two or more results, without an error, is the text of a map that
-- has exactly the entries of the objects in the results that are not empty: no key is lost, and none
-- is made up.
pub merge_root_results-IsMerged :
    {E : Type 0} (unmarshal : Bytes → Option Object) (marshal : Object → Option Bytes)
    (r s : DbResult E) (rs : List (DbResult E)) (x : Option Bytes)
    → merge_root_results unmarshal marshal (r ∷ s ∷ rs) ≡ ok x
    → IsMerged unmarshal marshal (r ∷ s ∷ rs) x
unfolding merge_root_results
merge_root_results-IsMerged unmarshal marshal r s rs x h =
    elim (Option-cases (first_failure (r ∷ s ∷ rs))) [
      | inr (e, k) ↦ cc
      | inl k ↦
          good_merge unmarshal marshal r s rs x
            (let good : merge_good unmarshal marshal (r ∷ s ∷ rs) ≡ ok x = cc in good)
    ]
