-- ===== src/Dbjoin/Marks.antt =====
-- core/dbjoin/dbjoin.go: `markDescendants` ends on a forest and stores exactly what is below a field.
use graphjin_slim.Base.{
  ℕ, zero, suc, ◌+◌, ◌≤◌, ◌<◌, true, ◌&&◌, List, [], ◌∷◌, ◌≡◌, refl, ap, ◌⊎◌, ◌↔◌, inl, inr, Option,
  none, some, Bytes, length, elem, ◌==◌, if◌then◌else◌, arith, ==_iff, Option-cases, Bool-cases,
  All, All-map, All-both,
}
use mathlib.Core.Option.{some-injective}
use graphjin_slim.Query.Ast.{Field}
use graphjin_slim.Query.Parser.Fields.{same_parent}
use graphjin_slim.Query.Forest.{ids_under, ParentBefore, IsForest, ids_below}
use graphjin_slim.Query.Parser.Top.{is_root}
use graphjin_slim.Dbjoin.{mark_loop, mark_descendants, is_allowed, keep_roots}

-- `i` is below `pid`: a child, or below a child.
pub data Descends (fields : List Field) : ℕ → ℕ → Type 0 where
  child : {pid i : ℕ} → elem i (ids_under pid fields) ≡ true → Descends fields pid i
  deeper :
      {pid i j : ℕ}
      → elem j (ids_under pid fields) ≡ true
      → Descends fields j i
      → Descends fields pid i

-- `i` is one of `ids` or below one.
pub record AtOrBelow (fields : List Field) (ids : List ℕ) (i : ℕ) : Type 0 where
  pub from : ℕ
  pub listed : elem from ids ≡ true
  pub reached : (from ≡ i) ⊎ Descends fields from i

abbrev pub StoresBelow : List Field → List ℕ → List ℕ → List ℕ → Type 0
StoresBelow fields ids keep out =
    (i : ℕ) → (elem i out ≡ true) ↔ ((elem i keep ≡ true) ⊎ AtOrBelow fields ids i)

none_listed : (fields : List Field) (i : ℕ) → AtOrBelow fields [] i → ⊥
none_listed fields i h = cc h.listed

stores_nothing : (fields : List Field) (keep : List ℕ) → StoresBelow fields [] keep keep
stores_nothing fields keep i =
    (λ h. inl h, λ h. elim h [ inl k ↦ k | inr k ↦ absurd (none_listed fields i k) ])

first_listed :
    (fields : List Field) (id : ℕ) (ids : List ℕ) (i : ℕ)
    → (id ≡ i) ⊎ Descends fields id i
    → AtOrBelow fields (id ∷ ids) i
first_listed fields id ids i h = record { from = id; listed = ground arith; reached = h }

rest_listed :
    (fields : List Field) (id : ℕ) (ids : List ℕ) (i : ℕ)
    → AtOrBelow fields ids i
    → AtOrBelow fields (id ∷ ids) i
rest_listed fields id ids i h = record {
  from = h.from;
  listed = ground (arith, h.listed);
  reached = h.reached;
}

split_listed :
    (fields : List Field) (id : ℕ) (ids : List ℕ) (i : ℕ)
    → AtOrBelow fields (id ∷ ids) i
    → ((id ≡ i) ⊎ Descends fields id i) ⊎ AtOrBelow fields ids i
split_listed fields id ids i h = elim (Bool-cases (id == h.from)) [
  | inl e ↦ inl (rw ((==_iff id h.from).0 e) h.reached)
  | inr e ↦
      inr (record { from = h.from; listed = ground (arith, h.listed, e); reached = h.reached })
]

-- Storing what is below `id`, then what is at or below `ids`.
stores_more :
    (fields : List Field) (id : ℕ) (ids keep more out : List ℕ)
    → ((i : ℕ) → (elem i more ≡ true) ↔ ((elem i (id ∷ keep) ≡ true) ⊎ Descends fields id i))
    → StoresBelow fields ids more out
    → StoresBelow fields (id ∷ ids) keep out
stores_more fields id ids keep more out h k i = (
  λ e. elim ((k i).0 e) [
    | inr b ↦ inr (rest_listed fields id ids i b)
    | inl m ↦ elim ((h i).0 m) [
      | inr d ↦ inr (first_listed fields id ids i (inr d))
      | inl c ↦ elim (Bool-cases (id == i)) [
        | inl s ↦ inr (first_listed fields id ids i (inl ((==_iff id i).0 s)))
        | inr s ↦ inl (ground (arith, c, s))
      ]
    ]
  ],
  λ e. elim e [
    | inl c ↦ (k i).1 (inl ((h i).1 (inl (ground (arith, c)))))
    | inr b ↦ elim (split_listed fields id ids i b) [
      | inr r ↦ (k i).1 (inr r)
      | inl (inl s) ↦ (k i).1 (inl ((h i).1 (inl (ground (arith, s)))))
      | inl (inr d) ↦ (k i).1 (inl ((h i).1 (inr d)))
    ]
  ],
)

-- What the recursive call must do.
abbrev MarksBelow : List Field → (ℕ → List ℕ → Option (List ℕ)) → Type 0
MarksBelow fields mark =
    (pid : ℕ) (keep out : List ℕ)
    → mark pid keep ≡ some out
    → (i : ℕ) → (elem i out ≡ true) ↔ ((elem i keep ≡ true) ⊎ Descends fields pid i)

mark_loop-StoresBelow :
    (fields : List Field) (mark : ℕ → List ℕ → Option (List ℕ)) (pid : ℕ) (fs : List Field)
    (keep out : List ℕ)
    → MarksBelow fields mark
    → mark_loop mark pid fs keep ≡ some out
    → StoresBelow fields (ids_under pid fs) keep out
unfolding mark_loop
mark_loop-StoresBelow fields mark pid [] keep out m e =
    let same : keep ≡ out = some-injective _ _ e in rw (← same) (stores_nothing fields keep)
mark_loop-StoresBelow fields mark pid (f ∷ fs) keep out m e =
    elim (Bool-cases (same_parent f.parent pid)) [
      | inr k ↦
          let later : mark_loop mark pid fs keep ≡ some out = cc in
          rw k (mark_loop-StoresBelow fields mark pid fs keep out m later)
      | inl k ↦ elim (Option-cases (mark f.id (f.id ∷ keep))) [
        | inl c ↦ cc
        | inr (more, c) ↦
            let later : mark_loop mark pid fs more ≡ some out = cc in
            rw k (
              stores_more fields f.id (ids_under pid fs) keep more out (m f.id (f.id ∷ keep) more c)
                (mark_loop-StoresBelow fields mark pid fs more out m later))
      ]
    ]

below_children :
    (fields : List Field) (pid i : ℕ)
    → AtOrBelow fields (ids_under pid fields) i
    → Descends fields pid i
below_children fields pid i h = elim h.reached [
  | inl e ↦ child (rw (← e) h.listed)
  | inr d ↦ deeper h.listed d
]

children_below :
    (fields : List Field) (pid i : ℕ)
    → Descends fields pid i
    → AtOrBelow fields (ids_under pid fields) i
children_below fields pid i (child e) = record { from = i; listed = e; reached = inl refl }
children_below fields pid i (deeper {j = j} e d) = record { from = j; listed = e; reached = inr d }

pub mark_descendants-MarksBelow :
    (n : ℕ) (fields : List Field) → MarksBelow fields (mark_descendants n fields)
unfolding mark_descendants
mark_descendants-MarksBelow zero fields pid keep out e i = cc
mark_descendants-MarksBelow (suc n) fields pid keep out e i =
    let all =
      mark_loop-StoresBelow fields (mark_descendants n fields) pid fields keep out
        (mark_descendants-MarksBelow n fields) e i in
    (
      λ h. elim (all.0 h) [ inl k ↦ inl k | inr b ↦ inr (below_children fields pid i b) ],
      λ h. all.1 (elim h [ inl k ↦ inl k | inr d ↦ inr (children_below fields pid i d) ]),
    )

-- A field after its parent and within the list.
abbrev pub Placed : ℕ → Field → Type 0
Placed size f = ParentBefore f × (f.id < size)

pub IsForest-Placed : (fields : List Field) → IsForest fields → All (Placed (length fields)) fields
IsForest-Placed fields h =
    All-both ParentBefore (λ f. f.id < length fields) fields h.before
      (All-map (λ f. (0 ≤ f.id) × (f.id < 0 + length fields)) (λ f. f.id < length fields) fields
        (λ f b. omega (arith, b.1)) (ids_below 0 fields h.numbered))

pub parent_at : (parent : Option ℕ) (pid : ℕ) → same_parent parent pid ≡ true → parent ≡ some pid
parent_at none pid h = cc
parent_at (some q) pid h = ap some ((==_iff q pid).0 h)

mark_loop_returns :
    (mark : ℕ → List ℕ → Option (List ℕ)) (size pid : ℕ) (fs : List Field) (keep : List ℕ)
    → All (Placed size) fs
    → ((id : ℕ) (ids : List ℕ) → pid < id → id < size → (out : List ℕ) × (mark id ids ≡ some out))
    → (out : List ℕ) × (mark_loop mark pid fs keep ≡ some out)
unfolding mark_loop
mark_loop_returns mark size pid [] keep h m = (keep, refl)
mark_loop_returns mark size pid (f ∷ fs) keep h m = elim (Bool-cases (same_parent f.parent pid)) [
  | inr k ↦
      let (out, e) = mark_loop_returns mark size pid fs keep h.1 m in (out, rw (mark_loop, k) e)
  | inl k ↦
      let (more, c) = m f.id (f.id ∷ keep) (h.0.0 pid (parent_at f.parent pid k)) h.0.1 in
      let (out, e) = mark_loop_returns mark size pid fs more h.1 m in (out, rw (mark_loop, k, c) e)
]

pub mark_descendants_returns :
    (n : ℕ) (fields : List Field) (pid : ℕ) (keep : List ℕ)
    → All (Placed (length fields)) fields
    → length fields ≤ pid + n
    → 0 < n
    → (out : List ℕ) × (mark_descendants n fields pid keep ≡ some out)
unfolding mark_descendants
mark_descendants_returns zero fields pid keep h fuel some_fuel = absurd (omega arith)
mark_descendants_returns (suc n) fields pid keep h fuel some_fuel =
    mark_loop_returns (mark_descendants n fields) (length fields) pid fields keep h
      (λ id ids after within.
        mark_descendants_returns n fields id ids h (omega (arith, after))
          (omega (arith, after, within)))

-- the ids of the fields that are named at the root
abbrev pub roots_allowed : List Bytes → List Field → List ℕ
roots_allowed roots [] = []
roots_allowed roots (f ∷ fs) =
    let rest = roots_allowed roots fs in
    if is_root f.parent && is_allowed roots f.name then f.id ∷ rest else rest

pub keep_roots-StoresBelow :
    (n : ℕ) (roots : List Bytes) (fields fs : List Field) (keep out : List ℕ)
    → keep_roots n roots fields fs keep ≡ some out
    → StoresBelow fields (roots_allowed roots fs) keep out
unfolding keep_roots
keep_roots-StoresBelow n roots fields [] keep out e =
    let same : keep ≡ out = some-injective _ _ e in rw (← same) (stores_nothing fields keep)
keep_roots-StoresBelow n roots fields (f ∷ fs) keep out e =
    elim (Bool-cases (is_root f.parent && is_allowed roots f.name)) [
      | inr k ↦
          let later : keep_roots n roots fields fs keep ≡ some out = cc in
          rw k (keep_roots-StoresBelow n roots fields fs keep out later)
      | inl k ↦ elim (Option-cases (mark_descendants n fields f.id (f.id ∷ keep))) [
        | inl c ↦ cc
        | inr (more, c) ↦
            let later : keep_roots n roots fields fs more ≡ some out = cc in
            rw k (
              stores_more fields f.id (roots_allowed roots fs) keep more out
                (mark_descendants-MarksBelow n fields f.id (f.id ∷ keep) more c)
                (keep_roots-StoresBelow n roots fields fs more out later))
      ]
    ]

pub keep_roots_returns :
    (n : ℕ) (roots : List Bytes) (fields fs : List Field) (keep : List ℕ)
    → All (Placed (length fields)) fields
    → length fields ≤ n
    → 0 < n
    → (out : List ℕ) × (keep_roots n roots fields fs keep ≡ some out)
unfolding keep_roots
keep_roots_returns n roots fields [] keep h fuel some_fuel = (keep, refl)
keep_roots_returns n roots fields (f ∷ fs) keep h fuel some_fuel =
    elim (Bool-cases (is_root f.parent && is_allowed roots f.name)) [
      | inr k ↦
          let (out, e) = keep_roots_returns n roots fields fs keep h fuel some_fuel in
          (out, rw (keep_roots, k) e)
      | inl k ↦
          let (more, c) =
            mark_descendants_returns n fields f.id (f.id ∷ keep) h (omega arith) some_fuel in
          let (out, e) = keep_roots_returns n roots fields fs more h fuel some_fuel in
          (out, rw (keep_roots, k, c) e)
    ]
