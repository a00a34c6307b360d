-- ===== src/Query/Forest.antt =====
-- The shape of a list of fields (core/graph/parse.go, `Field`): ids are indices, parents come first,
-- and the children of a field are the fields that name it as their parent.
pub mod Place
pub mod Splice
pub mod Alike
pub mod Fits
pub mod Normal
pub mod Loop
pub mod Fragments
pub mod Operation
pub mod Parse
use graphjin_slim.Base.{
  ℕ, zero, suc, ◌+◌, ◌≤◌, ◌<◌, Bool, true, false, List, [], ◌∷◌, ◌++◌, ◌≡◌, ◌≢◌, refl, sym, ap, ◌∙◌,
  inl, inr, Option, none, some, length, get_elem?, set, map, ◌==◌, if◌then◌else◌, arith, Bool-cases,
  Option-cases, ==_iff, All, All-append, All-map, All-both, All-get_elem?, All-set, length-append,
  length-set, lt-length_of_get_elem?,
}
use mathlib.Core.List.{append_assoc, append-nil}
use mathlib.Core.Path.{subst}
use graphjin_slim.Query.Ast.{Field}
use graphjin_slim.Query.Parser.{ok, panic}
use graphjin_slim.Query.Parser.Fields.{same_parent, add_child}
use graphjin_slim.Query.Parser.Holds.{Holds, holds, failed, panicked}

-- the ids of the fields with the parent `i`, in their order
abbrev pub ids_under : ℕ → List Field → List ℕ
ids_under i [] = []
ids_under i (f ∷ fs) =
    let rest = ids_under i fs in if same_parent f.parent i then f.id ∷ rest else rest

abbrev pub Numbered : ℕ → List Field → Type 0
Numbered k [] = Unit
Numbered k (f ∷ fs) = (f.id ≡ k) × Numbered (suc k) fs

abbrev pub ParentBefore : Field → Type 0
ParentBefore f = (j : ℕ) → f.parent ≡ some j → j < f.id

pub record IsForest (fields : List Field) : Type 0 where
  pub numbered : Numbered 0 fields
  pub before : All ParentBefore fields
  pub linked : All (λ f. f.children ≡ ids_under f.id fields) fields

pub ids_under-append :
    (i : ℕ) (fs gs : List Field) → ids_under i (fs ++ gs) ≡ ids_under i fs ++ ids_under i gs
ids_under-append i [] gs = refl
ids_under-append i (f ∷ fs) gs = elim (Bool-cases (same_parent f.parent i)) [
  | inl e ↦ rw e (ap (λ is. f.id ∷ is) (ids_under-append i fs gs))
  | inr e ↦ rw e (ids_under-append i fs gs)
]

pub Numbered-append :
    (k : ℕ) (fs gs : List Field)
    → Numbered k fs
    → Numbered (k + length fs) gs
    → Numbered k (fs ++ gs)
Numbered-append k [] gs h i = subst (λ n. Numbered n gs) (omega arith) i
Numbered-append k (f ∷ fs) gs h i =
    (h.0, Numbered-append (suc k) fs gs h.1 (subst (λ n. Numbered n gs) (omega arith) i))

pub ids_below :
    (k : ℕ) (fs : List Field) → Numbered k fs → All (λ f. (k ≤ f.id) × (f.id < k + length fs)) fs
ids_below k [] h = tt
ids_below k (f ∷ fs) h = (
  (omega (arith, h.0), omega (arith, h.0)),
  All-map (λ g. (suc k ≤ g.id) × (g.id < suc k + length fs))
      (λ g. (k ≤ g.id) × (g.id < k + suc (length fs))) fs
      (λ g b. (omega (arith, b.0), omega (arith, b.1))) (ids_below (suc k) fs h.1),
)

-- No field has a parent that is not before it.
pub ids_under-none :
    (n : ℕ) (fs : List Field) → All ParentBefore fs → All (λ f. f.id ≤ n) fs → ids_under n fs ≡ []
ids_under-none n [] h b = refl
ids_under-none n (f ∷ fs) h b = elim (Option-cases f.parent) [
  | inl e ↦ rw e (ids_under-none n fs h.1 b.1)
  | inr (q, e) ↦ elim (Bool-cases (q == n)) [
    | inl k ↦ absurd (omega (arith, h.0 q e, b.0, (==_iff q n).0 k))
    | inr k ↦ rw (e, k) (ids_under-none n fs h.1 b.1)
  ]
]

pub ids_under-hit :
    (i : ℕ) (f : Field) (fs : List Field)
    → f.parent ≡ some i
    → ids_under i (f ∷ fs) ≡ f.id ∷ ids_under i fs
ids_under-hit i f fs e = let same : (i == i) ≡ true = (==_iff i i).1 refl in rw (e, same) refl

pub ids_under-miss :
    (i : ℕ) (f : Field) (fs : List Field)
    → same_parent f.parent i ≡ false
    → ids_under i (f ∷ fs) ≡ ids_under i fs
ids_under-miss i f fs e = rw e refl

pub ids_under-set :
    (i j : ℕ) (fs : List Field) (f g : Field)
    → get_elem? fs j ≡ some f
    → g.id ≡ f.id
    → g.parent ≡ f.parent
    → ids_under i (set fs j g) ≡ ids_under i fs
ids_under-set i j [] f g e a b = cc
ids_under-set i zero (h ∷ fs) f g e a b = let same : h ≡ f = cc in rw (a, b, same) refl
ids_under-set i (suc j) (h ∷ fs) f g e a b = rw (ids_under-set i j fs f g e a b) refl

pub Numbered-set :
    (k j : ℕ) (fs : List Field) (f g : Field)
    → get_elem? fs j ≡ some f
    → g.id ≡ f.id
    → Numbered k fs
    → Numbered k (set fs j g)
Numbered-set k j [] f g e a h = cc
Numbered-set k zero (x ∷ fs) f g e a h =
    let same : x ≡ f = cc in (a ∙ (sym (ap (λ y. y.id) same) ∙ h.0), h.1)
Numbered-set k (suc j) (x ∷ fs) f g e a h = (h.0, Numbered-set (suc k) j fs f g e a h.1)

pub id_of_get_elem? :
    (k j : ℕ) (fs : List Field) (f : Field) → Numbered k fs → get_elem? fs j ≡ some f → f.id ≡ k + j
id_of_get_elem? k j [] f h e = cc
id_of_get_elem? k zero (x ∷ fs) f h e =
    let same : x ≡ f = cc in omega (arith, ap (λ y. y.id) same, h.0)
id_of_get_elem? k (suc j) (x ∷ fs) f h e = omega (arith, id_of_get_elem? (suc k) j fs f h.1 e)

-- What is left of a list of fields when only children have been added.
pub record Kept (fields gs : List Field) : Type 0 where
  pub numbered : Numbered 0 gs
  pub before : All ParentBefore gs
  pub same : (i : ℕ) → ids_under i gs ≡ ids_under i fields
  pub size : length gs ≡ length fields

children_set :
    (k j id : ℕ) (fs : List Field) (f : Field) (x y : ℕ → List ℕ)
    → Numbered k fs
    → get_elem? fs j ≡ some f
    → All (λ g. g.children ≡ x g.id) fs
    → y (k + j) ≡ x (k + j) ++ (id ∷ [])
    → ((i : ℕ) → i < k + length fs → i ≢ k + j → y i ≡ x i)
    → All (λ g. g.children ≡ y g.id) (set fs j (record f { children = f.children ++ (id ∷ []) }))
children_set k j id [] f x y h e c there others = tt
children_set k zero id (g ∷ fs) f x y h e c there others =
    let same : g ≡ f = cc in
    let at : g.id ≡ k + 0 = omega (arith, h.0) in
    (
      rw (← same, at) (ap (λ cs. cs ++ (id ∷ [])) (c.0 ∙ ap x at) ∙ sym there),
      All-map (λ a. (a.children ≡ x a.id) × ((suc k ≤ a.id) × (a.id < suc k + length fs)))
          (λ a. a.children ≡ y a.id) fs
          (λ a b. b.0 ∙ sym (others a.id (omega (arith, b.1.1)) (λ z. omega (arith, b.1.0))))
          (All-both (λ a. a.children ≡ x a.id) (λ a. (suc k ≤ a.id) × (a.id < suc k + length fs)) fs
            c.1 (ids_below (suc k) fs h.1)),
    )
children_set k (suc j) id (g ∷ fs) f x y h e c there others = (
  c.0 ∙ sym (others g.id (omega (arith, h.0)) (λ z. omega (arith, h.0))),
  children_set (suc k) j id fs f x y h.1 e c.1
      (subst (λ n. y n ≡ x n ++ (id ∷ [])) (omega arith) there)
      (λ i b ne. others i (omega (arith, b)) (λ z. ne (omega arith))),
)

-- `id` becomes the last child of the field `pid`.
pub add_child-Holds :
    (fields : List Field) (pid id : ℕ) (x y : ℕ → List ℕ)
    → Numbered 0 fields
    → All ParentBefore fields
    → All (λ f. f.children ≡ x f.id) fields
    → y pid ≡ x pid ++ (id ∷ [])
    → ((i : ℕ) → i < length fields → i ≢ pid → y i ≡ x i)
    → Holds ⊥ (λ gs. Kept fields gs × All (λ f. f.children ≡ y f.id) gs) (add_child fields pid id)
unfolding add_child
add_child-Holds fields pid id x y h before c there others =
    elim (Option-cases (get_elem? fields pid)) [
      | inl e ↦ rw (add_child, e) panicked
      | inr (f, e) ↦
          let g : Field = record f { children = f.children ++ (id ∷ []) } in
          rw (add_child, e)
            (holds (
              record {
                numbered = Numbered-set 0 pid fields f g e refl h;
                before =
                    All-set ParentBefore fields pid g before
                      (λ j k. All-get_elem? ParentBefore fields pid before e j k);
                same = λ i. ids_under-set i pid fields f g e refl refl;
                size = length-set fields pid g;
              },
              children_set 0 pid id fields f x y h e c
                  (subst (λ n. y n ≡ x n ++ (id ∷ [])) (omega arith) there)
                  (λ i b ne. others i (omega (arith, b)) (λ z. ne (omega arith))),
            ))
    ]

-- `Kept` lists with the children that fit are forests again with new fields behind them.
pub Kept-IsForest :
    (fields gs new : List Field)
    → Kept fields gs
    → All (λ f. f.children ≡ ids_under f.id fields ++ ids_under f.id new) gs
    → Numbered (length fields) new
    → All ParentBefore new
    → All (λ f. f.children ≡ ids_under f.id new) new
    → IsForest (gs ++ new)
Kept-IsForest fields gs new kept c h before own =
    let start : length gs ≡ length fields = kept.size in
    record {
      numbered =
          Numbered-append 0 gs new kept.numbered (subst (λ n. Numbered n new) (omega arith) h);
      before = All-append ParentBefore gs new kept.before before;
      linked =
          All-append (λ f. f.children ≡ ids_under f.id (gs ++ new)) gs new
            (All-map (λ f. f.children ≡ ids_under f.id fields ++ ids_under f.id new)
              (λ f. f.children ≡ ids_under f.id (gs ++ new)) gs
              (λ f e. rw (ids_under-append f.id gs new, kept.same f.id) e) c)
            (All-map
              (λ f.
                (f.children ≡ ids_under f.id new)
                × ((length fields ≤ f.id) × (f.id < length fields + length new)))
              (λ f. f.children ≡ ids_under f.id (gs ++ new)) new
              (λ f b.
                rw
                  (
                    ids_under-append f.id gs new,
                    ids_under-none f.id gs kept.before (
                        All-map (λ g. (0 ≤ g.id) × (g.id < 0 + length gs)) (λ g. g.id ≤ f.id) gs
                          (λ g d. omega (arith, d.1, b.1.0, start)) (ids_below 0 gs kept.numbered)),
                  )
                  b.0)
              (All-both (λ f. f.children ≡ ids_under f.id new)
                (λ f. (length fields ≤ f.id) × (f.id < length fields + length new)) new own
                (ids_below (length fields) new h)));
    }

pub forest-Kept : (fields : List Field) → IsForest fields → Kept fields fields
forest-Kept fields h = record {
  numbered = h.numbered;
  before = h.before;
  same = λ i. refl;
  size = refl;
}
