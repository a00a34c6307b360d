-- ===== src/Query/Forest/Splice.antt =====
-- core/graph/parse.go: the fields of a fragment are spread among those of a selection, in
-- `parseFragmentFields`.
use graphjin_slim.Base.{
  ℕ, zero, suc, ◌+◌, ◌≤◌, ◌<◌, false, List, [], ◌∷◌, ◌++◌, ◌≡◌, refl, sym, ap, ◌∙◌, inl, inr,
  Option, none, some, length, map, arith, Bool-cases, All, All-map, All-both, length-append,
}
use mathlib.Core.List.{append_assoc, append-nil}
use mathlib.Core.Option.{some-injective}
use mathlib.Core.Path.{subst}
use graphjin_slim.Query.Ast.{Field}
use graphjin_slim.Query.Parser.{ok}
use graphjin_slim.Query.Parser.Fields.{same_parent, new_parent, moved, adopt, splice}
use graphjin_slim.Query.Parser.Holds.{Holds, holds, bind-Holds, map-Holds}
use graphjin_slim.Query.Forest.{
  ids_under, ids_under-append, ids_under-hit, ids_under-miss, Numbered, ids_below, ParentBefore,
  IsForest, Kept, Kept-IsForest, forest-Kept, add_child-Holds,
}
use graphjin_slim.Query.Forest.Place.{Below}

-- the fields of a fragment at the places from `k` on
pub moved_all : ℕ → Option ℕ → ℕ → List Field → List Field
moved_all n pid k [] = []
moved_all n pid k (f ∷ fs) = moved n pid k f ∷ moved_all n pid (suc k) fs

length-moved :
    (n : ℕ) (pid : Option ℕ) (k : ℕ) (fs : List Field) → length (moved_all n pid k fs) ≡ length fs
unfolding moved_all
length-moved n pid k [] = refl
length-moved n pid k (f ∷ fs) = ap suc (length-moved n pid (suc k) fs)

Numbered-moved :
    (n : ℕ) (pid : Option ℕ) (k : ℕ) (fs : List Field) → Numbered k (moved_all n pid k fs)
unfolding moved_all
Numbered-moved n pid k [] = tt
Numbered-moved n pid k (f ∷ fs) = (refl, Numbered-moved n pid (suc k) fs)

new_parent-before :
    (n : ℕ) (pid : Option ℕ) (parent : Option ℕ) (i : ℕ)
    → Below pid n
    → ((j : ℕ) → parent ≡ some j → j < i)
    → (j : ℕ) → new_parent n pid parent ≡ some j
    → j < n + i
new_parent-before zero pid parent i b h j e = omega (arith, h j e)
new_parent-before (suc n) none none i b h j e = cc
new_parent-before (suc n) (some q) none i b h j e = omega (arith, b, some-injective _ _ e)
new_parent-before (suc n) pid (some r) i b h j e = omega (arith, h r refl, some-injective _ _ e)

ParentBefore-moved :
    (n : ℕ) (pid : Option ℕ) (i : ℕ) (fs : List Field)
    → Below pid n
    → Numbered i fs
    → All ParentBefore fs
    → All ParentBefore (moved_all n pid (n + i) fs)
unfolding moved_all
ParentBefore-moved n pid i [] b h p = tt
ParentBefore-moved n pid i (f ∷ fs) b h p = (
  λ j e. new_parent-before n pid f.parent i b (λ a d. omega (arith, p.0 a d, h.0)) j e,
  subst (λ m. All ParentBefore (moved_all n pid m fs)) (omega arith)
      (ParentBefore-moved n pid (suc i) fs b h.1 p.1),
)

same_new_parent :
    (n : ℕ) (pid : Option ℕ) (parent : Option ℕ) (j : ℕ)
    → Below pid n
    → same_parent (new_parent n pid parent) (j + n) ≡ same_parent parent j
same_new_parent zero pid parent j b = ap (same_parent parent) (omega arith)
same_new_parent (suc n) none none j b = refl
same_new_parent (suc n) (some q) none j b = ground arith
same_new_parent (suc n) pid (some r) j b = ground arith

-- The parents of a fragment's fields move with them.
ids_under-moved :
    (n : ℕ) (pid : Option ℕ) (i j : ℕ) (fs : List Field)
    → Below pid n
    → Numbered i fs
    → ids_under (j + n) (moved_all n pid (n + i) fs) ≡ map (λ c. c + n) (ids_under j fs)
unfolding moved_all
ids_under-moved n pid i j [] b h = refl
ids_under-moved n pid i j (f ∷ fs) b h =
    let later : ids_under (j + n) (moved_all n pid (suc (n + i)) fs)
        ≡ map (λ c. c + n) (ids_under j fs) =
      subst (λ m. ids_under (j + n) (moved_all n pid m fs) ≡ map (λ c. c + n) (ids_under j fs))
        (omega arith) (ids_under-moved n pid (suc i) j fs b h.1) in
    let place : n + i ≡ f.id + n = omega (arith, h.0) in
    elim (Bool-cases (same_parent f.parent j)) [
      | inl e ↦ rw (same_new_parent n pid f.parent j b, e, later, place) refl
      | inr e ↦ rw (same_new_parent n pid f.parent j b, e) later
    ]

children_moved :
    (n : ℕ) (pid : Option ℕ) (i : ℕ) (under : ℕ → List ℕ) (over : ℕ → List ℕ) (fs : List Field)
    → ((j : ℕ) → over (j + n) ≡ map (λ c. c + n) (under j))
    → Numbered i fs
    → All (λ f. f.children ≡ under f.id) fs
    → All (λ f. f.children ≡ over f.id) (moved_all n pid (n + i) fs)
unfolding moved_all
children_moved n pid i under over [] m h c = tt
children_moved n pid i under over (f ∷ fs) m h c = (
  ap (map (λ c. c + n)) c.0 ∙ sym (m f.id) ∙ ap over (omega (arith, h.0)),
  subst (λ k. All (λ f. f.children ≡ over f.id) (moved_all n pid k fs)) (omega arith)
      (children_moved n pid (suc i) under over fs m h.1 c.1),
)

-- What `fields` must have as children for `x` to describe them, and `more` behind them.
abbrev Describes : (ℕ → List ℕ) → List Field → List Field → Type 0
Describes x fields gs = Kept fields gs × All (λ g. g.children ≡ x g.id) gs

Kept-trans : (a b c : List Field) → Kept a b → Kept b c → Kept a c
Kept-trans a b c h k = record {
  numbered = k.numbered;
  before = k.before;
  same = λ i. k.same i ∙ h.same i;
  size = k.size ∙ h.size;
}

-- A field that names none of `gs` as its parent is nobody's child there.
missed :
    (f : Field) (fields gs : List Field) (x : ℕ → List ℕ)
    → Describes x fields gs
    → ((i : ℕ) → i < length gs → same_parent f.parent i ≡ false)
    → Describes (λ i. x i ++ ids_under i (f ∷ [])) fields gs
missed f fields gs x h misses = (
  h.0,
  All-map (λ g. (g.children ≡ x g.id) × ((0 ≤ g.id) × (g.id < 0 + length gs)))
      (λ g. g.children ≡ x g.id ++ ids_under g.id (f ∷ [])) gs
      (λ g b.
        b.0
        ∙ sym (
            ap (λ is. x g.id ++ is) (ids_under-miss g.id f [] (misses g.id (omega (arith, b.1.1))))
            ∙ append-nil (x g.id)))
      (All-both (λ g. g.children ≡ x g.id) (λ g. (0 ≤ g.id) × (g.id < 0 + length gs)) gs h.1
        (ids_below 0 gs h.0.numbered)),
)

misses_none : (f : Field) → f.parent ≡ none → (i : ℕ) → same_parent f.parent i ≡ false
misses_none f e i = rw e refl

adopt-Holds :
    (n : ℕ) (pid parent : Option ℕ) (f : Field) (fields gs : List Field) (x : ℕ → List ℕ)
    → f.parent ≡ new_parent n pid parent
    → length gs ≡ n
    → Describes x fields gs
    → Holds ⊥ (Describes (λ i. x i ++ ids_under i (f ∷ [])) fields) (adopt n pid f.id parent gs)
unfolding adopt
adopt-Holds zero pid parent f fields gs x e size h =
    holds (missed f fields gs x h (λ i b. absurd (omega (arith, b, size))))
adopt-Holds (suc n) none none f fields gs x e size h =
    holds (missed f fields gs x h (λ i b. misses_none f e i))
adopt-Holds (suc n) none (some q) f fields gs x e size h =
    holds (missed f fields gs x h (λ i b. rw e (ground (arith, b, size))))
adopt-Holds (suc n) (some p) (some q) f fields gs x e size h =
    holds (missed f fields gs x h (λ i b. rw e (ground (arith, b, size))))
adopt-Holds (suc n) (some p) none f fields gs x e size h =
    let y : ℕ → List ℕ = λ i. x i ++ ids_under i (f ∷ []) in
    map-Holds (λ c. c) (λ out k. (Kept-trans fields gs out h.0 k.0, k.1))
      (add_child-Holds gs p f.id x y h.0.numbered h.0.before h.1
        (ap (λ is. x p ++ is) (ids_under-hit p f [] e))
        (λ i b other.
          ap (λ is. x i ++ is) (ids_under-miss i f [] (rw e (ground (arith, other))))
          ∙ append-nil (x i)))

-- What the loop leaves: the fields it began with, some with more children, then the fragment's.
abbrev Spread : List Field → List Field → List Field → Type 0
Spread fields new out =
    (kept : List Field) × (out ≡ kept ++ new)
    × Describes (λ i. ids_under i fields ++ ids_under i new) fields kept

splice-Holds :
    (n : ℕ) (pid : Option ℕ) (fields gs copied : List Field) (fs : List Field)
    → length gs ≡ n
    → length fields ≡ n
    → Describes (λ i. ids_under i fields ++ ids_under i copied) fields gs
    → Holds ⊥
        (Spread fields (copied ++ moved_all n pid (n + length copied) fs))
        (splice n pid gs copied fs)
unfolding splice moved_all
splice-Holds n pid fields gs copied [] size total h =
    subst (λ cs. Holds ⊥ (Spread fields cs) (ok (gs ++ copied))) (sym (append-nil copied))
      (holds (gs, refl, h))
splice-Holds n pid fields gs copied (f ∷ fs) size total h =
    let new : Field = moved n pid (n + length copied) f in
    let longer : copied ++ (new ∷ []) ++ moved_all n pid (n + length (copied ++ (new ∷ []))) fs
        ≡ copied ++ moved_all n pid (n + length copied) (f ∷ fs) =
      append_assoc copied (new ∷ []) _
      ∙ ap (λ k. copied ++ (new ∷ moved_all n pid k fs))
          (omega (arith, length-append copied (new ∷ []))) in
    bind-Holds (λ linked. splice n pid linked (copied ++ (new ∷ [])) fs)
      (adopt-Holds n pid f.parent new fields gs (λ i. ids_under i fields ++ ids_under i copied) refl
        size h)
      (λ out d.
        subst (λ cs. Holds ⊥ (Spread fields cs) (splice n pid out (copied ++ (new ∷ [])) fs)) longer
          (splice-Holds n pid fields out (copied ++ (new ∷ [])) fs (d.0.size ∙ total) total (
            d.0,
            All-map
                (λ g.
                  g.children
                  ≡ ids_under g.id fields ++ ids_under g.id copied ++ ids_under g.id (new ∷ []))
                (λ g. g.children ≡ ids_under g.id fields ++ ids_under g.id (copied ++ (new ∷ [])))
                out
                (λ g e.
                  e
                  ∙ append_assoc (ids_under g.id fields) (ids_under g.id copied) _
                  ∙ ap (λ is. ids_under g.id fields ++ is)
                      (sym (ids_under-append g.id copied (new ∷ []))))
                d.1,
          )))

-- A fragment's forest spread among the fields of a forest gives a forest.
pub splice-IsForest :
    (pid : Option ℕ) (fields fs : List Field)
    → IsForest fields
    → IsForest fs
    → Below pid (length fields)
    → Holds ⊥
        (λ out. IsForest out × (length out ≡ length fields + length fs))
        (splice (length fields) pid fields [] fs)
splice-IsForest pid fields fs h own b =
    let n : ℕ = length fields in
    let new : List Field = moved_all n pid (n + 0) fs in
    map-Holds (λ c. c)
      (λ out d. (
        subst IsForest (sym d.1) (
            Kept-IsForest fields d.0 new d.2.0 d.2.1
              (subst (λ k. Numbered k new) (omega arith) (Numbered-moved n pid (n + 0) fs))
              (ParentBefore-moved n pid 0 fs b own.numbered own.before)
              (children_moved n pid 0 (λ j. ids_under j fs) (λ j. ids_under j new) fs
                (λ j. ids_under-moved n pid 0 j fs b own.numbered) own.numbered own.linked)),
        ap length d.1
            ∙ omega (arith, length-append d.0 new, d.2.0.size, length-moved n pid (n + 0) fs),
      ))
      (splice-Holds n pid fields fields [] fs refl refl (
        forest-Kept fields h,
        All-map (λ g. g.children ≡ ids_under g.id fields)
            (λ g. g.children ≡ ids_under g.id fields ++ []) fields
            (λ g e. e ∙ sym (append-nil (ids_under g.id fields))) h.linked,
      ))
