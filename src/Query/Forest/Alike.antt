-- ===== src/Query/Forest/Alike.antt =====
-- core/graph/parse.go: what the parser changes in a field besides its children keeps its place.
use graphjin_slim.Base.{
  ℕ, zero, suc, ◌&&◌, List, [], ◌∷◌, ◌≡◌, refl, sym, ap, ◌∙◌, inl, inr, some, length, get_elem?,
  set, leb, arith, Bool-cases, All,
}
use graphjin_slim.Query.Ast.{FieldType, Arg, Field}
use graphjin_slim.Query.Parser.Fields.{same_parent, mark_members}
use graphjin_slim.Query.Parser.Top.{is_root, is_nil, mark_keywords}
use graphjin_slim.Query.Forest.{ids_under, Numbered, ParentBefore, IsForest}

-- the same place among the fields
pub record InPlace (f g : Field) : Type 0 where
  pub id : g.id ≡ f.id
  pub parent : g.parent ≡ f.parent
  pub children : g.children ≡ f.children

abbrev pub Alike : List Field → List Field → Type 0
Alike [] [] = Unit
Alike [] (g ∷ gs) = ⊥
Alike (f ∷ fs) [] = ⊥
Alike (f ∷ fs) (g ∷ gs) = InPlace f g × Alike fs gs

abbrev in_place : (f : Field) → InPlace f f
in_place f = record { id = refl; parent = refl; children = refl }

alike : (fs : List Field) → Alike fs fs
alike [] = tt
alike (f ∷ fs) = (in_place f, alike fs)

ids_under-Alike : (i : ℕ) (fs gs : List Field) → Alike fs gs → ids_under i gs ≡ ids_under i fs
ids_under-Alike i [] [] h = refl
ids_under-Alike i [] (g ∷ gs) h = absurd h
ids_under-Alike i (f ∷ fs) [] h = absurd h
ids_under-Alike i (f ∷ fs) (g ∷ gs) h = rw (h.0.id, h.0.parent, ids_under-Alike i fs gs h.1) refl

Numbered-Alike : (k : ℕ) (fs gs : List Field) → Alike fs gs → Numbered k fs → Numbered k gs
Numbered-Alike k [] [] h n = tt
Numbered-Alike k [] (g ∷ gs) h n = absurd h
Numbered-Alike k (f ∷ fs) [] h n = absurd h
Numbered-Alike k (f ∷ fs) (g ∷ gs) h n = (h.0.id ∙ n.0, Numbered-Alike (suc k) fs gs h.1 n.1)

ParentBefore-Alike : (fs gs : List Field) → Alike fs gs → All ParentBefore fs → All ParentBefore gs
ParentBefore-Alike [] [] h b = tt
ParentBefore-Alike [] (g ∷ gs) h b = absurd h
ParentBefore-Alike (f ∷ fs) [] h b = absurd h
ParentBefore-Alike (f ∷ fs) (g ∷ gs) h b =
    (λ j e. omega (arith, b.0 j (sym h.0.parent ∙ e), h.0.id), ParentBefore-Alike fs gs h.1 b.1)

children-Alike :
    (x y : ℕ → List ℕ) (fs gs : List Field)
    → ((i : ℕ) → y i ≡ x i)
    → Alike fs gs
    → All (λ f. f.children ≡ x f.id) fs
    → All (λ g. g.children ≡ y g.id) gs
children-Alike x y [] [] same h c = tt
children-Alike x y [] (g ∷ gs) same h c = absurd h
children-Alike x y (f ∷ fs) [] same h c = absurd h
children-Alike x y (f ∷ fs) (g ∷ gs) same h c = (
  h.0.children ∙ c.0 ∙ sym (same f.id) ∙ ap y (sym h.0.id),
  children-Alike x y fs gs same h.1 c.1,
)

pub IsForest-Alike : (fs gs : List Field) → Alike fs gs → IsForest fs → IsForest gs
IsForest-Alike fs gs h k = record {
  numbered = Numbered-Alike 0 fs gs h k.numbered;
  before = ParentBefore-Alike fs gs h k.before;
  linked =
      children-Alike (λ i. ids_under i fs) (λ i. ids_under i gs) fs gs
        (λ i. ids_under-Alike i fs gs h) h k.linked;
}

pub length-Alike : (fs gs : List Field) → Alike fs gs → length gs ≡ length fs
length-Alike [] [] h = refl
length-Alike [] (g ∷ gs) h = absurd h
length-Alike (f ∷ fs) [] h = absurd h
length-Alike (f ∷ fs) (g ∷ gs) h = ap suc (length-Alike fs gs h.1)

pub set_type-Alike :
    (fs : List Field) (i : ℕ) (f : Field) (type : FieldType)
    → get_elem? fs i ≡ some f
    → Alike fs (set fs i (record f { type = type }))
set_type-Alike [] i f type e = tt
set_type-Alike (g ∷ fs) zero f type e =
    let same : g ≡ f = cc in
    (rw same (record { id = refl; parent = refl; children = refl }), alike fs)
set_type-Alike (g ∷ fs) (suc i) f type e = (in_place g, set_type-Alike fs i f type e)

pub mark_members-Alike :
    (pid : ℕ) (args : List Arg) (i : ℕ) (fs : List Field) → Alike fs (mark_members pid args i fs)
unfolding mark_members
mark_members-Alike pid args i [] = tt
mark_members-Alike pid args i (f ∷ fs) =
    elim (Bool-cases (leb (suc pid) i && same_parent f.parent pid)) [
      | inl e ↦ rw e (
        record { id = refl; parent = refl; children = refl },
        mark_members-Alike pid args (suc i) fs,
      )
      | inr e ↦ rw e (in_place f, mark_members-Alike pid args (suc i) fs)
    ]

pub mark_keywords-Alike : (fs : List Field) → Alike fs (mark_keywords fs)
unfolding mark_keywords
mark_keywords-Alike [] = tt
mark_keywords-Alike (f ∷ fs) =
    elim (Bool-cases (is_root f.parent && is_nil f.args && is_nil f.children)) [
      | inl e ↦ rw e (record { id = refl; parent = refl; children = refl }, mark_keywords-Alike fs)
      | inr e ↦ rw e (in_place f, mark_keywords-Alike fs)
    ]
