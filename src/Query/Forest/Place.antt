-- ===== src/Query/Forest/Place.antt =====
-- core/graph/parse.go: a new field gets its parent, in `parseNormalFields`.
use graphjin_slim.Base.{
  ℕ, suc, ◌<◌, List, [], ◌∷◌, ◌++◌, ◌≡◌, refl, sym, ap, ◌∙◌, Option, none, some, length, arith, All,
  All-map, length-append,
}
use mathlib.Core.List.{append-nil}
use mathlib.Core.Option.{some-injective}
use graphjin_slim.Query.Ast.{Field}
use graphjin_slim.Query.Parser.{ok}
use graphjin_slim.Query.Parser.Fields.{place}
use graphjin_slim.Query.Parser.Holds.{Holds, holds, bind-Holds}
use graphjin_slim.Query.Forest.{
  ids_under, ids_under-none, ids_under-hit, ids_under-miss, ParentBefore, IsForest, Kept,
  Kept-IsForest, forest-Kept, add_child-Holds,
}

abbrev pub Below : Option ℕ → ℕ → Type 0
Below none n = Unit
Below (some q) n = q < n

-- what the fields are after one more
abbrev pub OneMore : List Field → List Field → Type 0
OneMore fields gs = IsForest gs × (length gs ≡ suc (length fields))

one_more :
    (fields gs : List Field) (f : Field)
    → Kept fields gs
    → All (λ g. g.children ≡ ids_under g.id fields ++ ids_under g.id (f ∷ [])) gs
    → f.id ≡ length fields
    → f.children ≡ []
    → ParentBefore f
    → OneMore fields (gs ++ (f ∷ []))
one_more fields gs f kept c at fresh before = (
  Kept-IsForest fields gs (f ∷ []) kept c (at, tt) (before, tt)
      (fresh ∙ sym (ids_under-none f.id (f ∷ []) (before, tt) (omega arith, tt)), tt),
  omega (arith, length-append gs (f ∷ []), kept.size),
)

pub place-Holds :
    (pid : Option ℕ) (fields : List Field) (f : Field)
    → IsForest fields
    → Below pid (length fields)
    → f.id ≡ length fields
    → f.children ≡ []
    → Holds ⊥ (OneMore fields) (place pid fields f)
unfolding place
place-Holds none fields f h b at fresh = holds (
    one_more fields fields (record f { parent = none }) (forest-Kept fields h)
      (All-map (λ g. g.children ≡ ids_under g.id fields)
        (λ g. g.children ≡ ids_under g.id fields ++ []) fields
        (λ g e. e ∙ sym (append-nil (ids_under g.id fields))) h.linked)
      at fresh (λ j e. cc))
place-Holds (some pid) fields f h b at fresh =
    let new : Field = record f { parent = some pid } in
    bind-Holds (λ linked. ok (linked ++ (new ∷ [])))
      (add_child-Holds fields pid f.id (λ i. ids_under i fields)
        (λ i. ids_under i fields ++ ids_under i (new ∷ [])) h.numbered h.before h.linked
        (ap (λ is. ids_under pid fields ++ is) (ids_under-hit pid new [] refl))
        (λ i b ne.
          ap (λ is. ids_under i fields ++ is) (ids_under-miss i new [] (ground arith))
          ∙ append-nil (ids_under i fields)))
      (λ gs k. holds (
        one_more fields gs new k.0 k.1 at fresh
          (λ j e. omega (arith, at, b, some-injective _ _ e))))
