-- ===== src/Query/Parser/Values/Fronts.antt =====
-- core/graph/parse.go: the items that are left, and what the first of them decides.
use graphjin_slim.Base.{
  ℕ, zero, suc, ◌+◌, true, List, [], ◌∷◌, ◌≡◌, refl, sym, ap, ◌∙◌, some, get_elem?, arith,
}
use mathlib.Core.Option.{some-injective}
use graphjin_slim.Query.Cursor.{MType, Item}
use graphjin_slim.Query.Parser.{Parser, type_in, type_in?, peek, next, ignore}
use graphjin_slim.Query.Parser.Moves.{next_some, peek-some}

-- the list from an index on
abbrev pub from {ℓ} : {A : Type ℓ} → ℕ → List A → List A
from zero xs = xs
from (suc n) [] = []
from (suc n) (x ∷ xs) = from n xs

-- the items that are not read yet
abbrev pub rest : Parser → List Item
rest p = from p.at p.items

-- The items and the kind of the text stay.
pub record Within (p q : Parser) : Type 0 where
  pub items : q.items ≡ p.items
  pub json : q.json ≡ p.json

pub Within-trans : (p q r : Parser) → Within p q → Within q r → Within p r
Within-trans p q r h k = record { items = k.items ∙ h.items; json = k.json ∙ h.json }

from_suc {ℓ} :
    {A : Type ℓ} (n : ℕ) (xs : List A) (x : A)
    → get_elem? xs n ≡ some x
    → from n xs ≡ x ∷ from (suc n) xs
from_suc n [] x e = cc
from_suc zero (y ∷ ys) x e = ap (λ z. z ∷ ys) (some-injective _ _ e)
from_suc (suc n) (y ∷ ys) x e = from_suc n ys x e

pub from_some {ℓ} :
    {A : Type ℓ} (n : ℕ) (xs : List A) (x : A)
    → get_elem? xs n ≡ some x
    → from n xs ≡ x ∷ from (n + 1) xs
from_some n xs x e = from_suc n xs x e ∙ ap (λ k. x ∷ from k xs) {x = suc n} (omega arith)

some_from {ℓ} :
    {A : Type ℓ} (n : ℕ) (xs : List A) (x : A) (ys : List A)
    → from n xs ≡ x ∷ ys
    → get_elem? xs n ≡ some x
some_from zero [] x ys e = cc
some_from zero (z ∷ zs) x ys e = cc
some_from (suc n) [] x ys e = cc
some_from (suc n) (z ∷ zs) x ys e = some_from n zs x ys e

-- What is in front, if a test finds it.
pub record Front (types : List MType) (p : Parser) : Type 0 where
  pub begins : rest p ≡ (next p).0 ∷ rest (next p).1
  pub fits : type_in (next p).0.type types ≡ true
  pub within : Within p (next p).1

pub front : (types : List MType) (p : Parser) → peek types p ≡ true → Front types p
unfolding peek
front types p e =
    let (i, k) = peek-some types p e in
    record {
      begins = rw (next_some p i k) (from_some p.at p.items i k);
      fits = rw (next_some p i k) (cc (ap (λ o. type_in? o types) k));
      within = rw (next_some p i k) (record { items = refl; json = refl });
    }

ignored : (p : Parser) → ignore p ≡ (next p).1
unfolding ignore
ignored p = refl

-- What the first of the items left decides.
pub record Starts (p : Parser) (i : Item) (is : List Item) : Type 0 where
  pub first : (next p).0 ≡ i
  pub tests : (types : List MType) → peek types p ≡ type_in i.type types
  pub left_over : rest (next p).1 ≡ is
  pub within : Within p (next p).1

pub starts : (p : Parser) (i : Item) (is : List Item) → rest p ≡ i ∷ is → Starts p i is
unfolding peek
starts p i is e =
    let found : get_elem? p.items p.at ≡ some i = some_from p.at p.items i is e in
    record {
      first = rw (next_some p i found) refl;
      tests = λ types. ap (λ o. type_in? o types) found;
      left_over =
          rw (next_some p i found) (tail_of i _ is (sym (from_some p.at p.items i found) ∙ e));
      within = rw (next_some p i found) (record { items = refl; json = refl });
    }
  where
    tail_of : (i : Item) (xs ys : List Item) → i ∷ xs ≡ i ∷ ys → xs ≡ ys
    tail_of i xs ys e = cc
