-- ===== src/Query/Parser/Moves.antt =====
-- What reading items does to the state of the parser: the fragments and the number of items stay, and
-- the position does not go back.
use graphjin_slim.Base.{
  ℕ, ◌+◌, ◌-◌, ◌≤◌, ◌<◌, true, ◌≡◌, refl, ◌∙◌, inl, inr, List, none, some, length, map, get_elem?,
  arith, Option-cases, lt-length_of_get_elem?,
}
use graphjin_slim.Query.Cursor.{MType, Item}
use graphjin_slim.Query.Parser.{Parser, peek, eof_item, next, ignore}

-- the items that are not read yet
abbrev pub left : Parser → ℕ
left p = length p.items - p.at

pub record Moves (p q : Parser) : Type 0 where
  pub frags : q.frags ≡ p.frags
  pub types : map (λ i. i.type) q.items ≡ map (λ i. i.type) p.items
  pub size : length q.items ≡ length p.items
  pub onward : p.at ≤ q.at

-- It moves, and reads an item.
pub record Reads (p q : Parser) : Type 0 where
  pub moves : Moves p q
  pub fewer : left q < left p

pub Moves-refl : (p : Parser) → Moves p p
Moves-refl p = record { frags = refl; types = refl; size = refl; onward = omega arith }

pub Moves-trans : (p q r : Parser) → Moves p q → Moves q r → Moves p r
Moves-trans p q r h k = record {
  frags = k.frags ∙ h.frags;
  types = k.types ∙ h.types;
  size = k.size ∙ h.size;
  onward = omega (arith, h.onward, k.onward);
}

pub left_of_Moves : (p q : Parser) → Moves p q → left q ≤ left p
left_of_Moves p q h = omega (arith, h.size, h.onward)

pub Reads-Moves : (p q r : Parser) → Reads p q → Moves q r → Reads p r
Reads-Moves p q r h k = record {
  moves = Moves-trans p q r h.moves k;
  fewer = omega (arith, h.fewer, left_of_Moves q r k);
}

pub Moves-Reads : (p q r : Parser) → Moves p q → Reads q r → Reads p r
Moves-Reads p q r h k = record {
  moves = Moves-trans p q r h k.moves;
  fewer = omega (arith, k.fewer, left_of_Moves p q h);
}

pub Reads-trans : (p q r : Parser) → Reads p q → Reads q r → Reads p r
Reads-trans p q r h k = Reads-Moves p q r h k.moves

pub Moves-next : (p : Parser) → Moves p (next p).1
unfolding next
Moves-next p = elim (Option-cases (get_elem? p.items p.at)) [
  | inl e ↦ rw (next, e) (record { frags = refl; types = refl; size = refl; onward = omega arith })
  | inr (i, e) ↦
      rw (next, e) (record { frags = refl; types = refl; size = refl; onward = omega arith })
]

pub next_some :
    (p : Parser) (i : Item)
    → get_elem? p.items p.at ≡ some i
    → next p ≡ (i, record p { at = p.at + 1 })
unfolding next
next_some p i e = rw (next, e) refl

pub next_none :
    (p : Parser) → get_elem? p.items p.at ≡ none → next p ≡ (eof_item, record p { end_met = true })
unfolding next
next_none p e = rw (next, e) refl

-- What a test finds is an item.
pub peek-some :
    (types : List MType) (p : Parser)
    → peek types p ≡ true
    → (i : Item) × (get_elem? p.items p.at ≡ some i)
unfolding peek
peek-some types p h = elim (Option-cases (get_elem? p.items p.at)) [
  | inl e ↦ cc
  | inr (i, e) ↦ (i, e)
]

pub Reads-next_some : (p : Parser) (i : Item) → get_elem? p.items p.at ≡ some i → Reads p (next p).1
Reads-next_some p i e = rw (next_some p i e) (record {
  moves = record { frags = refl; types = refl; size = refl; onward = omega arith };
  fewer = omega (arith, lt-length_of_get_elem? p.items p.at e);
})

pub Reads-next : (types : List MType) (p : Parser) → peek types p ≡ true → Reads p (next p).1
Reads-next types p h = let (i, e) = peek-some types p h in Reads-next_some p i e

pub Reads-ignore : (types : List MType) (p : Parser) → peek types p ≡ true → Reads p (ignore p)
unfolding ignore
Reads-ignore = Reads-next

pub Moves-ignore : (p : Parser) → Moves p (ignore p)
unfolding ignore
Moves-ignore = Moves-next

pub Reads-ignore-some :
    (p : Parser) (i : Item) → get_elem? p.items p.at ≡ some i → Reads p (ignore p)
unfolding ignore
Reads-ignore-some = Reads-next_some
