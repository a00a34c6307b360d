-- ===== src/Query/Parser/Operations/Ended.antt =====
-- The items end with the end of the file, and the parser is kept before it by what it tests.
use graphjin_slim.Base.{
  get_elem?_total, ℕ, zero, suc, ◌≤◌, ◌<◌, true, false, List, [], ◌∷◌, ◌++◌, ◌≡◌, ◌≢◌, refl, sym,
  ap, ◌∙◌, some, length, map, get_elem?, set, arith, length-append, length-set,
}
use mathlib.Core.Option.{some-injective}
use mathlib.Core.Path.{subst}
use graphjin_slim.Query.Cursor.{MType, item_eof, item_obj_close, Item}
use graphjin_slim.Query.Lex.Ends.{IsTokenized}
use graphjin_slim.Query.Parser.{Parser, type_in, type_in?, peek, ignore, next_lower, lower_item}
use graphjin_slim.Query.Parser.Operations.{skip_close}
use graphjin_slim.Query.Parser.Moves.{left, Moves, Reads, next_some, peek-some, Reads-ignore}

abbrev pub types_of : Parser → List MType
types_of p = map (λ i. i.type) p.items

-- The last of the items is the end of the file.
abbrev pub Ended : List MType → Type 0
Ended ts = (j : ℕ) (t : MType) → get_elem? ts j ≡ some t → t ≢ item_eof → suc j < length ts

pub length-types : (is : List Item) → length (map (λ i. i.type) is) ≡ length is
length-types [] = refl
length-types (i ∷ is) = ap suc (length-types is)

type_at :
    (is : List Item) (j : ℕ) (i : Item)
    → get_elem? is j ≡ some i
    → get_elem? (map (λ k. k.type) is) j ≡ some i.type
type_at [] j i e = cc
type_at (k ∷ is) zero i e = cc
type_at (k ∷ is) (suc j) i e = type_at is j i e

-- An item that is not the end of the file has one behind it.
pub more_left :
    (p : Parser) (i : Item)
    → Ended (types_of p)
    → get_elem? p.items p.at ≡ some i
    → i.type ≢ item_eof
    → 1 < left p
more_left p i h e ne =
    omega (arith, h p.at i.type (type_at p.items p.at i e) ne, length-types p.items)

Ended-append : (ts : List MType) → Ended (ts ++ (item_eof ∷ []))
Ended-append [] zero t e ne = absurd (ne (sym (some-injective _ _ e)))
Ended-append [] (suc j) t e ne = cc
Ended-append (u ∷ ts) zero t e ne = omega (arith, length-append ts (item_eof ∷ []))
Ended-append (u ∷ ts) (suc j) t e ne = omega (arith, Ended-append ts j t e ne)

types-append :
    (is : List Item) (i : Item)
    → map (λ k. k.type) (is ++ (i ∷ [])) ≡ map (λ k. k.type) is ++ (i.type ∷ [])
types-append [] i = refl
types-append (k ∷ is) i = ap (λ ts. k.type ∷ ts) (types-append is i)

pub IsTokenized-Ended : (n : ℕ) (is : List Item) → IsTokenized n is → Ended (map (λ i. i.type) is)
IsTokenized-Ended n is h =
    subst Ended
      (sym (
        ap (map (λ i. i.type)) h.items_are
        ∙ types-append h.body h.last
        ∙ ap (λ t. map (λ i. i.type) h.body ++ (t ∷ [])) h.at_end))
      (Ended-append (map (λ i. i.type) h.body))

-- What `Moves` says without the fragments.
pub record Passes (p q : Parser) : Type 0 where
  pub types : types_of q ≡ types_of p
  pub fewer : left q ≤ left p

pub Moves-Passes : (p q : Parser) → Moves p q → Passes p q
Moves-Passes p q h = record { types = h.types; fewer = omega (arith, h.size, h.onward) }

pub Passes-trans : (p q r : Parser) → Passes p q → Passes q r → Passes p r
Passes-trans p q r h k = record {
  types = k.types ∙ h.types;
  fewer = omega (arith, h.fewer, k.fewer);
}

pub Passes-Ended : (p q : Parser) → Passes p q → Ended (types_of p) → Ended (types_of q)
Passes-Ended p q h e = subst Ended (sym h.types) e

types-set :
    (is : List Item) (j : ℕ) (i : Item)
    → get_elem? is j ≡ some i
    → map (λ k. k.type) (set is j (lower_item i)) ≡ map (λ k. k.type) is
types-set [] j i e = refl
types-set (k ∷ is) zero i e = let same : k ≡ i = cc in rw same refl
types-set (k ∷ is) (suc j) i e = ap (λ ts. k.type ∷ ts) (types-set is j i e)

pub Passes-next_lower :
    (p : Parser) (i : Item)
    → get_elem? p.items p.at ≡ some i
    → Passes p (next_lower p).1 × ((next_lower p).1.frags ≡ p.frags)
unfolding next_lower
Passes-next_lower p i e =
    rw (next_lower, next_some p i e)
      (
        record {
          types = types-set p.items p.at i e;
          fewer = omega (arith, length-set p.items p.at (lower_item i));
        },
        refl,
      )

-- An item that is not the end of the file is read, and there are more.
pub ignore-more :
    (p : Parser) (i : Item)
    → Ended (types_of p)
    → get_elem? p.items p.at ≡ some i
    → i.type ≢ item_eof
    → 0 < left (ignore p)
unfolding ignore
ignore-more p i h e ne = rw (ignore, next_some p i e) (omega (arith, more_left p i h e ne))

-- The next item, if it is not the end of the file.
pub not_at_end :
    (p : Parser)
    → 0 < left p
    → peek (item_eof ∷ []) p ≡ false
    → (i : Item) × (get_elem? p.items p.at ≡ some i) × (i.type ≢ item_eof)
unfolding peek
not_at_end p h e =
    let (i, k) = get_elem?_total p.items p.at (omega arith) in
    (
      i,
      k,
      λ same. cc (ap (λ o. type_in? o (item_eof ∷ [])) k, ap (λ t. type_in t (item_eof ∷ [])) same),
    )

not_eof : (t : MType) → type_in t (item_obj_close ∷ []) ≡ true → t ≢ item_eof
not_eof t h e = cc (ap (λ u. type_in u (item_obj_close ∷ [])) e)

closes :
    (p : Parser) (i : Item)
    → get_elem? p.items p.at ≡ some i
    → peek (item_obj_close ∷ []) p ≡ true
    → type_in i.type (item_obj_close ∷ []) ≡ true
unfolding peek
closes p i k e = cc (ap (λ o. type_in? o (item_obj_close ∷ [])) k)

-- A closing brace that is next is not the last item, and is skipped.
pub skip_close-Reads :
    (p : Parser)
    → Ended (types_of p)
    → peek (item_obj_close ∷ []) p ≡ true
    → Reads p (skip_close p) × (0 < left (skip_close p))
unfolding skip_close
skip_close-Reads p h e =
    let (i, k) = peek-some (item_obj_close ∷ []) p e in
    rw (skip_close, e)
      (
        Reads-ignore (item_obj_close ∷ []) p e,
        ignore-more p i h k (not_eof i.type (closes p i k e)),
      )
