-- ===== src/Query/Parser/Holds.antt =====
-- Reasoning on the results of the parser: a predicate holds of the value if there is one, and the
-- model cuts a run off only under a condition, that its fuel is too little.
use graphjin_slim.Base.{◌≡◌, refl, inl, inr, Option-cases, get_elem?}
use graphjin_slim.Query.Parser.{
  ParseError, Result, ok, fail, panic, out_of_fuel, bind, in_context, Parser, next_err,
}
use mathlib.Core.Path.{subst}

pub data Holds {ℓ κ} {A : Type ℓ} (C : Type 0) (P : A → Type κ) : Result A → Type (ℓ ⊔ κ) where
  holds : {a : A} → P a → Holds C P (ok a)
  failed : {e : ParseError} → Holds C P (fail e)
  panicked : Holds C P panic
  cut_off : C → Holds C P out_of_fuel

ok-injective {ℓ} : {A : Type ℓ} (a b : A) → Result.ok a ≡ Result.ok b → a ≡ b
ok-injective a b e = cc

module _ {ℓ κ} {A : Type ℓ} {C : Type 0} {P : A → Type κ} where
  pub of_ok : {r : Result A} (a : A) → r ≡ ok a → Holds C P r → P a
  of_ok a e (holds {a = b} h) = subst P (ok-injective b a e) h
  of_ok a e failed = cc
  of_ok a e panicked = cc
  of_ok a e (cut_off c) = cc

  pub of_cut_off : {r : Result A} → r ≡ out_of_fuel → Holds C P r → C
  of_cut_off e (holds h) = cc
  of_cut_off e failed = cc
  of_cut_off e panicked = cc
  of_cut_off e (cut_off c) = c

  pub in_context-Holds :
      (f : ParseError → ParseError) {r : Result A} → Holds C P r → Holds C P (in_context f r)
  in_context-Holds f (holds h) = holds h
  in_context-Holds f failed = failed
  in_context-Holds f panicked = panicked
  in_context-Holds f (cut_off c) = cut_off c

  pub next_err-Holds : (e : ParseError) (p : Parser) → Holds C P (next_err e p)
  unfolding next_err
  next_err-Holds e p = elim (Option-cases (get_elem? p.items p.at)) [
    | inl k ↦ rw (next_err, k) panicked
    | inr (i, k) ↦ rw (next_err, k) failed
  ]

module _ {ℓ κ μ ν} {A : Type ℓ} {B : Type μ} {C : Type 0} {P : A → Type κ} {Q : B → Type ν} where
  pub bind-Holds :
      {r : Result A} (f : A → Result B)
      → Holds C P r
      → ((a : A) → P a → Holds C Q (f a))
      → Holds C Q (bind r f)
  bind-Holds f (holds {a} h) k = k a h
  bind-Holds f failed k = failed
  bind-Holds f panicked k = panicked
  bind-Holds f (cut_off c) k = cut_off c

  -- The same, where the rest may use which value it was.
  pub bind_ok-Holds :
      {r : Result A} (f : A → Result B)
      → Holds C P r
      → ((a : A) → r ≡ ok a → P a → Holds C Q (f a))
      → Holds C Q (bind r f)
  bind_ok-Holds f (holds {a} h) k = k a refl h
  bind_ok-Holds f failed k = failed
  bind_ok-Holds f panicked k = panicked
  bind_ok-Holds f (cut_off c) k = cut_off c

module _ {ℓ κ ν} {A : Type ℓ} {C D : Type 0} {P : A → Type κ} {Q : A → Type ν} where
  pub map-Holds : {r : Result A} → (C → D) → ((a : A) → P a → Q a) → Holds C P r → Holds D Q r
  map-Holds g f (holds {a} h) = holds (f a h)
  map-Holds g f failed = failed
  map-Holds g f panicked = panicked
  map-Holds g f (cut_off c) = cut_off (g c)
