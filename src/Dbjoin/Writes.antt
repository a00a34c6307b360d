-- ===== src/Dbjoin/Writes.antt =====
-- core/dbjoin/dbjoin.go: `writeFieldsRecursive` ends on a forest.
use graphjin_slim.Base.{
  and_left, ℕ, zero, suc, ◌+◌, ◌≤◌, ◌<◌, Bool, true, false, List, [], ◌∷◌, ◌++◌, ◌≡◌, refl, ap, ◌∙◌,
  inl, inr, Option, none, some, Bytes, length, elem, arith, ==_iff, Option-cases, Bool-cases, All,
}
use graphjin_slim.Query.Ast.{Field}
use graphjin_slim.Query.Forest.{ParentBefore}
use graphjin_slim.Dbjoin.{
  space, braced, behind_first, write_head, same_place, is_kept_under, has_kept_child,
  write_children, append_texts, write_loop, write_fields,
}
use graphjin_slim.Dbjoin.Marks.{Placed}

module _ (write : Option ℕ → Option Bytes) (fields : List Field) (parent : Option ℕ) (keep : List ℕ)
    (first : Bool) where
  -- what the loop writes of a field and those behind it, with the outcome of the test
  abbrev pub written : Field → List Field → Bool → Option Bytes
  written f fs false = write_loop write fields parent keep first fs
  written f fs true =
      append_texts (behind_first first space ++ write_head f)
        (write_children (has_kept_child (some f.id) keep fields) (write (some f.id)))
        (write_loop write fields parent keep false fs)

  pub write_loop_lem :
      (f : Field) (fs : List Field) (b : Bool)
      → is_kept_under parent keep f ≡ b
      → write_loop write fields parent keep first (f ∷ fs) ≡ written f fs b
  unfolding write_loop
  write_loop_lem f fs b e = ap (written f fs) e

-- The least id that a child of `parent` may have.
abbrev least : Option ℕ → ℕ
least none = 0
least (some pid) = suc pid

least_child :
    (parent : Option ℕ) (f : Field)
    → ParentBefore f
    → same_place f.parent parent ≡ true
    → least parent ≤ f.id
least_child none f h e = omega arith
least_child (some pid) f h e = elim (Option-cases f.parent) [
  | inl k ↦ absurd (cc (ap (λ o. same_place o (some pid)) k))
  | inr (q, k) ↦
      let at : q ≡ pid = (==_iff q pid).0 (cc (ap (λ o. same_place o (some pid)) k)) in
      omega (arith, h q k)
]

append_returns :
    (head : Bytes) (a b : Option Bytes)
    → ((t : Bytes) × (a ≡ some t))
    → ((t : Bytes) × (b ≡ some t))
    → (t : Bytes) × (append_texts head a b ≡ some t)
append_returns head a b (s, e) (t, k) = (head ++ (s ++ t), rw (e, k) refl)

children_return :
    (b : Bool) (text : Option Bytes)
    → ((t : Bytes) × (text ≡ some t))
    → (t : Bytes) × (write_children b text ≡ some t)
children_return false text h = ([], refl)
children_return true text (t, e) = (braced t, rw e refl)

write_loop_returns :
    (write : Option ℕ → Option Bytes) (fields : List Field) (parent : Option ℕ) (keep : List ℕ)
    (first : Bool) (size : ℕ) (fs : List Field)
    → All (Placed size) fs
    → ((id : ℕ) → least parent ≤ id → id < size → (t : Bytes) × (write (some id) ≡ some t))
    → (t : Bytes) × (write_loop write fields parent keep first fs ≡ some t)
unfolding write_loop
write_loop_returns write fields parent keep first size [] h w = ([], refl)
write_loop_returns write fields parent keep first size (f ∷ fs) h w =
    elim (Bool-cases (is_kept_under parent keep f)) [
      | inr k ↦
          let (t, e) = write_loop_returns write fields parent keep first size fs h.1 w in
          (t, write_loop_lem write fields parent keep first f fs false k ∙ e)
      | inl k ↦
          let (t, e) =
            append_returns (behind_first first space ++ write_head f)
              (write_children (has_kept_child (some f.id) keep fields) (write (some f.id)))
              (write_loop write fields parent keep false fs)
              (children_return (has_kept_child (some f.id) keep fields) (write (some f.id)) (
                w f.id
                  (least_child parent f h.0.0
                    (and_left (same_place f.parent parent) (elem f.id keep) k))
                  h.0.1))
              (write_loop_returns write fields parent keep false size fs h.1 w) in
          (t, write_loop_lem write fields parent keep first f fs true k ∙ e)
    ]

pub write_fields_returns :
    (n : ℕ) (fields : List Field) (keep : List ℕ) (parent : Option ℕ)
    → All (Placed (length fields)) fields
    → suc (length fields) ≤ least parent + n
    → 0 < n
    → (t : Bytes) × (write_fields n fields keep parent ≡ some t)
unfolding write_fields
write_fields_returns zero fields keep parent h fuel some_fuel = absurd (omega arith)
write_fields_returns (suc n) fields keep parent h fuel some_fuel =
    write_loop_returns (write_fields n fields keep) fields parent keep true (length fields) fields h
      (λ id after within.
        write_fields_returns n fields keep (some id) h (omega (arith, after))
          (omega (arith, after, within)))
