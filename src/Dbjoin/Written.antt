-- ===== src/Dbjoin/Written.antt =====
-- core/dbjoin/dbjoin.go: what `writeFieldsRecursive` writes, without its loop and its separators' flag.
use mathlib.Core.List.{append_assoc, append-nil}
use mathlib.Core.Option.{some-injective}
use mathlib.Core.Path.{subst}
use graphjin_slim.Base.{
  ℕ, zero, suc, Bool, true, false, ◌&&◌, List, [], ◌∷◌, ◌++◌, ◌≡◌, ◌≢◌, refl, sym, ap, ◌∙◌, inl,
  inr, Option, none, some, Bytes, elem, if◌then◌else◌, Bool-cases,
}
use graphjin_slim.Query.Ast.{Field}
use graphjin_slim.Dbjoin.{
  space, braced, behind_first, write_head, same_place, is_kept_under, has_kept_child,
  write_children, append_texts, write_loop, write_fields,
}
use graphjin_slim.Dbjoin.Writes.{write_loop_lem}

-- the fields with this parent whose ids are kept, in their order
abbrev pub kept_children : List ℕ → Option ℕ → List Field → List Field
kept_children keep parent [] = []
kept_children keep parent (f ∷ fs) =
    let rest = kept_children keep parent fs in
    if same_place f.parent parent && elem f.id keep then f ∷ rest else rest

-- texts with a space between two
abbrev pub spaced : List Bytes → Bytes
spaced [] = []
spaced (t ∷ []) = t
spaced (t ∷ u ∷ ts) = t ++ (space ++ spaced (u ∷ ts))

-- Each of some fields has its text, in their order: its head, and behind it in braces the texts of its
-- kept children if there are any.
pub data Written (keep : List ℕ) (fields : List Field) : List Field → List Bytes → Type 0 where
  no_more : Written keep fields [] []
  leaf :
      {f : Field} {fs : List Field} {ts : List Bytes}
      → kept_children keep (some f.id) fields ≡ []
      → Written keep fields fs ts
      → Written keep fields (f ∷ fs) (write_head f ∷ ts)
  branch :
      {f : Field} {fs : List Field} {inner ts : List Bytes}
      → kept_children keep (some f.id) fields ≢ []
      → Written keep fields (kept_children keep (some f.id) fields) inner
      → Written keep fields fs ts
      → Written keep fields (f ∷ fs) ((write_head f ++ braced (spaced inner)) ∷ ts)

-- each text behind a space
abbrev prefixed : List Bytes → Bytes
prefixed [] = []
prefixed (t ∷ ts) = space ++ (t ++ prefixed ts)

abbrev laid : Bool → List Bytes → Bytes
laid true ts = spaced ts
laid false ts = prefixed ts

spaced-prefixed : (t : Bytes) (ts : List Bytes) → spaced (t ∷ ts) ≡ t ++ prefixed ts
spaced-prefixed t [] = sym (append-nil t)
spaced-prefixed t (u ∷ ts) = ap (λ r. t ++ (space ++ r)) (spaced-prefixed u ts)

laid-cons :
    (first : Bool) (t : Bytes) (ts : List Bytes)
    → laid first (t ∷ ts) ≡ behind_first first space ++ (t ++ prefixed ts)
laid-cons true t ts = spaced-prefixed t ts
laid-cons false t ts = refl

-- A text of a field between the separator and what follows.
laid-head :
    (first : Bool) (head x : Bytes) (ts : List Bytes)
    → (behind_first first space ++ head) ++ (x ++ prefixed ts) ≡ laid first ((head ++ x) ∷ ts)
laid-head first head x ts =
    append_assoc (behind_first first space) head (x ++ prefixed ts)
    ∙ ap (◌++◌ (behind_first first space)) (sym (append_assoc head x (prefixed ts)))
    ∙ sym (laid-cons first (head ++ x) ts)

kept_children-hit :
    (keep : List ℕ) (parent : Option ℕ) (f : Field) (fs : List Field)
    → is_kept_under parent keep f ≡ true
    → kept_children keep parent (f ∷ fs) ≡ f ∷ kept_children keep parent fs
kept_children-hit keep parent f fs e = rw e refl

kept_children-miss :
    (keep : List ℕ) (parent : Option ℕ) (f : Field) (fs : List Field)
    → is_kept_under parent keep f ≡ false
    → kept_children keep parent (f ∷ fs) ≡ kept_children keep parent fs
kept_children-miss keep parent f fs e = rw e refl

has_kept_child-false :
    (parent : Option ℕ) (keep : List ℕ) (fs : List Field)
    → has_kept_child parent keep fs ≡ false
    → kept_children keep parent fs ≡ []
unfolding has_kept_child
has_kept_child-false parent keep [] h = refl
has_kept_child-false parent keep (f ∷ fs) h = elim (Bool-cases (is_kept_under parent keep f)) [
  | inl k ↦ absurd (cc (rw k at h))
  | inr k ↦ kept_children-miss keep parent f fs k ∙ has_kept_child-false parent keep fs (rw k at h)
]

has_kept_child-true :
    (parent : Option ℕ) (keep : List ℕ) (fs : List Field)
    → has_kept_child parent keep fs ≡ true
    → kept_children keep parent fs ≢ []
unfolding has_kept_child
has_kept_child-true parent keep [] h e = cc
has_kept_child-true parent keep (f ∷ fs) h e = elim (Bool-cases (is_kept_under parent keep f)) [
  | inl k ↦ absurd (cc (sym (kept_children-hit keep parent f fs k) ∙ e))
  | inr k ↦
      has_kept_child-true parent keep fs (rw k at h)
        (sym (kept_children-miss keep parent f fs k) ∙ e)
]

append_texts-some :
    (head : Bytes) (a b : Option Bytes) (text : Bytes)
    → append_texts head a b ≡ some text
    → (x : Bytes) × (y : Bytes) × (a ≡ some x) × (b ≡ some y) × (head ++ (x ++ y) ≡ text)
append_texts-some head none b text h = cc
append_texts-some head (some x) none text h = cc
append_texts-some head (some x) (some y) text h = (x, y, refl, refl, cc)

write_children-some :
    (o : Option Bytes) (x : Bytes)
    → write_children true o ≡ some x
    → (s : Bytes) × (o ≡ some s) × (braced s ≡ x)
write_children-some none x h = cc
write_children-some (some s) x h = (s, refl, cc)

-- the text of the children of a field, by `Written`
abbrev pub WrittenAs : List ℕ → List Field → Option ℕ → Bytes → Type 0
WrittenAs keep fields parent text =
    (ts : List Bytes) × Written keep fields (kept_children keep parent fields) ts
    × (text ≡ spaced ts)

module _ (write : Option ℕ → Option Bytes) (fields : List Field) (keep : List ℕ)
    (below : (p : Option ℕ) (text : Bytes)
      → write p ≡ some text
      → WrittenAs keep fields p text) where
  -- the text of one field: its head and what is behind it
  one_field :
      (f : Field) (fs : List Field) (x : Bytes) (ts : List Bytes)
      → write_children (has_kept_child (some f.id) keep fields) (write (some f.id)) ≡ some x
      → Written keep fields fs ts
      → Written keep fields (f ∷ fs) ((write_head f ++ x) ∷ ts)
  one_field f fs x ts e rest = elim (Bool-cases (has_kept_child (some f.id) keep fields)) [
    | inr k ↦
        subst (λ t. Written keep fields (f ∷ fs) (t ∷ ts))
          (sym (append-nil (write_head f))
            ∙ ap (◌++◌ (write_head f)) (some-injective _ _ (rw k at e)))
          (leaf (has_kept_child-false (some f.id) keep fields k) rest)
    | inl k ↦
        let (s, c, b) = write_children-some (write (some f.id)) x (rw k at e) in
        let (inner, w, at) = below (some f.id) s c in
        subst (λ t. Written keep fields (f ∷ fs) ((write_head f ++ t) ∷ ts))
          (ap braced (sym at) ∙ b) (branch (has_kept_child-true (some f.id) keep fields k) w rest)
  ]

  write_loop-Written :
      (parent : Option ℕ) (first : Bool) (fs : List Field) (text : Bytes)
      → write_loop write fields parent keep first fs ≡ some text
      → (ts : List Bytes) × Written keep fields (kept_children keep parent fs) ts
        × (text ≡ laid first ts)
  unfolding write_loop
  write_loop-Written parent true [] text h = ([], no_more, cc)
  write_loop-Written parent false [] text h = ([], no_more, cc)
  write_loop-Written parent first (f ∷ fs) text h =
      elim (Bool-cases (is_kept_under parent keep f)) [
        | inr k ↦
            let (ts, w, at) =
              write_loop-Written parent first fs text
                (sym (write_loop_lem write fields parent keep first f fs false k) ∙ h) in
            (
              ts,
              subst (λ l. Written keep fields l ts) (sym (kept_children-miss keep parent f fs k)) w,
              at,
            )
        | inl k ↦
            let (x, y, a, b, joined) =
              append_texts-some (behind_first first space ++ write_head f)
                (write_children (has_kept_child (some f.id) keep fields) (write (some f.id)))
                (write_loop write fields parent keep false fs) text
                (sym (write_loop_lem write fields parent keep first f fs true k) ∙ h) in
            let (ts, w, at) = write_loop-Written parent false fs y b in
            (
              (write_head f ++ x) ∷ ts,
              subst (λ l. Written keep fields l ((write_head f ++ x) ∷ ts))
                  (sym (kept_children-hit keep parent f fs k))
                  (one_field f (kept_children keep parent fs) x ts a w),
              sym joined
                  ∙ ap (λ r. (behind_first first space ++ write_head f) ++ (x ++ r)) at
                  ∙ laid-head first (write_head f) x ts,
            )
      ]

-- The text of the fields below a parent is that of each kept child, in order, with a space between.
pub write_fields-Written :
    (n : ℕ) (fields : List Field) (keep : List ℕ) (parent : Option ℕ) (text : Bytes)
    → write_fields n fields keep parent ≡ some text
    → WrittenAs keep fields parent text
unfolding write_fields
write_fields-Written zero fields keep parent text h = cc
write_fields-Written (suc n) fields keep parent text h =
    write_loop-Written (write_fields n fields keep) fields keep
      (λ p t e. write_fields-Written n fields keep p t e) parent true fields text h
