-- ===== src/Jsn/Validate/Complete.antt =====
-- Every JSON text of the grammar is accepted: the fuel is enough for it.
use graphjin_slim.Base.{
  ℕ, zero, suc, ◌+◌, ◌*◌, ◌≤◌, true, [], ◌∷◌, ◌≡◌, refl, ◌↔◌, inl, inr, ap, ◌∙◌, Bytes, length, leb,
  arith, List-cases,
}
use graphjin_slim.Jsn.Validate.Numbers.{done}
use graphjin_slim.Jsn.Validate.Grammar.{
  Quoted, Key, Value, object, array, text, word, number, ArrayBody, empty_array, full_array,
  Elements, last_element, more_elements, ObjectBody, empty_object, full_object, Members,
  last_member, more_members, JsonText,
}
use graphjin_slim.Jsn.Validate.Sound.{validate_sound}
use graphjin_slim.Jsn.Validate.Lengths.{
  skip_spaces-le, behind-lt, Key-lt, Value-lt, Elements-lt, Members-lt,
}
use graphjin_slim.Jsn.Validate.{
  max_depth, skip_spaces, validate_value, validate_array, validate_elements, validate_object,
  validate_members, finish, validate,
}
use graphjin_slim.Jsn.Validate.TokensComplete.{
  Array-depth, Elements-head, Members-head, Object-depth, Word-complete, leb_of_le,
  member_key_complete, number_complete, string_value_complete,
}

-- One step of each validator, where the next call succeeds.
module _ (n d : ℕ) (h : leb d max_depth ≡ true) where
  object_opens :
      (cs t : Bytes)
      → validate_object n cs (d + 1) ≡ done t
      → validate_value (suc n) (b'{' ∷ cs) d ≡ done t
  unfolding validate_value
  object_opens cs t next = rw (validate_value, h, next) refl

  array_opens :
      (cs t : Bytes)
      → validate_array n cs (d + 1) ≡ done t
      → validate_value (suc n) (b'[' ∷ cs) d ≡ done t
  unfolding validate_value
  array_opens cs t next = rw (validate_value, h, next) refl

  text_opens : (cs t : Bytes) → Quoted cs t → validate_value (suc n) (b'"' ∷ cs) d ≡ done t
  unfolding validate_value
  text_opens cs t q = rw (validate_value, h) (string_value_complete cs t q)

  array_closes : (s t : Bytes) → skip_spaces s ≡ b']' ∷ t → validate_array (suc n) s d ≡ done t
  unfolding validate_value
  array_closes s t e = rw (validate_array, h, e) refl

  object_closes : (s t : Bytes) → skip_spaces s ≡ b'}' ∷ t → validate_object (suc n) s d ≡ done t
  unfolding validate_value
  object_closes s t e = rw (validate_object, h, e) refl

  array_goes_on :
      (s t : Bytes)
      → Elements d (skip_spaces s) t
      → validate_elements n (skip_spaces s) d ≡ done t
      → validate_array (suc n) s d ≡ done t
  unfolding validate_value
  array_goes_on s t es next = elim (List-cases (skip_spaces s)) [
    | inl e ↦ absurd (omega (arith, Elements-lt es, ap length e))
    | inr (c, cs, e) ↦ rw (validate_array, h, e, Elements-head s c cs es e) (rw e at next)
  ]

  object_goes_on :
      (s t : Bytes)
      → Members d (skip_spaces s) t
      → validate_members n (skip_spaces s) d ≡ done t
      → validate_object (suc n) s d ≡ done t
  unfolding validate_value
  object_goes_on s t ms next = elim (List-cases (skip_spaces s)) [
    | inl e ↦ absurd (omega (arith, Members-lt ms, ap length e))
    | inr (c, cs, e) ↦ rw (validate_object, h, e, Members-head s c cs ms e) (rw e at next)
  ]

module _ (n d : ℕ) (s t u : Bytes) where
  element_closes :
      validate_value n (skip_spaces s) d ≡ done u
      → skip_spaces u ≡ b']' ∷ t
      → validate_elements (suc n) s d ≡ done t
  unfolding validate_value
  element_closes read e = rw (validate_elements, read, e) refl

  element_goes_on :
      (v : Bytes)
      → validate_value n (skip_spaces s) d ≡ done u
      → skip_spaces u ≡ b',' ∷ v
      → validate_elements n v d ≡ done t
      → validate_elements (suc n) s d ≡ done t
  unfolding validate_value
  element_goes_on v read e next = rw (validate_elements, read, e, next) refl

  member_closes :
      (v : Bytes)
      → Key (skip_spaces s) v
      → validate_value n v d ≡ done u
      → skip_spaces u ≡ b'}' ∷ t
      → validate_members (suc n) s d ≡ done t
  unfolding validate_value
  member_closes v k read e =
      rw (validate_members, member_key_complete (skip_spaces s) v k, read, e) refl

  member_goes_on :
      (v w : Bytes)
      → Key (skip_spaces s) v
      → validate_value n v d ≡ done u
      → skip_spaces u ≡ b',' ∷ w
      → validate_members n w d ≡ done t
      → validate_members (suc n) s d ≡ done t
  unfolding validate_value
  member_goes_on v w k read e next =
      rw (validate_members, member_key_complete (skip_spaces s) v k, read, e, next) refl

mutual
  Value-complete :
      {d : ℕ} {s t : Bytes}
      → Value d s t
      → (n : ℕ) → 3 * length s + 1 ≤ n
      → validate_value n s d ≡ done t
  Value-complete v zero le = absurd (omega arith)
  Value-complete {d} {s} {t} (object cs e b) (suc n) le =
      ap (λ x. validate_value (suc n) x d) e
      ∙ object_opens n d (leb_of_le d max_depth (omega (arith, Object-depth b))) cs t
          (object_complete b n (omega (arith, ap length e)))
  Value-complete {d} {s} {t} (array cs e b) (suc n) le =
      ap (λ x. validate_value (suc n) x d) e
      ∙ array_opens n d (leb_of_le d max_depth (omega (arith, Array-depth b))) cs t
          (array_complete b n (omega (arith, ap length e)))
  Value-complete {d} {s} {t} (text cs h e q) (suc n) le =
      ap (λ x. validate_value (suc n) x d) e ∙ text_opens n d (leb_of_le d max_depth h) cs t q
  Value-complete {d} {s} {t} (word w h k e) (suc n) le =
      ap (λ x. validate_value (suc n) x d) e ∙ Word-complete w t n d (leb_of_le d max_depth h) k
  Value-complete {d} {s} {t} (number h k) (suc n) le =
      number_complete s t n d (leb_of_le d max_depth h) k

  array_complete :
      {d : ℕ} {s t : Bytes}
      → ArrayBody d s t
      → (n : ℕ) → 3 * length s + 3 ≤ n
      → validate_array n s d ≡ done t
  array_complete b zero le = absurd (omega arith)
  array_complete {d} {s} {t} (empty_array h e) (suc n) le =
      array_closes n d (leb_of_le d max_depth h) s t e
  array_complete {d} {s} {t} (full_array h es) (suc n) le =
      array_goes_on n d (leb_of_le d max_depth h) s t es
        (Elements-complete es n (omega (arith, skip_spaces-le s)))

  Elements-complete :
      {d : ℕ} {s t : Bytes}
      → Elements d s t
      → (n : ℕ) → 3 * length s + 2 ≤ n
      → validate_elements n s d ≡ done t
  Elements-complete b zero le = absurd (omega arith)
  Elements-complete {d} {s} {t} (last_element u v e) (suc n) le =
      element_closes n d s t u (Value-complete v n (omega (arith, skip_spaces-le s))) e
  Elements-complete {d} {s} {t} (more_elements u w v e r) (suc n) le =
      element_goes_on n d s t u w (Value-complete v n (omega (arith, skip_spaces-le s))) e
        (Elements-complete r n (omega (arith, Value-lt v, behind-lt u e, skip_spaces-le s)))

  object_complete :
      {d : ℕ} {s t : Bytes}
      → ObjectBody d s t
      → (n : ℕ) → 3 * length s + 3 ≤ n
      → validate_object n s d ≡ done t
  object_complete b zero le = absurd (omega arith)
  object_complete {d} {s} {t} (empty_object h e) (suc n) le =
      object_closes n d (leb_of_le d max_depth h) s t e
  object_complete {d} {s} {t} (full_object h ms) (suc n) le =
      object_goes_on n d (leb_of_le d max_depth h) s t ms
        (Members-complete ms n (omega (arith, skip_spaces-le s)))

  Members-complete :
      {d : ℕ} {s t : Bytes}
      → Members d s t
      → (n : ℕ) → 3 * length s + 2 ≤ n
      → validate_members n s d ≡ done t
  Members-complete b zero le = absurd (omega arith)
  Members-complete {d} {s} {t} (last_member v u k x e) (suc n) le =
      member_closes n d s t u v k
        (Value-complete x n (omega (arith, Key-lt (skip_spaces s) v k, skip_spaces-le s))) e
  Members-complete {d} {s} {t} (more_members v u w k x e r) (suc n) le =
      member_goes_on n d s t u v w k
        (Value-complete x n (omega (arith, Key-lt (skip_spaces s) v k, skip_spaces-le s))) e
        (Members-complete r n
          (omega (arith, Key-lt (skip_spaces s) v k, Value-lt x, behind-lt u e, skip_spaces-le s)))

-- `Validate` accepts a text exactly if it is a JSON text of the grammar: one value with blanks
-- around it, nested no deeper than the limit, with the strings as `validateString` reads them and
-- the checks on the bytes behind their last escape.
pub validate_iff : (s : Bytes) → (validate s ≡ done []) ↔ JsonText s
unfolding validate finish
validate_iff s = (
  validate_sound s [],
  λ j.
      rw (Value-complete j.value (3 * length (skip_spaces s) + 1) (omega arith), finish, j.ends)
        refl,
)
