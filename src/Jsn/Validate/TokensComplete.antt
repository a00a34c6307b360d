-- ===== src/Jsn/Validate/TokensComplete.antt =====
-- The strings, keys, words and numbers of the grammar are accepted by core/jsn/validate.go.
use graphjin_slim.Base.{
  ℕ, suc, ◌≤◌, Bool, true, false, ◌||◌, [], ◌∷◌, ◌++◌, ◌≡◌, refl, inl, inr, sym, ap, ◌∙◌, some,
  Bytes, leb, ◌==◌, arith, ==_iff, Bool-cases,
}
use graphjin_slim.Jsn.Validate.Strings.{validate_string, validate_key}
use graphjin_slim.Jsn.Validate.StringExact.{validate_string_complete, validate_key_iff}
use graphjin_slim.Jsn.Validate.Numbers.{done, is_digit, validate_number}
use graphjin_slim.Jsn.Validate.Exponents.{NumberToken, positive, negative}
use graphjin_slim.Jsn.Validate.NumberExact.{validate_number_iff}
use graphjin_slim.Jsn.Validate.Grammar.{
  Quoted, Key, Word, is_true, is_false, is_null, Value, object, array, text, word, number,
  ArrayBody, empty_array, full_array, Elements, last_element, more_elements, ObjectBody,
  empty_object, full_object, Members, last_member, more_members,
}
use graphjin_slim.Jsn.Validate.{
  max_depth, is_space, skip_spaces_slow, skip_spaces, check_text, string_value, key_value,
  true_text, false_text, null_text, strip_word, literal, other, kind, colon, member_key,
  validate_value,
}

pub leb_of_le : (a b : ℕ) → a ≤ b → leb a b ≡ true
leb_of_le a b h = ground arith

pub string_value_complete : (s t : Bytes) → Quoted s t → string_value (validate_string s) ≡ done t
unfolding string_value check_text
string_value_complete s t q =
    rw (validate_string_complete s q.last t q.token, string_value, q.utf8, q.no_control) refl

key_value_complete : (s t : Bytes) → Quoted s t → key_value (validate_key s) ≡ done t
unfolding key_value check_text
key_value_complete s t q =
    rw
      (
        (validate_key_iff s q.last t).1 (validate_string_complete s q.last t q.token),
        key_value,
        q.utf8,
        q.no_control,
      )
      refl

pub member_key_complete : (s t : Bytes) → Key s t → member_key s ≡ done t
unfolding member_key colon
member_key_complete s t k =
    rw (k.opens, member_key, key_value_complete k.cs k.behind k.quoted, colon, k.colon, k.starts)
      refl

strip_word-append : (w t : Bytes) → strip_word w (w ++ t) ≡ some t
unfolding strip_word
strip_word-append [] t = refl
strip_word-append (c ∷ w) t = ground (arith, strip_word-append w t, ==_iff c c)

literal-append : (w t : Bytes) → literal w (w ++ t) ≡ done t
unfolding literal
literal-append w t = rw (literal, strip_word-append w t) refl

abbrev starts_number : ℕ → Bool
starts_number c = is_digit c || c == b'-'

number_kind : (c : ℕ) → starts_number c ≡ true → (kind c ≡ other) × ((c == b']') ≡ false)
unfolding kind
number_kind c h = ground arith

-- the first byte of a number
number_head :
    (s t : Bytes)
    → NumberToken s t
    → (c : ℕ) × (cs : Bytes) × (s ≡ c ∷ cs) × (starts_number c ≡ true)
number_head s t (positive u) =
    let d = u.integer in (d.first, d.others ++ u.behind_digits, d.whole, ground arith)
number_head s t (negative v whole u) = (b'-', v, whole, refl)

slow_idem : (s : Bytes) → skip_spaces_slow (skip_spaces_slow s) ≡ skip_spaces_slow s
unfolding skip_spaces_slow
slow_idem [] = refl
slow_idem (c ∷ cs) = elim (Bool-cases (is_space c)) [
  | inl space ↦ rw space (slow_idem cs)
  | inr other_ ↦ rw (other_, other_) refl
]

skip_is_slow : (s : Bytes) → skip_spaces s ≡ skip_spaces_slow s
unfolding skip_spaces skip_spaces_slow
skip_is_slow [] = refl
skip_is_slow (c ∷ cs) = ground arith

skip_spaces_idem : (s : Bytes) → skip_spaces (skip_spaces s) ≡ skip_spaces s
skip_spaces_idem s = rw (skip_is_slow (skip_spaces s), skip_is_slow s) (slow_idem s)

cons_head : {a b : ℕ} {xs ys : Bytes} → a ∷ xs ≡ b ∷ ys → a ≡ b
cons_head h = cc

-- No value begins with a closing bracket.
Value-head :
    {d : ℕ} {s t : Bytes} (c : ℕ) (cs : Bytes) → Value d s t → s ≡ c ∷ cs → (c == b']') ≡ false
unfolding kind
Value-head c cs (object u e b) k = ground arith
Value-head c cs (array u e b) k = ground arith
Value-head c cs (text u h e q) k = ground arith
Value-head c cs (word {d} {s} {t} w h (is_true f) e) k =
    let whole = sym (e ∙ ap (λ x. x ++ t) f) ∙ k in ground arith
Value-head c cs (word {d} {s} {t} w h (is_false f) e) k =
    let whole = sym (e ∙ ap (λ x. x ++ t) f) ∙ k in ground arith
Value-head c cs (word {d} {s} {t} w h (is_null f) e) k =
    let whole = sym (e ∙ ap (λ x. x ++ t) f) ∙ k in ground arith
Value-head c cs (number {d} {s} {t} h n) k =
    let (c', cs', e, starts) = number_head s t n in
    let same : c' ≡ c = cons_head (sym e ∙ k) in rw (← same) (number_kind c' starts).1

pub Elements-head :
    {d : ℕ} (s : Bytes) {t : Bytes} (c : ℕ) (cs : Bytes)
    → Elements d (skip_spaces s) t
    → skip_spaces s ≡ c ∷ cs
    → (c == b']') ≡ false
Elements-head s c cs (last_element u v e) k = Value-head c cs v (skip_spaces_idem s ∙ k)
Elements-head s c cs (more_elements u w v e r) k = Value-head c cs v (skip_spaces_idem s ∙ k)

Key-head : (s t : Bytes) (c : ℕ) (cs : Bytes) → Key s t → s ≡ c ∷ cs → (c == b'}') ≡ false
Key-head s t c cs key k = let whole = sym key.opens ∙ k in ground arith

pub Members-head :
    {d : ℕ} (s : Bytes) {t : Bytes} (c : ℕ) (cs : Bytes)
    → Members d (skip_spaces s) t
    → skip_spaces s ≡ c ∷ cs
    → (c == b'}') ≡ false
Members-head s c cs (last_member v u key x e) k =
    Key-head (skip_spaces (skip_spaces s)) v c cs key (skip_spaces_idem s ∙ k)
Members-head s c cs (more_members v u w key x e r) k =
    Key-head (skip_spaces (skip_spaces s)) v c cs key (skip_spaces_idem s ∙ k)

pub Array-depth : {d : ℕ} {s t : Bytes} → ArrayBody d s t → d ≤ max_depth
Array-depth (empty_array h e) = h
Array-depth (full_array h e) = h

pub Object-depth : {d : ℕ} {s t : Bytes} → ObjectBody d s t → d ≤ max_depth
Object-depth (empty_object h e) = h
Object-depth (full_object h e) = h

-- a word of the language: what `validateValue` does at its first byte
pub Word-complete :
    (w t : Bytes) (n d : ℕ)
    → leb d max_depth ≡ true
    → Word w
    → validate_value (suc n) (w ++ t) d ≡ done t
unfolding validate_value
Word-complete w t n d h (is_true e) = rw (e, validate_value, h) (literal-append true_text t)
Word-complete w t n d h (is_false e) = rw (e, validate_value, h) (literal-append false_text t)
Word-complete w t n d h (is_null e) = rw (e, validate_value, h) (literal-append null_text t)

at_other :
    (n d c : ℕ) (cs t : Bytes)
    → leb d max_depth ≡ true
    → kind c ≡ other
    → validate_number (c ∷ cs) ≡ done t
    → validate_value (suc n) (c ∷ cs) d ≡ done t
unfolding validate_value
at_other n d c cs t h k accepted = rw (validate_value, h, k, accepted) refl

pub number_complete :
    (s t : Bytes) (n d : ℕ)
    → leb d max_depth ≡ true
    → NumberToken s t
    → validate_value (suc n) s d ≡ done t
number_complete s t n d h token =
    let (c, cs, e, starts) = number_head s t token in
    let accepted : validate_number (c ∷ cs) ≡ done t =
      ap validate_number (sym e) ∙ (validate_number_iff s t).1 token in
    ap (λ x. validate_value (suc n) x d) e ∙ at_other n d c cs t h (number_kind c starts).0 accepted
