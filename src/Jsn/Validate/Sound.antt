-- ===== src/Jsn/Validate/Sound.antt =====
-- What `Validate` accepts is a JSON text of the grammar.
use mathlib.Core.Path.{ap₂}
use graphjin_slim.Base.{
  ℕ, zero, suc, ◌+◌, ◌≤◌, [], ◌∷◌, ◌≡◌, refl, inl, inr, ap, ◌*◌, ◌∙◌, Bytes, length, leb, leb→le,
  ◌==◌, arith, ==_iff, Bool-cases, List-cases,
}
use graphjin_slim.Jsn.Validate.Strings.{Reason, validate_string}
use graphjin_slim.Jsn.Validate.Numbers.{Scan, done, fail, out_of_fuel, validate_number}
use graphjin_slim.Jsn.Validate.NumberExact.{validate_number_iff}
use graphjin_slim.Jsn.Validate.Grammar.{
  is_true, is_false, is_null, Value, object, array, text, word, number, ArrayBody, empty_array,
  full_array, Elements, last_element, more_elements, ObjectBody, empty_object, full_object, Members,
  last_member, more_members, JsonText,
}
use graphjin_slim.Jsn.Validate.{
  max_depth, skip_spaces, string_value, true_text, false_text, null_text, literal, Kind, brace,
  bracket, quote, letter_t, letter_f, letter_n, other, kind, comma, closing, mark, within,
  member_key, validate_value, validate_array, validate_elements, validate_object, validate_members,
  finish, validate,
}
use graphjin_slim.Jsn.Validate.TokensSound.{
  Mark-cases, Scan-cases, literal_sound, member_key_sound, string_value_sound,
}

-- What the validators accept at a given fuel is in the grammar.
pub record IsSoundAt (n : ℕ) : Type 0 where
  pub value : (s t : Bytes) (d : ℕ) → validate_value n s d ≡ done t → Value d s t
  pub array_body : (s t : Bytes) (d : ℕ) → validate_array n s d ≡ done t → ArrayBody d s t
  pub elements : (s t : Bytes) (d : ℕ) → validate_elements n s d ≡ done t → Elements d s t
  pub object_body : (s t : Bytes) (d : ℕ) → validate_object n s d ≡ done t → ObjectBody d s t
  pub members : (s t : Bytes) (d : ℕ) → validate_members n s d ≡ done t → Members d s t

kind_is :
    (c : ℕ)
    → (kind c ≡ brace → c ≡ b'{') × (kind c ≡ bracket → c ≡ b'[') × (kind c ≡ quote → c ≡ b'"')
unfolding kind
kind_is c = (λ h. ground arith, λ h. ground arith, λ h. ground arith)

mark_is : (close c : ℕ) → (mark close c ≡ comma → c ≡ b',') × (mark close c ≡ closing → c ≡ close)
unfolding mark
mark_is close c = (λ h. ground arith, λ h. ground arith)

within-done :
    (context : Reason → Reason) (r : Scan) (t : Bytes) → within context r ≡ done t → r ≡ done t
within-done context (done u) t h = h
within-done context (fail u why) t h = cc
within-done context out_of_fuel t h = cc

module _ (n : ℕ) (ih : IsSoundAt n) where
  Value-kind :
      (c : ℕ) (cs t : Bytes) (d : ℕ) (k : Kind)
      → d ≤ max_depth
      → kind c ≡ k
      → (elim k [
        | brace ↦ within Reason.in_object (validate_object n cs (d + 1))
        | bracket ↦ within Reason.in_array (validate_array n cs (d + 1))
        | quote ↦ string_value (validate_string cs)
        | letter_t ↦ literal true_text (c ∷ cs)
        | letter_f ↦ literal false_text (c ∷ cs)
        | letter_n ↦ literal null_text (c ∷ cs)
        | other ↦ within Reason.in_number (validate_number (c ∷ cs))
      ])
        ≡ done t
      → Value d (c ∷ cs) t
  Value-kind c cs t d brace shallow e h =
      object cs (ap (λ x. x ∷ cs) ((kind_is c).0 e))
        (ih.object_body cs t (d + 1) (within-done _ _ t h))
  Value-kind c cs t d bracket shallow e h =
      array cs (ap (λ x. x ∷ cs) ((kind_is c).1 e))
        (ih.array_body cs t (d + 1) (within-done _ _ t h))
  Value-kind c cs t d quote shallow e h =
      text cs shallow (ap (λ x. x ∷ cs) ((kind_is c).2 e)) (string_value_sound cs t h)
  Value-kind c cs t d letter_t shallow e h =
      word true_text shallow (is_true refl) (literal_sound true_text (c ∷ cs) t h)
  Value-kind c cs t d letter_f shallow e h =
      word false_text shallow (is_false refl) (literal_sound false_text (c ∷ cs) t h)
  Value-kind c cs t d letter_n shallow e h =
      word null_text shallow (is_null refl) (literal_sound null_text (c ∷ cs) t h)
  Value-kind c cs t d other shallow e h =
      number shallow ((validate_number_iff (c ∷ cs) t).0 (within-done _ _ t h))

  Value-step : (s t : Bytes) (d : ℕ) → validate_value (suc n) s d ≡ done t → Value d s t
  unfolding validate_value
  Value-step [] t d h = cc
  Value-step (c ∷ cs) t d h = elim (Bool-cases (leb d max_depth)) [
    | inr deep ↦ absurd (ground arith)
    | inl shallow ↦
        Value-kind c cs t d (kind c) (leb→le d max_depth shallow) refl
          (rw (shallow, validate_value) at h)
  ]

  array_step : (s t : Bytes) (d : ℕ) → validate_array (suc n) s d ≡ done t → ArrayBody d s t
  unfolding validate_value
  array_step s t d h = elim (Bool-cases (leb d max_depth)) [
    | inr deep ↦ absurd (ground arith)
    | inl shallow ↦ elim (List-cases (skip_spaces s)) [
      | inl e ↦ absurd (ground arith)
      | inr (c, cs, e) ↦ elim (Bool-cases (c == b']')) [
        | inl close ↦ empty_array (leb→le d max_depth shallow) (e ∙ ground (arith, ==_iff c b']'))
        | inr open_ ↦
            full_array (leb→le d max_depth shallow) (rw e (ih.elements (c ∷ cs) t d (ground arith)))
      ]
    ]
  ]

  Elements-step : (s t : Bytes) (d : ℕ) → validate_elements (suc n) s d ≡ done t → Elements d s t
  unfolding validate_value
  Elements-step s t d h = elim (Scan-cases (validate_value n (skip_spaces s) d)) [
    | inr (inl (u, why, e)) ↦ absurd (ground arith)
    | inr (inr e) ↦ absurd (ground arith)
    | inl (u, read) ↦ elim (List-cases (skip_spaces u)) [
      | inl e ↦ absurd (ground arith)
      | inr (c, cs, e) ↦ elim (Mark-cases (mark b']' c)) [
        | inl com_ ↦
            more_elements u cs (ih.value (skip_spaces s) u d read)
              (e ∙ ap (λ x. x ∷ cs) ((mark_is b']' c).0 com_)) (ih.elements cs t d (ground arith))
        | inr (inl close) ↦
            let same : cs ≡ t = ground arith in
            last_element u (ih.value (skip_spaces s) u d read)
              (e ∙ ap₂ ◌∷◌ ((mark_is b']' c).1 close) same)
        | inr (inr bad) ↦ absurd (ground arith)
      ]
    ]
  ]

  object_step : (s t : Bytes) (d : ℕ) → validate_object (suc n) s d ≡ done t → ObjectBody d s t
  unfolding validate_value
  object_step s t d h = elim (Bool-cases (leb d max_depth)) [
    | inr deep ↦ absurd (ground arith)
    | inl shallow ↦ elim (List-cases (skip_spaces s)) [
      | inl e ↦ absurd (ground arith)
      | inr (c, cs, e) ↦ elim (Bool-cases (c == b'}')) [
        | inl close ↦ empty_object (leb→le d max_depth shallow) (e ∙ ground (arith, ==_iff c b'}'))
        | inr open_ ↦
            full_object (leb→le d max_depth shallow) (rw e (ih.members (c ∷ cs) t d (ground arith)))
      ]
    ]
  ]

  -- behind the value of a member
  member_end :
      (s t v u : Bytes) (d : ℕ)
      → validate_members (suc n) s d ≡ done t
      → member_key (skip_spaces s) ≡ done v
      → validate_value n v d ≡ done u
      → Members d s t
  unfolding validate_value
  member_end s t v u d h keyed read =
      let key = member_key_sound (skip_spaces s) v keyed in
      let value_ = ih.value v u d read in
      elim (List-cases (skip_spaces u)) [
        | inl e ↦ absurd (ground arith)
        | inr (c, cs, e) ↦ elim (Mark-cases (mark b'}' c)) [
          | inl com_ ↦
              more_members v u cs key value_ (e ∙ ap (λ x. x ∷ cs) ((mark_is b'}' c).0 com_))
                (ih.members cs t d (ground arith))
          | inr (inl close) ↦
              let same : cs ≡ t = ground arith in
              last_member v u key value_ (e ∙ ap₂ ◌∷◌ ((mark_is b'}' c).1 close) same)
          | inr (inr bad) ↦ absurd (ground arith)
        ]
      ]

  Members-step : (s t : Bytes) (d : ℕ) → validate_members (suc n) s d ≡ done t → Members d s t
  unfolding validate_value
  Members-step s t d h = elim (Scan-cases (member_key (skip_spaces s))) [
    | inr (inl (u, why, e)) ↦ absurd (ground arith)
    | inr (inr e) ↦ absurd (ground arith)
    | inl (v, keyed) ↦ elim (Scan-cases (validate_value n v d)) [
      | inr (inl (u, why, e)) ↦ absurd (ground arith)
      | inr (inr e) ↦ absurd (ground arith)
      | inl (u, read) ↦ member_end s t v u d h keyed read
    ]
  ]

pub sound_at : (n : ℕ) → IsSoundAt n
unfolding validate_value
sound_at zero = record {
  value = λ s t d h. cc;
  array_body = λ s t d h. cc;
  elements = λ s t d h. cc;
  object_body = λ s t d h. cc;
  members = λ s t d h. cc;
}
sound_at (suc n) = record {
  value = Value-step n (sound_at n);
  array_body = array_step n (sound_at n);
  elements = Elements-step n (sound_at n);
  object_body = object_step n (sound_at n);
  members = Members-step n (sound_at n);
}

finish_sound :
    (r : Scan) (t : Bytes) → finish r ≡ done t → (u : Bytes) × (r ≡ done u) × (skip_spaces u ≡ [])
unfolding finish
finish_sound (fail u why) t h = cc
finish_sound out_of_fuel t h = cc
finish_sound (done u) t h = elim (List-cases (skip_spaces u)) [
  | inl e ↦ (u, refl, e)
  | inr (c, cs, e) ↦ absurd (ground arith)
]

pub validate_sound : (s t : Bytes) → validate s ≡ done t → JsonText s
unfolding validate
validate_sound s t h =
    let (u, read, ends_) =
      finish_sound (validate_value (3 * length (skip_spaces s) + 1) (skip_spaces s) 0) t h in
    record {
      behind = u;
      value = (sound_at (3 * length (skip_spaces s) + 1)).value (skip_spaces s) u 0 read;
      ends = ends_;
    }
