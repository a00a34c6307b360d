-- ===== src/Jsn/Validate/Total.antt =====
-- The fuel of `validate` is enough for every text, accepted or not.
use graphjin_slim.Base.{
  ℕ, zero, suc, ◌+◌, ◌*◌, ◌≤◌, [], ◌∷◌, ◌≢◌, inl, inr, ap, Bytes, length, leb, ◌==◌, arith,
  Bool-cases, List-cases,
}
use graphjin_slim.Jsn.Validate.Strings.{Reason, Text, found, failed, validate_string, validate_key}
use graphjin_slim.Jsn.Validate.Numbers.{
  Scan, done, fail, out_of_fuel, skip_digits, exponent_digits, exponent_unsigned, exponent_sign,
  exponent, fraction_digits, fraction, unsigned, after_sign, validate_number,
}
use graphjin_slim.Jsn.Validate.TokensSound.{Scan-cases, Mark-cases, member_key_sound}
use graphjin_slim.Jsn.Validate.Sound.{sound_at}
use graphjin_slim.Jsn.Validate.Lengths.{skip_spaces-le, behind-lt, Key-lt, Value-lt}
use graphjin_slim.Jsn.Validate.{
  max_depth, skip_spaces, check_text, string_value, key_value, true_text, false_text, null_text,
  literal, Kind, brace, bracket, quote, letter_t, letter_f, letter_n, other, kind, mark, within,
  colon, member_key, validate_value, validate_array, validate_elements, validate_object,
  validate_members, finish, validate,
}

abbrev Ends : Scan → Type 0
Ends r = r ≢ out_of_fuel

exponent-Ends : (s : Bytes) → Ends (exponent s)
unfolding exponent exponent_sign exponent_unsigned exponent_digits
exponent-Ends [] = λ h. cc
exponent-Ends (c ∷ []) = ground arith
exponent-Ends (c ∷ d ∷ []) = ground arith
exponent-Ends (c ∷ d ∷ e ∷ s) = ground arith

fraction-Ends : (s : Bytes) → Ends (fraction s)
unfolding fraction fraction_digits
fraction-Ends [] = λ h. cc
fraction-Ends (c ∷ []) = ground (arith, exponent-Ends (c ∷ []))
fraction-Ends (c ∷ d ∷ s) =
    ground (arith, exponent-Ends (c ∷ d ∷ s), exponent-Ends (skip_digits (d ∷ s)))

number-Ends : (s : Bytes) → Ends (validate_number s)
unfolding validate_number after_sign unsigned
number-Ends [] = λ h. cc
number-Ends (c ∷ []) = ground (arith, fraction-Ends (skip_digits (c ∷ [])))
number-Ends (c ∷ d ∷ s) =
    ground (arith, fraction-Ends (skip_digits (c ∷ d ∷ s)), fraction-Ends (skip_digits (d ∷ s)))

check_text-Ends : (r : Text) → Ends (check_text r)
unfolding check_text
check_text-Ends (failed tail why) = λ h. cc
check_text-Ends (found sv tail) = ground arith

string_value-Ends : (r : Text) → Ends (string_value r)
unfolding string_value
string_value-Ends (failed tail why) = λ h. cc
string_value-Ends (found sv tail) = check_text-Ends (found sv tail)

key_value-Ends : (r : Text) → Ends (key_value r)
unfolding key_value
key_value-Ends (failed tail why) = λ h. cc
key_value-Ends (found sv tail) = check_text-Ends (found sv tail)

colon-Ends : (r : Scan) → Ends r → Ends (colon r)
unfolding colon
colon-Ends (fail t why) h = λ e. cc
colon-Ends out_of_fuel h = h
colon-Ends (done t) h = elim (List-cases (skip_spaces t)) [
  | inl e ↦ ground arith
  | inr (c, cs, e) ↦ ground arith
]

member_key-Ends : (s : Bytes) → Ends (member_key s)
unfolding member_key
member_key-Ends [] = λ h. cc
member_key-Ends (c ∷ cs) =
    ground (arith, colon-Ends (key_value (validate_key cs)) (key_value-Ends (validate_key cs)))

literal-Ends : (w s : Bytes) → Ends (literal w s)
unfolding literal
literal-Ends w s = ground arith

within-Ends : (context : Reason → Reason) (r : Scan) → Ends r → Ends (within context r)
within-Ends context (done t) h = λ e. cc
within-Ends context (fail t why) h = λ e. cc
within-Ends context out_of_fuel h = h

record AllEnd (n : ℕ) : Type 0 where
  value : (s : Bytes) (d : ℕ) → 3 * length s + 1 ≤ n → Ends (validate_value n s d)
  array_body : (s : Bytes) (d : ℕ) → 3 * length s + 3 ≤ n → Ends (validate_array n s d)
  elements : (s : Bytes) (d : ℕ) → 3 * length s + 2 ≤ n → Ends (validate_elements n s d)
  object_body : (s : Bytes) (d : ℕ) → 3 * length s + 3 ≤ n → Ends (validate_object n s d)
  members : (s : Bytes) (d : ℕ) → 3 * length s + 2 ≤ n → Ends (validate_members n s d)

module _ (n : ℕ) (ih : AllEnd n) where
  kind-Ends :
      (c : ℕ) (cs : Bytes) (d : ℕ) (k : Kind)
      → 3 * length cs + 3 ≤ n
      → Ends (elim k [
        | brace ↦ within Reason.in_object (validate_object n cs (d + 1))
        | bracket ↦ within Reason.in_array (validate_array n cs (d + 1))
        | quote ↦ string_value (validate_string cs)
        | letter_t ↦ literal true_text (c ∷ cs)
        | letter_f ↦ literal false_text (c ∷ cs)
        | letter_n ↦ literal null_text (c ∷ cs)
        | other ↦ within Reason.in_number (validate_number (c ∷ cs))
      ])
  kind-Ends c cs d brace le = within-Ends _ _ (ih.object_body cs (d + 1) le)
  kind-Ends c cs d bracket le = within-Ends _ _ (ih.array_body cs (d + 1) le)
  kind-Ends c cs d quote le = string_value-Ends (validate_string cs)
  kind-Ends c cs d letter_t le = literal-Ends true_text (c ∷ cs)
  kind-Ends c cs d letter_f le = literal-Ends false_text (c ∷ cs)
  kind-Ends c cs d letter_n le = literal-Ends null_text (c ∷ cs)
  kind-Ends c cs d other le = within-Ends _ _ (number-Ends (c ∷ cs))

  value-Ends : (s : Bytes) (d : ℕ) → 3 * length s + 1 ≤ suc n → Ends (validate_value (suc n) s d)
  unfolding validate_value
  value-Ends [] d le = λ h. cc
  value-Ends (c ∷ cs) d le = elim (Bool-cases (leb d max_depth)) [
    | inr deep ↦ rw (validate_value, deep) (λ h. cc)
    | inl shallow ↦ rw (validate_value, shallow) (kind-Ends c cs d (kind c) (omega arith))
  ]

  array-Ends : (s : Bytes) (d : ℕ) → 3 * length s + 3 ≤ suc n → Ends (validate_array (suc n) s d)
  unfolding validate_value
  array-Ends s d le = elim (Bool-cases (leb d max_depth)) [
    | inr deep ↦ rw (validate_array, deep) (λ h. cc)
    | inl shallow ↦ elim (List-cases (skip_spaces s)) [
      | inl e ↦ rw (validate_array, shallow, e) (λ h. cc)
      | inr (c, cs, e) ↦ elim (Bool-cases (c == b']')) [
        | inl close ↦ rw (validate_array, shallow, e, close) (λ h. cc)
        | inr open_ ↦
            rw (validate_array, shallow, e, open_)
              (ih.elements (c ∷ cs) d (omega (arith, skip_spaces-le s, ap length e)))
      ]
    ]
  ]

  object-Ends : (s : Bytes) (d : ℕ) → 3 * length s + 3 ≤ suc n → Ends (validate_object (suc n) s d)
  unfolding validate_value
  object-Ends s d le = elim (Bool-cases (leb d max_depth)) [
    | inr deep ↦ rw (validate_object, deep) (λ h. cc)
    | inl shallow ↦ elim (List-cases (skip_spaces s)) [
      | inl e ↦ rw (validate_object, shallow, e) (λ h. cc)
      | inr (c, cs, e) ↦ elim (Bool-cases (c == b'}')) [
        | inl close ↦ rw (validate_object, shallow, e, close) (λ h. cc)
        | inr open_ ↦
            rw (validate_object, shallow, e, open_)
              (ih.members (c ∷ cs) d (omega (arith, skip_spaces-le s, ap length e)))
      ]
    ]
  ]

  elements-Ends :
      (s : Bytes) (d : ℕ) → 3 * length s + 2 ≤ suc n → Ends (validate_elements (suc n) s d)
  unfolding validate_value
  elements-Ends s d le = elim (Scan-cases (validate_value n (skip_spaces s) d)) [
    | inr (inl (u, why, e)) ↦ rw (validate_elements, e) (λ h. cc)
    | inr (inr e) ↦ absurd (ih.value (skip_spaces s) d (omega (arith, skip_spaces-le s)) e)
    | inl (u, read) ↦ elim (List-cases (skip_spaces u)) [
      | inl e ↦ rw (validate_elements, read, e) (λ h. cc)
      | inr (c, cs, e) ↦
          let v = (sound_at n).value (skip_spaces s) u d read in
          let next =
            ih.elements cs d (omega (arith, skip_spaces-le s, Value-lt v, behind-lt u e)) in
          elim (Mark-cases (mark b']' c)) [
            | inl m ↦ rw (validate_elements, read, e, m) next
            | inr (inl m) ↦ rw (validate_elements, read, e, m) (λ h. cc)
            | inr (inr m) ↦ rw (validate_elements, read, e, m) (λ h. cc)
          ]
    ]
  ]

  members-Ends :
      (s : Bytes) (d : ℕ) → 3 * length s + 2 ≤ suc n → Ends (validate_members (suc n) s d)
  unfolding validate_value
  members-Ends s d le = elim (Scan-cases (member_key (skip_spaces s))) [
    | inr (inl (u, why, e)) ↦ rw (validate_members, e) (λ h. cc)
    | inr (inr e) ↦ absurd (member_key-Ends (skip_spaces s) e)
    | inl (v, keyed) ↦
        let key = member_key_sound (skip_spaces s) v keyed in
        let shorter = Key-lt (skip_spaces s) v key in
        elim (Scan-cases (validate_value n v d)) [
          | inr (inl (u, why, e)) ↦ rw (validate_members, keyed, e) (λ h. cc)
          | inr (inr e) ↦ absurd (ih.value v d (omega (arith, skip_spaces-le s)) e)
          | inl (u, read) ↦ elim (List-cases (skip_spaces u)) [
            | inl e ↦ rw (validate_members, keyed, read, e) (λ h. cc)
            | inr (c, cs, e) ↦
                let x = (sound_at n).value v u d read in
                let next =
                  ih.members cs d (omega (arith, skip_spaces-le s, Value-lt x, behind-lt u e)) in
                elim (Mark-cases (mark b'}' c)) [
                  | inl m ↦ rw (validate_members, keyed, read, e, m) next
                  | inr (inl m) ↦ rw (validate_members, keyed, read, e, m) (λ h. cc)
                  | inr (inr m) ↦ rw (validate_members, keyed, read, e, m) (λ h. cc)
                ]
          ]
        ]
  ]

all_end : (n : ℕ) → AllEnd n
all_end zero = record {
  value = λ s d le. absurd (omega arith);
  array_body = λ s d le. absurd (omega arith);
  elements = λ s d le. absurd (omega arith);
  object_body = λ s d le. absurd (omega arith);
  members = λ s d le. absurd (omega arith);
}
all_end (suc n) = record {
  value = value-Ends n (all_end n);
  array_body = array-Ends n (all_end n);
  elements = elements-Ends n (all_end n);
  object_body = object-Ends n (all_end n);
  members = members-Ends n (all_end n);
}

-- `Validate` ends on every text: it is accepted or refused with a reason, and the fuel of the
-- model, three times the length of the text and one, never runs out.
pub validate_total : (s : Bytes) → validate s ≢ out_of_fuel
unfolding validate finish
validate_total s =
    go _ ((all_end (3 * length (skip_spaces s) + 1)).value (skip_spaces s) 0 (omega arith))
  where
    go : (r : Scan) → Ends r → Ends (finish r)
    go (fail t why) h = λ e. cc
    go out_of_fuel h = h
    go (done t) h = elim (List-cases (skip_spaces t)) [
      | inl e ↦ rw (finish, e) (λ k. cc)
      | inr (c, cs, e) ↦ rw (finish, e) (λ k. cc)
    ]
