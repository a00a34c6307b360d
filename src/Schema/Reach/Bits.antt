-- ===== src/Schema/Reach/Bits.antt =====
-- core/sdata/graphmeta.go: the bits of the words.
use graphjin_slim.Base.{
  get_elem?_total, ℕ, zero, suc, ◌*◌, ◌/◌, ◌%◌, ◌≤◌, ◌<◌, Bool, true, false, ◌||◌, List, [], ◌≡◌,
  ◌≢◌, refl, sym, ap, ◌∙◌, inl, inr, some, length, get_elem?, get_or, set, ◌==◌, if◌then◌else◌,
  arith, ==_iff, ok, Bool-cases, All, All-set, All-get_elem?, length-set, get_or_of_get_elem?,
  lt-length_of_get_elem?,
}
use graphjin_slim.Util.Graph.Built.{get_or-set}
use graphjin_slim.Schema.Reach.{repeat, words, set_bit, bit}

-- The words of `n` bits.
pub record IsBits (n : ℕ) (bits : List (List Bool)) : Type 0 where
  pub enough : n ≤ 64 * length bits
  pub whole : All (λ word. length word ≡ 64) bits

same_place : (a b : ℕ) → (a / 64 ≡ b / 64) → (a % 64 ≡ b % 64) → a ≡ b
same_place a b h k = omega arith

other_place : (a b : ℕ) → a ≢ b → (a == b) ≡ false
other_place a b h = ground (arith, h)

read_back :
    (node b : ℕ) (bits : List (List Bool)) (word : List Bool)
    → get_elem? bits (node / 64) ≡ some word
    → length word ≡ 64
    → bit (set bits (node / 64) (set word (node % 64) true)) b ≡ (node == b || bit bits b)
unfolding bit
read_back node b bits word e size =
    let within : node / 64 < length bits = lt-length_of_get_elem? bits (node / 64) e in
    let words_at = get_or-set bits (node / 64) (b / 64) (set word (node % 64) true) [] within in
    let bits_at = get_or-set word (node % 64) (b % 64) true false (omega arith) in
    let read : List Bool → Bool = λ w. get_or w (b % 64) false in
    elim (Bool-cases (node / 64 == b / 64)) [
      | inr d ↦
          let apart : (node == b) ≡ false =
            other_place node b
              (λ q. absurd (cc (d, (==_iff (node / 64) (b / 64)).1 (ap (λ m. m / 64) q)))) in
          ap read (
            words_at ∙ ap (λ t. if t then set word (node % 64) true else get_or bits (b / 64) []) d)
          ∙ rw apart refl
      | inl d ↦
          let column : node / 64 ≡ b / 64 = (==_iff (node / 64) (b / 64)).0 d in
          let old : get_or bits (b / 64) [] ≡ word =
            ap (λ m. get_or bits m []) (sym column) ∙ get_or_of_get_elem? bits (node / 64) [] e in
          let new =
            ap read (
              words_at
              ∙ ap (λ t. if t then set word (node % 64) true else get_or bits (b / 64) []) d)
            ∙ bits_at in
          elim (Bool-cases (node % 64 == b % 64)) [
            | inl k ↦
                let met : (node == b) ≡ true =
                  (==_iff node b).1
                    (same_place node b column ((==_iff (node % 64) (b % 64)).0 k)) in
                new ∙ ap (λ t. if t then true else read word) k ∙ rw met refl
            | inr k ↦
                let apart : (node == b) ≡ false =
                  other_place node b
                    (λ q. absurd (cc (k, (==_iff (node % 64) (b % 64)).1 (ap (λ m. m % 64) q)))) in
                new ∙ ap (λ t. if t then true else read word) k ∙ rw apart (ap read (sym old))
          ]
    ]

-- Setting a bit sets that bit and no other.
pub set_bit-IsBits :
    (n node : ℕ) (bits : List (List Bool))
    → IsBits n bits
    → node < n
    → (out : List (List Bool)) × (set_bit node bits ≡ ok out)
      × IsBits n out
      × ((b : ℕ) → bit out b ≡ (node == b || bit bits b))
unfolding set_bit bit
set_bit-IsBits n node bits h below =
    let (word, e) = get_elem?_total bits (node / 64) (omega (arith, h.enough)) in
    let size : length word ≡ 64 = All-get_elem? (λ w. length w ≡ 64) bits (node / 64) h.whole e in
    let out = set bits (node / 64) (set word (node % 64) true) in
    (
      out,
      rw (set_bit, e) refl,
      record {
        enough = omega (arith, h.enough, length-set bits (node / 64) (set word (node % 64) true));
        whole =
            All-set (λ w. length w ≡ 64) bits (node / 64) (set word (node % 64) true) h.whole
              (length-set word (node % 64) true ∙ size);
      },
      λ b. read_back node b bits word e size,
    )

pub length-repeat {ℓ} : {A : Type ℓ} (n : ℕ) (a : A) → length (repeat n a) ≡ n
length-repeat zero a = refl
length-repeat (suc n) a = ap suc (length-repeat n a)

pub get_or-repeat {ℓ} : {A : Type ℓ} (n i : ℕ) (a : A) → get_or (repeat n a) i a ≡ a
get_or-repeat zero i a = refl
get_or-repeat (suc n) zero a = refl
get_or-repeat (suc n) (suc i) a = get_or-repeat n i a

All-repeat {ℓ κ} : {A : Type ℓ} (P : A → Type κ) (n : ℕ) (a : A) → P a → All P (repeat n a)
All-repeat P zero a h = tt
All-repeat P (suc n) a h = (h, All-repeat P n a h)

pub blank-IsBits : (n : ℕ) → IsBits n (repeat (words n) (repeat 64 false))
blank-IsBits n = record {
  enough = omega (arith, length-repeat (words n) (repeat 64 false));
  whole = All-repeat (λ w. length w ≡ 64) (words n) (repeat 64 false) (length-repeat 64 false);
}

blank_row : (n i : ℕ) (j : ℕ) → get_or (get_or (repeat n (repeat 64 false)) i []) j false ≡ false
blank_row zero i j = refl
blank_row (suc n) zero j = get_or-repeat 64 j false
blank_row (suc n) (suc i) j = blank_row n i j

pub blank-bit : (n b : ℕ) → bit (repeat (words n) (repeat 64 false)) b ≡ false
unfolding bit
blank-bit n b = blank_row (words n) (b / 64) (b % 64)
