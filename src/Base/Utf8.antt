-- ===== src/Base/Utf8.antt =====
-- `utf8.DecodeRune` and `utf8.ValidString` of Go's standard library.
use Prim.Native.Nat.{ℕ, zero, suc, ◌+◌, ◌-◌, ◌*◌, ◌%◌, ◌≤◌}
use native.Mathlib.Omega.{arith}
use mathlib.Core.Bool.{Bool, true, not, ◌&&◌}
use mathlib.Core.List.{[], ◌∷◌}
use graphjin_slim.Base.Tests.{ltb, leb, ◌==◌, if◌then◌else◌}
use graphjin_slim.Base.Lists.{Bytes, length}

-- a rune and the number of bytes that it takes
pub record Rune : Type 0 where
  pub code : ℕ
  pub width : ℕ

abbrev pub rune_error : ℕ
rune_error = 0xfffd

-- what stands for a byte that begins no rune
abbrev pub invalid : Rune
invalid = record { code = rune_error; width = 1 }

abbrev pub between : ℕ → ℕ → ℕ → Bool
between lo hi c = leb lo c && leb c hi

abbrev pub is_continuation : ℕ → Bool
is_continuation = between 0x80 0xbf

-- The second byte after `E0`, `ED`, `F0` and `F4` has a smaller range.
abbrev pub second_of : ℕ → ℕ → Bool
second_of b0 b1 =
    if b0 == 0xe0
    then between 0xa0 0xbf b1
    else if b0 == 0xed
    then between 0x80 0x9f b1
    else if b0 == 0xf0
    then between 0x90 0xbf b1
    else if b0 == 0xf4
    then between 0x80 0x8f b1
    else is_continuation b1

decode_two : ℕ → Bytes → Rune
decode_two b0 (b1 ∷ _) =
    if is_continuation b1 then record { code = b0 % 32 * 64 + b1 % 64; width = 2 } else invalid
decode_two b0 [] = invalid

decode_three : ℕ → Bytes → Rune
decode_three b0 (b1 ∷ b2 ∷ _) =
    if second_of b0 b1 && is_continuation b2
    then record { code = b0 % 16 * 4096 + b1 % 64 * 64 + b2 % 64; width = 3 }
    else invalid
decode_three b0 _ = invalid

decode_four : ℕ → Bytes → Rune
decode_four b0 (b1 ∷ b2 ∷ b3 ∷ _) =
    if second_of b0 b1 && is_continuation b2 && is_continuation b3
    then record { code = b0 % 8 * 262144 + b1 % 64 * 4096 + b2 % 64 * 64 + b3 % 64; width = 4 }
    else invalid
decode_four b0 _ = invalid

unfoldable pub decode_rune : Bytes → Rune
unfolding decode_two decode_three decode_four
decode_rune [] = record { code = rune_error; width = 0 }
decode_rune (b0 ∷ bs) =
    if ltb b0 0x80
    then record { code = b0; width = 1 }
    else if between 0xc2 0xdf b0
    then decode_two b0 bs
    else if between 0xe0 0xef b0
    then decode_three b0 bs
    else if between 0xf0 0xf4 b0
    then decode_four b0 bs
    else invalid

-- `skip` bytes still belong to the last rune.
unfoldable pub valid_from : ℕ → Bytes → Bool
unfolding decode_rune
valid_from skip [] = true
valid_from (suc skip) (c ∷ cs) = valid_from skip cs
valid_from zero (c ∷ cs) =
    let r = decode_rune (c ∷ cs) in
    not (r.code == rune_error && r.width == 1) && valid_from (r.width - 1) cs

unfoldable pub valid_utf8 : Bytes → Bool
unfolding valid_from
valid_utf8 = valid_from 0

decode_two_width :
    (b0 : ℕ) (bs : Bytes)
    → (1 ≤ (decode_two b0 bs).width) × ((decode_two b0 bs).width ≤ suc (length bs))
unfolding decode_two
decode_two_width b0 [] = (omega arith, omega arith)
decode_two_width b0 (b1 ∷ _) = ground arith

decode_three_width :
    (b0 : ℕ) (bs : Bytes)
    → (1 ≤ (decode_three b0 bs).width) × ((decode_three b0 bs).width ≤ suc (length bs))
unfolding decode_three
decode_three_width b0 [] = (omega arith, omega arith)
decode_three_width b0 (b1 ∷ []) = (omega arith, omega arith)
decode_three_width b0 (b1 ∷ b2 ∷ _) = ground arith

decode_four_width :
    (b0 : ℕ) (bs : Bytes)
    → (1 ≤ (decode_four b0 bs).width) × ((decode_four b0 bs).width ≤ suc (length bs))
unfolding decode_four
decode_four_width b0 [] = (omega arith, omega arith)
decode_four_width b0 (b1 ∷ []) = (omega arith, omega arith)
decode_four_width b0 (b1 ∷ b2 ∷ []) = (omega arith, omega arith)
decode_four_width b0 (b1 ∷ b2 ∷ b3 ∷ _) = ground arith

-- A rune takes a byte at least, and not more than there are.
pub decode_rune_width :
    (b0 : ℕ) (bs : Bytes)
    → (1 ≤ (decode_rune (b0 ∷ bs)).width) × ((decode_rune (b0 ∷ bs)).width ≤ suc (length bs))
unfolding decode_rune
decode_rune_width b0 bs =
    ground (arith, decode_two_width b0 bs, decode_three_width b0 bs, decode_four_width b0 bs)
