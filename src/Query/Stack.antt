-- ===== src/Query/Stack.antt =====
-- core/graph/stack.go, which the other stacks of the repository repeat for other types: a slice with
-- the number of items in use, `top + 1`. What is above the top stays in the slice.
pub mod View
use graphjin_slim.Base.{
  ℕ, zero, suc, ◌+◌, ◌-◌, List, [], ◌∷◌, ◌++◌, Option, none, some, length, get_elem?, set, ltb, leb,
  ◌==◌, if◌then◌else◌,
}

pub record Stack {ℓ} (A : Type ℓ) : Type ℓ where
  pub st : List A
  pub used : ℕ

module _ {ℓ} {A : Type ℓ} where
  unfoldable pub new_stack : Stack A
  new_stack = record { st = []; used = 0 }

  unfoldable pub len : Stack A → ℕ
  len s = s.used

  -- `none` is the -1 of an empty stack.
  unfoldable pub top_of : List A → ℕ → Option A
  top_of st zero = none
  top_of st (suc top) = get_elem? st top

  unfoldable pub peek : Stack A → Option A
  unfolding top_of
  peek s = top_of s.st s.used

  unfoldable pub pop : Stack A → Option A × Stack A
  unfolding top_of
  pop s = (top_of s.st s.used, record s { used = s.used - 1 })

  unfoldable pub push : Stack A → A → Stack A
  push s value = record s {
    st = if leb (length s.st) s.used then s.st ++ (value ∷ []) else set s.st s.used value;
    used = suc s.used;
  }
