-- ===== src/Heap.antt =====
-- `container/heap` of Go's standard library, over a slice and its `Less`: what core/util/heap.go
-- and core/sdata/path.go call.
pub mod Content
use graphjin_slim.Base.{
  ℕ, zero, suc, ◌+◌, ◌-◌, ◌*◌, ◌/◌, Bool, true, false, not, ◌&&◌, ◌||◌, List, [], ◌∷◌, ◌++◌, Option,
  none, some, length, get_elem?, set, take, ltb, leb, ◌==◌, if◌then◌else◌,
}

module _ {ℓ} {A : Type ℓ} where
  -- `h[i], h[j] = h[j], h[i]`; no call is out of range
  pub swap_values : List A → ℕ → ℕ → Option A → Option A → List A
  swap_values xs i j (some a) (some b) = set (set xs i b) j a
  swap_values xs i j _ _ = xs

  abbrev pub swap : List A → ℕ → ℕ → List A
  swap xs i j = swap_values xs i j (get_elem? xs i) (get_elem? xs j)

  -- The last item is taken off.
  unfoldable pub detach : List A → ℕ → Option A → Option (A × List A)
  detach ys n none = none
  detach ys n (some x) = some (x, take n ys)

module _ {ℓ} {A : Type ℓ} (less : A → A → Bool) where
  pub less_values : Option A → Option A → Bool
  less_values (some a) (some b) = less a b
  less_values _ _ = false

  abbrev pub less_at : List A → ℕ → ℕ → Bool
  less_at xs i j = less_values (get_elem? xs i) (get_elem? xs j)

  -- The loop of `up`: the parent of `j` is below `j`, so `j` rounds are enough.
  unfoldable pub up : ℕ → List A → ℕ → List A
  unfolding swap_values less_values
  up zero xs j = xs
  up (suc fuel) xs j =
      let i = (j - 1) / 2 in
      let rest = up fuel (swap xs i j) i in if i == j || not (less_at xs j i) then xs else rest

  -- The smaller child of `i` among the first `n`, where `2 * i + 1 < n`.
  unfoldable pub child : List A → ℕ → ℕ → ℕ
  unfolding less_values
  child xs i n =
      let j1 = 2 * i + 1 in if ltb (j1 + 1) n && less_at xs (j1 + 1) j1 then j1 + 1 else j1

  -- The loop of `down`: `i` grows and stays below `n`, so `n` rounds are enough.
  unfoldable pub down : ℕ → List A → ℕ → ℕ → List A
  unfolding child swap_values less_values
  down zero xs i n = xs
  down (suc fuel) xs i n =
      let j = child xs i n in
      let rest = down fuel (swap xs i j) j n in
      if leb n (2 * i + 1) || not (less_at xs j i) then xs else rest

  unfoldable pub push : List A → A → List A
  unfolding up
  push xs x = up (length xs) (xs ++ (x ∷ [])) (length xs)

  -- `none` on an empty heap, where Go panics on the index.
  unfoldable pub pop : List A → Option (A × List A)
  unfolding down detach swap_values
  pop xs =
      let n = length xs - 1 in let ys = down n (swap xs 0 n) 0 n in detach ys n (get_elem? ys n)
