-- ===== src/Schema/Reach.antt =====
-- core/sdata/graphmeta.go: which tables are reached from which by relationships, `buildReachability`
-- and `canReach`, on the graph of core/util. `n` is the number of tables. A word of 64 bits is the list
-- of its bits, the lowest first; an id is not negative.
pub mod Bits
pub mod Queue
pub mod Search
pub mod Exact
pub mod Pruning
use graphjin_slim.Base.{
  ℕ, zero, suc, ◌+◌, ◌-◌, ◌/◌, ◌%◌, Bool, true, false, ◌||◌, List, [], ◌∷◌, ◌++◌, Option, none,
  some, length, get_elem?, get_or, set, leb, if◌then◌else◌, Outcome, ok, err, panic,
}
use graphjin_slim.Util.Graph.{Graph, GraphError, connections}

abbrev pub repeat {ℓ} : {A : Type ℓ} → ℕ → A → List A
repeat zero a = []
repeat (suc n) a = a ∷ repeat n a

abbrev pub words : ℕ → ℕ
words n = (n + 63) / 64

-- `bits[node/64] |= uint64(1) << uint(node%64)`, which panics out of range
unfoldable pub set_bit : ℕ → List (List Bool) → Outcome GraphError (List (List Bool))
set_bit node bits = elim (get_elem? bits (node / 64)) [
  | none ↦ panic
  | some word ↦ ok (set bits (node / 64) (set word (node % 64) true))
]

unfoldable pub bit : List (List Bool) → ℕ → Bool
bit bits to = get_or (get_or bits (to / 64) []) (to % 64) false

pub record Frontier : Type 0 where
  pub seen : List Bool
  pub queue : List ℕ

-- the loop over the connections of a node
unfoldable pub enqueue : ℕ → List ℕ → Frontier → Frontier
enqueue n [] f = f
enqueue n (next ∷ row) f =
    let skipped = enqueue n row f in
    let taken =
      enqueue n row (record { seen = set f.seen next true; queue = f.queue ++ (next ∷ []) }) in
    if leb n next || get_or f.seen next false then skipped else taken

-- The loop over the queue, `none` if the fuel runs out.
unfoldable pub drain :
    ℕ → Graph → ℕ → Frontier → List (List Bool) → Option (Outcome GraphError (List (List Bool)))
unfolding connections enqueue set_bit
drain zero g n f bits = none
drain (suc fuel) g n f bits = elim f.queue [
  | [] ↦ some (ok bits)
  | node ∷ queue ↦ elim (set_bit node bits) [
    | panic ↦ some panic
    | err e ↦ some (err e)
    | ok more ↦ elim (connections g node) [
      | panic ↦ some panic
      | err e ↦ some (err e)
      | ok row ↦ drain fuel g n (enqueue n row (record f { queue = queue })) more
    ]
  ]
]

-- one round of the outer loop; every node is queued once at most, so `n` rounds and one are enough
unfoldable pub reach_from : Graph → ℕ → ℕ → Option (Outcome GraphError (List (List Bool)))
unfolding connections enqueue drain
reach_from g n src = elim (connections g src) [
  | panic ↦ some panic
  | err e ↦ some (err e)
  | ok row ↦
      drain (suc n) g n (enqueue n row (record { seen = repeat n false; queue = [] }))
        (repeat (words n) (repeat 64 false))
]

abbrev pub Table : Type 0
Table = List (List (List Bool))

-- the outer loop, with the number of rounds left
unfoldable pub reach_loop : ℕ → Graph → ℕ → ℕ → Table → Option (Outcome GraphError Table)
unfolding reach_from
reach_loop zero g n src rows = some (ok rows)
reach_loop (suc rounds) g n src rows = elim (reach_from g n src) [
  | none ↦ none
  | some panic ↦ some panic
  | some (err e) ↦ some (err e)
  | some (ok bits) ↦ reach_loop rounds g n (suc src) (rows ++ (bits ∷ []))
]

unfoldable pub build_reachability : Graph → ℕ → Option (Outcome GraphError Table)
unfolding reach_loop
build_reachability g n = reach_loop n g n 0 []

unfoldable pub can_reach : Table → ℕ → ℕ → Bool
unfolding bit
can_reach rows from to = elim (get_elem? rows from) [ none ↦ false | some bits ↦ bit bits to ]
