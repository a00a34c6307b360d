-- ===== src/Schema/Reach/Search.antt =====
-- core/sdata/graphmeta.go: the search from one table sets the bits of what it reaches.
use graphjin_slim.Base.{
  get_elem?_total, ℕ, zero, suc, ◌+◌, ◌≤◌, ◌<◌, Bool, true, false, ◌||◌, List, [], ◌∷◌, ◌≡◌, ◌≢◌,
  refl, sym, ap, ◌∙◌, ◌↔◌, inl, inr, some, length, get_or, elem, ◌==◌, arith, ==_iff, Bool-cases,
  List-cases, ok, get_or_of_get_elem?,
}
use graphjin_slim.Util.Graph.{Graph, connections}
use graphjin_slim.Schema.Reach.{repeat, words, set_bit, bit, Frontier, enqueue, drain, reach_from}
use graphjin_slim.Schema.Reach.Bits.{
  IsBits, set_bit-IsBits, blank-IsBits, blank-bit, length-repeat, get_or-repeat,
}
use graphjin_slim.Schema.Reach.Queue.{sees, unseen, Balanced, Enqueued, enqueue-Enqueued}

abbrev pub row_of : Graph → ℕ → List ℕ
row_of g a = get_or g.graph a []

-- One connection or more lead from a table to another, all of them among the first `n`.
pub data Reaches (g : Graph) (n : ℕ) : ℕ → ℕ → Type 0 where
  one : {a b : ℕ} → elem b (row_of g a) ≡ true → b < n → Reaches g n a b
  further : {a b c : ℕ} → Reaches g n a b → elem c (row_of g b) ≡ true → c < n → Reaches g n a c

Reaches-below : (g : Graph) (n a b : ℕ) → Reaches g n a b → b < n
Reaches-below g n a b (one e h) = h
Reaches-below g n a b (further r e h) = h

connections-row :
    (g : Graph) (n a : ℕ) → n ≤ length g.graph → a < n → connections g a ≡ ok (row_of g a)
unfolding connections
connections-row g n a h b =
    let (row, e) = get_elem?_total g.graph a (omega arith) in
    rw (connections, e, get_or_of_get_elem? g.graph a [] e) refl

-- The state of the search from `src`.
record Searching (g : Graph) (n src : ℕ) (f : Frontier) (bits : List (List Bool)) : Type 0 where
  pub bits_are : IsBits n bits
  pub size : length f.seen ≡ n
  pub balanced : Balanced (bit bits) f
  pub reached : (c : ℕ) → sees f c ≡ true → Reaches g n src c
  pub starts : (c : ℕ) → elem c (row_of g src) ≡ true → c < n → sees f c ≡ true
  pub closed : (b c : ℕ) → bit bits b ≡ true → elem c (row_of g b) ≡ true → c < n → sees f c ≡ true

-- The bits of a row are right.
abbrev pub IsExactRow : Graph → ℕ → ℕ → List (List Bool) → Type 0
IsExactRow g n src bits = (c : ℕ) → (bit bits c ≡ true) ↔ Reaches g n src c

or_false : (b : Bool) → (b || false) ≡ b
or_false true = refl
or_false false = refl

seen_is_bit :
    (f : Frontier) (bits : List (List Bool))
    → Balanced (bit bits) f
    → f.queue ≡ []
    → (c : ℕ) → sees f c ≡ bit bits c
seen_is_bit f bits h e c = h c ∙ (ap (λ q. bit bits c || elem c q) e ∙ or_false (bit bits c))

all_seen :
    (g : Graph) (n src c : ℕ) (f : Frontier) (bits : List (List Bool))
    → Searching g n src f bits
    → f.queue ≡ []
    → Reaches g n src c
    → sees f c ≡ true
all_seen g n src c f bits h e (one k b) = h.starts c k b
all_seen g n src c f bits h e (further {b = m} r k b) =
    h.closed m c (sym (seen_is_bit f bits h.balanced e m) ∙ all_seen g n src m f bits h e r) k b

drained :
    (g : Graph) (n src : ℕ) (f : Frontier) (bits : List (List Bool))
    → Searching g n src f bits
    → f.queue ≡ []
    → IsExactRow g n src bits
drained g n src f bits h e c =
    let same = seen_is_bit f bits h.balanced e c in
    (λ b. h.reached c (same ∙ b), λ r. sym same ∙ all_seen g n src c f bits h e r)

shift : (k d q s : Bool) → s ≡ (d || (k || q)) → s ≡ ((k || d) || q)
shift true true q s e = e
shift true false q s e = e
shift false d q s e = e

-- A round of the loop over the queue.
advance :
    (g : Graph) (n src node : ℕ) (queue : List ℕ) (f out : Frontier) (bits more : List (List Bool))
    → Searching g n src f bits
    → f.queue ≡ node ∷ queue
    → IsBits n more
    → ((b : ℕ) → bit more b ≡ (node == b || bit bits b))
    → Enqueued n (row_of g node) (bit more) (record f { queue = queue }) out
    → Searching g n src out more
advance g n src node queue f out bits more h e b m q =
    let waiting : sees f node ≡ true =
      h.balanced node ∙ ap (λ l. bit bits node || elem node l) e ∙ ground (arith) in
    record {
      bits_are = b;
      size = q.size ∙ h.size;
      balanced = q.balanced;
      reached = λ c s. elim ((q.seen_iff c).0 s) [
        | inl t ↦ h.reached c t
        | inr t ↦ further (h.reached node waiting) t.0 t.1
      ];
      starts = λ c k d. (q.seen_iff c).1 (inl (h.starts c k d));
      closed = λ a c k r d. (q.seen_iff c).1 (elim (Bool-cases (node == a)) [
        | inl t ↦ inr (ap (λ x. elem c (row_of g x)) ((==_iff node a).0 t) ∙ r, d)
        | inr t ↦ inl (h.closed a c (sym (m a ∙ ap (λ x. x || bit bits a) t) ∙ k) r d)
      ]);
    }

drain_step :
    (fuel : ℕ) (g : Graph) (n : ℕ) (f : Frontier) (bits more : List (List Bool)) (node : ℕ)
    (queue row : List ℕ)
    → f.queue ≡ node ∷ queue
    → set_bit node bits ≡ ok more
    → connections g node ≡ ok row
    → drain (suc fuel) g n f bits ≡ drain fuel g n (enqueue n row (record f { queue = queue })) more
unfolding drain
drain_step fuel g n f bits more node queue row e s c = rw (drain, e, s, c) refl

drain-exact :
    (fuel : ℕ) (g : Graph) (n src : ℕ) (f : Frontier) (bits : List (List Bool))
    → n ≤ length g.graph
    → Searching g n src f bits
    → unseen f.seen + length f.queue < fuel
    → (out : List (List Bool)) × (drain fuel g n f bits ≡ some (ok out)) × IsExactRow g n src out
unfolding drain
drain-exact zero g n src f bits size h enough = absurd (omega arith)
drain-exact (suc fuel) g n src f bits size h enough = elim (List-cases f.queue) [
  | inl e ↦ (bits, rw (drain, e) refl, drained g n src f bits h e)
  | inr (node, queue, e) ↦
      let waiting : sees f node ≡ true =
        h.balanced node ∙ ap (λ l. bit bits node || elem node l) e ∙ ground arith in
      let below : node < n = Reaches-below g n src node (h.reached node waiting) in
      let (more, set_to, b, m) = set_bit-IsBits n node bits h.bits_are below in
      let start : Frontier = record f { queue = queue } in
      let q = enqueue-Enqueued n (row_of g node) (bit more) start h.size (λ c.
        shift (node == c) (bit bits c) (elem c queue) (sees f c)
          (h.balanced c ∙ ap (λ l. bit bits c || elem c l) e)
        ∙ ap (λ x. x || elem c queue) (sym (m c))) in
      let (out, returns, exact) =
        drain-exact fuel g n src (enqueue n (row_of g node) start) more size
          (advance g n src node queue f (enqueue n (row_of g node) start) bits more h e b m q)
          (omega (arith, enough, q.measure, ap length e)) in
      (
        out,
        drain_step fuel g n f bits more node queue (row_of g node) e set_to
              (connections-row g n node size below)
            ∙ returns,
        exact,
      )
]

none_unseen : (n : ℕ) → unseen (repeat n false) ≡ n
none_unseen zero = refl
none_unseen (suc n) = ap suc (none_unseen n)

from_step :
    (g : Graph) (n src : ℕ) (row : List ℕ)
    → connections g src ≡ ok row
    → reach_from g n src
      ≡ drain
          (suc n)
          g
          n
          (enqueue n row (record { seen = repeat n false; queue = [] }))
          (repeat (words n) (repeat 64 false))
unfolding reach_from
from_step g n src row e = rw (reach_from, e) refl

pub reach_from-exact :
    (g : Graph) (n src : ℕ)
    → n ≤ length g.graph
    → src < n
    → (out : List (List Bool)) × (reach_from g n src ≡ some (ok out)) × IsExactRow g n src out
unfolding reach_from
reach_from-exact g n src size below =
    let blank : Frontier = record { seen = repeat n false; queue = [] } in
    let bits : List (List Bool) = repeat (words n) (repeat 64 false) in
    let q =
      enqueue-Enqueued n (row_of g src) (bit bits) blank (length-repeat n false)
        (λ c. get_or-repeat n c false ∙ sym (or_false (bit bits c) ∙ blank-bit n c)) in
    let first : Frontier = enqueue n (row_of g src) blank in
    let fresh : (c : ℕ) → sees blank c ≢ true = λ c e. cc (get_or-repeat n c false, e) in
    let unset : (b : ℕ) → bit bits b ≢ true = λ b e. cc (blank-bit n b, e) in
    let (out, returns, exact) =
      drain-exact (suc n) g n src first bits size
        (record {
          bits_are = blank-IsBits n;
          size = q.size ∙ length-repeat n false;
          balanced = q.balanced;
          reached =
              λ c s. elim ((q.seen_iff c).0 s) [ inl t ↦ absurd (fresh c t) | inr t ↦ one t.0 t.1 ];
          starts = λ c k d. (q.seen_iff c).1 (inr (k, d));
          closed = λ b c k r d. absurd (unset b k);
        })
        (omega (arith, q.measure, none_unseen n)) in
    (out, from_step g n src (row_of g src) (connections-row g n src size below) ∙ returns, exact)
