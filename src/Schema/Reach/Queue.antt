-- ===== src/Schema/Reach/Queue.antt =====
-- core/sdata/graphmeta.go: a node is queued once, when it is seen first.
use graphjin_slim.Base.{
  ℕ, zero, suc, ◌+◌, ◌<◌, Bool, true, false, ◌||◌, List, [], ◌∷◌, ◌++◌, ◌≡◌, refl, sym, ap, ◌∙◌,
  ◌⊎◌, ◌↔◌, inl, inr, length, get_or, set, elem, leb, ◌==◌, if◌then◌else◌, arith, ==_iff,
  Bool-cases, elem-append, length-append, length-set,
}
use graphjin_slim.Util.Graph.Built.{get_or-set}
use graphjin_slim.Schema.Reach.{Frontier, enqueue}

abbrev pub sees : Frontier → ℕ → Bool
sees f c = get_or f.seen c false

abbrev pub unseen : List Bool → ℕ
unseen [] = 0
unseen (true ∷ bs) = unseen bs
unseen (false ∷ bs) = suc (unseen bs)

unseen-set :
    (bs : List Bool) (i : ℕ)
    → i < length bs
    → get_or bs i false ≡ false
    → unseen (set bs i true) + 1 ≡ unseen bs
unseen-set [] i h e = absurd (omega arith)
unseen-set (true ∷ bs) zero h e = cc
unseen-set (false ∷ bs) zero h e = omega arith
unseen-set (true ∷ bs) (suc i) h e = unseen-set bs i (omega arith) e
unseen-set (false ∷ bs) (suc i) h e = omega (arith, unseen-set bs i (omega arith) e)

-- What is seen is done or waits in the queue.
abbrev pub Balanced : (ℕ → Bool) → Frontier → Type 0
Balanced finished f = (c : ℕ) → sees f c ≡ (finished c || elem c f.queue)

pub record Enqueued (n : ℕ) (row : List ℕ) (finished : ℕ → Bool) (f out : Frontier) : Type 0 where
  pub size : length out.seen ≡ length f.seen
  pub seen_iff :
      (c : ℕ) → (sees out c ≡ true) ↔ ((sees f c ≡ true) ⊎ ((elem c row ≡ true) × (c < n)))
  pub balanced : Balanced finished out
  pub measure : unseen out.seen + length out.queue ≡ unseen f.seen + length f.queue

seen_more :
    (n next : ℕ) (row : List ℕ) (finished : ℕ → Bool) (f mid out : Frontier)
    → ((c : ℕ) → (sees mid c ≡ true) ↔ ((sees f c ≡ true) ⊎ ((next ≡ c) × (c < n))))
    → length mid.seen ≡ length f.seen
    → unseen mid.seen + length mid.queue ≡ unseen f.seen + length f.queue
    → Enqueued n row finished mid out
    → Enqueued n (next ∷ row) finished f out
seen_more n next row finished f mid out m size measure h = record {
  size = h.size ∙ size;
  seen_iff = λ c. (
    λ e. elim ((h.seen_iff c).0 e) [
      | inl s ↦ elim ((m c).0 s) [ inl t ↦ inl t | inr t ↦ inr (ground (arith, t.0), t.1) ]
      | inr t ↦ inr (ground (arith, t.0), t.1)
    ],
    λ e. (h.seen_iff c).1 (elim e [
      | inl s ↦ inl ((m c).1 (inl s))
      | inr t ↦ elim (Bool-cases (next == c)) [
        | inl k ↦ inl ((m c).1 (inr ((==_iff next c).0 k, t.1)))
        | inr k ↦ inr (ground (arith, t.0, k), t.1)
      ]
    ]),
  );
  balanced = h.balanced;
  measure = h.measure ∙ measure;
}

take : Frontier → ℕ → Frontier
take f next = record { seen = set f.seen next true; queue = f.queue ++ (next ∷ []) }

sees_taken :
    (f : Frontier) (next c : ℕ)
    → next < length f.seen
    → sees (take f next) c ≡ (if next == c then true else sees f c)
unfolding take
sees_taken f next c h = get_or-set f.seen next c true false h

seen_already :
    (n next c : ℕ) (f : Frontier)
    → (leb n next || sees f next) ≡ true
    → next ≡ c
    → c < n
    → sees f c ≡ true
seen_already n next c f e same below = elim (Bool-cases (sees f next)) [
  | inl s ↦ ap (sees f) (sym same) ∙ s
  | inr s ↦ absurd (ground (arith, e, s, same, below))
]

taken_iff :
    (n next c : ℕ) (f : Frontier)
    → next < length f.seen
    → next < n
    → (sees (take f next) c ≡ true) ↔ ((sees f c ≡ true) ⊎ ((next ≡ c) × (c < n)))
taken_iff n next c f within below =
    let taken = sees_taken f next c within in
    elim (Bool-cases (next == c)) [
      | inl k ↦
          let same : next ≡ c = (==_iff next c).0 k in
          (λ e. inr (same, omega arith), λ e. taken ∙ ap (λ b. if b then true else sees f c) k)
      | inr k ↦
          let old : sees (take f next) c ≡ sees f c =
            taken ∙ ap (λ b. if b then true else sees f c) k in
          (
            λ e. inl (sym old ∙ e),
            λ e. elim e [ inl s ↦ old ∙ s | inr t ↦ absurd (cc (k, (==_iff next c).1 t.0)) ],
          )
    ]

taken_balanced :
    (finished : ℕ → Bool) (next c : ℕ) (f : Frontier)
    → next < length f.seen
    → sees f c ≡ (finished c || elem c f.queue)
    → sees (take f next) c ≡ (finished c || elem c (take f next).queue)
unfolding take
taken_balanced finished next c f within h =
    sees_taken f next c within
    ∙ join (next == c) (sees f c) (finished c) (elem c f.queue) (elem c (f.queue ++ (next ∷ []))) h
        (elem-append c f.queue next)
  where
    join : (k s d q a : Bool) → s ≡ (d || q) → a ≡ (q || k) → (if k then true else s) ≡ (d || a)
    join true s true q a h e = refl
    join true s false true a h e = sym e
    join true s false false a h e = sym e
    join false s true q a h e = h
    join false s false true a h e = h ∙ sym e
    join false s false false a h e = h ∙ sym e

pub enqueue-Enqueued :
    (n : ℕ) (row : List ℕ) (finished : ℕ → Bool) (f : Frontier)
    → length f.seen ≡ n
    → Balanced finished f
    → Enqueued n row finished f (enqueue n row f)
unfolding enqueue take
enqueue-Enqueued n [] finished f size h = record {
  size = refl;
  seen_iff = λ c. (λ e. inl e, λ e. elim e [ inl s ↦ s | inr t ↦ cc t.0 ]);
  balanced = h;
  measure = refl;
}
enqueue-Enqueued n (next ∷ row) finished f size h = elim (Bool-cases (leb n next || sees f next)) [
  | inl e ↦
      rw (enqueue, e)
        (seen_more n next row finished f f (enqueue n row f)
          (λ c. (λ s. inl s, λ s. elim s [ inl t ↦ t | inr t ↦ seen_already n next c f e t.0 t.1 ]))
          refl refl (enqueue-Enqueued n row finished f size h))
  | inr e ↦
      let mid : Frontier = take f next in
      let below : next < length f.seen = ground (arith, e, size) in
      let fresh : sees f next ≡ false = ground (arith, e) in
      rw (enqueue, e)
        (seen_more n next row finished f mid (enqueue n row mid)
          (λ c. taken_iff n next c f below (omega (arith, below, size)))
          (length-set f.seen next true)
          (omega (arith, unseen-set f.seen next below fresh, length-append f.queue (next ∷ [])))
          (enqueue-Enqueued n row finished mid (length-set f.seen next true ∙ size)
            (λ c. taken_balanced finished next c f below (h c))))
]
