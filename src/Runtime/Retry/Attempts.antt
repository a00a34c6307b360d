-- ===== src/Runtime/Retry/Attempts.antt =====
-- What a retried operation may do, without the loop.
use graphjin_slim.Base.{
  ℕ, Bool, true, false, List, [], ◌∷◌, ◌≡◌, ◌≢◌, refl, sym, ap, ◌∙◌, inl, inr, Option, none, some,
  Bool-cases, Option-cases,
}
use mathlib.Core.Path.{subst}
use graphjin_slim.Runtime.Retry.{
  World, is_positive, delays_or_one, cancelled, pause, attempts, retry_operation_with_policy,
}

paired {κ μ} : {A : Type κ} {B : Type μ} (p : A × B) (a : A) → p.0 ≡ a → p ≡ (a, p.1)
paired p a e = ap (λ x. (x, p.1)) e

module _ {ℓ} {E W : Type ℓ} (world : World E W) (has_context : Bool) (should_retry : E → Bool) where
  -- the wait for one delay: the state behind it, and whether it ran to its end
  pub data Waited (d : ℕ) (v : W) : Bool → W → Type ℓ where
    at_once : is_positive d ≡ false → Waited d v true v
    in_context :
        {fired : Bool} {u : W}
        → is_positive d ≡ true
        → has_context ≡ true
        → world.wait d v ≡ (fired, u)
        → Waited d v fired u
    alone : is_positive d ≡ true → has_context ≡ false → Waited d v true (world.sleep d v)

  -- A state in which a call may be made: there is no context, or it has no error.
  abbrev pub IsReady : W → Type ℓ
  IsReady w = has_context ≡ true → world.context_error w ≡ none

  -- What leads from one state to another with a list of delays, one for each call that is allowed,
  -- and the result. Each call is made in a state in which the context has no error.
  pub data Run : List ℕ → W → Option E → W → Type ℓ where
    stopped :
        {d : ℕ} {ds : List ℕ} {w : W} {e : E}
        → has_context ≡ true
        → world.context_error w ≡ some e
        → Run (d ∷ ds) w (some e) w
    succeeded :
        {d : ℕ} {ds : List ℕ} {w v : W}
        → IsReady w
        → world.operation w ≡ (none, v)
        → Run (d ∷ ds) w none v
    refused :
        {d : ℕ} {ds : List ℕ} {w v : W} {e : E}
        → IsReady w
        → world.operation w ≡ (some e, v)
        → should_retry e ≡ false
        → Run (d ∷ ds) w (some e) v
    used_up :
        {d : ℕ} {w v : W} {e : E}
        → IsReady w
        → world.operation w ≡ (some e, v)
        → Run (d ∷ []) w (some e) v
    interrupted :
        {d d' : ℕ} {ds : List ℕ} {w v u : W} {e : E}
        → IsReady w
        → world.operation w ≡ (some e, v)
        → should_retry e ≡ true
        → Waited d v false u
        → Run (d ∷ d' ∷ ds) w (world.context_error u) u
    retried :
        {d d' : ℕ} {ds : List ℕ} {w v u x : W} {e : E} {result : Option E}
        → IsReady w
        → world.operation w ≡ (some e, v)
        → should_retry e ≡ true
        → Waited d v true u
        → Run (d' ∷ ds) u result x
        → Run (d ∷ d' ∷ ds) w result x

  -- no delays stand for one call
  abbrev pub RunOf : List ℕ → W → Option E → W → Type ℓ
  RunOf [] w result x = Run (0 ∷ []) w result x
  RunOf (d ∷ ds) w result x = Run (d ∷ ds) w result x

  pause-Waited :
      (d : ℕ) (v : W)
      → Waited d v
          (pause world has_context should_retry d v).0
          (pause world has_context should_retry d v).1
  unfolding pause
  pause-Waited d v = elim (Bool-cases (is_positive d)) [
    | inr p ↦ is_waited (true, v) (now p) (at_once p)
    | inl p ↦ elim (Bool-cases has_context) [
      | inr c ↦ is_waited (true, world.sleep d v) (sleeps p c) (alone p c)
      | inl c ↦ is_waited (world.wait d v) (waits p c) (in_context p c refl)
    ]
  ]
    where
      is_waited :
          (r : Bool × W)
          → pause world has_context should_retry d v ≡ r
          → Waited d v r.0 r.1
          → Waited d v
              (pause world has_context should_retry d v).0
              (pause world has_context should_retry d v).1
      is_waited r e h = subst (λ q. Waited d v q.0 q.1) (sym e) h

      now : is_positive d ≡ false → pause world has_context should_retry d v ≡ (true, v)
      now p = rw (pause, p) refl

      waits :
          is_positive d ≡ true
          → has_context ≡ true
          → pause world has_context should_retry d v ≡ world.wait d v
      waits p c = rw (pause, p, c) refl

      sleeps :
          is_positive d ≡ true
          → has_context ≡ false
          → pause world has_context should_retry d v ≡ (true, world.sleep d v)
      sleeps p c = rw (pause, p, c) refl

  cancelled-none : (w : W) → cancelled world has_context should_retry w ≡ none → IsReady w
  unfolding cancelled
  cancelled-none w e c = rw c at e

  cancelled-some :
      (w : W) (e : E)
      → cancelled world has_context should_retry w ≡ some e
      → (has_context ≡ true) × (world.context_error w ≡ some e)
  unfolding cancelled
  cancelled-some w e h = elim (Bool-cases has_context) [
    | inl c ↦ (c, rw c at h)
    | inr c ↦ absurd (cc (rw c at h))
  ]

  abbrev Ran : List ℕ → ℕ → Option E → W → Type ℓ
  Ran ds d last w =
      Run (d ∷ ds) w (attempts world has_context should_retry (d ∷ ds) last w).0
        (attempts world has_context should_retry (d ∷ ds) last w).1

  -- a failure that may be retried
  abbrev Retryable : W → E → Type ℓ
  Retryable w e =
      (cancelled world has_context should_retry w ≡ none)
      × ((world.operation w).0 ≡ some e)
      × (should_retry e ≡ true)

  one_attempt :
      (d : ℕ) (ds : List ℕ) (last : Option E) (w : W)
      → ((e : E) → Retryable w e → Ran ds d last w)
      → Ran ds d last w
  unfolding attempts
  one_attempt d ds last w more = elim (Option-cases (cancelled world has_context should_retry w)) [
    | inr (e, c) ↦ rw (attempts, c) (let (on, k) = cancelled-some w e c in stopped on k)
    | inl c ↦ elim (Option-cases (world.operation w).0) [
      | inl o ↦
          rw (attempts, c, o) (succeeded (cancelled-none w c) (paired (world.operation w) none o))
      | inr (e, o) ↦ elim (Bool-cases (should_retry e)) [
        | inr r ↦
            rw (attempts, c, o, r)
              (refused (cancelled-none w c) (paired (world.operation w) (some e) o) r)
        | inl r ↦ more e (c, o, r)
      ]
    ]
  ]

  attempts-Run : (ds : List ℕ) (d : ℕ) (last : Option E) (w : W) → Ran ds d last w
  unfolding attempts
  attempts-Run [] d last w = one_attempt d [] last w (λ e h.
      rw (attempts, h.0, h.1, h.2)
        (used_up (cancelled-none w h.0) (paired (world.operation w) (some e) h.1)))
  attempts-Run (d' ∷ ds) d last w = one_attempt d (d' ∷ ds) last w (λ e h.
      let v = (world.operation w).1 in
      let p = pause world has_context should_retry d v in
      let o = paired (world.operation w) (some e) h.1 in
      let ready = cancelled-none w h.0 in
      let waited = pause-Waited d v in
      elim (Bool-cases p.0) [
        | inl fired ↦
            rw (attempts, h.0, h.1, h.2, fired)
              (retried ready o h.2 (subst (λ b. Waited d v b p.1) fired waited)
                (attempts-Run ds d' (some e) p.1))
        | inr ended ↦
            rw (attempts, h.0, h.1, h.2, ended)
              (interrupted ready o h.2 (subst (λ b. Waited d v b p.1) ended waited))
      ])

-- What the code relies on: a context that has ended has an error.
abbrev pub EndsWithError {ℓ} : {E W : Type ℓ} → World E W → Type ℓ
EndsWithError {W = W} world =
    (d : ℕ) (v u : W) → world.wait d v ≡ (false, u) → world.context_error u ≢ none

-- A retried operation runs as `RunOf` allows: at most once for each delay and at least once unless the
-- context has an error, again only behind an error that may be retried and the wait for the delay of
-- that call, which ran to its end (a delay that is not positive is none), never in a state in which
-- the context has an error, and what is returned is the result of the last call or the error of the
-- context.
pub retry_operation_with_policy-Run {ℓ} :
    {E W : Type ℓ} (world : World E W) (has_context : Bool) (should_retry : E → Bool)
    (delays : List ℕ) (w : W)
    → RunOf world has_context should_retry delays w
        (retry_operation_with_policy world has_context should_retry delays w).0
        (retry_operation_with_policy world has_context should_retry delays w).1
unfolding retry_operation_with_policy delays_or_one
retry_operation_with_policy-Run world has_context should_retry [] w =
    attempts-Run world has_context should_retry [] 0 none w
retry_operation_with_policy-Run world has_context should_retry (d ∷ ds) w =
    attempts-Run world has_context should_retry ds d none w

-- the state in which the call was made that ended in `x` without an error
pub record HasSucceeded {ℓ} {E W : Type ℓ} (world : World E W) (x : W) : Type ℓ where
  pub before : W
  pub call : world.operation before ≡ (none, x)

Waited-false {ℓ} :
    {E W : Type ℓ} (world : World E W) (has_context : Bool) (should_retry : E → Bool) {d : ℕ}
    {v u : W} {fired : Bool}
    → Waited world has_context should_retry d v fired u
    → fired ≡ false
    → world.wait d v ≡ (false, u)
Waited-false world has_context should_retry (at_once p) e = absurd cc
Waited-false world has_context should_retry (in_context {u = u} p c k) e = k ∙ ap (λ b. (b, u)) e
Waited-false world has_context should_retry (alone p c) e = absurd cc

Run-HasSucceeded {ℓ} :
    {E W : Type ℓ} (world : World E W) (has_context : Bool) (should_retry : E → Bool)
    {delays : List ℕ} {w : W} {result : Option E} {x : W}
    → EndsWithError world
    → Run world has_context should_retry delays w result x
    → result ≡ none
    → HasSucceeded world x
Run-HasSucceeded world has_context should_retry ends (stopped c k) e = absurd cc
Run-HasSucceeded world has_context should_retry ends (succeeded {w = w} c o) e = record {
  before = w;
  call = o;
}
Run-HasSucceeded world has_context should_retry ends (refused c o r) e = absurd cc
Run-HasSucceeded world has_context should_retry ends (used_up c o) e = absurd cc
Run-HasSucceeded world has_context should_retry ends (interrupted {d = d} {v = v} {u = u} c o r p)
      e =
    absurd (ends d v u (Waited-false world has_context should_retry p refl) e)
Run-HasSucceeded world has_context should_retry ends (retried c o r p rest) e =
    Run-HasSucceeded world has_context should_retry ends rest e

RunOf-HasSucceeded {ℓ} :
    {E W : Type ℓ} (world : World E W) (has_context : Bool) (should_retry : E → Bool)
    (delays : List ℕ) (w : W) (result : Option E) (x : W)
    → EndsWithError world
    → RunOf world has_context should_retry delays w result x
    → result ≡ none
    → HasSucceeded world x
RunOf-HasSucceeded world has_context should_retry [] w result x ends run =
    Run-HasSucceeded world has_context should_retry ends run
RunOf-HasSucceeded world has_context should_retry (d ∷ ds) w result x ends run =
    Run-HasSucceeded world has_context should_retry ends run

-- If a context that ended has an error, then a retried operation that returns no error in a state has
-- been called with success, and that call led to this state.
pub retry_operation_with_policy-HasSucceeded {ℓ} :
    {E W : Type ℓ} (world : World E W) (has_context : Bool) (should_retry : E → Bool)
    (delays : List ℕ) (w x : W)
    → EndsWithError world
    → retry_operation_with_policy world has_context should_retry delays w ≡ (none, x)
    → HasSucceeded world x
retry_operation_with_policy-HasSucceeded world has_context should_retry delays w x ends e =
    let run = retry_operation_with_policy-Run world has_context should_retry delays w in
    subst (HasSucceeded world) (ap (λ r. r.1) e)
      (RunOf-HasSucceeded world has_context should_retry delays w _ _ ends run (ap (λ r. r.0) e))
