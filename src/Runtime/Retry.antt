-- ===== src/Runtime/Retry.antt =====
-- src/adapters/shared/retry.ts: attempts with exponential backoff. The rounded jittered delay of an
-- attempt is a parameter; rounding is monotone and the cap and the mandated wait are whole numbers,
-- so it may be rounded before it is compared with them.
use agent_orchestrator.Base.{
  ℕ, suc, zero, ◌+◌, ◌-◌, ◌*◌, ◌^◌, ◌≤◌, ◌<◌, ◌⊎◌, inl, inr, min, Bool, true, false, ◌||◌, not,
  Option, some, none, List, [], ◌∷◌, ◌≡◌, refl, sym, ◌∙◌, arith, ◌==◌, ==_iff, leb, ltb,
  if◌then◌else◌, length, Bool-cases,
}

-- What one call of `fn` comes to.
pub data Answer (E T : Type 0) : Type 0 where
  returned : T → Answer E T
  threw : E → Answer E T

abbrev pub is_returned : {E T : Type 0} → Answer E T → Bool
is_returned (returned t) = true
is_returned (threw e) = false

pub record RetryOptions (E : Type 0) : Type 0 where
  pub attempts : ℕ
  pub base_ms : ℕ
  pub factor : ℕ
  pub cap_ms : ℕ
  pub is_retryable : E → Bool
  pub retry_after_ms : E → Option ℕ

abbrev mandated : Option ℕ → ℕ → ℕ
mandated none delay = delay
mandated (some wait) delay = if ltb delay wait then wait else delay

-- `jittered attempt raw` is the rounded delay after the jitter.
pub compute_delay : {E : Type 0} → (ℕ → ℕ → ℕ) → ℕ → RetryOptions E → E → ℕ
compute_delay jittered attempt opts err =
    let raw = opts.base_ms * opts.factor ^ (attempt - 1) in
    mandated (opts.retry_after_ms err) (min (jittered attempt raw) opts.cap_ms)

-- The last answer, where there was a call, with the delays slept and the number of calls.
pub record Run (E T : Type 0) : Type 0 where
  pub calls : ℕ
  pub delays : List ℕ
  pub last : Option (Answer E T)

module _ {E T : Type 0} (jittered : ℕ → ℕ → ℕ) (opts : RetryOptions E) (fn : ℕ → Answer E T) where
  abbrev pub gives_up : ℕ → E → Bool
  gives_up attempt err = leb opts.attempts attempt || not (opts.is_retryable err)

  -- What follows a thrown error, with the rest of the loop.
  abbrev after_error : ℕ → E → Run E T → Run E T
  after_error attempt err rest =
      if gives_up attempt err
      then record { calls = 1; delays = []; last = some (threw err) }
      else record {
        calls = suc rest.calls;
        delays = compute_delay jittered attempt opts err ∷ rest.delays;
        last = rest.last;
      }

  abbrev after_call : ℕ → Run E T → Answer E T → Run E T
  after_call attempt rest (returned t) = record { calls = 1; delays = []; last = some (returned t) }
  after_call attempt rest (threw err) = after_error attempt err rest

  -- The loop with `left` turns to go.
  pub retry_loop : (left attempt : ℕ) → Run E T
  retry_loop zero attempt = record { calls = 0; delays = []; last = none }
  retry_loop (suc left) attempt =
      let rest = retry_loop left (suc attempt) in after_call attempt rest (fn attempt)

  pub with_retry : Run E T
  with_retry = retry_loop opts.attempts 1

  -- What a run that starts at `from` has come to: its last call is number `final`.
  pub record Settled (from final : ℕ) (run : Run E T) : Type 0 where
    pub counted : final + 1 ≡ from + run.calls
    pub in_bounds : (from ≤ final) × (final ≤ opts.attempts)
    pub answer : run.last ≡ some (fn final)
    pub slept : length run.delays + 1 ≡ run.calls
    pub retried :
        (i : ℕ)
        → from ≤ i
        → i < final
        → (err : E) × (fn i ≡ threw err) × (opts.is_retryable err ≡ true)
    pub stopped :
        (err : E) → fn final ≡ threw err → (final ≡ opts.attempts) ⊎ (opts.is_retryable err ≡ false)

  Answer-cases : (a : Answer E T) → ((t : T) × (a ≡ returned t)) ⊎ ((err : E) × (a ≡ threw err))
  Answer-cases (returned t) = inl (t, refl)
  Answer-cases (threw err) = inr (err, refl)

  Settled-here :
      (attempt : ℕ) {a : Answer E T}
      → attempt ≤ opts.attempts
      → fn attempt ≡ a
      → ((err : E) → a ≡ threw err → (attempt ≡ opts.attempts) ⊎ (opts.is_retryable err ≡ false))
      → Settled attempt attempt (record { calls = 1; delays = []; last = some a })
  Settled-here attempt {a} le e why = record {
    counted = omega arith;
    in_bounds = (omega arith, le);
    answer = rw e refl;
    slept = refl;
    retried = λ i p q. absurd (omega (arith, p, q));
    stopped = λ err g. why err (sym e ∙ g);
  }

  why_given_up :
      (attempt : ℕ) {err : E}
      → gives_up attempt err ≡ true
      → attempt ≤ opts.attempts
      → (other : E) → ◌≡◌ {A = Answer E T} (threw err) (threw other)
      → (attempt ≡ opts.attempts) ⊎ (opts.is_retryable other ≡ false)
  why_given_up attempt {err} up le other g = elim (Bool-cases (leb opts.attempts attempt)) [
    | inl last ↦ inl (ground (arith, last, le))
    | inr before_last ↦ inr (ground (arith, before_last, up, g))
  ]

  retry_loop-Settled :
      (left attempt : ℕ)
      → left + attempt ≡ opts.attempts + 1
      → 1 ≤ left
      → (final : ℕ) × Settled attempt final (retry_loop left attempt)
  unfolding retry_loop
  retry_loop-Settled zero attempt e p = absurd (omega (arith, p))
  retry_loop-Settled (suc left) attempt e p = elim (Answer-cases (fn attempt)) [
    | inl (t, f) ↦ (attempt, rw f (Settled-here attempt (omega (arith, e)) f (λ err g. cc)))
    | inr (err, f) ↦ elim (Bool-cases (gives_up attempt err)) [
      | inl up ↦ (
        attempt,
        rw (f, up)
            (Settled-here attempt (omega (arith, e)) f
              (λ other g. why_given_up attempt up (omega (arith, e)) other g)),
      )
      | inr on ↦
          let (final, h) =
            retry_loop-Settled left (suc attempt) (omega (arith, e)) (ground (arith, on, e)) in
          (
            final,
            rw (f, on)
                (record {
                  counted = omega (arith, h.counted);
                  in_bounds = (omega (arith, h.in_bounds), h.in_bounds.1);
                  answer = h.answer;
                  slept = omega (arith, h.slept);
                  retried = λ i from to. elim (Bool-cases (i == attempt)) [
                    | inl now ↦ (err, rw ((==_iff i attempt).0 now) f, ground (arith, on))
                    | inr later ↦ h.retried i (ground (arith, later, from)) to
                  ];
                  stopped = h.stopped;
                }),
          )
    ]
  ]

  -- With at least one attempt allowed a retried call always settles within its attempts: its outcome
  -- is that of the last call made, every earlier call threw a retryable error, a failure is reported
  -- only when the attempts are used up or the error is not retryable, and one delay is slept between
  -- any two calls.
  pub with_retry-Settled : 1 ≤ opts.attempts → (final : ℕ) × Settled 1 final with_retry
  unfolding with_retry
  with_retry-Settled p = retry_loop-Settled opts.attempts 1 (omega arith) p
