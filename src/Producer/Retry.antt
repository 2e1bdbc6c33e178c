-- ===== src/Producer/Retry.antt =====
-- buffer/producer.go: `putWithRetry`, `casWithRetry` and `backoffFor`. A retry loop is run on an
-- attempt, a call that changes the store's state; `shutdown_at k` says that the shutdown signal
-- comes before the back-off after attempt `k` is over.
use opendata_go.Base.{
  refl, Option-cases, sym, ◌∙◌, ap, inr, inl, ◌⊎◌, Bool-cases, arith, ◌≡◌, ◌≤◌, ◌^◌, subst, not,
  ◌||◌, shutdown, zero, storage, ◌==◌, some, ◌+◌, ◌*◌, Error, ltb, none, suc, if◌then◌else◌, Bool,
  Option, ℕ,
}

-- 10 s in nanoseconds.
abbrev pub max_backoff : ℕ
max_backoff = 10000000000

-- The `for` loop: `i` rounds are left.
unfoldable pub backoff_loop : ℕ → ℕ → ℕ
backoff_loop zero d = d
backoff_loop (suc i) d = if ltb d max_backoff then backoff_loop i (d * 2) else d

abbrev pub capped : ℕ → ℕ
capped d = if ltb max_backoff d then max_backoff else d

unfoldable pub backoff_for : ℕ → ℕ → ℕ
unfolding backoff_loop
backoff_for attempt initial = capped (backoff_loop attempt initial)

pub record RetryResult (S : Type 0) : Type 0 where
  pub state : S
  pub attempts : ℕ
  pub conflicts : ℕ
  pub error : Option Error

pub record Attempt (S : Type 0) : Type 0 where
  pub state : S
  pub conflicts : ℕ
  pub error : Option Error

abbrev pub attempts_of : ℕ → ℕ
attempts_of n = if ltb n 1 then 1 else n

abbrev pub wrapped : (Error → Error) → Option Error → Option Error
wrapped wrap none = none
wrapped wrap (some e) = some (wrap e)

-- `wrap` is what becomes of the last attempt's error.
module _ {S : Type 0} (attempt : S → Attempt S) (shutdown_at : ℕ → Bool)
    (wrap : Error → Error) where
  -- The loop from attempt `k` on, with `left` attempts left; `error` is the last attempt's.
  unfoldable pub retry_loop : ℕ → ℕ → ℕ → Option Error → S → RetryResult S
  retry_loop zero k conflicts error s = record {
    state = s;
    attempts = k;
    conflicts = conflicts;
    error = wrapped wrap error;
  }
  retry_loop (suc left) k conflicts error s = elim (attempt s).error [
    | none ↦ record {
      state = (attempt s).state;
      attempts = k + 1;
      conflicts = conflicts + (attempt s).conflicts;
      error = none;
    }
    | some e ↦
        let rest =
          retry_loop left (k + 1) (conflicts + (attempt s).conflicts) (some e) (attempt s).state in
        if (left == 0) || not (shutdown_at k) then rest else record {
          state = (attempt s).state;
          attempts = k + 1;
          conflicts = conflicts + (attempt s).conflicts;
          error = some shutdown;
        }
  ]

  unfoldable pub with_retry : ℕ → S → RetryResult S
  unfolding retry_loop
  with_retry max_attempts s = retry_loop (attempts_of max_attempts) 0 0 none s

  -- What a result means, of a loop that may make attempts up to number `most`.
  pub record Tried (most : ℕ) (r : RetryResult S) : Type 0 where
    pub some_attempt : 1 ≤ r.attempts
    pub bounded : r.attempts ≤ most
    pub last_succeeded :
        r.error ≡ none → (t : S) × ((attempt t).error ≡ none) × ((attempt t).state ≡ r.state)
    pub why_stopped : (r.attempts ≡ most) ⊎ ((r.error ≡ none) ⊎ (r.error ≡ some shutdown))

  retry_loop-Tried :
      (left k conflicts : ℕ) (x : Option Error) (s : S)
      → ((e : Error) × (x ≡ some e) × (1 ≤ k)) ⊎ (1 ≤ left)
      → Tried (k + left) (retry_loop left k conflicts x s)
  unfolding retry_loop
  retry_loop-Tried zero k conflicts x s (inl (e, is_e, h)) = record {
    some_attempt = h;
    bounded = omega arith;
    last_succeeded = λ n. absurd (cc ((ap (wrapped wrap) (sym is_e) ∙ n)));
    why_stopped = inl (omega arith);
  }
  retry_loop-Tried zero k conflicts x s (inr h) = absurd (omega (arith, h))
  retry_loop-Tried (suc left) k conflicts x s h = elim (Option-cases (attempt s).error) [
    | inl fine ↦
        rw (fine, retry_loop)
          (record {
            some_attempt = omega arith;
            bounded = omega arith;
            last_succeeded = λ n. (s, fine, refl);
            why_stopped = inr (inl refl);
          })
    | inr (e, failed) ↦ elim (Bool-cases ((left == 0) || not (shutdown_at k))) [
      | inl again ↦
          let r =
            retry_loop-Tried left (k + 1) (conflicts + (attempt s).conflicts) (some e)
              (attempt s).state (inl (e, refl, omega arith)) in
          let same : k + 1 + left ≡ k + suc left = omega arith in
          rw (failed, again, retry_loop)
            (subst
              (λ n. Tried n (
                retry_loop left (k + 1) (conflicts + (attempt s).conflicts) (some e)
                  (attempt s).state))
              same r)
      | inr stop ↦
          rw (failed, stop, retry_loop)
            (record {
              some_attempt = omega arith;
              bounded = omega arith;
              last_succeeded = λ n. absurd (cc n);
              why_stopped = inr (inr refl);
            })
    ]
  ]

  pub with_retry-Tried :
      (max_attempts : ℕ) (s : S) → Tried (attempts_of max_attempts) (with_retry max_attempts s)
  unfolding with_retry
  with_retry-Tried max_attempts s =
      subst (λ n. Tried n (retry_loop (attempts_of max_attempts) 0 0 none s)) (omega arith)
        (retry_loop-Tried (attempts_of max_attempts) 0 0 none s (inr (ground arith)))

-- `casWithRetry`, where an attempt is a call of `enqueueBatch`.
abbrev pub cas_with_retry : {S : Type 0} → (S → Attempt S) → (ℕ → Bool) → ℕ → S → RetryResult S
cas_with_retry attempt shutdown_at = with_retry attempt shutdown_at (λ e. e)

-- `putWithRetry`, where an attempt is a `Put` of the payload.
abbrev pub put_with_retry : {S : Type 0} → (S → Attempt S) → (ℕ → Bool) → ℕ → S → RetryResult S
put_with_retry attempt shutdown_at = with_retry attempt shutdown_at (λ e. storage)

one_le_pow : (n : ℕ) → 1 ≤ 2 ^ n
one_le_pow zero = omega arith
one_le_pow (suc n) = omega (arith, one_le_pow n)

double_pow : (d n : ℕ) → d * 2 * 2 ^ n ≡ d * 2 ^ (suc n)
double_pow d n = grind arith

pow_grows : (d n : ℕ) → d ≤ d * 2 ^ n
pow_grows d zero = omega arith
pow_grows d (suc n) = omega (arith, pow_grows d n, double_pow d n)

-- Above the cap it is all one.
capped-large : (a b : ℕ) → max_backoff ≤ a → a ≤ b → capped a ≡ capped b
capped-large a b h h' = ground arith

-- The back-off doubles with each attempt and stops at ten seconds.
pub backoff_for_lem :
    (attempt initial : ℕ) → backoff_for attempt initial ≡ capped (initial * 2 ^ attempt)
unfolding backoff_for backoff_loop
backoff_for_lem zero d = let one : d ≡ d * 2 ^ 0 = omega arith in ap capped one
backoff_for_lem (suc i) d = elim (Bool-cases (ltb d max_backoff)) [
  | inl h ↦ rw h (backoff_for_lem i (d * 2) ∙ ap capped (double_pow d i))
  | inr h ↦ rw h (capped-large d (d * 2 ^ (suc i)) (ground arith) (pow_grows d (suc i)))
]
