-- ===== src/Upstream/Attempts.antt =====
-- What a call of `post_with_retries` (app/azure.py) comes to, attempt by attempt.
use inference_proxy.Prelude.{
  ℕ, zero, suc, ◌+◌, ◌≤◌, ◌<◌, String, Bool, true, false, ◌&&◌, ◌||◌, not, Option, List, [], ◌∷◌,
  ◌++◌, if◌then◌else◌, eqb, ltb, ◌≡◌, refl, ◌⊎◌, inl, inr, arith, sym, ◌∙◌, append_assoc,
  append-nil, subst,
}
use inference_proxy.Prelude.Int.{ℤ}
use inference_proxy.Upstream.Limits.{Number, Store, remember}
use inference_proxy.Upstream.Retry.{
  Attempt, connect_failed, broke, replied, Answer, returned, raised_connect, raised_other,
  unreachable, Trace, done, again, turn, follow, attempts_from, post_with_retries, retry_delay,
  is_retryable, max_upstream_attempts,
}

-- an attempt after which the call may be made again
abbrev pub is_transient : Attempt → Bool
is_transient connect_failed = true
is_transient broke = false
is_transient (replied status headers readable) = is_retryable status && readable

-- what the caller gets where this attempt is the last
abbrev pub answer_of : ℕ → Attempt → Answer
answer_of n connect_failed = raised_connect
answer_of n broke = raised_other
answer_of n (replied status headers readable) =
    if is_retryable status && not readable && ltb n max_upstream_attempts
    then raised_other
    else returned status headers

abbrev pub delay_of : ℕ → Attempt → ℕ
delay_of n (replied status headers readable) = retry_delay n (eqb status 429 || eqb status 529)
delay_of n _ = retry_delay n false

first_delay_le : (a : Attempt) → delay_of 1 a ≤ 3
unfolding retry_delay
first_delay_le connect_failed = omega arith
first_delay_le broke = omega arith
first_delay_le (replied status headers readable) = ground arith

second_delay_le : (a : Attempt) → delay_of 2 a ≤ 6
unfolding retry_delay
second_delay_le connect_failed = omega arith
second_delay_le broke = omega arith
second_delay_le (replied status headers readable) = ground arith

third_delay_le : (a : Attempt) → delay_of 3 a ≤ 12
unfolding retry_delay
third_delay_le connect_failed = omega arith
third_delay_le broke = omega arith
third_delay_le (replied status headers readable) = ground arith

fourth_delay_le : (a : Attempt) → delay_of 4 a ≤ 24
unfolding retry_delay
fourth_delay_le connect_failed = omega arith
fourth_delay_le broke = omega arith
fourth_delay_le (replied status headers readable) = ground arith

not_early : (n : ℕ) → 0 + n ≡ 5 → n < 5 → ⊥
not_early n five early = omega arith

abbrev pub sum : List ℕ → ℕ
sum [] = 0
sum (n ∷ ns) = n + sum ns

module _ (float_of : String → Option Number) (percent round4 : Number → Number) (host : String)
    (clock : ℕ → ℤ) (upstream : ℕ → Attempt) where
  abbrev pub hear : ℕ → Attempt → Store → Store
  hear n (replied status headers readable) store =
      remember float_of percent round4 host headers (clock n) store
  hear n _ store = store

  -- the store after `m` attempts from the `n`-th on
  abbrev pub heard : ℕ → ℕ → Store → Store
  heard zero n store = store
  heard (suc m) n store = heard m (suc n) (hear n (upstream n) store)

  abbrev pub delays : ℕ → ℕ → List ℕ
  delays zero n = []
  delays (suc m) n = delay_of n (upstream n) ∷ delays m (suc n)

  abbrev pub AllTransient : ℕ → ℕ → Type 0
  AllTransient zero n = Unit
  AllTransient (suc m) n = (is_transient (upstream n) ≡ true) × AllTransient m (suc n)

  -- a call that goes from attempt `n` to attempt `last`, with `left` attempts to go after `n`
  pub record Run (left n : ℕ) (t : Trace) (r : Answer × Trace) : Type 0 where
    pub retries : ℕ
    pub last : ℕ
    pub last_is : last ≡ n + retries
    pub bounded : retries ≤ left
    pub transient : AllTransient retries n
    pub final : retries < left → is_transient (upstream last) ≡ false
    pub answered : r.0 ≡ answer_of last (upstream last)
    pub recorded : r.1.store ≡ heard (suc retries) n t.store
    pub waited : r.1.sleeps ≡ t.sleeps ++ delays retries n

  turn-cases :
      (n : ℕ) (a : Attempt) (t : Trace)
      → n ≤ 5
      → ((is_transient a ≡ true)
          × (n < 5)
          × (turn float_of percent round4 host clock upstream n a t
              ≡ again
                  (record { store = hear n a t.store; sleeps = t.sleeps ++ delay_of n a ∷ [] })))
        ⊎ ((n < 5 → is_transient a ≡ false)
            × (turn float_of percent round4 host clock upstream n a t
                ≡ done (answer_of n a) (record { store = hear n a t.store; sleeps = t.sleeps })))
  unfolding turn
  turn-cases n connect_failed t h = ground arith
  turn-cases n broke t h = ground arith
  turn-cases n (replied status headers readable) t h = ground arith

  stop-Run :
      (left n : ℕ) (t : Trace) (rest : Trace → Answer × Trace)
      → (0 < left → is_transient (upstream n) ≡ false)
      → Run left n t (
          follow float_of percent round4 host clock upstream rest (
            done
              (answer_of n (upstream n))
              (record { store = hear n (upstream n) t.store; sleeps = t.sleeps })))
  stop-Run left n t rest final = record {
    retries = 0;
    last = n;
    last_is = omega arith;
    bounded = omega arith;
    transient = _;
    final = final;
    answered = refl;
    recorded = refl;
    waited = sym (append-nil t.sleeps);
  }

  again-Run :
      (left n : ℕ) (t : Trace) (r : Answer × Trace)
      → is_transient (upstream n) ≡ true
      → Run left
          (suc n)
          (record {
            store = hear n (upstream n) t.store;
            sleeps = t.sleeps ++ delay_of n (upstream n) ∷ [];
          })
          r
      → Run (suc left) n t r
  again-Run left n t r transient run = record {
    retries = suc run.retries;
    last = run.last;
    last_is = omega (arith, run.last_is);
    bounded = omega (arith, run.bounded);
    transient = (transient, run.transient);
    final = λ h. run.final (omega arith);
    answered = run.answered;
    recorded = run.recorded;
    waited =
        run.waited
        ∙ append_assoc t.sleeps (delay_of n (upstream n) ∷ []) (delays run.retries (suc n));
  }

  attempts_from-Run :
      (left n : ℕ) (t : Trace)
      → left + n ≡ 5
      → Run left n t (attempts_from float_of percent round4 host clock upstream (suc left) n t)
  unfolding attempts_from
  attempts_from-Run zero n t five = elim (turn-cases n (upstream n) t (omega arith)) [
    | inl (transient, early, eq) ↦ elim (not_early n five early) [ ]
    | inr (final, eq) ↦ rw eq (
        stop-Run zero n t (attempts_from float_of percent round4 host clock upstream zero (suc n))
          (λ h. omega arith))
  ]
  attempts_from-Run (suc left) n t five = elim (turn-cases n (upstream n) t (omega arith)) [
    | inl (transient, early, eq) ↦ rw eq (
        again-Run left n t _ transient (
          attempts_from-Run left (suc n)
            (record {
              store = hear n (upstream n) t.store;
              sleeps = t.sleeps ++ delay_of n (upstream n) ∷ [];
            })
            (omega arith)))
    | inr (final, eq) ↦ rw eq (
        stop-Run (suc left) n t
          (attempts_from float_of percent round4 host clock upstream (suc left) (suc n))
          (λ h. final (omega arith)))
  ]

  -- A call makes at most five attempts, with no gap: it goes on after an attempt exactly where the
  -- connection failed or the reply has a status that is retried and a body that can be read, and the
  -- fifth attempt is the last in any case. The answer is the one of the last attempt, the limits of
  -- the headers of every reply on the way are recorded in their order, the last one's included, and
  -- each retry waits the delay of the attempt that it follows.
  pub post_with_retries-Run :
      (store : Store)
      → Run 4 1
          (record { store = store; sleeps = [] })
          (post_with_retries float_of percent round4 host clock upstream store)
  unfolding post_with_retries
  post_with_retries-Run store = attempts_from-Run 4 1 (record { store = store; sleeps = [] }) refl

  delays_le : (m : ℕ) → m ≤ 4 → sum (delays m 1) ≤ 45
  unfolding retry_delay
  delays_le zero h = omega arith
  delays_le (suc zero) h = omega (arith, first_delay_le (upstream 1))
  delays_le (suc (suc zero)) h =
      omega (arith, first_delay_le (upstream 1), second_delay_le (upstream 2))
  delays_le (suc (suc (suc zero))) h = omega (
    arith,
    first_delay_le (upstream 1),
    second_delay_le (upstream 2),
    third_delay_le (upstream 3),
  )
  delays_le (suc (suc (suc (suc zero)))) h = omega (
    arith,
    first_delay_le (upstream 1),
    second_delay_le (upstream 2),
    third_delay_le (upstream 3),
    fourth_delay_le (upstream 4),
  )
  delays_le (suc (suc (suc (suc (suc m))))) h = omega arith

  answer-known : (n : ℕ) (a : Attempt) → answer_of n a ≡ unreachable → ⊥
  answer-known n connect_failed h = cc
  answer-known n broke h = cc
  answer-known n (replied status headers readable) h = ground arith

  -- A call sleeps for 45 seconds at most in all, whatever the upstream does, and it never falls out
  -- of its loop without an answer.
  pub total_sleep_le :
      (store : Store)
      → let r = post_with_retries float_of percent round4 host clock upstream store in
        (sum r.1.sleeps ≤ 45) × (r.0 ≡ unreachable → ⊥)
  total_sleep_le store =
      let run = post_with_retries-Run store in
      (
        subst (λ sleeps. sum sleeps ≤ 45) (sym run.waited) (delays_le run.retries run.bounded),
        λ none_left. answer-known run.last (upstream run.last) (sym run.answered ∙ none_left),
      )
