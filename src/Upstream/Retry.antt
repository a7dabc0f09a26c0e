-- ===== src/Upstream/Retry.antt =====
-- app/azure.py: `retry_delay` and `post_with_retries`. The upstream is a function that says what each
-- attempt meets, `clock` the moment of each reply, and `host` the one of the URL. Streaming and plain
-- calls differ only in how the reply is read later, which is not modelled.
use inference_proxy.Prelude.{
  ℕ, zero, suc, ◌*◌, ◌-◌, ◌^◌, min, String, Bool, false, ◌&&◌, ◌||◌, Option, List, [], ◌∷◌, ◌++◌,
  if◌then◌else◌, any, eqb, ltb, leb,
}
use inference_proxy.Prelude.Int.{ℤ}
use inference_proxy.Upstream.Limits.{Number, Headers, Store, remember}

-- in seconds
unfoldable pub retry_delay : ℕ → Bool → ℕ
retry_delay attempt is_rate_limit =
    if is_rate_limit then min (3 * 2 ^ (attempt - 1)) 30 else min (2 ^ (attempt - 1)) 10

abbrev pub retryable_upstream_status : List ℕ
retryable_upstream_status = 429 ∷ 500 ∷ 502 ∷ 503 ∷ 504 ∷ 529 ∷ []

abbrev pub max_upstream_attempts : ℕ
max_upstream_attempts = 5

abbrev pub is_retryable : ℕ → Bool
is_retryable status = any (eqb status) retryable_upstream_status

-- What an attempt meets: `connect_failed` is a failed or timed-out connect, `broke` any other error
-- of the client, and `replied` has the status, the headers and whether the body can be read.
pub data Attempt : Type 0 where
  connect_failed broke : Attempt
  replied : ℕ → Headers → Bool → Attempt

pub data Answer : Type 0 where
  returned : ℕ → Headers → Answer
  raised_connect raised_other unreachable : Answer

-- the limits store, and the seconds of each sleep so far
pub record Trace : Type 0 where
  pub store : Store
  pub sleeps : List ℕ

-- where an attempt leaves the loop
pub data Step : Type 0 where
  done : Answer → Trace → Step
  again : Trace → Step

abbrev slept : ℕ → Trace → Trace
slept delay t = record { store = t.store; sleeps = t.sleeps ++ delay ∷ [] }

module _ (float_of : String → Option Number) (percent round4 : Number → Number) (host : String)
    (clock : ℕ → ℤ) (upstream : ℕ → Attempt) where
  abbrev noted : ℕ → Headers → Trace → Trace
  noted attempt headers t = record {
    store = remember float_of percent round4 host headers (clock attempt) t.store;
    sleeps = t.sleeps;
  }

  -- one turn of the loop, on what the attempt met
  unfoldable pub turn : ℕ → Attempt → Trace → Step
  unfolding remember retry_delay
  turn attempt connect_failed t =
      if leb max_upstream_attempts attempt
      then done raised_connect t
      else again (slept (retry_delay attempt false) t)
  turn attempt broke t = done raised_other t
  turn attempt (replied status headers readable) t =
      if is_retryable status && ltb attempt max_upstream_attempts
      then (if readable
          then again (
              slept (retry_delay attempt (eqb status 429 || eqb status 529))
                (noted attempt headers t))
          else done raised_other (noted attempt headers t))
      else done (returned status headers) (noted attempt headers t)

  abbrev pub follow : (Trace → Answer × Trace) → Step → Answer × Trace
  follow rest (done answer t) = (answer, t)
  follow rest (again t) = rest t

  -- the loop, by how many turns `range` has left
  unfoldable pub attempts_from : ℕ → ℕ → Trace → Answer × Trace
  unfolding turn
  attempts_from zero attempt t = (unreachable, t)
  attempts_from (suc left) attempt t =
      follow (attempts_from left (suc attempt)) (turn attempt (upstream attempt) t)

  unfoldable pub post_with_retries : Store → Answer × Trace
  unfolding attempts_from
  post_with_retries store =
      attempts_from max_upstream_attempts 1 (record { store = store; sleeps = [] })
