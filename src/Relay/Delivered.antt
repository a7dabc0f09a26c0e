-- ===== src/Relay/Delivered.antt =====
-- That the relay of app/proxy/websocket.py gets through to an upstream that refuses for a while.
use inference_proxy.Prelude.{
  ℕ, zero, suc, String, Bool, true, false, not, ◌&&◌, Option, none, List, ◌≡◌, refl, Bool-cases,
  inl, inr, ltb, eqb, ◌≤◌, ◌<◌, ◌+◌, arith,
}
use inference_proxy.Json.{Value, str, Fields}
use inference_proxy.Overflow.{overflow_message}
use inference_proxy.Upstream.Retry.{retry_delay}
use inference_proxy.ResponsesRoute.Handlers.{is_invalid_encrypted_content}
use inference_proxy.Relay.Lines.{Turn, over, read_lines}
use inference_proxy.Relay.Attempts.{
  Reply, replied, raises, State, again, ended, opened, closed, slept, after_lines, retry_or_end,
  on_refusal, on_reply, next_attempt, attempts_from, start, relay, max_retries,
}

-- a refusal that another attempt may get past
unfoldable pub Refuses : (String → Option Value) → Reply → Type 0
unfolding overflow_message is_invalid_encrypted_content
Refuses loads raises = ⊥
Refuses loads (replied status text lines broken) =
    (eqb status 200 ≡ false)
    × (overflow_message loads (str text) ≡ none)
    × (is_invalid_encrypted_content text ≡ false)

never_all : (a b c : Bool) → c ≡ false → (a && b && c) ≡ false
never_all true true c h = h
never_all true false c h = refl
never_all false b c h = refl

module _ (loads : String → Option Value) (exception : Value) where
  tries_again :
      (n status : ℕ) (s : State)
      → n < max_retries
      → retry_or_end loads exception n status s ≡ again (slept (retry_delay n (eqb status 429)) s)
  unfolding retry_or_end
  tries_again n status s more = let h : ltb n max_retries ≡ true = ground arith in rw h refl

  refused_on :
      (n : ℕ) (reply : Reply) (s : State)
      → Refuses loads reply
      → n < max_retries
      → (delay : ℕ) × (on_reply loads exception n reply s ≡ again (slept delay s))
  unfolding on_reply on_refusal Refuses
  refused_on n raises s refuses more = elim refuses [ ]
  refused_on n (replied status text lines broken) s (bad, no_overflow, other) more =
      let h =
        never_all (not s.stripped_reasoning) (eqb status 400) (is_invalid_encrypted_content text)
          other in
      (retry_delay n (eqb status 429), rw (bad, no_overflow, h) (tries_again n status s more))

module _ (loads : String → Option Value) (exception : Value) (upstream : ℕ → Fields → Reply) (k : ℕ)
    (text : String) (lines : List String) (broken : Bool) (body : Fields) (t : Turn)
    (reads : read_lines loads broken lines (opened (start loads exception upstream body)) ≡ over t)
    (fine : t.got_error ≡ false) (within : k ≤ max_retries)
    (before : (n : ℕ) → n < k → (b : Fields) → Refuses loads (upstream n b))
    (good : (b : Fields) → upstream k b ≡ replied 200 text lines broken) where
  abbrev pub Delivered : State → Type 0
  Delivered final =
      (final.sent ≡ t.sent)
      × (final.captured_usage ≡ t.captured_usage)
      × (final.captured_error ≡ t.captured_error)

  read_on :
      (s : State)
      → opened s ≡ opened (start loads exception upstream body)
      → on_reply loads exception k (replied 200 text lines broken) s ≡ ended (closed s t)
  unfolding on_reply after_lines
  read_on s same = rw (same, reads, fine) refl

  goes_through_now :
      (n : ℕ) (s : State) (go : State → State)
      → n ≡ k
      → opened s ≡ opened (start loads exception upstream body)
      → Delivered (
          next_attempt loads exception upstream
            (on_reply loads exception n (upstream n s.azure_body) s)
            go)
  goes_through_now n s go here same =
      rw (here, good s.azure_body, read_on s same) (refl, refl, refl)

  put_off :
      (n : ℕ) (s : State) (go : State → State)
      → n < k
      → ((delay : ℕ) → Delivered (go (slept delay s)))
      → Delivered (
          next_attempt loads exception upstream
            (on_reply loads exception n (upstream n s.azure_body) s)
            go)
  put_off n s go early later =
      let (delay, h) =
        refused_on loads exception n (upstream n s.azure_body) s (before n early s.azure_body)
          (omega arith) in
      rw h (later delay)

  goes_through_in :
      (left n : ℕ) (s : State)
      → n ≤ k
      → k < n + left
      → opened s ≡ opened (start loads exception upstream body)
      → Delivered (attempts_from loads exception upstream left n s)
  unfolding attempts_from
  goes_through_in zero n s reached ahead same =
      let none_left : ⊥ = omega arith in elim none_left [ ]
  goes_through_in (suc left) n s reached ahead same = elim (Bool-cases (ltb n k)) [
    | inl early ↦
        put_off n s (attempts_from loads exception upstream left (suc n)) (ground arith)
          (λ delay. goes_through_in left (suc n) (slept delay s) (ground arith) (omega arith) same)
    | inr now ↦
        goes_through_now n s (attempts_from loads exception upstream left (suc n)) (ground arith)
          same
  ]

  -- An upstream that first refuses, with a status other than 200 that tells neither of an overflow nor of
  -- encrypted reasoning, and then, within the five attempts, replies 200 with lines that end without an
  -- error event: the run ends with what that reply alone would have sent, noted as usage and noted as
  -- error.
  pub relay-Delivered : 1 ≤ k → Delivered (relay loads exception upstream body)
  unfolding relay
  relay-Delivered positive =
      goes_through_in max_retries 1 (start loads exception upstream body) positive (omega arith)
        refl
