-- ===== src/Relay/Attempts.antt =====
-- app/proxy/websocket.py: the five attempts of `responses_websocket`, and the usage row. `upstream` is
-- what an attempt with a body meets.
use inference_proxy.Prelude.{
  ℕ, zero, suc, String, Bool, true, false, not, ◌&&◌, Option, none, some, List, [], ◌∷◌, ◌++◌, map,
  if◌then◌else◌, eqb, ltb, or_else,
}
use inference_proxy.Json.{Value, str, obj, Fields, end, or_value, is_text, truthy}
use inference_proxy.Overflow.{overflow_code, overflow_message, overflow_failed_event}
use inference_proxy.Metering.{Scheduled, skipped, schedule}
use inference_proxy.Upstream.Retry.{retry_delay}
use inference_proxy.Upstream.Strip.{strip_encrypted_reasoning}
use inference_proxy.ResponsesRoute.Handlers.{is_invalid_encrypted_content}
use inference_proxy.Relay.Lines.{
  Message, text, overflow_event, proxy_error, Turn, Left, over, raised, read_lines,
}

-- a reply with its status, its body and its lines, which may end with an exception; or an exception
pub data Reply : Type 0 where
  replied : ℕ → String → List String → Bool → Reply
  raises : Reply

-- the variables that outlive an attempt, and the seconds of each sleep
pub record State : Type 0 where
  pub sent : List Message
  pub azure_body : Fields
  pub stripped_reasoning : Bool
  pub captured_usage : Value
  pub captured_error : Option Value
  pub sleeps : List ℕ

-- what an attempt leads to: the next one, or the end of the loop
pub data Tried : Type 0 where
  again ended : State → Tried

abbrev pub max_retries : ℕ
max_retries = 5

abbrev pub opened : State → Turn
opened s = record {
  sent = s.sent;
  buffer = [];
  flushed = false;
  got_error = false;
  error_type = str "";
  captured_usage = s.captured_usage;
  captured_error = s.captured_error;
}

abbrev pub closed : State → Turn → State
closed s t = record s {
  sent = t.sent;
  captured_usage = t.captured_usage;
  captured_error = t.captured_error;
}

abbrev pub slept : ℕ → State → State
slept delay s = record s { sleeps = s.sleeps ++ delay ∷ [] }

-- every attempt is used up: what is buffered goes out, and the row gets the error
abbrev pub given_up : State → Turn → State
given_up s t = record (closed s t) {
  sent = t.sent ++ map text t.buffer;
  captured_error = some (or_value t.error_type (str "stream_error"));
}

module _ (loads : String → Option Value) (exception : Value) where
  -- `captured_error or type(e).__name__`
  abbrev pub named : State → State
  named s = record s { captured_error = or_else s.captured_error (some exception) }

  unfoldable pub after_lines : ℕ → State → Left → Tried
  unfolding retry_delay
  after_lines attempt s (raised t) = ended (named (closed s t))
  after_lines attempt s (over t) =
      if t.got_error && not t.flushed
      then (if ltb attempt max_retries
          then again
              (slept (retry_delay attempt (is_text "too_many_requests" t.error_type)) (closed s t))
          else ended (given_up s t))
      else ended (closed s t)

  unfoldable pub retry_or_end : ℕ → ℕ → State → Tried
  unfolding retry_delay
  retry_or_end attempt status s =
      if ltb attempt max_retries
      then again (slept (retry_delay attempt (eqb status 429)) s)
      else ended (record s { sent = s.sent ++ proxy_error status ∷ [] })

  unfoldable pub stripped : ℕ → ℕ → State → Fields × ℕ → Tried
  unfolding retry_or_end
  stripped attempt status s (body, zero) =
      retry_or_end attempt status (record s { azure_body = body })
  stripped attempt status s (body, suc n) =
      again (record s { azure_body = body; stripped_reasoning = true })

  unfoldable pub given_overflow : State → String → State
  unfolding overflow_failed_event
  given_overflow s sentence = record s {
    sent = s.sent ++ overflow_event (overflow_failed_event sentence) ∷ [];
    captured_error = some (str overflow_code);
  }

  unfoldable pub on_refusal : ℕ → ℕ → String → Option String → State → Tried
  unfolding retry_or_end stripped given_overflow is_invalid_encrypted_content
      strip_encrypted_reasoning
  on_refusal attempt status body (some sentence) s = ended (given_overflow s sentence)
  on_refusal attempt status body none s =
      if not s.stripped_reasoning && eqb status 400 && is_invalid_encrypted_content body
      then stripped attempt status s (strip_encrypted_reasoning s.azure_body)
      else retry_or_end attempt status s

  unfoldable pub on_reply : ℕ → Reply → State → Tried
  unfolding after_lines read_lines on_refusal overflow_message
  on_reply attempt raises s = ended (named s)
  on_reply attempt (replied status body lines broken) s =
      if eqb status 200
      then after_lines attempt s (read_lines loads broken lines (opened s))
      else on_refusal attempt status body (overflow_message loads (str body)) s

  module _ (upstream : ℕ → Fields → Reply) where
    abbrev pub next_attempt : Tried → (State → State) → State
    next_attempt (again s) go = go s
    next_attempt (ended s) go = s

    -- the loop, by how many turns `range` has left
    unfoldable pub attempts_from : ℕ → ℕ → State → State
    unfolding on_reply
    attempts_from zero attempt s = s
    attempts_from (suc left) attempt s =
        next_attempt (on_reply attempt (upstream attempt s.azure_body) s)
          (attempts_from left (suc attempt))

    abbrev pub start : Fields → State
    start body = record {
      sent = [];
      azure_body = body;
      stripped_reasoning = false;
      captured_usage = obj end;
      captured_error = none;
      sleeps = [];
    }

    unfoldable pub relay : Fields → State
    unfolding attempts_from
    relay body = attempts_from max_retries 1 (start body)

-- the row that the `finally` asks for; a usage that is no dict raises
unfoldable pub relay_row : Option (ℕ × ℕ) → State → Scheduled
unfolding schedule
relay_row none s = skipped
relay_row principal s = elim s.captured_usage [
  | obj usage ↦ elim s.captured_error [
    | none ↦ schedule principal 200 none usage
    | some error ↦ schedule principal (if truthy error then 500 else 200) (some error) usage
  ]
  | _ ↦ Scheduled.crashed
]
