-- ===== src/ResponsesRoute/Handlers.antt =====
-- app/proxy/responses.py: `_handle_non_streaming` and `_handle_streaming`, with the one retry, and
-- `is_invalid_encrypted_content` of app/azure.py. `post` is the call upstream with a body; both
-- handlers post the same way. What `_refusal` says is what `_upstream_error_response` of
-- app/proxy/chat_completions.py says.
use inference_proxy.Prelude.{
  ℕ, zero, suc, String, Bool, true, ◌&&◌, Option, none, some, List, [], ◌∷◌, if◌then◌else◌, eqb,
  is_some,
}
use inference_proxy.Text.{contains}
use inference_proxy.Json.{Value, str, obj, Fields, end, get}
use inference_proxy.Overflow.{overflow_code, overflow_message}
use inference_proxy.Metering.{Scheduled, schedule}
use inference_proxy.Upstream.Strip.{strip_encrypted_reasoning}
use inference_proxy.Completions.Answers.{
  Served, replied, raised_error, crashed, Principal, Upstream, schedule_value,
  upstream_error_response, upstream_error,
}
use inference_proxy.Completions.Entry.{Posted, no_connection, timed_out, broke, answered}
use inference_proxy.ResponsesRoute.Lines.{Line, Passed, passthrough, nothing_noted, stream_row}

unfoldable pub is_invalid_encrypted_content : String → Bool
unfolding contains
is_invalid_encrypted_content payload = contains "invalid_encrypted_content" payload

-- what the caller gets: an answer of the route, or a stream that an exception may break off
pub data Reply : Type 0 where
  answer : Served → Reply
  lines : List Line → Bool → Reply

abbrev pub Handled : Type 0
Handled = Reply × Option Scheduled

-- the bodies that a streamed call posted, and what came of it
pub record Streaming : Type 0 where
  pub posted : List Fields
  pub handled : Handled

-- the bodies that were posted, and how the last call ended
pub record Sending : Type 0 where
  pub posted : List Fields
  pub outcome : Posted

module _ (post : Fields → Posted) where
  abbrev pub once : Fields → Sending
  once body = record { posted = body ∷ []; outcome = post body }

  abbrev pub second : Fields → Sending → Fields × ℕ → Sending
  second body first (retry_body, zero) = first
  second body first (retry_body, suc n) = record {
    posted = body ∷ retry_body ∷ [];
    outcome = post retry_body;
  }

  unfoldable pub retry : Fields → Sending → Posted → Sending
  unfolding is_invalid_encrypted_content strip_encrypted_reasoning
  retry body first (answered reply) =
      if eqb reply.status 400 && is_invalid_encrypted_content reply.text
      then second body first (strip_encrypted_reasoning body)
      else first
  retry body first posted = first

  -- the call, and the one retry without the reasoning that the upstream cannot decrypt
  unfoldable pub send : Fields → Sending
  unfolding retry
  send body = retry body (once body) (post body)

abbrev failed_row : Principal → ℕ → Value → Option Scheduled
unfolding schedule
failed_row principal status error = some (schedule principal status (some error) end)

-- the `except` clauses around both handlers
unfoldable pub on_posted : Principal → Posted → (Upstream → Handled) → Handled
unfolding failed_row
on_posted principal no_connection k = (
  answer (raised_error 502 "Failed to reach upstream"),
  failed_row principal 502 (str "connect_error"),
)
on_posted principal timed_out k =
    (answer (raised_error 504 "Upstream timed out"), failed_row principal 504 (str "timeout"))
on_posted principal broke k = (answer crashed, none)
on_posted principal (answered reply) k = k reply

module _ (loads : String → Option Value) (decimal : ℕ → String) where
  unfoldable pub refusal : Upstream → Reply
  unfolding upstream_error_response
  refusal reply = answer (upstream_error_response loads decimal reply.status reply.text)

  unfoldable pub refused : Principal → Option Value → Upstream → Handled
  unfolding refusal schedule
  refused principal error reply = (refusal reply, some (schedule principal reply.status error end))

  abbrev metered : Value → Scheduled → Handled
  metered result Scheduled.crashed = (answer crashed, none)
  metered result row = (answer (replied 200 result), some row)

  abbrev complete : Principal → Option Value → Handled
  unfolding schedule_value get
  complete principal (some (obj result)) =
      metered (obj result) (schedule_value principal 200 (get "usage" result))
  complete principal _ = (answer crashed, none)

  unfoldable pub plain_result : Principal → Upstream → Handled
  unfolding complete refused
  plain_result principal reply =
      if eqb reply.status 200
      then complete principal (loads reply.text)
      else refused principal (upstream_error loads decimal reply.status) reply

  unfoldable pub handle_non_streaming : (Fields → Posted) → Principal → Fields → Handled
  unfolding send on_posted plain_result
  handle_non_streaming post principal body =
      on_posted principal (send post body).outcome (plain_result principal)

  abbrev closed : Passed → Scheduled → Handled
  closed p Scheduled.crashed = (lines p.sent true, none)
  closed p row = (lines p.sent p.failed, some row)

  unfoldable pub streamed : Principal → Upstream → Handled
  unfolding passthrough stream_row
  streamed principal reply =
      let p = passthrough loads reply.broken reply.lines nothing_noted in
      closed p (stream_row principal p.noted)

  unfoldable pub stream_result : Principal → Upstream → Handled
  unfolding streamed refused
  stream_result principal reply =
      if eqb reply.status 200
      then streamed principal reply
      else refused principal (upstream_error loads decimal reply.status) reply

  unfoldable pub error_400 : Upstream → Value
  unfolding overflow_message
  error_400 reply =
      if is_some (overflow_message loads (str reply.text))
      then str overflow_code
      else str "azure_400"

  abbrev pub alone : Fields → Handled → Streaming
  alone body handled = record { posted = body ∷ []; handled = handled }

  -- a 400 about encrypted reasoning, by whether there was any to remove
  unfoldable pub retried :
      (Fields → Posted) → Principal → Fields → Upstream → Fields × ℕ → Streaming
  unfolding stream_result refused on_posted
  retried post principal body reply (retry_body, zero) =
      alone body (refused principal (some (str "azure_400")) reply)
  retried post principal body reply (retry_body, suc n) = record {
    posted = body ∷ retry_body ∷ [];
    handled = on_posted principal (post retry_body) (stream_result principal);
  }

  unfoldable pub first_reply : (Fields → Posted) → Principal → Fields → Upstream → Streaming
  unfolding retried stream_result refused error_400 is_invalid_encrypted_content
      strip_encrypted_reasoning
  first_reply post principal body reply =
      if eqb reply.status 400
      then (if is_invalid_encrypted_content reply.text
          then retried post principal body reply (strip_encrypted_reasoning body)
          else alone body (refused principal (some (error_400 reply)) reply))
      else alone body (stream_result principal reply)

  unfoldable pub stream_posted : (Fields → Posted) → Principal → Fields → Posted → Streaming
  unfolding first_reply on_posted stream_result
  stream_posted post principal body (answered reply) = first_reply post principal body reply
  stream_posted post principal body p = alone body (on_posted principal p (stream_result principal))

  unfoldable pub handle_streaming : (Fields → Posted) → Principal → Fields → Streaming
  unfolding stream_posted
  handle_streaming post principal body = stream_posted post principal body (post body)
