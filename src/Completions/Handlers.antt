-- ===== src/Completions/Handlers.antt =====
-- app/proxy/chat_completions.py: the two translated ways, plain and streamed.
use inference_proxy.Prelude.{ℕ, String, Bool, true, false, Option, none, some, if◌then◌else◌, eqb}
use inference_proxy.Json.{Value, str, obj, Fields, end, get, or_value, is_text}
use inference_proxy.Overflow.{overflow_body}
use inference_proxy.Metering.{Scheduled, schedule, anthropic_usage_to_azure_usage, stream_row}
use inference_proxy.Anthropic.Request.Result.{Result, ok, err}
use inference_proxy.Anthropic.Response.{Completion, transform_anthropic_to_completions}
use inference_proxy.Anthropic.Stream.Events.{context_overflow_stop, overflow_sentence}
use inference_proxy.Anthropic.Stream.Run.{Ending, stream}
use inference_proxy.Responses.Reply.{transform_response_to_completions}
use inference_proxy.Responses.Run
use inference_proxy.Completions.Answers.{
  Served, replied, completed, messages_stream, responses_stream, crashed, Principal, Answer,
  Upstream, schedule_value, after_row, refused_upstream, upstream_error_response,
}

module _ (loads : String → Option Value) (dumps render : Value → String) (decimal : ℕ → String)
    (fresh : String) (created : Value) (model : String) where
  abbrev pub chat_reply : Result Fields → Served
  chat_reply (err e) = crashed
  chat_reply (ok reply) = replied 200 (obj reply)

  -- the row is asked for before the reply is translated
  unfoldable pub responses_result : Principal → Option Value → Answer
  unfolding get schedule_value transform_response_to_completions
  responses_result principal (some (obj reply)) =
      after_row (schedule_value principal 200 (get "usage" reply))
        (chat_reply (transform_response_to_completions render fresh created reply model))
  responses_result principal _ = (crashed, none)

  unfoldable pub post_via_responses : Principal → Upstream → Answer
  unfolding responses_result refused_upstream
  post_via_responses principal reply =
      if eqb reply.status 200
      then responses_result principal (loads reply.text)
      else refused_upstream loads decimal principal reply

  abbrev is_raised : Run.Exit → Bool
  is_raised Run.raised = true
  is_raised _ = false

  -- a row that cannot be made breaks the stream off
  abbrev pub responses_closed : Run.Run → Scheduled → Answer
  responses_closed r Scheduled.crashed = (responses_stream r.chunks true, none)
  responses_closed r row = (responses_stream r.chunks (is_raised r.exit), some row)

  unfoldable pub stream_via_responses : Principal → Upstream → Answer
  unfolding Run.stream Run.stream_row refused_upstream
  stream_via_responses principal reply =
      if eqb reply.status 200
      then responses_closed (Run.stream loads render reply.broken reply.lines)
          (Run.stream_row loads render principal reply.broken reply.lines)
      else refused_upstream loads decimal principal reply

  abbrev pub chat_completion : Result Completion → Served
  chat_completion (err e) = crashed
  chat_completion (ok reply) = completed reply

  unfoldable pub overflowed : Principal → Fields → Answer
  unfolding schedule anthropic_usage_to_azure_usage overflow_body overflow_sentence
  overflowed principal usage = (
    replied 400 (obj (overflow_body (overflow_sentence model))),
    some (
        schedule principal 400 (some (str "context_length_exceeded"))
          (anthropic_usage_to_azure_usage usage)),
  )

  unfoldable pub answered : Principal → Fields → Fields → Answer
  unfolding schedule anthropic_usage_to_azure_usage transform_anthropic_to_completions
  answered principal result usage = (
    chat_completion (transform_anthropic_to_completions dumps result model),
    some (schedule principal 200 none (anthropic_usage_to_azure_usage usage)),
  )

  unfoldable pub messages_metered : Principal → Fields → Value → Answer
  unfolding overflowed answered get
  messages_metered principal result (obj usage) =
      if is_text context_overflow_stop (get "stop_reason" result)
      then overflowed principal usage
      else answered principal result usage
  messages_metered principal result _ = (crashed, none)

  -- a 200 that is not JSON is reported as a 502
  unfoldable pub not_json : Principal → String → Answer
  unfolding schedule upstream_error_response
  not_json principal raw = (
    upstream_error_response loads decimal 502 raw,
    some (schedule principal 502 (some (str "upstream_non_json")) end),
  )

  unfoldable pub messages_result : Principal → String → Option Value → Answer
  unfolding get messages_metered not_json
  messages_result principal raw none = not_json principal raw
  messages_result principal raw (some (obj result)) =
      messages_metered principal result (or_value (get "usage" result) (obj end))
  messages_result principal raw (some v) = (crashed, none)

  unfoldable pub post_via_anthropic : Principal → Upstream → Answer
  unfolding messages_result refused_upstream
  post_via_anthropic principal reply =
      if eqb reply.status 200
      then messages_result principal reply.text (loads reply.text)
      else refused_upstream loads decimal principal reply

  unfoldable pub messages_closed : Principal → Ending → Answer
  unfolding stream_row
  messages_closed principal ending =
      (messages_stream ending.chunks ending.raised, some (stream_row principal ending))

  unfoldable pub stream_via_anthropic : Principal → Upstream → Answer
  unfolding stream messages_closed refused_upstream
  stream_via_anthropic principal reply =
      if eqb reply.status 200
      then messages_closed principal (stream loads model reply.lines reply.broken)
      else refused_upstream loads decimal principal reply
