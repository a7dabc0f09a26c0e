-- ===== src/Completions/Translated.antt =====
-- The usage rows of the two translated ways of app/proxy/chat_completions.py.
use inference_proxy.Prelude.{
  any, Bool, true, false, ℕ, String, Option, none, some, ◌≡◌, refl, inl, inr, Bool-cases,
}
use inference_proxy.Json.{
  Value, null, bool, int, float, str, arr, obj, Fields, end, get, or_value, is_text,
}
use inference_proxy.Metering.{
  Scheduled, skipped, inserted, schedule, stream_row, status_for, anthropic_usage_to_azure_usage,
}
use inference_proxy.Anthropic.Request.Result.{Result, ok, err}
use inference_proxy.Completions.Answers.{Principal, Upstream, upstream_error_response}
use inference_proxy.Anthropic.Response.{Completion}
use inference_proxy.Completions.Handlers.{
  responses_result, post_via_responses, responses_closed, stream_via_responses, messages_result,
  post_via_anthropic, messages_closed, stream_via_anthropic, chat_reply, chat_completion,
  messages_metered, not_json, overflowed, answered,
}
use inference_proxy.Anthropic.Stream.Run.{Ending, stream}
use inference_proxy.Anthropic.Stream.Events.{context_overflow_stop}
use inference_proxy.Anthropic.Response.{transform_anthropic_to_completions}
use inference_proxy.Responses.Reply.{transform_response_to_completions}
use inference_proxy.Responses.Run
use inference_proxy.Responses.Run.{Run}
use inference_proxy.Anthropic.Stream.Terminator.{is_done}
use inference_proxy.Anthropic.Stream.Outcome.{Told, is_served, done_iff}
use inference_proxy.Completions.Rows.{
  StreamFits, after_schedule-IsMetered, Fits, IsMetered, refused_upstream-IsMetered, by_status,
}

module _ (loads : String → Option Value) (dumps render : Value → String) (decimal : ℕ → String)
    (fresh : String) (created : Value) (model : String) where
  chat_reply-Fits :
      (r : Result Fields) → Fits 200 (chat_reply loads dumps render decimal fresh created model r)
  chat_reply-Fits (err e) = refl
  chat_reply-Fits (ok reply) = refl

  chat_completion-Fits :
      (r : Result Completion)
      → Fits 200 (chat_completion loads dumps render decimal fresh created model r)
  chat_completion-Fits (err e) = refl
  chat_completion-Fits (ok reply) = refl

  responses_result-IsMetered :
      (principal : Principal) (parsed : Option Value)
      → IsMetered principal
          (responses_result loads dumps render decimal fresh created model principal parsed)
  unfolding IsMetered responses_result
  responses_result-IsMetered principal (some (obj reply)) =
      after_schedule-IsMetered principal (get "usage" reply) _
        (chat_reply-Fits (transform_response_to_completions render fresh created reply model))
  responses_result-IsMetered principal none = tt
  responses_result-IsMetered principal (some null) = tt
  responses_result-IsMetered principal (some (bool b)) = tt
  responses_result-IsMetered principal (some (int z)) = tt
  responses_result-IsMetered principal (some (float m k)) = tt
  responses_result-IsMetered principal (some (str s)) = tt
  responses_result-IsMetered principal (some (arr vs)) = tt

  pub post_via_responses-IsMetered :
      (principal : Principal) (reply : Upstream)
      → IsMetered principal
          (post_via_responses loads dumps render decimal fresh created model principal reply)
  unfolding post_via_responses
  post_via_responses-IsMetered principal reply =
      by_status loads decimal principal reply.status _ _
        (responses_result-IsMetered principal (loads reply.text))
        (refused_upstream-IsMetered loads decimal principal reply)

  responses_closed-IsMetered :
      (principal : Principal) (usage : Fields) (r : Run) (row : Scheduled)
      → row ≡ schedule principal 200 none usage
      → IsMetered principal (responses_closed loads dumps render decimal fresh created model r row)
  unfolding IsMetered
  responses_closed-IsMetered principal usage r Scheduled.crashed h = tt
  responses_closed-IsMetered principal usage r skipped h = (200, none, usage, h, refl)
  responses_closed-IsMetered principal usage r (inserted row) h = (200, none, usage, h, refl)

  pub stream_via_responses-IsMetered :
      (principal : Principal) (reply : Upstream)
      → IsMetered principal
          (stream_via_responses loads dumps render decimal fresh created model principal reply)
  unfolding stream_via_responses Run.stream_row
  stream_via_responses-IsMetered principal reply =
      by_status loads decimal principal reply.status _ _
        (responses_closed-IsMetered principal _ (Run.stream loads render reply.broken reply.lines) _
          refl)
        (refused_upstream-IsMetered loads decimal principal reply)

  messages_metered-IsMetered :
      (principal : Principal) (result : Fields) (usage : Value)
      → IsMetered principal
          (messages_metered loads dumps render decimal fresh created model principal result usage)
  unfolding IsMetered messages_metered overflowed answered
  messages_metered-IsMetered principal result (obj usage) =
      elim (Bool-cases (is_text context_overflow_stop (get "stop_reason" result))) [
        | inl full ↦ rw full (
          400,
          some (str "context_length_exceeded"),
          anthropic_usage_to_azure_usage usage,
          refl,
          refl,
        )
        | inr ended ↦ rw ended (
          200,
          none,
          anthropic_usage_to_azure_usage usage,
          refl,
          chat_completion-Fits (transform_anthropic_to_completions dumps result model),
        )
      ]
  messages_metered-IsMetered principal result null = tt
  messages_metered-IsMetered principal result (bool b) = tt
  messages_metered-IsMetered principal result (int z) = tt
  messages_metered-IsMetered principal result (float m k) = tt
  messages_metered-IsMetered principal result (str s) = tt
  messages_metered-IsMetered principal result (arr vs) = tt

  messages_result-IsMetered :
      (principal : Principal) (raw : String) (parsed : Option Value)
      → IsMetered principal
          (messages_result loads dumps render decimal fresh created model principal raw parsed)
  unfolding IsMetered messages_result not_json upstream_error_response
  messages_result-IsMetered principal raw none =
      (502, some (str "upstream_non_json"), end, refl, refl)
  messages_result-IsMetered principal raw (some (obj result)) =
      messages_metered-IsMetered principal result (or_value (get "usage" result) (obj end))
  messages_result-IsMetered principal raw (some null) = tt
  messages_result-IsMetered principal raw (some (bool b)) = tt
  messages_result-IsMetered principal raw (some (int z)) = tt
  messages_result-IsMetered principal raw (some (float m k)) = tt
  messages_result-IsMetered principal raw (some (str s)) = tt
  messages_result-IsMetered principal raw (some (arr vs)) = tt

  pub post_via_anthropic-IsMetered :
      (principal : Principal) (reply : Upstream)
      → IsMetered principal
          (post_via_anthropic loads dumps render decimal fresh created model principal reply)
  unfolding post_via_anthropic
  post_via_anthropic-IsMetered principal reply =
      by_status loads decimal principal reply.status _ _
        (messages_result-IsMetered principal reply.text (loads reply.text))
        (refused_upstream-IsMetered loads decimal principal reply)

  ending-StreamFits :
      (finished : Bool) (served : Bool) (ending : Ending)
      → finished ≡ served
      → Told served ending
      → StreamFits finished ending.raised (status_for ending.error_type)
  ending-StreamFits true true ending same (quiet, calm) = rw quiet refl
  ending-StreamFits false false ending same (inr (quiet, loud)) = rw (quiet, loud) (inr refl)
  ending-StreamFits false false ending same (inl (named, status)) =
      elim (Bool-cases ending.raised) [
        | inl loud ↦ rw (loud, status) (inl refl)
        | inr calm ↦ rw (calm, status) refl
      ]
  ending-StreamFits true false ending same told = cc
  ending-StreamFits false true ending same told = cc

  messages_closed-IsMetered :
      (principal : Principal) (ending : Ending)
      → StreamFits (any is_done ending.chunks) ending.raised (status_for ending.error_type)
      → IsMetered principal
          (messages_closed loads dumps render decimal fresh created model principal ending)
  unfolding IsMetered messages_closed stream_row
  messages_closed-IsMetered principal ending fits = (
    status_for ending.error_type,
    ending.error_type,
    anthropic_usage_to_azure_usage ending.usage,
    refl,
    fits,
  )

  pub stream_via_anthropic-IsMetered :
      (principal : Principal) (reply : Upstream)
      → IsMetered principal
          (stream_via_anthropic loads dumps render decimal fresh created model principal reply)
  unfolding stream_via_anthropic
  stream_via_anthropic-IsMetered principal reply =
      let (finished, told) = done_iff loads model reply.lines reply.broken in
      by_status loads decimal principal reply.status _ _
        (messages_closed-IsMetered principal (stream loads model reply.lines reply.broken) (
          ending-StreamFits _ (is_served loads model reply.lines reply.broken)
            (stream loads model reply.lines reply.broken) finished told))
        (refused_upstream-IsMetered loads decimal principal reply)
