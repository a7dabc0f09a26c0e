-- ===== src/Completions/Answers.antt =====
-- app/proxy/chat_completions.py: what a call of the chat route comes to, and
-- `_upstream_error_response`. `loads` is `json.loads` of a text, `none` where it raises; `decimal`
-- writes a status as text. The reply's bytes are decoded before they come here.
use Prim.Native.String
use inference_proxy.Prelude.{ℕ, String, Bool, Option, none, some, List, if◌then◌else◌, ltb}
use inference_proxy.Text.{strip}
use inference_proxy.Json.{Value, null, str, obj, end, field, is_empty_text}
use inference_proxy.Overflow.{overflow_message, overflow_body}
use inference_proxy.Deployments.Resolve.{Refusal}
use inference_proxy.Metering.{Scheduled, skipped, schedule}
use inference_proxy.Anthropic.Response.{Completion}
use inference_proxy.Anthropic.Stream.State
use inference_proxy.Responses.Stream

-- What the caller gets. A stream carries a flag that says whether an exception breaks it off;
-- `crashed` is the framework's answer to an exception that nobody catches.
pub data Served : Type 0 where
  replied : ℕ → Value → Served
  completed : Completion → Served
  raised_error : ℕ → String → Served
  not_served : Refusal → Served
  messages_stream : List State.Chunk → Bool → Served
  responses_stream : List Stream.Chunk → Bool → Served
  lines_stream : List String → Bool → Served
  crashed : Served

abbrev pub Principal : Type 0
Principal = Option (ℕ × ℕ)

-- the caller's answer, and the usage row; `none` is no call of `schedule`, or one that raised
abbrev pub Answer : Type 0
Answer = Served × Option Scheduled

-- a reply of the upstream, as text
pub record Upstream : Type 0 where
  pub status : ℕ
  pub text : String
  -- the lines of a stream, and whether it ends with an exception of the client
  pub lines : List String
  pub broken : Bool

-- `schedule` of a usage that may be no dict
unfoldable pub schedule_value : Principal → ℕ → Value → Scheduled
unfolding schedule
schedule_value none status usage = skipped
schedule_value principal status (obj usage) = schedule principal status none usage
schedule_value principal status null = schedule principal status none end
schedule_value principal status _ = Scheduled.crashed

abbrev pub after_row : Scheduled → Served → Answer
after_row Scheduled.crashed served = (crashed, none)
after_row row served = (served, some row)

abbrev error_type : ℕ → String
error_type status = if ltb status 500 then "invalid_request_error" else "api_error"

module _ (loads : String → Option Value) (decimal : ℕ → String) where
  abbrev pub upstream_sentence : ℕ → String
  upstream_sentence status = String.◌++◌ "Upstream API error: " (decimal status)

  abbrev pub upstream_error : ℕ → Option Value
  upstream_error status = some (str (String.◌++◌ "upstream_" (decimal status)))

  abbrev raw_or_sentence : ℕ → String → String
  raw_or_sentence status raw = if is_empty_text raw then upstream_sentence status else raw

  abbrev wrapped : ℕ → String → Value
  wrapped status raw = obj (
      field "error"
        (obj (
          field "message" (str (raw_or_sentence status raw))
            (field "type" (str (error_type status)) end)))
        end)

  abbrev json_or_wrapped : ℕ → String → Option Value → Value
  json_or_wrapped status raw none = wrapped status raw
  json_or_wrapped status raw (some v) = v

  abbrev error_content : ℕ → String → Option String → Value
  error_content status raw none = json_or_wrapped status (strip raw) (loads raw)
  error_content status raw (some sentence) = obj (overflow_body sentence)

  -- an overflow is told from the body first; `overflow_message` never gives an empty sentence
  unfoldable pub upstream_error_response : ℕ → String → Served
  unfolding strip overflow_message overflow_body
  upstream_error_response status raw =
      replied status (error_content status raw (overflow_message loads (str raw)))

  -- a refusal of the upstream, on either translated way
  unfoldable pub refused_upstream : Principal → Upstream → Answer
  unfolding upstream_error_response schedule
  refused_upstream principal reply = (
    upstream_error_response reply.status reply.text,
    some (schedule principal reply.status (upstream_error reply.status) end),
  )
