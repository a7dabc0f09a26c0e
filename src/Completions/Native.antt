-- ===== src/Completions/Native.antt =====
-- app/proxy/chat_completions.py: `_post_native_chat_passthrough` and `_stream_native_chat_passthrough`.
use Prim.Native.String
use inference_proxy.Prelude.{
  ℕ, String, Bool, true, ◌||◌, Option, none, some, List, [], ◌∷◌, ◌==◌, if◌then◌else◌, eqb,
}
use inference_proxy.Text.{strip, starts_with, drop}
use inference_proxy.Json.{
  Value, str, obj, bool, Fields, end, field, get, has, put, or_value, truthy, is_empty_text,
}
use inference_proxy.Overflow.{overflow_message, overflow_body}
use inference_proxy.Metering.{Scheduled, schedule, chat_usage_to_azure_usage}
use inference_proxy.Completions.Answers.{
  Served, replied, raised_error, lines_stream, crashed, Principal, Answer, Upstream,
  upstream_sentence, upstream_error,
}

-- `{**body, "stream_options": ..}` where the caller asked for none
unfoldable pub with_stream_options : Fields → Fields
unfolding has put
with_stream_options body =
    if has "stream_options" body
    then body
    else put "stream_options" (obj (field "include_usage" (bool true) end)) body

-- what the loop keeps of the usage, and whether an exception ends it
pub record Captured : Type 0 where
  pub sent : List String
  pub usage : Fields
  pub failed : Bool

-- `captured.update(..)`
abbrev pub merge : Fields → Fields → Fields
unfolding put
merge end held = held
merge (field k v rest) held = merge rest (put k v held)

module _ (loads : String → Option Value) (decimal : ℕ → String) where
  unfoldable pub native_error : ℕ → String → Option Value → Option String → Served
  unfolding overflow_body
  native_error status raw parsed (some sentence) = replied status (obj (overflow_body sentence))
  native_error status raw (some v) none = replied status v
  native_error status raw none none = raised_error status (upstream_sentence loads decimal status)

  abbrev plain_error : ℕ → Value
  plain_error status =
      obj (
        field "error" (obj (field "message" (str (upstream_sentence loads decimal status)) end))
          end)

  unfoldable pub stream_error : ℕ → Option Value → Option String → Served
  unfolding overflow_body
  stream_error status parsed (some sentence) = replied status (obj (overflow_body sentence))
  stream_error status (some v) none = replied status v
  stream_error status none none = replied status (plain_error status)

  unfoldable pub error_row : Principal → ℕ → Option Scheduled
  unfolding schedule
  error_row principal status =
      some (schedule principal status (upstream_error loads decimal status) end)

  unfoldable pub metered : Principal → Value → Option Fields → Answer
  unfolding schedule
  metered principal result none = (crashed, none)
  metered principal result (some usage) =
      (replied 200 result, some (schedule principal 200 none usage))

  abbrev pub usage_of : Value → Option Fields
  unfolding chat_usage_to_azure_usage
  usage_of (obj usage) = chat_usage_to_azure_usage usage
  usage_of _ = none

  unfoldable pub native_result : Principal → Option Value → Answer
  unfolding get usage_of metered
  native_result principal (some (obj result)) =
      metered principal (obj result) (usage_of (or_value (get "usage" result) (obj end)))
  native_result principal _ = (crashed, none)

  unfoldable pub post_native : Principal → Upstream → Answer
  unfolding overflow_message native_error error_row native_result
  post_native principal reply =
      if eqb reply.status 200 then native_result principal (loads reply.text) else (
        native_error reply.status reply.text (loads reply.text)
            (overflow_message loads (str reply.text)),
        error_row principal reply.status,
      )

  abbrev usage_in : Value → Option Value
  usage_in (obj event) = if truthy (get "usage" event) then some (get "usage" event) else none
  usage_in _ = none

  abbrev pub usage_in_line : Option Value → Option Value
  usage_in_line none = none
  usage_in_line (some v) = usage_in v

  abbrev payload_usage : String → Option Value
  payload_usage payload =
      if is_empty_text payload || (payload == "[DONE]") then none else usage_in_line (loads payload)

  -- The usage that a line carries. The line is stripped, so stripping what follows `data:` is
  -- `lstrip` of it.
  unfoldable pub line_usage : String → Option Value
  unfolding strip starts_with drop get
  line_usage line =
      if starts_with (strip line) "data:" then payload_usage (strip (drop 5 (strip line))) else none

  abbrev pub keep_usage : Option Value → Fields → (Fields → Captured) → Captured
  unfolding merge
  keep_usage none held go = go held
  keep_usage (some (obj usage)) held go = go (merge usage held)
  keep_usage (some v) held go = record { sent = []; usage = held; failed = true }

  unfoldable pub pass_lines : Bool → List String → Fields → Captured
  unfolding line_usage keep_usage
  pass_lines broken [] held = record { sent = []; usage = held; failed = broken }
  pass_lines broken (line ∷ lines) held =
      let rest = keep_usage (line_usage line) held (pass_lines broken lines) in
      record rest { sent = String.◌++◌ line "\n" ∷ rest.sent }

  unfoldable pub closed : Principal → Captured → Option Fields → Answer
  unfolding schedule
  closed principal c none = (lines_stream c.sent true, none)
  closed principal c (some usage) =
      (lines_stream c.sent c.failed, some (schedule principal 200 none usage))

  unfoldable pub stream_native : Principal → Upstream → Answer
  unfolding overflow_message stream_error error_row pass_lines closed chat_usage_to_azure_usage
  stream_native principal reply =
      if eqb reply.status 200
      then (let c = pass_lines reply.broken reply.lines end in
          closed principal c (chat_usage_to_azure_usage c.usage))
      else (
        stream_error reply.status (loads reply.text) (overflow_message loads (str reply.text)),
        error_row principal reply.status,
      )
