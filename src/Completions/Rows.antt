-- ===== src/Completions/Rows.antt =====
-- The usage rows of app/proxy/chat_completions.py: what fits an answer, and the rows of the native way.
use inference_proxy.Prelude.{
  ℕ, String, Bool, true, false, Option, none, some, ◌≡◌, refl, any, ◌⊎◌, if◌then◌else◌, eqb,
}
use inference_proxy.Json.{Value, null, bool, int, float, str, arr, obj, Fields, end}
use inference_proxy.Metering.{Scheduled, skipped, inserted, schedule, chat_usage_to_azure_usage}
use inference_proxy.Completions.Answers.{
  Served, replied, completed, raised_error, not_served, messages_stream, responses_stream,
  lines_stream, crashed, Principal, Answer, Upstream, schedule_value, after_row, refused_upstream,
  upstream_error_response,
}
use inference_proxy.Anthropic.Stream.Terminator.{is_done}
use inference_proxy.Completions.Native.{
  post_native, stream_native, native_result, metered, closed, Captured, native_error, stream_error,
  error_row, pass_lines,
}
use inference_proxy.Overflow.{overflow_message}

-- What a Messages stream is metered with: 200 with its terminator, 502 without, and where an exception
-- breaks it off also 200.
abbrev pub StreamFits : Bool → Bool → ℕ → Type 0
StreamFits true broken status = status ≡ 200
StreamFits false false status = status ≡ 502
StreamFits false true status = (status ≡ 502) ⊎ (status ≡ 200)

-- The status that the caller is sent, or what a stream may be metered with. A call whose reply cannot
-- be translated is metered before that shows.
abbrev pub Fits : ℕ → Served → Type 0
Fits status (replied sent body) = sent ≡ status
Fits status (raised_error sent message) = sent ≡ status
Fits status (completed reply) = status ≡ 200
Fits status (messages_stream chunks broken) = StreamFits (any is_done chunks) broken status
Fits status (responses_stream chunks broken) = status ≡ 200
Fits status (lines_stream lines broken) = status ≡ 200
Fits status crashed = status ≡ 200
Fits status (not_served r) = ⊥

-- one row that fits the answer, or none where an exception ends the call
unfoldable pub IsMetered : Principal → Answer → Type 0
unfolding schedule
IsMetered principal (served, some row) =
    (status : ℕ) × (error : Option Value) × (usage : Fields) × (row
      ≡ schedule principal status error usage)
    × Fits status served
IsMetered principal (crashed, none) = Unit
IsMetered principal (messages_stream chunks true, none) = Unit
IsMetered principal (responses_stream chunks true, none) = Unit
IsMetered principal (lines_stream lines true, none) = Unit
IsMetered principal (served, none) = ⊥

pub if-IsMetered :
    (principal : Principal) (t : Bool) (one other : Answer)
    → IsMetered principal one
    → IsMetered principal other
    → IsMetered principal (if t then one else other)
if-IsMetered principal true one other h h' = h
if-IsMetered principal false one other h h' = h'

pub after_row-IsMetered :
    (principal : Principal) (usage : Fields) (row : Scheduled) (served : Served)
    → row ≡ schedule principal 200 none usage
    → Fits 200 served
    → IsMetered principal (after_row row served)
unfolding IsMetered
after_row-IsMetered principal usage Scheduled.crashed served h fits = tt
after_row-IsMetered principal usage skipped served h fits = (200, none, usage, h, fits)
after_row-IsMetered principal usage (inserted r) served h fits = (200, none, usage, h, fits)

pub after_schedule-IsMetered :
    (principal : Principal) (usage : Value) (served : Served)
    → Fits 200 served
    → IsMetered principal (after_row (schedule_value principal 200 usage) served)
unfolding IsMetered schedule_value schedule
after_schedule-IsMetered none usage served fits = (200, none, end, refl, fits)
after_schedule-IsMetered (some p) (obj usage) served fits =
    after_row-IsMetered (some p) usage (schedule (some p) 200 none usage) served refl fits
after_schedule-IsMetered (some p) null served fits = (200, none, end, refl, fits)
after_schedule-IsMetered (some p) _ served fits = tt

module _ (loads : String → Option Value) (decimal : ℕ → String) where
  pub refused_upstream-IsMetered :
      (principal : Principal) (reply : Upstream)
      → IsMetered principal (refused_upstream loads decimal principal reply)
  unfolding IsMetered refused_upstream upstream_error_response
  refused_upstream-IsMetered principal reply = (reply.status, _, end, refl, refl)

  -- an answer by whether the upstream's status is 200
  pub by_status :
      (principal : Principal) (status : ℕ) (good bad : Answer)
      → IsMetered principal good
      → IsMetered principal bad
      → IsMetered principal (if eqb status 200 then good else bad)
  by_status principal status good bad g b = if-IsMetered principal (eqb status 200) good bad g b

  metered-IsMetered :
      (principal : Principal) (result : Value) (usage : Option Fields)
      → IsMetered principal (metered loads decimal principal result usage)
  unfolding IsMetered metered
  metered-IsMetered principal result none = tt
  metered-IsMetered principal result (some usage) = (200, none, usage, refl, refl)

  native_result-IsMetered :
      (principal : Principal) (parsed : Option Value)
      → IsMetered principal (native_result loads decimal principal parsed)
  unfolding IsMetered native_result
  native_result-IsMetered principal (some (obj result)) = metered-IsMetered principal (obj result) _
  native_result-IsMetered principal none = tt
  native_result-IsMetered principal (some null) = tt
  native_result-IsMetered principal (some (bool b)) = tt
  native_result-IsMetered principal (some (int z)) = tt
  native_result-IsMetered principal (some (float m k)) = tt
  native_result-IsMetered principal (some (str s)) = tt
  native_result-IsMetered principal (some (arr vs)) = tt

  closed-IsMetered :
      (principal : Principal) (c : Captured) (usage : Option Fields)
      → IsMetered principal (closed loads decimal principal c usage)
  unfolding IsMetered closed
  closed-IsMetered principal c none = tt
  closed-IsMetered principal c (some usage) = (200, none, usage, refl, refl)

  native_error-IsMetered :
      (principal : Principal) (status : ℕ) (raw : String) (parsed : Option Value)
      (overflow : Option String)
      → IsMetered principal (
        native_error loads decimal status raw parsed overflow,
        error_row loads decimal principal status,
      )
  unfolding IsMetered native_error error_row
  native_error-IsMetered principal status raw parsed (some sentence) = (status, _, end, refl, refl)
  native_error-IsMetered principal status raw (some v) none = (status, _, end, refl, refl)
  native_error-IsMetered principal status raw none none = (status, _, end, refl, refl)

  stream_error-IsMetered :
      (principal : Principal) (status : ℕ) (parsed : Option Value) (overflow : Option String)
      → IsMetered principal (
        stream_error loads decimal status parsed overflow,
        error_row loads decimal principal status,
      )
  unfolding IsMetered stream_error error_row
  stream_error-IsMetered principal status parsed (some sentence) = (status, _, end, refl, refl)
  stream_error-IsMetered principal status (some v) none = (status, _, end, refl, refl)
  stream_error-IsMetered principal status none none = (status, _, end, refl, refl)

  pub post_native-IsMetered :
      (principal : Principal) (reply : Upstream)
      → IsMetered principal (post_native loads decimal principal reply)
  unfolding post_native
  post_native-IsMetered principal reply =
      by_status principal reply.status _ _ (native_result-IsMetered principal (loads reply.text)) (
        native_error-IsMetered principal reply.status reply.text (loads reply.text)
          (overflow_message loads (str reply.text)))

  pub stream_native-IsMetered :
      (principal : Principal) (reply : Upstream)
      → IsMetered principal (stream_native loads decimal principal reply)
  unfolding stream_native
  stream_native-IsMetered principal reply =
      let c = pass_lines loads decimal reply.broken reply.lines end in
      by_status principal reply.status _ _
        (closed-IsMetered principal c (chat_usage_to_azure_usage c.usage))
        (stream_error-IsMetered principal reply.status (loads reply.text)
          (overflow_message loads (str reply.text)))
