-- ===== src/Messages/Route.antt =====
-- app/proxy/anthropic.py: `_handle_non_streaming`, `_handle_streaming` and the `try` around them. What
-- `post_with_retries` comes to is a parameter, with the reply's body as `response.json` reads it
-- (`none` where it raises). A row that `usage.schedule` asks for is its argument; `none` is no call.
use Prim.Native.String
use inference_proxy.Prelude.{
  ℕ, String, Bool, true, false, ◌&&◌, ◌||◌, Option, none, some, List, [], ◌∷◌, ◌++◌, if◌then◌else◌,
  eqb,
}
use inference_proxy.Prelude.Int.{ℤ, pos, ◌+ℤ◌}
use inference_proxy.Json.{
  Value, bool, int, float, str, arr, obj, Fields, end, field, items, list, get, has, put, or_value,
}
use inference_proxy.Deployments.Resolve.{Refusal}
use inference_proxy.Metering.{Scheduled, schedule}
use inference_proxy.Messages.Bytes.{Bytes}
use inference_proxy.Messages.Sniff.{Drained, waiting, failed, unfinished, passthrough_stream}
use inference_proxy.Messages.Body.{usage_from_anthropic}

-- how a call upstream ends
pub data Posted (A : Type 0) : Type 0 where
  no_connection timed_out broke : Posted A
  answered : ℕ → A → Posted A

-- What the caller gets: a JSON body with its status, an HTTP error of the route, a refusal of
-- app/deployments.py, a stream that may break off, or the framework's answer to an exception that nobody catches.
pub data Served : Type 0 where
  replied : ℕ → Value → Served
  raised_error : ℕ → String → Served
  not_served : Refusal → Served
  streamed : List Bytes → Bool → Served
  crashed : Served

abbrev pub Principal : Type 0
Principal = Option (ℕ × ℕ)

-- the caller's answer, and the usage row
abbrev pub Answer : Type 0
Answer = Served × Option Scheduled

module _ (decimal : ℕ → String) where
  -- f"upstream_{status}"
  abbrev pub upstream_error : ℕ → Value
  upstream_error status = str (String.◌++◌ "upstream_" (decimal status))

  abbrev default_error : ℕ → Value
  default_error status = obj (
      field "type" (str "error") (
        field "error"
          (obj (
            field "type" (str "api_error")
              (field "message" (str (String.◌++◌ "Upstream API error: " (decimal status))) end)))
          end))

  abbrev error_body : ℕ → Option Value → Value
  error_body status none = default_error status
  error_body status (some body) = body

  -- an upstream error of either handler
  unfoldable pub refused_upstream : Principal → ℕ → Option Value → Answer
  unfolding schedule
  refused_upstream principal status body = (
    replied status (error_body status body),
    some (schedule principal status (some (upstream_error status)) end),
  )

  unfoldable pub completed : Principal → Value → Option Fields → Answer
  unfolding schedule
  completed principal result none = (crashed, none)
  completed principal result (some usage) =
      (replied 200 result, some (schedule principal 200 none usage))

  unfoldable pub complete : Principal → Option Value → Answer
  unfolding usage_from_anthropic completed
  complete principal none = (crashed, none)
  complete principal (some result) = completed principal result (usage_from_anthropic result)

  unfoldable pub handle_non_streaming : Principal → ℕ → Option Value → Answer
  unfolding refused_upstream complete
  handle_non_streaming principal status body =
      if eqb status 200 then complete principal body else refused_upstream principal status body

-- a streamed reply: its chunks, and the name of the HTTP error that the stream then ends with
pub record Upstream : Type 0 where
  pub chunks : List Bytes
  pub died : Option String
  pub body : Option Value

-- `a + b` of two JSON values: `none` where it raises. The sum of floats is a parameter.
abbrev pub whole : Value → Option ℤ
whole (int z) = some z
whole (bool true) = some (pos 1)
whole (bool false) = some (pos 0)
whole _ = none

abbrev is_number : Value → Bool
is_number (int z) = true
is_number (bool b) = true
is_number (float m k) = true
is_number _ = false

abbrev pub is_none : Option Fields → Bool
is_none none = true
is_none (some _) = false

module _ (decimal : ℕ → String) (loads : Bytes → Option Value) (float_sum : Value → Value → Value)
    (error_event : Bytes) where
  abbrev add_whole : Option ℤ → Option ℤ → Value → Value → Option Value
  add_whole (some x) (some y) a b = some (int (x +ℤ y))
  add_whole _ _ a b = if is_number a && is_number b then some (float_sum a b) else none

  abbrev add : Value → Value → Option Value
  unfolding ◌+ℤ◌
  add (str s) (str t) = some (str (String.◌++◌ s t))
  add (arr vs) (arr ws) = some (list (items vs ++ items ws))
  add a b = add_whole (whole a) (whole b) a b

  abbrev put_total : Fields → Option Value → Option Fields
  put_total captured none = none
  put_total captured (some total) = some (put "total_tokens" total captured)

  abbrev or_zero : Value → Value
  or_zero v = or_value v (int (pos 0))

  -- what the `finally` does to `captured`; `none` is an exception
  unfoldable pub with_total : Fields → Option Fields
  unfolding add has get
  with_total captured =
      if has "input_tokens" captured || has "output_tokens" captured
      then put_total captured
          (add (or_zero (get "input_tokens" captured)) (or_zero (get "output_tokens" captured)))
      else some captured

  abbrev pub stream_error : Option String → Option Value
  stream_error none = none
  stream_error (some name) = some (str (String.◌++◌ "stream_" name))

  unfoldable pub meter : Principal → Option Value → Option Fields → Option Scheduled
  unfolding schedule
  meter principal error none = none
  meter principal error (some captured) = some (schedule principal 200 error captured)

  abbrev pub farewell : Option String → List Bytes
  farewell none = []
  farewell (some name) = error_event ∷ []

  -- the end of `passthrough`: the flag of `streamed` says that the caller's stream breaks off
  unfoldable pub close : Principal → List Bytes → Option String → Drained → Answer
  unfolding with_total meter
  close principal sent died (waiting captured rest) = (
    streamed (sent ++ farewell died) (is_none (with_total captured)),
    meter principal (stream_error died) (with_total captured),
  )
  close principal sent died (failed captured) =
      (streamed sent true, meter principal none (with_total captured))
  close principal sent died unfinished = (crashed, none)

  unfoldable pub passthrough : Principal → Upstream → Answer
  unfolding passthrough_stream close
  passthrough principal reply =
      let passed = passthrough_stream loads reply.chunks [] end in
      close principal passed.sent reply.died passed.state

  unfoldable pub handle_streaming : Principal → ℕ → Upstream → Answer
  unfolding passthrough refused_upstream
  handle_streaming principal status reply =
      if eqb status 200
      then passthrough principal reply
      else refused_upstream decimal principal status reply.body

  -- the `try` around the two handlers
  unfoldable pub forward : Principal → Bool → Posted Upstream → Answer
  unfolding handle_streaming handle_non_streaming schedule
  forward principal streaming no_connection = (
    raised_error 502 "Failed to reach upstream",
    some (schedule principal 502 (some (str "connect_error")) end),
  )
  forward principal streaming timed_out = (
    raised_error 504 "Upstream timed out",
    some (schedule principal 504 (some (str "timeout")) end),
  )
  forward principal streaming broke = (crashed, none)
  forward principal streaming (answered status reply) =
      if streaming
      then handle_streaming principal status reply
      else handle_non_streaming decimal principal status reply.body
