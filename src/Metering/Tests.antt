-- ===== src/Metering/Tests.antt =====
-- A streamed call of app/proxy/chat_completions.py, metered.
use inference_proxy.Prelude.{
  String, true, false, Option, none, some, List, [], ◌∷◌, ◌≡◌, refl, all, ◌==◌, if◌then◌else◌,
}
use inference_proxy.Prelude.Int.{pos}
use inference_proxy.Json.{Value, int, str, obj, Fields, end, field}
use inference_proxy.Anthropic.Stream.Run.{stream, read_event}
use inference_proxy.Anthropic.Stream.Terminator.{calm, events, malformed, fails}
use inference_proxy.Anthropic.Stream.Outcome.{is_served}
use inference_proxy.Anthropic.Stream.HighWater.{highest}
use inference_proxy.Metering.{UsageRow, inserted, stream_row}
use inference_proxy.Metering.Streamed.{Counts, stream_row-inserted}

abbrev delta_event : Fields
delta_event = field "type" (str "message_delta") (
    field "delta" (obj (field "stop_reason" (str "end_turn") end))
      (field "usage" (obj (field "output_tokens" (int (pos 7)) end)) end))

abbrev decode : String → Option Value
decode s = if s == "d" then some (obj delta_event) else none

abbrev lines : List String
lines = "data: d" ∷ []

all_served : all calm (events decode lines) ≡ true
unfolding events read_event malformed fails
all_served = refl

stream_row-inserted_example :
    (row : UsageRow) × (stream_row (some (3, 9)) (stream decode "m" lines false) ≡ inserted row)
    × (row.client_id ≡ 3)
    × (row.key_id ≡ 9)
    × Counts row.tokens (λ k. highest k (events decode lines))
    × (is_served decode "m" lines false ≡ true → row.status_code ≡ 200)
stream_row-inserted_example = stream_row-inserted decode "m" lines false 3 9 all_served
