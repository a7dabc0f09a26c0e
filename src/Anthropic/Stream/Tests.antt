-- ===== src/Anthropic/Stream/Tests.antt =====
-- Streams of app/proxy/chat_to_anthropic.py at concrete lines.
use inference_proxy.Prelude.{
  ℕ, String, true, false, Option, none, some, List, [], ◌∷◌, ◌≡◌, refl, any, all, ◌==◌,
  if◌then◌else◌,
}
use inference_proxy.Prelude.Int.{pos}
use inference_proxy.Json.{Value, int, str, obj, Fields, end, field, get}
use inference_proxy.Text.{contains, lower}
use inference_proxy.Overflow.{overflow_message}
use inference_proxy.Anthropic.Stream.State.{opening}
use inference_proxy.Anthropic.Stream.Unnamed.{text_error_unnamed}
use inference_proxy.Anthropic.Stream.Run.{read_event, stream}
use inference_proxy.Anthropic.Stream.Terminator.{is_done, calm, events}
use inference_proxy.Anthropic.Stream.Outcome.{Told, is_served, done_iff}
use inference_proxy.Anthropic.Stream.Numbering.{is_numbered, stream-is_numbered}
use inference_proxy.Anthropic.Stream.HighWater.{held, highest, stream_usage}

abbrev open_event : Fields
open_event = field "type" (str "content_block_start") (
    field "index" (int (pos 1)) (
      field "content_block"
        (obj (field "type" (str "tool_use") (field "id" (str "t") (field "name" (str "ls") end))))
        end))

abbrev delta_event : ℕ → Fields
delta_event n =
    field "type" (str "message_delta")
      (field "usage" (obj (field "output_tokens" (int (pos n)) end)) end)

abbrev stop_event : Fields
stop_event = field "type" (str "message_stop") end

abbrev decode : String → Option Value
decode s =
    if s == "o"
    then some (obj open_event)
    else if s == "d"
    then some (obj (delta_event 7))
    else if s == "z"
    then some (obj (delta_event 0))
    else if s == "s"
    then some (obj stop_event)
    else none

abbrev turn_lines : List String
turn_lines = "event: x" ∷ "data: o" ∷ "data: d" ∷ "data: z" ∷ "data: s" ∷ []

done_iff_example :
    (any is_done (stream decode "m" turn_lines false).chunks
      ≡ is_served decode "m" turn_lines false)
    × Told (is_served decode "m" turn_lines false) (stream decode "m" turn_lines false)
done_iff_example = done_iff decode "m" turn_lines false

stream-is_numbered_example : is_numbered 0 (stream decode "m" turn_lines false).chunks ≡ true
stream-is_numbered_example = stream-is_numbered decode "m" turn_lines false

turn_calm : all calm (events decode turn_lines) ≡ true
unfolding events inference_proxy.Anthropic.Stream.Run.read_event
    inference_proxy.Anthropic.Stream.Terminator.malformed
    inference_proxy.Anthropic.Stream.Terminator.fails
turn_calm = refl

stream_usage_example :
    held (get "output_tokens" (stream decode "m" turn_lines false).usage)
    ≡ highest "output_tokens" (events decode turn_lines)
stream_usage_example = stream_usage decode "m" turn_lines false "output_tokens" turn_calm

abbrev failure : Fields
failure = field "type" (str "error") (field "error" (str "overloaded") end)

abbrev decode_failure : String → Option Value
decode_failure s = if s == "e" then some (obj failure) else none

text_error_unnamed_example :
    ((stream decode_failure "m" ("data: e" ∷ []) true).chunks ≡ opening ∷ [])
    × ((stream decode_failure "m" ("data: e" ∷ []) true).raised ≡ true)
    × ((stream decode_failure "m" ("data: e" ∷ []) true).error_type ≡ none)
unfolding read_event get overflow_message contains lower
text_error_unnamed_example =
    text_error_unnamed decode_failure "m" "data: e" "overloaded" [] true failure refl refl refl refl
      refl
