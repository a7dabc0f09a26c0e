-- ===== src/Responses/Tests.antt =====
-- Requests, replies and streams for the translation of app/proxy/chat_completions.py.
use inference_proxy.Prelude.{
  String, true, false, Option, none, List, [], ◌∷◌, ◌≡◌, refl, value_at, Map,
}
use inference_proxy.Prelude.Int.{pos}
use inference_proxy.Json.{Value, null, int, str, obj, Fields, end, field, list}
use inference_proxy.Responses.Content.{text_item, image_item}
use inference_proxy.Responses.Reply.{Taken, call_of}
use inference_proxy.Responses.Stream.{opening, done, tool_start, tool_arguments, finish}
use inference_proxy.Responses.Run.{stream}
use inference_proxy.Responses.Run.Ending.{Closes, stream-Closes}
use inference_proxy.Responses.Run.Numbering.{is_numbered, responses_calls_numbered}
use inference_proxy.Responses.HandedBack.{Call}

abbrev shell : Value
shell = obj (
    field "type" (str "function")
      (field "function" (obj (field "name" (str "shell") (field "strict" null end))) end))

abbrev search : Value
search = obj (field "type" (str "web_search_preview") end)

abbrev offered : Value
offered = list (shell ∷ int (pos 3) ∷ search ∷ [])

abbrev shown : Value
shown = list (
    str "What is this?"
    ∷ obj (
        field "type" (str "image_url")
          (field "image_url" (obj (field "url" (str "https://x/y.png") end)) end))
    ∷ [])

abbrev spelled : Value
spelled = list (text_item false (str "What is this?") ∷ image_item "https://x/y.png" ∷ [])

abbrev dumps : Value → String
dumps v = "{}"

abbrev asked : Call
asked = record { id = "call_1"; name = "shell"; arguments = "{\"cmd\":\"ls\"}" }

abbrev item : Fields
item = field "type" (str "function_call") (
    field "id" (str "fc_1") (
      field "call_id" (str "call_1")
        (field "name" (str "shell") (field "arguments" (str "{\"cmd\":\"ls\"}") end))))

abbrev output : List Value
output =
    obj (field "type" (str "reasoning") end)
    ∷ obj (
        field "type" (str "message") (
          field "content"
            (list (obj (field "type" (str "output_text") (field "text" (str "Looking.") end)) ∷ []))
            end))
    ∷ obj item
    ∷ []

abbrev from_output : Taken
from_output = record { parts = str "Looking." ∷ []; tool_calls = call_of item ∷ [] }

-- reads a payload as the event that the name stands for
abbrev event_table : Map Value
event_table =
    (
      "added",
      obj (
          field "type" (str "response.output_item.added") (
            field "item"
              (obj (
                field "type" (str "function_call")
                  (field "id" (str "fc_1") (field "name" (str "shell") end))))
              end)),
    )
    ∷ (
      "arguments",
      obj (
          field "type" (str "response.function_call_arguments.delta")
            (field "item_id" (str "fc_1") (field "delta" (str "{}") end))),
    )
    ∷ (
      "stray",
      obj (
          field "type" (str "response.function_call_arguments.delta")
            (field "item_id" (str "fc_9") (field "delta" (str "{}") end))),
    )
    ∷ ("completed", obj (field "type" (str "response.completed") end))
    ∷ ("failed", obj (field "type" (str "response.failed") end))
    ∷ []

abbrev loads : String → Option Value
unfolding value_at
loads s = value_at s event_table

abbrev render : Value → String
render v = "None"

abbrev lines : List String
lines =
    "event: x" ∷ "data: added" ∷ "" ∷ "data: arguments" ∷ "data: stray" ∷ "data: completed"
    ∷ "data: [DONE]" ∷ []

calls_and_finishes :
    (stream loads render false lines).chunks
    ≡ opening
      ∷ tool_start 0 (str "fc_1") (str "shell")
      ∷ tool_arguments 0 (str "{}")
      ∷ tool_arguments 1 (str "{}")
      ∷ finish "tool_calls" none
      ∷ done
      ∷ []
unfolding stream loads
calls_and_finishes = refl

-- lines that stop before the turn is over end as a turn that is over
cut_short :
    (stream loads render false ("data: added" ∷ [])).chunks
    ≡ opening ∷ tool_start 0 (str "fc_1") (str "shell") ∷ done ∷ []
unfolding stream loads
cut_short = refl

stream-Closes_example : Closes (stream loads render false ("data: added" ∷ "data: failed" ∷ []))
stream-Closes_example = stream-Closes loads render false ("data: added" ∷ "data: failed" ∷ [])

responses_calls_numbered_example : is_numbered 0 (stream loads render false lines).chunks ≡ true
responses_calls_numbered_example = responses_calls_numbered loads render false lines
