-- ===== src/Responses/Items.antt =====
-- app/proxy/chat_completions.py: `_responses_input_items`.
use inference_proxy.Prelude.{String, true, ◌&&◌, List, [], ◌∷◌, ◌++◌, if◌then◌else◌}
use inference_proxy.Json.{
  Value, null, str, arr, obj, Fields, end, field, get, put, or_value, truthy, is_text,
}
use inference_proxy.Anthropic.Request.Result.{Result, ok, err, ◌>>=◌, collect, crash}
use inference_proxy.Anthropic.Request.Messages.{iterated}
use inference_proxy.Responses.Content.{responses_content}

abbrev pub output_item : Value → Value → Value
output_item id output =
    obj (field "type" (str "function_call_output") (field "call_id" id (field "output" output end)))

abbrev pub call_item : Value → Value → Value → Value
call_item id name arguments = obj (
    field "type" (str "function_call")
      (field "call_id" id (field "name" name (field "arguments" arguments end))))

abbrev pub or_nothing : Value → Value
or_nothing v = or_value v (str "")

-- what a message is to the loop
pub data Turn : Type 0 where
  tool calling plain : Turn

unfoldable pub turn_of : Fields → Turn
unfolding get
turn_of msg =
    if is_text "tool" (get "role" msg)
    then tool
    else if is_text "assistant" (get "role" msg) && truthy (get "tool_calls" msg)
    then calling
    else plain

module _ (dumps : Value → String) where
  abbrev pub output_text : Value → Value
  output_text (str s) = str s
  output_text null = str ""
  output_text v = str (dumps v)

  abbrev pub arguments_text : Value → Value
  arguments_text (str s) = str s
  arguments_text v = str (dumps (or_value v (obj end)))

  abbrev pub called : Fields → Value → Result (List Value)
  called call (obj fn) = ok (
      call_item (or_nothing (get "id" call)) (or_nothing (get "name" fn))
        (arguments_text (get "arguments" fn))
      ∷ [])
  called call _ = err crash

  unfoldable pub call_items : Value → Result (List Value)
  unfolding get
  call_items (obj call) = called call (or_value (get "function" call) (obj end))
  call_items _ = ok []

  -- the text of an assistant turn that also calls tools
  unfoldable pub spoken : Value → Result (List Value)
  unfolding responses_content
  spoken content =
      if truthy content
      then (do
        said ← responses_content true content
        ok (obj (field "role" (str "assistant") (field "content" said end)) ∷ []))
      else ok []

  unfoldable pub converted : Fields → Value → Result (List Value)
  unfolding responses_content put
  converted msg (arr parts) = do
    content ← responses_content (is_text "assistant" (get "role" msg)) (arr parts)
    ok (obj (put "content" content msg) ∷ [])
  converted msg _ = ok (obj msg ∷ [])

  unfoldable pub turn_items : Turn → Fields → Result (List Value)
  unfolding get call_items collect spoken converted
  turn_items tool msg = ok (
      output_item (or_value (get "tool_call_id" msg) (or_nothing (get "id" msg)))
        (output_text (get "content" msg))
      ∷ [])
  turn_items calling msg = do
    said ← spoken (get "content" msg)
    calls ← iterated (get "tool_calls" msg)
    made ← collect call_items calls
    ok (said ++ made)
  turn_items plain msg = converted msg (get "content" msg)

  unfoldable pub message_items : Value → Result (List Value)
  unfolding turn_items turn_of
  message_items (obj msg) = turn_items (turn_of msg) msg
  message_items _ = ok []

  unfoldable pub responses_input_items : List Value → Result (List Value)
  unfolding message_items collect
  responses_input_items messages = collect message_items messages
