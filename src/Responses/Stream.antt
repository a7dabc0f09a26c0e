-- ===== src/Responses/Stream.antt =====
-- app/proxy/chat_completions.py: `stream_responses_to_completions`. A chunk is kept without its
-- identifier, its time, its model and the text of its JSON. `render` is `str` of a value that is no
-- text. A list of pairs, which `dict.update` would also take for a usage, counts as no dict.
use inference_proxy.Prelude.{
  ℕ, ◌+◌, String, Bool, true, false, ◌&&◌, Option, none, some, List, [], ◌∷◌, ◌==◌, if◌then◌else◌,
}
use inference_proxy.Json.{
  Value, str, obj, Fields, end, field, get, lookup, put, or_value, is_text, is_empty_text,
}
use inference_proxy.Anthropic.Stream.State.{hashable, index_of}
use inference_proxy.Anthropic.Request.Result.{Result, ok, err}
use inference_proxy.Overflow.{overflow_message, overflow_error}
use inference_proxy.Responses.Body.{formatted}
use inference_proxy.Responses.Reply.{map_finish_reason, map_usage, text_at}

pub data Chunk : Type 0 where
  opening done : Chunk
  content : Value → Chunk
  tool_start : ℕ → Value → Value → Chunk
  tool_arguments : ℕ → Value → Chunk
  finish : String → Option Fields → Chunk
  error : Fields → Chunk

-- the loop's variables, and `usage_holder`
pub record State : Type 0 where
  pub usage_holder : Fields
  pub tool_index_for_item : List (Value × ℕ)
  pub next_tool_index : ℕ
  pub saw_tool_call : Bool

abbrev pub start : State
start = record {
  usage_holder = end;
  tool_index_for_item = [];
  next_tool_index = 0;
  saw_tool_call = false;
}

-- what an event leads to: the next line, the `return` after an error chunk, or an exception
pub data Flow : Type 0 where
  next : State → List Chunk → Flow
  fail : State → Fields → Flow
  crash : State → Flow

pub data Kind : Type 0 where
  item_added arguments_delta text_delta completed incomplete failed error other : Kind

kind_named : String → Kind
kind_named k =
    if k == "response.output_item.added"
    then item_added
    else if k == "response.function_call_arguments.delta"
    then arguments_delta
    else if k == "response.output_text.delta"
    then text_delta
    else if k == "response.completed"
    then completed
    else if k == "response.incomplete"
    then incomplete
    else if k == "response.failed"
    then failed
    else if k == "error"
    then error
    else other

unfoldable pub kind_of : Value → Kind
unfolding kind_named
kind_of (str k) = kind_named k
kind_of _ = other

abbrev pub part : String → Fields → Value
part key event = or_value (get key event) (obj end)

abbrev pub with_dict : Value → State → (Fields → Flow) → Flow
with_dict (obj fs) s k = k fs
with_dict _ s k = crash s

-- the next number goes to the item
abbrev pub claim : Value → State → State
claim key s = record s {
  tool_index_for_item = (key, s.next_tool_index) ∷ s.tool_index_for_item;
  next_tool_index = s.next_tool_index + 1;
  saw_tool_call = true;
}

abbrev pub delta_for : Value → Value → Option ℕ → State → Flow
delta_for key json none s = next (claim key s) (tool_arguments s.next_tool_index json ∷ [])
delta_for key json (some index) s = next s (tool_arguments index json ∷ [])

-- `usage_holder.update(..)`
unfoldable pub merge : Fields → Fields → Fields
unfolding put
merge end held = held
merge (field k v rest) held = merge rest (put k v held)

unfoldable pub hold : Value → State → Option State
unfolding merge
hold (obj usage) s = some (record s { usage_holder = merge usage s.usage_holder })
hold _ s = none

abbrev pub finish_reason : Bool → String → String
finish_reason saw_tool_call reason =
    if saw_tool_call && (reason == "stop") then "tool_calls" else reason

abbrev pub finished : State → Result (Option Fields) → String → Flow
finished s (err e) reason = crash s
finished s (ok usage) reason = next s (finish (finish_reason s.saw_tool_call reason) usage ∷ [])

unfoldable pub with_reason : State → Value → Result String → Flow
unfolding map_usage
with_reason s usage (err e) = crash s
with_reason s usage (ok reason) = finished s (map_usage usage) reason

abbrev pub with_usage : Option State → State → (State → Flow) → Flow
with_usage none before k = crash before
with_usage (some s) before k = k s

abbrev or_word : String → Value → Value
or_word word v = or_value v (str word)

module _ (loads : String → Option Value) (render : Value → String) where
  -- `event.get(..) or .. or str(event.get("output_index"))`
  abbrev pub or_position : Fields → Value → Value
  or_position event v = or_value v (str (formatted render render (get "output_index" event)))

  abbrev pub item_key : Fields → Fields → Value
  item_key event item = or_value (get "id" item) (or_position event (get "call_id" item))

  unfoldable pub open_call : Fields → Fields → State → Flow
  unfolding get lookup
  open_call event item s =
      if hashable (item_key event item)
      then next (claim (item_key event item) s) (
          tool_start s.next_tool_index
            (or_value (get "call_id" item) (or_value (get "id" item) (str "")))
            (text_at "name" item)
          ∷ [])
      else crash s

  unfoldable pub on_arguments : Value → Value → State → Flow
  unfolding index_of
  on_arguments key json s =
      if hashable key then delta_for key json (index_of key s.tool_index_for_item) s else crash s

  -- the end of a turn; `status` is what it comes to where the response names none
  unfoldable pub on_completed : String → Fields → State → Flow
  unfolding get hold map_finish_reason with_reason
  on_completed status response s = with_usage (hold (part "usage" response) s) s λ held.
      with_reason held (get "usage" response)
        (map_finish_reason (or_word status (get "status" response)))

  abbrev pub failure_fields : Value → Fields
  failure_fields (obj failure) = failure
  failure_fields v =
      field "message" (str (formatted render render (or_word "upstream stream error" v))) end

  abbrev plain_error : Fields → Fields
  plain_error failure = field "message" (or_word "upstream stream error" (get "message" failure)) (
      field "type" (or_word "api_error" (get "type" failure))
        (field "code" (get "code" failure) end))

  abbrev named_error : Fields → Option String → Fields
  unfolding overflow_error
  named_error failure none = plain_error failure
  named_error failure (some sentence) =
      if is_empty_text sentence then plain_error failure else overflow_error sentence

  unfoldable pub on_failure : Value → State → Flow
  unfolding named_error overflow_message get
  on_failure failure s =
      fail s (
        named_error (failure_fields failure)
          (overflow_message loads (obj (failure_fields failure))))

  unfoldable pub on_event : Kind → Fields → State → Flow
  unfolding get lookup open_call on_arguments on_completed on_failure
  on_event item_added event s = with_dict (part "item" event) s λ item.
      if is_text "function_call" (get "type" item) then open_call event item s else next s []
  on_event arguments_delta event s =
      on_arguments (or_position event (get "item_id" event)) (text_at "delta" event) s
  on_event text_delta event s = next s (content (text_at "delta" event) ∷ [])
  on_event completed event s = with_dict (part "response" event) s λ r. on_completed "completed" r s
  on_event incomplete event s =
      with_dict (part "response" event) s λ r. on_completed "incomplete" r s
  on_event failed event s = with_dict (part "response" event) s λ r. on_failure (get "error" r) s
  on_event error event s = on_failure (get "error" event) s
  on_event other event s = next s []

  unfoldable pub step : Fields → State → Flow
  unfolding get kind_of on_event
  step event s = on_event (kind_of (get "type" event)) event s
