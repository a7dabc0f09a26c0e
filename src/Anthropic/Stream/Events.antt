-- ===== src/Anthropic/Stream/Events.antt =====
-- app/proxy/chat_to_anthropic.py: what the loop does with one event.
use Prim.Native.String
use inference_proxy.Prelude.{
  ℕ, ◌+◌, String, true, Option, none, some, List, [], ◌∷◌, ◌==◌, if◌then◌else◌, from_option,
}
use inference_proxy.Json.{
  Value, str, obj, Fields, end, field, lookup, get, or_value, truthy, is_text,
}
use inference_proxy.Overflow.{overflow_message, overflow_error}
use inference_proxy.Anthropic.Stream.State.{
  Chunk, content, reasoning, tool_start, tool_arguments, State, record_usage, hashable, index_of,
}

-- What a round of the loop leads to: the next round, a `break`, or an exception.
pub data Flow : Type 0 where
  next : State → List Chunk → Flow
  stop : State → Flow
  crash : State → Flow

pub data Kind : Type 0 where
  message_start content_block_start content_block_delta message_delta message_stop error other :
      Kind

kind_named : String → Kind
kind_named k =
    if k == "message_start"
    then message_start
    else if k == "content_block_start"
    then content_block_start
    else if k == "content_block_delta"
    then content_block_delta
    else if k == "message_delta"
    then message_delta
    else if k == "message_stop"
    then message_stop
    else if k == "error"
    then error
    else other

unfoldable pub kind_of : Value → Kind
unfolding kind_named
kind_of (str k) = kind_named k
kind_of _ = other

-- `(event.get(key) or {})`, on which the code calls `.get`
abbrev pub part : String → Fields → Value
part key event = or_value (get key event) (obj end)

abbrev pub with_dict : Value → State → (Fields → Flow) → Flow
with_dict (obj fs) s k = k fs
with_dict _ s k = crash s

-- `d.get(key, "")`
abbrev text_at : String → Fields → Value
text_at key fs = from_option (str "") (lookup key fs)

unfoldable pub open_tool : Fields → Fields → State → Flow
unfolding lookup get
open_tool event block s =
    if hashable (get "index" event)
    then next
        (record s {
          saw_tool_use = true;
          tool_index_for_block = (get "index" event, s.next_tool_index) ∷ s.tool_index_for_block;
          next_tool_index = s.next_tool_index + 1;
        })
        (tool_start s.next_tool_index (text_at "id" block) (text_at "name" block) ∷ [])
    else crash s

abbrev nonempty : (Value → Chunk) → Value → List Chunk
nonempty chunk text = if truthy text then chunk text ∷ [] else []

abbrev arguments_for : Option ℕ → Value → List Chunk
arguments_for none json = []
arguments_for (some index) json = tool_arguments index json ∷ []

pub data DeltaKind : Type 0 where
  text_delta thinking_delta input_json_delta other_delta : DeltaKind

delta_named : String → DeltaKind
delta_named k =
    if k == "text_delta"
    then text_delta
    else if k == "thinking_delta"
    then thinking_delta
    else if k == "input_json_delta"
    then input_json_delta
    else other_delta

unfoldable pub delta_kind : Value → DeltaKind
unfolding delta_named
delta_kind (str k) = delta_named k
delta_kind _ = other_delta

unfoldable pub on_delta : DeltaKind → Fields → Fields → State → Flow
unfolding lookup get index_of
on_delta text_delta event delta s = next s (nonempty content (text_at "text" delta))
on_delta thinking_delta event delta s = next s (nonempty reasoning (text_at "thinking" delta))
on_delta input_json_delta event delta s =
    if hashable (get "index" event)
    then next s (
        arguments_for (index_of (get "index" event) s.tool_index_for_block)
          (text_at "partial_json" delta))
    else crash s
on_delta other_delta event delta s = next s []

abbrev pub context_overflow_stop : String
context_overflow_stop = "model_context_window_exceeded"

finish_named : String → String
finish_named reason =
    if reason == "max_tokens"
    then "length"
    else if reason == "tool_use"
    then "tool_calls"
    else if reason == "refusal"
    then "content_filter"
    else "stop"

-- `_FINISH_FOR_STOP_REASON.get(stop_reason, "stop")`
unfoldable pub finish_for : Value → String
unfolding finish_named
finish_for (str reason) = finish_named reason
finish_for _ = "stop"

unfoldable pub overflow_sentence : String → String
overflow_sentence model =
    String.◌++◌ model
      " reached its context window mid-turn (stop_reason model_context_window_exceeded)"

unfoldable pub on_stop_reason : String → Value → State → Flow
unfolding overflow_error overflow_sentence
on_stop_reason model reason s =
    if is_text context_overflow_stop reason
    then stop (record s { failed = some (obj (overflow_error (overflow_sentence model))) })
    else if truthy reason
    then (if hashable reason
        then next (record s { finish_reason = finish_for reason; ended = true }) []
        else crash s)
    else next s []

abbrev or_overflow : Value → Option String → Value
or_overflow failed none = failed
or_overflow failed (some sentence) = obj (overflow_error sentence)

abbrev upstream_error : Value
upstream_error = obj (field "message" (str "upstream stream error") end)

module _ (loads : String → Option Value) (model : String) where
  unfoldable pub on_event : Kind → Fields → State → Flow
  unfolding get record_usage open_tool delta_kind on_delta on_stop_reason overflow_message
      overflow_error
  on_event message_start event s =
      with_dict (part "message" event) s λ message. next (record_usage (get "usage" message) s) []
  on_event content_block_start event s =
      with_dict (part "content_block" event) s λ block.
        if is_text "tool_use" (get "type" block) then open_tool event block s else next s []
  on_event content_block_delta event s =
      with_dict (part "delta" event) s
        λ delta. on_delta (delta_kind (get "type" delta)) event delta s
  on_event message_delta event s =
      with_dict (part "delta" event) s
        λ delta. on_stop_reason model (get "stop_reason" delta) (record_usage (get "usage" event) s)
  on_event message_stop event s =
      next (record (record_usage (get "usage" event) s) { ended = true }) []
  on_event error event s =
      let failed = or_value (get "error" event) upstream_error in
      stop (record s { failed = some (or_overflow failed (overflow_message loads failed)) })
  on_event other event s = next s []

  unfoldable pub step : Fields → State → Flow
  unfolding get kind_of on_event
  step event s = on_event (kind_of (get "type" event)) event s
