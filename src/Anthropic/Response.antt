-- ===== src/Anthropic/Response.antt =====
-- app/proxy/chat_to_anthropic.py: `transform_anthropic_to_completions`, a whole Messages response as
-- a Chat Completions one. `dumps` is `json.dumps`. The identifier of the response and its time are
-- left out.
pub mod Sorted
pub mod Replay
pub mod Resent
mod Tests
use Prim.Native.String
use inference_proxy.Prelude.{
  String, Bool, true, false, not, ◌&&◌, ◌||◌, Option, none, some, List, [], ◌∷◌, ◌++◌, map,
  if◌then◌else◌,
}
use inference_proxy.Json.{
  Value, null, str, arr, obj, Fields, end, field, list, get, lookup, or_value, is_text,
  is_empty_text,
}
use inference_proxy.Prelude.{from_option}
use inference_proxy.Anthropic.Counts.{Usage, usage_to_chat}
use inference_proxy.Anthropic.Stream.State.{hashable}
use inference_proxy.Anthropic.Stream.Events.{finish_for}
use inference_proxy.Anthropic.Request.Result.{Result, ok, err, ◌>>=◌, crash}
use inference_proxy.Anthropic.Request.Messages.{iterated}

pub record ToolCall : Type 0 where
  pub id : Value
  pub name : Value
  pub arguments : String

-- the four lists that the loop fills
pub record Parts : Type 0 where
  pub text_parts : List Value
  pub thinking_parts : List Value
  pub thinking_blocks : List Fields
  pub tool_calls : List ToolCall

pub record Completion : Type 0 where
  pub model : String
  pub content : Option String
  pub tool_calls : List ToolCall
  pub reasoning_details : List Fields
  pub reasoning_content : String
  pub finish_reason : String
  pub usage : Option Usage

abbrev pub no_parts : Parts
no_parts = record { text_parts = []; thinking_parts = []; thinking_blocks = []; tool_calls = [] }

abbrev text_or_blank : Option Value → Value
text_or_blank o = from_option (str "") o

abbrev pub is_thought : Value → Bool
is_thought kind = is_text "thinking" kind || is_text "redacted_thinking" kind

-- "".join(parts), which raises for a part that is no text
unfoldable pub join_parts : List Value → Result String
join_parts [] = ok ""
join_parts (str s ∷ vs) = do rest ← join_parts vs; ok (String.◌++◌ s rest)
join_parts (v ∷ vs) = err crash

abbrev nonempty_text : String → Option String
nonempty_text s = if is_empty_text s then none else some s

abbrev pub usage_in : Value → Result (Option Usage)
usage_in (obj usage) = ok (usage_to_chat usage)
usage_in _ = err crash

abbrev is_call_stop : Value → Bool
is_call_stop null = true
is_call_stop reason = is_text "tool_use" reason

abbrev finish_with : List ToolCall → Value → String
finish_with [] reason = finish_for (or_value reason (str ""))
finish_with (c ∷ cs) reason =
    if is_call_stop reason then "tool_calls" else finish_for (or_value reason (str ""))

module _ (dumps : Value → String) where
  abbrev pub tool_call : Fields → ToolCall
  tool_call block = record {
    id = text_or_blank (lookup "id" block);
    name = text_or_blank (lookup "name" block);
    arguments = dumps (or_value (get "input" block) (obj end));
  }

  unfoldable pub add_block : Fields → Parts → Parts
  unfolding get lookup
  add_block block p =
      if is_text "text" (get "type" block)
      then record p { text_parts = p.text_parts ++ text_or_blank (lookup "text" block) ∷ [] }
      else if is_thought (get "type" block)
      then record p {
        thinking_blocks = p.thinking_blocks ++ block ∷ [];
        thinking_parts = p.thinking_parts ++ or_value (get "thinking" block) (str "") ∷ [];
      }
      else if is_text "tool_use" (get "type" block)
      then record p { tool_calls = p.tool_calls ++ tool_call block ∷ [] }
      else p

  abbrev pub add_value : Value → Parts → Parts
  add_value (obj block) p = add_block block p
  add_value _ p = p

  unfoldable pub add_blocks : List Value → Parts → Parts
  unfolding add_block
  add_blocks [] p = p
  add_blocks (v ∷ vs) p = add_blocks vs (add_value v p)

  unfoldable pub transform_anthropic_to_completions : Fields → String → Result Completion
  unfolding get add_blocks join_parts finish_for usage_to_chat
  transform_anthropic_to_completions payload model = do
    blocks ← iterated (get "content" payload)
    let parts = add_blocks blocks no_parts
    text ← join_parts parts.text_parts
    reasoning ← join_parts parts.thinking_parts
    usage ← usage_in (or_value (get "usage" payload) (obj end))
    if hashable (or_value (get "stop_reason" payload) (str ""))
        then ok (record {
          model = model;
          content = nonempty_text text;
          tool_calls = parts.tool_calls;
          reasoning_details = parts.thinking_blocks;
          reasoning_content = reasoning;
          finish_reason = finish_with parts.tool_calls (get "stop_reason" payload);
          usage = usage;
        })
        else err crash

abbrev pub call_value : ToolCall → Value
call_value c = obj (
    field "id" c.id (
      field "type" (str "function") (
        field "function" (obj (field "name" c.name (field "arguments" (str c.arguments) end)))
          end)))

abbrev content_value : Option String → Value
content_value none = null
content_value (some s) = str s

abbrev with_calls : List ToolCall → Fields → Fields
with_calls [] rest = rest
with_calls (c ∷ cs) rest = field "tool_calls" (list (map call_value (c ∷ cs))) rest

abbrev with_details : List Fields → Fields → Fields
with_details [] rest = rest
with_details (b ∷ bs) rest = field "reasoning_details" (list (map obj (b ∷ bs))) rest

abbrev with_reasoning : String → Fields
with_reasoning s = if is_empty_text s then end else field "reasoning_content" (str s) end

abbrev pub message_of : Option String → List ToolCall → List Fields → String → Fields
message_of content calls details reasoning = field "role" (str "assistant") (
    field "content" (content_value content)
      (with_calls calls (with_details details (with_reasoning reasoning))))

-- `message`, as it is sent
unfoldable pub message_fields : Completion → Fields
message_fields c = message_of c.content c.tool_calls c.reasoning_details c.reasoning_content
