-- ===== src/Responses/Body.antt =====
-- app/proxy/chat_completions.py: `transform_to_responses_format`.
use Prim.Native.String
use inference_proxy.Prelude.{
  String, Bool, false, ◌||◌, Option, none, some, List, [], ◌∷◌, ◌++◌, if◌then◌else◌, from_option,
}
use inference_proxy.Json.{
  Value, null, bool, str, arr, obj, Fields, end, field, lookup, get, has, put, items, list, truthy,
  is_text,
}
use inference_proxy.Anthropic.Request.Result.{Result, ok, err, ◌>>=◌, crash}
use inference_proxy.Responses.Tools.{responses_tools, responses_tool_choice}
use inference_proxy.Responses.Items.{responses_input_items}

-- `instructions` and `conversation`
pub record Sorted : Type 0 where
  pub instructions : Value
  pub conversation : List Value

-- `request.get("messages", [])`, over which the loop goes: a text or a dict gives texts
abbrev pub messages_of : Option Value → Result (List Value)
messages_of none = ok []
messages_of (some (arr vs)) = ok (items vs)
messages_of (some (str s)) = ok []
messages_of (some (obj fs)) = ok []
messages_of (some _) = err crash

abbrev is_system : Fields → Bool
is_system msg = is_text "system" (get "role" msg) || is_text "developer" (get "role" msg)

abbrev or_empty : Option Value → Value
or_empty o = from_option (str "") o

abbrev pub with_tools : List Value → Option Value → Fields → Fields
with_tools [] choice body = body
with_tools (t ∷ ts) none body = put "tools" (list (t ∷ ts)) body
with_tools (t ∷ ts) (some choice) body = put "tool_choice" choice (put "tools" (list (t ∷ ts)) body)

-- one turn of the loop over `param_map`
abbrev pub carry : String → String → Fields → Fields → Fields
carry source target request body =
    if has source request then put target (get source request) body else body

unfoldable pub parameters : Fields → Fields → Fields
unfolding get has put
parameters request body = carry "frequency_penalty" "frequency_penalty" request (
    carry "presence_penalty" "presence_penalty" request (
      carry "stop" "stop" request (
        carry "top_p" "top_p" request (
          carry "max_tokens" "max_output_tokens" request
            (carry "temperature" "temperature" request body)))))

module _ (dumps render : Value → String) where
  -- a value in an f-string
  abbrev pub formatted : Value → String
  formatted (str s) = s
  formatted v = render v

  abbrev pub add_line : Value → Value → Value
  add_line instructions content =
      if truthy instructions
      then str (String.◌++◌ (formatted instructions) (String.◌++◌ "\n" (formatted content)))
      else content

  abbrev pub sort_message : Value → Sorted → Sorted
  sort_message (obj msg) s =
      if is_system msg
      then record s { instructions = add_line s.instructions (or_empty (lookup "content" msg)) }
      else record s { conversation = s.conversation ++ obj msg ∷ [] }
  sort_message v s = record s { conversation = s.conversation ++ v ∷ [] }

  unfoldable pub sort_messages : List Value → Sorted → Sorted
  unfolding lookup get
  sort_messages [] s = s
  sort_messages (v ∷ vs) s = sort_messages vs (sort_message v s)

  abbrev instructed : Value → Fields → Fields
  instructed instructions body =
      if truthy instructions then put "instructions" instructions body else body

  abbrev pub assemble : Fields → Value → String → Value → List Value → Fields
  unfolding parameters get put responses_tools responses_tool_choice
  assemble request streaming model instructions converted = parameters request (
      with_tools (responses_tools (get "tools" request))
        (responses_tool_choice (get "tool_choice" request))
        (instructed instructions (
          field "model" (str model) (
            field "input" (list converted)
              (field "stream" (streaming) (field "store" (bool false) end))))))

  unfoldable pub transform_to_responses_format : Fields → Value → String → Result Fields
  unfolding lookup sort_messages responses_input_items assemble
  transform_to_responses_format request streaming model = do
    messages ← messages_of (lookup "messages" request)
    let sorted = sort_messages messages (record { instructions = null; conversation = [] })
    converted ← responses_input_items dumps sorted.conversation
    ok (assemble request streaming model sorted.instructions converted)
