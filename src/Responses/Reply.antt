-- ===== src/Responses/Reply.antt =====
-- app/proxy/chat_completions.py: `_map_finish_reason`, `_map_usage` and
-- `transform_response_to_completions`. `fresh` is the identifier that is made up, `created` the time.
use Prim.Native.String
use inference_proxy.Prelude.{
  String, Option, none, some, List, [], ◌∷◌, ◌++◌, ◌==◌, if◌then◌else◌, from_option,
}
use inference_proxy.Prelude.Int.{ℤ, pos, ◌+ℤ◌, is_zero}
use inference_proxy.Json.{
  Value, null, int, str, arr, obj, Fields, end, field, lookup, get, list, or_value, is_text,
}
use inference_proxy.Anthropic.Counts.{as_count}
use inference_proxy.Anthropic.Request.Result.{Result, ok, err, ◌>>=◌, collect, crash}
use inference_proxy.Anthropic.Request.Content.{join}
use inference_proxy.Anthropic.Request.Messages.{iterated}
use inference_proxy.Responses.Body.{formatted}

abbrev finish_named : String → String
finish_named status = if status == "incomplete" then "length" else "stop"

-- a status that cannot be hashed raises
unfoldable pub map_finish_reason : Value → Result String
map_finish_reason (str status) = ok (finish_named status)
map_finish_reason (arr vs) = err crash
map_finish_reason (obj fs) = err crash
map_finish_reason _ = ok "stop"

-- `(d.get(key) or {}).get(name)` as a count
abbrev pub count_at : String → Value → Result (Option ℤ)
count_at name (obj details) = ok (as_count (get name details))
count_at name _ = err crash

abbrev pub detail : String → String → Fields → Result (Option ℤ)
detail key name usage = count_at name (or_value (get key usage) (obj end))

abbrev pub or_zero : Option ℤ → ℤ
or_zero n = from_option (pos 0) n

abbrev pub with_detail : String → String → Option ℤ → Fields
with_detail key name none = end
with_detail key name (some n) = field key (obj (field name (int n) end)) end

abbrev pub appended : Fields → Fields → Fields
appended end rest = rest
appended (field k v fs) rest = field k v (appended fs rest)

abbrev pub usage_object : ℤ → ℤ → Option ℤ → Option ℤ → Option ℤ → Fields
usage_object prompt completion total cached reasoning = field "prompt_tokens" (int prompt) (
    field "completion_tokens" (int completion) (
      field "total_tokens" (int (from_option (prompt +ℤ completion) total)) (
        appended (with_detail "prompt_tokens_details" "cached_tokens" cached)
          (with_detail "completion_tokens_details" "reasoning_tokens" reasoning))))

abbrev pub counted : Fields → Option ℤ → Result (Option Fields)
counted usage none = ok none
counted usage (some prompt) = if is_zero prompt then ok none else (do
  cached ← detail "input_tokens_details" "cached_tokens" usage
  reasoning ← detail "output_tokens_details" "reasoning_tokens" usage
  ok (
      some (
        usage_object prompt (or_zero (as_count (get "output_tokens" usage)))
          (as_count (get "total_tokens" usage)) cached reasoning)))

-- the usage of a reply, `none` where the upstream reported none
unfoldable pub map_usage : Value → Result (Option Fields)
unfolding as_count get ◌+ℤ◌
map_usage (obj usage) = counted usage (as_count (get "input_tokens" usage))
map_usage _ = ok none

abbrev pub text_at : String → Fields → Value
text_at name fs = from_option (str "") (lookup name fs)

-- what the loop over the output takes of an item
pub record Taken : Type 0 where
  pub parts : List Value
  pub tool_calls : List Value

abbrev pub part_text : Value → List Value
part_text (obj part) =
    if is_text "output_text" (get "type" part) then text_at "text" part ∷ [] else []
part_text _ = []

unfoldable pub part_texts : List Value → List Value
unfolding get lookup
part_texts [] = []
part_texts (v ∷ vs) = part_text v ++ part_texts vs

abbrev pub call_of : Fields → Value
call_of item = obj (
    field "id" (or_value (get "call_id" item) (or_value (get "id" item) (str ""))) (
      field "type" (str "function") (
        field "function"
          (obj (
            field "name" (text_at "name" item)
              (field "arguments" (or_value (get "arguments" item) (str "{}")) end)))
          end)))

unfoldable pub take_item : Value → Result Taken
unfolding get lookup part_texts
take_item (obj item) =
    if is_text "message" (get "type" item)
    then (do
      content ← iterated (or_value (get "content" item) (list []))
      ok (record { parts = part_texts content; tool_calls = [] }))
    else if is_text "function_call" (get "type" item)
    then ok (record { parts = []; tool_calls = call_of item ∷ [] })
    else ok (record { parts = []; tool_calls = [] })
take_item _ = ok (record { parts = []; tool_calls = [] })

unfoldable pub take_items : List Value → Result Taken
unfolding take_item
take_items [] = ok (record { parts = []; tool_calls = [] })
take_items (v ∷ vs) = do
  here ← take_item v
  rest ← take_items vs
  ok (record { parts = here.parts ++ rest.parts; tool_calls = here.tool_calls ++ rest.tool_calls })

-- `"".join(parts)`
abbrev joined : Value → Result (List String)
joined (str s) = ok (s ∷ [])
joined _ = err crash

unfoldable pub join_parts : List Value → Result String
unfolding collect join
join_parts parts = do texts ← collect joined parts; ok (join texts)

unfoldable pub content_or_parts : Value → List Value → Result Value
unfolding join_parts
content_or_parts null parts = do text ← join_parts parts; ok (str text)
content_or_parts v parts = ok v

abbrev pub message_with : Value → List Value → Fields
message_with content [] = field "role" (str "assistant") (field "content" content end)
message_with content (c ∷ cs) =
    field "role" (str "assistant")
      (field "content" content (field "tool_calls" (list (c ∷ cs)) end))

abbrev pub finish_with : String → List Value → String
finish_with reason [] = reason
finish_with reason (c ∷ cs) = if reason == "stop" then "tool_calls" else reason

abbrev pub usage_field : Option Fields → Fields
usage_field none = end
usage_field (some usage) = field "usage" (obj usage) end

module _ (render : Value → String) (fresh : String) (created : Value) where
  abbrev completion : Fields → String → Value → List Value → String → Option Fields → Fields
  completion reply model content calls reason usage =
      field "id"
        (str (
          String.◌++◌ "chatcmpl-"
            (formatted render render (from_option (str fresh) (lookup "id" reply)))))
        (field "object" (str "chat.completion") (
          field "created" created (
            field "model" (str model) (
              field "choices"
                (list (
                  obj (
                    field "index" (int (pos 0)) (
                      field "message" (obj (message_with content calls))
                        (field "finish_reason" (str (finish_with reason calls)) end)))
                  ∷ []))
                (usage_field usage)))))

  unfoldable pub transform_response_to_completions : Fields → String → Result Fields
  unfolding get lookup take_items content_or_parts map_finish_reason map_usage
  transform_response_to_completions reply model = do
    output ← iterated (or_value (get "output" reply) (list []))
    taken ← take_items output
    content ← content_or_parts (get "output_text" reply) taken.parts
    reason ← map_finish_reason (from_option (str "completed") (lookup "status" reply))
    usage ← map_usage (get "usage" reply)
    ok (completion reply model content taken.tool_calls reason usage)
