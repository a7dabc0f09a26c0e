-- ===== src/Anthropic/Response/Tests.antt =====
-- A response of app/proxy/chat_to_anthropic.py with a thought and a call, and its usage.
use inference_proxy.Prelude.{
  ◌⊎◌, false, ℕ, String, Option, none, some, List, [], ◌∷◌, ◌≡◌, refl, ◌==◌, if◌then◌else◌,
}
use inference_proxy.Prelude.Int.{pos, ◌+ℤ◌, ◌-ℤ◌}
use inference_proxy.Json.{bool, Value, int, str, obj, Fields, end, field, get, list}
use inference_proxy.Anthropic.Counts.{Usage, or_zero, usage_to_chat}
use inference_proxy.Anthropic.Counts.Totals.{reported, usage_to_chat_lem}
use inference_proxy.Anthropic.Request.Result.{ok}
use inference_proxy.Anthropic.Request.Content.{thinking}
use inference_proxy.Anthropic.Request.Messages.{iterated}
use inference_proxy.Anthropic.Request.Messages.{Turn, user, assistant}
use inference_proxy.Anthropic.Request.Content.{text, tool_use}
use inference_proxy.Anthropic.Request.Body.{Body, transform_to_anthropic_messages}
use inference_proxy.Anthropic.Response.{
  Completion, transform_anthropic_to_completions, message_fields,
}
use inference_proxy.Anthropic.Response.Sorted.{thoughts, called}
use inference_proxy.Anthropic.Response.Resent.{Resends, response_replayed}

abbrev input : Fields
input = field "path" (str "/") end

abbrev write : Value → String
write v = "i"

abbrev read : String → Option Value
read s = if s == "i" then some (obj input) else none

abbrev minted : ℕ → ℕ → String
minted i j = "call"

abbrev thought : Fields
thought =
    field "type" (str "thinking") (field "thinking" (str "hm") (field "signature" (str "s") end))

abbrev call : Fields
call =
    field "type" (str "tool_use")
      (field "id" (str "t1") (field "name" (str "ls") (field "input" (obj input) end)))

abbrev blocks : List Value
blocks = obj thought ∷ obj (field "type" (str "text") (field "text" (str "so") end)) ∷ obj call ∷ []

abbrev counted : Fields
counted =
    field "input_tokens" (int (pos 3))
      (field "cache_read_input_tokens" (int (pos 40)) (field "output_tokens" (int (pos 5)) end))

abbrev chat_usage : Usage
chat_usage = record {
  prompt_tokens = pos 43;
  completion_tokens = pos 5;
  total_tokens = pos 48;
  cached_tokens = some (pos 40);
  cache_write_tokens = none;
}

abbrev payload : Fields
payload =
    field "content" (list blocks)
      (field "stop_reason" (str "tool_use") (field "usage" (obj counted) end))

abbrev made : Completion
made = record {
  model = "m";
  content = some "so";
  tool_calls = (record { id = str "t1"; name = str "ls"; arguments = "i" }) ∷ [];
  reasoning_details = thought ∷ [];
  reasoning_content = "hm";
  finish_reason = "tool_calls";
  usage = some chat_usage;
}

counts : usage_to_chat counted ≡ some chat_usage
unfolding usage_to_chat
counts = refl

usage_to_chat_lem_example :
    (chat_usage.prompt_tokens
        -ℤ (or_zero chat_usage.cached_tokens +ℤ or_zero chat_usage.cache_write_tokens)
      ≡ reported "input_tokens" counted)
    × (chat_usage.completion_tokens ≡ reported "output_tokens" counted)
    × (chat_usage.total_tokens ≡ chat_usage.prompt_tokens +ℤ chat_usage.completion_tokens)
usage_to_chat_lem_example = usage_to_chat_lem counted chat_usage counts

listed : iterated (get "content" payload) ≡ ok blocks
unfolding get
listed = refl

translated : transform_anthropic_to_completions write payload "m" ≡ ok made
unfolding transform_anthropic_to_completions
translated = refl

abbrev question : Value
question = obj (field "role" (str "user") (field "content" (str "hi") end))

abbrev request : Fields
unfolding message_fields
request = field "messages" (list (question ∷ obj (message_fields made) ∷ [])) end

abbrev answer : Turn
answer = record {
  role = assistant;
  content = thinking thought ∷ text "so" ∷ tool_use (str "t1") (str "ls") input ∷ [];
}

abbrev sent : Body
sent = record {
  model = "m";
  messages = (record { role = user; content = text "hi" ∷ [] }) ∷ answer ∷ [];
  max_tokens = int (pos 8192);
  stream = bool false;
  system = none;
  budget = none;
  temperature = none;
  top_p = none;
  stop_sequences = [];
  tools = [];
  tool_choice = none;
}

among : iterated (get "messages" request) ≡ ok (question ∷ obj (message_fields made) ∷ [])
unfolding get request message_fields
among = refl

resent : transform_to_anthropic_messages write read minted request (bool false) "m" ≡ ok sent
unfolding transform_to_anthropic_messages request message_fields
resent = refl

response_replayed_example :
    ((thoughts blocks ≡ []) × (called blocks ≡ []))
    ⊎ Resends write read minted made blocks sent.messages
unfolding get
response_replayed_example =
    response_replayed write read minted payload "m" blocks made request (bool false) "m" sent
      (question ∷ []) [] listed translated ((refl, refl, refl, refl, refl), tt) among resent
