-- ===== src/Anthropic/Request/Tests.antt =====
-- A request of app/proxy/chat_to_anthropic.py, translated.
use inference_proxy.Prelude.{ℕ, String, true, Option, none, some, List, [], ◌∷◌, ◌≡◌, refl, arith}
use inference_proxy.Prelude.Int.{pos}
use inference_proxy.Json.{bool, Value, int, str, obj, Fields, end, field, get, list}
use inference_proxy.Anthropic.Request.Result.{ok}
use inference_proxy.Anthropic.Request.Content.{text, tool_result}
use inference_proxy.Anthropic.Request.Messages.{user, iterated}
use inference_proxy.Anthropic.Request.Thinking.{requested_budget}
use inference_proxy.Anthropic.Request.Body.{Body, ceiling, transform_to_anthropic_messages}
use inference_proxy.Anthropic.Request.Budget.{Fits, Sampled, thinking_under_ceiling}
use inference_proxy.Anthropic.Request.Turns.{
  well_formed, messages_well_formed, results_in_order, expected, tool_results_kept,
}

abbrev write : Value → String
write v = "{}"

abbrev read : String → Option Value
read s = none

abbrev minted : ℕ → ℕ → String
minted i j = "call"

abbrev result_message : String → Value
result_message id =
    obj
      (field "role" (str "tool") (field "tool_call_id" (str id) (field "content" (str "done") end)))

abbrev messages : List Value
messages =
    obj (field "role" (str "system") (field "content" (str "be brief") end))
    ∷ obj (field "role" (str "user") (field "content" (str "hi") end))
    ∷ result_message "a"
    ∷ result_message "b"
    ∷ []

abbrev request : Fields
request =
    field "messages" (list messages)
      (field "max_tokens" (int (pos 9000)) (field "reasoning_effort" (str "high") end))

abbrev sent : Body
sent = record {
  model = "m";
  messages =
      record { role = user; content = text "hi" ∷ [] }
      ∷ record {
        role = user;
        content = tool_result (str "a") "done" ∷ tool_result (str "b") "done" ∷ [];
      }
      ∷ [];
  max_tokens = int (pos 9000);
  stream = bool true;
  system = some "be brief";
  budget = some (int (pos 4904));
  temperature = none;
  top_p = none;
  stop_sequences = [];
  tools = [];
  tool_choice = none;
}

translated : transform_to_anthropic_messages write read minted request (bool true) "m" ≡ ok sent
unfolding transform_to_anthropic_messages
translated = refl

capped : ceiling request ≡ int (pos 9000)
unfolding get
capped = refl

wanted : requested_budget request ≡ some 16384
unfolding requested_budget
wanted = refl

listed : iterated (get "messages" request) ≡ ok messages
unfolding get
listed = refl

thinking_under_ceiling_example :
    (sent.max_tokens ≡ int (pos 9000)) × Fits 9000 16384 sent.budget × Sampled request sent
thinking_under_ceiling_example =
    thinking_under_ceiling write read minted request (bool true) "m" sent 9000 16384 translated
      capped (omega arith) wanted

messages_well_formed_example : well_formed sent.messages ≡ true
messages_well_formed_example =
    messages_well_formed write read minted request (bool true) "m" sent translated

tool_results_kept_example :
    results_in_order write read minted sent.messages ≡ expected write read minted messages
tool_results_kept_example =
    tool_results_kept write read minted request (bool true) "m" sent messages listed translated
