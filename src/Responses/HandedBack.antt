-- ===== src/Responses/HandedBack.antt =====
-- The tool calls of a Responses reply, and the same calls in the caller's next request, of
-- app/proxy/chat_completions.py.
use inference_proxy.Prelude.{String, false, some, if◌then◌else◌, List, [], ◌∷◌, map, ◌≡◌}
use inference_proxy.Json.{is_text, Value, str, obj, Fields, end, field, get, lookup, is_empty_text}
use inference_proxy.Anthropic.Request.Result.{◌>>=◌}
use inference_proxy.Responses.Items.{call_item}
use inference_proxy.Responses.Reply.{Taken, call_of}

pub record Call : Type 0 where
  pub id : String
  pub name : String
  pub arguments : String

abbrev IsFull : String → Type 0
IsFull s = is_empty_text s ≡ false

-- the item is a function call with these three texts, none of them empty
unfoldable pub IsCall : Fields → Call → Type 0
unfolding get lookup
IsCall item c =
    (get "type" item ≡ str "function_call")
    × (get "call_id" item ≡ str c.id)
    × (lookup "name" item ≡ some (str c.name))
    × (get "arguments" item ≡ str c.arguments)
    × IsFull c.id
    × IsFull c.name
    × IsFull c.arguments

unfoldable pub AreCalls : List Fields → List Call → Type 0
unfolding IsCall
AreCalls [] [] = Unit
AreCalls (item ∷ its) (c ∷ cs) = IsCall item c × AreCalls its cs
AreCalls _ _ = ⊥

-- as Chat Completions has it
abbrev pub chat_call : Call → Value
chat_call c = obj (
    field "id" (str c.id) (
      field "type" (str "function") (
        field "function" (obj (field "name" (str c.name) (field "arguments" (str c.arguments) end)))
          end)))

-- as the Responses API has it
abbrev pub function_call : Call → Value
function_call c = call_item (str c.id) (str c.name) (str c.arguments)

abbrev takes : List Value → Taken
takes calls = record { parts = []; tool_calls = calls }

-- the function calls among the items of a reply
unfoldable pub calls_in : List Value → List Fields
unfolding get
calls_in [] = []
calls_in (obj item ∷ vs) =
    if is_text "function_call" (get "type" item) then item ∷ calls_in vs else calls_in vs
calls_in (v ∷ vs) = calls_in vs

abbrev Takes : Value → Taken → Type 0
unfolding calls_in
Takes v here = here.tool_calls ≡ map call_of (calls_in (v ∷ []))

module _ (dumps : Value → String) where
  -- what an assistant says beside its calls
  abbrev pub said : String → List Value
  said text =
      if is_empty_text text
      then []
      else obj (field "role" (str "assistant") (field "content" (str text) end)) ∷ []
