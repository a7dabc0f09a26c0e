-- ===== src/Responses/Tools.antt =====
-- app/proxy/chat_completions.py: `_responses_tools` and `_responses_tool_choice`.
use inference_proxy.Prelude.{
  String, Bool, Option, none, some, List, [], ◌∷◌, ◌==◌, if◌then◌else◌, any,
}
use inference_proxy.Text.{lower}
use inference_proxy.Json.{
  Value, str, arr, obj, Fields, end, field, get, has, items, or_value, truthy, is_empty_text,
}

abbrev pub object_schema : Value
object_schema = obj (field "type" (str "object") (field "properties" (obj end) end))

-- the dict that holds the name
abbrev pub function_of : Value → Fields → Fields
function_of (obj fn) tool = fn
function_of _ tool = tool

abbrev pub strict_field : Fields → Fields
strict_field fn = if has "strict" fn then field "strict" (get "strict" fn) end else end

abbrev pub described : Fields → Fields → Fields
described fn rest =
    if truthy (get "description" fn) then field "description" (get "description" fn) rest else rest

abbrev pub parameters : Fields → Value
parameters fn = or_value (get "parameters" fn) (or_value (get "input_schema" fn) object_schema)

unfoldable pub declared : Fields → Fields
unfolding get has
declared fn = field "type" (str "function") (
    field "name" (get "name" fn)
      (field "parameters" (parameters fn) (described fn (strict_field fn))))

-- a tool without a name goes as it stands
abbrev pub named : Fields → Fields → Fields
named tool fn = if truthy (get "name" fn) then declared fn else tool

unfoldable pub responses_tool : Fields → Fields
unfolding get declared
responses_tool tool = named tool (function_of (get "function" tool) tool)

abbrev pub listed : Value → List Value → List Value
listed (obj tool) rest = obj (responses_tool tool) ∷ rest
listed _ rest = rest

unfoldable pub tools_of : List Value → List Value
unfolding responses_tool
tools_of [] = []
tools_of (v ∷ vs) = listed v (tools_of vs)

unfoldable pub responses_tools : Value → List Value
unfolding tools_of
responses_tools (arr vs) = tools_of (items vs)
responses_tools _ = []

abbrev is_choice : String → Bool
is_choice s = any (λ c. s == c) ("auto" ∷ "required" ∷ "none" ∷ [])

abbrev choose : Value → Option Value
choose (str name) =
    if is_empty_text name
    then none
    else some (obj (field "type" (str "function") (field "name" (str name) end)))
choose _ = none

abbrev function_name : Value → Value
function_name (obj fn) = get "name" fn
function_name v = v

unfoldable pub responses_tool_choice : Value → Option Value
unfolding lower get
responses_tool_choice (str s) = if is_choice (lower s) then some (str s) else none
responses_tool_choice (obj choice) =
    choose (or_value (function_name (get "function" choice)) (get "name" choice))
responses_tool_choice _ = none
