-- ===== src/Anthropic/Request/Tools.antt =====
-- app/proxy/chat_to_anthropic.py: tool declarations and the choice among them.
use inference_proxy.Prelude.{String, ◌||◌, Option, none, some, List, [], ◌∷◌, ◌==◌, if◌then◌else◌}
use inference_proxy.Text.{lower}
use inference_proxy.Json.{
  Value, str, arr, obj, Fields, end, field, get, has, items, or_value, truthy, is_text,
  is_empty_text,
}
use inference_proxy.Anthropic.Request.Result.{Result, ok, err, collect, nameless_tool}

pub record Tool : Type 0 where
  pub name : Value
  pub input_schema : Fields
  pub description : Option Value

abbrev no_schema : Fields
no_schema = field "type" (str "object") (field "properties" (obj end) end)

abbrev dict_or_default : Value → Fields
dict_or_default (obj fs) = fs
dict_or_default _ = no_schema

abbrev loaded : Option Value → Fields
loaded none = no_schema
loaded (some v) = dict_or_default v

abbrev given : Value → Option Value
given v = if truthy v then some v else none

module _ (loads : String → Option Value) where
  abbrev schema : Value → Fields
  schema (str s) = loaded (loads s)
  schema v = dict_or_default v

  abbrev declared : Fields → Fields → Result (List Tool)
  declared tool fn =
      if truthy (get "name" fn)
      then ok (
          record {
            name = get "name" fn;
            input_schema = schema (or_value (get "parameters" fn) (get "input_schema" fn));
            description = given (get "description" fn);
          }
          ∷ [])
      else err (nameless_tool (get "type" tool))

  abbrev function_or : Fields → Fields → Fields
  function_or tool other = elim (get "function" tool) [ obj fn ↦ fn | _ ↦ other ]

  unfoldable pub translate_tool : Value → Result (List Tool)
  unfolding get
  translate_tool (obj tool) = declared tool (function_or tool tool)
  translate_tool _ = ok []

  -- `_translate_tools`
  unfoldable pub translate_tools : Value → Result (List Tool)
  unfolding translate_tool collect
  translate_tools (arr tools) = collect translate_tool (items tools)
  translate_tools _ = ok []

pub data Choice : Type 0 where
  auto any none_of_them : Choice
  named : Value → Choice

choice_named : String → Option Choice
choice_named word =
    if word == "auto"
    then some auto
    else if word == "any"
    then some any
    else if word == "none"
    then some none_of_them
    else none

abbrev if_named : Value → Option Choice
if_named (str s) = if is_empty_text s then none else some (named (str s))
if_named _ = none

abbrev inner_name : Value → Value
inner_name (obj fn) = get "name" fn
inner_name v = v

abbrev by_type : Fields → Value → Option Choice
by_type choice (str kind) =
    if (kind == "auto") || (kind == "any") || (kind == "none")
    then choice_named kind
    else if kind == "tool"
    then (if truthy (get "name" choice) then some (named (get "name" choice)) else none)
    else none
by_type choice _ = none

-- `_translate_tool_choice`
unfoldable pub translate_tool_choice : Value → Option Choice
unfolding get has lower choice_named
translate_tool_choice (str word) =
    if lower word == "required" then some any else choice_named (lower word)
translate_tool_choice (obj choice) =
    if is_text "function" (get "type" choice) || has "function" choice
    then if_named (or_value (inner_name (get "function" choice)) (get "name" choice))
    else by_type choice (get "type" choice)
translate_tool_choice _ = none
