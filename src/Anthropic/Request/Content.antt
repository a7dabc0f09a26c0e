-- ===== src/Anthropic/Request/Content.antt =====
-- app/proxy/chat_to_anthropic.py: a message's content as Anthropic blocks.
use Prim.Native.String
use inference_proxy.Prelude.{
  ℕ, suc, String, Bool, true, false, not, ◌||◌, Option, none, some, List, [], ◌∷◌, ◌++◌, ◌==◌,
  if◌then◌else◌, any,
}
use inference_proxy.Text.{starts_with, drop, partition, split}
use inference_proxy.Json.{
  Value, null, str, arr, obj, Fields, end, field, get, has, items, or_value, truthy, is_text,
  is_empty_text,
}
use inference_proxy.Anthropic.Request.Result.{
  Result, ok, err, ◌>>=◌, collect, no_image_source, no_image_data, no_text, crash,
}

-- An Anthropic block. `thinking` carries a block of that type, or of type `redacted_thinking`, as
-- the caller sent it back.
pub data Block : Type 0 where
  text : String → Block
  image : Fields → Block
  thinking : Fields → Block
  tool_use : Value → Value → Fields → Block
  tool_result : Value → String → Block

-- membership in a set of texts, which raises for a value that cannot be hashed
unfoldable pub one_of : List String → Value → Result Bool
one_of names (str s) = ok (any (λ n. s == n) names)
one_of names (arr vs) = err crash
one_of names (obj fs) = err crash
one_of names _ = ok false

abbrev pub text_part_types : List String
text_part_types = "text" ∷ "input_text" ∷ "output_text" ∷ []

abbrev pub image_part_types : List String
image_part_types = "image_url" ∷ "image" ∷ "input_image" ∷ []

-- a value that `"".join` takes
abbrev joined : Value → Result (List String)
joined (str s) = ok (s ∷ [])
joined _ = err crash

abbrev text_if : Fields → Bool → Result (List String)
text_if part true = joined (or_value (get "text" part) (str ""))
text_if part false = ok []

text_of_part : Value → Result (List String)
unfolding get one_of
text_of_part (obj part) = do known ← one_of text_part_types (get "type" part); text_if part known
text_of_part (str s) = ok (s ∷ [])
text_of_part _ = ok []

unfoldable pub join : List String → String
join [] = ""
join (s ∷ rest) = String.◌++◌ s (join rest)

-- `_text_of`
unfoldable pub text_of : (Value → String) → Value → Result String
unfolding text_of_part collect join
text_of dumps (str s) = ok s
text_of dumps (arr vs) = do parts ← collect text_of_part (items vs); ok (join parts)
text_of dumps null = ok ""
text_of dumps v = ok (dumps v)

abbrev or_png : String → String
or_png s = if is_empty_text s then "image/png" else s

abbrev head : List String → String
head [] = ""
head (s ∷ rest) = s

abbrev base64 : String → String → Fields
base64 media data_text =
    field "type" (str "base64") (field "media_type" (str media) (field "data" (str data_text) end))

abbrev data_source : Option (String × String) → Result Fields
data_source none = err no_image_data
data_source (some (header, body)) =
    if is_empty_text body
    then err no_image_data
    else ok (base64 (or_png (head (split b';' (drop 5 header)))) body)

abbrev url_source : String → Result Fields
url_source url =
    if starts_with url "data:"
    then data_source (partition b',' url)
    else ok (field "type" (str "url") (field "url" (str url) end))

abbrev from_url : Value → Result Fields
from_url (str url) = if is_empty_text url then err no_image_source else url_source url
from_url _ = err no_image_source

abbrev inner_url : Value → Value
inner_url (obj fs) = get "url" fs
inner_url v = v

abbrev pub typed_source : Value → Option Fields
typed_source (obj source) = if truthy (get "type" source) then some source else none
typed_source _ = none

abbrev pub image_source : Option Fields → Fields → Result Fields
image_source (some source) part = ok source
image_source none part = from_url (inner_url (or_value (get "image_url" part) (get "url" part)))

-- `_image_block`
unfoldable pub image_block : Fields → Result Block
unfolding get starts_with drop partition split
image_block part = do
  source ← image_source (typed_source (get "source" part)) part
  ok (image source)

abbrev pub text_block : String → List Block
text_block s = if is_empty_text s then [] else text s ∷ []

abbrev pub is_nonempty_text : Value → Bool
is_nonempty_text (str s) = not (is_empty_text s)
is_nonempty_text _ = false

-- the text under `text`, or under `content` where `text` holds none
abbrev pub part_text : Fields → Value
part_text part = elim (get "text" part) [ str s ↦ str s | _ ↦ get "content" part ]

abbrev pub textual : Value → List Block
textual (str s) = text s ∷ []
textual _ = []

abbrev pub unknown : Fields → Bool → Result (List Block)
unknown part true = ok []
unknown part false = err (no_text (get "type" part))

abbrev pub text_part : Fields → Result (List Block)
text_part part =
    if is_nonempty_text (part_text part)
    then ok (textual (part_text part))
    else do known ← one_of text_part_types (get "type" part); unknown part known

abbrev pub one_image : Fields → Result (List Block)
one_image part = do block ← image_block part; ok (block ∷ [])

unfoldable pub part_blocks : Value → Result (List Block)
unfolding get has one_of image_block
part_blocks (str s) = ok (text_block s)
part_blocks (obj part) = do
  kind ← one_of image_part_types (get "type" part)
  if kind || has "image_url" part then one_image part else text_part part
part_blocks _ = ok []

-- `_content_blocks`
unfoldable pub content_blocks : (Value → String) → Value → Result (List Block)
unfolding part_blocks collect text_of
content_blocks dumps (str s) = ok (text_block s)
content_blocks dumps (arr vs) = collect part_blocks (items vs)
content_blocks dumps v = do s ← text_of dumps v; ok (text_block s)

abbrev is_thinking : Value → Bool
is_thinking v = is_text "thinking" v || is_text "redacted_thinking" v

abbrev pub thinking_block : Value → List Block
thinking_block (obj block) = if is_thinking (get "type" block) then thinking block ∷ [] else []
thinking_block _ = []

unfoldable pub thinking_blocks : List Value → List Block
unfolding get
thinking_blocks [] = []
thinking_blocks (v ∷ vs) = thinking_block v ++ thinking_blocks vs

-- `_reasoning_blocks`
unfoldable pub reasoning_blocks : Value → List Block
unfolding thinking_blocks
reasoning_blocks (arr vs) = thinking_blocks (items vs)
reasoning_blocks _ = []

-- `_tool_result_block`
unfoldable pub tool_result_block : (Value → String) → Fields → Result Block
unfolding get text_of
tool_result_block dumps message = do
  content ← text_of dumps (get "content" message)
  ok (
      tool_result (or_value (get "tool_call_id" message) (or_value (get "id" message) (str "")))
        content)

module _ (loads : String → Option Value) (mint : ℕ → ℕ → String) where
  abbrev raw_arguments : Value → Fields
  raw_arguments v = field "__raw_arguments" v end

  abbrev as_input : Value → Fields
  as_input (obj fs) = fs
  as_input v = raw_arguments v

  abbrev parsed_text : String → Option Value → Fields
  parsed_text s none = raw_arguments (str s)
  parsed_text s (some v) = as_input v

  -- the arguments as an object
  unfoldable pub arguments : Value → Fields
  arguments (obj fs) = fs
  arguments (arr vs) = raw_arguments (arr vs)
  arguments (str s) = if is_empty_text s then end else parsed_text s (loads s)
  arguments v = if truthy v then raw_arguments v else end

  -- the dict that holds the name and the arguments
  abbrev function_of : Fields → Fields
  function_of call = elim (get "function" call) [
    | obj fs ↦ fs
    | _ ↦ if truthy (get "name" call) then call else end
  ]

  abbrev pub tool_use_block : ℕ → ℕ → Value → List Block
  tool_use_block i j (obj call) =
      tool_use (or_value (get "id" call) (str (mint i j)))
        (or_value (get "name" (function_of call)) (or_value (get "name" call) (str "")))
        (arguments (get "arguments" (function_of call)))
      ∷ []
  tool_use_block i j _ = []

  unfoldable pub calls_from : ℕ → ℕ → List Value → List Block
  unfolding get arguments
  calls_from i j [] = []
  calls_from i j (call ∷ calls) = tool_use_block i j call ++ calls_from i (suc j) calls

  -- `_tool_use_blocks`
  unfoldable pub tool_use_blocks : ℕ → Value → List Block
  unfolding calls_from
  tool_use_blocks i (arr calls) = calls_from i 0 (items calls)
  tool_use_blocks i _ = []
