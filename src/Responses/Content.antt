-- ===== src/Responses/Content.antt =====
-- app/proxy/chat_completions.py: `_responses_content`.
use inference_proxy.Prelude.{String, Bool, List, [], ◌∷◌, if◌then◌else◌, any}
use inference_proxy.Json.{
  Value, str, arr, obj, Fields, end, field, get, items, list, or_value, is_text, is_empty_text,
}
use inference_proxy.Anthropic.Request.Result.{
  Result, ok, err, ◌>>=◌, collect, no_image_url, no_equivalent,
}
use inference_proxy.Anthropic.Request.Content.{text_part_types, image_part_types}

-- the spelling of a text part, by whether the role is "assistant"
abbrev pub text_type : Bool → String
text_type assistant = if assistant then "output_text" else "input_text"

abbrev pub text_item : Bool → Value → Value
text_item assistant v = obj (field "type" (str (text_type assistant)) (field "text" v end))

abbrev pub image_item : String → Value
image_item url = obj (field "type" (str "input_image") (field "image_url" (str url) end))

-- `kind in (..)`
abbrev pub is_among : List String → Value → Bool
is_among names kind = any (λ name. is_text name kind) names

abbrev pub inner_url : Value → Value
inner_url (obj fs) = get "url" fs
inner_url v = v

abbrev pub image_of : Value → Result (List Value)
image_of (str url) = if is_empty_text url then err no_image_url else ok (image_item url ∷ [])
image_of _ = err no_image_url

abbrev pub convert : Bool → Fields → Result (List Value)
convert assistant part =
    if is_among text_part_types (get "type" part)
    then ok (text_item assistant (or_value (get "text" part) (str "")) ∷ [])
    else if is_among image_part_types (get "type" part)
    then image_of (inner_url (or_value (get "image_url" part) (get "url" part)))
    else err (no_equivalent (get "type" part))

unfoldable pub responses_part : Bool → Value → Result (List Value)
unfolding get
responses_part assistant (str s) = ok (text_item assistant (str s) ∷ [])
responses_part assistant (obj part) = convert assistant part
responses_part assistant _ = ok []

abbrev pub as_list : Result (List Value) → Result Value
as_list r = do parts ← r; ok (list parts)

unfoldable pub responses_content : Bool → Value → Result Value
unfolding responses_part collect
responses_content assistant (arr parts) = as_list (collect (responses_part assistant) (items parts))
responses_content assistant v = ok v
