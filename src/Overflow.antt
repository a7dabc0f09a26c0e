-- ===== src/Overflow.antt =====
-- app/proxy/overflow.py: a turn that did not fit, named the same way on every route. `loads` is
-- `json.loads` of a text, `none` where it raises; bytes are decoded before they come here.
pub mod Relay
mod Tests
use Prim.Native.String
use inference_proxy.Prelude.{
  String, Bool, true, false, Option, none, some, List, [], ◌∷◌, ◌==◌, ◌||◌, if◌then◌else◌, any,
}
use inference_proxy.Text.{lower, contains}
use inference_proxy.Json.{Value, null, str, obj, Fields, end, field, get, is_empty_text}

abbrev pub overflow_code : String
overflow_code = "context_length_exceeded"

overflow_codes : List String
overflow_codes =
    "context_length_exceeded" ∷ "model_context_window_exceeded" ∷ "context_window_exceeded" ∷ []

overflow_phrases : List String
overflow_phrases =
    "prompt is too long" ∷ "context length" ∷ "context window" ∷ "context limit"
    ∷ "exceeds the context" ∷ []

abbrev parsed : Option Value → String → Value
parsed none s = str s
parsed (some v) s = v

abbrev pub as_payload : (String → Option Value) → Value → Value
as_payload loads (str s) = parsed (loads s) s
as_payload loads v = v

-- `d.get(key) is not None`, or the next choice
abbrev present : Value → Value → Value
present null other = other
present v other = v

abbrev nested : Value → Value
nested (obj fs) = get "error" fs
nested _ = null

-- the part of a refusal that describes the failure, in any envelope
unfoldable pub error_object : Value → Value
unfolding get
error_object (obj fs) = present (nested (get "response" fs)) (present (get "error" fs) (obj fs))
error_object v = v

abbrev names_overflow : Value → Bool
names_overflow (str s) = any (λ c. lower s == c) overflow_codes
names_overflow _ = false

abbrev sentence_or_code : Value → String
sentence_or_code (str s) = if is_empty_text s then overflow_code else s
sentence_or_code _ = overflow_code

abbrev says_overflow : Value → Option String
says_overflow (str s) = if any (λ p. contains p (lower s)) overflow_phrases then some s else none
says_overflow _ = none

abbrev read_error : Value → Option String
read_error (str s) = says_overflow (str s)
read_error (obj fs) =
    if names_overflow (get "code" fs) || names_overflow (get "type" fs)
    then some (sentence_or_code (get "message" fs))
    else says_overflow (get "message" fs)
read_error _ = none

-- the upstream's own sentence if the value reports a context overflow
unfoldable pub overflow_message : (String → Option Value) → Value → Option String
unfolding error_object get overflow_codes overflow_phrases
overflow_message loads raw = read_error (error_object (as_payload loads raw))

unfoldable pub prefixed : String → String
unfolding contains
prefixed message =
    if contains overflow_code message
    then message
    else String.◌++◌ "context_length_exceeded: " message

unfoldable pub overflow_error : String → Fields
unfolding prefixed
overflow_error message = field "message" (str (prefixed message)) (
    field "type" (str "invalid_request_error")
      (field "param" null (field "code" (str overflow_code) end)))

unfoldable pub overflow_body : String → Fields
unfolding overflow_error
overflow_body message = field "error" (obj (overflow_error message)) end

unfoldable pub overflow_failed_event : String → Fields
overflow_failed_event message = field "type" (str "response.failed") (
    field "response"
      (obj (
        field "status" (str "failed") (
          field "error" (obj (field "code" (str overflow_code) (field "message" (str message) end)))
            end)))
      end)
