-- ===== src/Upstream/Strip.antt =====
-- app/azure.py: `strip_encrypted_reasoning`, `strip_unsupported_input_fields` and
-- `sanitize_stream_options`, which cut a request body down before it is sent (again).
use inference_proxy.Prelude.{
  ℕ, zero, suc, ◌-◌, String, Bool, true, false, not, Option, none, some, List, [], ◌∷◌, map, ◌==◌,
  if◌then◌else◌, keep, length,
}
use inference_proxy.Json.{
  Value, arr, obj, Fields, end, items, list, get, has, put, keep_keys, is_text,
}

abbrev pub is_reasoning : Value → Bool
is_reasoning (obj fs) = is_text "reasoning" (get "type" fs)
is_reasoning _ = false

abbrev pub is_kept : Value → Bool
is_kept it = not (is_reasoning it)

abbrev pub with_input : Fields → List Value → ℕ → Fields × ℕ
with_input body new zero = (body, 0)
with_input body new (suc n) = (put "input" (list new) body, suc n)

abbrev pub without_reasoning : Fields → Value → Fields × ℕ
without_reasoning body (arr is) =
    with_input body (keep is_kept (items is)) (length (items is) - length (keep is_kept (items is)))
without_reasoning body _ = (body, 0)

unfoldable pub strip_encrypted_reasoning : Fields → Fields × ℕ
unfolding get put
strip_encrypted_reasoning body = without_reasoning body (get "input" body)

abbrev pub unsupported_input_item_field : String
unsupported_input_item_field = "internal_chat_message_metadata_passthrough"

abbrev pub is_unsupported : Value → Bool
is_unsupported (obj fs) = has unsupported_input_item_field fs
is_unsupported _ = false

abbrev pub without_unsupported : Value → Value
without_unsupported (obj fs) = obj (keep_keys (λ k. not (k == unsupported_input_item_field)) fs)
without_unsupported v = v

abbrev pub cleaned : Value → Value
cleaned it = if is_unsupported it then without_unsupported it else it

abbrev pub cleaned_input : Fields → Value → Fields × ℕ
cleaned_input body (arr is) =
    with_input body (map cleaned (items is)) (length (keep is_unsupported (items is)))
cleaned_input body _ = (body, 0)

unfoldable pub strip_unsupported_input_fields : Fields → Fields × ℕ
unfolding get has put keep_keys
strip_unsupported_input_fields body = cleaned_input body (get "input" body)

abbrev pub delivery : String
delivery = "reasoning_summary_delivery"

-- `value in {"sequential_cutoff"}`: `none` is the `TypeError` of a value that has no hash
abbrev pub is_rejected : Value → Option Bool
is_rejected (arr is) = none
is_rejected (obj fs) = none
is_rejected v = some (is_text "sequential_cutoff" v)

abbrev pub with_options : Fields → Fields → Fields
with_options body end = keep_keys (λ k. not (k == "stream_options")) body
with_options body opts = put "stream_options" (obj opts) body

abbrev pub without_delivery : Fields → Fields → Option Bool → Option (Fields × List String)
without_delivery body opts none = none
without_delivery body opts (some false) = some (body, [])
without_delivery body opts (some true) =
    some (with_options body (keep_keys (λ k. not (k == delivery)) opts), delivery ∷ [])

abbrev pub sanitized : Fields → Value → Option (Fields × List String)
sanitized body (obj opts) = without_delivery body opts (is_rejected (get delivery opts))
sanitized body _ = some (body, [])

unfoldable pub sanitize_stream_options : Fields → Option (Fields × List String)
unfolding get put keep_keys
sanitize_stream_options body = sanitized body (get "stream_options" body)
