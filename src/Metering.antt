-- ===== src/Metering.antt =====
-- app/usage.py: `tokens_from_usage` and `schedule`, and what app/proxy/chat_completions.py hands to
-- them: `_anthropic_usage_to_azure_usage`, `_chat_usage_to_azure_usage` and the end of the streamed
-- Messages call. The address, the duration and the insert itself are left out.
pub mod Streamed
mod Tests
use inference_proxy.Prelude.{
  ℕ, String, Bool, true, false, Option, none, some, List, [], ◌∷◌, if◌then◌else◌,
}
use inference_proxy.Prelude.Int.{ℤ, pos, ◌+ℤ◌}
use inference_proxy.Json.{
  Value, null, bool, int, str, obj, Fields, end, field, get, or_value, truthy,
}
use inference_proxy.Anthropic.Stream.Run.{Ending}

-- the token columns of a usage row
pub record Tokens : Type 0 where
  pub input_tokens : Value
  pub output_tokens : Value
  pub total_tokens : Value
  pub cache_creation_input_tokens : Value
  pub cache_read_input_tokens : Value

pub record UsageRow : Type 0 where
  pub client_id : ℕ
  pub key_id : ℕ
  pub status_code : ℕ
  pub error_type : Option Value
  pub tokens : Tokens

-- What `schedule` does: nothing without a principal, and `crashed` is an exception.
pub data Scheduled : Type 0 where
  skipped crashed : Scheduled
  inserted : UsageRow → Scheduled

abbrev pub with_cached : Fields → Value → Tokens
with_cached usage cached = record {
  input_tokens = get "input_tokens" usage;
  output_tokens = get "output_tokens" usage;
  total_tokens = get "total_tokens" usage;
  cache_creation_input_tokens = get "cache_creation_input_tokens" usage;
  cache_read_input_tokens = cached;
}

abbrev nested_cached : Value → Option Value
nested_cached (obj details) = some (get "cached_tokens" details)
nested_cached _ = none

abbrev pub cache_read : Fields → Value → Option Value
cache_read usage null = nested_cached (
    or_value (get "input_tokens_details" usage)
      (or_value (get "prompt_tokens_details" usage) (obj end)))
cache_read usage v = some v

abbrev pub tokens_with : Fields → Option Value → Option Tokens
tokens_with usage none = none
tokens_with usage (some cached) = some (with_cached usage cached)

-- `none` is the exception where the details are no dict
unfoldable pub tokens_from_usage : Fields → Option Tokens
unfolding get
tokens_from_usage usage = tokens_with usage (cache_read usage (get "cache_read_input_tokens" usage))

abbrev pub row_with : ℕ × ℕ → ℕ → Option Value → Option Tokens → Scheduled
row_with (client, key) status error none = crashed
row_with (client, key) status error (some tokens) = inserted (record {
  client_id = client;
  key_id = key;
  status_code = status;
  error_type = error;
  tokens = tokens;
})

unfoldable pub schedule : Option (ℕ × ℕ) → ℕ → Option Value → Fields → Scheduled
unfolding tokens_from_usage
schedule none status error usage = skipped
schedule (some principal) status error usage =
    row_with principal status error (tokens_from_usage usage)

-- what `isinstance(value, int)` accepts
abbrev whole : Value → Option ℤ
whole (int z) = some z
whole (bool true) = some (pos 1)
whole (bool false) = some (pos 0)
whole _ = none

abbrev plus : Option ℤ → Option ℤ → Value
plus (some a) (some b) = int (a +ℤ b)
plus _ _ = null

unfoldable pub anthropic_usage_to_azure_usage : Fields → Fields
unfolding get ◌+ℤ◌
anthropic_usage_to_azure_usage usage = field "input_tokens" (get "input_tokens" usage) (
    field "output_tokens" (get "output_tokens" usage) (
      field "total_tokens"
        (plus (whole (get "input_tokens" usage)) (whole (get "output_tokens" usage)))
        (field "cache_creation_input_tokens" (get "cache_creation_input_tokens" usage)
          (field "cache_read_input_tokens" (get "cache_read_input_tokens" usage) end))))

abbrev chat_usage_with : Fields → Value → Option Fields
chat_usage_with usage (obj details) = some (
    field "input_tokens" (get "prompt_tokens" usage) (
      field "output_tokens" (get "completion_tokens" usage) (
        field "total_tokens" (get "total_tokens" usage)
          (field "cache_read_input_tokens" (get "cached_tokens" details) end))))
chat_usage_with usage _ = none

-- `none` is the exception where the details are no dict
unfoldable pub chat_usage_to_azure_usage : Fields → Option Fields
unfolding get
chat_usage_to_azure_usage usage =
    chat_usage_with usage (or_value (get "prompt_tokens_details" usage) (obj end))

abbrev pub status_for : Option Value → ℕ
status_for none = 200
status_for (some error) = if truthy error then 502 else 200

-- the `finally` of the streamed Messages call, on how the stream ended
unfoldable pub stream_row : Option (ℕ × ℕ) → Ending → Scheduled
unfolding schedule anthropic_usage_to_azure_usage
stream_row principal ending =
    schedule principal (status_for ending.error_type) ending.error_type
      (anthropic_usage_to_azure_usage ending.usage)
