-- ===== src/Anthropic/Counts.antt =====
-- app/proxy/chat_to_anthropic.py: the token counts of a turn.
pub mod Totals
use inference_proxy.Prelude.{
  String, Option, none, some, List, [], ◌∷◌, map, if◌then◌else◌, all, not, is_some,
}
use inference_proxy.Prelude.Int.{ℤ, pos, ◌+ℤ◌, is_zero}
use inference_proxy.Json.{Value, int, float, str, obj, Fields, end, field, get, python_int}

-- One reported count as an int, or nothing. A text is a count if it is made of the digits 0 to 9.
unfoldable pub as_count : Value → Option ℤ
unfolding python_int
as_count (int z) = python_int (int z)
as_count (float m k) = python_int (float m k)
as_count (str s) = python_int (str s)
as_count _ = none

abbrev pub prompt_fields : List String
prompt_fields = "input_tokens" ∷ "cache_read_input_tokens" ∷ "cache_creation_input_tokens" ∷ []

abbrev pub sum_known : List (Option ℤ) → ℤ
sum_known [] = pos 0
sum_known (none ∷ ks) = sum_known ks
sum_known (some k ∷ ks) = k +ℤ sum_known ks

abbrev pub nonzero : ℤ → Option ℤ
nonzero z = if is_zero z then none else some z

abbrev pub known_counts : Fields → List (Option ℤ)
known_counts captured = map (λ f. as_count (get f captured)) prompt_fields

-- the inclusive prompt total, or nothing if no part of it was reported
unfoldable pub prompt_total : Fields → Option ℤ
unfolding as_count get ◌+ℤ◌
prompt_total captured =
    if all (λ k. not (is_some k)) (known_counts captured)
    then none
    else nonzero (sum_known (known_counts captured))

-- an OpenAI `usage` object
pub record Usage : Type 0 where
  pub prompt_tokens : ℤ
  pub completion_tokens : ℤ
  pub total_tokens : ℤ
  pub cached_tokens : Option ℤ
  pub cache_write_tokens : Option ℤ

abbrev pub or_zero : Option ℤ → ℤ
or_zero none = pos 0
or_zero (some z) = z

abbrev usage_of : Fields → Option ℤ → Option Usage
usage_of usage none = none
usage_of usage (some prompt) =
    let out = or_zero (as_count (get "output_tokens" usage)) in
    some (record {
      prompt_tokens = prompt;
      completion_tokens = out;
      total_tokens = prompt +ℤ out;
      cached_tokens = as_count (get "cache_read_input_tokens" usage);
      cache_write_tokens = as_count (get "cache_creation_input_tokens" usage);
    })

unfoldable pub usage_to_chat : Fields → Option Usage
unfolding prompt_total as_count get ◌+ℤ◌
usage_to_chat usage = usage_of usage (prompt_total usage)

abbrev optional : String → Option ℤ → Fields → Fields
optional k none rest = rest
optional k (some z) rest = field k (int z) rest

abbrev details : Fields → Fields
details end = end
details (field k v fs) = field "prompt_tokens_details" (obj (field k v fs)) end

-- the object as it is sent
unfoldable pub usage_fields : Usage → Fields
usage_fields u = field "prompt_tokens" (int u.prompt_tokens) (
    field "completion_tokens" (int u.completion_tokens) (
      field "total_tokens" (int u.total_tokens) (
        details (
          optional "cached_tokens" u.cached_tokens
            (optional "cache_write_tokens" u.cache_write_tokens end)))))
