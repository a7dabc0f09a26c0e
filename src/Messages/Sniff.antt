-- ===== src/Messages/Sniff.antt =====
-- app/proxy/anthropic.py: `_passthrough_stream`, and what the streamed call does at its end. The
-- chunks come as a list, with a mark that says whether the upstream then died with an HTTP error.
-- `loads` is `json.loads` of bytes, `none` where it raises.
use inference_proxy.Prelude.{
  ℕ, zero, suc, String, Bool, true, false, ◌||◌, Option, none, some, List, [], ◌∷◌, ◌++◌,
  if◌then◌else◌, any, length,
}
use inference_proxy.Text.{contains}
use inference_proxy.Json.{
  Value, str, arr, obj, items, Fields, end, get, has, put, or_value, is_text,
}
use inference_proxy.Messages.Bytes.{
  Bytes, split_event, split_lines, same_bytes, after_prefix, strip, data_prefix, done_mark,
}

-- Where the reading of usage stands, with `usage_holder`. `crashed` is an exception on the way.
pub data Sniffed : Type 0 where
  reading crashed : Fields → Sniffed

abbrev pub then_read : Sniffed → (Fields → Sniffed) → Sniffed
then_read (reading holder) f = f holder
then_read (crashed holder) f = crashed holder

abbrev pub crash_if : Bool → Fields → Sniffed
crash_if b holder = if b then crashed holder else reading holder

-- `if field in usage: usage_holder[field] = usage[field]`, for a value that may be no dict
abbrev pub copy_field : String → Value → Fields → Sniffed
copy_field name (obj usage) holder =
    reading (if has name usage then put name (get name usage) holder else holder)
copy_field name (arr vs) holder = crash_if (any (is_text name) (items vs)) holder
copy_field name (str s) holder = crash_if (contains name s) holder
copy_field name _ holder = crashed holder

-- `x.get(..)` of a value that may be no dict
abbrev pub with_fields : Value → Fields → (Fields → Sniffed) → Sniffed
with_fields (obj fs) holder f = f fs
with_fields _ holder f = crashed holder

abbrev pub part : String → Fields → Value
part name fs = or_value (get name fs) (obj end)

abbrev copy_all : Value → Fields → Sniffed
copy_all usage holder = then_read (copy_field "input_tokens" usage holder) λ holder.
    then_read (copy_field "output_tokens" usage holder) λ holder.
      then_read (copy_field "cache_creation_input_tokens" usage holder)
        λ holder. copy_field "cache_read_input_tokens" usage holder

abbrev read_event : Fields → Fields → Sniffed
read_event parsed holder =
    if is_text "message_start" (get "type" parsed)
    then with_fields (part "message" parsed) holder
        (λ message. copy_all (part "usage" message) holder)
    else if is_text "message_delta" (get "type" parsed)
    then copy_field "output_tokens" (part "usage" parsed) holder
    else reading holder

-- what the `while` comes to: the buffer that is left, an exception, or no more fuel
pub data Drained : Type 0 where
  waiting : Fields → Bytes → Drained
  failed : Fields → Drained
  unfinished : Drained

-- what the caller was sent, and where the reading stands at the end
pub record Passed : Type 0 where
  pub sent : List Bytes
  pub state : Drained

module _ (loads : Bytes → Option Value) where
  abbrev read_parsed : Option Value → Fields → Sniffed
  read_parsed none holder = reading holder
  read_parsed (some parsed) holder = with_fields parsed holder (λ fs. read_event fs holder)

  abbrev is_blank : Bytes → Bool
  is_blank [] = true
  is_blank (b ∷ bs) = false

  abbrev read_data : Bytes → Fields → Sniffed
  read_data payload holder =
      if is_blank payload || same_bytes payload done_mark
      then reading holder
      else read_parsed (loads payload) holder

  abbrev read_after : Option Bytes → Fields → Sniffed
  read_after none holder = reading holder
  read_after (some rest) holder = read_data (strip rest) holder

  unfoldable pub read_line : Bytes → Fields → Sniffed
  unfolding get has put contains same_bytes after_prefix strip
  read_line line holder = read_after (after_prefix data_prefix line) holder

  unfoldable pub read_lines : List Bytes → Fields → Sniffed
  unfolding read_line
  read_lines [] holder = reading holder
  read_lines (line ∷ lines) holder = then_read (read_line line holder) (read_lines lines)

  abbrev pub go_on : Sniffed → (Fields → Drained) → Drained
  go_on (reading holder) f = f holder
  go_on (crashed holder) f = failed holder

  abbrev pub drain_step :
      Option (Bytes × Bytes) → Bytes → Fields → (Bytes → Fields → Drained) → Drained
  drain_step none buffer holder next = waiting holder buffer
  drain_step (some (event, rest)) buffer holder next =
      go_on (read_lines (split_lines event) holder) (next rest)

  -- the `while` loop, on fuel
  unfoldable pub drain_by : ℕ → Bytes → Fields → Drained
  unfolding split_event split_lines read_lines
  drain_by zero buffer holder = unfinished
  drain_by (suc fuel) buffer holder = drain_step (split_event buffer) buffer holder (drain_by fuel)

  unfoldable pub drain : Bytes → Fields → Drained
  unfolding drain_by
  drain buffer holder = drain_by (suc (length buffer)) buffer holder

  abbrev pub pass_on : Drained → (Bytes → Fields → Passed) → Passed
  pass_on (waiting holder buffer) f = f buffer holder
  pass_on d f = record { sent = []; state = d }

  -- the loop over the chunks
  unfoldable pub passthrough_stream : List Bytes → Bytes → Fields → Passed
  unfolding drain
  passthrough_stream [] buffer holder = record { sent = []; state = waiting holder buffer }
  passthrough_stream ([] ∷ chunks) buffer holder = passthrough_stream chunks buffer holder
  passthrough_stream ((b ∷ bs) ∷ chunks) buffer holder =
      let rest = pass_on (drain (buffer ++ b ∷ bs) holder) (passthrough_stream chunks) in
      record { sent = (b ∷ bs) ∷ rest.sent; state = rest.state }
