-- ===== src/Relay/Lines.antt =====
-- app/proxy/websocket.py: the loop over the lines of one attempt, with its buffer. A client that goes
-- away ends the whole run and is left out. `loads` is `json.loads` of a text, `none` where it raises.
use inference_proxy.Prelude.{
  ℕ, String, Bool, true, ◌||◌, Option, none, some, List, [], ◌∷◌, ◌++◌, map, any, ◌==◌,
  if◌then◌else◌, from_option,
}
use inference_proxy.Text.{strip, starts_with, drop, contains}
use inference_proxy.Json.{Value, str, obj, Fields, end, get, lookup, or_value, is_empty_text}
use inference_proxy.Overflow.{overflow_code, overflow_message, overflow_failed_event}

-- a message to the client: a payload as it came, an overflow event or an error of the proxy
pub data Message : Type 0 where
  text : String → Message
  overflow_event : Fields → Message
  proxy_error : ℕ → Message

-- the variables of an attempt, with what the client was sent and what the row is made from
pub record Turn : Type 0 where
  pub sent : List Message
  pub buffer : List String
  pub flushed : Bool
  pub got_error : Bool
  pub error_type : Value
  pub captured_usage : Value
  pub captured_error : Option Value

-- how the loop is left: at the end of the lines, by `break`, or by an exception
pub data Left : Type 0 where
  over raised : Turn → Left

abbrev kept : String → Option String
kept payload = if is_empty_text payload || (payload == "[DONE]") then none else some payload

unfoldable pub payload_of : String → Option String
unfolding strip starts_with drop
payload_of line =
    let stripped = strip line in
    if is_empty_text stripped
    then none
    else if starts_with stripped "data: "
    then kept (drop 6 stripped)
    else if starts_with stripped "data:"
    then kept (drop 5 stripped)
    else if starts_with stripped "event:"
    then none
    else kept stripped

abbrev pub is_error : String → Bool
is_error payload = contains "\"type\":\"error\"" payload || contains "\"type\": \"error\"" payload

abbrev flush_marks : List String
flush_marks =
    "output_text.delta" ∷ "output_item.added" ∷ "content_part.added" ∷ "response.completed" ∷ []

unfoldable pub flushes : String → Bool
unfolding contains
flushes payload = any (λ mark. contains mark payload) flush_marks

abbrev dict_at : String → Fields → Value
dict_at key event = from_option (obj end) (lookup key event)

abbrev type_in : Value → Value
type_in (obj failure) = from_option (str "") (lookup "type" failure)
type_in _ = str ""

abbrev error_type_of : Option Value → Value
error_type_of (some (obj event)) = type_in (dict_at "error" event)
error_type_of _ = str ""

abbrev usage_in : Value → Value → Value
usage_in before (obj response) = or_value (get "usage" response) (obj end)
usage_in before _ = before

abbrev usage_of : Value → Option Value → Value
usage_of before (some (obj event)) = usage_in before (dict_at "response" event)
usage_of before _ = before

-- the payload goes to the buffer, which is sent at a mark, or is sent at once
unfoldable pub hand_on : String → Turn → Turn
unfolding flushes
hand_on payload t =
    if t.flushed
    then record t { sent = t.sent ++ text payload ∷ [] }
    else if flushes payload
    then record t {
      sent = t.sent ++ map text (t.buffer ++ payload ∷ []);
      buffer = [];
      flushed = true;
    }
    else record t { buffer = t.buffer ++ payload ∷ [] }

unfoldable pub overflowed : String → Turn → Turn
unfolding overflow_failed_event
overflowed sentence t = record t {
  sent = t.sent ++ map text t.buffer ++ overflow_event (overflow_failed_event sentence) ∷ [];
  buffer = [];
  flushed = true;
  got_error = true;
  error_type = str overflow_code;
  captured_error = some (str overflow_code);
}

module _ (loads : String → Option Value) where
  abbrev message_in : Option Value → Option String
  unfolding overflow_message
  message_in none = none
  message_in (some v) = overflow_message loads v

  unfoldable pub overflow_in : String → Option String
  unfolding contains message_in
  overflow_in payload =
      if contains "response.failed" payload || contains "\"error\"" payload
      then message_in (loads payload)
      else none

  unfoldable pub failed : String → Turn → Turn
  unfolding lookup
  failed payload t = record t { got_error = true; error_type = error_type_of (loads payload) }

  unfoldable pub completed : String → Turn → Turn
  unfolding contains get lookup
  completed payload t =
      if contains "response.completed" payload
      then record t { captured_usage = usage_of t.captured_usage (loads payload) }
      else t

  -- what a payload leads to: the end of the loop, or the next line
  pub data Step : Type 0 where
    stop go_on : Turn → Step

  unfoldable pub step_with : String → Turn → Option String → Step
  unfolding overflowed failed completed hand_on contains
  step_with payload t (some sentence) = stop (overflowed sentence t)
  step_with payload t none =
      if is_error payload
      then stop (failed payload t)
      else go_on (hand_on payload (completed payload t))

  abbrev pub follow : Step → (Turn → Left) → Left
  follow (stop t) go = over t
  follow (go_on t) go = go t

  unfoldable pub read_payload : Option String → Turn → (Turn → Left) → Left
  unfolding step_with overflow_in
  read_payload none t go = go t
  read_payload (some payload) t go = follow (step_with payload t (overflow_in payload)) go

  unfoldable pub read_lines : Bool → List String → Turn → Left
  unfolding payload_of read_payload
  read_lines broken [] t = if broken then raised t else over t
  read_lines broken (line ∷ lines) t = read_payload (payload_of line) t (read_lines broken lines)
