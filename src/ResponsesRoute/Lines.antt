-- ===== src/ResponsesRoute/Lines.antt =====
-- app/proxy/responses.py: the lines of a stream that goes by, `_normalized_overflow_line` and
-- `passthrough`. `loads` is `json.loads` of a text, `none` where it raises. An event that is put in
-- the place of a line is kept without the text of its JSON.
use Prim.Native.String
use inference_proxy.Prelude.{
  String, Bool, true, ◌||◌, Option, none, some, List, [], ◌∷◌, ◌==◌, if◌then◌else◌, from_option,
}
use inference_proxy.Text.{strip, starts_with, drop}
use inference_proxy.Json.{
  Value, str, obj, Fields, end, get, lookup, or_value, is_text, is_empty_text,
}
use inference_proxy.Overflow.{overflow_code, overflow_message, overflow_failed_event}
use inference_proxy.Metering.{Scheduled, skipped, schedule}
use inference_proxy.Completions.Answers.{Principal}

-- what the caller is sent for a line
pub data Line : Type 0 where
  passed : String → Line
  renamed : Fields → Line

-- what `_normalized_overflow_line` comes to: None, a line in the place of the other, or an exception
pub data Named : Type 0 where
  untouched garbled : Named
  replaced : Fields → Named

abbrev is_failure : Fields → Bool
is_failure event =
    is_text "response.failed" (get "type" event) || is_text "error" (get "type" event)

abbrev by_code : Fields → String → Value → Named
unfolding overflow_failed_event get
by_code event message (obj failure) =
    if is_text overflow_code (get "code" failure)
    then untouched
    else replaced (overflow_failed_event message)
by_code event message _ = replaced (overflow_failed_event message)

abbrev of_response : Fields → String → Value → Named
unfolding by_code get
of_response event message (obj response) = by_code event message (get "error" response)
of_response event message _ = garbled

abbrev rename : Fields → Option String → Named
unfolding by_code of_response get
rename event none = untouched
rename event (some message) =
    if is_text "response.failed" (get "type" event)
    then of_response event message (or_value (get "response" event) (obj end))
    else by_code event message (get "error" event)

-- the usage and the error that the row is made from
pub record Noted : Type 0 where
  pub usage : Value
  pub error : Option Value

-- what was sent, what was noted, and whether an exception ended the loop
pub record Passed : Type 0 where
  pub sent : List Line
  pub noted : Noted
  pub failed : Bool

abbrev noted_usage : Noted → Value → Option Noted
unfolding get
noted_usage n (obj response) = some (record n { usage = or_value (get "usage" response) (obj end) })
noted_usage n _ = none

abbrev noted_error : Noted → Value → Option Noted
unfolding lookup
noted_error n (obj failure) =
    some (record n { error = some (from_option (str "stream_error") (lookup "type" failure)) })
noted_error n _ = none

-- `event.get(key, {})`
abbrev dict_at : String → Fields → Value
dict_at key event = from_option (obj end) (lookup key event)

abbrev note_event : Fields → Noted → Option Noted
unfolding noted_usage noted_error get lookup
note_event event n =
    if is_text "response.completed" (get "type" event)
    then noted_usage n (dict_at "response" event)
    else if is_text "error" (get "type" event)
    then noted_error n (dict_at "error" event)
    else some n

abbrev note_parsed : Option Value → Noted → Option Noted
unfolding note_event
note_parsed none n = some n
note_parsed (some (obj event)) n = note_event event n
note_parsed (some v) n = none

module _ (loads : String → Option Value) where
  abbrev named_event : Option Value → Named
  unfolding rename get overflow_message
  named_event (some (obj event)) =
      if is_failure event then rename event (overflow_message loads (obj event)) else untouched
  named_event _ = untouched

  abbrev named_payload : String → Named
  unfolding named_event
  named_payload payload =
      if is_empty_text payload || (payload == "[DONE]")
      then untouched
      else named_event (loads payload)

  -- `_normalized_overflow_line`
  unfoldable pub normalized_overflow_line : String → Named
  unfolding starts_with strip drop named_payload
  normalized_overflow_line stripped =
      if starts_with stripped "data:" then named_payload (strip (drop 5 stripped)) else untouched

  abbrev note_payload : String → Noted → Option Noted
  unfolding note_parsed
  note_payload payload n =
      if is_empty_text payload || (payload == "[DONE]")
      then some n
      else note_parsed (loads payload) n

  -- what a line that is passed on adds to the row
  unfoldable pub note_line : String → Noted → Option Noted
  unfolding starts_with drop note_payload
  note_line stripped n =
      if starts_with stripped "data: "
      then note_payload (drop 6 stripped) n
      else if starts_with stripped "data:"
      then note_payload (drop 5 stripped) n
      else some n

  abbrev ended : Bool → Noted → Passed
  ended failed n = record { sent = []; noted = n; failed = failed }

  abbrev go_on : Option Noted → Noted → (Noted → Passed) → Passed
  go_on none before go = ended true before
  go_on (some n) before go = go n

  abbrev overflowed : Noted → Noted
  overflowed n = record n { error = some (str overflow_code) }

  abbrev pass_line : String → Named → Noted → (Noted → Passed) → Passed
  unfolding note_line
  pass_line line untouched n go =
      let rest = go_on (note_line (strip line) n) n go in
      record rest { sent = passed (String.◌++◌ line "\n") ∷ rest.sent }
  pass_line line garbled n go = ended true n
  pass_line line (replaced event) n go =
      let rest = go (overflowed n) in record rest { sent = renamed event ∷ rest.sent }

  unfoldable pub passthrough : Bool → List String → Noted → Passed
  unfolding strip normalized_overflow_line pass_line
  passthrough broken [] n = ended broken n
  passthrough broken (line ∷ lines) n =
      pass_line line (normalized_overflow_line (strip line)) n (passthrough broken lines)

abbrev pub nothing_noted : Noted
nothing_noted = record { usage = obj end; error = none }

-- the row of a stream; a usage that is no dict raises
unfoldable pub stream_row : Principal → Noted → Scheduled
unfolding schedule
stream_row none n = skipped
stream_row principal n = elim n.usage [
  | obj usage ↦ schedule principal 200 n.error usage
  | _ ↦ Scheduled.crashed
]
